-- ===== src/Runtime/Offsets/Laws.antt =====
-- The polling offset never decreases, and acknowledges exactly what was fetched.
use startprojectformillion.Base.{
  ℕ, zero, suc, ◌+◌, ◌≤◌, ◌<◌, Option, none, some, List, [], ◌∷◌, ◌≡◌, ◌⊎◌, inl, inr, refl, arith,
  All, ltb, Bool-cases,
}
use startprojectformillion.Shared.{ok}
use startprojectformillion.Shared.Validation.{ℤ, pos, negsuc}
use startprojectformillion.Runtime.Offsets.{
  UpdateField, valid_update_ids, max_nat, max_of, extract_next_offset_from_raw_updates,
  advance_polling_offset,
}

-- `n` is one of the numbers.
abbrev pub Occurs : ℕ → List ℕ → Type 0
Occurs n [] = ⊥
Occurs n (m ∷ ms) = (n ≡ m) ⊎ Occurs n ms

max_of_bounds : (n : ℕ) (ms : List ℕ) → (n ≤ max_of n ms) × All (λ m. m ≤ max_of n ms) ms
unfolding max_of
max_of_bounds n [] = (omega arith, tt)
max_of_bounds n (m ∷ ms) =
    let ih = max_of_bounds (max_nat n m) ms in (ground (arith, ih.0), (ground (arith, ih.0), ih.1))

max_of-Occurs : (n : ℕ) (ms : List ℕ) → Occurs (max_of n ms) (n ∷ ms)
unfolding max_of
max_of-Occurs n [] = inl refl
max_of-Occurs n (m ∷ ms) = ground (arith, max_of-Occurs (max_nat n m) ms)

-- An offset that the program can hold: none yet, or positive.
abbrev pub IsOffset : Option ℤ → Type 0
IsOffset none = Unit
IsOffset (some (pos n)) = 0 < n
IsOffset (some (negsuc n)) = ⊥

-- The number that an offset stands for; no offset is below every one.
abbrev pub offset_value : Option ℤ → ℕ
offset_value (some (pos n)) = n
offset_value _ = 0

-- The new offset is an offset, not below the old one and above every valid id of the batch; and it is
-- the old one or the successor of an id of the batch.
pub record Advances (current : Option ℤ) (us : List UpdateField) (next : Option ℤ) : Type 0 where
  pub is_offset : IsOffset next
  pub grows : offset_value current ≤ offset_value next
  pub covers : All (λ n. n < offset_value next) (valid_update_ids us)
  pub exact :
      (next ≡ current) ⊎ ((n : ℕ) × (next ≡ some (pos (n + 1))) × Occurs n (valid_update_ids us))

All-map : {P Q : ℕ → Type 0} (f : (n : ℕ) → P n → Q n) (ns : List ℕ) → All P ns → All Q ns
All-map f [] h = tt
All-map f (n ∷ ns) h = (f n h.0, All-map f ns h.1)

advance_from :
    (current : Option ℤ) (us : List UpdateField) (n : ℕ) (ns : List ℕ)
    → IsOffset current
    → valid_update_ids us ≡ n ∷ ns
    → (next : Option ℤ) × (advance_polling_offset current us ≡ ok next) × Advances current us next
unfolding advance_polling_offset extract_next_offset_from_raw_updates
advance_from none us n ns h e =
    let b = max_of_bounds n ns in
    (
      some (pos (max_of n ns + 1)),
      ground arith,
      record {
        is_offset = omega arith;
        grows = omega arith;
        covers = rw e (omega (arith, b.0), All-map (λ m q. omega (arith, q)) ns b.1);
        exact = inr (max_of n ns, refl, rw e (max_of-Occurs n ns));
      },
    )
advance_from (some (negsuc k)) us n ns h e = absurd h
advance_from (some (pos zero)) us n ns h e = absurd (omega arith)
advance_from (some (pos (suc k))) us n ns h e =
    let b = max_of_bounds n ns in
    let top : ℕ = max_nat (suc k) (max_of n ns + 1) in
    let above : max_of n ns < top = ground arith in
    (
      some (pos top),
      ground arith,
      record {
        is_offset = ground arith;
        grows = ground arith;
        covers = rw e (omega (arith, b.0, above), All-map (λ m q. omega (arith, q, above)) ns b.1);
        exact = elim (Bool-cases (ltb (suc k) (max_of n ns + 1))) [
          | inl less ↦ inr (max_of n ns, rw less, rw e (max_of-Occurs n ns))
          | inr not_less ↦ inl (rw not_less)
        ];
      },
    )

advance_stays :
    (current : Option ℤ) (us : List UpdateField)
    → IsOffset current
    → valid_update_ids us ≡ []
    → (next : Option ℤ) × (advance_polling_offset current us ≡ ok next) × Advances current us next
unfolding advance_polling_offset extract_next_offset_from_raw_updates
advance_stays none us h e = (
  none,
  ground arith,
  record { is_offset = tt; grows = omega arith; covers = rw e tt; exact = inl refl },
)
advance_stays (some (negsuc k)) us h e = absurd h
advance_stays (some (pos zero)) us h e = absurd (omega arith)
advance_stays (some (pos (suc k))) us h e = (
  some (pos (suc k)),
  ground arith,
  record { is_offset = h; grows = omega arith; covers = rw e tt; exact = inl refl },
)

List-cases : (l : List ℕ) → (l ≡ []) ⊎ ((n : ℕ) × (ns : List ℕ) × (l ≡ n ∷ ns))
List-cases [] = inl refl
List-cases (n ∷ ns) = inr (n, ns, refl)

-- From an offset that the program can hold `advance_polling_offset` does not raise, and the offset
-- that it returns advances over the batch.
pub advance_polling_offset_lem :
    (current : Option ℤ) (us : List UpdateField)
    → IsOffset current
    → (next : Option ℤ) × (advance_polling_offset current us ≡ ok next) × Advances current us next
advance_polling_offset_lem current us h = elim (List-cases (valid_update_ids us)) [
  | inl e ↦ advance_stays current us h e
  | inr (n, ns, e) ↦ advance_from current us n ns h e
]
