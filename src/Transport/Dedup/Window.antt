-- ===== src/Transport/Dedup/Window.antt =====
-- What the guard holds within the time to live of an update, and where it holds it for longer.
use startprojectformillion.Base.{
  ℕ, suc, ◌+◌, ◌<◌, ◌≤◌, Bool, true, false, ◌&&◌, ◌||◌, List, [], ◌∷◌, ◌++◌, leb, nat_beq, is_some,
  ◌≡◌, arith, All, ◌==◌, ==-refl, nat_eq, string_eq, pair_eq, length, length-append, Option-cases,
  Bool-cases, inl, inr, refl,
}
use startprojectformillion.Transport.Dedup.{
  DedupKey, SeenEntries, Guard, find_seen, remove_seen, drop_expired, evict_expired, evict_overflow,
  mark_if_first_seen,
}
use startprojectformillion.Transport.Dedup.Seen.{Delivery, OtherThan, after}

-- An entry for the key, of this time, with at most this many entries after it.
unfoldable held : DedupKey → ℕ → ℕ → SeenEntries → Bool
held key t n [] = false
held key t n ((k, u) ∷ rest) =
    let later : Bool = held key t n rest in
    (k == key && (nat_beq u t && leb (length rest) n)) || later

held-find :
    (key : DedupKey) (t n : ℕ) (seen : SeenEntries)
    → held key t n seen ≡ true
    → is_some (find_seen key seen) ≡ true
unfolding held find_seen
held-find key t n [] h = ground arith
held-find key t n ((k, u) ∷ rest) h = ground (arith, held-find key t n rest)

held-drop :
    (key : DedupKey) (t n ttl now : ℕ) (seen : SeenEntries)
    → now < t + ttl
    → held key t n seen ≡ true
    → held key t n (drop_expired ttl now seen) ≡ true
unfolding held drop_expired
held-drop key t n ttl now [] soon h = h
held-drop key t n ttl now ((k, u) ∷ rest) soon h = ground (arith, held-drop key t n ttl now rest)

held-expired :
    (key : DedupKey) (t n ttl now : ℕ) (seen : SeenEntries)
    → t ≤ now
    → now < t + ttl
    → held key t n seen ≡ true
    → held key t n (evict_expired ttl now seen) ≡ true
unfolding evict_expired
held-expired key t n ttl now seen started soon h =
    ground (arith, held-drop key t n ttl now seen soon h)

length-remove : (key : DedupKey) (seen : SeenEntries) → length (remove_seen key seen) ≤ length seen
unfolding remove_seen
length-remove key [] = omega arith
length-remove key ((k, u) ∷ rest) = ground (arith, length-remove key rest)

held-remove :
    (key k : DedupKey) (t n : ℕ) (seen : SeenEntries)
    → (k == key) ≡ false
    → held key t n seen ≡ true
    → held key t n (remove_seen k seen) ≡ true
unfolding held remove_seen
held-remove key k t n [] other h = h
held-remove key k t n ((j, u) ∷ rest) other h = elim (Bool-cases (j == k)) [
  | inl same ↦
      let not_key : (j == key) ≡ false = (rw ((pair_eq.beq_iff j k).0 same) other) in
      ground (arith, same, not_key)
  | inr differs ↦ ground (arith, held-remove key k t n rest other, length-remove k rest)
]

held-append :
    (key k : DedupKey) (t u n : ℕ) (seen : SeenEntries)
    → held key t n seen ≡ true
    → held key t (suc n) (seen ++ (k, u) ∷ []) ≡ true
unfolding held
held-append key k t u n [] h = ground arith
held-append key k t u n ((j, v) ∷ rest) h =
    ground (arith, held-append key k t u n rest, length-append rest ((k, u) ∷ []))

held-overflow :
    (key : DedupKey) (t n limit : ℕ) (seen : SeenEntries)
    → n < limit
    → held key t n seen ≡ true
    → held key t n (evict_overflow limit seen) ≡ true
unfolding held evict_overflow
held-overflow key t n limit [] small h = h
held-overflow key t n limit (e ∷ rest) small h = ground (arith, held-overflow key t n limit rest)

-- A call for another key, in time, keeps the entry with one more after it.
held-mark :
    (key k : DedupKey) (t n now : ℕ) (g : Guard)
    → (k == key) ≡ false
    → suc n < g.max_entries
    → t ≤ now
    → now < t + g.ttl_seconds
    → held key t n g.seen ≡ true
    → held key t (suc n) (mark_if_first_seen k now g).1.seen ≡ true
unfolding mark_if_first_seen
held-mark key k t n now g other small started soon h =
    let live : SeenEntries = evict_expired g.ttl_seconds now g.seen in
    let alive = held-expired key t n g.ttl_seconds now g.seen started soon h in
    elim (Option-cases (find_seen k live)) [
      | inl new ↦
          rw (new, mark_if_first_seen)
            (held-overflow key t (suc n) g.max_entries _ small
              (held-append key k t now n live alive))
      | inr (u, seen) ↦
          rw (seen, mark_if_first_seen)
            (held-append key k t u n _ (held-remove key k t n live other alive))
    ]

settings-mark :
    (k : DedupKey) (now : ℕ) (g : Guard)
    → let g' = (mark_if_first_seen k now g).1 in
      (g'.ttl_seconds ≡ g.ttl_seconds) × (g'.max_entries ≡ g.max_entries)
unfolding mark_if_first_seen
settings-mark k now g = ground arith

-- Another update's delivery within the time to live.
abbrev pub Between : DedupKey → ℕ → ℕ → Delivery → Type 0
Between key t end delivery = OtherThan key delivery × (t ≤ delivery.1) × (delivery.1 < end)

held-after :
    (key : DedupKey) (t n now : ℕ) (others : List Delivery) (g : Guard)
    → n + length others < g.max_entries
    → t ≤ now
    → now < t + g.ttl_seconds
    → All (Between key t (t + g.ttl_seconds)) others
    → held key t n g.seen ≡ true
    → (mark_if_first_seen key now (after others g)).0 ≡ false
unfolding after mark_if_first_seen
held-after key t n now [] g small started soon between h =
    let live : SeenEntries = evict_expired g.ttl_seconds now g.seen in
    let there =
      held-find key t n live (held-expired key t n g.ttl_seconds now g.seen started soon h) in
    elim (Option-cases (find_seen key live)) [
      | inl new ↦ ground (arith, there, new)
      | inr (u, seen) ↦ rw (seen, mark_if_first_seen) refl
    ]
held-after key t n now ((k, u) ∷ rest) g small started soon ((other, from, to), between) h =
    let g' : Guard = (mark_if_first_seen k u g).1 in
    let same = settings-mark k u g in
    held-after key t (suc n) now rest g' (rw same.1 (omega (arith, small))) started (rw same.0 soon)
      (rw same.0 between) (held-mark key k t n u g other (omega (arith, small)) from to h)

held_self :
    (key : DedupKey) (t : ℕ) (seen : SeenEntries) → held key t 0 (seen ++ (key, t) ∷ []) ≡ true
unfolding held
held_self key t [] = rw (==-refl key) ground arith
held_self key t ((k, u) ∷ rest) = ground (arith, held_self key t rest)

held-first :
    (key : DedupKey) (t : ℕ) (g : Guard)
    → (mark_if_first_seen key t g).0 ≡ true
    → 0 < g.max_entries
    → held key t 0 (mark_if_first_seen key t g).1.seen ≡ true
unfolding mark_if_first_seen
held-first key t g first room =
    let live : SeenEntries = evict_expired g.ttl_seconds t g.seen in
    elim (Option-cases (find_seen key live)) [
      | inl new ↦
          rw (new, mark_if_first_seen)
            (held-overflow key t 0 g.max_entries _ room (held_self key t live))
      | inr (u, seen) ↦ ground (arith, first, seen)
    ]

-- An update that was accepted is rejected when it is delivered again within its time to live, if
-- fewer deliveries than the bound on the entries came between, each of another update and within
-- that time.
pub redelivery_is_rejected :
    (key : DedupKey) (t now : ℕ) (others : List Delivery) (g : Guard)
    → (mark_if_first_seen key t g).0 ≡ true
    → length others < g.max_entries
    → t ≤ now
    → now < t + g.ttl_seconds
    → All (Between key t (t + g.ttl_seconds)) others
    → (mark_if_first_seen key now (after others (mark_if_first_seen key t g).1)).0 ≡ false
redelivery_is_rejected key t now others g first small started soon between =
    let same = settings-mark key t g in
    held-after key t 0 now others (mark_if_first_seen key t g).1 (rw same.1 (omega (arith, small)))
      started (rw same.0 soon) (rw same.0 between) (held-first key t g first (omega (arith, small)))
