-- ===== src/Transport/Dedup/Seen.antt =====
-- The guard keeps a bounded number of updates, and rejects none that it has not seen.
use startprojectformillion.Base.{
  ℕ, suc, ◌≤◌, true, false, none, some, List, [], ◌∷◌, ◌++◌, ◌≡◌, arith, All, ◌==◌, nat_eq,
  string_eq, pair_eq, length, length-append, Option-cases, inl, inr, refl,
}
use startprojectformillion.Transport.Dedup.{
  DedupKey, SeenEntries, Guard, find_seen, remove_seen, drop_expired, evict_expired, evict_overflow,
  mark_if_first_seen,
}

-- One delivery of an update: its key, and when it came.
abbrev pub Delivery : Type 0
Delivery = DedupKey × ℕ

-- The guard after some deliveries.
unfoldable pub after : List Delivery → Guard → Guard
unfolding mark_if_first_seen
after [] g = g
after ((k, now) ∷ rest) g = after rest (mark_if_first_seen k now g).1

abbrev pub OtherThan : DedupKey → Delivery → Type 0
OtherThan key delivery = (delivery.0 == key) ≡ false

-- A key that is not there is not there after the steps of a call for another key.
find-remove :
    (key k : DedupKey) (seen : SeenEntries)
    → find_seen key seen ≡ none
    → find_seen key (remove_seen k seen) ≡ none
unfolding find_seen remove_seen
find-remove key k [] h = refl
find-remove key k ((j, t) ∷ rest) h = ground (arith, find-remove key k rest)

find-append :
    (key k : DedupKey) (t : ℕ) (seen : SeenEntries)
    → (k == key) ≡ false
    → find_seen key seen ≡ none
    → find_seen key (seen ++ (k, t) ∷ []) ≡ none
unfolding find_seen
find-append key k t [] other h = ground arith
find-append key k t ((j, u) ∷ rest) other h = ground (arith, find-append key k t rest other)

find-drop :
    (key : DedupKey) (ttl now : ℕ) (seen : SeenEntries)
    → find_seen key seen ≡ none
    → find_seen key (drop_expired ttl now seen) ≡ none
unfolding find_seen drop_expired
find-drop key ttl now [] h = refl
find-drop key ttl now ((j, u) ∷ rest) h = ground (arith, find-drop key ttl now rest)

find-expired :
    (key : DedupKey) (ttl now : ℕ) (seen : SeenEntries)
    → find_seen key seen ≡ none
    → find_seen key (evict_expired ttl now seen) ≡ none
unfolding find_seen evict_expired
find-expired key ttl now seen h = ground (arith, find-drop key ttl now seen)

find-overflow :
    (key : DedupKey) (limit : ℕ) (seen : SeenEntries)
    → find_seen key seen ≡ none
    → find_seen key (evict_overflow limit seen) ≡ none
unfolding find_seen evict_overflow
find-overflow key limit [] h = refl
find-overflow key limit ((j, u) ∷ rest) h = ground (arith, find-overflow key limit rest)

find-mark :
    (key k : DedupKey) (now : ℕ) (g : Guard)
    → (k == key) ≡ false
    → find_seen key g.seen ≡ none
    → find_seen key (mark_if_first_seen k now g).1.seen ≡ none
unfolding mark_if_first_seen
find-mark key k now g other h =
    let live : SeenEntries = evict_expired g.ttl_seconds now g.seen in
    let clean = find-expired key g.ttl_seconds now g.seen h in
    elim (Option-cases (find_seen k live)) [
      | inl new ↦
          rw (new, mark_if_first_seen)
            (find-overflow key g.max_entries _ (find-append key k now live other clean))
      | inr (t, seen) ↦
          rw (seen, mark_if_first_seen) (find-append key k t _ other (find-remove key k live clean))
    ]

-- A guard that does not hold a key accepts it, whatever deliveries of other keys come first.
pub unseen_is_accepted :
    (key : DedupKey) (now : ℕ) (deliveries : List Delivery) (g : Guard)
    → find_seen key g.seen ≡ none
    → All (OtherThan key) deliveries
    → (mark_if_first_seen key now (after deliveries g)).0 ≡ true
unfolding after mark_if_first_seen
unseen_is_accepted key now [] g h others =
    rw (find-expired key g.ttl_seconds now g.seen h, mark_if_first_seen) refl
unseen_is_accepted key now ((k, t) ∷ rest) g h (other, others) =
    unseen_is_accepted key now rest (mark_if_first_seen k t g).1 (find-mark key k t g other h)
      others

length-drop : (ttl now : ℕ) (seen : SeenEntries) → length (drop_expired ttl now seen) ≤ length seen
unfolding drop_expired
length-drop ttl now [] = omega arith
length-drop ttl now ((k, t) ∷ rest) = ground (arith, length-drop ttl now rest)

length-expired :
    (ttl now : ℕ) (seen : SeenEntries) → length (evict_expired ttl now seen) ≤ length seen
unfolding evict_expired
length-expired ttl now seen = ground (arith, length-drop ttl now seen)

length-remove :
    (key : DedupKey) (t : ℕ) (seen : SeenEntries)
    → find_seen key seen ≡ some t
    → suc (length (remove_seen key seen)) ≡ length seen
unfolding find_seen remove_seen
length-remove key t [] h = ground arith
length-remove key t ((k, u) ∷ rest) h = ground (arith, length-remove key t rest)

length-overflow : (limit : ℕ) (seen : SeenEntries) → length (evict_overflow limit seen) ≤ limit
unfolding evict_overflow
length-overflow limit [] = omega arith
length-overflow limit (e ∷ rest) = ground (arith, length-overflow limit rest)

-- A call keeps the number of entries within the bound, on each of its branches.
pub mark-bounded :
    (key : DedupKey) (now : ℕ) (g : Guard)
    → length g.seen ≤ g.max_entries
    → length (mark_if_first_seen key now g).1.seen ≤ g.max_entries
unfolding mark_if_first_seen
mark-bounded key now g h =
    let live : SeenEntries = evict_expired g.ttl_seconds now g.seen in
    let fewer = length-expired g.ttl_seconds now g.seen in
    elim (Option-cases (find_seen key live)) [
      | inl new ↦
          rw (new, mark_if_first_seen) (length-overflow g.max_entries (live ++ (key, now) ∷ []))
      | inr (t, seen) ↦
          rw (seen, mark_if_first_seen)
            (omega (
              arith,
              h,
              fewer,
              length-remove key t live seen,
              length-append (remove_seen key live) ((key, t) ∷ []),
            ))
    ]
