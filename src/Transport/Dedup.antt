-- ===== src/Transport/Dedup.antt =====
-- `InMemoryTelegramUpdateDedupGuard` (backend/src/app/application/telegram_update_dedup.py). Seconds
-- are natural numbers of some unit: the source's floats are only added, subtracted and compared. A
-- time to live that is not positive is 0, and the bound on the entries is not negative.
pub mod Seen
pub mod Window
use startprojectformillion.Base.{
  ℕ, zero, suc, ◌+◌, ◌-◌, String, Bool, true, false, Option, none, some, List, [], ◌∷◌, ◌++◌, ltb,
  leb, nat_beq, length, if◌then◌else◌, Key, ◌==◌, string_eq, nat_eq, pair_eq, not,
}

-- `(namespace, command_bucket, int(telegram_update_id))`
abbrev pub DedupKey : Type 0
DedupKey = String × (String × ℕ)

-- An `OrderedDict`, the oldest entry first.
abbrev pub SeenEntries : Type 0
SeenEntries = List (DedupKey × ℕ)

pub record Guard : Type 0 where
  pub ttl_seconds : ℕ
  pub max_entries : ℕ
  pub seen : SeenEntries

-- `key in self._seen`, with the time kept for it
unfoldable pub find_seen : DedupKey → SeenEntries → Option ℕ
find_seen key [] = none
find_seen key ((k, t) ∷ rest) = if k == key then some t else find_seen key rest

unfoldable pub remove_seen : DedupKey → SeenEntries → SeenEntries
remove_seen key [] = []
remove_seen key ((k, t) ∷ rest) =
    let kept = remove_seen key rest in if k == key then rest else (k, t) ∷ kept

-- The `while` loop of `_evict_expired`; `seen_at > now - ttl` is `now < seen_at + ttl`.
unfoldable pub drop_expired : ℕ → ℕ → SeenEntries → SeenEntries
drop_expired ttl now [] = []
drop_expired ttl now ((k, t) ∷ rest) =
    let dropped = drop_expired ttl now rest in if ltb now (t + ttl) then (k, t) ∷ rest else dropped

unfoldable pub evict_expired : ℕ → ℕ → SeenEntries → SeenEntries
unfolding drop_expired
evict_expired ttl now seen = if nat_beq ttl 0 then [] else drop_expired ttl now seen

-- `while len(self._seen) > self._max_entries: popitem(last=False)`
unfoldable pub evict_overflow : ℕ → SeenEntries → SeenEntries
evict_overflow limit [] = []
evict_overflow limit (e ∷ rest) =
    let popped = evict_overflow limit rest in
    if ltb limit (length (e ∷ rest)) then popped else e ∷ rest

-- `move_to_end` keeps the time at which the key was first seen.
unfoldable pub mark_if_first_seen : DedupKey → ℕ → Guard → Bool × Guard
unfolding find_seen remove_seen evict_expired evict_overflow
mark_if_first_seen key now g =
    let live = evict_expired g.ttl_seconds now g.seen in
    elim (find_seen key live) [
      | some t ↦ (false, record g { seen = remove_seen key live ++ (key, t) ∷ [] })
      | none ↦ (true, record g { seen = evict_overflow g.max_entries (live ++ (key, now) ∷ []) })
    ]
