-- ===== src/Transport/Cooldown.antt =====
-- `InMemoryAccessResendCooldownStore` (backend/src/app/application/telegram_access_resend.py), with
-- seconds as natural numbers of some unit.
use startprojectformillion.Base.{
  ℕ, ◌+◌, ◌<◌, String, Bool, true, false, Option, none, some, Dict, put, ltb, if◌then◌else◌,
  string_eq, ◌≡◌, arith, List, [], ◌∷◌, eq_refl, eq_iff, All, ◌≢◌, ◌⊎◌,
}

pub record CooldownStore : Type 0 where
  pub cooldown_seconds : ℕ
  pub next_allowed_by_user : Dict String ℕ

abbrev must_wait : Option ℕ → ℕ → Bool
must_wait none now = false
must_wait (some next_allowed) now = ltb now next_allowed

unfoldable pub consume_or_reject : String → ℕ → CooldownStore → Bool × CooldownStore
consume_or_reject user now s = if must_wait (s.next_allowed_by_user user) now then (false, s) else (
  true,
  record s { next_allowed_by_user = put s.next_allowed_by_user user (now + s.cooldown_seconds) },
)

-- A call of some user at some time.
abbrev pub Call : Type 0
Call = String × ℕ

unfoldable pub consume_all : List Call → CooldownStore → CooldownStore
consume_all [] s = s
consume_all ((user, now) ∷ calls) s = consume_all calls (consume_or_reject user now s).1

-- The calls are other users' or come before the time.
abbrev pub Before : String → ℕ → List Call → Type 0
Before user t calls = All (λ c. (c.0 ≢ user) ⊎ (c.1 < t)) calls

blocked_kept :
    (user : String) (t : ℕ) (calls : List Call) (s : CooldownStore)
    → s.next_allowed_by_user user ≡ some t
    → Before user t calls
    → (consume_all calls s).next_allowed_by_user user ≡ some t
unfolding consume_all consume_or_reject
blocked_kept user t [] s h b = h
blocked_kept user t ((who, now) ∷ calls) s h b =
    blocked_kept user t calls (consume_or_reject who now s).1 (ground (arith, eq_iff who user, b.0))
      b.1

-- After an accepted call of a user at a time, and any calls of anyone that for this user come before
-- the end of the cooldown, a further call of this user before that end is rejected.
pub cooldown_blocks :
    (user : String) (now later : ℕ) (between : List Call) (s : CooldownStore)
    → (consume_or_reject user now s).0 ≡ true
    → Before user (now + s.cooldown_seconds) between
    → later < now + s.cooldown_seconds
    → (consume_or_reject user later (consume_all between (consume_or_reject user now s).1)).0
      ≡ false
unfolding consume_or_reject
cooldown_blocks user now later between s accepted before soon =
    let kept =
      blocked_kept user (now + s.cooldown_seconds) between (consume_or_reject user now s).1
        (ground (arith, eq_refl user)) before in
    ground (arith, kept)
