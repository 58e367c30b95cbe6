-- ===== src/Tests/Transport.antt =====
-- The guards before the handlers at concrete calls.
use startprojectformillion.Base.{true, false, none, List, [], ◌∷◌, empty, ◌≡◌, inr, refl, arith}
use startprojectformillion.Transport.Dedup.{
  DedupKey, Guard, find_seen, evict_expired, evict_overflow, remove_seen, mark_if_first_seen,
}
use startprojectformillion.Transport.Dedup.Seen.{Delivery, after, unseen_is_accepted}
use startprojectformillion.Transport.Dedup.Window.{redelivery_is_rejected}
use startprojectformillion.Transport.RateLimit.{
  TelegramCommandRateLimitKey, StateKey, RateLimiter, default_rules, allow,
}
use startprojectformillion.Transport.RateLimit.Window.{
  Call, granted, calls_of, least, window_grants,
}
use startprojectformillion.Transport.Cooldown.{
  CooldownStore, consume_or_reject, consume_all, cooldown_blocks,
}

abbrev first_key : DedupKey
first_key = ("telegram", ("command", 41))

abbrev other_key : DedupKey
other_key = ("telegram", ("command", 42))

abbrev guard : Guard
guard = record { ttl_seconds = 600; max_entries = 8; seen = [] }

abbrev others : List Delivery
others = (other_key, 20) ∷ []

accepted_once : (mark_if_first_seen first_key 10 guard).0 ≡ true
unfolding mark_if_first_seen find_seen evict_expired
accepted_once = refl

redelivery_is_rejected_example :
    (mark_if_first_seen first_key 30 (after others (mark_if_first_seen first_key 10 guard).1)).0
    ≡ false
redelivery_is_rejected_example =
    redelivery_is_rejected first_key 10 30 others guard accepted_once (omega arith) (omega arith)
      (omega arith) ((refl, omega arith, omega arith), tt)

nothing_seen : find_seen first_key guard.seen ≡ none
unfolding find_seen
nothing_seen = refl

unseen_is_accepted_run : (mark_if_first_seen first_key 30 (after others guard)).0 ≡ true
unseen_is_accepted_run = unseen_is_accepted first_key 30 others guard nothing_seen (refl, tt)

abbrev resend_key : StateKey
resend_key = (7, TelegramCommandRateLimitKey.access_resend)

abbrev limiter : RateLimiter
limiter = record { rules = default_rules; state = empty }

abbrev calls : List Call
calls = (resend_key, 11) ∷ (resend_key, 12) ∷ (resend_key, 13) ∷ []

-- The fourth of four calls is refused.
three_granted : granted resend_key ((resend_key, 10) ∷ calls) limiter ≡ 3
unfolding granted allow
three_granted = refl

window_grants_example :
    granted resend_key ((resend_key, 10) ∷ calls) limiter
    ≡ least 3 (calls_of resend_key ((resend_key, 10) ∷ calls))
window_grants_example =
    window_grants resend_key 10 calls limiter refl (omega arith, (omega arith, (omega arith, tt)))

abbrev cooldown : CooldownStore
cooldown = record { cooldown_seconds = 60; next_allowed_by_user = empty }

first_resend : (consume_or_reject "u7" 100 cooldown).0 ≡ true
unfolding consume_or_reject
first_resend = refl

cooldown_blocks_run :
    (consume_or_reject "u7" 150
      (consume_all (("u7", 120) ∷ []) (consume_or_reject "u7" 100 cooldown).1)).0
    ≡ false
cooldown_blocks_run =
    cooldown_blocks "u7" 100 150 (("u7", 120) ∷ []) cooldown first_resend (inr (omega arith), tt)
      (omega arith)

-- A duplicate is moved to the end with its old time, and then keeps a key behind a younger one: at
-- 700 the entry of 10 is past its time to live of 600, and its update is still rejected.
abbrev stale : Guard
stale =
    (mark_if_first_seen first_key 210
      (mark_if_first_seen other_key 200 (mark_if_first_seen first_key 10 guard).1).1).1

stale_duplicate : (mark_if_first_seen first_key 700 stale).0 ≡ false
unfolding mark_if_first_seen find_seen remove_seen evict_expired evict_overflow
stale_duplicate = refl
