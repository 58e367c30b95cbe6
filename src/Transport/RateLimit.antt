-- ===== src/Transport/RateLimit.antt =====
-- `InMemoryTelegramCommandRateLimiter` (backend/src/app/application/telegram_command_rate_limit.py),
-- with seconds as natural numbers of some unit.
pub mod Window
use startprojectformillion.Base.{
  ℕ, ◌+◌, Bool, true, false, Option, none, some, Dict, empty, put, leb, if◌then◌else◌, ◌≡◌, ◌↔◌,
  refl, arith, Key, ◌==◌, nat_eq, pair_eq,
}

pub data TelegramCommandRateLimitKey : Type 0 where
  status access_resend support : TelegramCommandRateLimitKey

abbrev pub key_beq : TelegramCommandRateLimitKey → TelegramCommandRateLimitKey → Bool
key_beq TelegramCommandRateLimitKey.status TelegramCommandRateLimitKey.status = true
key_beq TelegramCommandRateLimitKey.access_resend TelegramCommandRateLimitKey.access_resend = true
key_beq TelegramCommandRateLimitKey.support TelegramCommandRateLimitKey.support = true
key_beq _ _ = false

pub key_beq_iff : (a b : TelegramCommandRateLimitKey) → (key_beq a b ≡ true) ↔ (a ≡ b)
key_beq_iff a b = ground arith

instance abbrev pub key_eq : Key TelegramCommandRateLimitKey
key_eq = record { beq = key_beq; beq_iff = key_beq_iff }

pub record FixedWindowRule : Type 0 where
  pub max_requests : ℕ
  pub window_seconds : ℕ

abbrev pub StateKey : Type 0
StateKey = ℕ × TelegramCommandRateLimitKey

pub record RateLimiter : Type 0 where
  pub rules : TelegramCommandRateLimitKey → FixedWindowRule
  pub state : Dict StateKey (ℕ × ℕ)

-- The defaults of the constructor.
abbrev pub default_rules : TelegramCommandRateLimitKey → FixedWindowRule
default_rules TelegramCommandRateLimitKey.status = record { max_requests = 6; window_seconds = 60 }
default_rules TelegramCommandRateLimitKey.access_resend = record {
  max_requests = 3;
  window_seconds = 60;
}
default_rules TelegramCommandRateLimitKey.support = record {
  max_requests = 30;
  window_seconds = 60;
}

unfoldable pub default_limiter : RateLimiter
default_limiter = record { rules = default_rules; state = empty }

abbrev pub started_or : Option (ℕ × ℕ) → ℕ → ℕ × ℕ
started_or none now = (now, 0)
started_or (some w) now = w

-- `now - started_at >= window` is `started_at + window <= now`.
unfoldable pub allow : ℕ → TelegramCommandRateLimitKey → ℕ → RateLimiter → Bool × RateLimiter
allow telegram_user_id command_key now l =
    let rule = l.rules command_key in
    let state_key : StateKey = (telegram_user_id, command_key) in
    let (started0, count0) = started_or (l.state state_key) now in
    let over : Bool = leb (started0 + rule.window_seconds) now in
    let started_at : ℕ = if over then now else started0 in
    let count : ℕ = if over then 0 else count0 in
    if leb rule.max_requests count
    then (false, record l { state = put l.state state_key (started_at, count) })
    else (true, record l { state = put l.state state_key (started_at, count + 1) })
