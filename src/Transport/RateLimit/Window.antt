-- ===== src/Transport/RateLimit/Window.antt =====
-- How many commands one fixed window of the limiter lets through.
use startprojectformillion.Base.{
  ℕ, suc, ◌+◌, ◌-◌, true, false, none, some, List, [], ◌∷◌, leb, if◌then◌else◌, ◌≡◌, ◌<◌, arith,
  All, ◌==◌, ==-refl, ap, ◌∙◌, not, Bool-cases, inl, inr, nat_eq, pair_eq, refl,
}
use startprojectformillion.Transport.RateLimit.{StateKey, RateLimiter, key_eq, allow}

-- One command: who, which, when.
abbrev pub Call : Type 0
Call = StateKey × ℕ

-- How many calls of a key the limiter lets through, in a run with anybody's calls.
unfoldable pub granted : StateKey → List Call → RateLimiter → ℕ
unfolding allow
granted key [] l = 0
granted key ((k, now) ∷ rest) l =
    let (allowed, l') = allow k.0 k.1 now l in
    let later : ℕ = granted key rest l' in
    if k == key then (if allowed then suc later else later) else later

abbrev pub calls_of : StateKey → List Call → ℕ
calls_of key [] = 0
calls_of key ((k, now) ∷ rest) =
    let later : ℕ = calls_of key rest in if k == key then suc later else later

-- The smaller of two numbers.
abbrev pub least : ℕ → ℕ → ℕ
least a b = if leb a b then a else b

abbrev pub Before : ℕ → Call → Type 0
Before end call = call.1 < end

-- A call in an open window, and the rule's part of it.
allow-open :
    (key : StateKey) (now start count : ℕ) (l : RateLimiter)
    → l.state key ≡ some (start, count)
    → now < start + (l.rules key.1).window_seconds
    → let (allowed, l') = allow key.0 key.1 now l in
      (allowed ≡ not (leb (l.rules key.1).max_requests count))
      × (l'.rules ≡ l.rules)
      × (l'.state key ≡ some (start, if allowed then suc count else count))
unfolding allow
allow-open (user, command) now start count l opened soon =
    ground (arith, ==-refl user, ==-refl command)

-- The first call of a key opens its window.
allow-new :
    (key : StateKey) (now : ℕ) (l : RateLimiter)
    → l.state key ≡ none
    → let (allowed, l') = allow key.0 key.1 now l in
      (allowed ≡ not (leb (l.rules key.1).max_requests 0))
      × (l'.rules ≡ l.rules)
      × (l'.state key ≡ some (now, if allowed then 1 else 0))
unfolding allow
allow-new (user, command) now l new = ground (arith, ==-refl user, ==-refl command)

allow-mine :
    (key k : StateKey) (now start count : ℕ) (l : RateLimiter)
    → k ≡ key
    → l.state key ≡ some (start, count)
    → now < start + (l.rules key.1).window_seconds
    → let (allowed, l') = allow k.0 k.1 now l in
      (allowed ≡ not (leb (l.rules key.1).max_requests count))
      × (l'.rules ≡ l.rules)
      × (l'.state key ≡ some (start, if allowed then suc count else count))
allow-mine key k now start count l same opened in_time =
    rw same (allow-open key now start count l opened in_time)

allow-other :
    (key k : StateKey) (now : ℕ) (l : RateLimiter)
    → (k == key) ≡ false
    → let l' = (allow k.0 k.1 now l).1 in (l'.rules ≡ l.rules) × (l'.state key ≡ l.state key)
unfolding allow
allow-other (user, command) (u, c) now l other = ground (arith, nat_eq.beq_iff user u)

-- A call of the key, and what its later calls get.
granted-mine :
    (key k : StateKey) (now start count : ℕ) (rest : List Call) (l : RateLimiter)
    → (k == key) ≡ true
    → (let (allowed, l') = allow k.0 k.1 now l in
        (allowed ≡ not (leb (l.rules key.1).max_requests count))
        × (l'.rules ≡ l.rules)
        × (l'.state key ≡ some (start, if allowed then suc count else count)))
    → ((c : ℕ)
        → (allow k.0 k.1 now l).1.state key ≡ some (start, c)
        → granted key rest (allow k.0 k.1 now l).1
          ≡ least ((l.rules key.1).max_requests - c) (calls_of key rest))
    → granted key ((k, now) ∷ rest) l
      ≡ least ((l.rules key.1).max_requests - count) (calls_of key ((k, now) ∷ rest))
unfolding granted
granted-mine key k now start count rest l same mine more =
    elim (Bool-cases (allow k.0 k.1 now l).0) [
      | inl let_in ↦ ground (
        arith,
        same,
        let_in,
        more (suc count) (mine.2 ∙ ap (λ b. some (start, if b then suc count else count)) let_in),
        mine.0,
      )
      | inr refused ↦ ground (
        arith,
        same,
        refused,
        more count (mine.2 ∙ ap (λ b. some (start, if b then suc count else count)) refused),
        mine.0,
      )
    ]

granted-open :
    (key : StateKey) (calls : List Call) (l : RateLimiter) (start count : ℕ)
    → l.state key ≡ some (start, count)
    → All (Before (start + (l.rules key.1).window_seconds)) calls
    → granted key calls l ≡ least ((l.rules key.1).max_requests - count) (calls_of key calls)
unfolding granted
granted-open key [] l start count opened soon = ground arith
granted-open key ((k, now) ∷ rest) l start count opened (in_time, later) =
    let l' : RateLimiter = (allow k.0 k.1 now l).1 in
    elim (Bool-cases (k == key)) [
      | inl same ↦
          let mine =
            allow-mine key k now start count l ((pair_eq.beq_iff k key).0 same) opened in_time in
          granted-mine key k now start count rest l same mine (λ c held.
            granted-open key rest l' start c held (rw mine.1 later)
            ∙ ap (λ r. least ((r key.1).max_requests - c) (calls_of key rest)) mine.1)
      | inr other ↦
          let kept = allow-other key k now l other in
          let more = granted-open key rest l' start count (rw kept.1 opened) (rw kept.0 later) in
          rw (other, more, kept.0) refl
    ]

-- For a user and command that the limiter has no window for, the calls from the first on that come
-- before the end of its window, with any other calls in between, get exactly the rule's number of
-- requests or all that they ask for, whichever is less.
pub window_grants :
    (key : StateKey) (now : ℕ) (calls : List Call) (l : RateLimiter)
    → l.state key ≡ none
    → All (Before (now + (l.rules key.1).window_seconds)) calls
    → granted key ((key, now) ∷ calls) l
      ≡ least (l.rules key.1).max_requests (calls_of key ((key, now) ∷ calls))
window_grants key now calls l new soon =
    let l' : RateLimiter = (allow key.0 key.1 now l).1 in
    let mine = allow-new key now l new in
    let counted = granted-mine key key now now 0 calls l (==-refl key) mine (λ c held.
      granted-open key calls l' now c held (rw mine.1 soon)
      ∙ ap (λ r. least ((r key.1).max_requests - c) (calls_of key calls)) mine.1) in
    ground (arith, counted)
