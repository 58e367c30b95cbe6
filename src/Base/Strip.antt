-- ===== src/Base/Strip.antt =====
-- `str.strip`, `str.lower`, and tests of all characters of a text.
use Prim.Native.Nat.{ℕ, ◌+◌, ◌-◌, ◌*◌}
use Prim.Native.Char.{Char, code}
use Prim.Native.String.{String, char_at}
use mathlib.Core.Path.{◌≡◌, refl}
use mathlib.Core.Bool.{Bool, true, false, ◌&&◌, ◌||◌}
use mathlib.Core.Logic.{◌⊎◌, inl, inr}
use mathlib.Core.Option.{Option, none, some}
use native.Mathlib.Omega.{arith}
use startprojectformillion.Base.Tests.{leb, nat_beq, if◌then◌else◌, Bool-cases}
use startprojectformillion.Base.Text.{is_space}

-- `not text`
abbrev pub no_text : String → Bool
no_text String.[] = true
no_text (String.◌∷◌ c s) = false

-- Each character passes the test of its code point.
abbrev pub every : (ℕ → Bool) → String → Bool
every p String.[] = true
every p (String.◌∷◌ c s) = p (code c) && every p s

unfoldable pub lstrip : String → String
unfolding is_space
lstrip String.[] = ""
lstrip (String.◌∷◌ c s) = let rest = lstrip s in if is_space (code c) then rest else String.◌∷◌ c s

unfoldable pub rstrip : String → String
unfolding is_space
rstrip String.[] = ""
rstrip (String.◌∷◌ c s) =
    let rest = rstrip s in if is_space (code c) && no_text rest then "" else String.◌∷◌ c rest

-- `text.strip()`
unfoldable pub strip : String → String
unfolding lstrip rstrip
strip s = rstrip (lstrip s)

-- Of the letters beyond ASCII only the KELVIN SIGN has a lower case within ASCII; the others stay as
-- they are here.
unfoldable pub lower_char : Char → Char
lower_char c =
    if leb b'A' (code c) && leb (code c) b'Z'
    then char_at "abcdefghijklmnopqrstuvwxyz" (code c - b'A')
    else if nat_beq (code c) 8490
    then char_at "k" 0
    else c

unfoldable pub lower : String → String
unfolding lower_char
lower String.[] = ""
lower (String.◌∷◌ c s) = String.◌∷◌ (lower_char c) (lower s)

abbrev pub is_digit : ℕ → Bool
is_digit c = leb b'0' c && leb c b'9'

-- `c in "0123456789abcdef"`
abbrev pub is_hex_digit : ℕ → Bool
is_hex_digit c = is_digit c || leb b'a' c && leb c b'f'

abbrev pub is_ascii : ℕ → Bool
is_ascii c = leb c 127

unfoldable pub digits_value : ℕ → String → ℕ
digits_value n String.[] = n
digits_value n (String.◌∷◌ c s) = digits_value (n * 10 + (code c - b'0')) s

-- `int(text)` where `text.isdigit()`, for ASCII digits; `none` for any other text.
unfoldable pub parse_digits : String → Option ℕ
unfolding digits_value
parse_digits s =
    if no_text s then none else if every is_digit s then some (digits_value 0 s) else none

strip_runs : (strip " a b\n" ≡ "a b") × (lower "AbZ-9" ≡ "abz-9")
unfolding strip lower
strip_runs = (refl, refl)

parse_runs : (parse_digits "0427" ≡ some 427) × (parse_digits "4x" ≡ none)
unfolding parse_digits
parse_runs = (refl, refl)

module _ (p : ℕ → Bool) where
  lstrip-every :
      (s : String) → ((c : ℕ) → p c ≡ true → is_space c ≡ false) → every p s ≡ true → lstrip s ≡ s
  unfolding lstrip
  lstrip-every String.[] clean h = refl
  lstrip-every (String.◌∷◌ c s) clean h = ground (arith, clean (code c))

  rstrip-every :
      (s : String) → ((c : ℕ) → p c ≡ true → is_space c ≡ false) → every p s ≡ true → rstrip s ≡ s
  unfolding rstrip
  rstrip-every String.[] clean h = refl
  rstrip-every (String.◌∷◌ c s) clean h = ground (arith, clean (code c), rstrip-every s clean)

  -- A text without white space is its own strip.
  pub strip-every :
      (s : String) → ((c : ℕ) → p c ≡ true → is_space c ≡ false) → every p s ≡ true → strip s ≡ s
  unfolding strip
  strip-every s clean h = ground (arith, lstrip-every s clean h, rstrip-every s clean h)

pub lower-every : (s : String) → every is_hex_digit s ≡ true → lower s ≡ s
unfolding lower lower_char
lower-every String.[] h = refl
lower-every (String.◌∷◌ c s) h = ground (arith, lower-every s)

pub every_weaken :
    (p q : ℕ → Bool) (s : String)
    → ((c : ℕ) → p c ≡ true → q c ≡ true)
    → every p s ≡ true
    → every q s ≡ true
every_weaken p q String.[] all h = refl
every_weaken p q (String.◌∷◌ c s) all h = ground (arith, h, all (code c), every_weaken p q s all)

lstrip-cases :
    (s : String)
    → (lstrip s ≡ "")
      ⊎ ((c : Char) × ((rest : String) × ((lstrip s ≡ String.◌∷◌ c rest)
              × (is_space (code c) ≡ false))))
unfolding lstrip
lstrip-cases String.[] = inl refl
lstrip-cases (String.◌∷◌ c s) = elim (Bool-cases (is_space (code c))) [
  | inl blank ↦ rw blank (lstrip-cases s)
  | inr solid ↦ inr (c, (s, (rw solid refl, solid)))
]

rstrip-rstrip : (s : String) → rstrip (rstrip s) ≡ rstrip s
unfolding rstrip
rstrip-rstrip String.[] = refl
rstrip-rstrip (String.◌∷◌ c s) = ground (arith, rstrip-rstrip s)

-- `strip` leaves nothing to strip.
pub strip-strip : (s : String) → strip (strip s) ≡ strip s
unfolding strip lstrip
strip-strip s = elim (lstrip-cases s) [
  | inl nothing ↦ rw nothing refl
  | inr (c, (rest, (found, solid))) ↦
      rw found (ground (arith, solid, rstrip-rstrip (String.◌∷◌ c rest)))
]
