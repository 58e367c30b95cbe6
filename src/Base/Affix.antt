-- ===== src/Base/Affix.antt =====
-- Beginnings and ends of texts: `startswith`, `endswith`, `rstrip` of a character, `replace`.
use Prim.Native.Nat.{ℕ, zero, suc, ◌-◌, ◌<◌}
use Prim.Native.Char.{Char, code}
use Prim.Native.String.{String, ◌++◌, count}
use mathlib.Core.Path.{◌≡◌, refl}
use mathlib.Core.Bool.{Bool, true, false, not, ◌&&◌, ◌||◌}
use native.Mathlib.Omega.{arith}
use text.Mathlib.TextLemmas.{cons-append, nil-append, length-nil, length-cons}
use startprojectformillion.Base.Tests.{nat_beq, if◌then◌else◌}
use startprojectformillion.Base.Strip.{no_text, every}
use startprojectformillion.Base.Text.{is_blank}

-- `s.startswith(p)`
abbrev pub starts_with : String → String → Bool
starts_with String.[] s = true
starts_with (String.◌∷◌ p ps) String.[] = false
starts_with (String.◌∷◌ p ps) (String.◌∷◌ c s) = nat_beq (code p) (code c) && starts_with ps s

-- `s[n:]`
abbrev pub drop_first : ℕ → String → String
drop_first zero s = s
drop_first (suc n) String.[] = ""
drop_first (suc n) (String.◌∷◌ c s) = drop_first n s

-- `s.rstrip(c)` of one character, by its code point
unfoldable pub rstrip_char : ℕ → String → String
rstrip_char d String.[] = ""
rstrip_char d (String.◌∷◌ c s) =
    let rest = rstrip_char d s in
    if nat_beq (code c) d && no_text rest then "" else String.◌∷◌ c rest

-- `"=" * n`
unfoldable pub padding : ℕ → String
padding zero = ""
padding (suc n) = String.◌∷◌ "=" (padding n)

-- `s.endswith(("Z", "z"))`
unfoldable pub ends_in_z : String → Bool
ends_in_z String.[] = false
ends_in_z (String.◌∷◌ c s) =
    let rest = ends_in_z s in
    if no_text s then nat_beq (code c) b'Z' || nat_beq (code c) b'z' else rest

-- `s[:-1]`
unfoldable pub drop_last : String → String
drop_last String.[] = ""
drop_last (String.◌∷◌ c s) = let rest = drop_last s in if no_text s then "" else String.◌∷◌ c rest

-- `s.replace(old, new)` after `skip` characters of a match
unfoldable pub replace_from : ℕ → String → String → String → String
replace_from skip old new String.[] = ""
replace_from (suc skip) old new (String.◌∷◌ c s) = replace_from skip old new s
replace_from zero old new (String.◌∷◌ c s) =
    let rest = replace_from zero old new s in
    let after = replace_from (count old - 1) old new s in
    if starts_with old (String.◌∷◌ c s) then new ++ after else String.◌∷◌ c rest

-- Where the text to replace ends the text and its first character stands nowhere before.
module _ (d : Char) (tail : String) (new : String) where
  pub replace-ending :
      (front : String)
      → every (λ c. not (nat_beq (code d) c)) front ≡ true
      → replace_from zero (String.◌∷◌ d tail) new (String.◌∷◌ d tail) ≡ new
      → replace_from zero (String.◌∷◌ d tail) new (front ++ String.◌∷◌ d tail) ≡ front ++ new
  unfolding replace_from
  replace-ending String.[] h one = rw (nil-append (String.◌∷◌ d tail), nil-append new) one
  replace-ending (String.◌∷◌ c front) h one =
      rw (cons-append c front new, cons-append c front (String.◌∷◌ d tail))
        (ground (arith, h, replace-ending front))

pub not_empty : (front tail : String) → no_text tail ≡ false → no_text (front ++ tail) ≡ false
not_empty String.[] tail h = rw (nil-append tail) h
not_empty (String.◌∷◌ c front) tail h = rw (cons-append c front tail) refl

-- A text that ends in `Z`, and the rest of it.
pub ends_in_z-append : (front : String) → ends_in_z (front ++ "Z") ≡ true
unfolding ends_in_z
ends_in_z-append String.[] = refl
ends_in_z-append (String.◌∷◌ c front) =
    rw (cons-append c front "Z", not_empty front "Z" refl) (ends_in_z-append front)

pub drop_last-append : (front : String) → drop_last (front ++ "Z") ≡ front
unfolding drop_last
drop_last-append String.[] = refl
drop_last-append (String.◌∷◌ c front) =
    rw (cons-append c front "Z", not_empty front "Z" refl, drop_last-append front) refl

-- A text without `=` comes back when the padding that follows it is stripped.
abbrev pub no_equals : ℕ → Bool
no_equals c = not (nat_beq c b'=')

rstrip_char-padding : (k : ℕ) → rstrip_char b'=' (padding k) ≡ ""
unfolding rstrip_char padding
rstrip_char-padding zero = refl
rstrip_char-padding (suc k) = rw (rstrip_char-padding k) refl

rstrip_char-none : (s : String) → every no_equals s ≡ true → rstrip_char b'=' s ≡ s
unfolding rstrip_char
rstrip_char-none String.[] h = refl
rstrip_char-none (String.◌∷◌ c s) h = ground (arith, h, rstrip_char-none s)

pub rstrip_char-append :
    (core : String) (k : ℕ)
    → every no_equals core ≡ true
    → rstrip_char b'=' (core ++ padding k) ≡ core
unfolding rstrip_char
rstrip_char-append String.[] k h = rw (nil-append (padding k)) (rstrip_char-padding k)
rstrip_char-append (String.◌∷◌ c core) k h =
    rw (cons-append c core (padding k)) (ground (arith, h, rstrip_char-append core k))

pub count-padding : (k : ℕ) → count (padding k) ≡ k
unfolding padding
count-padding zero = length-nil
count-padding (suc k) = rw (length-cons "=" (padding k), count-padding k) refl

pub every-append : (p : ℕ → Bool) (s t : String) → every p (s ++ t) ≡ (every p s && every p t)
every-append p String.[] t = rw (nil-append t) refl
every-append p (String.◌∷◌ c s) t = rw (cons-append c s t) (ground (arith, every-append p s t))

pub no_text-count : (s : String) → 0 < count s → no_text s ≡ false
no_text-count String.[] h = ground (arith, h, length-nil)
no_text-count (String.◌∷◌ c s) h = refl

-- White space is all that a text and its continuation hold together.
pub is_blank-append : (s t : String) → is_blank (s ++ t) ≡ (is_blank s && is_blank t)
unfolding is_blank
is_blank-append String.[] t = rw (nil-append t) refl
is_blank-append (String.◌∷◌ c s) t = rw (cons-append c s t) (ground (arith, is_blank-append s t))

pub solid-append : (s t : String) → is_blank s ≡ false → is_blank (s ++ t) ≡ false
solid-append s t h = rw (is_blank-append s t, h) refl
