-- ===== src/Base/Text.antt =====
-- White space in Python's sense, and texts of nothing else.
use Prim.Native.Nat.{ℕ}
use Prim.Native.Char.{code}
use Prim.Native.String.{String}
use mathlib.Core.Path.{◌≡◌, refl}
use mathlib.Core.Bool.{Bool, true, false, ◌&&◌, ◌||◌}
use startprojectformillion.Base.Tests.{leb, nat_beq}

-- `str.isspace` of one character, by its code point
unfoldable pub is_space : ℕ → Bool
is_space c =
    leb 9 c && leb c 13
    || (leb 28 c && leb c 32
        || (nat_beq c 133
            || (nat_beq c 160
                || (nat_beq c 5760
                    || (leb 8192 c && leb c 8202
                        || (nat_beq c 8232
                            || (nat_beq c 8233
                                || (nat_beq c 8239 || (nat_beq c 8287 || nat_beq c 12288)))))))))

-- `not text.strip()`
unfoldable pub is_blank : String → Bool
unfolding is_space
is_blank String.[] = true
is_blank (String.◌∷◌ c s) = is_space (code c) && is_blank s

blank_or_not : (is_blank " \t\n" ≡ true) × (is_blank " a " ≡ false)
unfolding is_blank
blank_or_not = (refl, refl)
