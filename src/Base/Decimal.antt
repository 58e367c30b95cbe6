-- ===== src/Base/Decimal.antt =====
-- `str(n)` of a number that is not negative.
use Prim.Native.Nat.{ℕ, zero, suc, ◌/◌, ◌%◌}
use Prim.Native.String.{String, ◌++◌}
use mathlib.Core.Path.{◌≡◌, refl}
use startprojectformillion.Base.Tests.{ltb, if◌then◌else◌}

abbrev digit : ℕ → String
digit zero = "0"
digit (suc zero) = "1"
digit (suc (suc zero)) = "2"
digit (suc (suc (suc zero))) = "3"
digit (suc (suc (suc (suc zero)))) = "4"
digit (suc (suc (suc (suc (suc zero))))) = "5"
digit (suc (suc (suc (suc (suc (suc zero)))))) = "6"
digit (suc (suc (suc (suc (suc (suc (suc zero))))))) = "7"
digit (suc (suc (suc (suc (suc (suc (suc (suc zero)))))))) = "8"
digit _ = "9"

-- With `f` digits allowed; a number has no more digits than its value plus one.
digits_from : ℕ → ℕ → String
digits_from zero n = ""
digits_from (suc f) n =
    let rest = digits_from f (n / 10) in if ltb n 10 then digit n else rest ++ digit (n % 10)

unfoldable pub str_nat : ℕ → String
unfolding digits_from
str_nat n = digits_from (suc n) n

str_nat_407 : str_nat 407 ≡ "407"
unfolding str_nat
str_nat_407 = refl
