-- ===== src/Base/Classes.antt =====
-- Python's `==` on the keys of dictionaries: texts, numbers, and tuples of such.
use Prim.Native.Nat.{ℕ}
use Prim.Native.String.{String}
use mathlib.Core.Path.{◌≡◌, refl}
use mathlib.Core.Logic.{◌↔◌}
use mathlib.Core.Bool.{Bool, true, ◌&&◌}
use native.Mathlib.Omega.{arith}
use text.Mathlib.Text.{◌==◌ as str_eq}
use text.Mathlib.TextEquality.{eq_iff}
use startprojectformillion.Base.Tests.{nat_beq, nat_beq_iff}

-- What a dictionary asks of its keys.
pub record Key (K : Type 0) : Type 0 where
  pub beq : K → K → Bool
  pub beq_iff : (x y : K) → (beq x y ≡ true) ↔ (x ≡ y)

instance abbrev pub string_eq : Key String
string_eq = record { beq = str_eq; beq_iff = eq_iff }

module _ {K : Type 0} ⦃key : Key K⦄ where
  infix 50 ◌==◌
  abbrev pub ◌==◌ : K → K → Bool
  x == y = key.beq x y

  pub ==-refl : (x : K) → (x == x) ≡ true
  ==-refl x = (key.beq_iff x x).1 refl

instance abbrev pub nat_eq : Key ℕ
nat_eq = record { beq = nat_beq; beq_iff = nat_beq_iff }

module _ {A B : Type 0} ⦃a : Key A⦄ ⦃b : Key B⦄ where
  abbrev pub pair_beq : A × B → A × B → Bool
  pair_beq (x, y) (x', y') = a.beq x x' && b.beq y y'

  pub pair_beq_iff : (p q : A × B) → (pair_beq p q ≡ true) ↔ (p ≡ q)
  pair_beq_iff (x, y) (x', y') = ground (arith, a.beq_iff x x', b.beq_iff y y')

  instance abbrev pub pair_eq : Key (A × B)
  pair_eq = record { beq = pair_beq; beq_iff = pair_beq_iff }
