-- ===== src/Base/Bits.antt =====
-- The bit operations at a zero operand.
use Prim.Native.Nat.{ℕ, zero, suc, ◌/◌, min, bit_and, digits, bit_and-bitwise}
use mathlib.Core.Path.{◌≡◌, refl, ◌∙◌}
use native.Mathlib.Omega.{arith}

no_digits : (fuel a : ℕ) → digits (λ b. zero) min fuel a 0 ≡ 0
no_digits zero zero = refl
no_digits zero (suc a) = refl
no_digits (suc fuel) zero = refl
no_digits (suc fuel) (suc a) = omega (arith, no_digits fuel (suc a / 2))

pub bit_and-zero : (a : ℕ) → bit_and a 0 ≡ 0
bit_and-zero a = bit_and-bitwise a 0 ∙ no_digits a a
