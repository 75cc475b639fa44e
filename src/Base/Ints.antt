-- ===== src/Base/Ints.antt =====
-- Signed integers, as far as exit codes and error codes need them.
use Prim.Native.Nat.{ℕ, ◌+◌, ◌-◌, ◌^◌, zero, suc}
use mathlib.Core.Bool.{Bool, true, false, ◌||◌}
use mathlib.Core.List.{List, [], ◌∷◌}
use mathlib.Core.Path.{◌≡◌}
use native.Mathlib.Omega.{arith}
use sand_box_rust.Base.Tests.{ltb, ◌==◌, if◌then◌else◌}

-- `negsuc n` is -(n + 1).
pub data ℤ : Type 0 where
  pos : ℕ → ℤ
  negsuc : ℕ → ℤ

abbrev pub neg : ℕ → ℤ
neg zero = pos 0
neg (suc n) = negsuc n

abbrev pub int_eq : ℤ → ℤ → Bool
int_eq (pos a) (pos b) = a == b
int_eq (negsuc a) (negsuc b) = a == b
int_eq (pos a) (negsuc b) = false
int_eq (negsuc a) (pos b) = false

pub int_eq→eq : (a b : ℤ) → int_eq a b ≡ true → a ≡ b
int_eq→eq (pos a) (pos b) h = ground arith
int_eq→eq (negsuc a) (negsuc b) h = ground arith
int_eq→eq (pos a) (negsuc b) h = cc
int_eq→eq (negsuc a) (pos b) h = cc

pub int_eq_refl : (a : ℤ) → int_eq a a ≡ true
int_eq_refl (pos a) = ground arith
int_eq_refl (negsuc a) = ground arith

-- Whether a number stands in a list.
abbrev pub elem : ℤ → List ℤ → Bool
elem a [] = false
elem a (b ∷ bs) = int_eq b a || elem a bs

-- The `i32` that a 32-bit pattern stands for, in two's complement.
abbrev pub i32_of_bits : ℕ → ℤ
i32_of_bits n = if ltb n (2 ^ 31) then pos n else negsuc (2 ^ 32 - (n + 1))
