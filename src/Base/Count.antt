-- ===== src/Base/Count.antt =====
-- How often a number stands in a list.
use Prim.Native.Nat.{ℕ, ◌+◌}
use mathlib.Core.List.{List, [], ◌∷◌, ◌++◌, Perm, Permᴰ}
use mathlib.Core.Logic.{∥∥₁_elim}
use mathlib.Core.Path.{◌≡◌, refl, ◌∙◌}
use native.Mathlib.Nat.{ℕ_set}
use native.Mathlib.Omega.{arith}
use sand_box_rust.Base.Tests.{◌==◌, if◌then◌else◌}

abbrev pub count : ℕ → List ℕ → ℕ
count c [] = 0
count c (x ∷ xs) = (if x == c then 1 else 0) + count c xs

pub count-append : (c : ℕ) (xs ys : List ℕ) → count c (xs ++ ys) ≡ count c xs + count c ys
count-append c [] ys = omega arith
count-append c (x ∷ xs) ys = omega (arith, count-append c xs ys)

count-Permᴰ : (c : ℕ) {xs ys : List ℕ} → Permᴰ xs ys → count c xs ≡ count c ys
count-Permᴰ c Permᴰ.nil = refl
count-Permᴰ c (Permᴰ.cons e p) = ground (arith, count-Permᴰ c p)
count-Permᴰ c (Permᴰ.swap e f) = ground arith
count-Permᴰ c (Permᴰ.trans p q) = count-Permᴰ c p ∙ count-Permᴰ c q

pub count-Perm : (c : ℕ) {xs ys : List ℕ} → Perm xs ys → count c xs ≡ count c ys
count-Perm c p = ∥∥₁_elim p (ℕ_set _ _) (λ d. count-Permᴰ c d)
