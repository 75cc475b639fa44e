-- ===== src/Base/Xor.antt =====
-- Exclusive or twice with the same number gives the first back.
use Prim.Native.Nat.{
  ℕ, zero, suc, ◌/◌, ◌%◌, ◌*◌, ◌+◌, ◌≤◌, ◌<◌, bit_xor, digits, differ, bit_xor-bitwise,
}
use mathlib.Core.Path.{◌≡◌, refl, ◌∙◌, sym, ap}
use native.Mathlib.Omega.{arith}

abbrev xor_digits : ℕ → ℕ → ℕ → ℕ
xor_digits n a b = digits (λ c. c) differ n a b

xor_digits_zero : (n b : ℕ) → xor_digits n 0 b ≡ b
xor_digits_zero zero b = refl
xor_digits_zero (suc n) b = refl

-- More digits than the number has change nothing.
xor_digits_fuel : (n m a b : ℕ) → a ≤ n → a ≤ m → xor_digits n a b ≡ xor_digits m a b
xor_digits_fuel n m zero b h k = xor_digits_zero n b ∙ sym (xor_digits_zero m b)
xor_digits_fuel zero m (suc a) b h k = absurd (omega arith)
xor_digits_fuel (suc n) zero (suc a) b h k = absurd (omega arith)
xor_digits_fuel (suc n) (suc m) (suc a) b h k =
    ap (λ x. x * 2 + differ (suc a % 2) (b % 2))
      (xor_digits_fuel n m (suc a / 2) (b / 2) (omega arith) (omega arith))

xor_zero : (b : ℕ) → bit_xor 0 b ≡ b
xor_zero b = bit_xor-bitwise 0 b

xor_split : (a b : ℕ) → bit_xor a b ≡ bit_xor (a / 2) (b / 2) * 2 + differ (a % 2) (b % 2)
xor_split zero b = xor_zero b ∙ omega (arith, xor_zero (b / 2))
xor_split (suc a) b =
    bit_xor-bitwise (suc a) b
    ∙ ap (λ x. x * 2 + differ (suc a % 2) (b % 2))
        (xor_digits_fuel a (suc a / 2) (suc a / 2) (b / 2) (omega arith) (omega arith)
          ∙ sym (bit_xor-bitwise (suc a / 2) (b / 2)))

differ_lt : (a b : ℕ) → a < 2 → b < 2 → differ a b < 2
differ_lt zero b h k = k
differ_lt (suc zero) zero h k = h
differ_lt (suc zero) (suc zero) h k = omega arith
differ_lt (suc zero) (suc (suc b)) h k = absurd (omega arith)
differ_lt (suc (suc a)) b h k = absurd (omega arith)

differ_twice : (a b : ℕ) → a < 2 → b < 2 → differ (differ a b) b ≡ a
differ_twice zero zero h k = refl
differ_twice zero (suc zero) h k = refl
differ_twice (suc zero) zero h k = refl
differ_twice (suc zero) (suc zero) h k = refl
differ_twice (suc (suc a)) b h k = absurd (omega arith)
differ_twice a (suc (suc b)) h k = absurd (omega arith)

xor_half : (a b : ℕ) → bit_xor a b / 2 ≡ bit_xor (a / 2) (b / 2)
xor_half a b = omega (arith, xor_split a b, differ_lt (a % 2) (b % 2) (omega arith) (omega arith))

xor_digit : (a b : ℕ) → bit_xor a b % 2 ≡ differ (a % 2) (b % 2)
xor_digit a b = omega (arith, xor_split a b, differ_lt (a % 2) (b % 2) (omega arith) (omega arith))

xor_twice_to : (n a b : ℕ) → a + b ≤ n → bit_xor (bit_xor a b) b ≡ a
xor_twice_to zero zero zero h = ap (λ x. bit_xor x 0) (xor_zero 0) ∙ xor_zero 0
xor_twice_to zero (suc a) b h = absurd (omega arith)
xor_twice_to zero zero (suc b) h = absurd (omega arith)
xor_twice_to (suc n) a b h =
    xor_split (bit_xor a b) b
    ∙ ap (λ x. bit_xor x (b / 2) * 2 + differ (bit_xor a b % 2) (b % 2)) (xor_half a b)
    ∙ ap (λ x. bit_xor (bit_xor (a / 2) (b / 2)) (b / 2) * 2 + differ x (b % 2)) (xor_digit a b)
    ∙ omega (
      arith,
      xor_twice_to n (a / 2) (b / 2) (omega arith),
      differ_twice (a % 2) (b % 2) (omega arith) (omega arith),
    )

pub xor_twice : (a b : ℕ) → bit_xor (bit_xor a b) b ≡ a
xor_twice a b = xor_twice_to (a + b) a b (omega arith)

-- The weight of a number's digit.
abbrev pub weight : ℕ → ℕ
weight zero = 1
weight (suc k) = 2 * weight k

double : (a p : ℕ) → a * (2 * p) ≡ 2 * (a * p)
double a p = grind arith

half : (k a b : ℕ) → (a * weight (suc k) + b) / 2 ≡ a * weight k + b / 2
half k a b = omega (arith, double a (weight k))

digit : (k a b : ℕ) → (a * weight (suc k) + b) % 2 ≡ b % 2
digit k a b = omega (arith, double a (weight k))

-- Exclusive or of two fields each, of which the lower has `k` digits.
pub xor_fields :
    (k a b c d : ℕ)
    → b < weight k
    → d < weight k
    → bit_xor (a * weight k + b) (c * weight k + d) ≡ bit_xor a c * weight k + bit_xor b d
xor_fields zero a zero c zero h g =
    let e : (n : ℕ) → n * 1 + 0 ≡ n = λ n. omega arith in
    ap (λ x. bit_xor x (c * 1 + 0)) (e a) ∙ ap (bit_xor a) (e c) ∙ omega (arith, xor_zero 0)
xor_fields zero a (suc b) c d h g = absurd (omega arith)
xor_fields zero a zero c (suc d) h g = absurd (omega arith)
xor_fields (suc k) a b c d h g =
    xor_split (a * weight (suc k) + b) (c * weight (suc k) + d)
    ∙ ap
        (λ x.
          bit_xor x ((c * weight (suc k) + d) / 2) * 2
          + differ ((a * weight (suc k) + b) % 2) ((c * weight (suc k) + d) % 2))
        (half k a b)
    ∙ ap
        (λ x.
          bit_xor (a * weight k + b / 2) x * 2
          + differ ((a * weight (suc k) + b) % 2) ((c * weight (suc k) + d) % 2))
        (half k c d)
    ∙ ap
        (λ x.
          bit_xor (a * weight k + b / 2) (c * weight k + d / 2) * 2
          + differ x ((c * weight (suc k) + d) % 2))
        (digit k a b)
    ∙ ap (λ x. bit_xor (a * weight k + b / 2) (c * weight k + d / 2) * 2 + differ (b % 2) x)
        (digit k c d)
    ∙ omega (
      arith,
      xor_fields k a (b / 2) c (d / 2) (omega arith) (omega arith),
      xor_split b d,
      double (bit_xor a c) (weight k),
    )

pub xor-lt : (k a b : ℕ) → a < weight k → b < weight k → bit_xor a b < weight k
xor-lt zero zero zero h g = omega (arith, xor_zero 0)
xor-lt zero (suc a) b h g = absurd (omega arith)
xor-lt zero zero (suc b) h g = absurd (omega arith)
xor-lt (suc k) a b h g = omega (
  arith,
  xor_split a b,
  differ_lt (a % 2) (b % 2) (omega arith) (omega arith),
  xor-lt k (a / 2) (b / 2) (omega arith) (omega arith),
)
