-- ===== src/Base/Text.antt =====
-- Texts as lists of bytes: literals, and decimal numerals as `format!` prints them.
use Prim.Native.Char.{code}
use Prim.Native.Nat.{ℕ, zero, suc, ◌+◌, ◌/◌, ◌%◌, ◌<◌}
use Prim.Native.String.{String}
use mathlib.Core.List.{List, [], ◌∷◌, ◌++◌}
use native.Mathlib.Omega.{arith}
use sand_box_rust.Base.Lists.{All, All-append}
use sand_box_rust.Base.Tests.{ltb, if◌then◌else◌, if-cases, ltb→lt}

-- The bytes of an ASCII literal.
abbrev pub codes : String → List ℕ
codes String.[] = []
codes (String.◌∷◌ c s) = code c ∷ codes s

-- `suc n` rounds are enough for `n`, which has at most `n + 1` digits.
decimal_loop : ℕ → ℕ → List ℕ
decimal_loop zero n = []
decimal_loop (suc fuel) n =
    let rest = decimal_loop fuel (n / 10) in
    if ltb n 10 then (48 + n) ∷ [] else rest ++ (48 + n % 10) ∷ []

unfoldable pub to_string : ℕ → List ℕ
unfolding decimal_loop
to_string n = decimal_loop (suc n) n

decimal_loop-digits : (fuel n : ℕ) → All (λ c. c < 58) (decimal_loop fuel n)
unfolding decimal_loop
decimal_loop-digits zero n = tt
decimal_loop-digits (suc fuel) n =
    if-cases (All (λ c. c < 58)) (ltb n 10) _ _ (λ small. (omega (arith, ltb→lt n 10), tt))
      (λ _.
        All-append (λ c. c < 58) (decimal_loop fuel (n / 10)) ((48 + n % 10) ∷ [])
          (decimal_loop-digits fuel (n / 10)) (omega arith, tt))

-- A decimal numeral has no character above `9`.
pub to_string-digits : (n : ℕ) → All (λ c. c < 58) (to_string n)
unfolding to_string
to_string-digits n = decimal_loop-digits (suc n) n
