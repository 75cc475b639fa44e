-- ===== src/Zygote/Limit.antt =====
-- `max_output_bytes` of server/src/services/zygote.rs: the cap that the environment asks for.
use sand_box_rust.Base.{ℕ, ◌≤◌, ◌<◌, ◌≡◌, List, Option, none, some, ltb, arith, if◌then◌else◌}
use sand_box_rust.Parse.{parse_unsigned, parse_unsigned-le}
use sand_box_rust.Zygote.Reader.{usize_max, default_max_output_bytes}

-- `.filter(|&n| n > 0).unwrap_or(DEFAULT_MAX_OUTPUT_BYTES)`
abbrev cap_of : Option ℕ → ℕ
cap_of none = default_max_output_bytes
cap_of (some n) = if ltb 0 n then n else default_max_output_bytes

abbrev parsed_usize : Option (List ℕ) → Option ℕ
parsed_usize none = none
parsed_usize (some v) = parse_unsigned 64 v

-- The argument is the value of `ZYGOTE_MAX_OUTPUT_BYTES`, if it is set.
unfoldable pub max_output_bytes : Option (List ℕ) → ℕ
max_output_bytes v = cap_of (parsed_usize v)

cap_of-range :
    (o : Option ℕ)
    → ((n : ℕ) → o ≡ some n → n ≤ usize_max)
    → (0 < cap_of o) × (cap_of o ≤ usize_max)
cap_of-range none h = (omega arith, omega arith)
cap_of-range (some n) h = (ground arith, ground (arith, h n))

-- Whatever the variable holds, the cap is positive and fits a `usize`.
pub max_output_bytes-range :
    (v : Option (List ℕ)) → (0 < max_output_bytes v) × (max_output_bytes v ≤ usize_max)
unfolding max_output_bytes
max_output_bytes-range none = cap_of-range none (λ n e. ground arith)
max_output_bytes-range (some v) =
    cap_of-range (parse_unsigned 64 v) (λ n e. parse_unsigned-le 64 v n e)
