-- ===== src/Pool/Protocol/Laws.antt =====
-- The two sides of the frame format against each other: runtime/pool/protocol.py and
-- server/src/services/zygote.rs.
use native.Mathlib.Nat.{mod-eq_of_lt}
use sand_box_rust.Base.{
  ℕ, suc, ◌-◌, ◌^◌, ◌<◌, ◌≡◌, sym, ap, ◌∙◌, List, [], ◌∷◌, ◌++◌, length, arith, ℤ, pos, negsuc,
  i32_of_bits, if-cases, ltb, ltb→lt,
}
use sand_box_rust.Wire
use sand_box_rust.Wire.{IsU32, IsFrame, Header, header, to_be_bytes, from_be_bytes}
use sand_box_rust.Wire.RoundTrip.{from_be_bytes-to_be_bytes}
use sand_box_rust.Zygote.Reader.{done_code}
use sand_box_rust.Pool.Protocol
use sand_box_rust.Pool.Protocol.{pack_done}

-- The two sides of the connection write the same bytes for a frame whose payload fits.
pub encode_frame_same :
    (t k : ℕ) (p : List ℕ)
    → IsU32 (length p)
    → Protocol.encode_frame t k p ≡ Wire.encode_frame t k p
unfolding Protocol.encode_frame Wire.encode_frame
encode_frame_same t k p h =
    ap (λ n. to_be_bytes n ++ ((t ∷ []) ++ (to_be_bytes k ++ p))) (sym (mod-eq_of_lt h))

-- The codes that an `i32` can stand for.
abbrev pub IsI32 : ℤ → Type 0
IsI32 (pos n) = n < 2 ^ 31
IsI32 (negsuc n) = n < 2 ^ 31

-- For a code that fits 32 bits, the server reads from the worker's MSG_DONE the code that the
-- worker packed, whatever follows it.
pub done_code-pack_done : (c : ℤ) (rest : List ℕ) → IsI32 c → done_code (pack_done c ++ rest) ≡ c
unfolding done_code pack_done to_be_bytes
done_code-pack_done (pos n) rest h =
    ap i32_of_bits (from_be_bytes-to_be_bytes n (omega arith)) ∙ ground arith
done_code-pack_done (negsuc n) rest h =
    ap i32_of_bits (from_be_bytes-to_be_bytes (2 ^ 32 - suc n) (omega arith))
    ∙ if-cases (λ c. c ≡ negsuc n) (ltb (2 ^ 32 - suc n) (2 ^ 31)) _ _
        (λ e. absurd (omega (arith, ltb→lt (2 ^ 32 - suc n) (2 ^ 31) e)))
        (λ _. ap negsuc (omega arith))
