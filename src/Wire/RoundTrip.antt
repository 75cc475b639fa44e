-- ===== src/Wire/RoundTrip.antt =====
-- `encode_frame` against the header that the reader takes from the front of its buffer.
use sand_box_rust.Base.{
  ℕ, ◌+◌, ◌/◌, ◌%◌, ◌^◌, ◌≤◌, ◌<◌, ◌≡◌, refl, ◌∙◌, List, [], ◌∷◌, ◌++◌, some, none, arith, length,
  take, drop, take-length-append, drop-length-append, drop-add,
}
use sand_box_rust.Wire.{IsU32, IsFrame, Header, header, header_size, from_be_bytes, encode_frame}

-- Four big-endian bytes of `n` stand for `n`, as the reader decodes them.
pub from_be_bytes-to_be_bytes :
    (n : ℕ)
    → IsU32 n
    → from_be_bytes (n / 2 ^ 24 % 256) (n / 2 ^ 16 % 256) (n / 2 ^ 8 % 256) (n % 256) ≡ n
unfolding from_be_bytes
from_be_bytes-to_be_bytes n h = omega arith

pub length-encode_frame :
    (t id : ℕ) (p : List ℕ) → length (encode_frame t id p) ≡ header_size + length p
unfolding encode_frame
length-encode_frame t id p = omega arith

-- For fields that fit their widths, the header that is read from an encoded frame, whatever
-- follows it, has the length of the payload, the type and the request id.
pub header-encode_frame :
    (t id : ℕ) (p rest : List ℕ)
    → IsFrame t id p
    → header (encode_frame t id p ++ rest)
      ≡ some (record { plen = length p; mtype = t; req_id = id })
unfolding header encode_frame
header-encode_frame t id p rest (ht, hid, hp) =
    ground (arith, from_be_bytes-to_be_bytes (length p % 2 ^ 32), from_be_bytes-to_be_bytes id)

drop_header :
    (t id : ℕ) (p rest : List ℕ) → drop header_size (encode_frame t id p ++ rest) ≡ p ++ rest
unfolding encode_frame
drop_header t id p rest = refl

pub take_payload :
    (t id : ℕ) (p rest : List ℕ)
    → take (length p) (drop header_size (encode_frame t id p ++ rest)) ≡ p
take_payload t id p rest = rw (drop_header t id p rest) (take-length-append p rest)

pub drop_frame :
    (t id : ℕ) (p rest : List ℕ)
    → drop (header_size + length p) (encode_frame t id p ++ rest) ≡ rest
drop_frame t id p rest =
    drop-add header_size (length p) (encode_frame t id p ++ rest)
    ∙ rw (drop_header t id p rest) (drop-length-append p rest)

-- More bytes behind a header do not change it.
pub header-append :
    (buf more : List ℕ) (h : Header) → header buf ≡ some h → header (buf ++ more) ≡ some h
unfolding header
header-append (a ∷ b ∷ c ∷ d ∷ t ∷ e ∷ f ∷ g ∷ i ∷ rest) more h p = p
header-append [] more h p = cc
header-append (a ∷ []) more h p = cc
header-append (a ∷ b ∷ []) more h p = cc
header-append (a ∷ b ∷ c ∷ []) more h p = cc
header-append (a ∷ b ∷ c ∷ d ∷ []) more h p = cc
header-append (a ∷ b ∷ c ∷ d ∷ t ∷ []) more h p = cc
header-append (a ∷ b ∷ c ∷ d ∷ t ∷ e ∷ []) more h p = cc
header-append (a ∷ b ∷ c ∷ d ∷ t ∷ e ∷ f ∷ []) more h p = cc
header-append (a ∷ b ∷ c ∷ d ∷ t ∷ e ∷ f ∷ g ∷ []) more h p = cc

-- A buffer that has a header holds its nine bytes.
pub header_size-le : (buf : List ℕ) (h : Header) → header buf ≡ some h → header_size ≤ length buf
unfolding header
header_size-le (a ∷ b ∷ c ∷ d ∷ t ∷ e ∷ f ∷ g ∷ i ∷ rest) h p = omega arith
header_size-le [] h p = cc
header_size-le (a ∷ []) h p = cc
header_size-le (a ∷ b ∷ []) h p = cc
header_size-le (a ∷ b ∷ c ∷ []) h p = cc
header_size-le (a ∷ b ∷ c ∷ d ∷ []) h p = cc
header_size-le (a ∷ b ∷ c ∷ d ∷ t ∷ []) h p = cc
header_size-le (a ∷ b ∷ c ∷ d ∷ t ∷ e ∷ []) h p = cc
header_size-le (a ∷ b ∷ c ∷ d ∷ t ∷ e ∷ f ∷ []) h p = cc
header_size-le (a ∷ b ∷ c ∷ d ∷ t ∷ e ∷ f ∷ g ∷ []) h p = cc

pub header-none : (buf : List ℕ) → header buf ≡ none → length buf < header_size
unfolding header
header-none (a ∷ b ∷ c ∷ d ∷ t ∷ e ∷ f ∷ g ∷ i ∷ rest) p = cc
header-none [] p = omega arith
header-none (a ∷ []) p = omega arith
header-none (a ∷ b ∷ []) p = omega arith
header-none (a ∷ b ∷ c ∷ []) p = omega arith
header-none (a ∷ b ∷ c ∷ d ∷ []) p = omega arith
header-none (a ∷ b ∷ c ∷ d ∷ t ∷ []) p = omega arith
header-none (a ∷ b ∷ c ∷ d ∷ t ∷ e ∷ []) p = omega arith
header-none (a ∷ b ∷ c ∷ d ∷ t ∷ e ∷ f ∷ []) p = omega arith
header-none (a ∷ b ∷ c ∷ d ∷ t ∷ e ∷ f ∷ g ∷ []) p = omega arith
