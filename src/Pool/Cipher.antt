-- ===== src/Pool/Cipher.antt =====
-- `_xor` of runtime/pool/zygote_worker.py, by which the worker decrypts a request's code, and
-- `decrypt` of runtime/prescript.py.
pub mod Digits
pub mod Stream
pub mod Laws
use Prim.Native.Nat.{bit_xor}
use sand_box_rust.Server.Crypto.{xor_from}
use sand_box_rust.Base.{
  ℕ, zero, suc, ◌+◌, ◌*◌, ◌/◌, ◌%◌, List, [], ◌∷◌, ◌++◌, Option, none, some, if◌then◌else◌, ◌==◌,
  ltb, length, take, drop,
}

-- `int.from_bytes(bs, "big")`, behind the number of the bytes before.
abbrev pub from_bytes : ℕ → List ℕ → ℕ
from_bytes acc [] = acc
from_bytes acc (b ∷ bs) = from_bytes (acc * 256 + b) bs

-- `n.to_bytes(len, "big")`, in front of `out`; `none` is its OverflowError.
abbrev pub to_bytes : ℕ → ℕ → List ℕ → Option (List ℕ)
to_bytes zero n out = if n == 0 then some out else none
to_bytes (suc len) n out = to_bytes len (n / 256) (n % 256 ∷ out)

-- `key * n`
abbrev pub repeat : ℕ → List ℕ → List ℕ
repeat zero key = []
repeat (suc n) key = key ++ repeat n key

abbrev pub max : ℕ → ℕ → ℕ
max a b = if ltb a b then b else a

-- About 64 KiB, and a multiple of the key's length.
abbrev pub chunk_size : ℕ → ℕ
chunk_size kl = max kl (65536 / kl * kl)

-- One round of the loop, on `mv[i:end]`.
unfoldable pub xor_segment : List ℕ → List ℕ → Option (List ℕ)
xor_segment key segment =
    let seg_len = length segment in
    let kl = length key in
    let keystream = repeat (seg_len / kl) key ++ take (seg_len % kl) key in
    to_bytes seg_len (bit_xor (from_bytes 0 segment) (from_bytes 0 keystream)) []

abbrev pub append_to : Option (List ℕ) → Option (List ℕ) → Option (List ℕ)
append_to (some a) (some b) = some (a ++ b)
append_to _ _ = none

-- `while i < n`, on what is left, `mv[i:]`. Every round takes one byte at least, so a round for each
-- byte is enough; `none` where they run out too.
unfoldable pub xor_loop : ℕ → ℕ → List ℕ → List ℕ → Option (List ℕ)
xor_loop rounds chunk key [] = some []
xor_loop zero chunk key (b ∷ bs) = none
xor_loop (suc rounds) chunk key (b ∷ bs) =
    append_to (xor_segment key (take chunk (b ∷ bs)))
      (xor_loop rounds chunk key (drop chunk (b ∷ bs)))

-- An empty key is a division by zero, which `none` stands for too.
unfoldable pub xor : List ℕ → List ℕ → Option (List ℕ)
unfolding xor_loop
xor [] key = some []
xor (b ∷ bs) [] = none
xor (b ∷ bs) (k ∷ ks) = xor_loop (length (b ∷ bs)) (chunk_size (length (k ∷ ks))) (k ∷ ks) (b ∷ bs)

-- `decrypt` of runtime/prescript.py, by which a fresh interpreter decrypts its code: each byte
-- changes in place. An empty key is a remainder by zero.
unfoldable pub decrypt : List ℕ → List ℕ → Option (List ℕ)
decrypt [] key = some []
decrypt (b ∷ bs) [] = none
decrypt (b ∷ bs) (k ∷ ks) = some (xor_from 0 (b ∷ bs) (k ∷ ks))
