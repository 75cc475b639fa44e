-- ===== src/Server/Crypto.antt =====
-- server/src/crypto.rs; `encode` is the base64 crate's standard engine, and `fill_bytes` the random
-- number generator.
use Prim.Native.Nat.{bit_xor}
use sand_box_rust.Base.{
  ℕ, zero, suc, arith, ◌+◌, ◌%◌, ◌≡◌, refl, List, [], ◌∷◌, Option, none, some, length, get_or,
}
use sand_box_rust.Base.Xor.{xor_twice}

-- `code.iter().enumerate().map(|(i, &b)| b ^ key[i % key.len()])`, from index `i`.
unfoldable pub xor_from : ℕ → List ℕ → List ℕ → List ℕ
xor_from i [] key = []
xor_from i (b ∷ bs) key = bit_xor b (get_or key (i % length key) 0) ∷ xor_from (i + 1) bs key

-- Code under an empty key panics, with a remainder by zero.
unfoldable pub encrypt_code : (List ℕ → List ℕ) → List ℕ → List ℕ → Option (List ℕ)
encrypt_code encode [] key = some (encode [])
encrypt_code encode (b ∷ bs) [] = none
encrypt_code encode (b ∷ bs) (k ∷ ks) = some (encode (xor_from 0 (b ∷ bs) (k ∷ ks)))

abbrev pub zeros : ℕ → List ℕ
zeros zero = []
zeros (suc n) = 0 ∷ zeros n

-- `vec![0u8; length]`, filled in place.
unfoldable pub generate_key : (List ℕ → List ℕ) → ℕ → List ℕ
generate_key fill_bytes length = fill_bytes (zeros length)

pub xor_from_twice : (i : ℕ) (bs key : List ℕ) → xor_from i (xor_from i bs key) key ≡ bs
unfolding xor_from
xor_from_twice i [] key = refl
xor_from_twice i (b ∷ bs) key =
    rw (xor_twice b (get_or key (i % length key) 0), xor_from_twice (i + 1) bs key) refl

-- A key of another length than 0 is not empty.
pub from_length :
    (P : List ℕ → Type 0) (n : ℕ) (key : List ℕ)
    → length key ≡ suc n
    → ((k : ℕ) (ks : List ℕ) → P (k ∷ ks))
    → P key
from_length P n [] h f = absurd (omega arith)
from_length P n (k ∷ ks) h f = f k ks

pub length-zeros : (n : ℕ) → length (zeros n) ≡ n
length-zeros zero = refl
length-zeros (suc n) = omega (arith, length-zeros n)
