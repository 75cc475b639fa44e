-- ===== src/Pool/Cipher/Digits.antt =====
-- Big numbers digit by digit: the bytes of the exclusive or of two of them.
use Prim.Native.Nat.{bit_xor}
use sand_box_rust.Base.{
  ℕ, suc, ◌+◌, ◌*◌, ◌/◌, ◌%◌, ◌<◌, ◌≡◌, ap, ◌∙◌, List, [], ◌∷◌, ◌++◌, length, All, arith,
}
use sand_box_rust.Base.Xor.{xor_fields, xor-lt}
use sand_box_rust.Pool.Cipher.{from_bytes, to_bytes}

abbrev pub IsBytes : List ℕ → Type 0
IsBytes bs = All (λ b. b < 256) bs

-- Byte by byte with another list that is long enough.
abbrev pub zip_xor : List ℕ → List ℕ → List ℕ
zip_xor [] ks = []
zip_xor (b ∷ bs) [] = []
zip_xor (b ∷ bs) (k ∷ ks) = bit_xor b k ∷ zip_xor bs ks

xor_digit_256 :
    (a b c d : ℕ)
    → b < 256
    → d < 256
    → (bit_xor (a * 256 + b) (c * 256 + d) / 256 ≡ bit_xor a c)
      × (bit_xor (a * 256 + b) (c * 256 + d) % 256 ≡ bit_xor b d)
xor_digit_256 a b c d h g = (
  omega (arith, xor_fields 8 a b c d h g, xor-lt 8 b d h g),
  omega (arith, xor_fields 8 a b c d h g, xor-lt 8 b d h g),
)

to_bytes-bit_xor_step :
    (a b c k m : ℕ) (rest : List ℕ)
    → b < 256
    → k < 256
    → to_bytes (suc m) (bit_xor (a * 256 + b) (c * 256 + k)) rest
      ≡ to_bytes m (bit_xor a c) (bit_xor b k ∷ rest)
to_bytes-bit_xor_step a b c k m rest h g =
    let (q, r) = xor_digit_256 a b c k h g in
    ap (λ x. to_bytes m x (bit_xor (a * 256 + b) (c * 256 + k) % 256 ∷ rest)) q
    ∙ ap (λ x. to_bytes m (bit_xor a c) (x ∷ rest)) r

-- The digits of the exclusive or of two numbers are those of their bytes.
pub to_bytes-bit_xor :
    (bs ks : List ℕ) (a c m : ℕ) (out : List ℕ)
    → IsBytes bs
    → IsBytes ks
    → length bs ≡ length ks
    → to_bytes (length bs + m) (bit_xor (from_bytes a bs) (from_bytes c ks)) out
      ≡ to_bytes m (bit_xor a c) (zip_xor bs ks ++ out)
to_bytes-bit_xor [] [] a c m out hb hk e =
    let e_len : 0 + m ≡ m = omega arith in ap (λ n. to_bytes n (bit_xor a c) out) e_len
to_bytes-bit_xor [] (k ∷ ks) a c m out hb hk e = absurd (omega arith)
to_bytes-bit_xor (b ∷ bs) [] a c m out hb hk e = absurd (omega arith)
to_bytes-bit_xor (b ∷ bs) (k ∷ ks) a c m out (hb, hbs) (hk, hks) e =
    let e_len : suc (length bs) + m ≡ length bs + suc m = omega arith in
    ap (λ n. to_bytes n (bit_xor (from_bytes (a * 256 + b) bs) (from_bytes (c * 256 + k) ks)) out)
      e_len
    ∙ to_bytes-bit_xor bs ks (a * 256 + b) (c * 256 + k) (suc m) out hbs hks (omega arith)
    ∙ to_bytes-bit_xor_step a b c k m (zip_xor bs ks ++ out) hb hk
