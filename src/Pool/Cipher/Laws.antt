-- ===== src/Pool/Cipher/Laws.antt =====
-- The worker's decryption in big numbers against the server's encryption, byte by byte.
use Prim.Native.Nat.{bit_xor}
use native.Mathlib.Nat.{mod-eq_of_lt, div-add-mod', mod-lt, mod-add-mod, add-mul-mod_self_right}
use sand_box_rust.Base.{
  ℕ, zero, suc, ◌+◌, ◌*◌, ◌/◌, ◌%◌, ◌≤◌, ◌<◌, ◌≡◌, refl, sym, ap, ◌∙◌, List, [], ◌∷◌, ◌++◌, Option,
  some, ltb, length, take, drop, arith, get_or, append-nil, length-drop, ltb→lt, if-cases,
}
use sand_box_rust.Base.Xor.{xor-lt}
use sand_box_rust.Server.Crypto.{
  xor_from, xor_from_twice, encrypt_code, generate_key, zeros, length-zeros, from_length,
}
use sand_box_rust.Pool.Cipher.{
  from_bytes, to_bytes, chunk_size, xor_segment, xor_loop, xor, decrypt,
}
use sand_box_rust.Pool.Cipher.Digits.{IsBytes, zip_xor, to_bytes-bit_xor}
use sand_box_rust.Pool.Cipher.Stream.{
  key_at, zip_get, stream, length-stream, get_or-stream, stream-IsBytes, take-IsBytes, drop-IsBytes,
}

-- The stream may start wherever the key does.
key_at-add : (key : List ℕ) (i j : ℕ) → i % length key ≡ 0 → key_at key (i + j) ≡ key_at key j
key_at-add key i j e =
    ap (λ n. get_or key n 0)
      (sym (mod-add-mod i (length key) j)
        ∙ ap (λ n. (n + j) % length key) e
        ∙ ap (λ n. n % length key) (omega arith))

xor_segment_lem :
    (i : ℕ) (bs key : List ℕ)
    → IsBytes bs
    → IsBytes key
    → 0 < length key
    → i % length key ≡ 0
    → xor_segment key bs ≡ some (xor_from i bs key)
unfolding xor_segment
xor_segment_lem i bs key hb hk hl e =
    let q = length bs / length key in
    let r = length bs % length key in
    let hr : r < length key = mod-lt (length bs) hl in
    let e_len : length (stream q r key) ≡ length bs =
      length-stream q r key (omega arith) ∙ div-add-mod' (length bs) (length key) in
    let n = bit_xor (from_bytes 0 bs) (from_bytes 0 (stream q r key)) in
    let e_plus : length bs ≡ length bs + 0 = omega arith in
    ap (λ l. to_bytes l n []) e_plus
    ∙ to_bytes-bit_xor bs (stream q r key) 0 0 0 [] hb (stream-IsBytes q r key hk) (sym e_len)
    ∙ ap some (append-nil (zip_xor bs (stream q r key)))
    ∙ ap some (
        zip_get bs (stream q r key) key i (sym e_len) (λ j g.
          get_or-stream q r key j (omega arith)
            (omega (arith, div-add-mod' (length bs) (length key)))
          ∙ sym (key_at-add key i j e)))

xor_from-take :
    (c i : ℕ) (bs key : List ℕ)
    → xor_from i (take c bs) key ++ xor_from (i + c) (drop c bs) key ≡ xor_from i bs key
unfolding xor_from
xor_from-take zero i bs key = ap (λ n. xor_from n bs key) (omega arith)
xor_from-take (suc c) i [] key = refl
xor_from-take (suc c) i (b ∷ bs) key =
    let e_next : i + suc c ≡ i + 1 + c = omega arith in
    ap (◌∷◌ (bit_xor b (key_at key i))) (
      ap (λ n. xor_from (i + 1) (take c bs) key ++ xor_from n (drop c bs) key) e_next
      ∙ xor_from-take c (i + 1) bs key)

above_lem : (kl q : ℕ) → kl < q * kl → (c : ℕ) × (q * kl ≡ suc c * kl)
above_lem kl zero h = absurd (omega arith)
above_lem kl (suc q) h = (q, refl)

chunk_size_lem : (kl : ℕ) → (c : ℕ) × (chunk_size kl ≡ suc c * kl)
chunk_size_lem kl =
    if-cases (λ n. (c : ℕ) × (n ≡ suc c * kl)) (ltb kl (65536 / kl * kl)) (65536 / kl * kl) kl
      (λ e. above_lem kl (65536 / kl) (ltb→lt kl (65536 / kl * kl) e)) (λ e. (0, omega arith))

xor_loop_lem :
    (rounds c i : ℕ) (bs key : List ℕ)
    → length bs ≤ rounds
    → IsBytes bs
    → IsBytes key
    → 0 < length key
    → i % length key ≡ 0
    → xor_loop rounds (suc c * length key) key bs ≡ some (xor_from i bs key)
unfolding xor_loop xor_from
xor_loop_lem rounds c i [] key hr hb hk hl e = refl
xor_loop_lem zero c i (b ∷ bs) key hr hb hk hl e = absurd (omega arith)
xor_loop_lem (suc rounds) c i (b ∷ bs) key hr hb hk hl e =
    let n = suc c * length key in
    let all = b ∷ bs in
    let e_next : (i + n) % length key ≡ 0 = add-mul-mod_self_right i (suc c) (length key) ∙ e in
    let h_n : 0 < n = grind arith in
    rw
      (
        xor_segment_lem i (take n all) key (take-IsBytes n all hb) hk hl e,
        xor_loop_lem rounds c (i + n) (drop n all) key (omega (arith, length-drop n all))
            (drop-IsBytes n all hb) hk hl e_next,
      )
      (ap some (xor_from-take n i all key))

-- On bytes and under a key that is not empty, the worker's decryption in big numbers, chunk by
-- chunk, succeeds, and gives the server's exclusive or, byte by byte with the key repeated.
pub xor-xor_from :
    (code : List ℕ) (k : ℕ) (ks : List ℕ)
    → IsBytes code
    → IsBytes (k ∷ ks)
    → xor code (k ∷ ks) ≡ some (xor_from 0 code (k ∷ ks))
unfolding xor xor_from
xor-xor_from [] k ks hd hk = refl
xor-xor_from (b ∷ bs) k ks hd hk =
    let (c, e) = chunk_size_lem (length (k ∷ ks)) in
    ap (λ n. xor_loop (length (b ∷ bs)) n (k ∷ ks) (b ∷ bs)) e
    ∙ xor_loop_lem (length (b ∷ bs)) c 0 (b ∷ bs) (k ∷ ks) (omega arith) hd hk (omega arith)
        (mod-eq_of_lt (omega arith))

get_or-IsBytes : (key : List ℕ) (j : ℕ) → IsBytes key → get_or key j 0 < 256
get_or-IsBytes [] j h = omega arith
get_or-IsBytes (k ∷ ks) zero (h, hs) = h
get_or-IsBytes (k ∷ ks) (suc j) (h, hs) = get_or-IsBytes ks j hs

xor_from-IsBytes :
    (i : ℕ) (bs key : List ℕ)
    → IsBytes bs
    → IsBytes key
    → 0 < length key
    → IsBytes (xor_from i bs key)
unfolding xor_from
xor_from-IsBytes i [] key hb hk hl = tt
xor_from-IsBytes i (b ∷ bs) key (h, hb) hk hl = (
  xor-lt 8 b (key_at key i) h (get_or-IsBytes key (i % length key) hk),
  xor_from-IsBytes (i + 1) bs key hb hk hl,
)

-- What the worker and a fresh interpreter make of the text that the server sends: the code.
abbrev pub Decrypts : (List ℕ → List ℕ) → (List ℕ → Option (List ℕ)) → List ℕ → List ℕ → Type 0
Decrypts encode decode code key =
    (text : List ℕ) × (cipher : List ℕ) × (encrypt_code encode code key ≡ some text)
    × (decode text ≡ some cipher)
    × (xor cipher key ≡ some code)
    × (decrypt cipher key ≡ some code)

key-Decrypts :
    (encode : List ℕ → List ℕ) (decode : List ℕ → Option (List ℕ)) (code : List ℕ) (k : ℕ)
    (ks : List ℕ)
    → ((bs : List ℕ) → decode (encode bs) ≡ some bs)
    → IsBytes code
    → IsBytes (k ∷ ks)
    → Decrypts encode decode code (k ∷ ks)
unfolding encrypt_code xor_from xor decrypt
key-Decrypts encode decode [] k ks back h hk = (encode [], [], refl, back [], refl, refl)
key-Decrypts encode decode (b ∷ bs) k ks back h hk =
    let key = k ∷ ks in
    let cipher = xor_from 0 (b ∷ bs) key in
    (
      encode cipher,
      cipher,
      refl,
      back cipher,
      xor-xor_from cipher k ks (xor_from-IsBytes 0 (b ∷ bs) key h hk (omega arith)) hk
          ∙ ap some (xor_from_twice 0 (b ∷ bs) key),
      ap some (xor_from_twice 0 (b ∷ bs) key),
    )

-- With a generator that fills as many entries as it is given, with bytes, and an engine whose
-- `decode` undoes its `encode`: under the key of 64 bytes that the runner generates, the server
-- encrypts every code of bytes, and
-- both the worker, which decodes the text and applies the key in big numbers, and a fresh
-- interpreter, which applies it byte by byte, have the code again.
pub encrypt_code-xor :
    (fill_bytes encode : List ℕ → List ℕ) (decode : List ℕ → Option (List ℕ)) (code : List ℕ)
    → ((bs : List ℕ) → length (fill_bytes bs) ≡ length bs)
    → ((bs : List ℕ) → IsBytes (fill_bytes bs))
    → ((bs : List ℕ) → decode (encode bs) ≡ some bs)
    → IsBytes code
    → let key = generate_key fill_bytes 64 in Decrypts encode decode code key
unfolding generate_key
encrypt_code-xor fill_bytes encode decode code keeps fills back h =
    from_length (λ key. IsBytes key → Decrypts encode decode code key) 63 (fill_bytes (zeros 64))
      (omega (arith, keeps (zeros 64), length-zeros 64))
      (λ k ks hk. key-Decrypts encode decode code k ks back h hk) (fills (zeros 64))
