-- ===== src/Pool/Cipher/Stream.antt =====
-- The repeated key as a list of bytes, entry by entry.
use native.Mathlib.Nat.{mod-eq_of_lt, mod-eq-sub-mod}
use sand_box_rust.Base.{
  ℕ, zero, suc, ◌+◌, ◌-◌, ◌*◌, ◌%◌, ◌≤◌, ◌<◌, ◌≡◌, refl, sym, ap, ◌∙◌, List, [], ◌∷◌, ◌++◌, ltb,
  length, take, drop, All-append, arith, get_or, append_assoc, ◌⊎◌, length-append, length-take,
  ltb→lt, ltb→le, inl, inr, Bool-cases,
}
use sand_box_rust.Server.Crypto.{xor_from}
use sand_box_rust.Pool.Cipher.{repeat}
use sand_box_rust.Pool.Cipher.Digits.{IsBytes, zip_xor}

-- Entry `j` of a key's stream.
abbrev pub key_at : List ℕ → ℕ → ℕ
key_at key j = get_or key (j % length key) 0

pub zip_get :
    (bs ks key : List ℕ) (i : ℕ)
    → length bs ≡ length ks
    → ((j : ℕ) → j < length ks → get_or ks j 0 ≡ key_at key (i + j))
    → zip_xor bs ks ≡ xor_from i bs key
unfolding xor_from
zip_get [] ks key i e h = refl
zip_get (b ∷ bs) [] key i e h = absurd (omega arith)
zip_get (b ∷ bs) (k ∷ ks) key i e h =
    let e_key : k ≡ key_at key i = h 0 (omega arith) ∙ ap (key_at key) (omega arith) in
    rw
      (
        e_key,
        zip_get bs ks key (i + 1) (omega arith)
            (λ j g. h (suc j) (omega arith) ∙ ap (key_at key) (omega arith)),
      )
      refl

get_or-append_left :
    (xs ys : List ℕ) (j : ℕ) → j < length xs → get_or (xs ++ ys) j 0 ≡ get_or xs j 0
get_or-append_left [] ys j h = absurd (omega arith)
get_or-append_left (x ∷ xs) ys zero h = refl
get_or-append_left (x ∷ xs) ys (suc j) h = get_or-append_left xs ys j (omega arith)

get_or-append_right :
    (xs ys : List ℕ) (j : ℕ) → length xs ≤ j → get_or (xs ++ ys) j 0 ≡ get_or ys (j - length xs) 0
get_or-append_right [] ys j h = ap (λ n. get_or ys n 0) (omega arith)
get_or-append_right (x ∷ xs) ys zero h = absurd (omega arith)
get_or-append_right (x ∷ xs) ys (suc j) h =
    get_or-append_right xs ys j (omega arith) ∙ ap (λ n. get_or ys n 0) (omega arith)

get_or-take : (r : ℕ) (xs : List ℕ) (j : ℕ) → j < r → get_or (take r xs) j 0 ≡ get_or xs j 0
get_or-take zero xs j h = absurd (omega arith)
get_or-take (suc r) [] j h = refl
get_or-take (suc r) (x ∷ xs) zero h = refl
get_or-take (suc r) (x ∷ xs) (suc j) h = get_or-take r xs j (omega arith)

-- `key * q + key[:r]`
abbrev pub stream : ℕ → ℕ → List ℕ → List ℕ
stream q r key = repeat q key ++ take r key

pub length-stream :
    (q r : ℕ) (key : List ℕ) → r ≤ length key → length (stream q r key) ≡ q * length key + r
length-stream zero r key h = omega (arith, length-take r key)
length-stream (suc q) r key h =
    ap length (append_assoc key (repeat q key) (take r key))
    ∙ length-append key (stream q r key)
    ∙ grind (arith, length-stream q r key h)

lt_or_ge : (a b : ℕ) → (a < b) ⊎ (b ≤ a)
lt_or_ge a b = elim (Bool-cases (ltb a b)) [
  | inl e ↦ inl (ltb→lt a b e)
  | inr e ↦ inr (ltb→le a b e)
]

pub get_or-stream :
    (q r : ℕ) (key : List ℕ) (j : ℕ)
    → r ≤ length key
    → j < q * length key + r
    → get_or (stream q r key) j 0 ≡ key_at key j
get_or-stream zero r key j h g =
    get_or-take r key j (omega arith) ∙ ap (λ n. get_or key n 0) (sym (mod-eq_of_lt (omega arith)))
get_or-stream (suc q) r key j h g =
    let e_assoc = ap (λ ks. get_or ks j 0) (append_assoc key (repeat q key) (take r key)) in
    elim (lt_or_ge j (length key)) [
      | inl l ↦
          e_assoc
          ∙ get_or-append_left key (stream q r key) j l
          ∙ ap (λ n. get_or key n 0) (sym (mod-eq_of_lt l))
      | inr l ↦
          e_assoc
          ∙ get_or-append_right key (stream q r key) j l
          ∙ get_or-stream q r key (j - length key) h (grind arith)
          ∙ ap (λ n. get_or key n 0) (sym (mod-eq-sub-mod l))
    ]

pub take-IsBytes : (n : ℕ) (bs : List ℕ) → IsBytes bs → IsBytes (take n bs)
take-IsBytes zero bs h = tt
take-IsBytes (suc n) [] h = tt
take-IsBytes (suc n) (b ∷ bs) (hb, h) = (hb, take-IsBytes n bs h)

pub drop-IsBytes : (n : ℕ) (bs : List ℕ) → IsBytes bs → IsBytes (drop n bs)
drop-IsBytes zero bs h = h
drop-IsBytes (suc n) [] h = tt
drop-IsBytes (suc n) (b ∷ bs) (hb, h) = drop-IsBytes n bs h

repeat-IsBytes : (q : ℕ) (key : List ℕ) → IsBytes key → IsBytes (repeat q key)
repeat-IsBytes zero key h = tt
repeat-IsBytes (suc q) key h =
    All-append (λ b. b < 256) key (repeat q key) h (repeat-IsBytes q key h)

pub stream-IsBytes : (q r : ℕ) (key : List ℕ) → IsBytes key → IsBytes (stream q r key)
stream-IsBytes q r key h =
    All-append (λ b. b < 256) (repeat q key) (take r key) (repeat-IsBytes q key h)
      (take-IsBytes r key h)
