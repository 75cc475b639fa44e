-- ===== src/Parse.antt =====
-- `FromStr` of the standard library's integer types, `str::split` and `str::trim`, over the bytes of a
-- text.
pub mod Lines
use sand_box_rust.Base.{
  All, append-nil, sym, ◌++◌, ◌⊎◌, inl, inr, Bool-cases, ap, ◌∙◌, refl, ◌<◌, ℕ, zero, suc, ◌+◌, ◌-◌,
  ◌*◌, ◌^◌, ◌≤◌, ◌≡◌, ◌&&◌, ◌||◌, List, [], ◌∷◌, Option, none, some, leb, ◌==◌, if◌then◌else◌, ℤ,
  pos, neg, arith,
}
use mathlib.Core.Option

-- Decimal digits, with the error of `checked_mul` and `checked_add` above `limit`.
unfoldable pub parse_digits : ℕ → ℕ → List ℕ → Option ℕ
parse_digits limit acc [] = some acc
parse_digits limit acc (c ∷ cs) =
    let acc' = acc * 10 + (c - 48) in
    let rest = parse_digits limit acc' cs in
    if leb b'0' c && leb c b'9' then (if leb acc' limit then rest else none) else none

-- One digit at least.
unfoldable pub parse_number : ℕ → List ℕ → Option ℕ
parse_number limit [] = none
parse_number limit (c ∷ cs) = parse_digits limit 0 (c ∷ cs)

-- `u16`, `u32`, `u64` and `usize`: a `+` may stand in front.
unfoldable pub parse_unsigned : ℕ → List ℕ → Option ℕ
parse_unsigned bits [] = none
parse_unsigned bits (c ∷ cs) =
    if c == b'+' then parse_number (2 ^ bits - 1) cs else parse_number (2 ^ bits - 1) (c ∷ cs)

-- `i32`: `-2^31` is in range and `2^31` is not.
unfoldable pub parse_i32 : List ℕ → Option ℤ
parse_i32 [] = none
parse_i32 (c ∷ cs) =
    if c == b'+'
    then Option.map pos (parse_number (2 ^ 31 - 1) cs)
    else if c == b'-'
    then Option.map neg (parse_number (2 ^ 31) cs)
    else Option.map pos (parse_number (2 ^ 31 - 1) (c ∷ cs))

-- `str::split(',')`: the pieces between the commas, one at least.
unfoldable pub split_comma : List ℕ → List (List ℕ)
split_comma [] = [] ∷ []
split_comma (c ∷ cs) = elim (split_comma cs) [
  | [] ↦ (c ∷ []) ∷ []
  | piece ∷ pieces ↦ if c == b',' then [] ∷ piece ∷ pieces else (c ∷ piece) ∷ pieces
]

-- The length in bytes of the white space in front, 0 if there is none.
abbrev white_len : List ℕ → ℕ
white_len [] = 0
white_len (a ∷ []) = if leb 9 a && leb a 13 || a == 32 then 1 else 0
white_len (a ∷ (b ∷ cs)) =
    if leb 9 a && leb a 13 || a == 32
    then 1
    else if a == 194 && (b == 133 || b == 160)
    then 2
    else elim cs [
      | [] ↦ 0
      | c ∷ _ ↦
          if (a == 225 && (b == 154 && c == 128))
            || ((a == 226
                  && (b == 128 && (leb 128 c && leb c 138 || (c == 168 || (c == 169 || c == 175)))))
                || ((a == 226 && (b == 129 && c == 159)) || (a == 227 && (b == 128 && c == 128))))
          then 3
          else 0
    ]

-- `skip` counts the bytes that are left of the white space before.
trim_from : ℕ → List ℕ → List ℕ
trim_from skip [] = []
trim_from (suc skip) (c ∷ cs) = trim_from skip cs
trim_from zero (c ∷ cs) = elim (white_len (c ∷ cs)) [ zero ↦ c ∷ cs | suc skip ↦ trim_from skip cs ]

trim_end : List ℕ → List ℕ
trim_end [] = []
trim_end (c ∷ cs) = elim (trim_from 0 (c ∷ cs)) [ [] ↦ [] | _ ∷ _ ↦ c ∷ trim_end cs ]

-- `str::trim`
unfoldable pub trim : List ℕ → List ℕ
unfolding trim_from trim_end
trim s = trim_end (trim_from 0 s)

parse_digits-le :
    (limit acc : ℕ) (cs : List ℕ) (n : ℕ)
    → acc ≤ limit
    → parse_digits limit acc cs ≡ some n
    → n ≤ limit
unfolding parse_digits
parse_digits-le limit acc [] n h e = ground arith
parse_digits-le limit acc (c ∷ cs) n h e =
    ground (arith, parse_digits-le limit (acc * 10 + (c - 48)) cs n)

-- What parses is in the range of the type.
pub parse_unsigned-le :
    (bits : ℕ) (cs : List ℕ) (n : ℕ) → parse_unsigned bits cs ≡ some n → n ≤ 2 ^ bits - 1
unfolding parse_unsigned parse_number
parse_unsigned-le bits [] n e = cc
parse_unsigned-le bits (c ∷ []) n e = ground (arith, parse_digits-le (2 ^ bits - 1) 0 (c ∷ []) n)
parse_unsigned-le bits (c ∷ (d ∷ cs)) n e = ground (
  arith,
  parse_digits-le (2 ^ bits - 1) 0 (d ∷ cs) n,
  parse_digits-le (2 ^ bits - 1) 0 (c ∷ d ∷ cs) n,
)

trim_from_graphic : (s : List ℕ) → All (λ c. 32 < c × c < 127) s → trim_from 0 s ≡ s
unfolding trim_from
trim_from_graphic [] h = refl
trim_from_graphic (c ∷ []) h = ground arith
trim_from_graphic (c ∷ (d ∷ cs)) h = ground arith

trim_end_graphic : (s : List ℕ) → All (λ c. 32 < c × c < 127) s → trim_end s ≡ s
unfolding trim_end
trim_end_graphic [] h = refl
trim_end_graphic (c ∷ cs) h =
    rw (trim_from_graphic (c ∷ cs) h, trim_end) (ap (◌∷◌ c) (trim_end_graphic cs h.1))

-- Visible ASCII has no white space to trim.
pub trim_graphic : (s : List ℕ) → All (λ c. 32 < c × c < 127) s → trim s ≡ s
unfolding trim
trim_graphic s h = ap trim_end (trim_from_graphic s h) ∙ trim_end_graphic s h

-- A space or a tab.
abbrev pub IsBlank : ℕ → Type 0
IsBlank c = (c ≡ 32) ⊎ (c ≡ 9)

-- Printable ASCII that is empty or ends with a visible character.
abbrev pub IsTail : List ℕ → Type 0
IsTail [] = Unit
IsTail (c ∷ []) = 32 < c × c < 127
IsTail (c ∷ (d ∷ cs)) = 32 ≤ c × c < 127 × IsTail (d ∷ cs)

trim_from_blank : (c : ℕ) (s : List ℕ) → IsBlank c → trim_from 0 (c ∷ s) ≡ trim_from 0 s
unfolding trim_from
trim_from_blank c [] h = ground arith
trim_from_blank c (d ∷ s) h = ground arith

trim_from-append : (left s : List ℕ) → All IsBlank left → trim_from 0 (left ++ s) ≡ trim_from 0 s
trim_from-append [] s h = refl
trim_from-append (c ∷ left) s (b, h) = trim_from_blank c (left ++ s) b ∙ trim_from-append left s h

trim_from_visible : (c : ℕ) (cs : List ℕ) → 32 < c → c < 127 → trim_from 0 (c ∷ cs) ≡ c ∷ cs
unfolding trim_from
trim_from_visible c [] h k = ground arith
trim_from_visible c (d ∷ cs) h k = ground arith

trim_from_tail :
    (c : ℕ) (cs right : List ℕ)
    → IsTail (c ∷ cs)
    → (d : ℕ) × (ds : List ℕ) × (trim_from 0 ((c ∷ cs) ++ right) ≡ d ∷ ds)
trim_from_tail c [] right (h, k) = (c, right, trim_from_visible c right h k)
trim_from_tail c (d ∷ cs) right (h, k, t) = elim (Bool-cases (c == 32)) [
  | inl e ↦
      let (b, bs, f) = trim_from_tail d cs right t in
      let g : c ≡ 32 = ground arith in (b, bs, trim_from-append (c ∷ []) _ (inl g, tt) ∙ f)
  | inr e ↦ (c, d ∷ cs ++ right, trim_from_visible c _ (ground arith) k)
]

trim_end_blank : (s : List ℕ) → All IsBlank s → trim_end s ≡ []
unfolding trim_end
trim_end_blank [] h = refl
trim_end_blank (c ∷ s) h =
    let e : trim_from 0 (c ∷ s) ≡ [] =
      ap (trim_from 0) (sym (append-nil (c ∷ s))) ∙ trim_from-append (c ∷ s) [] h ∙ from_nil in
    rw (e, trim_end) refl
  where
    from_nil : trim_from 0 [] ≡ []
    from_nil = unfold trim_from in refl

trim_end-append : (s right : List ℕ) → IsTail s → All IsBlank right → trim_end (s ++ right) ≡ s
unfolding trim_end
trim_end-append [] right t h = trim_end_blank right h
trim_end-append (c ∷ []) right t h =
    let (b, bs, e) = trim_from_tail c [] right t in
    rw (e, trim_end) (ap (◌∷◌ c) (trim_end_blank right h))
trim_end-append (c ∷ (d ∷ cs)) right t h =
    let (b, bs, e) = trim_from_tail c (d ∷ cs) right t in
    rw (e, trim_end) (ap (◌∷◌ c) (trim_end-append (d ∷ cs) right t.2 h))

-- Printable ASCII from a visible character to a visible character, between blanks.
pub trim-append :
    (left : List ℕ) (c : ℕ) (s right : List ℕ)
    → All IsBlank left
    → 32 < c
    → IsTail (c ∷ s)
    → All IsBlank right
    → trim (left ++ (c ∷ (s ++ right))) ≡ c ∷ s
unfolding trim
trim-append left c s right hl h t hr =
    ap trim_end
      (trim_from-append left (c ∷ (s ++ right)) hl ∙ trim_from_visible c (s ++ right) h (below s t))
    ∙ trim_end-append (c ∷ s) right t hr
  where
    below : (s : List ℕ) → IsTail (c ∷ s) → c < 127
    below [] t = t.1
    below (d ∷ s) t = t.1

-- Nothing but blanks.
pub trim_blank : (s : List ℕ) → All IsBlank s → trim s ≡ []
unfolding trim trim_from trim_end
trim_blank s h = ap trim_end (ap (trim_from 0) (sym (append-nil s)) ∙ trim_from-append s [] h)
