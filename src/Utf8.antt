-- ===== src/Utf8.antt =====
-- `String::from_utf8_lossy` and `String::from_utf8` of the standard library, as a machine that
-- reads one byte at a time. A text is the list of its UTF-8 bytes.
use sand_box_rust.Base.{
  ℕ, ◌-◌, ◌≡◌, refl, Bool, true, false, ◌&&◌, List, [], ◌∷◌, ◌++◌, Option, none, some, ltb, leb,
  ◌==◌, if◌then◌else◌, All, ◌<◌, arith, append_assoc, ◌∙◌, Bool-cases, inl, inr,
}

-- `idle`, or within a sequence: the bytes read, how many are to come, the range of the next.
pub data Decoder : Type 0 where
  idle : Decoder
  inside : List ℕ → ℕ → ℕ → ℕ → Decoder

-- U+FFFD
abbrev pub replacement : List ℕ
replacement = 0xef ∷ 0xbf ∷ 0xbd ∷ []

pub data Move : Type 0 where
  emit : List ℕ → Move
  begin : Decoder → Move
  invalid : Move

-- What a first byte opens (Unicode, table 3-7).
pub first_byte : ℕ → Move
first_byte b =
    if ltb b 0x80
    then emit (b ∷ [])
    else if ltb b 0xc2
    then invalid
    else if ltb b 0xe0
    then begin (inside (b ∷ []) 1 0x80 0xbf)
    else if b == 0xe0
    then begin (inside (b ∷ []) 2 0xa0 0xbf)
    else if b == 0xed
    then begin (inside (b ∷ []) 2 0x80 0x9f)
    else if ltb b 0xf0
    then begin (inside (b ∷ []) 2 0x80 0xbf)
    else if b == 0xf0
    then begin (inside (b ∷ []) 3 0x90 0xbf)
    else if ltb b 0xf4
    then begin (inside (b ∷ []) 3 0x80 0xbf)
    else if b == 0xf4
    then begin (inside (b ∷ []) 3 0x80 0x8f)
    else invalid

-- A byte that goes on with a sequence.
pub next_byte : List ℕ → ℕ → ℕ → ℕ → ℕ → Move
next_byte seen left lo hi b =
    if leb lo b && leb b hi
    then (if left == 1
        then emit (seen ++ b ∷ [])
        else begin (inside (seen ++ b ∷ []) (left - 1) 0x80 0xbf))
    else invalid

-- The output of a run; an invalid part becomes one replacement character.
abbrev after_first : Move → (Decoder → List ℕ) → List ℕ
after_first (emit out) rest = out ++ rest idle
after_first (begin d) rest = rest d
after_first invalid rest = replacement ++ rest idle

-- After an invalid byte within a sequence that byte is read again as a first byte.
abbrev after_next : Move → (Decoder → List ℕ) → List ℕ → List ℕ
after_next (emit out) rest again = out ++ rest idle
after_next (begin d) rest again = rest d
after_next invalid rest again = replacement ++ again

lossy_from : List ℕ → Decoder → List ℕ
unfolding first_byte next_byte
lossy_from [] idle = []
lossy_from [] (inside seen left lo hi) = replacement
lossy_from (b ∷ bs) idle = after_first (first_byte b) (lossy_from bs)
lossy_from (b ∷ bs) (inside seen left lo hi) =
    after_next (next_byte seen left lo hi b) (lossy_from bs)
      (after_first (first_byte b) (lossy_from bs))

unfoldable pub from_utf8_lossy : List ℕ → List ℕ
unfolding lossy_from
from_utf8_lossy bs = lossy_from bs idle

abbrev valid_after : Move → (Decoder → Bool) → Bool
valid_after (emit out) rest = rest idle
valid_after (begin d) rest = rest d
valid_after invalid rest = false

valid_from : List ℕ → Decoder → Bool
unfolding first_byte next_byte
valid_from [] idle = true
valid_from [] (inside seen left lo hi) = false
valid_from (b ∷ bs) idle = valid_after (first_byte b) (valid_from bs)
valid_from (b ∷ bs) (inside seen left lo hi) =
    valid_after (next_byte seen left lo hi b) (valid_from bs)

-- `none` is the error, which keeps the bytes.
unfoldable pub from_utf8 : List ℕ → Option (List ℕ)
unfolding valid_from
from_utf8 bs = if valid_from bs idle then some bs else none

abbrev seen_of : Decoder → List ℕ
seen_of idle = []
seen_of (inside seen left lo hi) = seen

-- A move keeps the bytes: those seen before it and the byte that it reads.
abbrev Keeps : List ℕ → Move → Type 0
Keeps read (emit out) = out ≡ read
Keeps read (begin d) = seen_of d ≡ read
Keeps read invalid = Unit

first_byte-Keeps : (b : ℕ) → Keeps (b ∷ []) (first_byte b)
unfolding first_byte
first_byte-Keeps b = ground arith

next_byte-Keeps :
    (seen : List ℕ) (left lo hi b : ℕ) → Keeps (seen ++ b ∷ []) (next_byte seen left lo hi b)
unfolding next_byte
next_byte-Keeps seen left lo hi b = ground arith

after_first-eq :
    (read : List ℕ) (m : Move) (bs : List ℕ)
    → Keeps read m
    → ((d : Decoder) → valid_from bs d ≡ true → lossy_from bs d ≡ seen_of d ++ bs)
    → valid_after m (valid_from bs) ≡ true
    → after_first m (lossy_from bs) ≡ read ++ bs
after_first-eq read (emit out) bs k ih h = rw (k, ih idle h)
after_first-eq read (begin d) bs k ih h = rw (ih d h, k)
after_first-eq read invalid bs k ih h = cc

after_next-eq :
    (read : List ℕ) (m : Move) (bs again : List ℕ)
    → Keeps read m
    → ((d : Decoder) → valid_from bs d ≡ true → lossy_from bs d ≡ seen_of d ++ bs)
    → valid_after m (valid_from bs) ≡ true
    → after_next m (lossy_from bs) again ≡ read ++ bs
after_next-eq read (emit out) bs again k ih h = rw (k, ih idle h)
after_next-eq read (begin d) bs again k ih h = rw (ih d h, k)
after_next-eq read invalid bs again k ih h = cc

-- Where a run finds nothing invalid it gives back what it read.
lossy_from-eq :
    (bs : List ℕ) (d : Decoder) → valid_from bs d ≡ true → lossy_from bs d ≡ seen_of d ++ bs
unfolding lossy_from valid_from
lossy_from-eq [] idle h = refl
lossy_from-eq [] (inside seen left lo hi) h = cc
lossy_from-eq (b ∷ bs) idle h =
    after_first-eq (b ∷ []) (first_byte b) bs (first_byte-Keeps b) (lossy_from-eq bs) h
lossy_from-eq (b ∷ bs) (inside seen left lo hi) h =
    after_next-eq (seen ++ b ∷ []) (next_byte seen left lo hi b) bs _
      (next_byte-Keeps seen left lo hi b) (lossy_from-eq bs) h
    ∙ append_assoc seen (b ∷ []) bs

-- Valid UTF-8 is decoded to itself, lossily or not.
pub from_utf8_lossy-from_utf8 :
    (bs s : List ℕ) → from_utf8 bs ≡ some s → (s ≡ bs) × (from_utf8_lossy bs ≡ bs)
unfolding from_utf8 from_utf8_lossy
from_utf8_lossy-from_utf8 bs s h = elim (Bool-cases (valid_from bs idle)) [
  | inl valid ↦ (ground arith, lossy_from-eq bs idle valid)
  | inr bad ↦ cc (bad)
]

-- ASCII is valid.
valid_from_ascii : (bs : List ℕ) → All (λ b. b < 0x80) bs → valid_from bs idle ≡ true
unfolding valid_from
valid_from_ascii [] h = refl
valid_from_ascii (b ∷ bs) h = ground (arith, valid_from_ascii bs)

pub from_utf8_ascii : (bs : List ℕ) → All (λ b. b < 0x80) bs → from_utf8 bs ≡ some bs
unfolding from_utf8
from_utf8_ascii bs h = rw (valid_from_ascii bs h)
