-- ===== src/Parse/Lines.antt =====
-- `str::lines` and `str::split_once` of the standard library, over the bytes of a text.
use sand_box_rust.Base.{
  ℕ, ◌≡◌, ◌≢◌, refl, ap, ◌∙◌, false, Bool, ◌&&◌, List, [], ◌∷◌, ◌++◌, Option, none, some, ◌==◌,
  if◌then◌else◌, All, arith, append_assoc, codes, concat, map,
}
use mathlib.Core.Option

abbrev pub begins_with : ℕ → List ℕ → Bool
begins_with b [] = false
begins_with b (c ∷ cs) = c == b

-- One character in front of the lines of the rest: a carriage return in front of a line feed is part
-- of the end of its line.
abbrev push : ℕ → List ℕ → List (List ℕ) → List (List ℕ)
push c cs [] = (c ∷ []) ∷ []
push c cs (l ∷ ls) = if c == 13 && begins_with 10 cs then l ∷ ls else (c ∷ l) ∷ ls

-- `str::lines`; what stands behind the last line feed is a line if it is not empty.
unfoldable pub lines : List ℕ → List (List ℕ)
lines [] = []
lines (c ∷ cs) = let rest = lines cs in if c == 10 then [] ∷ rest else push c cs rest

-- `str::split_once("==")`
unfoldable pub split_once : List ℕ → Option (List ℕ × List ℕ)
split_once [] = none
split_once (a ∷ []) = none
split_once (a ∷ (b ∷ cs)) =
    let rest = split_once (b ∷ cs) in
    if a == b'=' && b == b'=' then some ([], cs) else Option.map (λ p. (a ∷ p.0, p.1)) rest

-- Neither a line feed nor a carriage return.
abbrev pub IsInline : List ℕ → Type 0
IsInline s = All (λ c. c ≢ 10 × c ≢ 13) s

lines-push : (s t : List ℕ) → IsInline s → lines (s ++ 10 ∷ t) ≡ s ∷ lines t
unfolding lines
lines-push [] t h = refl
lines-push (c ∷ s) t (hc, h) = rw (lines-push s t h, lines) (ground arith)

-- Text in lines that end with a line feed, and more text: its lines are these, and those of the text.
pub lines-concat :
    (ls : List (List ℕ)) (s : List ℕ)
    → All IsInline ls
    → lines (concat (map (λ l. l ++ 10 ∷ []) ls) ++ s) ≡ ls ++ lines s
lines-concat [] s h = refl
lines-concat (l ∷ ls) s (hl, h) =
    let rest = concat (map (λ x. x ++ 10 ∷ []) ls) in
    ap lines (append_assoc (l ++ 10 ∷ []) rest s ∙ append_assoc l (10 ∷ []) (rest ++ s))
    ∙ lines-push l _ hl
    ∙ ap (◌∷◌ l) (lines-concat ls s h)

-- Text without the end of a line is one line.
pub lines_inline : (c : ℕ) (s : List ℕ) → IsInline (c ∷ s) → lines (c ∷ s) ≡ (c ∷ s) ∷ []
unfolding lines
lines_inline c [] (hc, h) = ground arith
lines_inline c (d ∷ s) (hc, h) = rw (lines_inline d s h, lines) (ground arith)

-- The first occurrence is the one behind a name without `=`, whatever follows.
pub split_once_found :
    (name version : List ℕ)
    → All (λ c. c ≢ b'=') name
    → split_once (name ++ (codes "==" ++ version)) ≡ some (name, version)
unfolding split_once
split_once_found [] version h = refl
split_once_found (c ∷ []) version (hc, h) = ground arith
split_once_found (c ∷ (d ∷ cs)) version (hc, h) = ground (arith, split_once_found (d ∷ cs) version)

pub split_once_absent : (s : List ℕ) → All (λ c. c ≢ b'=') s → split_once s ≡ none
unfolding split_once
split_once_absent [] h = refl
split_once_absent (c ∷ []) h = refl
split_once_absent (c ∷ (d ∷ cs)) (hc, h) = ground (arith, split_once_absent (d ∷ cs))
