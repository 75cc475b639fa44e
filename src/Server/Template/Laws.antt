-- ===== src/Server/Template/Laws.antt =====
-- Filling a template one place after the other, against filling all at once.
use sand_box_rust.Base.{
  ℕ, ◌≡◌, refl, ap, ◌∙◌, Bool, true, false, List, [], ◌∷◌, ◌++◌, if◌then◌else◌, length, ==_refl,
  arith, map, Bool-cases, inl, inr,
}
use sand_box_rust.Server.Template.{
  starts_with, replace_from, replace, Place, uid, gid, enable_network, max_as, privilege,
  allowed_paths, preload, code, tail_of, mark, Piece, text, place, spell, render, no_mark,
}

replace_from-skip :
    (q pattern new rest : List ℕ)
    → replace_from (length q) pattern new (q ++ rest) ≡ replace_from 0 pattern new rest
unfolding replace_from
replace_from-skip [] pattern new rest = refl
replace_from-skip (c ∷ q) pattern new rest = replace_from-skip q pattern new rest

starts_with-append : (p rest : List ℕ) → starts_with p (p ++ rest) ≡ true
starts_with-append [] rest = refl
starts_with-append (c ∷ p) rest = ground (arith, starts_with-append p rest)

-- A step where the pattern does not begin.
replace_miss :
    (pattern new : List ℕ) (c : ℕ) (cs : List ℕ)
    → starts_with pattern (c ∷ cs) ≡ false
    → replace pattern new (c ∷ cs) ≡ c ∷ replace pattern new cs
unfolding replace_from
replace_miss pattern new c cs e = rw (e, replace_from) refl

replace_hit :
    (c : ℕ) (pattern new rest : List ℕ)
    → replace (c ∷ pattern) new ((c ∷ pattern) ++ rest) ≡ new ++ replace (c ∷ pattern) new rest
unfolding replace_from
replace_hit c pattern new rest =
    rw (==_refl c, starts_with-append pattern rest, replace_from)
      (ap (λ k. new ++ replace_from k (c ∷ pattern) new (pattern ++ rest)) (omega arith)
        ∙ ap (◌++◌ new) (replace_from-skip pattern (c ∷ pattern) new rest))

-- Text without marks is copied.
replace_text :
    (p : Place) (new s rest : List ℕ)
    → no_mark s ≡ true
    → replace (mark p) new (s ++ rest) ≡ s ++ replace (mark p) new rest
replace_text p new [] rest h = refl
replace_text p new (c ∷ []) rest h = replace_miss (mark p) new c rest (ground arith)
replace_text p new (c ∷ (d ∷ cs)) rest h =
    replace_miss (mark p) new c (d ∷ cs ++ rest) (ground arith)
    ∙ ap (◌∷◌ c) (replace_text p new (d ∷ cs) rest (ground arith))

tail-no_mark : (p : Place) → no_mark (b'{' ∷ tail_of p) ≡ true
tail-no_mark uid = refl
tail-no_mark _ = refl

-- Another place is copied.
replace_other :
    (p q : Place) (new rest : List ℕ)
    → starts_with (mark p) (mark q ++ rest) ≡ false
    → replace (mark p) new (mark q ++ rest) ≡ mark q ++ replace (mark p) new rest
replace_other p q new rest apart =
    replace_miss (mark p) new b'{' ((b'{' ∷ tail_of q) ++ rest) apart
    ∙ ap (◌∷◌ b'{') (replace_text p new (b'{' ∷ tail_of q) rest (tail-no_mark q))

abbrev pub is_place : Place → Place → Bool
is_place uid uid = true
is_place gid gid = true
is_place enable_network enable_network = true
is_place max_as max_as = true
is_place privilege privilege = true
is_place allowed_paths allowed_paths = true
is_place preload preload = true
is_place code code = true
is_place _ _ = false

-- One place filled, the others left.
abbrev pub put : Place → List ℕ → Piece → Piece
put p new (text s) = text s
put p new (place q) = if is_place p q then text new else place q

-- The pieces of text hold no mark.
abbrev pub IsPlain : List Piece → Type 0
IsPlain [] = Unit
IsPlain (text s ∷ xs) = (no_mark s ≡ true) × IsPlain xs
IsPlain (place p ∷ xs) = IsPlain xs

replace-place :
    (p q : Place) (new rest : List ℕ)
    → replace (mark p) new (mark q ++ rest)
      ≡ spell (put p new (place q)) ++ replace (mark p) new rest
replace-place uid uid new rest = replace_hit b'{' (b'{' ∷ tail_of uid) new rest
replace-place gid gid new rest = replace_hit b'{' (b'{' ∷ tail_of gid) new rest
replace-place enable_network enable_network new rest =
    replace_hit b'{' (b'{' ∷ tail_of enable_network) new rest
replace-place max_as max_as new rest = replace_hit b'{' (b'{' ∷ tail_of max_as) new rest
replace-place privilege privilege new rest = replace_hit b'{' (b'{' ∷ tail_of privilege) new rest
replace-place allowed_paths allowed_paths new rest =
    replace_hit b'{' (b'{' ∷ tail_of allowed_paths) new rest
replace-place preload preload new rest = replace_hit b'{' (b'{' ∷ tail_of preload) new rest
replace-place code code new rest = replace_hit b'{' (b'{' ∷ tail_of code) new rest
replace-place p q new rest = replace_other p q new rest refl

-- Replacing a place in a rendered template fills it wherever it stands, and nothing else.
pub replace-render :
    (p : Place) (new : List ℕ) (xs : List Piece)
    → IsPlain xs
    → replace (mark p) new (render xs) ≡ render (map (put p new) xs)
replace-render p new [] h = unfold replace_from in refl
replace-render p new (text s ∷ xs) (hs, h) =
    replace_text p new s (render xs) hs ∙ ap (◌++◌ s) (replace-render p new xs h)
replace-render p new (place q ∷ xs) h =
    replace-place p q new (render xs)
    ∙ ap (◌++◌ (spell (put p new (place q)))) (replace-render p new xs h)

pub put-IsPlain :
    (p : Place) (new : List ℕ) (xs : List Piece)
    → no_mark new ≡ true
    → IsPlain xs
    → IsPlain (map (put p new) xs)
put-IsPlain p new [] hn h = tt
put-IsPlain p new (text s ∷ xs) hn (hs, h) = (hs, put-IsPlain p new xs hn h)
put-IsPlain p new (place q ∷ xs) hn h = elim (Bool-cases (is_place p q)) [
  | inl e ↦ rw e (hn, put-IsPlain p new xs hn h)
  | inr e ↦ rw e (put-IsPlain p new xs hn h)
]
