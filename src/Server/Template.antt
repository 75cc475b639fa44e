-- ===== src/Server/Template.antt =====
-- `str::replace`, by which server/src/services/python.rs and nodejs.rs fill the templates of their
-- scripts, and the templates' places.
pub mod Laws
use sand_box_rust.Base.{
  ℕ, zero, suc, ◌-◌, Bool, true, false, ◌&&◌, not, List, [], ◌∷◌, ◌++◌, if◌then◌else◌, ◌==◌, codes,
  length,
}

abbrev pub starts_with : List ℕ → List ℕ → Bool
starts_with [] s = true
starts_with (p ∷ ps) [] = false
starts_with (p ∷ ps) (c ∷ cs) = p == c && starts_with ps cs

-- `skip` counts the characters that are left of the occurrence before.
unfoldable pub replace_from : ℕ → List ℕ → List ℕ → List ℕ → List ℕ
replace_from skip pattern new [] = []
replace_from (suc skip) pattern new (c ∷ cs) = replace_from skip pattern new cs
replace_from zero pattern new (c ∷ cs) =
    let found = starts_with pattern (c ∷ cs) in
    let rest = replace_from (if found then length pattern - 1 else 0) pattern new cs in
    if found then new ++ rest else c ∷ rest

-- `str::replace` of a pattern that is not empty.
abbrev pub replace : List ℕ → List ℕ → List ℕ → List ℕ
replace pattern new s = replace_from 0 pattern new s

-- The places of the two templates.
pub data Place : Type 0 where
  uid gid enable_network max_as privilege allowed_paths preload code : Place

-- What a place looks like, after its two opening braces.
abbrev pub tail_of : Place → List ℕ
tail_of uid = codes "uid}}"
tail_of gid = codes "gid}}"
tail_of enable_network = codes "enable_network}}"
tail_of max_as = codes "max_as}}"
tail_of privilege = codes "privilege}}"
tail_of allowed_paths = codes "allowed_paths}}"
tail_of preload = codes "preload}}"
tail_of code = codes "code}}"

abbrev pub mark : Place → List ℕ
mark p = b'{' ∷ b'{' ∷ tail_of p

-- A template taken apart: text that stands, and places.
pub data Piece : Type 0 where
  text : List ℕ → Piece
  place : Place → Piece

abbrev pub spell : Piece → List ℕ
spell (text s) = s
spell (place p) = mark p

abbrev pub render : List Piece → List ℕ
render [] = []
render (x ∷ xs) = spell x ++ render xs

-- The template with every place filled.
abbrev pub fill : (Place → List ℕ) → List Piece → List ℕ
fill value [] = []
fill value (text s ∷ xs) = s ++ fill value xs
fill value (place p ∷ xs) = value p ++ fill value xs

-- Text in which no place can begin: no two opening braces in a row, and none at the end.
abbrev pub no_mark : List ℕ → Bool
no_mark [] = true
no_mark (c ∷ []) = not (c == b'{')
no_mark (c ∷ (d ∷ cs)) = not (c == b'{' && d == b'{') && no_mark (d ∷ cs)
