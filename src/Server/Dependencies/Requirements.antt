-- ===== src/Server/Dependencies/Requirements.antt =====
-- What server/src/setup/dependencies.rs installs for a requirements file.
use sand_box_rust.Base.{
  ℕ, ◌≡◌, ◌≢◌, ◌<◌, ◌↔◌, ◌⊎◌, ◌∙◌, sym, inl, inr, refl, ap, true, false, ==_ne, List, [], ◌∷◌, ◌++◌,
  map, some, All, All-append, arith,
}
use sand_box_rust.Parse.{trim, IsBlank, IsTail, trim-append, trim_blank}
use sand_box_rust.Parse.Lines.{lines, IsInline, lines-concat, lines_inline}
use sand_box_rust.Server.Config.{Config}
use sand_box_rust.Server.Process.{ProcessEnd, spawn_fails, wait_fails, ended, done}
use sand_box_rust.Server.Dependencies.{
  install_command, filter_listed, install_result, install_packages, install_python_dependencies,
}
use sand_box_rust.Server.Dependencies.Laws.{unlines}

-- A line of a requirements file: blanks, or a comment or a requirement between blanks.
pub data RequirementLine : Type 0 where
  blank : List ℕ → RequirementLine
  comment : List ℕ → List ℕ → List ℕ → RequirementLine
  requirement : List ℕ → ℕ → List ℕ → List ℕ → RequirementLine

abbrev pub written : RequirementLine → List ℕ
written (blank s) = s
written (comment left s right) = left ++ (b'#' ∷ (s ++ right))
written (requirement left c s right) = left ++ (c ∷ (s ++ right))

-- Spaces and tabs around printable ASCII, which ends with a visible character; a requirement starts
-- with one that is not `#`.
abbrev pub IsRequirement : RequirementLine → Type 0
IsRequirement (blank s) = All IsBlank s
IsRequirement (comment left s right) = All IsBlank left × IsTail (b'#' ∷ s) × All IsBlank right
IsRequirement (requirement left c s right) =
    All IsBlank left × (c ≢ b'#') × (32 < c) × IsTail (c ∷ s) × All IsBlank right

abbrev pub wanted : List RequirementLine → List (List ℕ)
wanted [] = []
wanted (blank _ ∷ ls) = wanted ls
wanted (comment _ _ _ ∷ ls) = wanted ls
wanted (requirement _ c s _ ∷ ls) = (c ∷ s) ∷ wanted ls

wanted-append :
    (ls : List RequirementLine) (l : RequirementLine)
    → wanted (ls ++ l ∷ []) ≡ wanted ls ++ wanted (l ∷ [])
wanted-append [] l = refl
wanted-append (blank _ ∷ ls) l = wanted-append ls l
wanted-append (comment _ _ _ ∷ ls) l = wanted-append ls l
wanted-append (requirement _ c s _ ∷ ls) l = ap (◌∷◌ (c ∷ s)) (wanted-append ls l)

blank-IsInline : (s : List ℕ) → All IsBlank s → IsInline s
blank-IsInline [] h = tt
blank-IsInline (c ∷ s) (h, hs) = ((ground arith, ground arith), blank-IsInline s hs)

tail-IsInline : (s : List ℕ) → IsTail s → IsInline s
tail-IsInline [] h = tt
tail-IsInline (c ∷ []) (h, k) = ((omega arith, omega arith), tt)
tail-IsInline (c ∷ (d ∷ s)) (h, k, t) = ((omega arith, omega arith), tail-IsInline (d ∷ s) t)

between-IsInline :
    (left : List ℕ) (c : ℕ) (s right : List ℕ)
    → All IsBlank left
    → IsTail (c ∷ s)
    → All IsBlank right
    → IsInline (left ++ (c ∷ (s ++ right)))
between-IsInline left c s right hl t hr =
    All-append (λ c. c ≢ 10 × c ≢ 13) left (c ∷ (s ++ right)) (blank-IsInline left hl)
      (All-append (λ c. c ≢ 10 × c ≢ 13) (c ∷ s) right (tail-IsInline (c ∷ s) t)
        (blank-IsInline right hr))

written-IsInline : (l : RequirementLine) → IsRequirement l → IsInline (written l)
written-IsInline (blank s) h = blank-IsInline s h
written-IsInline (comment left s right) (hl, t, hr) = between-IsInline left b'#' s right hl t hr
written-IsInline (requirement left c s right) (hl, _, _, t, hr) =
    between-IsInline left c s right hl t hr

written_lines : (ls : List RequirementLine) → All IsRequirement ls → All IsInline (map written ls)
written_lines [] h = tt
written_lines (l ∷ ls) (h, hs) = (written-IsInline l h, written_lines ls hs)

filter_listed-written :
    (ls : List RequirementLine)
    → All IsRequirement ls
    → filter_listed (map trim (map written ls)) ≡ wanted ls
filter_listed-written [] h = refl
filter_listed-written (blank s ∷ ls) (h, hs) = rw (trim_blank s h) (filter_listed-written ls hs)
filter_listed-written (comment left s right ∷ ls) ((hl, t, hr), hs) =
    rw (trim-append left b'#' s right hl (omega arith) t hr) (filter_listed-written ls hs)
filter_listed-written (requirement left c s right ∷ ls) ((hl, other, h, t, hr), hs) =
    rw (trim-append left c s right hl h t hr, ==_ne c b'#' other)
      (ap (◌∷◌ (c ∷ s)) (filter_listed-written ls hs))

-- A text is its own line, unless it is empty.
lines_line :
    (l : RequirementLine)
    → IsRequirement l
    → filter_listed (map trim (lines (written l))) ≡ wanted (l ∷ [])
lines_line l h = go (written l) (written-IsInline l h) (filter_listed-written (l ∷ []) (h, tt))
  where
    no_lines : lines [] ≡ []
    no_lines = unfold lines in refl

    no_text : trim [] ≡ []
    no_text = trim_blank [] tt

    go :
        (s : List ℕ)
        → IsInline s
        → filter_listed (map trim (s ∷ [])) ≡ wanted (l ∷ [])
        → filter_listed (map trim (lines s)) ≡ wanted (l ∷ [])
    go [] inline e = rw (no_lines) (rw (no_text) at e)
    go (c ∷ s) inline e = rw (lines_inline c s inline) e

filter_listed-append :
    (xs ys : List (List ℕ))
    → filter_listed (map trim (xs ++ ys))
      ≡ filter_listed (map trim xs) ++ filter_listed (map trim ys)
filter_listed-append [] ys = refl
filter_listed-append (x ∷ xs) ys = ground (arith, filter_listed-append xs ys)

-- Pip ended with success.
abbrev pub IsSuccess : ProcessEnd → Type 0
IsSuccess (ended true _ _) = Unit
IsSuccess _ = ⊥

install_result-IsSuccess : (e : ProcessEnd) → (install_result e ≡ done) ↔ IsSuccess e
unfolding install_result
install_result-IsSuccess (spawn_fails _) = (λ h. cc h, λ h. absurd h)
install_result-IsSuccess (wait_fails _) = (λ h. cc h, λ h. absurd h)
install_result-IsSuccess (ended true _ _) = (λ _. tt, λ _. refl)
install_result-IsSuccess (ended false _ _) = (λ h. cc h, λ h. absurd h)

install_packages-IsSuccess :
    (pip : List (List ℕ) → ProcessEnd) (c : Config) (ps : List (List ℕ))
    → (install_packages pip c ps ≡ done) ↔ ((ps ≡ []) ⊎ IsSuccess (pip (install_command c ps)))
unfolding install_packages
install_packages-IsSuccess pip c [] = (λ _. inl refl, λ _. refl)
install_packages-IsSuccess pip c (p ∷ ps) =
    let ends = install_result-IsSuccess (pip (install_command c (p ∷ ps))) in
    (λ h. inr (ends.0 h), λ h. elim h [ inl e ↦ cc e | inr success ↦ ends.1 success ])

-- For a requirements file whose lines, the last with or without a line feed, are each blank, or, with
-- spaces and tabs around it, a comment or a requirement of printable ASCII: the installation returns
-- without an error exactly if the file has no requirement, or pip ends with success on the command
-- that has exactly its requirements, in order, without the blanks around them.
pub install_python_dependencies-wanted :
    (pip : List (List ℕ) → ProcessEnd) (c : Config) (ls : List RequirementLine)
    (end : RequirementLine)
    → All IsRequirement ls
    → IsRequirement end
    → (install_python_dependencies pip c (some (unlines (map written ls) ++ written end)) ≡ done)
      ↔ ((wanted (ls ++ end ∷ []) ≡ [])
          ⊎ IsSuccess (pip (install_command c (wanted (ls ++ end ∷ [])))))
unfolding install_python_dependencies
install_python_dependencies-wanted pip c ls end h h_end =
    let text = map written ls in
    let found : filter_listed (map trim (lines (unlines text ++ written end)))
        ≡ wanted (ls ++ end ∷ []) =
      ap (λ x. filter_listed (map trim x)) (lines-concat text (written end) (written_lines ls h))
      ∙ filter_listed-append text (lines (written end))
      ∙ ap (λ x. x ++ filter_listed (map trim (lines (written end)))) (filter_listed-written ls h)
      ∙ ap (◌++◌ (wanted ls)) (lines_line end h_end)
      ∙ sym (wanted-append ls end) in
    rw (found) (install_packages-IsSuccess pip c (wanted (ls ++ end ∷ [])))
