-- ===== src/Server/Dependencies/Laws.antt =====
-- What server/src/setup/dependencies.rs reads of pip's output and of a requirements file.
use sand_box_rust.Base.{
  ℕ, ◌≡◌, sym, append-nil, ◌≢◌, ◌<◌, ◌∙◌, refl, ap, true, List, [], ◌∷◌, ◌++◌, map, Option, none,
  some, All, All-append, concat, codes, arith,
}
use mathlib.Core.List.{filter_map}
use mathlib.Core.Option
use sand_box_rust.Parse.{trim_graphic}
use sand_box_rust.Parse.Lines.{
  lines, split_once, IsInline, lines-concat, split_once_found, split_once_absent,
}
use sand_box_rust.Utf8.{from_utf8_lossy, from_utf8_ascii, from_utf8_lossy-from_utf8}
use sand_box_rust.Server.Config.{Config}
use sand_box_rust.Server.Process.{ProcessEnd, ended}
use sand_box_rust.Server.Dependencies.{Package, list_command, package_of, list_python_packages}

-- Visible ASCII characters.
abbrev pub IsGraphic : List ℕ → Type 0
IsGraphic s = All (λ c. 32 < c × c < 127) s

abbrev pub IsName : List ℕ → Type 0
IsName s = All (λ c. c ≢ b'=') s

-- A line of pip's output: a package, or something that is not pinned to a version.
pub data FreezeLine : Type 0 where
  pinned : Package → FreezeLine
  unpinned : List ℕ → FreezeLine

abbrev pub spell : FreezeLine → List ℕ
spell (pinned p) = p.name ++ (codes "==" ++ p.version)
spell (unpinned s) = s

abbrev pub IsFreeze : FreezeLine → Type 0
IsFreeze (pinned p) = IsGraphic p.name × (IsName p.name × IsGraphic p.version)
IsFreeze (unpinned s) = IsGraphic s × IsName s

abbrev pub pinned_of : List FreezeLine → List Package
pinned_of [] = []
pinned_of (pinned p ∷ ls) = p ∷ pinned_of ls
pinned_of (unpinned s ∷ ls) = pinned_of ls

abbrev pub unlines : List (List ℕ) → List ℕ
unlines ls = concat (map (λ l. l ++ 10 ∷ []) ls)

spell-IsGraphic : (l : FreezeLine) → IsFreeze l → IsGraphic (spell l)
spell-IsGraphic (pinned p) (hn, (_, hv)) =
    All-append (λ c. 32 < c × c < 127) p.name (codes "==" ++ p.version) hn
      ((omega arith, omega arith), ((omega arith, omega arith), hv))
spell-IsGraphic (unpinned s) (h, _) = h

abbrev expected : FreezeLine → Option Package
expected (pinned p) = some p
expected (unpinned s) = none

package_of-spell : (l : FreezeLine) → IsFreeze l → package_of (spell l) ≡ expected l
unfolding package_of
package_of-spell (pinned p) h = ap (Option.map (λ q. record { name = q.0; version = q.1 })) (
    ap split_once (trim_graphic (spell (pinned p)) (spell-IsGraphic (pinned p) h))
    ∙ split_once_found p.name p.version h.1.0)
package_of-spell (unpinned s) (h, hn) =
    ap (Option.map (λ q. record { name = q.0; version = q.1 }))
      (ap split_once (trim_graphic s h) ∙ split_once_absent s hn)

filter_map-spell :
    (ls : List FreezeLine) → All IsFreeze ls → filter_map package_of (map spell ls) ≡ pinned_of ls
unfolding filter_map
filter_map-spell [] h = refl
filter_map-spell (pinned p ∷ ls) (h, hs) =
    rw (package_of-spell (pinned p) h) (ap (◌∷◌ p) (filter_map-spell ls hs))
filter_map-spell (unpinned s ∷ ls) (h, hs) =
    rw (package_of-spell (unpinned s) h) (filter_map-spell ls hs)

graphic_lines : (ls : List (List ℕ)) → All IsGraphic ls → All IsInline ls
graphic_lines [] h = tt
graphic_lines (l ∷ ls) (h, hs) = (above l h, graphic_lines ls hs)
  where
    above : (s : List ℕ) → IsGraphic s → IsInline s
    above [] h = tt
    above (c ∷ s) ((h, _), hs) = ((omega arith, omega arith), above s hs)

graphic_ascii : (s : List ℕ) → IsGraphic s → All (λ b. b < 0x80) s
graphic_ascii [] h = tt
graphic_ascii (c ∷ s) ((_, h), hs) = (omega arith, graphic_ascii s hs)

unlines_ascii : (ls : List (List ℕ)) → All IsGraphic ls → All (λ b. b < 0x80) (unlines ls)
unlines_ascii [] h = tt
unlines_ascii (l ∷ ls) (h, hs) =
    All-append (λ b. b < 0x80) (l ++ 10 ∷ []) (unlines ls)
      (All-append (λ b. b < 0x80) l (10 ∷ []) (graphic_ascii l h) (omega arith, tt))
      (unlines_ascii ls hs)

from_utf8_lossy-unlines :
    (ls : List (List ℕ)) → All IsGraphic ls → from_utf8_lossy (unlines ls) ≡ unlines ls
from_utf8_lossy-unlines ls h =
    (from_utf8_lossy-from_utf8 (unlines ls) (unlines ls)
      (from_utf8_ascii (unlines ls) (unlines_ascii ls h))).1

freeze_lines : (ls : List FreezeLine) → All IsFreeze ls → All IsGraphic (map spell ls)
freeze_lines [] h = tt
freeze_lines (l ∷ ls) (h, hs) = (spell-IsGraphic l h, freeze_lines ls hs)

lines_none : lines [] ≡ []
unfolding lines
lines_none = refl

-- If pip ends with success, and each line that it prints is visible ASCII and either a name without
-- `=`, `==` and a version, or a text without `=`: the list is that of the names with their versions,
-- in order, and the other lines are left out.
pub list_python_packages-pinned_of :
    (pip : List (List ℕ) → ProcessEnd) (c : Config) (ls : List FreezeLine) (stderr : List ℕ)
    → All IsFreeze ls
    → pip (list_command c) ≡ ended true (unlines (map spell ls)) stderr
    → list_python_packages pip c ≡ pinned_of ls
unfolding list_python_packages
list_python_packages-pinned_of pip c ls stderr h e =
    let text = map spell ls in
    let graphic = freeze_lines ls h in
    rw (e, list_python_packages)
      (ap (λ s. filter_map package_of (lines s)) (from_utf8_lossy-unlines text graphic)
        ∙ ap (λ s. filter_map package_of (lines s)) (sym (append-nil (unlines text)))
        ∙ ap (filter_map package_of) (
            lines-concat text [] (graphic_lines text graphic)
            ∙ ap (◌++◌ text) lines_none
            ∙ append-nil text)
        ∙ filter_map-spell ls h)
