-- ===== src/Server/Dependencies.antt =====
-- server/src/setup/dependencies.rs: `pip list` and `pip install`. How pip ends, and the text of the
-- requirements file, are arguments.
pub mod Laws
pub mod Requirements
use sand_box_rust.Base.{
  ℕ, Bool, true, false, not, ◌&&◌, List, [], ◌∷◌, ◌++◌, map, Option, none, some, if◌then◌else◌,
  codes,
}
use mathlib.Core.List.{filter_map}
use mathlib.Core.Option
use sand_box_rust.Parse.{trim}
use sand_box_rust.Parse.Lines.{lines, split_once, begins_with}
use sand_box_rust.Utf8.{from_utf8_lossy}
use sand_box_rust.Server.Config.{Config}
use sand_box_rust.Server.Process.{
  ProcessEnd, spawn_fails, wait_fails, ended, ProcessCommand, Outcome, done, failed,
}
use sand_box_rust.Server.Handlers.{is_empty}

pub record Package : Type 0 where
  pub name : List ℕ
  pub version : List ℕ

abbrev pub list_command : Config → ProcessCommand
list_command c =
    c.python_path ∷ codes "-m" ∷ codes "pip" ∷ codes "list" ∷ codes "--format=freeze" ∷ []

unfoldable pub package_of : List ℕ → Option Package
package_of line = Option.map (λ p. record { name = p.0; version = p.1 }) (split_once (trim line))

unfoldable pub list_python_packages : (ProcessCommand → ProcessEnd) → Config → List Package
list_python_packages pip c = elim (pip (list_command c)) [
  | spawn_fails _ ↦ []
  | wait_fails _ ↦ []
  | ended success stdout stderr ↦
      if success then filter_map package_of (lines (from_utf8_lossy stdout)) else []
]

abbrev pub install_command : Config → List (List ℕ) → ProcessCommand
install_command c packages =
    c.python_path ∷ codes "-m" ∷ codes "pip" ∷ codes "install" ∷ codes "--upgrade" ∷ packages

-- `!l.is_empty() && !l.starts_with('#')`
abbrev pub is_listed : List ℕ → Bool
is_listed l = not (is_empty l) && not (begins_with b'#' l)

abbrev pub filter_listed : List (List ℕ) → List (List ℕ)
filter_listed [] = []
filter_listed (l ∷ ls) = if is_listed l then l ∷ filter_listed ls else filter_listed ls

unfoldable pub install_result : ProcessEnd → Outcome
install_result (spawn_fails e) = failed (codes "pip install spawn: " ++ e)
install_result (wait_fails e) = failed (codes "pip install: " ++ e)
install_result (ended true stdout stderr) = done
install_result (ended false stdout stderr) = failed (from_utf8_lossy stderr)

unfoldable pub install_packages : (ProcessCommand → ProcessEnd) → Config → List (List ℕ) → Outcome
install_packages pip c [] = done
install_packages pip c (p ∷ ps) = install_result (pip (install_command c (p ∷ ps)))

-- `none` where the file cannot be read.
unfoldable pub install_python_dependencies :
    (ProcessCommand → ProcessEnd) → Config → Option (List ℕ) → Outcome
install_python_dependencies pip c none = done
install_python_dependencies pip c (some requirements) =
    install_packages pip c (filter_listed (map trim (lines requirements)))

-- The processes that the installation starts.
abbrev pub commands_for : Config → List (List ℕ) → List ProcessCommand
commands_for c [] = []
commands_for c (p ∷ ps) = install_command c (p ∷ ps) ∷ []

unfoldable pub install_commands : Config → Option (List ℕ) → List ProcessCommand
install_commands c none = []
install_commands c (some requirements) =
    commands_for c (filter_listed (map trim (lines requirements)))
