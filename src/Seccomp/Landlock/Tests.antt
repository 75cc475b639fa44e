-- ===== src/Seccomp/Landlock/Tests.antt =====
-- The theorem about `apply_landlock`, for a crate that always enforces.
use sand_box_rust.Base.{ℕ, ◌≡◌, List, [], ◌∷◌, ◌++◌, map, none, some, ℤ, codes}
use mathlib.Core.List.{filter_map}
use sand_box_rust.Utf8.{from_utf8}
use sand_box_rust.Seccomp.Landlock.{Crate, fully_enforced, apply_landlock}
use sand_box_rust.Seccomp.Landlock.Laws.{Restricts, apply_landlock-Restricts}

-- A ruleset is the list of its paths.
abbrev enforcing : Crate (List (List ℕ))
enforcing = record {
  default = [];
  handle_access = λ r. some r;
  scope_signal = λ r. some r;
  create = λ r. some r;
  add_rules = λ paths r. some paths;
  restrict_self = λ r. some fully_enforced;
}

-- One path, and one that is not UTF-8.
abbrev strings : List (List ℕ)
strings = codes "/usr/local/share/sandbox" ∷ (0xff ∷ []) ∷ []

apply_landlock-Restricts_example :
    (code : ℤ) × ((apply_landlock enforcing (some (map some strings ++ none ∷ [])) ≡ some code)
      × Restricts enforcing (filter_map from_utf8 strings) code)
apply_landlock-Restricts_example = apply_landlock-Restricts enforcing strings []
