-- ===== src/Seccomp/Landlock.antt =====
-- `apply_landlock` and `apply_landlock_one` of lib/sandbox_seccomp/src/lib.rs. The landlock crate is a
-- set of arguments: its ruleset, and what each of its calls returns.
pub mod Laws
pub mod Tests
use sand_box_rust.Base.{ℕ, List, [], ◌∷◌, Option, none, some, ℤ, pos, neg}
use mathlib.Core.Option
use sand_box_rust.Utf8.{from_utf8}

infixl 5 ◌>>=◌
abbrev ◌>>=◌ : {A B : Type 0} → Option A → (A → Option B) → Option B
none >>= f = none
some a >>= f = f a

-- A pointer to a C string; `none` is NULL.
abbrev pub CharPtr : Type 0
CharPtr = Option (List ℕ)

-- The loop over the array. `none` where it runs past the end of the array, whose result C does not
-- define.
unfoldable pub path_strs : List CharPtr → Option (List (List ℕ))
path_strs [] = none
path_strs (none ∷ ps) = some []
path_strs (some s ∷ ps) = elim (from_utf8 s) [
  | none ↦ path_strs ps
  | some path ↦ Option.map (◌∷◌ path) (path_strs ps)
]

pub data RulesetStatus : Type 0 where
  fully_enforced partially_enforced not_enforced : RulesetStatus

-- The calls of the crate; `none` is an error.
pub record Crate (Ruleset : Type 0) : Type 0 where
  pub default : Ruleset
  pub handle_access : Ruleset → Option Ruleset
  pub scope_signal : Ruleset → Option Ruleset
  pub create : Ruleset → Option Ruleset
  pub add_rules : List (List ℕ) → Ruleset → Option Ruleset
  pub restrict_self : Ruleset → Option RulesetStatus

module _ {Ruleset : Type 0} (crate : Crate Ruleset) where
  unfoldable pub restrict : List (List ℕ) → Option RulesetStatus
  restrict paths = do
    handled ← crate.handle_access crate.default
    scoped ← crate.scope_signal handled
    created ← crate.create scoped
    ruled ← crate.add_rules paths created
    crate.restrict_self ruled

  abbrev pub status_code : Option RulesetStatus → ℤ
  status_code (some fully_enforced) = pos 0
  status_code (some partially_enforced) = pos 0
  status_code (some not_enforced) = neg 23
  status_code none = neg 21

  abbrev pub apply_to : List (List ℕ) → ℤ
  apply_to [] = neg 20
  apply_to (path ∷ paths) = status_code (restrict (path ∷ paths))

  -- `paths` is `none` for NULL.
  unfoldable pub apply_landlock : Option (List CharPtr) → Option ℤ
  apply_landlock none = some (neg 20)
  apply_landlock (some ps) = Option.map apply_to (path_strs ps)

  unfoldable pub apply_landlock_one : CharPtr → Option ℤ
  unfolding apply_landlock
  apply_landlock_one lib_path = apply_landlock (some (lib_path ∷ none ∷ []))
