-- ===== src/Seccomp.antt =====
-- lib/sandbox_seccomp/src/lib.rs: the syscall lists, the filter and the start of the sandbox.
pub mod Syscalls
pub mod Filter
pub mod Verdict
pub mod Install
pub mod Defaults
pub mod Init
pub mod Start
pub mod Landlock
pub mod Tests
use sand_box_rust.Base.{
  ℕ, ◌+◌, Bool, List, [], ◌∷◌, ◌++◌, map, Option, none, some, if◌then◌else◌, ℤ,
}
use Syscalls.{
  Syscall, python_allow_syscalls, python_allow_error_syscalls, python_allow_network_syscalls,
  nodejs_allow_syscalls, nodejs_allow_error_syscalls, nodejs_allow_network_syscalls,
}
use sand_box_rust.Parse.{parse_i32, split_comma}

-- The Cargo feature, exactly one of which is enabled.
pub data Feature : Type 0 where
  python3 nodejs : Feature

abbrev pub allow_syscalls : Feature → List Syscall
allow_syscalls python3 = python_allow_syscalls
allow_syscalls nodejs = nodejs_allow_syscalls

abbrev pub allow_error_syscalls : Feature → List Syscall
allow_error_syscalls python3 = python_allow_error_syscalls
allow_error_syscalls nodejs = nodejs_allow_error_syscalls

abbrev pub allow_network_syscalls : Feature → List Syscall
allow_network_syscalls python3 = python_allow_network_syscalls
allow_network_syscalls nodejs = nodejs_allow_network_syscalls

-- The pieces that parse, in order.
unfoldable pub parsed : List (List ℕ) → List ℤ
parsed [] = []
parsed (s ∷ ss) = elim (parse_i32 s) [ some sc ↦ sc ∷ parsed ss | none ↦ parsed ss ]

-- The numbers in `ALLOWED_SYSCALLS`; `none` if it is not set.
unfoldable pub env_syscalls : Option (List ℕ) → List ℤ
env_syscalls none = []
env_syscalls (some []) = []
env_syscalls (some (c ∷ cs)) = parsed (split_comma (c ∷ cs))

-- `number` is the value of each `libc::SYS_*` constant, as an `i32`.
module _ (number : Syscall → ℤ) where
  pub defaults : Feature → Bool → List ℤ
  defaults f enable_network =
      map number (allow_syscalls f)
      ++ (if enable_network then map number (allow_network_syscalls f) else [])

  -- `allowed` and `not_kill`.
  unfoldable pub get_allowed_syscalls : Feature → Option (List ℕ) → Bool → List ℤ × List ℤ
  unfolding defaults
  get_allowed_syscalls f env enable_network = (
    elim (env_syscalls env) [ [] ↦ defaults f enable_network | sc ∷ scs ↦ sc ∷ scs ],
    map number (allow_error_syscalls f),
  )
