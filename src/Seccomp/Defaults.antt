-- ===== src/Seccomp/Defaults.antt =====
-- The filter that is installed when `ALLOWED_SYSCALLS` does not say otherwise, by the tables' names.
use sand_box_rust.Base.{Bool, true, false, ◌&&◌, List, [], ◌++◌, ◌==◌, if◌then◌else◌}
use sand_box_rust.Seccomp.{Feature, allow_syscalls, allow_error_syscalls, allow_network_syscalls}
use sand_box_rust.Seccomp.Syscalls.{Syscall, sys_ioctl, place, listed}
use sand_box_rust.Seccomp.Filter.{Action, kill_process, allow, errno_eperm, fionbio}
use sand_box_rust.Seccomp.Verdict.{Args}

-- The syscalls that are allowed by default.
abbrev pub default_table : Feature → Bool → List Syscall
default_table f enable_network =
    allow_syscalls f ++ (if enable_network then allow_network_syscalls f else [])

-- What the tables say of a syscall.
pub table_action : Feature → Bool → Syscall → Args → Action
table_action f enable_network s args =
    if listed s (default_table f enable_network)
    then (if place s == place sys_ioctl && (if args 1 == fionbio then false else true)
        then errno_eperm
        else allow)
    else if listed s (allow_error_syscalls f)
    then errno_eperm
    else kill_process
