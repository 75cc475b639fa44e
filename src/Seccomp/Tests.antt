-- ===== src/Seccomp/Tests.antt =====
-- The theorems about the sandbox, at one numbering of the syscalls and one reading of the rules.
use Prim.Native.Nat.{bit_and}
use sand_box_rust.Base.{
  ℕ, ◌≡◌, refl, Bool, true, false, List, [], ◌∷◌, ◌++◌, map, Option, some, ◌==◌, if◌then◌else◌, ℤ,
  pos, elem, All, arith, ◌&&◌, codes,
}
use sand_box_rust.Seccomp.{nodejs, get_allowed_syscalls, env_syscalls, parsed}
use sand_box_rust.Parse.{split_comma, parse_i32, parse_number, parse_digits}
use sand_box_rust.Seccomp.Syscalls.{Syscall, sys_read, sys_ioctl, place}
use sand_box_rust.Seccomp.Filter.{
  cmp_eq, cmp_ne, cmp_masked_eq, ArgCmp, Action, kill_process, Rule, Libseccomp, going,
  install_seccomp, filter_rules, all_rules, eperm_rule, add_allowed, add_not_kill, add_rules,
  add_rule, allow_rules, load,
}
use sand_box_rust.Seccomp.Verdict.{
  Args, matches, any_matches, Semantics, listed_action, filter_verdict,
}
use sand_box_rust.Seccomp.Install.{IsEnd, install_seccomp-IsEnd}
use sand_box_rust.Seccomp.Init.{
  install, Kernel, init_run, init_seccomp, plan, install_step, set_memory_limit, setup_root,
  set_no_new_privs, drop_privileges,
}
use sand_box_rust.Seccomp.Start.{start_kernel, init_seccomp_0}

abbrev compare_arg : ArgCmp → Args → Bool
compare_arg c args = elim c.op [
  | cmp_eq ↦ args c.arg == c.datum_a
  | cmp_ne ↦ if args c.arg == c.datum_a then false else true
  | cmp_masked_eq ↦ bit_and (args c.arg) c.datum_a == bit_and c.datum_b c.datum_a
]

abbrev first_match : List Rule → ℤ → Args → Action
first_match [] sc args = kill_process
first_match (r ∷ rs) sc args =
    if matches compare_arg sc args r then r.action else first_match rs sc args

first_match_none :
    (rules : List Rule) (sc : ℤ) (args : Args)
    → any_matches compare_arg sc args rules ≡ false
    → first_match rules sc args ≡ kill_process
first_match_none [] sc args h = refl
first_match_none (r ∷ rs) sc args h = ground (arith, first_match_none rs sc args)

first_match_some :
    (rules : List Rule) (sc : ℤ) (args : Args) (a : Action)
    → any_matches compare_arg sc args rules ≡ true
    → All (λ r. matches compare_arg sc args r ≡ true → r.action ≡ a) rules
    → first_match rules sc args ≡ a
first_match_some [] sc args a h agree = absurd (ground arith)
first_match_some (r ∷ rs) sc args a h agree = ground (arith, agree.0, first_match_some rs sc args a)

abbrev first_match_semantics : Semantics
first_match_semantics = record {
  holds = compare_arg;
  verdict = first_match;
  holds_eq = λ c args e. rw e refl;
  holds_ne = λ c args e. rw e refl;
  holds_masked = λ c args e. rw e refl;
  by_default = first_match_none;
  by_rules = first_match_some;
}

abbrev number : Syscall → ℤ
number s = pos (place s)

abbrev o_creat : ℕ
o_creat = 64

abbrev no_args : Args
no_args i = 0

apart :
    (elem (number sys_ioctl) (number sys_ioctl ∷ [])
      && elem (number sys_ioctl) (number sys_read ∷ []))
    ≡ false
unfolding place
apart = refl

filter_verdict_example :
    first_match
      (filter_rules number o_creat (number sys_ioctl ∷ []) (number sys_read ∷ []))
      (number sys_ioctl)
      no_args
    ≡ listed_action number o_creat first_match_semantics
        (number sys_ioctl)
        no_args
        (number sys_ioctl ∷ [])
        (number sys_read ∷ [])
filter_verdict_example =
    filter_verdict number o_creat first_match_semantics (number sys_ioctl) no_args
      (number sys_ioctl ∷ []) (number sys_read ∷ []) (apart)

-- libseccomp accepts everything.
abbrev willing : Libseccomp
willing = record { inits = true; accepts = λ _ _. true; loads = λ _. true }

install_seccomp-IsEnd_example :
    IsEnd number o_creat willing
      (all_rules number o_creat (number sys_ioctl ∷ []))
      (map (eperm_rule number o_creat) (number sys_read ∷ []))
      (install_seccomp number o_creat willing (number sys_ioctl ∷ []) (number sys_read ∷ []))
install_seccomp-IsEnd_example =
    install_seccomp-IsEnd number o_creat willing (number sys_ioctl ∷ []) (number sys_read ∷ [])

abbrev env : Option (List ℕ)
env = some (codes "1,2")

abbrev kernel : Kernel
kernel = start_kernel number o_creat willing nodejs env (λ _. true)

kernel_starts : init_seccomp kernel 65537 65537 (pos 1) 1000 (pos 1) ≡ pos 0
unfolding start_kernel init_seccomp init_run set_memory_limit setup_root set_no_new_privs
    drop_privileges install_step get_allowed_syscalls env_syscalls parsed split_comma parse_i32
    parse_number parse_digits install_seccomp add_allowed add_not_kill add_rules add_rule
    allow_rules load place
kernel_starts = refl

init_seccomp_0_example :
    let (allowed, not_kill) = get_allowed_syscalls number nodejs env true in
    let steps = plan 65537 65537 1000 true in
    ((init_run kernel 65537 65537 (pos 1) 1000 (pos 1)).trace
      ≡ map (λ c. c.0) steps ++ install true ∷ [])
    × (All (λ c. true ≡ true) steps
        × (install_seccomp number o_creat willing allowed not_kill
            ≡ going (record {
              rules = filter_rules number o_creat allowed not_kill;
              loaded = true;
              released = 1;
            })))
init_seccomp_0_example =
    init_seccomp_0 number o_creat willing nodejs env (λ _. true) 65537 65537 (pos 1) 1000 (pos 1)
      kernel_starts
