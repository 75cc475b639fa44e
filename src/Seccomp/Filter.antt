-- ===== src/Seccomp/Filter.antt =====
-- `install_seccomp`: the rules that it asks libseccomp for, and what becomes of the context.
use sand_box_rust.Base.{
  ℕ, suc, Bool, true, false, List, [], ◌∷◌, ◌++◌, map, Option, none, some, if◌then◌else◌, ℤ, neg,
  int_eq,
}
use sand_box_rust.Seccomp.Syscalls.{Syscall, sys_openat, sys_open, sys_ioctl}

abbrev pub fionbio : ℕ
fionbio = 0x5421

-- The comparison operators in use.
pub data Compare : Type 0 where
  cmp_eq cmp_ne cmp_masked_eq : Compare

-- `scmp_arg_cmp`
pub record ArgCmp : Type 0 where
  pub arg : ℕ
  pub op : Compare
  pub datum_a : ℕ
  pub datum_b : ℕ

-- `SCMP_ACT_KILL_PROCESS`, `SCMP_ACT_ALLOW` and `SCMP_ACT_ERRNO(EPERM)`.
pub data Action : Type 0 where
  kill_process allow errno_eperm : Action

pub record Rule : Type 0 where
  pub action : Action
  pub syscall : ℤ
  pub args : List ArgCmp

-- A libseccomp context: its rules, oldest first, whether it was loaded, how often it was released.
pub record Context : Type 0 where
  pub rules : List Rule
  pub loaded : Bool
  pub released : ℕ

-- What libseccomp answers: whether a context is made, a rule accepted, the filter loaded.
pub record Libseccomp : Type 0 where
  pub inits : Bool
  pub accepts : List Rule → Rule → Bool
  pub loads : List Rule → Bool

-- Where a run of `install_seccomp` stands: on its way, or returned with an error code.
pub data Install : Type 0 where
  going : Context → Install
  failed : ℤ → Option Context → Install

abbrev pub release : Context → Context
release ctx = record ctx { released = suc ctx.released }

-- The next part of the function, unless the part before has returned.
abbrev pub then_do : Install → (Context → Install) → Install
then_do (going ctx) next = next ctx
then_do (failed c o) next = failed c o

-- `seccomp_rule_add(…) != 0` releases the context and returns the code.
unfoldable pub add_rule : Libseccomp → ℤ → Rule → Context → Install
add_rule lib code r ctx =
    if lib.accepts ctx.rules r
    then going (record ctx { rules = ctx.rules ++ r ∷ [] })
    else failed code (some (release ctx))

unfoldable pub add_rules : Libseccomp → ℤ → List Rule → Context → Install
add_rules lib code [] ctx = going ctx
add_rules lib code (r ∷ rs) ctx = then_do (add_rule lib code r ctx) (add_rules lib code rs)

-- `O_CREAT`, and the number of each syscall, as `libc` has them.
module _ (number : Syscall → ℤ) (o_creat : ℕ) where
  -- The comparison on the flags of `openat` and `open`, with the fields as the code fills them.
  unfoldable pub no_creat : ℕ → ArgCmp
  no_creat arg = record { arg = arg; op = cmp_masked_eq; datum_a = 0; datum_b = o_creat }

  -- The rules of one allowed syscall, in the order in which they are added.
  unfoldable pub allow_rules : ℤ → List Rule
  allow_rules sc =
      if int_eq sc (number sys_openat)
      then record { action = allow; syscall = sc; args = no_creat 2 ∷ [] } ∷ []
      else if int_eq sc (number sys_open)
      then record { action = allow; syscall = sc; args = no_creat 1 ∷ [] } ∷ []
      else if int_eq sc (number sys_ioctl)
      then record {
        action = allow;
        syscall = sc;
        args = record { arg = 1; op = cmp_eq; datum_a = fionbio; datum_b = 0 } ∷ [];
      }
        ∷ record {
          action = errno_eperm;
          syscall = sc;
          args = record { arg = 1; op = cmp_ne; datum_a = fionbio; datum_b = 0 } ∷ [];
        }
        ∷ []
      else record { action = allow; syscall = sc; args = [] } ∷ []

  -- `for &sc in &allowed_syscalls`
  unfoldable pub add_allowed : Libseccomp → List ℤ → Context → Install
  add_allowed lib [] ctx = going ctx
  add_allowed lib (sc ∷ scs) ctx =
      then_do (add_rules lib (neg 7) (allow_rules sc) ctx) (add_allowed lib scs)

  abbrev pub eperm_rule : ℤ → Rule
  eperm_rule sc = record { action = errno_eperm; syscall = sc; args = [] }

  -- `for &sc in &allowed_not_kill_syscalls`
  unfoldable pub add_not_kill : Libseccomp → List ℤ → Context → Install
  add_not_kill lib [] ctx = going ctx
  add_not_kill lib (sc ∷ scs) ctx =
      then_do (add_rule lib (neg 8) (eperm_rule sc) ctx) (add_not_kill lib scs)

  unfoldable pub load : Libseccomp → Context → Install
  load lib ctx =
      if lib.loads ctx.rules
      then going (release (record ctx { loaded = true }))
      else failed (neg 9) (some (release ctx))

  abbrev pub fresh : Context
  fresh = record { rules = []; loaded = false; released = 0 }

  -- `allowed` and `not_kill` are the two lists of `get_allowed_syscalls`.
  unfoldable pub install_seccomp : Libseccomp → List ℤ → List ℤ → Install
  install_seccomp lib allowed not_kill =
      if lib.inits
      then then_do (then_do (add_allowed lib allowed fresh) (add_not_kill lib not_kill)) (load lib)
      else failed (neg 6) none

  -- The rules of a filter that was installed.
  unfoldable pub all_rules : List ℤ → List Rule
  all_rules [] = []
  all_rules (sc ∷ scs) = allow_rules sc ++ all_rules scs

  unfoldable pub filter_rules : List ℤ → List ℤ → List Rule
  filter_rules allowed not_kill = all_rules allowed ++ map eperm_rule not_kill
