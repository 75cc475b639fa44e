-- ===== src/Seccomp/Start.antt =====
-- `init_seccomp` of lib/sandbox_seccomp/src/lib.rs with its own `install_seccomp`.
use sand_box_rust.Base.{
  ℕ, ◌≡◌, ◌≢◌, refl, sym, ◌∙◌, ap, Bool, true, false, not, List, [], ◌∷◌, ◌++◌, map, Option, none,
  some, ◌==◌, if◌then◌else◌, ℤ, pos, int_eq, arith, All, All-append, if-cases, inl, inr,
}
use sand_box_rust.Seccomp.{Feature, get_allowed_syscalls}
use sand_box_rust.Seccomp.Syscalls.{Syscall}
use sand_box_rust.Seccomp.Filter.{
  Rule, Libseccomp, Install, going, failed, install_seccomp, filter_rules, all_rules, eperm_rule,
}
use sand_box_rust.Seccomp.Install.{IsEnd, install_seccomp-IsEnd}
use sand_box_rust.Seccomp.Init.{
  Call, install, Run, Kernel, Plan, plan, limit_plan, root_plan, drop_plan, follow, init_run,
  init_seccomp, install_step, init_run-follow, then_run,
}

abbrev code_of : Option ℤ → ℤ
code_of none = pos 0
code_of (some code) = code

abbrev IsFailure : Call × ℤ → Type 0
IsFailure c = c.1 ≢ pos 0

plan-IsFailure :
    (uid gid max_as : ℕ) (privileged : Bool) → All IsFailure (plan uid gid max_as privileged)
plan-IsFailure uid gid max_as privileged =
    All-append IsFailure (limit_plan max_as) _
      (if-cases (All IsFailure) (max_as == 0) _ _ (λ _. tt) (λ _. ((λ h. ground arith), tt)))
      (All-append IsFailure (root_plan privileged) _ (root privileged)
        ((λ h. ground arith), ((λ h. ground arith), dropped privileged)))
  where
    root : (b : Bool) → All IsFailure (root_plan b)
    root true = ((λ h. ground arith), ((λ h. ground arith), tt))
    root false = tt

    dropped : (b : Bool) → All IsFailure (drop_plan b uid gid)
    dropped true = ((λ h. ground arith), ((λ h. ground arith), ((λ h. ground arith), tt)))
    dropped false = tt

module _ (k : Kernel) where
  -- The calls of the plan were made and succeeded, and so did what follows.
  abbrev Done : Plan → Run → Run → Type 0
  Done p r whole =
      (whole.trace ≡ map (λ c. c.0) p ++ r.trace)
      × ((code_of r.error ≡ pos 0) × All (λ c. k.succeeds c.0 ≡ true) p)

  step_success :
      (c : Call) (code : ℤ) (p : Plan) (r rest : Run) (b : Bool)
      → k.succeeds c ≡ b
      → code ≢ pos 0
      → (code_of rest.error ≡ pos 0 → Done p r rest)
      → code_of (then_run (c ∷ []) (if b then none else some code) rest).error ≡ pos 0
      → Done ((c, code) ∷ p) r (then_run (c ∷ []) (if b then none else some code) rest)
  step_success c code p r rest true e f ih h = let (t, (z, s)) = ih h in (ap (◌∷◌ c) t, (z, (e, s)))
  step_success c code p r rest false e f ih h = absurd (f h)

  follow-success :
      (p : Plan) (r : Run)
      → All IsFailure p
      → code_of (follow k p r).error ≡ pos 0
      → Done p r (follow k p r)
  follow-success [] r f h = (refl, (h, tt))
  follow-success ((c, code) ∷ p) r f h =
      step_success c code p r (follow k p r) (k.succeeds c) refl f.0 (λ z. follow-success p r f.1 z)
        h

returned : (o : Option ℤ) → code_of o ≡ elim o [ none ↦ pos 0 | some code ↦ code ]
returned none = refl
returned (some code) = refl

module _ (number : Syscall → ℤ) (o_creat : ℕ) (lib : Libseccomp) (f : Feature)
    (env : Option (List ℕ)) where
  installed :
      (i : Install) (rs qs : List Rule)
      → IsEnd number o_creat lib rs qs i
      → code_of (elim i [ going _ ↦ none | failed code _ ↦ some code ]) ≡ pos 0
      → i ≡ going (record { rules = rs ++ qs; loaded = true; released = 1 })
  installed (going ctx) rs qs e z = ap going e
  installed (failed code none) rs qs (e, _) z = absurd (ground arith)
  installed (failed code (some ctx)) rs qs (_, inl (e, _)) z = absurd (ground arith)
  installed (failed code (some ctx)) rs qs (_, inr (inl (e, _))) z = absurd (ground arith)
  installed (failed code (some ctx)) rs qs (_, inr (inr (e, _, _))) z = absurd (ground arith)

  -- The process as the start meets it: what its libc calls answer, and its filter from libseccomp.
  unfoldable pub start_kernel : (Call → Bool) → Kernel
  start_kernel succeeds = record {
    succeeds = succeeds;
    installs = λ net.
        let (allowed, not_kill) = get_allowed_syscalls number f env net in
        install_seccomp number o_creat lib allowed not_kill;
  }

  -- A start that returns 0 made every call of its plan, in order, before the filter, each succeeded,
  -- and the filter with exactly the rules of the two lists is loaded.
  pub init_seccomp_0 :
      (succeeds : Call → Bool) (uid gid : ℕ) (enable_network : ℤ) (max_as : ℕ) (privilege : ℤ)
      → init_seccomp (start_kernel succeeds) uid gid enable_network max_as privilege ≡ pos 0
      → let net = not (int_eq enable_network (pos 0)) in
        let steps = plan uid gid max_as (not (int_eq privilege (pos 0))) in
        let (allowed, not_kill) = get_allowed_syscalls number f env net in
        ((init_run (start_kernel succeeds) uid gid enable_network max_as privilege).trace
          ≡ map (λ c. c.0) steps ++ install net ∷ [])
        × (All (λ c. succeeds c.0 ≡ true) steps
            × (install_seccomp number o_creat lib allowed not_kill
                ≡ going (record {
                  rules = filter_rules number o_creat allowed not_kill;
                  loaded = true;
                  released = 1;
                })))
  unfolding init_seccomp start_kernel install_step filter_rules
  init_seccomp_0 succeeds uid gid enable_network max_as privilege h =
      let k = start_kernel succeeds in
      let net = not (int_eq enable_network (pos 0)) in
      let steps = plan uid gid max_as (not (int_eq privilege (pos 0))) in
      let (allowed, not_kill) = get_allowed_syscalls number f env net in
      let whole = init_run-follow k uid gid enable_network max_as privilege in
      let (t, (z, s)) =
        follow-success k steps (install_step k net)
          (plan-IsFailure uid gid max_as (not (int_eq privilege (pos 0))))
          (ap (λ r. code_of r.error) (sym whole)
            ∙ returned (init_run k uid gid enable_network max_as privilege).error
            ∙ h) in
      (
        ap (λ r. r.trace) whole ∙ t,
        (
          s,
          installed _ (all_rules number o_creat allowed) (map (eperm_rule number o_creat) not_kill)
              (install_seccomp-IsEnd number o_creat lib allowed not_kill) z,
        ),
      )
