-- ===== src/Seccomp/Init.antt =====
-- `init_seccomp`: the order of the calls that start the sandbox.
use sand_box_rust.Base.{
  ℕ, ◌≡◌, refl, ◌∙◌, ap, sym, Bool, true, false, not, List, [], ◌∷◌, ◌++◌, Option, none, some, ◌==◌,
  if◌then◌else◌, ℤ, pos, neg, int_eq, append_assoc, append-nil, Bool-cases, inl, inr,
}
use sand_box_rust.Seccomp.Filter.{Install, going, failed}

-- The calls into libc and, as one, `install_seccomp`.
pub data Call : Type 0 where
  set_rlimit_as : ℕ → Call
  chroot_here chdir_root no_new_privs clear_dumpable clear_groups : Call
  set_gid set_uid : ℕ → Call
  install : Bool → Call

-- The calls made, oldest first, and the code with which the function returned early, if it did.
pub record Run : Type 0 where
  pub trace : List Call
  pub error : Option ℤ

-- What the kernel answers to each libc call, and how `install_seccomp` ends.
pub record Kernel : Type 0 where
  pub succeeds : Call → Bool
  pub installs : Bool → Install

-- `if unsafe { … } != 0 { return Err(code); }`
abbrev pub call : Kernel → Call → ℤ → Run
call k c code = record { trace = c ∷ []; error = if k.succeeds c then none else some code }

abbrev pub ok : Run
ok = record { trace = []; error = none }

abbrev pub then_run : List Call → Option ℤ → Run → Run
then_run trace none next = record { trace = trace ++ next.trace; error = next.error }
then_run trace (some code) next = record { trace = trace; error = some code }

-- `if let Err(code) = m() { return code; }`, and what follows.
infixl 5 ◌>>◌
abbrev pub ◌>>◌ : Run → Run → Run
m >> n = then_run m.trace m.error n

module _ (k : Kernel) where
  unfoldable pub set_memory_limit : ℕ → Run
  set_memory_limit max_as = if max_as == 0 then ok else call k (set_rlimit_as max_as) (neg 11)

  unfoldable pub setup_root : Run
  setup_root = do call k chroot_here (neg 1); call k chdir_root (neg 2)

  unfoldable pub set_no_new_privs : Run
  set_no_new_privs = do call k no_new_privs (neg 3); call k clear_dumpable (neg 12)

  unfoldable pub drop_privileges : ℕ → ℕ → Run
  drop_privileges uid gid = do
    call k clear_groups (neg 10)
    call k (set_gid gid) (neg 4)
    call k (set_uid uid) (neg 5)

  unfoldable pub install_step : Bool → Run
  install_step net = record {
    trace = install net ∷ [];
    error = elim (k.installs net) [ going _ ↦ none | failed code _ ↦ some code ];
  }

  unfoldable pub init_run : ℕ → ℕ → ℤ → ℕ → ℤ → Run
  init_run uid gid enable_network max_as privilege = do
    set_memory_limit max_as
    if int_eq privilege (pos 0) then ok else setup_root
    set_no_new_privs
    if int_eq privilege (pos 0) then ok else drop_privileges uid gid
    install_step (not (int_eq enable_network (pos 0)))

  -- The code that C sees.
  unfoldable pub init_seccomp : ℕ → ℕ → ℤ → ℕ → ℤ → ℤ
  unfolding init_run
  init_seccomp uid gid enable_network max_as privilege =
      elim (init_run uid gid enable_network max_as privilege).error [
        | none ↦ pos 0
        | some code ↦ code
      ]

-- The plan of a start: each call with the code of its failure.
abbrev pub Plan : Type 0
Plan = List (Call × ℤ)

abbrev pub root_plan : Bool → Plan
root_plan true = (chroot_here, neg 1) ∷ (chdir_root, neg 2) ∷ []
root_plan false = []

abbrev pub hide_plan : Plan
hide_plan = (no_new_privs, neg 3) ∷ (clear_dumpable, neg 12) ∷ []

abbrev pub drop_plan : Bool → ℕ → ℕ → Plan
drop_plan true uid gid = (clear_groups, neg 10) ∷ (set_gid gid, neg 4) ∷ (set_uid uid, neg 5) ∷ []
drop_plan false uid gid = []

abbrev pub limit_plan : ℕ → Plan
limit_plan max_as = if max_as == 0 then [] else (set_rlimit_as max_as, neg 11) ∷ []

-- Everything that comes before the filter.
abbrev pub plan : ℕ → ℕ → ℕ → Bool → Plan
plan uid gid max_as privileged =
    limit_plan max_as ++ (root_plan privileged ++ (hide_plan ++ drop_plan privileged uid gid))

-- The calls of a plan up to the first that fails, which gives the code; after the last, `rest`.
abbrev pub follow : Kernel → Plan → Run → Run
follow k [] rest = rest
follow k ((c, code) ∷ p) rest = do call k c code; follow k p rest

follow-append :
    (k : Kernel) (p q : Plan) (r : Run) → follow k (p ++ q) r ≡ follow k p (follow k q r)
follow-append k [] q r = refl
follow-append k (c ∷ p) q r = rw (follow-append k p q r) refl

then_run_assoc :
    (t : List Call) (e : Option ℤ) (u : List Call) (f : Option ℤ) (c : Run)
    → then_run
        (then_run t e (record { trace = u; error = f })).trace
        (then_run t e (record { trace = u; error = f })).error
        c
      ≡ then_run t e (then_run u f c)
then_run_assoc t (some code) u f c = refl
then_run_assoc t none u none c = rw (append_assoc t u c.trace) refl
then_run_assoc t none u (some code) c = refl

then_run-ok : (t : List Call) (e : Option ℤ) → then_run t e ok ≡ record { trace = t; error = e }
then_run-ok t none = rw (append-nil t) refl
then_run-ok t (some code) = refl

>>_assoc : (a b c : Run) → ((a >> b) >> c) ≡ (a >> (b >> c))
>>_assoc a b c = then_run_assoc a.trace a.error b.trace b.error c

>>_ok : (a : Run) → (a >> ok) ≡ a
>>_ok a = then_run-ok a.trace a.error

module _ (k : Kernel) where
  follow-ok : (p : Plan) (r : Run) → (follow k p ok >> r) ≡ follow k p r
  follow-ok [] r = refl
  follow-ok ((c, code) ∷ p) r =
      >>_assoc (call k c code) (follow k p ok) r ∙ ap (◌>>◌ (call k c code)) (follow-ok p r)

  setup_root-follow : setup_root k ≡ follow k (root_plan true) ok
  unfolding setup_root
  setup_root-follow = ap (◌>>◌ (call k chroot_here (neg 1))) (sym (>>_ok _))

  set_no_new_privs-follow : set_no_new_privs k ≡ follow k hide_plan ok
  unfolding set_no_new_privs
  set_no_new_privs-follow = ap (◌>>◌ (call k no_new_privs (neg 3))) (sym (>>_ok _))

  drop_privileges-follow :
      (uid gid : ℕ) → drop_privileges k uid gid ≡ follow k (drop_plan true uid gid) ok
  unfolding drop_privileges
  drop_privileges-follow uid gid =
      ap (λ r. call k clear_groups (neg 10) >> (call k (set_gid gid) (neg 4) >> r)) (sym (>>_ok _))

  limit-follow : (max_as : ℕ) → set_memory_limit k max_as ≡ follow k (limit_plan max_as) ok
  unfolding set_memory_limit
  limit-follow max_as = elim (Bool-cases (max_as == 0)) [
    | inl e ↦ rw e refl
    | inr e ↦ rw e (sym (>>_ok _))
  ]

  root-follow : (b : Bool) → (if b then ok else setup_root k) ≡ follow k (root_plan (not b)) ok
  root-follow true = refl
  root-follow false = setup_root-follow

  drop-follow :
      (b : Bool) (uid gid : ℕ)
      → (if b then ok else drop_privileges k uid gid) ≡ follow k (drop_plan (not b) uid gid) ok
  drop-follow true uid gid = refl
  drop-follow false uid gid = drop_privileges-follow uid gid

  stage :
      (m r s : Run) (p q : Plan)
      → m ≡ follow k p ok
      → r ≡ follow k q s
      → (m >> r) ≡ follow k (p ++ q) s
  stage m r s p q e h =
      ap (λ x. x >> r) e ∙ follow-ok p r ∙ ap (follow k p) h ∙ sym (follow-append k p q s)

  -- The start makes the calls of the plan in its order and then installs the filter, up to the first
  -- call that fails, whose code it returns.
  pub init_run-follow :
      (uid gid : ℕ) (enable_network : ℤ) (max_as : ℕ) (privilege : ℤ)
      → init_run k uid gid enable_network max_as privilege
        ≡ follow k
            (plan uid gid max_as (not (int_eq privilege (pos 0))))
            (install_step k (not (int_eq enable_network (pos 0))))
  unfolding init_run
  init_run-follow uid gid enable_network max_as privilege =
      let unprivileged = int_eq privilege (pos 0) in
      let last = install_step k (not (int_eq enable_network (pos 0))) in
      stage _ _ last _ _ (limit-follow max_as) (
        stage _ _ last _ _ (root-follow unprivileged) (
          stage _ _ last hide_plan _ set_no_new_privs-follow
            (ap (λ x. x >> last) (drop-follow unprivileged uid gid) ∙ follow-ok _ last)))
