-- ===== src/Seccomp/Verdict.antt =====
-- What the kernel does with a syscall under the installed rules. How libseccomp and the kernel read
-- a list of rules is documented behaviour, and a parameter here.
use Prim.Native.Nat.{bit_and}
use sand_box_rust.Base.{
  ℕ, ◌≡◌, refl, ◌∙◌, Bool, true, false, ◌&&◌, ◌||◌, List, [], ◌∷◌, ◌++◌, map, ◌==◌, if◌then◌else◌,
  ℤ, int_eq, int_eq→eq, int_eq_refl, elem, All, All-append, Bool-cases, inl, inr, arith,
}
use sand_box_rust.Base.Bits.{bit_and-zero}
use sand_box_rust.Seccomp.Syscalls.{Syscall, sys_openat, sys_open, sys_ioctl}
use sand_box_rust.Seccomp.Filter.{
  cmp_eq, cmp_ne, cmp_masked_eq, ArgCmp, Action, kill_process, allow, errno_eperm, Rule, fionbio,
  no_creat, allow_rules, eperm_rule, all_rules, filter_rules,
}

-- The arguments of a syscall, by index.
abbrev pub Args : Type 0
Args = ℕ → ℕ

abbrev pub all_hold : (ArgCmp → Args → Bool) → List ArgCmp → Args → Bool
all_hold holds [] args = true
all_hold holds (c ∷ cs) args = holds c args && all_hold holds cs args

-- Whether a rule is for this syscall and its comparisons hold.
abbrev pub matches : (ArgCmp → Args → Bool) → ℤ → Args → Rule → Bool
matches holds sc args r = int_eq r.syscall sc && all_hold holds r.args args

abbrev pub any_matches : (ArgCmp → Args → Bool) → ℤ → Args → List Rule → Bool
any_matches holds sc args [] = false
any_matches holds sc args (r ∷ rs) = matches holds sc args r || any_matches holds sc args rs

-- seccomp_rule_add(3): the comparisons, the default action, and the action of the rules that match
-- where they agree. A masked comparison takes the mask first: `(arg & datum_a)` against
-- `(datum_b & datum_a)`.
pub record Semantics : Type 0 where
  pub holds : ArgCmp → Args → Bool
  pub verdict : List Rule → ℤ → Args → Action
  pub holds_eq :
      (c : ArgCmp) (args : Args) → c.op ≡ cmp_eq → holds c args ≡ (args c.arg == c.datum_a)
  pub holds_ne :
      (c : ArgCmp) (args : Args)
      → c.op ≡ cmp_ne
      → holds c args ≡ (if args c.arg == c.datum_a then false else true)
  pub holds_masked :
      (c : ArgCmp) (args : Args)
      → c.op ≡ cmp_masked_eq
      → holds c args ≡ (bit_and (args c.arg) c.datum_a == bit_and c.datum_b c.datum_a)
  pub by_default :
      (rules : List Rule) (sc : ℤ) (args : Args)
      → any_matches holds sc args rules ≡ false
      → verdict rules sc args ≡ kill_process
  pub by_rules :
      (rules : List Rule) (sc : ℤ) (args : Args) (a : Action)
      → any_matches holds sc args rules ≡ true
      → All (λ r. matches holds sc args r ≡ true → r.action ≡ a) rules
      → verdict rules sc args ≡ a

module _ (holds : ArgCmp → Args → Bool) (sc : ℤ) (args : Args) where
  any_matches-append :
      (xs ys : List Rule)
      → any_matches holds sc args (xs ++ ys)
        ≡ (any_matches holds sc args xs || any_matches holds sc args ys)
  any_matches-append [] ys = refl
  any_matches-append (x ∷ xs) ys = ground (arith, any_matches-append xs ys)

abbrev is_fionbio : ArgCmp
is_fionbio = record { arg = 1; op = cmp_eq; datum_a = fionbio; datum_b = 0 }

abbrev not_fionbio : ArgCmp
not_fionbio = record { arg = 1; op = cmp_ne; datum_a = fionbio; datum_b = 0 }

module _ (number : Syscall → ℤ) (o_creat : ℕ) (sem : Semantics) (sc : ℤ) (args : Args) where
  abbrev hit : List Rule → Bool
  hit = any_matches sem.holds sc args

  -- The mask is zero, so the comparison on the flags holds whatever they are.
  no_creat_holds : (arg : ℕ) → sem.holds (no_creat number o_creat arg) args ≡ true
  unfolding no_creat
  no_creat_holds arg =
      sem.holds_masked (no_creat number o_creat arg) args refl
      ∙ rw (bit_and-zero (args arg), bit_and-zero o_creat) refl

  abbrev Agrees : Action → List Rule → Type 0
  Agrees a = All (λ r. matches sem.holds sc args r ≡ true → r.action ≡ a)

  -- The four shapes of the rules of one syscall.
  shapes :
      (C : List Rule → Type 0) (x : ℤ)
      → (int_eq x (number sys_openat) ≡ true
          → C (record { action = allow; syscall = x; args = no_creat number o_creat 2 ∷ [] } ∷ []))
      → (int_eq x (number sys_openat) ≡ false
          → int_eq x (number sys_open) ≡ true
          → C (record { action = allow; syscall = x; args = no_creat number o_creat 1 ∷ [] } ∷ []))
      → (int_eq x (number sys_openat) ≡ false
          → int_eq x (number sys_open) ≡ false
          → int_eq x (number sys_ioctl) ≡ true
          → C (
              record { action = allow; syscall = x; args = is_fionbio ∷ [] }
              ∷ record { action = errno_eperm; syscall = x; args = not_fionbio ∷ [] }
              ∷ []))
      → (int_eq x (number sys_openat) ≡ false
          → int_eq x (number sys_open) ≡ false
          → int_eq x (number sys_ioctl) ≡ false
          → C (record { action = allow; syscall = x; args = [] } ∷ []))
      → C (allow_rules number o_creat x)
  unfolding allow_rules
  shapes C x openat open_ ioctl plain = elim (Bool-cases (int_eq x (number sys_openat))) [
    | inl a ↦ rw a (openat a)
    | inr a ↦ rw a (elim (Bool-cases (int_eq x (number sys_open))) [
      | inl b ↦ rw b (open_ a b)
      | inr b ↦ rw b (elim (Bool-cases (int_eq x (number sys_ioctl))) [
        | inl c ↦ rw c (ioctl a b c)
        | inr c ↦ rw c (plain a b c)
      ])
    ])
  ]

  -- Rules for another syscall do not match.
  hit_other : (x : ℤ) → int_eq x sc ≡ false → hit (allow_rules number o_creat x) ≡ false
  hit_other x other =
      shapes (λ rs. hit rs ≡ false) x (λ _. ground arith) (λ _ _. ground arith)
        (λ _ _ _. ground arith) (λ _ _ _. ground arith)

  Agrees-other :
      (a : Action) (x : ℤ) → int_eq x sc ≡ false → Agrees a (allow_rules number o_creat x)
  Agrees-other a x other =
      shapes (Agrees a) x (λ _. ((λ h. ground arith), tt)) (λ _ _. ((λ h. ground arith), tt))
        (λ _ _ _. ((λ h. ground arith), ((λ h. ground arith), tt)))
        (λ _ _ _. ((λ h. ground arith), tt))

  -- What an allowed syscall gets: `ioctl` an error for any request but FIONBIO, and everything else
  -- leave.
  unfoldable pub allowed_action : Action
  allowed_action =
      if int_eq sc (number sys_openat)
      then allow
      else if int_eq sc (number sys_open)
      then allow
      else if int_eq sc (number sys_ioctl)
      then (if args 1 == fionbio then allow else errno_eperm)
      else allow

  hit_own : hit (allow_rules number o_creat sc) ≡ true
  hit_own =
      shapes (λ rs. hit rs ≡ true) sc (λ _. ground (arith, no_creat_holds 2, int_eq_refl sc))
        (λ _ _. ground (arith, no_creat_holds 1, int_eq_refl sc))
        (λ _ _ _. ground (
          arith,
          int_eq_refl sc,
          sem.holds_eq is_fionbio args refl,
          sem.holds_ne not_fionbio args refl,
        ))
        (λ _ _ _. ground (arith, int_eq_refl sc))

  Agrees-own : Agrees allowed_action (allow_rules number o_creat sc)
  unfolding allowed_action
  Agrees-own =
      shapes (Agrees allowed_action) sc (λ a. ((λ _. rw a refl), tt))
        (λ a b. ((λ _. rw (a, b) refl), tt))
        (λ a b c.
          rw (a, b, c)
            (
              (λ h. ground (arith, int_eq_refl sc, sem.holds_eq is_fionbio args refl)),
              ((λ h. ground (arith, int_eq_refl sc, sem.holds_ne not_fionbio args refl)), tt),
            ))
        (λ a b c. ((λ _. rw (a, b, c) refl), tt))

  hit-all_rules : (l : List ℤ) → hit (all_rules number o_creat l) ≡ elem sc l
  unfolding all_rules
  hit-all_rules [] = refl
  hit-all_rules (x ∷ l) =
      any_matches-append sem.holds sc args (allow_rules number o_creat x)
        (all_rules number o_creat l)
      ∙ elim (Bool-cases (int_eq x sc)) [
        | inl same ↦ rw (same, int_eq→eq x sc same, hit_own) refl
        | inr other ↦ rw (other, hit_other x other, hit-all_rules l) refl
      ]

  Agrees-all_rules : (l : List ℤ) → Agrees allowed_action (all_rules number o_creat l)
  unfolding all_rules
  Agrees-all_rules [] = tt
  Agrees-all_rules (x ∷ l) =
      All-append _ (allow_rules number o_creat x) (all_rules number o_creat l)
        (elim (Bool-cases (int_eq x sc)) [
          | inl same ↦ rw (int_eq→eq x sc same) Agrees-own
          | inr other ↦ Agrees-other allowed_action x other
        ])
        (Agrees-all_rules l)

  hit-not_kill : (l : List ℤ) → hit (map (eperm_rule number o_creat) l) ≡ elem sc l
  hit-not_kill [] = refl
  hit-not_kill (x ∷ l) = ground (arith, hit-not_kill l)

  Agrees-not_kill : (l : List ℤ) → Agrees errno_eperm (map (eperm_rule number o_creat) l)
  Agrees-not_kill [] = tt
  Agrees-not_kill (x ∷ l) = ((λ _. refl), Agrees-not_kill l)

  Agrees-missed : (a : Action) (rs : List Rule) → hit rs ≡ false → Agrees a rs
  Agrees-missed a [] h = tt
  Agrees-missed a (r ∷ rs) h = ((λ m. ground arith), Agrees-missed a rs (ground arith))

  hit-filter_rules :
      (allowed not_kill : List ℤ)
      → hit (filter_rules number o_creat allowed not_kill) ≡ (elem sc allowed || elem sc not_kill)
  unfolding filter_rules
  hit-filter_rules allowed not_kill =
      any_matches-append sem.holds sc args (all_rules number o_creat allowed) _
      ∙ rw (hit-all_rules allowed, hit-not_kill not_kill) refl

  -- What the two lists say of the syscall.
  unfoldable pub listed_action : List ℤ → List ℤ → Action
  listed_action allowed not_kill =
      if elem sc allowed
      then allowed_action
      else if elem sc not_kill
      then errno_eperm
      else kill_process

  -- The installed filter does what the two lists say, for every syscall that is not in both: one
  -- that is in neither is killed, one in the second fails with EPERM, and of those in the first
  -- `ioctl` fails with EPERM unless its request is FIONBIO and every other is allowed, `open` and
  -- `openat` with any flags.
  pub filter_verdict :
      (allowed not_kill : List ℤ)
      → (elem sc allowed && elem sc not_kill) ≡ false
      → sem.verdict (filter_rules number o_creat allowed not_kill) sc args
        ≡ listed_action allowed not_kill
  unfolding listed_action filter_rules
  filter_verdict allowed not_kill apart =
      let rules = filter_rules number o_creat allowed not_kill in
      let found = hit-filter_rules allowed not_kill in
      elim (Bool-cases (elem sc allowed)) [
        | inl a ↦ rw a (
            sem.by_rules rules sc args allowed_action (ground arith) (
              All-append _ (all_rules number o_creat allowed) _ (Agrees-all_rules allowed)
                (Agrees-missed allowed_action _ (hit-not_kill not_kill ∙ ground arith))))
        | inr a ↦ rw a (elim (Bool-cases (elem sc not_kill)) [
          | inl b ↦ rw b (
              sem.by_rules rules sc args errno_eperm (ground arith) (
                All-append _ (all_rules number o_creat allowed) _
                  (Agrees-missed errno_eperm _ (hit-all_rules allowed ∙ a))
                  (Agrees-not_kill not_kill)))
          | inr b ↦ rw b (sem.by_default rules sc args (ground arith))
        ])
      ]
