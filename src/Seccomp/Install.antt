-- ===== src/Seccomp/Install.antt =====
-- How `install_seccomp` ends, on every answer of libseccomp.
use sand_box_rust.Base.{
  ℕ, suc, ◌≡◌, refl, ap, sym, subst, ◌∙◌, ◌⊎◌, inl, inr, true, false, List, [], ◌∷◌, ◌++◌, map,
  none, some, ℤ, neg, Bool-cases, if-cases, arith, append_assoc, append-nil,
}
use sand_box_rust.Seccomp.Syscalls.{Syscall}
use sand_box_rust.Seccomp.Filter.{
  then_do, Rule, Context, Libseccomp, Install, going, failed, add_rule, add_rules, allow_rules,
  add_allowed, eperm_rule, add_not_kill, load, fresh, install_seccomp, all_rules,
}

-- A context that was released once and never loaded.
abbrev pub IsDropped : Context → Type 0
IsDropped ctx = (ctx.released ≡ 1) × (ctx.loaded ≡ false)

-- After the rules `old`, one of `rs` was refused, and those before it were added.
abbrev pub IsRefused : Libseccomp → List Rule → List Rule → Context → Type 0
IsRefused lib old rs ctx =
    (before : List Rule) × (r : Rule) × (after : List Rule) × (rs ≡ before ++ r ∷ after)
    × (ctx.rules ≡ old ++ before)
    × (lib.accepts ctx.rules r ≡ false)

-- On the way with these rules added, or failed with this code at one of them, the context dropped.
abbrev Adds : Libseccomp → ℤ → Context → List Rule → Install → Type 0
Adds lib code ctx rs (going d) = d ≡ record ctx { rules = ctx.rules ++ rs }
Adds lib code ctx rs (failed c (some d)) = (c ≡ code) × IsDropped d × IsRefused lib ctx.rules rs d
Adds lib code ctx rs (failed c none) = ⊥

-- Neither loaded nor released yet.
abbrev IsOpen : Context → Type 0
IsOpen ctx = (ctx.released ≡ 0) × (ctx.loaded ≡ false)

add_rule-Adds :
    (lib : Libseccomp) (code : ℤ) (r : Rule) (ctx : Context)
    → IsOpen ctx
    → Adds lib code ctx (r ∷ []) (add_rule lib code r ctx)
unfolding add_rule
add_rule-Adds lib code r ctx (once, unloaded) = elim (Bool-cases (lib.accepts ctx.rules r)) [
  | inl good ↦ rw good refl
  | inr bad ↦
      rw bad (refl, (ap suc once, unloaded), ([], r, [], refl, sym (append-nil ctx.rules), bad))
]

IsRefused-more :
    (lib : Libseccomp) (old rs qs : List Rule) (ctx : Context)
    → IsRefused lib (old ++ rs) qs ctx
    → IsRefused lib old (rs ++ qs) ctx
IsRefused-more lib old rs qs ctx (before, r, after, e, f, nay) = (
  rs ++ before,
  r,
  after,
  ap (◌++◌ rs) e ∙ sym (append_assoc rs before (r ∷ after)),
  f ∙ append_assoc old rs before,
  nay,
)

IsRefused-append :
    (lib : Libseccomp) (old rs qs : List Rule) (ctx : Context)
    → IsRefused lib old rs ctx
    → IsRefused lib old (rs ++ qs) ctx
IsRefused-append lib old rs qs ctx (before, r, after, e, f, nay) =
    (before, r, after ++ qs, ap (λ x. x ++ qs) e ∙ append_assoc before (r ∷ after) qs, f, nay)

Adds-more :
    (lib : Libseccomp) (code : ℤ) (ctx d : Context) (rs qs : List Rule) (i : Install)
    → d ≡ record ctx { rules = ctx.rules ++ rs }
    → Adds lib code d qs i
    → Adds lib code ctx (rs ++ qs) i
Adds-more lib code ctx d rs qs (going e) p h = ground (arith, append_assoc ctx.rules rs qs)
Adds-more lib code ctx d rs qs (failed c (some e)) p (f, dropped, nay) = (
  f,
  dropped,
  IsRefused-more lib ctx.rules rs qs e
      (subst (λ x. IsRefused lib x qs e) (ap (λ x. x.rules) p) nay),
)
Adds-more lib code ctx d rs qs (failed c none) p h = h

Adds-then :
    (lib : Libseccomp) (code : ℤ) (ctx : Context) (rs qs : List Rule) (i : Install)
    (next : Context → Install)
    → IsOpen ctx
    → Adds lib code ctx rs i
    → ((d : Context) → IsOpen d → Adds lib code d qs (next d))
    → Adds lib code ctx (rs ++ qs) (then_do i next)
Adds-then lib code ctx rs qs (going d) next o h f =
    Adds-more lib code ctx d rs qs (next d) h (f d (ground arith, ground arith))
Adds-then lib code ctx rs qs (failed c (some d)) next o (e, dropped, nay) f =
    (e, dropped, IsRefused-append lib ctx.rules rs qs d nay)
Adds-then lib code ctx rs qs (failed c none) next o h f = h

add_rules-Adds :
    (lib : Libseccomp) (code : ℤ) (rs : List Rule) (ctx : Context)
    → IsOpen ctx
    → Adds lib code ctx rs (add_rules lib code rs ctx)
unfolding add_rules
add_rules-Adds lib code [] ctx o = ground (arith, append-nil ctx.rules)
add_rules-Adds lib code (r ∷ rs) ctx o =
    Adds-then lib code ctx (r ∷ []) rs (add_rule lib code r ctx) (add_rules lib code rs) o
      (add_rule-Adds lib code r ctx o) (λ d. add_rules-Adds lib code rs d)

module _ (number : Syscall → ℤ) (o_creat : ℕ) (lib : Libseccomp) where
  add_allowed-Adds :
      (l : List ℤ) (ctx : Context)
      → IsOpen ctx
      → Adds lib (neg 7) ctx (all_rules number o_creat l) (add_allowed number o_creat lib l ctx)
  unfolding add_allowed all_rules
  add_allowed-Adds [] ctx o = ground (arith, append-nil ctx.rules)
  add_allowed-Adds (sc ∷ l) ctx o =
      Adds-then lib (neg 7) ctx (allow_rules number o_creat sc) (all_rules number o_creat l)
        (add_rules lib (neg 7) (allow_rules number o_creat sc) ctx)
        (add_allowed number o_creat lib l) o
        (add_rules-Adds lib (neg 7) (allow_rules number o_creat sc) ctx o)
        (λ d. add_allowed-Adds l d)

  add_not_kill-Adds :
      (l : List ℤ) (ctx : Context)
      → IsOpen ctx
      → Adds lib
          (neg 8)
          ctx
          (map (eperm_rule number o_creat) l)
          (add_not_kill number o_creat lib l ctx)
  unfolding add_not_kill
  add_not_kill-Adds [] ctx o = ground (arith, append-nil ctx.rules)
  add_not_kill-Adds (sc ∷ l) ctx o =
      Adds-then lib (neg 8) ctx (eperm_rule number o_creat sc ∷ [])
        (map (eperm_rule number o_creat) l)
        (add_rule lib (neg 8) (eperm_rule number o_creat sc) ctx)
        (add_not_kill number o_creat lib l) o
        (add_rule-Adds lib (neg 8) (eperm_rule number o_creat sc) ctx o)
        (λ d. add_not_kill-Adds l d)

  -- A context that was loaded with exactly the rules `rs` and `qs`; or an error code with what went
  -- wrong, and a context that was not loaded: -7 where one of `rs` was refused, -8 where one of `qs` was
  -- refused after all of `rs` were added, -9 where the filter of all of them did not load. A context is
  -- released once in either case.
  abbrev pub IsEnd : List Rule → List Rule → Install → Type 0
  IsEnd rs qs (going ctx) = ctx ≡ record { rules = rs ++ qs; loaded = true; released = 1 }
  IsEnd rs qs (failed c none) = (c ≡ neg 6) × (lib.inits ≡ false)
  IsEnd rs qs (failed c (some ctx)) =
      IsDropped ctx
      × (((c ≡ neg 7) × IsRefused lib [] rs ctx)
          ⊎ (((c ≡ neg 8) × IsRefused lib rs qs ctx)
              ⊎ ((c ≡ neg 9) × (ctx.rules ≡ rs ++ qs) × (lib.loads (rs ++ qs) ≡ false))))

  load-IsEnd :
      (ctx : Context) (rs qs : List Rule)
      → IsOpen ctx
      → ctx.rules ≡ rs ++ qs
      → IsEnd rs qs (load number o_creat lib ctx)
  unfolding load
  load-IsEnd ctx rs qs (once, unloaded) same = elim (Bool-cases (lib.loads ctx.rules)) [
    | inl good ↦ rw good (ground arith)
    | inr bad ↦
        rw bad (
          (ap suc once, unloaded),
          inr (inr (refl, same, subst (λ x. lib.loads x ≡ false) same bad)),
        )
  ]

  not_kill-IsEnd :
      (i : Install) (ctx : Context) (rs qs : List Rule)
      → IsOpen ctx
      → ctx.rules ≡ rs
      → Adds lib (neg 8) ctx qs i
      → IsEnd rs qs (then_do i (load number o_creat lib))
  not_kill-IsEnd (going d) ctx rs qs o same h =
      load-IsEnd d rs qs (ground arith, ground arith) (ap (λ x. x.rules) h ∙ ap (λ x. x ++ qs) same)
  not_kill-IsEnd (failed c (some d)) ctx rs qs o same (e, dropped, nay) =
      (dropped, inr (inl (e, subst (λ x. IsRefused lib x qs d) same nay)))
  not_kill-IsEnd (failed c none) ctx rs qs o same h = absurd h

  allowed-IsEnd :
      (i : Install) (rs : List Rule) (not_kill : List ℤ)
      → Adds lib (neg 7) (fresh number o_creat) rs i
      → IsEnd rs
          (map (eperm_rule number o_creat) not_kill)
          (then_do (then_do i (add_not_kill number o_creat lib not_kill)) (load number o_creat lib))
  allowed-IsEnd (going d) rs not_kill h =
      let o : IsOpen d = (ground arith, ground arith) in
      not_kill-IsEnd (add_not_kill number o_creat lib not_kill d) d rs _ o (ap (λ x. x.rules) h)
        (add_not_kill-Adds not_kill d o)
  allowed-IsEnd (failed c (some d)) rs not_kill (e, dropped, nay) = (dropped, inl (e, nay))
  allowed-IsEnd (failed c none) rs not_kill h = absurd h

  -- Whatever libseccomp answers, `install_seccomp` either loads exactly the rules of the two lists,
  -- or fails, and loads nothing, with the code of the step: -6 where no context is made, -7 where a
  -- rule of the allowed calls is refused, -8 where these were added and a rule of the calls that fail
  -- with EPERM is refused, -9 where all were added and the filter does not load. Every context that it
  -- is given it releases exactly once.
  pub install_seccomp-IsEnd :
      (allowed not_kill : List ℤ)
      → IsEnd
          (all_rules number o_creat allowed)
          (map (eperm_rule number o_creat) not_kill)
          (install_seccomp number o_creat lib allowed not_kill)
  unfolding install_seccomp
  install_seccomp-IsEnd allowed not_kill =
      if-cases (IsEnd (all_rules number o_creat allowed) (map (eperm_rule number o_creat) not_kill))
        lib.inits _ _
        (λ _.
          allowed-IsEnd (add_allowed number o_creat lib allowed (fresh number o_creat))
            (all_rules number o_creat allowed) not_kill
            (add_allowed-Adds allowed (fresh number o_creat) (refl, refl)))
        (λ refused. (refl, refused))
