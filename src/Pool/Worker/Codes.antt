-- ===== src/Pool/Worker/Codes.antt =====
-- The exit codes that the worker tells, against the answers of `waitpid`.
use sand_box_rust.Base.{
  ℕ, ◌≡◌, ◌⊎◌, inl, inr, refl, ap, ◌∙◌, List, [], ◌∷◌, ◌++◌, none, some, All, All-append, ℤ, neg,
  subst,
}
use sand_box_rust.Zygote.Reader.Frames.{Frame}
use sand_box_rust.Pool.Protocol.{msg_done, pack_done}
use sand_box_rust.Pool.State.{
  ReqInfo, Requests, Os, Waited, gone, zombie, alive, Call, fork, update,
}
use sand_box_rust.Pool.Worker.Tables.{update-cases, some_injective}

abbrev pub IsIn : Call → List Call → Type 0
IsIn c [] = ⊥
IsIn c (d ∷ ds) = (c ≡ d) ⊎ IsIn c ds

pub IsIn-append : (c : Call) (log more : List Call) → IsIn c log → IsIn c (log ++ more)
IsIn-append c [] more h = absurd h
IsIn-append c (d ∷ ds) more (inl e) = inl e
IsIn-append c (d ∷ ds) more (inr h) = inr (IsIn-append c ds more h)

IsIn-snoc : (c : Call) (log : List Call) → IsIn c (log ++ c ∷ [])
IsIn-snoc c [] = inl refl
IsIn-snoc c (d ∷ ds) = inr (IsIn-snoc c ds)

-- The code that goes with an answer of `waitpid`: the child's own, or -1 where there is no child.
abbrev pub IsCodeOf : Waited → ℤ → Type 0
IsCodeOf gone c = c ≡ neg 1
IsCodeOf (zombie code) c = c ≡ code
IsCodeOf (alive (some code)) c = c ≡ code
IsCodeOf (alive none) c = c ≡ neg 1

-- The payload of the last frame of request `k` is the code of the child that was forked for it.
abbrev pub IsReaped : Os → List Call → ℕ → List ℕ → Type 0
IsReaped os log k payload =
    (pid : ℕ) × (n : ℕ) × (c : ℤ) × IsIn (fork k pid) log
    × (payload ≡ pack_done c)
    × IsCodeOf (os.wait n pid) c

abbrev pub IsCoded : Os → List Call → Frame → Type 0
IsCoded os log f = f.mtype ≡ msg_done → IsReaped os log f.req_id f.payload

-- Each entry has a child that was forked for it.
abbrev pub IsLogged : Requests → List Call → Type 0
IsLogged reqs log = (k : ℕ) (r : ReqInfo) → reqs k ≡ some r → IsIn (fork k r.pid) log

abbrev pub IsRecorded : Os → Requests → List Call → List Frame → Type 0
IsRecorded os reqs log fs = IsLogged reqs log × All (IsCoded os log) fs

module _ (os : Os) where
  IsCoded-append :
      (log more : List Call) (fs : List Frame)
      → All (IsCoded os log) fs
      → All (IsCoded os (log ++ more)) fs
  IsCoded-append log more [] h = tt
  IsCoded-append log more (f ∷ fs) (hf, h) = (
    λ e.
        let (pid, n, c, forked_, packed, code) = hf e in
        (pid, n, c, IsIn-append (fork f.req_id pid) log more forked_, packed, code),
    IsCoded-append log more fs h,
  )

  pub append-IsRecorded :
      (reqs : Requests) (log more : List Call) (fs : List Frame)
      → IsRecorded os reqs log fs
      → IsRecorded os reqs (log ++ more) fs
  append-IsRecorded reqs log more fs (logged, coded) = (
    λ k r e. IsIn-append (fork k r.pid) log more (logged k r e),
    IsCoded-append log more fs coded,
  )

  pub send-IsRecorded :
      (reqs : Requests) (log : List Call) (fs : List Frame) (f : Frame)
      → IsRecorded os reqs log fs
      → IsCoded os log f
      → IsRecorded os reqs log (fs ++ f ∷ [])
  send-IsRecorded reqs log fs f (logged, coded) h =
      (logged, All-append (IsCoded os log) fs (f ∷ []) coded (h, tt))

  pub fork-IsRecorded :
      (reqs : Requests) (log : List Call) (fs : List Frame) (k : ℕ) (r : ReqInfo)
      → IsRecorded os reqs log fs
      → IsRecorded os (update reqs k (some r)) (log ++ fork k r.pid ∷ []) fs
  fork-IsRecorded reqs log fs k r (logged, coded) = (
    λ j q e. elim (update-cases reqs k j (some r) (some q) e) [
      | inl (same, g) ↦
          subst (λ p. IsIn p (log ++ fork k r.pid ∷ []))
            (ap (λ i. fork i r.pid) same
              ∙ ap (λ (r : ReqInfo). fork j r.pid) (some_injective r q g))
            (IsIn-snoc (fork k r.pid) log)
      | inr (_, g) ↦ IsIn-append (fork j q.pid) log (fork k r.pid ∷ []) (logged j q g)
    ],
    IsCoded-append log (fork k r.pid ∷ []) fs coded,
  )

  -- The entry changes but not its child.
  pub change-IsRecorded :
      (reqs : Requests) (log : List Call) (fs : List Frame) (k : ℕ) (r q : ReqInfo)
      → IsRecorded os reqs log fs
      → reqs k ≡ some r
      → r.pid ≡ q.pid
      → IsRecorded os (update reqs k (some q)) log fs
  change-IsRecorded reqs log fs k r q (logged, coded) e e_pid = (
    λ j p g. elim (update-cases reqs k j (some q) (some p) g) [
      | inl (same, h) ↦
          subst (λ c. IsIn c log)
            (ap (λ n. fork k n) e_pid
              ∙ ap (λ i. fork i q.pid) same
              ∙ ap (λ (r : ReqInfo). fork j r.pid) (some_injective q p h))
            (logged k r e)
      | inr (_, h) ↦ logged j p h
    ],
    coded,
  )

  pub end-IsRecorded :
      (reqs : Requests) (log : List Call) (fs : List Frame) (k : ℕ)
      → IsRecorded os reqs log fs
      → IsRecorded os (update reqs k none) log fs
  end-IsRecorded reqs log fs k (logged, coded) = (
    λ j p g. elim (update-cases reqs k j none (some p) g) [
      | inl (_, h) ↦ absurd cc
      | inr (_, h) ↦ logged j p h
    ],
    coded,
  )
