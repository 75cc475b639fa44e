-- ===== src/Pool/Worker/Told.antt =====
-- What the worker tells the server of each request, over all rounds of `serve`.
use sand_box_rust.Base.{
  ℕ, zero, suc, ◌<◌, ◌≡◌, ◌≢◌, inl, inr, refl, sym, ◌∙◌, List, [], ◌∷◌, length, Option, none, some,
  arith, count, Option-cases,
}
use sand_box_rust.Pool.State.{Worker, ReqInfo, Requests, FdMap, Os, running}
use sand_box_rust.Pool.Worker.{Serves}
use sand_box_rust.Pool.Worker.Tables.{IsLinked}
use sand_box_rust.Pool.Worker.Phases.{unfinished, finished, mistaken, phase, expected}
use sand_box_rust.Pool.Worker.Ends.{IsFresh, IsNodup}
use sand_box_rust.Pool.Worker.Invariant.{Serves-IsInv}

-- No descriptor of request `k` is listened to.
abbrev pub IsClosed : ℕ → Worker → Type 0
IsClosed k w = (fd t : ℕ) → w.fd_map fd ≢ some (k, t)

some_member : (xs : List ℕ) → 0 < length xs → (x : ℕ) × (0 < count x xs)
some_member [] h = absurd (omega arith)
some_member (x ∷ xs) h = (x, ground arith)

closed_no_entry :
    (reqs : Requests) (fd_map : FdMap) (k : ℕ)
    → IsLinked reqs fd_map
    → ((fd t : ℕ) → fd_map fd ≢ some (k, t))
    → reqs k ≡ none
closed_no_entry reqs fd_map k linked shut = elim (Option-cases (reqs k)) [
  | inl e ↦ e
  | inr (r, e) ↦
      let (open_, heard) = linked.1 k r e in
      let (fd, c) = some_member r.open_fds open_ in let (t, g) = heard fd c in absurd (shut fd t g)
]

-- A request that was never started, or one that was.
abbrev pub IsTold : ℕ → Worker → Type 0
IsTold k w =
    (phase k w.emitted ≢ mistaken)
    × (count k w.started ≡ 0 → phase k w.emitted ≡ unfinished)
    × (0 < count k w.started → IsClosed k w → phase k w.emitted ≡ finished)

expected-ne-mistaken : (n : ℕ) (o : Option ReqInfo) → expected n o ≢ mistaken
expected-ne-mistaken n (some r) h = cc
expected-ne-mistaken zero none h = cc
expected-ne-mistaken (suc n) none h = cc

expected_zero : (n : ℕ) (o : Option ReqInfo) → n ≡ 0 → expected n o ≡ unfinished
expected_zero n (some r) h = refl
expected_zero zero none h = refl
expected_zero (suc n) none h = absurd (omega arith)

expected_closed : (n : ℕ) (o : Option ReqInfo) → 0 < n → o ≡ none → expected n o ≡ finished
expected_closed n (some r) h e = cc
expected_closed zero none h e = absurd (omega arith)
expected_closed (suc n) none h e = refl

-- On a system whose pipes get descriptors that are not in use, and as long as the server gives no
-- two requests the same id: after any rounds of `serve`, at most one of a request's frames is a
-- MSG_DONE, and it is the last of them. There is none for a request that was not started, and there
-- is one for a request that was, once none of its pipes is listened to.
pub Serves-IsTold :
    (os : Os) (w : Worker) (k : ℕ)
    → IsFresh os
    → Serves os (running w)
    → IsNodup w.started
    → IsTold k w
Serves-IsTold os w k fresh serves nodup =
    let (linked, phased, known) = (Serves-IsInv os fresh (running w) serves).1.3 nodup in
    (
      λ e. expected-ne-mistaken (count k w.started) (w.reqs k) (sym (phased k) ∙ e),
      λ new. phased k ∙ expected_zero (count k w.started) (w.reqs k) new,
      λ some_start shut.
          phased k
          ∙ expected_closed (count k w.started) (w.reqs k) some_start
              (closed_no_entry w.reqs w.fd_map k linked shut),
    )
