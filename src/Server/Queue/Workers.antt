-- ===== src/Server/Queue/Workers.antt =====
-- server/src/queue.rs: how many of the pool's workers are left, over every interleaving.
use sand_box_rust.Base.{ℕ, zero, suc, ◌+◌, ◌≤◌, ◌≡◌, refl, List, [], ◌∷◌, arith}
use sand_box_rust.Server.Handlers.{ApiResponse}
use sand_box_rust.Server.Queue.{
  Task, receiving, received, running, responding, ended, Queue, spawn, Step, submit, sends,
  send_fails, gives_up, receives, counts_down, returns, panics, responds, Reach, begin, later,
}
use sand_box_rust.Server.Queue.Laws.{total, total-move, total-spawn}

-- 1 for a task that has taken a job out and not answered it.
abbrev pub is_busy : Task → ℕ
is_busy receiving = 0
is_busy (received _) = 1
is_busy (running _) = 1
is_busy (responding _ _) = 1
is_busy ended = 0

abbrev is_ended : Task → ℕ
is_ended ended = 1
is_ended _ = 0

abbrev one : Task → ℕ
one _ = 1

busy_or_ended : (ts : List Task) → total is_busy ts + total is_ended ts ≤ total one ts
busy_or_ended [] = omega arith
busy_or_ended (receiving ∷ ts) = omega (arith, busy_or_ended ts)
busy_or_ended (received _ ∷ ts) = omega (arith, busy_or_ended ts)
busy_or_ended (running _ ∷ ts) = omega (arith, busy_or_ended ts)
busy_or_ended (responding _ _ ∷ ts) = omega (arith, busy_or_ended ts)
busy_or_ended (ended ∷ ts) = omega (arith, busy_or_ended ts)

spawn-one : (n : ℕ) → total one (spawn n) ≡ n
spawn-one zero = refl
spawn-one (suc n) = omega (arith, spawn-one n)

module _ (result : ℕ → ApiResponse) where
  abbrev panics_in : {q r : Queue} → Step result q r → ℕ
  panics_in (panics _ _ _ _) = 1
  panics_in _ = 0

  -- The jobs that have panicked on the way to a state.
  abbrev pub panicked : {m : ℕ} {q : Queue} → Reach result m q → ℕ
  panicked begin = 0
  panicked (later r s) = panicked r + panics_in s

  -- A step on one task, which keeps the number of tasks.
  Step-one : {q r : Queue} → Step result q r → total one r.tasks ≡ total one q.tasks
  Step-one (submit _) = refl
  Step-one (sends _ _ _ _) = refl
  Step-one (send_fails _ _ _ _ _) = refl
  Step-one (gives_up _ _ _ _) = refl
  Step-one {q} (receives before after job _ e _) =
      omega (arith, total-move one q.tasks before after receiving (received job) e)
  Step-one {q} (counts_down before after job e) =
      omega (arith, total-move one q.tasks before after (received job) (running job) e)
  Step-one {q} (returns before after job e) =
      omega
        (arith, total-move one q.tasks before after (running job) (responding job (result job)) e)
  Step-one {q} (panics before after job e) =
      omega (arith, total-move one q.tasks before after (running job) ended e)
  Step-one {q} (responds before after job a e) =
      omega (arith, total-move one q.tasks before after (responding job a) receiving e)

  Step-ended :
      {q r : Queue} (s : Step result q r)
      → total is_ended r.tasks ≡ total is_ended q.tasks + panics_in s
  Step-ended (submit _) = omega arith
  Step-ended (sends _ _ _ _) = omega arith
  Step-ended (send_fails _ _ _ _ _) = omega arith
  Step-ended (gives_up _ _ _ _) = omega arith
  Step-ended {q} (receives before after job _ e _) =
      omega (arith, total-move is_ended q.tasks before after receiving (received job) e)
  Step-ended {q} (counts_down before after job e) =
      omega (arith, total-move is_ended q.tasks before after (received job) (running job) e)
  Step-ended {q} (returns before after job e) = omega (
    arith,
    total-move is_ended q.tasks before after (running job) (responding job (result job)) e,
  )
  Step-ended {q} (panics before after job e) =
      omega (arith, total-move is_ended q.tasks before after (running job) ended e)
  Step-ended {q} (responds before after job a e) =
      omega (arith, total-move is_ended q.tasks before after (responding job a) receiving e)

  Reach-one : {m : ℕ} {q : Queue} → Reach result m q → total one q.tasks ≡ m
  Reach-one {m} begin = spawn-one m
  Reach-one (later r s) = omega (arith, Reach-one r, Step-one s)

  Reach-ended : {m : ℕ} {q : Queue} (r : Reach result m q) → total is_ended q.tasks ≡ panicked r
  Reach-ended {m} begin = total-spawn result is_ended m refl
  Reach-ended (later r s) = omega (arith, Reach-ended r, Step-ended s)

  -- In every reachable state, the jobs that are taken out and not answered, and the jobs that have
  -- panicked on the way, are together no more than the workers that were started: each panic costs
  -- the pool a worker for good.
  pub at_most_workers :
      (m : ℕ) (q : Queue) (r : Reach result m q) → total is_busy q.tasks + panicked r ≤ m
  at_most_workers m q r = omega (arith, busy_or_ended q.tasks, Reach-one r, Reach-ended r)
