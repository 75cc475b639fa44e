-- ===== src/Server/Queue/Results.antt =====
-- server/src/queue.rs: what the calls of `submit` return, over every interleaving.
use sand_box_rust.Base.{ℕ, ◌≡◌, ◌⊎◌, All}
use sand_box_rust.Server.Handlers.{ApiResponse}
use sand_box_rust.Server.Queue.{Task, responding, Answer, Queue, shut_down, unavailable}

module _ (result : ℕ → ApiResponse) where
  -- A worker that is about to respond has its job's result.
  abbrev pub HasResult : Task → Type 0
  HasResult (responding job a) = a ≡ result job
  HasResult _ = Unit

  -- What a call may be answered with.
  abbrev pub IsAnswer : Answer → Type 0
  IsAnswer a = (a.response ≡ result a.job) ⊎ ((a.response ≡ shut_down) ⊎ (a.response ≡ unavailable))

  abbrev IsResponsive : Queue → Type 0
  IsResponsive q = All HasResult q.tasks × All IsAnswer q.answers
