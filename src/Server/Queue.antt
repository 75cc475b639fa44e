-- ===== src/Server/Queue.antt =====
-- `QueueController` of server/src/queue.rs: submitters and workers on one channel, interleaved at every
-- access to the channel and to the counter. The channel is async_channel's unbounded one: a list from
-- which each message is received once, in the order of sending, and whose receiver never fails, since
-- the controller's sender lives as long as the server. Its other end is closed once every worker has
-- ended.
pub mod Laws
pub mod Results
pub mod Workers
use sand_box_rust.Base.{ℕ, zero, suc, ◌+◌, ◌-◌, ◌%◌, ◌^◌, ◌≡◌, List, [], ◌∷◌, ◌++◌, All, pos, codes}
use sand_box_rust.Server.Handlers.{ApiResponse, error}

-- `queue_depth` is an `AtomicUsize`, which wraps.
abbrev pub usize : ℕ
usize = 2 ^ 64

-- Where a worker's task stands in its loop: waiting in `recv`, before the `fetch_sub`, in the job, and
-- before `respond.send`. A job that panics ends the task.
pub data Task : Type 0 where
  receiving : Task
  received : ℕ → Task
  running : ℕ → Task
  responding : ℕ → ApiResponse → Task
  ended : Task

-- What a call of `submit` returns, with the number of the call.
pub record Answer : Type 0 where
  pub job : ℕ
  pub response : ApiResponse

-- A job is named by its submission. `counted` are the submitters between `fetch_add` and `try_send`,
-- `refused` those whose `try_send` failed, before their `fetch_sub`. `submitted` and `answers` record
-- the calls of `submit` that have begun and that have returned.
pub record Queue : Type 0 where
  pub queue_depth : ℕ
  pub workers : ℕ
  pub tasks : List Task
  pub channel : List ℕ
  pub counted : List ℕ
  pub refused : List ℕ
  pub submitted : List ℕ
  pub answers : List Answer

unfoldable pub fetch_add : ℕ → ℕ
fetch_add depth = (depth + 1) % usize

unfoldable pub fetch_sub : ℕ → ℕ
fetch_sub depth = (depth + (usize - 1)) % usize

-- `for worker_id in 0..max_workers`
abbrev pub spawn : ℕ → List Task
spawn zero = []
spawn (suc n) = receiving ∷ spawn n

-- `QueueController::start`
abbrev pub start : ℕ → Queue
start max_workers = record {
  queue_depth = 0;
  workers = max_workers;
  tasks = spawn max_workers;
  channel = [];
  counted = [];
  refused = [];
  submitted = [];
  answers = [];
}

unfoldable pub shut_down : ApiResponse
shut_down = error (pos 500) (codes "worker shut down")

unfoldable pub unavailable : ApiResponse
unavailable = error (pos 500) (codes "worker pool unavailable")

abbrev pub answer : ℕ → ApiResponse → Queue → List Answer
answer job response q = q.answers ++ record { job = job; response = response } ∷ []

-- `result` is what a job's future returns, unless it panics.
module _ (result : ℕ → ApiResponse) where
  pub data Step (q : Queue) : Queue → Type 0 where
    submit :
        (job : ℕ)
        → Step q (record q {
          queue_depth = fetch_add q.queue_depth;
          counted = job ∷ q.counted;
          submitted = job ∷ q.submitted;
        })
    sends :
        (left right : List ℕ) (job : ℕ)
        → q.counted ≡ left ++ job ∷ right
        → Step q (record q { counted = left ++ right; channel = q.channel ++ job ∷ [] })
    send_fails :
        (left right : List ℕ) (job : ℕ)
        → q.counted ≡ left ++ job ∷ right
        → All (λ t. t ≡ ended) q.tasks
        → Step q (record q { counted = left ++ right; refused = job ∷ q.refused })
    gives_up :
        (left right : List ℕ) (job : ℕ)
        → q.refused ≡ left ++ job ∷ right
        → Step q (record q {
          queue_depth = fetch_sub q.queue_depth;
          refused = left ++ right;
          answers = answer job unavailable q;
        })
    receives :
        (before after : List Task) (job : ℕ) (rest : List ℕ)
        → q.tasks ≡ before ++ receiving ∷ after
        → q.channel ≡ job ∷ rest
        → Step q (record q { tasks = before ++ received job ∷ after; channel = rest })
    counts_down :
        (before after : List Task) (job : ℕ)
        → q.tasks ≡ before ++ received job ∷ after
        → Step q (record q {
          queue_depth = fetch_sub q.queue_depth;
          tasks = before ++ running job ∷ after;
        })
    returns :
        (before after : List Task) (job : ℕ)
        → q.tasks ≡ before ++ running job ∷ after
        → Step q (record q { tasks = before ++ responding job (result job) ∷ after })
    panics :
        (before after : List Task) (job : ℕ)
        → q.tasks ≡ before ++ running job ∷ after
        → Step q (record q { tasks = before ++ ended ∷ after; answers = answer job shut_down q })
    responds :
        (before after : List Task) (job : ℕ) (response : ApiResponse)
        → q.tasks ≡ before ++ responding job response ∷ after
        → Step q (record q { tasks = before ++ receiving ∷ after; answers = answer job response q })

  pub data Reach (max_workers : ℕ) : Queue → Type 0 where
    begin : Reach max_workers (start max_workers)
    later : {q r : Queue} → Reach max_workers q → Step q r → Reach max_workers r
