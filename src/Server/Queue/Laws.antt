-- ===== src/Server/Queue/Laws.antt =====
-- server/src/queue.rs: the counter, the jobs and the workers, over every interleaving.
use sand_box_rust.Base.{
  ℕ, zero, suc, ◌+◌, ◌%◌, ◌≡◌, ◌∙◌, refl, ap, List, [], ◌∷◌, ◌++◌, ◌==◌, if◌then◌else◌, length,
  length-append, map, arith, count, count-append,
}
use sand_box_rust.Server.Handlers.{ApiResponse}
use sand_box_rust.Server.Queue.{
  Task, receiving, received, running, responding, ended, Answer, Queue, usize, fetch_add, fetch_sub,
  spawn, start, shut_down, unavailable, answer, Step, submit, sends, send_fails, gives_up, receives,
  counts_down, returns, panics, responds, Reach, begin, later,
}

-- A quantity of the tasks, added up.
abbrev pub total : (Task → ℕ) → List Task → ℕ
total f [] = 0
total f (t ∷ ts) = f t + total f ts

total-append : (f : Task → ℕ) (ts us : List Task) → total f (ts ++ us) ≡ total f ts + total f us
total-append f [] us = omega arith
total-append f (t ∷ ts) us = omega (arith, total-append f ts us)

-- 1 for a task that has taken a job out and not counted it down.
abbrev pub has_received : Task → ℕ
has_received (received _) = 1
has_received _ = 0

-- 1 for a task that has taken this job out and not answered it.
abbrev pub holds : ℕ → Task → ℕ
holds j receiving = 0
holds j (received i) = if i == j then 1 else 0
holds j (running i) = if i == j then 1 else 0
holds j (responding i _) = if i == j then 1 else 0
holds j ended = 0

-- The jobs that have been counted and not yet counted down.
abbrev pub outstanding : Queue → ℕ
outstanding q = length q.counted + length q.refused + length q.channel + total has_received q.tasks

-- Where one job is: before the channel, refused by it, in it, with a worker, or answered.
abbrev pub places : ℕ → Queue → ℕ
places j q =
    count j q.counted
    + count j q.refused
    + count j q.channel
    + total (holds j) q.tasks
    + count j (map (λ a. a.job) q.answers)

fetch_add_lem : (d n : ℕ) → d ≡ n % usize → fetch_add d ≡ (n + 1) % usize
unfolding fetch_add
fetch_add_lem d n h = omega arith

fetch_sub_lem : (d n : ℕ) → d ≡ (n + 1) % usize → fetch_sub d ≡ n % usize
unfolding fetch_sub
fetch_sub_lem d n h = omega arith

-- A task that moves changes a quantity by its own.
pub total-move :
    (f : Task → ℕ) (ts before after : List Task) (t u : Task)
    → ts ≡ before ++ t ∷ after
    → total f (before ++ u ∷ after) + f t ≡ total f ts + f u
total-move f ts before after t u e =
    omega
      (arith, ap (total f) e, total-append f before (t ∷ after), total-append f before (u ∷ after))

length-take_out :
    (xs left right : List ℕ) (x : ℕ)
    → xs ≡ left ++ x ∷ right
    → length xs ≡ length (left ++ right) + 1
length-take_out xs left right x e =
    omega (arith, ap length e, length-append left (x ∷ right), length-append left right)

count-take_out :
    (j : ℕ) (xs left right : List ℕ) (x : ℕ)
    → xs ≡ left ++ x ∷ right
    → count j xs ≡ count j (left ++ right) + (if x == j then 1 else 0)
count-take_out j xs left right x e =
    omega (arith, ap (count j) e, count-append j left (x ∷ right), count-append j left right)

module _ (result : ℕ → ApiResponse) where
  Step-depth :
      {q r : Queue}
      → Step result q r
      → q.queue_depth ≡ outstanding q % usize
      → r.queue_depth ≡ outstanding r % usize
  Step-depth {q} (submit job) d =
      fetch_add_lem q.queue_depth (outstanding q) d ∙ ap (λ x. x % usize) (omega arith)
  Step-depth {q} (sends left right job e) d =
      d
      ∙ ap (λ x. x % usize)
          (omega
            (arith, length-append q.channel (job ∷ []), length-take_out q.counted left right job e))
  Step-depth {q} (send_fails left right job e _) d =
      d ∙ ap (λ x. x % usize) (omega (arith, length-take_out q.counted left right job e))
  Step-depth {q} (gives_up left right job e) d =
      fetch_sub_lem q.queue_depth _
        (d ∙ ap (λ x. x % usize) (omega (arith, length-take_out q.refused left right job e)))
  Step-depth {q} (receives before after job rest e f) d =
      d
      ∙ ap (λ x. x % usize)
          (omega (
            arith,
            ap length f,
            total-move has_received q.tasks before after receiving (received job) e,
          ))
  Step-depth {q} (counts_down before after job e) d = fetch_sub_lem q.queue_depth _ (
      d
      ∙ ap (λ x. x % usize)
          (omega
            (arith, total-move has_received q.tasks before after (received job) (running job) e)))
  Step-depth {q} (returns before after job e) d =
      d
      ∙ ap (λ x. x % usize)
          (omega (
            arith,
            total-move has_received q.tasks before after (running job) (responding job (result job))
                e,
          ))
  Step-depth {q} (panics before after job e) d =
      d
      ∙ ap (λ x. x % usize)
          (omega (arith, total-move has_received q.tasks before after (running job) ended e))
  Step-depth {q} (responds before after job a e) d =
      d
      ∙ ap (λ x. x % usize)
          (omega
            (arith, total-move has_received q.tasks before after (responding job a) receiving e))

  pub total-spawn : (f : Task → ℕ) (n : ℕ) → f receiving ≡ 0 → total f (spawn n) ≡ 0
  total-spawn f zero e = refl
  total-spawn f (suc n) e = omega (arith, e, total-spawn f n e)

  Reach-depth : {m : ℕ} {q : Queue} → Reach result m q → q.queue_depth ≡ outstanding q % usize
  Reach-depth {m} begin =
      let e : 0 ≡ outstanding (start m) = omega (arith, total-spawn has_received m refl) in
      ap (λ x. x % usize) e
  Reach-depth (later r s) = Step-depth s (Reach-depth r)

  -- In every reachable state the counter is, modulo its width, the number of jobs that were counted
  -- and not yet counted down.
  pub depth_counts : (m : ℕ) (q : Queue) → Reach result m q → q.queue_depth ≡ outstanding q % usize
  depth_counts m q r = Reach-depth r

  count-answer :
      (j job : ℕ) (a : ApiResponse) (q : Queue)
      → count j (map (λ x. x.job) (answer job a q))
        ≡ count j (map (λ x. x.job) q.answers) + (if job == j then 1 else 0)
  count-answer j job a q = go q.answers
    where
      go :
          (bs : List Answer)
          → count j (map (λ x. x.job) (bs ++ record { job = job; response = a } ∷ []))
            ≡ count j (map (λ x. x.job) bs) + (if job == j then 1 else 0)
      go [] = omega arith
      go (b ∷ bs) = omega (arith, go bs)

  Step-places :
      {q r : Queue} (j : ℕ)
      → Step result q r
      → places j q ≡ count j q.submitted
      → places j r ≡ count j r.submitted
  Step-places {q} j (submit job) h = omega arith
  Step-places {q} j (sends left right job e) h =
      omega
        (arith, h, count-append j q.channel (job ∷ []), count-take_out j q.counted left right job e)
  Step-places {q} j (send_fails left right job e _) h =
      omega (arith, h, count-take_out j q.counted left right job e)
  Step-places {q} j (gives_up left right job e) h =
      omega
        (arith, h, count-take_out j q.refused left right job e, count-answer j job unavailable q)
  Step-places {q} j (receives before after job rest e f) h = omega (
    arith,
    h,
    ap (count j) f,
    total-move (holds j) q.tasks before after receiving (received job) e,
  )
  Step-places {q} j (counts_down before after job e) h =
      omega (arith, h, total-move (holds j) q.tasks before after (received job) (running job) e)
  Step-places {q} j (returns before after job e) h = omega (
    arith,
    h,
    total-move (holds j) q.tasks before after (running job) (responding job (result job)) e,
  )
  Step-places {q} j (panics before after job e) h = omega (
    arith,
    h,
    total-move (holds j) q.tasks before after (running job) ended e,
    count-answer j job shut_down q,
  )
  Step-places {q} j (responds before after job a e) h = omega (
    arith,
    h,
    total-move (holds j) q.tasks before after (responding job a) receiving e,
    count-answer j job a q,
  )

  Reach-places : {m : ℕ} {q : Queue} (j : ℕ) → Reach result m q → places j q ≡ count j q.submitted
  Reach-places {m} j begin = omega (arith, total-spawn (holds j) m refl)
  Reach-places j (later r s) = Step-places j s (Reach-places j r)

  -- In every reachable state, each submission stands in exactly one place: before the channel, in it,
  -- with a worker, refused because no worker is left, or answered. So none is lost before its call
  -- returns, and none is taken or answered twice.
  pub submissions_accounted :
      (m : ℕ) (q : Queue) → Reach result m q → (j : ℕ) → places j q ≡ count j q.submitted
  submissions_accounted m q r j = Reach-places j r
