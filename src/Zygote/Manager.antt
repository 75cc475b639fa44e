-- ===== src/Zygote/Manager.antt =====
-- `ZygoteManager` of server/src/services/zygote.rs: the calls of `run`, the reader task and `stop`,
-- interleaved at every point where another task can run. A write of a frame, under the lock of the
-- socket's write half, is the step at which it completes: the wait for the lock, and for a worker that
-- does not read, has no bound in the code and is not a step, so that nothing here says that a call ends.
-- The reader's MSG_KILL, the last that it does for a frame, is part of its step on that frame.
pub mod Shrinks
pub mod Invariant
pub mod Safety
pub mod Answer
pub mod Returned
pub mod Tests
use sand_box_rust.Base.{
  ℕ, ◌+◌, ◌%◌, ◌^◌, ◌≡◌, Bool, true, false, List, [], ◌∷◌, ◌++◌, Option, none, some, ◌==◌,
  if◌then◌else◌, codes, neg,
}
use sand_box_rust.Wire.{msg_run, msg_kill, encode_frame}
use sand_box_rust.Zygote.Pending.{Reply, World, insert, remove}
use sand_box_rust.Zygote.Reader.{deliver, connection_lost, fail_pending}

-- The limits that go with each request, as the worker reads them.
pub record SandboxLimits : Type 0 where
  pub uid : ℕ
  pub gid : ℕ
  pub net : Bool
  pub max_as : ℕ
  pub timeout : ℕ
  pub privilege : Bool
  pub allowed_paths : List (List ℕ)

-- The JSON object of a MSG_RUN frame: every field but the time limit.
pub record RunPayload : Type 0 where
  pub code : List ℕ
  pub key : List ℕ
  pub limits : SandboxLimits

-- Where a call of `run` stands.
pub data Phase : Type 0 where
  idle : Phase
  checked : Phase
  inserted : ℕ → Phase
  waiting : ℕ → Phase
  timed_out : ℕ → Phase
  leaving : ℕ → Reply → Phase
  returned : Reply → Phase

-- A call is named by its oneshot channel.
pub record Manager : Type 0 where
  pub world : World
  pub next_id : ℕ
  pub reading : Bool
  pub calls : ℕ → Phase

abbrev pub update : (ℕ → Phase) → ℕ → Phase → ℕ → Phase
update f c p d = if c == d then p else f d

abbrev pub failure : List ℕ → Reply
failure msg = record { stdout = []; stderr = msg; exit_code = neg 1 }

-- `pending.insert(req_id, Pending { out: Vec::new(), err: Vec::new(), tx: Some(tx) })`, after
-- `next_id.fetch_add(1)`, which wraps.
unfoldable pub begin : ℕ → Manager → Manager
begin c m = record m {
  world = record m.world {
    pending = insert m.next_id (record { out = []; err = []; tx = some c }) m.world.pending;
  };
  next_id = (m.next_id + 1) % 2 ^ 32;
  calls = update m.calls c (inserted m.next_id);
}

unfoldable pub write : List ℕ → World → World
write frame w = record w { written = w.written ++ frame ∷ [] }

-- `pending.remove(&req_id)`, the last thing that a call does.
unfoldable pub leave : ℕ → ℕ → Reply → Manager → Manager
leave c k r m = record m {
  world = record m.world { pending = remove k m.world.pending };
  calls = update m.calls c (returned r);
}

-- `stop`, whose `_fail_pending` runs after the reader was aborted.
unfoldable pub stop : Manager → Manager
stop m = record m {
  world = fail_pending (codes "zygote stopped") (record m.world { running = false });
  reading = false;
}

-- The value that the receiver of a oneshot channel gets: the first that was sent on it.
abbrev pub received : ℕ → List (ℕ × Reply) → Option Reply
received c [] = none
received c ((d, r) ∷ rs) = if d == c then some r else received c rs

-- `to_json` stands for `serde_json`, and `max_output` is the reader's cap.
module _ (to_json : RunPayload → List ℕ) (max_output : ℕ) where
  pub data Step (m : Manager) : Manager → Type 0 where
    refuse :
        (c : ℕ)
        → m.calls c ≡ idle
        → m.world.running ≡ false
        → Step m (record m {
          calls = update m.calls c (returned (failure (codes "zygote worker not running")));
        })
    check :
        (c : ℕ)
        → m.calls c ≡ idle
        → m.world.running ≡ true
        → Step m (record m { calls = update m.calls c checked })
    begins : (c : ℕ) → m.calls c ≡ checked → Step m (begin c m)
    write_run :
        (c k : ℕ) (p : RunPayload)
        → m.calls c ≡ inserted k
        → Step m (record m {
          world = write (encode_frame msg_run k (to_json p)) m.world;
          calls = update m.calls c (waiting k);
        })
    write_fails :
        (c k : ℕ)
        → m.calls c ≡ inserted k
        → Step m (record m {
          calls = update m.calls c (leaving k (failure (codes "zygote write failed")));
        })
    receive :
        (c k : ℕ) (r : Reply)
        → m.calls c ≡ waiting k
        → received c m.world.replies ≡ some r
        → Step m (record m { calls = update m.calls c (leaving k r) })
    time_out :
        (c k : ℕ)
        → m.calls c ≡ waiting k
        → Step m (record m { calls = update m.calls c (timed_out k) })
    write_kill :
        (c k : ℕ)
        → m.calls c ≡ timed_out k
        → Step m (record m {
          world = write (encode_frame msg_kill k []) m.world;
          calls = update m.calls c (leaving k (failure (codes "Execution timeout")));
        })
    leaves : (c k : ℕ) (r : Reply) → m.calls c ≡ leaving k r → Step m (leave c k r m)
    read_frame :
        (mtype req_id : ℕ) (payload : List ℕ)
        → m.reading ≡ true
        → Step m (record m { world = deliver max_output mtype req_id payload m.world })
    read_ends :
        m.reading ≡ true → Step m (record m { world = connection_lost m.world; reading = false })
    stops : Step m (stop m)

  -- `ZygoteManager::new`
  abbrev pub init : Manager
  init = record {
    world = record { pending = []; running = true; replies = []; written = [] };
    next_id = 1;
    reading = true;
    calls = λ _. idle;
  }

  pub data Reach : Manager → Type 0 where
    start : Reach init
    later : {m n : Manager} → Reach m → Step m n → Reach n
