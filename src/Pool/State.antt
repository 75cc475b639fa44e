-- ===== src/Pool/State.antt =====
-- The state of the worker of runtime/pool/zygote_worker.py, and what the operating system answers it.
use sand_box_rust.Base.{ℕ, Bool, List, [], Option, none, if◌then◌else◌, ◌==◌, ℤ}
use sand_box_rust.Zygote.Reader.Frames.{Frame}

-- `_ReqInfo`; `out` and `err`, which the loop does not use, are left out.
pub record ReqInfo : Type 0 where
  pub pid : ℕ
  pub open_fds : List ℕ

abbrev pub Requests : Type 0
Requests = ℕ → Option ReqInfo

-- By the descriptor of a pipe: the request, and the type of the messages for what is read from it.
abbrev pub FdMap : Type 0
FdMap = ℕ → Option (ℕ × ℕ)

abbrev pub update {ℓ} : {A : Type ℓ} → (ℕ → Option A) → ℕ → Option A → ℕ → Option A
update m k v j = if k == j then v else m j

-- A call about a child: `os.fork` for a request, `os.kill` with SIGKILL, and a `waitpid` that reaps it.
pub data Call : Type 0 where
  fork : (req_id pid : ℕ) → Call
  kill : ℕ → Call
  reap : ℕ → Call

-- The state of a `Zygote`; `sent`, `emitted`, `started` and `log` record what it has done: the bytes
-- that the socket took, the frames given to `_send`, the requests whose child was forked and the
-- calls about children. `calls` numbers the calls to the operating system.
pub record Worker : Type 0 where
  pub recv_buf : List ℕ
  pub out : List ℕ
  pub reqs : Requests
  pub fd_map : FdMap
  pub sent : List ℕ
  pub emitted : List Frame
  pub started : List ℕ
  pub log : List Call
  pub calls : ℕ

abbrev pub init : Worker
init = record {
  recv_buf = [];
  out = [];
  reqs = λ k. none;
  fd_map = λ fd. none;
  sent = [];
  emitted = [];
  started = [];
  log = [];
  calls = 0;
}

-- `os.pipe` twice and `os.fork`: the child and the ends to read from, or an exception, after which
-- every descriptor is closed again.
pub data Forked : Type 0 where
  forked : (pid out_r err_r : ℕ) → Forked
  raised : Forked

-- One `send` on the socket: how many bytes it took, or a broken connection.
pub data Sent : Type 0 where
  took : ℕ → Sent
  broken : Sent

-- `waitpid(pid, WNOHANG)`: no such child, one that has exited, or one that runs; and then what
-- `waitpid(pid, 0)` gives once it is killed.
pub data Waited : Type 0 where
  gone : Waited
  zombie : ℤ → Waited
  alive : Option ℤ → Waited

-- `run_child` knows the descriptors in use; the answers to `send` end with BlockingIOError.
pub record Os : Type 0 where
  pub loads : List ℕ → Bool
  pub run_child : ℕ → FdMap → Forked
  pub send_some : ℕ → List Sent
  pub wait : ℕ → ℕ → Waited

-- A handler leaves the worker running, or it ends the process (`os._exit`).
pub data Outcome : Type 0 where
  running : Worker → Outcome
  exited : ℕ → Worker → Outcome

abbrev pub and_then : Outcome → (Worker → Outcome) → Outcome
and_then (running w) f = f w
and_then (exited code w) f = exited code w
