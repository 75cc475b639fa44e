-- ===== src/Zygote/Start.antt =====
-- `ZygoteManager::new` and its `drop`, of server/src/services/zygote.rs, with the file descriptors and
-- the process that they leave. What the operating system answers is an argument.
pub mod Laws
pub mod Tests
use sand_box_rust.Base.{
  ℤ, pos, int_eq, ℕ, Bool, false, List, [], ◌∷◌, ◌++◌, Option, none, some, if◌then◌else◌, ◌==◌,
  codes, to_string,
}
use sand_box_rust.Server.Config.{ProxyConfig, proxy_env_vars}
use sand_box_rust.Server.Child.{path_var, lib_path}
use sand_box_rust.Zygote.Manager.{Manager, RunPayload, init}

-- `warm_modules.join(",")`
unfoldable pub join_comma : List (List ℕ) → List ℕ
join_comma [] = []
join_comma (x ∷ []) = x
join_comma (x ∷ (y ∷ xs)) = x ++ b',' ∷ join_comma (y ∷ xs)

-- The worker's process: its program, its arguments, the whole of its environment, and its directory.
pub record WorkerCommand : Type 0 where
  pub program : List ℕ
  pub args : List (List ℕ)
  pub env : List (List ℕ × List ℕ)
  pub current_dir : List ℕ

unfoldable pub worker_command :
    List ℕ → List ℕ → List ℕ → List (List ℕ) → ProxyConfig → Option (List ℕ) → ℕ → WorkerCommand
worker_command python_path lib_so lib_dir warm_modules proxy path worker_fd = record {
  program = python_path;
  args =
      codes "-B"
      ∷ codes "pool/zygote_worker.py"
      ∷ to_string worker_fd
      ∷ lib_so
      ∷ lib_dir
      ∷ join_comma warm_modules
      ∷ [];
  env = path_var path ++ proxy_env_vars proxy;
  current_dir = lib_path;
}

-- What the operating system answers, and the runtime's registration of the socket. `rc` and `fds` are
-- the result of libc's `socketpair` and what it has written.
pub record System : Type 0 where
  pub rc : ℤ
  pub fds : ℕ × ℕ
  pub spawns : WorkerCommand → Bool
  pub set_nonblocking : Bool
  pub from_std : Bool

unfoldable pub socketpair : ℤ → ℕ × ℕ → Option (ℕ × ℕ)
socketpair rc fds = if int_eq rc (pos 0) then some fds else none

pub data Child : Type 0 where
  not_started : Child
  alive : Child
  killed : Child
  reaped : Child

-- The descriptors that the server has open for a worker, oldest first, and the worker's process.
pub record Held : Type 0 where
  pub open_fds : List ℕ
  pub child : Child

pub data Failure : Type 0 where
  no_socketpair no_spawn no_nonblocking no_registration : Failure

-- `io::Result<ZygoteManager>`, with what is held when it returns. A value that is dropped on the way
-- closes its descriptor; a `Child` that is dropped does not end its process.
pub data Started : Type 0 where
  started : Manager → Held → Started
  failed : Failure → Held → Started

unfoldable pub close : ℕ → List ℕ → List ℕ
close fd [] = []
close fd (x ∷ xs) = if x == fd then xs else x ∷ close fd xs

module _ (to_json : RunPayload → List ℕ) (max_output : ℕ) where
  -- After the process has been spawned.
  unfoldable pub attach : System → ℕ → ℕ → Started
  attach os server_fd worker_fd =
      let fds = close worker_fd (server_fd ∷ worker_fd ∷ []) in
      if os.set_nonblocking
      then (if os.from_std
          then started (init to_json max_output) (record { open_fds = fds; child = alive })
          else failed no_registration (record { open_fds = close server_fd fds; child = alive }))
      else failed no_nonblocking (record { open_fds = close server_fd fds; child = alive })

  unfoldable pub new :
      System → List ℕ → List ℕ → List ℕ → List (List ℕ) → ProxyConfig → Option (List ℕ) → Started
  new os python_path lib_so lib_dir warm_modules proxy path = elim (socketpair os.rc os.fds) [
    | none ↦ failed no_socketpair (record { open_fds = []; child = not_started })
    | some (server_fd, worker_fd) ↦
        if os.spawns (worker_command python_path lib_so lib_dir warm_modules proxy path worker_fd)
        then attach os server_fd worker_fd
        else failed no_spawn (record { open_fds = server_fd ∷ worker_fd ∷ []; child = not_started })
  ]

-- `Drop::drop`, and the drop of the two halves of the stream, which closes its one descriptor. `kills`
-- and `waits` are the results of the two calls on the child; a failed one is logged only.
unfoldable pub drop_manager : Bool → Bool → Manager → Held → Manager × Held
drop_manager kills waits m h = (
  record m { world = record m.world { running = false }; reading = false },
  record { open_fds = []; child = if waits then reaped else if kills then killed else h.child },
)
