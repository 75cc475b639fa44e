-- ===== src/Server/Startup.antt =====
-- `main` of server/src/main.rs, up to the point where it serves. What the operating system, the TOML
-- reader and pip answer are arguments.
use sand_box_rust.Base.{
  ℕ, ◌≡◌, ◌⊎◌, Bool, true, false, List, [], ◌++◌, map, Option, none, some, if◌then◌else◌, codes,
}
use sand_box_rust.Server.Child.{lib_path}
use sand_box_rust.Server.Config.{Config, Env, override}
use sand_box_rust.Server.Config.Load.{Document, load}
use sand_box_rust.Server.Dependencies.{install_commands}
use sand_box_rust.Server.Jail.{env_command, prepare_environment, existing}
use sand_box_rust.Server.Process.{ProcessEnd, ProcessCommand}
use sand_box_rust.Server.Queue.{Queue}
use sand_box_rust.Server.Queue
use sand_box_rust.Zygote.Manager.{Manager, RunPayload, init}
use sand_box_rust.Zygote.Start.{System, Started, started, failed, new, Held, Failure}

-- What `main` has set up: the queue, the processes started one after another, and `ZYGOTE`.
pub record Boot : Type 0 where
  pub config : Config
  pub queue : Queue
  pub processes : List ProcessCommand
  pub zygote : Option Manager

-- A panic where the configuration does not load, an error where the port cannot be bound.
pub data Main : Type 0 where
  panics : Main
  bind_fails : Boot → Main
  serves : Boot → Main

-- What surrounds the server.
pub record Machine : Type 0 where
  pub read : List ℕ → Option (List ℕ)
  pub toml : List ℕ → Option Document
  pub env : Env
  pub requirements : Option (List ℕ)
  pub exists : List ℕ → Bool
  pub bash : ProcessCommand → ProcessEnd
  pub os : System
  pub binds : ℕ → Bool

abbrev pub config_path : Env → List ℕ
config_path env = override (env (codes "CONFIG_PATH")) (codes "runtime/config.toml")

-- A failed start of the worker is logged only.
abbrev pub worker_of : Started → Option Manager
worker_of (started m h) = some m
worker_of (failed e h) = none

module _ (to_json : RunPayload → List ℕ) (max_output : ℕ) where
  abbrev pub start_worker : Machine → Config → Started
  start_worker w c =
      new to_json max_output w.os c.python_path (codes "./libpython.so") lib_path
        c.python_zygote_preload_modules c.proxy (w.env (codes "PATH"))

  unfoldable pub start_processes : Machine → Config → List ProcessCommand
  start_processes w c =
      if c.privilege
      then install_commands c w.requirements ++ (prepare_environment w.exists w.bash c).commands
      else []

  unfoldable pub set_up : Machine → Config → Boot
  set_up w c = record {
    config = c;
    queue = Queue.start c.max_workers;
    processes = start_processes w c;
    zygote = if c.python_zygote then worker_of (start_worker w c) else none;
  }

  unfoldable pub main : Machine → Main
  main w = elim (load w.read w.toml w.env (config_path w.env)) [
    | none ↦ panics
    | some c ↦ if w.binds c.app.port then serves (set_up w c) else bind_fails (set_up w c)
  ]

  -- There is a worker, in its first state, exactly where the start came to one.
  abbrev pub IsWorkerOf : Started → Option Manager → Type 0
  IsWorkerOf s zygote =
      ((h : Held) × ((s ≡ started (init to_json max_output) h)
          × (zygote ≡ some (init to_json max_output))))
      ⊎ ((e : Failure) × ((h : Held) × ((s ≡ failed e h) × (zygote ≡ none))))

  -- What holds of a server that is set up for a configuration.
  abbrev pub IsSetUp : Machine → Config → Boot → Type 0
  IsSetUp w c b =
      (b.queue ≡ Queue.start c.max_workers)
      × ((((c.privilege ≡ false) × (b.processes ≡ []))
            ⊎ ((c.privilege ≡ true)
                × (b.processes
                    ≡ install_commands c w.requirements
                      ++ map env_command
                          (existing w.exists (c.python_lib_paths ++ c.nodejs_lib_paths)))))
          × (((c.python_zygote ≡ false) × (b.zygote ≡ none))
              ⊎ ((c.python_zygote ≡ true) × IsWorkerOf (start_worker w c) b.zygote)))
