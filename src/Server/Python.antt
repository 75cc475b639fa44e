-- ===== src/Server/Python.antt =====
-- `run` of server/src/services/python.rs: the choice between the worker and a fresh interpreter, the
-- limits that either gets, and the result of a fresh interpreter. The script's template and the
-- encryption of the code are not part of the model.
pub mod Laws
pub mod Script
use sand_box_rust.Base.{
  ℕ, Bool, true, false, ◌&&◌, List, [], ◌∷◌, ◌++◌, Option, none, some, if◌then◌else◌, codes,
}
use sand_box_rust.Server.Child.{ChildEnd, child_result}
use sand_box_rust.Server.Config.{Config, proxy_env_vars}
use sand_box_rust.Server.Handlers.{RunResult, ok, err, RunCodeRequest, is_empty}
use sand_box_rust.Zygote.Manager.{SandboxLimits}
use sand_box_rust.Zygote.Pending.{Reply}

abbrev pub system_paths : List (List ℕ)
system_paths =
    codes "/etc/ssl/certs"
    ∷ codes "/etc/hosts"
    ∷ codes "/etc/resolv.conf"
    ∷ codes "/etc/nsswitch.conf"
    ∷ codes "/etc/localtime"
    ∷ []

-- The paths of the worker's request; none in privileged mode, where they are not read.
unfoldable pub worker_paths : Config → List (List ℕ)
worker_paths c =
    if c.privilege then [] else c.python_lib_paths ++ (c.nodejs_lib_paths ++ system_paths)

-- The paths of `build_script`.
unfoldable pub script_paths : Config → List (List ℕ)
script_paths c =
    if c.privilege
    then []
    else c.python_lib_paths
      ++ (c.nodejs_lib_paths ++ (system_paths ++ codes "/usr/share/zoneinfo" ∷ []))

unfoldable pub worker_limits : Config → RunCodeRequest → SandboxLimits
worker_limits c req = record {
  uid = c.sandbox_uid;
  gid = c.sandbox_gid;
  net = req.enable_network && c.enable_network;
  max_as = c.python_max_as_bytes;
  timeout = c.worker_timeout;
  privilege = c.privilege;
  allowed_paths = worker_paths c;
}

-- The values that `build_script` puts into the template, apart from the code, and the time limit that
-- `run` puts on the child.
unfoldable pub script_limits : Config → RunCodeRequest → SandboxLimits
script_limits c req = record {
  uid = c.sandbox_uid;
  gid = c.sandbox_gid;
  net = req.enable_network && c.enable_network;
  max_as = c.python_max_as_bytes;
  timeout = c.worker_timeout;
  privilege = c.privilege;
  allowed_paths = script_paths c;
}

abbrev pub checked_preload : Config → RunCodeRequest → List ℕ
checked_preload c req = if c.enable_preload then req.preload else []

-- `get_zygote` and `is_running`.
pub data Worker : Type 0 where
  absent : Worker
  dead : Worker
  alive : Worker

-- Where the decoded code is run: in the worker, or in a fresh interpreter with its preload, the proxy
-- variables, and whether a restart was requested.
pub data Launch : Type 0 where
  in_worker : List ℕ → SandboxLimits → Launch
  in_fresh : List ℕ → List ℕ → SandboxLimits → List (List ℕ × List ℕ) → Bool → Launch

abbrev pub launch_fresh : Config → RunCodeRequest → List ℕ → Bool → Launch
launch_fresh c req code restart =
    in_fresh code (checked_preload c req) (script_limits c req) (proxy_env_vars c.proxy) restart

unfoldable pub launch : Config → RunCodeRequest → List ℕ → Worker → Launch
launch c req code worker =
    if c.python_zygote && is_empty (checked_preload c req)
    then elim worker [
      | alive ↦ in_worker code (worker_limits c req)
      | dead ↦ launch_fresh c req code true
      | absent ↦ launch_fresh c req code false
    ]
    else launch_fresh c req code false

unfoldable pub worker_result : Reply → RunResult
worker_result r = ok (record { stdout = r.stdout; stderr = r.stderr; exit_code = r.exit_code })

-- `in_zygote` is what the worker answers and `child` how a fresh interpreter ends.
abbrev pub launched : (Launch → Reply) → (Launch → ChildEnd) → Launch → RunResult
launched in_zygote child (in_worker code limits) = worker_result (in_zygote (in_worker code limits))
launched in_zygote child (in_fresh code preload limits vars restart) =
    child_result (codes "python") (child (in_fresh code preload limits vars restart))

-- `decode` is the base64 crate's standard engine, with the text of its error.
module _ (decode : List ℕ → Option (List ℕ)) (decode_error : List ℕ → List ℕ) where
  unfoldable pub run :
      (Launch → Reply) → (Launch → ChildEnd) → Config → Worker → RunCodeRequest → RunResult
  run in_zygote child c worker req = elim (decode req.code) [
    | none ↦ err (codes "base64 decode: " ++ decode_error req.code)
    | some code ↦ launched in_zygote child (launch c req code worker)
  ]
