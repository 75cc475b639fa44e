-- ===== src/Server/NodeJs/Run.antt =====
-- `run` of server/src/services/nodejs.rs. The base64 engine with the text of its error, and how the
-- child ends, are arguments.
pub mod Laws
use sand_box_rust.Base.{
  ℕ, Bool, true, false, ◌&&◌, List, [], ◌∷◌, ◌++◌, Option, none, some, if◌then◌else◌, codes,
  to_string,
}
use sand_box_rust.Server.Config.{Config, proxy_env_vars}
use sand_box_rust.Server.Handlers.{RunResult, err, RunCodeRequest}
use sand_box_rust.Server.Child.{Command, lib_path, path_var, ChildEnd, child_result}
use sand_box_rust.Server.Template.{render}
use sand_box_rust.Server.NodeJs.{build_script, validate_base64}
use sand_box_rust.Server.NodeJs.Prescript.{prescript}

abbrev pub show_bool : Bool → List ℕ
show_bool true = codes "true"
show_bool false = codes "false"

unfoldable pub opts_json : Bool → ℕ → Bool → List ℕ
opts_json enable_network max_as privilege =
    codes "{\"enable_network\":"
    ++ (show_bool enable_network
        ++ (codes ",\"max_as\":"
            ++ (to_string max_as
                ++ (codes ",\"privilege\":" ++ (show_bool privilege ++ codes "}")))))

-- The process for validated code; `path` is the server's own PATH.
unfoldable pub command : Config → Option (List ℕ) → RunCodeRequest → List ℕ → Command
command c path req canonical = record {
  program = c.nodejs_path;
  args =
      (codes "--max-old-space-size=" ++ to_string c.nodejs_max_old_space_mb)
      ∷ codes "--jitless"
      ∷ codes "--no-expose_wasm"
      ∷ codes "--disable-proto=throw"
      ∷ codes "-"
      ∷ lib_path
      ∷ to_string c.sandbox_uid
      ∷ to_string c.sandbox_gid
      ∷ opts_json (req.enable_network && c.enable_network) c.nodejs_max_as_bytes c.privilege
      ∷ [];
  env =
      path_var path
      ++ ((codes "UV_USE_IO_URING", codes "0")
          ∷ (codes "NODE_PATH", lib_path ++ codes "/node_modules")
          ∷ proxy_env_vars c.proxy);
  stdin = build_script (render prescript) canonical (if c.enable_preload then req.preload else []);
  timeout = c.worker_timeout;
}

module _ (decode : List ℕ → Option (List ℕ)) (encode decode_error : List ℕ → List ℕ) where
  unfoldable pub run : (Command → ChildEnd) → Config → Option (List ℕ) → RunCodeRequest → RunResult
  run child c path req = elim (validate_base64 decode encode req.code) [
    | none ↦ err (codes "invalid base64 code: " ++ decode_error req.code)
    | some canonical ↦ child_result (codes "nodejs") (child (command c path req canonical))
  ]
