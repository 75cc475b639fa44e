-- ===== src/Server/Python/Script/Fresh.antt =====
-- The process of a fresh interpreter of server/src/services/python.rs, against the limits that the
-- runner chose for it.
use sand_box_rust.Base.{
  ℕ, ◌≡◌, refl, ap, ◌∙◌, Bool, true, false, List, [], ◌∷◌, ◌++◌, Option, some, if◌then◌else◌,
  if-cases, codes, to_string, Bool-cases, inl, inr, ◌&&◌,
}
use mathlib.Core.Option
use sand_box_rust.Server.Child.{Command, lib_path, path_var}
use sand_box_rust.Server.Config.{Config, proxy_env_vars}
use sand_box_rust.Server.Crypto.{xor_from}
use sand_box_rust.Server.Handlers.{RunCodeRequest, is_empty}
use sand_box_rust.Server.Template.{Place, Piece, text, place, render, fill, no_mark}
use sand_box_rust.Server.Template.Laws.{IsPlain}
use sand_box_rust.Server.Python.{
  Worker, alive, dead, absent, Launch, in_worker, in_fresh, launch, launch_fresh, script_limits,
  checked_preload,
}
use sand_box_rust.Server.Python.Script.{bit, allowed_paths_json, preload_line, fresh_command, value}
use sand_box_rust.Server.Python.Script.Laws.{build_script-fill}
use sand_box_rust.Zygote.Manager.{SandboxLimits}

-- Values that agree at every place fill a template alike.
fill_same :
    (v w : Place → List ℕ) (xs : List Piece) → ((p : Place) → v p ≡ w p) → fill v xs ≡ fill w xs
fill_same v w [] h = refl
fill_same v w (text s ∷ xs) h = ap (◌++◌ s) (fill_same v w xs h)
fill_same v w (place p ∷ xs) h = rw (h p, fill_same v w xs h) refl

-- A preload that has been checked is not changed by a second check.
preload_line-checked_preload :
    (c : Config) (req : RunCodeRequest)
    → preload_line c (checked_preload c req) ≡ checked_preload c req ++ 10 ∷ []
preload_line-checked_preload c req = elim (Bool-cases c.enable_preload) [
  | inl on ↦ rw on refl
  | inr off ↦ rw off refl
]

-- Every launch is one in the worker or one of a fresh interpreter.
launch_cases :
    (c : Config) (req : RunCodeRequest) (code : List ℕ) (worker : Worker) (P : Launch → Type 0)
    → ((limits : SandboxLimits) → P (in_worker code limits))
    → ((restart : Bool) → P (launch_fresh c req code restart))
    → P (launch c req code worker)
unfolding launch
launch_cases c req code alive P slot fresh =
    if-cases P (c.python_zygote && is_empty (checked_preload c req)) _ _ (λ _. slot _)
      (λ _. fresh false)
launch_cases c req code dead P slot fresh =
    if-cases P (c.python_zygote && is_empty (checked_preload c req)) _ _ (λ _. fresh true)
      (λ _. fresh false)
launch_cases c req code absent P slot fresh =
    if-cases P (c.python_zygote && is_empty (checked_preload c req)) _ _ (λ _. fresh false)
      (λ _. fresh false)

module _ (encode : List ℕ → List ℕ) (to_json : List (List ℕ) → List ℕ) where
  -- What each place stands for under some limits.
  abbrev pub granted : SandboxLimits → List ℕ → List ℕ → List ℕ → Place → List ℕ
  granted l code preload key Place.uid = to_string l.uid
  granted l code preload key Place.gid = to_string l.gid
  granted l code preload key Place.enable_network = bit l.net
  granted l code preload key Place.max_as = to_string l.max_as
  granted l code preload key Place.privilege = bit l.privilege
  granted l code preload key Place.allowed_paths =
      if l.privilege then codes "[]" else to_json l.allowed_paths
  granted l code preload key Place.preload = preload ++ 10 ∷ []
  granted l code preload key Place.code = encode (xor_from 0 code key)

  value-granted :
      (c : Config) (code key : List ℕ) (req : RunCodeRequest) (p : Place)
      → value encode to_json c code (checked_preload c req) req key p
        ≡ granted (script_limits c req) code (checked_preload c req) key p
  unfolding script_limits
  value-granted c code key req Place.uid = refl
  value-granted c code key req Place.gid = refl
  value-granted c code key req Place.enable_network = refl
  value-granted c code key req Place.max_as = refl
  value-granted c code key req Place.privilege = refl
  value-granted c code key req Place.allowed_paths = refl
  value-granted c code key req Place.preload = preload_line-checked_preload c req
  value-granted c code key req Place.code = refl

  -- What is started for a launch: the script has the launch's own limits, preload and code in its
  -- places, and the process the launch's variables and time limit.
  abbrev pub Starts :
      Config → Option (List ℕ) → List ℕ → List Piece → Launch → Option Command → Type 0
  Starts c path key xs (in_worker code limits) command = Unit
  Starts c path key xs (in_fresh code preload limits vars restart) command =
      command
      ≡ some (record {
        program = c.python_path;
        args = codes "-B" ∷ codes "-" ∷ lib_path ∷ encode key ∷ [];
        env = path_var path ++ vars;
        stdin = fill (granted limits code preload key) xs;
        timeout = limits.timeout;
      })

  fresh_command-Starts :
      (c : Config) (path : Option (List ℕ)) (code : List ℕ) (k : ℕ) (ks : List ℕ)
      (req : RunCodeRequest) (xs : List Piece) (restart : Bool)
      → IsPlain xs
      → no_mark (allowed_paths_json encode to_json c req) ≡ true
      → no_mark (checked_preload c req ++ 10 ∷ []) ≡ true
      → Starts c path (k ∷ ks) xs (launch_fresh c req code restart) (
          fresh_command encode to_json (render xs) c path code (checked_preload c req) req (k ∷ ks))
  unfolding fresh_command script_limits
  fresh_command-Starts c path code k ks req xs restart h hj hp =
      let preload = checked_preload c req in
      let process : List ℕ × List ℕ → Command = λ built. record {
        program = c.python_path;
        args = codes "-B" ∷ codes "-" ∷ lib_path ∷ built.1 ∷ [];
        env = path_var path ++ proxy_env_vars c.proxy;
        stdin = built.0;
        timeout = c.worker_timeout;
      } in
      ap (Option.map process) (
        build_script-fill encode to_json c code preload k ks req xs h hj
          (ap no_mark (preload_line-checked_preload c req) ∙ hp))
      ∙ ap (λ s. some (process (s, encode (k ∷ ks))))
          (fill_same _ _ xs (value-granted c code (k ∷ ks) req))

  -- Under the conditions on the template, the paths and the preload, and with a key that is not empty:
  -- for whatever launch the runner chooses, if it is one of a fresh interpreter, the process started
  -- has the launch's own user, group, network, memory limit, mode, paths, preload and code in the
  -- places of its script, the launch's proxy variables, and is killed at the launch's time limit.
  pub launch-Starts :
      (c : Config) (path : Option (List ℕ)) (code : List ℕ) (k : ℕ) (ks : List ℕ)
      (req : RunCodeRequest) (xs : List Piece) (worker : Worker)
      → IsPlain xs
      → no_mark (allowed_paths_json encode to_json c req) ≡ true
      → no_mark (checked_preload c req ++ 10 ∷ []) ≡ true
      → Starts c path (k ∷ ks) xs (launch c req code worker) (
          fresh_command encode to_json (render xs) c path code (checked_preload c req) req (k ∷ ks))
  launch-Starts c path code k ks req xs worker h hj hp =
      launch_cases c req code worker
        (λ l. Starts c path (k ∷ ks) xs l (
          fresh_command encode to_json (render xs) c path code (checked_preload c req) req
            (k ∷ ks)))
        (λ limits. tt) (λ restart. fresh_command-Starts c path code k ks req xs restart h hj hp)
