-- ===== src/Server/Jail.antt =====
-- server/src/setup/env.rs: the copies of the configured paths into the jail. Which paths exist, and how
-- the script ends, are arguments.
use sand_box_rust.Base.{
  ℕ, ◌≡◌, refl, ap, ◌∙◌, sym, Bool, true, false, List, [], ◌∷◌, ◌++◌, map, append_assoc, append-nil,
  if◌then◌else◌, codes, Bool-cases, inl, inr,
}
use sand_box_rust.Server.Child.{lib_path}
use sand_box_rust.Server.Config.{Config}
use sand_box_rust.Server.Process.{
  ProcessEnd, spawn_fails, wait_fails, ended, ProcessCommand, Outcome, done, failed,
}
use sand_box_rust.Utf8.{from_utf8_lossy}

-- `bash env.sh src LIB_PATH`
abbrev pub env_command : List ℕ → ProcessCommand
env_command src = codes "bash" ∷ (lib_path ++ codes "/script/env.sh") ∷ src ∷ lib_path ∷ []

unfoldable pub copy_result : List ℕ → ProcessEnd → Outcome
copy_result src (spawn_fails e) = failed (codes "spawn env.sh for " ++ (src ++ (codes ": " ++ e)))
copy_result src (wait_fails e) = failed (codes "env.sh " ++ (src ++ (codes ": " ++ e)))
copy_result src (ended true stdout stderr) = done
copy_result src (ended false stdout stderr) =
    failed (codes "env.sh " ++ (src ++ (codes " failed: " ++ from_utf8_lossy stderr)))

-- The processes started so far and the errors logged, oldest first.
pub record Log : Type 0 where
  pub commands : List ProcessCommand
  pub warnings : List (List ℕ)

abbrev pub warn : Outcome → List (List ℕ)
warn done = []
warn (failed e) = e ∷ []

abbrev pub existing : (List ℕ → Bool) → List (List ℕ) → List (List ℕ)
existing exists [] = []
existing exists (src ∷ srcs) =
    if exists src then src ∷ existing exists srcs else existing exists srcs

module _ (exists : List ℕ → Bool) (bash : ProcessCommand → ProcessEnd) where
  unfoldable pub copy_into_jail : List ℕ → List ProcessCommand × Outcome
  copy_into_jail src =
      if exists src
      then (env_command src ∷ [], copy_result src (bash (env_command src)))
      else ([], done)

  -- One of the two loops of `prepare_environment`.
  unfoldable pub copy_all : List (List ℕ) → Log → Log
  unfolding copy_into_jail
  copy_all [] log = log
  copy_all (src ∷ srcs) log =
      let copied = copy_into_jail src in
      copy_all srcs
        (record { commands = log.commands ++ copied.0; warnings = log.warnings ++ warn copied.1 })

  unfoldable pub prepare_environment : Config → Log
  unfolding copy_all
  prepare_environment c =
      copy_all c.nodejs_lib_paths
        (copy_all c.python_lib_paths (record { commands = []; warnings = [] }))

  -- What the copies of paths that exist log.
  abbrev pub complaints : List (List ℕ) → List (List ℕ)
  complaints [] = []
  complaints (src ∷ srcs) = warn (copy_result src (bash (env_command src))) ++ complaints srcs

  -- A log that went on with the copies of some paths.
  abbrev pub extend : Log → List (List ℕ) → Log
  extend log srcs = record {
    commands = log.commands ++ map env_command srcs;
    warnings = log.warnings ++ complaints srcs;
  }

  extend-cons :
      (src : List ℕ) (srcs : List (List ℕ)) (log : Log)
      → extend
          (record {
            commands = log.commands ++ env_command src ∷ [];
            warnings = log.warnings ++ warn (copy_result src (bash (env_command src)));
          })
          srcs
        ≡ extend log (src ∷ srcs)
  extend-cons src srcs log =
      rw
        (
          append_assoc log.commands (env_command src ∷ []) (map env_command srcs),
          append_assoc log.warnings (warn (copy_result src (bash (env_command src))))
              (complaints srcs),
        )
        refl

  copy_all-extend :
      (srcs : List (List ℕ)) (log : Log) → copy_all srcs log ≡ extend log (existing exists srcs)
  unfolding copy_all copy_into_jail
  copy_all-extend [] log = rw (append-nil log.commands, append-nil log.warnings) refl
  copy_all-extend (src ∷ srcs) log = elim (Bool-cases (exists src)) [
    | inl here ↦
        rw (here, copy_all) (copy_all-extend srcs _ ∙ extend-cons src (existing exists srcs) log)
    | inr missing ↦
        rw (missing, copy_all)
          (copy_all-extend srcs _ ∙ rw (append-nil log.commands, append-nil log.warnings) refl)
  ]

  copy_all-append :
      (xs ys : List (List ℕ)) (log : Log) → copy_all (xs ++ ys) log ≡ copy_all ys (copy_all xs log)
  unfolding copy_all
  copy_all-append [] ys log = refl
  copy_all-append (x ∷ xs) ys log = copy_all-append xs ys _

  -- The script is started for every configured path that exists, once for each time that it is
  -- listed, those of Python before those of Node.js, whatever became of the copies before; and what
  -- is logged are their errors, in the same order.
  pub prepare_environment-existing :
      (c : Config)
      → let srcs = existing exists (c.python_lib_paths ++ c.nodejs_lib_paths) in
        ((prepare_environment c).commands ≡ map env_command srcs)
        × ((prepare_environment c).warnings ≡ complaints srcs)
  unfolding prepare_environment
  prepare_environment-existing c =
      let srcs = c.python_lib_paths ++ c.nodejs_lib_paths in
      let start : Log = record { commands = []; warnings = [] } in
      let e =
        sym (copy_all-append c.python_lib_paths c.nodejs_lib_paths start)
        ∙ copy_all-extend srcs start in
      (ap (λ l. l.commands) e, ap (λ l. l.warnings) e)
