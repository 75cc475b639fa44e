-- ===== src/Server/Process.antt =====
-- A process that server/src/setup/dependencies.rs or env.rs starts and waits for.
use sand_box_rust.Base.{ℕ, Bool, List}

-- How it ends; an error has the text that the operating system gives it, and an end has its success
-- and what was captured of its two outputs.
pub data ProcessEnd : Type 0 where
  spawn_fails : List ℕ → ProcessEnd
  wait_fails : List ℕ → ProcessEnd
  ended : Bool → List ℕ → List ℕ → ProcessEnd

-- The program and its arguments.
abbrev pub ProcessCommand : Type 0
ProcessCommand = List (List ℕ)

-- `Result<(), String>`
pub data Outcome : Type 0 where
  done : Outcome
  failed : List ℕ → Outcome
