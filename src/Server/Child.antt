-- ===== src/Server/Child.antt =====
-- How a fresh interpreter of server/src/services/python.rs or nodejs.rs ends, and what either `run`
-- returns then.
use sand_box_rust.Base.{ℕ, ◌≡◌, refl, List, [], ◌∷◌, ◌++◌, Option, none, some, none, codes, pos}
use sand_box_rust.Utf8.{from_utf8_lossy}
use sand_box_rust.Server.Handlers.{
  ExitStatus, exit_code_from_status, RunResult, ok, err, respond, error, is_seccomp_violation,
}

abbrev pub lib_path : List ℕ
lib_path = codes "/usr/local/share/sandbox"

-- What is started: in `lib_path`, with no other environment, its script written to its standard input,
-- and killed when the time, in seconds, runs out.
pub record Command : Type 0 where
  pub program : List ℕ
  pub args : List (List ℕ)
  pub env : List (List ℕ × List ℕ)
  pub stdin : List ℕ
  pub timeout : ℕ

-- `if let Ok(path) = std::env::var("PATH") { cmd.env("PATH", &path); }`
abbrev pub path_var : Option (List ℕ) → List (List ℕ × List ℕ)
path_var none = []
path_var (some path) = (codes "PATH", path) ∷ []

-- Each error has the text that the operating system gives it.
pub data ChildEnd : Type 0 where
  spawn_fails : List ℕ → ChildEnd
  stdin_fails : List ℕ → ChildEnd
  timed_out : ChildEnd
  wait_fails : List ℕ → ChildEnd
  output : List ℕ → List ℕ → ExitStatus → ChildEnd

-- `name` is the interpreter, as the message of a failed spawn has it.
unfoldable pub child_result : List ℕ → ChildEnd → RunResult
child_result name (spawn_fails e) = err (codes "spawn " ++ (name ++ (codes ": " ++ e)))
child_result name (stdin_fails e) = err (codes "stdin write: " ++ e)
child_result name timed_out = err (codes "Execution timeout")
child_result name (wait_fails e) = err (codes "process: " ++ e)
child_result name (output stdout stderr status) = ok (record {
  stdout = from_utf8_lossy stdout;
  stderr = from_utf8_lossy stderr;
  exit_code = exit_code_from_status status;
})

-- For either interpreter: a process that signal 31 ended is reported as a violation, whatever it wrote,
-- and a time limit that ran out as code 500 with its message.
pub child_result-respond :
    (name stdout stderr : List ℕ) (status : ExitStatus)
    → (status.signal ≡ some 31
        → (respond (child_result name (output stdout stderr status))).code ≡ pos 31)
      × (respond (child_result name timed_out)
          ≡ record { code = pos 500; message = codes "Execution timeout"; payload = none })
unfolding child_result respond exit_code_from_status is_seccomp_violation error
child_result-respond name stdout stderr status = ((λ e. rw e refl), refl)
