-- ===== src/Server/Handlers.antt =====
-- server/src/handlers.rs, server/src/models.rs and the exit codes of server/src/services.rs: how the
-- result of an execution becomes the response.
use sand_box_rust.Base.{
  ℕ, ◌≡◌, ◌↔◌, ◌⊎◌, Bool, true, false, not, ◌&&◌, ◌||◌, List, [], ◌∷◌, Option, none, some,
  if◌then◌else◌, codes, ℤ, pos, neg, int_eq, arith,
}
use sand_box_rust.Server.Config.{same_text}

-- `ExitStatus`, as `signal()` and `code()` read it.
pub record ExitStatus : Type 0 where
  pub signal : Option ℕ
  pub code : Option ℕ

unfoldable pub exit_code_from_status : ExitStatus → ℤ
exit_code_from_status s = elim s.signal [
  | some signal ↦ neg signal
  | none ↦ elim s.code [ some code ↦ pos code | none ↦ neg 1 ]
]

abbrev pub sigsys_raw : ℤ
sigsys_raw = pos 159

abbrev pub sigsys_neg : ℤ
sigsys_neg = neg 31

unfoldable pub is_seccomp_violation : ℤ → Bool
is_seccomp_violation exit_code = int_eq exit_code sigsys_raw || int_eq exit_code sigsys_neg

pub record ExecutionResult : Type 0 where
  pub stdout : List ℕ
  pub stderr : List ℕ
  pub exit_code : ℤ

-- `Result<ExecutionResult, String>`
pub data RunResult : Type 0 where
  ok : ExecutionResult → RunResult
  err : List ℕ → RunResult

pub record RunCodeData : Type 0 where
  pub stdout : List ℕ
  pub stderr : List ℕ

pub record ApiResponse : Type 0 where
  pub code : ℤ
  pub message : List ℕ
  pub payload : Option RunCodeData

unfoldable pub success : RunCodeData → ApiResponse
success d = record { code = pos 0; message = codes "success"; payload = some d }

unfoldable pub error : ℤ → List ℕ → ApiResponse
error code message = record { code = code; message = message; payload = none }

abbrev pub is_empty : List ℕ → Bool
is_empty [] = true
is_empty (_ ∷ _) = false

-- The body that `run_python` and `run_nodejs` share.
unfoldable pub respond : RunResult → ApiResponse
respond (err e) = error (pos 500) e
respond (ok r) =
    if is_seccomp_violation r.exit_code
    then error (pos 31) (codes "sandbox security policy violation")
    else if not (is_empty r.stderr) && not (int_eq r.exit_code (pos 0))
    then error (pos 500) r.stderr
    else success (record { stdout = r.stdout; stderr = r.stderr })

pub record RunCodeRequest : Type 0 where
  pub language : List ℕ
  pub code : List ℕ
  pub preload : List ℕ
  pub enable_network : Bool

-- The job of `run_code`; `python` and `nodejs` are what the two runners return.
unfoldable pub run_code :
    (RunCodeRequest → RunResult) → (RunCodeRequest → RunResult) → RunCodeRequest → ApiResponse
run_code python nodejs req =
    if same_text req.language (codes "python3")
    then respond (python req)
    else if same_text req.language (codes "javascript")
    then respond (nodejs req)
    else error (pos 400) (codes "unsupported language")

-- A status counts as a violation exactly when signal 31 ended the process, or it ended by itself with
-- the raw code 159.
pub violation_iff_sigsys :
    (s : ExitStatus)
    → (is_seccomp_violation (exit_code_from_status s) ≡ true)
      ↔ ((s.signal ≡ some 31) ⊎ ((s.signal ≡ none) × (s.code ≡ some 159)))
unfolding is_seccomp_violation exit_code_from_status
violation_iff_sigsys s = ground arith
