-- ===== src/Pool/Child.antt =====
-- `_child_exec` of runtime/pool/zygote_worker.py: a forked child from its sandbox to its code. What
-- the kernel and the landlock crate answer, base64, the compiler and the code's end are arguments.
pub mod Laws
use sand_box_rust.Base.{
  ℕ, Bool, true, false, List, [], ◌∷◌, Option, none, some, if◌then◌else◌, ℤ, pos, negsuc, int_eq,
  leb,
}
use sand_box_rust.Seccomp.Init.{Call, Kernel, Run, init_run, init_seccomp}
use sand_box_rust.Seccomp.Landlock.{CharPtr, Crate, apply_landlock}
use sand_box_rust.Pool.Cipher.{xor}

-- The values that `req` has; a missing key raises KeyError, or has a default where `get` is used.
pub record Req : Type 0 where
  pub uid : Option ℕ
  pub gid : Option ℕ
  pub net : Option Bool
  pub max_as : Option ℕ
  pub privilege : Option Bool
  pub allowed_paths : Option (List (List ℕ))
  pub code : Option (List ℕ)
  pub key : Option (List ℕ)

-- How a process ends: with the value given to `os._exit`, by a signal, or not at all; or an exception
-- leaves `_child_exec`.
pub data Exit : Type 0 where
  exits : ℤ → Exit
  killed : ℕ → Exit
  runs_on : Exit
  escapes : Exit

-- How the code ends: at its end, with both outputs flushed; by SystemExit with an integer or something
-- else; by another exception, of the code or of flushing; or the process does, within the code.
pub data End : Type 0 where
  finished : End
  system_exit : Option ℤ → End
  raised : End
  within : Exit → End

-- What the child has done, oldest first: `apply_landlock` on the paths, the calls of
-- `init_seccomp`, and the execution of the code.
pub data Act : Type 0 where
  landlock : List (List ℕ) → Act
  seccomp : List Call → Act
  exec : List ℕ → Act

pub record Child : Type 0 where
  pub acts : List Act
  pub exit : Exit

-- The handler of BaseException, before the code runs.
abbrev pub refused : Child
refused = record { acts = []; exit = exits (pos 1) }

-- A call whose result decides whether the child goes on.
abbrev pub then_act : Act → Bool → Child → Child
then_act a ok rest =
    if ok
    then record { acts = a ∷ rest.acts; exit = rest.exit }
    else record { acts = a ∷ []; exit = exits (pos 1) }

-- A C `int`, which `os._exit` takes; it raises OverflowError for any other integer.
abbrev pub is_int : ℤ → Bool
is_int (pos n) = leb n 0x7fffffff
is_int (negsuc n) = leb n 0x7fffffff

-- From `exec` to `os._exit`. An exception of the call in the handler of SystemExit is not handled.
abbrev pub exit_of : End → Exit
exit_of finished = exits (pos 0)
exit_of (system_exit (some code)) = if is_int code then exits code else escapes
exit_of (system_exit none) = exits (pos 0)
exit_of raised = exits (pos 1)
exit_of (within exit) = exit

-- `c_bool`
abbrev pub c_bool : Bool → ℤ
c_bool true = pos 1
c_bool false = pos 0

abbrev pub get_or_else {ℓ} : {A : Type ℓ} → Option A → A → A
get_or_else none d = d
get_or_else (some a) d = a

-- The array of C strings that ends with NULL.
abbrev pub array : List (List ℕ) → List CharPtr
array [] = none ∷ []
array (p ∷ ps) = some p ∷ array ps

abbrev pub is_zero : Option ℤ → Bool
is_zero none = false
is_zero (some rc) = int_eq rc (pos 0)

module _ {Ruleset : Type 0} (crate : Crate Ruleset) (k : Kernel)
    (b64decode : List ℕ → Option (List ℕ)) (compiles : List ℕ → Bool) (run : List ℕ → End)
    (lib_dir : List ℕ) where
  abbrev pub exec_code : Option (List ℕ) → Child
  exec_code none = refused
  exec_code (some code) =
      if compiles code then record { acts = exec code ∷ []; exit = exit_of (run code) } else refused

  -- `_xor(base64.b64decode(req["code"]), base64.b64decode(req["key"]))`
  abbrev pub xor_decoded : Option (List ℕ) → Option (List ℕ) → Option (List ℕ)
  xor_decoded (some cipher) (some key) = xor cipher key
  xor_decoded _ _ = none

  abbrev pub decrypted : Option (List ℕ) → Option (List ℕ) → Option (List ℕ)
  decrypted (some code) (some key) = xor_decoded (b64decode code) (b64decode key)
  decrypted _ _ = none

  -- From `init_seccomp` on.
  abbrev pub sandboxed : Req → Option ℕ → Option ℕ → Option Bool → Child
  sandboxed req (some uid) (some gid) (some net) =
      let max_as = get_or_else req.max_as 0 in
      let privilege = get_or_else req.privilege true in
      let confined =
        then_act (seccomp (init_run k uid gid (c_bool net) max_as (c_bool privilege)).trace)
          (int_eq (init_seccomp k uid gid (c_bool net) max_as (c_bool privilege)) (pos 0))
          (exec_code (decrypted req.code req.key)) in
      let allowed = get_or_else req.allowed_paths (lib_dir ∷ []) in
      if privilege
      then confined
      else then_act (landlock allowed) (is_zero (apply_landlock crate (some (array allowed))))
          confined
  sandboxed req _ _ _ = refused

  -- `redirected` says that no call before, on the descriptors and modules, raised.
  unfoldable pub child_exec : Bool → Req → Child
  child_exec redirected req = if redirected then sandboxed req req.uid req.gid req.net else refused
