-- ===== src/Pool/Tests/Child.antt =====
-- A forked child at concrete inputs.
use sand_box_rust.Base.{ℕ, ◌≡◌, refl, List, [], ◌∷◌, some, true, false, arith, pos}
use sand_box_rust.Server.Crypto.{encrypt_code, generate_key}
use sand_box_rust.Seccomp.Filter.{going}
use sand_box_rust.Seccomp.Init.{Kernel}
use sand_box_rust.Seccomp.Landlock.{Crate, fully_enforced}
use sand_box_rust.Zygote.Manager.{SandboxLimits}
use sand_box_rust.Pool.Child.{system_exit, child_exec}
use sand_box_rust.Pool.Child.Laws.{Runs, req_of, encrypt_code-child_exec}
use sand_box_rust.Pool.Tests.{counted_from, counted_from-IsBytes, length-counted_from, tail_of}

abbrev crate : Crate ℕ
crate = record {
  default = 0;
  handle_access = λ r. some r;
  scope_signal = λ r. some r;
  create = λ r. some r;
  add_rules = λ paths r. some r;
  restrict_self = λ r. some fully_enforced;
}

abbrev kernel : Kernel
kernel = record {
  succeeds = λ c. true;
  installs = λ net. going (record { rules = []; loaded = true; released = 1 });
}

abbrev limits : SandboxLimits
limits = record {
  uid = 65537;
  gid = 65537;
  net = false;
  max_as = 0;
  timeout = 10;
  privilege = false;
  allowed_paths = (47 ∷ []) ∷ [];
}

encrypt_code-child_exec_example :
    (text : List ℕ) × (encrypt_code
        (λ bs. 0 ∷ bs)
        (1 ∷ 2 ∷ 255 ∷ [])
        (generate_key (counted_from 0) 64)
      ≡ some text)
    × Runs crate kernel tail_of
        (λ code. true)
        (λ code. system_exit (some (pos 3)))
        []
        true
        limits
        (1 ∷ 2 ∷ 255 ∷ [])
        (child_exec crate kernel tail_of
          (λ code. true)
          (λ code. system_exit (some (pos 3)))
          []
          true
          (req_of text (0 ∷ generate_key (counted_from 0) 64) limits))
encrypt_code-child_exec_example =
    encrypt_code-child_exec crate kernel (counted_from 0) (λ bs. 0 ∷ bs) tail_of (λ code. true)
      (λ code. system_exit (some (pos 3))) [] true limits (1 ∷ 2 ∷ 255 ∷ []) (length-counted_from 0)
      (counted_from-IsBytes 0) (λ bs. refl) (omega arith, (omega arith, (omega arith, tt)))
