-- ===== src/Server/Tests/Setup.antt =====
-- The theorems about the configuration's file, pip, the API and the start of the server.
use sand_box_rust.Base.{
  ℕ, ◌≡◌, ◌↔◌, ◌⊎◌, refl, true, List, [], ◌∷◌, ◌++◌, map, none, some, codes, pos, arith,
}
use sand_box_rust.Server.Config.{Config, override, same_text}
use sand_box_rust.Server.Config.Laws.{InRange}
use sand_box_rust.Server.Config.Load.{Document, load, load-InRange}
use sand_box_rust.Server.Process.{ProcessEnd, ended, ProcessCommand, done}
use sand_box_rust.Server.Dependencies.{
  list_python_packages, install_python_dependencies, install_command,
}
use sand_box_rust.Server.Dependencies.Laws.{
  FreezeLine, pinned, unpinned, pinned_of, unlines, spell, list_python_packages-pinned_of,
}
use sand_box_rust.Server.Dependencies.Requirements.{
  RequirementLine, blank, comment, requirement, wanted, written, IsSuccess,
  install_python_dependencies-wanted,
}
use sand_box_rust.Server.Handlers.{err, ok}
use sand_box_rust.Server.Queue
use sand_box_rust.Server.Api.{Outside, run, executed, serve}
use sand_box_rust.Server.Api.Laws.{Serves, serve-Serves}
use sand_box_rust.Server.Startup.{Machine}
use sand_box_rust.Server.Tests.{shipped, print_one}

-- Only the port, the key and the number of workers are given.
abbrev document : Document
document = record {
  port = 8194;
  debug = none;
  key = codes "sandbox";
  max_workers = some 2;
  worker_timeout = none;
  enable_network = none;
  enable_preload = none;
  privilege = none;
  python_zygote = some true;
  python_zygote_preload_modules = none;
  python_path = none;
  nodejs_path = none;
  python_lib_paths = none;
  nodejs_lib_paths = none;
  sandbox_user = none;
  sandbox_uid = none;
  sandbox_gid = some 1000;
  python_max_as_bytes = none;
  nodejs_max_as_bytes = none;
  nodejs_max_old_space_mb = none;
  socks5 = none;
  http = none;
  https = none;
}

load-InRange_example :
    (c : Config) × ((load (λ _. some []) (λ _. some document) (λ _. none) (codes "config.toml")
        ≡ some c)
      × (InRange c
          × ((c.sandbox_uid ≡ override document.sandbox_uid 65537)
              × (c.sandbox_gid ≡ override document.sandbox_gid 65537))))
load-InRange_example =
    load-InRange (λ _. some []) (λ _. some document) (λ _. none) (codes "config.toml") [] document
      refl refl (omega arith, (omega arith, (tt, (tt, (tt, (tt, (tt, omega arith)))))))

-- `pip==24.0` and `wheel`.
abbrev frozen : List FreezeLine
frozen =
    pinned (record { name = codes "pip"; version = codes "24.0" }) ∷ unpinned (codes "wheel") ∷ []

abbrev prints_frozen : ProcessCommand → ProcessEnd
prints_frozen _ = ended true (unlines (map spell frozen)) []

list_python_packages-pinned_of_example :
    list_python_packages prints_frozen shipped ≡ pinned_of frozen
list_python_packages-pinned_of_example =
    list_python_packages-pinned_of prints_frozen shipped frozen [] (ground arith) refl

-- The file of the repository, with a blank line and an indented requirement in front.
abbrev requirements : List RequirementLine
requirements =
    blank []
    ∷ requirement (b' ' ∷ []) b'w' (codes "heel") (b' ' ∷ [])
    ∷ requirement [] b'r' (codes "equests==2.34.2") []
    ∷ comment [] (codes " numpy==1.26.0") []
    ∷ comment [] (codes " pandas==2.0.0") []
    ∷ requirement [] b'j' (codes "inja2==3.1.6") []
    ∷ []

abbrev last_requirement : RequirementLine
last_requirement = requirement [] b'o' (codes "rjson==3.11.9") []

install_python_dependencies-wanted_example :
    (install_python_dependencies prints_frozen shipped
        (some (unlines (map written requirements) ++ written last_requirement))
      ≡ done)
    ↔ ((wanted (requirements ++ last_requirement ∷ []) ≡ [])
        ⊎ IsSuccess (
            prints_frozen
              (install_command shipped (wanted (requirements ++ last_requirement ∷ [])))))
install_python_dependencies-wanted_example =
    install_python_dependencies-wanted prints_frozen shipped requirements last_requirement
      (ground arith) (ground arith)

abbrev pub outside : Outside
outside = record {
  queue = Queue.start 2;
  submission = executed;
  python = λ _. ok (record { stdout = codes "1"; stderr = []; exit_code = pos 0 });
  nodejs = λ _. err (codes "Execution timeout");
  pip = prints_frozen;
  requirements = none;
}

pub same_text_lem : (a b : List ℕ) → (same_text a b ≡ true) ↔ (a ≡ b)
same_text_lem [] [] = (λ _. refl, λ _. refl)
same_text_lem [] (y ∷ ys) = (λ h. cc h, λ h. cc h)
same_text_lem (x ∷ xs) [] = (λ h. cc h, λ h. cc h)
same_text_lem (x ∷ xs) (y ∷ ys) = ground (arith, same_text_lem xs ys)

-- A request with a wrong key.
serve-Serves_example :
    Serves
      (λ s. some s)
      same_text
      true
      shipped
      (some (codes "guess"))
      (run print_one)
      (serve (λ s. some s) same_text true outside shipped (some (codes "guess")) (run print_one))
serve-Serves_example =
    serve-Serves (λ s. some s) same_text same_text_lem true outside shipped (some (codes "guess"))
      (run print_one)

abbrev machine : Machine
machine = record {
  read = λ _. some [];
  toml = λ _. some document;
  env = λ _. none;
  requirements = some (unlines (map written requirements));
  exists = λ _. true;
  bash = λ _. ended true [] [];
  os = record {
    rc = pos 0;
    fds = (3, 4);
    spawns = λ _. true;
    set_nonblocking = true;
    from_std = true;
  };
  binds = λ _. true;
}
