-- ===== src/Server/Config/Load.antt =====
-- `Config::load` of server/src/config.rs and the defaults of the fields. The file system and the TOML
-- reader are arguments.
use sand_box_rust.Base.{
  ℕ, ◌*◌, ◌≤◌, ◌-◌, ◌^◌, ◌≡◌, refl, Bool, true, false, List, [], ◌∷◌, Option, none, some, codes,
  arith,
}
use sand_box_rust.Server.Config.{Config, Env, override, override_with_env}
use sand_box_rust.Server.Config.Laws.{InRange, override_with_env-InRange}

abbrev pub default_max_workers : ℕ
default_max_workers = 4

abbrev pub default_worker_timeout : ℕ
default_worker_timeout = 30

abbrev pub default_true : Bool
default_true = true

abbrev pub default_python_path : List ℕ
default_python_path = codes "/usr/local/bin/python3"

abbrev pub default_nodejs_path : List ℕ
default_nodejs_path = codes "/usr/bin/node"

abbrev pub default_zygote_modules : List (List ℕ)
default_zygote_modules =
    codes "json"
    ∷ codes "re"
    ∷ codes "math"
    ∷ codes "datetime"
    ∷ codes "collections"
    ∷ codes "itertools"
    ∷ codes "functools"
    ∷ codes "base64"
    ∷ codes "hashlib"
    ∷ codes "random"
    ∷ codes "decimal"
    ∷ codes "string"
    ∷ codes "orjson"
    ∷ []

abbrev pub default_sandbox_uid : ℕ
default_sandbox_uid = 65537

abbrev pub default_sandbox_gid : ℕ
default_sandbox_gid = 65537

abbrev pub default_python_max_as_bytes : ℕ
default_python_max_as_bytes = 256 * 1024 * 1024

abbrev pub default_nodejs_max_as_bytes : ℕ
default_nodejs_max_as_bytes = 512 * 1024 * 1024

abbrev pub default_nodejs_max_old_space_mb : ℕ
default_nodejs_max_old_space_mb = 256

abbrev pub default_python_lib_paths : List (List ℕ)
default_python_lib_paths =
    codes "/usr/local/lib/python3.12"
    ∷ codes "/usr/lib/python3"
    ∷ codes "/usr/lib/x86_64-linux-gnu"
    ∷ codes "/etc/ssl/certs/ca-certificates.crt"
    ∷ codes "/etc/nsswitch.conf"
    ∷ codes "/etc/hosts"
    ∷ codes "/etc/resolv.conf"
    ∷ codes "/etc/localtime"
    ∷ []

abbrev pub default_nodejs_lib_paths : List (List ℕ)
default_nodejs_lib_paths =
    codes "/etc/ssl/certs/ca-certificates.crt"
    ∷ codes "/etc/nsswitch.conf"
    ∷ codes "/etc/resolv.conf"
    ∷ codes "/etc/hosts"
    ∷ []

-- The tables and keys of the file that have the types of their fields: `none` for one that is left out.
-- `port` and `key` are the two that a file must have.
pub record Document : Type 0 where
  pub port : ℕ
  pub debug : Option Bool
  pub key : List ℕ
  pub max_workers : Option ℕ
  pub worker_timeout : Option ℕ
  pub enable_network : Option Bool
  pub enable_preload : Option Bool
  pub privilege : Option Bool
  pub python_zygote : Option Bool
  pub python_zygote_preload_modules : Option (List (List ℕ))
  pub python_path : Option (List ℕ)
  pub nodejs_path : Option (List ℕ)
  pub python_lib_paths : Option (List (List ℕ))
  pub nodejs_lib_paths : Option (List (List ℕ))
  pub sandbox_user : Option (List ℕ)
  pub sandbox_uid : Option ℕ
  pub sandbox_gid : Option ℕ
  pub python_max_as_bytes : Option ℕ
  pub nodejs_max_as_bytes : Option ℕ
  pub nodejs_max_old_space_mb : Option ℕ
  pub socks5 : Option (List ℕ)
  pub http : Option (List ℕ)
  pub https : Option (List ℕ)

-- `Deserialize`, with the defaults of the fields.
unfoldable pub deserialize : Document → Config
deserialize d = record {
  app = record { port = d.port; debug = override d.debug false; key = d.key };
  max_workers = override d.max_workers default_max_workers;
  worker_timeout = override d.worker_timeout default_worker_timeout;
  enable_network = override d.enable_network default_true;
  enable_preload = override d.enable_preload false;
  privilege = override d.privilege default_true;
  python_zygote = override d.python_zygote false;
  python_zygote_preload_modules = override d.python_zygote_preload_modules default_zygote_modules;
  python_path = override d.python_path default_python_path;
  nodejs_path = override d.nodejs_path default_nodejs_path;
  python_lib_paths = override d.python_lib_paths default_python_lib_paths;
  nodejs_lib_paths = override d.nodejs_lib_paths default_nodejs_lib_paths;
  sandbox_user = override d.sandbox_user [];
  sandbox_uid = override d.sandbox_uid default_sandbox_uid;
  sandbox_gid = override d.sandbox_gid default_sandbox_gid;
  python_max_as_bytes = override d.python_max_as_bytes default_python_max_as_bytes;
  nodejs_max_as_bytes = override d.nodejs_max_as_bytes default_nodejs_max_as_bytes;
  nodejs_max_old_space_mb = override d.nodejs_max_old_space_mb default_nodejs_max_old_space_mb;
  proxy = record {
    socks5 = override d.socks5 [];
    http = override d.http [];
    https = override d.https [];
  };
}

-- `none` is an error: a file that cannot be read, or that `toml` rejects.
unfoldable pub load :
    (List ℕ → Option (List ℕ)) → (List ℕ → Option Document) → Env → List ℕ → Option Config
load read toml env path = elim (read path) [
  | none ↦ none
  | some content ↦ elim (toml content) [
    | none ↦ none
    | some d ↦ some (override_with_env env (deserialize d))
  ]
]

abbrev pub IsBelow : ℕ → Option ℕ → Type 0
IsBelow limit none = Unit
IsBelow limit (some n) = n ≤ limit

-- What the reader makes sure of: the numbers fit the types of their fields.
abbrev pub Fits : Document → Type 0
Fits d =
    (d.port ≤ 2 ^ 16 - 1)
    × (IsBelow (2 ^ 64 - 1) d.max_workers
        × (IsBelow (2 ^ 64 - 1) d.worker_timeout
            × (IsBelow (2 ^ 64 - 1) d.python_max_as_bytes
                × (IsBelow (2 ^ 64 - 1) d.nodejs_max_as_bytes
                    × (IsBelow (2 ^ 32 - 1) d.nodejs_max_old_space_mb
                        × (IsBelow (2 ^ 32 - 1) d.sandbox_uid
                            × IsBelow (2 ^ 32 - 1) d.sandbox_gid))))))

override-le :
    (limit : ℕ) (o : Option ℕ) (n : ℕ) → IsBelow limit o → n ≤ limit → override o n ≤ limit
override-le limit none n _ h = h
override-le limit (some m) n h _ = h

deserialize-InRange : (d : Document) → Fits d → InRange (deserialize d)
unfolding deserialize
deserialize-InRange d (port, (workers, (timeout, (py, (node, (old, (uid, gid))))))) = (
  port,
  (
    override-le _ d.max_workers _ workers (omega arith),
    (
      override-le _ d.worker_timeout _ timeout (omega arith),
      (
        override-le _ d.python_max_as_bytes _ py (omega arith),
        (
          override-le _ d.nodejs_max_as_bytes _ node (omega arith),
          (
            override-le _ d.nodejs_max_old_space_mb _ old (omega arith),
            (
              override-le _ d.sandbox_uid _ uid (omega arith),
              override-le _ d.sandbox_gid _ gid (omega arith),
            ),
          ),
        ),
      ),
    ),
  ),
)

-- The environment has no say about the user and the group.
sandbox_ids :
    (env : Env) (d : Document)
    → let c = override_with_env env (deserialize d) in
      (c.sandbox_uid ≡ override d.sandbox_uid 65537)
      × (c.sandbox_gid ≡ override d.sandbox_gid 65537)
unfolding override_with_env deserialize
sandbox_ids env d = (refl, refl)

-- If the file can be read as TOML with every number in the range of its field, then the configuration
-- loads, whatever the environment holds: its numbers are in range, and the user and the group of the
-- sandbox are those of the file, or 65537 where the file leaves them out, never another.
pub load-InRange :
    (read : List ℕ → Option (List ℕ)) (toml : List ℕ → Option Document) (env : Env)
    (path content : List ℕ) (d : Document)
    → read path ≡ some content
    → toml content ≡ some d
    → Fits d
    → (c : Config) × ((load read toml env path ≡ some c)
        × (InRange c
            × ((c.sandbox_uid ≡ override d.sandbox_uid 65537)
                × (c.sandbox_gid ≡ override d.sandbox_gid 65537))))
unfolding load
load-InRange read toml env path content d readable parsed fits = (
  override_with_env env (deserialize d),
  (
    rw (readable, load, parsed) refl,
    (override_with_env-InRange env (deserialize d) (deserialize-InRange d fits), sandbox_ids env d),
  ),
)
