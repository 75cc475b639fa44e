-- ===== src/Server/Config.antt =====
-- server/src/config.rs: the environment's overrides and the proxy variables.
pub mod Laws
pub mod Load
use sand_box_rust.Base.{
  ℕ, ◌+◌, Bool, true, false, ◌&&◌, ◌||◌, List, [], ◌∷◌, ◌++◌, map, Option, none, some, ◌==◌,
  if◌then◌else◌, codes,
}
use sand_box_rust.Parse.{parse_unsigned, split_comma, trim}

pub record AppConfig : Type 0 where
  pub port : ℕ
  pub debug : Bool
  pub key : List ℕ

pub record ProxyConfig : Type 0 where
  pub socks5 : List ℕ
  pub http : List ℕ
  pub https : List ℕ

pub record Config : Type 0 where
  pub app : AppConfig
  pub max_workers : ℕ
  pub worker_timeout : ℕ
  pub enable_network : Bool
  pub enable_preload : Bool
  pub privilege : Bool
  pub python_zygote : Bool
  pub python_zygote_preload_modules : List (List ℕ)
  pub python_path : List ℕ
  pub nodejs_path : List ℕ
  pub python_lib_paths : List (List ℕ)
  pub nodejs_lib_paths : List (List ℕ)
  pub sandbox_user : List ℕ
  pub sandbox_uid : ℕ
  pub sandbox_gid : ℕ
  pub python_max_as_bytes : ℕ
  pub nodejs_max_as_bytes : ℕ
  pub nodejs_max_old_space_mb : ℕ
  pub proxy : ProxyConfig

-- `socks5_option`, `http_option` and `https_option`.
abbrev pub non_empty : List ℕ → Option (List ℕ)
non_empty [] = none
non_empty (c ∷ cs) = some (c ∷ cs)

abbrev optional : List ℕ → Option (List ℕ) → List (List ℕ × List ℕ)
optional name none = []
optional name (some v) = (name, v) ∷ []

abbrev pub proxy_vars : Option (List ℕ) → Option (List ℕ) → Option (List ℕ) → List (List ℕ × List ℕ)
proxy_vars (some socks5) https http =
    (codes "HTTPS_PROXY", socks5) ∷ (codes "HTTP_PROXY", socks5) ∷ []
proxy_vars none https http =
    optional (codes "HTTPS_PROXY") https ++ optional (codes "HTTP_PROXY") http

unfoldable pub proxy_env_vars : ProxyConfig → List (List ℕ × List ℕ)
proxy_env_vars p = proxy_vars (non_empty p.socks5) (non_empty p.https) (non_empty p.http)

-- `std::env::var(name).ok()`
abbrev pub Env : Type 0
Env = List ℕ → Option (List ℕ)

-- `if let Ok(v) = var { field = v; }`
abbrev pub override {ℓ} : {A : Type ℓ} → Option A → A → A
override none old = old
override (some new) old = new

-- `if let Ok(v) = var { if let Ok(p) = v.parse() { field = p; } }`
abbrev pub override_number : ℕ → Option (List ℕ) → ℕ → ℕ
override_number bits none old = old
override_number bits (some v) old = override (parse_unsigned bits v) old

abbrev pub same_text : List ℕ → List ℕ → Bool
same_text [] [] = true
same_text (a ∷ xs) (b ∷ ys) = a == b && same_text xs ys
same_text _ _ = false

-- `matches!(v.as_str(), "1" | "true" | "yes")`
abbrev pub is_yes : List ℕ → Bool
is_yes v = same_text v (codes "1") || (same_text v (codes "true") || same_text v (codes "yes"))

abbrev pub override_flag : Option (List ℕ) → Bool → Bool
override_flag none old = old
override_flag (some v) old = is_yes v

-- `v.split(',').map(|s| s.trim().to_string()).collect()`
abbrev pub override_paths : Option (List ℕ) → List (List ℕ) → List (List ℕ)
override_paths none old = old
override_paths (some v) old = map trim (split_comma v)

unfoldable pub override_with_env : Env → Config → Config
override_with_env env c = record c {
  app = record c.app {
    port = override_number 16 (env (codes "SANDBOX_PORT")) c.app.port;
    key = override (env (codes "SANDBOX_API_KEY")) c.app.key;
  };
  max_workers = override_number 64 (env (codes "MAX_WORKERS")) c.max_workers;
  worker_timeout = override_number 64 (env (codes "WORKER_TIMEOUT")) c.worker_timeout;
  python_path = override (env (codes "PYTHON_PATH")) c.python_path;
  nodejs_path = override (env (codes "NODEJS_PATH")) c.nodejs_path;
  enable_network = override_flag (env (codes "ENABLE_NETWORK")) c.enable_network;
  enable_preload = override_flag (env (codes "ENABLE_PRELOAD")) c.enable_preload;
  privilege = override_flag (env (codes "PRIVILEGE")) c.privilege;
  python_zygote = override_flag (env (codes "PYTHON_ZYGOTE")) c.python_zygote;
  python_lib_paths = override_paths (env (codes "PYTHON_LIB_PATH")) c.python_lib_paths;
  nodejs_lib_paths = override_paths (env (codes "NODEJS_LIB_PATH")) c.nodejs_lib_paths;
  python_max_as_bytes =
      override_number 64 (env (codes "PYTHON_MAX_AS_BYTES")) c.python_max_as_bytes;
  nodejs_max_as_bytes =
      override_number 64 (env (codes "NODEJS_MAX_AS_BYTES")) c.nodejs_max_as_bytes;
  nodejs_max_old_space_mb =
      override_number 32 (env (codes "NODE_MAX_OLD_SPACE_MB"))
        (override_number 32 (env (codes "NODEJS_MAX_OLD_SPACE_MB")) c.nodejs_max_old_space_mb);
  proxy = record c.proxy {
    socks5 = override (env (codes "SOCKS5_PROXY")) c.proxy.socks5;
    http = override (env (codes "HTTP_PROXY")) c.proxy.http;
    https = override (env (codes "HTTPS_PROXY")) c.proxy.https;
  };
}
