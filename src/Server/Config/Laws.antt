-- ===== src/Server/Config/Laws.antt =====
-- server/src/config.rs: `override_with_env` and `proxy_env_vars` as a whole.
use sand_box_rust.Base.{
  ℕ, Bool, ◌-◌, ◌^◌, ◌≤◌, ◌≡◌, refl, List, [], ◌∷◌, if◌then◌else◌, Option, none, some, codes,
  Option-cases, inl, inr,
}
use sand_box_rust.Parse.{parse_unsigned, parse_unsigned-le}
use sand_box_rust.Server.Config.{
  Config, Env, override, override_number, override_flag, override_paths, override_with_env,
  ProxyConfig, proxy_env_vars, proxy_vars, non_empty, same_text,
}

override_twice {ℓ} : {A : Type ℓ} (o : Option A) (a : A) → override o (override o a) ≡ override o a
override_twice none a = refl
override_twice (some b) a = refl

override_both {ℓ} :
    {A : Type ℓ} (o p : Option A) (a : A)
    → override o (override p (override o (override p a))) ≡ override o (override p a)
override_both none none a = refl
override_both none (some c) a = refl
override_both (some b) p a = refl

override_number_twice :
    (bits : ℕ) (o : Option (List ℕ)) (a : ℕ)
    → override_number bits o (override_number bits o a) ≡ override_number bits o a
override_number_twice bits none a = refl
override_number_twice bits (some v) a = override_twice (parse_unsigned bits v) a

override_number_both :
    (bits : ℕ) (o p : Option (List ℕ)) (a : ℕ)
    → override_number bits o
        (override_number bits p (override_number bits o (override_number bits p a)))
      ≡ override_number bits o (override_number bits p a)
override_number_both bits none p a = override_number_twice bits p a
override_number_both bits (some v) none a = override_twice (parse_unsigned bits v) a
override_number_both bits (some v) (some w) a =
    override_both (parse_unsigned bits v) (parse_unsigned bits w) a

override_flag_twice :
    (o : Option (List ℕ)) (a : Bool) → override_flag o (override_flag o a) ≡ override_flag o a
override_flag_twice none a = refl
override_flag_twice (some v) a = refl

override_paths_twice :
    (o : Option (List ℕ)) (a : List (List ℕ))
    → override_paths o (override_paths o a) ≡ override_paths o a
override_paths_twice none a = refl
override_paths_twice (some v) a = refl

-- The numbers of the configuration fit the fields' types.
abbrev pub InRange : Config → Type 0
InRange c =
    (c.app.port ≤ 2 ^ 16 - 1)
    × ((c.max_workers ≤ 2 ^ 64 - 1)
        × ((c.worker_timeout ≤ 2 ^ 64 - 1)
            × ((c.python_max_as_bytes ≤ 2 ^ 64 - 1)
                × ((c.nodejs_max_as_bytes ≤ 2 ^ 64 - 1)
                    × ((c.nodejs_max_old_space_mb ≤ 2 ^ 32 - 1)
                        × ((c.sandbox_uid ≤ 2 ^ 32 - 1) × (c.sandbox_gid ≤ 2 ^ 32 - 1)))))))

override_number-le :
    (bits : ℕ) (o : Option (List ℕ)) (a : ℕ)
    → a ≤ 2 ^ bits - 1
    → override_number bits o a ≤ 2 ^ bits - 1
override_number-le bits none a h = h
override_number-le bits (some v) a h = elim (Option-cases (parse_unsigned bits v)) [
  | inl e ↦ rw e h
  | inr (n, e) ↦ rw e (parse_unsigned-le bits v n e)
]

-- If the numbers of a configuration are in the range of their fields, they are after the
-- environment's overrides, whatever text the variables hold.
pub override_with_env-InRange :
    (env : Env) (c : Config) → InRange c → InRange (override_with_env env c)
unfolding override_with_env
override_with_env-InRange env c (port, (workers, (timeout, (py, (node, (old, ids)))))) = (
  override_number-le 16 _ _ port,
  (
    override_number-le 64 _ _ workers,
    (
      override_number-le 64 _ _ timeout,
      (
        override_number-le 64 _ _ py,
        (
          override_number-le 64 _ _ node,
          (override_number-le 32 _ _ (override_number-le 32 _ _ old), ids),
        ),
      ),
    ),
  ),
)

-- Applying the environment to a configuration a second time changes nothing.
pub override_with_env_twice :
    (env : Env) (c : Config)
    → override_with_env env (override_with_env env c) ≡ override_with_env env c
unfolding override_with_env
override_with_env_twice env c =
    rw
      (
        override_number_twice 16 (env (codes "SANDBOX_PORT")) c.app.port,
        override_twice (env (codes "SANDBOX_API_KEY")) c.app.key,
        override_number_twice 64 (env (codes "MAX_WORKERS")) c.max_workers,
        override_number_twice 64 (env (codes "WORKER_TIMEOUT")) c.worker_timeout,
        override_twice (env (codes "PYTHON_PATH")) c.python_path,
        override_twice (env (codes "NODEJS_PATH")) c.nodejs_path,
        override_flag_twice (env (codes "ENABLE_NETWORK")) c.enable_network,
        override_flag_twice (env (codes "ENABLE_PRELOAD")) c.enable_preload,
        override_flag_twice (env (codes "PRIVILEGE")) c.privilege,
        override_flag_twice (env (codes "PYTHON_ZYGOTE")) c.python_zygote,
        override_paths_twice (env (codes "PYTHON_LIB_PATH")) c.python_lib_paths,
        override_paths_twice (env (codes "NODEJS_LIB_PATH")) c.nodejs_lib_paths,
        override_number_twice 64 (env (codes "PYTHON_MAX_AS_BYTES")) c.python_max_as_bytes,
        override_number_twice 64 (env (codes "NODEJS_MAX_AS_BYTES")) c.nodejs_max_as_bytes,
        override_number_both 32 (env (codes "NODE_MAX_OLD_SPACE_MB"))
            (env (codes "NODEJS_MAX_OLD_SPACE_MB")) c.nodejs_max_old_space_mb,
        override_twice (env (codes "SOCKS5_PROXY")) c.proxy.socks5,
        override_twice (env (codes "HTTP_PROXY")) c.proxy.http,
        override_twice (env (codes "HTTPS_PROXY")) c.proxy.https,
      )
      refl

-- The value that a child process sees: that of the last pair with the name.
abbrev pub child_var : List ℕ → List (List ℕ × List ℕ) → Option (List ℕ)
child_var name [] = none
child_var name ((k, v) ∷ vars) = elim (child_var name vars) [
  | some w ↦ some w
  | none ↦ if same_text k name then some v else none
]

abbrev pub first_of : Option (List ℕ) → Option (List ℕ) → Option (List ℕ)
first_of (some a) b = some a
first_of none b = b

-- A child process sees in each of the two proxy variables the SOCKS5 proxy if one is set, else
-- the proxy set for that variable, else nothing.
pub proxy_env_vars-child_var :
    (p : ProxyConfig)
    → (child_var (codes "HTTPS_PROXY") (proxy_env_vars p)
        ≡ first_of (non_empty p.socks5) (non_empty p.https))
      × (child_var (codes "HTTP_PROXY") (proxy_env_vars p)
          ≡ first_of (non_empty p.socks5) (non_empty p.http))
unfolding proxy_env_vars
proxy_env_vars-child_var p = vars (non_empty p.socks5) (non_empty p.https) (non_empty p.http)
  where
    vars :
        (s h t : Option (List ℕ))
        → (child_var (codes "HTTPS_PROXY") (proxy_vars s h t) ≡ first_of s h)
          × (child_var (codes "HTTP_PROXY") (proxy_vars s h t) ≡ first_of s t)
    vars (some s) h t = (refl, refl)
    vars none none none = (refl, refl)
    vars none (some h) none = (refl, refl)
    vars none none (some t) = (refl, refl)
    vars none (some h) (some t) = (refl, refl)
