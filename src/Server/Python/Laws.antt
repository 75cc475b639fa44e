-- ===== src/Server/Python/Laws.antt =====
-- What either way of running a Python request gives the code.
use sand_box_rust.Base.{
  ℕ, ◌≡◌, ◌⊎◌, inl, inr, refl, Bool, true, false, ◌&&◌, List, [], ◌∷◌, ◌++◌, Option, if-cases,
  codes, arith, Bool-cases, Option-cases, ap,
}
use sand_box_rust.Server.Config.{Config}
use sand_box_rust.Server.Handlers.{RunCodeRequest, is_empty}
use sand_box_rust.Zygote.Manager.{SandboxLimits}
use sand_box_rust.Zygote.Pending.{Reply}
use sand_box_rust.Server.Child.{ChildEnd, child_result}
use sand_box_rust.Server.Python.{
  worker_paths, script_paths, worker_limits, script_limits, checked_preload, Worker, absent, dead,
  alive, Launch, in_worker, in_fresh, launch, launch_fresh, worker_result, launched, run,
}

abbrev pub limits_of : Launch → SandboxLimits
limits_of (in_worker _ limits) = limits
limits_of (in_fresh _ _ limits _ _) = limits

-- The limits that the configuration and the request ask for, apart from the paths.
abbrev pub IsConfined : Config → RunCodeRequest → SandboxLimits → Type 0
IsConfined c req l =
    (l.net ≡ (req.enable_network && c.enable_network))
    × ((l.uid ≡ c.sandbox_uid)
        × ((l.gid ≡ c.sandbox_gid)
            × ((l.max_as ≡ c.python_max_as_bytes)
                × ((l.timeout ≡ c.worker_timeout) × (l.privilege ≡ c.privilege)))))

abbrev pub IsPreloaded : Config → RunCodeRequest → Launch → Type 0
IsPreloaded c req (in_worker _ _) = is_empty (checked_preload c req) ≡ true
IsPreloaded c req (in_fresh _ preload _ _ _) = preload ≡ checked_preload c req

-- No path in privileged mode, else the configured library paths and these files of the system.
abbrev pub IsAllowed : Config → List (List ℕ) → List (List ℕ) → Type 0
IsAllowed c system paths =
    ((c.privilege ≡ true) × (paths ≡ []))
    ⊎ ((c.privilege ≡ false) × (paths ≡ c.python_lib_paths ++ (c.nodejs_lib_paths ++ system)))

abbrev pub network_files : List (List ℕ)
network_files =
    codes "/etc/ssl/certs"
    ∷ codes "/etc/hosts"
    ∷ codes "/etc/resolv.conf"
    ∷ codes "/etc/nsswitch.conf"
    ∷ codes "/etc/localtime"
    ∷ []

-- A fresh interpreter may also read the time zones.
abbrev pub HasPaths : Config → Launch → Type 0
HasPaths c (in_worker _ limits) = IsAllowed c network_files limits.allowed_paths
HasPaths c (in_fresh _ _ limits _ _) =
    IsAllowed c (network_files ++ codes "/usr/share/zoneinfo" ∷ []) limits.allowed_paths

abbrev pub IsGiven : Config → RunCodeRequest → Launch → Type 0
IsGiven c req l = IsConfined c req (limits_of l) × HasPaths c l × IsPreloaded c req l

worker_paths-IsAllowed : (c : Config) → IsAllowed c network_files (worker_paths c)
unfolding worker_paths
worker_paths-IsAllowed c = elim (Bool-cases c.privilege) [
  | inl e ↦ inl (e, rw e refl)
  | inr e ↦ inr (e, rw e refl)
]

script_paths-IsAllowed :
    (c : Config) → IsAllowed c (network_files ++ codes "/usr/share/zoneinfo" ∷ []) (script_paths c)
unfolding script_paths
script_paths-IsAllowed c = elim (Bool-cases c.privilege) [
  | inl e ↦ inl (e, rw e refl)
  | inr e ↦ inr (e, rw e refl)
]

fresh-IsGiven :
    (c : Config) (req : RunCodeRequest) (code : List ℕ) (restart : Bool)
    → IsGiven c req (launch_fresh c req code restart)
unfolding script_limits
fresh-IsGiven c req code restart =
    ((refl, (refl, (refl, (refl, (refl, refl))))), script_paths-IsAllowed c, refl)

-- Whichever way the code is run, it has the network only if the request asks for it and the
-- configuration allows it, the user, group, memory limit, time limit, mode and paths of the
-- configuration, and its preload is run: only without one does the code go to the worker.
pub launch-IsConfined :
    (c : Config) (req : RunCodeRequest) (code : List ℕ) (worker : Worker)
    → IsConfined c req (limits_of (launch c req code worker))
      × HasPaths c (launch c req code worker)
      × IsPreloaded c req (launch c req code worker)
unfolding launch worker_limits script_limits
launch-IsConfined c req code worker =
    let fresh_one = launch_fresh c req code in
    if-cases (IsGiven c req) (c.python_zygote && is_empty (checked_preload c req))
      (elim worker [
        | alive ↦ in_worker code (worker_limits c req)
        | dead ↦ fresh_one true
        | absent ↦ fresh_one false
      ])
      (fresh_one false) (λ fast. by_worker (ground arith) worker)
      (λ _. fresh-IsGiven c req code false)
  where
    by_worker :
        is_empty (checked_preload c req) ≡ true
        → (w : Worker)
        → IsGiven c req (elim w [
          | alive ↦ in_worker code (worker_limits c req)
          | dead ↦ launch_fresh c req code true
          | absent ↦ launch_fresh c req code false
        ])
    by_worker bare alive =
        ((refl, (refl, (refl, (refl, (refl, refl))))), worker_paths-IsAllowed c, bare)
    by_worker bare dead = fresh-IsGiven c req code true
    by_worker bare absent = fresh-IsGiven c req code false

launched_same :
    (c : Config) (req : RunCodeRequest) (z y : Launch → Reply) (k j : Launch → ChildEnd)
    → ((l : Launch) → IsGiven c req l → z l ≡ y l)
    → ((l : Launch) → IsGiven c req l → k l ≡ j l)
    → (l : Launch) → IsGiven c req l
    → launched z k l ≡ launched y j l
launched_same c req z y k j hz hk (in_worker code limits) g = ap worker_result (hz _ g)
launched_same c req z y k j hz hk (in_fresh code preload limits vars restart) g =
    ap (child_result (codes "python")) (hk _ g)

-- What `run` returns depends on the worker and on fresh interpreters only through what they do under
-- what the configuration and the request ask for: two systems that do the same under it give the same
-- result. This is the network only if both allow it; the user, group, memory limit, time limit and
-- mode of the configuration; as allowed paths, in privileged mode none, else the configured ones of
-- both languages and five files of the network and the clock, and in a fresh interpreter also
-- /usr/share/zoneinfo; and the preload that the configuration lets through, in the worker none.
pub run-IsConfined :
    (decode : List ℕ → Option (List ℕ)) (decode_error : List ℕ → List ℕ) (c : Config)
    (req : RunCodeRequest) (z y : Launch → Reply) (k j : Launch → ChildEnd) (worker : Worker)
    → ((l : Launch)
        → IsConfined c req (limits_of l) × HasPaths c l × IsPreloaded c req l
        → z l ≡ y l)
    → ((l : Launch)
        → IsConfined c req (limits_of l) × HasPaths c l × IsPreloaded c req l
        → k l ≡ j l)
    → run decode decode_error z k c worker req ≡ run decode decode_error y j c worker req
unfolding run
run-IsConfined decode decode_error c req z y k j worker hz hk =
    elim (Option-cases (decode req.code)) [
      | inl e ↦ rw (e, run) refl
      | inr (code, e) ↦
          rw (e, run)
            (launched_same c req z y k j hz hk (launch c req code worker)
              (launch-IsConfined c req code worker))
    ]
