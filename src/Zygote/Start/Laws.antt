-- ===== src/Zygote/Start/Laws.antt =====
-- server/src/services/zygote.rs: what `ZygoteManager::new` leaves open on each path.
use sand_box_rust.Base.{
  ℕ, ◌*◌, ◌≡◌, ◌≢◌, refl, false, List, [], ◌∷◌, ◌++◌, Option, some, if-cases, ==_refl, ==_ne,
  length, length-append, arith, All, Option-cases, inl, inr,
}
use sand_box_rust.Server.Config.{ProxyConfig}
use sand_box_rust.Zygote.Manager.{RunPayload, init}
use sand_box_rust.Zygote.Start.{
  WorkerCommand, System, socketpair, not_started, alive, no_socketpair, no_spawn, no_nonblocking,
  no_registration, Started, started, failed, close, attach, new, worker_command,
}

module _ (to_json : RunPayload → List ℕ) (max_output : ℕ) where
  -- What is left, for a pair of sockets `s` and `w`.
  abbrev pub Leaves : ℕ → ℕ → Started → Type 0
  Leaves s w (started m h) =
      (m ≡ init to_json max_output) × (h ≡ record { open_fds = s ∷ []; child = alive })
  Leaves s w (failed no_socketpair h) = ⊥
  Leaves s w (failed no_spawn h) = h ≡ record { open_fds = s ∷ w ∷ []; child = not_started }
  Leaves s w (failed no_nonblocking h) = h ≡ record { open_fds = []; child = alive }
  Leaves s w (failed no_registration h) = h ≡ record { open_fds = []; child = alive }

  attach-Leaves : (os : System) (s w : ℕ) → s ≢ w → Leaves s w (attach to_json max_output os s w)
  unfolding attach close
  attach-Leaves os s w apart =
      rw (==_ne s w apart, ==_refl w, ==_refl s)
        (if-cases (Leaves s w) os.set_nonblocking _ _
          (λ _. if-cases (Leaves s w) os.from_std _ _ (λ _. (refl, refl)) (λ _. refl)) (λ _. refl))

  -- A manager that starts is in its first state.
  abbrev pub IsFresh : Started → Type 0
  IsFresh (started m h) = m ≡ init to_json max_output
  IsFresh (failed e h) = Unit

  attach-IsFresh : (os : System) (s w : ℕ) → IsFresh (attach to_json max_output os s w)
  unfolding attach
  attach-IsFresh os s w =
      if-cases IsFresh os.set_nonblocking _ _
        (λ _. if-cases IsFresh os.from_std _ _ (λ _. refl) (λ _. tt)) (λ _. tt)

module _ (python_path lib_so lib_dir : List ℕ) (warm_modules : List (List ℕ)) (proxy : ProxyConfig)
    (path : Option (List ℕ)) where
  pub new-IsFresh :
      (to_json : RunPayload → List ℕ) (max_output : ℕ) (os : System)
      → IsFresh to_json max_output
          (new to_json max_output os python_path lib_so lib_dir warm_modules proxy path)
  unfolding new
  new-IsFresh to_json max_output os = elim (Option-cases (socketpair os.rc os.fds)) [
    | inl e ↦ rw (e, new) tt
    | inr ((s, w), e) ↦
        rw (e, new)
          (if-cases (IsFresh to_json max_output)
            (os.spawns (worker_command python_path lib_so lib_dir warm_modules proxy path w)) _ _
            (λ _. attach-IsFresh to_json max_output os s w) (λ _. tt))
  ]

  -- With a pair of sockets in hand, `new` either succeeds and holds exactly the server's end and the
  -- running worker, with the manager in its first state; or fails at a later step with no descriptor
  -- left but the worker's process running; or fails to spawn, and leaves both descriptors open.
  pub new-Leaves :
      (to_json : RunPayload → List ℕ) (max_output : ℕ) (os : System) (s w : ℕ)
      → socketpair os.rc os.fds ≡ some (s, w)
      → s ≢ w
      → Leaves to_json max_output s w
          (new to_json max_output os python_path lib_so lib_dir warm_modules proxy path)
  unfolding new
  new-Leaves to_json max_output os s w pair apart =
      rw (pair, new)
        (if-cases (Leaves to_json max_output s w)
          (os.spawns (worker_command python_path lib_so lib_dir warm_modules proxy path w)) _ _
          (λ _. attach-Leaves to_json max_output os s w apart) (λ _. refl))

  -- The descriptors of an attempt that failed; those of a success are the manager's.
  abbrev pub left_open : Started → List ℕ
  left_open (started m h) = []
  left_open (failed e h) = h.open_fds

  abbrev pub leaked : (RunPayload → List ℕ) → ℕ → List System → List ℕ
  leaked to_json max_output [] = []
  leaked to_json max_output (os ∷ oss) =
      left_open (new to_json max_output os python_path lib_so lib_dir warm_modules proxy path)
      ++ leaked to_json max_output oss

  -- A system that gives the sockets, and on which the interpreter cannot be started.
  abbrev pub IsRefusing : System → Type 0
  IsRefusing os =
      ((p : ℕ × ℕ) × (socketpair os.rc os.fds ≡ some p))
      × ((command : WorkerCommand) → os.spawns command ≡ false)

  length-left_open :
      (to_json : RunPayload → List ℕ) (max_output : ℕ) (os : System)
      → IsRefusing os
      → length
          (left_open (new to_json max_output os python_path lib_so lib_dir warm_modules proxy path))
        ≡ 2
  unfolding new
  length-left_open to_json max_output os ((p, pair), refuses) = rw (pair, new) (rw (refuses _) refl)

  -- Every attempt to start the worker that fails to spawn it costs the server two descriptors for good.
  pub length-leaked :
      (to_json : RunPayload → List ℕ) (max_output : ℕ) (oss : List System)
      → All IsRefusing oss
      → length (leaked to_json max_output oss) ≡ 2 * length oss
  length-leaked to_json max_output [] h = refl
  length-leaked to_json max_output (os ∷ oss) (h, hs) = omega (
    arith,
    length-append
        (left_open (new to_json max_output os python_path lib_so lib_dir warm_modules proxy path))
        (leaked to_json max_output oss),
    length-left_open to_json max_output os h,
    length-leaked to_json max_output oss hs,
  )
