-- ===== src/Server/Restart/Laws.antt =====
-- server/src/main.rs: the restart gate and the swap of the worker, over every interleaving.
use sand_box_rust.Base.{ℕ, ◌≡◌, refl, ◌⊎◌, Bool, true, false, Option, some, if-cases, arith}
use sand_box_rust.Server.Restart.{
  booted, Phase, idle, begun, building, swapping, ending, declined, finished, Server, set, is_up,
  request, check, swap, end_restart, Step, requests, checks, build_fails, build_abandons, builds,
  swaps, ends, dies, Reach, boot, boot_abandons, later,
}

-- Between `try_begin_restart` and `end_restart`.
abbrev pub in_flight : Phase → Bool
in_flight idle = false
in_flight begun = true
in_flight building = true
in_flight (swapping _) = true
in_flight ending = true
in_flight declined = false
in_flight finished = false

-- One restart at most, and the gate is closed while there is one.
abbrev Gated : Bool → (ℕ → Phase) → Type 0
Gated gate tasks =
    ((t : ℕ) → in_flight (tasks t) ≡ true → gate ≡ true)
    × ((t u : ℕ) → in_flight (tasks t) ≡ true → in_flight (tasks u) ≡ true → t ≡ u)

abbrev IsGated : Server → Type 0
IsGated s = Gated s.gate s.tasks

module _ (gate : Bool) (tasks : ℕ → Phase) (t : ℕ) (p : Phase) where
  moves : in_flight (tasks t) ≡ true → Gated gate tasks → Gated gate (set tasks t p)
  moves h (g, o) =
      ((λ u k. ground (arith, g t, g u)), (λ u v k l. ground (arith, o t u, o t v, o u v)))

  declines : in_flight p ≡ false → Gated gate tasks → Gated gate (set tasks t p)
  declines h (g, o) = ((λ u k. ground (arith, g u)), (λ u v k l. ground (arith, o u v)))

  enters : gate ≡ false → Gated gate tasks → Gated true (set tasks t p)
  enters h (g, o) = ((λ u k. refl), (λ u v k l. ground (arith, g u, g v)))

  releases :
      in_flight p ≡ false
      → in_flight (tasks t) ≡ true
      → Gated gate tasks
      → Gated false (set tasks t p)
  releases q h (g, o) = ((λ u k. ground (arith, o t u)), (λ u v k l. ground (arith, o u v)))

Step-IsGated : {s r : Server} → Step s r → IsGated s → IsGated r
unfolding request check swap end_restart
Step-IsGated {s} (requests t e) h =
    if-cases IsGated s.gate (record s { tasks = set s.tasks t declined })
      (record s { gate = true; tasks = set s.tasks t begun })
      (λ _. declines s.gate s.tasks t declined refl h)
      (λ opened. enters s.gate s.tasks t begun opened h)
Step-IsGated {s} (checks t e) h =
    let go = λ (p : Phase). moves s.gate s.tasks t p (rw e refl) h in
    if-cases IsGated (is_up s.zygote s.running) (record s { tasks = set s.tasks t ending })
      (record s { tasks = set s.tasks t building }) (λ _. go ending) (λ _. go building)
Step-IsGated {s} (build_fails t e) h = moves s.gate s.tasks t ending (rw e refl) h
Step-IsGated {s} (build_abandons t e) h = moves s.gate s.tasks t ending (rw e refl) h
Step-IsGated {s} (builds t e) h = moves s.gate s.tasks t (swapping s.built) (rw e refl) h
Step-IsGated {s} (swaps t z e) h =
    let go = moves s.gate s.tasks t ending (rw e refl) h in
    if-cases IsGated (is_up s.zygote s.running)
      (record s { running = set s.running z false; tasks = set s.tasks t ending })
      (record s { zygote = some z; tasks = set s.tasks t ending }) (λ _. go) (λ _. go)
Step-IsGated {s} (ends t e) h = releases s.gate s.tasks t finished refl (rw e refl) h
Step-IsGated {s} (dies z) h = h

booted-IsGated : (w : Bool) → IsGated (booted w)
booted-IsGated true = ((λ t h. absurd (ground arith)), (λ t u h k. absurd (ground arith)))
booted-IsGated false = ((λ t h. absurd (ground arith)), (λ t u h k. absurd (ground arith)))

Reach-IsGated : {w : Bool} {s : Server} → Reach w s → IsGated s
Reach-IsGated {w} boot = booted-IsGated w
Reach-IsGated (boot_abandons e) = booted-IsGated false
Reach-IsGated (later r s) = Step-IsGated s (Reach-IsGated r)

-- In every reachable state, at most one of the calls is between `try_begin_restart` and
-- `end_restart`.
pub single_flight :
    (w : Bool) (s : Server)
    → Reach w s
    → (t u : ℕ) → in_flight (s.tasks t) ≡ true
    → in_flight (s.tasks u) ≡ true
    → t ≡ u
single_flight w s r t u h k = (Reach-IsGated r).1 t u h k

-- No step replaces the server's worker while that worker runs.
pub keeps_running :
    (s r : Server) → Step s r → (z : ℕ) → s.zygote ≡ some z → s.running z ≡ true → r.zygote ≡ some z
unfolding request check swap end_restart
keeps_running s r (requests t e) z h up =
    if-cases (λ (x : Server). x.zygote ≡ some z) s.gate _ _ (λ _. h) (λ _. h)
keeps_running s r (checks t e) z h up =
    if-cases (λ (x : Server). x.zygote ≡ some z) (is_up s.zygote s.running) _ _ (λ _. h) (λ _. h)
keeps_running s r (build_fails t e) z h up = h
keeps_running s r (build_abandons t e) z h up = h
keeps_running s r (builds t e) z h up = h
keeps_running s r (swaps t y e) z h up =
    if-cases (λ (x : Server). x.zygote ≡ some z) (is_up s.zygote s.running) _ _ (λ _. h)
      (λ down. absurd (ground arith))
keeps_running s r (ends t e) z h up = h
keeps_running s r (dies y) z h up = h

-- A worker that runs is the server's, or held by the restart that is about to swap it in, or was
-- abandoned.
abbrev IsHeld : Option ℕ → (ℕ → Phase) → (ℕ → Bool) → ℕ → Type 0
IsHeld zygote tasks abandoned z =
    (zygote ≡ some z) ⊎ (((t : ℕ) × (tasks t ≡ swapping z)) ⊎ (abandoned z ≡ true))

abbrev AllHeld : Server → Type 0
AllHeld s = (z : ℕ) → s.running z ≡ true → IsHeld s.zygote s.tasks s.abandoned z
