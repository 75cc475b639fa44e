-- ===== src/Server/Restart.antt =====
-- The restart of the worker in server/src/main.rs: `request_zygote_restart` and `try_restart_zygote`,
-- interleaved at every access to the gate, the lock and the managers.
pub mod Laws
use sand_box_rust.Base.{ℕ, ◌+◌, ◌≡◌, Bool, true, false, Option, none, some, ◌==◌, if◌then◌else◌}

-- Where a call of `request_zygote_restart` stands; a manager is named by a number.
pub data Phase : Type 0 where
  idle : Phase
  begun : Phase
  building : Phase
  swapping : ℕ → Phase
  ending : Phase
  declined : Phase
  finished : Phase

-- `running` is the `is_running` of each manager and tells which processes run, `gate` is `ZYGOTE_RESTARTING`, and `built` is the
-- number of worker processes there have been. `abandoned` are the processes whose
-- `ZygoteManager::new` failed after it had started them, and which nothing holds.
pub record Server : Type 0 where
  pub gate : Bool
  pub zygote : Option ℕ
  pub running : ℕ → Bool
  pub tasks : ℕ → Phase
  pub built : ℕ
  pub abandoned : ℕ → Bool

abbrev pub set {ℓ} : {A : Type ℓ} → (ℕ → A) → ℕ → A → ℕ → A
set f i v j = if i == j then v else f j

-- `get_zygote` and `is_running`, on what the lock guards.
abbrev pub is_up : Option ℕ → (ℕ → Bool) → Bool
is_up none running = false
is_up (some z) running = running z

-- `try_begin_restart` and the early return.
unfoldable pub request : ℕ → Server → Server
request t s =
    if s.gate
    then record s { tasks = set s.tasks t declined }
    else record s { gate = true; tasks = set s.tasks t begun }

-- The check before the new process is built.
unfoldable pub check : ℕ → Server → Server
check t s =
    if is_up s.zygote s.running
    then record s { tasks = set s.tasks t ending }
    else record s { tasks = set s.tasks t building }

-- The check under the write lock, and the swap; a manager that is not needed is dropped.
unfoldable pub swap : ℕ → ℕ → Server → Server
swap t z s =
    if is_up s.zygote s.running
    then record s { running = set s.running z false; tasks = set s.tasks t ending }
    else record s { zygote = some z; tasks = set s.tasks t ending }

unfoldable pub end_restart : ℕ → Server → Server
end_restart t s = record s { gate = false; tasks = set s.tasks t finished }

pub data Step (s : Server) : Server → Type 0 where
  requests : (t : ℕ) → s.tasks t ≡ idle → Step s (request t s)
  checks : (t : ℕ) → s.tasks t ≡ begun → Step s (check t s)
  build_fails : (t : ℕ) → s.tasks t ≡ building → Step s (record s { tasks = set s.tasks t ending })
  build_abandons :
      (t : ℕ)
      → s.tasks t ≡ building
      → Step s (record s {
        running = set s.running s.built true;
        tasks = set s.tasks t ending;
        built = s.built + 1;
        abandoned = set s.abandoned s.built true;
      })
  builds :
      (t : ℕ)
      → s.tasks t ≡ building
      → Step s (record s {
        running = set s.running s.built true;
        tasks = set s.tasks t (swapping s.built);
        built = s.built + 1;
      })
  swaps : (t z : ℕ) → s.tasks t ≡ swapping z → Step s (swap t z s)
  ends : (t : ℕ) → s.tasks t ≡ ending → Step s (end_restart t s)
  dies : (z : ℕ) → Step s (record s { running = set s.running z false })

-- The server when it begins to answer, with or without a worker.
abbrev pub booted : Bool → Server
booted true = record {
  gate = false;
  zygote = some 0;
  running = λ z. z == 0;
  tasks = λ _. idle;
  built = 1;
  abandoned = λ _. false;
}
booted false = record {
  gate = false;
  zygote = none;
  running = λ _. false;
  tasks = λ _. idle;
  built = 0;
  abandoned = λ _. false;
}

-- Its first `ZygoteManager::new` failed after it had started the process.
abbrev pub abandoned_boot : Server
abandoned_boot = record (booted false) { running = λ z. z == 0; built = 1; abandoned = λ z. z == 0 }

pub data Reach (worker : Bool) : Server → Type 0 where
  boot : Reach worker (booted worker)
  boot_abandons : worker ≡ false → Reach worker abandoned_boot
  later : {s r : Server} → Reach worker s → Step s r → Reach worker r
