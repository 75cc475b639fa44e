-- ===== src/Zygote/Pending.antt =====
-- `Pending`, the map of requests in flight, and what the manager has sent: replies to its callers
-- and frames to the worker.
pub mod Laws
use sand_box_rust.Base.{ℕ, Bool, List, [], ◌∷◌, ◌++◌, Option, none, some, ◌==◌, if◌then◌else◌, ℤ}

-- What a oneshot channel carries: `(stdout, stderr, exit_code)`.
pub record Reply : Type 0 where
  pub stdout : List ℕ
  pub stderr : List ℕ
  pub exit_code : ℤ

-- `tx` names the oneshot channel whose sender is stored here; `none` once it is taken.
pub record Pending : Type 0 where
  pub out : List ℕ
  pub err : List ℕ
  pub tx : Option ℕ

-- The `DashMap`, as an association list in which a key stands once.
abbrev pub PendingMap : Type 0
PendingMap = List (ℕ × Pending)

unfoldable pub lookup : ℕ → PendingMap → Option Pending
lookup k [] = none
lookup k ((j, e) ∷ m) = if j == k then some e else lookup k m

unfoldable pub insert : ℕ → Pending → PendingMap → PendingMap
insert k e [] = (k, e) ∷ []
insert k e ((j, x) ∷ m) = if j == k then (k, e) ∷ m else (j, x) ∷ insert k e m

unfoldable pub remove : ℕ → PendingMap → PendingMap
remove k [] = []
remove k ((j, x) ∷ m) = if j == k then m else (j, x) ∷ remove k m

-- The manager's shared state. `replies` are the values sent, each with its channel, and `written`
-- the frames handed to `write_all`, oldest first.
pub record World : Type 0 where
  pub pending : PendingMap
  pub running : Bool
  pub replies : List (ℕ × Reply)
  pub written : List (List ℕ)

-- `if let Some(tx) = tx { let _ = tx.send(r); }`
unfoldable pub send : Option ℕ → Reply → List (ℕ × Reply) → List (ℕ × Reply)
send none r sent = sent
send (some c) r sent = sent ++ (c, r) ∷ []
