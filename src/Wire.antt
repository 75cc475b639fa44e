-- ===== src/Wire.antt =====
-- The frame format between the manager and the zygote worker: server/src/services/zygote.rs.
pub mod RoundTrip
use sand_box_rust.Base.{
  ℕ, ◌+◌, ◌*◌, ◌/◌, ◌%◌, ◌^◌, ◌<◌, List, [], ◌∷◌, ◌++◌, Option, none, some, length,
}

abbrev pub header_size : ℕ
header_size = 9

abbrev pub msg_run : ℕ
msg_run = 1

abbrev pub msg_kill : ℕ
msg_kill = 2

abbrev pub msg_stdout : ℕ
msg_stdout = 3

abbrev pub msg_stderr : ℕ
msg_stderr = 4

abbrev pub msg_done : ℕ
msg_done = 5

abbrev pub IsByte : ℕ → Type 0
IsByte b = b < 256

abbrev pub IsU32 : ℕ → Type 0
IsU32 n = n < 2 ^ 32

-- `u32::to_be_bytes` and `u32::from_be_bytes`.
unfoldable pub to_be_bytes : ℕ → List ℕ
to_be_bytes n = (n / 2 ^ 24 % 256) ∷ (n / 2 ^ 16 % 256) ∷ (n / 2 ^ 8 % 256) ∷ (n % 256) ∷ []

unfoldable pub from_be_bytes : ℕ → ℕ → ℕ → ℕ → ℕ
from_be_bytes a b c d = a * 2 ^ 24 + b * 2 ^ 16 + c * 2 ^ 8 + d

-- `payload.len() as u32` keeps the low 32 bits.
unfoldable pub encode_frame : ℕ → ℕ → List ℕ → List ℕ
unfolding to_be_bytes
encode_frame msg_type req_id payload =
    to_be_bytes (length payload % 2 ^ 32) ++ ((msg_type ∷ []) ++ (to_be_bytes req_id ++ payload))

pub record Header : Type 0 where
  pub plen : ℕ
  pub mtype : ℕ
  pub req_id : ℕ

-- The first nine bytes, which are there exactly when the buffer has `header_size` of them.
unfoldable pub header : List ℕ → Option Header
unfolding from_be_bytes
header (a ∷ b ∷ c ∷ d ∷ t ∷ e ∷ f ∷ g ∷ h ∷ rest) =
    some (record { plen = from_be_bytes a b c d; mtype = t; req_id = from_be_bytes e f g h })
header _ = none

abbrev pub IsFrame : ℕ → ℕ → List ℕ → Type 0
IsFrame mtype req_id payload = IsByte mtype × IsU32 req_id × IsU32 (length payload)
