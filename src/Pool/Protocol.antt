-- ===== src/Pool/Protocol.antt =====
-- runtime/pool/protocol.py: the worker's side of the frame format. The types of the messages and
-- the size of the header have the server's values.
pub mod Laws
use sand_box_rust.Base.{ℕ, suc, ◌+◌, ◌-◌, ◌^◌, List, [], ◌∷◌, ◌++◌, length, ℤ, pos, negsuc}
use sand_box_rust.Wire.{to_be_bytes}

abbrev pub header_size : ℕ
header_size = 9

abbrev pub msg_run : ℕ
msg_run = 1

abbrev pub msg_kill : ℕ
msg_kill = 2

abbrev pub msg_stdout : ℕ
msg_stdout = 3

abbrev pub msg_stderr : ℕ
msg_stderr = 4

abbrev pub msg_done : ℕ
msg_done = 5

-- `HEADER.pack(len(payload), msg_type, req_id) + payload`. A field that does not fit raises
-- struct.error; the worker's fields fit.
unfoldable pub encode_frame : ℕ → ℕ → List ℕ → List ℕ
encode_frame msg_type req_id payload =
    (to_be_bytes (length payload) ++ ((msg_type ∷ []) ++ to_be_bytes req_id)) ++ payload

-- `DONE_STRUCT.pack(exit_code)`, in two's complement.
unfoldable pub pack_done : ℤ → List ℕ
pack_done (pos n) = to_be_bytes n
pack_done (negsuc n) = to_be_bytes (2 ^ 32 - suc n)
