-- ===== src/Zygote/Reader.antt =====
-- `read_loop` of server/src/services/zygote.rs, and the constants that it uses.
pub mod Rounds
pub mod Chunks
pub mod Frames
pub mod Invariant
pub mod Bounds
pub mod Requests
pub mod Overflow
pub mod Answers
pub mod Growth
use sand_box_rust.Base.{
  ℕ, zero, suc, ◌+◌, ◌-◌, ◌*◌, ◌^◌, Bool, false, ◌&&◌, ◌||◌, List, [], ◌∷◌, ◌++◌, none, some, ltb,
  ◌==◌, if◌then◌else◌, length, take, drop, ℤ, neg, i32_of_bits, min, codes, to_string,
}
use sand_box_rust.Wire.{
  header_size, msg_kill, msg_stdout, msg_stderr, msg_done, header, from_be_bytes, encode_frame,
}
use sand_box_rust.Utf8.{from_utf8, from_utf8_lossy}
use sand_box_rust.Zygote.Pending.{Reply, Pending, PendingMap, World, lookup, insert, remove, send}

abbrev pub usize_max : ℕ
usize_max = 2 ^ 64 - 1

abbrev pub default_max_output_bytes : ℕ
default_max_output_bytes = 10 * 1024 * 1024

-- `usize::saturating_add`
abbrev pub saturating_add : ℕ → ℕ → ℕ
saturating_add a b = min (a + b) usize_max

-- The exit code in a MSG_DONE payload, -1 if it is shorter than four bytes.
unfoldable pub done_code : List ℕ → ℤ
done_code (a ∷ b ∷ c ∷ d ∷ _) = i32_of_bits (from_be_bytes a b c d)
done_code _ = neg 1

abbrev pub is_output : ℕ → Bool
is_output mtype = mtype == msg_stdout || mtype == msg_stderr

-- The `match mtype` on the entry: the entry afterwards, and the replies sent.
unfoldable pub on_message : ℕ → List ℕ → Pending → List (ℕ × Reply) → Pending × List (ℕ × Reply)
on_message mtype payload e sent =
    if mtype == msg_stdout
    then (record e { out = e.out ++ payload }, sent)
    else if mtype == msg_stderr
    then (record e { err = e.err ++ payload }, sent)
    else if mtype == msg_done
    then (
      record e { tx = none },
      send e.tx
          (record {
            stdout = from_utf8_lossy e.out;
            stderr = from_utf8_lossy e.err;
            exit_code = done_code payload;
          })
          sent,
    )
    else (e, sent)

-- `match String::from_utf8(out_bytes)`, whose error case decodes the same bytes lossily.
unfoldable pub limit_out : List ℕ → List ℕ
limit_out bytes = elim (from_utf8 bytes) [ some s ↦ s | none ↦ from_utf8_lossy bytes ]

unfoldable pub limit_message : ℕ → List ℕ
limit_message max_output =
    codes "output limit exceeded (> " ++ (to_string max_output ++ codes " bytes); process killed")

-- `limit_result`: the entry is removed, its caller told, and the child killed.
unfoldable pub over_limit : ℕ → ℕ → Pending → World → World
over_limit max_output req_id e w = record w {
  pending = remove req_id w.pending;
  replies =
      send e.tx
        (record { stdout = limit_out e.out; stderr = limit_message max_output; exit_code = neg 1 })
        w.replies;
  written = w.written ++ encode_frame msg_kill req_id [] ∷ [];
}

abbrev pub exceeds : ℕ → ℕ → Pending → Bool
exceeds max_output mtype e =
    is_output mtype && ltb max_output (saturating_add (length e.out) (length e.err))

-- One frame whose entry was found.
unfoldable pub deliver_to : ℕ → ℕ → ℕ → List ℕ → Pending → World → World
deliver_to max_output mtype req_id payload e w =
    let (e', sent) = on_message mtype payload e w.replies in
    let w' : World = record w { pending = insert req_id e' w.pending; replies = sent } in
    if exceeds max_output mtype e' then over_limit max_output req_id e' w' else w'

-- The body of the inner loop after the frame has left `frame_buf`; a frame for an unknown request
-- is dropped.
unfoldable pub deliver : ℕ → ℕ → ℕ → List ℕ → World → World
deliver max_output mtype req_id payload w = elim (lookup req_id w.pending) [
  | none ↦ w
  | some e ↦ deliver_to max_output mtype req_id payload e w
]

-- How a pass over `frame_buf` ends: it waits for more bytes, it closes the reader (`break 'read`),
-- or (never) the rounds given to the loop run out.
pub data Drain : Type 0 where
  waiting : List ℕ → World → Drain
  closing : World → Drain
  stuck : Drain

-- `while frame_buf.len() >= HEADER_SIZE`, by rounds.
unfoldable pub drain_loop : ℕ → ℕ → World → List ℕ → Drain
drain_loop zero max_output w buf = stuck
drain_loop (suc fuel) max_output w buf = elim (header buf) [
  | none ↦ waiting buf w
  | some h ↦
      let size = header_size + h.plen in
      let payload = take h.plen (drop header_size buf) in
      let rest =
        drain_loop fuel max_output (deliver max_output h.mtype h.req_id payload w)
          (drop size buf) in
      if ltb max_output h.plen
      then closing w
      else if ltb (length buf) size
      then waiting buf w
      else rest
]

-- A frame has nine bytes at least, so a round for each byte and one more are enough.
unfoldable pub drain : ℕ → World → List ℕ → Drain
drain max_output w buf = drain_loop (suc (length buf)) max_output w buf

-- `if let Some(tx) = entry.tx.take()` over all entries: the replies on a lost connection.
unfoldable pub fail_all : List ℕ → PendingMap → List (ℕ × Reply) → List (ℕ × Reply)
fail_all msg [] sent = sent
fail_all msg ((k, e) ∷ m) sent =
    fail_all msg m (send e.tx (record { stdout = []; stderr = msg; exit_code = neg 1 }) sent)

-- `_fail_pending`, and the end of `read_loop`: every waiting caller is sent the message, and the map
-- is cleared.
unfoldable pub fail_pending : List ℕ → World → World
fail_pending msg w = record w { replies = fail_all msg w.pending w.replies; pending = [] }

unfoldable pub connection_lost : World → World
unfolding fail_pending
connection_lost w = fail_pending (codes "zygote connection lost") (record w { running = false })

-- What `rd.read(&mut buf).await` returns: some bytes, `Ok(0)`, or an error.
pub data ReadResult : Type 0 where
  bytes : List ℕ → ReadResult
  eof : ReadResult
  failed : ReadResult

-- The reader after the reads so far: parked in `read` with its buffer, or ended.
pub data Reader : Type 0 where
  parked : List ℕ → World → Reader
  ended : World → Reader
  out_of_rounds : Reader

-- `Ok(0) => break`, also for a read of no bytes.
unfoldable pub read_loop : ℕ → List ℕ → World → List ReadResult → Reader
read_loop max_output frame_buf w [] = parked frame_buf w
read_loop max_output frame_buf w (eof ∷ _) = ended (connection_lost w)
read_loop max_output frame_buf w (failed ∷ _) = ended (connection_lost w)
read_loop max_output frame_buf w (bytes [] ∷ _) = ended (connection_lost w)
read_loop max_output frame_buf w (bytes (b ∷ bs) ∷ rs) =
    elim (drain max_output w (frame_buf ++ b ∷ bs)) [
      | waiting buf w' ↦ read_loop max_output buf w' rs
      | closing w' ↦ ended (connection_lost w')
      | stuck ↦ out_of_rounds
    ]
