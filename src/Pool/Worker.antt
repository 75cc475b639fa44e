-- ===== src/Pool/Worker.antt =====
-- The event loop of runtime/pool/zygote_worker.py: the control socket, the children's pipes and the
-- frames sent to the server. What the operating system answers to a call is an argument, by the
-- number of the call.
pub mod Stream
pub mod Tables
pub mod Links
pub mod Phases
pub mod Codes
pub mod Ends
pub mod Frames
pub mod Pipes
pub mod Invariant
pub mod Told
pub mod Rounds
pub mod Delivery
pub mod Answer
use sand_box_rust.Base.{
  ℕ, zero, suc, ◌+◌, ◌*◌, Bool, true, List, [], ◌∷◌, ◌++◌, none, some, if◌then◌else◌, ◌==◌, ltb,
  length, take, drop, neg, codes, All, ◌<◌, ◌≤◌, ◌≡◌, ◌≢◌,
}
use sand_box_rust.Wire.{header}
use sand_box_rust.Pool.Protocol
use sand_box_rust.Pool.Protocol.{
  header_size, msg_run, msg_kill, msg_stdout, msg_stderr, msg_done, pack_done,
}
use sand_box_rust.Pool.State.{
  update, Worker, init, Sent, Waited, Os, Outcome, and_then, fork, kill, reap, forked, raised, took,
  broken, gone, zombie, alive, running, exited,
}

-- `while self._out`, over the answers to `send`.
unfoldable pub flush_loop : List Sent → Worker → List ℕ → Outcome
flush_loop answers w [] = running (record w { out = [] })
flush_loop [] w (b ∷ bs) = running (record w { out = b ∷ bs })
flush_loop (broken ∷ _) w (b ∷ bs) = exited 0 (record w { out = b ∷ bs })
flush_loop (took zero ∷ _) w (b ∷ bs) = running (record w { out = b ∷ bs })
flush_loop (took (suc n) ∷ answers) w (b ∷ bs) =
    flush_loop answers (record w { sent = w.sent ++ take (suc n) (b ∷ bs) }) (drop (suc n) (b ∷ bs))

unfoldable pub flush : Os → Worker → Outcome
flush os w = flush_loop (os.send_some w.calls) (record w { calls = suc w.calls }) w.out

unfoldable pub send : Os → ℕ → ℕ → List ℕ → Worker → Outcome
send os msg_type req_id payload w = flush os (record w {
  out = w.out ++ Protocol.encode_frame msg_type req_id payload;
  emitted = w.emitted ++ record { mtype = msg_type; req_id = req_id; payload = payload } ∷ [];
})

-- An exception in a handler ends what the handler does, and the loop goes on.
pub data Handled : Type 0 where
  handled : Worker → Handled
  crashed : Worker → Handled

-- The ends to write to, which only the child keeps, are not part of the state.
unfoldable pub handle_run : Os → ℕ → List ℕ → Worker → Handled
handle_run os req_id payload w =
    let w' : Worker = record w { calls = suc w.calls } in
    if os.loads payload
    then elim (os.run_child w.calls w.fd_map) [
      | raised ↦ crashed w'
      | forked pid out_r err_r ↦ handled (record w' {
        log = w.log ++ fork req_id pid ∷ [];
        started = w.started ++ req_id ∷ [];
        reqs = update w.reqs req_id (some (record { pid = pid; open_fds = out_r ∷ err_r ∷ [] }));
        fd_map =
            update (update w.fd_map out_r (some (req_id, msg_stdout))) err_r
              (some (req_id, msg_stderr));
      })
    ]
    else crashed w

unfoldable pub handle_kill : ℕ → Worker → Worker
handle_kill req_id w = elim (w.reqs req_id) [
  | none ↦ w
  | some req ↦ record w { log = w.log ++ kill req.pid ∷ [] }
]

-- The body of the loop over `_read_ctrl_frames` in `serve`.
unfoldable pub handle_frame : Os → ℕ → ℕ → List ℕ → Worker → Handled
handle_frame os mtype req_id payload w =
    if mtype == msg_run
    then handle_run os req_id payload w
    else if mtype == msg_kill
    then handled (handle_kill req_id w)
    else handled w

-- The loop goes on after a frame that was handled.
abbrev pub or_leave : Handled → (Worker → Outcome) → Outcome
or_leave (handled w) f = f w
or_leave (crashed w) f = running w

abbrev pub max_frame_payload : ℕ
max_frame_payload = 16 * 1024 * 1024

-- `while len(self._recv_buf) >= P.HEADER_SIZE`, with the handler of each frame, by rounds; a crash
-- leaves the rest in the buffer.
unfoldable pub ctrl_loop : ℕ → Os → Worker → Outcome
ctrl_loop zero os w = running w
ctrl_loop (suc rounds) os w = elim (header w.recv_buf) [
  | none ↦ running w
  | some h ↦
      if ltb max_frame_payload h.plen
      then exited 1 w
      else if ltb (length w.recv_buf) (header_size + h.plen)
      then running w
      else or_leave
          (handle_frame os h.mtype h.req_id (take h.plen (drop header_size w.recv_buf))
            (record w { recv_buf = drop (header_size + h.plen) w.recv_buf }))
          (λ v. ctrl_loop rounds os v)
]

-- `_read_ctrl_frames` on what `recv` gives, and the handlers of its frames. A frame has nine bytes
-- at least, so a round for each byte and one more are enough.
unfoldable pub read_ctrl_frames : Os → List ℕ → Worker → Outcome
read_ctrl_frames os [] w = exited 0 w
read_ctrl_frames os (b ∷ bs) w =
    let buf = w.recv_buf ++ b ∷ bs in ctrl_loop (suc (length buf)) os (record w { recv_buf = buf })

abbrev pub discard : ℕ → List ℕ → List ℕ
discard fd [] = []
discard fd (x ∷ xs) = if fd == x then discard fd xs else x ∷ discard fd xs

-- The end of `_teardown_pipe_fd`, once both pipes are closed, by what the first `waitpid` gives.
unfoldable pub finish : Os → ℕ → ℕ → Waited → Worker → Outcome
finish os req_id pid gone w = send os msg_done req_id (pack_done (neg 1)) w
finish os req_id pid (zombie exit_code) w =
    send os msg_done req_id (pack_done exit_code) (record w { log = w.log ++ reap pid ∷ [] })
finish os req_id pid (alive (some exit_code)) w =
    and_then (send os msg_stderr req_id (codes "process terminated") w) (λ v.
      send os msg_done req_id (pack_done exit_code)
        (record v { log = v.log ++ kill pid ∷ reap pid ∷ [] }))
finish os req_id pid (alive none) w =
    and_then (send os msg_stderr req_id (codes "process terminated") w)
      (λ v. send os msg_done req_id (pack_done (neg 1)) (record v { log = v.log ++ kill pid ∷ [] }))

-- `os.close(fd)` makes the descriptor free again, which its removal from `fd_map` stands for.
unfoldable pub teardown_pipe_fd : Os → ℕ → ℕ → Worker → Outcome
teardown_pipe_fd os fd req_id w =
    let w' : Worker = record w { fd_map = update w.fd_map fd none } in
    elim (w.reqs req_id) [
      | none ↦ running w'
      | some req ↦ elim (discard fd req.open_fds) [
        | [] ↦
            finish os req_id req.pid (os.wait w.calls req.pid)
              (record w' { reqs = update w.reqs req_id none; calls = suc w.calls })
        | x ∷ xs ↦
            running
              (record w' { reqs = update w.reqs req_id (some (record req { open_fds = x ∷ xs })) })
      ]
    ]

-- `bytes` is what `os.read` gives: nothing at the end of the stream and on an error.
unfoldable pub on_pipe_readable : Os → ℕ → List ℕ → Worker → Outcome
on_pipe_readable os fd bytes w = elim (w.fd_map fd) [
  | none ↦ running w
  | some s ↦ elim bytes [ [] ↦ teardown_pipe_fd os fd s.0 w | b ∷ bs ↦ send os s.1 s.0 (b ∷ bs) w ]
]

abbrev pub send_buf_cap : ℕ
send_buf_cap = 4 * 1024 * 1024

-- A readable descriptor of `select`, with what reading it gives; `failed` is an exception of `recv`,
-- BlockingIOError or one that is logged.
pub data Ready : Type 0 where
  failed : Ready
  ctrl : List ℕ → Ready
  pipe : ℕ → List ℕ → Ready

unfoldable pub on_ready : Os → Ready → Worker → Outcome
on_ready os failed w = running w
on_ready os (ctrl chunk) w = read_ctrl_frames os chunk w
on_ready os (pipe fd bytes) w = on_pipe_readable os fd bytes w

-- `for fd in readable`
unfoldable pub on_all : Os → List Ready → Worker → Outcome
on_all os [] w = running w
on_all os (r ∷ rs) w = and_then (on_ready os r w) (λ v. on_all os rs v)

-- One round of `serve`, on what `select` gives.
unfoldable pub serve_round : Os → Bool → List Ready → Worker → Outcome
serve_round os writable readable w =
    and_then (if writable then flush os w else running w) (λ v. on_all os readable v)

-- What `select` can give: pipes only while the buffer has headroom, a writable socket only if there
-- is something to send, and never more than 65536 bytes of one descriptor.
abbrev pub IsSelected : Worker → Ready → Type 0
IsSelected w failed = Unit
IsSelected w (ctrl chunk) = All (λ b. b < 256) chunk × (length chunk ≤ 65536)
IsSelected w (pipe fd bytes) =
    (length w.out < send_buf_cap) × (w.fd_map fd ≢ none) × (length bytes ≤ 65536)

-- The worker after some rounds of `serve`, from its start.
pub data Serves (os : Os) : Outcome → Type 0 where
  start : Serves os (running init)
  round :
      (w : Worker) (writable : Bool) (readable : List Ready)
      → Serves os (running w)
      → (writable ≡ true → w.out ≢ [])
      → All (IsSelected w) readable
      → Serves os (serve_round os writable readable w)
