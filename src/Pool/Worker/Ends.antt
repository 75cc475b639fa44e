-- ===== src/Pool/Worker/Ends.antt =====
-- The invariant of the worker, and the sending of frames.
use sand_box_rust.Base.{
  ℕ, ◌≤◌, ◌≡◌, ◌≢◌, refl, List, [], ◌∷◌, ◌++◌, length, none, some, All, arith, count, ℤ, pos,
  negsuc, codes, neg,
}
use sand_box_rust.Wire.{IsU32, IsByte, to_be_bytes}
use sand_box_rust.Zygote.Reader.Frames.{Frame}
use sand_box_rust.Pool.Protocol.{msg_stderr, msg_done, pack_done}
use sand_box_rust.Pool.State.{
  Worker, ReqInfo, Requests, FdMap, Os, forked, Outcome, running, exited, and_then, update, Waited,
  gone, zombie, alive, fork, kill, reap, Call,
}
use sand_box_rust.Pool.Worker.{flush, send, finish}
use sand_box_rust.Pool.Worker.Stream.{
  IsSmall, IsStream, On, On-and_then, IsFlushed, flush-IsStream, framed, send-IsStream,
}
use sand_box_rust.Pool.Worker.Codes.{
  IsRecorded, IsIn, IsIn-append, IsCodeOf, append-IsRecorded, send-IsRecorded,
}
use sand_box_rust.Pool.Worker.Tables.{IsLinked}
use sand_box_rust.Pool.Worker.Phases.{
  IsPhased, IsKnown, output-IsPhased, done-IsPhased, end-IsKnown,
}

-- A pipe gives its ends numbers that are not in use.
abbrev pub IsFresh : Os → Type 0
IsFresh os =
    (n : ℕ) (fd_map : FdMap) (pid o e : ℕ)
    → os.run_child n fd_map ≡ forked pid o e
    → (fd_map o ≡ none) × (fd_map e ≡ none) × (o ≢ e)

-- The server gives no two requests the same id.
abbrev pub IsNodup : List ℕ → Type 0
IsNodup started = (k : ℕ) → count k started ≤ 1

-- Ids fit the header, and what is read from pipes is sent as output.
abbrev pub IsIds : FdMap → Type 0
IsIds fd_map = (fd k t : ℕ) → fd_map fd ≡ some (k, t) → IsU32 k × IsByte t × (t ≢ msg_done)

abbrev pub IsInOrder : Requests → FdMap → List ℕ → List Frame → Type 0
IsInOrder reqs fd_map started fs =
    IsLinked reqs fd_map × IsPhased reqs started fs × IsKnown reqs started

abbrev pub IsTidy : Os → Worker → Type 0
IsTidy os w =
    All IsByte w.recv_buf
    × IsIds w.fd_map
    × IsRecorded os w.reqs w.log w.emitted
    × (IsNodup w.started → IsInOrder w.reqs w.fd_map w.started w.emitted)

abbrev pub IsInv : Os → Worker → Type 0
IsInv os w = IsStream w × IsTidy os w

pub On-imp :
    (P P' Q : Worker → Type 0) (o : Outcome) → ((w : Worker) → P w → P' w) → On P Q o → On P' Q o
On-imp P P' Q (running w) f h = f w h
On-imp P P' Q (exited code w) f h = h

IsFlushed-IsTidy : (os : Os) (w v : Worker) → IsTidy os w → IsFlushed w v → IsInv os v
IsFlushed-IsTidy os w v h (s, e_buf, e_reqs, e_fds, e_emitted, e_started, e_log) =
    (s, rw (e_buf, e_reqs, e_fds, e_emitted, e_started, e_log) h)

pub flush-IsInv : (os : Os) (w : Worker) → IsInv os w → On (IsInv os) IsStream (flush os w)
flush-IsInv os w (s, h) =
    On-imp (IsFlushed w) (IsInv os) IsStream (flush os w) (λ v. IsFlushed-IsTidy os w v h)
      (flush-IsStream os w s)

pub send-IsInv :
    (os : Os) (t k : ℕ) (p : List ℕ) (w : Worker)
    → IsStream w
    → IsSmall (record { mtype = t; req_id = k; payload = p })
    → IsTidy os (framed (record { mtype = t; req_id = k; payload = p }) w)
    → On (IsInv os) IsStream (send os t k p w)
send-IsInv os t k p w s small h =
    let v = framed (record { mtype = t; req_id = k; payload = p }) w in
    On-imp (IsFlushed v) (IsInv os) IsStream (send os t k p w) (λ u. IsFlushed-IsTidy os v u h)
      (send-IsStream os t k p w s small)

-- The worker between the removal of a request's entry and its last frame; `reqs` are the entries
-- before.
abbrev pub IsEnding : Os → Requests → ℕ → ℕ → Worker → Type 0
IsEnding os reqs k pid w =
    All IsByte w.recv_buf
    × IsIds w.fd_map
    × (IsRecorded os w.reqs w.log w.emitted × IsIn (fork k pid) w.log)
    × (w.reqs ≡ update reqs k none)
    × (IsNodup w.started
        → IsLinked w.reqs w.fd_map × IsPhased reqs w.started w.emitted × IsKnown reqs w.started)

length-pack_done : (c : ℤ) → length (pack_done c) ≤ 65536
unfolding pack_done to_be_bytes
length-pack_done (pos n) = omega arith
length-pack_done (negsuc n) = omega arith

module _ (os : Os) (reqs : Requests) (k : ℕ) (r : ReqInfo) (e : reqs k ≡ some r)
    (hk : IsU32 k) where
  IsFlushed-IsEnding :
      (w v : Worker)
      → IsEnding os reqs k r.pid w
      → IsFlushed w v
      → IsStream v × IsEnding os reqs k r.pid v
  IsFlushed-IsEnding w v h (s, e_buf, e_reqs, e_fds, e_emitted, e_started, e_log) =
      (s, rw (e_buf, e_reqs, e_fds, e_emitted, e_started, e_log) h)

  stderr-IsEnding :
      (p : List ℕ) (w : Worker)
      → IsStream w
      → IsEnding os reqs k r.pid w
      → length p ≤ 65536
      → On (λ v. IsStream v × IsEnding os reqs k r.pid v) IsStream (send os msg_stderr k p w)
  stderr-IsEnding p w s (bytes, ids, (recorded, forked_), e_reqs, h) small =
      let f : Frame = record { mtype = msg_stderr; req_id = k; payload = p } in
      On-imp (IsFlushed (framed f w)) (λ v. IsStream v × IsEnding os reqs k r.pid v) IsStream
        (send os msg_stderr k p w)
        (λ v. IsFlushed-IsEnding (framed f w) v (
          bytes,
          ids,
          (
            send-IsRecorded os w.reqs w.log w.emitted f recorded
                (λ same. absurd (omega (arith, same))),
            forked_,
          ),
          e_reqs,
          λ nodup.
              let (linked, phased, known) = h nodup in
              (linked, output-IsPhased reqs w.started w.emitted f r phased e (omega arith), known),
        ))
        (send-IsStream os msg_stderr k p w s ((omega arith, hk, omega arith), small))

  done-IsInv :
      (n : ℕ) (c : ℤ) (w : Worker)
      → IsStream w
      → IsEnding os reqs k r.pid w
      → IsCodeOf (os.wait n r.pid) c
      → On (IsInv os) IsStream (send os msg_done k (pack_done c) w)
  done-IsInv n c w s (bytes, ids, (recorded, forked_), e_reqs, h) code =
      let f : Frame = record { mtype = msg_done; req_id = k; payload = pack_done c } in
      let small = length-pack_done c in
      send-IsInv os msg_done k (pack_done c) w s ((omega arith, hk, omega arith), small)
        (
          bytes,
          ids,
          send-IsRecorded os w.reqs w.log w.emitted f recorded
              (λ _. (r.pid, n, c, forked_, refl, code)),
          λ nodup.
              let (linked, phased, known) = h nodup in
              (
                linked,
                rw (e_reqs) (done-IsPhased reqs w.started w.emitted f r phased known e refl),
                rw (e_reqs) (end-IsKnown reqs w.started k known),
              ),
        )

  -- A call about a child is only added to the log.
  logged-IsEnding :
      (w : Worker) (more : List Call)
      → IsEnding os reqs k r.pid w
      → IsEnding os reqs k r.pid (record w { log = w.log ++ more })
  logged-IsEnding w more (bytes, ids, (recorded, forked_), e_reqs, h) = (
    bytes,
    ids,
    (
      append-IsRecorded os w.reqs w.log more w.emitted recorded,
      IsIn-append (fork k r.pid) w.log more forked_,
    ),
    e_reqs,
    h,
  )

  -- After what the child is killed.
  killed-IsInv :
      (n : ℕ) (c : ℤ) (more : List Call) (w : Worker)
      → IsStream w
      → IsEnding os reqs k r.pid w
      → IsCodeOf (os.wait n r.pid) c
      → On (IsInv os) IsStream (
          and_then
            (send os msg_stderr k (codes "process terminated") w)
            (λ v. send os msg_done k (pack_done c) (record v { log = v.log ++ more })))
  killed-IsInv n c more w s h code =
      On-and_then (λ v. IsStream v × IsEnding os reqs k r.pid v) (IsInv os) IsStream
        (send os msg_stderr k (codes "process terminated") w) _
        (stderr-IsEnding (codes "process terminated") w s h (omega arith))
        (λ v g.
          done-IsInv n c (record v { log = v.log ++ more }) g.0 (logged-IsEnding v more g.1) code)

  -- The end of a request is told once, with the code of its child.
  pub finish-IsInv :
      (n : ℕ) (waited : Waited) (w : Worker)
      → os.wait n r.pid ≡ waited
      → IsStream w
      → IsEnding os reqs k r.pid w
      → On (IsInv os) IsStream (finish os k r.pid waited w)
  unfolding finish
  finish-IsInv n gone w e s h = done-IsInv n (neg 1) w s h (rw (e) refl)
  finish-IsInv n (zombie c) w e s h =
      done-IsInv n c (record w { log = w.log ++ reap r.pid ∷ [] }) s
        (logged-IsEnding w (reap r.pid ∷ []) h) (rw (e) refl)
  finish-IsInv n (alive (some c)) w e s h =
      killed-IsInv n c (kill r.pid ∷ reap r.pid ∷ []) w s h (rw (e) refl)
  finish-IsInv n (alive none) w e s h = killed-IsInv n (neg 1) (kill r.pid ∷ []) w s h (rw (e) refl)
