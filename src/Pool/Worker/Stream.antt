-- ===== src/Pool/Worker/Stream.antt =====
-- What the worker gives to its socket: the bytes of its frames, in order.
use sand_box_rust.Base.{
  ℕ, zero, suc, ◌≤◌, ◌≡◌, refl, sym, ap, ◌∙◌, List, [], ◌∷◌, ◌++◌, length, take, drop, All,
  All-append, append_assoc, append-nil,
}
use sand_box_rust.Wire.{IsFrame}
use sand_box_rust.Zygote.Reader.Frames.{Frame, encode, encode_all}
use sand_box_rust.Pool.Protocol
use sand_box_rust.Pool.Protocol.Laws.{encode_frame_same}
use sand_box_rust.Pool.State.{Worker, Os, Sent, took, broken, Outcome, running, exited, and_then}
use sand_box_rust.Pool.Worker.{flush_loop, flush, send}

-- Every frame of the worker fits the header and holds at most one read of a pipe.
abbrev pub IsSmall : Frame → Type 0
IsSmall f = IsFrame f.mtype f.req_id f.payload × (length f.payload ≤ 65536)

-- The bytes taken and those that wait are those of the frames.
abbrev pub IsStream : Worker → Type 0
IsStream w = (w.sent ++ w.out ≡ encode_all w.emitted) × All IsSmall w.emitted

-- What holds of the worker that a handler leaves, and of one that has ended.
abbrev pub On : (Worker → Type 0) → (Worker → Type 0) → Outcome → Type 0
On P Q (running w) = P w
On P Q (exited code w) = Q w

pub On-and_then :
    (P P' Q : Worker → Type 0) (o : Outcome) (f : Worker → Outcome)
    → On P Q o
    → ((w : Worker) → P w → On P' Q (f w))
    → On P' Q (and_then o f)
On-and_then P P' Q (running w) f h g = g w h
On-and_then P P' Q (exited code w) f h g = h

-- `v` is `w` but for its buffer and what the socket took.
abbrev pub IsFlushed : Worker → Worker → Type 0
IsFlushed w v =
    IsStream v
    × (v.recv_buf ≡ w.recv_buf)
    × (v.reqs ≡ w.reqs)
    × (v.fd_map ≡ w.fd_map)
    × (v.emitted ≡ w.emitted)
    × (v.started ≡ w.started)
    × (v.log ≡ w.log)

take-drop : (n : ℕ) (xs : List ℕ) → take n xs ++ drop n xs ≡ xs
take-drop zero xs = refl
take-drop (suc n) [] = refl
take-drop (suc n) (x ∷ xs) = ap (◌∷◌ x) (take-drop n xs)

flush_loop-IsStream :
    (answers : List Sent) (w : Worker) (out : List ℕ)
    → w.sent ++ out ≡ encode_all w.emitted
    → All IsSmall w.emitted
    → On (IsFlushed w) IsStream (flush_loop answers w out)
unfolding flush_loop
flush_loop-IsStream answers w [] e h = ((e, h), refl, refl, refl, refl, refl, refl)
flush_loop-IsStream [] w (b ∷ bs) e h = ((e, h), refl, refl, refl, refl, refl, refl)
flush_loop-IsStream (broken ∷ answers) w (b ∷ bs) e h = (e, h)
flush_loop-IsStream (took zero ∷ answers) w (b ∷ bs) e h =
    ((e, h), refl, refl, refl, refl, refl, refl)
flush_loop-IsStream (took (suc n) ∷ answers) w (b ∷ bs) e h =
    flush_loop-IsStream answers (record w { sent = w.sent ++ take (suc n) (b ∷ bs) })
      (drop (suc n) (b ∷ bs))
      (append_assoc w.sent (take (suc n) (b ∷ bs)) (drop (suc n) (b ∷ bs))
        ∙ ap (◌++◌ w.sent) (take-drop (suc n) (b ∷ bs))
        ∙ e)
      h

pub flush-IsStream : (os : Os) (w : Worker) → IsStream w → On (IsFlushed w) IsStream (flush os w)
unfolding flush
flush-IsStream os w (e, h) =
    flush_loop-IsStream (os.send_some w.calls) (record w { calls = suc w.calls }) w.out e h

encode_all-append :
    (fs : List Frame) (f : Frame) → encode_all (fs ++ f ∷ []) ≡ encode_all fs ++ encode f
encode_all-append [] f = append-nil (encode f)
encode_all-append (g ∷ fs) f =
    ap (◌++◌ (encode g)) (encode_all-append fs f)
    ∙ sym (append_assoc (encode g) (encode_all fs) (encode f))

-- `_send` adds its frame to those emitted.
abbrev pub framed : Frame → Worker → Worker
framed f w = record w { emitted = w.emitted ++ f ∷ [] }

pub send-IsStream :
    (os : Os) (t k : ℕ) (p : List ℕ) (w : Worker)
    → IsStream w
    → IsSmall (record { mtype = t; req_id = k; payload = p })
    → On
        (IsFlushed (framed (record { mtype = t; req_id = k; payload = p }) w))
        IsStream
        (send os t k p w)
unfolding send
send-IsStream os t k p w (e, h) small =
    let f : Frame = record { mtype = t; req_id = k; payload = p } in
    flush-IsStream os (record (framed f w) { out = w.out ++ Protocol.encode_frame t k p })
      (
        sym (append_assoc w.sent w.out (Protocol.encode_frame t k p))
            ∙ ap (λ bs. bs ++ Protocol.encode_frame t k p) e
            ∙ ap (◌++◌ (encode_all w.emitted)) (encode_frame_same t k p small.0.2)
            ∙ sym (encode_all-append w.emitted f),
        All-append IsSmall w.emitted (f ∷ []) h (small, tt),
      )
