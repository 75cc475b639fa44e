-- ===== src/Pool/Worker/Delivery.antt =====
-- The worker's stream at the server: from `_send` of zygote_worker.py to `read_loop` of
-- server/src/services/zygote.rs.
use sand_box_rust.Base.{
  ℕ, ◌≤◌, ◌≡◌, ◌⊎◌, inl, inr, refl, sym, ap, ◌∙◌, List, [], ◌∷◌, ◌++◌, arith, All, concat, map,
  append-nil, append_assoc,
}
use sand_box_rust.Wire.{header}
use sand_box_rust.Zygote.Pending.{World}
use sand_box_rust.Zygote.Reader.{read_loop, parked, bytes, drain, waiting}
use sand_box_rust.Zygote.Reader.Chunks.{IsRead, read_loop-drain, settled, drain_short}
use sand_box_rust.Zygote.Reader.Frames.{
  Frame, encode, encode_all, IsAccepted, deliver_all, drain-encode_all, drain_front,
}
use sand_box_rust.Pool.State.{Worker, Os, Outcome, running, exited}
use sand_box_rust.Pool.Worker.{Serves}
use sand_box_rust.Pool.Worker.Stream.{IsSmall, IsStream, On}
use sand_box_rust.Pool.Worker.Ends.{IsFresh, IsInv}
use sand_box_rust.Pool.Worker.Invariant.{Serves-IsInv}

abbrev pub state : Outcome → Worker
state (running w) = w
state (exited code w) = w

-- Where the front of a list ends against the first of two pieces.
cut :
    (front xs out rest : List ℕ)
    → front ++ out ≡ xs ++ rest
    → ((more : List ℕ) × (front ≡ xs ++ more) × (more ++ out ≡ rest))
      ⊎ ((b : ℕ) × (back : List ℕ) × (xs ≡ front ++ b ∷ back))
cut front [] out rest e = inl (front, refl, e)
cut [] (x ∷ xs) out rest e = inr (x, xs, refl)
cut (y ∷ ys) (x ∷ xs) out rest e =
    let same : y ≡ x = cc in
    let e' : ys ++ out ≡ xs ++ rest = cc in
    elim (cut ys xs out rest e') [
      | inl (more, g, h) ↦ inl (more, rw (same, g) refl, h)
      | inr (b, back, g) ↦ inr (b, back, rw (same, g) refl)
    ]

-- The bytes behind the last whole frame are none, or the front of the next one, which lacks a byte.
abbrev pub IsFront : List ℕ → List Frame → Type 0
IsFront buf hs =
    (buf ≡ [])
    ⊎ ((f : Frame) × (rest : List Frame) × (b : ℕ) × (back : List ℕ) × (hs ≡ f ∷ rest)
        × (encode f ≡ buf ++ b ∷ back))

split_frames :
    (fs : List Frame) (front out : List ℕ)
    → front ++ out ≡ encode_all fs
    → (gs : List Frame) × (hs : List Frame) × (buf : List ℕ) × (fs ≡ gs ++ hs)
      × (front ≡ encode_all gs ++ buf)
      × IsFront buf hs
split_frames [] [] out e = ([], [], [], refl, refl, inl refl)
split_frames [] (b ∷ bs) out e = absurd cc
split_frames (f ∷ fs) front out e = elim (cut front (encode f) out (encode_all fs) e) [
  | inl (more, g, h) ↦
      let (gs, hs, buf, e_fs, e_more, last) = split_frames fs more out h in
      (
        f ∷ gs,
        hs,
        buf,
        ap (◌∷◌ f) e_fs,
        g ∙ ap (◌++◌ (encode f)) e_more ∙ sym (append_assoc (encode f) (encode_all gs) buf),
        last,
      )
  | inr (b, back, g) ↦ ([], f ∷ fs, front, refl, refl, inr (f, fs, b, back, refl, g))
]

accepted :
    (limit : ℕ) (fs : List Frame) → 65536 ≤ limit → All IsSmall fs → All (IsAccepted limit) fs
accepted limit [] h small = tt
accepted limit (f ∷ fs) h ((fits, few), small) = ((fits, omega arith), accepted limit fs h small)

pub All-left : (P : Frame → Type 0) (xs ys : List Frame) → All P (xs ++ ys) → All P xs × All P ys
All-left P [] ys h = (tt, h)
All-left P (x ∷ xs) ys (hx, h) = let (left, right) = All-left P xs ys h in ((hx, left), right)

drain_last :
    (limit : ℕ) (w : World) (buf : List ℕ) (hs : List Frame)
    → All (IsAccepted limit) hs
    → IsFront buf hs
    → drain limit w buf ≡ waiting buf w
drain_last limit w buf hs h (inl e) = rw (e) (drain_short limit w [] (unfold header in refl))
drain_last limit w buf hs h (inr (f, rest, b, back, e_hs, e)) =
    drain_front limit w f buf b back (rw (e_hs) at h).0 e

-- On a system whose pipes get descriptors that are not in use, after any rounds of `serve` and
-- however the socket took and the server read the bytes so far: with a cap of 64 KiB or more, the
-- server's reader, which started with an empty buffer, waits, with one delivery for each frame that
-- has arrived whole, in the order in which the worker sent them. It holds the bytes behind the last
-- of these, and where there are any, they are the front of the worker's next frame, and at least one
-- byte of that frame has not arrived.
pub Serves-read_loop :
    (os : Os) (o : Outcome) (limit : ℕ) (w : World) (chunks : List (List ℕ))
    → IsFresh os
    → Serves os o
    → 65536 ≤ limit
    → All IsRead chunks
    → concat chunks ≡ (state o).sent
    → (fs : List Frame) × (gs : List Frame) × (buf : List ℕ) × ((state o).emitted ≡ fs ++ gs)
      × ((state o).sent ≡ encode_all fs ++ buf)
      × IsFront buf gs
      × (read_loop limit [] w (map bytes chunks) ≡ parked buf (deliver_all limit fs w))
Serves-read_loop os o limit w chunks fresh serves large reads e =
    let (e_stream, small) = stream_of o (Serves-IsInv os fresh o serves) in
    let (fs, gs, buf, e_fs, e_sent, last) =
      split_frames (state o).emitted (state o).sent (state o).out e_stream in
    let (here, there) = All-left IsSmall fs gs (rw (e_fs) at small) in
    (
      fs,
      gs,
      buf,
      e_fs,
      e_sent,
      last,
      read_loop-drain limit w chunks reads
          ∙ ap (λ bs. settled (drain limit w bs)) (e ∙ e_sent)
          ∙ ap settled (drain-encode_all limit w fs buf (accepted limit fs large here))
          ∙ ap settled (
              drain_last limit (deliver_all limit fs w) buf gs (accepted limit gs large there)
                last),
    )
  where
    stream_of : (o : Outcome) → On (IsInv os) IsStream o → IsStream (state o)
    stream_of (running w) h = h.0
    stream_of (exited code w) h = h

-- Once all has been sent, all has been delivered.
pub Serves-deliver_all :
    (os : Os) (v : Worker) (limit : ℕ) (w : World) (chunks : List (List ℕ))
    → IsFresh os
    → Serves os (running v)
    → v.out ≡ []
    → 65536 ≤ limit
    → All IsRead chunks
    → concat chunks ≡ v.sent
    → read_loop limit [] w (map bytes chunks) ≡ parked [] (deliver_all limit v.emitted w)
Serves-deliver_all os v limit w chunks fresh serves sent large reads e =
    let (e_stream, small) = (Serves-IsInv os fresh (running v) serves).0 in
    let e_sent : v.sent ≡ encode_all v.emitted ++ [] =
      sym (append-nil v.sent)
      ∙ ap (◌++◌ v.sent) (sym sent)
      ∙ e_stream
      ∙ sym (append-nil (encode_all v.emitted)) in
    read_loop-drain limit w chunks reads
    ∙ ap (λ bs. settled (drain limit w bs)) (e ∙ e_sent)
    ∙ ap settled (drain-encode_all limit w v.emitted [] (accepted limit v.emitted large small))
    ∙ ap settled (drain_short limit (deliver_all limit v.emitted w) [] (unfold header in refl))
