-- ===== src/Zygote/Reader/Frames.antt =====
-- The reader against its specification: one delivery for each frame that the worker wrote.
use sand_box_rust.Base.{
  ℕ, ◌≤◌, ◌<◌, ◌≡◌, refl, ap, ◌∙◌, List, [], ◌∷◌, inl, inr, ◌++◌, some, length, arith,
  length-append, map, All, concat, append_assoc, append-nil, Option-cases,
}
use sand_box_rust.Wire.{Header, header, IsFrame, encode_frame}
use sand_box_rust.Wire.RoundTrip.{
  header-append, header-encode_frame, take_payload, drop_frame, length-encode_frame,
}
use sand_box_rust.Zygote.Pending.{World}
use sand_box_rust.Zygote.Reader.{
  waiting, drain, deliver, bytes, parked, ended, read_loop, connection_lost,
}
use sand_box_rust.Zygote.Reader.Rounds.{drain_whole}
use sand_box_rust.Zygote.Reader.Chunks.{
  IsRead, settled, drain_short, drain_partial, drain_oversized, read_loop-drain,
}

pub record Frame : Type 0 where
  pub mtype : ℕ
  pub req_id : ℕ
  pub payload : List ℕ

abbrev pub encode : Frame → List ℕ
encode f = encode_frame f.mtype f.req_id f.payload

abbrev pub encode_all : List Frame → List ℕ
encode_all [] = []
encode_all (f ∷ fs) = encode f ++ encode_all fs

-- A frame whose fields fit the header, and whose payload the reader takes.
abbrev pub IsAccepted : ℕ → Frame → Type 0
IsAccepted max_output f = IsFrame f.mtype f.req_id f.payload × (length f.payload ≤ max_output)

-- The specification: the frames, delivered in order.
abbrev pub deliver_all : ℕ → List Frame → World → World
deliver_all max_output [] w = w
deliver_all max_output (f ∷ fs) w =
    deliver_all max_output fs (deliver max_output f.mtype f.req_id f.payload w)

-- One frame at the front of the buffer is one delivery.
drain-encode :
    (max_output : ℕ) (w : World) (f : Frame) (rest : List ℕ)
    → IsAccepted max_output f
    → drain max_output w (encode f ++ rest)
      ≡ drain max_output (deliver max_output f.mtype f.req_id f.payload w) rest
drain-encode max_output w f rest (fits, small) =
    drain_whole max_output w (encode f ++ rest) h
      (header-encode_frame f.mtype f.req_id f.payload rest fits) small
      (omega (arith, length-append (encode f) rest, length-encode_frame f.mtype f.req_id f.payload))
    ∙ rw (take_payload f.mtype f.req_id f.payload rest, drop_frame f.mtype f.req_id f.payload rest)
  where
    h : Header
    h = record { plen = length f.payload; mtype = f.mtype; req_id = f.req_id }

pub drain-encode_all :
    (max_output : ℕ) (w : World) (fs : List Frame) (rest : List ℕ)
    → All (IsAccepted max_output) fs
    → drain max_output w (encode_all fs ++ rest)
      ≡ drain max_output (deliver_all max_output fs w) rest
drain-encode_all max_output w [] rest h = refl
drain-encode_all max_output w (f ∷ fs) rest h =
    ap (drain max_output w) (append_assoc (encode f) (encode_all fs) rest)
    ∙ drain-encode max_output w f (encode_all fs ++ rest) h.0
    ∙ drain-encode_all max_output (deliver max_output f.mtype f.req_id f.payload w) fs rest h.1

-- The front of a frame that has not arrived whole is kept as it is.
pub drain_front :
    (max_output : ℕ) (w : World) (f : Frame) (front : List ℕ) (b : ℕ) (back : List ℕ)
    → IsAccepted max_output f
    → encode f ≡ front ++ b ∷ back
    → drain max_output w front ≡ waiting front w
drain_front max_output w f front b back (fits, small) e = elim (Option-cases (header front)) [
  | inl short ↦ drain_short max_output w front short
  | inr (h, found) ↦
      let size = announced h found in
      drain_partial max_output w front h found (omega arith) (
        omega (
          arith,
          ap length e,
          length-append front (b ∷ back),
          length-encode_frame f.mtype f.req_id f.payload,
        ))
]
  where
    announced : (h : Header) → header front ≡ some h → h.plen ≡ length f.payload
    announced h found = ground (
      arith,
      header-append front (b ∷ back) h found,
      header-encode_frame f.mtype f.req_id f.payload [] fits,
      append-nil (encode f),
      e,
    )

-- For a stream of frames whose fields fit and whose payloads do not exceed the cap, cut anywhere
-- within a further such frame and arriving in any non-empty reads: a reader that starts with an
-- empty buffer has made one delivery for each whole frame, in order, and holds the front of the
-- next frame.
pub read_loop_frames :
    (max_output : ℕ) (w : World) (fs : List Frame) (f : Frame) (front : List ℕ) (b : ℕ)
    (back : List ℕ) (chunks : List (List ℕ))
    → All (IsAccepted max_output) fs
    → IsAccepted max_output f
    → encode f ≡ front ++ b ∷ back
    → All IsRead chunks
    → concat chunks ≡ encode_all fs ++ front
    → read_loop max_output [] w (map bytes chunks) ≡ parked front (deliver_all max_output fs w)
read_loop_frames max_output w fs f front b back chunks hs hf cut reads e =
    read_loop-drain max_output w chunks reads
    ∙ ap (λ buf. settled (drain max_output w buf)) e
    ∙ ap settled (drain-encode_all max_output w fs front hs)
    ∙ ap settled (drain_front max_output (deliver_all max_output fs w) f front b back hf cut)

-- After frames whose fields fit and whose payloads do not exceed the cap, a header that announces
-- more than the cap ends the reader: the frames before it are delivered, and every request that
-- still waits is answered as on a lost connection.
pub read_loop_oversized :
    (max_output : ℕ) (w : World) (fs : List Frame) (rest : List ℕ) (h : Header)
    (chunks : List (List ℕ))
    → All (IsAccepted max_output) fs
    → header rest ≡ some h
    → max_output < h.plen
    → All IsRead chunks
    → concat chunks ≡ encode_all fs ++ rest
    → read_loop max_output [] w (map bytes chunks)
      ≡ ended (connection_lost (deliver_all max_output fs w))
read_loop_oversized max_output w fs rest h chunks hs found big reads e =
    read_loop-drain max_output w chunks reads
    ∙ ap (λ buf. settled (drain max_output w buf)) e
    ∙ ap settled (drain-encode_all max_output w fs rest hs)
    ∙ ap settled (drain_oversized max_output (deliver_all max_output fs w) rest h found big)
