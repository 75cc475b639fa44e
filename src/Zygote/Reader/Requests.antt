-- ===== src/Zygote/Reader/Requests.antt =====
-- `read_loop` of server/src/services/zygote.rs, as one request among others sees it.
use sand_box_rust.Base.{
  ℕ, ◌+◌, ◌≤◌, ◌<◌, ◌≡◌, ◌≢◌, refl, ◌∙◌, ◌&&◌, List, [], ◌∷◌, ◌++◌, none, some, inl, inr, ◌==◌,
  if◌then◌else◌, length, length-append, arith, All, Bool-cases, Option-cases, append_assoc,
  append-nil,
}
use sand_box_rust.Wire.{msg_stdout, msg_stderr, msg_done}
use sand_box_rust.Base.{subst}
use native.Mathlib.Decide.{ℕ_discrete}
use sand_box_rust.Utf8.{from_utf8_lossy}
use sand_box_rust.Zygote.Pending.{Reply, Pending, World, lookup, send}
use sand_box_rust.Zygote.Pending.Laws.{lookup-insert, lookup-remove_ne, remove-insert}
use sand_box_rust.Zygote.Reader.{
  deliver, deliver_to, on_message, over_limit, exceeds, usize_max, done_code,
}
use sand_box_rust.Zygote.Reader.Bounds.{kept}
use sand_box_rust.Zygote.Reader.Frames.{Frame, deliver_all}

pub deliver_missing :
    (limit t k : ℕ) (p : List ℕ) (w : World) → lookup k w.pending ≡ none → deliver limit t k p w ≡ w
unfolding deliver
deliver_missing limit t k p w e = rw (e, deliver)

pub deliver_found :
    (limit t k : ℕ) (p : List ℕ) (w : World) (e : Pending)
    → lookup k w.pending ≡ some e
    → deliver limit t k p w ≡ deliver_to limit t k p e w
unfolding deliver
deliver_found limit t k p w e h = rw (h, deliver)

-- A frame leaves the other requests alone.
pub deliver_other :
    (limit t j k : ℕ) (p : List ℕ) (w : World)
    → j ≢ k
    → lookup k (deliver limit t j p w).pending ≡ lookup k w.pending
deliver_other limit t j k p w ne = elim (Option-cases (lookup j w.pending)) [
  | inl missing ↦ rw (deliver_missing limit t j p w missing)
  | inr (e, found) ↦ rw (deliver_found limit t j p w e found) (deliver_to_other e)
]
  where
    deliver_to_other :
        (e : Pending) → lookup k (deliver_to limit t j p e w).pending ≡ lookup k w.pending
    deliver_to_other e =
        unfold deliver_to over_limit in
        elim (Bool-cases (exceeds limit t (on_message t p e w.replies).0)) [
          | inl over ↦ rw (over, remove-insert j _ w.pending) (lookup-remove_ne j k w.pending ne)
          | inr under ↦
              rw under (ground (arith, lookup-insert j k (on_message t p e w.replies).0 w.pending))
        ]

-- What one frame adds to the output of type `t` of request `k`.
abbrev pub part : ℕ → ℕ → Frame → List ℕ
part k t f = if f.req_id == k && f.mtype == t then f.payload else []

-- The payloads of request `k` of one type, joined.
abbrev pub payloads : ℕ → ℕ → List Frame → List ℕ
payloads k t [] = []
payloads k t (f ∷ fs) = part k t f ++ payloads k t fs

-- No frame says that request `k` is done.
abbrev pub IsOpen : ℕ → List Frame → Type 0
IsOpen k fs = All (λ f. f.req_id ≡ k → f.mtype ≢ msg_done) fs

-- The entry of request `k` with what one frame adds.
abbrev added : ℕ → Frame → Pending → Pending
added k f e = record e { out = e.out ++ part k msg_stdout f; err = e.err ++ part k msg_stderr f }

on_message-added :
    (f : Frame) (e : Pending) (sent : List (ℕ × Reply))
    → f.mtype ≢ msg_done
    → on_message f.mtype f.payload e sent ≡ (added f.req_id f e, sent)
unfolding on_message
on_message-added f e sent ne =
    ground (arith, append-nil f.payload, append-nil e.out, append-nil e.err)

deliver_own :
    (limit : ℕ) (f : Frame) (w : World) (e : Pending)
    → limit < usize_max
    → f.mtype ≢ msg_done
    → lookup f.req_id w.pending ≡ some e
    → kept (added f.req_id f e) ≤ limit
    → lookup f.req_id (deliver limit f.mtype f.req_id f.payload w).pending
      ≡ some (added f.req_id f e)
unfolding deliver_to
deliver_own limit f w e small ne found fits =
    rw (deliver_found limit f.mtype f.req_id f.payload w e found, on_message-added f e w.replies ne)
      (ground (arith, lookup-insert f.req_id f.req_id (added f.req_id f e) w.pending))

deliver-added :
    (limit k : ℕ) (f : Frame) (w : World) (e : Pending)
    → limit < usize_max
    → (f.req_id ≡ k → f.mtype ≢ msg_done)
    → lookup k w.pending ≡ some e
    → kept (added k f e) ≤ limit
    → lookup k (deliver limit f.mtype f.req_id f.payload w).pending ≡ some (added k f e)
deliver-added limit k f w e small ne found fits = elim (ℕ_discrete f.req_id k) [
  | yes own ↦
      subst
        (λ j.
          lookup j w.pending ≡ some e
          → kept (added j f e) ≤ limit
          → lookup j (deliver limit f.mtype f.req_id f.payload w).pending ≡ some (added j f e))
        own (deliver_own limit f w e small (ne own)) found fits
  | no other ↦
      deliver_other limit f.mtype f.req_id k f.payload w other
      ∙ found
      ∙ ground (arith, append-nil e.out, append-nil e.err)
]

-- The sizes before and after one frame.
kept-added :
    (k : ℕ) (f : Frame) (fs : List Frame) (e : Pending)
    → kept (added k f e) + length (payloads k msg_stdout fs) + length (payloads k msg_stderr fs)
      ≡ kept e + length (payloads k msg_stdout (f ∷ fs)) + length (payloads k msg_stderr (f ∷ fs))
kept-added k f fs e = omega (
  arith,
  length-append e.out (part k msg_stdout f),
  length-append e.err (part k msg_stderr f),
  length-append (part k msg_stdout f) (payloads k msg_stdout fs),
  length-append (part k msg_stderr f) (payloads k msg_stderr fs),
)

-- For a cap below the largest `usize`: while its output fits the cap and no frame says that it is
-- done, a request keeps exactly the payloads of its own frames, in order, whatever frames of
-- other requests are between.
pub deliver_all-payloads :
    (limit k : ℕ) (fs : List Frame) (w : World) (e : Pending)
    → limit < usize_max
    → IsOpen k fs
    → lookup k w.pending ≡ some e
    → kept e + length (payloads k msg_stdout fs) + length (payloads k msg_stderr fs) ≤ limit
    → lookup k (deliver_all limit fs w).pending
      ≡ some (record e {
        out = e.out ++ payloads k msg_stdout fs;
        err = e.err ++ payloads k msg_stderr fs;
      })
deliver_all-payloads limit k [] w e small open_ found fits =
    found ∙ ground (arith, append-nil e.out, append-nil e.err)
deliver_all-payloads limit k (f ∷ fs) w e small open_ found fits =
    deliver_all-payloads limit k fs (deliver limit f.mtype f.req_id f.payload w) (added k f e) small
      open_.1 (deliver-added limit k f w e small open_.0 found (omega (arith, kept-added k f fs e)))
      (omega (arith, kept-added k f fs e))
    ∙ ground (
      arith,
      append_assoc e.out (part k msg_stdout f) (payloads k msg_stdout fs),
      append_assoc e.err (part k msg_stderr f) (payloads k msg_stderr fs),
    )

-- For a cap below the largest `usize`: if a request enters with empty buffers, its output fits
-- the cap and no frame before has said that it is done, then on MSG_DONE its caller is sent the
-- whole of its stdout and of its stderr, decoded, and the exit code in the frame, whatever frames
-- of other requests are between.
pub deliver_all_done :
    (limit k channel : ℕ) (fs : List Frame) (status : List ℕ) (w : World)
    → limit < usize_max
    → IsOpen k fs
    → lookup k w.pending ≡ some (record { out = []; err = []; tx = some channel })
    → length (payloads k msg_stdout fs) + length (payloads k msg_stderr fs) ≤ limit
    → let v = deliver_all limit fs w in
      (deliver limit msg_done k status v).replies
      ≡ v.replies
        ++ (
          channel,
          record {
            stdout = from_utf8_lossy (payloads k msg_stdout fs);
            stderr = from_utf8_lossy (payloads k msg_stderr fs);
            exit_code = done_code status;
          },
        )
          ∷ []
unfolding deliver_to on_message send
deliver_all_done limit k channel fs status w small open_ found fits =
    let v = deliver_all limit fs w in
    rw
      (deliver_found limit msg_done k status v _
        (deliver_all-payloads limit k fs w _ small open_ found (omega arith)))
      refl
