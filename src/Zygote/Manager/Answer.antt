-- ===== src/Zygote/Manager/Answer.antt =====
-- What a call of `run` receives on its oneshot channel when its request is done.
use sand_box_rust.Base.{
  ℕ, ◌+◌, ◌≤◌, ◌<◌, ◌≡◌, refl, ap, ◌∙◌, List, [], ◌∷◌, ◌++◌, some, ==_refl, length, arith, count,
  count-append, count-Perm,
}
use sand_box_rust.Wire.{msg_stdout, msg_stderr, msg_done}
use sand_box_rust.Utf8.{from_utf8_lossy}
use sand_box_rust.Zygote.Pending.{Reply, Pending, World, lookup, remove}
use sand_box_rust.Zygote.Reader.{deliver, usize_max, done_code}
use sand_box_rust.Zygote.Reader.Answers.{
  to_list, channels, sent_on, accounted, channels-lookup, deliver-accounted,
}
use sand_box_rust.Zygote.Reader.Frames.{Frame, deliver_all}
use sand_box_rust.Zygote.Reader.Requests.{payloads, IsOpen, deliver_all-payloads, deliver_all_done}
use sand_box_rust.Zygote.Manager.{RunPayload, Manager, Reach, received}
use sand_box_rust.Zygote.Manager.Safety.{answered_once}

received-append :
    (c : ℕ) (r : Reply) (rs : List (ℕ × Reply))
    → count c (sent_on rs) ≡ 0
    → received c (rs ++ (c, r) ∷ []) ≡ some r
received-append c r [] h = rw (==_refl c) refl
received-append c r ((d, q) ∷ rs) h = ground (arith, received-append c r rs)

deliver_all-accounted :
    (limit c : ℕ) (fs : List Frame) (w : World)
    → count c (accounted (deliver_all limit fs w)) ≡ count c (accounted w)
deliver_all-accounted limit c [] w = refl
deliver_all-accounted limit c (f ∷ fs) w =
    deliver_all-accounted limit c fs (deliver limit f.mtype f.req_id f.payload w)
    ∙ count-Perm c (deliver-accounted limit f.mtype f.req_id f.payload w)

-- A channel that waits and is counted once has not been sent on.
waiting_unsent :
    (c k : ℕ) (w : World) (e : Pending)
    → lookup k w.pending ≡ some e
    → e.tx ≡ some c
    → count c (accounted w) ≤ 1
    → count c (sent_on w.replies) ≡ 0
waiting_unsent c k w e found waits once =
    let rest = channels (remove k w.pending) in
    let one : count c (to_list e.tx ++ rest) ≡ 1 + count c rest = rw (waits, ==_refl c) refl in
    omega (
      arith,
      count-append c (sent_on w.replies) (channels w.pending),
      count-Perm c (channels-lookup k w.pending e found),
      one,
    )

module _ (to_json : RunPayload → List ℕ) (limit : ℕ) where
  -- For a cap below the largest `usize`, in every reachable state of the manager: if a request has
  -- entered with empty buffers, its output fits the cap and none of the frames says that it is done,
  -- then after its MSG_DONE what its caller receives is the whole of its stdout and of its stderr,
  -- decoded, and the exit code in that frame, whatever frames of other requests are between.
  pub received-deliver_all :
      (m : Manager) (k channel : ℕ) (fs : List Frame) (status : List ℕ)
      → limit < usize_max
      → Reach to_json limit m
      → IsOpen k fs
      → lookup k m.world.pending ≡ some (record { out = []; err = []; tx = some channel })
      → length (payloads k msg_stdout fs) + length (payloads k msg_stderr fs) ≤ limit
      → received channel (deliver limit msg_done k status (deliver_all limit fs m.world)).replies
        ≡ some (record {
          stdout = from_utf8_lossy (payloads k msg_stdout fs);
          stderr = from_utf8_lossy (payloads k msg_stderr fs);
          exit_code = done_code status;
        })
  received-deliver_all m k channel fs status small r open_ found fits =
      let v = deliver_all limit fs m.world in
      ap (received channel)
        (deliver_all_done limit k channel fs status m.world small open_ found fits)
      ∙ received-append channel _ v.replies (
          waiting_unsent channel k v _
            (deliver_all-payloads limit k fs m.world _ small open_ found (omega arith)) refl
            (omega (
              arith,
              deliver_all-accounted limit channel fs m.world,
              answered_once to_json limit m small r channel,
              count-append channel (sent_on m.world.replies) (channels m.world.pending),
            )))
