-- ===== src/Pool/Worker/Answer.antt =====
-- A request from the worker's frames to the answer of its caller: zygote_worker.py and `read_loop`
-- of server/src/services/zygote.rs.
use sand_box_rust.Base.{ℤ, subst}
use sand_box_rust.Base.{
  ℕ, ◌+◌, ◌≤◌, ◌<◌, ◌≡◌, ◌≢◌, inl, inr, refl, sym, ap, ◌∙◌, List, [], ◌∷◌, ◌++◌, length, some,
  arith, count, All, concat, map, append-nil, append_assoc, ==_ne,
}
use sand_box_rust.Utf8.{from_utf8_lossy}
use sand_box_rust.Wire.{msg_stdout, msg_stderr, msg_done}
use sand_box_rust.Zygote.Pending.{World, Reply, lookup}
use sand_box_rust.Zygote.Reader.{deliver, read_loop, parked, bytes, done_code, usize_max}
use sand_box_rust.Zygote.Reader.Chunks.{IsRead}
use sand_box_rust.Zygote.Reader.Frames.{Frame, deliver_all}
use sand_box_rust.Zygote.Reader.Requests.{part, payloads, IsOpen, deliver_all_done}
use sand_box_rust.Pool.State.{Worker, Os, running, fork}
use sand_box_rust.Pool.Worker.{Serves}
use sand_box_rust.Pool.Protocol.{pack_done}
use sand_box_rust.Pool.Protocol.Laws.{IsI32, done_code-pack_done}
use sand_box_rust.Pool.Worker.Codes.{IsIn, IsCodeOf, IsCoded}
use sand_box_rust.Pool.Worker.Invariant.{Serves-IsInv}
use sand_box_rust.Pool.Worker.Phases.{unfinished, finished, mistaken, next, phase, phase_from}
use sand_box_rust.Pool.Worker.Tables.{eq_or_ne}
use sand_box_rust.Pool.Worker.Ends.{IsFresh, IsNodup}
use sand_box_rust.Zygote.Reader.Growth.{deliver_all-Grows, deliver_all-append}
use sand_box_rust.Pool.Worker.Told.{IsClosed, Serves-IsTold}
use sand_box_rust.Pool.Worker.Delivery.{Serves-deliver_all, All-left}

phase_mistaken : (k : ℕ) (fs : List Frame) → phase_from k mistaken fs ≡ mistaken
phase_mistaken k [] = refl
phase_mistaken k (f ∷ fs) = phase_mistaken k fs

-- Nothing of the request follows its end.
after_end :
    (k : ℕ) (fs : List Frame) → phase_from k finished fs ≡ finished → All (λ f. f.req_id ≢ k) fs
after_end k [] h = tt
after_end k (f ∷ fs) h = elim (eq_or_ne f.req_id k) [
  | inl same ↦
      let e : next k finished f ≡ mistaken = ground arith in
      let g : mistaken ≡ finished =
        sym (phase_mistaken k fs) ∙ ap (λ p. phase_from k p fs) (sym e) ∙ h in
      absurd cc
  | inr other ↦
      let e : next k finished f ≡ finished = ground arith in
      (other, after_end k fs (ap (λ p. phase_from k p fs) (sym e) ∙ h))
]

-- The frames up to the end of request `k`, that end, and the frames behind it.
abbrev Ended : ℕ → List Frame → Type 0
Ended k fs =
    (before : List Frame) × (status : List ℕ) × (behind : List Frame) × (fs
      ≡ before ++ record { mtype = msg_done; req_id = k; payload = status } ∷ behind)
    × IsOpen k before
    × All (λ f. f.req_id ≢ k) behind

Ended-next :
    (k : ℕ) (f : Frame) (fs : List Frame)
    → (f.req_id ≡ k → f.mtype ≢ msg_done)
    → Ended k fs
    → Ended k (f ∷ fs)
Ended-next k f fs h (before, status, behind, e, open_, others) =
    (f ∷ before, status, behind, ap (◌∷◌ f) e, (h, open_), others)

finished-Ended : (k : ℕ) (fs : List Frame) → phase k fs ≡ finished → Ended k fs
finished-Ended k [] h = absurd cc
finished-Ended k (f ∷ fs) h = elim (eq_or_ne f.req_id k) [
  | inl same ↦ elim (eq_or_ne f.mtype msg_done) [
    | inl over ↦
        let e : next k unfinished f ≡ finished = ground arith in
        (
          [],
          f.payload,
          fs,
          ap (◌∷ fs) (
              ap (λ n. record { mtype = n; req_id = f.req_id; payload = f.payload }) over
              ∙ ap (λ n. record { mtype = msg_done; req_id = n; payload = f.payload }) same),
          tt,
          after_end k fs (ap (λ p. phase_from k p fs) (sym e) ∙ h),
        )
    | inr output ↦
        let e : next k unfinished f ≡ unfinished = ground arith in
        Ended-next k f fs (λ _. output)
          (finished-Ended k fs (ap (λ p. phase_from k p fs) (sym e) ∙ h))
  ]
  | inr other ↦
      let e : next k unfinished f ≡ unfinished = ground arith in
      Ended-next k f fs (λ same. absurd (other same))
        (finished-Ended k fs (ap (λ p. phase_from k p fs) (sym e) ∙ h))
]

payloads-append :
    (k t : ℕ) (fs gs : List Frame) → payloads k t (fs ++ gs) ≡ payloads k t fs ++ payloads k t gs
payloads-append k t [] gs = refl
payloads-append k t (f ∷ fs) gs =
    ap (◌++◌ (part k t f)) (payloads-append k t fs gs)
    ∙ sym (append_assoc (part k t f) (payloads k t fs) (payloads k t gs))

payloads_others : (k t : ℕ) (fs : List Frame) → All (λ f. f.req_id ≢ k) fs → payloads k t fs ≡ []
payloads_others k t [] h = refl
payloads_others k t (f ∷ fs) (hf, h) = rw (==_ne f.req_id k hf) (payloads_others k t fs h)

-- The codes of children fit 32 bits.
abbrev pub IsCodes : Os → Type 0
IsCodes os = (n pid : ℕ) (c : ℤ) → IsCodeOf (os.wait n pid) c → IsI32 c

-- The answer to the caller of request `k`: what its frames hold, and the code of its child.
abbrev pub IsAnswered : Os → Worker → ℕ → ℕ → World → Type 0
IsAnswered os v k channel w =
    (pid : ℕ) × (n : ℕ) × (code : ℤ) × (earlier : List (ℕ × Reply)) × (later : List (ℕ × Reply))
    × IsIn (fork k pid) v.log
    × IsCodeOf (os.wait n pid) code
    × (w.replies
        ≡ earlier
          ++ (
            channel,
            record {
              stdout = from_utf8_lossy (payloads k msg_stdout v.emitted);
              stderr = from_utf8_lossy (payloads k msg_stderr v.emitted);
              exit_code = code;
            },
          )
            ∷ later)

-- The payloads up to the end are all that there are.
payloads_ended :
    (k t : ℕ) (before behind : List Frame) (f : Frame)
    → f.mtype ≢ t
    → All (λ f. f.req_id ≢ k) behind
    → payloads k t (before ++ f ∷ behind) ≡ payloads k t before
payloads_ended k t before behind f h others =
    let e : part k t f ≡ [] = ground arith in
    payloads-append k t before (f ∷ behind)
    ∙ ap (λ ps. payloads k t before ++ (ps ++ payloads k t behind)) e
    ∙ ap (◌++◌ (payloads k t before)) (payloads_others k t behind others)
    ∙ append-nil (payloads k t before)

Ended-IsAnswered :
    (os : Os) (v : Worker) (limit k channel : ℕ) (w : World)
    → limit < usize_max
    → IsCodes os
    → All (IsCoded os v.log) v.emitted
    → Ended k v.emitted
    → lookup k w.pending ≡ some (record { out = []; err = []; tx = some channel })
    → length (payloads k msg_stdout v.emitted) + length (payloads k msg_stderr v.emitted) ≤ limit
    → IsAnswered os v k channel (deliver_all limit v.emitted w)
Ended-IsAnswered os v limit k channel w small narrow coded
      (before, status, behind, e, open_, others) found fits =
    let f : Frame = record { mtype = msg_done; req_id = k; payload = status } in
    let (pid, n, c, forked_, packed, code) =
      (All-left (IsCoded os v.log) before (f ∷ behind) (subst (All (IsCoded os v.log)) e coded)).1.0
        refl in
    let e_code : done_code status ≡ c =
      ap done_code (packed ∙ sym (append-nil (pack_done c)))
      ∙ done_code-pack_done c [] (narrow n pid c code) in
    let e_out : payloads k msg_stdout v.emitted ≡ payloads k msg_stdout before =
      ap (payloads k msg_stdout) e
      ∙ payloads_ended k msg_stdout before behind f (omega arith) others in
    let e_err : payloads k msg_stderr v.emitted ≡ payloads k msg_stderr before =
      ap (payloads k msg_stderr) e
      ∙ payloads_ended k msg_stderr before behind f (omega arith) others in
    let u = deliver_all limit before w in
    let (more, g) = deliver_all-Grows limit behind (deliver limit msg_done k status u) in
    (
      pid,
      n,
      c,
      u.replies,
      more,
      forked_,
      code,
      ap (λ fs. (deliver_all limit fs w).replies) e
          ∙ ap (λ u. u.replies) (deliver_all-append limit before (f ∷ behind) w)
          ∙ g
          ∙ ap (λ rs. rs ++ more)
              (deliver_all_done limit k channel before status w small open_ found
                (omega (arith, ap length e_out, ap length e_err)))
          ∙ append_assoc u.replies _ more
          ∙ rw (e_out, e_err, e_code) refl,
    )

-- On a system whose pipes get descriptors that are not in use and whose children's codes fit 32
-- bits, and as long as the server gives no two requests the same id, for a cap from 64 KiB to below
-- the largest `usize`: once the worker has closed both pipes of a request that it started and has
-- sent what it had to send, a server that had the request pending with empty buffers before it read
-- the stream has answered its caller, with all the output that the worker sent for the request, in
-- order, if it fits the cap, and with the exit code that `waitpid` gave for a child that was forked
-- for this request, or -1 if there was no child to wait for.
pub Serves-IsAnswered :
    (os : Os) (v : Worker) (limit k channel : ℕ) (w : World) (chunks : List (List ℕ))
    → IsFresh os
    → IsCodes os
    → Serves os (running v)
    → IsNodup v.started
    → 0 < count k v.started
    → IsClosed k v
    → v.out ≡ []
    → 65536 ≤ limit
    → limit < usize_max
    → All IsRead chunks
    → concat chunks ≡ v.sent
    → lookup k w.pending ≡ some (record { out = []; err = []; tx = some channel })
    → length (payloads k msg_stdout v.emitted) + length (payloads k msg_stderr v.emitted) ≤ limit
    → (u : World) × (read_loop limit [] w (map bytes chunks) ≡ parked [] u)
      × IsAnswered os v k channel u
Serves-IsAnswered os v limit k channel w chunks fresh narrow serves nodup some_start shut sent large
      small reads e found fits =
    let told = Serves-IsTold os v k fresh serves nodup in
    (
      deliver_all limit v.emitted w,
      Serves-deliver_all os v limit w chunks fresh serves sent large reads e,
      Ended-IsAnswered os v limit k channel w small narrow
          (Serves-IsInv os fresh (running v) serves).1.2.1
          (finished-Ended k v.emitted (told.2 some_start shut)) found fits,
    )
