-- ===== src/Pool/Worker/Rounds.antt =====
-- The loop over the control frames has rounds enough.
use sand_box_rust.Base.{
  ℕ, zero, suc, ◌+◌, ◌<◌, ◌≡◌, inl, inr, refl, ap, List, length, drop, take, arith, Option-cases,
  Bool-cases, Bool, true, false, length-drop, if-cases, ltb, ltb→le, ◌==◌, if◌then◌else◌,
}
use sand_box_rust.Wire.{header}
use sand_box_rust.Pool.Protocol.{header_size, msg_run, msg_kill}
use sand_box_rust.Pool.State.{Worker, Os, Outcome}
use sand_box_rust.Pool.Worker.{
  Handled, handled, crashed, or_leave, handle_run, handle_kill, handle_frame, ctrl_loop,
  max_frame_payload,
}
use sand_box_rust.Pool.Worker.Frames.{Forked-cases}

-- A handler does not touch the buffer.
abbrev Leaves : Worker → Handled → Type 0
Leaves w (handled v) = v.recv_buf ≡ w.recv_buf
Leaves w (crashed v) = v.recv_buf ≡ w.recv_buf

handle_run-Leaves : (os : Os) (k : ℕ) (p : List ℕ) (w : Worker) → Leaves w (handle_run os k p w)
unfolding handle_run
handle_run-Leaves os k p w = elim (Bool-cases (os.loads p)) [
  | inl e ↦ elim (Forked-cases (os.run_child w.calls w.fd_map)) [
    | inl g ↦ rw (e, g, handle_run) refl
    | inr (pid, o, r, g) ↦ rw (e, g, handle_run) refl
  ]
  | inr e ↦ rw (e, handle_run) refl
]

handle_kill-Leaves : (k : ℕ) (w : Worker) → (handle_kill k w).recv_buf ≡ w.recv_buf
unfolding handle_kill
handle_kill-Leaves k w = elim (Option-cases (w.reqs k)) [
  | inl e ↦ rw (e, handle_kill) refl
  | inr (r, e) ↦ rw (e, handle_kill) refl
]

handle_frame-Leaves :
    (os : Os) (t k : ℕ) (p : List ℕ) (w : Worker) → Leaves w (handle_frame os t k p w)
unfolding handle_frame
handle_frame-Leaves os t k p w =
    if-cases (Leaves w) (t == msg_run) _ _ (λ _. handle_run-Leaves os k p w)
      (λ _. if-cases (Leaves w) (t == msg_kill) _ _ (λ _. handle_kill-Leaves k w) (λ _. refl))

or_leave_same :
    (w : Worker) (h : Handled) (f g : Worker → Outcome)
    → Leaves w h
    → ((v : Worker) → v.recv_buf ≡ w.recv_buf → f v ≡ g v)
    → or_leave h f ≡ or_leave h g
or_leave_same w (handled v) f g e same = same v e
or_leave_same w (crashed v) f g e same = refl

if_same :
    (b : Bool) (x y z : Outcome) → (b ≡ false → y ≡ z) → (if b then x else y) ≡ (if b then x else z)
if_same true x y z h = refl
if_same false x y z h = h refl

-- From more rounds than bytes in the buffer, the loop comes to the same whatever their number: it
-- ends by itself.
pub ctrl_loop-enough :
    (m n : ℕ) (os : Os) (w : Worker)
    → length w.recv_buf < m
    → length w.recv_buf < n
    → ctrl_loop m os w ≡ ctrl_loop n os w
unfolding ctrl_loop
ctrl_loop-enough zero n os w h g = absurd (omega arith)
ctrl_loop-enough (suc m) zero os w h g = absurd (omega arith)
ctrl_loop-enough (suc m) (suc n) os w h g = elim (Option-cases (header w.recv_buf)) [
  | inl e ↦ rw (e, ctrl_loop) refl
  | inr (q, e) ↦
      rw (e, ctrl_loop)
        (let size = header_size + q.plen in
          if_same (ltb max_frame_payload q.plen) _ _ _ (λ _.
            if_same (ltb (length w.recv_buf) size) _ _ _ (λ whole.
              or_leave_same (record w { recv_buf = drop size w.recv_buf })
                (handle_frame os q.mtype q.req_id (take q.plen (drop header_size w.recv_buf))
                  (record w { recv_buf = drop size w.recv_buf }))
                _ _
                (handle_frame-Leaves os q.mtype q.req_id _
                  (record w { recv_buf = drop size w.recv_buf }))
                (λ v kept.
                  let less : length v.recv_buf < length w.recv_buf = omega (
                    arith,
                    ap length kept,
                    length-drop size w.recv_buf,
                    ltb→le (length w.recv_buf) size whole,
                  ) in
                  ctrl_loop-enough m n os v (omega arith) (omega arith)))))
]
