-- ===== src/Pool/Worker/Pipes.antt =====
-- What is read from the pipes keeps the worker's invariant.
use sand_box_rust.Base.{
  ℕ, suc, ◌≤◌, ◌≡◌, inl, inr, refl, sym, ap, ◌∙◌, List, ◌∷◌, length, none, some, arith,
  Option-cases,
}
use sand_box_rust.Pool.State.{Worker, Os, update}
use sand_box_rust.Pool.Worker.{send, teardown_pipe_fd, on_pipe_readable, discard}
use sand_box_rust.Pool.Worker.Stream.{IsStream, On}
use sand_box_rust.Pool.Worker.Links.{close-IsLinked, end-IsLinked}
use sand_box_rust.Pool.Worker.Phases.{output-IsPhased, change-IsPhased, change-IsKnown}
use sand_box_rust.Pool.Worker.Frames.{list-cases, remove-IsIds}
use sand_box_rust.Pool.Worker.Codes.{send-IsRecorded, end-IsRecorded, change-IsRecorded}
use sand_box_rust.Pool.Worker.Ends.{IsInv, send-IsInv, finish-IsInv}

module _ (os : Os) where
  teardown-IsInv :
      (fd k t : ℕ) (w : Worker)
      → IsInv os w
      → w.fd_map fd ≡ some (k, t)
      → On (IsInv os) IsStream (teardown_pipe_fd os fd k w)
  unfolding teardown_pipe_fd
  teardown-IsInv fd k t w (s, (bytes, ids, recorded, h)) e = elim (Option-cases (w.reqs k)) [
    | inl none_open ↦
        rw (none_open, teardown_pipe_fd)
          (
            s,
            (
              bytes,
              remove-IsIds w.fd_map fd ids,
              recorded,
              λ nodup.
                  let (r, g, _) = (h nodup).0.0 fd k t e in
                  let f : none ≡ some r = sym none_open ∙ g in absurd cc,
            ),
          )
    | inr (r, g) ↦ elim (list-cases (discard fd r.open_fds)) [
      | inl last ↦
          rw (g, last, teardown_pipe_fd)
            (finish-IsInv os w.reqs k r g (ids fd k t e).0 w.calls (os.wait w.calls r.pid)
              (record w {
                fd_map = update w.fd_map fd none;
                reqs = update w.reqs k none;
                calls = suc w.calls;
              })
              refl s
              (
                bytes,
                remove-IsIds w.fd_map fd ids,
                (end-IsRecorded os w.reqs w.log w.emitted k recorded, recorded.0 k r g),
                refl,
                λ nodup.
                    let (linked, phased, known) = h nodup in
                    (end-IsLinked w.reqs w.fd_map k fd t r linked e g last, phased, known),
              ))
      | inr (x, xs, more) ↦
          rw (g, more, teardown_pipe_fd)
            (
              s,
              (
                bytes,
                remove-IsIds w.fd_map fd ids,
                change-IsRecorded os w.reqs w.log w.emitted k r _ recorded g refl,
                λ nodup.
                    let (linked, phased, known) = h nodup in
                    (
                      close-IsLinked w.reqs w.fd_map k fd t r x xs linked e g more,
                      change-IsPhased w.reqs w.started w.emitted k r _ phased g,
                      change-IsKnown w.reqs w.started k r _ known g,
                    ),
              ),
            )
    ]
  ]

  output-IsInv :
      (fd k t : ℕ) (bytes : List ℕ) (w : Worker)
      → IsInv os w
      → w.fd_map fd ≡ some (k, t)
      → length bytes ≤ 65536
      → On (IsInv os) IsStream (send os t k bytes w)
  output-IsInv fd k t bytes w (s, (buf, ids, recorded, h)) e small =
      let (hk, ht, hd) = ids fd k t e in
      send-IsInv os t k bytes w s ((ht, hk, omega arith), small)
        (
          buf,
          ids,
          send-IsRecorded os w.reqs w.log w.emitted _ recorded (λ over. absurd (hd over)),
          λ nodup.
              let (linked, phased, known) = h nodup in
              let (r, g, _) = linked.0 fd k t e in
              (linked, output-IsPhased w.reqs w.started w.emitted _ r phased g hd, known),
        )

  pub on_pipe_readable-IsInv :
      (fd : ℕ) (bytes : List ℕ) (w : Worker)
      → IsInv os w
      → length bytes ≤ 65536
      → On (IsInv os) IsStream (on_pipe_readable os fd bytes w)
  unfolding on_pipe_readable
  on_pipe_readable-IsInv fd bytes w h small = elim (Option-cases (w.fd_map fd)) [
    | inl e ↦ rw (e, on_pipe_readable) h
    | inr ((k, t), e) ↦ elim (list-cases bytes) [
      | inl g ↦ rw (e, g, on_pipe_readable) (teardown-IsInv fd k t w h e)
      | inr (b, bs, g) ↦
          rw (e, g, on_pipe_readable)
            (output-IsInv fd k t (b ∷ bs) w h e (omega (arith, ap length g)))
    ]
  ]
