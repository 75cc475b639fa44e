-- ===== src/Pool/Worker/Invariant.antt =====
-- The rounds of `serve` keep the worker's invariant.
use sand_box_rust.Base.{
  ℕ, suc, ◌≤◌, refl, List, [], ◌∷◌, ◌++◌, length, All, All-append, Bool, if-cases, if◌then◌else◌,
}
use sand_box_rust.Wire.{IsByte}
use sand_box_rust.Pool.State.{Worker, Os, Outcome, running, init}
use sand_box_rust.Pool.Worker.{
  flush, read_ctrl_frames, Ready, failed, ctrl, pipe, on_ready, on_all, serve_round, IsSelected,
  Serves, start, round,
}
use sand_box_rust.Pool.Worker.Stream.{IsStream, On, On-and_then}
use sand_box_rust.Pool.Worker.Ends.{IsFresh, IsInv, flush-IsInv}
use sand_box_rust.Pool.Worker.Frames.{ctrl_loop-IsInv}
use sand_box_rust.Pool.Worker.Pipes.{on_pipe_readable-IsInv}

module _ (os : Os) (fresh : IsFresh os) where
  -- What a descriptor can give, whatever the state of the worker.
  abbrev IsRead : Ready → Type 0
  IsRead failed = Unit
  IsRead (ctrl chunk) = All IsByte chunk
  IsRead (pipe fd bytes) = length bytes ≤ 65536

  IsSelected-IsRead : (w : Worker) (r : Ready) → IsSelected w r → IsRead r
  IsSelected-IsRead w failed h = tt
  IsSelected-IsRead w (ctrl chunk) h = h.0
  IsSelected-IsRead w (pipe fd bytes) h = h.2

  read_ctrl_frames-IsInv :
      (chunk : List ℕ) (w : Worker)
      → IsInv os w
      → All IsByte chunk
      → On (IsInv os) IsStream (read_ctrl_frames os chunk w)
  unfolding read_ctrl_frames
  read_ctrl_frames-IsInv [] w h bytes = h.0
  read_ctrl_frames-IsInv (b ∷ bs) w (s, (buf, ids, recorded, h)) bytes =
      let all = w.recv_buf ++ b ∷ bs in
      ctrl_loop-IsInv os fresh (suc (length all)) (record w { recv_buf = all })
        (s, (All-append IsByte w.recv_buf (b ∷ bs) buf bytes, ids, recorded, h))

  on_ready-IsInv :
      (r : Ready) (w : Worker) → IsInv os w → IsRead r → On (IsInv os) IsStream (on_ready os r w)
  unfolding on_ready
  on_ready-IsInv failed w h read = h
  on_ready-IsInv (ctrl chunk) w h read = read_ctrl_frames-IsInv chunk w h read
  on_ready-IsInv (pipe fd bytes) w h read = on_pipe_readable-IsInv os fd bytes w h read

  on_all-IsInv :
      (rs : List Ready) (w : Worker)
      → IsInv os w
      → All IsRead rs
      → On (IsInv os) IsStream (on_all os rs w)
  unfolding on_all
  on_all-IsInv [] w h reads = h
  on_all-IsInv (r ∷ rs) w h (read, reads) =
      On-and_then (IsInv os) (IsInv os) IsStream (on_ready os r w) _ (on_ready-IsInv r w h read)
        (λ v g. on_all-IsInv rs v g reads)

  reads_of : (w : Worker) (rs : List Ready) → All (IsSelected w) rs → All IsRead rs
  reads_of w [] h = tt
  reads_of w (r ∷ rs) (hr, h) = (IsSelected-IsRead w r hr, reads_of w rs h)

  serve_round-IsInv :
      (writable : Bool) (rs : List Ready) (w : Worker)
      → IsInv os w
      → All IsRead rs
      → On (IsInv os) IsStream (serve_round os writable rs w)
  unfolding serve_round
  serve_round-IsInv writable rs w h reads =
      On-and_then (IsInv os) (IsInv os) IsStream (if writable then flush os w else running w) _
        (if-cases (On (IsInv os) IsStream) writable _ _ (λ _. flush-IsInv os w h) (λ _. h))
        (λ v g. on_all-IsInv rs v g reads)

  init-IsInv : IsInv os init
  init-IsInv = (
    (refl, tt),
    (
      tt,
      λ fd k t e. absurd cc,
      (λ k r e. absurd cc, tt),
      λ nodup. ((λ fd k t e. absurd cc, λ k r e. absurd cc), λ k. refl, λ k r e. absurd cc),
    ),
  )

  pub Serves-IsInv : (o : Outcome) → Serves os o → On (IsInv os) IsStream o
  Serves-IsInv _ start = init-IsInv
  Serves-IsInv _ (round w writable rs s _ selected) =
      serve_round-IsInv writable rs w (Serves-IsInv (running w) s) (reads_of w rs selected)
