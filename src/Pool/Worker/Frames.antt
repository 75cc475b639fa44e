-- ===== src/Pool/Worker/Frames.antt =====
-- The control frames of the worker keep its invariant.
use sand_box_rust.Base.{
  ℕ, zero, suc, ◌+◌, ◌*◌, ◌^◌, ◌≡◌, ◌≢◌, ◌⊎◌, inl, inr, refl, ap, List, [], ◌∷◌, ◌++◌, length, drop,
  none, some, All, arith, subst, count, count-append, Bool-cases, Option-cases, if-cases, ◌==◌, ltb,
}
use sand_box_rust.Wire.{IsU32, IsByte, Header, header, from_be_bytes}
use sand_box_rust.Pool.Protocol.{header_size, msg_stdout, msg_stderr, msg_done, msg_run, msg_kill}
use sand_box_rust.Pool.State.{
  Worker, Requests, FdMap, Os, Forked, forked, raised, Outcome, update, fork, kill,
}
use sand_box_rust.Pool.Worker.{
  or_leave, Handled, handled, crashed, handle_run, handle_kill, handle_frame, ctrl_loop,
  max_frame_payload,
}
use sand_box_rust.Pool.Worker.Stream.{IsStream, On}
use sand_box_rust.Pool.Worker.Tables.{update-cases, some_injective}
use sand_box_rust.Pool.Worker.Links.{start-IsLinked}
use sand_box_rust.Pool.Worker.Phases.{IsKnown, start-IsPhased, start-IsKnown}
use sand_box_rust.Pool.Worker.Codes.{fork-IsRecorded, append-IsRecorded}
use sand_box_rust.Pool.Worker.Ends.{IsFresh, IsNodup, IsIds, IsInv}

abbrev OnHandled : Os → Handled → Type 0
OnHandled os (handled w) = IsInv os w
OnHandled os (crashed w) = IsInv os w

On-or_leave :
    (os : Os) (h : Handled) (f : Worker → Outcome)
    → OnHandled os h
    → ((w : Worker) → IsInv os w → On (IsInv os) IsStream (f w))
    → On (IsInv os) IsStream (or_leave h f)
On-or_leave os (handled w) f h g = g w h
On-or_leave os (crashed w) f h g = h

abbrev IsSource : ℕ × ℕ → Type 0
IsSource s = IsU32 s.0 × IsByte s.1 × (s.1 ≢ msg_done)

pub Forked-cases :
    (a : Forked) → (a ≡ raised) ⊎ ((pid : ℕ) × (o : ℕ) × (e : ℕ) × (a ≡ forked pid o e))
Forked-cases raised = inl refl
Forked-cases (forked pid o e) = inr (pid, o, e, refl)

pub list-cases : (xs : List ℕ) → (xs ≡ []) ⊎ ((y : ℕ) × (ys : List ℕ) × (xs ≡ y ∷ ys))
list-cases [] = inl refl
list-cases (y ∷ ys) = inr (y, ys, refl)

drop-IsByte : (n : ℕ) (bs : List ℕ) → All IsByte bs → All IsByte (drop n bs)
drop-IsByte zero bs h = h
drop-IsByte (suc n) [] h = tt
drop-IsByte (suc n) (b ∷ bs) (hb, h) = drop-IsByte n bs h

-- Four bytes make a number of 32 bits.
header-IsU32 : (buf : List ℕ) (h : Header) → All IsByte buf → header buf ≡ some h → IsU32 h.req_id
unfolding header from_be_bytes
header-IsU32 (a ∷ b ∷ c ∷ d ∷ t ∷ e ∷ f ∷ g ∷ i ∷ rest) h bytes p =
    let (_, (_, (_, (_, (_, (he, (hf, (hg, (hi, _))))))))) = bytes in
    let id : e * 2 ^ 24 + f * 2 ^ 16 + g * 2 ^ 8 + i ≡ h.req_id =
      ap (λ q. q.req_id) (some_injective _ _ p) in
    omega (arith, id)
header-IsU32 [] h bytes p = cc
header-IsU32 (a ∷ []) h bytes p = cc
header-IsU32 (a ∷ b ∷ []) h bytes p = cc
header-IsU32 (a ∷ b ∷ c ∷ []) h bytes p = cc
header-IsU32 (a ∷ b ∷ c ∷ d ∷ []) h bytes p = cc
header-IsU32 (a ∷ b ∷ c ∷ d ∷ t ∷ []) h bytes p = cc
header-IsU32 (a ∷ b ∷ c ∷ d ∷ t ∷ e ∷ []) h bytes p = cc
header-IsU32 (a ∷ b ∷ c ∷ d ∷ t ∷ e ∷ f ∷ []) h bytes p = cc
header-IsU32 (a ∷ b ∷ c ∷ d ∷ t ∷ e ∷ f ∷ g ∷ []) h bytes p = cc

update-IsIds :
    (fd_map : FdMap) (fd k t : ℕ)
    → IsIds fd_map
    → IsU32 k
    → IsByte t
    → t ≢ msg_done
    → IsIds (update fd_map fd (some (k, t)))
update-IsIds fd_map fd k t h hk ht hd d j u e =
    elim (update-cases fd_map fd d (some (k, t)) (some (j, u)) e) [
      | inl (_, g) ↦ subst IsSource (some_injective (k, t) (j, u) g) (hk, ht, hd)
      | inr (_, g) ↦ h d j u g
    ]

pub remove-IsIds : (fd_map : FdMap) (fd : ℕ) → IsIds fd_map → IsIds (update fd_map fd none)
remove-IsIds fd_map fd h d j u e = elim (update-cases fd_map fd d none (some (j, u)) e) [
  | inl (_, g) ↦ absurd cc
  | inr (_, g) ↦ h d j u g
]

IsNodup-append : (started : List ℕ) (k : ℕ) → IsNodup (started ++ k ∷ []) → IsNodup started
IsNodup-append started k nodup j = omega (arith, nodup j, count-append j started (k ∷ []))

first_start :
    (reqs : Requests) (started : List ℕ) (k : ℕ)
    → IsKnown reqs started
    → IsNodup (started ++ k ∷ [])
    → (reqs k ≡ none) × (count k started ≡ 0)
first_start reqs started k known nodup =
    let new : count k started ≡ 0 = ground (arith, nodup k, count-append k started (k ∷ [])) in
    (
      elim (Option-cases (reqs k)) [
        | inl e ↦ e
        | inr (r, e) ↦ absurd (omega (arith, known k r e, new))
      ],
      new,
    )

module _ (os : Os) (fresh : IsFresh os) where
  forked-IsInv :
      (k pid o e : ℕ) (w : Worker)
      → IsInv os w
      → IsU32 k
      → os.run_child w.calls w.fd_map ≡ forked pid o e
      → IsInv os (record w {
        calls = suc w.calls;
        log = w.log ++ fork k pid ∷ [];
        started = w.started ++ k ∷ [];
        reqs = update w.reqs k (some (record { pid = pid; open_fds = o ∷ e ∷ [] }));
        fd_map = update (update w.fd_map o (some (k, msg_stdout))) e (some (k, msg_stderr));
      })
  forked-IsInv k pid o e w (s, (bytes, ids, recorded, h)) hk he =
      let (ho, he, distinct) = fresh w.calls w.fd_map pid o e he in
      (
        s,
        (
          bytes,
          update-IsIds (update w.fd_map o (some (k, msg_stdout))) e k msg_stderr
              (update-IsIds w.fd_map o k msg_stdout ids hk (omega arith) (omega arith)) hk
              (omega arith) (omega arith),
          fork-IsRecorded os w.reqs w.log w.emitted k (record { pid = pid; open_fds = o ∷ e ∷ [] })
              recorded,
          λ nodup.
              let (linked, phased, known) = h (IsNodup-append w.started k nodup) in
              let (none_yet, new) = first_start w.reqs w.started k known nodup in
              (
                start-IsLinked w.reqs w.fd_map k o e pid linked none_yet ho he distinct,
                start-IsPhased w.reqs w.started w.emitted k _ phased none_yet new,
                start-IsKnown w.reqs w.started k _ known,
              ),
        ),
      )

  handle_run-IsInv :
      (k : ℕ) (p : List ℕ) (w : Worker) → IsInv os w → IsU32 k → OnHandled os (handle_run os k p w)
  unfolding handle_run
  handle_run-IsInv k p w h hk = elim (Bool-cases (os.loads p)) [
    | inl e ↦ elim (Forked-cases (os.run_child w.calls w.fd_map)) [
      | inl g ↦ rw (e, g, handle_run) h
      | inr (pid, o, r, g) ↦ rw (e, g, handle_run) (forked-IsInv k pid o r w h hk g)
    ]
    | inr e ↦ rw (e, handle_run) h
  ]

  handle_kill-IsInv : (k : ℕ) (w : Worker) → IsInv os w → IsInv os (handle_kill k w)
  unfolding handle_kill
  handle_kill-IsInv k w h = elim (Option-cases (w.reqs k)) [
    | inl e ↦ rw (e, handle_kill) h
    | inr (r, e) ↦
        let (s, (bytes, ids, recorded, g)) = h in
        rw (e, handle_kill)
          (
            s,
            (bytes, ids, append-IsRecorded os w.reqs w.log (kill r.pid ∷ []) w.emitted recorded, g),
          )
  ]

  handle_frame-IsInv :
      (t k : ℕ) (p : List ℕ) (w : Worker)
      → IsInv os w
      → IsU32 k
      → OnHandled os (handle_frame os t k p w)
  unfolding handle_frame
  handle_frame-IsInv t k p w h hk =
      if-cases (OnHandled os) (t == msg_run) _ _ (λ _. handle_run-IsInv k p w h hk)
        (λ _. if-cases (OnHandled os) (t == msg_kill) _ _ (λ _. handle_kill-IsInv k w h) (λ _. h))

  pub ctrl_loop-IsInv :
      (rounds : ℕ) (w : Worker) → IsInv os w → On (IsInv os) IsStream (ctrl_loop rounds os w)
  unfolding ctrl_loop
  ctrl_loop-IsInv zero w h = h
  ctrl_loop-IsInv (suc rounds) w h = elim (Option-cases (header w.recv_buf)) [
    | inl e ↦ rw (e, ctrl_loop) h
    | inr (q, e) ↦
        rw (e, ctrl_loop)
          (if-cases (On (IsInv os) IsStream) (ltb max_frame_payload q.plen) _ _ (λ _. h.0)
            (λ _.
              if-cases (On (IsInv os) IsStream) (ltb (length w.recv_buf) (header_size + q.plen)) _ _
                (λ _. h)
                (λ _.
                  On-or_leave os _ _
                    (handle_frame-IsInv q.mtype q.req_id _
                      (record w { recv_buf = drop (header_size + q.plen) w.recv_buf })
                      (
                        h.0,
                        (drop-IsByte (header_size + q.plen) w.recv_buf h.1.0, h.1.1, h.1.2, h.1.3),
                      )
                      (header-IsU32 w.recv_buf q h.1.0 e))
                    (ctrl_loop-IsInv rounds))))
  ]
