-- ===== src/Zygote/Reader/Bounds.antt =====
-- What the manager keeps in memory: the bytes of a request's output, and those in `frame_buf`.
use sand_box_rust.Base.{
  ℕ, ◌+◌, ◌≤◌, ◌<◌, ◌≡◌, false, List, [], ◌∷◌, some, inl, inr, length, arith, All, Bool-cases,
  Option-cases,
}
use sand_box_rust.Wire.{header_size}
use sand_box_rust.Zygote.Pending.{Pending, PendingMap, World, Reply, lookup, insert, remove}
use sand_box_rust.Zygote.Reader.{
  deliver, deliver_to, on_message, over_limit, exceeds, ReadResult, Reader, parked, ended,
  out_of_rounds, read_loop, connection_lost, usize_max,
}
use sand_box_rust.Zygote.Reader.Invariant.{Keeps, read_loop-Keeps}
use sand_box_rust.Base.{ap}

-- The output kept for a request.
abbrev pub kept : Pending → ℕ
kept e = length e.out + length e.err

-- Every request in flight keeps at most the cap.
abbrev pub IsCapped : ℕ → PendingMap → Type 0
IsCapped limit m = All (λ p. kept p.1 ≤ limit) m

pub insert-IsCapped :
    (limit k : ℕ) (e : Pending) (m : PendingMap)
    → kept e ≤ limit
    → IsCapped limit m
    → IsCapped limit (insert k e m)
unfolding insert
insert-IsCapped limit k e [] he hm = (he, tt)
insert-IsCapped limit k e ((j, x) ∷ m) he hm = ground (arith, insert-IsCapped limit k e m)

pub remove-IsCapped :
    (limit k : ℕ) (m : PendingMap) → IsCapped limit m → IsCapped limit (remove k m)
unfolding remove
remove-IsCapped limit k [] hm = tt
remove-IsCapped limit k ((j, x) ∷ m) hm = ground (arith, remove-IsCapped limit k m)

remove-insert-IsCapped :
    (limit k : ℕ) (e : Pending) (m : PendingMap)
    → IsCapped limit m
    → IsCapped limit (remove k (insert k e m))
unfolding insert remove
remove-insert-IsCapped limit k e [] hm = ground arith
remove-insert-IsCapped limit k e ((j, x) ∷ m) hm =
    ground (arith, remove-insert-IsCapped limit k e m)

lookup-kept :
    (limit k : ℕ) (m : PendingMap) (e : Pending)
    → IsCapped limit m
    → lookup k m ≡ some e
    → kept e ≤ limit
unfolding lookup
lookup-kept limit k [] e hm h = cc
lookup-kept limit k ((j, x) ∷ m) e hm h = ground (arith, lookup-kept limit k m e hm.1)

-- Only a MSG_STDOUT or MSG_STDERR frame makes an entry longer.
kept-on_message :
    (limit mtype : ℕ) (payload : List ℕ) (e : Pending) (sent : List (ℕ × Reply))
    → kept e ≤ limit
    → limit < usize_max
    → exceeds limit mtype (on_message mtype payload e sent).0 ≡ false
    → kept (on_message mtype payload e sent).0 ≤ limit
unfolding on_message
kept-on_message limit mtype payload e sent he small h = ground arith

deliver_to-IsCapped :
    (limit mtype req_id : ℕ) (payload : List ℕ) (e : Pending) (w : World)
    → limit < usize_max
    → kept e ≤ limit
    → IsCapped limit w.pending
    → IsCapped limit (deliver_to limit mtype req_id payload e w).pending
unfolding deliver_to over_limit
deliver_to-IsCapped limit mtype req_id payload e w small he hw =
    let e' = (on_message mtype payload e w.replies).0 in
    elim (Bool-cases (exceeds limit mtype e')) [
      | inl over ↦ rw (over) (remove-insert-IsCapped limit req_id e' w.pending hw)
      | inr under ↦ rw (under) (
          insert-IsCapped limit req_id e' w.pending
            (kept-on_message limit mtype payload e w.replies he small under) hw)
    ]

-- A delivered frame keeps every request within the cap.
pub deliver-IsCapped :
    (limit mtype req_id : ℕ) (payload : List ℕ) (w : World)
    → limit < usize_max
    → IsCapped limit w.pending
    → IsCapped limit (deliver limit mtype req_id payload w).pending
unfolding deliver
deliver-IsCapped limit mtype req_id payload w small hw =
    elim (Option-cases (lookup req_id w.pending)) [
      | inl missing ↦ rw (missing, deliver) hw
      | inr (e, found) ↦
          rw (found, deliver)
            (deliver_to-IsCapped limit mtype req_id payload e w small
              (lookup-kept limit req_id w.pending e hw found) hw)
    ]

-- A reader that is parked holds less than one frame of the largest size, and no request over the
-- cap; one that has ended has cleared the map and marked the manager as not running.
abbrev pub IsBounded : ℕ → Reader → Type 0
IsBounded limit (parked buf w) = (length buf < header_size + limit) × IsCapped limit w.pending
IsBounded limit (ended w) = (w.pending ≡ []) × (w.running ≡ false)
IsBounded limit out_of_rounds = ⊥

Keeps-IsBounded :
    (limit : ℕ) (small : limit < usize_max) (r : Reader)
    → Keeps
        (λ w. IsCapped limit w.pending)
        limit
        (λ t k p w. deliver-IsCapped limit t k p w small)
        r
    → IsBounded limit r
unfolding connection_lost
Keeps-IsBounded limit small (parked buf w) h = h
Keeps-IsBounded limit small (ended w) (v, _, e) = (ap (λ u. u.pending) e, ap (λ u. u.running) e)
Keeps-IsBounded limit small out_of_rounds h = h

-- For a cap below the largest `usize`, from a buffer shorter than a header and the cap and a map
-- within the cap: on every sequence of reads, errors and end of file included, `read_loop` either
-- waits with both within these bounds or has ended and left no pending request; it never runs out
-- of rounds.
pub read_loop-IsBounded :
    (limit : ℕ) (w : World) (buf : List ℕ) (rs : List ReadResult)
    → limit < usize_max
    → length buf < header_size + limit
    → IsCapped limit w.pending
    → IsBounded limit (read_loop limit buf w rs)
read_loop-IsBounded limit w buf rs small hb hw =
    Keeps-IsBounded limit small (read_loop limit buf w rs) (
      read_loop-Keeps (λ w. IsCapped limit w.pending) limit
        (λ t k p w. deliver-IsCapped limit t k p w small) w buf rs hb hw)
