-- ===== src/Zygote/Reader/Answers.antt =====
-- `read_loop` of server/src/services/zygote.rs: the oneshot channels that it takes and sends on.
use mathlib.Core.List.Perm
use sand_box_rust.Base.{
  ℕ, ◌+◌, ◌≡◌, sym, ◌∙◌, List, [], ◌∷◌, ◌++◌, Option, none, some, inl, inr, ◌==◌, length, arith,
  Bool-cases, Option-cases, map, Perm, neg, append_assoc, append-nil,
}
use mathlib.Core.List.{map-append, perm_append_comm}
use sand_box_rust.Utf8.{from_utf8_lossy}
use sand_box_rust.Base.{◌<◌}
use sand_box_rust.Wire.{header_size}
use sand_box_rust.Zygote.Reader.Invariant.{Keeps, read_loop-Keeps}
use sand_box_rust.Zygote.Pending.{Pending, PendingMap, World, Reply, lookup, insert, remove, send}
use sand_box_rust.Zygote.Reader.{
  deliver, deliver_to, on_message, over_limit, exceeds, ReadResult, Reader, parked, ended,
  out_of_rounds, read_loop, connection_lost, fail_all,
}
use sand_box_rust.Zygote.Pending.Laws.{remove-insert}
use sand_box_rust.Zygote.Reader.{done_code, limit_out, limit_message}

abbrev pub to_list : Option ℕ → List ℕ
to_list none = []
to_list (some c) = c ∷ []

-- The channels whose caller still waits, and those that have been sent on.
abbrev pub channels : PendingMap → List ℕ
channels [] = []
channels ((k, e) ∷ m) = to_list e.tx ++ channels m

abbrev pub sent_on : List (ℕ × Reply) → List ℕ
sent_on = map (λ r. r.0)

-- Every channel that has been opened and not given up.
abbrev pub accounted : World → List ℕ
accounted w = sent_on w.replies ++ channels w.pending

-- Two blocks at the front change places.
perm_middle_block : (xs ys zs : List ℕ) → Perm (xs ++ (ys ++ zs)) (ys ++ (xs ++ zs))
perm_middle_block xs ys zs =
    rw (← append_assoc xs ys zs, ← append_assoc ys xs zs)
      (Perm.append_right zs (perm_append_comm xs ys))

sent_on-send :
    (tx : Option ℕ) (r : Reply) (sent : List (ℕ × Reply))
    → sent_on (send tx r sent) ≡ sent_on sent ++ to_list tx
unfolding send
sent_on-send none r sent = sym (append-nil (sent_on sent))
sent_on-send (some c) r sent = map-append _ sent ((c, r) ∷ [])

abbrev done_reply : List ℕ → Pending → Reply
done_reply payload e = record {
  stdout = from_utf8_lossy e.out;
  stderr = from_utf8_lossy e.err;
  exit_code = done_code payload;
}

-- Taking the sender and sending on it move one channel.
sent_on-on_message :
    (mtype : ℕ) (payload : List ℕ) (e : Pending) (sent : List (ℕ × Reply))
    → let (e', sent') = on_message mtype payload e sent in
      sent_on sent' ++ to_list e'.tx ≡ sent_on sent ++ to_list e.tx
unfolding on_message
sent_on-on_message mtype payload e sent = ground (
  arith,
  sent_on-send e.tx (done_reply payload e) sent,
  append-nil (sent_on (send e.tx (done_reply payload e) sent)),
)

pub channels-lookup :
    (k : ℕ) (m : PendingMap) (e : Pending)
    → lookup k m ≡ some e
    → Perm (channels m) (to_list e.tx ++ channels (remove k m))
unfolding lookup remove
channels-lookup k [] e h = cc
channels-lookup k ((j, x) ∷ m) e h = elim (Bool-cases (j == k)) [
  | inl hit ↦ rw hit (let same : x ≡ e = ground arith in rw same Perm.rfl)
  | inr miss ↦ rw miss (
      Perm.trans (Perm.append_left (to_list x.tx) (channels-lookup k m e (ground arith)))
        (perm_middle_block (to_list x.tx) (to_list e.tx) (channels (remove k m))))
]

pub channels-insert :
    (k : ℕ) (e : Pending) (m : PendingMap)
    → Perm (channels (insert k e m)) (to_list e.tx ++ channels (remove k m))
unfolding insert remove
channels-insert k e [] = Perm.rfl
channels-insert k e ((j, x) ∷ m) = elim (Bool-cases (j == k)) [
  | inl hit ↦ rw hit Perm.rfl
  | inr miss ↦ rw miss (
      Perm.trans (Perm.append_left (to_list x.tx) (channels-insert k e m))
        (perm_middle_block (to_list x.tx) (to_list e.tx) (channels (remove k m))))
]

pub channels-fail_all :
    (msg : List ℕ) (m : PendingMap) (sent : List (ℕ × Reply))
    → sent_on (fail_all msg m sent) ≡ sent_on sent ++ channels m
unfolding fail_all
channels-fail_all msg [] sent = sym (append-nil (sent_on sent))
channels-fail_all msg ((k, e) ∷ m) sent =
    channels-fail_all msg m _
    ∙ rw (sent_on-send) (append_assoc (sent_on sent) (to_list e.tx) (channels m))

on_message-accounted :
    (mtype k : ℕ) (payload : List ℕ) (e : Pending) (w : World)
    → lookup k w.pending ≡ some e
    → let (e', sent') = on_message mtype payload e w.replies in
      Perm (sent_on sent' ++ (to_list e'.tx ++ channels (remove k w.pending))) (accounted w)
on_message-accounted mtype k payload e w found =
    let (e', sent') = on_message mtype payload e w.replies in
    let rest = channels (remove k w.pending) in
    rw
      (
        ← append_assoc (sent_on sent') (to_list e'.tx) rest,
        sent_on-on_message mtype payload e w.replies,
        append_assoc (sent_on w.replies) (to_list e.tx) rest,
      )
      (Perm.append_left (sent_on w.replies) (Perm.symm (channels-lookup k w.pending e found)))

deliver_to-accounted :
    (limit mtype k : ℕ) (payload : List ℕ) (e : Pending) (w : World)
    → lookup k w.pending ≡ some e
    → Perm (accounted (deliver_to limit mtype k payload e w)) (accounted w)
unfolding deliver_to over_limit
deliver_to-accounted limit mtype k payload e w found =
    let (e', sent') = on_message mtype payload e w.replies in
    let rest = channels (remove k w.pending) in
    let base = on_message-accounted mtype k payload e w found in
    elim (Bool-cases (exceeds limit mtype e')) [
      | inl over ↦ rw over (
          rw
            (
              sent_on-send e'.tx
                  (record {
                    stdout = limit_out e'.out;
                    stderr = limit_message limit;
                    exit_code = neg 1;
                  })
                  sent',
              remove-insert k e' w.pending,
              append_assoc (sent_on sent') (to_list e'.tx) rest,
            )
            base)
      | inr under ↦
          rw under
            (Perm.trans (Perm.append_left (sent_on sent') (channels-insert k e' w.pending)) base)
    ]

-- A delivery moves channels from waiting to answered, and loses or repeats none.
pub deliver-accounted :
    (limit mtype k : ℕ) (payload : List ℕ) (w : World)
    → Perm (accounted (deliver limit mtype k payload w)) (accounted w)
unfolding deliver
deliver-accounted limit mtype k payload w = elim (Option-cases (lookup k w.pending)) [
  | inl missing ↦ rw (missing, deliver) Perm.rfl
  | inr (e, found) ↦ rw (found, deliver) (deliver_to-accounted limit mtype k payload e w found)
]

-- The end of the reader answers everyone who still waits.
pub connection_lost-accounted : (w : World) → sent_on (connection_lost w).replies ≡ accounted w
unfolding connection_lost
connection_lost-accounted w = channels-fail_all _ w.pending w.replies

-- What the reader makes of the channels: all accounted for while it is parked, and all answered once
-- it has ended.
abbrev pub IsAccounted : World → Reader → Type 0
IsAccounted w (parked buf v) = Perm (accounted v) (accounted w)
IsAccounted w (ended v) = Perm (sent_on v.replies) (accounted w)
IsAccounted w out_of_rounds = ⊥

deliver_keeps :
    (limit : ℕ) (w : World) (mtype k : ℕ) (payload : List ℕ) (v : World)
    → Perm (accounted v) (accounted w)
    → Perm (accounted (deliver limit mtype k payload v)) (accounted w)
deliver_keeps limit w mtype k payload v = Perm.trans (deliver-accounted limit mtype k payload v)

Keeps-IsAccounted :
    (limit : ℕ) (w : World) (r : Reader)
    → Keeps (λ v. Perm (accounted v) (accounted w)) limit (deliver_keeps limit w) r
    → IsAccounted w r
Keeps-IsAccounted limit w (parked buf v) h = h.1
Keeps-IsAccounted limit w (ended v) (u, h, e) = rw (e, connection_lost-accounted u) h
Keeps-IsAccounted limit w out_of_rounds h = h

-- From a buffer shorter than a header and the cap, on every sequence of reads: every channel open
-- before is afterwards either answered or still waiting, each as often as before, and when the
-- reader has ended every one is answered.
pub read_loop-IsAccounted :
    (limit : ℕ) (w : World) (buf : List ℕ) (rs : List ReadResult)
    → length buf < header_size + limit
    → IsAccounted w (read_loop limit buf w rs)
read_loop-IsAccounted limit w buf rs hb = Keeps-IsAccounted limit w (read_loop limit buf w rs) (
    read_loop-Keeps (λ v. Perm (accounted v) (accounted w)) limit (deliver_keeps limit w) w buf rs
      hb Perm.rfl)
