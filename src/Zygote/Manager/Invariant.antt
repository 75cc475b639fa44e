-- ===== src/Zygote/Manager/Invariant.antt =====
-- An invariant of the manager of server/src/services/zygote.rs, for every interleaving of its
-- tasks.
use sand_box_rust.Base.{
  ℕ, ◌+◌, ◌≤◌, ◌<◌, ◌≡◌, refl, sym, ◌∙◌, ◌⊎◌, false, List, [], none, some, inl, inr, ==_refl, ==_ne,
  ◌==◌, if◌then◌else◌, arith, count, count-append, subst, codes,
}
use native.Mathlib.Decide.{ℕ_discrete}
use native.Mathlib.Nat.{le_refl}
use sand_box_rust.Zygote.Pending.{Reply, PendingMap, World, lookup, insert, remove}
use sand_box_rust.Zygote.Pending.Laws.{lookup-insert, lookup-remove_self, IsMap, insert-IsMap}
use sand_box_rust.Zygote.Reader.{connection_lost, usize_max}
use sand_box_rust.Zygote.Reader.Answers.{channels, sent_on, accounted}
use sand_box_rust.Zygote.Reader.Bounds.{IsCapped, insert-IsCapped}
use sand_box_rust.Zygote.Manager.{
  RunPayload, Phase, idle, checked, inserted, waiting, timed_out, leaving, returned, Manager,
  update, begin, write, leave, stop, Step, refuse, check, begins, write_run, write_fails, receive,
  time_out, write_kill, leaves, read_frame, read_ends, stops, Reach, start, later,
}
use sand_box_rust.Zygote.Manager.Shrinks.{
  Shrinks, deliver-Shrinks, fail_pending-Shrinks, remove-Shrinks, count-insert-le,
}

-- A call that has inserted its entry under `k` and not removed it.
abbrev pub IsActive : ℕ → Phase → Type 0
IsActive k idle = ⊥
IsActive k checked = ⊥
IsActive k (inserted j) = j ≡ k
IsActive k (waiting j) = j ≡ k
IsActive k (timed_out j) = j ≡ k
IsActive k (leaving j _) = j ≡ k
IsActive k (returned _) = ⊥

-- A call that has not opened its channel.
abbrev pub IsNew : Phase → Type 0
IsNew idle = Unit
IsNew checked = Unit
IsNew _ = ⊥

-- Nothing is kept under `k`, or for a call that is still running.
abbrev pub IsOwned : PendingMap → (ℕ → Phase) → ℕ → Type 0
IsOwned m calls k = (lookup k m ≡ none) ⊎ ((c : ℕ) × IsActive k (calls c))

pub record Inv (limit : ℕ) (w : World) (calls : ℕ → Phase) : Type 0 where
  pub map : IsMap w.pending
  pub capped : IsCapped limit w.pending
  pub owned : (k : ℕ) → IsOwned w.pending calls k
  pub once : (c : ℕ) → count c (accounted w) ≤ 1
  pub fresh : (c : ℕ) → IsNew (calls c) → count c (accounted w) ≡ 0

module _ {limit : ℕ} {w : World} {calls : ℕ → Phase} (inv : Inv limit w calls) where
  -- The state shrinks and no call moves.
  pub Shrinks-Inv : {v : World} → Shrinks limit w v → Inv limit v calls
  Shrinks-Inv {v} s = record {
    map = s.map inv.map;
    capped = s.capped inv.capped;
    owned = λ k. owned k (inv.owned k);
    once = λ c. omega (arith, s.counts c, inv.once c);
    fresh = λ c new. omega (arith, s.counts c, inv.fresh c new);
  }
    where
      owned : (k : ℕ) → IsOwned w.pending calls k → IsOwned v.pending calls k
      owned k (inl h) = inl (s.absent k h)
      owned k (inr h) = inr h

  -- One call moves on, and stays active under its key or leaves none there.
  pub move-Inv :
      (c : ℕ) (p : Phase)
      → ((k : ℕ) → IsActive k (calls c) → IsActive k p ⊎ (lookup k w.pending ≡ none))
      → (IsNew p → IsNew (calls c))
      → Inv limit w (update calls c p)
  move-Inv c p active new = record {
    map = inv.map;
    capped = inv.capped;
    owned = λ k. owned k (inv.owned k);
    once = inv.once;
    fresh = fresh;
  }
    where
      owned : (k : ℕ) → IsOwned w.pending calls k → IsOwned w.pending (update calls c p) k
      owned k (inl h) = inl h
      owned k (inr (d, h)) = elim (ℕ_discrete c d) [
        | yes same ↦ elim (active k (subst (λ x. IsActive k (calls x)) (sym same) h)) [
          | inl still ↦ inr (c, rw ==_refl still)
          | inr gone ↦ inl gone
        ]
        | no other ↦ inr (d, rw (==_ne c d other) h)
      ]

      fresh : (d : ℕ) → IsNew (update calls c p d) → count d (accounted w) ≡ 0
      fresh d h = elim (ℕ_discrete c d) [
        | yes same ↦
            subst (λ x. count x (accounted w) ≡ 0) same
              (inv.fresh c
                (new (rw (==_refl c) at (subst (λ x. IsNew (update calls c p x)) (sym same) h))))
        | no other ↦ inv.fresh d (rw (==_ne c d other) at h)
      ]

write-Shrinks : (limit : ℕ) (frame : List ℕ) (w : World) → Shrinks limit w (write frame w)
unfolding write
write-Shrinks limit frame w = record {
  map = λ h. h;
  absent = λ k h. h;
  counts = λ c. le_refl _;
  capped = λ h. h;
}

connection_lost-Shrinks : (limit : ℕ) (w : World) → Shrinks limit w (connection_lost w)
unfolding connection_lost
connection_lost-Shrinks limit w =
    let s =
      fail_pending-Shrinks limit (codes "zygote connection lost") (record w { running = false }) in
    record { map = s.map; absent = s.absent; counts = s.counts; capped = s.capped }

module _ (limit : ℕ) (m : Manager) (inv : Inv limit m.world m.calls) where
  count-begin :
      (c d : ℕ)
      → count d (accounted (begin c m).world)
        ≤ count d (accounted m.world) + (if c == d then 1 else 0)
  unfolding begin
  count-begin c d = omega (
    arith,
    count-append d (sent_on m.world.replies)
        (channels (insert m.next_id (record { out = []; err = []; tx = some c }) m.world.pending)),
    count-append d (sent_on m.world.replies) (channels m.world.pending),
    count-insert-le d c m.next_id [] [] m.world.pending,
  )

  begin-IsOwned :
      (c : ℕ)
      → m.calls c ≡ checked
      → (k : ℕ) → IsOwned m.world.pending m.calls k
      → IsOwned (begin c m).world.pending (begin c m).calls k
  unfolding begin
  begin-IsOwned c e k o = elim (ℕ_discrete m.next_id k) [
    | yes same ↦ inr (c, rw ==_refl same)
    | no other ↦
        let kept =
          lookup-insert m.next_id k (record { out = []; err = []; tx = some c }) m.world.pending in
        elim o [
          | inl h ↦ inl (kept ∙ rw (==_ne m.next_id k other) h)
          | inr (d, h) ↦ elim (ℕ_discrete c d) [
            | yes same ↦
                absurd (subst (IsActive k) e (subst (λ x. IsActive k (m.calls x)) (sym same) h))
            | no apart ↦ inr (d, rw (==_ne c d apart) h)
          ]
        ]
  ]

  begin-fresh :
      (c : ℕ)
      → m.calls c ≡ checked
      → (d : ℕ) → IsNew ((begin c m).calls d)
      → count d (accounted (begin c m).world) ≡ 0
  begin-fresh c e d new = elim (ℕ_discrete c d) [
    | yes same ↦ absurd (
        unfold begin in
        (rw (==_refl c) at (subst (λ x. IsNew ((begin c m).calls x)) (sym same) new)))
    | no other ↦
        let old : IsNew (m.calls d) = unfold begin in (rw (==_ne c d other) at new) in
        omega (arith, rw (==_ne c d other) at (count-begin c d), inv.fresh d old)
  ]

  begin-once : (c : ℕ) → m.calls c ≡ checked → (d : ℕ) → count d (accounted (begin c m).world) ≤ 1
  begin-once c e d = elim (ℕ_discrete c d) [
    | yes same ↦
        let none_yet =
          subst (λ x. count x (accounted m.world) ≡ 0) same
            (inv.fresh c (subst IsNew (sym e) tt)) in
        ground (arith, count-begin c d, none_yet)
    | no other ↦ omega (arith, rw (==_ne c d other) at (count-begin c d), inv.once d)
  ]

  begin-Inv : (c : ℕ) → m.calls c ≡ checked → Inv limit (begin c m).world (begin c m).calls
  begin-Inv c e = record {
    map = unfold begin in insert-IsMap m.next_id _ m.world.pending inv.map;
    capped =
        unfold begin in insert-IsCapped limit m.next_id _ m.world.pending (omega arith) inv.capped;
    owned = λ k. begin-IsOwned c e k (inv.owned k);
    once = begin-once c e;
    fresh = begin-fresh c e;
  }

  leave-Inv :
      (c k : ℕ) (r : Reply)
      → m.calls c ≡ leaving k r
      → Inv limit (leave c k r m).world (leave c k r m).calls
  unfolding leave
  leave-Inv c k r e =
      move-Inv (Shrinks-Inv inv (remove-Shrinks limit k m.world)) c (returned r)
        (λ j h.
          let same : k ≡ j = subst (IsActive j) e h in
          inr (
            subst (λ x. lookup x (remove k m.world.pending) ≡ none) same
              (lookup-remove_self k m.world.pending inv.map)))
        (λ h. absurd h)

stop-Inv :
    (limit : ℕ) (m : Manager) → Inv limit m.world m.calls → Inv limit (stop m).world (stop m).calls
unfolding stop
stop-Inv limit m inv =
    let s =
      fail_pending-Shrinks limit (codes "zygote stopped") (record m.world { running = false }) in
    Shrinks-Inv inv
      (record { map = s.map; absent = s.absent; counts = s.counts; capped = s.capped })

-- A step of one call that leaves the shared state alone, or only writes a frame.
pub phase-Inv :
    (limit : ℕ) (m : Manager) (w : World) (p q : Phase) (c : ℕ)
    → Inv limit m.world m.calls
    → Shrinks limit m.world w
    → m.calls c ≡ p
    → ((k : ℕ) → IsActive k p → IsActive k q)
    → (IsNew q → IsNew p)
    → Inv limit w (update m.calls c q)
phase-Inv limit m w p q c inv s e active new =
    move-Inv (Shrinks-Inv inv s) c q (λ k h. inl (active k (subst (IsActive k) e h)))
      (λ h. subst IsNew (sym e) (new h))

Shrinks-refl : (limit : ℕ) (w : World) → Shrinks limit w w
Shrinks-refl limit w = record {
  map = λ h. h;
  absent = λ k h. h;
  counts = λ c. le_refl _;
  capped = λ h. h;
}

module _ (to_json : RunPayload → List ℕ) (limit : ℕ) (small : limit < usize_max) where
  pub Step-Inv :
      {m n : Manager}
      → Step to_json limit m n
      → Inv limit m.world m.calls
      → Inv limit n.world n.calls
  Step-Inv {m} (refuse c e _) inv =
      phase-Inv limit m _ idle (returned _) c inv (Shrinks-refl limit _) e (λ k h. h)
        (λ h. absurd h)
  Step-Inv {m} (check c e _) inv =
      phase-Inv limit m _ idle checked c inv (Shrinks-refl limit _) e (λ k h. h) (λ h. h)
  Step-Inv {m} (begins c e) inv = begin-Inv limit m inv c e
  Step-Inv {m} (write_run c k p e) inv =
      phase-Inv limit m _ (inserted k) (waiting k) c inv (write-Shrinks limit _ _) e (λ j h. h)
        (λ h. h)
  Step-Inv {m} (write_fails c k e) inv =
      phase-Inv limit m _ (inserted k) (leaving k _) c inv (Shrinks-refl limit _) e (λ j h. h)
        (λ h. h)
  Step-Inv {m} (receive c k r e _) inv =
      phase-Inv limit m _ (waiting k) (leaving k r) c inv (Shrinks-refl limit _) e (λ j h. h)
        (λ h. h)
  Step-Inv {m} (time_out c k e) inv =
      phase-Inv limit m _ (waiting k) (timed_out k) c inv (Shrinks-refl limit _) e (λ j h. h)
        (λ h. h)
  Step-Inv {m} (write_kill c k e) inv =
      phase-Inv limit m _ (timed_out k) (leaving k _) c inv (write-Shrinks limit _ _) e (λ j h. h)
        (λ h. h)
  Step-Inv {m} (leaves c k r e) inv = leave-Inv limit m inv c k r e
  Step-Inv {m} (read_frame t k p _) inv =
      Shrinks-Inv inv (deliver-Shrinks limit t k p m.world small)
  Step-Inv {m} (read_ends _) inv = Shrinks-Inv inv (connection_lost-Shrinks limit m.world)
  Step-Inv {m} stops inv = stop-Inv limit m inv

  pub Reach-Inv : {m : Manager} → Reach to_json limit m → Inv limit m.world m.calls
  Reach-Inv start = record {
    map = tt;
    capped = tt;
    owned = λ k. inl (unfold lookup in refl);
    once = λ c. omega arith;
    fresh = λ c _. refl;
  }
  Reach-Inv (later r s) = Step-Inv s (Reach-Inv r)
