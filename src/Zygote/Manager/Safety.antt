-- ===== src/Zygote/Manager/Safety.antt =====
-- What holds of the manager in every reachable state, in every order of its tasks.
use sand_box_rust.Base.{ℕ, ◌+◌, ◌≤◌, ◌<◌, ◌≡◌, List, none, inl, inr, arith, count, count-append}
use sand_box_rust.Zygote.Pending.{lookup}
use sand_box_rust.Zygote.Reader.{usize_max}
use sand_box_rust.Zygote.Reader.Answers.{channels, sent_on}
use sand_box_rust.Zygote.Reader.Bounds.{IsCapped}
use sand_box_rust.Zygote.Manager.{
  RunPayload, Phase, idle, checked, inserted, waiting, timed_out, leaving, returned, Manager, Reach,
}
use sand_box_rust.Zygote.Manager.Invariant.{IsActive, Reach-Inv}

-- A call that has not entered its request, or that has returned.
abbrev pub IsSettled : Phase → Type 0
IsSettled idle = Unit
IsSettled checked = Unit
IsSettled (returned _) = Unit
IsSettled _ = ⊥

settled_inactive : (k : ℕ) (p : Phase) → IsSettled p → IsActive k p → ⊥
settled_inactive k idle s a = a
settled_inactive k checked s a = a
settled_inactive k (inserted j) s a = s
settled_inactive k (waiting j) s a = s
settled_inactive k (timed_out j) s a = s
settled_inactive k (leaving j r) s a = s
settled_inactive k (returned r) s a = a

module _ (to_json : RunPayload → List ℕ) (limit : ℕ) where
  -- For a cap below the largest `usize`, in every reachable state: no oneshot channel has been
  -- sent on twice, and none that has been sent on is still in the map.
  pub answered_once :
      (m : Manager)
      → limit < usize_max
      → Reach to_json limit m
      → (c : ℕ) → count c (sent_on m.world.replies) + count c (channels m.world.pending) ≤ 1
  answered_once m small r c = omega (
    arith,
    (Reach-Inv to_json limit small r).once c,
    count-append c (sent_on m.world.replies) (channels m.world.pending),
  )

  -- For a cap below the largest `usize`, in every reachable state, also if request ids wrapped
  -- and two calls had the same one: when no call is between the start and the end of its request,
  -- the map of pending requests is empty.
  pub no_entry_left :
      (m : Manager)
      → limit < usize_max
      → Reach to_json limit m
      → ((c : ℕ) → IsSettled (m.calls c))
      → (k : ℕ) → lookup k m.world.pending ≡ none
  no_entry_left m small r settled k = elim ((Reach-Inv to_json limit small r).owned k) [
    | inl absent ↦ absent
    | inr (c, active) ↦ absurd (settled_inactive k (m.calls c) (settled c) active)
  ]

  -- For a cap below the largest `usize`, in every reachable state: no pending request has
  -- buffered more than the cap.
  pub output_bounded :
      (m : Manager) → limit < usize_max → Reach to_json limit m → IsCapped limit m.world.pending
  output_bounded m small r = (Reach-Inv to_json limit small r).capped
