-- ===== src/Zygote/Manager/Tests.antt =====
-- The theorems about the manager's interleavings, at a run of two calls.
use sand_box_rust.Base.{
  ℕ, Bool-cases, inl, inr, ◌==◌, ◌+◌, ◌≤◌, ◌≡◌, refl, List, [], ◌∷◌, none, count, arith, codes,
}
use sand_box_rust.Wire.{msg_stdout}
use sand_box_rust.Zygote.Pending.{lookup}
use sand_box_rust.Zygote.Reader.{deliver}
use sand_box_rust.Zygote.Reader.Answers.{channels, sent_on}
use sand_box_rust.Zygote.Reader.Bounds.{IsCapped}
use sand_box_rust.Zygote.Manager.{
  RunPayload, checked, leaving, Manager, check, begins, leaves, write_fails, read_frame, init,
  Reach, start, later, update, begin, leave, failure,
}
use sand_box_rust.Zygote.Manager.Safety.{answered_once, no_entry_left, output_bounded, IsSettled}

abbrev pub no_json : RunPayload → List ℕ
no_json p = p.code

abbrev pub cap : ℕ
cap = 100

abbrev fresh : Manager
fresh = init no_json cap

-- Call 0 enters its request, its write fails, and it leaves.
abbrev pub entered : Manager
entered = begin 0 (record fresh { calls = update fresh.calls 0 checked })

abbrev refused : Manager
refused = record entered {
  calls = update entered.calls 0 (leaving 1 (failure (codes "zygote write failed")));
}

abbrev left : Manager
left = leave 0 1 (failure (codes "zygote write failed")) refused

pub entered-Reach : Reach no_json cap entered
entered-Reach = later (later start (check 0 refl refl)) (begins 0 refl)

left-Reach : Reach no_json cap left
unfolding begin
left-Reach = later (later entered-Reach (write_fails 0 1 refl)) (leaves 0 1 _ refl)

left-IsSettled : (c : ℕ) → IsSettled (left.calls c)
unfolding begin leave
left-IsSettled c = elim (Bool-cases (0 == c)) [ inl e ↦ rw e tt | inr e ↦ rw e tt ]

answered_once_example :
    count 0 (sent_on entered.world.replies) + count 0 (channels entered.world.pending) ≤ 1
answered_once_example = answered_once no_json cap entered (ground arith) entered-Reach 0

-- The worker writes a byte for the request.
abbrev written : Manager
written = record entered { world = deliver cap msg_stdout 1 (b'H' ∷ []) entered.world }

written-Reach : Reach no_json cap written
unfolding begin
written-Reach = later entered-Reach (read_frame msg_stdout 1 (b'H' ∷ []) refl)

output_bounded_example : IsCapped cap written.world.pending
output_bounded_example = output_bounded no_json cap written (ground arith) written-Reach

no_entry_left_example : lookup 1 left.world.pending ≡ none
no_entry_left_example = no_entry_left no_json cap left (ground arith) left-Reach left-IsSettled 1
