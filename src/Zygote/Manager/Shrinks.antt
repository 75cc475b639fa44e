-- ===== src/Zygote/Manager/Shrinks.antt =====
-- What every operation on the shared state but the insertion of a request does to it.
use sand_box_rust.Base.{
  ℕ, ◌≤◌, ◌<◌, ◌≡◌, refl, ◌∙◌, List, [], ◌∷◌, none, some, inl, inr, Bool-cases, Option-cases, arith,
  count, count-append, count-Perm, ap,
}
use native.Mathlib.Decide.{ℕ_discrete}
use sand_box_rust.Zygote.Pending.{Pending, PendingMap, World, lookup, insert, remove}
use sand_box_rust.Zygote.Pending.Laws.{remove-insert, IsMap, insert-IsMap, remove-IsMap}
use sand_box_rust.Zygote.Reader.{
  deliver, deliver_to, over_limit, on_message, exceeds, fail_pending, usize_max,
}
use sand_box_rust.Zygote.Reader.Answers.{
  to_list, channels, sent_on, accounted, deliver-accounted, channels-insert, channels-fail_all,
}
use sand_box_rust.Zygote.Reader.Bounds.{IsCapped, deliver-IsCapped, remove-IsCapped}
use sand_box_rust.Zygote.Reader.Requests.{deliver_other, deliver_missing, deliver_found}

-- No new entry, no new channel, no entry over the cap.
pub record Shrinks (limit : ℕ) (w v : World) : Type 0 where
  pub map : IsMap w.pending → IsMap v.pending
  pub absent : (k : ℕ) → lookup k w.pending ≡ none → lookup k v.pending ≡ none
  pub counts : (c : ℕ) → count c (accounted v) ≤ count c (accounted w)
  pub capped : IsCapped limit w.pending → IsCapped limit v.pending

deliver-IsMap :
    (limit t k : ℕ) (p : List ℕ) (w : World)
    → IsMap w.pending
    → IsMap (deliver limit t k p w).pending
deliver-IsMap limit t k p w h = elim (Option-cases (lookup k w.pending)) [
  | inl missing ↦ rw (deliver_missing limit t k p w missing) h
  | inr (e, found) ↦ rw (deliver_found limit t k p w e found) (deliver_to-IsMap e)
]
  where
    deliver_to-IsMap : (e : Pending) → IsMap (deliver_to limit t k p e w).pending
    deliver_to-IsMap e =
        unfold deliver_to over_limit in
        elim (Bool-cases (exceeds limit t (on_message t p e w.replies).0)) [
          | inl over ↦ rw (over, remove-insert k _ w.pending) (remove-IsMap k w.pending h)
          | inr under ↦ rw under (insert-IsMap k _ w.pending h)
        ]

deliver_absent :
    (limit t j k : ℕ) (p : List ℕ) (w : World)
    → lookup k w.pending ≡ none
    → lookup k (deliver limit t j p w).pending ≡ none
deliver_absent limit t j k p w h = elim (ℕ_discrete j k) [
  | yes same ↦ rw same (rw (deliver_missing limit t k p w h) h)
  | no other ↦ deliver_other limit t j k p w other ∙ h
]

pub deliver-Shrinks :
    (limit t k : ℕ) (p : List ℕ) (w : World)
    → limit < usize_max
    → Shrinks limit w (deliver limit t k p w)
deliver-Shrinks limit t k p w small = record {
  map = deliver-IsMap limit t k p w;
  absent = λ j. deliver_absent limit t k j p w;
  counts = λ c. omega (arith, count-Perm c (deliver-accounted limit t k p w));
  capped = deliver-IsCapped limit t k p w small;
}

pub fail_pending-Shrinks :
    (limit : ℕ) (msg : List ℕ) (w : World) → Shrinks limit w (fail_pending msg w)
unfolding fail_pending
fail_pending-Shrinks limit msg w = record {
  map = λ _. tt;
  absent = λ k _. unfold lookup in refl;
  counts = λ c. counted c;
  capped = λ _. tt;
}
  where
    counted : (c : ℕ) → count c (accounted (fail_pending msg w)) ≤ count c (accounted w)
    counted c = omega (
      arith,
      count-append c (sent_on (fail_pending msg w).replies) [],
      ap (count c) (channels-fail_all msg w.pending w.replies),
    )

count-remove-le :
    (c k : ℕ) (m : PendingMap) → count c (channels (remove k m)) ≤ count c (channels m)
unfolding remove
count-remove-le c k [] = omega arith
count-remove-le c k ((j, x) ∷ m) = ground (
  arith,
  count-append c (to_list x.tx) (channels m),
  count-append c (to_list x.tx) (channels (remove k m)),
  count-remove-le c k m,
)

lookup-remove_absent : (k j : ℕ) (m : PendingMap) → lookup j m ≡ none → lookup j (remove k m) ≡ none
unfolding lookup remove
lookup-remove_absent k j [] h = refl
lookup-remove_absent k j ((i, x) ∷ m) h = ground (arith, lookup-remove_absent k j m)

pub remove-Shrinks :
    (limit k : ℕ) (w : World) → Shrinks limit w (record w { pending = remove k w.pending })
remove-Shrinks limit k w = record {
  map = remove-IsMap k w.pending;
  absent = λ j. lookup-remove_absent k j w.pending;
  counts = λ c. omega (
    arith,
    count-append c (sent_on w.replies) (channels (remove k w.pending)),
    count-append c (sent_on w.replies) (channels w.pending),
    count-remove-le c k w.pending,
  );
  capped = remove-IsCapped limit k w.pending;
}

-- A new request adds its own channel and no other.
pub count-insert-le :
    (c d k : ℕ) (out err : List ℕ) (m : PendingMap)
    → count c (channels (insert k (record { out = out; err = err; tx = some d }) m))
      ≤ count c (d ∷ channels m)
count-insert-le c d k out err m = omega (
  arith,
  count-Perm c (channels-insert k (record { out = out; err = err; tx = some d }) m),
  count-remove-le c k m,
)
