-- ===== src/Zygote/Pending/Laws.antt =====
-- The laws of the map of pending requests.
use sand_box_rust.Base.{ℕ, ◌≡◌, ◌≢◌, refl, [], ◌∷◌, none, some, ◌==◌, if◌then◌else◌, arith}
use sand_box_rust.Zygote.Pending.{Pending, PendingMap, lookup, insert, remove}

pub lookup-insert :
    (k j : ℕ) (e : Pending) (m : PendingMap)
    → lookup j (insert k e m) ≡ (if k == j then some e else lookup j m)
unfolding lookup insert
lookup-insert k j e [] = refl
lookup-insert k j e ((i, x) ∷ m) = ground (arith, lookup-insert k j e m)

pub lookup-remove_ne : (k j : ℕ) (m : PendingMap) → k ≢ j → lookup j (remove k m) ≡ lookup j m
unfolding lookup remove
lookup-remove_ne k j [] h = refl
lookup-remove_ne k j ((i, x) ∷ m) h = ground (arith, lookup-remove_ne k j m h)

pub remove-insert : (k : ℕ) (e : Pending) (m : PendingMap) → remove k (insert k e m) ≡ remove k m
unfolding remove insert
remove-insert k e [] = ground arith
remove-insert k e ((j, x) ∷ m) = ground (arith, remove-insert k e m)

-- A key stands once: no key stands again behind its entry.
abbrev pub IsMap : PendingMap → Type 0
IsMap [] = Unit
IsMap ((j, x) ∷ m) = (lookup j m ≡ none) × IsMap m

pub lookup-remove_self : (k : ℕ) (m : PendingMap) → IsMap m → lookup k (remove k m) ≡ none
unfolding lookup remove
lookup-remove_self k [] h = refl
lookup-remove_self k ((j, x) ∷ m) h = ground (arith, lookup-remove_self k m h.1)

pub insert-IsMap : (k : ℕ) (e : Pending) (m : PendingMap) → IsMap m → IsMap (insert k e m)
unfolding insert
insert-IsMap k e [] h = (unfold lookup in refl, tt)
insert-IsMap k e ((j, x) ∷ m) h = ground (arith, insert-IsMap k e m h.1, lookup-insert k j e m)

pub remove-IsMap : (k : ℕ) (m : PendingMap) → IsMap m → IsMap (remove k m)
unfolding remove
remove-IsMap k [] h = tt
remove-IsMap k ((j, x) ∷ m) h = ground (arith, remove-IsMap k m h.1, lookup-remove_ne k j m)
