-- ===== src/Pool/Worker/Tables.antt =====
-- The requests of the worker and the descriptors that it listens to, `reqs` and `fd_map`.
use sand_box_rust.Base.{
  ℕ, ◌<◌, ◌≡◌, ◌≢◌, ◌⊎◌, inl, inr, refl, sym, ap, ◌∙◌, List, [], ◌∷◌, length, Option, some, ==_refl,
  ==_ne, arith, count,
}
use sand_box_rust.Pool.State.{ReqInfo, Requests, FdMap, update}
use sand_box_rust.Pool.Worker.{discard}

pub eq_or_ne : (a b : ℕ) → (a ≡ b) ⊎ (a ≢ b)
eq_or_ne a b = ground arith

module _ {ℓ} {A : Type ℓ} where
  pub update_same : (m : ℕ → Option A) (k : ℕ) (v : Option A) → update m k v k ≡ v
  update_same m k v = rw (==_refl k) refl

  pub update_other : (m : ℕ → Option A) (k j : ℕ) (v : Option A) → k ≢ j → update m k v j ≡ m j
  update_other m k j v h = rw (==_ne k j h) refl

  pub update-cases :
      (m : ℕ → Option A) (k j : ℕ) (v x : Option A)
      → update m k v j ≡ x
      → ((k ≡ j) × (v ≡ x)) ⊎ ((k ≢ j) × (m j ≡ x))
  update-cases m k j v x e = elim (eq_or_ne k j) [
    | inl same ↦ inl (same, sym (update_same m k v) ∙ ap (update m k v) same ∙ e)
    | inr other ↦ inr (other, sym (update_other m k j v other) ∙ e)
  ]

pub count-discard_same : (fd : ℕ) (xs : List ℕ) → count fd (discard fd xs) ≡ 0
count-discard_same fd [] = refl
count-discard_same fd (x ∷ xs) = ground (arith, count-discard_same fd xs)

pub count-discard_other : (fd j : ℕ) (xs : List ℕ) → fd ≢ j → count j (discard fd xs) ≡ count j xs
count-discard_other fd j [] h = refl
count-discard_other fd j (x ∷ xs) h = ground (arith, count-discard_other fd j xs h)

-- Each descriptor belongs to a request that has it open.
abbrev pub IsOwned : Requests → FdMap → Type 0
IsOwned reqs fd_map =
    (fd k t : ℕ)
    → fd_map fd ≡ some (k, t)
    → (r : ReqInfo) × (reqs k ≡ some r) × (0 < count fd r.open_fds)

-- Each request has a descriptor open, and is listened to at all that it has.
abbrev pub IsHeard : Requests → FdMap → Type 0
IsHeard reqs fd_map =
    (k : ℕ) (r : ReqInfo)
    → reqs k ≡ some r
    → (0 < length r.open_fds)
      × ((fd : ℕ) → 0 < count fd r.open_fds → (t : ℕ) × (fd_map fd ≡ some (k, t)))

abbrev pub IsLinked : Requests → FdMap → Type 0
IsLinked reqs fd_map = IsOwned reqs fd_map × IsHeard reqs fd_map

pub some_injective : {A : Type 0} (a b : A) → some a ≡ some b → a ≡ b
some_injective a b e = cc
