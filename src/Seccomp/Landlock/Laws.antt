-- ===== src/Seccomp/Landlock/Laws.antt =====
-- What `apply_landlock` returns for an array that ends with NULL.
use sand_box_rust.Base.{
  ℕ, ◌≡◌, ◌≢◌, ◌⊎◌, inl, inr, refl, ap, List, [], ◌∷◌, ◌++◌, map, none, some, ℤ, pos, neg,
  Option-cases,
}
use mathlib.Core.List.{filter_map}
use mathlib.Core.Option
use sand_box_rust.Utf8.{from_utf8}
use sand_box_rust.Seccomp.Landlock.{
  CharPtr, path_strs, fully_enforced, partially_enforced, not_enforced, Crate, restrict, apply_to,
  apply_landlock,
}

-- The loop reads up to the first NULL, and keeps what is UTF-8.
path_strs-filter_map :
    (strings : List (List ℕ)) (rest : List CharPtr)
    → path_strs (map some strings ++ none ∷ rest) ≡ some (filter_map from_utf8 strings)
unfolding path_strs filter_map
path_strs-filter_map [] rest = refl
path_strs-filter_map (s ∷ strings) rest = elim (Option-cases (from_utf8 s)) [
  | inl bad ↦ rw (bad, path_strs) (path_strs-filter_map strings rest)
  | inr (path, good) ↦
      rw (good, path_strs) (ap (Option.map (◌∷◌ path)) (path_strs-filter_map strings rest))
]

module _ {Ruleset : Type 0} (crate : Crate Ruleset) where
  -- What a code says of the restriction to `paths`.
  abbrev pub Restricts : List (List ℕ) → ℤ → Type 0
  Restricts paths code =
      ((code ≡ neg 20) × (paths ≡ []))
      ⊎ ((paths ≢ [])
          × (((code ≡ neg 21) × (restrict crate paths ≡ none))
              ⊎ (((code ≡ neg 23) × (restrict crate paths ≡ some not_enforced))
                  ⊎ ((code ≡ pos 0)
                      × ((restrict crate paths ≡ some fully_enforced)
                          ⊎ (restrict crate paths ≡ some partially_enforced))))))

  cons_ne : (path : List ℕ) (paths : List (List ℕ)) → path ∷ paths ≢ []
  cons_ne path paths e = cc e

  apply_to-Restricts : (paths : List (List ℕ)) → Restricts paths (apply_to crate paths)
  apply_to-Restricts [] = inl (refl, refl)
  apply_to-Restricts (path ∷ paths) = inr (
    cons_ne path paths,
    elim (Option-cases (restrict crate (path ∷ paths))) [
      | inl e ↦ rw e (inl (refl, refl))
      | inr (fully_enforced, e) ↦ rw e (inr (inr (refl, inl refl)))
      | inr (partially_enforced, e) ↦ rw e (inr (inr (refl, inr refl)))
      | inr (not_enforced, e) ↦ rw e (inr (inl (refl, refl)))
    ],
  )

  -- For an array of C strings that ends with NULL, whatever lies behind it: the function returns, and
  -- its code tells how the process is restricted to those of the strings that are valid UTF-8. It is
  -- 0 exactly if there is one and every call of the crate succeeded with the ruleset enforced, fully
  -- or in part; -20 if there is none; -21 if a call failed; -23 if the kernel enforces nothing.
  pub apply_landlock-Restricts :
      (strings : List (List ℕ)) (rest : List CharPtr)
      → (code : ℤ) × ((apply_landlock crate (some (map some strings ++ none ∷ rest)) ≡ some code)
          × Restricts (filter_map from_utf8 strings) code)
  unfolding apply_landlock
  apply_landlock-Restricts strings rest = (
    apply_to crate (filter_map from_utf8 strings),
    (
      ap (Option.map (apply_to crate)) (path_strs-filter_map strings rest),
      apply_to-Restricts (filter_map from_utf8 strings),
    ),
  )
