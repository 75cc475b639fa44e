-- ===== src/Pool/Worker/Links.antt =====
-- The requests and the descriptors stay linked as children start and pipes close.
use sand_box_rust.Base.{
  ℕ, ◌<◌, ◌≡◌, ◌≢◌, inl, inr, sym, ap, ◌∙◌, subst, List, [], ◌∷◌, length, Option, none, some, arith,
  count,
}
use sand_box_rust.Pool.Protocol.{msg_stdout, msg_stderr}
use sand_box_rust.Pool.State.{ReqInfo, Requests, FdMap, update}
use sand_box_rust.Pool.Worker.{discard}
use sand_box_rust.Pool.Worker.Tables.{
  eq_or_ne, update_same, update_other, update-cases, count-discard_same, count-discard_other,
  IsHeard, IsLinked, some_injective,
}

key_apart : {A : Type 0} (m : ℕ → Option A) (a b : ℕ) (x : A) → m a ≡ none → m b ≡ some x → a ≢ b
key_apart m a b x ha hb e = let f : none ≡ some x = sym ha ∙ ap m e ∙ hb in cc

count-discard_positive :
    (fd j : ℕ) (xs : List ℕ) → 0 < count j (discard fd xs) → (fd ≢ j) × (0 < count j xs)
count-discard_positive fd j xs h = elim (eq_or_ne fd j) [
  | inl same ↦
      absurd (omega (arith, ap (λ i. count i (discard fd xs)) same, count-discard_same fd xs))
  | inr other ↦ (other, omega (arith, count-discard_other fd j xs other))
]

same_owner :
    (fd_map : FdMap) (a b k j t u : ℕ)
    → fd_map a ≡ some (k, t)
    → fd_map b ≡ some (j, u)
    → a ≡ b
    → k ≡ j
same_owner fd_map a b k j t u ha hb e =
    ap (λ s. s.0) (some_injective (k, t) (j, u) (sym ha ∙ ap fd_map e ∙ hb))

module _ (reqs : Requests) (fd_map : FdMap) (k : ℕ) where
  -- What the others have open does not change when the entry of one request does.
  owned_other :
      (v : Option ReqInfo) (fd j : ℕ)
      → k ≢ j
      → ((r : ReqInfo) × (reqs j ≡ some r) × (0 < count fd r.open_fds))
      → (r : ReqInfo) × (update reqs k v j ≡ some r) × (0 < count fd r.open_fds)
  owned_other v fd j other (r, e, h) = (r, update_other reqs k j v other ∙ e, h)

  owned_new :
      (r : ReqInfo) (fd j : ℕ)
      → k ≡ j
      → 0 < count fd r.open_fds
      → (q : ReqInfo) × (update reqs k (some r) j ≡ some q) × (0 < count fd q.open_fds)
  owned_new r fd j same h =
      (r, ap (update reqs k (some r)) (sym same) ∙ update_same reqs k (some r), h)

  -- Nor are the others heard less when a descriptor of this request goes.
  heard_other :
      (fd t j : ℕ) (r : ReqInfo)
      → IsHeard reqs fd_map
      → fd_map fd ≡ some (k, t)
      → k ≢ j
      → reqs j ≡ some r
      → (0 < length r.open_fds)
        × ((d : ℕ) → 0 < count d r.open_fds → (u : ℕ) × (update fd_map fd none d ≡ some (j, u)))
  heard_other fd t j r heard hfd other hj =
      let (some_open, f) = heard j r hj in
      (
        some_open,
        λ d h.
            let (u, g) = f d h in
            (
              u,
              update_other fd_map fd d none (λ e. other (same_owner fd_map fd d k j t u hfd g e))
                  ∙ g,
            ),
      )

  -- Both descriptors of a new request are listened to.
  heard_new :
      (o e fd j : ℕ)
      → k ≡ j
      → 0 < count fd (o ∷ e ∷ [])
      → (t : ℕ) × (update (update fd_map o (some (k, msg_stdout))) e (some (k, msg_stderr)) fd
          ≡ some (j, t))
  heard_new o e fd j same c = elim (eq_or_ne e fd) [
    | inl here ↦ (
      msg_stderr,
      ap (update (update fd_map o (some (k, msg_stdout))) e (some (k, msg_stderr))) (sym here)
          ∙ update_same (update fd_map o (some (k, msg_stdout))) e (some (k, msg_stderr))
          ∙ ap (λ i. some (i, msg_stderr)) same,
    )
    | inr ne ↦ elim (eq_or_ne o fd) [
      | inl here ↦ (
        msg_stdout,
        update_other (update fd_map o (some (k, msg_stdout))) e fd (some (k, msg_stderr)) ne
            ∙ ap (update fd_map o (some (k, msg_stdout))) (sym here)
            ∙ update_same fd_map o (some (k, msg_stdout))
            ∙ ap (λ i. some (i, msg_stdout)) same,
      )
      | inr apart ↦ absurd (ground arith)
    ]
  ]

  -- A child is forked for a request that has none.
  pub start-IsLinked :
      (o e pid : ℕ)
      → IsLinked reqs fd_map
      → reqs k ≡ none
      → fd_map o ≡ none
      → fd_map e ≡ none
      → o ≢ e
      → IsLinked
          (update reqs k (some (record { pid = pid; open_fds = o ∷ e ∷ [] })))
          (update (update fd_map o (some (k, msg_stdout))) e (some (k, msg_stderr)))
  start-IsLinked o e pid (owned, heard) hk ho he distinct = (
    λ fd j t h.
        elim (update-cases (update fd_map o (some (k, msg_stdout))) e fd (some (k, msg_stderr))
          (some (j, t)) h) [
            | inl (same, g) ↦
                owned_new r fd j (ap (λ s. s.0) (some_injective (k, msg_stderr) (j, t) g))
                  (ground arith)
            | inr (_, h') ↦
                elim (update-cases fd_map o fd (some (k, msg_stdout)) (some (j, t)) h') [
                  | inl (same, g) ↦
                      owned_new r fd j (ap (λ s. s.0) (some_injective (k, msg_stdout) (j, t) g))
                        (ground arith)
                  | inr (_, h'') ↦
                      let (q, hq, hc) = owned fd j t h'' in
                      owned_other (some r) fd j (key_apart reqs k j q hk hq) (q, hq, hc)
                ]
          ],
    λ j q h. elim (update-cases reqs k j (some r) (some q) h) [
      | inl (same, g) ↦
          subst
            (λ q.
              (0 < length q.open_fds)
              × ((fd : ℕ) → 0 < count fd q.open_fds → (t : ℕ) × (fd_map' fd ≡ some (j, t))))
            (some_injective r q g) (omega arith, λ fd c. heard_new o e fd j same c)
      | inr (other, g) ↦
          let (some_open, f) = heard j q g in
          (
            some_open,
            λ fd c.
                let (t, ht) = f fd c in
                (
                  t,
                  update_other (update fd_map o (some (k, msg_stdout))) e fd (some (k, msg_stderr))
                        (key_apart fd_map e fd (j, t) he ht)
                      ∙ update_other fd_map o fd (some (k, msg_stdout))
                          (key_apart fd_map o fd (j, t) ho ht)
                      ∙ ht,
                ),
          )
    ],
  )
    where
      r : ReqInfo
      r = record { pid = pid; open_fds = o ∷ e ∷ [] }

      fd_map' : FdMap
      fd_map' = update (update fd_map o (some (k, msg_stdout))) e (some (k, msg_stderr))

  -- One of two pipes is closed.
  pub close-IsLinked :
      (fd t : ℕ) (r : ReqInfo) (x : ℕ) (xs : List ℕ)
      → IsLinked reqs fd_map
      → fd_map fd ≡ some (k, t)
      → reqs k ≡ some r
      → discard fd r.open_fds ≡ x ∷ xs
      → IsLinked (update reqs k (some (record r { open_fds = x ∷ xs }))) (update fd_map fd none)
  close-IsLinked fd t r x xs (owned, heard) hfd hk e = (
    λ d j u h. elim (update-cases fd_map fd d none (some (j, u)) h) [
      | inl (_, g) ↦ absurd cc
      | inr (other, g) ↦
          let (q, hq, hc) = owned d j u g in
          elim (eq_or_ne k j) [
            | inl same ↦
                let e_open : count d (x ∷ xs) ≡ count d r.open_fds =
                  ap (count d) (sym e) ∙ count-discard_other fd d r.open_fds other in
                let e_req : r ≡ q = some_injective r q (sym hk ∙ ap reqs same ∙ hq) in
                owned_new (record r { open_fds = x ∷ xs }) d j same
                  (omega (arith, e_open, ap (λ r. count d r.open_fds) e_req))
            | inr apart ↦ owned_other _ d j apart (q, hq, hc)
          ]
    ],
    λ j q h. elim (update-cases reqs k j (some (record r { open_fds = x ∷ xs })) (some q) h) [
      | inl (same, g) ↦
          subst
            (λ q.
              (0 < length q.open_fds)
              × ((d : ℕ)
                  → 0 < count d q.open_fds
                  → (u : ℕ) × (update fd_map fd none d ≡ some (j, u))))
            (some_injective (record r { open_fds = x ∷ xs }) q g)
            (
              omega arith,
              λ d c.
                  let (other, c') =
                    count-discard_positive fd d r.open_fds (omega (arith, ap (count d) e)) in
                  let (u, hu) = (heard k r hk).1 d c' in
                  (u, update_other fd_map fd d none other ∙ hu ∙ ap (λ i. some (i, u)) same),
            )
      | inr (apart, g) ↦ heard_other fd t j q heard hfd apart g
    ],
  )

  -- The last pipe is closed.
  pub end-IsLinked :
      (fd t : ℕ) (r : ReqInfo)
      → IsLinked reqs fd_map
      → fd_map fd ≡ some (k, t)
      → reqs k ≡ some r
      → discard fd r.open_fds ≡ []
      → IsLinked (update reqs k none) (update fd_map fd none)
  end-IsLinked fd t r (owned, heard) hfd hk e = (
    λ d j u h. elim (update-cases fd_map fd d none (some (j, u)) h) [
      | inl (_, g) ↦ absurd cc
      | inr (other, g) ↦
          let (q, hq, hc) = owned d j u g in
          elim (eq_or_ne k j) [
            | inl same ↦
                let e_open : 0 ≡ count d r.open_fds =
                  ap (count d) (sym e) ∙ count-discard_other fd d r.open_fds other in
                let e_req : r ≡ q = some_injective r q (sym hk ∙ ap reqs same ∙ hq) in
                absurd (omega (arith, e_open, ap (λ r. count d r.open_fds) e_req))
            | inr apart ↦ owned_other _ d j apart (q, hq, hc)
          ]
    ],
    λ j q h. elim (update-cases reqs k j none (some q) h) [
      | inl (_, g) ↦ absurd cc
      | inr (apart, g) ↦ heard_other fd t j q heard hfd apart g
    ],
  )
