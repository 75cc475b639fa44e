-- ===== src/Zygote/Reader/Invariant.antt =====
-- The induction over `read_loop`: what every delivery keeps, the reader keeps, with the buffer below
-- one frame of the largest size.
use native.Mathlib.Nat.{lt-suc_self}
use sand_box_rust.Base.{
  ℕ, zero, suc, ◌+◌, ◌<◌, ◌≡◌, refl, List, [], ◌∷◌, ◌++◌, inl, inr, length, arith, subst,
}
use sand_box_rust.Wire.{header_size}
use sand_box_rust.Wire.RoundTrip.{header-none}
use sand_box_rust.Zygote.Pending.{World}
use sand_box_rust.Zygote.Reader.{
  Drain, waiting, closing, stuck, drain, deliver, ReadResult, bytes, eof, failed, Reader, parked,
  ended, out_of_rounds, read_loop, connection_lost,
}
use sand_box_rust.Zygote.Reader.Rounds.{
  short, oversized, partial, whole, pass, delivered, remaining, length-remaining, drain_whole,
}
use sand_box_rust.Zygote.Reader.Chunks.{drain_short, drain_partial, drain_oversized, Drain-cases}

module _ (P : World → Type 0) (limit : ℕ)
    (keep : (mtype req_id : ℕ) (payload : List ℕ) (w : World)
      → P w
      → P (deliver limit mtype req_id payload w)) where
  abbrev DrainKeeps : Drain → Type 0
  DrainKeeps (waiting buf w) = (length buf < header_size + limit) × P w
  DrainKeeps (closing w) = P w
  DrainKeeps stuck = ⊥

  drain-DrainKeeps :
      (n : ℕ) (w : World) (buf : List ℕ) → length buf < n → P w → DrainKeeps (drain limit w buf)
  drain-DrainKeeps zero w buf p hw = absurd (omega arith)
  drain-DrainKeeps (suc n) w buf p hw = elim (pass limit w buf) [
    | short e ↦ rw (drain_short limit w buf e) (omega (arith, header-none buf e), hw)
    | oversized h e big ↦ rw (drain_oversized limit w buf h e big) hw
    | partial h e fits less ↦ rw (drain_partial limit w buf h e fits less) (omega arith, hw)
    | whole h e fits enough ↦ rw (drain_whole limit w buf h e fits enough) (
        drain-DrainKeeps n (delivered limit h w buf) (remaining h buf)
          (omega (arith, length-remaining h buf enough)) (keep h.mtype h.req_id _ w hw))
  ]

  -- A parked reader, or one that ended from a state with the invariant.
  abbrev pub Keeps : Reader → Type 0
  Keeps (parked buf w) = (length buf < header_size + limit) × P w
  Keeps (ended w) = (v : World) × P v × (w ≡ connection_lost v)
  Keeps out_of_rounds = ⊥

  pub read_loop-Keeps :
      (w : World) (buf : List ℕ) (rs : List ReadResult)
      → length buf < header_size + limit
      → P w
      → Keeps (read_loop limit buf w rs)
  unfolding read_loop
  read_loop-Keeps w buf [] hb hw = (hb, hw)
  read_loop-Keeps w buf (eof ∷ rs) hb hw = (w, hw, refl)
  read_loop-Keeps w buf (failed ∷ rs) hb hw = (w, hw, refl)
  read_loop-Keeps w buf (bytes [] ∷ rs) hb hw = (w, hw, refl)
  read_loop-Keeps w buf (bytes (b ∷ bs) ∷ rs) hb hw =
      let after = drain-DrainKeeps _ w (buf ++ b ∷ bs) (lt-suc_self _) hw in
      elim (Drain-cases (drain limit w (buf ++ b ∷ bs))) [
        | inl (rest, v, e) ↦
            let (hr, hv) = subst DrainKeeps e after in
            rw (e, read_loop) (read_loop-Keeps v rest rs hr hv)
        | inr (inl (v, e)) ↦ rw (e, read_loop) (v, subst DrainKeeps e after, refl)
        | inr (inr e) ↦ absurd (subst DrainKeeps e after)
      ]
