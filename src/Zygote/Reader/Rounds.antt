-- ===== src/Zygote/Reader/Rounds.antt =====
-- The inner loop of `read_loop` of server/src/services/zygote.rs, one round at a time.
use sand_box_rust.Base.{
  ℕ, zero, suc, ◌+◌, ◌≤◌, ◌<◌, ◌≡◌, sym, ◌∙◌, inl, inr, List, none, some, ltb, length, take, drop,
  arith, length-drop, Bool-cases, Option-cases, ltb→lt, ltb→le, lt→ltb, le→ltb,
}
use sand_box_rust.Wire.{header_size, Header, header}
use sand_box_rust.Zygote.Pending.{World}
use sand_box_rust.Zygote.Reader.{waiting, closing, drain_loop, drain, deliver}

-- The four ways in which a pass starts.
pub data Pass (max_output : ℕ) (w : World) (buf : List ℕ) : Type 0 where
  short : header buf ≡ none → Pass max_output w buf
  oversized : (h : Header) → header buf ≡ some h → max_output < h.plen → Pass max_output w buf
  partial :
      (h : Header)
      → header buf ≡ some h
      → h.plen ≤ max_output
      → length buf < header_size + h.plen
      → Pass max_output w buf
  whole :
      (h : Header)
      → header buf ≡ some h
      → h.plen ≤ max_output
      → header_size + h.plen ≤ length buf
      → Pass max_output w buf

pub pass : (max_output : ℕ) (w : World) (buf : List ℕ) → Pass max_output w buf
pass max_output w buf = elim (Option-cases (header buf)) [
  | inl e ↦ short e
  | inr (h, e) ↦ elim (Bool-cases (ltb max_output h.plen)) [
    | inl big ↦ oversized h e (ltb→lt _ _ big)
    | inr fits ↦ elim (Bool-cases (ltb (length buf) (header_size + h.plen))) [
      | inl less ↦ partial h e (ltb→le _ _ fits) (ltb→lt _ _ less)
      | inr enough ↦ whole h e (ltb→le _ _ fits) (ltb→le _ _ enough)
    ]
  ]
]

-- What a frame does to the state.
abbrev pub delivered : ℕ → Header → World → List ℕ → World
delivered max_output h w buf =
    deliver max_output h.mtype h.req_id (take h.plen (drop header_size buf)) w

abbrev pub remaining : Header → List ℕ → List ℕ
remaining h buf = drop (header_size + h.plen) buf

module _ (fuel max_output : ℕ) (w : World) (buf : List ℕ) where
  pub loop_short : header buf ≡ none → drain_loop (suc fuel) max_output w buf ≡ waiting buf w
  unfolding drain_loop
  loop_short e = rw (e, drain_loop)

  pub loop_oversized :
      (h : Header)
      → header buf ≡ some h
      → max_output < h.plen
      → drain_loop (suc fuel) max_output w buf ≡ closing w
  unfolding drain_loop
  loop_oversized h e big = rw (e, drain_loop, lt→ltb _ _ big)

  pub loop_partial :
      (h : Header)
      → header buf ≡ some h
      → h.plen ≤ max_output
      → length buf < header_size + h.plen
      → drain_loop (suc fuel) max_output w buf ≡ waiting buf w
  unfolding drain_loop
  loop_partial h e fits less = rw (e, drain_loop, le→ltb _ _ fits, lt→ltb _ _ less)

  pub loop_whole :
      (h : Header)
      → header buf ≡ some h
      → h.plen ≤ max_output
      → header_size + h.plen ≤ length buf
      → drain_loop (suc fuel) max_output w buf
        ≡ drain_loop fuel max_output (delivered max_output h w buf) (remaining h buf)
  unfolding drain_loop
  loop_whole h e fits enough = rw (e, drain_loop, le→ltb _ _ fits, le→ltb _ _ enough)

pub length-remaining :
    (h : Header) (buf : List ℕ)
    → header_size + h.plen ≤ length buf
    → length (remaining h buf) < length buf
length-remaining h buf enough = omega (arith, length-drop (header_size + h.plen) buf)

-- The result does not depend on the rounds, once they exceed the bytes.
pub drain_loop_fuel :
    (m n max_output : ℕ) (w : World) (buf : List ℕ)
    → length buf < m
    → length buf < n
    → drain_loop m max_output w buf ≡ drain_loop n max_output w buf
drain_loop_fuel zero n max_output w buf p q = absurd (omega arith)
drain_loop_fuel (suc m) zero max_output w buf p q = absurd (omega arith)
drain_loop_fuel (suc m) (suc n) max_output w buf p q = elim (pass max_output w buf) [
  | short e ↦ loop_short m max_output w buf e ∙ sym (loop_short n max_output w buf e)
  | oversized h e big ↦
      loop_oversized m max_output w buf h e big ∙ sym (loop_oversized n max_output w buf h e big)
  | partial h e fits less ↦
      loop_partial m max_output w buf h e fits less
      ∙ sym (loop_partial n max_output w buf h e fits less)
  | whole h e fits enough ↦
      let shorter = length-remaining h buf enough in
      loop_whole m max_output w buf h e fits enough
      ∙ drain_loop_fuel m n max_output (delivered max_output h w buf) (remaining h buf)
          (omega arith) (omega arith)
      ∙ sym (loop_whole n max_output w buf h e fits enough)
]

-- So a whole frame at the front is one delivery.
pub drain_whole :
    (max_output : ℕ) (w : World) (buf : List ℕ) (h : Header)
    → header buf ≡ some h
    → h.plen ≤ max_output
    → header_size + h.plen ≤ length buf
    → drain max_output w buf ≡ drain max_output (delivered max_output h w buf) (remaining h buf)
unfolding drain
drain_whole max_output w buf h e fits enough =
    loop_whole (length buf) max_output w buf h e fits enough
    ∙ drain_loop_fuel (length buf) (suc (length (remaining h buf))) max_output _ _
        (length-remaining h buf enough) (omega arith)
