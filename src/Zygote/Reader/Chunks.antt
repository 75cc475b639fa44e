-- ===== src/Zygote/Reader/Chunks.antt =====
-- `read_loop` of server/src/services/zygote.rs over the reads that a stream is divided into.
use sand_box_rust.Base.{
  ℕ, zero, suc, ◌+◌, ◌≤◌, ◌<◌, ◌≡◌, ◌≢◌, ◌⊎◌, refl, ap, sym, ◌∙◌, List, [], ◌∷◌, inl, inr, ◌++◌,
  none, some, length, drop, arith, length-append, length-drop, map, All, concat, subst,
  take-append_of_le, drop-append_of_le, append-nil, append_assoc,
}
use sand_box_rust.Wire.{header_size, Header, header}
use sand_box_rust.Wire.RoundTrip.{header-append}
use sand_box_rust.Zygote.Pending.{World}
use sand_box_rust.Zygote.Reader.{
  Drain, waiting, closing, stuck, drain, ReadResult, bytes, Reader, parked, ended, out_of_rounds,
  read_loop, connection_lost,
}
use sand_box_rust.Zygote.Reader.Rounds.{
  short, oversized, partial, whole, pass, delivered, remaining, loop_short, loop_oversized,
  loop_partial, drain_whole, length-remaining,
}

-- How a pass over `buf` and then `more` goes on from a pass over `buf` alone.
abbrev Resumes : ℕ → World → List ℕ → List ℕ → Drain → Type 0
Resumes max_output w buf more (waiting buf' w') =
    drain max_output w (buf ++ more) ≡ drain max_output w' (buf' ++ more)
Resumes max_output w buf more (closing w') = drain max_output w (buf ++ more) ≡ closing w'
Resumes max_output w buf more stuck = ⊥

module _ (max_output : ℕ) (w : World) (buf : List ℕ) where
  pub drain_short : header buf ≡ none → drain max_output w buf ≡ waiting buf w
  unfolding drain
  drain_short e = loop_short (length buf) max_output w buf e

  pub drain_oversized :
      (h : Header) → header buf ≡ some h → max_output < h.plen → drain max_output w buf ≡ closing w
  unfolding drain
  drain_oversized h e big = loop_oversized (length buf) max_output w buf h e big

  pub drain_partial :
      (h : Header)
      → header buf ≡ some h
      → h.plen ≤ max_output
      → length buf < header_size + h.plen
      → drain max_output w buf ≡ waiting buf w
  unfolding drain
  drain_partial h e fits less = loop_partial (length buf) max_output w buf h e fits less

-- Bytes behind a whole frame take no part in its delivery.
drain_whole-append :
    (max_output : ℕ) (w : World) (buf more : List ℕ) (h : Header)
    → header buf ≡ some h
    → h.plen ≤ max_output
    → header_size + h.plen ≤ length buf
    → drain max_output w (buf ++ more)
      ≡ drain max_output (delivered max_output h w buf) (remaining h buf ++ more)
drain_whole-append max_output w buf more h e fits enough =
    drain_whole max_output w (buf ++ more) h (header-append buf more h e) fits
      (omega (arith, length-append buf more))
    ∙ rw (
      drop-append_of_le (header_size + h.plen) buf more enough,
      drop-append_of_le header_size buf more (omega arith),
      take-append_of_le h.plen (drop header_size buf) more
          (omega (arith, length-drop header_size buf)),
    )

Resumes-from :
    (max_output : ℕ) (w v : World) (buf rest more : List ℕ) (d : Drain)
    → drain max_output w (buf ++ more) ≡ drain max_output v (rest ++ more)
    → Resumes max_output v rest more d
    → Resumes max_output w buf more d
Resumes-from max_output w v buf rest more (waiting buf' w') e r = e ∙ r
Resumes-from max_output w v buf rest more (closing w') e r = e ∙ r
Resumes-from max_output w v buf rest more stuck e r = r

-- A pass over more bytes goes on where the pass over the first ones stopped, and it never runs out
-- of rounds.
drain-Resumes :
    (n max_output : ℕ) (w : World) (buf more : List ℕ)
    → length buf < n
    → Resumes max_output w buf more (drain max_output w buf)
drain-Resumes zero max_output w buf more p = absurd (omega arith)
drain-Resumes (suc n) max_output w buf more p = elim (pass max_output w buf) [
  | short e ↦ rw (drain_short max_output w buf e) refl
  | oversized h e big ↦
      rw (drain_oversized max_output w buf h e big)
        (drain_oversized max_output w (buf ++ more) h (header-append buf more h e) big)
  | partial h e fits less ↦ rw (drain_partial max_output w buf h e fits less) refl
  | whole h e fits enough ↦
      let v = delivered max_output h w buf in
      let rest = remaining h buf in
      rw (drain_whole max_output w buf h e fits enough) (
        Resumes-from max_output w v buf rest more (drain max_output v rest)
          (drain_whole-append max_output w buf more h e fits enough)
          (drain-Resumes n max_output v rest more (omega (arith, length-remaining h buf enough))))
]

-- What comes of the bytes of the reads, all of one stream, once the last has been looked at.
abbrev pub settled : Drain → Reader
settled (waiting buf w) = parked buf w
settled (closing w) = ended (connection_lost w)
settled stuck = out_of_rounds

abbrev pub IsRead : List ℕ → Type 0
IsRead c = 0 < length c

-- A buffer in which no frame is ready.
abbrev IsIdle : ℕ → World → List ℕ → Type 0
IsIdle max_output w buf = drain max_output w buf ≡ waiting buf w

resumed :
    (max_output : ℕ) (w v : World) (buf rest more : List ℕ)
    → drain max_output w buf ≡ waiting rest v
    → drain max_output w (buf ++ more) ≡ drain max_output v (rest ++ more)
resumed max_output w v buf rest more e =
    subst (Resumes max_output w buf more) e
      (drain-Resumes (suc (length buf)) max_output w buf more (omega arith))

closed :
    (max_output : ℕ) (w v : World) (buf more : List ℕ)
    → drain max_output w buf ≡ closing v
    → drain max_output w (buf ++ more) ≡ closing v
closed max_output w v buf more e =
    subst (Resumes max_output w buf more) e
      (drain-Resumes (suc (length buf)) max_output w buf more (omega arith))

-- The loop over the buffer ends on every input: it is never out of rounds.
pub drain-ne-stuck : (max_output : ℕ) (w : World) (buf : List ℕ) → drain max_output w buf ≢ stuck
drain-ne-stuck max_output w buf e =
    subst (Resumes max_output w buf []) e
      (drain-Resumes (suc (length buf)) max_output w buf [] (omega arith))

-- A pass leaves such a buffer.
drain-IsIdle :
    (max_output : ℕ) (w v : World) (buf rest : List ℕ)
    → drain max_output w buf ≡ waiting rest v
    → IsIdle max_output v rest
drain-IsIdle max_output w v buf rest e =
    let same = resumed max_output w v buf rest [] e in
    rw (append-nil buf, append-nil rest, e) at (sym same)

pub Drain-cases :
    (d : Drain)
    → ((buf : List ℕ) × (w : World) × (d ≡ waiting buf w))
      ⊎ (((w : World) × (d ≡ closing w)) ⊎ (d ≡ stuck))
Drain-cases (waiting buf w) = inl (buf, w, refl)
Drain-cases (closing w) = inr (inl (w, refl))
Drain-cases stuck = inr (inr refl)

module _ (max_output : ℕ) (w : World) (buf : List ℕ) (b : ℕ) (bs : List ℕ)
    (rs : List ReadResult) where
  read_waiting :
      (rest : List ℕ) (v : World)
      → drain max_output w (buf ++ b ∷ bs) ≡ waiting rest v
      → read_loop max_output buf w (bytes (b ∷ bs) ∷ rs) ≡ read_loop max_output rest v rs
  unfolding read_loop
  read_waiting rest v e = rw (e, read_loop)

  read_closing :
      (v : World)
      → drain max_output w (buf ++ b ∷ bs) ≡ closing v
      → read_loop max_output buf w (bytes (b ∷ bs) ∷ rs) ≡ ended (connection_lost v)
  unfolding read_loop
  read_closing v e = rw (e, read_loop)

read_loop-settled :
    (max_output : ℕ) (w : World) (buf : List ℕ) (chunks : List (List ℕ))
    → IsIdle max_output w buf
    → All IsRead chunks
    → read_loop max_output buf w (map bytes chunks)
      ≡ settled (drain max_output w (buf ++ concat chunks))
read_loop-settled max_output w buf [] idle h = rw (append-nil, idle) (unfold read_loop in refl)
read_loop-settled max_output w buf ([] ∷ chunks) idle h = absurd (omega arith)
read_loop-settled max_output w buf ((b ∷ bs) ∷ chunks) idle h =
    let here = drain max_output w (buf ++ b ∷ bs) in
    rw (← append_assoc buf (b ∷ bs) (concat chunks)) (elim (Drain-cases here) [
      | inl (rest, v, e) ↦
          read_waiting max_output w buf b bs (map bytes chunks) rest v e
          ∙ read_loop-settled max_output v rest chunks (drain-IsIdle max_output w v _ rest e) h.1
          ∙ ap settled (sym (resumed max_output w v _ rest (concat chunks) e))
      | inr (inl (v, e)) ↦
          read_closing max_output w buf b bs (map bytes chunks) v e
          ∙ ap settled (sym (closed max_output w v _ (concat chunks) e))
      | inr (inr e) ↦ absurd (drain-ne-stuck max_output w _ e)
    ])

-- From an empty buffer, `read_loop` over any division of a stream into non-empty reads is one pass
-- over the whole stream.
pub read_loop-drain :
    (max_output : ℕ) (w : World) (chunks : List (List ℕ))
    → All IsRead chunks
    → read_loop max_output [] w (map bytes chunks) ≡ settled (drain max_output w (concat chunks))
read_loop-drain max_output w chunks h =
    read_loop-settled max_output w [] chunks (drain_short max_output w [] (unfold header in refl)) h
