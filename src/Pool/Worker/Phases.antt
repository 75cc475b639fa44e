-- ===== src/Pool/Worker/Phases.antt =====
-- What the worker has told the server of each request, from the frames that it has sent.
use sand_box_rust.Base.{
  ℕ, zero, suc, ◌<◌, ◌≡◌, ◌≢◌, inl, inr, refl, sym, ap, ◌∙◌, List, [], ◌∷◌, ◌++◌, Option, none,
  some, ◌==◌, ==_ne, arith, count, count-append, if◌then◌else◌,
}
use sand_box_rust.Zygote.Reader.Frames.{Frame}
use sand_box_rust.Pool.Protocol.{msg_done}
use sand_box_rust.Pool.State.{ReqInfo, Requests, update}
use sand_box_rust.Pool.Worker.Tables.{eq_or_ne, update_same, update_other, update-cases}

-- A request has no end yet, or one, which is its last frame; anything else is a mistake.
pub data Phase : Type 0 where
  unfinished : Phase
  finished : Phase
  mistaken : Phase

abbrev pub next : ℕ → Phase → Frame → Phase
next k unfinished f =
    if f.req_id == k then (if f.mtype == msg_done then finished else unfinished) else unfinished
next k finished f = if f.req_id == k then mistaken else finished
next k mistaken f = mistaken

abbrev pub phase_from : ℕ → Phase → List Frame → Phase
phase_from k p [] = p
phase_from k p (f ∷ fs) = phase_from k (next k p f) fs

-- Where request `k` stands after these frames.
abbrev pub phase : ℕ → List Frame → Phase
phase k fs = phase_from k unfinished fs

phase_from-append :
    (k : ℕ) (p : Phase) (fs : List Frame) (f : Frame)
    → phase_from k p (fs ++ f ∷ []) ≡ next k (phase_from k p fs) f
phase_from-append k p [] f = refl
phase_from-append k p (g ∷ fs) f = phase_from-append k (next k p g) fs f

-- Where it should stand: how often it was started, and its entry.
abbrev pub expected : ℕ → Option ReqInfo → Phase
expected n (some r) = unfinished
expected zero none = unfinished
expected (suc n) none = finished

abbrev pub IsPhased : Requests → List ℕ → List Frame → Type 0
IsPhased reqs started fs = (k : ℕ) → phase k fs ≡ expected (count k started) (reqs k)

-- Only requests that were started have an entry.
abbrev pub IsKnown : Requests → List ℕ → Type 0
IsKnown reqs started = (k : ℕ) (r : ReqInfo) → reqs k ≡ some r → 0 < count k started

next_other : (k : ℕ) (p : Phase) (f : Frame) → f.req_id ≢ k → next k p f ≡ p
next_other k unfinished f h = rw (==_ne f.req_id k h) refl
next_other k finished f h = rw (==_ne f.req_id k h) refl
next_other k mistaken f h = refl

next_output : (k : ℕ) (f : Frame) → f.mtype ≢ msg_done → next k unfinished f ≡ unfinished
next_output k f h = ground arith

next_done : (k : ℕ) (f : Frame) → f.req_id ≡ k → f.mtype ≡ msg_done → next k unfinished f ≡ finished
next_done k f h g = ground arith

-- Output of a request that has an entry.
pub output-IsPhased :
    (reqs : Requests) (started : List ℕ) (fs : List Frame) (f : Frame) (r : ReqInfo)
    → IsPhased reqs started fs
    → reqs f.req_id ≡ some r
    → f.mtype ≢ msg_done
    → IsPhased reqs started (fs ++ f ∷ [])
output-IsPhased reqs started fs f r h e output k = elim (eq_or_ne f.req_id k) [
  | inl same ↦
      let e_now : reqs k ≡ some r = ap reqs (sym same) ∙ e in
      let e_expected : expected (count k started) (reqs k) ≡ unfinished =
        ap (expected (count k started)) e_now in
      phase_from-append k unfinished fs f
      ∙ ap (λ p. next k p f) (h k ∙ e_expected)
      ∙ next_output k f output
      ∙ sym e_expected
  | inr other ↦ phase_from-append k unfinished fs f ∙ next_other k _ f other ∙ h k
]

expected_positive : (n : ℕ) → 0 < n → expected n none ≡ finished
expected_positive zero h = absurd (omega arith)
expected_positive (suc n) h = refl

-- The end of a request, with which its entry goes.
pub done-IsPhased :
    (reqs : Requests) (started : List ℕ) (fs : List Frame) (f : Frame) (r : ReqInfo)
    → IsPhased reqs started fs
    → IsKnown reqs started
    → reqs f.req_id ≡ some r
    → f.mtype ≡ msg_done
    → IsPhased (update reqs f.req_id none) started (fs ++ f ∷ [])
done-IsPhased reqs started fs f r h known e over k = elim (eq_or_ne f.req_id k) [
  | inl same ↦
      let e_now : reqs k ≡ some r = ap reqs (sym same) ∙ e in
      phase_from-append k unfinished fs f
      ∙ ap (λ p. next k p f) (h k ∙ ap (expected (count k started)) e_now)
      ∙ next_done k f same over
      ∙ sym (expected_positive (count k started) (known k r e_now))
      ∙ ap (expected (count k started))
          (sym (update_same reqs f.req_id none) ∙ ap (update reqs f.req_id none) same)
  | inr other ↦
      phase_from-append k unfinished fs f
      ∙ next_other k _ f other
      ∙ h k
      ∙ ap (expected (count k started)) (sym (update_other reqs f.req_id k none other))
]

pub end-IsKnown :
    (reqs : Requests) (started : List ℕ) (k : ℕ)
    → IsKnown reqs started
    → IsKnown (update reqs k none) started
end-IsKnown reqs started k h j r e = elim (update-cases reqs k j none (some r) e) [
  | inl (_, g) ↦ absurd cc
  | inr (_, g) ↦ h j r g
]

-- Another entry for the same request.
pub change-IsKnown :
    (reqs : Requests) (started : List ℕ) (k : ℕ) (r q : ReqInfo)
    → IsKnown reqs started
    → reqs k ≡ some r
    → IsKnown (update reqs k (some q)) started
change-IsKnown reqs started k r q h e j p g = elim (update-cases reqs k j (some q) (some p) g) [
  | inl (same, _) ↦ h j r (ap reqs (sym same) ∙ e)
  | inr (_, g') ↦ h j p g'
]

pub change-IsPhased :
    (reqs : Requests) (started : List ℕ) (fs : List Frame) (k : ℕ) (r q : ReqInfo)
    → IsPhased reqs started fs
    → reqs k ≡ some r
    → IsPhased (update reqs k (some q)) started fs
change-IsPhased reqs started fs k r q h e j = elim (eq_or_ne k j) [
  | inl same ↦
      h j
      ∙ ap (expected (count j started)) (ap reqs (sym same) ∙ e)
      ∙ ap (expected (count j started))
          (sym (update_same reqs k (some q)) ∙ ap (update reqs k (some q)) same)
  | inr other ↦ h j ∙ ap (expected (count j started)) (sym (update_other reqs k j (some q) other))
]

-- A request that is started for the first time.
pub start-IsPhased :
    (reqs : Requests) (started : List ℕ) (fs : List Frame) (k : ℕ) (q : ReqInfo)
    → IsPhased reqs started fs
    → reqs k ≡ none
    → count k started ≡ 0
    → IsPhased (update reqs k (some q)) (started ++ k ∷ []) fs
start-IsPhased reqs started fs k q h e new j = elim (eq_or_ne k j) [
  | inl same ↦
      h j
      ∙ ap (expected (count j started)) (ap reqs (sym same) ∙ e)
      ∙ ap (λ n. expected n none) (ap (λ i. count i started) (sym same) ∙ new)
      ∙ ap (expected (count j (started ++ k ∷ [])))
          (sym (update_same reqs k (some q)) ∙ ap (update reqs k (some q)) same)
  | inr other ↦
      let e_count : count j started ≡ count j (started ++ k ∷ []) =
        ground (arith, count-append j started (k ∷ [])) in
      h j
      ∙ ap (expected (count j started)) (sym (update_other reqs k j (some q) other))
      ∙ ap (λ n. expected n (update reqs k (some q) j)) e_count
]

pub start-IsKnown :
    (reqs : Requests) (started : List ℕ) (k : ℕ) (q : ReqInfo)
    → IsKnown reqs started
    → IsKnown (update reqs k (some q)) (started ++ k ∷ [])
start-IsKnown reqs started k q h j p g = elim (update-cases reqs k j (some q) (some p) g) [
  | inl (same, _) ↦ ground (arith, count-append j started (k ∷ []))
  | inr (_, g') ↦ omega (arith, count-append j started (k ∷ []), h j p g')
]
