-- ===== src/Zygote/Reader/Growth.antt =====
-- Deliveries at the server only add replies.
use sand_box_rust.Base.{
  ℕ, ◌≡◌, inl, inr, refl, sym, ap, ◌∙◌, List, [], ◌∷◌, ◌++◌, Option, none, some, append-nil,
  append_assoc, ◌==◌, Option-cases, if-cases,
}
use sand_box_rust.Wire.{msg_stdout, msg_stderr, msg_done}
use sand_box_rust.Zygote.Pending.{World, Pending, Reply, lookup, send}
use sand_box_rust.Zygote.Reader.{deliver, deliver_to, on_message, over_limit, exceeds}
use sand_box_rust.Zygote.Reader.Frames.{Frame, deliver_all}

abbrev pub Extends : List (ℕ × Reply) → List (ℕ × Reply) → Type 0
Extends sent later = (more : List (ℕ × Reply)) × (later ≡ sent ++ more)

-- Replies are only added.
abbrev pub Grows : World → World → Type 0
Grows w v = Extends w.replies v.replies

Extends-send : (tx : Option ℕ) (r : Reply) (sent : List (ℕ × Reply)) → Extends sent (send tx r sent)
unfolding send
Extends-send none r sent = ([], sym (append-nil sent))
Extends-send (some c) r sent = ((c, r) ∷ [], refl)

Extends-on_message :
    (t : ℕ) (p : List ℕ) (e : Pending) (sent : List (ℕ × Reply))
    → Extends sent (on_message t p e sent).1
unfolding on_message
Extends-on_message t p e sent =
    let kept : Extends sent sent = ([], sym (append-nil sent)) in
    let later : Pending × List (ℕ × Reply) → Type 0 = λ x. Extends sent x.1 in
    if-cases later (t == msg_stdout) _ _ (λ _. kept)
      (λ _.
        if-cases later (t == msg_stderr) _ _ (λ _. kept)
          (λ _. if-cases later (t == msg_done) _ _ (λ _. Extends-send e.tx _ sent) (λ _. kept)))

Extends-trans : (a b c : List (ℕ × Reply)) → Extends a b → Extends b c → Extends a c
Extends-trans a b c (more, e) (more', e') =
    (more ++ more', e' ∙ ap (λ rs. rs ++ more') e ∙ append_assoc a more more')

deliver_to-Grows :
    (limit t k : ℕ) (p : List ℕ) (q : Pending) (w : World)
    → Extends w.replies (deliver_to limit t k p q w).replies
unfolding deliver_to over_limit
deliver_to-Grows limit t k p q w =
    let q' = (on_message t p q w.replies).0 in
    if-cases (λ (v : World). Extends w.replies v.replies) (exceeds limit t q') _ _
      (λ _.
        Extends-trans w.replies (on_message t p q w.replies).1 _
          (Extends-on_message t p q w.replies) (Extends-send q'.tx _ _))
      (λ _. Extends-on_message t p q w.replies)

deliver-Grows : (limit t k : ℕ) (p : List ℕ) (w : World) → Grows w (deliver limit t k p w)
unfolding deliver
deliver-Grows limit t k p w = elim (Option-cases (lookup k w.pending)) [
  | inl e ↦ rw (e, deliver) ([], sym (append-nil w.replies))
  | inr (q, e) ↦ rw (e, deliver) (deliver_to-Grows limit t k p q w)
]

pub deliver_all-Grows : (limit : ℕ) (fs : List Frame) (w : World) → Grows w (deliver_all limit fs w)
deliver_all-Grows limit [] w = ([], sym (append-nil w.replies))
deliver_all-Grows limit (f ∷ fs) w =
    let v = deliver limit f.mtype f.req_id f.payload w in
    Extends-trans w.replies v.replies (deliver_all limit fs v).replies
      (deliver-Grows limit f.mtype f.req_id f.payload w) (deliver_all-Grows limit fs v)

pub deliver_all-append :
    (limit : ℕ) (fs gs : List Frame) (w : World)
    → deliver_all limit (fs ++ gs) w ≡ deliver_all limit gs (deliver_all limit fs w)
deliver_all-append limit [] gs w = refl
deliver_all-append limit (f ∷ fs) gs w =
    deliver_all-append limit fs gs (deliver limit f.mtype f.req_id f.payload w)
