-- ===== src/Zygote/Manager/Returned.antt =====
-- What a call of `run` returns after its request is done, in every order of the manager's tasks.
use sand_box_rust.Base.{
  ℕ, ◌+◌, ◌≤◌, ◌<◌, ◌≡◌, refl, sym, ap, subst, ◌∙◌, ◌⊎◌, inl, inr, List, [], ◌∷◌, ◌++◌, Option,
  none, some, ◌==◌, ==_iff, length, arith, codes, Option-cases, if-cases,
}
use sand_box_rust.Wire.{msg_stdout, msg_stderr, msg_done}
use sand_box_rust.Utf8.{from_utf8_lossy}
use sand_box_rust.Zygote.Pending.{Reply, Pending, PendingMap, World, lookup, send}
use sand_box_rust.Zygote.Reader.{
  on_message, over_limit, deliver_to, exceeds, deliver, usize_max, done_code, fail_all,
  fail_pending, connection_lost,
}
use sand_box_rust.Zygote.Reader.Frames.{Frame, deliver_all}
use sand_box_rust.Zygote.Reader.Requests.{payloads, IsOpen}
use sand_box_rust.Zygote.Manager.{
  RunPayload, Phase, idle, checked, inserted, waiting, timed_out, leaving, returned, Manager,
  update, failure, received, begin, write, leave, stop, Step, refuse, check, begins, write_run,
  write_fails, receive, time_out, write_kill, leaves, read_frame, read_ends, stops, Reach,
}
use sand_box_rust.Zygote.Manager.Answer.{received-deliver_all}

-- What has been received on a channel stays so.
abbrev Keeps : ℕ → Reply → List (ℕ × Reply) → List (ℕ × Reply) → Type 0
Keeps c r xs ys = received c xs ≡ some r → received c ys ≡ some r

received-snoc : (c d : ℕ) (r q : Reply) (xs : List (ℕ × Reply)) → Keeps c r xs (xs ++ (d, q) ∷ [])
received-snoc c d r q [] h = cc
received-snoc c d r q ((e, p) ∷ xs) h = ground (arith, received-snoc c d r q xs)

received-send :
    (c : ℕ) (r q : Reply) (tx : Option ℕ) (xs : List (ℕ × Reply)) → Keeps c r xs (send tx q xs)
unfolding send
received-send c r q none xs h = h
received-send c r q (some d) xs h = received-snoc c d r q xs h

module _ (c : ℕ) (r : Reply) where
  received-on_message :
      (t : ℕ) (p : List ℕ) (e : Pending) (xs : List (ℕ × Reply))
      → Keeps c r xs (on_message t p e xs).1
  unfolding on_message
  received-on_message t p e xs h =
      let kept = λ (q : Reply). received-send c r q e.tx xs h in
      if-cases (λ (z : Pending × List (ℕ × Reply)). received c z.1 ≡ some r) (t == msg_stdout) _ _
        (λ _. h)
        (λ _.
          if-cases (λ (z : Pending × List (ℕ × Reply)). received c z.1 ≡ some r) (t == msg_stderr) _
            _ (λ _. h)
            (λ _.
              if-cases (λ (z : Pending × List (ℕ × Reply)). received c z.1 ≡ some r) (t == msg_done)
                _ _ (λ _. kept _) (λ _. h)))

  received-deliver_to :
      (limit t k : ℕ) (p : List ℕ) (e : Pending) (w : World)
      → Keeps c r w.replies (deliver_to limit t k p e w).replies
  unfolding deliver_to over_limit
  received-deliver_to limit t k p e w h =
      let sent = received-on_message t p e w.replies h in
      if-cases (λ (v : World). received c v.replies ≡ some r)
        (exceeds limit t (on_message t p e w.replies).0) _ _
        (λ _. received-send c r _ (on_message t p e w.replies).0.tx _ sent) (λ _. sent)

  received-deliver :
      (limit t k : ℕ) (p : List ℕ) (w : World) → Keeps c r w.replies (deliver limit t k p w).replies
  unfolding deliver
  received-deliver limit t k p w h = elim (Option-cases (lookup k w.pending)) [
    | inl e ↦ rw (e, deliver) h
    | inr (x, e) ↦ rw (e, deliver) (received-deliver_to limit t k p x w h)
  ]

  received-fail_all :
      (msg : List ℕ) (m : PendingMap) (xs : List (ℕ × Reply)) → Keeps c r xs (fail_all msg m xs)
  unfolding fail_all
  received-fail_all msg [] xs h = h
  received-fail_all msg ((k, e) ∷ m) xs h =
      received-fail_all msg m _ (received-send c r _ e.tx xs h)

  -- A call that has its reply, or has given up waiting for it.
  abbrev IsAnswered : Phase → Type 0
  IsAnswered (waiting _) = Unit
  IsAnswered (timed_out _) = Unit
  IsAnswered (leaving _ q) = (q ≡ r) ⊎ (q ≡ failure (codes "Execution timeout"))
  IsAnswered (returned q) = (q ≡ r) ⊎ (q ≡ failure (codes "Execution timeout"))
  IsAnswered _ = ⊥

  update-IsAnswered :
      (f : ℕ → Phase) (d : ℕ) (p q : Phase)
      → f d ≡ q
      → (d ≡ c → IsAnswered q → IsAnswered p)
      → IsAnswered (f c)
      → IsAnswered (update f d p c)
  update-IsAnswered f d p q e moves h =
      if-cases IsAnswered (d == c) p (f c)
        (λ same. let eq = (==_iff d c).0 same in moves eq (subst IsAnswered (ap f (sym eq) ∙ e) h))
        (λ _. h)

  abbrev Answered : Manager → Type 0
  Answered m = (received c m.world.replies ≡ some r) × IsAnswered (m.calls c)

-- Any number of steps, by any of the tasks.
module _ (to_json : RunPayload → List ℕ) (limit : ℕ) where
  pub data Steps (m : Manager) : Manager → Type 0 where
    stay : Steps m m
    and_then : {n o : Manager} → Steps m n → Step to_json limit n o → Steps m o

module _ (to_json : RunPayload → List ℕ) (limit c : ℕ) (r : Reply) where
  Step-received :
      {m n : Manager} → Step to_json limit m n → Keeps c r m.world.replies n.world.replies
  unfolding begin write leave stop fail_pending connection_lost
  Step-received (refuse _ _ _) h = h
  Step-received (check _ _ _) h = h
  Step-received (begins _ _) h = h
  Step-received (write_run _ _ _ _) h = h
  Step-received (write_fails _ _ _) h = h
  Step-received (receive _ _ _ _ _) h = h
  Step-received (time_out _ _ _) h = h
  Step-received (write_kill _ _ _) h = h
  Step-received (leaves _ _ _ _) h = h
  Step-received {m} (read_frame t k p _) h = received-deliver c r limit t k p m.world h
  Step-received {m} (read_ends _) h =
      received-fail_all c r (codes "zygote connection lost") m.world.pending m.world.replies h
  Step-received {m} stops h =
      received-fail_all c r (codes "zygote stopped") m.world.pending m.world.replies h

  Step-IsAnswered :
      {m n : Manager}
      → Step to_json limit m n
      → received c m.world.replies ≡ some r
      → IsAnswered c r (m.calls c)
      → IsAnswered c r (n.calls c)
  unfolding begin leave stop
  Step-IsAnswered {m} (refuse d e _) h a =
      update-IsAnswered c r m.calls d (returned _) idle e (λ _ k. absurd k) a
  Step-IsAnswered {m} (check d e _) h a =
      update-IsAnswered c r m.calls d checked idle e (λ _ k. absurd k) a
  Step-IsAnswered {m} (begins d e) h a =
      update-IsAnswered c r m.calls d (inserted _) checked e (λ _ k. absurd k) a
  Step-IsAnswered {m} (write_run d k p e) h a =
      update-IsAnswered c r m.calls d (waiting k) (inserted k) e (λ _ x. absurd x) a
  Step-IsAnswered {m} (write_fails d k e) h a =
      update-IsAnswered c r m.calls d (leaving k _) (inserted k) e (λ _ x. absurd x) a
  Step-IsAnswered {m} (receive d k q e got) h a =
      update-IsAnswered c r m.calls d (leaving k q) (waiting k) e (λ same _. inl (one same got)) a
    where
      one : d ≡ c → received d m.world.replies ≡ some q → q ≡ r
      one same got =
          let g : some q ≡ some r = sym got ∙ ap (λ x. received x m.world.replies) same ∙ h in cc
  Step-IsAnswered {m} (time_out d k e) h a =
      update-IsAnswered c r m.calls d (timed_out k) (waiting k) e (λ _ x. x) a
  Step-IsAnswered {m} (write_kill d k e) h a =
      update-IsAnswered c r m.calls d (leaving k _) (timed_out k) e (λ _ _. inr refl) a
  Step-IsAnswered {m} (leaves d k q e) h a =
      update-IsAnswered c r m.calls d (returned q) (leaving k q) e (λ _ x. x) a
  Step-IsAnswered (read_frame _ _ _ _) h a = a
  Step-IsAnswered (read_ends _) h a = a
  Step-IsAnswered stops h a = a

  Steps-Answered : {m n : Manager} → Steps to_json limit m n → Answered c r m → Answered c r n
  Steps-Answered stay h = h
  Steps-Answered (and_then run step) h =
      let (got, a) = Steps-Answered run h in (Step-received step got, Step-IsAnswered step got a)

-- The reply that the worker's frames make.
abbrev pub reply_of : ℕ → List Frame → List ℕ → Reply
reply_of k fs status = record {
  stdout = from_utf8_lossy (payloads k msg_stdout fs);
  stderr = from_utf8_lossy (payloads k msg_stderr fs);
  exit_code = done_code status;
}

-- The manager after its reader has read these frames, and MSG_DONE for the request.
abbrev pub after_done : ℕ → Manager → ℕ → List Frame → List ℕ → Manager
after_done limit m k fs status = record m {
  world = deliver limit msg_done k status (deliver_all limit fs m.world);
}

module _ (to_json : RunPayload → List ℕ) (limit : ℕ) where
  -- For a cap below the largest `usize`, in a reachable state: let a call wait for a request that has
  -- nothing buffered, and let frames be read of which none says that it is done, with output of it that
  -- fits the cap, and then its MSG_DONE. Whatever the tasks do from there on, in any order, if the
  -- call returns, it returns the reply of the request's own frames, or it has timed out.
  pub returned-after_done :
      (m o : Manager) (k channel : ℕ) (fs : List Frame) (status : List ℕ) (r : Reply)
      → limit < usize_max
      → Reach to_json limit m
      → m.calls channel ≡ waiting k
      → IsOpen k fs
      → lookup k m.world.pending ≡ some (record { out = []; err = []; tx = some channel })
      → length (payloads k msg_stdout fs) + length (payloads k msg_stderr fs) ≤ limit
      → Steps to_json limit (after_done limit m k fs status) o
      → o.calls channel ≡ returned r
      → (r ≡ reply_of k fs status) ⊎ (r ≡ failure (codes "Execution timeout"))
  returned-after_done m o k channel fs status r small reach waits open_ found fits run ends =
      let reply = reply_of k fs status in
      let (_, a) = Steps-Answered to_json limit channel reply run (
        received-deliver_all to_json limit m k channel fs status small reach open_ found fits,
        subst (IsAnswered channel reply) (sym waits) tt,
      ) in
      subst (IsAnswered channel reply) ends a
