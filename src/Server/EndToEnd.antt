-- ===== src/Server/EndToEnd.antt =====
-- One Python request through the whole server: the API, the queue, the Python runner, the worker's
-- manager and its reader.
use sand_box_rust.Base.{
  ℕ, ◌+◌, ◌≤◌, ◌<◌, ◌≡◌, ◌↔◌, ◌⊎◌, refl, ap, ◌∙◌, inl, inr, Bool, true, List, [], ◌∷◌, Option, some,
  codes, length, Bool-cases, pos,
}
use sand_box_rust.Wire.{msg_stdout, msg_stderr}
use sand_box_rust.Utf8.{from_utf8_lossy}
use sand_box_rust.Zygote.Pending.{Reply, lookup}
use sand_box_rust.Zygote.Reader.{usize_max, done_code}
use sand_box_rust.Zygote.Reader.Frames.{Frame}
use sand_box_rust.Zygote.Reader.Requests.{payloads, IsOpen}
use sand_box_rust.Zygote.Manager.{RunPayload, Manager, Reach, waiting, returned, failure}
use sand_box_rust.Zygote.Manager.Returned.{Steps, reply_of, after_done, returned-after_done}
use sand_box_rust.Server.Config.{Config, same_text}
use sand_box_rust.Server.Child.{ChildEnd}
use sand_box_rust.Server.Handlers.{
  RunCodeRequest, respond, success, error, run_code, is_seccomp_violation, is_empty, RunResult,
}
use sand_box_rust.Server.Python.{
  Launch, in_worker, launch, worker_limits, checked_preload, alive, worker_result,
}
use sand_box_rust.Server.Python
use sand_box_rust.Server.Api.{
  Outside, run, executed, submit, submits, answered, guarded, handler, serve, ok,
}
use sand_box_rust.Server.Api.Laws.{HasKey, from_request-HasKey}

module _ (decode : List ℕ → Option (List ℕ)) (decode_error : List ℕ → List ℕ) where
  -- The runner uses the worker for a request without a preload.
  run-in_worker :
      (z : Launch → Reply) (child : Launch → ChildEnd) (c : Config) (req : RunCodeRequest)
      (code : List ℕ)
      → c.python_zygote ≡ true
      → checked_preload c req ≡ []
      → decode req.code ≡ some code
      → Python.run decode decode_error z child c alive req
        ≡ worker_result (z (in_worker code (worker_limits c req)))
  unfolding Python.run launch
  run-in_worker z child c req code on bare e = rw (e, Python.run, on, bare) refl

-- An exit code of 0 is a success, whatever was written.
respond-success :
    (r : Reply)
    → r.exit_code ≡ pos 0
    → respond (worker_result r) ≡ success (record { stdout = r.stdout; stderr = r.stderr })
unfolding respond worker_result is_seccomp_violation
respond-success r e = elim (Bool-cases (is_empty r.stderr)) [
  | inl empty ↦ rw (e, empty) refl
  | inr full ↦ rw (e, full) refl
]

-- A call that has timed out is answered with its message.
respond_timeout :
    respond (worker_result (failure (codes "Execution timeout")))
    ≡ error (pos 500) (codes "Execution timeout")
unfolding respond worker_result is_seccomp_violation
respond_timeout = refl

-- A request in Python is answered by its runner.
run_code_python :
    (python nodejs : RunCodeRequest → RunResult) (req : RunCodeRequest)
    → same_text req.language (codes "python3") ≡ true
    → run_code python nodejs req ≡ respond (python req)
unfolding run_code
run_code_python python nodejs req e = rw (e, run_code) refl

module _ (to_str : List ℕ → Option (List ℕ)) (ct_eq : List ℕ → List ℕ → Bool)
    (ct_eq_lem : (a b : List ℕ) → (ct_eq a b ≡ true) ↔ (a ≡ b)) where
  -- With the key the handler serves.
  serve-run :
      (api : Bool) (o : Outside) (c : Config) (header : Option (List ℕ)) (req : RunCodeRequest)
      → HasKey to_str ct_eq c header
      → serve to_str ct_eq api o c header (run req) ≡ handler to_str ct_eq o c (run req)
  unfolding serve
  serve-run api o c header req has = elim (from_request-HasKey to_str ct_eq ct_eq_lem c header) [
    | inl (key, (e, _)) ↦ rw (e, guarded) refl
    | inr (_, hasnt) ↦ absurd (hasnt has)
  ]

module _ (to_str : List ℕ → Option (List ℕ)) (ct_eq : List ℕ → List ℕ → Bool)
    (ct_eq_lem : (a b : List ℕ) → (ct_eq a b ≡ true) ↔ (a ≡ b)) (decode : List ℕ → Option (List ℕ))
    (decode_error : List ℕ → List ℕ) (to_json : RunPayload → List ℕ) (limit : ℕ) where
  -- A Python request with the key, without a preload, in valid base64, on a server with a running
  -- worker and a cap below the largest `usize`, with a comparison that tells whether two texts are
  -- equal. Let its call of the manager wait, in any reachable state and with empty buffers, let the
  -- worker write its output within the cap and then MSG_DONE with exit code 0, with frames of other
  -- requests between, and let the manager's tasks then go on in any order until the call returns. If
  -- the runner's answer is what the call returns, then either this is the reply of the request's own
  -- frames, and the response has status 200, code 0, and the request's own stdout and stderr, decoded
  -- lossily as UTF-8; or the call has timed out, and the response is error 500 with that message.
  pub serve-deliver_all :
      (api : Bool) (o : Outside) (c : Config) (header : Option (List ℕ)) (req : RunCodeRequest)
      (code : List ℕ) (z : Launch → Reply) (child : Launch → ChildEnd) (m n : Manager)
      (k channel : ℕ) (fs : List Frame) (status : List ℕ)
      → HasKey to_str ct_eq c header
      → same_text req.language (codes "python3") ≡ true
      → c.python_zygote ≡ true
      → checked_preload c req ≡ []
      → decode req.code ≡ some code
      → limit < usize_max
      → Reach to_json limit m
      → m.calls channel ≡ waiting k
      → IsOpen k fs
      → lookup k m.world.pending ≡ some (record { out = []; err = []; tx = some channel })
      → length (payloads k msg_stdout fs) + length (payloads k msg_stderr fs) ≤ limit
      → done_code status ≡ pos 0
      → Steps to_json limit (after_done limit m k fs status) n
      → n.calls channel ≡ returned (z (in_worker code (worker_limits c req)))
      → let s =
          serve to_str ct_eq api
            (record o {
              submission = executed;
              python = Python.run decode decode_error z child c alive;
            })
            c
            header
            (run req) in
        let r = z (in_worker code (worker_limits c req)) in
        ((r ≡ reply_of k fs status)
          × (s ≡ record {
            status = 200;
            body = answered (
                success (record {
                  stdout = from_utf8_lossy (payloads k msg_stdout fs);
                  stderr = from_utf8_lossy (payloads k msg_stderr fs);
                }));
            effects = submits req ∷ [];
          }))
        ⊎ ((r ≡ failure (codes "Execution timeout"))
            × (s ≡ record {
              status = 200;
              body = answered (error (pos 500) (codes "Execution timeout"));
              effects = submits req ∷ [];
            }))
  unfolding handler submit
  serve-deliver_all api o c header req code z child m n k channel fs status has python on bare
        decoded small r waits open_ found fits zero_code steps ends =
      let runner = Python.run decode decode_error z child c alive in
      let launched = z (in_worker code (worker_limits c req)) in
      let answers : (q : Reply)
          → launched ≡ q
          → run_code runner o.nodejs req ≡ respond (worker_result q) =
        λ q e.
          run_code_python runner o.nodejs req python
          ∙ ap respond (
              run-in_worker decode decode_error z child c req code on bare decoded
              ∙ ap worker_result e) in
      let served =
        serve-run to_str ct_eq ct_eq_lem api (record o { submission = executed; python = runner }) c
          header req has in
      elim (returned-after_done to_json limit m n k channel fs status launched small r waits open_
        found fits steps ends) [
          | inl e ↦ inl (
            e,
            served
                ∙ ap (λ a. ok (answered a) (submits req ∷ []))
                    (answers _ e ∙ respond-success (reply_of k fs status) zero_code),
          )
          | inr e ↦ inr (
            e,
            served ∙ ap (λ a. ok (answered a) (submits req ∷ [])) (answers _ e ∙ respond_timeout),
          )
        ]
