-- ===== src/Server/Tests/EndToEnd.antt =====
-- The theorem about a Python request through the whole server, for a request that prints one letter.
use sand_box_rust.Base.{ℕ, ◌≡◌, ◌⊎◌, refl, true, List, [], ◌∷◌, some, codes, pos, arith}
use sand_box_rust.Wire.{msg_stdout, msg_stderr, msg_done, msg_run, encode_frame, from_be_bytes}
use sand_box_rust.Utf8.{from_utf8_lossy}
use sand_box_rust.Zygote.Pending.{lookup, insert}
use sand_box_rust.Zygote.Reader.{done_code}
use sand_box_rust.Zygote.Reader.Frames.{Frame}
use sand_box_rust.Zygote.Reader.Requests.{IsOpen, payloads}
use sand_box_rust.Zygote.Manager.{
  begin, write, leave, Manager, RunPayload, waiting, leaving, returned, failure, update, received,
  Reach, later, write_run, receive, leaves,
}
use sand_box_rust.Zygote.Manager.Returned.{
  Steps, stay, and_then, reply_of, after_done, returned-after_done,
}
use sand_box_rust.Zygote.Manager.Answer.{received-deliver_all}
use sand_box_rust.Zygote.Manager.Tests.{no_json, cap, entered, entered-Reach}
use sand_box_rust.Server.Config.{same_text}
use sand_box_rust.Server.Child.{timed_out}
use sand_box_rust.Server.Handlers.{success, error}
use sand_box_rust.Server.Python.{alive, worker_limits}
use sand_box_rust.Server.Python
use sand_box_rust.Server.Api.{run, executed, answered, submits, serve, Served}
use sand_box_rust.Server.EndToEnd.{serve-deliver_all}
use sand_box_rust.Server.Tests.{shipped, print_one}
use sand_box_rust.Server.Tests.Setup.{outside, same_text_lem}

-- Request 1 writes `H`, and request 2 says that it is done.
abbrev frames : List Frame
frames =
    record { mtype = msg_stdout; req_id = 1; payload = b'H' ∷ [] }
    ∷ record { mtype = msg_done; req_id = 2; payload = [] }
    ∷ []

abbrev zeros : List ℕ
zeros = 0 ∷ 0 ∷ 0 ∷ 0 ∷ []

frames-IsOpen : IsOpen 1 frames
frames-IsOpen = ground arith

-- The call of `entered` has written its frame.
abbrev asked : Manager
asked = record entered {
  world = write (encode_frame msg_run 1 []) entered.world;
  calls = update entered.calls 0 (waiting 1);
}

no_payload : RunPayload
no_payload = record { code = []; key = []; limits = worker_limits shipped print_one }

asked-Reach : Reach no_json cap asked
unfolding begin no_payload
asked-Reach = later entered-Reach (write_run 0 1 no_payload refl)

asked_1 : lookup 1 asked.world.pending ≡ some (record { out = []; err = []; tx = some 0 })
unfolding lookup insert begin write
asked_1 = refl

asked_0 : asked.calls 0 ≡ waiting 1
asked_0 = refl

abbrev done_1 : Manager
done_1 = after_done cap asked 1 frames zeros

abbrev leaving_1 : Manager
leaving_1 = record done_1 { calls = update done_1.calls 0 (leaving 1 (reply_of 1 frames zeros)) }

-- The call receives its reply and leaves.
abbrev last : Manager
last = leave 0 1 (reply_of 1 frames zeros) leaving_1

received_0 : received 0 done_1.world.replies ≡ some (reply_of 1 frames zeros)
received_0 =
    received-deliver_all no_json cap asked 1 0 frames zeros (ground arith) asked-Reach frames-IsOpen
      asked_1 (ground arith)

last-Steps : Steps no_json cap done_1 last
last-Steps =
    and_then (and_then stay (receive 0 1 (reply_of 1 frames zeros) refl received_0))
      (leaves 0 1 (reply_of 1 frames zeros) refl)

last_0 : last.calls 0 ≡ returned (reply_of 1 frames zeros)
unfolding leave
last_0 = refl

zeros-done_code : done_code zeros ≡ pos 0
unfolding done_code from_be_bytes
zeros-done_code = refl

returned-after_done_example :
    (reply_of 1 frames zeros ≡ reply_of 1 frames zeros)
    ⊎ (reply_of 1 frames zeros ≡ failure (codes "Execution timeout"))
returned-after_done_example =
    returned-after_done no_json cap asked last 1 0 frames zeros (reply_of 1 frames zeros)
      (ground arith) asked-Reach asked_0 frames-IsOpen asked_1 (ground arith) last-Steps last_0

abbrev answer : Served
answer =
    serve (λ s. some s) same_text true
      (record outside {
        submission = executed;
        python =
            Python.run (λ code. some code) (λ code. code) (λ _. reply_of 1 frames zeros)
              (λ _. timed_out) shipped alive;
      })
      shipped (some (codes "secret")) (run print_one)

serve-deliver_all_example :
    ((reply_of 1 frames zeros ≡ reply_of 1 frames zeros)
      × (answer ≡ record {
        status = 200;
        body = answered (
            success (record {
              stdout = from_utf8_lossy (payloads 1 msg_stdout frames);
              stderr = from_utf8_lossy (payloads 1 msg_stderr frames);
            }));
        effects = submits print_one ∷ [];
      }))
    ⊎ ((reply_of 1 frames zeros ≡ failure (codes "Execution timeout"))
        × (answer ≡ record {
          status = 200;
          body = answered (error (pos 500) (codes "Execution timeout"));
          effects = submits print_one ∷ [];
        }))
serve-deliver_all_example =
    serve-deliver_all (λ s. some s) same_text same_text_lem (λ code. some code) (λ code. code)
      no_json cap true outside shipped (some (codes "secret")) print_one print_one.code
      (λ _. reply_of 1 frames zeros) (λ _. timed_out) asked last 1 0 frames zeros refl refl refl
      refl refl (ground arith) asked-Reach asked_0 frames-IsOpen asked_1 (ground arith)
      zeros-done_code last-Steps last_0
