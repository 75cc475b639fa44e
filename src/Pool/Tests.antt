-- ===== src/Pool/Tests.antt =====
-- Inputs at which the theorems about the worker process apply.
pub mod Child
use sand_box_rust.Base.{
  ℕ, ◌+◌, ◌%◌, ◌≡◌, ◌≤◌, ◌<◌, refl, sym, ap, ◌∙◌, List, [], ◌∷◌, ◌++◌, Option, some, none, arith,
  length, true, false, inl, inr, Option-cases, pos, negsuc, append-nil, All, map, subst, count,
}
use sand_box_rust.Wire.{header, from_be_bytes, to_be_bytes}
use sand_box_rust.Pool.Protocol
use sand_box_rust.Pool.Protocol.{msg_run, pack_done}
use sand_box_rust.Pool.State.{Os, forked, raised, took, zombie, Outcome, running, init}
use sand_box_rust.Pool.Worker.{
  serve_round, ctrl, pipe, on_all, on_ready, read_ctrl_frames, ctrl_loop, handle_frame, handle_run,
  on_pipe_readable, teardown_pipe_fd, finish, send, flush, flush_loop, Serves, start, round,
}
use sand_box_rust.Pool.Worker.Ends.{IsFresh, IsNodup}
use sand_box_rust.Pool.Worker.Delivery.{state, IsFront, Serves-read_loop}
use sand_box_rust.Pool.Worker.Told.{IsTold, IsClosed, Serves-IsTold}
use sand_box_rust.Pool.Worker.Answer.{IsAnswered, IsCodes, Serves-IsAnswered}
use sand_box_rust.Wire.{msg_stdout, msg_stderr}
use sand_box_rust.Zygote.Pending.{World, lookup}
use sand_box_rust.Zygote.Reader.{read_loop, parked, bytes, done_code}
use sand_box_rust.Zygote.Reader.Chunks.{IsRead}
use sand_box_rust.Zygote.Reader.Frames.{Frame, encode_all, deliver_all}
use sand_box_rust.Zygote.Reader.Requests.{payloads}
use sand_box_rust.Pool.Protocol.Laws.{done_code-pack_done}
use sand_box_rust.Server.Crypto.{generate_key}
use sand_box_rust.Pool.Cipher.Digits.{IsBytes}
use sand_box_rust.Pool.Cipher.Laws.{Decrypts, encrypt_code-xor}

-- A generator that counts from 1.
abbrev pub counted_from : ℕ → List ℕ → List ℕ
counted_from i [] = []
counted_from i (b ∷ bs) = (i + 1) % 256 ∷ counted_from (i + 1) bs

pub counted_from-IsBytes : (i : ℕ) (bs : List ℕ) → IsBytes (counted_from i bs)
counted_from-IsBytes i [] = tt
counted_from-IsBytes i (b ∷ bs) = (omega arith, counted_from-IsBytes (i + 1) bs)

pub length-counted_from : (i : ℕ) (bs : List ℕ) → length (counted_from i bs) ≡ length bs
length-counted_from i [] = refl
length-counted_from i (b ∷ bs) = omega (arith, length-counted_from (i + 1) bs)

-- An engine that marks its text.
abbrev pub tail_of : List ℕ → Option (List ℕ)
tail_of [] = none
tail_of (b ∷ bs) = some bs

encrypt_code-xor_example :
    Decrypts (λ bs. 0 ∷ bs) tail_of (1 ∷ 2 ∷ 255 ∷ []) (generate_key (counted_from 0) 64)
encrypt_code-xor_example =
    encrypt_code-xor (counted_from 0) (λ bs. 0 ∷ bs) tail_of (1 ∷ 2 ∷ 255 ∷ [])
      (length-counted_from 0) (counted_from-IsBytes 0) (λ bs. refl)
      (omega arith, (omega arith, (omega arith, tt)))

-- A system on which every program loads, a child gets the descriptors 5 and 6 while they are not in
-- use, the socket takes all, and a child has exited with 0 when it is waited for.
abbrev os : Os
os = record {
  loads = λ payload. true;
  run_child = λ n fd_map. elim (fd_map 5) [
    | none ↦ elim (fd_map 6) [ none ↦ forked 100 5 6 | some s ↦ raised ]
    | some s ↦ raised
  ];
  send_some = λ n. took 1000 ∷ [];
  wait = λ n pid. zombie (pos 0);
}

os-IsFresh : IsFresh os
os-IsFresh n fd_map pid o e h = elim (Option-cases (fd_map 5)) [
  | inl a ↦ elim (Option-cases (fd_map 6)) [
    | inl b ↦
        let g : forked 100 5 6 ≡ forked pid o e = rw (a, b) at h in
        let e_out : 5 ≡ o = cc in
        let e_err : 6 ≡ e = cc in
        (
          ap fd_map (sym e_out) ∙ a,
          ap fd_map (sym e_err) ∙ b,
          λ same. absurd (omega (arith, e_out, e_err, same)),
        )
    | inr (s, b) ↦ let g : raised ≡ forked pid o e = rw (a, b) at h in absurd cc
  ]
  | inr (s, a) ↦ let g : raised ≡ forked pid o e = rw (a) at h in absurd cc
]

os-IsCodes : IsCodes os
os-IsCodes n pid c e = rw (e) (omega arith)

-- The server asks for a run, the child writes two bytes, and both of its pipes end.
abbrev asked : Outcome
asked = serve_round os false (ctrl (Protocol.encode_frame msg_run 1 []) ∷ []) init

abbrev wrote : Outcome
wrote = serve_round os false (pipe 5 (72 ∷ 105 ∷ []) ∷ []) (state asked)

abbrev ended_both : Outcome
ended_both = serve_round os false (pipe 5 [] ∷ pipe 6 [] ∷ []) (state wrote)

asked_runs : asked ≡ running (state asked)
unfolding serve_round on_all on_ready read_ctrl_frames ctrl_loop handle_frame handle_run header
    from_be_bytes Protocol.encode_frame to_be_bytes
asked_runs = refl

wrote_runs : wrote ≡ running (state wrote)
unfolding serve_round on_all on_ready read_ctrl_frames ctrl_loop handle_frame handle_run header
    from_be_bytes Protocol.encode_frame to_be_bytes on_pipe_readable send flush flush_loop
wrote_runs = refl

ended_both_runs : ended_both ≡ running (state ended_both)
unfolding serve_round on_all on_ready read_ctrl_frames ctrl_loop handle_frame handle_run header
    from_be_bytes Protocol.encode_frame to_be_bytes on_pipe_readable send flush flush_loop
    teardown_pipe_fd finish pack_done
ended_both_runs = refl

asked_serves : Serves os (running (state asked))
unfolding Protocol.encode_frame to_be_bytes
asked_serves = subst (Serves os) asked_runs (
    round init false (ctrl (Protocol.encode_frame msg_run 1 []) ∷ []) start (λ e. absurd cc)
      (
        (
          (
            omega arith,
            (
              omega arith,
              (
                omega arith,
                (
                  omega arith,
                  (omega arith, (omega arith, (omega arith, (omega arith, (omega arith, tt))))),
                ),
              ),
            ),
          ),
          omega arith,
        ),
        tt,
      ))

wrote_serves : Serves os (running (state wrote))
unfolding serve_round on_all on_ready read_ctrl_frames ctrl_loop handle_frame handle_run header
    from_be_bytes Protocol.encode_frame to_be_bytes
wrote_serves = subst (Serves os) wrote_runs (
    round (state asked) false (pipe 5 (72 ∷ 105 ∷ []) ∷ []) asked_serves (λ e. absurd cc)
      ((omega arith, λ e. absurd cc, omega arith), tt))

ended_both_serves : Serves os (running (state ended_both))
unfolding serve_round on_all on_ready read_ctrl_frames ctrl_loop handle_frame handle_run header
    from_be_bytes Protocol.encode_frame to_be_bytes on_pipe_readable send flush flush_loop
ended_both_serves = subst (Serves os) ended_both_runs (
    round (state wrote) false (pipe 5 [] ∷ pipe 6 [] ∷ []) wrote_serves (λ e. absurd cc)
      (
        (omega arith, λ e. absurd cc, omega arith),
        ((omega arith, λ e. absurd cc, omega arith), tt),
      ))

one_start : (state ended_both).started ≡ 1 ∷ []
unfolding serve_round on_all on_ready read_ctrl_frames ctrl_loop handle_frame handle_run header
    from_be_bytes Protocol.encode_frame to_be_bytes on_pipe_readable send flush flush_loop
    teardown_pipe_fd finish pack_done
one_start = refl

nodup : IsNodup (state ended_both).started
nodup k = rw (one_start) (ground arith)

pipes_shut : IsClosed 1 (state ended_both)
unfolding serve_round on_all on_ready read_ctrl_frames ctrl_loop handle_frame handle_run header
    from_be_bytes Protocol.encode_frame to_be_bytes on_pipe_readable send flush flush_loop
    teardown_pipe_fd finish pack_done
pipes_shut fd t e = ground arith

Serves-IsTold_example : IsTold 1 (state ended_both)
Serves-IsTold_example = Serves-IsTold os (state ended_both) 1 os-IsFresh ended_both_serves nodup

abbrev server : World
server = record {
  pending = (1, record { out = []; err = []; tx = some 7 }) ∷ [];
  running = true;
  replies = [];
  written = [];
}

-- All that was sent, in one read.
abbrev one_read : List (List ℕ)
one_read = (state ended_both).sent ∷ []

one_read-IsRead : All IsRead one_read
unfolding serve_round on_all on_ready read_ctrl_frames ctrl_loop handle_frame handle_run header
    from_be_bytes Protocol.encode_frame to_be_bytes on_pipe_readable send flush flush_loop
    teardown_pipe_fd finish pack_done
one_read-IsRead = (omega arith, tt)

Serves-read_loop_example :
    (fs : List Frame) × (gs : List Frame) × (buf : List ℕ) × ((state ended_both).emitted ≡ fs ++ gs)
    × ((state ended_both).sent ≡ encode_all fs ++ buf)
    × IsFront buf gs
    × (read_loop 65536 [] server (map bytes one_read) ≡ parked buf (deliver_all 65536 fs server))
Serves-read_loop_example =
    Serves-read_loop os (running (state ended_both)) 65536 server one_read os-IsFresh
      ended_both_serves (omega arith) one_read-IsRead (append-nil (state ended_both).sent)

all_sent : (state ended_both).out ≡ []
unfolding serve_round on_all on_ready read_ctrl_frames ctrl_loop handle_frame handle_run header
    from_be_bytes Protocol.encode_frame to_be_bytes on_pipe_readable send flush flush_loop
    teardown_pipe_fd finish pack_done
all_sent = refl

was_started : 0 < count 1 (state ended_both).started
was_started = rw (one_start) (ground arith)

found : lookup 1 server.pending ≡ some (record { out = []; err = []; tx = some 7 })
unfolding lookup
found = refl

fits :
    length (payloads 1 msg_stdout (state ended_both).emitted)
      + length (payloads 1 msg_stderr (state ended_both).emitted)
    ≤ 65536
unfolding serve_round on_all on_ready read_ctrl_frames ctrl_loop handle_frame handle_run header
    from_be_bytes Protocol.encode_frame to_be_bytes on_pipe_readable send flush flush_loop
    teardown_pipe_fd finish pack_done
fits = omega arith

Serves-IsAnswered_example :
    (u : World) × (read_loop 65536 [] server (map bytes one_read) ≡ parked [] u)
    × IsAnswered os (state ended_both) 1 7 u
Serves-IsAnswered_example =
    Serves-IsAnswered os (state ended_both) 65536 1 7 server one_read os-IsFresh os-IsCodes
      ended_both_serves nodup was_started pipes_shut all_sent (omega arith) (omega arith)
      one_read-IsRead (append-nil (state ended_both).sent) found fits

done_code-pack_done_example : done_code (pack_done (negsuc 8) ++ []) ≡ negsuc 8
done_code-pack_done_example = done_code-pack_done (negsuc 8) [] (omega arith)
