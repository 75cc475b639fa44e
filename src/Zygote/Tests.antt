-- ===== src/Zygote/Tests.antt =====
-- The theorems about the worker's manager, applied at concrete requests and frames.
use sand_box_rust.Base.{ℕ, ◌≡◌, refl, true, List, [], ◌∷◌, ◌++◌, none, some, All, map, arith, neg}
use sand_box_rust.Wire.{msg_stdout, msg_stderr, msg_kill, encode_frame, header}
use sand_box_rust.Utf8.{from_utf8_lossy}
use sand_box_rust.Zygote.Pending.{Pending, World, lookup}
use sand_box_rust.Zygote.Pending.Laws.{IsMap}
use sand_box_rust.Zygote.Reader.{
  ReadResult, bytes, failed, parked, ended, read_loop, deliver, limit_message, connection_lost,
}
use sand_box_rust.Zygote.Reader.Chunks.{IsRead}
use sand_box_rust.Zygote.Reader.Frames.{
  Frame, IsAccepted, encode, encode_all, deliver_all, read_loop_frames, read_loop_oversized,
}
use sand_box_rust.Zygote.Reader.Bounds.{IsCapped, IsBounded, read_loop-IsBounded}
use sand_box_rust.Zygote.Reader.Answers.{IsAccounted, read_loop-IsAccounted}
use sand_box_rust.Zygote.Reader.Requests.{IsOpen}
use sand_box_rust.Zygote.Reader.Overflow.{deliver_over_limit}

abbrev cap : ℕ
cap = 100

abbrev greeting : Pending
greeting = record { out = []; err = []; tx = some 7 }

abbrev other : Pending
other = record { out = b'h' ∷ []; err = []; tx = some 8 }

abbrev two_requests : World
two_requests = record {
  pending = (1, greeting) ∷ (2, other) ∷ [];
  running = true;
  replies = [];
  written = [];
}

abbrev say : Frame
say = record { mtype = msg_stdout; req_id = 1; payload = b'H' ∷ b'i' ∷ [] }

abbrev interleaved : Frame
interleaved = record { mtype = msg_stdout; req_id = 2; payload = b'!' ∷ [] }

abbrev complain : Frame
complain = record { mtype = msg_stderr; req_id = 1; payload = b'?' ∷ [] }

abbrev frames : List Frame
frames = say ∷ interleaved ∷ complain ∷ []

abbrev cut_front : List ℕ
cut_front = 0 ∷ 0 ∷ 0 ∷ []

say-IsAccepted : IsAccepted cap say
say-IsAccepted = ground arith

frames-IsAccepted : All (IsAccepted cap) frames
frames-IsAccepted = (say-IsAccepted, (ground arith, (ground arith, tt)))

-- A stream that is cut in the middle of the header of its last frame.
abbrev stream : List (List ℕ)
stream = encode_all frames ∷ cut_front ∷ []

stream-IsRead : All IsRead stream
unfolding encode_frame
stream-IsRead = (ground arith, (ground arith, tt))

cut : encode say ≡ cut_front ++ 2 ∷ msg_stdout ∷ 0 ∷ 0 ∷ 0 ∷ 1 ∷ b'H' ∷ b'i' ∷ []
unfolding encode_frame
cut = refl

read_loop_frames_example :
    read_loop cap [] two_requests (map bytes stream)
    ≡ parked cut_front (deliver_all cap frames two_requests)
read_loop_frames_example =
    read_loop_frames cap two_requests frames say cut_front 2
      (msg_stdout ∷ 0 ∷ 0 ∷ 0 ∷ 1 ∷ b'H' ∷ b'i' ∷ []) stream frames-IsAccepted say-IsAccepted cut
      stream-IsRead refl

-- A header that announces 256 bytes, over the cap of 100.
abbrev huge : List ℕ
huge = 0 ∷ 0 ∷ 1 ∷ 0 ∷ msg_stdout ∷ 0 ∷ 0 ∷ 0 ∷ 1 ∷ []

huge-header : header huge ≡ some (record { plen = 256; mtype = msg_stdout; req_id = 1 })
unfolding header
huge-header = refl

huge_stream-IsRead : All IsRead (encode_all frames ∷ huge ∷ [])
unfolding encode_frame
huge_stream-IsRead = (ground arith, (ground arith, tt))

read_loop_oversized_example :
    read_loop cap [] two_requests (map bytes (encode_all frames ∷ huge ∷ []))
    ≡ ended (connection_lost (deliver_all cap frames two_requests))
read_loop_oversized_example =
    read_loop_oversized cap two_requests frames huge
      (record { plen = 256; mtype = msg_stdout; req_id = 1 }) (encode_all frames ∷ huge ∷ [])
      frames-IsAccepted huge-header (ground arith) huge_stream-IsRead refl

abbrev broken : List ReadResult
broken = bytes (encode_all frames) ∷ bytes cut_front ∷ failed ∷ []

two_requests-IsCapped : IsCapped cap two_requests.pending
two_requests-IsCapped = ground arith

read_loop-IsBounded_example : IsBounded cap (read_loop cap [] two_requests broken)
read_loop-IsBounded_example =
    read_loop-IsBounded cap two_requests [] broken (ground arith) (ground arith)
      two_requests-IsCapped

read_loop-IsAccounted_example : IsAccounted two_requests (read_loop cap [] two_requests broken)
read_loop-IsAccounted_example = read_loop-IsAccounted cap two_requests [] broken (ground arith)

frames-IsOpen : IsOpen 1 frames
frames-IsOpen = ((λ _ h. ground arith), ((λ _ h. ground arith), ((λ _ h. ground arith), tt)))

found : lookup 1 two_requests.pending ≡ some greeting
unfolding lookup
found = refl

two_requests-IsMap : IsMap two_requests.pending
unfolding lookup
two_requests-IsMap = (refl, (refl, tt))

-- With a cap of one byte the two bytes of the greeting are too many.
deliver_over_limit_example :
    let v = deliver 1 msg_stdout 1 (b'H' ∷ b'i' ∷ []) two_requests in
    (lookup 1 v.pending ≡ none)
    × (v.written ≡ two_requests.written ++ encode_frame msg_kill 1 [] ∷ [])
    × (v.replies
        ≡ two_requests.replies
          ++ (
            7,
            record {
              stdout = from_utf8_lossy (b'H' ∷ b'i' ∷ []);
              stderr = limit_message 1;
              exit_code = neg 1;
            },
          )
            ∷ [])
deliver_over_limit_example =
    deliver_over_limit 1 msg_stdout 1 7 (b'H' ∷ b'i' ∷ []) greeting two_requests (ground arith) refl
      two_requests-IsMap found refl (ground arith)
