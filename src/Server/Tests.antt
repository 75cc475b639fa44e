-- ===== src/Server/Tests.antt =====
-- The theorems about the server, at concrete configurations and interleavings.
pub mod Scripts
pub mod Setup
pub mod EndToEnd
use native.Mathlib.Nat.{add-zero, zero-add}
use mathlib.Core.Option
use sand_box_rust.Server.Crypto.{xor_from, encrypt_code, generate_key}
use sand_box_rust.Server.NodeJs.{
  eval_head, eval_code, validate_base64, is_base64, js_literal, validate_base64-eval_code,
}
use sand_box_rust.Base.{
  map, List, Option, ap, ◌∙◌, zero, suc, drop, length, All, count, ◌==◌, ℕ, ◌+◌, ◌*◌, if◌then◌else◌,
  ◌%◌, ◌≤◌, ◌≡◌, refl, true, false, [], ◌∷◌, ◌++◌, none, some, arith, codes, pos,
}
use sand_box_rust.Server.Config.{Config, proxy_env_vars, same_text}
use sand_box_rust.Server.Config.Laws.{child_var, proxy_env_vars-child_var}
use sand_box_rust.Server.Handlers.{
  ApiResponse, respond, ExitStatus, RunResult, ok, err, RunCodeRequest,
}
use sand_box_rust.Zygote.Pending.{Reply}
use sand_box_rust.Server.Child.{timed_out, output, child_result, child_result-respond}
use sand_box_rust.Server.Python.{alive, Launch, run}
use sand_box_rust.Server.Python.Laws.{limits_of, run-IsConfined}
use sand_box_rust.Server.Queue.{Queue, submit, sends, receives, usize, fetch_add, fetch_sub}
use sand_box_rust.Server.Queue
use sand_box_rust.Server.Queue.Laws.{
  outstanding, total, depth_counts, places, submissions_accounted,
}
use sand_box_rust.Server.Queue.Workers.{is_busy, panicked, at_most_workers}
use sand_box_rust.Server.Restart.{Server, swapping, request, check, booted}
use sand_box_rust.Server.Restart
use sand_box_rust.Server.Restart.Laws.{single_flight, in_flight}

abbrev pub shipped : Config
shipped = record {
  app = record { port = 8194; debug = false; key = codes "secret" };
  max_workers = 4;
  worker_timeout = 30;
  enable_network = true;
  enable_preload = false;
  privilege = true;
  python_zygote = true;
  python_zygote_preload_modules = [];
  python_path = codes "/usr/local/bin/python3";
  nodejs_path = codes "/usr/bin/node";
  python_lib_paths = [];
  nodejs_lib_paths = [];
  sandbox_user = codes "sandbox";
  sandbox_uid = 65537;
  sandbox_gid = 65537;
  python_max_as_bytes = 256 * 1024 * 1024;
  nodejs_max_as_bytes = 512 * 1024 * 1024;
  nodejs_max_old_space_mb = 256;
  proxy = record { socks5 = []; http = codes "http://proxy:80"; https = [] };
}

proxy_env_vars-child_var_example :
    (child_var (codes "HTTPS_PROXY") (proxy_env_vars shipped.proxy) ≡ none)
    × (child_var (codes "HTTP_PROXY") (proxy_env_vars shipped.proxy)
        ≡ some (codes "http://proxy:80"))
proxy_env_vars-child_var_example = proxy_env_vars-child_var shipped.proxy

-- Signal 31 ends the process.
abbrev sigsys : ExitStatus
sigsys = record { signal = some 31; code = none }

abbrev pub print_one : RunCodeRequest
print_one = record {
  language = codes "python3";
  code = codes "cHJpbnQoMSk=";
  preload = [];
  enable_network = false;
}

abbrev prints : RunCodeRequest → RunResult
prints req = ok (record { stdout = codes "1"; stderr = []; exit_code = pos 0 })

abbrev fails : RunCodeRequest → RunResult
fails req = err (codes "Execution timeout")

-- The result of each job.
abbrev numbered : ℕ → ApiResponse
numbered j = record { code = pos j; message = []; payload = none }

-- Two workers; two jobs are submitted; the first worker answers the first and takes the second.
abbrev one_sent : Queue
one_sent = record (Queue.start 2) {
  queue_depth = fetch_add 0;
  channel = 5 ∷ [];
  submitted = 5 ∷ [];
}

abbrev two_sent : Queue
two_sent = record one_sent {
  queue_depth = fetch_add one_sent.queue_depth;
  channel = 5 ∷ 6 ∷ [];
  submitted = 6 ∷ 5 ∷ [];
}

abbrev one_answered : Queue
one_answered = record two_sent {
  queue_depth = fetch_sub two_sent.queue_depth;
  channel = 6 ∷ [];
  answers = record { job = 5; response = numbered 5 } ∷ [];
}

abbrev second_taken : Queue
second_taken = record one_answered { channel = []; tasks = Queue.received 6 ∷ Queue.receiving ∷ [] }

second_taken-Reach : Queue.Reach numbered 2 second_taken
second_taken-Reach =
    let idle = Queue.receiving ∷ [] in
    let sent_one : Queue.Reach numbered 2 one_sent =
      Queue.later (Queue.later Queue.begin (submit 5)) (sends [] [] 5 refl) in
    let sent_two : Queue.Reach numbered 2 two_sent =
      Queue.later (Queue.later sent_one (submit 6)) (sends [] [] 6 refl) in
    let started =
      Queue.later (Queue.later sent_two (receives [] idle 5 (6 ∷ []) refl refl))
        (Queue.counts_down [] idle 5 refl) in
    let answered : Queue.Reach numbered 2 one_answered =
      Queue.later (Queue.later started (Queue.returns [] idle 5 refl))
        (Queue.responds [] idle 5 (numbered 5) refl) in
    Queue.later answered (receives [] idle 6 [] refl refl)

depth_counts_example : second_taken.queue_depth ≡ outstanding second_taken % usize
depth_counts_example = depth_counts numbered 2 second_taken second_taken-Reach

submissions_accounted_example : places 6 second_taken ≡ count 6 second_taken.submitted
submissions_accounted_example = submissions_accounted numbered 2 second_taken second_taken-Reach 6

-- The second job panics.
abbrev second_panicked : Queue
second_panicked = record second_taken {
  queue_depth = fetch_sub second_taken.queue_depth;
  tasks = Queue.ended ∷ Queue.receiving ∷ [];
  answers =
      record { job = 5; response = numbered 5 }
      ∷ record { job = 6; response = Queue.shut_down }
      ∷ [];
}

second_panicked-Reach : Queue.Reach numbered 2 second_panicked
second_panicked-Reach =
    let idle = Queue.receiving ∷ [] in
    Queue.later (Queue.later second_taken-Reach (Queue.counts_down [] idle 6 refl))
      (Queue.panics [] idle 6 refl)

at_most_workers_example :
    total is_busy second_panicked.tasks + panicked numbered second_panicked-Reach ≤ 2
at_most_workers_example = at_most_workers numbered 2 second_panicked second_panicked-Reach

-- The worker has died; call 4 restarts it, and call 5 is declined.
abbrev down : Server
down = record (booted true) { running = Restart.set (booted true).running 0 false }

abbrev building_one : Server
building_one = check 4 (request 5 (request 4 down))

building_one-Reach : Restart.Reach true building_one
unfolding request
building_one-Reach =
    Restart.later
      (Restart.later
        (Restart.later (Restart.later Restart.boot (Restart.dies 0)) (Restart.requests 4 refl))
        (Restart.requests 5 refl))
      (Restart.checks 4 refl)

building_one_4 : in_flight (building_one.tasks 4) ≡ true
unfolding request check
building_one_4 = refl

single_flight_example : ◌≡◌ {A = ℕ} 4 4
single_flight_example =
    single_flight true building_one building_one-Reach 4 4 building_one_4 building_one_4

-- The new worker runs and waits to be swapped in.
abbrev swapping_one : Server
swapping_one = record building_one {
  running = Restart.set building_one.running building_one.built true;
  tasks = Restart.set building_one.tasks 4 (swapping building_one.built);
  built = building_one.built + 1;
}

-- A worker that answers a request to run as root with something else.
abbrev wary : Launch → Reply
wary l =
    if (limits_of l).uid == 0
    then record { stdout = codes "root"; stderr = []; exit_code = pos 0 }
    else record { stdout = codes "1"; stderr = []; exit_code = pos 0 }

abbrev careless : Launch → Reply
careless l = record { stdout = codes "1"; stderr = []; exit_code = pos 0 }

run-IsConfined_example :
    run (λ code. some code) (λ code. code) wary (λ _. timed_out) shipped alive print_one
    ≡ run (λ code. some code) (λ code. code) careless (λ _. timed_out) shipped alive print_one
run-IsConfined_example =
    run-IsConfined (λ code. some code) (λ code. code) shipped print_one wary careless
      (λ _. timed_out) (λ _. timed_out) alive (λ l g. rw g.0.1.0 refl) (λ l g. refl)

child_result-respond_example :
    (sigsys.signal ≡ some 31
      → (respond (child_result (codes "node") (output (codes "1") [] sigsys))).code ≡ pos 31)
    × (respond (child_result (codes "node") timed_out)
        ≡ record { code = pos 500; message = codes "Execution timeout"; payload = none })
child_result-respond_example = child_result-respond (codes "node") (codes "1") [] sigsys

-- An engine for the two theorems that need one: each byte in unary.
abbrev unary : ℕ → List ℕ → List ℕ
unary zero rest = b'=' ∷ rest
unary (suc b) rest = b'A' ∷ unary b rest

abbrev encode : List ℕ → List ℕ
encode [] = []
encode (b ∷ bs) = unary b (encode bs)

-- `n` is what has been counted of the byte that is read.
abbrev decode_from : ℕ → List ℕ → Option (List ℕ)
decode_from n [] = if n == 0 then some [] else none
decode_from n (c ∷ cs) =
    let rest = decode_from (if c == b'=' then 0 else n + 1) cs in
    if c == b'=' then Option.map (λ bs. n ∷ bs) rest else rest

abbrev decode : List ℕ → Option (List ℕ)
decode s = decode_from 0 s

decode_from-unary :
    (n b : ℕ) (rest : List ℕ)
    → decode_from n (unary b rest) ≡ Option.map (λ bs. (n + b) ∷ bs) (decode_from 0 rest)
decode_from-unary n zero rest = rw (add-zero n) refl
decode_from-unary n (suc b) rest =
    decode_from-unary (n + 1) b rest
    ∙ ap (λ m. Option.map (λ bs. m ∷ bs) (decode_from 0 rest)) (omega arith)

decode-encode : (bs : List ℕ) → decode (encode bs) ≡ some bs
decode-encode [] = refl
decode-encode (b ∷ bs) =
    decode_from-unary 0 b (encode bs)
    ∙ ap (Option.map (λ cs. (0 + b) ∷ cs)) (decode-encode bs)
    ∙ ap (λ m. some (m ∷ bs)) (zero-add b)

unary_alphabet :
    (b : ℕ) (rest : List ℕ)
    → All (λ c. is_base64 c ≡ true) rest
    → All (λ c. is_base64 c ≡ true) (unary b rest)
unary_alphabet zero rest h = (refl, h)
unary_alphabet (suc b) rest h = (refl, unary_alphabet b rest h)

encode_alphabet : (bs : List ℕ) → All (λ c. is_base64 c ≡ true) (encode bs)
encode_alphabet [] = tt
encode_alphabet (b ∷ bs) = unary_alphabet b (encode bs) (encode_alphabet bs)

valid : validate_base64 decode encode (codes "AA=A=") ≡ some (codes "AA=A=")
unfolding validate_base64
valid = refl

validate_base64-eval_code_example :
    (js_literal (drop (length eval_head) (eval_code (codes "AA=A="))) ≡ some (codes "AA=A="))
    × (decode (codes "AA=A=") ≡ decode (codes "AA=A="))
validate_base64-eval_code_example =
    validate_base64-eval_code decode encode (codes "AA=A=") (codes "AA=A=") encode_alphabet
      decode-encode valid
