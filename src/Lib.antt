-- ===== src/Lib.antt =====
-- SandBoxRust: a server that runs untrusted Python and JavaScript under seccomp. A request enters
-- the HTTP handlers, waits in a work queue, and is run by an interpreter; Python requests may go
-- to one long-lived worker process that forks for each, over a socket with a binary protocol.
-- Before the code runs, the sandbox library limits the process and installs a system call filter.
--
-- Wire: the frames between the server and the worker (server/src/services/zygote.rs: encode_frame
-- and the header decoding of read_loop). A frame is nine bytes of header and the payload; bytes
-- are natural numbers below 256, and lengths and ids wrap at 2^32.
--
-- Zygote/Pending and Zygote/Reader: the reader task (read_loop of the same file). The state is
-- `World`: the pending map, `running`, the replies sent on oneshot channels, the frames written.
-- `deliver` is the body of the inner loop for one frame, `drain` the inner loop, and `read_loop`
-- the outer loop over the results of `read`. The inner loop has one round for each byte in the
-- buffer and one more; a round that goes on consumes nine bytes at least, so they are enough.
-- Reader/Rounds, Chunks and Frames compare the loop with one delivery for each frame; Invariant,
-- Bounds and Answers carry an invariant through every sequence of reads; Requests and Overflow
-- follow one request. Utf8 has the lossy decoding of the standard library that the replies go
-- through, Parse its number parsing, `split` and `trim`, and Parse/Lines `lines` and `split_once`.
--
-- Zygote/Manager: ZygoteManager (run, stop and the reader), as a step relation that interleaves
-- any number of calls at each point where another task can run. Request ids wrap at 2^32 and may
-- collide. A call's timeout can fire at any moment. A write of a frame is the step at which it
-- completes, and need not come. Manager/Answer follows a request to what its caller receives, and
-- Manager/Returned to what the call returns.
-- Zygote/Limit: max_output_bytes. Zygote/Start: ZygoteManager::new and its drop, with the file
-- descriptors and the process that each path leaves; what the operating system answers is an
-- argument.
--
-- Seccomp: lib/sandbox_seccomp/src/lib.rs and its two tables. Syscalls names the entries of
-- python_syscalls.rs and nodejs_syscalls.rs; the numbers of the constants are a parameter. Seccomp
-- has get_allowed_syscalls, Filter install_seccomp with the answers of libseccomp as a parameter,
-- Verdict what the kernel then decides, with the documented reading of rules as a record of
-- hypotheses, Defaults the filter without ALLOWED_SYSCALLS, Install the life of the libseccomp
-- context, Init the calls of init_seccomp with the answers of the kernel as a parameter, and Start
-- both together. Landlock has apply_landlock and apply_landlock_one over arrays of C strings, with
-- the landlock crate as a set of arguments; a loop that runs past the end of its array has no
-- result.
--
-- Server: Config (server/src/config.rs: the environment's overrides, proxy variables) and
-- Config/Load (the defaults and Config::load, with the TOML reader as an argument), Handlers
-- (handlers.rs, models.rs and services.rs: from an execution's result to the response; the two
-- runners' results are arguments), Child (how a fresh interpreter of either runner ends), Python
-- (services/python.rs: run; base64, the worker's answer and the child's end are arguments) and
-- Python/Script (build_script and the command, with the template as an argument), NodeJs
-- (services/nodejs.rs: validate_base64 and build_script), NodeJs/Prescript (the text of
-- runtime/prescript.js) and NodeJs/Run (run), Template (str::replace and the templates' places;
-- a template is taken apart into text and places), Crypto (crypto.rs), Queue
-- (queue.rs: submitters and the tasks of the workers on one channel, interleaved at each access to
-- the channel and the counter; the channel is a list from which each message is received once, in
-- order), Restart (main.rs: the restart gate and the swap of the worker, interleaved at each access
-- to the gate, the lock and the managers, with the processes that a failed start leaves), Api (the routes of main.rs, the key of
-- middleware.rs, and every handler with what it makes the server do), Process and Dependencies
-- (setup/dependencies.rs: the reading of pip's list and of requirements.txt), Jail (setup/env.rs)
-- and Startup (main.rs: main up to the point where it serves). How processes end, which files
-- exist and what they hold are arguments. EndToEnd follows one Python request through all of these.
--
-- Pool: the worker process itself (runtime/pool). Protocol has protocol.py, Protocol/Laws the two
-- sides of the format against each other. Cipher has _xor of zygote_worker.py and decrypt of
-- runtime/prescript.py; the loop has one round for each byte, of which each round takes one at
-- least. State and Worker are the class Zygote: its fields, the handlers, and the rounds of serve
-- on what select gives; what the operating system answers to a call is a function of the
-- call's number, and the two maps are functions. Ghost fields record the bytes taken by the socket,
-- the frames, the forked requests and the calls about children. The loop over the control frames
-- has one round for each byte and one more (Worker/Rounds). Worker/Stream follows the bytes, Tables
-- and Links the maps, Phases the frames of one request, Codes the exit codes, Ends, Frames, Pipes
-- and Invariant every round, and Delivery and Answer the stream through the server's reader. Child
-- is _child_exec, from the sandbox to the code's end, with the library's own apply_landlock and
-- init_seccomp.
--
-- Base has the shared lists, numbers, texts and tests. Modules called Tests apply the theorems at
-- concrete inputs.
--
-- Not modelled: the waits of ZygoteManager for the lock of the socket's write half and for a socket
-- that is full; logging and prctl in main; actix's reading of bodies and queries, before a handler
-- is called; the two functions of the sandbox library that return a fixed string; of the worker
-- process, its warm-up and imports, exhausted memory, and a child's single calls on descriptors and
-- modules; the shell scripts, and the rest of the text that runs inside the sandbox.
pub mod Base
pub mod Wire
pub mod Utf8
pub mod Zygote
pub mod Pool
pub mod Parse
pub mod Seccomp
pub mod Server
