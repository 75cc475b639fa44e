-- ===== src/Server/Api.antt =====
-- The endpoints of server/src/handlers.rs behind the key of server/src/middleware.rs, as main.rs routes
-- them. `HeaderValue::to_str` and `ConstantTimeEq::ct_eq` are arguments.
pub mod Laws
use sand_box_rust.Base.{
  ℕ, Bool, true, false, List, [], ◌∷◌, Option, none, some, if◌then◌else◌, codes, pos,
}
use sand_box_rust.Server.Config.{Config, same_text}
use sand_box_rust.Server.Handlers.{RunCodeRequest, RunResult, ApiResponse, error, run_code}
use sand_box_rust.Server.Dependencies.{Package, list_python_packages, install_python_dependencies}
use sand_box_rust.Server.Process.{ProcessEnd, ProcessCommand, Outcome, done, failed}
use sand_box_rust.Server.Queue.{Queue}

-- A request whose query and body actix has read.
pub data Endpoint : Type 0 where
  health : Endpoint
  run : RunCodeRequest → Endpoint
  get_dependencies : Option (List ℕ) → Endpoint
  update_dependencies : List ℕ → Endpoint

-- The JSON of a response: `listed` and `updated` are the two values that `ApiResponse::success` is
-- given, and `healthy` has the depth and the number of workers.
pub data Body : Type 0 where
  answered : ApiResponse → Body
  listed : List Package → Body
  updated : Body
  healthy : ℕ → ℕ → Body
  not_found : Body

-- What a request makes the server do: a job in the queue, or a call of `list_python_packages` or of
-- `install_python_dependencies`.
pub data Effect : Type 0 where
  submits : RunCodeRequest → Effect
  lists : Effect
  installs : Effect

pub record Served : Type 0 where
  pub status : ℕ
  pub body : Body
  pub effects : List Effect

-- How a job's time in the queue ends.
pub data Submission : Type 0 where
  executed : Submission
  refused : Submission
  dropped : Submission

-- `QueueController::submit`, for the job's own result.
unfoldable pub submit : Submission → ApiResponse → ApiResponse
submit executed result = result
submit refused result = error (pos 500) (codes "worker pool unavailable")
submit dropped result = error (pos 500) (codes "worker shut down")

abbrev pub effects_of : Submission → RunCodeRequest → List Effect
effects_of refused req = []
effects_of _ req = submits req ∷ []

abbrev pub ok : Body → List Effect → Served
ok body effects = record { status = 200; body = body; effects = effects }

unfoldable pub unauthorized : Served
unfolding error
unauthorized = record {
  status = 401;
  body = answered (error (pos 401) (codes "Invalid API key"));
  effects = [];
}

unfoldable pub unsupported : Served
unfolding error
unsupported = ok (answered (error (pos 400) (codes "unsupported language"))) []

-- What the operating system, the queue and the two runners answer.
pub record Outside : Type 0 where
  pub queue : Queue
  pub submission : Submission
  pub python : RunCodeRequest → RunResult
  pub nodejs : RunCodeRequest → RunResult
  pub pip : ProcessCommand → ProcessEnd
  pub requirements : Option (List ℕ)

module _ (to_str : List ℕ → Option (List ℕ)) (ct_eq : List ℕ → List ℕ → Bool) where
  -- The key that `ApiKey` holds; `none` is the error.
  unfoldable pub from_request : Config → Option (List ℕ) → Option (List ℕ)
  from_request c none = none
  from_request c (some value) = elim (to_str value) [
    | none ↦ none
    | some val ↦ if ct_eq val c.app.key then some val else none
  ]

  abbrev pub guarded : Config → Option (List ℕ) → Served → Served
  guarded c header served = elim (from_request c header) [ none ↦ unauthorized | some _ ↦ served ]

  unfoldable pub update_result : Outcome → Served
  unfolding error
  update_result done = ok updated (installs ∷ [])
  update_result (failed e) = ok (answered (error (pos 500) e)) (installs ∷ [])

  -- The handlers, once the key has been checked.
  unfoldable pub handler : Outside → Config → Endpoint → Served
  unfolding error
  handler o c health = ok (healthy o.queue.queue_depth o.queue.workers) []
  handler o c (run req) =
      ok (answered (submit o.submission (run_code o.python o.nodejs req)))
        (effects_of o.submission req)
  handler o c (get_dependencies none) = unsupported
  handler o c (get_dependencies (some language)) =
      if same_text language (codes "python3")
      then ok (listed (list_python_packages o.pip c)) (lists ∷ [])
      else unsupported
  handler o c (update_dependencies language) =
      if same_text language (codes "python3")
      then update_result (install_python_dependencies o.pip c o.requirements)
      else unsupported

  -- The routes; `dependencies_api` is the Cargo feature, and `header` the `X-Api-Key` of the request.
  unfoldable pub serve : Bool → Outside → Config → Option (List ℕ) → Endpoint → Served
  serve dependencies_api o c header health = handler o c health
  serve dependencies_api o c header (run req) = guarded c header (handler o c (run req))
  serve true o c header (get_dependencies language) =
      guarded c header (handler o c (get_dependencies language))
  serve true o c header (update_dependencies language) =
      guarded c header (handler o c (update_dependencies language))
  serve false o c header (get_dependencies language) = record {
    status = 404;
    body = not_found;
    effects = [];
  }
  serve false o c header (update_dependencies language) = record {
    status = 404;
    body = not_found;
    effects = [];
  }
