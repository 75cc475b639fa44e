-- ===== src/Server/NodeJs/Run/Laws.antt =====
-- What a JavaScript request's result depends on, with the template that the repository ships.
use sand_box_rust.Base.{ℕ, ◌≡◌, refl, ap, ◌∙◌, List, [], Option, some, if◌then◌else◌, codes, map}
use sand_box_rust.Server.Config.{Config}
use sand_box_rust.Server.Handlers.{RunCodeRequest}
use sand_box_rust.Server.Child.{Command, ChildEnd, child_result}
use sand_box_rust.Server.Template.{Place, render, replace}
use sand_box_rust.Server.Template.Laws.{IsPlain, put, replace-render}
use sand_box_rust.Server.NodeJs.{build_script, validate_base64, eval_code}
use sand_box_rust.Server.NodeJs.Prescript.{prescript}
use sand_box_rust.Server.NodeJs.Run.{command, run}

prescript-IsPlain : IsPlain prescript
prescript-IsPlain = (refl, (refl, tt))

-- The template has no place for a preload.
build_script-prescript :
    (canonical preload : List ℕ)
    → build_script (render prescript) canonical preload
      ≡ render (map (put Place.code (eval_code canonical)) prescript)
unfolding build_script
build_script-prescript canonical preload =
    ap (replace (codes "{{code}}") (eval_code canonical))
      (replace-render Place.preload preload prescript prescript-IsPlain)
    ∙ replace-render Place.code (eval_code canonical) prescript prescript-IsPlain

command_same :
    (c : Config) (path : Option (List ℕ)) (req req' : RunCodeRequest) (canonical : List ℕ)
    → req.enable_network ≡ req'.enable_network
    → command c path req canonical ≡ command c path req' canonical
unfolding command
command_same c path req req' canonical e =
    rw
      (
        e,
        build_script-prescript canonical (if c.enable_preload then req.preload else []),
        build_script-prescript canonical (if c.enable_preload then req'.preload else []),
      )
      refl

validate_base64-some :
    (decode : List ℕ → Option (List ℕ)) (encode : List ℕ → List ℕ) (code bs : List ℕ)
    → decode code ≡ some bs
    → validate_base64 decode encode code ≡ some (encode bs)
unfolding validate_base64
validate_base64-some decode encode code bs e = rw (e, validate_base64) refl

-- Two JavaScript requests whose code decodes to the same bytes, and which ask alike for the network,
-- have the same result on every system, whatever else they hold: the preload too has no effect, also
-- where the configuration enables it.
pub run_same :
    (decode : List ℕ → Option (List ℕ)) (encode decode_error : List ℕ → List ℕ)
    (child : Command → ChildEnd) (c : Config) (path : Option (List ℕ)) (req req' : RunCodeRequest)
    (bs : List ℕ)
    → decode req.code ≡ some bs
    → decode req'.code ≡ some bs
    → req.enable_network ≡ req'.enable_network
    → run decode encode decode_error child c path req
      ≡ run decode encode decode_error child c path req'
unfolding run
run_same decode encode decode_error child c path req req' bs h h' e =
    rw
      (
        validate_base64-some decode encode req.code bs h,
        validate_base64-some decode encode req'.code bs h',
        run,
      )
      (ap (λ cmd. child_result (codes "nodejs") (child cmd))
        (command_same c path req req' (encode bs) e))
