-- ===== src/Server/Tests/Scripts.antt =====
-- The theorems about the scripts of server/src/services/python.rs and nodejs.rs, at small requests.
use sand_box_rust.Base.{◌≡◌, refl, true, List, [], ◌∷◌, none, some, codes}
use sand_box_rust.Server.Handlers.{RunCodeRequest}
use sand_box_rust.Server.Child.{timed_out}
use sand_box_rust.Server.NodeJs.Run.{run}
use sand_box_rust.Server.NodeJs.Run.Laws.{run_same}
use sand_box_rust.Server.Template.{Place, Piece, text, place, render}
use sand_box_rust.Server.Python.{dead, launch, checked_preload}
use sand_box_rust.Server.Python.Script.{fresh_command}
use sand_box_rust.Server.Python.Script.Fresh.{Starts, launch-Starts}
use sand_box_rust.Server.Tests.{shipped, print_one}

-- `uid={{uid}};net={{enable_network}};{{preload}}{{code}}`
abbrev template : List Piece
template =
    text (codes "uid=")
    ∷ place Place.uid
    ∷ text (codes ";net=")
    ∷ place Place.enable_network
    ∷ text (codes ";")
    ∷ place Place.preload
    ∷ place Place.code
    ∷ []

-- The worker has died.
launch-Starts_example :
    Starts
      (λ s. s)
      (λ _. codes "[]")
      shipped
      none
      (7 ∷ [])
      template
      (launch shipped print_one (codes "x=1") dead)
      (fresh_command
        (λ s. s)
        (λ _. codes "[]")
        (render template)
        shipped
        none
        (codes "x=1")
        (checked_preload shipped print_one)
        print_one
        (7 ∷ []))
launch-Starts_example =
    launch-Starts (λ s. s) (λ _. codes "[]") shipped none (codes "x=1") 7 [] print_one template dead
      (refl, (refl, (refl, tt))) refl refl

-- The same code, once with a preload.
abbrev plain : RunCodeRequest
plain = record print_one { language = codes "javascript" }

abbrev preloading : RunCodeRequest
preloading = record plain { preload = codes "globalThis.x = 1" }

run_same_example :
    run
      (λ code. some code)
      (λ bs. bs)
      (λ code. code)
      (λ _. timed_out)
      (record shipped { enable_preload = true })
      none
      plain
    ≡ run
        (λ code. some code)
        (λ bs. bs)
        (λ code. code)
        (λ _. timed_out)
        (record shipped { enable_preload = true })
        none
        preloading
run_same_example =
    run_same (λ code. some code) (λ bs. bs) (λ code. code) (λ _. timed_out)
      (record shipped { enable_preload = true }) none plain preloading plain.code refl refl refl
