-- ===== src/Loading/Tests.antt =====
-- A load of two points, with each claim's theorem at one input.
use px4_dxp.Prelude.{ℕ, ◌≡◌, refl, true, false, Option, none, some, List, [], ◌∷◌}
use px4_dxp.Manual.Arbiter.{loading, completed, aborted}
use px4_dxp.Offboard.Controller.{Controller, init}
use px4_dxp.Manual.Gateway.{Sending}
use px4_dxp.Emergency.{accepted, Answers}
use px4_dxp.Loading
use px4_dxp.Emergency
use px4_dxp.Loading.{Waypoint, load_end}
use px4_dxp.Loading.Checks.{IsLoaded, stop_forgotten}

abbrev plan : Option (List ℕ)
plan = some (10 ∷ 20 ∷ [])

-- A preview that is too short.
abbrev preview : Option (List Waypoint)
preview = some (record { spray = true; must_hit = true } ∷ [])

abbrev answers : Answers
answers = record {
  stop_path_raises = false;
  set_mode = accepted;
  disarm = accepted;
  set_state_raises = false;
}

abbrev sent : Sending
sent = record { now = 3; taken = true }

-- The controller behind a completed mission, without a path.
abbrev done : Controller ℕ
done = record init { state = completed }

abbrev begun : Controller ℕ
begun = record done { state = loading }

stop_forgotten_example :
    (completed ≡ completed)
    × (aborted ≡ aborted)
    × IsLoaded false plan preview completed done (
        load_end
          (λ p. true)
          "square"
          false
          plan
          preview
          completed
          (record begun { state = aborted }))
unfolding Loading.load_begin Emergency.estop
stop_forgotten_example =
    stop_forgotten (λ p. true) "square" false plan preview done begun completed aborted 9 sent
      answers none refl refl refl
