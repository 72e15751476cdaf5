-- ===== src/SprayFsm/Tests.antt =====
-- Runs of src/spray_fsm.py at concrete inputs, in milliseconds.
use px4_dxp.Prelude.{◌≡◌, refl, true, false, some, none, List, [], ◌∷◌}
use px4_dxp.SprayFsm.{
  on_confirmed, Config, Inputs, Event, tick_at, ack_at, tick, on_ack, run, commanded,
}
use px4_dxp.SprayFsm.Invariant.{IsValid, run-IsValid}
use px4_dxp.SprayFsm.Safety.{Allowed, last_tick, commanded_needs_tick}
use px4_dxp.SprayFsm.Recovery.{is_off, tick-ack-is_off}
use mathlib.Core.Logic.{◌⊎◌}

abbrev config : Config
config = record { backoff_base = 500; backoff_max = 5000; ack_timeout = 1000 }

abbrev go : Inputs
go = record { desired = true; safety_ok = true; enabled = true }

abbrev idle : Inputs
idle = record { desired = false; safety_ok = true; enabled = true }

abbrev shut : Inputs
shut = record { desired = false; safety_ok = true; enabled = false }

-- OFF is confirmed first, then ON is asked for and confirmed.
abbrev settle : List Event
settle = tick_at go 0 ∷ ack_at 1 true 20 ∷ []

abbrev spray : List Event
spray = tick_at go 0 ∷ ack_at 1 true 20 ∷ tick_at go 40 ∷ ack_at 2 true 60 ∷ []

abbrev failing : List Event
failing = tick_at go 0 ∷ ack_at 1 false 20 ∷ []

abbrev waiting : List Event
waiting = tick_at go 0 ∷ []

spray_on : (run config spray).state ≡ on_confirmed
unfolding run
spray_on = refl

failing_recovers : (run config failing).recovery_deadline ≡ some 520
unfolding run
failing_recovers = refl

run-IsValid_example : IsValid (run config spray)
run-IsValid_example = run-IsValid config spray

commanded_needs_tick_example : Allowed (last_tick none spray)
unfolding run commanded
commanded_needs_tick_example = commanded_needs_tick config spray refl

tick-ack-is_off_example :
    let g = (tick config idle 80 (run config spray)).0 in
    (is_off g.state ≡ true) ⊎ (is_off (on_ack config g.cmd_seq true 90 g).0.state ≡ true)
unfolding run
tick-ack-is_off_example =
    tick-ack-is_off config idle 80 90 (run config spray) (run-IsValid config spray) refl tt tt
