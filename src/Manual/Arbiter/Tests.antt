-- ===== src/Manual/Arbiter/Tests.antt =====
-- Runs of the arbiter, with each claim's theorem at one input.
use px4_dxp.Prelude.{◌≡◌, refl}
use px4_dxp.Manual.Arbiter.{ControlOwner, ok, Arbiter, init, joystick_owned, mission_enter}

abbrev in_mission : Arbiter
in_mission = record init { owner = ControlOwner.mission }

entered : mission_enter init ≡ ok in_mission
unfolding mission_enter joystick_owned init
entered = refl

entered_again : mission_enter in_mission ≡ ok in_mission
unfolding mission_enter joystick_owned init
entered_again = refl
