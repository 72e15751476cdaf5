-- ===== src/Emergency/Tests.antt =====
-- An emergency stop of a vehicle at rest, with each claim's theorem at one input.
use px4_dxp.Prelude.{true, false, some}
use px4_dxp.Manual.Arbiter.{running}
use px4_dxp.Manual.Gateway.{Sending}
use px4_dxp.Manual.Joystick.Lease
use px4_dxp.Emergency.{System, accepted, refused, Answers, estop}
use px4_dxp.Emergency.Stop.{AllSafe, estop-AllSafe}

abbrev system : System
system = record { node = true; mission = some running; joystick = some Lease.init }

-- The mode switch is refused.
abbrev answers : Answers
answers = record {
  stop_path_raises = false;
  set_mode = refused;
  disarm = accepted;
  set_state_raises = false;
}

abbrev sent : Sending
sent = record { now = 3; taken = true }

estop-AllSafe_example : AllSafe (estop 9 sent answers system).system.joystick
estop-AllSafe_example = estop-AllSafe 9 sent answers system
