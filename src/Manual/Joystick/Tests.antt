-- ===== src/Manual/Joystick/Tests.antt =====
-- Runs of the joystick's lease, with each claim's theorem at one input.
use px4_dxp.Prelude.{◌≡◌, refl, true, false, some, List, [], ◌∷◌, pos}
use px4_dxp.Manual.Arbiter.{
  ControlOwner, MissionState, Code, not_owner, ok, err, mission_enter, begin_joystick_acquire,
  is_mission,
}
use px4_dxp.Manual.Gateway.{finite, Sending, clamp}
use px4_dxp.Manual.Control.{active, JoystickCommand, Settings, Station, Vehicle, Flush, is_live}
use px4_dxp.Manual.Drive.{handle_command}
use px4_dxp.Manual.Joystick.{Outcome, acquire_begin, acquire_end}
use px4_dxp.Manual.Joystick.Command.{Handled, handle_command-Handled}
use px4_dxp.Manual.Joystick.Lease.{
  Event, mission_starts, begin, finish, command, IsLeased, init, run_from, run-IsLeased,
  run_exclusive,
}
use px4_dxp.Manual.Arbiter
use px4_dxp.Manual.Joystick.Lease

abbrev settings : Settings
settings = record {
  manual_enabled = true;
  auto_arm = true;
  max_throttle = 300_000;
  max_steering = 600_000;
  min_interval = 50;
  server_stop = 300;
  lease_revoke = 1_000;
  lease_expiry = 2_000;
}

abbrev vehicle : Vehicle
vehicle = record {
  node = true;
  connected = true;
  armed = false;
  manual_mode = true;
  healthy = true;
}

abbrev sent : Sending
sent = record { now = 0; taken = true }

abbrev flush : Flush
flush = record { now = 0; first = sent; second = sent; third = sent }

abbrev outcome : Outcome
outcome = record {
  mode_ok = true;
  mode_confirmed = true;
  armed = false;
  arm_ok = true;
  arm_confirmed = true;
}

abbrev forward : JoystickCommand
forward = record {
  session_id = 7;
  lease_id = 8;
  sequence = pos 1;
  client_mono = pos 20;
  deadman = true;
  throttle = finite (pos 500_000);
  steering = finite (pos 0);
}

abbrev leased : List Event
leased =
    begin vehicle MissionState.idle 1 (some 7) sent flush
    ∷ finish outcome 1 7 8 0 flush
    ∷ command vehicle 10 1 forward
    ∷ []

abbrev live : Station
live = run_from settings init leased

-- After the three calls the lease is live and the demand is cut to the limit.
record Live (s : Station) : Type 0 where
  state : s.state ≡ active
  lease : s.lease_id ≡ some 8
  throttle : s.last_throttle ≡ pos 300_000
  owner : s.owner_sid ≡ some 1
  sequence : s.last_seq ≡ some (pos 1)
  client : s.last_client_mono ≡ some (pos 20)

live-Live : Live live
unfolding run_from Lease.handle handle_command acquire_end acquire_begin begin_joystick_acquire init
    Arbiter.init clamp
live-Live = record {
  state = refl;
  lease = refl;
  throttle = refl;
  owner = refl;
  sequence = refl;
  client = refl;
}

run-IsLeased_example : IsLeased (run_from settings init leased)
run-IsLeased_example = run-IsLeased settings leased

run_exclusive_example :
    (is_live live.state ≡ true → mission_enter live.arbiter ≡ err Code.joystick_active)
    × (is_mission live.arbiter.owner ≡ true → is_live live.state ≡ false)
run_exclusive_example = run_exclusive settings leased

handle_command-Handled_example :
    Handled settings vehicle 20 1
      (record forward { sequence = pos 2 })
      live
      (handle_command settings vehicle 20 1 (record forward { sequence = pos 2 }) live)
handle_command-Handled_example =
    handle_command-Handled settings vehicle 20 1 (record forward { sequence = pos 2 }) live

abbrev late : Station
late = (acquire_end settings outcome 2 9 10 40 flush live).0

abbrev in_mission : Station
in_mission = run_from settings init (mission_starts ∷ [])
