-- ===== src/Manual/Control.antt =====
-- server/joystick_controller.py: the commands, the settings and the attributes of the controller, and
-- `_clear_local`. Socket, session and lease ids and reasons are only compared, so numbers stand for
-- them; times are whole clock ticks. What the ROS node, the transport and the clock answer are
-- arguments.
use px4_dxp.Prelude.{ℕ, Bool, true, false, Option, none, some, ℤ, pos}
use px4_dxp.Manual.Arbiter.{Arbiter, clear_joystick}
use px4_dxp.Manual.Gateway.{Axis, Gateway, Sending}

pub data JoystickState : Type 0 where
  inactive acquiring active held releasing : JoystickState

pub record JoystickCommand : Type 0 where
  pub session_id : ℕ
  pub lease_id : ℕ
  pub sequence : ℤ
  pub client_mono : ℤ
  pub deadman : Bool
  pub throttle : Axis
  pub steering : Axis

pub record Settings : Type 0 where
  pub manual_enabled : Bool
  pub auto_arm : Bool
  pub max_throttle : ℕ
  pub max_steering : ℕ
  pub min_interval : ℕ
  pub server_stop : ℕ
  pub lease_revoke : ℕ
  pub lease_expiry : ℕ

-- The attributes of the controller, with the arbiter and the gateway that it holds.
pub record Station : Type 0 where
  pub state : JoystickState
  pub owner_sid : Option ℕ
  pub session_id : Option ℕ
  pub lease_id : Option ℕ
  pub last_seq : Option ℤ
  pub last_client_mono : Option ℤ
  pub last_valid : Option ℕ
  pub last_rate : Option ℕ
  pub last_deadman : Bool
  pub last_throttle : ℤ
  pub last_steering : ℤ
  pub coalesced : ℕ
  pub stop_reason : Option ℕ
  pub watchdog : Bool
  pub arbiter : Arbiter
  pub gateway : Gateway

abbrev pub is_live : JoystickState → Bool
is_live active = true
is_live held = true
is_live _ = false

abbrev pub is_acquiring : JoystickState → Bool
is_acquiring acquiring = true
is_acquiring _ = false

-- What the code asks the ROS node and the transport in one call.
pub record Vehicle : Type 0 where
  pub node : Bool
  pub connected : Bool
  pub armed : Bool
  pub manual_mode : Bool
  pub healthy : Bool

-- The reasons that the source names.
abbrev pub acquire_failed : ℕ
acquire_failed = 1

abbrev pub deadman_released : ℕ
deadman_released = 2

abbrev pub server_timeout : ℕ
server_timeout = 3

abbrev pub lease_timeout : ℕ
lease_timeout = 4

-- `_clear_local`
unfoldable pub clear_local : ℕ → Station → Station
clear_local reason s = record s {
  state = inactive;
  owner_sid = none;
  session_id = none;
  lease_id = none;
  last_seq = none;
  last_client_mono = none;
  last_valid = none;
  last_rate = none;
  last_deadman = false;
  last_throttle = pos 0;
  last_steering = pos 0;
  coalesced = 0;
  stop_reason = some reason;
  arbiter = clear_joystick reason s.arbiter;
}

-- The clock and the transport through `deactivate_neutral`.
pub record Flush : Type 0 where
  pub now : ℕ
  pub first : Sending
  pub second : Sending
  pub third : Sending
