-- ===== src/Manual/Arbiter.antt =====
-- server/control_arbiter.py: who owns the vehicle. A locked block of the source is one step;
-- sessions, leases and reasons are only stored and compared, so numbers stand for them.
pub mod Exclusion
mod Tests
use px4_dxp.Prelude.{ℕ, Bool, true, false, Option, none, some, if◌then◌else◌}

pub data ControlOwner : Type 0 where
  idle mission joystick_acquiring joystick_active joystick_held releasing : ControlOwner

-- server/models.py
pub data MissionState : Type 0 where
  idle loading arming switching_offboard entry running stopping disarming : MissionState
  completed aborted error : MissionState

pub data Code : Type 0 where
  mission_active joystick_active mission_transition manual_control_disabled : Code
  mode_unavailable arm_failed acquire_cancelled lease_inactive not_owner : Code
  fcu_disconnected not_armed transport_unavailable out_of_order replay : Code
  nan_value out_of_range malformed : Code

pub data Result (A : Type 0) : Type 0 where
  ok : A → Result A
  err : Code → Result A

pub record Arbiter : Type 0 where
  pub owner : ControlOwner
  pub session_id : Option ℕ
  pub lease_id : Option ℕ
  pub stop_reason : Option ℕ

unfoldable pub init : Arbiter
init = record { owner = ControlOwner.idle; session_id = none; lease_id = none; stop_reason = none }

-- `MISSION_ACTIVE_STATES`
abbrev pub is_mission_active : MissionState → Bool
is_mission_active loading = true
is_mission_active arming = true
is_mission_active switching_offboard = true
is_mission_active entry = true
is_mission_active running = true
is_mission_active stopping = true
is_mission_active disarming = true
is_mission_active _ = false

abbrev pub is_joystick : ControlOwner → Bool
is_joystick joystick_acquiring = true
is_joystick ControlOwner.joystick_active = true
is_joystick joystick_held = true
is_joystick releasing = true
is_joystick _ = false

abbrev pub is_idle : ControlOwner → Bool
is_idle ControlOwner.idle = true
is_idle _ = false

abbrev pub is_mission : ControlOwner → Bool
is_mission mission = true
is_mission _ = false

unfoldable pub joystick_owned : Arbiter → Bool
joystick_owned a = is_joystick a.owner

-- `mission_start`: the claim before the body, and the `finally` behind it.
unfoldable pub mission_enter : Arbiter → Result Arbiter
unfolding joystick_owned
mission_enter a =
    if joystick_owned a then err Code.joystick_active else ok (record a { owner = mission })

unfoldable pub mission_exit : Arbiter → Arbiter
unfolding joystick_owned
mission_exit a = if joystick_owned a then a else record a { owner = ControlOwner.idle }

abbrev pub is_transition : MissionState → Bool
is_transition arming = true
is_transition switching_offboard = true
is_transition stopping = true
is_transition _ = false

unfoldable pub ensure_mission_motion_allowed : MissionState → Arbiter → Result (Unit {0})
unfolding joystick_owned
ensure_mission_motion_allowed s a =
    if joystick_owned a
    then err Code.joystick_active
    else if is_transition s
    then err mission_transition
    else ok tt

-- `_reject_if_mission_active`, then the claim.
unfoldable pub begin_joystick_acquire : MissionState → Arbiter → Result Arbiter
unfolding joystick_owned
begin_joystick_acquire s a =
    if is_mission_active s
    then err mission_active
    else if is_mission a.owner
    then err mission_active
    else if joystick_owned a
    then err Code.joystick_active
    else ok (record a { owner = joystick_acquiring; stop_reason = none })

unfoldable pub mark_joystick_active : Option ℕ → Option ℕ → Arbiter → Arbiter
mark_joystick_active session lease a = record a {
  owner = ControlOwner.joystick_active;
  session_id = session;
  lease_id = lease;
  stop_reason = none;
}

unfoldable pub mark_joystick_held : Arbiter → Arbiter
unfolding joystick_owned
mark_joystick_held a = if joystick_owned a then record a { owner = joystick_held } else a

unfoldable pub mark_releasing : Arbiter → Arbiter
unfolding joystick_owned
mark_releasing a = if joystick_owned a then record a { owner = releasing } else a

unfoldable pub clear_joystick : ℕ → Arbiter → Arbiter
clear_joystick reason a = record a {
  owner = ControlOwner.idle;
  session_id = none;
  lease_id = none;
  stop_reason = some reason;
}
