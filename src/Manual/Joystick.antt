-- ===== src/Manual/Joystick.antt =====
-- server/joystick_controller.py: `acquire`, `release` and the watchdog. `acquire` is cut at its awaits
-- in two: `acquire_begin` up to the neutral pre-stream, and `acquire_end` behind it, with the
-- outcomes of the awaits; `release` is cut at its await as well, and other calls may come in
-- between. The flush of a failed `acquire` runs with the assignments behind it.
pub mod Command
pub mod Lease
pub mod Overlap
mod Tests
use px4_dxp.Prelude.{
  ℕ, ◌+◌, Bool, true, false, not, ◌&&◌, ◌||◌, Option, none, some, ℤ, leb_ℤ, ltb, leb, ◌==◌, opt_eq,
  if◌then◌else◌, pos, neg,
}
use px4_dxp.Manual.Arbiter.{
  ControlOwner, MissionState, Code, mode_unavailable, arm_failed, acquire_cancelled, lease_inactive,
  not_owner, fcu_disconnected, not_armed, transport_unavailable, out_of_order, replay, nan_value,
  out_of_range, malformed, manual_control_disabled, Result, ok, err, Arbiter,
  begin_joystick_acquire, mark_joystick_active, mark_joystick_held, mark_releasing, clear_joystick,
}
use px4_dxp.Manual.Gateway.{
  Axis, nan, finite, Frame, Gateway, Sending, clamp, encode, full, send_neutral, flush_neutral,
  activate_neutral, deactivate_neutral, accept_command,
}
use px4_dxp.Manual.Control.{
  JoystickState, JoystickCommand, Settings, Station, is_live, is_acquiring, Vehicle, acquire_failed,
  deadman_released, server_timeout, lease_timeout, clear_local, Flush, inactive, acquiring, active,
  held, releasing,
}

-- The assignments of `acquire` behind the arbiter's claim.
claim : ℕ → ℕ → Arbiter → Station → Station
claim sid session a s = record s {
  state = acquiring;
  owner_sid = some sid;
  session_id = some session;
  lease_id = none;
  last_seq = none;
  last_client_mono = none;
  last_valid = none;
  last_rate = none;
  last_deadman = false;
  last_throttle = pos 0;
  last_steering = pos 0;
  coalesced = 0;
  stop_reason = none;
  arbiter = a;
}

-- `_check_fcu_ready_for_acquire` and `_check_transport_healthy`
acquire_fault : Settings → Vehicle → Option Code
acquire_fault c v =
    if not v.node
    then some mode_unavailable
    else if not v.connected
    then some fcu_disconnected
    else if not c.auto_arm && not v.armed
    then some not_armed
    else if not v.healthy
    then some transport_unavailable
    else none

deactivate : Flush → Station → Station
deactivate w s = record s { gateway = deactivate_neutral w.now w.first w.second w.third s.gateway }

-- The `except` of `acquire`.
unfoldable pub acquire_abort : Flush → Station → Station
unfolding deactivate
acquire_abort w s = clear_local acquire_failed (deactivate w s)

-- Up to the await of the neutral pre-stream; a fault is handled by the `except` at once.
after_claim : Option Code → Sending → Flush → Station → Station × Result (Unit {0})
unfolding acquire_abort
after_claim none w x s = (record s { gateway = activate_neutral w.now w s.gateway }, ok tt)
after_claim (some e) w x s = (acquire_abort x s, err e)

claimed :
    Settings
    → Vehicle
    → ℕ
    → ℕ
    → Sending
    → Flush
    → Station
    → Result Arbiter
    → Station × Result (Unit {0})
unfolding claim after_claim acquire_fault
claimed c v sid session w x s (err e) = (s, err e)
claimed c v sid session w x s (ok a) = after_claim (acquire_fault c v) w x (claim sid session a s)

-- A session id that is missing or empty is `none`.
with_session :
    Settings
    → Vehicle
    → MissionState
    → ℕ
    → Option ℕ
    → Sending
    → Flush
    → Station
    → Station × Result (Unit {0})
unfolding claimed
with_session c v m sid none w x s = (s, err malformed)
with_session c v m sid (some session) w x s =
    claimed c v sid session w x s (begin_joystick_acquire m s.arbiter)

unfoldable pub acquire_begin :
    Settings
    → Vehicle
    → MissionState
    → ℕ
    → Option ℕ
    → Sending
    → Flush
    → Station
    → Station × Result (Unit {0})
unfolding with_session
acquire_begin c v m sid session w x s =
    if c.manual_enabled
    then with_session c v m sid session w x s
    else (s, err manual_control_disabled)

-- How the awaits of `acquire` ended: the mode switch and its confirmation, whether the vehicle
-- was armed then, and the arming and its confirmation.
pub record Outcome : Type 0 where
  pub mode_ok : Bool
  pub mode_confirmed : Bool
  pub armed : Bool
  pub arm_ok : Bool
  pub arm_confirmed : Bool

-- The first failure of the awaits, or the check that the claim still stands.
unfoldable pub acquire_check : Settings → Outcome → ℕ → ℕ → Station → Option Code
acquire_check c o sid session s =
    if not (o.mode_ok && o.mode_confirmed)
    then some mode_unavailable
    else if c.auto_arm && (not o.armed && not (o.arm_ok && o.arm_confirmed))
    then some arm_failed
    else if opt_eq s.owner_sid (some sid)
        && (opt_eq s.session_id (some session) && is_acquiring s.state)
    then none
    else some acquire_cancelled

-- `armed_by_us`: set before the arming is confirmed. A failed acquire then asks for a disarm.
unfoldable pub armed_by_us : Settings → Outcome → Bool
armed_by_us c o = o.mode_ok && (o.mode_confirmed && (c.auto_arm && (not o.armed && o.arm_ok)))

activate : ℕ → ℕ → ℕ → Station → Station
activate session lease now s = record s {
  lease_id = some lease;
  last_valid = some now;
  last_rate = none;
  state = active;
  arbiter = mark_joystick_active (some session) (some lease) s.arbiter;
  watchdog = true;
}

-- The rest of `acquire`, with the lease that it answers.
conclude : Settings → Outcome → ℕ → ℕ → ℕ → Flush → Option Code → Station → Station × Result ℕ
unfolding activate acquire_abort
conclude c o session lease now x none s = (activate session lease now s, ok lease)
conclude c o session lease now x (some e) s = (acquire_abort x s, err e)

unfoldable pub acquire_end :
    Settings → Outcome → ℕ → ℕ → ℕ → ℕ → Flush → Station → Station × Result ℕ
unfolding conclude acquire_check
acquire_end c o sid session lease now x s =
    conclude c o session lease now x (acquire_check c o sid session s) s

-- `release`: an argument that is given and does not fit is refused, unless it is forced.
abbrev pub fits : Option ℕ → Option ℕ → Bool
fits none have = true
fits (some x) have = opt_eq have (some x)

abbrev pub fits_or_free : Option ℕ → Option ℕ → Bool
fits_or_free none have = true
fits_or_free (some x) none = true
fits_or_free (some x) (some y) = x == y

unfoldable pub may_release : Bool → Option ℕ → Option ℕ → Option ℕ → Station → Bool
may_release force sid session lease s =
    force || (fits_or_free sid s.owner_sid && (fits session s.session_id && fits lease s.lease_id))

-- Up to the await of the flush, and behind it.
unfoldable pub release_begin :
    Bool → Option ℕ → Option ℕ → Option ℕ → ℕ → Station → Station × Result (Unit {0})
unfolding may_release
release_begin force sid session lease reason s =
    if may_release force sid session lease s
    then (
      record s {
        stop_reason = some reason;
        state = releasing;
        arbiter = mark_releasing s.arbiter;
        watchdog = false;
      },
      ok tt,
    )
    else (s, err not_owner)

unfoldable pub release_end : ℕ → Flush → Station → Station
unfolding deactivate clear_local
release_end reason w s = clear_local reason (deactivate w s)

-- `force_release`, run without a call in between.
unfoldable pub force_release : ℕ → Flush → Station → Station
unfolding release_begin release_end
force_release reason w s = release_end reason w (release_begin true none none none reason s).0

unfoldable pub emergency_neutralize : ℕ → Sending → Station → Station
unfolding clear_local
emergency_neutralize reason w s =
    clear_local reason (record s { gateway = send_neutral true w s.gateway; watchdog = false })

-- `age > limit` for a command time that is set.
abbrev pub is_old : ℕ → ℕ → Option ℕ → Bool
is_old now limit none = false
is_old now limit (some t) = ltb (t + limit) now

stop_stale : Settings → ℕ → Sending → Station → Station
stop_stale c now w s =
    if is_old now c.server_stop s.last_valid
    then record s {
      gateway = send_neutral true w s.gateway;
      last_throttle = pos 0;
      last_steering = pos 0;
      stop_reason = some server_timeout;
    }
    else s

-- What a round of `_watchdog_loop` does behind its sleep, while the task is not cancelled.
unfoldable pub watchdog_round : Settings → ℕ → Sending → Flush → Station → Station
unfolding stop_stale force_release
watchdog_round c now w x s =
    if not s.watchdog
    then s
    else if is_old now c.lease_revoke s.last_valid || is_old now c.lease_expiry s.last_valid
    then force_release lease_timeout x (stop_stale c now w s)
    else stop_stale c now w s
