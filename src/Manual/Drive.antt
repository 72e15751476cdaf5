-- ===== src/Manual/Drive.antt =====
-- server/joystick_controller.py, `handle_command`: its checks in their order, and what a command that
-- passes them does.
use px4_dxp.Prelude.{
  ℕ, ◌+◌, Bool, true, false, not, ◌&&◌, Option, none, some, ℤ, leb_ℤ, ltb, opt_eq, if◌then◌else◌,
  pos, neg,
}
use px4_dxp.Manual.Arbiter.{
  Code, mode_unavailable, lease_inactive, not_owner, transport_unavailable, out_of_order, replay,
  nan_value, out_of_range, Result, ok, err, mark_joystick_active, mark_joystick_held,
}
use px4_dxp.Manual.Gateway.{Axis, finite, Gateway, clamp, encode, full, accept_command}
use px4_dxp.Manual.Control.{
  JoystickCommand, Settings, Station, is_live, Vehicle, deadman_released, active, held,
}

abbrev pub is_finite : Axis → Bool
is_finite (finite z) = true
is_finite _ = false

-- `-1.0 <= v <= 1.0`
abbrev pub in_unit : Axis → Bool
in_unit (finite z) = leb_ℤ (neg full) z && leb_ℤ z (pos full)
in_unit _ = false

-- A later value of an optional number: `last is None or last < x`, and with `<=`.
abbrev pub is_after : Option ℤ → ℤ → Bool
is_after none x = true
is_after (some y) x = not (leb_ℤ x y)

abbrev pub not_before : Option ℤ → ℤ → Bool
not_before none x = true
not_before (some y) x = leb_ℤ y x

-- `_validate_owner`, the state, `_check_transport_healthy`, `_check_manual_mode`,
-- `_validate_sequence` and `_validate_values`, in the order of `handle_command`.
unfoldable pub command_fault : Vehicle → ℕ → JoystickCommand → Station → Option Code
command_fault v sid cmd s =
    if not (opt_eq (some sid) s.owner_sid)
    then some not_owner
    else if not (opt_eq (some cmd.session_id) s.session_id)
    then some not_owner
    else if not (opt_eq (some cmd.lease_id) s.lease_id)
    then some not_owner
    else if not (is_live s.state)
    then some lease_inactive
    else if not v.healthy
    then some transport_unavailable
    else if not (v.node && v.manual_mode)
    then some mode_unavailable
    else if not (is_after s.last_seq cmd.sequence)
    then some out_of_order
    else if not (not_before s.last_client_mono cmd.client_mono)
    then some replay
    else if not (is_finite cmd.throttle && is_finite cmd.steering)
    then some nan_value
    else if not (in_unit cmd.throttle && in_unit cmd.steering)
    then some out_of_range
    else none

-- `_is_over_command_rate`
abbrev pub over_rate : Settings → ℕ → Option ℕ → Bool
over_rate c now none = false
over_rate c now (some t) = ltb now (t + c.min_interval)

-- `_clamp(v, -m, m)` of an axis that was checked to be finite.
abbrev pub clamp_axis : ℕ → Axis → ℤ
clamp_axis m (finite z) = clamp m z
clamp_axis m _ = pos 0

-- `gateway.accept_command`, which encodes the axes; it raises for none that are finite.
unfoldable pub accept : ℕ → ℤ → ℤ → Gateway → Gateway
accept now t z g = elim (encode (finite t) (finite z)) [
  | none ↦ g
  | some f ↦ accept_command now f g
]

pub record Reply : Type 0 where
  pub throttle : ℤ
  pub steering : ℤ
  pub coalesced : Bool

-- `throttle` and `steering` as they are sent: zero without the dead-man switch.
abbrev pub demand : ℕ → Bool → Axis → ℤ
demand m dead a = if dead then clamp_axis m a else pos 0

switch : JoystickCommand → Station → Station
switch cmd s =
    if cmd.deadman
    then record s {
      state = active;
      arbiter = mark_joystick_active (some cmd.session_id) (some cmd.lease_id) s.arbiter;
    }
    else record s { state = held; arbiter = mark_joystick_held s.arbiter }

note_rate : Settings → ℕ → Station → Station
note_rate c now s =
    if over_rate c now s.last_rate
    then record s { coalesced = s.coalesced + 1 }
    else record s { last_rate = some now }

unfoldable pub apply : Settings → ℕ → JoystickCommand → Station → Station
unfolding switch accept note_rate
apply c now cmd s =
    let t = demand c.max_throttle cmd.deadman cmd.throttle in
    let z = demand c.max_steering cmd.deadman cmd.steering in
    let s1 = note_rate c now (switch cmd s) in
    record s1 {
      gateway = accept now t z s1.gateway;
      last_seq = some cmd.sequence;
      last_client_mono = some cmd.client_mono;
      last_valid = some now;
      last_deadman = cmd.deadman;
      last_throttle = t;
      last_steering = z;
      stop_reason = if cmd.deadman then none else some deadman_released;
    }

unfoldable pub handled :
    Settings → ℕ → JoystickCommand → Option Code → Station → Station × Result Reply
unfolding apply
handled c now cmd (some e) s = (s, err e)
handled c now cmd none s = (
  apply c now cmd s,
  ok (record {
    throttle = demand c.max_throttle cmd.deadman cmd.throttle;
    steering = demand c.max_steering cmd.deadman cmd.steering;
    coalesced = over_rate c now s.last_rate;
  }),
)

unfoldable pub handle_command :
    Settings → Vehicle → ℕ → ℕ → JoystickCommand → Station → Station × Result Reply
unfolding handled command_fault
handle_command c v now sid cmd s = handled c now cmd (command_fault v sid cmd s) s
