-- ===== src/SprayNode/Calls.antt =====
-- src/spray_controller_node.py: the callbacks and timers of the spray node, with the commands that
-- they send. What the geometry decides behind the gates is an argument of a tick.
use px4_dxp.Prelude.{
  ℕ, zero, suc, ◌+◌, Bool, true, false, not, ◌&&◌, ◌||◌, Option, none, some, List, [], ◌∷◌, ◌++◌,
  ltb, leb, ◌==◌, if◌then◌else◌,
}
use Prim.Native.Nat.{max}
use px4_dxp.SprayFsm.{Inputs, Config, Fsm, Step, tick, on_ack, commanded}
use px4_dxp.SprayNode.Gates.{
  Params, Node, pose_is_fresh, velocity_is_fresh, auto_safety_status, manual_active,
  safety_allows_on, fsm_safety_ok, effective_desired, active_heartbeat_forces_off,
}

-- The two clocks: of the node, and `time.monotonic`.
pub record Clock : Type 0 where
  pub now : ℕ
  pub mono : ℕ

pub record Decision : Type 0 where
  pub desired : Bool
  pub is_safe : Bool
  pub exempt_pivot : Option Bool

-- The node after a call, and whether each command that it sent is an ON.
abbrev pub Sent : Type 0
Sent = Node × List Bool

-- `_dispatch_command`: without the service a command fails at once, and what the state machine
-- asks for then is dispatched in its turn. The fuel counts these turns.
unfoldable pub dispatch : ℕ → Config → ℕ → Bool → Step → Fsm × List Bool
unfolding on_ack
dispatch fuel c now ready (f, none) = (f, [])
dispatch zero c now ready (f, some cmd) = (f, [])
dispatch (suc fuel) c now ready (f, some cmd) =
    let rest = dispatch fuel c now ready (on_ack c cmd.seq false now f) in
    if ready then (f, cmd.on ∷ []) else rest

abbrev pub turns : ℕ
turns = 3

unfoldable pub dispatch_command : Params → ℕ → Step → Node → Sent
unfolding dispatch
dispatch_command c now s n =
    let r = dispatch turns c.fsm_config now n.service_ready s in (record n { fsm = r.0 }, r.1)

-- `_drive_fsm_tick`
abbrev pub inputs_of : Params → Node → Inputs
inputs_of c n = record {
  desired = effective_desired n;
  safety_ok = fsm_safety_ok c n;
  enabled = c.spray_enabled;
}

unfoldable pub drive_fsm_tick : Params → ℕ → Node → Sent
unfolding dispatch_command
drive_fsm_tick c now n = dispatch_command c now (tick c.fsm_config (inputs_of c n) now n.fsm) n

-- `_apply_debounce`
abbrev pub is_candidate : Bool → Option Bool → Bool
is_candidate b none = false
is_candidate b (some a) = if a then b else not b

abbrev pub counted : Node → Node
counted n =
    if is_candidate n.desired_raw n.candidate
    then record n { candidate_count = suc n.candidate_count }
    else record n { candidate = some n.desired_raw; candidate_count = 1 }

unfoldable pub debounced : Params → Node → Node
debounced c n =
    let m = counted n in
    if leb (max 1 c.debounce_samples) m.candidate_count
    then record m { desired_debounced = m.desired_raw }
    else m

-- `_set_auto_desired`
unfoldable pub set_auto_desired : Params → ℕ → Bool → Node → Sent
unfolding debounced drive_fsm_tick
set_auto_desired c now desired n =
    drive_fsm_tick c now (debounced c (record n { desired_raw = desired }))

-- `_state_cb`
unfoldable pub state_cb : Params → ℕ → Bool → Bool → Node → Sent
unfolding drive_fsm_tick safety_allows_on
state_cb c now armed is_offboard n =
    let m = record n { armed = armed; is_offboard = is_offboard } in
    drive_fsm_tick c now (
      if safety_allows_on c n && not (safety_allows_on c m)
      then record m { manual_deadline = none }
      else m)

-- `_active_cb`
abbrev pub false_since : ℕ → Bool → Option ℕ → Option ℕ
false_since now true o = none
false_since now false none = some now
false_since now false (some t) = some t

unfoldable pub active_cb : Params → Clock → Bool → Node → Sent
unfolding set_auto_desired
active_cb c t raw n =
    let m = record n {
      last_active_time = some t.now;
      active_false_since = false_since t.now raw n.active_false_since;
    } in
    if not c.use_distance_aware && c.allow_legacy then set_auto_desired c t.mono raw m else (m, [])

-- `_manual_cb`; half a second is the shortest override.
unfoldable pub manual_cb : Params → Clock → Bool → Node → Sent
unfolding drive_fsm_tick
manual_cb c t on n = drive_fsm_tick c t.mono (record n {
  manual_deadline =
      if on && (c.spray_enabled && n.armed)
      then some (t.now + max 500_000_000 c.manual_timeout)
      else none;
})

-- `_gps_cb`: an accuracy of zero was not reported.
unfoldable pub gps_cb : ℕ → ℕ → ℕ → Node → Node
gps_cb now fix accuracy n = record n {
  fix_type = fix;
  accuracy = if ltb 0 accuracy then some accuracy else none;
  gps_time = some now;
}

-- `_segment_debug_cb`
unfoldable pub segment_debug_cb : ℕ → ℕ → Node → Node
segment_debug_cb now state n = record n {
  segment_state = some (state, now);
  tracking_seen = n.tracking_seen || ((state == 1) || (state == 2));
}

abbrev pub noted_exempt : Option Bool → Bool → Bool
noted_exempt none b = b
noted_exempt (some e) b = e

-- `_distance_aware_tick`
unfoldable pub distance_aware_tick : Params → Clock → (Bool → Decision) → Node → Sent
unfolding auto_safety_status set_auto_desired active_heartbeat_forces_off
distance_aware_tick c t decide n =
    let s = auto_safety_status c t.now (pose_is_fresh c t.now n) (velocity_is_fresh c t.now n) n in
    let d = decide s.1 in
    let m = record s.0 {
      decision_safe = some d.is_safe;
      point_exempt = noted_exempt d.exempt_pivot s.0.point_exempt;
    } in
    set_auto_desired c t.mono (d.desired && not (active_heartbeat_forces_off c t.now m)) m

-- `_legacy_active_watchdog_tick`
unfoldable pub legacy_active_watchdog_tick : Params → Clock → Node → Sent
unfolding drive_fsm_tick
legacy_active_watchdog_tick c t n = drive_fsm_tick c t.mono (
    if (elim n.last_active_time [ none ↦ false | some a ↦ ltb (a + c.active_timeout) t.now ])
      && not (manual_active n)
    then record n {
      desired_raw = false;
      desired_debounced = false;
      candidate = some false;
      candidate_count = 0;
    }
    else n)

-- `_watchdog_tick`: an override that has expired is driven once by itself.
unfoldable pub expire_manual : Params → Clock → Node → Sent
unfolding drive_fsm_tick
expire_manual c t n =
    if (elim n.manual_deadline [ none ↦ false | some d ↦ leb d t.now ])
    then drive_fsm_tick c t.mono (record n { manual_deadline = none })
    else (n, [])

unfoldable pub mode_tick : Params → Clock → (Bool → Decision) → Node → Sent
unfolding distance_aware_tick legacy_active_watchdog_tick set_auto_desired
mode_tick c t decide n =
    if c.use_distance_aware
    then distance_aware_tick c t decide n
    else if c.allow_legacy
    then legacy_active_watchdog_tick c t n
    else set_auto_desired c t.mono false n

-- `_command_done`; a command that raised has failed.
unfoldable pub command_done : Params → ℕ → ℕ → Bool → Node → Sent
unfolding dispatch_command
command_done c now seq success n =
    if seq == n.fsm.cmd_seq
    then dispatch_command c now (on_ack c.fsm_config seq success now n.fsm) n
    else (n, [])

-- `_reassert_tick`
unfoldable pub reassert_tick : Params → ℕ → Node → Sent
unfolding drive_fsm_tick
reassert_tick c now n =
    let s = drive_fsm_tick c now n in
    if effective_desired s.0 && (commanded s.0.fsm && (safety_allows_on c s.0 && s.0.service_ready))
    then (s.0, s.1 ++ true ∷ [])
    else s

-- `_service_probe_tick`
unfoldable pub service_probe_tick : Params → ℕ → Bool → Node → Sent
unfolding drive_fsm_tick
service_probe_tick c now is_there n =
    if not n.service_ready && is_there
    then drive_fsm_tick c now (record n { service_ready = true })
    else (n, [])
