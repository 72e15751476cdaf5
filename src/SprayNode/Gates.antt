-- ===== src/SprayNode/Gates.antt =====
-- src/spray_controller_node.py: the attributes that the gates read, and the gates. Times are
-- nanoseconds of the node's clock, a reported accuracy is in millimetres, reasons are left out.
use px4_dxp.Prelude.{
  ℕ, ◌+◌, Bool, true, false, not, ◌&&◌, ◌||◌, Option, none, some, ltb, leb, ◌==◌, if◌then◌else◌,
}
use px4_dxp.SprayFsm.{Config, Fsm}

pub record Params : Type 0 where
  pub spray_enabled : Bool
  pub require_offboard : Bool
  pub use_distance_aware : Bool
  pub allow_legacy : Bool
  pub debounce_samples : ℕ
  pub manual_timeout : ℕ
  pub active_timeout : ℕ
  pub pose_timeout : ℕ
  pub velocity_timeout : ℕ
  pub require_rtk_fix : Bool
  pub min_fix_type : ℕ
  pub max_accuracy : ℕ
  pub gps_timeout : ℕ
  pub recover_hold : ℕ
  pub off_during_pivot : Bool
  pub segment_timeout : ℕ
  pub fsm_config : Config

pub record Node : Type 0 where
  pub armed : Bool
  pub is_offboard : Bool
  pub manual_deadline : Option ℕ
  pub desired_raw : Bool
  pub desired_debounced : Bool
  pub candidate : Option Bool
  pub candidate_count : ℕ
  pub last_active_time : Option ℕ
  pub active_false_since : Option ℕ
  pub pose_time : Option ℕ
  pub velocity_time : Option ℕ
  -- The state of the RPP and when it came.
  pub segment_state : Option (ℕ × ℕ)
  pub tracking_seen : Bool
  pub fix_type : ℕ
  pub accuracy : Option ℕ
  pub gps_time : Option ℕ
  pub gps_recover_since : Option ℕ
  pub is_point_mode : Bool
  pub has_point_meter : Bool
  pub has_path_model : Bool
  -- `exempt_pivot` of the last update of the point meter, if there is one.
  pub point_exempt : Bool
  -- `safety_ok` of the last decision.
  pub decision_safe : Option Bool
  pub service_ready : Bool
  pub fsm : Fsm

-- `age <= timeout` of a time that may not be there.
abbrev pub is_fresh : ℕ → ℕ → Option ℕ → Bool
is_fresh now timeout none = false
is_fresh now timeout (some t) = leb now (t + timeout)

-- `_pose_is_fresh` and `_velocity_is_fresh`
abbrev pub pose_is_fresh : Params → ℕ → Node → Bool
pose_is_fresh c now n = is_fresh now c.pose_timeout n.pose_time

abbrev pub velocity_is_fresh : Params → ℕ → Node → Bool
velocity_is_fresh c now n = is_fresh now c.velocity_timeout n.velocity_time

abbrev pub is_accurate : ℕ → Option ℕ → Bool
is_accurate limit none = true
is_accurate limit (some a) = not (ltb 0 limit && ltb limit a)

-- `_gps_health`: fresh, and fit for spraying.
unfoldable pub gps_health : Params → ℕ → Node → Bool × Bool
gps_health c now n =
    if not (is_fresh now c.gps_timeout n.gps_time)
    then (false, false)
    else (true, leb c.min_fix_type n.fix_type && is_accurate c.max_accuracy n.accuracy)

abbrev pub recovering_since : ℕ → Option ℕ → ℕ
recovering_since now none = now
recovering_since now (some t) = t

-- `_gps_gate`
unfoldable pub gps_gate : Params → ℕ → Node → Node × Bool
unfolding gps_health
gps_gate c now n =
    let h = gps_health c now n in
    let since = recovering_since now n.gps_recover_since in
    if not c.require_rtk_fix
    then (n, true)
    else if not (h.0 && h.1)
    then (record n { gps_recover_since = none }, false)
    else (record n { gps_recover_since = some since }, leb (since + c.recover_hold) now)

abbrev pub corner_align : ℕ
corner_align = 3

-- `_pivot_is_active`: a state that is too old is forgotten.
unfoldable pub pivot_is_active : Params → ℕ → Node → Node × Bool
pivot_is_active c now n = elim n.segment_state [
  | none ↦ (n, false)
  | some s ↦
      if not c.off_during_pivot
      then (n, false)
      else if not (leb now (s.1 + c.segment_timeout))
      then (record n { segment_state = none }, false)
      else (n, s.0 == corner_align)
]

-- The gates of `_auto_safety_status` in front of the one of the GPS.
abbrev pub is_ready : Params → Bool → Bool → Node → Bool
is_ready c pose_fresh velocity_fresh n =
    n.armed
    && ((not c.require_offboard || n.is_offboard)
        && ((if n.is_point_mode then n.has_point_meter else n.has_path_model)
            && (pose_fresh && velocity_fresh)))

abbrev pub behind_pivot : Node × Bool → Node × Bool
behind_pivot r = (r.0, not r.1 || (r.0.is_point_mode && r.0.point_exempt))

abbrev pub behind_gps : Params → ℕ → Node × Bool → Node × Bool
behind_gps c now r =
    if not r.1
    then (r.0, false)
    else if not r.0.is_point_mode && not r.0.tracking_seen
    then (r.0, false)
    else behind_pivot (pivot_is_active c now r.0)

-- `_auto_safety_status`
unfoldable pub auto_safety_status : Params → ℕ → Bool → Bool → Node → Node × Bool
unfolding gps_gate pivot_is_active
auto_safety_status c now pose_fresh velocity_fresh n =
    if not (is_ready c pose_fresh velocity_fresh n)
    then (n, false)
    else behind_gps c now (gps_gate c now n)

-- `_safety_allows_on`; the manual override is active exactly while it has a deadline.
abbrev pub manual_active : Node → Bool
manual_active n = elim n.manual_deadline [ none ↦ false | some t ↦ true ]

unfoldable pub safety_allows_on : Params → Node → Bool
safety_allows_on c n =
    c.spray_enabled && (n.armed && (manual_active n || (not c.require_offboard || n.is_offboard)))

abbrev pub decided : Option Bool → Bool
decided none = false
decided (some b) = b

-- `_fsm_safety_ok`
unfoldable pub fsm_safety_ok : Params → Node → Bool
fsm_safety_ok c n =
    n.armed
    && (manual_active n
        || (if c.use_distance_aware
            then decided n.decision_safe
            else not c.require_offboard || n.is_offboard))

-- `_effective_desired`
abbrev pub effective_desired : Node → Bool
effective_desired n = if manual_active n then true else n.desired_debounced

-- `_active_heartbeat_forces_off`
abbrev pub has_exceeded : ℕ → ℕ → Option ℕ → Bool
has_exceeded now timeout none = false
has_exceeded now timeout (some t) = ltb (t + timeout) now

unfoldable pub active_heartbeat_forces_off : Params → ℕ → Node → Bool
active_heartbeat_forces_off c now n = elim n.last_active_time [
  | none ↦ false
  | some t ↦
      ltb (t + c.active_timeout) now || has_exceeded now c.active_timeout n.active_false_since
]
