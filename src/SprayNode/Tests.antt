-- ===== src/SprayNode/Tests.antt =====
-- An armed vehicle with a confirmed OFF, and a disarmed one that lost its fix.
use px4_dxp.Prelude.{arith, ◌≡◌, refl, true, false, none, some}
use px4_dxp.SprayFsm.{Config, Fsm, init, off_confirmed}
use px4_dxp.SprayNode.Gates.{Params, Node, auto_safety_status, gps_gate}
use px4_dxp.SprayNode.Calls.{Clock, gps_cb}
use px4_dxp.SprayNode.Events.{manual_comes, handle}
use px4_dxp.SprayNode.Sends.{has_grounds, handle_needs_grounds}
use px4_dxp.SprayNode.Dropout.{dropout_forgotten}

abbrev params : Params
params = record {
  spray_enabled = true;
  require_offboard = true;
  use_distance_aware = true;
  allow_legacy = false;
  debounce_samples = 2;
  manual_timeout = 5_000;
  active_timeout = 500;
  pose_timeout = 300;
  velocity_timeout = 300;
  require_rtk_fix = true;
  min_fix_type = 6;
  max_accuracy = 30;
  gps_timeout = 1_000;
  recover_hold = 2_000;
  off_during_pivot = true;
  segment_timeout = 1_000;
  fsm_config = record { backoff_base = 100; backoff_max = 5_000; ack_timeout = 1_000 };
}

abbrev node : Node
node = record {
  armed = true;
  is_offboard = true;
  manual_deadline = none;
  desired_raw = false;
  desired_debounced = false;
  candidate = none;
  candidate_count = 0;
  last_active_time = none;
  active_false_since = none;
  pose_time = none;
  velocity_time = none;
  segment_state = none;
  tracking_seen = false;
  fix_type = 6;
  accuracy = none;
  gps_time = some 900;
  gps_recover_since = some 100;
  is_point_mode = false;
  has_point_meter = false;
  has_path_model = true;
  point_exempt = false;
  decision_safe = none;
  service_ready = true;
  fsm = record {
    state = off_confirmed;
    cmd_seq = 1;
    pending_since = none;
    is_disabled = false;
    recovery_attempt = 0;
    recovery_deadline = none;
    prev_enabled = true;
    prev_safety_ok = true;
  };
}

abbrev start : Clock
start = record { now = 1_000; mono = 7_000 }

handle_needs_grounds_example :
    has_grounds params (handle params start (manual_comes true) node).0 ≡ true
unfolding handle px4_dxp.SprayFsm.tick px4_dxp.SprayNode.Gates.fsm_safety_ok
handle_needs_grounds_example = handle_needs_grounds params start (manual_comes true) node refl

-- The fix is lost at 3000 and back at 3100, with a recovery time of 2000.
dropout_forgotten_example :
    (gps_gate params 3_100
      (record (gps_cb 3_100 6 0
        (auto_safety_status params 3_000 true true
          (gps_cb 3_000 0 0 (record node { armed = false }))).0) { armed = true })).1
    ≡ true
dropout_forgotten_example =
    dropout_forgotten params (record node { armed = false }) 100 3_000 3_100 6 true true refl refl
      refl (omega arith) (omega arith)
