-- ===== src/Placement/Flat.antt =====
-- Test data: whole numbers in place of floats, and a snapshot of the telemetry.
use px4_dxp.Prelude.{ℕ, ◌+◌, ◌-◌, ◌*◌, ◌/◌, true, false, some, pos, pos_part, ltb, leb, ◌==◌}
use px4_dxp.Placement.Telemetry.{Floats, Telemetry, Limits}

-- A plane instead of a sphere.
abbrev pub flat : Floats
flat = record {
  Num = ℕ;
  lit = λ m k. pos_part m;
  add = λ a b. a + b;
  sub = λ a b. (a - b) + (b - a);
  mul = λ a b. a * b;
  div = λ a b. a / b;
  neg = λ a. a;
  hypot = λ a b. a + b;
  sin = λ a. a;
  cos = λ a. 1;
  asin = λ a. a;
  acos = λ a. 0;
  atan2 = λ a b. a;
  radians = λ a. a;
  degrees = λ a. a;
  fabs = λ a. a;
  lt = ltb;
  le = leb;
  eq = λ a b. a == b;
  is_finite = λ a. true;
}

abbrev pub limits : Limits ℕ
limits = record {
  pose_stale = 500;
  global_position_stale = 500;
  gps_fix_stale = 500;
  max_skew = 100;
  consistency_max = 1;
  require_declared = true;
}

-- Two degrees north and five east of the origin.
abbrev pub here : Telemetry ℕ
here = record {
  connected = true;
  pose_received = true;
  global_position_received = true;
  gps_fix_received = true;
  ekf_origin_received = true;
  local_pose_age = some 20;
  global_position_age = some 30;
  gps_fix_age = some 40;
  pose_global_skew = some 10;
  pose_age = some 20;
  gps_fix = some (pos 6);
  pos_n = some 12_742_000;
  pos_e = some 31_855_000;
  lat = some 5;
  lon = some 7;
  ekf_origin_lat = some 3;
  ekf_origin_lon = some 2;
  rpp_state = some (pos 3);
  armed = some false;
  is_manual = true;
}
