-- ===== src/Placement/Telemetry.antt =====
-- Floats as an interface, and the telemetry dictionary that RosBridgeNode.get_state gives.
use px4_dxp.Prelude.{ℕ, ℤ, Bool, Option}

pub record Floats : Type 1 where
  pub Num : Type 0
  -- `lit m k` is the float nearest to m / 10 ^ k.
  pub lit : ℤ → ℕ → Num
  pub add : Num → Num → Num
  pub sub : Num → Num → Num
  pub mul : Num → Num → Num
  pub div : Num → Num → Num
  pub neg : Num → Num
  pub hypot : Num → Num → Num
  pub sin : Num → Num
  pub cos : Num → Num
  pub asin : Num → Num
  pub acos : Num → Num
  pub atan2 : Num → Num → Num
  pub radians : Num → Num
  pub degrees : Num → Num
  pub fabs : Num → Num
  pub lt : Num → Num → Bool
  pub le : Num → Num → Bool
  pub eq : Num → Num → Bool
  pub is_finite : Num → Bool

-- Codes of the path follower: -1 is STALE.
pub record Telemetry (Num : Type 0) : Type 0 where
  pub connected : Bool
  pub pose_received : Bool
  pub global_position_received : Bool
  pub gps_fix_received : Bool
  pub ekf_origin_received : Bool
  pub local_pose_age : Option Num
  pub global_position_age : Option Num
  pub gps_fix_age : Option Num
  pub pose_global_skew : Option Num
  pub pose_age : Option Num
  pub gps_fix : Option ℤ
  pub pos_n : Option Num
  pub pos_e : Option Num
  pub lat : Option Num
  pub lon : Option Num
  pub ekf_origin_lat : Option Num
  pub ekf_origin_lon : Option Num
  pub rpp_state : Option ℤ
  pub armed : Option Bool
  pub is_manual : Bool

-- The limits of config.py, some of them from the environment.
pub record Limits (Num : Type 0) : Type 0 where
  pub pose_stale : Num
  pub global_position_stale : Num
  pub gps_fix_stale : Num
  pub max_skew : Num
  pub consistency_max : Num
  pub require_declared : Bool
