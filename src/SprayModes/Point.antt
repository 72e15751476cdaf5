-- ===== src/SprayModes/Point.antt =====
-- src/spray_modes.py, `PointMeter`: the dwell machine of the point mode. Times are whole ticks of
-- the caller's monotonic clock; `now - t > d` is written `t + d < now`, and so for the others.
pub mod Loop
pub mod Invariant
pub mod Arrival
pub mod Accounts
pub mod Rounds
mod Tests
pub use Loop.{
  PointPhase, transit, arriving, holding, dwelling, off_wait, finished, Meter, Limits, Tick, Pass,
  Round, enter, elapsed, past, or_now, wants_spray,
}
unfoldable pub use Loop.{start, body, rounds}
use px4_dxp.Prelude.{
  ℤ, pos_part, ℕ, zero, suc, ◌-◌, Bool, true, false, not, ◌&&◌, Option, none, some, List, [], ◌∷◌,
  length, get_elem?, if◌then◌else◌,
}
use px4_dxp.SprayModes.Floats.{Floats}

pub record PointUpdate : Type 0 where
  pub geometry_desired : Bool
  pub phase : PointPhase
  pub target_index : ℕ
  pub exempt_pivot : Bool
  pub done : Bool
  pub skipped_index : Option ℕ
  pub completed_index : Option ℕ

module _ (F : Floats) where
  open F use {Num, origin, pi, two_pi, add, sub, mod_by, greater, hypot, atan2, degrees, fabs, le}

  pub record Params : Type 0 where
    pub coordinates : List (Num × Num)
    pub arrival_tolerance : Num
    pub heading_tolerance : Option Num
    pub max_speed : Num
    pub arrival_settle : ℕ
    pub dwell : ℕ
    pub timeout : ℕ

  pub record Pose : Type 0 where
    pub pose_n : Num
    pub pose_e : Num
    pub yaw_ned : Num
    pub speed : Num
    pub now : ℕ
    pub off_confirmed : Bool
    pub require_arrival_gate : Option Bool

  abbrev pub limits : Params → Limits
  limits p = record {
    num_points = length p.coordinates;
    arrival_settle = p.arrival_settle;
    dwell = p.dwell;
    timeout = p.timeout;
  }

  distance_to : Pose → Num × Num → Num
  distance_to x (tn, te) = hypot (sub x.pose_n tn) (sub x.pose_e te)

  abbrev wrap : Num → Num
  wrap a = sub (mod_by (add a pi) two_pi) pi

  -- The bearing from the point before to the point aimed at; no point before is no gate.
  aligned : Num → Num → Option (Num × Num) → Option (Num × Num) → Bool
  aligned tol yaw (some (pn, pe)) (some (tn, te)) =
      le (fabs (degrees (wrap (sub yaw (atan2 (sub te pe) (sub tn pn)))))) tol
  aligned tol yaw _ _ = true

  heading_ok : Params → Num → ℕ → Bool
  unfolding aligned
  heading_ok p yaw zero = true
  heading_ok p yaw (suc i) = elim p.heading_tolerance [
    | none ↦ true
    | some tol ↦ aligned tol yaw (get_elem? p.coordinates i) (get_elem? p.coordinates (suc i))
  ]

  -- Whether the pose is at the point of an index, by the handshake where there is one. An index
  -- past the end is an IndexError in the source; the invariant shows that it does not come up.
  near : Params → Pose → ℕ → Bool
  unfolding distance_to
  near p x i = elim (get_elem? p.coordinates i) [
    | none ↦ false
    | some c ↦ le (distance_to x c) p.arrival_tolerance
  ]

  unfoldable pub arrived : Params → Pose → ℕ → Bool
  unfolding near heading_ok
  arrived p x i = elim x.require_arrival_gate [
    | none ↦ near p x i && (le x.speed p.max_speed && heading_ok p x.yaw_ned i)
    | some gate ↦ gate
  ]

  abbrev pub tick_of : Params → Pose → Tick
  tick_of p x = record { now = x.now; off_confirmed = x.off_confirmed; arrive = arrived p x }

  report : Params → Pose → Pass → PointUpdate
  unfolding near
  report p x l = record {
    geometry_desired = wants_spray l.meter.phase;
    phase = l.meter.phase;
    target_index = l.meter.target_index;
    exempt_pivot = wants_spray l.meter.phase && (not l.meter.done && near p x l.meter.target_index);
    done = l.meter.done;
    skipped_index = l.skipped;
    completed_index = l.completed;
  }

  stay_done : Meter → PointUpdate
  stay_done m = record {
    geometry_desired = false;
    phase = finished;
    target_index = m.target_index;
    exempt_pivot = false;
    done = true;
    skipped_index = none;
    completed_index = none;
  }

  unfoldable pub pass_of : Params → Pose → Meter → Pass
  pass_of p x m = rounds 8 (limits p) (tick_of p x) (enter m)

  unfoldable pub update : Params → Pose → Meter → Meter × PointUpdate
  unfolding pass_of report stay_done
  update p x m =
      if m.done then (m, stay_done m) else ((pass_of p x m).meter, report p x (pass_of p x m))

  -- `__init__`: a tolerance that is not positive is refused, and durations are cut at zero.
  unfoldable pub create :
      List (Num × Num) → Num → ℤ → ℤ → Option Num → Num → ℤ → Option (Params × Meter)
  create coords tol settle dwell heading max_speed timeout =
      if le tol origin
      then none
      else some (
        record {
          coordinates = coords;
          arrival_tolerance = tol;
          heading_tolerance = heading;
          max_speed = greater origin max_speed;
          arrival_settle = pos_part settle;
          dwell = pos_part dwell;
          timeout = pos_part timeout;
        },
        start (length coords),
      )
