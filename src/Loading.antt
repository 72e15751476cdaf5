-- ===== src/Loading.antt =====
-- server/mission_loading.py: the guards of loading a mission. Points are of any type; what the path
-- manager plans and previews are arguments, and both readings of a preview give the
-- same. `load_path_for_controller` is cut at its await: other calls may change the controller of
-- Offboard between `load_begin` and `load_end`, which ends in its `load_path`.
pub mod Checks
mod Tests
use Prim.Native.String.{String}
use px4_dxp.Prelude.{
  ℕ, zero, suc, Bool, true, false, Option, none, some, List, [], ◌∷◌, map, length, leb, ◌==◌,
  if◌then◌else◌,
}
use px4_dxp.Offboard.Controller.{local_ned, Controller, LoadRequest, Called, load_path}
use px4_dxp.Manual.Arbiter.{MissionState, loading, completed, aborted, error}

-- `LOAD_ALLOWED_STATES`
abbrev pub is_load_allowed : MissionState → Bool
is_load_allowed MissionState.idle = true
is_load_allowed completed = true
is_load_allowed aborted = true
is_load_allowed error = true
is_load_allowed _ = false

-- The waypoints of a preview, by the two flags that are read.
pub record Waypoint : Type 0 where
  pub spray : Bool
  pub must_hit : Bool

abbrev pub replicate : ℕ → Bool → List Bool
replicate zero b = []
replicate (suc n) b = b ∷ replicate n b

abbrev pub fitting : ℕ → Bool → List Bool → List Bool
fitting n default flags = if length flags == n then flags else replicate n default

-- `default` is SPRAY_DEFAULT_ON; a preview that raises is `none`.
unfoldable pub spray_flags_for_path : Bool → Option (List Waypoint) → ℕ → List Bool
spray_flags_for_path default none n = fitting n default (replicate n default)
spray_flags_for_path default (some ws) n = fitting n default (map Waypoint.spray ws)

unfoldable pub must_hit_for_path : Option (List Waypoint) → ℕ → Option (List Bool)
must_hit_for_path none n = none
must_hit_for_path (some ws) n = if length ws == n then some (map Waypoint.must_hit ws) else none

abbrev pub min_mission_points : ℕ
min_mission_points = 2

-- What is handed to the controller's `load_path`.
pub record Load (A : Type 0) : Type 0 where
  pub points : List A
  pub spray_flags : List Bool
  pub must_hit : Option (List Bool)

module _ {P : Type 0} where
  -- Up to the await: the state that is kept, and the controller; `none` is the MissionLoadConflict.
  unfoldable pub load_begin : Controller P → Option (MissionState × Controller P)
  load_begin c =
      if is_load_allowed c.state then some (c.state, record c { state = loading }) else none

  -- `validate_point_count`, then the flags of the preview; `none` is an exception.
  unfoldable pub checked : Bool → Option (List Waypoint) → List P → Option (Load P)
  unfolding spray_flags_for_path must_hit_for_path
  checked default preview points =
      if leb min_mission_points (length points)
      then some (record {
        points = points;
        spray_flags = spray_flags_for_path default preview (length points);
        must_hit = must_hit_for_path preview (length points);
      })
      else none

  -- The arguments of the controller's `load_path`; the rest are its defaults.
  abbrev pub request_of : String → Load P → LoadRequest P
  request_of name l = record {
    points = l.points;
    name = some name;
    spray_flags = some l.spray_flags;
    must_hit = l.must_hit;
    mode = local_ned;
    origin = none;
    is_staged = false;
  }

  -- What the path manager plans, when it has enough points.
  abbrev pub load_of : Bool → Option (List P) → Option (List Waypoint) → Option (Load P)
  load_of default none preview = none
  load_of default (some points) preview = checked default preview points

  -- Behind the await, on the controller that is found: the state that was kept is written back,
  -- and a path that was planned is loaded. The test of an origin is that of `load_path`.
  unfoldable pub load_end :
      (P → Bool)
      → String
      → Bool
      → Option (List P)
      → Option (List Waypoint)
      → MissionState
      → Controller P
      → Called P
  unfolding checked load_path
  load_end is_finite name default plan preview prior found =
      let back = record found { state = prior } in
      elim (load_of default plan preview) [
        | none ↦ record { controller = back; commands = []; is_ok = false }
        | some l ↦ load_path is_finite (request_of name l) back
      ]
