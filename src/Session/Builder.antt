-- ===== src/Session/Builder.antt =====
-- server/spray_session_builder.py: the configuration that the server sends for the mode that the
-- operator chose. The numbers are finite (the json.dumps of the server refuses others); `lower` is
-- Python's `str.lower`.
use Prim.Native.String.{String}
use text.Mathlib.Text.{◌==◌ as str_eq}
use px4_dxp.Prelude.{
  Bool, true, not, ◌&&◌, List, [], map, Option, none, some, ℤ, pos, negsuc, if◌then◌else◌, ◌==◌,
}
use px4_dxp.Session.Json.{
  Value, null, num, str, array, dict, no_elements, no_members, member, of_list,
}
use px4_dxp.Session.Writer.{number, point_value, optional, xtrack_members}
use px4_dxp.Session.Config.{schema_version}

-- The keyword arguments. Python's `None` of the coordinates is the empty list.
pub record Request : Type 0 where
  pub mode : Option String
  pub dash_on : Option ℤ
  pub dash_off : Option ℤ
  pub dash_start : String
  pub coordinates : List (ℤ × ℤ)
  pub arrival_tolerance : ℤ
  pub arrival_settle : ℤ
  pub dwell : ℤ
  pub heading_tolerance : Option ℤ
  pub max_xtrack : Option ℤ

-- `mode or "continuous"`
abbrev pub mode_or_default : Option String → String
mode_or_default none = "continuous"
mode_or_default (some s) = if str_eq s "" then "continuous" else s

abbrev pub is_nonzero : ℤ → Bool
is_nonzero (pos n) = not (n == 0)
is_nonzero (negsuc n) = true

-- Both distances, when each is given and is not zero.
abbrev pub both_set : Option ℤ → Option ℤ → Option (ℤ × ℤ)
both_set (some a) (some b) = if is_nonzero a && is_nonzero b then some (a, b) else none
both_set _ _ = none

abbrev pub envelope : String → Value → Value → Option ℤ → Value
envelope mode dash_part points_part xtrack = dict (
    member "schema_version" (num schema_version) (
      member "mode" (str mode) (
        member "points" (array no_elements) (
          member "flags" (array no_elements)
            (member "dash" dash_part (member "points_mode" points_part (xtrack_members xtrack)))))))

abbrev pub dash_part : String → ℤ → ℤ → Value
dash_part start on off = dict (
    member "on_distance_m" (number on) (
      member "off_distance_m" (number off)
        (member "start_state" (str (if str_eq start "off" then "off" else "on")) no_members)))

abbrev pub points_part : Request → Value
points_part r = dict (
    member "coordinates" (array (of_list (map point_value r.coordinates))) (
      member "arrival_tolerance_m" (number r.arrival_tolerance) (
        member "heading_tolerance_deg" (optional r.heading_tolerance) (
          member "arrival_settle_s" (number r.arrival_settle)
            (member "dwell_s" (number r.dwell) no_members)))))

-- The branches behind the test of dash mode.
abbrev pub build_rest : String → Request → Value
build_rest m r =
    if str_eq m "point"
    then envelope "point" null (points_part r) r.max_xtrack
    else envelope "continuous" null null r.max_xtrack

unfoldable pub build_session_config : (String → String) → Request → Value
build_session_config lower r =
    let m = lower (mode_or_default r.mode) in
    if str_eq m "dash"
    then elim (both_set r.dash_on r.dash_off) [
      | none ↦ build_rest m r
      | some (on, off) ↦ envelope "dash" (dash_part r.dash_start on off) null r.max_xtrack
    ]
    else build_rest m r

-- What is sent when a mission is cleared.
abbrev pub default_request : Request
default_request = record {
  mode = some "continuous";
  dash_on = none;
  dash_off = none;
  dash_start = "on";
  coordinates = [];
  arrival_tolerance = pos 50_000;
  arrival_settle = pos 200_000;
  dwell = pos 1_000_000;
  heading_tolerance = none;
  max_xtrack = none;
}

unfoldable pub cleared_payload : (String → String) → Value
unfolding build_session_config
cleared_payload lower = build_session_config lower default_request
