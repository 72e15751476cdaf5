-- ===== src/Session/Writer.antt =====
-- src/spray_session_config.py: `to_dict`.
use Prim.Native.String.{String}
use px4_dxp.Prelude.{map, Option, none, some, ℤ, if◌then◌else◌}
use px4_dxp.Session.Json.{
  finite, Value, null, bool, num, str, array, dict, no_elements, element, Members, no_members,
  member, of_list,
}
use px4_dxp.Session.Config.{
  DashConfig, PointsModeConfig, Mode, continuous, dash, point, SpraySessionConfig, schema_version,
}

abbrev pub mode_name : Mode → String
mode_name continuous = "continuous"
mode_name dash = "dash"
mode_name point = "point"

abbrev pub number : ℤ → Value
number z = num (finite z)

abbrev pub point_value : ℤ × ℤ → Value
point_value (n, e) = array (element (number n) (element (number e) no_elements))

abbrev pub optional : Option ℤ → Value
optional none = null
optional (some z) = number z

abbrev pub dash_value : Option DashConfig → Value
dash_value none = null
dash_value (some c) = dict (
    member "on_distance_m" (number c.on_distance) (
      member "off_distance_m" (number c.off_distance)
        (member "start_state" (str (if c.start_on then "on" else "off")) no_members)))

abbrev pub points_mode_value : Option PointsModeConfig → Value
points_mode_value none = null
points_mode_value (some c) = dict (
    member "coordinates" (array (of_list (map point_value c.coordinates))) (
      member "arrival_tolerance_m" (number c.arrival_tolerance) (
        member "heading_tolerance_deg" (optional c.heading_tolerance) (
          member "arrival_settle_s" (number c.arrival_settle)
            (member "dwell_s" (number c.dwell) no_members)))))

-- The key of the gate is left out when there is none.
abbrev pub xtrack_members : Option ℤ → Members
xtrack_members none = no_members
xtrack_members (some z) = member "max_xtrack_error_m" (number z) no_members

unfoldable pub to_dict : SpraySessionConfig → Value
to_dict c = dict (
    member "schema_version" (num schema_version) (
      member "mode" (str (mode_name c.mode)) (
        member "points" (array (of_list (map point_value c.points))) (
          member "flags" (array (of_list (map bool c.flags))) (
            member "dash" (dash_value c.dash) (
              member "points_mode" (points_mode_value c.points_mode)
                (xtrack_members c.max_xtrack_error)))))))
