-- ===== src/Session/Tests.antt =====
-- The theorems about session configurations, applied to concrete ones.
use Prim.Native.String.{String}
use px4_dxp.Prelude.{◌^◌, ◌≡◌, refl, true, false, [], ◌∷◌, Option, none, some, pos, negsuc}
use px4_dxp.Session.Json.{
  Number, Value, null, huge, bool, str, array, dict, no_elements, element, no_members, member, ok,
  overflow_error,
}
use px4_dxp.Session.Writer.{number, to_dict}
use px4_dxp.Session.Config.{dash, SpraySessionConfig, parse_session_config, cleared_config}
use px4_dxp.Session.Post.{HasHuge}
use px4_dxp.Session.Roundtrip.{IsValid, parse_session_config-to_dict}
use px4_dxp.Session.Checks.{parse_session_config-IsValid, parse_session_config-overflow}
use px4_dxp.Session.Builder.{Request, build_session_config, default_request}
use px4_dxp.Session.Accepted.{RequestIsValid, asked_for, build_session_config-accepted}

abbrev no_floats : String → Option Number
no_floats s = none

abbrev dashes : SpraySessionConfig
dashes = record {
  mode = dash;
  points = (pos 0, pos 0) ∷ (pos 3_000_000, negsuc 999_999) ∷ [];
  flags = true ∷ false ∷ [];
  dash =
      some (record { on_distance = pos 2_000_000; off_distance = pos 500_000; start_on = false });
  points_mode = none;
  max_xtrack_error = some (pos 40_000);
}

dashes-IsValid : IsValid dashes
dashes-IsValid = record { aligned = refl; sub = record { on = refl; off = refl }; xtrack = refl }

parse_session_config-to_dict_example : parse_session_config no_floats (to_dict dashes) ≡ ok dashes
parse_session_config-to_dict_example = parse_session_config-to_dict no_floats dashes dashes-IsValid

-- Text, an extra key and flags that are numbers, as an operator's bench tool may send them.
abbrev loose : Value
loose = dict (
    member "mode" (str "continuous") (
      member "operator" (str "x") (
        member "points"
          (array (
            element (array (element (number (pos 1)) (element (number (pos 2)) no_elements)))
              no_elements))
          (member "flags" (array (element (number (pos 7)) no_elements))
            (member "schema_version" (bool true) (member "max_xtrack_error_m" null no_members))))))

abbrev read_loose : SpraySessionConfig
read_loose = record cleared_config { points = (pos 1, pos 2) ∷ []; flags = true ∷ [] }

parse-loose : parse_session_config no_floats loose ≡ ok read_loose
unfolding parse_session_config
parse-loose = refl

parse_session_config-IsValid_example : IsValid read_loose
parse_session_config-IsValid_example =
    parse_session_config-IsValid no_floats loose read_loose parse-loose

-- {"schema_version": 1, "mode": "continuous", "max_xtrack_error_m": 10 ** 400}
abbrev too_big : Value
too_big = dict (
    member "schema_version" (number (pos 1_000_000)) (
      member "mode" (str "continuous")
        (member "max_xtrack_error_m" (huge (pos (10 ^ 400))) no_members)))

parse-too_big : parse_session_config no_floats too_big ≡ overflow_error
unfolding parse_session_config
parse-too_big = refl

parse_session_config-overflow_example : HasHuge too_big
parse_session_config-overflow_example =
    parse_session_config-overflow no_floats too_big parse-too_big

abbrev dash_request : Request
dash_request = record default_request {
  mode = some "dash";
  dash_on = some (pos 2_000_000);
  dash_off = some (pos 1_000_000);
  dash_start = "off";
}

dash_request-IsValid : RequestIsValid dash_request
dash_request-IsValid = record {
  on = refl;
  off = refl;
  tolerance = refl;
  settle = refl;
  dwell = refl;
  heading = tt;
  xtrack = tt;
}

build_session_config-accepted_example :
    parse_session_config no_floats (build_session_config (λ s. s) dash_request)
    ≡ ok (asked_for (λ s. s) dash_request)
build_session_config-accepted_example =
    build_session_config-accepted dash_request dash_request-IsValid (λ s. s) no_floats
