-- ===== src/Session/Config.antt =====
-- src/spray_session_config.py: `parse_session_config`. What Python's `float` makes of
-- a text is the parameter `float_of`. The texts of errors are left out.
use Prim.Native.String.{String}
use text.Mathlib.Text.{◌==◌ as str_eq}
use px4_dxp.Prelude.{
  Bool, true, false, not, List, [], ◌∷◌, map, length, Option, none, some, ℤ, pos, negsuc,
  if◌then◌else◌, ◌==◌,
}
use px4_dxp.Session.Json.{
  Number, finite, Value, null, huge, bool, num, str, array, dict, no_elements, element, Members,
  no_members, member, of_list, to_list, get, get_or, is_null, Outcome, ok, schema_error,
  overflow_error, check, ◌>>=◌, ◌>>◌,
}

pub record DashConfig : Type 0 where
  pub on_distance : ℤ
  pub off_distance : ℤ
  pub start_on : Bool

pub record PointsModeConfig : Type 0 where
  pub coordinates : List (ℤ × ℤ)
  pub arrival_tolerance : ℤ
  pub heading_tolerance : Option ℤ
  pub arrival_settle : ℤ
  pub dwell : ℤ

pub data Mode : Type 0 where
  continuous dash point : Mode

pub record SpraySessionConfig : Type 0 where
  pub mode : Mode
  pub points : List (ℤ × ℤ)
  pub flags : List Bool
  pub dash : Option DashConfig
  pub points_mode : Option PointsModeConfig
  pub max_xtrack_error : Option ℤ

-- `SCHEMA_VERSION`, one.
abbrev pub schema_version : Number
schema_version = finite (pos 1_000_000)

-- `value != SCHEMA_VERSION`: in Python `True` equals 1.
abbrev pub is_schema_version : Value → Bool
is_schema_version (bool true) = true
is_schema_version (num (finite (pos n))) = n == 1_000_000
is_schema_version _ = false

abbrev pub mode_of : Value → Outcome Mode
mode_of (str s) =
    if str_eq s "continuous"
    then ok continuous
    else if str_eq s "dash"
    then ok dash
    else if str_eq s "point"
    then ok point
    else schema_error
mode_of _ = schema_error

-- `bool(f)`
abbrev pub truth : Value → Bool
truth null = false
truth (huge z) = true
truth (bool b) = b
truth (num (finite (pos n))) = not (n == 0)
truth (num _) = true
truth (str s) = not (str_eq s "")
truth (array no_elements) = false
truth (array (element v vs)) = true
truth (dict no_members) = false
truth (dict (member k v fs)) = true

abbrev pub start_state_of : Value → Outcome Bool
start_state_of (str s) =
    if str_eq s "on" then ok true else if str_eq s "off" then ok false else schema_error
start_state_of _ = schema_error

abbrev pub as_list : Value → Outcome (List Value)
as_list (array vs) = ok (to_list vs)
as_list _ = schema_error

abbrev pub as_dict : Value → Outcome Members
as_dict (dict fs) = ok fs
as_dict _ = schema_error

-- `raw[k]` behind the test that no required key is missing.
abbrev pub required : String → Members → Outcome Value
required k fs = elim (get k fs) [ none ↦ schema_error | some v ↦ ok v ]

abbrev pub is_positive : ℤ → Bool
is_positive (pos n) = not (n == 0)
is_positive (negsuc n) = false

abbrev pub is_non_negative : ℤ → Bool
is_non_negative (pos n) = true
is_non_negative (negsuc n) = false

module _ (float_of : String → Option Number) where
  -- The test of `math.isnan` and `math.isinf`.
  abbrev pub finite_number : Number → Outcome ℤ
  finite_number (finite z) = ok z
  finite_number _ = schema_error

  unfoldable pub finite_float : Value → Outcome ℤ
  finite_float (num x) = finite_number x
  finite_float (str s) = elim (float_of s) [ none ↦ schema_error | some x ↦ finite_number x ]
  finite_float (huge z) = overflow_error
  finite_float null = schema_error
  finite_float (bool b) = schema_error
  finite_float (array vs) = schema_error
  finite_float (dict fs) = schema_error

  abbrev pub coerce_point : Value → Outcome (ℤ × ℤ)
  coerce_point (array (element n (element e no_elements))) = do
    n' ← finite_float n
    e' ← finite_float e
    ok (n', e')
  coerce_point _ = schema_error

  unfoldable pub coerce_all : List Value → Outcome (List (ℤ × ℤ))
  coerce_all [] = ok []
  coerce_all (v ∷ vs) = do p ← coerce_point v; ps ← coerce_all vs; ok (p ∷ ps)

  unfoldable pub coerce_points_flags : Value → Value → Outcome (List (ℤ × ℤ) × List Bool)
  unfolding coerce_all
  coerce_points_flags points_raw flags_raw = do
    points ← as_list points_raw
    flags ← as_list flags_raw
    check (length points == length flags)
    ps ← coerce_all points
    ok (ps, map truth flags)

  unfoldable pub parse_dash : Value → Outcome DashConfig
  unfolding finite_float
  parse_dash raw = do
    d ← as_dict raw
    on_raw ← required "on_distance_m" d
    off_raw ← required "off_distance_m" d
    start_raw ← required "start_state" d
    on ← finite_float on_raw
    off ← finite_float off_raw
    check (is_positive on)
    check (is_positive off)
    start ← start_state_of start_raw
    ok (record { on_distance = on; off_distance = off; start_on = start })

  -- `None` or null, or a number that is not negative.
  abbrev pub heading_of : Value → Outcome (Option ℤ)
  heading_of null = ok none
  heading_of v = do z ← finite_float v; check (is_non_negative z); ok (some z)

  unfoldable pub parse_points_mode : Value → Outcome PointsModeConfig
  unfolding finite_float coerce_all
  parse_points_mode raw = do
    d ← as_dict raw
    coordinates_raw ← required "coordinates" d
    tolerance_raw ← required "arrival_tolerance_m" d
    settle_raw ← required "arrival_settle_s" d
    dwell_raw ← required "dwell_s" d
    items ← as_list coordinates_raw
    coordinates ← coerce_all items
    tolerance ← finite_float tolerance_raw
    check (is_non_negative tolerance)
    settle ← finite_float settle_raw
    check (is_non_negative settle)
    dwell ← finite_float dwell_raw
    check (is_non_negative dwell)
    heading ← heading_of (get_or "heading_tolerance_deg" null d)
    ok (record {
      coordinates = coordinates;
      arrival_tolerance = tolerance;
      heading_tolerance = heading;
      arrival_settle = settle;
      dwell = dwell;
    })

  -- The sub-configurations of a mode: the one that it needs, and no other.
  unfoldable pub sub_configs :
      Mode → Value → Value → Outcome (Option DashConfig × Option PointsModeConfig)
  unfolding parse_dash parse_points_mode
  sub_configs dash dash_raw points_raw = do
    check (not (is_null dash_raw))
    check (is_null points_raw)
    d ← parse_dash dash_raw
    ok (some d, none)
  sub_configs point dash_raw points_raw = do
    check (not (is_null points_raw))
    check (is_null dash_raw)
    p ← parse_points_mode points_raw
    ok (none, some p)
  sub_configs continuous dash_raw points_raw = do
    check (is_null dash_raw)
    check (is_null points_raw)
    ok (none, none)

  abbrev pub max_xtrack_of : Value → Outcome (Option ℤ)
  max_xtrack_of null = ok none
  max_xtrack_of v = do z ← finite_float v; check (is_positive z); ok (some z)

  unfoldable pub parse_session_config : Value → Outcome SpraySessionConfig
  unfolding coerce_points_flags sub_configs
  parse_session_config raw = do
    d ← as_dict raw
    check (is_schema_version (get_or "schema_version" null d))
    mode ← mode_of (get_or "mode" null d)
    pf ←
        coerce_points_flags (get_or "points" (array no_elements) d)
          (get_or "flags" (array no_elements) d)
    sub ← sub_configs mode (get_or "dash" null d) (get_or "points_mode" null d)
    xtrack ← max_xtrack_of (get_or "max_xtrack_error_m" null d)
    ok (record {
      mode = mode;
      points = pf.0;
      flags = pf.1;
      dash = sub.0;
      points_mode = sub.1;
      max_xtrack_error = xtrack;
    })

abbrev pub cleared_config : SpraySessionConfig
cleared_config = record {
  mode = continuous;
  points = [];
  flags = [];
  dash = none;
  points_mode = none;
  max_xtrack_error = none;
}

-- The points and the flags come as lists of values.
unfoldable pub continuous_config_from_path :
    (float_of : String → Option Number) → List Value → List Value → Outcome SpraySessionConfig
unfolding coerce_points_flags
continuous_config_from_path float_of points flags = do
  pf ← coerce_points_flags float_of (array (of_list points)) (array (of_list flags))
  ok (record cleared_config { points = pf.0; flags = pf.1 })
