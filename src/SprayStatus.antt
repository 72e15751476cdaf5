-- ===== src/SprayStatus.antt =====
-- src/spray_status.py: the status of the spray session, and how what is not a finite number is kept
-- out of it. A value is what Python may hold: an integer beyond the range of floats is `huge`, and
-- an `object` is a value of any other type, known by its id; `float` of a text or of an object and
-- `str` of an object are parameters. Keys that are left as they are stay distinct in a dictionary,
-- so that only texts are compared.
pub mod Publish
mod Tests
use Prim.Native.String.{String}
use text.Mathlib.Text.{◌==◌}
use px4_dxp.Prelude.{ℕ, Bool, true, false, Option, none, some, ℤ, pos, if◌then◌else◌}
use px4_dxp.Session.Json.{Number, nan, pos_inf, neg_inf, finite}
use px4_dxp.Channels.{scale}

pub data Key : Type 0 where
  none_key : Key
  flag_key : Bool → Key
  whole_key : ℤ → Key
  real_key : Number → Key
  text_key : String → Key
  object_key : ℕ → Key

mutual
  pub data Datum : Type 0 where
    absent : Datum
    flag : Bool → Datum
    whole : ℤ → Datum
    huge : ℤ → Datum
    real : Number → Datum
    words : String → Datum
    object : ℕ → Datum
    series : Items → Datum
    tuple : Items → Datum
    table : Entries → Datum

  pub data Items : Type 0 where
    no_items : Items
    item : Datum → Items → Items

  pub data Entries : Type 0 where
    no_entries : Entries
    entry : Key → Datum → Entries → Entries

pub record SpraySessionStatus : Type 0 where
  pub schema_version : ℕ
  pub mode : String
  pub fsm_state : String
  pub spraying : Bool
  pub desired : Bool
  pub manual_active : Bool
  pub safety_ok : Bool
  pub safety_reason : String
  pub distance_to_boundary : Option Number
  pub gps_fix_ok : Bool
  pub gps_fix_name : String
  pub xtrack_error : Option Number
  pub mode_state : Entries

-- The arguments of `make_status`; `none` is one that is not given.
pub record StatusArguments : Type 0 where
  pub schema_version : Option ℕ
  pub mode : String
  pub fsm_state : String
  pub spraying : Bool
  pub desired : Bool
  pub manual_active : Bool
  pub safety_ok : Bool
  pub safety_reason : String
  pub distance_to_boundary : Datum
  pub gps_fix_ok : Bool
  pub gps_fix_name : String
  pub xtrack_error : Datum
  pub mode_state : Option Entries

abbrev pub finite_only : Number → Option Number
finite_only (finite z) = some (finite z)
finite_only _ = none

abbrev pub same_text : Key → Key → Bool
same_text (text_key a) (text_key b) = a == b
same_text _ _ = false

-- An entry of a dictionary under construction: an equal key keeps its place and takes the value.
abbrev pub put : Key → Datum → Entries → Entries
put k v no_entries = entry k v no_entries
put k v (entry j u es) =
    let rest = put k v es in if same_text k j then entry j v es else entry j u rest

-- The value of a float that is finite, or None.
abbrev pub real_or_absent : Number → Datum
real_or_absent (finite z) = real (finite z)
real_or_absent _ = absent

abbrev pub given_state : Option Entries → Entries
given_state none = no_entries
given_state (some es) = es

abbrev pub given_version : Option ℕ → ℕ
given_version none = 1
given_version (some n) = n

module _ (float_of : String → Option Number) (float_of_object : ℕ → Option Number)
    (str_of_object : ℕ → String) where
  -- `none` is the OverflowError of `float` on a huge integer; the inner option is the result.
  unfoldable pub sanitize_optional_float : Datum → Option (Option Number)
  sanitize_optional_float absent = some none
  sanitize_optional_float (flag true) = some (some (finite (pos 1_000_000)))
  sanitize_optional_float (flag false) = some (some (finite (pos 0)))
  sanitize_optional_float (whole z) = some (some (finite (scale z)))
  sanitize_optional_float (huge z) = none
  sanitize_optional_float (real x) = some (finite_only x)
  sanitize_optional_float (words s) =
      some (elim (float_of s) [ none ↦ none | some x ↦ finite_only x ])
  sanitize_optional_float (object n) =
      some (elim (float_of_object n) [ none ↦ none | some x ↦ finite_only x ])
  sanitize_optional_float (series xs) = some none
  sanitize_optional_float (tuple xs) = some none
  sanitize_optional_float (table es) = some none

  unfoldable pub sanitize_mode_state_key : Key → Key
  sanitize_mode_state_key none_key = none_key
  sanitize_mode_state_key (flag_key b) = flag_key b
  sanitize_mode_state_key (whole_key z) = whole_key z
  sanitize_mode_state_key (real_key nan) = text_key "nan"
  sanitize_mode_state_key (real_key pos_inf) = text_key "inf"
  sanitize_mode_state_key (real_key neg_inf) = text_key "-inf"
  sanitize_mode_state_key (real_key (finite z)) = real_key (finite z)
  sanitize_mode_state_key (text_key s) = text_key s
  sanitize_mode_state_key (object_key n) = text_key (str_of_object n)

  -- `_sanitize_mode_state`, on a value, on the items of a list and on a dictionary. The
  -- dictionary is built in its order.
  unfoldable mutual
    pub sanitize_mode_state : Datum → Datum
    sanitize_mode_state absent = absent
    sanitize_mode_state (flag b) = flag b
    sanitize_mode_state (whole z) = whole z
    sanitize_mode_state (huge z) = huge z
    sanitize_mode_state (real x) = real_or_absent x
    sanitize_mode_state (words s) = words s
    sanitize_mode_state (object n) = object n
    sanitize_mode_state (series xs) = series (sanitize_items xs)
    sanitize_mode_state (tuple xs) = tuple (sanitize_items xs)
    sanitize_mode_state (table es) = table (sanitize_entries es no_entries)

    pub sanitize_items : Items → Items
    sanitize_items no_items = no_items
    sanitize_items (item v xs) = item (sanitize_mode_state v) (sanitize_items xs)

    pub sanitize_entries : Entries → Entries → Entries
    sanitize_entries no_entries done = done
    sanitize_entries (entry k v es) done =
        sanitize_entries es (put (sanitize_mode_state_key k) (sanitize_mode_state v) done)

  -- The fields of the status, with the two numbers sanitized.
  unfoldable pub status_of : StatusArguments → Option Number → Option Number → SpraySessionStatus
  unfolding sanitize_mode_state
  status_of a d x = record {
    schema_version = given_version a.schema_version;
    mode = a.mode;
    fsm_state = a.fsm_state;
    spraying = a.spraying;
    desired = a.desired;
    manual_active = a.manual_active;
    safety_ok = a.safety_ok;
    safety_reason = a.safety_reason;
    distance_to_boundary = d;
    gps_fix_ok = a.gps_fix_ok;
    gps_fix_name = a.gps_fix_name;
    xtrack_error = x;
    mode_state = sanitize_entries (given_state a.mode_state) no_entries;
  }

  -- `none` is an OverflowError.
  unfoldable pub make_status : StatusArguments → Option SpraySessionStatus
  unfolding sanitize_optional_float status_of
  make_status a = elim (sanitize_optional_float a.distance_to_boundary) [
    | none ↦ none
    | some d ↦ elim (sanitize_optional_float a.xtrack_error) [
      | none ↦ none
      | some x ↦ some (status_of a d x)
    ]
  ]
