-- ===== src/SprayStatus/Tests.antt =====
-- Statuses whose values are not finite.
use Prim.Native.String.{String}
use px4_dxp.Prelude.{ℕ, ◌≡◌, ◌⊎◌, refl, true, false, ◌||◌, Option, none, some, pos, ◌^◌}
use px4_dxp.Session.Json.{Number, nan, pos_inf, finite}
use px4_dxp.SprayStatus.{
  real_key, text_key, whole_key, absent, real, object, series, no_items, item, no_entries, entry,
  Entries, huge, SpraySessionStatus, StatusArguments, sanitize_entries, sanitize_mode_state_key,
  make_status,
}
use px4_dxp.SprayStatus.Publish.{is_huge, publishable, make_status-publishable}

abbrev no_float : String → Option Number
no_float s = none

abbrev no_value : ℕ → Option Number
no_value n = none

abbrev named : ℕ → String
named n = "object"

abbrev state : Entries
state = entry (real_key nan) (real pos_inf) (
    entry (text_key "nan") (series (item (real nan) (item (object 7) no_items)))
      (entry (whole_key (pos 3)) (real (finite (pos 5))) no_entries))

abbrev arguments : StatusArguments
arguments = record {
  schema_version = none;
  mode = "continuous";
  fsm_state = "OFF_CONFIRMED";
  spraying = false;
  desired = false;
  manual_active = false;
  safety_ok = true;
  safety_reason = "";
  distance_to_boundary = real pos_inf;
  gps_fix_ok = true;
  gps_fix_name = "RTK_FIXED";
  xtrack_error = real (finite (pos 12_000));
  mode_state = some state;
}

-- The key that is not a number falls together with the text of the same name.
sanitize-state :
    sanitize_entries no_float no_value named state no_entries
    ≡ entry
        (text_key "nan")
        (series (item absent (item (object 7) no_items)))
        (entry (whole_key (pos 3)) (real (finite (pos 5))) no_entries)
unfolding sanitize_entries sanitize_mode_state_key
sanitize-state = refl

-- An integer beyond the range of floats.
make_status-raises :
    make_status no_float no_value named (record arguments { xtrack_error = huge (pos (10 ^ 400)) })
    ≡ none
unfolding make_status
make_status-raises = refl

make_status-publishable_example :
    ((is_huge arguments.distance_to_boundary || is_huge arguments.xtrack_error ≡ true)
      × (make_status no_float no_value named arguments ≡ none))
    ⊎ ((is_huge arguments.distance_to_boundary || is_huge arguments.xtrack_error ≡ false)
        × ((s : SpraySessionStatus) × ((make_status no_float no_value named arguments ≡ some s)
              × (publishable s ≡ true))))
make_status-publishable_example = make_status-publishable no_float no_value named arguments
