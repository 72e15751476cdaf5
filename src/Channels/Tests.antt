-- ===== src/Channels/Tests.antt =====
-- The theorems about the channels, on concrete messages.
use Prim.Native.String.{String}
use px4_dxp.Prelude.{◌≡◌, true, Option, none, some, ℤ, pos, negsuc}
use px4_dxp.Session.Json.{Number, nan, pos_inf, finite, Value, bool, num, dict, no_members, member}
use px4_dxp.Progress.{mark_tracking}
use px4_dxp.Channels.{ProgressPayload, progress_to_json, progress_from_json}
use px4_dxp.Channels.Codec.{carried, progress_roundtrip}

abbrev no_int : String → Option ℤ
no_int s = none

abbrev no_float : String → Option Number
no_float s = none

abbrev no_text : Value → String
no_text v = ""

abbrev marking : ProgressPayload
marking = record {
  phase = mark_tracking;
  segment_index = pos 4;
  point_index = negsuc 0;
  dist_to_next_boundary = nan;
  next_boundary = "MARK_END";
  speed = finite (pos 350_000);
  stopped = true;
  xtrack = finite (negsuc 11_999);
}

progress_roundtrip_example :
    progress_from_json no_int no_float no_text (some (progress_to_json marking))
    ≡ some (record marking {
      dist_to_next_boundary = carried nan marking.dist_to_next_boundary;
      speed = carried (finite (pos 0)) marking.speed;
      xtrack = carried nan marking.xtrack;
    })
progress_roundtrip_example = progress_roundtrip no_int no_float no_text marking

-- {"advance": true, "expect_index": Infinity}
abbrev endless : Value
endless = dict (member "advance" (bool true) (member "expect_index" (num pos_inf) no_members))
