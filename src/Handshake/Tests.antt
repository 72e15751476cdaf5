-- ===== src/Handshake/Tests.antt =====
-- The two nodes at the first point of a mission, after a message was lost.
use Prim.Native.String.{String}
use px4_dxp.Prelude.{ℕ, ◌≡◌, refl, true, false, Option, none, List, [], ◌∷◌, ℤ, pos, negsuc}
use px4_dxp.Placement.Flat.{flat}
use px4_dxp.Session.Json.{Number, Value}
use px4_dxp.Channels.{as_int}
use px4_dxp.PointHold.{Key, Params, Input, released, point_hold_tick, scan_target}
use px4_dxp.Handshake.{System, Event, completed, installed, ticked, step, run_from}
use px4_dxp.Handshake.Step.{completion-releases}

abbrev metres : ℕ → ℤ
metres n = pos n

abbrev at : ℕ → ℕ × ℕ → Input ℕ
at now p = record { now = now; position = p; trigger = 1; is_stopped = true }

abbrev no_int : String → Option ℤ
no_int s = none

abbrev no_float : String → Option Number
no_float s = none

abbrev no_text : Value → String
no_text v = ""

abbrev automatic : Params
automatic = record {
  hold_enabled = true;
  handshake_enabled = true;
  is_manual = false;
  hold_time = 10;
  hold_max = 0;
  manual_wait_timeout = 0;
}

abbrev started : System flat metres no_int no_float no_text
started = record {
  hold = record {
    path = [];
    must_hit_keys = [];
    rank_by_key = [];
    done_keys = [];
    active_key = none;
    start = none;
    done_index = negsuc 0;
    done_seq = negsuc 0;
    done_seq_at_arm = negsuc 0;
    spray_done = false;
    wait_start = none;
    advance_index = negsuc 0;
    advance_count = 0;
    advance_count_at_wait = 0;
  };
  spray = record {
    at_point_index = negsuc 0;
    at_point_seq = negsuc 0;
    point_done_seq = 0;
    progress = none;
    progress_time = 0;
  };
}

abbrev corner : Key
corner = (pos 3_000, pos 4_000)

abbrev history : List (Event flat metres no_int no_float no_text)
history =
    completed 6 true
    ∷ installed (corner ∷ []) ((0, 4) ∷ (3, 4) ∷ [])
    ∷ ticked (at 5 (3, 4))
    ∷ completed 0 false
    ∷ ticked (at 9 (3, 4))
    ∷ []

completion-releases_example :
    (point_hold_tick flat metres automatic
      (at 15 (3, 4))
      (step flat metres no_int no_float no_text automatic
        (completed 0 true)
        (run_from flat metres no_int no_float no_text automatic started history)).hold).1
    ≡ released corner
unfolding run_from scan_target as_int
completion-releases_example =
    completion-releases flat metres no_int no_float no_text automatic history started corner 0
      (at 15 (3, 4)) (refl, refl) refl refl refl refl refl refl refl refl
