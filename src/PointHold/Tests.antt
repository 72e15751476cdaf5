-- ===== src/PointHold/Tests.antt =====
-- A mission of two must-hit points on a plane of whole numbers.
use px4_dxp.Prelude.{ℕ, ◌≡◌, refl, true, false, none, some, List, [], ◌∷◌, ℤ, pos, negsuc}
use px4_dxp.Placement.Flat.{flat}
use px4_dxp.Channels.{PointDonePayload}
use px4_dxp.PointHold.{
  Key, Params, Hold, Input, Event, point_done, ticked, install_mission, run_from, scan_target,
}
use px4_dxp.PointHold.Once.{Held, run-holds_once}
use px4_dxp.PointHold.Proof.{run-waits}
use mathlib.Core.List.{reverse}

abbrev metres : ℕ → ℤ
metres n = pos n

abbrev first : Key
first = (pos 3_000, pos 4_000)

abbrev second : Key
second = (pos 9_000, pos 4_000)

abbrev run : List (ℕ × ℕ)
run = (0, 4) ∷ (3, 4) ∷ (6, 4) ∷ (9, 4) ∷ (3, 4) ∷ []

abbrev fixed_timer : Params
fixed_timer = record {
  hold_enabled = true;
  handshake_enabled = false;
  is_manual = false;
  hold_time = 10;
  hold_max = 0;
  manual_wait_timeout = 0;
}

abbrev fresh : Hold ℕ
fresh = record {
  path = [];
  must_hit_keys = [];
  rank_by_key = [];
  done_keys = [];
  active_key = none;
  start = none;
  done_index = negsuc 0;
  done_seq = negsuc 0;
  done_seq_at_arm = negsuc 0;
  spray_done = false;
  wait_start = none;
  advance_index = negsuc 0;
  advance_count = 0;
  advance_count_at_wait = 0;
}

abbrev at : ℕ → ℕ × ℕ → Input ℕ
at now p = record { now = now; position = p; trigger = 1; is_stopped = true }

-- The rover passes the first point twice.
abbrev ride : List (Event flat metres)
ride =
    ticked (at 5 (3, 4))
    ∷ ticked (at 15 (3, 4))
    ∷ ticked (at 20 (9, 4))
    ∷ ticked (at 30 (9, 4))
    ∷ ticked (at 40 (3, 4))
    ∷ []

run-holds_once_example :
    let t =
      run_from flat metres fixed_timer
        (install_mission flat metres (first ∷ second ∷ []) run fresh)
        ride in
    Held (first ∷ second ∷ []) (reverse t.1) × (t.0.done_keys ≡ reverse t.1)
run-holds_once_example = run-holds_once flat metres fixed_timer (first ∷ second ∷ []) run fresh ride

ride_releases :
    (run_from flat metres fixed_timer
      (install_mission flat metres (first ∷ second ∷ []) run fresh)
      ride).1
    ≡ first ∷ second ∷ []
unfolding run_from install_mission
ride_releases = refl

-- The first point is being held; the spray node published its fifth proof before.
abbrev holding : Hold ℕ
holding = record fresh {
  path = run;
  must_hit_keys = first ∷ second ∷ [];
  rank_by_key = (first, 0) ∷ (second, 1) ∷ [];
  active_key = some first;
  start = some 100;
  done_index = pos 7;
  done_seq = pos 5;
  done_seq_at_arm = pos 5;
}

abbrev handshake : Params
handshake = record fixed_timer { handshake_enabled = true }

-- The proof of a spray node that was started again.
abbrev restarted_proof : PointDonePayload
restarted_proof = record {
  point_index = pos 0;
  seq = pos 1;
  done = true;
  reason = "dwell_complete";
}

abbrev wait : List (Event flat metres)
wait =
    ticked (at 200 (3, 4)) ∷ point_done restarted_proof ∷ ticked (at 1_000_000_000_000 (3, 4)) ∷ []

run-waits_example :
    ((run_from flat metres handshake holding wait).1 ≡ [])
    × ((run_from flat metres handshake holding wait).0.active_key ≡ some first)
unfolding scan_target
run-waits_example =
    run-waits flat metres handshake first 100 holding wait refl refl refl refl refl
      ((refl, refl), (refl, ((refl, refl), tt)))
