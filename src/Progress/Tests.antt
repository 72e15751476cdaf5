-- ===== src/Progress/Tests.antt =====
-- Runs of the classifier, with each claim's theorem at one input.
use px4_dxp.Prelude.{ℕ, ◌≡◌, refl, true, false, some, List, [], ◌∷◌, pos, negsuc, arith}
use px4_dxp.Progress.{
  MissionPhase, transit, pre_ext, mark_tracking, dwell_hold, aft_ext, Boundary, ProgressMsg, Tick,
  segment_mark_flags, clamp_index, next_mark_boundary, classify,
}
use px4_dxp.Progress.Scan.{Answer, next_mark_boundary-Answer}
use px4_dxp.Progress.Phases.{Tracks, classify-Tracks}
use px4_dxp.Progress.Milestones.{events_from, listen_all, view, last_from, events_from-listen}

-- Five vertices of which the middle three spray.
abbrev tick : Tick
tick = record {
  has_path = true;
  path_done = false;
  spray_flags = false ∷ true ∷ true ∷ true ∷ false ∷ [];
  cum_s = 0 ∷ 100 ∷ 200 ∷ 300 ∷ 400 ∷ [];
  seg_idx = pos 0;
  along_s = 40;
  signed_xtrack = pos 0;
  speed = pos 5;
  stopped = false;
  approach_dist = 20;
  point_mode = false;
  point_active = false;
  point_dwelling = false;
  point_wait_operator = false;
  point_target_rank = negsuc 0;
  point_target_vertex = negsuc 0;
  all_points_done = false;
}

flags_of : segment_mark_flags tick.spray_flags ≡ false ∷ true ∷ true ∷ false ∷ []
unfolding segment_mark_flags
flags_of = refl

boundary_of :
    next_mark_boundary (false ∷ true ∷ true ∷ false ∷ []) tick.cum_s (pos 0) 40
    ≡ some (60, Boundary.mark_start)
unfolding next_mark_boundary
boundary_of = refl

next_mark_boundary-Answer_example :
    (dist : ℕ) × (name : Boundary) × (next_mark_boundary
        (false ∷ true ∷ true ∷ false ∷ [])
        tick.cum_s
        (pos 0)
        40
      ≡ some (dist, name))
    × Answer (false ∷ true ∷ true ∷ false ∷ []) tick.cum_s (clamp_index (pos 0) 4) 40 dist name
next_mark_boundary-Answer_example =
    next_mark_boundary-Answer (false ∷ true ∷ true ∷ false ∷ []) tick.cum_s (pos 0) 40 (omega arith)
      refl

classify-Tracks_example : (m : ProgressMsg) × (classify tick ≡ some m) × Tracks tick m
classify-Tracks_example = classify-Tracks tick refl refl refl (omega arith) refl

abbrev phases : List MissionPhase
phases = pre_ext ∷ mark_tracking ∷ aft_ext ∷ dwell_hold ∷ transit ∷ []

events_from-listen_example :
    listen_all (some (view MissionPhase.idle)) (events_from MissionPhase.idle phases)
    ≡ some (view (last_from MissionPhase.idle phases))
events_from-listen_example = events_from-listen MissionPhase.idle phases
