-- ===== src/Progress.antt =====
-- src/progress_classifier.py and the phases, events and progress message of
-- src/mission_progress.py. Lengths along the path are whole length units, so that `max(0, x - y)`
-- is the subtraction of the natural numbers; speed and cross-track error are only passed on. A NaN
-- distance is `none`; a function that may raise IndexError returns `none` for it.
pub mod Scan
pub mod Phases
pub mod Milestones
mod Tests
use px4_dxp.Prelude.{
  ℕ, zero, suc, ◌-◌, Bool, true, false, not, ◌&&◌, ◌||◌, Option, none, some, List, [], ◌∷◌, ◌++◌, ℤ,
  pos, negsuc, pos_part, ltb, leb, length, get_elem?, if◌then◌else◌, drop, is_zero,
}
use Prim.Native.Nat.{min}

pub data MissionPhase : Type 0 where
  idle transit pre_ext approach_mark mark_tracking mark_end aft_ext : MissionPhase
  approach_point at_point dwell_hold wait_operator reached_end : MissionPhase

-- `MilestoneEvent`
pub data Milestone : Type 0 where
  mark_start mark_stop pre_start aft_stop at_point dwell_done_rpp reached_end : Milestone

-- The names that `next_boundary` takes.
pub data Boundary : Type 0 where
  blank mark_start mark_end reached_end at_point : Boundary

pub record ProgressMsg : Type 0 where
  pub phase : MissionPhase
  pub segment_index : ℤ
  pub point_index : ℤ
  pub dist_to_next_boundary : Option ℕ
  pub next_boundary : Boundary
  pub speed : ℤ
  pub stopped : Bool
  pub xtrack : Option ℤ

-- A message without a boundary or a point.
abbrev pub blank_msg : ProgressMsg
blank_msg = record {
  phase = MissionPhase.idle;
  segment_index = negsuc 0;
  point_index = negsuc 0;
  dist_to_next_boundary = none;
  next_boundary = blank;
  speed = pos 0;
  stopped = false;
  xtrack = none;
}

unfoldable pub segment_mark_flags : List Bool → List Bool
segment_mark_flags [] = []
segment_mark_flags (a ∷ []) = []
segment_mark_flags (a ∷ b ∷ flags) = (a && b) ∷ segment_mark_flags (b ∷ flags)

-- `a != b` for booleans.
abbrev pub differs : Bool → Bool → Bool
differs true b = not b
differs false b = b

-- The loop of `next_mark_boundary` from index `j` on.
unfoldable pub scan : Bool → ℕ → List Bool → Option (ℕ × Bool)
scan cur j [] = none
scan cur j (m ∷ marks) =
    let rest = scan cur (suc j) marks in if differs m cur then some (j, m) else rest

-- `max(0, min(seg_idx, n - 1))` for a list that is not empty.
abbrev pub clamp_index : ℤ → ℕ → ℕ
clamp_index i n = min (pos_part i) (n - 1)

-- `max(0.0, cum_s[j] - along_s)`
abbrev pub ahead : List ℕ → ℕ → ℕ → Option ℕ
ahead cum_s j along_s = elim (get_elem? cum_s j) [ none ↦ none | some c ↦ some (c - along_s) ]

abbrev pub named : Boundary → Option ℕ → Option (ℕ × Boundary)
named b none = none
named b (some d) = some (d, b)

-- What the loop's result makes of the boundary; without a transition it is `cum_s[-1]`.
abbrev pub boundary_at : List ℕ → ℕ → Option (ℕ × Bool) → Option (ℕ × Boundary)
boundary_at cum_s along_s (some (j, true)) = named mark_start (ahead cum_s j along_s)
boundary_at cum_s along_s (some (j, false)) = named mark_end (ahead cum_s j along_s)
boundary_at cum_s along_s none = named reached_end (ahead cum_s (length cum_s - 1) along_s)

-- The scan of a list that is not empty, at an index inside it.
unfoldable pub boundary_from : List Bool → List ℕ → ℕ → ℕ → Option (ℕ × Boundary)
unfolding scan
boundary_from seg_mark cum_s i along_s = elim (drop i seg_mark) [
  | [] ↦ none
  | cur ∷ marks ↦ boundary_at cum_s along_s (scan cur (suc i) marks)
]

unfoldable pub next_mark_boundary : List Bool → List ℕ → ℤ → ℕ → Option (ℕ × Boundary)
unfolding boundary_from
next_mark_boundary seg_mark cum_s seg_idx along_s =
    if is_zero (length seg_mark)
    then some (0, reached_end)
    else boundary_from seg_mark cum_s (clamp_index seg_idx (length seg_mark)) along_s

-- `any(seg_mark)` over what is left of the list.
abbrev pub any_mark : List Bool → Bool
any_mark [] = false
any_mark (m ∷ marks) = m || any_mark marks

unfoldable pub mark_ahead : List Bool → ℕ → Bool
mark_ahead seg_mark i = any_mark (drop (suc i) seg_mark)

-- `seg_mark[i]`, in range.
abbrev pub mark_at : List Bool → ℕ → Bool
mark_at seg_mark i = elim (get_elem? seg_mark i) [ none ↦ false | some m ↦ m ]

-- `seg_idx > 0 and seg_mark[seg_idx - 1]`
abbrev pub mark_behind : List Bool → ℕ → Bool
mark_behind seg_mark zero = false
mark_behind seg_mark (suc i) = mark_at seg_mark i

abbrev pub is_mark_start : Boundary → Bool
is_mark_start mark_start = true
is_mark_start _ = false

abbrev pub is_mark_end : Boundary → Bool
is_mark_end mark_end = true
is_mark_end _ = false

-- The phase of a tick on a path with spray flags.
unfoldable pub track_phase : List Bool → ℕ → ℕ → Boundary → ℕ → MissionPhase
unfolding mark_ahead
track_phase seg_mark i dist boundary approach_dist =
    if mark_at seg_mark i
    then (if is_mark_end boundary && leb dist approach_dist
        then MissionPhase.mark_end
        else mark_tracking)
    else if is_mark_start boundary && leb dist approach_dist
    then approach_mark
    else if mark_behind seg_mark i
    then aft_ext
    else if mark_ahead seg_mark i
    then pre_ext
    else transit

-- The arguments of `classify`.
pub record Tick : Type 0 where
  pub has_path : Bool
  pub path_done : Bool
  pub spray_flags : List Bool
  pub cum_s : List ℕ
  pub seg_idx : ℤ
  pub along_s : ℕ
  pub signed_xtrack : ℤ
  pub speed : ℤ
  pub stopped : Bool
  pub approach_dist : ℕ
  pub point_mode : Bool
  pub point_active : Bool
  pub point_dwelling : Bool
  pub point_wait_operator : Bool
  pub point_target_rank : ℤ
  pub point_target_vertex : ℤ
  pub all_points_done : Bool

-- The fields that every message of a path takes from the tick.
abbrev pub message : Tick → MissionPhase → ℤ → ProgressMsg
message t phase seg_idx = record blank_msg {
  phase = phase;
  segment_index = seg_idx;
  speed = t.speed;
  stopped = t.stopped;
  xtrack = some t.signed_xtrack;
}

-- The distance to the vertex of the target, zero when the index is out of range.
abbrev pub point_dist : List ℕ → ℕ → ℤ → ℕ
point_dist cum_s along_s (negsuc v) = 0
point_dist cum_s along_s (pos v) = elim (get_elem? cum_s v) [ none ↦ 0 | some c ↦ c - along_s ]

unfoldable pub classify_point : Tick → ProgressMsg
classify_point t =
    if t.all_points_done
    then message t transit t.seg_idx
    else record (message t
        (if t.point_active && t.point_wait_operator
          then wait_operator
          else if t.point_active && t.point_dwelling
          then dwell_hold
          else approach_point)
        t.seg_idx) {
          point_index = t.point_target_rank;
          dist_to_next_boundary = some (point_dist t.cum_s t.along_s t.point_target_vertex);
          next_boundary = Boundary.at_point;
        }

abbrev pub tracked : Tick → List Bool → ℕ → Option (ℕ × Boundary) → Option ProgressMsg
tracked t seg_mark i none = none
tracked t seg_mark i (some (dist, boundary)) =
    some (record (message t (track_phase seg_mark i dist boundary t.approach_dist) (pos i)) {
      dist_to_next_boundary = some dist;
      next_boundary = boundary;
    })

unfoldable pub classify_track : Tick → List Bool → Option ProgressMsg
unfolding next_mark_boundary track_phase
classify_track t seg_mark =
    let i = clamp_index t.seg_idx (length seg_mark) in
    if is_zero (length seg_mark)
    then some (message t transit t.seg_idx)
    else tracked t seg_mark i (next_mark_boundary seg_mark t.cum_s (pos i) t.along_s)

unfoldable pub classify : Tick → Option ProgressMsg
unfolding classify_point classify_track segment_mark_flags
classify t =
    if not t.has_path
    then some blank_msg
    else if t.path_done
    then some (record (message t MissionPhase.reached_end t.seg_idx) {
      dist_to_next_boundary = some 0;
      next_boundary = Boundary.reached_end;
    })
    else if t.point_mode
    then some (classify_point t)
    else classify_track t (segment_mark_flags t.spray_flags)

-- `_MARK_PHASES`
abbrev pub is_mark_phase : MissionPhase → Bool
is_mark_phase mark_tracking = true
is_mark_phase MissionPhase.mark_end = true
is_mark_phase _ = false

abbrev pub is_pre_ext : MissionPhase → Bool
is_pre_ext pre_ext = true
is_pre_ext _ = false

abbrev pub is_aft_ext : MissionPhase → Bool
is_aft_ext aft_ext = true
is_aft_ext _ = false

abbrev pub is_dwell_hold : MissionPhase → Bool
is_dwell_hold dwell_hold = true
is_dwell_hold _ = false

abbrev pub is_reached_end : MissionPhase → Bool
is_reached_end MissionPhase.reached_end = true
is_reached_end _ = false

-- `events.append(e)` under a test.
abbrev pub when : Bool → Milestone → List Milestone
when true e = e ∷ []
when false e = []

unfoldable pub milestones_for : MissionPhase → MissionPhase → List Milestone
milestones_for prev new =
    when (is_mark_phase new && not (is_mark_phase prev)) Milestone.mark_start
    ++ (when (is_mark_phase prev && not (is_mark_phase new)) mark_stop
        ++ (when (is_pre_ext new && not (is_pre_ext prev)) pre_start
            ++ (when (is_aft_ext prev && not (is_aft_ext new)) aft_stop
                ++ (when (is_dwell_hold new && not (is_dwell_hold prev)) Milestone.at_point
                    ++ (when (is_dwell_hold prev && not (is_dwell_hold new)) dwell_done_rpp
                        ++ when (is_reached_end new && not (is_reached_end prev))
                            Milestone.reached_end)))))
