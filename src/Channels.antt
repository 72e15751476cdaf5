-- ===== src/Channels.antt =====
-- src/mission_progress.py: the payloads of the channels between the path follower, the spray node
-- and the server, their writers and their lenient readers. JSON is that of Session.Json; the
-- integers of a message are within the range of floats. What `int` and `float` make of a text, and
-- `str` of a value that is not one, are parameters.
pub mod Codec
mod Tests
use Prim.Native.String.{String}
use px4_dxp.Prelude.{
  ℕ, suc, ◌+◌, ◌*◌, ◌/◌, Bool, true, false, Option, none, some, ℤ, pos, negsuc, neg, ◌==◌,
  if◌then◌else◌,
}
use px4_dxp.Session.Json.{
  Number, nan, pos_inf, neg_inf, finite, Value, null, huge, bool, num, str, array, dict, Members,
  no_members, member, get_or,
}
use px4_dxp.Session.Config.{truth}
use px4_dxp.Progress.{
  MissionPhase, idle, transit, pre_ext, approach_mark, mark_tracking, mark_end, aft_ext,
  approach_point, at_point, dwell_hold, wait_operator, reached_end,
}

pub record ProgressPayload : Type 0 where
  pub phase : MissionPhase
  pub segment_index : ℤ
  pub point_index : ℤ
  pub dist_to_next_boundary : Number
  pub next_boundary : String
  pub speed : Number
  pub stopped : Bool
  pub xtrack : Number

pub record MilestonePayload : Type 0 where
  pub event : String
  pub seq : ℤ
  pub index : ℤ
  pub stamp : ℤ

pub record PointDonePayload : Type 0 where
  pub point_index : ℤ
  pub seq : ℤ
  pub done : Bool
  pub reason : String

pub record AdvancePayload : Type 0 where
  pub advance : Bool
  pub expect_index : ℤ

-- `none` is the OverflowError of `int` on an infinity, or of `float` on a huge integer.
infixl 5 ◌>>=◌
abbrev pub ◌>>=◌ : {A B : Type 0} → Option A → (A → Option B) → Option B
none >>= f = none
some a >>= f = f a

-- An integer as a number of the grid, and `int` of a number of the grid.
abbrev pub scale : ℤ → ℤ
scale (pos n) = pos (n * 1_000_000)
scale (negsuc n) = negsuc (n * 1_000_000 + 999_999)

abbrev pub truncated : ℤ → ℤ
truncated (pos n) = pos (n / 1_000_000)
truncated (negsuc n) = neg (suc n / 1_000_000)

abbrev pub int_value : ℤ → Value
int_value z = num (finite (scale z))

-- `_num`
abbrev pub num_or_null : Number → Value
num_or_null (finite z) = num (finite z)
num_or_null _ = null

abbrev pub phase_code : MissionPhase → ℤ
phase_code idle = pos 0
phase_code transit = pos 1
phase_code pre_ext = pos 2
phase_code approach_mark = pos 3
phase_code mark_tracking = pos 4
phase_code mark_end = pos 5
phase_code aft_ext = pos 6
phase_code approach_point = pos 7
phase_code at_point = pos 8
phase_code dwell_hold = pos 9
phase_code wait_operator = pos 10
phase_code reached_end = pos 11

abbrev pub phase_name : MissionPhase → String
phase_name idle = "IDLE"
phase_name transit = "TRANSIT"
phase_name pre_ext = "PRE_EXT"
phase_name approach_mark = "APPROACH_MARK"
phase_name mark_tracking = "MARK_TRACKING"
phase_name mark_end = "MARK_END"
phase_name aft_ext = "AFT_EXT"
phase_name approach_point = "APPROACH_POINT"
phase_name at_point = "AT_POINT"
phase_name dwell_hold = "DWELL_HOLD"
phase_name wait_operator = "WAIT_OPERATOR"
phase_name reached_end = "REACHED_END"

-- `MissionPhase(n)`, and IDLE for its ValueError.
abbrev pub phase_of : ℤ → MissionPhase
phase_of (negsuc n) = idle
phase_of (pos n) =
    if n == 1
    then transit
    else if n == 2
    then pre_ext
    else if n == 3
    then approach_mark
    else if n == 4
    then mark_tracking
    else if n == 5
    then mark_end
    else if n == 6
    then aft_ext
    else if n == 7
    then approach_point
    else if n == 8
    then at_point
    else if n == 9
    then dwell_hold
    else if n == 10
    then wait_operator
    else if n == 11
    then reached_end
    else idle

-- The four `to_json`.
unfoldable pub progress_to_json : ProgressPayload → Value
progress_to_json m = dict (
    member "phase" (int_value (phase_code m.phase)) (
      member "phase_name" (str (phase_name m.phase)) (
        member "segment_index" (int_value m.segment_index) (
          member "point_index" (int_value m.point_index) (
            member "dist_to_next_boundary_m" (num_or_null m.dist_to_next_boundary) (
              member "next_boundary" (str m.next_boundary) (
                member "speed_mps" (num_or_null m.speed) (
                  member "stopped" (bool m.stopped)
                    (member "xtrack_m" (num_or_null m.xtrack) no_members)))))))))

unfoldable pub milestone_to_json : MilestonePayload → Value
milestone_to_json m = dict (
    member "event" (str m.event) (
      member "index" (int_value m.index)
        (member "seq" (int_value m.seq) (member "stamp_ns" (int_value m.stamp) no_members))))

unfoldable pub point_done_to_json : PointDonePayload → Value
point_done_to_json m = dict (
    member "point_index" (int_value m.point_index) (
      member "done" (bool m.done)
        (member "seq" (int_value m.seq) (member "reason" (str m.reason) no_members))))

unfoldable pub advance_to_json : AdvancePayload → Value
advance_to_json m = dict (
    member "advance" (bool m.advance) (member "expect_index" (int_value m.expect_index) no_members))

-- `_loads`: no members for a text that is not JSON, or not a dictionary.
abbrev pub loads : Option Value → Members
loads (some (dict fs)) = fs
loads _ = no_members

module _ (int_of : String → Option ℤ) (float_of : String → Option Number)
    (str_of : Value → String) where
  abbrev pub or_default : {A : Type 0} → A → Option A → Option A
  or_default d none = some d
  or_default d (some a) = some a

  unfoldable pub as_int : ℤ → Value → Option ℤ
  as_int d null = some d
  as_int d (huge z) = some z
  as_int d (bool true) = some (pos 1)
  as_int d (bool false) = some (pos 0)
  as_int d (num nan) = some d
  as_int d (num pos_inf) = none
  as_int d (num neg_inf) = none
  as_int d (num (finite z)) = some (truncated z)
  as_int d (str s) = or_default d (int_of s)
  as_int d (array vs) = some d
  as_int d (dict fs) = some d

  unfoldable pub as_float : Number → Value → Option Number
  as_float d null = some d
  as_float d (huge z) = none
  as_float d (bool true) = some (finite (pos 1_000_000))
  as_float d (bool false) = some (finite (pos 0))
  as_float d (num x) = some x
  as_float d (str s) = or_default d (float_of s)
  as_float d (array vs) = some d
  as_float d (dict fs) = some d

  -- A value that `int` refuses gives IDLE, as the code of IDLE does.
  abbrev pub as_phase : Value → Option MissionPhase
  as_phase v = do n ← as_int (pos 0) v; some (phase_of n)

  -- `str(x)`
  abbrev pub text : Value → String
  text (str s) = s
  text v = str_of v

  -- The four `from_json`.
  unfoldable pub progress_from_json : Option Value → Option ProgressPayload
  progress_from_json raw = do
    let d = loads raw
    phase ← as_phase (get_or "phase" null d)
    segment ← as_int (negsuc 0) (get_or "segment_index" null d)
    point ← as_int (negsuc 0) (get_or "point_index" null d)
    dist ← as_float nan (get_or "dist_to_next_boundary_m" null d)
    speed ← as_float (finite (pos 0)) (get_or "speed_mps" null d)
    xtrack ← as_float nan (get_or "xtrack_m" null d)
    some (record {
      phase = phase;
      segment_index = segment;
      point_index = point;
      dist_to_next_boundary = dist;
      next_boundary = text (get_or "next_boundary" (str "") d);
      speed = speed;
      stopped = truth (get_or "stopped" (bool false) d);
      xtrack = xtrack;
    })

  unfoldable pub milestone_from_json : Option Value → Option MilestonePayload
  milestone_from_json raw = do
    let d = loads raw
    seq ← as_int (negsuc 0) (get_or "seq" null d)
    index ← as_int (negsuc 0) (get_or "index" null d)
    stamp ← as_int (pos 0) (get_or "stamp_ns" null d)
    some (record {
      event = text (get_or "event" (str "") d);
      seq = seq;
      index = index;
      stamp = stamp;
    })

  unfoldable pub point_done_from_json : Option Value → Option PointDonePayload
  point_done_from_json raw = do
    let d = loads raw
    point ← as_int (negsuc 0) (get_or "point_index" null d)
    seq ← as_int (negsuc 0) (get_or "seq" null d)
    some (record {
      point_index = point;
      seq = seq;
      done = truth (get_or "done" (bool false) d);
      reason = text (get_or "reason" (str "") d);
    })

  unfoldable pub advance_from_json : Option Value → Option AdvancePayload
  advance_from_json raw = do
    let d = loads raw
    expect ← as_int (negsuc 0) (get_or "expect_index" null d)
    some (record { advance = truth (get_or "advance" (bool false) d); expect_index = expect })
