-- ===== src/Handshake.antt =====
-- src/spray_controller_node.py: the side of the spray node in the point handshake, and the two nodes
-- together. The RPP node is PointHold; a completion goes to it as JSON, and may be lost.
pub mod Step
mod Tests
use Prim.Native.String.{String}
use text.Mathlib.Text.{◌==◌}
use px4_dxp.Prelude.{
  ℕ, suc, ◌+◌, Bool, true, false, not, ◌&&◌, ◌||◌, Option, none, some, List, [], ◌∷◌, ℤ, pos,
  negsuc, leb_ℤ, leb, if◌then◌else◌,
}
use px4_dxp.Placement.Telemetry.{Floats}
use px4_dxp.Session.Json.{Number}
use px4_dxp.Session.Json
use px4_dxp.Progress.{MissionPhase, at_point, dwell_hold}
use px4_dxp.Channels.{
  ProgressPayload, MilestonePayload, PointDonePayload, AdvancePayload, point_done_to_json,
  point_done_from_json,
}
use px4_dxp.PointHold.{
  Key, eq_ℤ, Params, Hold, Input, Outcome, tracking, point_done_cb, advance_cb, apply_run,
  install_mission, point_hold_tick,
}

-- The attributes of the spray node; `progress_time` is when the last progress came.
pub record Spray : Type 0 where
  pub at_point_index : ℤ
  pub at_point_seq : ℤ
  pub point_done_seq : ℕ
  pub progress : Option ProgressPayload
  pub progress_time : ℕ

pub record Gate : Type 0 where
  pub consumes_progress : Bool
  pub is_point_mode : Bool
  pub progress_timeout : ℕ

-- `_milestone_cb`
unfoldable pub milestone_cb : MilestonePayload → Spray → Spray
milestone_cb m s =
    if (m.event == "AT_POINT") && leb_ℤ (pos 0) m.index
    then record s { at_point_index = m.index; at_point_seq = m.seq }
    else s

-- `_rpp_progress_cb`
unfoldable pub rpp_progress_cb : ℕ → ProgressPayload → Spray → Spray
rpp_progress_cb now m s = record s { progress = some m; progress_time = now }

abbrev pub is_on_point : MissionPhase → Bool
is_on_point at_point = true
is_on_point dwell_hold = true
is_on_point _ = false

abbrev pub confirms : ℕ → ℕ → ℕ → ℤ → Option ProgressPayload → Bool
confirms now limit since target none = false
confirms now limit since target (some m) =
    leb now (since + limit) && (eq_ℤ m.point_index target && is_on_point m.phase)

-- `_point_handshake_gate`; `none` leaves the arrival to the meter.
unfoldable pub point_handshake_gate : Gate → ℕ → ℤ → Spray → Option Bool
point_handshake_gate c now target s =
    if not (c.consumes_progress && c.is_point_mode)
    then none
    else some (
        eq_ℤ s.at_point_index target
        || confirms now c.progress_timeout s.progress_time target s.progress)

-- `_publish_point_done`
unfoldable pub publish_point_done : ℕ → Spray → Spray × PointDonePayload
publish_point_done index s = (
  record s { point_done_seq = suc s.point_done_seq },
  record {
    point_index = pos index;
    seq = pos (suc s.point_done_seq);
    done = true;
    reason = "dwell_complete";
  },
)

-- `_rebuild_point_meter`, of these attributes.
unfoldable pub rebuild_point_meter : Bool → Spray → Spray
rebuild_point_meter point_mode s =
    if point_mode then record s { at_point_index = negsuc 0; at_point_seq = negsuc 0 } else s

module _ (F : Floats) (round_int : F.Num → ℤ) (int_of : String → Option ℤ)
    (float_of : String → Option Number) (str_of : Json.Value → String) where
  pub record System : Type 0 where
    pub hold : Hold F.Num
    pub spray : Spray

  pub data Event : Type 0 where
    -- The dwell at an index is complete; its message arrives or is lost.
    completed : ℕ → Bool → Event
    advanced : AdvancePayload → Event
    installed : List Key → List (F.Num × F.Num) → Event
    run_begins : List (F.Num × F.Num) → Event
    ticked : Input F.Num → Event
    rebuilt : Bool → Event
    arrived : MilestonePayload → Event
    progressed : ℕ → ProgressPayload → Event

  -- The message of a completion as the RPP node reads it.
  unfoldable pub deliver : PointDonePayload → Hold F.Num → Hold F.Num
  unfolding point_done_cb point_done_from_json point_done_to_json
  deliver m h = elim (point_done_from_json int_of float_of str_of (some (point_done_to_json m))) [
    | none ↦ h
    | some p ↦ point_done_cb p h
  ]

  unfoldable pub step : Params → Event → System → System
  unfolding deliver publish_point_done advance_cb install_mission apply_run point_hold_tick
      rebuild_point_meter milestone_cb rpp_progress_cb
  step c (completed n arrives) s =
      let p = publish_point_done n s.spray in
      record { hold = if arrives then deliver p.1 s.hold else s.hold; spray = p.0 }
  step c (advanced m) s = record s { hold = advance_cb m s.hold }
  step c (installed must run) s = record s { hold = install_mission F round_int must run s.hold }
  step c (run_begins run) s = record s { hold = apply_run F round_int run s.hold }
  step c (ticked i) s = record s { hold = (point_hold_tick F round_int c i s.hold).0 }
  step c (rebuilt b) s = record s { spray = rebuild_point_meter b s.spray }
  step c (arrived m) s = record s { spray = milestone_cb m s.spray }
  step c (progressed now m) s = record s { spray = rpp_progress_cb now m s.spray }

  unfoldable pub run_from : Params → System → List Event → System
  unfolding step
  run_from c s [] = s
  run_from c s (e ∷ es) = run_from c (step c e s) es
