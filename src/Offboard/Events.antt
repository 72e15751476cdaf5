-- ===== src/Offboard/Events.antt =====
-- The calls of the controller as events, and sequences of them.
use px4_dxp.Prelude.{Bool, false, Option, none, some, List, [], ◌∷◌, ◌++◌}
use px4_dxp.Manual.Arbiter.{aborted}
use px4_dxp.Emergency.{Answer}
use px4_dxp.Placement.Telemetry.{Floats, Limits}
use px4_dxp.Offboard.Controller.{
  Controller, Command, publish_stop_path, set_mode_manual, arm, LoadRequest, load_path,
  clear_mission,
}
use px4_dxp.Offboard.Entry.{EntryConfig}
use px4_dxp.Offboard.Launch.{Answers}
use px4_dxp.Offboard.Start.{start_locked}
use px4_dxp.Offboard.Halt.{StopPath, Vehicle, stop_async, abort_async, disarm_async, in_state}
use px4_dxp.Offboard.Calls.{mark_completed, advance_entry_to_marking}

module _ (F : Floats) where
  -- The calls of the handlers and of the telemetry loop, with what the node answers; a call that
  -- raises in the loop is logged there.
  pub data Event : Type 0 where
    load : (F.Num × F.Num → Bool) → LoadRequest (F.Num × F.Num) → Event
    clear : Event
    start : Bool → Bool → Answers F → Event
    stop : Bool → StopPath (F.Num × F.Num) → Vehicle → Event
    abort : Bool → StopPath (F.Num × F.Num) → Answer → Answer → Vehicle → Event
    disarm : Bool → Answer → Event
    complete : Event
    advance : Bool → Bool → Event
    -- The write of an emergency stop, which succeeds, and what the stop asks of the node.
    emergency : Event

abbrev pub or_same : {P : Type 0} → Option (Controller P) → Controller P → Controller P
or_same none c = c
or_same (some d) c = d

module _ (F : Floats) (l : Limits F.Num) (g : EntryConfig F) where
  unfoldable pub step :
      Event F
      → Controller (F.Num × F.Num)
      → Controller (F.Num × F.Num) × List (Command (F.Num × F.Num))
  step (load is_finite r) c = let d = load_path is_finite r c in (d.controller, d.commands)
  step clear c = (or_same (clear_mission c) c, [])
  step (start node auto a) c =
      let r = start_locked F node auto l g a c in (r.controller, r.commands)
  step (stop node p v) c = let r = stop_async node p v c in (r.controller, r.commands)
  step (abort node p m d v) c = let r = abort_async node p m d v c in (r.controller, r.commands)
  step (disarm node a) c = disarm_async node a c
  step complete c = ((mark_completed c).0, [])
  step (advance node raises) c =
      let r = advance_entry_to_marking node raises c in (r.controller, r.commands)
  step emergency c = (in_state aborted c, publish_stop_path ∷ set_mode_manual ∷ arm false ∷ [])

  -- The state behind a list of calls, and all that was asked of the node.
  unfoldable pub run :
      List (Event F)
      → Controller (F.Num × F.Num)
      → Controller (F.Num × F.Num) × List (Command (F.Num × F.Num))
  run [] c = (c, [])
  run (e ∷ es) c = let d = step e c in let rest = run es d.0 in (rest.0, d.1 ++ rest.1)
