-- ===== src/Offboard/Start.antt =====
-- `start_async`: its guards and the placement in front of the launch.
use px4_dxp.Prelude.{
  pos, Bool, true, false, not, ◌&&◌, ◌||◌, Option, none, some, List, [], map, if◌then◌else◌,
}
use px4_dxp.Manual.Arbiter.{
  MissionState, loading, arming, switching_offboard, entry, running, stopping, disarming, error,
  Arbiter, ok, err, mission_enter, mission_exit,
}
use px4_dxp.Placement.Telemetry.{Floats, Telemetry, Limits}
use px4_dxp.Placement.Resolve.{Placed, placed, resolve_surveyed_points}
use px4_dxp.Offboard.Controller.{Controller}
use px4_dxp.Offboard.Entry.{EntryConfig}
use px4_dxp.Offboard.Launch.{
  Answers, Started, already_active, arbiter_refused, busy, fail, failed, is_surveyed, is_unhealthy,
  misplaced, misplaced_auto_origin, no_node, no_path, no_pose, nonempty, not_connected,
  publish_and_go, rpp_unhealthy,
}

abbrev pub is_active : MissionState → Bool
is_active running = true
is_active entry = true
is_active _ = false

abbrev pub is_busy : MissionState → Bool
is_busy loading = true
is_busy arming = true
is_busy switching_offboard = true
is_busy stopping = true
is_busy disarming = true
is_busy _ = false

module _ (F : Floats) where
  abbrev pub is_old : Limits F.Num → Option F.Num → Bool
  is_old l none = F.lt l.pose_stale (F.add l.pose_stale (F.lit (pos 1) 0))
  is_old l (some age) = F.lt l.pose_stale age

  abbrev pub or_origin : Option F.Num → F.Num
  or_origin none = F.lit (pos 0) 0
  or_origin (some x) = x

  -- server/mission_loading.py, `pose_origin_or_error`.
  abbrev pub pose_origin : Limits F.Num → Telemetry F.Num → Option (F.Num × F.Num)
  pose_origin l t =
      if not t.pose_received || is_old l t.pose_age
      then none
      else some (or_origin t.pos_n, or_origin t.pos_e)

  -- The offset of auto_origin, on a mission in the local frame.
  abbrev pub with_offset :
      Bool
      → Limits F.Num
      → EntryConfig F
      → Answers F
      → List (F.Num × F.Num)
      → Controller (F.Num × F.Num)
      → Started (F.Num × F.Num)
  with_offset auto l g a pts c =
      if not (is_surveyed c.placement_mode) && auto
      then elim (pose_origin l a.pose) [
        | none ↦ fail F error [] (failed no_pose) c
        | some o ↦ publish_and_go F g a (map (λ p. (F.add p.0 o.0, F.add p.1 o.1)) pts) c
      ]
      else publish_and_go F g a pts c

  -- The points to publish, behind the placement.
  unfoldable pub placed_points :
      Limits F.Num
      → Telemetry F.Num
      → List (F.Num × F.Num)
      → Controller (F.Num × F.Num)
      → Placed (List (F.Num × F.Num))
  placed_points l t pts c =
      if is_surveyed c.placement_mode
      then elim (resolve_surveyed_points F l pts c.origin_gps t) [
        | placed r ↦ placed r.0
        | Placed.refused r ↦ Placed.refused r
      ]
      else placed pts

  -- With a path that is not empty.
  unfoldable pub place_and_go :
      Bool
      → Limits F.Num
      → EntryConfig F
      → Answers F
      → List (F.Num × F.Num)
      → Controller (F.Num × F.Num)
      → Started (F.Num × F.Num)
  place_and_go auto l g a pts c =
      if is_surveyed c.placement_mode && auto
      then fail F c.state [] misplaced_auto_origin c
      else if not a.fcu.connected
      then fail F error [] (failed not_connected) c
      else elim (placed_points l a.fcu pts c) [
        | Placed.refused r ↦ fail F error [] (misplaced r) c
        | placed points ↦
            if is_unhealthy a.fcu.rpp_state
            then fail F error [] (failed rpp_unhealthy) c
            else with_offset auto l g a points c
      ]

  -- `_start_locked`
  unfoldable pub start_locked :
      Bool
      → Bool
      → Limits F.Num
      → EntryConfig F
      → Answers F
      → Controller (F.Num × F.Num)
      → Started (F.Num × F.Num)
  start_locked node auto l g a c =
      if not node
      then fail F c.state [] (failed no_node) c
      else if is_active c.state
      then fail F c.state [] (failed already_active) c
      else if is_busy c.state
      then fail F c.state [] (failed busy) c
      else elim (nonempty c.loaded_pts) [
        | none ↦ fail F error [] (failed no_path) c
        | some pts ↦ place_and_go auto l g a pts c
      ]

  -- `start_async`, between the claim of the arbiter and its release.
  unfoldable pub start_async :
      Bool
      → Bool
      → Limits F.Num
      → EntryConfig F
      → Answers F
      → Arbiter
      → Controller (F.Num × F.Num)
      → Arbiter × Started (F.Num × F.Num)
  start_async node auto l g a arbiter c = elim (mission_enter arbiter) [
    | err code ↦ (arbiter, fail F c.state [] (failed (arbiter_refused code)) c)
    | ok claimed ↦ (mission_exit claimed, start_locked node auto l g a c)
  ]
