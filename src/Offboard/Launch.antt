-- ===== src/Offboard/Launch.antt =====
-- The launch of a mission in `_start_locked`: the choice of an entry leg, arming, and the OFFBOARD
-- mode. The answers of the node come in the order in which they are awaited.
use px4_dxp.Prelude.{
  ℤ, pos, negsuc, Bool, true, false, ◌&&◌, ◌||◌, Option, none, some, List, [], ◌∷◌, ◌++◌,
  if◌then◌else◌, ◌==◌,
}
use px4_dxp.Manual.Arbiter.{MissionState, entry, running, error, Code}
use px4_dxp.Emergency.{Answer, accepted, refused, raised}
use px4_dxp.Placement.Telemetry.{Floats, Telemetry}
use px4_dxp.Placement.Resolve.{Refusal}
use px4_dxp.Offboard.Controller.{
  PlacementMode, local_ned, gps_surveyed, MissionPath, Controller, Command, publish_path,
  set_mode_offboard, without_entry,
}
use px4_dxp.Offboard.Entry.{EntryConfig, entry_leg_points}

pub data Reason : Type 0 where
  no_node already_active busy no_path not_connected rpp_unhealthy rpp_idle no_pose : Reason
  arm_failed offboard_failed unexpected : Reason
  arbiter_refused : Code → Reason

-- How a start ends; `misplaced` is the PlacementError.
pub data Outcome : Type 0 where
  entering driving : Outcome
  failed : Reason → Outcome
  misplaced_auto_origin : Outcome
  misplaced : Refusal → Outcome

pub record Started (P : Type 0) : Type 0 where
  pub controller : Controller P
  pub commands : List (Command P)
  pub outcome : Outcome

-- `RPP_UNHEALTHY_CODES`; a missing code is STALE.
abbrev pub is_unhealthy : Option ℤ → Bool
is_unhealthy none = true
is_unhealthy (some (negsuc n)) = n == 0
is_unhealthy (some (pos n)) = (n == 4) || (n == 5)

-- `RPP_IDLE`
abbrev pub is_rpp_idle : Option ℤ → Bool
is_rpp_idle (some (pos n)) = n == 0
is_rpp_idle _ = false

abbrev pub is_surveyed : PlacementMode → Bool
is_surveyed local_ned = false
is_surveyed gps_surveyed = true

-- A list that is there and not empty.
abbrev pub nonempty {ℓ} : {A : Type ℓ} → Option (List A) → Option (List A)
nonempty none = none
nonempty (some []) = none
nonempty (some (x ∷ xs)) = some (x ∷ xs)

abbrev pub all_off : {A : Type 0} → List A → List Bool
all_off [] = []
all_off (x ∷ xs) = false ∷ all_off xs

module _ (F : Floats) where
  -- The answers: the snapshot at the beginning and the one for auto_origin, the publisher, the
  -- arming service, the snapshot behind the grace, the mode service, the disarm.
  pub record Answers : Type 0 where
    pub fcu : Telemetry F.Num
    pub pose : Telemetry F.Num
    pub publish_raises : Bool
    pub arm : Answer
    pub after_grace : Telemetry F.Num
    pub set_mode : Answer
    pub disarm_raises : Bool

  abbrev pub fail :
      MissionState
      → List (Command (F.Num × F.Num))
      → Outcome
      → Controller (F.Num × F.Num)
      → Started (F.Num × F.Num)
  fail s cmds o c = record { controller = record c { state = s }; commands = cmds; outcome = o }

  -- The failures behind an arming that was accepted: a disarm request, and a second one from the
  -- handler of exceptions when the first raises.
  abbrev pub fail_armed :
      Answers
      → List (Command (F.Num × F.Num))
      → Reason
      → Controller (F.Num × F.Num)
      → Started (F.Num × F.Num)
  fail_armed a cmds r c =
      if a.disarm_raises
      then fail error (cmds ++ (Command.arm false ∷ Command.arm false ∷ [])) (failed unexpected) c
      else fail error (cmds ++ (Command.arm false ∷ [])) (failed r) c

  -- Behind the grace.
  unfoldable pub switch :
      Answers
      → Bool
      → List (Command (F.Num × F.Num))
      → Controller (F.Num × F.Num)
      → Started (F.Num × F.Num)
  switch a two_phase cmds c =
      let asked = cmds ++ (set_mode_offboard ∷ []) in
      if is_unhealthy a.after_grace.rpp_state
      then fail_armed a cmds rpp_unhealthy c
      else if is_rpp_idle a.after_grace.rpp_state
      then fail_armed a cmds rpp_idle c
      else elim a.set_mode [
        | accepted ↦ if two_phase then fail entry asked entering c else fail running asked driving c
        | refused ↦ fail_armed a asked offboard_failed c
        | raised ↦ fail error (asked ++ (Command.arm false ∷ [])) (failed unexpected) c
      ]

  -- The `try` block.
  unfoldable pub launch :
      Answers
      → Bool
      → MissionPath (F.Num × F.Num)
      → Controller (F.Num × F.Num)
      → Started (F.Num × F.Num)
  launch a two_phase path c =
      let cmds = publish_path path ∷ Command.arm true ∷ [] in
      if a.publish_raises
      then fail error (publish_path path ∷ []) (failed unexpected) c
      else elim a.arm [
        | accepted ↦ switch a two_phase cmds c
        | refused ↦ fail error cmds (failed arm_failed) c
        | raised ↦ fail error cmds (failed unexpected) c
      ]

  -- The live position, when it and the first point are finite and the rover is not there yet
  -- (ENTRY_SKIP_DIST_M, 0.20).
  abbrev pub entry_from : Telemetry F.Num → F.Num × F.Num → Option (F.Num × F.Num)
  entry_from t p0 = elim t.pos_n [
    | none ↦ none
    | some n ↦ elim t.pos_e [
      | none ↦ none
      | some e ↦
          if (F.is_finite n && F.is_finite e)
            && ((F.is_finite p0.0 && F.is_finite p0.1)
                && F.lt (F.lit (pos 20) 2) (F.hypot (F.sub p0.0 n) (F.sub p0.1 e)))
          then some (n, e)
          else none
    ]
  ]

  -- The two-phase decision, on a path of at least two points in a surveyed mission.
  abbrev pub entry_start :
      PlacementMode → Telemetry F.Num → List (F.Num × F.Num) → Option (F.Num × F.Num)
  entry_start gps_surveyed t (p0 ∷ p1 ∷ ps) = entry_from t p0
  entry_start _ _ _ = none

  abbrev pub leg_of : EntryConfig F → F.Num × F.Num → List (F.Num × F.Num) → List (F.Num × F.Num)
  leg_of g live [] = []
  leg_of g live (p0 ∷ ps) = entry_leg_points F g live p0 ps

  -- From the points to publish on.
  unfoldable pub publish_and_go :
      EntryConfig F
      → Answers
      → List (F.Num × F.Num)
      → Controller (F.Num × F.Num)
      → Started (F.Num × F.Num)
  publish_and_go g a pts c = elim (entry_start c.placement_mode a.fcu pts) [
    | none ↦
        launch a false
          (record {
            points = pts;
            spray_flags = c.loaded_spray_flags;
            must_hit = c.loaded_must_hit;
          })
          (without_entry c)
    | some live ↦
        let leg = leg_of g live pts in
        launch a true
          (record { points = leg; spray_flags = some (all_off leg); must_hit = some (all_off leg) })
          (record c {
            entry_marking_pts = some pts;
            entry_marking_flags = nonempty c.loaded_spray_flags;
            entry_marking_must_hit = nonempty c.loaded_must_hit;
          })
  ]
