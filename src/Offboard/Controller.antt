-- ===== src/Offboard/Controller.antt =====
-- The state of OffboardController, loading and clearing.
use Prim.Native.String.{String}
use text.Mathlib.Text.{◌==◌ as str_eq}
use px4_dxp.Prelude.{
  Bool, true, false, Option, none, some, List, [], ◌∷◌, length, ◌==◌, if◌then◌else◌,
}
use px4_dxp.Manual.Arbiter.{MissionState, idle, completed, aborted, error}

pub data PlacementMode : Type 0 where
  local_ned gps_surveyed : PlacementMode

-- A path as it is published.
pub record MissionPath (P : Type 0) : Type 0 where
  pub points : List P
  pub spray_flags : Option (List Bool)
  pub must_hit : Option (List Bool)

pub record Controller (P : Type 0) : Type 0 where
  pub state : MissionState
  pub loaded_pts : Option (List P)
  pub loaded_spray_flags : Option (List Bool)
  pub loaded_must_hit : Option (List Bool)
  pub path_name : Option String
  pub placement_mode : PlacementMode
  pub origin_gps : Option P
  pub is_staged_mission : Bool
  pub entry_marking_pts : Option (List P)
  pub entry_marking_flags : Option (List Bool)
  pub entry_marking_must_hit : Option (List Bool)

-- What is asked of the ROS node.
pub data Command (P : Type 0) : Type 0 where
  publish_path : MissionPath P → Command P
  arm : Bool → Command P
  set_mode_offboard set_mode_manual publish_stop_path spray_off : Command P
  reset_monitor publish_path_clear : Command P

-- `CLEAR_ALLOWED_STATES`
abbrev pub is_clear_allowed : MissionState → Bool
is_clear_allowed idle = true
is_clear_allowed completed = true
is_clear_allowed aborted = true
is_clear_allowed error = true
is_clear_allowed _ = false

abbrev pub after_load : MissionState → MissionState
after_load completed = idle
after_load aborted = idle
after_load error = idle
after_load s = s

pub record LoadRequest (P : Type 0) : Type 0 where
  pub points : List P
  pub name : Option String
  pub spray_flags : Option (List Bool)
  pub must_hit : Option (List Bool)
  pub mode : PlacementMode
  pub origin : Option P
  pub is_staged : Bool

-- `name or "unknown"`
abbrev pub name_or_unknown : Option String → String
name_or_unknown none = "unknown"
name_or_unknown (some s) = if str_eq s "" then "unknown" else s

-- A call: the state behind it, what it asks of the node, and whether it raised nothing.
pub record Called (P : Type 0) : Type 0 where
  pub controller : Controller P
  pub commands : List (Command P)
  pub is_ok : Bool

module _ {P : Type 0} where
  abbrev pub init : Controller P
  init = record {
    state = idle;
    loaded_pts = none;
    loaded_spray_flags = none;
    loaded_must_hit = none;
    path_name = none;
    placement_mode = local_ned;
    origin_gps = none;
    is_staged_mission = false;
    entry_marking_pts = none;
    entry_marking_flags = none;
    entry_marking_must_hit = none;
  }

  abbrev pub without_entry : Controller P → Controller P
  without_entry c = record c {
    entry_marking_pts = none;
    entry_marking_flags = none;
    entry_marking_must_hit = none;
  }

  -- `clear_mission_async`; `none` is the MissionClearConflict. The node has no
  -- publish_path_clear.
  unfoldable pub clear_mission : Controller P → Option (Controller P)
  clear_mission c = if is_clear_allowed c.state then some init else none

  -- Flags of the length of the points, or none.
  abbrev pub aligned_flags : List P → Option (List Bool) → Option (List Bool)
  aligned_flags ps none = none
  aligned_flags ps (some fs) = if length fs == length ps then some fs else none

  -- Everything before the test of the origin.
  abbrev pub load_begin_path : LoadRequest P → Controller P → Controller P
  load_begin_path r c = record (without_entry c) {
    loaded_pts = some r.points;
    loaded_must_hit = aligned_flags r.points r.must_hit;
    loaded_spray_flags = aligned_flags r.points r.spray_flags;
    path_name = some (name_or_unknown r.name);
    placement_mode = r.mode;
    is_staged_mission = r.is_staged;
  }

  abbrev pub load_end_path : Option P → Controller P → Called P
  load_end_path origin c = record {
    controller = record c { origin_gps = origin; state = after_load c.state };
    commands = reset_monitor ∷ [];
    is_ok = true;
  }

  -- `load_path`, with a node. The ValueError of an origin that is not finite leaves what is
  -- written so far, and the origin of the mission before.
  unfoldable pub load_path : (P → Bool) → LoadRequest P → Controller P → Called P
  load_path is_finite r c =
      let d = load_begin_path r c in
      elim r.origin [
        | none ↦ load_end_path none d
        | some o ↦
            if is_finite o
            then load_end_path (some o) d
            else record { controller = d; commands = []; is_ok = false }
      ]
