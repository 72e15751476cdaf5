-- ===== src/Offboard/Calls.antt =====
-- The calls of the telemetry loop, without the lock: completion, and the end of the entry leg.
use px4_dxp.Prelude.{Bool, true, false, not, ◌&&◌, none, some, List, [], ◌∷◌, if◌then◌else◌}
use px4_dxp.Manual.Arbiter.{MissionState, entry, running, completed}
use px4_dxp.Emergency.{Answer}
use px4_dxp.Offboard.Controller.{
  MissionPath, Controller, Command, publish_path, arm, spray_off, reset_monitor, without_entry,
}
use px4_dxp.Offboard.Launch.{nonempty}
use px4_dxp.Offboard.Halt.{in_state, is_accepted}

abbrev pub is_running : MissionState → Bool
is_running running = true
is_running _ = false

abbrev pub is_entry : MissionState → Bool
is_entry entry = true
is_entry _ = false

pub record Finished (P : Type 0) : Type 0 where
  pub commands : List (Command P)
  pub attempted : Bool
  pub spray_off_sent : Bool
  pub disarmed : Bool

pub record Advanced (P : Type 0) : Type 0 where
  pub controller : Controller P
  pub commands : List (Command P)
  pub advanced : Bool
  pub has_raised : Bool

module _ {P : Type 0} where
  -- True on the edge from RUNNING to COMPLETED.
  unfoldable pub mark_completed : Controller P → Controller P × Bool
  mark_completed c = if is_running c.state then (in_state completed c, true) else (c, false)

  -- `disarm_on_complete_async`; `enabled` is config.DISARM_ON_COMPLETE.
  unfoldable pub disarm_on_complete : Bool → Bool → Bool → Answer → Finished P
  disarm_on_complete enabled node spray_raises disarm =
      if not enabled
      then record { commands = []; attempted = false; spray_off_sent = false; disarmed = false }
      else if not node
      then record { commands = []; attempted = true; spray_off_sent = false; disarmed = false }
      else record {
        commands = spray_off ∷ arm false ∷ [];
        attempted = true;
        spray_off_sent = not spray_raises;
        disarmed = is_accepted disarm;
      }

  abbrev pub marking_commands : Bool → MissionPath P → List (Command P)
  marking_commands node path = if node then publish_path path ∷ reset_monitor ∷ [] else []

  -- The stash is cleared, and then published by a call that nothing guards: when it raises, the
  -- state is left as it is and the monitor is not reset.
  abbrev pub publish_marking : Bool → Bool → MissionPath P → Controller P → Advanced P
  publish_marking node raises path c =
      if node && raises
      then record {
        controller = c;
        commands = publish_path path ∷ [];
        advanced = false;
        has_raised = true;
      }
      else record {
        controller = in_state running c;
        commands = marking_commands node path;
        advanced = true;
        has_raised = false;
      }

  -- The entry leg is over; without a stash nothing is published. The answer is whether the
  -- publisher of the node raises.
  unfoldable pub advance_entry_to_marking : Bool → Bool → Controller P → Advanced P
  advance_entry_to_marking node raises c =
      if not (is_entry c.state)
      then record { controller = c; commands = []; advanced = false; has_raised = false }
      else elim (nonempty c.entry_marking_pts) [
        | none ↦ record {
          controller = in_state running c;
          commands = [];
          advanced = false;
          has_raised = false;
        }
        | some pts ↦
            publish_marking node raises
              (record {
                points = pts;
                spray_flags = c.entry_marking_flags;
                must_hit = c.entry_marking_must_hit;
              })
              (without_entry c)
      ]
