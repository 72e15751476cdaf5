-- ===== src/Emergency.antt =====
-- server/emergency.py: the emergency stop, on the joystick of Manual.Joystick and the state of the
-- mission. What the ROS node and the lock of the offboard controller answer are arguments; the
-- texts of the log are left out. No other call comes in between the awaits of the stop.
pub mod Stop
mod Tests
use px4_dxp.Prelude.{
  ℕ, Bool, true, false, not, ◌&&◌, Option, none, some, List, [], ◌∷◌, ◌++◌, if◌then◌else◌,
}
use px4_dxp.Manual.Arbiter.{MissionState, aborted}
use px4_dxp.Manual.Gateway.{Sending}
use px4_dxp.Manual.Control.{Station}
use px4_dxp.Manual.Joystick.{emergency_neutralize}

-- What the handler holds, when it holds it: the ROS node, the offboard controller by its state,
-- and the joystick controller.
pub record System : Type 0 where
  pub node : Bool
  pub mission : Option MissionState
  pub joystick : Option Station

-- How a service call of the ROS node ends.
pub data Answer : Type 0 where
  accepted refused raised : Answer

pub record Answers : Type 0 where
  pub stop_path_raises : Bool
  pub set_mode : Answer
  pub disarm : Answer
  pub set_state_raises : Bool

-- What is asked of the ROS node.
pub data Action : Type 0 where
  publish_stop_path set_mode_manual disarm : Action

-- The parts of the message of a stop with errors.
pub data Fault : Type 0 where
  no_node publish_stop_path set_mode set_mode_raised disarm disarm_raised set_state : Fault

pub record Stopped : Type 0 where
  pub system : System
  pub actions : List Action
  pub errors : List Fault
  pub success : Bool

-- The joystick is neutralized first, whether there is a node or not.
abbrev pub neutralize : ℕ → Sending → Option Station → Option Station
neutralize reason w none = none
neutralize reason w (some s) = some (emergency_neutralize reason w s)

abbrev pub when : Bool → Fault → List Fault
when true e = e ∷ []
when false e = []

abbrev pub fault_of : Fault → Fault → Answer → List Fault
fault_of no_ok raise accepted = []
fault_of no_ok raise refused = no_ok ∷ []
fault_of no_ok raise raised = raise ∷ []

-- The write of ABORTED under the controller's lock.
abbrev pub abort : Bool → Option MissionState → Option MissionState × List Fault
abort raises none = (none, [])
abort true (some m) = (some m, set_state ∷ [])
abort false (some m) = (some aborted, [])

abbrev pub is_empty : List Fault → Bool
is_empty [] = true
is_empty (e ∷ es) = false

-- The errors of the four steps, in the order of the source.
unfoldable pub errors_of : Answers → Option MissionState → List Fault
errors_of a m =
    when a.stop_path_raises Fault.publish_stop_path
    ++ (fault_of Fault.set_mode set_mode_raised a.set_mode
        ++ (fault_of Fault.disarm disarm_raised a.disarm ++ (abort a.set_state_raises m).1))

unfoldable pub estop : ℕ → Sending → Answers → System → Stopped
unfolding errors_of
estop reason w a s =
    let j = neutralize reason w s.joystick in
    if not s.node
    then record {
      system = record s { joystick = j };
      actions = [];
      errors = no_node ∷ [];
      success = false;
    }
    else record {
      system = record s { joystick = j; mission = (abort a.set_state_raises s.mission).0 };
      actions = Action.publish_stop_path ∷ set_mode_manual ∷ Action.disarm ∷ [];
      errors = errors_of a s.mission;
      success = is_empty (errors_of a s.mission);
    }
