-- ===== src/Offboard/Halt.antt =====
-- `stop_async`, `abort_async` and `disarm_async`.
use px4_dxp.Prelude.{
  Bool, true, false, not, ◌||◌, Option, none, some, is_some, List, [], ◌∷◌, ◌++◌, if◌then◌else◌,
}
use px4_dxp.Manual.Arbiter.{
  MissionState, idle, arming, switching_offboard, entry, running, completed, aborted,
}
use px4_dxp.Emergency.{Answer, accepted, refused, raised}
use px4_dxp.Offboard.Controller.{Controller, Command, arm, set_mode_manual, publish_stop_path}

-- How publish_stop_path ends.
pub data StopPath (P : Type 0) : Type 0 where
  at : P → StopPath P
  nowhere raises : StopPath P

pub data Action : Type 0 where
  no_node no_op no_pose hold_position error abort : Action

-- `STOP_ALLOWED_STATES`
abbrev pub is_stop_allowed : MissionState → Bool
is_stop_allowed running = true
is_stop_allowed entry = true
is_stop_allowed arming = true
is_stop_allowed switching_offboard = true
is_stop_allowed _ = false

-- `ABORT_NOOP_STATES`
abbrev pub is_abort_noop : MissionState → Bool
is_abort_noop idle = true
is_abort_noop completed = true
is_abort_noop aborted = true
is_abort_noop _ = false

-- The answer of a stop, its state being that of the controller. `armed` is `none` without a node.
pub record Stopped (P : Type 0) : Type 0 where
  pub controller : Controller P
  pub commands : List (Command P)
  pub success : Bool
  pub action : Action
  pub armed : Option Bool
  pub stop_position : Option P

pub data AbortFault : Type 0 where
  no_node stop_path_nowhere stop_path_raised set_mode_refused set_mode_raised : AbortFault
  disarm_refused disarm_raised : AbortFault

pub record Aborted (P : Type 0) : Type 0 where
  pub controller : Controller P
  pub commands : List (Command P)
  pub success : Bool
  pub action : Action
  pub errors : List AbortFault
  pub stop_path_sent : Bool
  pub manual_mode : Bool
  pub disarmed : Bool
  pub armed : Option Bool
  pub stop_position : Option P

-- What is read of the vehicle behind the calls: armed, and in the mode MANUAL.
pub record Vehicle : Type 0 where
  pub armed : Option Bool
  pub is_manual : Bool

abbrev pub is_true : Option Bool → Bool
is_true none = false
is_true (some b) = b

-- `armed is False`
abbrev pub is_false : Option Bool → Bool
is_false none = false
is_false (some b) = not b

abbrev pub is_accepted : Answer → Bool
is_accepted accepted = true
is_accepted _ = false

abbrev pub fault_of : AbortFault → AbortFault → Answer → List AbortFault
fault_of refusal raising accepted = []
fault_of refusal raising refused = refusal ∷ []
fault_of refusal raising raised = raising ∷ []

abbrev pub is_empty : {A : Type 0} → List A → Bool
is_empty [] = true
is_empty (x ∷ xs) = false

module _ {P : Type 0} where
  abbrev pub in_state : MissionState → Controller P → Controller P
  in_state s c = record c { state = s }

  abbrev pub stop_fault : StopPath P → List AbortFault
  stop_fault (at p) = []
  stop_fault nowhere = stop_path_nowhere ∷ []
  stop_fault raises = stop_path_raised ∷ []

  abbrev pub position : StopPath P → Option P
  position (at p) = some p
  position _ = none

  -- In a state that can be stopped.
  abbrev pub stop_active : StopPath P → Vehicle → Controller P → Stopped P
  stop_active p v c = elim p [
    | at x ↦ record {
      controller = in_state idle c;
      commands = publish_stop_path ∷ [];
      success = true;
      action = hold_position;
      armed = v.armed;
      stop_position = some x;
    }
    | nowhere ↦ record {
      controller = in_state MissionState.error c;
      commands = publish_stop_path ∷ [];
      success = false;
      action = no_pose;
      armed = v.armed;
      stop_position = none;
    }
    | raises ↦ record {
      controller = in_state MissionState.error c;
      commands = publish_stop_path ∷ [];
      success = false;
      action = Action.error;
      armed = v.armed;
      stop_position = none;
    }
  ]

  unfoldable pub stop_async : Bool → StopPath P → Vehicle → Controller P → Stopped P
  stop_async node p v c =
      if not node
      then record {
        controller = c;
        commands = [];
        success = false;
        action = Action.no_node;
        armed = none;
        stop_position = none;
      }
      else if not (is_stop_allowed c.state)
      then record {
        controller = c;
        commands = [];
        success = false;
        action = no_op;
        armed = v.armed;
        stop_position = none;
      }
      else stop_active p v c

  abbrev pub abort_errors : StopPath P → Answer → Answer → List AbortFault
  abort_errors p mode disarm =
      stop_fault p
      ++ (fault_of set_mode_refused set_mode_raised mode
          ++ fault_of disarm_refused disarm_raised disarm)

  -- In a state that is not idle or terminal.
  abbrev pub abort_active : StopPath P → Answer → Answer → Vehicle → Controller P → Aborted P
  abort_active p mode disarm v c = record {
    controller = in_state aborted c;
    commands = publish_stop_path ∷ set_mode_manual ∷ arm false ∷ [];
    success = is_empty (abort_errors p mode disarm);
    action = abort;
    errors = abort_errors p mode disarm;
    stop_path_sent = is_some (position p);
    manual_mode = v.is_manual || is_accepted mode;
    disarmed = is_false v.armed || is_accepted disarm;
    armed = v.armed;
    stop_position = position p;
  }

  unfoldable pub abort_async :
      Bool → StopPath P → Answer → Answer → Vehicle → Controller P → Aborted P
  abort_async node p mode disarm v c =
      if not node
      then record {
        controller = c;
        commands = [];
        success = false;
        action = Action.no_node;
        errors = AbortFault.no_node ∷ [];
        stop_path_sent = false;
        manual_mode = false;
        disarmed = false;
        armed = none;
        stop_position = none;
      }
      else if is_abort_noop c.state
      then record {
        controller = c;
        commands = [];
        success = true;
        action = no_op;
        errors = [];
        stop_path_sent = false;
        manual_mode = v.is_manual;
        disarmed = not (is_true v.armed);
        armed = v.armed;
        stop_position = none;
      }
      else abort_active p mode disarm v c

  -- `disarm_async`: the exception of the service passes, and the state stays.
  unfoldable pub disarm_async : Bool → Answer → Controller P → Controller P × List (Command P)
  disarm_async node disarm c =
      if not node
      then (c, [])
      else elim disarm [ raised ↦ (c, arm false ∷ []) | _ ↦ (in_state idle c, arm false ∷ []) ]
