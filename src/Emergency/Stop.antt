-- ===== src/Emergency/Stop.antt =====
-- What an emergency stop leaves behind.
use px4_dxp.Prelude.{
  ℕ, ◌≡◌, ◌↔◌, refl, true, false, Option, none, some, [], ◌∷◌, arith, is_some, ◌&&◌, Bool-cases,
  inl, inr,
}
use px4_dxp.Manual.Arbiter.{ControlOwner, aborted, not_owner, err, clear_joystick}
use px4_dxp.Manual.Gateway.{Sending, neutral_frame, worker_frame, send_neutral, send}
use px4_dxp.Manual.Control.{inactive, JoystickCommand, Settings, Station, Vehicle}
use px4_dxp.Manual.Drive.{command_fault, handle_command}
use px4_dxp.Manual.Joystick.{emergency_neutralize}
use px4_dxp.Manual.Joystick.Command.{fault-refuses}
use px4_dxp.Emergency.{
  System, accepted, Answers, publish_stop_path, set_mode_manual, disarm, neutralize, estop,
}

-- A joystick after the stop: no lease, neutral frames whatever the clock says, no owner, and every
-- command refused.
pub record IsSafe (s : Station) : Type 0 where
  pub state : s.state ≡ inactive
  pub owner : s.arbiter.owner ≡ ControlOwner.idle
  pub frame : (stale now : ℕ) → worker_frame stale now s.gateway ≡ neutral_frame
  pub refused :
      (c : Settings) (v : Vehicle) (now sid : ℕ) (cmd : JoystickCommand)
      → handle_command c v now sid cmd s ≡ (s, err not_owner)

neutralize-IsSafe :
    (reason : ℕ) (w : Sending) (s : Station) → IsSafe (emergency_neutralize reason w s)
unfolding emergency_neutralize command_fault worker_frame clear_joystick send_neutral send
neutralize-IsSafe reason w s = record {
  state = refl;
  owner = refl;
  frame = λ stale now. ground arith;
  refused = λ c v now sid cmd. fault-refuses c v now sid cmd (emergency_neutralize reason w s) refl;
}

abbrev pub AllSafe : Option Station → Type 0
AllSafe none = Unit
AllSafe (some s) = IsSafe s

neutralize-AllSafe :
    (reason : ℕ) (w : Sending) (o : Option Station) → AllSafe (neutralize reason w o)
neutralize-AllSafe reason w none = tt
neutralize-AllSafe reason w (some s) = neutralize-IsSafe reason w s

-- An emergency stop leaves the joystick safe whatever the node and the offboard controller
-- answer, and also without a node: its state is inactive, nobody owns the vehicle, the sender
-- sends neutral frames only, and every command is refused.
pub estop-AllSafe :
    (reason : ℕ) (w : Sending) (a : Answers) (s : System)
    → AllSafe (estop reason w a s).system.joystick
unfolding estop
estop-AllSafe reason w a s = elim (Bool-cases s.node) [
  | inl n ↦ rw n (neutralize-AllSafe reason w s.joystick)
  | inr n ↦ rw n (neutralize-AllSafe reason w s.joystick)
]

-- With a node an emergency stop asks for all three of its actions, in this order, whatever fails
-- in between; it reports success exactly when each of its steps succeeded, and a mission whose
-- state could be written is aborted.
pub estop_complete :
    (reason : ℕ) (w : Sending) (a : Answers) (s : System)
    → s.node ≡ true
    → let r = estop reason w a s in
      (r.actions ≡ publish_stop_path ∷ set_mode_manual ∷ disarm ∷ [])
      × ((r.success ≡ true) ↔ (
          (a.stop_path_raises ≡ false)
          × (a.set_mode ≡ accepted)
          × (a.disarm ≡ accepted)
          × ((is_some s.mission && a.set_state_raises) ≡ false)))
      × (is_some s.mission ≡ true → a.set_state_raises ≡ false → r.system.mission ≡ some aborted)
unfolding estop
estop_complete reason w a s n = ground arith
