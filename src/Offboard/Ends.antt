-- ===== src/Offboard/Ends.antt =====
-- How a mission ends on request, and who owns the vehicle behind a start.
use px4_dxp.Prelude.{◌≡◌, arith, Bool, true, false, ◌&&◌, [], ◌∷◌, if◌then◌else◌}
use px4_dxp.Manual.Arbiter.{
  ControlOwner, Arbiter, is_joystick, mission_enter, mission_exit, joystick_owned, aborted, idle,
  error,
}
use px4_dxp.Emergency.{Answer}
use px4_dxp.Placement.Telemetry.{Floats, Limits}
use px4_dxp.Offboard.Controller.{Controller, arm, set_mode_manual, publish_stop_path}
use px4_dxp.Offboard.Entry.{EntryConfig}
use px4_dxp.Offboard.Launch.{Answers}
use px4_dxp.Offboard.Start.{start_async, is_active, is_busy}
use px4_dxp.Offboard.Halt.{
  StopPath, at, Vehicle, is_abort_noop, is_accepted, stop_async, abort_async,
}

abbrev pub is_at : {P : Type 0} → StopPath P → Bool
is_at (at p) = true
is_at _ = false

module _ {P : Type 0} where
  -- Between calls, a stop succeeds exactly when there is a node, the mission runs or enters, and a
  -- position is known. It then leaves IDLE; a stop of an active mission that fails leaves ERROR,
  -- and one without an active mission or without a node changes nothing.
  pub stop_async-success :
      (n : Bool) (p : StopPath P) (v : Vehicle) (c : Controller P)
      → is_busy c.state ≡ false
      → ((stop_async n p v c).success ≡ (n && (is_active c.state && is_at p)))
        × (((n && is_active c.state ≡ true)
              → ((stop_async n p v c).commands ≡ publish_stop_path ∷ [])
                × ((stop_async n p v c).controller.state ≡ (if is_at p then idle else error)))
            × ((n && is_active c.state ≡ false)
                → ((stop_async n p v c).controller ≡ c) × ((stop_async n p v c).commands ≡ [])))
  unfolding stop_async
  stop_async-success n p v c h =
      (ground arith, ((λ e. (ground arith, ground arith)), (λ e. (ground arith, ground arith))))

  -- An abort of a mission that is not idle or over asks for the stop path, MANUAL and the disarm,
  -- in this order, whatever fails in between, and leaves ABORTED; it reports success exactly when
  -- a position was known and both services accepted.
  pub abort_async_complete :
      (p : StopPath P) (m d : Answer) (v : Vehicle) (c : Controller P)
      → is_abort_noop c.state ≡ false
      → ((abort_async true p m d v c).commands
          ≡ publish_stop_path ∷ set_mode_manual ∷ arm false ∷ [])
        × (((abort_async true p m d v c).controller.state ≡ aborted)
            × ((abort_async true p m d v c).success
                ≡ (is_at p && (is_accepted m && is_accepted d))))
  unfolding abort_async
  abort_async_complete p m d v c h = (ground arith, (ground arith, ground arith))

module _ (F : Floats) (l : Limits F.Num) (g : EntryConfig F) where
  -- Behind a start the mission does not own the vehicle, however the start ends. While the
  -- joystick owns it, a start asks nothing of the node and changes neither the controller nor the
  -- owner.
  pub start_async-frees :
      (n auto : Bool) (a : Answers F) (b : Arbiter) (c : Controller (F.Num × F.Num))
      → (is_joystick b.owner ≡ false → (start_async F n auto l g a b c).0.owner ≡ ControlOwner.idle)
        × (is_joystick b.owner ≡ true
            → (((start_async F n auto l g a b c).0 ≡ b)
                × ((start_async F n auto l g a b c).1.commands ≡ []))
              × ((start_async F n auto l g a b c).1.controller ≡ c))
  unfolding start_async mission_enter mission_exit joystick_owned
  start_async-frees n auto a b c =
      ((λ e. ground arith), (λ e. ((ground arith, ground arith), ground arith)))
