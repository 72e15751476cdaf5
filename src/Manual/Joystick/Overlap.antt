-- ===== src/Manual/Joystick/Overlap.antt =====
-- Calls of the joystick that overlap with another owner of the vehicle.
use px4_dxp.Prelude.{ℕ, ◌≡◌, ◌≢◌, refl, true, false, none, some, arith, Option-cases, inl, inr}
use px4_dxp.Manual.Arbiter.{
  mission, MissionState, Code, not_owner, ok, err, is_mission_active, begin_joystick_acquire,
  clear_joystick, mark_releasing,
}
use px4_dxp.Manual.Control.{
  inactive, JoystickCommand, Settings, Station, Vehicle, Flush, is_live, clear_local,
}
use px4_dxp.Manual.Drive.{command_fault, handle_command}
use px4_dxp.Manual.Joystick.{
  Outcome, acquire_end, acquire_check, acquire_abort, conclude, release_begin, release_end,
}
use px4_dxp.Manual.Joystick.Command.{fault-refuses, is_refused}

-- An acquire whose socket is no longer the owner never gives the lease.
stranger_fails :
    (c : Settings) (o : Outcome) (sid session other : ℕ) (s : Station)
    → s.owner_sid ≡ some other
    → sid ≢ other
    → acquire_check c o sid session s ≢ none
unfolding acquire_check
stranger_fails c o sid session other s h ne = ground arith

-- A failed acquire leaves no owner, so that every command is refused.
aborted_refuses :
    (c : Settings) (o : Outcome) (session lease now other : ℕ) (x : Flush) (e : Code) (s : Station)
    (v : Vehicle) (later : ℕ) (cmd : JoystickCommand)
    → let r = conclude c o session lease now x (some e) s in
      (is_refused r.1 ≡ true)
      × (r.0.state ≡ inactive)
      × (handle_command c v later other cmd r.0 ≡ (r.0, err not_owner))
unfolding conclude acquire_abort clear_local command_fault
aborted_refuses c o session lease now other x e s v later cmd =
    (refl, refl, fault-refuses c v later other cmd (acquire_abort x s) refl)

-- `acquire` of a socket that is no longer the owner, when its awaits end: it fails, and it clears
-- the lease of the socket that owns the joystick by then, whose next command is refused.
pub late_failure_revokes :
    (c : Settings) (o : Outcome) (sid session lease now other : ℕ) (x : Flush) (s : Station)
    (v : Vehicle) (later : ℕ) (cmd : JoystickCommand)
    → s.owner_sid ≡ some other
    → sid ≢ other
    → is_live s.state ≡ true
    → let r = acquire_end c o sid session lease now x s in
      (is_refused r.1 ≡ true)
      × (r.0.state ≡ inactive)
      × (handle_command c v later other cmd r.0 ≡ (r.0, err not_owner))
unfolding acquire_end
late_failure_revokes c o sid session lease now other x s v later cmd h ne live =
    elim (Option-cases (acquire_check c o sid session s)) [
      | inl e ↦ absurd (stranger_fails c o sid session other s h ne e)
      | inr (e, f) ↦ rw f (aborted_refuses c o session lease now other x e s v later cmd)
    ]

-- While a mission call owns the vehicle and no socket owns the joystick, a release without ids
-- succeeds, and behind it the joystick is granted control although the mission call is not over,
-- in every mission state that is not active.
pub release_frees_mission :
    (sid reason : ℕ) (x : Flush) (m : MissionState) (s : Station)
    → s.owner_sid ≡ none
    → s.arbiter.owner ≡ mission
    → is_mission_active m ≡ false
    → let r = release_begin false (some sid) none none reason s in
      (r.1 ≡ ok tt)
      × (is_refused (begin_joystick_acquire m (release_end reason x r.0).arbiter) ≡ false)
unfolding release_begin release_end begin_joystick_acquire clear_local clear_joystick mark_releasing
release_frees_mission sid reason x m s h a n = ground arith
