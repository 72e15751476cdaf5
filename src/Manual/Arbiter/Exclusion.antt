-- ===== src/Manual/Arbiter/Exclusion.antt =====
-- What the arbiter's claims guarantee.
use px4_dxp.Prelude.{◌≡◌, Bool, true, false, none, arith, not, ◌&&◌}
use px4_dxp.Manual.Arbiter.{
  ControlOwner, MissionState, Code, mission_active, Result, ok, err, Arbiter, is_mission_active,
  is_idle, joystick_owned, mission_enter, mission_exit, begin_joystick_acquire,
}

-- How a claim ends: it is granted, with the owner that it asks for, exactly in the states that
-- it is meant for.
abbrev pub Claims : (Arbiter → Type 0) → Bool → Result Arbiter → Type 0
Claims P free (ok a) = (free ≡ true) × P a
Claims P free (err e) = free ≡ false

-- The joystick is granted control exactly when the owner is idle and no mission is active; its
-- owner is then `joystick_acquiring`, which shuts the mission out.
pub acquire_exclusive :
    (s : MissionState) (a : Arbiter)
    → Claims
        (λ b.
          (b.owner ≡ ControlOwner.joystick_acquiring)
          × (mission_enter b ≡ err Code.joystick_active))
        (is_idle a.owner && not (is_mission_active s))
        (begin_joystick_acquire s a)
unfolding begin_joystick_acquire mission_enter
acquire_exclusive s a = ground arith

-- The mission is granted control exactly when the joystick does not own it, and the joystick is
-- then refused in every mission state.
pub mission_exclusive :
    (s : MissionState) (a : Arbiter)
    → Claims
        (λ b. begin_joystick_acquire s b ≡ err mission_active)
        (not (joystick_owned a))
        (mission_enter a)
unfolding begin_joystick_acquire mission_enter
mission_exclusive s a = ground arith

-- Two overlapping mission calls: when the first ends, the joystick is granted control while the
-- second is still in its body, in every mission state that is not active.
pub overlapping_calls :
    (s : MissionState) (a : Arbiter) {b c : Arbiter}
    → mission_enter a ≡ ok b
    → mission_enter b ≡ ok c
    → is_mission_active s ≡ false
    → begin_joystick_acquire s (mission_exit c)
      ≡ ok (record a { owner = ControlOwner.joystick_acquiring; stop_reason = none })
unfolding begin_joystick_acquire mission_enter mission_exit
overlapping_calls s a p q n = ground arith
