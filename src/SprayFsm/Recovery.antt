-- ===== src/SprayFsm/Recovery.antt =====
-- Time-outs, backoff and the way to a confirmed OFF.
use px4_dxp.Prelude.{
  ℕ, ◌+◌, ◌*◌, ◌^◌, ◌≤◌, ◌<◌, ◌≡◌, ◌⊎◌, Bool, true, false, ◌&&◌, Option, none, some, arith,
}
use px4_dxp.SprayFsm.{
  SprayState, off_confirmed, off_pending, recovery, disabled, Config, Fsm, Inputs, Step, tick,
  on_ack, backoff,
}
use px4_dxp.SprayFsm.Invariant.{IsValid}
use native.Mathlib.Nat.{pow-suc}
use native.Mathlib.Numerals.{add-one}

-- The spray is off and the actuator has confirmed it.
abbrev pub is_off : SprayState → Bool
is_off off_confirmed = true
is_off disabled = true
is_off _ = false

-- A deadline or a stamp that is set lies before, or after, a time.
abbrev pub Passed : Option ℕ → ℕ → Type 0
Passed none now = Unit
Passed (some d) now = d ≤ now

abbrev pub InTime : Config → ℕ → Option ℕ → Type 0
InTime c now none = Unit
InTime c now (some t) = now < t + c.ack_timeout

abbrev pub all_set : Inputs → Bool
all_set i = i.desired && (i.safety_ok && i.enabled)

-- From every valid state, one tick that does not want spray followed by a successful ack of the
-- command then current leaves the spray off and confirmed. The tick comes before the ack
-- time-out of a pending command, and not before the deadline of a backoff.
pub tick-ack-is_off :
    (c : Config) (i : Inputs) (now later : ℕ) (f : Fsm)
    → IsValid f
    → all_set i ≡ false
    → InTime c now f.pending_since
    → Passed f.recovery_deadline now
    → let g = (tick c i now f).0 in
      (is_off g.state ≡ true) ⊎ (is_off (on_ack c g.cmd_seq true later g).0.state ≡ true)
unfolding tick on_ack
tick-ack-is_off c i now later f v n t d = ground arith

-- A step that sends OFF, or one that waits in the backoff.
abbrev pub MovesOn : Step → Type 0
MovesOn (f, none) = f.state ≡ recovery
MovesOn (f, some cmd) = cmd.on ≡ false

-- A pending command that is not answered within the time-out does not stay: the next tick sends
-- a fresh OFF or starts the backoff.
pub tick-expires :
    (c : Config) (i : Inputs) (now t : ℕ) (f : Fsm)
    → IsValid f
    → f.pending_since ≡ some t
    → t + c.ack_timeout ≤ now
    → MovesOn (tick c i now f)
unfolding tick
tick-expires c i now t f v p late = ground arith

backoff-le : (c : Config) (n : ℕ) → backoff c n ≤ c.backoff_max
unfolding backoff
backoff-le c n = omega arith

pow-doubles : (b n : ℕ) → b * 2 ^ (n + 1) ≡ 2 * (b * 2 ^ n)
pow-doubles b n = rw add-one (rw pow-suc (omega arith))

backoff_mono : (c : Config) (n : ℕ) → backoff c n ≤ backoff c (n + 1)
unfolding backoff
backoff_mono c n = omega (arith, pow-doubles c.backoff_base n)

-- While the spray is disabled the backoff is not waited for: in `recovery` every tick sends a
-- forced OFF, whatever the deadline.
pub tick-recovery_disabled :
    (c : Config) (i : Inputs) (now : ℕ) (f : Fsm)
    → IsValid f
    → f.state ≡ recovery
    → i.enabled ≡ false
    → (tick c i now f).1 ≡ some (record { on = false; seq = f.cmd_seq + 1; force = true })
unfolding tick
tick-recovery_disabled c i now f v s e = ground arith

-- A failed OFF starts a backoff of the base delay doubled once per attempt, at most the maximum,
-- and counts the attempt; a further failure waits no shorter.
pub on_ack-backoff :
    (c : Config) (now : ℕ) (f : Fsm)
    → f.state ≡ off_pending
    → let g = (on_ack c f.cmd_seq false now f).0 in
      (g.state ≡ recovery)
      × (g.recovery_attempt ≡ f.recovery_attempt + 1)
      × (g.recovery_deadline ≡ some (now + backoff c f.recovery_attempt))
      × (backoff c f.recovery_attempt ≤ c.backoff_max)
      × (backoff c f.recovery_attempt ≤ backoff c g.recovery_attempt)
unfolding on_ack
on_ack-backoff c now f s =
    ground (arith, backoff-le c f.recovery_attempt, backoff_mono c f.recovery_attempt)
