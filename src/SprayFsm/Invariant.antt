-- ===== src/SprayFsm/Invariant.antt =====
-- What holds of the spray state machine between two events, and that every event keeps it.
use px4_dxp.Prelude.{ℕ, ◌≡◌, Bool, true, false, not, List, [], ◌∷◌, is_some, arith}
use px4_dxp.SprayFsm.{
  SprayState, on_pending, off_pending, recovery, disabled, Config, Fsm, Inputs, Event, tick_at,
  ack_at, reset_at, init, tick, on_ack, note_event_reset, handle, run_from, run,
}

abbrev pub is_pending : SprayState → Bool
is_pending on_pending = true
is_pending off_pending = true
is_pending _ = false

-- The states in which the machine may stand once it has been disabled.
abbrev pub is_shut : SprayState → Bool
is_shut off_pending = true
is_shut recovery = true
is_shut disabled = true
is_shut _ = false

abbrev pub is_terminal : SprayState → Bool
is_terminal disabled = true
is_terminal _ = false

abbrev pub is_backing_off : SprayState → Bool
is_backing_off recovery = true
is_backing_off _ = false

pub record IsValid (f : Fsm) : Type 0 where
  pub stamped : is_some f.pending_since ≡ is_pending f.state
  pub latched : f.is_disabled ≡ not f.prev_enabled
  pub shut : f.is_disabled ≡ true → is_shut f.state ≡ true
  pub terminal : is_terminal f.state ≡ true → f.is_disabled ≡ true
  pub retried : is_backing_off f.state ≡ true → is_some f.recovery_deadline ≡ true

init-IsValid : IsValid init
unfolding init
init-IsValid = ground arith

tick-IsValid :
    (c : Config) (i : Inputs) (now : ℕ) (f : Fsm) → IsValid f → IsValid (tick c i now f).0
unfolding tick
tick-IsValid c i now f v = ground arith

on_ack-IsValid :
    (c : Config) (seq : ℕ) (success : Bool) (now : ℕ) (f : Fsm)
    → IsValid f
    → IsValid (on_ack c seq success now f).0
unfolding on_ack
on_ack-IsValid c seq success now f v = ground arith

note_event_reset-IsValid : (now : ℕ) (f : Fsm) → IsValid f → IsValid (note_event_reset now f)
unfolding note_event_reset
note_event_reset-IsValid now f v = ground arith

handle-IsValid : (c : Config) (e : Event) (f : Fsm) → IsValid f → IsValid (handle c e f).0
unfolding handle
handle-IsValid c (tick_at i now) f v = tick-IsValid c i now f v
handle-IsValid c (ack_at seq success now) f v = on_ack-IsValid c seq success now f v
handle-IsValid c (reset_at now) f v = note_event_reset-IsValid now f v

run_from-IsValid : (c : Config) (f : Fsm) (es : List Event) → IsValid f → IsValid (run_from c f es)
unfolding run_from
run_from-IsValid c f [] v = v
run_from-IsValid c f (e ∷ es) v = run_from-IsValid c (handle c e f).0 es (handle-IsValid c e f v)

-- After any history of ticks, acks and resets: a pending stamp is kept exactly in the two pending
-- states, the disable latch is the negation of the last `enabled`, a disabled machine stands in
-- `off_pending`, `recovery` or `disabled`, `disabled` is only reached with the latch set, and
-- `recovery` always has a deadline.
pub run-IsValid : (c : Config) (es : List Event) → IsValid (run c es)
unfolding run
run-IsValid c es = run_from-IsValid c init es init-IsValid
