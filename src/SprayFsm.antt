-- ===== src/SprayFsm.antt =====
-- src/spray_fsm.py: the actuator command state machine of the spray controller.
-- Times are whole ticks of the caller's monotonic clock; a test `now - t < d` is written
-- `now < t + d`, which is the same over exact numbers whatever the order of `now` and `t`.
use px4_dxp.Prelude.{
  ℕ, ◌+◌, ◌*◌, ◌^◌, ◌≡◌, Bool, true, false, not, ◌&&◌, ◌||◌, Option, none, some, List, [], ◌∷◌, ltb,
  leb, ◌==◌, if◌then◌else◌,
}
use Prim.Native.Nat.{min}
pub mod Invariant
pub mod Safety
pub mod Sequence
pub mod Recovery
mod Tests

pub data SprayState : Type 0 where
  off_unconfirmed off_confirmed on_pending on_confirmed off_pending recovery disabled : SprayState

pub record Inputs : Type 0 where
  pub desired : Bool
  pub safety_ok : Bool
  pub enabled : Bool

-- The events that the node feeds the machine.
pub data Event : Type 0 where
  tick_at : Inputs → ℕ → Event
  ack_at : ℕ → Bool → ℕ → Event
  reset_at : ℕ → Event

pub record SprayCommand : Type 0 where
  pub on : Bool
  pub seq : ℕ
  pub force : Bool

pub record Config : Type 0 where
  pub backoff_base : ℕ
  pub backoff_max : ℕ
  pub ack_timeout : ℕ

pub record Fsm : Type 0 where
  pub state : SprayState
  pub cmd_seq : ℕ
  pub pending_since : Option ℕ
  pub is_disabled : Bool
  pub recovery_attempt : ℕ
  pub recovery_deadline : Option ℕ
  pub prev_enabled : Bool
  pub prev_safety_ok : Bool

-- `__init__`
unfoldable pub init : Fsm
init = record {
  state = off_unconfirmed;
  cmd_seq = 0;
  pending_since = none;
  is_disabled = false;
  recovery_attempt = 0;
  recovery_deadline = none;
  prev_enabled = true;
  prev_safety_ok = true;
}

abbrev pub is_spraying : SprayState → Bool
is_spraying on_confirmed = true
is_spraying _ = false

abbrev pub is_commanded : SprayState → Bool
is_commanded on_confirmed = true
is_commanded on_pending = true
is_commanded _ = false

abbrev pub is_recovery : SprayState → Bool
is_recovery recovery = true
is_recovery _ = false

-- the properties `spraying` and `commanded`
unfoldable pub spraying : Fsm → Bool
spraying f = is_spraying f.state

unfoldable pub commanded : Fsm → Bool
commanded f = is_commanded f.state

abbrev pub Step : Type 0
Step = Fsm × Option SprayCommand

dispatch_off : Bool → ℕ → Fsm → Step
dispatch_off force now f = (
  record f { cmd_seq = f.cmd_seq + 1; state = off_pending; pending_since = some now },
  some (record { on = false; seq = f.cmd_seq + 1; force = force }),
)

dispatch_on : ℕ → Fsm → Step
dispatch_on now f = (
  record f { cmd_seq = f.cmd_seq + 1; state = on_pending; pending_since = some now },
  some (record { on = true; seq = f.cmd_seq + 1; force = false }),
)

unfoldable pub backoff : Config → ℕ → ℕ
backoff c attempt = min (c.backoff_base * 2 ^ attempt) c.backoff_max

enter_recovery : Config → ℕ → Fsm → Fsm
unfolding backoff
enter_recovery c now f = record f {
  recovery_deadline = some (now + backoff c f.recovery_attempt);
  recovery_attempt = f.recovery_attempt + 1;
  state = recovery;
  pending_since = none;
}

-- What a pending command that was never answered becomes, by the state it stands in.
expire : Config → ℕ → SprayState → Fsm → Step
unfolding dispatch_off enter_recovery
expire c now on_pending f = dispatch_off false now f
expire c now off_pending f = (enter_recovery c now f, none)
expire c now _ f = (record f { pending_since = none }, none)

check_since : Config → ℕ → Option ℕ → Fsm → Step
unfolding expire
check_since c now none f = (f, none)
check_since c now (some t) f =
    if ltb now (t + c.ack_timeout) then (f, none) else expire c now f.state f

check_pending_timeout : Config → ℕ → Fsm → Step
unfolding check_since
check_pending_timeout c now f = check_since c now f.pending_since f

-- `self._recovery_deadline is not None and now >= self._recovery_deadline`
deadline_passed : ℕ → Option ℕ → Bool
deadline_passed now none = false
deadline_passed now (some d) = leb d now

normal_tick : SprayState → Bool → ℕ → Fsm → Step
unfolding dispatch_off dispatch_on deadline_passed
normal_tick off_unconfirmed desired now f = dispatch_off false now f
normal_tick recovery desired now f =
    if deadline_passed now f.recovery_deadline then dispatch_off false now f else (f, none)
normal_tick off_confirmed desired now f = if desired then dispatch_on now f else (f, none)
normal_tick on_pending desired now f = if desired then (f, none) else dispatch_off false now f
normal_tick on_confirmed desired now f = if desired then (f, none) else dispatch_off false now f
normal_tick off_pending desired now f = (f, none)
normal_tick disabled desired now f = (f, none)

drive_off_disabled : SprayState → ℕ → Fsm → Step
unfolding dispatch_off
drive_off_disabled off_confirmed now f = (record f { state = disabled }, none)
drive_off_disabled disabled now f = (f, none)
drive_off_disabled off_pending now f = (f, none)
drive_off_disabled _ now f = dispatch_off true now f

drive_off_safety : SprayState → ℕ → Fsm → Step
unfolding dispatch_off deadline_passed
drive_off_safety off_confirmed now f = (f, none)
drive_off_safety disabled now f = (f, none)
drive_off_safety off_pending now f = (f, none)
drive_off_safety recovery now f =
    if deadline_passed now f.recovery_deadline then dispatch_off true now f else (f, none)
drive_off_safety _ now f = dispatch_off true now f

-- The four edges at the top of `tick`, in the order of the source.
disable_edge : Bool → Fsm → Fsm
disable_edge enabled f =
    if not enabled && f.prev_enabled
    then record f { is_disabled = true; recovery_attempt = 0 }
    else f

enable_edge : Bool → Fsm → Fsm
enable_edge enabled f =
    if enabled && not f.prev_enabled
    then record f {
      is_disabled = false;
      state = off_unconfirmed;
      recovery_attempt = 0;
      recovery_deadline = none;
      pending_since = none;
    }
    else f

retry_at : ℕ → Fsm → Fsm
retry_at now f = if is_recovery f.state then record f { recovery_deadline = some now } else f

safety_edge : Bool → Bool → ℕ → Fsm → Fsm
unfolding retry_at
safety_edge enabled safety_ok now f =
    if enabled && (not safety_ok && f.prev_safety_ok)
    then retry_at now (record f { recovery_attempt = 0 })
    else f

edges : Bool → Bool → ℕ → Fsm → Fsm
unfolding disable_edge enable_edge safety_edge
edges safety_ok enabled now f =
    let f1 = enable_edge enabled (disable_edge enabled f) in
    let f2 = safety_edge enabled safety_ok now (record f1 { prev_enabled = enabled }) in
    record f2 { prev_safety_ok = safety_ok }

drive : Bool → Bool → Bool → ℕ → Fsm → Step
unfolding normal_tick drive_off_disabled drive_off_safety
drive desired safety_ok enabled now f =
    if not enabled
    then drive_off_disabled f.state now f
    else if not safety_ok
    then drive_off_safety f.state now f
    else normal_tick f.state desired now f

-- `if timed_out is not None: return timed_out`
or_drive : Bool → Bool → Bool → ℕ → Step → Step
or_drive desired safety_ok enabled now (f, some cmd) = (f, some cmd)
or_drive desired safety_ok enabled now (f, none) = drive desired safety_ok enabled now f

unfoldable pub tick : Config → Inputs → ℕ → Fsm → Step
unfolding edges check_pending_timeout or_drive drive
tick c i now f =
    or_drive i.desired i.safety_ok i.enabled now
      (check_pending_timeout c now (edges i.safety_ok i.enabled now f))

ack : Config → SprayState → Bool → ℕ → Fsm → Step
unfolding dispatch_off enter_recovery
ack c on_pending success now f =
    if success
    then (record f { pending_since = none; state = on_confirmed }, none)
    else dispatch_off false now f
ack c off_pending success now f =
    if success
    then (
      record f {
        pending_since = none;
        recovery_attempt = 0;
        recovery_deadline = none;
        state = if f.is_disabled then disabled else off_confirmed;
      },
      none,
    )
    else (enter_recovery c now f, none)
ack c _ success now f = (f, none)

unfoldable pub on_ack : Config → ℕ → Bool → ℕ → Fsm → Step
unfolding ack
on_ack c seq success now f = if seq == f.cmd_seq then ack c f.state success now f else (f, none)

unfoldable pub note_event_reset : ℕ → Fsm → Fsm
unfolding retry_at
note_event_reset now f = retry_at now (record f { recovery_attempt = 0 })

-- One event, and a whole history of them from `init`.
unfoldable pub handle : Config → Event → Fsm → Step
unfolding tick on_ack note_event_reset
handle c (tick_at i now) f = tick c i now f
handle c (ack_at seq success now) f = on_ack c seq success now f
handle c (reset_at now) f = (note_event_reset now f, none)

unfoldable pub run_from : Config → Fsm → List Event → Fsm
unfolding handle
run_from c f [] = f
run_from c f (e ∷ es) = run_from c (handle c e f).0 es

unfoldable pub run : Config → List Event → Fsm
unfolding run_from init
run c es = run_from c init es
