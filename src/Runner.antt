-- ===== src/Runner.antt =====
-- src/mission_runner_node.py: the step machine that takes the vehicle through a mission. Times are
-- nanoseconds of the ROS clock; a test `now - t > d` is written `t + d < now`. Which flight mode is
-- reported is a number but for the two that the node names. What a service client, the pending
-- future and the clock answer to a tick are its input; a tick sends at most one request.
pub mod Arming
pub mod Leaving
pub mod Skips
mod Tests
use px4_dxp.Prelude.{
  ℕ, suc, ◌+◌, Bool, true, false, not, ◌&&◌, ◌||◌, Option, none, some, List, [], ◌∷◌, ℤ, pos,
  negsuc, ltb, leb, ◌==◌, if◌then◌else◌,
}

pub data MissionPhase : Type 0 where
  init wait_fcu wait_stream switch_offboard confirm_offboard wait_offboard_state : MissionPhase
  wait_position arm confirm_arm running done disarm confirm_disarm exit_manual : MissionPhase
  confirm_manual finished aborted : MissionPhase

pub data Mode : Type 0 where
  offboard manual : Mode
  other : ℕ → Mode

pub data Request : Type 0 where
  set_mode : Mode → Request
  arming : Bool → Request

-- The message of /mavros/state.
pub record State : Type 0 where
  pub mode : Mode
  pub armed : Bool
  pub connected : Bool

pub record Params : Type 0 where
  pub mission_timeout : ℕ
  pub done_settle : ℕ
  pub stream_warmup : ℕ
  pub mode_switch_timeout : ℕ
  pub dry_run : Bool
  pub post_offboard_settle : ℕ
  pub arm_max_retries : ℕ
  pub arm_retry_delay : ℕ

-- The pending future at a tick: not done, or its result, which may be missing.
pub data Future : Type 0 where
  waiting : Future
  answered : Option Bool → Future

pub record Input : Type 0 where
  pub now : ℕ
  pub future : Future
  pub set_mode_ready : Bool
  pub arm_ready : Bool

-- `phase_t0` is set on the way to each phase that reads it. `rpp_state` is none before the first
-- debug message and for one that is too short; the code treats both alike.
pub record Runner : Type 0 where
  pub phase : MissionPhase
  pub fcu_state : Option State
  pub rpp_state : Option ℤ
  pub mission_t0 : ℕ
  pub phase_t0 : ℕ
  pub done_t0 : Option ℕ
  pub was_offboard : Bool
  pub pending_future : Bool
  pub future_t0 : Option ℕ
  pub running_t0 : Option ℕ
  pub arm_attempts : ℕ
  pub arm_retry_t0 : Option ℕ
  pub is_shut_down : Bool

-- `__init__`; `none` is its SystemExit.
unfoldable pub start : Bool → ℕ → Option Runner
start false now = none
start true now = some (record {
  phase = init;
  fcu_state = none;
  rpp_state = none;
  mission_t0 = now;
  phase_t0 = 0;
  done_t0 = none;
  was_offboard = false;
  pending_future = false;
  future_t0 = none;
  running_t0 = none;
  arm_attempts = 0;
  arm_retry_t0 = none;
  is_shut_down = false;
})

abbrev pub service_timeout : ℕ
service_timeout = 5_000_000_000

abbrev pub is_offboard : Mode → Bool
is_offboard offboard = true
is_offboard _ = false

abbrev pub is_code : ℕ → Option ℤ → Bool
is_code n (some (pos k)) = k == n
is_code n _ = false

abbrev pub is_running : MissionPhase → Bool
is_running running = true
is_running _ = false

abbrev pub was_armed : Option State → Bool
was_armed none = false
was_armed (some s) = s.armed

-- `_state_cb`
unfoldable pub state_cb : State → Runner → Runner
state_cb msg r =
    let r1 = record r { fcu_state = some msg } in
    if is_running r.phase && (r.was_offboard && not (is_offboard msg.mode))
    then record r1 { phase = aborted }
    else if is_running r.phase && (was_armed r.fcu_state && not msg.armed)
    then record r1 { phase = aborted }
    else r1

-- `_debug_cb`
unfoldable pub debug_cb : Option ℤ → Runner → Runner
debug_cb code r = record r { rpp_state = code }

abbrev pub Step : Type 0
Step = Runner × Option Request

abbrev pub quiet : Runner → Step
quiet r = (r, none)

-- `_call_set_mode` and `_call_arm` with the phase behind them, or behind a client that is not ready.
unfoldable pub call : Bool → Request → MissionPhase → MissionPhase → ℕ → Runner → Step
call ready q sent unsent now r =
    if ready
    then (record r { phase = sent; pending_future = true; future_t0 = some now }, some q)
    else (record r { phase = unsent }, none)

abbrev pub is_done : Future → Bool
is_done waiting = false
is_done (answered r) = true

-- `bool(r.success) if r else False`
abbrev pub accepted : Future → Bool
accepted (answered (some b)) = b
accepted _ = false

abbrev pub future_timed_out : ℕ → Option ℕ → Bool
future_timed_out now none = false
future_timed_out now (some t) = ltb (t + service_timeout) now

abbrev pub clear_future : Runner → Runner
clear_future r = record r { pending_future = false; future_t0 = none }

-- The phases in which the mission time-out does not count.
abbrev pub is_exempt : MissionPhase → Bool
is_exempt disarm = true
is_exempt confirm_disarm = true
is_exempt exit_manual = true
is_exempt confirm_manual = true
is_exempt finished = true
is_exempt aborted = true
is_exempt init = true
is_exempt wait_offboard_state = true
is_exempt _ = false

abbrev pub check_timeout : Params → ℕ → Runner → Runner
check_timeout c now r =
    if ltb (r.mission_t0 + c.mission_timeout) now && not (is_exempt r.phase)
    then record r { phase = aborted }
    else r

abbrev pub is_connected : Option State → Bool
is_connected none = false
is_connected (some s) = s.connected

abbrev pub in_offboard : Option State → Bool
in_offboard none = false
in_offboard (some s) = is_offboard s.mode

-- CONFIRM_OFFBOARD
unfoldable pub confirm_offboard_tick : Input → Runner → Step
confirm_offboard_tick i r =
    if r.pending_future && is_done i.future
    then quiet (record (clear_future r) { phase_t0 = i.now; phase = wait_offboard_state })
    else if future_timed_out i.now r.future_t0
    then quiet (record (clear_future r) { phase = aborted })
    else quiet r

-- WAIT_POSITION
unfoldable pub wait_position_tick : Params → Input → Runner → Step
wait_position_tick c i r =
    if is_code 1 r.rpp_state
    then (if leb (r.phase_t0 + c.post_offboard_settle) i.now
        then quiet (record r { phase = arm })
        else quiet r)
    else if ltb (r.phase_t0 + c.mode_switch_timeout) i.now
    then quiet (record r { phase = aborted })
    else quiet r

-- CONFIRM_ARM: during the backoff, and behind the answer.
unfoldable pub rejected : Params → ℕ → Runner → Runner
rejected c now r =
    let r1 = record (clear_future r) { arm_attempts = suc r.arm_attempts } in
    if ltb (suc r.arm_attempts) c.arm_max_retries
    then record r1 { arm_retry_t0 = some now }
    else record r1 { phase = exit_manual }

unfoldable pub confirm_arm_tick : Params → Input → Runner → Step
unfolding rejected
confirm_arm_tick c i r = elim r.arm_retry_t0 [
  | some t ↦
      if leb (t + c.arm_retry_delay) i.now
      then quiet (record r { arm_retry_t0 = none; phase = arm })
      else quiet r
  | none ↦
      if r.pending_future && is_done i.future
      then (if accepted i.future
          then quiet (record (clear_future r) { running_t0 = some i.now; phase = running })
          else quiet (rejected c i.now r))
      else if future_timed_out i.now r.future_t0
      then quiet (record (clear_future r) { phase = exit_manual })
      else quiet r
]

-- RUNNING: `done_t0` is the time of the mission at which DONE was first reported without a break.
unfoldable pub running_tick : Params → ℕ → Runner → Step
running_tick c now r = elim r.rpp_state [
  | none ↦ quiet r
  | some code ↦
      if is_code 3 (some code)
      then elim r.done_t0 [
        | none ↦ quiet (record r { done_t0 = some now })
        | some t ↦
            if leb (t + c.done_settle) now then quiet (record r { phase = disarm }) else quiet r
      ]
      else quiet (record r { done_t0 = none })
]

-- CONFIRM_DISARM and CONFIRM_MANUAL: on with the answer or the time-out.
unfoldable pub confirm_end_tick : MissionPhase → Input → Runner → Step
confirm_end_tick next i r =
    if (r.pending_future && is_done i.future) || future_timed_out i.now r.future_t0
    then quiet (record (clear_future r) { phase = next })
    else quiet r

unfoldable pub dispatch : Params → Input → Runner → MissionPhase → Step
unfolding confirm_offboard_tick wait_position_tick confirm_arm_tick running_tick confirm_end_tick
    call
dispatch c i r init = quiet (record r { phase = wait_fcu })
dispatch c i r wait_fcu =
    if is_connected r.fcu_state
    then quiet (record r { phase_t0 = i.now; phase = wait_stream })
    else quiet r
dispatch c i r wait_stream =
    if leb (r.phase_t0 + c.stream_warmup) i.now
    then quiet (record r { phase = switch_offboard })
    else quiet r
dispatch c i r switch_offboard =
    if c.dry_run
    then quiet (record r { phase = running; was_offboard = true })
    else call i.set_mode_ready (set_mode offboard) confirm_offboard aborted i.now r
dispatch c i r confirm_offboard = confirm_offboard_tick i r
dispatch c i r wait_offboard_state =
    if in_offboard r.fcu_state
    then quiet (record r { was_offboard = true; phase_t0 = i.now; phase = wait_position })
    else if ltb (r.phase_t0 + c.mode_switch_timeout) i.now
    then quiet (record r { phase = aborted })
    else quiet r
dispatch c i r wait_position = wait_position_tick c i r
dispatch c i r arm =
    if c.dry_run
    then quiet (record r { phase = running })
    else call i.arm_ready (arming true) confirm_arm exit_manual i.now r
dispatch c i r confirm_arm = confirm_arm_tick c i r
dispatch c i r running = running_tick c i.now r
dispatch c i r done = quiet r
dispatch c i r disarm =
    if c.dry_run
    then quiet (record r { phase = exit_manual })
    else call i.arm_ready (arming false) confirm_disarm exit_manual i.now r
dispatch c i r confirm_disarm = confirm_end_tick exit_manual i r
dispatch c i r exit_manual =
    if c.dry_run
    then quiet (record r { phase = finished })
    else call i.set_mode_ready (set_mode manual) confirm_manual finished i.now r
dispatch c i r confirm_manual = confirm_end_tick finished i r
dispatch c i r finished = quiet (record r { is_shut_down = true })
dispatch c i r aborted = quiet (record (clear_future r) { phase = disarm })

-- `_phase_tick`; the timer is cancelled when the node shuts down.
unfoldable pub phase_tick : Params → Input → Runner → Step
unfolding dispatch
phase_tick c i r =
    let r1 = check_timeout c i.now r in if r.is_shut_down then quiet r else dispatch c i r1 r1.phase

pub data Event : Type 0 where
  heard : State → Event
  reported : Option ℤ → Event
  ticked : Input → Event

unfoldable pub handle : Params → Event → Runner → Step
unfolding state_cb debug_cb phase_tick
handle c (heard m) r = quiet (state_cb m r)
handle c (reported code) r = quiet (debug_cb code r)
handle c (ticked i) r = phase_tick c i r

abbrev pub noted : Option Request → List Request → List Request
noted none qs = qs
noted (some q) qs = q ∷ qs

-- A history of callbacks and ticks, with the requests in their order.
unfoldable pub run_from : Params → Runner → List Event → Runner × List Request
unfolding handle
run_from c r [] = (r, [])
run_from c r (e ∷ es) = let s = handle c e r in let t = run_from c s.0 es in (t.0, noted s.1 t.1)
