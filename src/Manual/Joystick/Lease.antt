-- ===== src/Manual/Joystick/Lease.antt =====
-- The joystick's state and the arbiter's owner agree, whatever calls come in between.
use px4_dxp.Prelude.{
  ℕ, ◌≡◌, refl, Bool, true, false, Option, none, some, List, [], ◌∷◌, is_some, arith, Bool-cases,
  inl, inr,
}
use px4_dxp.Manual.Arbiter.{
  ControlOwner, MissionState, Code, Result, ok, err, Arbiter, mission_enter, mission_exit,
  is_mission, joystick_owned, begin_joystick_acquire, mark_joystick_active, mark_joystick_held,
  mark_releasing, clear_joystick,
}
use px4_dxp.Manual.Arbiter
use px4_dxp.Manual.Gateway.{Sending}
use px4_dxp.Manual.Gateway
use px4_dxp.Manual.Control.{
  JoystickState, inactive, acquiring, active, held, releasing, JoystickCommand, Settings, Station,
  Vehicle, Flush, is_live, clear_local, lease_timeout,
}
use px4_dxp.Manual.Drive.{handle_command}
use px4_dxp.Manual.Joystick.{
  Outcome, acquire_begin, acquire_end, release_begin, release_end, emergency_neutralize,
  watchdog_round, with_session, claimed, after_claim, conclude, acquire_abort, claim, acquire_fault,
  acquire_check, activate, stop_stale, force_release,
}
use px4_dxp.Prelude.{pos}

-- The owner that the arbiter must name for a state of the joystick.
abbrev pub joins : JoystickState → ControlOwner → Bool
joins inactive ControlOwner.idle = true
joins inactive ControlOwner.mission = true
joins acquiring ControlOwner.joystick_acquiring = true
joins active ControlOwner.joystick_active = true
joins held ControlOwner.joystick_held = true
joins releasing ControlOwner.releasing = true
joins releasing ControlOwner.idle = true
joins releasing ControlOwner.mission = true
joins _ _ = false

pub record IsLeased (s : Station) : Type 0 where
  pub joined : joins s.state s.arbiter.owner ≡ true
  pub leased : is_live s.state ≡ true → (is_some s.lease_id ≡ true) × (is_some s.last_valid ≡ true)
  pub same_lease : is_live s.state ≡ true → s.arbiter.lease_id ≡ s.lease_id
  pub same_session : is_live s.state ≡ true → s.arbiter.session_id ≡ s.session_id

-- A station at rest, with the gateway's first state.
unfoldable pub init : Station
init = record {
  state = inactive;
  owner_sid = none;
  session_id = none;
  lease_id = none;
  last_seq = none;
  last_client_mono = none;
  last_valid = none;
  last_rate = none;
  last_deadman = false;
  last_throttle = pos 0;
  last_steering = pos 0;
  coalesced = 0;
  stop_reason = none;
  watchdog = false;
  arbiter = Arbiter.init;
  gateway = Gateway.init;
}

-- What the event loop may run next: each is one stretch of code between two awaits.
pub data Event : Type 0 where
  mission_starts : Event
  mission_ends : Event
  begin : Vehicle → MissionState → ℕ → Option ℕ → Sending → Flush → Event
  finish : Outcome → ℕ → ℕ → ℕ → ℕ → Flush → Event
  command : Vehicle → ℕ → ℕ → JoystickCommand → Event
  release : Bool → Option ℕ → Option ℕ → Option ℕ → ℕ → Event
  released : ℕ → Flush → Event
  estop : ℕ → Sending → Event
  watch : ℕ → Sending → Flush → Event

abbrev keep : Station → Result Arbiter → Station
keep s (err e) = s
keep s (ok a) = record s { arbiter = a }

unfoldable pub handle : Settings → Event → Station → Station
handle c mission_starts s = keep s (mission_enter s.arbiter)
handle c mission_ends s = record s { arbiter = mission_exit s.arbiter }
handle c (begin v m sid session w x) s = (acquire_begin c v m sid session w x s).0
handle c (finish o sid session lease now x) s = (acquire_end c o sid session lease now x s).0
handle c (command v now sid cmd) s = (handle_command c v now sid cmd s).0
handle c (release force sid session lease reason) s =
    (release_begin force sid session lease reason s).0
handle c (released reason x) s = release_end reason x s
handle c (estop reason w) s = emergency_neutralize reason w s
handle c (watch now w x) s = watchdog_round c now w x s

starts-IsLeased : (s : Station) → IsLeased s → IsLeased (keep s (mission_enter s.arbiter))
unfolding mission_enter
starts-IsLeased s v = ground arith

ends-IsLeased :
    (s : Station) → IsLeased s → IsLeased (record s { arbiter = mission_exit s.arbiter })
unfolding mission_exit
ends-IsLeased s v = ground arith

-- What the arbiter answers to a claim of the joystick.
abbrev Granted : Result Arbiter → Type 0
Granted (err e) = Unit
Granted (ok a) = a.owner ≡ ControlOwner.joystick_acquiring

begin_joystick_acquire-Granted :
    (m : MissionState) (a : Arbiter) → Granted (begin_joystick_acquire m a)
unfolding begin_joystick_acquire
begin_joystick_acquire-Granted m a = ground arith

after_claim-IsLeased :
    (o : Option Code) (w : Sending) (x : Flush) (s : Station)
    → IsLeased s
    → IsLeased (after_claim o w x s).0
unfolding after_claim acquire_abort clear_local clear_joystick
after_claim-IsLeased none w x s i = ground arith
after_claim-IsLeased (some e) w x s i = ground arith

claim-IsLeased :
    (sid session : ℕ) (a : Arbiter) (s : Station)
    → a.owner ≡ ControlOwner.joystick_acquiring
    → IsLeased (claim sid session a s)
unfolding claim
claim-IsLeased sid session a s h = ground arith

claimed-IsLeased :
    (c : Settings) (v : Vehicle) (sid session : ℕ) (w : Sending) (x : Flush) (s : Station)
    (r : Result Arbiter)
    → Granted r
    → IsLeased s
    → IsLeased (claimed c v sid session w x s r).0
unfolding claimed
claimed-IsLeased c v sid session w x s (err e) g i = i
claimed-IsLeased c v sid session w x s (ok a) g i =
    after_claim-IsLeased (acquire_fault c v) w x (claim sid session a s)
      (claim-IsLeased sid session a s g)

begin-IsLeased :
    (c : Settings) (v : Vehicle) (m : MissionState) (sid : ℕ) (session : Option ℕ) (w : Sending)
    (x : Flush) (s : Station)
    → IsLeased s
    → IsLeased (acquire_begin c v m sid session w x s).0
unfolding acquire_begin with_session
begin-IsLeased c v m sid none w x s i = ground arith
begin-IsLeased c v m sid (some session) w x s i =
    let k =
      claimed-IsLeased c v sid session w x s (begin_joystick_acquire m s.arbiter)
        (begin_joystick_acquire-Granted m s.arbiter) i in
    elim (Bool-cases c.manual_enabled) [ inl e ↦ rw e k | inr e ↦ rw e i ]

conclude-IsLeased :
    (c : Settings) (o : Outcome) (sid session lease now : ℕ) (x : Flush) (s : Station)
    (e : Option Code)
    → acquire_check c o sid session s ≡ e
    → IsLeased s
    → IsLeased (conclude c o session lease now x e s).0
unfolding conclude acquire_check activate acquire_abort clear_local mark_joystick_active
    clear_joystick
conclude-IsLeased c o sid session lease now x s none h i = ground arith
conclude-IsLeased c o sid session lease now x s (some e) h i = ground arith

finish-IsLeased :
    (c : Settings) (o : Outcome) (sid session lease now : ℕ) (x : Flush) (s : Station)
    → IsLeased s
    → IsLeased (acquire_end c o sid session lease now x s).0
unfolding acquire_end
finish-IsLeased c o sid session lease now x s i =
    conclude-IsLeased c o sid session lease now x s (acquire_check c o sid session s) refl i

command-IsLeased :
    (c : Settings) (v : Vehicle) (now sid : ℕ) (cmd : JoystickCommand) (s : Station)
    → IsLeased s
    → IsLeased (handle_command c v now sid cmd s).0
unfolding handle_command mark_joystick_active mark_joystick_held
command-IsLeased c v now sid cmd s i = ground arith

release-IsLeased :
    (force : Bool) (sid session lease : Option ℕ) (reason : ℕ) (s : Station)
    → IsLeased s
    → IsLeased (release_begin force sid session lease reason s).0
unfolding release_begin mark_releasing
release-IsLeased force sid session lease reason s i = ground arith

released-IsLeased : (reason : ℕ) (x : Flush) (s : Station) → IsLeased (release_end reason x s)
unfolding release_end clear_joystick
released-IsLeased reason x s = ground arith

estop-IsLeased :
    (reason : ℕ) (w : Sending) (s : Station) → IsLeased (emergency_neutralize reason w s)
unfolding emergency_neutralize clear_joystick
estop-IsLeased reason w s = ground arith

stop_stale-IsLeased :
    (c : Settings) (now : ℕ) (w : Sending) (s : Station)
    → IsLeased s
    → IsLeased (stop_stale c now w s)
unfolding stop_stale
stop_stale-IsLeased c now w s i = ground arith

watch-IsLeased :
    (c : Settings) (now : ℕ) (w : Sending) (x : Flush) (s : Station)
    → IsLeased s
    → IsLeased (watchdog_round c now w x s)
unfolding watchdog_round force_release
watch-IsLeased c now w x s i =
    let k = stop_stale-IsLeased c now w s i in
    let z =
      released-IsLeased lease_timeout x
        (release_begin true none none none lease_timeout (stop_stale c now w s)).0 in
    ground arith

handle-IsLeased : (c : Settings) (e : Event) (s : Station) → IsLeased s → IsLeased (handle c e s)
unfolding handle
handle-IsLeased c mission_starts s i = starts-IsLeased s i
handle-IsLeased c mission_ends s i = ends-IsLeased s i
handle-IsLeased c (begin v m sid session w x) s i = begin-IsLeased c v m sid session w x s i
handle-IsLeased c (finish o sid session lease now x) s i =
    finish-IsLeased c o sid session lease now x s i
handle-IsLeased c (command v now sid cmd) s i = command-IsLeased c v now sid cmd s i
handle-IsLeased c (release force sid session lease reason) s i =
    release-IsLeased force sid session lease reason s i
handle-IsLeased c (released reason x) s i = released-IsLeased reason x s
handle-IsLeased c (estop reason w) s i = estop-IsLeased reason w s
handle-IsLeased c (watch now w x) s i = watch-IsLeased c now w x s i

unfoldable pub run_from : Settings → Station → List Event → Station
run_from c s [] = s
run_from c s (e ∷ es) = run_from c (handle c e s) es

run_from-IsLeased :
    (c : Settings) (s : Station) (es : List Event) → IsLeased s → IsLeased (run_from c s es)
unfolding run_from
run_from-IsLeased c s [] i = i
run_from-IsLeased c s (e ∷ es) i = run_from-IsLeased c (handle c e s) es (handle-IsLeased c e s i)

init-IsLeased : IsLeased init
unfolding init Arbiter.init
init-IsLeased = ground arith

-- After any events from rest the owner that the arbiter names fits the state of the joystick, and
-- while the lease is live its id and the time of its last command are set, and the arbiter holds
-- the same lease and the same session.
pub run-IsLeased : (c : Settings) (es : List Event) → IsLeased (run_from c init es)
run-IsLeased c es = run_from-IsLeased c init es init-IsLeased

-- After any events from rest: while the lease is live no mission call is let in, and while a
-- mission call owns the vehicle no lease is live.
pub run_exclusive :
    (c : Settings) (es : List Event)
    → let s = run_from c init es in
      (is_live s.state ≡ true → mission_enter s.arbiter ≡ err Code.joystick_active)
      × (is_mission s.arbiter.owner ≡ true → is_live s.state ≡ false)
unfolding mission_enter
run_exclusive c es = let i = (run-IsLeased c es).joined in ground arith
