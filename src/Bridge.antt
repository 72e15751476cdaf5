-- ===== src/Bridge.antt =====
-- server/bridge_health.py: the watchdog of the link to the flight controller. Times are whole
-- clock ticks of a clock that does not run backwards; the constants of server/config.py are the
-- fields of `Settings`. What the ROS node, the clock and the offboard controller answer are
-- arguments; what a tick asks of the rest of the system is the list of effects that it returns.
pub mod Budget
pub mod Gap
pub mod Status
mod Tests
use px4_dxp.Prelude.{
  ℕ, zero, suc, ◌+◌, ◌-◌, Bool, true, false, not, ◌&&◌, ◌||◌, Option, none, some, List, [], ◌∷◌,
  ◌++◌, ℤ, pos, negsuc, ltb, leb, length, if◌then◌else◌,
}

pub data Health : Type 0 where
  healthy degraded recovering failed : Health

pub record Settings : Type 0 where
  pub auto_recover : Bool
  pub state_stale : ℕ
  pub frozen_grace : ℕ
  pub recovery_max : ℕ
  pub recovery_window : ℕ
  pub recovery_cooldown : ℕ

-- The entries of `get_bridge_snapshot` that are read; a missing age is `none`.
pub record Snapshot : Type 0 where
  pub fcu_connected : Bool
  pub state_age : Option ℕ
  pub publishers : ℤ

-- The parts that `_reason` joins; the last is its answer without any part.
pub data Cause : Type 0 where
  fcu_disconnected no_state_msg no_state_publisher frozen : Cause
  state_age : ℕ → Cause

pub record Manager : Type 0 where
  pub health : Health
  pub degraded_since : Option ℕ
  pub cooldown_until : ℕ
  pub recovery_times : List ℕ
  pub recovery_count : ℕ
  pub last_recovery_reason : List Cause
  pub observe_alerted : Bool

unfoldable pub init : Manager
init = record {
  health = healthy;
  degraded_since = none;
  cooldown_until = 0;
  recovery_times = [];
  recovery_count = 0;
  last_recovery_reason = [];
  observe_alerted = false;
}

-- A record of a change of health, the observe-only warning, the best-effort stop of the mission,
-- and the restart of the service, with the time at which it was decided.
pub data Effect : Type 0 where
  changed : Health → Health → Effect
  observed stop_mission : Effect
  restart : ℕ → Effect

abbrev pub is_zero : ℤ → Bool
is_zero (pos zero) = true
is_zero _ = false

-- `age is None or age > BRIDGE_STATE_STALE_MS`
abbrev pub is_stale : ℕ → Option ℕ → Bool
is_stale limit none = true
is_stale limit (some age) = ltb limit age

unfoldable pub is_frozen : Settings → Snapshot → Bool
is_frozen c s = not s.fcu_connected || (is_stale c.state_stale s.state_age || is_zero s.publishers)

abbrev pub when : {A : Type 0} → Bool → A → List A
when true e = e ∷ []
when false e = []

abbrev pub age_cause : ℕ → Option ℕ → List Cause
age_cause limit none = no_state_msg ∷ []
age_cause limit (some age) = when (ltb limit age) (Cause.state_age age)

abbrev pub or_frozen : List Cause → List Cause
or_frozen [] = frozen ∷ []
or_frozen (b ∷ bits) = b ∷ bits

unfoldable pub reason : Settings → Snapshot → List Cause
reason c s = or_frozen (
    when (not s.fcu_connected) fcu_disconnected
    ++ (age_cause c.state_stale s.state_age ++ when (is_zero s.publishers) no_state_publisher))

-- `_within_backoff` first drops the recoveries before the window.
unfoldable pub prune : ℕ → ℕ → List ℕ → List ℕ
prune window now [] = []
prune window now (t ∷ times) =
    let rest = prune window now times in if ltb (t + window) now then rest else t ∷ times

-- The clock as a tick reads it: at its start, in `_recover`, and behind the restart.
pub record Tick : Type 0 where
  pub snapshot : Option Snapshot
  pub now : ℕ
  pub recover_now : ℕ
  pub done_now : ℕ
  pub running : Bool

-- The rest of `_recover`, by the recoveries inside the window.
abbrev pub recover_with : Settings → Tick → List Cause → List ℕ → Manager → Manager × List Effect
recover_with c t why times m =
    if ltb (length times) c.recovery_max
    then (
      record m {
        health = recovering;
        degraded_since = none;
        cooldown_until = t.done_now + c.recovery_cooldown;
        recovery_times = times ++ (t.recover_now ∷ []);
        recovery_count = m.recovery_count + 1;
        last_recovery_reason = why;
      },
      changed m.health recovering ∷ (when t.running stop_mission ++ (restart t.recover_now ∷ [])),
    )
    else (record m { health = failed; recovery_times = times }, changed m.health failed ∷ [])

unfoldable pub recover : Settings → Tick → List Cause → Manager → Manager × List Effect
unfolding prune
recover c t why m = recover_with c t why (prune c.recovery_window t.recover_now m.recovery_times) m

abbrev pub is_healthy : Health → Bool
is_healthy healthy = true
is_healthy _ = false

-- `self._health in (RECOVERING, FAILED)`
abbrev pub is_closed : Health → Bool
is_closed recovering = true
is_closed failed = true
is_closed _ = false

unfoldable pub thaw : Manager → Manager × List Effect
thaw m = (
  record m { health = healthy; degraded_since = none; observe_alerted = false },
  when (not (is_healthy m.health)) (changed m.health healthy),
)

-- A frozen tick, with the time since when the link is degraded.
unfoldable pub act : Settings → Tick → List Cause → ℕ → Manager → Manager × List Effect
unfolding recover
act c t why since m =
    if ltb (t.now - since) c.frozen_grace || is_closed m.health
    then (m, [])
    else if c.auto_recover
    then recover c t why m
    else if m.observe_alerted
    then (m, [])
    else (record m { observe_alerted = true }, observed ∷ [])

abbrev pub after : List Effect → Manager × List Effect → Manager × List Effect
after before (m, es) = (m, before ++ es)

abbrev pub freeze : Settings → Tick → List Cause → Option ℕ → Manager → Manager × List Effect
freeze c t why none m =
    after (changed m.health degraded ∷ [])
      (act c t why t.now (record m { health = degraded; degraded_since = some t.now }))
freeze c t why (some since) m = act c t why since m

abbrev pub tick_with : Settings → Tick → Option Snapshot → Manager → Manager × List Effect
tick_with c t none m = (m, [])
tick_with c t (some s) m =
    if ltb t.now m.cooldown_until
    then (m, [])
    else if is_frozen c s
    then freeze c t (reason c s) m.degraded_since m
    else thaw m

-- `_tick`
unfoldable pub tick : Settings → Tick → Manager → Manager × List Effect
unfolding is_frozen thaw act reason
tick c t m = tick_with c t t.snapshot m

-- The restarts among the effects.
abbrev pub restarts : List Effect → List ℕ
restarts [] = []
restarts (restart t ∷ es) = t ∷ restarts es
restarts (_ ∷ es) = restarts es

-- The rounds of `_loop`, with the times of the restarts.
unfoldable pub run_from : Settings → Manager → List Tick → Manager × List ℕ
unfolding tick
run_from c m [] = (m, [])
run_from c m (t ∷ ts) =
    let (m', es) = tick c t m in let (last, rs) = run_from c m' ts in (last, restarts es ++ rs)
