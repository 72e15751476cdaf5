-- ===== src/Runner/Arming.antt =====
-- The requests of the runner against the protocol that they must keep.
use px4_dxp.Prelude.{
  ℕ, zero, suc, ◌+◌, ◌≤◌, ◌≡◌, ◌⊎◌, refl, Bool, true, false, Option, none, some, List, [], ◌∷◌,
  arith, if-cases, subst, some_inj, ltb, ◌&&◌, not, if◌then◌else◌, ◌==◌, is_some,
}
use px4_dxp.Runner.{
  MissionPhase, init, wait_fcu, wait_stream, switch_offboard, confirm_offboard, wait_offboard_state,
  wait_position, arm, confirm_arm, running, done, disarm, confirm_disarm, exit_manual,
  confirm_manual, finished, aborted, Request, set_mode, arming, offboard, manual, Params, is_exempt,
  is_running, is_offboard, was_armed, Input, Runner, Step, Event, heard, reported, ticked, start,
  state_cb, debug_cb, check_timeout, confirm_offboard_tick, wait_position_tick, confirm_arm_tick,
  running_tick, confirm_end_tick, dispatch, phase_tick, handle, noted, run_from, call, rejected,
}

-- How far the vehicle has been taken: OFFBOARD was asked for, then a disarm, then MANUAL.
pub data Stage : Type 0 where
  before switched disarmed over : Stage

-- The protocol: OFFBOARD once, then at most as many armings as are left, then at most one disarm,
-- then MANUAL; it may be left early, but no arming follows a disarm, and nothing follows MANUAL.
abbrev pub advance : Stage → ℕ → Request → Option (Stage × ℕ)
advance before k (set_mode offboard) = some (switched, k)
advance switched (suc k) (arming true) = some (switched, k)
advance before k (arming false) = some (disarmed, k)
advance switched k (arming false) = some (disarmed, k)
advance before k (set_mode manual) = some (over, k)
advance switched k (set_mode manual) = some (over, k)
advance disarmed k (set_mode manual) = some (over, k)
advance _ k q = none

abbrev pub conforms : Stage → ℕ → List Request → Bool
conforms s k [] = true
conforms s k (q ∷ qs) = elim (advance s k q) [ none ↦ false | some n ↦ conforms n.0 n.1 qs ]

abbrev pub allowed : Params → ℕ
allowed c = if c.arm_max_retries == 0 then 1 else c.arm_max_retries

abbrev pub is_early : Stage → Bool
is_early before = true
is_early switched = true
is_early _ = false

abbrev pub is_over : Stage → Bool
is_over over = true
is_over _ = false

-- What a phase says of the protocol.
abbrev pub Fresh : Params → ℕ → Runner → Type 0
Fresh c k r = (r.arm_attempts ≡ 0) × ((r.arm_retry_t0 ≡ none) × (k ≡ allowed c))

abbrev pub Sim : Params → Stage → ℕ → Runner → MissionPhase → Type 0
Sim c s k r init = (s ≡ before) × Fresh c k r
Sim c s k r wait_fcu = (s ≡ before) × Fresh c k r
Sim c s k r wait_stream = (s ≡ before) × Fresh c k r
Sim c s k r switch_offboard = (s ≡ before) × Fresh c k r
Sim c s k r confirm_offboard = (s ≡ switched) × Fresh c k r
Sim c s k r wait_offboard_state = (s ≡ switched) × Fresh c k r
Sim c s k r wait_position = (s ≡ switched) × Fresh c k r
Sim c s k r arm =
    (s ≡ switched) × ((r.arm_retry_t0 ≡ none) × ((r.arm_attempts + k ≡ allowed c) × (1 ≤ k)))
Sim c s k r confirm_arm =
    (s ≡ switched)
    × (((r.arm_retry_t0 ≡ none) × (suc r.arm_attempts + k ≡ allowed c))
        ⊎ ((is_some r.arm_retry_t0 ≡ true) × ((r.arm_attempts + k ≡ allowed c) × (1 ≤ k))))
Sim c s k r running = is_early s ≡ true
Sim c s k r done = is_early s ≡ true
Sim c s k r disarm = is_early s ≡ true
Sim c s k r aborted = is_early s ≡ true
Sim c s k r confirm_disarm = s ≡ disarmed
Sim c s k r exit_manual = is_over s ≡ false
Sim c s k r confirm_manual = Unit
Sim c s k r finished = Unit

-- A step that asks for nothing, or for what the protocol allows, keeps the simulation.
abbrev pub Kept : Params → Stage → ℕ → Step → Type 0
Kept c s k (r, none) = Sim c s k r r.phase
Kept c s k (r, some q) =
    (s' : Stage) × ((k' : ℕ) × ((advance s k q ≡ some (s', k')) × Sim c s' k' r r.phase))

exempt_early :
    (c : Params) (s : Stage) (k : ℕ) (r : Runner) (p : MissionPhase)
    → is_exempt p ≡ false
    → Sim c s k r p
    → is_early s ≡ true
exempt_early c s k r p e h = ground arith

check_timeout-Sim :
    (c : Params) (s : Stage) (k now : ℕ) (r : Runner)
    → Sim c s k r r.phase
    → Sim c s k (check_timeout c now r) (check_timeout c now r).phase
check_timeout-Sim c s k now r h =
    if-cases (λ x. Sim c s k x x.phase)
      (ltb (r.mission_t0 + c.mission_timeout) now && not (is_exempt r.phase))
      (λ e. exempt_early c s k r r.phase (ground (arith, e)) h) (λ e. h)

dispatch-Kept :
    (c : Params) (s : Stage) (k : ℕ) (i : Input) (r : Runner) (p : MissionPhase)
    → r.phase ≡ p
    → Sim c s k r p
    → Kept c s k (dispatch c i r p)
unfolding dispatch confirm_offboard_tick wait_position_tick confirm_arm_tick running_tick
    confirm_end_tick call rejected
dispatch-Kept c s k i r init e h = ground arith
dispatch-Kept c s k i r wait_fcu e h = ground arith
dispatch-Kept c s k i r wait_stream e h = ground arith
dispatch-Kept c s k i r switch_offboard e h =
    if-cases (Kept c s k) c.dry_run (λ _. ground arith)
      (λ _.
        if-cases (Kept c s k) i.set_mode_ready (λ _. (switched, (k, (ground arith, ground arith))))
          (λ _. ground arith))
dispatch-Kept c s k i r confirm_offboard e h = ground arith
dispatch-Kept c s k i r wait_offboard_state e h = ground arith
dispatch-Kept c s k i r wait_position e h = ground arith
dispatch-Kept c s zero i r arm e h = absurd (ground arith)
dispatch-Kept c s (suc k) i r arm e h =
    if-cases (Kept c s (suc k)) c.dry_run (λ _. ground arith)
      (λ _.
        if-cases (Kept c s (suc k)) i.arm_ready (λ _. (switched, (k, (ground arith, ground arith))))
          (λ _. ground arith))
dispatch-Kept c s k i r confirm_arm e h = ground arith
dispatch-Kept c s k i r running e h = ground arith
dispatch-Kept c s k i r done e h = ground arith
dispatch-Kept c s k i r disarm e h =
    if-cases (Kept c s k) c.dry_run (λ _. ground arith)
      (λ _.
        if-cases (Kept c s k) i.arm_ready (λ _. (disarmed, (k, (ground arith, ground arith))))
          (λ _. ground arith))
dispatch-Kept c s k i r confirm_disarm e h = ground arith
dispatch-Kept c s k i r exit_manual e h =
    if-cases (Kept c s k) c.dry_run (λ _. ground arith)
      (λ _.
        if-cases (Kept c s k) i.set_mode_ready (λ _. (over, (k, (ground arith, ground arith))))
          (λ _. ground arith))
dispatch-Kept c s k i r confirm_manual e h = ground arith
dispatch-Kept c s k i r finished e h = ground arith
dispatch-Kept c s k i r aborted e h = ground arith

Sim-same :
    (c : Params) (s : Stage) (k : ℕ) (r t : Runner) (p : MissionPhase)
    → t.arm_attempts ≡ r.arm_attempts
    → t.arm_retry_t0 ≡ r.arm_retry_t0
    → Sim c s k r p
    → Sim c s k t p
Sim-same c s k r t p a b h = ground arith

running_early :
    (c : Params) (s : Stage) (k : ℕ) (r : Runner) (p : MissionPhase)
    → is_running p ≡ true
    → Sim c s k r p
    → is_early s ≡ true
running_early c s k r p e h = ground arith

handle-Kept :
    (c : Params) (s : Stage) (k : ℕ) (e : Event) (r : Runner)
    → Sim c s k r r.phase
    → Kept c s k (handle c e r)
unfolding handle state_cb debug_cb phase_tick
handle-Kept c s k (heard m) r h =
    let early = running_early c s k r r.phase in
    let same = Sim-same c s k r (record r { fcu_state = some m }) r.phase refl refl h in
    if-cases (λ x. Sim c s k x x.phase)
      (is_running r.phase && (r.was_offboard && not (is_offboard m.mode)))
      (λ e. early (ground (arith, e)) h)
      (λ _.
        if-cases (λ x. Sim c s k x x.phase)
          (is_running r.phase && (was_armed r.fcu_state && not m.armed))
          (λ e. early (ground (arith, e)) h) (λ _. same))
handle-Kept c s k (reported code) r h =
    Sim-same c s k r (record r { rpp_state = code }) r.phase refl refl h
handle-Kept c s k (ticked i) r h =
    if-cases (Kept c s k) r.is_shut_down (λ _. h)
      (λ _.
        dispatch-Kept c s k i (check_timeout c i.now r) _ refl (check_timeout-Sim c s k i.now r h))

noted-conforms :
    (c : Params) (s : Stage) (k : ℕ) (t : Step) (qs : List Request)
    → Kept c s k t
    → ((s' : Stage) (k' : ℕ) → Sim c s' k' t.0 t.0.phase → conforms s' k' qs ≡ true)
    → conforms s k (noted t.1 qs) ≡ true
noted-conforms c s k (r, none) qs h f = f s k h
noted-conforms c s k (r, some q) qs (s', (k', (e, h))) f = rw (conforms, e) (f s' k' h)

run_from-conforms :
    (c : Params) (s : Stage) (k : ℕ) (r : Runner) (es : List Event)
    → Sim c s k r r.phase
    → conforms s k (run_from c r es).1 ≡ true
unfolding run_from
run_from-conforms c s k r [] h = refl
run_from-conforms c s k r (e ∷ es) h =
    let t = handle c e r in
    noted-conforms c s k t (run_from c t.0 es).1 (handle-Kept c s k e r h)
      (λ s' k'. run_from-conforms c s' k' t.0 es)

-- Whatever the services answer and the vehicle reports, from the start the node asks for OFFBOARD
-- first, then for an arming at most as many times as the parameter allows (once if it is zero), then
-- for at most one disarm, then for MANUAL, and for no arming behind a disarm or MANUAL.
pub run-conforms :
    (c : Params) (now : ℕ) (r : Runner) (es : List Event)
    → start true now ≡ some r
    → conforms before (allowed c) (run_from c r es).1 ≡ true
unfolding start
run-conforms c now r es e =
    run_from-conforms c before (allowed c) r es
      (subst (λ x. Sim c before (allowed c) x x.phase) (some_inj e) (refl, (refl, (refl, refl))))
