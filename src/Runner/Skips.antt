-- ===== src/Runner/Skips.antt =====
-- What the runner does not ask for behind an arming without an answer, and in a dry run.
use px4_dxp.Prelude.{
  ℕ, ◌+◌, ◌≤◌, ◌≡◌, refl, Bool, true, false, none, List, [], ◌∷◌, arith, ◌&&◌, ◌||◌, if-cases, ap,
  ◌∙◌,
}
use px4_dxp.Runner.{
  MissionPhase, switch_offboard, confirm_arm, running, exit_manual, confirm_manual, finished,
  aborted, Request, set_mode, arming, State, Params, Input, Runner, Step, Event, heard, reported,
  ticked, state_cb, debug_cb, check_timeout, confirm_arm_tick, confirm_end_tick, dispatch,
  phase_tick, handle, noted, run_from, call, quiet, clear_future, is_offboard, is_running, is_done,
  future_timed_out, is_exempt,
}
use px4_dxp.Runner.Leaving.{check_timeout-same}

-- Behind the disarm nothing asks for an arming or a disarm.
abbrev pub left_over : MissionPhase → Bool
left_over exit_manual = true
left_over confirm_manual = true
left_over finished = true
left_over _ = false

abbrev pub no_arming : List Request → Bool
no_arming [] = true
no_arming (arming b ∷ qs) = false
no_arming (set_mode m ∷ qs) = no_arming qs

abbrev Silent : Step → Type 0
Silent s =
    (left_over s.0.phase ≡ true) × ((qs : List Request) → no_arming (noted s.1 qs) ≡ no_arming qs)

dispatch-Silent :
    (c : Params) (i : Input) (r : Runner) (ph : MissionPhase)
    → r.phase ≡ ph
    → left_over ph ≡ true
    → Silent (dispatch c i r ph)
unfolding dispatch confirm_end_tick call
dispatch-Silent c i r finished e h = (rw e refl, λ qs. refl)
dispatch-Silent c i r confirm_manual e h =
    if-cases Silent ((r.pending_future && is_done i.future) || future_timed_out i.now r.future_t0)
      (λ _. (refl, λ qs. refl)) (λ _. (rw e refl, λ qs. refl))
dispatch-Silent c i r exit_manual e h =
    if-cases Silent c.dry_run (λ _. (refl, λ qs. refl))
      (λ _. if-cases Silent i.set_mode_ready (λ _. (refl, λ qs. refl)) (λ _. (refl, λ qs. refl)))
dispatch-Silent c i r _ e h = absurd (ground arith)

left_over-exempt :
    (ph : MissionPhase) → left_over ph ≡ true → (is_exempt ph ≡ true) × (is_running ph ≡ false)
left_over-exempt ph h = (ground arith, ground arith)

handle-Silent :
    (c : Params) (e : Event) (r : Runner) → left_over r.phase ≡ true → Silent (handle c e r)
unfolding handle state_cb debug_cb phase_tick
handle-Silent c (heard m) r h = rw (left_over-exempt r.phase h).1 (h, λ qs. refl)
handle-Silent c (reported code) r h = (h, λ qs. refl)
handle-Silent c (ticked i) r h =
    if-cases Silent r.is_shut_down (λ _. (h, λ qs. refl))
      (λ _.
        rw (check_timeout-same c i.now r (left_over-exempt r.phase h).0)
          (dispatch-Silent c i r r.phase refl h))

run_from-silent :
    (c : Params) (r : Runner) (es : List Event)
    → left_over r.phase ≡ true
    → no_arming (run_from c r es).1 ≡ true
unfolding run_from
run_from-silent c r [] h = refl
run_from-silent c r (e ∷ es) h =
    let t = handle-Silent c e r h in
    t.1 (run_from c (handle c e r).0 es).1 ∙ run_from-silent c (handle c e r).0 es t.0

not-timed_out :
    (c : Params) (now : ℕ) (r : Runner)
    → now ≤ r.mission_t0 + c.mission_timeout
    → check_timeout c now r ≡ r
not-timed_out c now r n = ground arith

-- A tick of a node that runs within the mission's time is that of its phase.
tick-dispatch :
    (c : Params) (i : Input) (r : Runner) (p : MissionPhase)
    → r.phase ≡ p
    → r.is_shut_down ≡ false
    → i.now ≤ r.mission_t0 + c.mission_timeout
    → phase_tick c i r ≡ dispatch c i r p
unfolding phase_tick
tick-dispatch c i r p e s n =
    if-cases (λ x. x ≡ dispatch c i r p) r.is_shut_down (λ t. absurd (ground arith))
      (λ _. rw (not-timed_out c i.now r n) (ap (dispatch c i r) e))

confirm_arm_timeout :
    (c : Params) (i : Input) (r : Runner)
    → r.arm_retry_t0 ≡ none
    → is_done i.future ≡ false
    → future_timed_out i.now r.future_t0 ≡ true
    → confirm_arm_tick c i r ≡ quiet (record (clear_future r) { phase = exit_manual })
unfolding confirm_arm_tick
confirm_arm_timeout c i r a d t = ground arith

arm_timeout :
    (c : Params) (i : Input) (r : Runner)
    → r.phase ≡ confirm_arm
    → r.arm_retry_t0 ≡ none
    → r.is_shut_down ≡ false
    → i.now ≤ r.mission_t0 + c.mission_timeout
    → is_done i.future ≡ false
    → future_timed_out i.now r.future_t0 ≡ true
    → ((phase_tick c i r).0.phase ≡ exit_manual) × ((phase_tick c i r).1 ≡ none)
unfolding dispatch
arm_timeout c i r e a s n d t =
    let q : phase_tick c i r ≡ quiet (record (clear_future r) { phase = exit_manual }) =
      tick-dispatch c i r confirm_arm e s n ∙ confirm_arm_timeout c i r a d t in
    (ap (λ x. x.0.phase) q, ap (λ x. x.1) q)

-- An arming whose answer does not come in time is given up without a disarm: the tick leaves for
-- MANUAL, and neither it nor anything behind it asks for an arming or a disarm, so that a vehicle
-- that armed all the same stays armed.
pub arm_timeout-stays_armed :
    (c : Params) (i : Input) (r : Runner) (es : List Event)
    → r.phase ≡ confirm_arm
    → r.arm_retry_t0 ≡ none
    → r.is_shut_down ≡ false
    → i.now ≤ r.mission_t0 + c.mission_timeout
    → is_done i.future ≡ false
    → future_timed_out i.now r.future_t0 ≡ true
    → ((phase_tick c i r).0.phase ≡ exit_manual)
      × (no_arming (run_from c r (ticked i ∷ es)).1 ≡ true)
unfolding run_from handle
arm_timeout-stays_armed c i r es e a s n d t =
    let (p, q) = arm_timeout c i r e a s n d t in
    (p, rw q (run_from-silent c (phase_tick c i r).0 es (rw p refl)))

dispatch-dry :
    (c : Params) (i : Input) (r : Runner)
    → c.dry_run ≡ true
    → dispatch c i r switch_offboard ≡ quiet (record r { phase = running; was_offboard = true })
unfolding dispatch
dispatch-dry c i r d = rw d refl

-- A dry run is aborted by the first message of the vehicle: the tick that skips OFFBOARD goes on to
-- RUNNING as if OFFBOARD had been seen, and a message with any other mode aborts it then.
pub dry_run-aborts :
    (c : Params) (i : Input) (m : State) (r : Runner)
    → c.dry_run ≡ true
    → r.phase ≡ switch_offboard
    → r.is_shut_down ≡ false
    → i.now ≤ r.mission_t0 + c.mission_timeout
    → is_offboard m.mode ≡ false
    → ((phase_tick c i r).0.phase ≡ running) × ((state_cb m (phase_tick c i r).0).phase ≡ aborted)
unfolding state_cb
dry_run-aborts c i m r d e s n o =
    let q = tick-dispatch c i r switch_offboard e s n ∙ dispatch-dry c i r d in
    (ap (λ x. x.0.phase) q, rw (q, o) refl)
