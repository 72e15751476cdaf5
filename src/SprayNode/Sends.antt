-- ===== src/SprayNode/Sends.antt =====
-- An ON is only sent on good grounds.
use px4_dxp.Prelude.{
  ℕ, zero, suc, ◌≡◌, refl, sym, subst, ap, ◌∙◌, arith, Bool, true, false, not, ◌&&◌, ◌||◌, none,
  some, List, [], ◌∷◌, if◌then◌else◌, if-cases, ◌==◌, leb,
}
use px4_dxp.SprayFsm.{off_pending, SprayCommand, Config, Fsm, Step, tick, on_ack, commanded}
use px4_dxp.SprayFsm.Safety.{AllowsOn, tick-on_dispatch, tick-Backed, on_ack-commanded}
use px4_dxp.SprayNode.Gates.{
  Params, Node, manual_active, decided, safety_allows_on, fsm_safety_ok, effective_desired,
}
use px4_dxp.SprayNode.Calls.{
  Clock, Sent, dispatch, dispatch_command, drive_fsm_tick, inputs_of, turns, set_auto_desired,
  state_cb, active_cb, manual_cb, distance_aware_tick, legacy_active_watchdog_tick, expire_manual,
  mode_tick, command_done, reassert_tick, service_probe_tick,
}
use px4_dxp.SprayNode.Events.{
  Event, state_comes, active_comes, manual_comes, gps_comes, segment_comes, pose_comes,
  velocity_comes, override_expires, mode_ticks, command_answered, reasserts, service_probed, handle,
}

-- What the state machine asks for behind an answer is never an ON.
on_ack-off :
    (c : Config) (seq : ℕ) (success : Bool) (now : ℕ) (f : Fsm) (cmd : SprayCommand)
    → (on_ack c seq success now f).1 ≡ some cmd
    → cmd.on ≡ false
unfolding on_ack
on_ack-off c seq success now f cmd h = ground arith

abbrev pub has_on : List Bool → Bool
has_on [] = false
has_on (b ∷ bs) = b || has_on bs

dispatch-no_on :
    (fuel : ℕ) (c : Config) (now : ℕ) (ready : Bool) (s : Step)
    → ((cmd : SprayCommand) → s.1 ≡ some cmd → cmd.on ≡ false)
    → has_on (dispatch fuel c now ready s).1 ≡ false
unfolding dispatch
dispatch-no_on fuel c now ready (f, none) off = refl
dispatch-no_on zero c now ready (f, some cmd) off = refl
dispatch-no_on (suc fuel) c now ready (f, some cmd) off =
    if-cases (λ (r : Fsm × List Bool). has_on r.1 ≡ false) ready (λ _. rw (off cmd refl) refl)
      (λ _.
        dispatch-no_on fuel c now ready (on_ack c cmd.seq false now f)
          (on_ack-off c cmd.seq false now f))

-- An ON on the wire is one that the state machine asked for at first.
dispatch-on :
    (fuel : ℕ) (c : Config) (now : ℕ) (ready : Bool) (s : Step) {Q : Type 0}
    → ((cmd : SprayCommand) → s.1 ≡ some cmd → cmd.on ≡ true → Q)
    → has_on (dispatch fuel c now ready s).1 ≡ true
    → Q
unfolding dispatch
dispatch-on fuel c now ready (f, none) {Q} q = λ h. absurd (ground (arith, h))
dispatch-on zero c now ready (f, some cmd) {Q} q = λ h. absurd (ground (arith, h))
dispatch-on (suc fuel) c now ready (f, some cmd) {Q} q =
    if-cases (λ (r : Fsm × List Bool). has_on r.1 ≡ true → Q) ready
      (λ _ h. q cmd refl (ground (arith, h)))
      (λ _ h. absurd (
        differ (
          sym (
            dispatch-no_on fuel c now ready (on_ack c cmd.seq false now f)
              (on_ack-off c cmd.seq false now f))
          ∙ h)))
  where
    differ : ¬ (false ≡ true)
    differ e = ground arith

dispatch-commanded :
    (fuel : ℕ) (c : Config) (now : ℕ) (ready : Bool) (s : Step)
    → commanded (dispatch fuel c now ready s).0 ≡ true
    → commanded s.0 ≡ true
unfolding dispatch
dispatch-commanded fuel c now ready (f, none) = λ h. h
dispatch-commanded zero c now ready (f, some cmd) = λ h. h
dispatch-commanded (suc fuel) c now ready (f, some cmd) =
    if-cases (λ (r : Fsm × List Bool). commanded r.0 ≡ true → commanded f ≡ true) ready (λ _ h. h)
      (λ _ h.
        on_ack-commanded c cmd.seq false now f
          (dispatch-commanded fuel c now ready (on_ack c cmd.seq false now f) h))

if-same :
    {A : Type 0} (b : Bool) (x : A) {y z : A} → y ≡ z → (if b then x else y) ≡ (if b then x else z)
if-same b x e = ap (λ y. if b then x else y) e

failure-off_pending :
    (c : Config) (p now : ℕ) (f : Fsm) (cmd : SprayCommand)
    → (on_ack c p false now f).1 ≡ some cmd
    → (on_ack c p false now f).0.state ≡ off_pending
unfolding on_ack
failure-off_pending c p now f cmd h = ground arith

off_pending-failure :
    (c : Config) (q now : ℕ) (g : Fsm) → g.state ≡ off_pending → (on_ack c q false now g).1 ≡ none
unfolding on_ack
off_pending-failure c q now g e = ground arith

-- Behind two failures nothing is asked for.
two_failures :
    (c : Config) (p now : ℕ) (f : Fsm) (cmd : SprayCommand) (q : ℕ)
    → (on_ack c p false now f).1 ≡ some cmd
    → (on_ack c q false now (on_ack c p false now f).0).1 ≡ none
two_failures c p now f cmd q h =
    off_pending-failure c q now (on_ack c p false now f).0 (failure-off_pending c p now f cmd h)

idle :
    (k : ℕ) (c : Config) (now : ℕ) (ready : Bool) (s : Step)
    → s.1 ≡ none
    → dispatch (suc k) c now ready s ≡ dispatch 1 c now ready s
unfolding dispatch
idle k c now ready (f, none) e = refl
idle k c now ready (f, some cmd) e = absurd (ground (arith, e))

second :
    (k : ℕ) (c : Config) (now : ℕ) (ready : Bool) (s : Step)
    → ((cmd : SprayCommand) (q : ℕ) → s.1 ≡ some cmd → (on_ack c q false now s.0).1 ≡ none)
    → dispatch (suc (suc k)) c now ready s ≡ dispatch 2 c now ready s
unfolding dispatch
second k c now ready (f, none) e = refl
second k c now ready (f, some cmd) e =
    if-same ready (f, cmd.on ∷ [])
      (idle k c now ready (on_ack c cmd.seq false now f) (e cmd cmd.seq refl))

-- Three turns are enough: nothing is asked for behind two failures.
pub dispatch_enough :
    (k : ℕ) (c : Config) (now : ℕ) (ready : Bool) (s : Step)
    → dispatch (suc (suc (suc k))) c now ready s ≡ dispatch turns c now ready s
unfolding dispatch
dispatch_enough k c now ready (f, none) = refl
dispatch_enough k c now ready (f, some cmd) =
    let t = on_ack c cmd.seq false now f in
    if-same ready (f, cmd.on ∷ []) (second k c now ready t (two_failures c cmd.seq now f))

-- What is sent is grounded: with an ON the spray is wanted, safe and enabled behind the call.
abbrev pub Grounded : Params → Sent → Type 0
Grounded c s = has_on s.1 ≡ true → AllowsOn (inputs_of c s.0)

never : {Q : Type 0} (b : Bool) → b ≡ false → b ≡ true → Q
never b e h = absurd (ground (arith, e, h))

none_sent : {Q : Type 0} → has_on [] ≡ true → Q
none_sent h = absurd (ground (arith, h))

inputs-same : (c : Params) (n : Node) (f : Fsm) → inputs_of c (record n { fsm = f }) ≡ inputs_of c n
unfolding fsm_safety_ok
inputs-same c n f = refl

dispatch_command-Grounded :
    (c : Params) (now : ℕ) (s : Step) (n : Node)
    → ((cmd : SprayCommand) → s.1 ≡ some cmd → cmd.on ≡ true → AllowsOn (inputs_of c n))
    → Grounded c (dispatch_command c now s n)
unfolding dispatch_command
dispatch_command-Grounded c now s n allowed h =
    subst AllowsOn (sym (inputs-same c n (dispatch turns c.fsm_config now n.service_ready s).0))
      (dispatch-on turns c.fsm_config now n.service_ready s allowed h)

dispatch_command-commanded :
    (c : Params) (now : ℕ) (s : Step) (n : Node)
    → (commanded s.0 ≡ true → AllowsOn (inputs_of c n))
    → commanded (dispatch_command c now s n).0.fsm ≡ true
    → AllowsOn (inputs_of c (dispatch_command c now s n).0)
unfolding dispatch_command
dispatch_command-commanded c now s n allowed h =
    subst AllowsOn (sym (inputs-same c n (dispatch turns c.fsm_config now n.service_ready s).0))
      (allowed (dispatch-commanded turns c.fsm_config now n.service_ready s h))

drive_fsm_tick-Grounded : (c : Params) (now : ℕ) (n : Node) → Grounded c (drive_fsm_tick c now n)
unfolding drive_fsm_tick
drive_fsm_tick-Grounded c now n =
    dispatch_command-Grounded c now (tick c.fsm_config (inputs_of c n) now n.fsm) n
      (λ cmd e on. (tick-on_dispatch c.fsm_config (inputs_of c n) now n.fsm e on).1)

drive_fsm_tick-commanded :
    (c : Params) (now : ℕ) (n : Node)
    → commanded (drive_fsm_tick c now n).0.fsm ≡ true
    → AllowsOn (inputs_of c (drive_fsm_tick c now n).0)
unfolding drive_fsm_tick
drive_fsm_tick-commanded c now n =
    dispatch_command-commanded c now (tick c.fsm_config (inputs_of c n) now n.fsm) n
      (tick-Backed c.fsm_config (inputs_of c n) now n.fsm)

reassert_tick-Grounded : (c : Params) (now : ℕ) (n : Node) → Grounded c (reassert_tick c now n)
unfolding reassert_tick
reassert_tick-Grounded c now n =
    let s = drive_fsm_tick c now n in
    if-cases (λ (r : Sent). Grounded c r)
      (effective_desired s.0
        && (commanded s.0.fsm && (safety_allows_on c s.0 && s.0.service_ready)))
      (λ e _. drive_fsm_tick-commanded c now n (ground (arith, e)))
      (λ _. drive_fsm_tick-Grounded c now n)

handle-Grounded : (c : Params) (t : Clock) (e : Event) (n : Node) → Grounded c (handle c t e n)
unfolding handle state_cb active_cb manual_cb expire_manual mode_tick distance_aware_tick
    legacy_active_watchdog_tick set_auto_desired command_done service_probe_tick
handle-Grounded c t (state_comes armed is_offboard) n = drive_fsm_tick-Grounded c t.mono _
handle-Grounded c t (active_comes raw) n =
    if-cases (λ (r : Sent). Grounded c r) (not c.use_distance_aware && c.allow_legacy)
      (λ _. drive_fsm_tick-Grounded c t.mono _) (λ _. none_sent)
handle-Grounded c t (manual_comes on) n = drive_fsm_tick-Grounded c t.mono _
handle-Grounded c t (gps_comes fix accuracy) n = none_sent
handle-Grounded c t (segment_comes state) n = none_sent
handle-Grounded c t pose_comes n = none_sent
handle-Grounded c t velocity_comes n = none_sent
handle-Grounded c t override_expires n =
    if-cases (λ (r : Sent). Grounded c r)
      (elim n.manual_deadline [ none ↦ false | some d ↦ leb d t.now ])
      (λ _. drive_fsm_tick-Grounded c t.mono _) (λ _. none_sent)
handle-Grounded c t (mode_ticks decide) n =
    if-cases (λ (r : Sent). Grounded c r) c.use_distance_aware
      (λ _. drive_fsm_tick-Grounded c t.mono _)
      (λ _.
        if-cases (λ (r : Sent). Grounded c r) c.allow_legacy
          (λ _. drive_fsm_tick-Grounded c t.mono _) (λ _. drive_fsm_tick-Grounded c t.mono _))
handle-Grounded c t (command_answered seq success) n =
    if-cases (λ (r : Sent). Grounded c r) (seq == n.fsm.cmd_seq)
      (λ _.
        dispatch_command-Grounded c t.mono (on_ack c.fsm_config seq success t.mono n.fsm) n
          (λ cmd e on. never cmd.on (on_ack-off c.fsm_config seq success t.mono n.fsm cmd e) on))
      (λ _. none_sent)
handle-Grounded c t reasserts n = reassert_tick-Grounded c t.mono n
handle-Grounded c t (service_probed is_there) n =
    if-cases (λ (r : Sent). Grounded c r) (not n.service_ready && is_there)
      (λ _. drive_fsm_tick-Grounded c t.mono _) (λ _. none_sent)

-- What stands behind an ON.
abbrev pub has_grounds : Params → Node → Bool
has_grounds c n =
    c.spray_enabled
    && (n.armed
        && (manual_active n
            || (n.desired_debounced
                && (if c.use_distance_aware
                    then decided n.decision_safe
                    else not c.require_offboard || n.is_offboard))))

-- Whatever comes to the node in whatever state: when it sends an ON, the repeated ones included, the
-- vehicle is armed, the spray is enabled, and either the manual override is active, or the debounced
-- desire is ON and the last decision was safe (without distance awareness: OFFBOARD where it is
-- required).
pub handle_needs_grounds :
    (c : Params) (t : Clock) (e : Event) (n : Node)
    → has_on (handle c t e n).1 ≡ true
    → has_grounds c (handle c t e n).0 ≡ true
unfolding fsm_safety_ok
handle_needs_grounds c t e n h =
    let m = (handle c t e n).0 in
    let allows : AllowsOn (inputs_of c m) = handle-Grounded c t e n h in
    grounds c.spray_enabled m.armed (manual_active m) m.desired_debounced
      (if c.use_distance_aware
        then decided m.decision_safe
        else not c.require_offboard || m.is_offboard)
      allows.0 allows.1 allows.2
  where
    grounds :
        (e a m d s : Bool)
        → (if m then true else d) ≡ true
        → a && (m || s) ≡ true
        → e ≡ true
        → e && (a && (m || (d && s))) ≡ true
    grounds e a m d s p q r = ground (arith, p, q, r)
