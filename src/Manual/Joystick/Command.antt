-- ===== src/Manual/Joystick/Command.antt =====
-- What a joystick command must bring to be accepted, and what it then does.
use px4_dxp.Prelude.{
  ℕ, ◌+◌, ◌-◌, ◌*◌, ◌≤◌, ◌≡◌, ◌↔◌, refl, Bool, true, false, none, some, ℤ, pos, abs, arith, ◌∙◌,
  sym, inl, inr, Option-cases, some_inj,
}
use px4_dxp.Manual.Arbiter.{Code, Result, ok, err}
use px4_dxp.Manual.Gateway.{
  Axis, finite, Frame, Gateway, encode, accept_command, full, neutral_frame,
}
use px4_dxp.Manual.Gateway.Encoding.{encode_finite, abs-clamp, encode_bounds, encode_neutral_iff}
use px4_dxp.Manual.Control.{active, held, JoystickCommand, Settings, Station, Vehicle, is_live}
use px4_dxp.Manual.Drive.{
  Reply, command_fault, in_unit, not_before, handle_command, is_after, demand, accept, apply,
  handled,
}

demand-le : (m : ℕ) (dead : Bool) (a : Axis) → abs (demand m dead a) ≤ m
demand-le m true (finite z) = abs-clamp m z
demand-le m true Axis.nan = omega arith
demand-le m true Axis.pos_inf = omega arith
demand-le m true Axis.neg_inf = omega arith
demand-le m false a = omega arith

-- What a command must bring: the owner's socket, session and lease, a live lease, a healthy
-- transport, MANUAL mode, a sequence number above the last, a client time not before the last,
-- and axes in range.
abbrev pub Acceptable : Vehicle → ℕ → JoystickCommand → Station → Type 0
Acceptable v sid cmd s =
    (s.owner_sid ≡ some sid)
    × (s.session_id ≡ some cmd.session_id)
    × (s.lease_id ≡ some cmd.lease_id)
    × (is_live s.state ≡ true)
    × (v.healthy ≡ true)
    × (v.node ≡ true)
    × (v.manual_mode ≡ true)
    × (is_after s.last_seq cmd.sequence ≡ true)
    × (not_before s.last_client_mono cmd.client_mono ≡ true)
    × (in_unit cmd.throttle ≡ true)
    × (in_unit cmd.steering ≡ true)

-- What holds of the way that a command is handled.
abbrev pub Handled :
    Settings → Vehicle → ℕ → ℕ → JoystickCommand → Station → Station × Result Reply → Type 0
Handled c v now sid cmd s (s', err e) = (s' ≡ s) × ¬ Acceptable v sid cmd s
Handled c v now sid cmd s (s', ok r) =
    Acceptable v sid cmd s
    × (abs r.throttle ≤ c.max_throttle)
    × (abs r.steering ≤ c.max_steering)
    × (2000 * abs s'.gateway.last_frame.y ≤ 2 * c.max_steering + 1000)
    × (4000 * s'.gateway.last_frame.z ≤ 2 * (full + c.max_throttle) + 2000)
    × (2 * (full - c.max_throttle) ≤ 4000 * s'.gateway.last_frame.z + 2000)
    × (encode (finite r.throttle) (finite r.steering) ≡ some s'.gateway.last_frame)
    × (s'.gateway.last_receive ≡ some now)
    × (s'.last_seq ≡ some cmd.sequence)
    × (cmd.deadman ≡ false → (s'.state ≡ held) × (s'.gateway.last_frame ≡ neutral_frame))
    × (cmd.deadman ≡ true → s'.state ≡ active)

-- The frame that the gateway holds behind an accepted pair of axes.
record Taken (mt ms now : ℕ) (t z : ℤ) (g : Gateway) : Type 0 where
  steering : 2000 * abs g.last_frame.y ≤ 2 * ms + 1000
  throttle : 4000 * g.last_frame.z ≤ 2 * (full + mt) + 2000
  reverse : 2 * (full - mt) ≤ 4000 * g.last_frame.z + 2000
  encoded : encode (finite t) (finite z) ≡ some g.last_frame
  time : g.last_receive ≡ some now
  centre : abs t ≤ 1000 → abs z ≤ 500 → g.last_frame ≡ neutral_frame

accept-eq :
    (now : ℕ) (t z : ℤ) (g : Gateway) {f : Frame}
    → encode (finite t) (finite z) ≡ some f
    → accept now t z g ≡ accept_command now f g
unfolding accept
accept-eq now t z g e = rw (e, accept)

accept-Taken :
    (mt ms now : ℕ) (t z : ℤ) (g : Gateway)
    → abs t ≤ mt
    → abs z ≤ ms
    → Taken mt ms now t z (accept now t z g)
unfolding accept_command
accept-Taken mt ms now t z g ht hz =
    let (f, e) = encode_finite t z in
    let b = encode_bounds t z mt ms ht hz e in
    rw (accept-eq now t z g e) (record {
      steering = b.0;
      throttle = b.1;
      reverse = b.2;
      encoded = e;
      time = refl;
      centre = λ p q. some_inj (sym e ∙ (encode_neutral_iff t z).1 (p, q));
    })

command_fault-Acceptable :
    (v : Vehicle) (sid : ℕ) (cmd : JoystickCommand) (s : Station)
    → (command_fault v sid cmd s ≡ none) ↔ Acceptable v sid cmd s
unfolding command_fault
command_fault-Acceptable v sid cmd s = ground arith

apply-gateway :
    (c : Settings) (now : ℕ) (cmd : JoystickCommand) (s : Station)
    → (apply c now cmd s).gateway
      ≡ accept now
          (demand c.max_throttle cmd.deadman cmd.throttle)
          (demand c.max_steering cmd.deadman cmd.steering)
          s.gateway
unfolding apply
apply-gateway c now cmd s = ground arith

apply-state :
    (c : Settings) (now : ℕ) (cmd : JoystickCommand) (s : Station)
    → ((apply c now cmd s).last_seq ≡ some cmd.sequence)
      × (cmd.deadman ≡ false → (apply c now cmd s).state ≡ held)
      × (cmd.deadman ≡ true → (apply c now cmd s).state ≡ active)
unfolding apply
apply-state c now cmd s = ground arith

-- Without the dead-man switch both axes are zero.
still :
    (c : Settings) (now : ℕ) (cmd : JoystickCommand) (s : Station)
    → cmd.deadman ≡ false
    → (accept now
        (demand c.max_throttle false cmd.throttle)
        (demand c.max_steering false cmd.steering)
        s.gateway).last_frame
      ≡ neutral_frame
still c now cmd s d =
    (accept-Taken 0 0 now (pos 0) (pos 0) s.gateway (omega arith) (omega arith)).centre
      (omega arith) (omega arith)

accepted :
    (c : Settings) (v : Vehicle) (now sid : ℕ) (cmd : JoystickCommand) (s : Station)
    → Acceptable v sid cmd s
    → Handled c v now sid cmd s (handled c now cmd none s)
unfolding handled
accepted c v now sid cmd s f =
    let t = demand c.max_throttle cmd.deadman cmd.throttle in
    let z = demand c.max_steering cmd.deadman cmd.steering in
    let ht = demand-le c.max_throttle cmd.deadman cmd.throttle in
    let hz = demand-le c.max_steering cmd.deadman cmd.steering in
    let k = accept-Taken c.max_throttle c.max_steering now t z s.gateway ht hz in
    let e = apply-gateway c now cmd s in
    let (q, h, a) = apply-state c now cmd s in
    (
      f,
      ht,
      hz,
      rw e k.steering,
      rw e k.throttle,
      rw e k.reverse,
      rw e k.encoded,
      rw e k.time,
      q,
      λ d. (h d, rw (e, d) (still c now cmd s d)),
      a,
    )

-- A command is refused only when it does not bring what it must, and then it changes nothing; it
-- is accepted only when it does: the owner's socket, session and lease, a live lease, a healthy
-- transport, MANUAL mode, a sequence number above the last, a client time not before the last and
-- axes in range. The demand then keeps inside the configured limits, and the frame handed to the
-- sender is its encoding: steering and throttle are at most the limits from the centre on either
-- side, up to half a step of rounding. The time and the sequence number are kept, and without the
-- dead-man switch the frame is neutral and the lease is held.
pub handle_command-Handled :
    (c : Settings) (v : Vehicle) (now sid : ℕ) (cmd : JoystickCommand) (s : Station)
    → Handled c v now sid cmd s (handle_command c v now sid cmd s)
unfolding handle_command
handle_command-Handled c v now sid cmd s =
    let k = command_fault-Acceptable v sid cmd s in
    elim (Option-cases (command_fault v sid cmd s)) [
      | inr (e, h) ↦ rw (h, handled) (refl, λ a. ground (arith, k.1 a))
      | inl h ↦ rw h (accepted c v now sid cmd s (k.0 h))
    ]

abbrev pub is_refused : {A : Type 0} → Result A → Bool
is_refused (ok a) = false
is_refused (err e) = true

pub fault-refuses :
    (c : Settings) (v : Vehicle) (now sid : ℕ) (cmd : JoystickCommand) (s : Station) {e : Code}
    → command_fault v sid cmd s ≡ some e
    → handle_command c v now sid cmd s ≡ (s, err e)
unfolding handle_command
fault-refuses c v now sid cmd s h = rw (h, handled)
