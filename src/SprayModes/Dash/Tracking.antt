-- ===== src/SprayModes/Dash/Tracking.antt =====
-- The tracked position of the dash meter: how far one tick moves it, and what becomes of a jump.
use px4_dxp.Prelude.{
  ℕ, zero, suc, ◌+◌, ◌-◌, ◌*◌, ◌≤◌, ◌<◌, ◌≡◌, refl, sym, ◌∙◌, ap, true, false, arith, inl, inr,
  Bool-cases, some, none, Option, ◌⊎◌,
}
use px4_dxp.SprayModes.Dash.{
  Config, Dash, DashInput, eps, flip, crosses, toggles, max_flips, update, move, track, max_step,
  note_reject, relocate, in_step,
}

-- What the loop over the boundaries leaves alone.
record Same (d e : Dash) : Type 0 where
  s_dash : e.s_dash ≡ d.s_dash
  armed : e.armed ≡ d.armed
  count : e.reject_count ≡ d.reject_count
  ref : e.reject_ref ≡ d.reject_ref

flip-Same : (c : Config) (d e : Dash) → Same (flip c d) e → Same d e
unfolding flip
flip-Same c d e v = ground arith

toggles-Same : (f : ℕ) (c : Config) (i : DashInput) (d : Dash) → Same d (toggles f c i d)
unfolding toggles
toggles-Same zero c i d = ground arith
toggles-Same (suc f) c i d = elim (Bool-cases (crosses c i d)) [
  | inl e ↦ rw (e, toggles) (flip-Same c d _ (toggles-Same f c i (flip c d)))
  | inr e ↦ rw (e, toggles) (ground arith)
]

update-Same :
    (c : Config) (i : DashInput) (d : Dash)
    → d.armed ≡ true
    → Same (move c i d).meter (update c i d).0
unfolding update
update-Same c i d a = ground (arith, toggles-Same max_flips c i (move c i d).meter)

update-recovered :
    (c : Config) (i : DashInput) (d : Dash)
    → d.armed ≡ true
    → (update c i d).1.recovered ≡ (move c i d).recovered
unfolding update
update-recovered c i d a = ground arith

move-forward :
    (c : Config) (i : DashInput) (d : Dash)
    → d.armed ≡ true
    → (move c i d).recovered ≡ false
    → (d.s_dash ≤ (move c i d).meter.s_dash + eps)
      × ((move c i d).meter.s_dash ≤ d.s_dash + (max_step c i + eps))
unfolding move track
move-forward c i d a r = ground arith

-- A tick of an armed meter that does not recover moves the tracked position back by at most the
-- tolerance, and forward by at most the step that the speed allows and the tolerance.
pub update_forward :
    (c : Config) (i : DashInput) (d : Dash)
    → d.armed ≡ true
    → (update c i d).1.recovered ≡ false
    → (d.s_dash ≤ (update c i d).0.s_dash + eps)
      × ((update c i d).0.s_dash ≤ d.s_dash + (max_step c i + eps))
update_forward c i d a r =
    rw (update-Same c i d a).s_dash (move-forward c i d a (sym (update-recovered c i d a) ∙ r))

-- `n` ticks of the same kind, each with the raw position `v` further on.
unfoldable pub steady_run : ℕ → Config → ℕ → DashInput → Dash → Dash
steady_run zero c v i d = d
steady_run (suc n) c v i d = steady_run n c v (record i { raw_s = i.raw_s + v }) (update c i d).0

-- The reference of the rejects lies `q` ticks back.
abbrev Trail : Option ℕ → ℕ → ℕ → ℕ → Type 0
Trail none raw q v = Unit
Trail (some r) raw q v = raw ≡ r + q * v

-- An armed meter that the raw position has jumped ahead of.
record Lost (c : Config) (v : ℕ) (i : DashInput) (d : Dash) : Type 0 where
  armed : d.armed ≡ true
  ahead : d.s_dash + (max_step c i + eps) < i.raw_s
  trail : Trail d.reject_ref i.raw_s d.reject_count v

lt_of_mul : (q p v : ℕ) → q * v < p * v → q < p
lt_of_mul q p v h = grind arith

suc_travel : (q v raw r : ℕ) → raw ≡ r + q * v → raw + v ≡ r + (q + 1) * v
suc_travel q v raw r e = omega arith

one_travel : (v raw : ℕ) → raw + v ≡ raw + 1 * v
one_travel v raw = omega arith

-- A reject of a lost meter: it still counts less than it takes to be accepted.
record Noted (c : Config) (raw v : ℕ) (d e : Dash) : Type 0 where
  count : e.reject_count < c.jump_reject_accept_after
  trail : Trail e.reject_ref (raw + v) e.reject_count v
  s_dash : e.s_dash ≡ d.s_dash
  armed : e.armed ≡ d.armed

noted :
    (c : Config) (raw step v : ℕ) (r : Option ℕ) (d : Dash)
    → d.reject_ref ≡ r
    → step + eps < (c.jump_reject_accept_after - 1) * v
    → Trail r raw d.reject_count v
    → Noted c raw v d (note_reject raw step d)
unfolding note_reject
noted c raw step v none d e w t =
    ground (arith, lt_of_mul 0 (c.jump_reject_accept_after - 1) v, one_travel v raw)
noted c raw step v (some r) d e w t = ground (
  arith,
  lt_of_mul 0 (c.jump_reject_accept_after - 1) v,
  one_travel v raw,
  lt_of_mul d.reject_count (c.jump_reject_accept_after - 1) v,
  suc_travel d.reject_count v raw r,
)

in_step-ahead : (raw s step : ℕ) → s + (step + eps) < raw → in_step raw s step ≡ false
unfolding in_step
in_step-ahead raw s step h = ground arith

relocate-waits :
    (c : Config) (raw : ℕ) (d : Dash)
    → d.reject_count < c.jump_reject_accept_after
    → relocate c raw d ≡ record { meter = d; jump_rejected = true; recovered = false }
unfolding relocate
relocate-waits c raw d h = ground arith

-- An armed meter ahead of which the position is: only the reject is noted.
move-ahead :
    (c : Config) (i : DashInput) (d : Dash)
    → d.armed ≡ true
    → d.s_dash + (max_step c i + eps) < i.raw_s
    → move c i d ≡ relocate c i.raw_s (note_reject i.raw_s (max_step c i) d)
unfolding move track
move-ahead c i d a h = rw (a, in_step-ahead i.raw_s d.s_dash (max_step c i) h)

update-Lost :
    (c : Config) (v : ℕ) (i : DashInput) (d : Dash)
    → max_step c i + eps < (c.jump_reject_accept_after - 1) * v
    → Lost c v i d
    → ((update c i d).0.s_dash ≡ d.s_dash)
      × ((update c i d).0.armed ≡ true)
      × Trail (update c i d).0.reject_ref (i.raw_s + v) (update c i d).0.reject_count v
update-Lost c v i d w l =
    let n = noted c i.raw_s (max_step c i) v d.reject_ref d refl w l.trail in
    let e =
      move-ahead c i d l.armed l.ahead
      ∙ relocate-waits c i.raw_s (note_reject i.raw_s (max_step c i) d) n.count in
    let m = ap (λ t. t.meter) e in
    let s = update-Same c i d l.armed in
    (
      s.s_dash ∙ ap (λ t. t.s_dash) m ∙ n.s_dash,
      s.armed ∙ ap (λ t. t.armed) m ∙ n.armed ∙ l.armed,
      rw (s.ref, s.count, m) n.trail,
    )

max_step_raw :
    (c : Config) (i : DashInput) (r : ℕ) → max_step c (record i { raw_s = r }) ≡ max_step c i
unfolding max_step
max_step_raw c i r = refl

steady-Lost :
    (n : ℕ) (c : Config) (v : ℕ) (i : DashInput) (d : Dash)
    → max_step c i + eps < (c.jump_reject_accept_after - 1) * v
    → Lost c v i d
    → (steady_run n c v i d).s_dash ≡ d.s_dash
unfolding steady_run
steady-Lost zero c v i d w l = refl
steady-Lost (suc n) c v i d w l =
    let (s, a, t) = update-Lost c v i d w l in
    let e = max_step_raw c i (i.raw_s + v) in
    steady-Lost n c v (record i { raw_s = i.raw_s + v }) (update c i d).0 (rw e w)
      (record { armed = a; ahead = rw (s, e) (omega (arith, l.ahead)); trail = t })
    ∙ s

-- A meter whose position jumps ahead of what the speed allows, and then travels on steadily by
-- `v` per tick, never follows, however many ticks pass, if the step that the speed allows is less
-- than `v` times one less than the number of rejects to be accepted: the reference of the
-- rejects is lost before there are enough of them.
pub steady_wedged :
    (n : ℕ) (c : Config) (v : ℕ) (i : DashInput) (d : Dash)
    → d.armed ≡ true
    → d.reject_ref ≡ none
    → d.s_dash + (max_step c i + eps) < i.raw_s
    → max_step c i + eps < (c.jump_reject_accept_after - 1) * v
    → (steady_run n c v i d).s_dash ≡ d.s_dash
steady_wedged n c v i d a r h w =
    steady-Lost n c v i d w (record { armed = a; ahead = h; trail = rw r tt })

-- A meter that waits at a rejected position, with `q` rejects noted.
record Waits (c : Config) (i : DashInput) (q : ℕ) (d : Dash) : Type 0 where
  armed : d.armed ≡ true
  outside : in_step i.raw_s d.s_dash (max_step c i) ≡ false
  noted_at :
      (d.reject_ref ≡ none) × (q ≡ 0) ⊎ ((d.reject_ref ≡ some i.raw_s) × (d.reject_count ≡ q))

move-Waits :
    (c : Config) (i : DashInput) (q : ℕ) (d : Dash)
    → Waits c i q d
    → q + 1 < c.jump_reject_accept_after
    → Waits c i (q + 1) (move c i d).meter
unfolding move track note_reject relocate
move-Waits c i q d w h = ground arith

move-accepts :
    (c : Config) (i : DashInput) (q : ℕ) (d : Dash)
    → Waits c i q d
    → c.jump_reject_accept_after ≤ q + 1
    → (move c i d).meter.s_dash ≡ i.raw_s
unfolding move track note_reject relocate
move-accepts c i q d w h = ground arith

Waits-Same :
    (c : Config) (i : DashInput) (q : ℕ) (d e : Dash) → Same d e → Waits c i q d → Waits c i q e
Waits-Same c i q d e s w = record {
  armed = rw s.armed w.armed;
  outside = rw s.s_dash w.outside;
  noted_at = rw (s.ref, s.count) w.noted_at;
}

-- `n` ticks with the same input.
unfoldable pub repeat : ℕ → Config → DashInput → Dash → Dash
repeat zero c i d = d
repeat (suc n) c i d = repeat n c i (update c i d).0

Waits-recovers :
    (n q : ℕ) (c : Config) (i : DashInput) (d : Dash)
    → Waits c i q d
    → q + suc n ≡ c.jump_reject_accept_after
    → (repeat (suc n) c i d).s_dash ≡ i.raw_s
unfolding repeat
Waits-recovers zero q c i d w e =
    (update-Same c i d w.armed).s_dash ∙ move-accepts c i q d w (omega arith)
Waits-recovers (suc n) q c i d w e =
    Waits-recovers n (q + 1) c i (update c i d).0
      (Waits-Same c i (q + 1) (move c i d).meter (update c i d).0 (update-Same c i d w.armed)
        (move-Waits c i q d w (omega arith)))
      (omega arith)

-- A position outside the window, behind or ahead, that stands still for as many ticks as rejects
-- are to be accepted, is taken over.
pub still_recovers :
    (n : ℕ) (c : Config) (i : DashInput) (d : Dash)
    → d.armed ≡ true
    → d.reject_ref ≡ none
    → in_step i.raw_s d.s_dash (max_step c i) ≡ false
    → c.jump_reject_accept_after ≡ suc n
    → (repeat (suc n) c i d).s_dash ≡ i.raw_s
still_recovers n c i d a r out e =
    Waits-recovers n 0 c i d (record { armed = a; outside = out; noted_at = inl (r, refl) })
      (omega arith)
