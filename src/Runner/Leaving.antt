-- ===== src/Runner/Leaving.antt =====
-- How the runner leaves a mission, and in what time.
use px4_dxp.Prelude.{
  ℕ, suc, ◌+◌, ◌-◌, ◌*◌, ◌≤◌, ◌<◌, ◌≡◌, ◌⊎◌, refl, Bool, true, false, Option, none, some, List, [],
  ◌∷◌, inl, inr, arith, is_some, if-cases,
}
use px4_dxp.Runner.{
  MissionPhase, disarm, confirm_disarm, exit_manual, confirm_manual, finished, aborted, State,
  Params, Input, Runner, Step, Event, heard, reported, ticked, state_cb, debug_cb, check_timeout,
  confirm_end_tick, dispatch, phase_tick, handle, run_from, call, service_timeout, quiet,
  is_running, is_exempt,
}

-- A phase on the way out, where a service that was asked has a time-out.
abbrev pub leaving : Option ℕ → MissionPhase → Bool
leaving t aborted = true
leaving t disarm = true
leaving t confirm_disarm = is_some t
leaving t exit_manual = true
leaving t confirm_manual = is_some t
leaving t finished = true
leaving t _ = false

abbrev pub IsLeaving : Runner → Type 0
IsLeaving r = leaving r.future_t0 r.phase ≡ true

abbrev waits : ℕ → Option ℕ → ℕ
waits now none = 0
waits now (some t) = (t + service_timeout) - now

-- How long a phase may still take, behind a tick at `now`, when ticks are `p` apart.
abbrev pub budget : ℕ → ℕ → Option ℕ → MissionPhase → ℕ
budget p now t finished = p
budget p now t confirm_manual = p + p + waits now t
budget p now t exit_manual = p + p + p + service_timeout
budget p now t confirm_disarm = p + p + p + p + service_timeout + waits now t
budget p now t disarm = p + p + p + p + p + service_timeout + service_timeout
budget p now t aborted = p + p + p + p + p + p + service_timeout + service_timeout
budget p now t _ = 0

abbrev Less : ℕ → ℕ → ℕ → Step → Type 0
Less p b now s =
    (s.0.is_shut_down ≡ true) ⊎ (IsLeaving s.0 × (p + budget p now s.0.future_t0 s.0.phase ≤ b))

dispatch-Less :
    (c : Params) (p last : ℕ) (i : Input) (r : Runner) (ph : MissionPhase)
    → r.phase ≡ ph
    → last + p ≤ i.now
    → leaving r.future_t0 ph ≡ true
    → Less p (budget p last r.future_t0 ph) i.now (dispatch c i r ph)
unfolding dispatch confirm_end_tick call
dispatch-Less c p last i r finished e t h = ground arith
dispatch-Less c p last i r confirm_manual e t h = ground arith
dispatch-Less c p last i r exit_manual e t h = ground arith
dispatch-Less c p last i r confirm_disarm e t h = ground arith
dispatch-Less c p last i r disarm e t h = ground arith
dispatch-Less c p last i r aborted e t h = ground arith
dispatch-Less c p last i r _ e t h = absurd (ground arith)

leaving-exempt : (t : Option ℕ) (ph : MissionPhase) → leaving t ph ≡ true → is_exempt ph ≡ true
leaving-exempt t ph h = ground arith

pub check_timeout-same :
    (c : Params) (now : ℕ) (r : Runner) → is_exempt r.phase ≡ true → check_timeout c now r ≡ r
check_timeout-same c now r h = ground arith

tick-Less :
    (c : Params) (p last : ℕ) (i : Input) (r : Runner)
    → last + p ≤ i.now
    → IsLeaving r
    → Less p (budget p last r.future_t0 r.phase) i.now (phase_tick c i r)
unfolding phase_tick
tick-Less c p last i r t h =
    if-cases (Less p (budget p last r.future_t0 r.phase) i.now) r.is_shut_down (λ e. inl e)
      (λ _.
        rw (check_timeout-same c i.now r (leaving-exempt r.future_t0 r.phase h))
          (dispatch-Less c p last i r r.phase refl t h))

leaving-running : (t : Option ℕ) (ph : MissionPhase) → leaving t ph ≡ true → is_running ph ≡ false
leaving-running t ph h = ground arith

-- Neither callback touches a node on its way out but for what it reports.
heard-same : (m : State) (r : Runner) → IsLeaving r → state_cb m r ≡ record r { fcu_state = some m }
unfolding state_cb
heard-same m r h = rw (leaving-running r.future_t0 r.phase h) refl

tick-shut_down :
    (c : Params) (i : Input) (r : Runner) → r.is_shut_down ≡ true → phase_tick c i r ≡ quiet r
unfolding phase_tick
tick-shut_down c i r h = ground arith

shut_down_stays :
    (c : Params) (r : Runner) (es : List Event)
    → r.is_shut_down ≡ true
    → (run_from c r es).0.is_shut_down ≡ true
unfolding run_from handle state_cb debug_cb phase_tick
shut_down_stays c r [] h = h
shut_down_stays c r (heard m ∷ es) h = shut_down_stays c (state_cb m r) es (ground arith)
shut_down_stays c r (reported code ∷ es) h = shut_down_stays c (debug_cb code r) es h
shut_down_stays c r (ticked i ∷ es) h = rw (tick-shut_down c i r h) (shut_down_stays c r es h)

-- The ticks of a history, and that each comes at least `p` behind the one before.
abbrev pub ticks : List Event → ℕ
ticks [] = 0
ticks (ticked i ∷ es) = suc (ticks es)
ticks (heard m ∷ es) = ticks es
ticks (reported code ∷ es) = ticks es

abbrev pub AreSpaced : ℕ → ℕ → List Event → Type 0
AreSpaced p last [] = Unit
AreSpaced p last (ticked i ∷ es) = (last + p ≤ i.now) × AreSpaced p i.now es
AreSpaced p last (heard m ∷ es) = AreSpaced p last es
AreSpaced p last (reported code ∷ es) = AreSpaced p last es

run_from-leaves :
    (c : Params) (p last : ℕ) (r : Runner) (es : List Event)
    → 0 < p
    → IsLeaving r
    → AreSpaced p last es
    → budget p last r.future_t0 r.phase ≤ ticks es * p
    → (run_from c r es).0.is_shut_down ≡ true
unfolding run_from handle debug_cb
run_from-leaves c p last r [] z h s b = absurd (ground arith)
run_from-leaves c p last r (heard m ∷ es) z h s b =
    rw (heard-same m r h) (run_from-leaves c p last (record r { fcu_state = some m }) es z h s b)
run_from-leaves c p last r (reported code ∷ es) z h s b =
    run_from-leaves c p last (debug_cb code r) es z h s b
run_from-leaves c p last r (ticked i ∷ es) z h (t, s) b = elim (tick-Less c p last i r t h) [
  | inl e ↦ shut_down_stays c (phase_tick c i r).0 es e
  | inr (l, d) ↦ run_from-leaves c p i.now (phase_tick c i r).0 es z l s (omega arith)
]

-- An aborted mission always ends: however the services answer, or if they never do, and whatever
-- the vehicle and the path follower report, the node has shut down behind 56 ticks of its timer that
-- are at least its period of 0.2 s apart.
pub abort-ends :
    (c : Params) (last : ℕ) (r : Runner) (es : List Event)
    → r.phase ≡ aborted
    → AreSpaced 200_000_000 last es
    → 56 ≤ ticks es
    → (run_from c r es).0.is_shut_down ≡ true
abort-ends c last r es e s n =
    run_from-leaves c 200_000_000 last r es (omega arith) (rw e refl) s (rw e (omega arith))
