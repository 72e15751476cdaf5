-- ===== src/Runner/Tests.antt =====
-- Runs of the mission runner.
use px4_dxp.Prelude.{
  ℕ, zero, suc, ◌+◌, ◌*◌, ◌≡◌, ◌≤◌, ap, refl, arith, Bool, true, false, none, some, List, [], ◌∷◌,
  pos,
}
use px4_dxp.Runner.{
  MissionPhase, switch_offboard, confirm_arm, aborted, exit_manual, set_mode, arming, offboard,
  manual, State, Params, Future, waiting, answered, Input, Runner, Event, heard, reported, ticked,
  start, phase_tick, run_from,
}
use px4_dxp.Runner.Arming.{before, conforms, allowed, run-conforms}
use px4_dxp.Runner.Leaving.{abort-ends, AreSpaced, ticks}
use px4_dxp.Runner.Skips.{no_arming, arm_timeout-stays_armed}

abbrev params : Params
params = record {
  mission_timeout = 300_000_000_000;
  done_settle = 1_000_000_000;
  stream_warmup = 500_000_000;
  mode_switch_timeout = 5_000_000_000;
  dry_run = false;
  post_offboard_settle = 1_000_000_000;
  arm_max_retries = 3;
  arm_retry_delay = 5_000_000_000;
}

abbrev fresh : Runner
fresh = record {
  phase = MissionPhase.init;
  fcu_state = none;
  rpp_state = none;
  mission_t0 = 0;
  phase_t0 = 0;
  done_t0 = none;
  was_offboard = false;
  pending_future = false;
  future_t0 = none;
  running_t0 = none;
  arm_attempts = 0;
  arm_retry_t0 = none;
  is_shut_down = false;
}

-- The tick at a number of half seconds.
abbrev at : ℕ → Future → Event
at n f =
    ticked (record { now = n * 500_000_000; future = f; set_mode_ready = true; arm_ready = true })

abbrev report : Bool → Event
report armed = heard (record { mode = offboard; armed = armed; connected = true })

-- A mission whose first arming is rejected.
abbrev mission : List Event
mission =
    report false
    ∷ at 1 waiting
    ∷ at 2 waiting
    ∷ at 3 waiting
    ∷ at 4 waiting
    ∷ at 5 (answered (some true))
    ∷ at 6 waiting
    ∷ reported (some (pos 1))
    ∷ at 8 waiting
    ∷ at 9 waiting
    ∷ at 10 (answered (some false))
    ∷ at 20 waiting
    ∷ at 21 waiting
    ∷ at 22 (answered (some true))
    ∷ report true
    ∷ reported (some (pos 3))
    ∷ at 30 waiting
    ∷ at 32 waiting
    ∷ at 33 waiting
    ∷ at 34 (answered none)
    ∷ at 35 waiting
    ∷ at 36 (answered (some true))
    ∷ at 37 waiting
    ∷ []

mission-requests :
    ((run_from params fresh mission).1
      ≡ set_mode offboard ∷ arming true ∷ arming true ∷ arming false ∷ set_mode manual ∷ [])
    × ((run_from params fresh mission).0.is_shut_down ≡ true)
unfolding run_from
mission-requests = (refl, refl)

run-conforms_example : conforms before (allowed params) (run_from params fresh mission).1 ≡ true
unfolding start
run-conforms_example = run-conforms params 0 fresh mission refl

-- Ticks without any answer, one each half second.
abbrev unanswered : ℕ → ℕ → List Event
unanswered zero from = []
unanswered (suc n) from = at from waiting ∷ unanswered n (suc from)

spaced :
    (n from last : ℕ)
    → last + 200_000_000 ≤ from * 500_000_000
    → AreSpaced 200_000_000 last (unanswered n from)
spaced zero from last h = tt
spaced (suc n) from last h = (h, spaced n (suc from) (from * 500_000_000) (omega arith))

ticks-unanswered : (n from : ℕ) → ticks (unanswered n from) ≡ n
ticks-unanswered zero from = refl
ticks-unanswered (suc n) from = ap suc (ticks-unanswered n (suc from))

abbrev failing : Runner
failing = record fresh { phase = aborted }

abort-ends_example : (run_from params failing (unanswered 56 1)).0.is_shut_down ≡ true
abort-ends_example =
    abort-ends params 0 failing (unanswered 56 1) refl (spaced 56 1 0 (omega arith))
      (omega (arith, ticks-unanswered 56 1))

abbrev arming_late : Runner
arming_late = record fresh { phase = confirm_arm; pending_future = true; future_t0 = some 1 }

abbrev late : Input
late = record { now = 6_000_000_000; future = waiting; set_mode_ready = true; arm_ready = true }

arm_timeout-stays_armed_example :
    ((phase_tick params late arming_late).0.phase ≡ exit_manual)
    × (no_arming (run_from params arming_late (ticked late ∷ mission)).1 ≡ true)
arm_timeout-stays_armed_example =
    arm_timeout-stays_armed params late arming_late mission refl refl refl (omega arith) refl refl

abbrev dry : Params
dry = record params { dry_run = true }

abbrev switching : Runner
switching = record fresh { phase = switch_offboard }

abbrev manual_state : State
manual_state = record { mode = manual; armed = false; connected = true }
