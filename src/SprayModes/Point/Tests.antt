-- ===== src/SprayModes/Point/Tests.antt =====
-- Runs of `PointMeter` with whole numbers in place of floats, in centimetres and milliseconds.
use px4_dxp.Prelude.{
  ℕ, ◌+◌, ◌-◌, ◌%◌, ◌≡◌, refl, Bool, true, false, Option, none, some, List, [], ◌∷◌, arith, length,
  leb,
}
use Prim.Native.Nat.{max}
use px4_dxp.SprayModes.Floats.{Floats}
use px4_dxp.SprayModes.Point.{
  transit, off_wait, Meter, Params, Pose, start, enter, body, rounds, update, pass_of, arrived,
  limits, tick_of,
}
use px4_dxp.SprayModes.Point.Accounts
use px4_dxp.SprayModes.Point.Accounts.{count, append_some, update_reports, run_accounts}
use px4_dxp.SprayModes.Point.Rounds.{rounds_bound}

abbrev whole : Floats
whole = record {
  Num = ℕ;
  origin = 0;
  pi = 180;
  two_pi = 360;
  add = λ a b. a + b;
  sub = λ a b. (a - b) + (b - a);
  mod_by = λ a b. a % b;
  greater = λ a b. max a b;
  hypot = λ a b. a + b;
  atan2 = λ a b. 0;
  degrees = λ a. a;
  fabs = λ a. a;
  le = leb;
}

abbrev params : Params whole
params = record {
  coordinates = (0, 0) ∷ (0, 500) ∷ [];
  arrival_tolerance = 3;
  heading_tolerance = none;
  max_speed = 5;
  arrival_settle = 0;
  dwell = 400;
  timeout = 60000;
}

abbrev at_first : ℕ → Bool → Option Bool → Pose whole
at_first t off gate = record {
  pose_n = 1;
  pose_e = 1;
  yaw_ned = 0;
  speed = 0;
  now = t;
  off_confirmed = off;
  require_arrival_gate = gate;
}

-- The first dot is dwelt on and waits for its OFF.
abbrev waiting : Meter
waiting = record {
  target_index = 0;
  phase = off_wait;
  done = false;
  skipped_indices = [];
  settle_start = some 0;
  dwell_start = some 0;
  transit_start = some 0;
}

abbrev first_dot : List (Pose whole)
first_dot = at_first 0 true none ∷ at_first 400 false none ∷ at_first 450 true none ∷ []

first_dot_done : Accounts.run_from whole params (start 2) [] first_dot ≡ (
  record {
    target_index = 1;
    phase = transit;
    done = false;
    skipped_indices = [];
    settle_start = none;
    dwell_start = none;
    transit_start = some 450;
  },
  0 ∷ [],
)
unfolding Accounts.run_from start update pass_of rounds body arrived
first_dot_done = refl

run_accounts_example :
    let (m, completed) = Accounts.run_from whole params (start 2) [] first_dot in
    m.target_index ≡ length m.skipped_indices + length completed
run_accounts_example = run_accounts whole params first_dot (omega arith)

rounds_bound_example :
    rounds 7 (limits whole params) (tick_of whole params (at_first 450 true none)) (enter waiting)
    ≡ rounds 8 (limits whole params) (tick_of whole params (at_first 450 true none)) (enter waiting)
rounds_bound_example =
    rounds_bound 7 (limits whole params) (tick_of whole params (at_first 450 true none)) waiting
      (omega arith) (omega arith)
