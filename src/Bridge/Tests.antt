-- ===== src/Bridge/Tests.antt =====
-- Rounds of the watchdog, with each claim's theorem at one input.
use px4_dxp.Prelude.{ℕ, ◌≡◌, refl, true, false, none, some, List, [], ◌∷◌, pos, arith}
use px4_dxp.Bridge.{Settings, Snapshot, init, Tick, run_from}
use px4_dxp.Bridge.Budget.{InOrder, IsSpaced, run_budget}

-- The constants of the source in tenths of a second.
abbrev settings : Settings
settings = record {
  auto_recover = true;
  state_stale = 2_500;
  frozen_grace = 60;
  recovery_max = 3;
  recovery_window = 3_000;
  recovery_cooldown = 300;
}

abbrev dead : Snapshot
dead = record { fcu_connected = false; state_age = none; publishers = pos 0 }

abbrev alive : Snapshot
alive = record { fcu_connected = true; state_age = some 40; publishers = pos 1 }

abbrev round : ℕ → Tick
round now = record {
  snapshot = some dead;
  now = now;
  recover_now = now;
  done_now = now;
  running = false;
}

abbrev rounds : List Tick
rounds = round 10 ∷ round 80 ∷ round 400 ∷ round 500 ∷ []

two_restarts : (run_from settings init rounds).1 ≡ 80 ∷ 500 ∷ []
unfolding run_from init
two_restarts = refl

in_order : InOrder 0 rounds
in_order = omega arith

run_budget_example : IsSpaced 3_000 3 (run_from settings init rounds).1
run_budget_example = run_budget settings rounds in_order

abbrev back : Tick
back = record (round 900) { snapshot = some alive }

cooled : (run_from settings init rounds).0.cooldown_until ≡ 800
unfolding run_from init
cooled = refl
