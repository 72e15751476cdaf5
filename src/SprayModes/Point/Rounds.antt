-- ===== src/SprayModes/Point/Rounds.antt =====
-- The bound of eight rounds in `PointMeter.update`, and the pose's answer in later rounds.
use px4_dxp.Prelude.{
  ℕ, zero, suc, ◌+◌, ◌≤◌, ◌<◌, ◌≡◌, Bool, true, false, Option, none, some, arith, length, ◌==◌,
  if◌then◌else◌,
}
use px4_dxp.SprayModes.Floats.{Floats}
use px4_dxp.SprayModes.Point.{
  PointPhase, transit, arriving, holding, dwelling, off_wait, finished, Meter, Limits, Tick, Pass,
  Params, Pose, body, rounds, update, pass_of, enter, arrived,
}

is_fresh : ℕ → Option ℕ → Bool
is_fresh now none = true
is_fresh now (some t) = t == now

-- How many rounds may still say `continue`.
rank : ℕ → Meter → PointPhase → ℕ
unfolding is_fresh
rank now m transit = if is_fresh now m.transit_start then 4 else 6
rank now m arriving = if is_fresh now m.transit_start then 3 else 5
rank now m holding = 2
rank now m dwelling = if is_fresh now m.dwell_start then 1 else 6
rank now m off_wait = 5
rank now m finished = 0

rank-body :
    (p : Limits) (t : Tick) (l : Pass)
    → 0 < p.dwell
    → (body p t l).0 ≡ true
    → rank t.now (body p t l).1.meter (body p t l).1.meter.phase < rank t.now l.meter l.meter.phase
unfolding body rank
rank-body p t l d h = ground arith

rank-le : (now : ℕ) (m : Meter) → rank now m m.phase ≤ 6
unfolding rank
rank-le now m = ground arith

rounds_enough :
    (k j : ℕ) (p : Limits) (t : Tick) (l : Pass)
    → 0 < p.dwell
    → rank t.now l.meter l.meter.phase < k
    → rank t.now l.meter l.meter.phase < j
    → rounds j p t l ≡ rounds k p t l
unfolding rounds
rounds_enough zero j p t l d h g = absurd (omega arith)
rounds_enough (suc k) zero p t l d h g = absurd (omega arith)
rounds_enough (suc k) (suc j) p t l d h g =
    ground (arith, rank-body p t l d, rounds_enough k j p t (body p t l).1 d)

-- With a dwell time that is not zero the loop ends by its own `break`: more rounds than the eight
-- of the source, or one fewer, give the same result.
pub rounds_bound :
    (k : ℕ) (p : Limits) (t : Tick) (m : Meter)
    → 0 < p.dwell
    → 6 < k
    → rounds k p t (enter m) ≡ rounds 8 p t (enter m)
rounds_bound k p t m d h =
    rounds_enough 8 k p t (enter m) d (omega (arith, rank-le t.now m))
      (omega (arith, rank-le t.now m))

module _ (F : Floats) where
  -- In handshake mode with no settle time: when a dot is completed, the answer that the rover
  -- stands on that dot is used in the same tick for the next one, so spray is wanted for the next
  -- dot while the rover is still on the last.
  pub gate_carries_over :
      (p : Params F) (x : Pose F) (m : Meter)
      → m.done ≡ false
      → m.phase ≡ off_wait
      → m.target_index + 1 < length p.coordinates
      → x.off_confirmed ≡ true
      → x.require_arrival_gate ≡ some true
      → p.arrival_settle ≡ 0
      → 0 < p.dwell
      → let (m', u) = update F p x m in
        (u.completed_index ≡ some m.target_index)
        × (u.target_index ≡ m.target_index + 1)
        × (u.geometry_desired ≡ true)
  unfolding update pass_of rounds body arrived
  gate_carries_over p x m nd ph more off gate settle d = ground arith
