-- ===== src/SprayModes/Point/Arrival.antt =====
-- When `PointMeter.update` asks for spray, and which points it leaves.
use px4_dxp.Prelude.{ℕ, zero, suc, ◌≡◌, ◌⊎◌, true, arith}
use px4_dxp.SprayModes.Floats.{Floats}
use px4_dxp.SprayModes.Point.{
  Meter, Limits, Tick, Pass, Params, Pose, body, rounds, update, pass_of, arrived, wants_spray,
  limits, tick_of, enter,
}

-- Spray at a target is wanted from before, or the pose has arrived there.
abbrev Earned : Tick → Meter → Meter → Type 0
Earned t m0 m =
    wants_spray m.phase ≡ true
    → (t.arrive m.target_index ≡ true)
      ⊎ ((wants_spray m0.phase ≡ true) × (m.target_index ≡ m0.target_index))

body-Earned :
    (p : Limits) (t : Tick) (m0 : Meter) (l : Pass)
    → Earned t m0 l.meter
    → Earned t m0 (body p t l).1.meter
unfolding body
body-Earned p t m0 l e = ground arith

rounds-Earned :
    (k : ℕ) (p : Limits) (t : Tick) (m0 : Meter) (l : Pass)
    → Earned t m0 l.meter
    → Earned t m0 (rounds k p t l).meter
unfolding rounds
rounds-Earned zero p t m0 l e = e
rounds-Earned (suc k) p t m0 l e =
    ground (arith, body-Earned p t m0 l, rounds-Earned k p t m0 (body p t l).1)

module _ (F : Floats) where
  -- The spray is wanted at a point only if it was wanted at the same point before this tick, or the
  -- tick's arrival condition holds of the point.
  pub update-geometry_desired :
      (p : Params F) (x : Pose F) (m : Meter)
      → (update F p x m).1.geometry_desired ≡ true
      → let m' = (update F p x m).0 in
        (arrived F p x m'.target_index ≡ true)
        ⊎ ((wants_spray m.phase ≡ true) × (m'.target_index ≡ m.target_index))
  unfolding update pass_of
  update-geometry_desired p x m =
      ground (arith, rounds-Earned 8 (limits F p) (tick_of F p x) m (enter m))
