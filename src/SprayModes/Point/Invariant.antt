-- ===== src/SprayModes/Point/Invariant.antt =====
-- What holds of the point meter between two control ticks, and that the loop keeps it.
use px4_dxp.Prelude.{
  ℕ, zero, suc, ◌<◌, ◌≡◌, Bool, true, false, List, [], ◌∷◌, is_some, arith, length,
}
use px4_dxp.SprayModes.Floats.{Floats}
use px4_dxp.SprayModes.Point.{
  PointPhase, transit, dwelling, finished, Meter, Limits, Tick, Pass, Params, Pose, limits, tick_of,
  enter, start, body, rounds, update, pass_of,
}

abbrev pub is_finished : PointPhase → Bool
is_finished finished = true
is_finished _ = false

abbrev pub is_dwelling : PointPhase → Bool
is_dwelling dwelling = true
is_dwelling _ = false

-- A phase that is entered after the meter set out for its point.
abbrev pub under_way : PointPhase → Bool
under_way transit = false
under_way finished = false
under_way _ = true

pub record IsSound (n : ℕ) (m : Meter) : Type 0 where
  pub finished_iff : m.done ≡ is_finished m.phase
  pub in_range : m.done ≡ false → m.target_index < n
  pub at_end : m.done ≡ true → m.target_index ≡ n
  pub dwell_stamp : is_dwelling m.phase ≡ true → is_some m.dwell_start ≡ true
  pub transit_stamp : under_way m.phase ≡ true → is_some m.transit_start ≡ true

start-IsSound : (n : ℕ) → IsSound n (start n)
unfolding start
start-IsSound n = ground arith

body-IsSound :
    (p : Limits) (t : Tick) (l : Pass)
    → l.meter.done ≡ false
    → IsSound p.num_points l.meter
    → IsSound p.num_points (body p t l).1.meter
unfolding body
body-IsSound p t l d v = ground arith

rounds-IsSound :
    (k : ℕ) (p : Limits) (t : Tick) (l : Pass)
    → IsSound p.num_points l.meter
    → IsSound p.num_points (rounds k p t l).meter
unfolding rounds
rounds-IsSound zero p t l v = v
rounds-IsSound (suc k) p t l v =
    ground (arith, body-IsSound p t l, rounds-IsSound k p t (body p t l).1)

module _ (F : Floats) where
  update-IsSound :
      (p : Params F) (x : Pose F) (m : Meter)
      → IsSound (length p.coordinates) m
      → IsSound (length p.coordinates) (update F p x m).0
  unfolding update pass_of
  update-IsSound p x m v = ground (arith, rounds-IsSound 8 (limits F p) (tick_of F p x) (enter m))

  -- The meter after a list of control ticks, from the start.
  unfoldable pub run_from : Params F → Meter → List (Pose F) → Meter
  run_from p m [] = m
  run_from p m (x ∷ xs) = run_from p (update F p x m).0 xs

  run_from-IsSound :
      (p : Params F) (m : Meter) (xs : List (Pose F))
      → IsSound (length p.coordinates) m
      → IsSound (length p.coordinates) (run_from p m xs)
  unfolding run_from
  run_from-IsSound p m [] v = v
  run_from-IsSound p m (x ∷ xs) v =
      run_from-IsSound p (update F p x m).0 xs (update-IsSound p x m v)

  -- After any list of control ticks from the start: `done` holds exactly in the last phase, the
  -- target lies inside the list until then and at its end afterwards, and the stamps that the
  -- phases read are set. So no index is out of range and no missing stamp is read.
  pub run-IsSound :
      (p : Params F) (xs : List (Pose F))
      → IsSound (length p.coordinates) (run_from p (start (length p.coordinates)) xs)
  run-IsSound p xs =
      run_from-IsSound p (start (length p.coordinates)) xs (start-IsSound (length p.coordinates))
