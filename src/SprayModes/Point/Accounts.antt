-- ===== src/SprayModes/Point/Accounts.antt =====
-- Every point that `PointMeter` leaves is reported once: skipped by the watchdog, or completed.
use px4_dxp.Prelude.{
  ℕ, zero, suc, ◌+◌, ◌<◌, ◌≡◌, Bool, true, false, Option, none, some, List, [], ◌∷◌, ◌++◌, is_some,
  arith, length, length-append,
}
use px4_dxp.SprayModes.Floats.{Floats}
use px4_dxp.SprayModes.Point.{
  PointPhase, off_wait, Meter, Limits, Tick, Pass, Params, Pose, body, rounds, update, pass_of,
  limits, tick_of, enter, start,
}
use px4_dxp.SprayModes.Point.Invariant.{is_dwelling}

abbrev is_waiting : PointPhase → Bool
is_waiting off_wait = true
is_waiting _ = false

-- How many reports an index stands for, and a list with the report at its end.
abbrev pub count : Option ℕ → ℕ
count none = 0
count (some i) = 1

abbrev pub append_some : List ℕ → Option ℕ → List ℕ
append_some xs none = xs
append_some xs (some i) = xs ++ i ∷ []

-- A stamp that is not set, or set in this tick.
abbrev Fresh : ℕ → Option ℕ → Type 0
Fresh now none = Unit
Fresh now (some t) = t ≡ now

-- What one call of `update` has done so far, from the meter `m0`.
record Ledger (t : Tick) (m0 : Meter) (l : Pass) : Type 0 where
  skips : l.meter.skipped_indices ≡ append_some m0.skipped_indices l.skipped
  fresh : is_some l.skipped ≡ true → Fresh t.now l.meter.transit_start
  no_wait : is_some l.completed ≡ true → is_waiting l.meter.phase ≡ false
  no_dwell :
      is_some l.completed ≡ true
      → is_dwelling l.meter.phase ≡ true
      → Fresh t.now l.meter.dwell_start
  confirmed : is_some l.completed ≡ true → t.off_confirmed ≡ true
  moved : l.meter.target_index ≡ m0.target_index + (count l.skipped + count l.completed)

body-Ledger :
    (p : Limits) (t : Tick) (m0 : Meter) (l : Pass)
    → 0 < p.dwell
    → Ledger t m0 l
    → Ledger t m0 (body p t l).1
unfolding body
body-Ledger p t m0 l d e = ground arith

rounds-Ledger :
    (k : ℕ) (p : Limits) (t : Tick) (m0 : Meter) (l : Pass)
    → 0 < p.dwell
    → Ledger t m0 l
    → Ledger t m0 (rounds k p t l)
unfolding rounds
rounds-Ledger zero p t m0 l d e = e
rounds-Ledger (suc k) p t m0 l d e =
    ground (arith, body-Ledger p t m0 l d, rounds-Ledger k p t m0 (body p t l).1 d)

enter-Ledger : (t : Tick) (m : Meter) → Ledger t m (enter m)
enter-Ledger t m = ground arith

module _ (F : Floats) where
  update-Ledger :
      (p : Params F) (x : Pose F) (m : Meter)
      → 0 < p.dwell
      → Ledger (tick_of F p x) m (pass_of F p x m)
  unfolding pass_of
  update-Ledger p x m d =
      rounds-Ledger 8 (limits F p) (tick_of F p x) m (enter m) d (enter-Ledger (tick_of F p x) m)

  -- With a dwell time that is not zero, one tick skips at most one point and completes at most
  -- one: the skipped list grows by exactly the reported skip, the target moves on by the number
  -- of reports, and a completion is reported only with the actuator's OFF confirmed.
  pub update_reports :
      (p : Params F) (x : Pose F) (m : Meter)
      → 0 < p.dwell
      → let (m', u) = update F p x m in
        (m'.skipped_indices ≡ append_some m.skipped_indices u.skipped_index)
        × (m'.target_index ≡ m.target_index + (count u.skipped_index + count u.completed_index))
        × (is_some u.completed_index ≡ true → x.off_confirmed ≡ true)
  unfolding update
  update_reports p x m d = ground (arith, update-Ledger p x m d)

  -- A list of ticks, with the completed points that they report.
  unfoldable pub run_from : Params F → Meter → List ℕ → List (Pose F) → Meter × List ℕ
  run_from p m completed [] = (m, completed)
  run_from p m completed (x ∷ xs) =
      let (m', u) = update F p x m in run_from p m' (append_some completed u.completed_index) xs

  length-append_some :
      (xs : List ℕ) (o : Option ℕ) → length (append_some xs o) ≡ length xs + count o
  length-append_some xs none = omega arith
  length-append_some xs (some i) = omega (arith, length-append xs (i ∷ []))

  run_from-accounts :
      (p : Params F) (m : Meter) (completed : List ℕ) (xs : List (Pose F))
      → 0 < p.dwell
      → m.target_index ≡ length m.skipped_indices + length completed
      → let (m', completed') = run_from p m completed xs in
        m'.target_index ≡ length m'.skipped_indices + length completed'
  unfolding run_from
  run_from-accounts p m completed [] d e = e
  run_from-accounts p m completed (x ∷ xs) d e =
      run_from-accounts p (update F p x m).0
        (append_some completed (update F p x m).1.completed_index) xs d
        (let r = update_reports p x m d in
          rw r.0 (
            omega (
              arith,
              r.1,
              e,
              length-append_some m.skipped_indices (update F p x m).1.skipped_index,
              length-append_some completed (update F p x m).1.completed_index,
            )))

  -- Over any list of ticks from the start, with a dwell time that is not zero, the points left
  -- behind are as many as the skipped and the completed points together: none is lost or counted
  -- twice.
  pub run_accounts :
      (p : Params F) (xs : List (Pose F))
      → 0 < p.dwell
      → let (m, completed) = run_from p (start (length p.coordinates)) [] xs in
        m.target_index ≡ length m.skipped_indices + length completed
  unfolding start
  run_accounts p xs d = run_from-accounts p (start (length p.coordinates)) [] xs d (omega arith)
