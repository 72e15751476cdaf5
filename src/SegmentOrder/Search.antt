-- ===== src/SegmentOrder/Search.antt =====
-- path_engine/optimizers/segment_order.py: `_apply_two_opt` and `_or_opt_pass`, on the routes of
-- segments or of any things that can be reversed and have a cost.
use mathlib.Core.List.{reverse}
use px4_dxp.Prelude.{
  ℕ, zero, suc, ◌+◌, ◌-◌, Bool, true, false, List, [], ◌∷◌, ◌++◌, map, drop, length, pos, ltb, ◌==◌,
  if◌then◌else◌,
}
use px4_dxp.Placement.Telemetry.{Floats}

abbrev pub take : {A : Type 0} → ℕ → List A → List A
take zero xs = []
take (suc n) [] = []
take (suc n) (x ∷ xs) = x ∷ take n xs

-- `range(a, a + n)`
abbrev pub range_from : ℕ → ℕ → List ℕ
range_from a zero = []
range_from a (suc n) = a ∷ range_from (suc a) n

-- The moves of the loops, in their order.
pub data Move : Type 0 where
  -- The slice from `i` to `k` is reversed.
  two_opt : ℕ → ℕ → Move
  -- The run of a length at `i` goes to `j`, reversed or not.
  relocate : ℕ → ℕ → ℕ → Bool → Move

abbrev pub two_opt_row : ℕ → List ℕ → List Move
two_opt_row i [] = []
two_opt_row i (k ∷ ks) = two_opt i k ∷ two_opt_row i ks

abbrev pub two_opt_rows : ℕ → List ℕ → List Move
two_opt_rows n [] = []
two_opt_rows n (i ∷ is) = two_opt_row i (range_from (suc i) (n - suc i)) ++ two_opt_rows n is

abbrev pub two_opt_moves : ℕ → List Move
two_opt_moves n = two_opt_rows n (range_from 0 (n - 2))

abbrev pub relocations : ℕ → ℕ → List ℕ → List Move
relocations run i [] = []
relocations run i (j ∷ js) =
    let rest = relocations run i js in
    if j == i then rest else relocate run i j false ∷ relocate run i j true ∷ rest

abbrev pub run_moves : ℕ → ℕ → List ℕ → List Move
run_moves n run [] = []
run_moves n run (i ∷ is) = relocations run i (range_from 0 (suc (n - run))) ++ run_moves n run is

abbrev pub or_opt_moves : ℕ → List Move
or_opt_moves n =
    run_moves n 1 (range_from 0 (suc n - 1))
    ++ (run_moves n 2 (range_from 0 (suc n - 2)) ++ run_moves n 3 (range_from 0 (suc n - 3)))

pub record Search (A Num : Type 0) : Type 0 where
  pub best : List A
  pub best_cost : Num
  pub improvements : ℕ

module _ (F : Floats) {A : Type 0} (turn : A → A) (cost : List A → F.Num) where
  abbrev pub turned_run : Bool → List A → List A
  turned_run true xs = map turn (reverse xs)
  turned_run false xs = xs

  -- The candidate of a move.
  unfoldable pub apply_move : Move → List A → List A
  apply_move (two_opt i k) route =
      take i route ++ (turned_run true (drop i (take (suc k) route)) ++ drop (suc k) route)
  apply_move (relocate run i j flip) route =
      let chunk = take run (drop i route) in
      let rest = take i route ++ drop (i + run) route in
      take j rest ++ (turned_run flip chunk ++ drop j rest)

  -- `cand_cost + 1e-9 < best_cost`
  abbrev pub is_better : F.Num → F.Num → Bool
  is_better new old = F.lt (F.add new (F.lit (pos 1) 9)) old

  abbrev pub accept_move : List A → Search A F.Num → Search A F.Num
  accept_move cand s = record {
    best = cand;
    best_cost = cost cand;
    improvements = suc s.improvements;
  }

  -- The two loops of 2-opt: every better candidate becomes the route at once.
  unfoldable pub two_opt_pass : List Move → Search A F.Num → Search A F.Num
  unfolding apply_move
  two_opt_pass [] s = s
  two_opt_pass (m ∷ ms) s = elim (is_better (cost (apply_move m s.best)) s.best_cost) [
    | true ↦ two_opt_pass ms (accept_move (apply_move m s.best) s)
    | false ↦ two_opt_pass ms s
  ]

  -- `_or_opt_pass`: the first better candidate is returned.
  unfoldable pub or_opt_pass : List Move → Search A F.Num → Search A F.Num
  unfolding apply_move
  or_opt_pass [] s = s
  or_opt_pass (m ∷ ms) s = elim (is_better (cost (apply_move m s.best)) s.best_cost) [
    | true ↦ accept_move (apply_move m s.best) s
    | false ↦ or_opt_pass ms s
  ]

  abbrev pub one_pass : ℕ → Search A F.Num → Search A F.Num
  one_pass n s = or_opt_pass (or_opt_moves n) (two_opt_pass (two_opt_moves n) s)

  -- The passes, until one changes nothing.
  unfoldable pub passes : ℕ → ℕ → Search A F.Num → Search A F.Num
  unfolding or_opt_pass two_opt_pass
  passes n zero s = s
  passes n (suc left) s =
      let t = one_pass n s in
      elim (t.improvements == s.improvements) [ true ↦ t | false ↦ passes n left t ]

  abbrev pub begin_search : List A → Search A F.Num
  begin_search route = record { best = route; best_cost = cost route; improvements = 0 }

  -- `_apply_two_opt` with its cap of 20 passes; the cost before is that of the route.
  unfoldable pub apply_two_opt : List A → Search A F.Num
  unfolding passes
  apply_two_opt route =
      if ltb (length route) 4
      then begin_search route
      else passes (length route) 20 (begin_search route)
