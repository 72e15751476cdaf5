-- ===== src/SegmentOrder/Cost.antt =====
-- The local search never makes a route worse.
use px4_dxp.Prelude.{
  ℕ, zero, suc, ◌≡◌, refl, true, List, [], ◌∷◌, length, ltb, ◌==◌, if-cases, Bool-elim,
}
use px4_dxp.Placement.Telemetry.{Floats}
use px4_dxp.SegmentOrder.Search.{
  Move, two_opt_moves, or_opt_moves, Search, apply_move, two_opt_pass, or_opt_pass, one_pass,
  passes, begin_search, accept_move, apply_two_opt, is_better,
}

module _ (F : Floats) {A : Type 0} (turn : A → A) (cost : List A → F.Num) where
  -- A chain of moves, each of which lowers the cost by more than 1e-9.
  pub data Descent (route : List A) : ℕ → List A → Type 0 where
    stay : Descent route zero route
    step :
        {n : ℕ} {xs : List A} (m : Move)
        → Descent route n xs
        → is_better F turn cost (cost (apply_move F turn cost m xs)) (cost xs) ≡ true
        → Descent route (suc n) (apply_move F turn cost m xs)

  -- What the search holds: the cost of its route, which a descent has led to.
  abbrev pub Led : List A → Search A F.Num → Type 0
  Led route s = (s.best_cost ≡ cost s.best) × Descent route s.improvements s.best

  accept-Led :
      (route : List A) (m : Move) (s : Search A F.Num)
      → Led route s
      → is_better F turn cost (cost (apply_move F turn cost m s.best)) s.best_cost ≡ true
      → Led route (accept_move F turn cost (apply_move F turn cost m s.best) s)
  accept-Led route m s (c, d) e = (refl, step m d (rw⁻¹ c e))

  two_opt_pass-Led :
      (route : List A) (ms : List Move) (s : Search A F.Num)
      → Led route s
      → Led route (two_opt_pass F turn cost ms s)
  unfolding two_opt_pass
  two_opt_pass-Led route [] s h = h
  two_opt_pass-Led route (m ∷ ms) s h =
      let cand = apply_move F turn cost m s.best in
      Bool-elim (Led route) (is_better F turn cost (cost cand) s.best_cost)
        (λ e. two_opt_pass-Led route ms (accept_move F turn cost cand s) (accept-Led route m s h e))
        (λ _. two_opt_pass-Led route ms s h)

  or_opt_pass-Led :
      (route : List A) (ms : List Move) (s : Search A F.Num)
      → Led route s
      → Led route (or_opt_pass F turn cost ms s)
  unfolding or_opt_pass
  or_opt_pass-Led route [] s h = h
  or_opt_pass-Led route (m ∷ ms) s h =
      let cand = apply_move F turn cost m s.best in
      Bool-elim (Led route) (is_better F turn cost (cost cand) s.best_cost)
        (λ e. accept-Led route m s h e) (λ _. or_opt_pass-Led route ms s h)

  one_pass-Led :
      (route : List A) (n : ℕ) (s : Search A F.Num)
      → Led route s
      → Led route (one_pass F turn cost n s)
  one_pass-Led route n s h =
      or_opt_pass-Led route (or_opt_moves n) _ (two_opt_pass-Led route (two_opt_moves n) s h)

  passes-Led :
      (route : List A) (n left : ℕ) (s : Search A F.Num)
      → Led route s
      → Led route (passes F turn cost n left s)
  unfolding passes
  passes-Led route n zero s h = h
  passes-Led route n (suc left) s h =
      let t = one_pass F turn cost n s in
      let led = one_pass-Led route n s h in
      Bool-elim (Led route) (t.improvements == s.improvements) (λ _. led)
        (λ _. passes-Led route n left t led)

  -- The local search reaches its result by moves each of which lowers the cost by more than 1e-9,
  -- as many as it counts, and the cost that it reports is that of its result.
  pub apply_two_opt-Led : (route : List A) → Led route (apply_two_opt F turn cost route)
  unfolding apply_two_opt
  apply_two_opt-Led route =
      if-cases (Led route) (ltb (length route) 4) (λ _. (refl, stay))
        (λ _. passes-Led route (length route) 20 (begin_search F turn cost route) (refl, stay))
