-- ===== src/SegmentOrder/Same.antt =====
-- Routes of the same things: what does not depend on the direction of a segment is the same of
-- both, up to the order.
use mathlib.Core.List.{map-append, Perm, perm_append_comm, reverse, reverse_perm}
use mathlib.Core.List.Perm
use px4_dxp.Prelude.{
  ℕ, zero, suc, ◌+◌, ◌-◌, ◌≤◌, ◌≡◌, refl, sym, ap, subst, ◌∙◌, Bool, true, false, List, [], ◌∷◌,
  ◌++◌, map, drop, length, arith, append_assoc, All, All-append, if-cases, get_elem?, some,
  some_inj, ltb, Bool-elim, ◌==◌,
}
use px4_dxp.Placement.Telemetry.{Floats}
use px4_dxp.SegmentOrder.Search.{
  take, range_from, Move, two_opt, relocate, two_opt_row, two_opt_rows, two_opt_moves, relocations,
  run_moves, or_opt_moves, Search, turned_run, apply_move, two_opt_pass, or_opt_pass, passes,
  begin_search, apply_two_opt, is_better, accept_move, one_pass,
}

module _ {A : Type 0} where
  pub take_slice :
      (i m : ℕ) (xs : List A) → i ≤ m → take i xs ++ (drop i (take m xs) ++ drop m xs) ≡ xs
  take_slice zero zero xs h = refl
  take_slice zero (suc m) [] h = refl
  take_slice zero (suc m) (x ∷ xs) h = ap (x ∷◌) (take_slice zero m xs (omega arith))
  take_slice (suc i) zero xs h = absurd (omega arith)
  take_slice (suc i) (suc m) [] h = refl
  take_slice (suc i) (suc m) (x ∷ xs) h = ap (x ∷◌) (take_slice i m xs (omega arith))

  pub take-drop : (n : ℕ) (xs : List A) → take n xs ++ drop n xs ≡ xs
  take-drop zero xs = refl
  take-drop (suc n) [] = refl
  take-drop (suc n) (x ∷ xs) = ap (x ∷◌) (take-drop n xs)

  drop-nil : (n : ℕ) → drop {A = A} n [] ≡ []
  drop-nil zero = refl
  drop-nil (suc n) = refl

  pub drop-drop : (i n : ℕ) (xs : List A) → drop n (drop i xs) ≡ drop (i + n) xs
  drop-drop zero n xs = ap (λ m. drop m xs) (omega arith)
  drop-drop (suc i) n [] = drop-nil n ∙ sym (drop-nil (suc i + n))
  drop-drop (suc i) n (x ∷ xs) =
      drop-drop i n xs ∙ ap (λ m. drop m (x ∷ xs)) {x = suc (i + n)} (omega arith)

  pub take_run : (i n : ℕ) (xs : List A) → take i xs ++ (take n (drop i xs) ++ drop (i + n) xs) ≡ xs
  take_run i n xs =
      ap (λ t. take i xs ++ (take n (drop i xs) ++ t)) (sym (drop-drop i n xs))
      ∙ (ap (λ t. take i xs ++ t) (take-drop n (drop i xs)) ∙ take-drop i xs)

  -- A block in the middle may come first.
  pub block_first : (us vs ws : List A) → Perm (us ++ (vs ++ ws)) (vs ++ (us ++ ws))
  block_first us vs ws =
      subst (λ t. Perm t (vs ++ (us ++ ws))) (append_assoc us vs ws)
        (subst (λ t. Perm ((us ++ vs) ++ ws) t) (append_assoc vs us ws)
          (Perm.append_right ws (perm_append_comm us vs)))

  pub pop_perm :
      (i : ℕ) (x : A) (xs : List A)
      → get_elem? xs i ≡ some x
      → (Perm (x ∷ (take i xs ++ drop (suc i) xs)) xs)
        × (suc (length (take i xs ++ drop (suc i) xs)) ≡ length xs)
  pop_perm i x [] h = absurd (ground arith)
  pop_perm zero x (y ∷ xs) h =
      (subst (λ z. Perm (z ∷ xs) (y ∷ xs)) (some_inj h) (Perm.refl (y ∷ xs)), refl)
  pop_perm (suc i) x (y ∷ xs) h =
      let (p, l) = pop_perm i x xs h in
      (Perm.trans (Perm.swap y x (take i xs ++ drop (suc i) xs)) (Perm.cons y p), omega (arith, l))

-- Observations `f` that do not see the direction.
module _ {A B : Type 0} (turn : A → A) (f : A → B) (blind : (a : A) → f (turn a) ≡ f a) where
  abbrev pub Same : List A → List A → Type 0
  Same xs ys = Perm (map f xs) (map f ys)

  Same-append : (xs xs' ys ys' : List A) → Same xs xs' → Same ys ys' → Same (xs ++ ys) (xs' ++ ys')
  Same-append xs xs' ys ys' p q =
      subst (λ t. Perm t (map f (xs' ++ ys'))) (sym (map-append f xs ys))
        (subst (λ t. Perm (map f xs ++ map f ys) t) (sym (map-append f xs' ys')) (Perm.append p q))

  pub Perm-Same : {xs ys : List A} → Perm xs ys → Same xs ys
  Perm-Same p = Perm.map f p

  map-turn : (xs : List A) → map f (map turn xs) ≡ map f xs
  map-turn [] = refl
  map-turn (x ∷ xs) = rw (blind x, map-turn xs) refl

  module _ (F : Floats) (cost : List A → F.Num) where
    turned_run-Same : (b : Bool) (xs : List A) → Same (turned_run F turn cost b xs) xs
    turned_run-Same true xs =
        subst (λ t. Perm t (map f xs)) (sym (map-turn (reverse xs))) (Perm-Same (reverse_perm xs))
    turned_run-Same false xs = Perm.refl (map f xs)

    -- The slices of a 2-opt move do not overlap.
    abbrev pub IsSliced : Move → Type 0
    IsSliced (two_opt i k) = i ≤ k
    IsSliced (relocate run i j b) = Unit

    apply_move-Same : (m : Move) (xs : List A) → IsSliced m → Same (apply_move F turn cost m xs) xs
    unfolding apply_move
    apply_move-Same (two_opt i k) xs h =
        let mid = drop i (take (suc k) xs) in
        subst (λ t. Same (apply_move F turn cost (two_opt i k) xs) t)
          (take_slice i (suc k) xs (omega arith))
          (Same-append (take i xs) (take i xs) _ _ (Perm.refl _) (
            Same-append (turned_run F turn cost true mid) mid (drop (suc k) xs) (drop (suc k) xs)
              (turned_run-Same true mid) (Perm.refl _)))
    apply_move-Same (relocate run i j b) xs h =
        let chunk = take run (drop i xs) in
        let rest = take i xs ++ drop (i + run) xs in
        let moved : Same (apply_move F turn cost (relocate run i j b) xs)
            (take j rest ++ (chunk ++ drop j rest)) =
          Same-append (take j rest) (take j rest) _ _ (Perm.refl _) (
            Same-append (turned_run F turn cost b chunk) chunk (drop j rest) (drop j rest)
              (turned_run-Same b chunk) (Perm.refl _)) in
        let gathered : Perm (take j rest ++ (chunk ++ drop j rest)) (chunk ++ rest) =
          subst (λ t. Perm (take j rest ++ (chunk ++ drop j rest)) (chunk ++ t)) (take-drop j rest)
            (block_first (take j rest) chunk (drop j rest)) in
        let back : Perm (chunk ++ rest) xs =
          subst (λ t. Perm (chunk ++ rest) t) (take_run i run xs)
            (Perm.symm (block_first (take i xs) chunk (drop (i + run) xs))) in
        Perm.trans moved (Perm-Same (Perm.trans gathered back))

    two_opt_pass-Same :
        (ms : List Move) (s : Search A F.Num)
        → All IsSliced ms
        → Same (two_opt_pass F turn cost ms s).best s.best
    unfolding two_opt_pass
    two_opt_pass-Same [] s h = Perm.refl _
    two_opt_pass-Same (m ∷ ms) s (h, hs) =
        Bool-elim (λ (t : Search A F.Num). Same t.best s.best)
          (is_better F turn cost (cost (apply_move F turn cost m s.best)) s.best_cost)
          (λ _.
            Perm.trans
              (two_opt_pass-Same ms (accept_move F turn cost (apply_move F turn cost m s.best) s)
                hs)
              (apply_move-Same m s.best h))
          (λ _. two_opt_pass-Same ms s hs)

    or_opt_pass-Same :
        (ms : List Move) (s : Search A F.Num)
        → All IsSliced ms
        → Same (or_opt_pass F turn cost ms s).best s.best
    unfolding or_opt_pass
    or_opt_pass-Same [] s h = Perm.refl _
    or_opt_pass-Same (m ∷ ms) s (h, hs) =
        Bool-elim (λ (t : Search A F.Num). Same t.best s.best)
          (is_better F turn cost (cost (apply_move F turn cost m s.best)) s.best_cost)
          (λ _. apply_move-Same m s.best h) (λ _. or_opt_pass-Same ms s hs)

    row-IsSliced : (i a n : ℕ) → i ≤ a → All IsSliced (two_opt_row i (range_from a n))
    row-IsSliced i a zero h = tt
    row-IsSliced i a (suc n) h = (h, row-IsSliced i (suc a) n (omega arith))

    rows-IsSliced : (n : ℕ) (is : List ℕ) → All IsSliced (two_opt_rows n is)
    rows-IsSliced n [] = tt
    rows-IsSliced n (i ∷ is) =
        All-append IsSliced (two_opt_row i (range_from (suc i) (n - suc i))) (two_opt_rows n is)
          (row-IsSliced i (suc i) (n - suc i) (omega arith)) (rows-IsSliced n is)

    relocations-IsSliced : (run i : ℕ) (js : List ℕ) → All IsSliced (relocations run i js)
    relocations-IsSliced run i [] = tt
    relocations-IsSliced run i (j ∷ js) =
        if-cases (All IsSliced) (j == i) (λ _. relocations-IsSliced run i js)
          (λ _. (tt, (tt, relocations-IsSliced run i js)))

    run_moves-IsSliced : (n run : ℕ) (is : List ℕ) → All IsSliced (run_moves n run is)
    run_moves-IsSliced n run [] = tt
    run_moves-IsSliced n run (i ∷ is) =
        All-append IsSliced (relocations run i (range_from 0 (suc (n - run)))) (run_moves n run is)
          (relocations-IsSliced run i (range_from 0 (suc (n - run)))) (run_moves-IsSliced n run is)

    or_opt_moves-IsSliced : (n : ℕ) → All IsSliced (or_opt_moves n)
    or_opt_moves-IsSliced n =
        All-append IsSliced (run_moves n 1 (range_from 0 (suc n - 1))) _
          (run_moves-IsSliced n 1 (range_from 0 (suc n - 1)))
          (All-append IsSliced (run_moves n 2 (range_from 0 (suc n - 2))) _
            (run_moves-IsSliced n 2 (range_from 0 (suc n - 2)))
            (run_moves-IsSliced n 3 (range_from 0 (suc n - 3))))

    one_pass-Same : (n : ℕ) (s : Search A F.Num) → Same (one_pass F turn cost n s).best s.best
    one_pass-Same n s =
        let t = two_opt_pass F turn cost (two_opt_moves n) s in
        Perm.trans (or_opt_pass-Same (or_opt_moves n) t (or_opt_moves-IsSliced n))
          (two_opt_pass-Same (two_opt_moves n) s (rows-IsSliced n (range_from 0 (n - 2))))

    passes-Same : (n left : ℕ) (s : Search A F.Num) → Same (passes F turn cost n left s).best s.best
    unfolding passes
    passes-Same n zero s = Perm.refl _
    passes-Same n (suc left) s =
        let t = one_pass F turn cost n s in
        Bool-elim (λ (u : Search A F.Num). Same u.best s.best) (t.improvements == s.improvements)
          (λ _. one_pass-Same n s) (λ _. Perm.trans (passes-Same n left t) (one_pass-Same n s))

    pub apply_two_opt-Same : (route : List A) → Same (apply_two_opt F turn cost route).best route
    unfolding apply_two_opt
    apply_two_opt-Same route =
        if-cases (λ (u : Search A F.Num). Same u.best route) (ltb (length route) 4)
          (λ _. Perm.refl _) (λ _. passes-Same (length route) 20 (begin_search F turn cost route))
