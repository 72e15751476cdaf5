-- ===== src/SegmentOrder/Order.antt =====
-- What the optimizer keeps: every mark once, up to its direction.
use mathlib.Core.List.{Perm, Mem, mem-cons_self, mem-cons_of_mem, not-mem-nil, mem-cons}
use mathlib.Core.List.Perm
use mathlib.Core.Logic.Or
use mathlib.Core.Bool.{Bool-set}
use px4_dxp.Prelude.{
  ℕ, zero, suc, ◌+◌, ◌≤◌, ◌<◌, ◌≡◌, refl, sym, ap, subst, ◌∙◌, Bool, true, false, not, ◌&&◌, ◌||◌,
  Option, none, some, List, [], ◌∷◌, ◌++◌, map, drop, length, arith, if-cases, Option-elim,
  get_elem?, ltb, leb, pos, if◌then◌else◌, All, none-out, List-elim,
}
use px4_dxp.Placement.Telemetry.{Floats}
use px4_dxp.SegmentOrder.Segment.{
  PathSegment, segment, points_of, is_mark, head_of, last_of, reverse_segment, reverse_attributes,
  distance,
}
use px4_dxp.SegmentOrder.Paint.{Paint, deadhead_cost}
use px4_dxp.SegmentOrder.Search.{Search, take}
use px4_dxp.SegmentOrder.Route.{
  Options, marks_of, numbered, number_from, link, link_to, insert_from, insert_transits, Nearest,
  nearer, scan, oriented, or_here, nearest_from, nearest_route, ends_nearer, counts_paint, paint_of,
  tagged, improve, order_marks, is_single, optimize_segment_order, behind,
}
use px4_dxp.SegmentOrder.Same.{pop_perm, apply_two_opt-Same}

module _ (F : Floats) (inf : F.Num) where
  nearer-index :
      (d : F.Num) (k b : ℕ) (v : Bool) (n : Nearest F inf)
      → n.index < b
      → k < b
      → (nearer F inf d k v n).index < b
  nearer-index d k b v n h g =
      if-cases (λ (x : Nearest F inf). x.index < b) (F.lt d n.dist) (λ _. g) (λ _. h)

  scan-index :
      (p : F.Num × F.Num) (k b : ℕ) (ss : List (PathSegment F.Num)) (n : Nearest F inf)
      → n.index < b
      → k + length ss ≤ b
      → (scan F inf p k ss n).index < b
  unfolding scan
  scan-index p k b [] n h g = h
  scan-index p k b (s ∷ ss) n h g =
      let q : k < b = omega arith in
      let r : suc k + length ss ≤ b = omega arith in
      Option-elim (λ (x : Nearest F inf). x.index < b) (head_of (points_of s))
        (λ _. scan-index p (suc k) b ss n h r)
        (λ a _.
          Option-elim (λ (x : Nearest F inf). x.index < b) (last_of (points_of s))
            (λ _. scan-index p (suc k) b ss n h r)
            (λ l _.
              scan-index p (suc k) b ss _
                (nearer-index _ k b true _ (nearer-index _ k b false n h q) q) r))

  module _ {B : Type 0} (f : PathSegment F.Num → B)
      (blind : (s : PathSegment F.Num) → f (reverse_segment F s) ≡ f s)
      (numberless : (k : ℕ) (s : PathSegment F.Num) → f (numbered k s) ≡ f s) where
    oriented-blind : (b : Bool) (s : PathSegment F.Num) → f (oriented F inf b s) ≡ f s
    oriented-blind b s =
        if-cases (λ t. f t ≡ f s) (b && ltb 1 (length (points_of s))) (λ _. blind s) (λ _. refl)

    number_from-blind :
        (k : ℕ) (ss : List (PathSegment F.Num)) → map f (number_from k ss) ≡ map f ss
    number_from-blind k [] = refl
    number_from-blind k (s ∷ ss) = rw (numberless k s, number_from-blind (suc k) ss) refl

    nearest_from-Same :
        (fuel : ℕ) (p : F.Num × F.Num) (ss : List (PathSegment F.Num))
        → fuel ≡ length ss
        → Perm (map f (nearest_from F inf fuel p ss)) (map f ss)
    unfolding nearest_from
    nearest_from-Same zero p [] e = Perm.refl []
    nearest_from-Same zero p (s ∷ ss) e = absurd (omega arith)
    nearest_from-Same (suc fuel) p ss e =
        let n0 : Nearest F inf = record { index = 0; dist = inf; backwards = false } in
        let n = scan F inf p 0 ss n0 in
        let bound : n.index < length ss =
          scan-index p 0 (length ss) ss n0 (omega arith) (omega arith) in
        Option-elim (λ t. Perm (map f t) (map f ss)) (get_elem? ss n.index)
          (λ h. absurd (omega (arith, none-out n.index ss h, bound)))
          (λ a h.
            let (q, l) = pop_perm n.index a ss h in
            let rest = take n.index ss ++ drop (suc n.index) ss in
            let t = oriented F inf n.backwards a in
            let ih =
              nearest_from-Same fuel (or_here F inf p (last_of (points_of t))) rest
                (omega (arith, l, e)) in
            Perm.trans
              (subst
                (λ b.
                  Perm
                    (f t
                      ∷ map f
                          (nearest_from F inf fuel (or_here F inf p (last_of (points_of t))) rest))
                    (b ∷ map f rest))
                (oriented-blind n.backwards a) (Perm.cons (f t) ih))
              (Perm.map f q))

    nearest_route-Same :
        (start : Option (F.Num × F.Num)) (ss : List (PathSegment F.Num))
        → Perm (map f (nearest_route F inf start ss)) (map f ss)
    unfolding nearest_route
    nearest_route-Same start [] = Perm.refl []
    nearest_route-Same none (s ∷ ss) = nearest_from-Same (length (s ∷ ss)) _ (s ∷ ss) refl
    nearest_route-Same (some p) (s ∷ ss) = nearest_from-Same (length (s ∷ ss)) p (s ∷ ss) refl

    improve-Same :
        (c : Options F.Num) (start : Option (F.Num × F.Num)) (w : Option (Paint F.Num))
        (route : List (PathSegment F.Num))
        → Perm (map f (improve F inf c start w route).best) (map f route)
    unfolding improve
    improve-Same c start w route =
        if-cases (λ (t : Search (PathSegment F.Num) F.Num). Perm (map f t.best) (map f route))
          (c.use_two_opt && leb (length route) c.max_two_opt_segments)
          (λ _. apply_two_opt-Same (reverse_segment F) f blind F (deadhead_cost F start w) route)
          (λ _. Perm.refl _)

    tagged-blind :
        (c : Options F.Num) (ss : List (PathSegment F.Num)) → map f (tagged F inf c ss) ≡ map f ss
    tagged-blind c ss =
        if-cases (λ t. map f t ≡ map f ss) (counts_paint F inf c ss) (λ _. number_from-blind 0 ss)
          (λ _. refl)

    order_marks-Same :
        (c : Options F.Num) (start : Option (F.Num × F.Num)) (ss : List (PathSegment F.Num))
        → Perm (map f (order_marks F inf c start ss)) (map f ss)
    unfolding order_marks
    order_marks-Same c start [] = Perm.refl []
    order_marks-Same c start (s ∷ []) =
        if-cases (λ t. Perm (f t ∷ []) (f s ∷ [])) (ends_nearer F inf start s)
          (λ _. subst (λ b. Perm (b ∷ []) (f s ∷ [])) (sym (blind s)) (Perm.refl _))
          (λ _. Perm.refl _)
    order_marks-Same c start (s ∷ t ∷ ms) =
        let ss = s ∷ t ∷ ms in
        Perm.trans
          (improve-Same c start (paint_of F inf c ss)
            (nearest_route F inf start (tagged F inf c ss)))
          (subst (λ u. Perm (map f (nearest_route F inf start (tagged F inf c ss))) u)
            (tagged-blind c ss) (nearest_route-Same start (tagged F inf c ss)))

  -- Links are no marks.
  link_to-marks :
      (v : F.Num) (st first : Bool) (p : Option (F.Num × F.Num)) (n : ℕ) (s : PathSegment F.Num)
      (ss : List (PathSegment F.Num))
      → marks_of ((link_to F inf v st first p n s).0 ++ ss) ≡ marks_of ss
  unfolding link_to link
  link_to-marks v st first none n s ss = refl
  link_to-marks v st first (some p) n s ss =
      Option-elim (λ (l : List (PathSegment F.Num) × ℕ). marks_of (l.0 ++ ss) ≡ marks_of ss)
        (head_of (points_of s)) (λ _. refl)
        (λ q _.
          if-cases (λ (l : List (PathSegment F.Num) × ℕ). marks_of (l.0 ++ ss) ≡ marks_of ss)
            ((not first || st) && F.lt (F.lit (pos 1) 2) (distance F p q)) (λ _. refl) (λ _. refl))

  insert_from-marks :
      (v : F.Num) (st first : Bool) (p : Option (F.Num × F.Num)) (n : ℕ)
      (route : List (PathSegment F.Num))
      → marks_of (insert_from F inf v st first p n route) ≡ marks_of route
  unfolding insert_from
  insert_from-marks v st first p n [] = refl
  insert_from-marks v st first p n (s ∷ route) =
      let l = link_to F inf v st first p n s in
      link_to-marks v st first p n s _
      ∙ ap (λ t. if is_mark s then s ∷ t else t)
          (insert_from-marks v st false (behind F inf p s) l.1 route)

  marks_of-true : (ss : List (PathSegment F.Num)) → All (λ b. b ≡ true) (map is_mark (marks_of ss))
  marks_of-true [] = tt
  marks_of-true (s ∷ ss) =
      if-cases (λ t. All (λ b. b ≡ true) (map is_mark t)) (is_mark s) (λ e. (e, marks_of-true ss))
        (λ _. marks_of-true ss)

  All-Mem : (bs : List Bool) (b : Bool) → All (λ x. x ≡ true) bs → Mem b bs → b ≡ true
  All-Mem [] b h m = absurd (not-mem-nil m)
  All-Mem (x ∷ bs) b (e, h) m =
      Or.elim (Bool-set b true) (mem-cons.0 m) (λ q. q ∙ e) (All-Mem bs b h)

  true-All : (bs : List Bool) → ((b : Bool) → Mem b bs → b ≡ true) → All (λ x. x ≡ true) bs
  true-All [] h = tt
  true-All (x ∷ bs) h = (h x mem-cons_self, true-All bs (λ b m. h b (mem-cons_of_mem x m)))

  all_marks :
      (ss : List (PathSegment F.Num)) → All (λ b. b ≡ true) (map is_mark ss) → marks_of ss ≡ ss
  all_marks [] h = refl
  all_marks (s ∷ ss) (e, h) = rw (e, all_marks ss h) refl

  reverse_segment-is_mark : (s : PathSegment F.Num) → is_mark (reverse_segment F s) ≡ is_mark s
  unfolding reverse_segment reverse_attributes
  reverse_segment-is_mark (segment a ms) = refl

  numbered-is_mark : (k : ℕ) (s : PathSegment F.Num) → is_mark (numbered k s) ≡ is_mark s
  numbered-is_mark k (segment a ms) = refl

  order_marks-marks :
      (c : Options F.Num) (start : Option (F.Num × F.Num)) (ss : List (PathSegment F.Num))
      → marks_of (order_marks F inf c start (marks_of ss)) ≡ order_marks F inf c start (marks_of ss)
  order_marks-marks c start ss =
      let p =
        order_marks-Same is_mark reverse_segment-is_mark numbered-is_mark c start (marks_of ss) in
      all_marks _ (
        true-All _
          (λ b m. All-Mem (map is_mark (marks_of ss)) b (marks_of-true ss) (Perm.subset p b m)))

  -- The marks of the result are the marks of the path, each once, in some order and each in one of
  -- its two directions: every observation that sees neither the direction of a segment nor the number
  -- that the optimizer gives it finds the same on both, with all options and from every start.
  pub optimize_segment_order-Same :
      {B : Type 0} (f : PathSegment F.Num → B) (c : Options F.Num) (start : Option (F.Num × F.Num))
      (ss : List (PathSegment F.Num))
      → ((s : PathSegment F.Num) → f (reverse_segment F s) ≡ f s)
      → ((k : ℕ) (s : PathSegment F.Num) → f (numbered k s) ≡ f s)
      → Perm (map f (marks_of (optimize_segment_order F inf c start ss))) (map f (marks_of ss))
  unfolding optimize_segment_order insert_transits
  optimize_segment_order-Same f c start ss blind numberless =
      let base : Perm (map f (marks_of (order_marks F inf c start (marks_of ss))))
          (map f (marks_of ss)) =
        subst (λ t. Perm (map f t) (map f (marks_of ss))) (sym (order_marks-marks c start ss))
          (order_marks-Same f blind numberless c start (marks_of ss)) in
      List-elim (λ (t : List (PathSegment F.Num)). Perm (map f (marks_of t)) (map f (marks_of ss)))
        (marks_of ss) (λ _. Perm.refl _)
        (λ m ms e.
          let at_e : Perm (map f (marks_of (order_marks F inf c start (m ∷ ms))))
              (map f (marks_of ss)) =
            subst (λ u. Perm (map f (marks_of (order_marks F inf c start u))) (map f (marks_of ss)))
              e base in
          if-cases
            (λ (t : List (PathSegment F.Num)). Perm (map f (marks_of t)) (map f (marks_of ss)))
            c.insert_transits
            (λ _.
              subst (λ t. Perm (map f t) (map f (marks_of ss)))
                (sym (
                  insert_from-marks c.transit_speed (is_single F inf (m ∷ ms)) true start 0
                    (order_marks F inf c start (m ∷ ms))))
                at_e)
            (λ _. at_e))
