-- ===== src/SegmentOrder/Paint.antt =====
-- path_engine/optimizers/segment_order.py: `_simplify`, `_cross_point`, `_PaintAwareness` and
-- `_deadhead_cost`. The cache of `crossed_by_connector` is left out, as a number of a mark and its
-- direction say where it lies. The painted marks are those with a number, which all marks have then.
use px4_dxp.Prelude.{
  ℕ, suc, Bool, true, false, not, ◌&&◌, ◌||◌, Option, none, some, List, [], ◌∷◌, pos, ◌==◌,
  if◌then◌else◌,
}
use mathlib.Core.List.{reverse}
use px4_dxp.Placement.Telemetry.{Floats}
use px4_dxp.SegmentOrder.Segment.{PathSegment, attributes, points_of, head_of, last_of, distance}

pub record Paint (Num : Type 0) : Type 0 where
  pub penalty : Num
  pub pre : Num
  pub aft : Num
  -- The outline of the mark with each number.
  pub outlines : List (List (Num × Num))

abbrev pub painted_has : ℕ → List ℕ → Bool
painted_has k [] = false
painted_has k (j ∷ js) = (j == k) || painted_has k js

abbrev pub count_painted : List ℕ → List ℕ → ℕ
count_painted painted [] = 0
count_painted painted (k ∷ ks) =
    let rest = count_painted painted ks in if painted_has k painted then suc rest else rest

-- `painted.add`, where the number -1 of a segment without one is never crossed.
abbrev pub paint_key : Option ℕ → List ℕ → List ℕ
paint_key none painted = painted
paint_key (some k) painted = k ∷ painted

module _ (F : Floats) where
  -- The loop of `_simplify`, behind a point that was kept.
  abbrev pub off_line : F.Num × F.Num → F.Num × F.Num → F.Num × F.Num → Bool
  off_line a b c =
      let ex = F.sub c.0 a.0 in
      let ey = F.sub c.1 a.1 in
      let l = F.hypot ex ey in
      not (F.lt l (F.lit (pos 1) 9))
      && F.lt (F.lit (pos 1) 2)
          (F.div (F.fabs (F.sub (F.mul (F.sub b.0 a.0) ey) (F.mul (F.sub b.1 a.1) ex))) l)

  unfoldable pub simplify_behind : F.Num × F.Num → List (F.Num × F.Num) → List (F.Num × F.Num)
  simplify_behind a [] = []
  simplify_behind a (b ∷ []) = b ∷ []
  simplify_behind a (b ∷ c ∷ ps) = elim (off_line a b c) [
    | true ↦ b ∷ simplify_behind b (c ∷ ps)
    | false ↦ simplify_behind a (c ∷ ps)
  ]

  unfoldable pub simplify : List (F.Num × F.Num) → List (F.Num × F.Num)
  unfolding simplify_behind
  simplify [] = []
  simplify (p ∷ ps) = p ∷ simplify_behind p ps

  abbrev pub in_open_unit : F.Num → Bool
  in_open_unit t = F.lt (F.lit (pos 0) 0) t && F.lt t (F.lit (pos 1) 0)

  unfoldable pub cross_point :
      F.Num × F.Num → F.Num × F.Num → F.Num × F.Num → F.Num × F.Num → Option (F.Num × F.Num)
  cross_point p1 p2 p3 p4 =
      let cross : F.Num → F.Num → F.Num → F.Num → F.Num =
        λ a b c d. F.sub (F.mul a b) (F.mul c d) in
      let d = cross (F.sub p2.0 p1.0) (F.sub p4.1 p3.1) (F.sub p2.1 p1.1) (F.sub p4.0 p3.0) in
      let t =
        F.div (cross (F.sub p3.0 p1.0) (F.sub p4.1 p3.1) (F.sub p3.1 p1.1) (F.sub p4.0 p3.0)) d in
      let u =
        F.div (cross (F.sub p3.0 p1.0) (F.sub p2.1 p1.1) (F.sub p3.1 p1.1) (F.sub p2.0 p1.0)) d in
      if F.lt (F.fabs d) (F.lit (pos 1) 12)
      then none
      else if in_open_unit t && in_open_unit u
      then some (F.add p1.0 (F.mul t (F.sub p2.0 p1.0)), F.add p1.1 (F.mul t (F.sub p2.1 p1.1)))
      else none

  -- `_unit`
  unfoldable pub unit : F.Num × F.Num → F.Num × F.Num → Option (F.Num × F.Num)
  unit a b =
      let dx = F.sub b.0 a.0 in
      let dy = F.sub b.1 a.1 in
      let l = F.hypot dx dy in
      if F.lt (F.lit (pos 1) 9) l then some (F.div dx l, F.div dy l) else none

  -- `_exit`, on the points from the last one, and `_entry`: `points[-1]` and `points[0]` moved along
  -- the first or last leg.
  unfoldable pub exit_tip : F.Num → List (F.Num × F.Num) → Option (F.Num × F.Num)
  unfolding unit
  exit_tip aft [] = none
  exit_tip aft (l ∷ []) = some l
  exit_tip aft (l ∷ p ∷ ps) = if F.le aft (F.lit (pos 0) 0) then some l else elim (unit p l) [
    | none ↦ some l
    | some d ↦ some (F.add l.0 (F.mul d.0 aft), F.add l.1 (F.mul d.1 aft))
  ]

  unfoldable pub entry_tip : F.Num → List (F.Num × F.Num) → Option (F.Num × F.Num)
  unfolding unit
  entry_tip pre [] = none
  entry_tip pre (h ∷ []) = some h
  entry_tip pre (h ∷ p ∷ ps) = if F.le pre (F.lit (pos 0) 0) then some h else elim (unit h p) [
    | none ↦ some h
    | some d ↦ some (F.sub h.0 (F.mul d.0 pre), F.sub h.1 (F.mul d.1 pre))
  ]

  -- Whether a connector crosses an outline other than near its own ends.
  abbrev pub counts : F.Num × F.Num → F.Num × F.Num → Option (F.Num × F.Num) → Bool
  counts p1 p2 none = false
  counts p1 p2 (some x) =
      not (F.lt (distance F x p1) (F.lit (pos 6) 2) || F.lt (distance F x p2) (F.lit (pos 6) 2))

  unfoldable pub crosses : F.Num × F.Num → F.Num × F.Num → List (F.Num × F.Num) → Bool
  unfolding cross_point
  crosses p1 p2 [] = false
  crosses p1 p2 (a ∷ []) = false
  crosses p1 p2 (a ∷ b ∷ ps) = counts p1 p2 (cross_point p1 p2 a b) || crosses p1 p2 (b ∷ ps)

  -- The loop over the outlines, from the number `k`.
  unfoldable pub crossed_from :
      F.Num × F.Num → F.Num × F.Num → ℕ → List (List (F.Num × F.Num)) → List ℕ
  unfolding crosses
  crossed_from p1 p2 k [] = []
  crossed_from p1 p2 k (o ∷ os) =
      let rest = crossed_from p1 p2 (suc k) os in if crosses p1 p2 o then k ∷ rest else rest

  -- `none` is a segment without points, which `penalty` leaves out before it asks.
  unfoldable pub crossed_by_connector : Paint F.Num → PathSegment F.Num → PathSegment F.Num → List ℕ
  unfolding exit_tip entry_tip crossed_from
  crossed_by_connector w a b = elim (exit_tip w.aft (reverse (points_of a))) [
    | none ↦ []
    | some p1 ↦ elim (entry_tip w.pre (points_of b)) [
      | none ↦ []
      | some p2 ↦ crossed_from p1 p2 0 w.outlines
    ]
  ]

  abbrev pub is_empty : PathSegment F.Num → Bool
  is_empty s = elim (points_of s) [ [] ↦ true | p ∷ ps ↦ false ]

  -- The loop of `penalty` over the pairs of neighbours.
  unfoldable pub penalty_from :
      Paint F.Num → PathSegment F.Num → List (PathSegment F.Num) → List ℕ → F.Num → F.Num
  unfolding crossed_by_connector
  penalty_from w a [] painted total = total
  penalty_from w a (b ∷ route) painted total = elim (is_empty a || is_empty b) [
    | true ↦ penalty_from w b route painted total
    | false ↦
        let now = paint_key (attributes a).opt_id painted in
        penalty_from w b route now (
          F.add total
            (F.mul w.penalty (F.lit (pos (count_painted now (crossed_by_connector w a b))) 0)))
  ]

  unfoldable pub route_penalty : Paint F.Num → List (PathSegment F.Num) → F.Num
  unfolding penalty_from
  route_penalty w [] = F.lit (pos 0) 0
  route_penalty w (a ∷ route) =
      if F.le w.penalty (F.lit (pos 0) 0)
      then F.lit (pos 0) 0
      else penalty_from w a route [] (F.lit (pos 0) 0)

  -- The loop of `_deadhead_cost`.
  abbrev pub leg : Option (F.Num × F.Num) → F.Num × F.Num → F.Num → F.Num
  leg none p cost = cost
  leg (some q) p cost = F.add cost (distance F q p)

  unfoldable pub legs : Option (F.Num × F.Num) → List (PathSegment F.Num) → F.Num → F.Num
  legs current [] cost = cost
  legs current (s ∷ route) cost = elim (head_of (points_of s)) [
    | none ↦ legs current route cost
    | some h ↦ legs (last_of (points_of s)) route (leg current h cost)
  ]

  unfoldable pub deadhead_cost :
      Option (F.Num × F.Num) → Option (Paint F.Num) → List (PathSegment F.Num) → F.Num
  unfolding legs route_penalty
  deadhead_cost start w [] = F.lit (pos 0) 0
  deadhead_cost start none (s ∷ route) = legs start (s ∷ route) (F.lit (pos 0) 0)
  deadhead_cost start (some w) (s ∷ route) =
      F.add (legs start (s ∷ route) (F.lit (pos 0) 0)) (route_penalty w (s ∷ route))
