-- ===== src/SegmentOrder/Route.antt =====
-- path_engine/optimizers/segment_order.py: `_insert_transits` and `optimize_segment_order`.
use px4_dxp.Prelude.{
  ℕ, zero, suc, Bool, true, false, ◌&&◌, ◌||◌, Option, none, some, List, [], ◌∷◌, ◌++◌, drop,
  length, get_elem?, pos, ltb, leb, not, if◌then◌else◌,
}
use px4_dxp.Placement.Telemetry.{Floats}
use px4_dxp.SegmentOrder.Segment.{
  transit, Source, transit_start, transit_link, PathSegment, segment, no_members, points_of,
  is_mark, head_of, last_of, reverse_segment, distance,
}
use px4_dxp.SegmentOrder.Paint.{Paint, simplify, deadhead_cost}
use px4_dxp.SegmentOrder.Search.{take, Search, apply_two_opt, begin_search}

pub record Options (Num : Type 0) : Type 0 where
  pub transit_speed : Num
  pub use_two_opt : Bool
  pub max_two_opt_segments : ℕ
  pub insert_transits : Bool
  pub avoid_wet_paint : Bool
  pub wet_paint_penalty : Num
  pub pre_extension : Num
  pub aft_extension : Num

abbrev pub marks_of : {Num : Type 0} → List (PathSegment Num) → List (PathSegment Num)
marks_of [] = []
marks_of (s ∷ ss) = if is_mark s then s ∷ marks_of ss else marks_of ss

-- `_PaintAwareness.__init__` writes the number of each mark into its metadata.
abbrev pub numbered : {Num : Type 0} → ℕ → PathSegment Num → PathSegment Num
numbered k (segment a ms) = segment (record a { opt_id = some k }) ms

abbrev pub number_from : {Num : Type 0} → ℕ → List (PathSegment Num) → List (PathSegment Num)
number_from k [] = []
number_from k (s ∷ ss) = numbered k s ∷ number_from (suc k) ss

-- `inf` is `float("inf")`; the fields that a new segment does not set are zero and empty.
module _ (F : Floats) (inf : F.Num) where
  abbrev pub outlines_of : List (PathSegment F.Num) → List (List (F.Num × F.Num))
  outlines_of [] = []
  outlines_of (s ∷ ss) = simplify F (points_of s) ∷ outlines_of ss

  unfoldable pub link : F.Num → F.Num × F.Num → F.Num × F.Num → Source → PathSegment F.Num
  link speed p q source =
      segment
        (record {
          segment_type = transit;
          points = p ∷ q ∷ [];
          speed = speed;
          segment_id = 0;
          source_entity = source;
          start_tangent = none;
          end_tangent = none;
          is_reversed = none;
          opt_id = none;
          other_keys = 0;
        })
        no_members

  -- The position behind a segment.
  abbrev pub behind : Option (F.Num × F.Num) → PathSegment F.Num → Option (F.Num × F.Num)
  behind current s = elim (last_of (points_of s)) [ none ↦ current | some p ↦ some p ]

  -- The link to a segment, and the number of links with it; `first` is that nothing is ordered yet.
  unfoldable pub link_to :
      F.Num
      → Bool
      → Bool
      → Option (F.Num × F.Num)
      → ℕ
      → PathSegment F.Num
      → List (PathSegment F.Num) × ℕ
  unfolding link
  link_to speed start first none n s = ([], n)
  link_to speed start first (some p) n s = elim (head_of (points_of s)) [
    | none ↦ ([], n)
    | some q ↦
        if (not first || start) && F.lt (F.lit (pos 1) 2) (distance F p q)
        then (link speed p q (if first then transit_start else transit_link (suc n)) ∷ [], suc n)
        else ([], n)
  ]

  unfoldable pub insert_from :
      F.Num
      → Bool
      → Bool
      → Option (F.Num × F.Num)
      → ℕ
      → List (PathSegment F.Num)
      → List (PathSegment F.Num)
  unfolding link_to
  insert_from speed start first current n [] = []
  insert_from speed start first current n (s ∷ route) =
      let l = link_to speed start first current n s in
      l.0 ++ (s ∷ insert_from speed start false (behind current s) l.1 route)

  -- `_insert_transits`
  unfoldable pub insert_transits :
      F.Num → Bool → Option (F.Num × F.Num) → List (PathSegment F.Num) → List (PathSegment F.Num)
  unfolding insert_from
  insert_transits speed start current route = insert_from speed start true current 0 route

  -- The scan for the nearest end: the index, the distance and the direction of the best so far.
  pub record Nearest : Type 0 where
    pub index : ℕ
    pub dist : F.Num
    pub backwards : Bool

  abbrev pub nearer : F.Num → ℕ → Bool → Nearest → Nearest
  nearer d k b n = if F.lt d n.dist then record { index = k; dist = d; backwards = b } else n

  unfoldable pub scan : F.Num × F.Num → ℕ → List (PathSegment F.Num) → Nearest → Nearest
  scan at k [] n = n
  scan at k (s ∷ ss) n = elim (head_of (points_of s)) [
    | none ↦ scan at (suc k) ss n
    | some h ↦ elim (last_of (points_of s)) [
      | none ↦ scan at (suc k) ss n
      | some l ↦
          scan at (suc k) ss (nearer (distance F at l) k true (nearer (distance F at h) k false n))
    ]
  ]

  abbrev pub oriented : Bool → PathSegment F.Num → PathSegment F.Num
  oriented b s = if b && ltb 1 (length (points_of s)) then reverse_segment F s else s

  abbrev pub or_here : F.Num × F.Num → Option (F.Num × F.Num) → F.Num × F.Num
  or_here at none = at
  or_here at (some p) = p

  -- The while loop, on fuel: one segment is taken from the list in each round.
  unfoldable pub nearest_from :
      ℕ → F.Num × F.Num → List (PathSegment F.Num) → List (PathSegment F.Num)
  unfolding scan
  nearest_from zero at remaining = []
  nearest_from (suc fuel) at remaining =
      let n = scan at 0 remaining (record { index = 0; dist = inf; backwards = false }) in
      elim (get_elem? remaining n.index) [
        | none ↦ []
        | some s ↦
            let t = oriented n.backwards s in
            t
            ∷ nearest_from fuel (or_here at (last_of (points_of t)))
                (take n.index remaining ++ drop (suc n.index) remaining)
      ]

  unfoldable pub nearest_route :
      Option (F.Num × F.Num) → List (PathSegment F.Num) → List (PathSegment F.Num)
  unfolding nearest_from
  nearest_route start [] = []
  nearest_route none (s ∷ ss) =
      nearest_from (length (s ∷ ss))
        (or_here (F.lit (pos 0) 0, F.lit (pos 0) 0) (head_of (points_of s))) (s ∷ ss)
  nearest_route (some p) (s ∷ ss) = nearest_from (length (s ∷ ss)) p (s ∷ ss)

  -- The single mark: entered from its end when that is nearer.
  abbrev pub ends_nearer : Option (F.Num × F.Num) → PathSegment F.Num → Bool
  ends_nearer none s = false
  ends_nearer (some p) s = elim (head_of (points_of s)) [
    | none ↦ false
    | some h ↦ elim (last_of (points_of s)) [
      | none ↦ false
      | some l ↦ ltb 1 (length (points_of s)) && F.lt (distance F p l) (distance F p h)
    ]
  ]

  -- The paint costs of several marks, and the marks with their numbers then.
  abbrev pub counts_paint : Options F.Num → List (PathSegment F.Num) → Bool
  counts_paint c ms =
      c.avoid_wet_paint && (F.lt (F.lit (pos 0) 0) c.wet_paint_penalty && ltb 1 (length ms))

  abbrev pub paint_of : Options F.Num → List (PathSegment F.Num) → Option (Paint F.Num)
  paint_of c ms =
      if counts_paint c ms
      then some (record {
        penalty = c.wet_paint_penalty;
        pre = c.pre_extension;
        aft = c.aft_extension;
        outlines = outlines_of ms;
      })
      else none

  abbrev pub tagged : Options F.Num → List (PathSegment F.Num) → List (PathSegment F.Num)
  tagged c ms = if counts_paint c ms then number_from 0 ms else ms

  -- The route of several marks with its cost and improvements, as `stats` has them.
  unfoldable pub improve :
      Options F.Num
      → Option (F.Num × F.Num)
      → Option (Paint F.Num)
      → List (PathSegment F.Num)
      → Search (PathSegment F.Num) F.Num
  unfolding apply_two_opt
  improve c start w route =
      let cost = deadhead_cost F start w in
      if c.use_two_opt && leb (length route) c.max_two_opt_segments
      then apply_two_opt F (reverse_segment F) cost route
      else begin_search F (reverse_segment F) cost route

  unfoldable pub order_marks :
      Options F.Num → Option (F.Num × F.Num) → List (PathSegment F.Num) → List (PathSegment F.Num)
  unfolding improve nearest_route
  order_marks c start [] = []
  order_marks c start (s ∷ []) = (if ends_nearer start s then reverse_segment F s else s) ∷ []
  order_marks c start (s ∷ t ∷ ms) =
      (improve c start (paint_of c (s ∷ t ∷ ms)) (nearest_route start (tagged c (s ∷ t ∷ ms)))).best

  abbrev pub is_single : List (PathSegment F.Num) → Bool
  is_single (s ∷ []) = true
  is_single _ = false

  -- The start is linked for a single mark only.
  unfoldable pub optimize_segment_order :
      Options F.Num → Option (F.Num × F.Num) → List (PathSegment F.Num) → List (PathSegment F.Num)
  unfolding order_marks insert_transits
  optimize_segment_order c start segments = elim (marks_of segments) [
    | [] ↦ segments
    | m ∷ ms ↦
        let route = order_marks c start (m ∷ ms) in
        if c.insert_transits
        then insert_transits c.transit_speed (is_single (m ∷ ms)) start route
        else route
  ]
