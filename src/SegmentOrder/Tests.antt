-- ===== src/SegmentOrder/Tests.antt =====
-- Routes over four strokes on a plane of whole numbers.
use mathlib.Core.List.{Perm}
use px4_dxp.Prelude.{ℕ, ◌≡◌, refl, true, none, some, List, [], ◌∷◌, map}
use px4_dxp.Placement.Flat.{flat}
use px4_dxp.SegmentOrder.Segment.{
  SegmentType, mark, transit, entity, PathSegment, segment, no_members, attributes, reverse_segment,
  reverse_attributes,
}
use px4_dxp.SegmentOrder.Paint.{deadhead_cost, simplify}
use px4_dxp.SegmentOrder.Search.{apply_two_opt}
use px4_dxp.SegmentOrder.Route.{Options, marks_of, numbered, optimize_segment_order}
use px4_dxp.SegmentOrder.Cost.{Led, apply_two_opt-Led}
use px4_dxp.SegmentOrder.Order.{optimize_segment_order-Same}

abbrev stroke : ℕ → SegmentType → ℕ × ℕ → ℕ × ℕ → PathSegment ℕ
stroke n t p q =
    segment
      (record {
        segment_type = t;
        points = p ∷ q ∷ [];
        speed = 35;
        segment_id = n;
        source_entity = entity n;
        start_tangent = none;
        end_tangent = none;
        is_reversed = none;
        opt_id = none;
        other_keys = 0;
      })
      no_members

abbrev drawing : List (PathSegment ℕ)
drawing =
    stroke 1 mark (10, 0) (20, 0)
    ∷ stroke 2 mark (90, 0) (100, 0)
    ∷ stroke 3 transit (0, 0) (5, 0)
    ∷ stroke 4 mark (60, 0) (40, 0)
    ∷ stroke 5 mark (70, 9) (75, 9)
    ∷ []

abbrev options : Options ℕ
options = record {
  transit_speed = 50;
  use_two_opt = true;
  max_two_opt_segments = 80;
  insert_transits = true;
  avoid_wet_paint = true;
  wet_paint_penalty = 500;
  pre_extension = 0;
  aft_extension = 0;
}

abbrev id_of : PathSegment ℕ → ℕ
id_of s = (attributes s).segment_id

id_of-blind : (s : PathSegment ℕ) → id_of (reverse_segment flat s) ≡ id_of s
unfolding reverse_segment reverse_attributes
id_of-blind (segment a ms) = refl

id_of-numberless : (k : ℕ) (s : PathSegment ℕ) → id_of (numbered k s) ≡ id_of s
id_of-numberless k (segment a ms) = refl

-- The strokes from the origin outwards, with a link (of id 0) before each but the first.
optimize_segment_order-run :
    map id_of (optimize_segment_order flat 1_000_000 options (some (0, 0)) drawing)
    ≡ 1 ∷ 0 ∷ 4 ∷ 0 ∷ 5 ∷ 0 ∷ 2 ∷ []
unfolding optimize_segment_order reverse_segment deadhead_cost simplify
optimize_segment_order-run = refl

optimize_segment_order-Same_example :
    Perm
      (map id_of (marks_of (optimize_segment_order flat 1_000_000 options (some (0, 0)) drawing)))
      (map id_of (marks_of drawing))
optimize_segment_order-Same_example =
    optimize_segment_order-Same flat 1_000_000 id_of options (some (0, 0)) drawing id_of-blind
      id_of-numberless

-- A route that the search improves.
abbrev detour : List (PathSegment ℕ)
detour =
    stroke 1 mark (10, 0) (20, 0)
    ∷ stroke 2 mark (90, 0) (100, 0)
    ∷ stroke 4 mark (60, 0) (40, 0)
    ∷ stroke 5 mark (70, 9) (75, 9)
    ∷ []

abbrev cost : List (PathSegment ℕ) → ℕ
cost = deadhead_cost flat (some (0, 0)) none

apply_two_opt-run :
    ((apply_two_opt flat (reverse_segment flat) cost detour).improvements ≡ 2)
    × ((apply_two_opt flat (reverse_segment flat) cost detour).best_cost ≡ 83)
unfolding apply_two_opt deadhead_cost reverse_segment
apply_two_opt-run = (refl, refl)

apply_two_opt-Led_example :
    Led flat
      (reverse_segment flat)
      cost
      detour
      (apply_two_opt flat (reverse_segment flat) cost detour)
apply_two_opt-Led_example = apply_two_opt-Led flat (reverse_segment flat) cost detour
