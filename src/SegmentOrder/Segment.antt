-- ===== src/SegmentOrder/Segment.antt =====
-- path_engine/core.py, `PathSegment`, with the metadata that the optimizer reads or writes; a number
-- stands for the other keys, which are only copied, and for the names of entities.
-- path_engine/optimizers/segment_order.py, `_reverse_segment`.
use mathlib.Core.List.{reverse}
use px4_dxp.Prelude.{ℕ, Bool, true, false, not, Option, none, some, List, [], ◌∷◌}
use px4_dxp.Placement.Telemetry.{Floats}

pub data SegmentType : Type 0 where
  mark transit : SegmentType

-- `transit:start` and `transit:N` name the links that the optimizer inserts.
pub data Source : Type 0 where
  entity : ℕ → Source
  transit_start : Source
  transit_link : ℕ → Source

abbrev pub Point : Type 0 → Type 0
Point Num = Num × Num

pub record Attributes (Num : Type 0) : Type 0 where
  pub segment_type : SegmentType
  pub points : List (Num × Num)
  pub speed : Num
  pub segment_id : ℕ
  pub source_entity : Source
  pub start_tangent : Option (Num × Num)
  pub end_tangent : Option (Num × Num)
  pub is_reversed : Option Bool
  pub opt_id : Option ℕ
  pub other_keys : ℕ

-- A segment with the members of its chain.
mutual
  pub data PathSegment (Num : Type 0) : Type 0 where
    segment : Attributes Num → Members Num → PathSegment Num

  pub data Members (Num : Type 0) : Type 0 where
    no_members : Members Num
    member : PathSegment Num → Members Num → Members Num

abbrev pub is_mark_type : SegmentType → Bool
is_mark_type mark = true
is_mark_type transit = false

-- `not bool(metadata.get("reversed", False))`
abbrev pub flipped : Option Bool → Bool
flipped none = true
flipped (some b) = not b

module _ {Num : Type 0} where
  abbrev pub attributes : PathSegment Num → Attributes Num
  attributes (segment a ms) = a

  abbrev pub points_of : PathSegment Num → List (Num × Num)
  points_of s = (attributes s).points

  abbrev pub is_mark : PathSegment Num → Bool
  is_mark s = is_mark_type (attributes s).segment_type

  -- `points[0]` and `points[-1]`
  abbrev pub head_of : List (Num × Num) → Option (Num × Num)
  head_of [] = none
  head_of (p ∷ ps) = some p

  abbrev pub last_of : List (Num × Num) → Option (Num × Num)
  last_of [] = none
  last_of (p ∷ []) = some p
  last_of (p ∷ q ∷ ps) = last_of (q ∷ ps)

module _ (F : Floats) where
  abbrev pub opposite : F.Num × F.Num → F.Num × F.Num
  opposite p = (F.neg p.0, F.neg p.1)

  -- The tangents, which are exchanged only when both are there.
  abbrev pub turned :
      Option (F.Num × F.Num)
      → Option (F.Num × F.Num)
      → Option (F.Num × F.Num) × Option (F.Num × F.Num)
  turned (some st) (some et) = (some (opposite et), some (opposite st))
  turned st et = (st, et)

  unfoldable pub reverse_attributes : Attributes F.Num → Attributes F.Num
  reverse_attributes a = record a {
    points = reverse a.points;
    start_tangent = (turned a.start_tangent a.end_tangent).0;
    end_tangent = (turned a.start_tangent a.end_tangent).1;
    is_reversed = some (flipped a.is_reversed);
  }

  -- `_reverse_segment`; the members come in the opposite order, each reversed.
  unfoldable mutual
    unfolding reverse_attributes

    pub reverse_segment : PathSegment F.Num → PathSegment F.Num
    reverse_segment (segment a ms) = segment (reverse_attributes a) (reverse_members ms no_members)

    pub reverse_members : Members F.Num → Members F.Num → Members F.Num
    reverse_members no_members done = done
    reverse_members (member m ms) done = reverse_members ms (member (reverse_segment m) done)

  -- `_distance`
  abbrev pub distance : F.Num × F.Num → F.Num × F.Num → F.Num
  distance p q = F.hypot (F.sub p.0 q.0) (F.sub p.1 q.1)
