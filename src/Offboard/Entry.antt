-- ===== src/Offboard/Entry.antt =====
-- The entry leg: from the live position to the first point of the mission, by way of a staging
-- point behind it.
use px4_dxp.Prelude.{pos, Bool, ◌&&◌, Option, none, some, List, [], ◌∷◌, if◌then◌else◌}
use px4_dxp.Placement.Telemetry.{Floats}

module _ (F : Floats) where
  -- The settings from the environment, and the cosine of twenty degrees.
  pub record EntryConfig : Type 0 where
    pub staging_enabled : Bool
    pub staging_dist : F.Num
    pub cos_skip : F.Num

  -- The direction to the first point that is measurably away from the start.
  pub direction : F.Num × F.Num → List (F.Num × F.Num) → Option (F.Num × F.Num)
  direction p0 [] = none
  direction p0 (q ∷ qs) =
      let rest = direction p0 qs in
      let dn = F.sub q.0 p0.0 in
      let de = F.sub q.1 p0.1 in
      let seg = F.hypot dn de in
      if F.lt (F.lit (pos 1) 2) seg then some (F.div dn seg, F.div de seg) else rest

  -- Behind the start, on a chord that arrives in the direction of the mark.
  abbrev pub is_aligned : EntryConfig → F.Num × F.Num → F.Num × F.Num → Bool
  is_aligned g rel u =
      let chord = F.hypot rel.0 rel.1 in
      F.lt (F.add (F.mul rel.0 u.0) (F.mul rel.1 u.1)) (F.lit (pos 0) 0)
      && (F.lt (F.lit (pos 1) 6) chord
          && F.le g.cos_skip (F.div (F.sub (F.mul (F.neg rel.0) u.0) (F.mul rel.1 u.1)) chord))

  abbrev pub staging_point : EntryConfig → F.Num × F.Num → F.Num × F.Num → F.Num × F.Num
  staging_point g p0 u =
      (F.sub p0.0 (F.mul g.staging_dist u.0), F.sub p0.1 (F.mul g.staging_dist u.1))

  -- The leg when the mark has a direction.
  abbrev pub staged_leg :
      EntryConfig → F.Num × F.Num → F.Num × F.Num → F.Num × F.Num → List (F.Num × F.Num)
  staged_leg g live p0 u =
      let s = staging_point g p0 u in
      if is_aligned g (F.sub live.0 p0.0, F.sub live.1 p0.1) u
      then live ∷ p0 ∷ []
      else if F.lt (F.hypot (F.sub live.0 s.0) (F.sub live.1 s.1)) (F.lit (pos 5) 1)
      then live ∷ p0 ∷ []
      else live ∷ s ∷ p0 ∷ []

  -- `_entry_leg_points`, for a path with the first point `p0`.
  unfoldable pub entry_leg_points :
      EntryConfig → F.Num × F.Num → F.Num × F.Num → List (F.Num × F.Num) → List (F.Num × F.Num)
  entry_leg_points g live p0 rest =
      if g.staging_enabled
      then elim (direction p0 rest) [ none ↦ live ∷ p0 ∷ [] | some u ↦ staged_leg g live p0 u ]
      else live ∷ p0 ∷ []
