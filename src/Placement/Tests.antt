-- ===== src/Placement/Tests.antt =====
-- The theorems about placements, on whole numbers in place of floats.
use px4_dxp.Prelude.{◌≡◌, refl, ℕ, List, [], ◌∷◌, some}
use px4_dxp.Placement.Telemetry.{Telemetry}
use px4_dxp.Placement.Flat.{flat, limits, here}
use px4_dxp.Placement.Ned.{latlon_to_ned, ned_to_latlon}
use px4_dxp.Placement.Health.{evaluate_origin_health, measured, implied_origin}
use px4_dxp.Placement.Resolve.{
  placed, apply_translation, gates, translation_for, resolve_surveyed_points,
}
use px4_dxp.Placement.Frame.{IsPlaced, resolve_surveyed_points-IsPlaced}

-- On the origin, and with other ages.
abbrev elsewhere : Telemetry ℕ
elsewhere = record here {
  local_pose_age = some 0;
  pose_global_skew = some 90;
  pos_n = some 0;
  pos_e = some 0;
  lat = some 3;
  lon = some 2;
}

abbrev square : List (ℕ × ℕ)
square = (0, 0) ∷ (3, 0) ∷ (3, 3) ∷ []

abbrev moved_square : List (ℕ × ℕ)
moved_square = (6_371_000, 0) ∷ (6_371_003, 0) ∷ (6_371_003, 3) ∷ []

placed_here :
    resolve_surveyed_points flat limits square (some (4, 2)) here
    ≡ placed (moved_square, (6_371_000, 0))
unfolding resolve_surveyed_points gates translation_for apply_translation evaluate_origin_health
    measured implied_origin latlon_to_ned ned_to_latlon
placed_here = refl

placed_elsewhere :
    resolve_surveyed_points flat limits square (some (4, 2)) elsewhere
    ≡ placed (moved_square, (6_371_000, 0))
unfolding resolve_surveyed_points gates translation_for apply_translation evaluate_origin_health
    measured implied_origin latlon_to_ned ned_to_latlon
placed_elsewhere = refl

resolve_surveyed_points-IsPlaced_example :
    IsPlaced flat limits square (4, 2) here moved_square (6_371_000, 0)
resolve_surveyed_points-IsPlaced_example =
    resolve_surveyed_points-IsPlaced flat limits square (4, 2) here moved_square (6_371_000, 0)
      placed_here
