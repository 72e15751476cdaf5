-- ===== src/Placement/Ned.antt =====
-- path_engine/ned.py: PX4's map projection and its inverse.
use px4_dxp.Prelude.{pos, negsuc, if◌then◌else◌}
use px4_dxp.Placement.Telemetry.{Floats}

module _ (F : Floats) where
  -- Python's `min` and `max` of two.
  abbrev pub min : F.Num → F.Num → F.Num
  min a b = if F.lt b a then b else a

  abbrev pub max : F.Num → F.Num → F.Num
  max a b = if F.lt a b then b else a

  abbrev pub earth_radius : F.Num
  earth_radius = F.lit (pos 6_371_000) 0

  abbrev pub tiny : F.Num
  tiny = F.lit (pos 1) 12

  abbrev pub clamped : F.Num → F.Num
  clamped x = max (F.lit (negsuc 0) 0) (min (F.lit (pos 1) 0) x)

  unfoldable pub latlon_to_ned : F.Num → F.Num → F.Num → F.Num → F.Num × F.Num
  latlon_to_ned lat lon origin_lat origin_lon =
      let lat_rad = F.radians lat in
      let lon_rad = F.radians lon in
      let ref_lat = F.radians origin_lat in
      let ref_lon = F.radians origin_lon in
      let sin_lat = F.sin lat_rad in
      let cos_lat = F.cos lat_rad in
      let sin_ref = F.sin ref_lat in
      let cos_ref = F.cos ref_lat in
      let cos_d_lon = F.cos (F.sub lon_rad ref_lon) in
      let c =
        F.acos
          (clamped (F.add (F.mul sin_ref sin_lat) (F.mul (F.mul cos_ref cos_lat) cos_d_lon))) in
      let k = if F.lt tiny (F.fabs c) then F.div c (F.sin c) else F.lit (pos 1) 0 in
      (
        F.mul (F.mul k (F.sub (F.mul cos_ref sin_lat) (F.mul (F.mul sin_ref cos_lat) cos_d_lon)))
            earth_radius,
        F.mul (F.mul (F.mul k cos_lat) (F.sin (F.sub lon_rad ref_lon))) earth_radius,
      )

  unfoldable pub ned_to_latlon : F.Num → F.Num → F.Num → F.Num → F.Num × F.Num
  ned_to_latlon north east origin_lat origin_lon =
      let x = F.div north earth_radius in
      let y = F.div east earth_radius in
      let c = F.hypot x y in
      let ref_lat = F.radians origin_lat in
      let ref_lon = F.radians origin_lon in
      let lat_rad = F.asin (
        F.add (F.mul (F.cos c) (F.sin ref_lat))
          (F.div (F.mul (F.mul x (F.sin c)) (F.cos ref_lat)) c)) in
      let lon_rad = F.add ref_lon (
        F.atan2 (F.mul y (F.sin c)) (
          F.sub (F.mul (F.mul c (F.cos ref_lat)) (F.cos c))
            (F.mul (F.mul x (F.sin ref_lat)) (F.sin c)))) in
      if F.lt tiny c then (F.degrees lat_rad, F.degrees lon_rad) else (origin_lat, origin_lon)
