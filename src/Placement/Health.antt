-- ===== src/Placement/Health.antt =====
-- server/origin_health.py: is the origin that the server keeps the one of the live frame? The texts
-- of the verdict and its copy of the sample are left out.
use px4_dxp.Prelude.{pos, negsuc, Bool, false, not, ◌&&◌, Option, none, some, if◌then◌else◌}
use px4_dxp.Placement.Telemetry.{Floats, Telemetry, Limits}
use px4_dxp.Placement.Ned.{latlon_to_ned, ned_to_latlon}

pub data Status : Type 0 where
  ok no_origin origin_invalid unverifiable inconsistent : Status

pub record Delta (Num : Type 0) : Type 0 where
  pub north : Num
  pub east : Num
  pub length : Num

pub record OriginHealth (Num : Type 0) : Type 0 where
  pub status : Status
  pub trusted : Bool
  pub declared : Option (Num × Num)
  pub implied : Option (Num × Num)
  pub delta : Option (Delta Num)

abbrev pub verdict : {Num : Type 0} → Status → Option (Num × Num) → OriginHealth Num
verdict s declared = record {
  status = s;
  trusted = false;
  declared = declared;
  implied = none;
  delta = none;
}

-- Both, when each is there.
abbrev pub both : {A B : Type 0} → Option A → Option B → Option (A × B)
both (some a) (some b) = some (a, b)
both _ _ = none

module _ (F : Floats) where
  -- Latitudes and longitudes in degrees.
  abbrev pub in_bounds : F.Num → F.Num → Bool
  in_bounds lat lon =
      (F.le (F.lit (negsuc 89) 0) lat && F.le lat (F.lit (pos 90) 0))
      && (F.le (F.lit (negsuc 179) 0) lon && F.le lon (F.lit (pos 180) 0))

  abbrev pub age_ok : Option F.Num → F.Num → Bool
  age_ok none limit = false
  age_ok (some age) limit = F.is_finite age && (F.le (F.lit (pos 0) 0) age && F.le age limit)

  -- Two numbers that are there and finite.
  abbrev pub finite_both : Option F.Num → Option F.Num → Option (F.Num × F.Num)
  finite_both a b = elim (both a b) [
    | none ↦ none
    | some (x, y) ↦ if F.is_finite x && F.is_finite y then some (x, y) else none
  ]

  unfoldable pub implied_origin :
      F.Num × F.Num → F.Num × F.Num → F.Num × F.Num → (F.Num × F.Num) × (F.Num × F.Num)
  implied_origin (lat, lon) (pos_n, pos_e) (d_lat, d_lon) =
      let expected = latlon_to_ned F lat lon d_lat d_lon in
      let delta_n = F.sub pos_n expected.0 in
      let delta_e = F.sub pos_e expected.1 in
      (ned_to_latlon F (F.neg delta_n) (F.neg delta_e) d_lat d_lon, (delta_n, delta_e))

  -- The live sample: a position on the globe within bounds that is not the sentinel of no fix, and
  -- one in the local frame.
  abbrev pub sample_of : Telemetry F.Num → Option ((F.Num × F.Num) × (F.Num × F.Num))
  sample_of s = elim (both (finite_both s.lat s.lon) (finite_both s.pos_n s.pos_e)) [
    | none ↦ none
    | some ((lat, lon), p) ↦
        if in_bounds lat lon && not (F.eq lat (F.lit (pos 0) 0) && F.eq lon (F.lit (pos 0) 0))
        then some ((lat, lon), p)
        else none
  ]

  abbrev pub is_simultaneous : Limits F.Num → Telemetry F.Num → Bool
  is_simultaneous l s =
      s.pose_received
      && (s.global_position_received
          && (age_ok s.local_pose_age l.pose_stale
              && (age_ok s.global_position_age l.global_position_stale
                  && age_ok s.pose_global_skew l.max_skew)))

  -- The measurement.
  unfoldable pub measured :
      Limits F.Num → F.Num × F.Num → (F.Num × F.Num) × (F.Num × F.Num) → OriginHealth F.Num
  measured l declared (global, local) =
      let m = implied_origin global local declared in
      let d = F.hypot m.1.0 m.1.1 in
      let far = F.lt l.consistency_max d in
      if not (F.is_finite d) then verdict unverifiable (some declared) else record {
        status = if far then inconsistent else Status.ok;
        trusted = not far;
        declared = some declared;
        implied = some m.0;
        delta = some (record { north = m.1.0; east = m.1.1; length = d });
      }

  unfoldable pub evaluate_origin_health : Limits F.Num → Telemetry F.Num → OriginHealth F.Num
  evaluate_origin_health l s =
      if not s.ekf_origin_received
      then verdict no_origin none
      else elim (finite_both s.ekf_origin_lat s.ekf_origin_lon) [
        | none ↦ verdict origin_invalid none
        | some (d_lat, d_lon) ↦
            if not (in_bounds d_lat d_lon)
            then verdict origin_invalid (some (d_lat, d_lon))
            else if not (is_simultaneous l s)
            then verdict unverifiable (some (d_lat, d_lon))
            else elim (sample_of s) [
              | none ↦ verdict unverifiable (some (d_lat, d_lon))
              | some x ↦ measured l (d_lat, d_lon) x
            ]
      ]
