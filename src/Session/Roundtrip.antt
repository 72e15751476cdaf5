-- ===== src/Session/Roundtrip.antt =====
-- What is written by `to_dict` is read back, and what is read is well formed.
use Prim.Native.String.{String}
use px4_dxp.Prelude.{
  length-map, Bool, true, ◌≡◌, refl, ap, arith, List, [], ◌∷◌, map, length, Option, none, some, ℤ,
  ◌==◌, Bool-cases, inl, inr,
}
use px4_dxp.Session.Json.{Number, Value, null, bool, of_list, to_list, get_or, ok}
use px4_dxp.Session.Writer.{
  mode_name, xtrack_members, point_value, dash_value, points_mode_value, optional, to_dict,
}
use px4_dxp.Session.Config.{
  DashConfig, PointsModeConfig, Mode, continuous, dash, point, SpraySessionConfig, truth,
  is_positive, is_non_negative, coerce_all, coerce_points_flags, mode_of, parse_dash,
  parse_points_mode, sub_configs, max_xtrack_of, heading_of, parse_session_config, finite_float,
}

pub record DashIsValid (d : DashConfig) : Type 0 where
  pub on : is_positive d.on_distance ≡ true
  pub off : is_positive d.off_distance ≡ true

abbrev pub AllNonNegative : Option ℤ → Type 0
AllNonNegative none = Unit
AllNonNegative (some z) = is_non_negative z ≡ true

pub record PointsIsValid (p : PointsModeConfig) : Type 0 where
  pub tolerance : is_non_negative p.arrival_tolerance ≡ true
  pub settle : is_non_negative p.arrival_settle ≡ true
  pub dwell : is_non_negative p.dwell ≡ true
  pub heading : AllNonNegative p.heading_tolerance

-- A mode has its own sub-configuration and no other.
abbrev pub SubIsValid : Mode → Option DashConfig → Option PointsModeConfig → Type 0
SubIsValid continuous none none = Unit
SubIsValid dash (some d) none = DashIsValid d
SubIsValid point none (some p) = PointsIsValid p
SubIsValid _ _ _ = ⊥

abbrev pub AllPositive : Option ℤ → Type 0
AllPositive none = Unit
AllPositive (some z) = is_positive z ≡ true

pub record IsValid (c : SpraySessionConfig) : Type 0 where
  pub aligned : length c.points ≡ length c.flags
  pub sub : SubIsValid c.mode c.dash c.points_mode
  pub xtrack : AllPositive c.max_xtrack_error

to_list-of_list : (vs : List Value) → to_list (of_list vs) ≡ vs
to_list-of_list [] = refl
to_list-of_list (v ∷ vs) = ap (v ∷◌) (to_list-of_list vs)

map-truth-bool : (fs : List Bool) → map truth (to_list (of_list (map bool fs))) ≡ fs
map-truth-bool [] = refl
map-truth-bool (f ∷ fs) = ap (f ∷◌) (map-truth-bool fs)

same_length :
    (ps : List (ℤ × ℤ)) (fs : List Bool)
    → length ps ≡ length fs
    → (length (to_list (of_list (map point_value ps))) == length (to_list (of_list (map bool fs))))
      ≡ true
same_length ps fs h =
    rw (to_list-of_list (map point_value ps), to_list-of_list (map bool fs))
      (ground (arith, length-map point_value ps, length-map bool fs))

module _ (float_of : String → Option Number) where
  coerce_all-of_list :
      (ps : List (ℤ × ℤ)) → coerce_all float_of (to_list (of_list (map point_value ps))) ≡ ok ps
  unfolding coerce_all finite_float
  coerce_all-of_list [] = refl
  coerce_all-of_list (p ∷ ps) = rw (coerce_all-of_list ps)

  coerce_points_flags-of_list :
      (ps : List (ℤ × ℤ)) (fs : List Bool)
      → length ps ≡ length fs
      → coerce_points_flags float_of
          (Value.array (of_list (map point_value ps)))
          (Value.array (of_list (map bool fs)))
        ≡ ok (ps, fs)
  unfolding coerce_points_flags
  coerce_points_flags-of_list ps fs h =
      rw (same_length ps fs h, coerce_all-of_list ps, map-truth-bool fs)

  parse_dash-value :
      (d : DashConfig) → DashIsValid d → parse_dash float_of (dash_value (some d)) ≡ ok d
  unfolding parse_dash finite_float
  parse_dash-value d v = elim (Bool-cases d.start_on) [
    | inl s ↦ rw (v.on, v.off, s)
    | inr s ↦ rw (v.on, v.off, s)
  ]

  heading_of-optional : (o : Option ℤ) → AllNonNegative o → heading_of float_of (optional o) ≡ ok o
  unfolding finite_float
  heading_of-optional none v = refl
  heading_of-optional (some z) v = rw v

  parse_points-value :
      (p : PointsModeConfig)
      → PointsIsValid p
      → parse_points_mode float_of (points_mode_value (some p)) ≡ ok p
  unfolding parse_points_mode finite_float
  parse_points-value p v = rw (
    coerce_all-of_list p.coordinates,
    v.tolerance,
    v.settle,
    v.dwell,
    heading_of-optional p.heading_tolerance v.heading,
  )

  sub_configs-values :
      (m : Mode) (d : Option DashConfig) (p : Option PointsModeConfig)
      → SubIsValid m d p
      → sub_configs float_of m (dash_value d) (points_mode_value p) ≡ ok (d, p)
  unfolding sub_configs
  sub_configs-values continuous none none v = refl
  sub_configs-values dash (some d) none v = rw (parse_dash-value d v)
  sub_configs-values point none (some p) v = rw (parse_points-value p v)
  sub_configs-values continuous none (some p) v = absurd v
  sub_configs-values continuous (some d) p v = absurd v
  sub_configs-values dash none p v = absurd v
  sub_configs-values dash (some d) (some p) v = absurd v
  sub_configs-values point none none v = absurd v
  sub_configs-values point (some d) p v = absurd v

  max_xtrack_of-fields :
      (o : Option ℤ)
      → AllPositive o
      → max_xtrack_of float_of (get_or "max_xtrack_error_m" null (xtrack_members o)) ≡ ok o
  unfolding finite_float
  max_xtrack_of-fields none v = refl
  max_xtrack_of-fields (some z) v = rw v

  mode_of-mode_name : (m : Mode) → mode_of (Value.str (mode_name m)) ≡ ok m
  mode_of-mode_name continuous = refl
  mode_of-mode_name dash = refl
  mode_of-mode_name point = refl

  -- A well-formed configuration, written out by to_dict and read again, is the same configuration.
  pub parse_session_config-to_dict :
      (c : SpraySessionConfig) → IsValid c → parse_session_config float_of (to_dict c) ≡ ok c
  unfolding parse_session_config to_dict
  parse_session_config-to_dict c v = rw (
    mode_of-mode_name c.mode,
    coerce_points_flags-of_list c.points c.flags v.aligned,
    sub_configs-values c.mode c.dash c.points_mode v.sub,
    max_xtrack_of-fields c.max_xtrack_error v.xtrack,
  )
