-- ===== src/Session/Accepted.antt =====
-- The node accepts what the server builds.
use Prim.Native.String.{String}
use text.Mathlib.Text.{◌==◌ as str_eq}
use px4_dxp.Prelude.{
  true, not, ◌≡◌, ◌∙◌, refl, Option, none, some, ℤ, if◌then◌else◌, ap, Bool-cases, Option-cases,
  arith, inl, inr,
}
use px4_dxp.Session.Json.{Number, ok}
use px4_dxp.Session.Writer.{dash_value, to_dict}
use px4_dxp.Session.Config.{
  DashConfig, PointsModeConfig, Mode, continuous, dash, point, SpraySessionConfig, is_positive,
  is_non_negative, parse_session_config, cleared_config,
}
use px4_dxp.Session.Roundtrip.{AllNonNegative, AllPositive, IsValid, parse_session_config-to_dict}
use px4_dxp.Session.Builder.{
  Request, mode_or_default, both_set, dash_part, build_rest, build_session_config,
}

-- The configuration that a request asks for.
abbrev pub wanted_dash : Request → ℤ → ℤ → DashConfig
wanted_dash r on off = record {
  on_distance = on;
  off_distance = off;
  start_on = not (str_eq r.dash_start "off");
}

abbrev pub wanted_points : Request → PointsModeConfig
wanted_points r = record {
  coordinates = r.coordinates;
  arrival_tolerance = r.arrival_tolerance;
  heading_tolerance = r.heading_tolerance;
  arrival_settle = r.arrival_settle;
  dwell = r.dwell;
}

abbrev pub config :
    Mode → Option DashConfig → Option PointsModeConfig → Option ℤ → SpraySessionConfig
config m d p x = record cleared_config { mode = m; dash = d; points_mode = p; max_xtrack_error = x }

abbrev pub asked_rest : String → Request → SpraySessionConfig
asked_rest m r =
    if str_eq m "point"
    then config point none (some (wanted_points r)) r.max_xtrack
    else config continuous none none r.max_xtrack

-- The configuration for a mode and for the dash distances that are set.
abbrev pub asked : String → Option (ℤ × ℤ) → Request → SpraySessionConfig
asked m none r = asked_rest m r
asked m (some (on, off)) r =
    if str_eq m "dash"
    then config dash (some (wanted_dash r on off)) none r.max_xtrack
    else asked_rest m r

abbrev pub asked_for : (String → String) → Request → SpraySessionConfig
asked_for lower r = asked (lower (mode_or_default r.mode)) (both_set r.dash_on r.dash_off) r

-- The bounds that the server's models.py puts on the numbers of a request.
abbrev pub IsPositive : ℤ → Type 0
IsPositive z = is_positive z ≡ true

pub record RequestIsValid (r : Request) : Type 0 where
  pub on : AllPositive r.dash_on
  pub off : AllPositive r.dash_off
  pub tolerance : is_non_negative r.arrival_tolerance ≡ true
  pub settle : is_non_negative r.arrival_settle ≡ true
  pub dwell : is_non_negative r.dwell ≡ true
  pub heading : AllNonNegative r.heading_tolerance
  pub xtrack : AllPositive r.max_xtrack

build_rest-to_dict : (m : String) (r : Request) → build_rest m r ≡ to_dict (asked_rest m r)
unfolding to_dict
build_rest-to_dict m r = elim (Bool-cases (str_eq m "point")) [
  | inl e ↦ rw (e, build_rest)
  | inr e ↦ rw (e, build_rest)
]

dash_part-value :
    (r : Request) (on off : ℤ)
    → dash_part r.dash_start on off ≡ dash_value (some (wanted_dash r on off))
dash_part-value r on off = elim (Bool-cases (str_eq r.dash_start "off")) [
  | inl e ↦ rw e
  | inr e ↦ rw e
]

-- What is built is what the parser's module would write for that configuration.
build_session_config-to_dict :
    (lower : String → String) (r : Request)
    → build_session_config lower r ≡ to_dict (asked_for lower r)
unfolding build_session_config to_dict
build_session_config-to_dict lower r =
    let m = lower (mode_or_default r.mode) in
    elim (Bool-cases (str_eq m "dash")) [
      | inl e ↦ elim (Option-cases (both_set r.dash_on r.dash_off)) [
        | inl q ↦ rw (e, q) (build_rest-to_dict m r)
        | inr ((on, off), q) ↦ rw (q, asked, e, dash_part-value r on off)
      ]
      | inr e ↦ elim (Option-cases (both_set r.dash_on r.dash_off)) [
        | inl q ↦ rw (e, q) (build_rest-to_dict m r)
        | inr ((on, off), q) ↦ rw (e, q, asked, e) (build_rest-to_dict m r)
      ]
    ]

both_set-positive :
    (a b : Option ℤ) (x y : ℤ)
    → AllPositive a
    → AllPositive b
    → both_set a b ≡ some (x, y)
    → (is_positive x ≡ true) × (is_positive y ≡ true)
both_set-positive a b x y p q e = ground arith

module _ (r : Request) (v : RequestIsValid r) where
  asked_rest-IsValid : (m : String) → IsValid (asked_rest m r)
  asked_rest-IsValid m = elim (Bool-cases (str_eq m "point")) [
    | inl e ↦
        rw (e, asked_rest)
          (record {
            aligned = refl;
            sub = record {
              tolerance = v.tolerance;
              settle = v.settle;
              dwell = v.dwell;
              heading = v.heading;
            };
            xtrack = v.xtrack;
          })
    | inr e ↦ rw (e, asked_rest) (record { aligned = refl; sub = tt; xtrack = v.xtrack })
  ]

  asked-IsValid :
      (m : String) (d : Option (ℤ × ℤ)) → both_set r.dash_on r.dash_off ≡ d → IsValid (asked m d r)
  asked-IsValid m none q = asked_rest-IsValid m
  asked-IsValid m (some (on, off)) q = elim (Bool-cases (str_eq m "dash")) [
    | inl e ↦
        rw (e, asked)
          (record {
            aligned = refl;
            sub =
                (let both = both_set-positive r.dash_on r.dash_off on off v.on v.off q in
                  record { on = both.0; off = both.1 });
            xtrack = v.xtrack;
          })
    | inr e ↦ rw (e, asked) (asked_rest-IsValid m)
  ]

  -- A request within the bounds that the server checks is accepted by the node's parser, as the
  -- configuration that it asks for: dash mode when it is chosen and both distances are set, point
  -- mode when it is chosen, continuous mode for all else; with the cross-track gate if one is given.
  pub build_session_config-accepted :
      (lower : String → String) (float_of : String → Option Number)
      → parse_session_config float_of (build_session_config lower r) ≡ ok (asked_for lower r)
  build_session_config-accepted lower float_of =
      ap (parse_session_config float_of) (build_session_config-to_dict lower r)
      ∙ parse_session_config-to_dict float_of (asked_for lower r)
          (asked-IsValid (lower (mode_or_default r.mode)) (both_set r.dash_on r.dash_off) refl)
