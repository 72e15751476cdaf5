-- ===== src/Channels/Codec.antt =====
-- What is written is read back, and when a reader raises.
use Prim.Native.String.{String}
use px4_dxp.Prelude.{
  ◌≡◌, refl, arith, ap, ◌⊎◌, ◌↔◌, suc, Option, none, some, ℤ, pos, negsuc, neg, inl, inr,
}
use px4_dxp.Session.Json.{Number, nan, pos_inf, neg_inf, finite, Value, null, num, get_or}
use px4_dxp.Progress.{MissionPhase}
use px4_dxp.Channels.{
  ProgressPayload, MilestonePayload, PointDonePayload, AdvancePayload, ◌>>=◌, scale, truncated,
  int_value, num_or_null, phase_code, phase_of, loads, progress_to_json, milestone_to_json,
  point_done_to_json, advance_to_json, as_int, as_float, progress_from_json, milestone_from_json,
  point_done_from_json, advance_from_json,
}

truncated-scale : (z : ℤ) → truncated (scale z) ≡ z
truncated-scale (pos n) = ap pos (omega arith)
truncated-scale (negsuc n) = ap neg {y = suc n} (omega arith)

phase_of-phase_code : (p : MissionPhase) → phase_of (phase_code p) ≡ p
phase_of-phase_code p = ground arith

-- A number as the channel carries it: JSON has no NaN and no infinities.
abbrev pub carried : Number → Number → Number
carried default (finite z) = finite z
carried default _ = default

module _ (int_of : String → Option ℤ) (float_of : String → Option Number)
    (str_of : Value → String) where
  as_int-int_value : (d z : ℤ) → as_int int_of float_of str_of d (int_value z) ≡ some z
  unfolding as_int
  as_int-int_value d z = ap some (truncated-scale z)

  as_float-num_or_null :
      (d x : Number) → as_float int_of float_of str_of d (num_or_null x) ≡ some (carried d x)
  unfolding as_float
  as_float-num_or_null d nan = refl
  as_float-num_or_null d pos_inf = refl
  as_float-num_or_null d neg_inf = refl
  as_float-num_or_null d (finite z) = refl

  -- A progress message that is written and read is the same message, but for a number that is not
  -- finite: a distance or a cross-track error is read as NaN then, a speed as zero.
  pub progress_roundtrip :
      (m : ProgressPayload)
      → progress_from_json int_of float_of str_of (some (progress_to_json m))
        ≡ some (record m {
          dist_to_next_boundary = carried nan m.dist_to_next_boundary;
          speed = carried (finite (pos 0)) m.speed;
          xtrack = carried nan m.xtrack;
        })
  unfolding progress_from_json progress_to_json
  progress_roundtrip m = rw (
    as_int-int_value (pos 0) (phase_code m.phase),
    phase_of-phase_code m.phase,
    as_int-int_value (negsuc 0) m.segment_index,
    as_int-int_value (negsuc 0) m.point_index,
    as_float-num_or_null nan m.dist_to_next_boundary,
    as_float-num_or_null (finite (pos 0)) m.speed,
    as_float-num_or_null nan m.xtrack,
  )

  -- Milestones, completions of points and commands to advance that are written and read are the
  -- same messages.
  pub message_roundtrips :
      ((m : MilestonePayload)
        → milestone_from_json int_of float_of str_of (some (milestone_to_json m)) ≡ some m)
      × (((m : PointDonePayload)
            → point_done_from_json int_of float_of str_of (some (point_done_to_json m)) ≡ some m)
          × ((m : AdvancePayload)
              → advance_from_json int_of float_of str_of (some (advance_to_json m)) ≡ some m))
  unfolding milestone_from_json milestone_to_json point_done_from_json point_done_to_json
      advance_from_json advance_to_json
  message_roundtrips = (
    (λ m. rw (
      as_int-int_value (negsuc 0) m.seq,
      as_int-int_value (negsuc 0) m.index,
      as_int-int_value (pos 0) m.stamp,
    )),
    (
      (λ m. rw (as_int-int_value (negsuc 0) m.point_index, as_int-int_value (negsuc 0) m.seq)),
      (λ m. rw (as_int-int_value (negsuc 0) m.expect_index)),
    ),
  )

  as_int-none :
      (d : ℤ) (v : Value)
      → as_int int_of float_of str_of d v ≡ none
      → (v ≡ num pos_inf) ⊎ (v ≡ num neg_inf)
  unfolding as_int
  as_int-none d v e = ground arith

  bind-none : {A B : Type 0} (o : Option A) (f : A → B) → (o >>= λ a. some (f a)) ≡ none → o ≡ none
  bind-none none f e = refl
  bind-none (some a) f e = absurd (ground arith)

  -- The reader of a command to advance raises exactly when the expected index is an infinity; a
  -- text that is not JSON, a value that is not a dictionary and values of other types do not make
  -- it raise.
  pub advance_from_json-none :
      (raw : Option Value)
      → (advance_from_json int_of float_of str_of raw ≡ none) ↔ (
          (get_or "expect_index" null (loads raw) ≡ num pos_inf)
          ⊎ (get_or "expect_index" null (loads raw) ≡ num neg_inf))
  unfolding advance_from_json as_int
  advance_from_json-none raw = (
    (λ e. as_int-none (negsuc 0) _ (
        bind-none
          (as_int int_of float_of str_of (negsuc 0) (get_or "expect_index" null (loads raw))) _ e)),
    λ i. elim i [ inl q ↦ rw q refl | inr q ↦ rw q refl ],
  )
