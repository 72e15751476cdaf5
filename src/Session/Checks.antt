-- ===== src/Session/Checks.antt =====
-- What the parser accepts and how it fails: the errors that reach its caller.
use Prim.Native.String.{String}
use px4_dxp.Prelude.{
  length-map, not, Bool, true, Option-cases, ◌≡◌, refl, arith, List, [], ◌∷◌, length, Option, some,
  ℤ, ◌==◌, inl, inr,
}
use px4_dxp.Session.Json.{
  Number, Value, null, huge, bool, num, str, array, dict, no_elements, element, get_or, is_null, ok,
  overflow_error, check, ◌>>=◌,
}
use px4_dxp.Session.Writer.{to_dict}
use px4_dxp.Session.Config.{
  Mode, continuous, dash, point, SpraySessionConfig, truth, is_positive, is_non_negative,
  coerce_point, coerce_all, coerce_points_flags, parse_dash, parse_points_mode, sub_configs,
  max_xtrack_of, heading_of, parse_session_config, finite_float, is_schema_version, finite_number,
}
use px4_dxp.Session.Post.{
  Post, done, refused, overflowed, Post-bind, Post-ok, Post-overflow, HasHuge, ItemsHaveHuge,
  ListHasHuge, Any, get_or-HasHuge, null-HasHuge, no_elements-HasHuge, check-Post, Post-never,
  as_dict-Post, as_list-Post, required-Post, start_state_of-Post, mode_of-Post,
}
use px4_dxp.Session.Roundtrip.{
  DashIsValid, PointsIsValid, AllNonNegative, AllPositive, SubIsValid, IsValid,
  parse_session_config-to_dict,
}

module _ (float_of : String → Option Number) {H : Type 0} where
  finite_number-Post : (x : Number) → Post Any H (finite_number float_of x)
  finite_number-Post x = Post-never _ (ground arith)

  finite_float-Post : (v : Value) → (HasHuge v → H) → Post Any H (finite_float float_of v)
  unfolding finite_float HasHuge
  finite_float-Post (num x) h = finite_number-Post x
  finite_float-Post (str s) h = elim (Option-cases (float_of s)) [
    | inl q ↦ rw (q, finite_float) refused
    | inr (x, q) ↦ rw (q, finite_float) (finite_number-Post x)
  ]
  finite_float-Post (huge z) h = overflowed (h tt)
  finite_float-Post null h = refused
  finite_float-Post (bool b) h = refused
  finite_float-Post (array vs) h = refused
  finite_float-Post (dict fs) h = refused

  coerce_point-Post : (v : Value) → (HasHuge v → H) → Post Any H (coerce_point float_of v)
  unfolding HasHuge ItemsHaveHuge Any
  coerce_point-Post (array (element n (element e no_elements))) h =
      Post-bind (finite_float-Post n (λ g. h (inl g)))
        (λ n' _. Post-bind (finite_float-Post e (λ g. h (inr (inl g)))) (λ e' _. done tt))
  coerce_point-Post (array no_elements) h = refused
  coerce_point-Post (array (element n no_elements)) h = refused
  coerce_point-Post (array (element n (element e (element x xs)))) h = refused
  coerce_point-Post null h = refused
  coerce_point-Post (huge z) h = refused
  coerce_point-Post (bool b) h = refused
  coerce_point-Post (num x) h = refused
  coerce_point-Post (str s) h = refused
  coerce_point-Post (dict fs) h = refused

  coerce_all-Post :
      (vs : List Value)
      → (ListHasHuge vs → H)
      → Post (λ ps. length ps ≡ length vs) H (coerce_all float_of vs)
  unfolding coerce_all ListHasHuge
  coerce_all-Post [] h = done refl
  coerce_all-Post (v ∷ vs) h =
      Post-bind (coerce_point-Post v (λ g. h (inl g)))
        (λ p _. Post-bind (coerce_all-Post vs (λ g. h (inr g))) (λ ps e. done (omega arith)))

  coerce_points_flags-Post :
      (ps fs : Value)
      → (HasHuge ps → H)
      → Post (λ pf. length pf.0 ≡ length pf.1) H (coerce_points_flags float_of ps fs)
  unfolding coerce_points_flags
  coerce_points_flags-Post ps fs h = Post-bind (as_list-Post ps) (λ points g.
      Post-bind (as_list-Post fs) (λ flags _.
        Post-bind (check-Post (length points == length flags)) (λ _ q.
          Post-bind (coerce_all-Post points (λ x. h (g x)))
            (λ qs e. done (ground (arith, length-map truth flags))))))

  -- A number that has to pass a test.
  tested-Post :
      {P : Option ℤ → Type 0} (test : ℤ → Bool)
      → ((z : ℤ) → test z ≡ true → P (some z))
      → (v : Value) → (HasHuge v → H)
      → Post P H (finite_float float_of v >>= λ z. check (test z) >>= λ _. ok (some z))
  tested-Post test f v h =
      Post-bind (finite_float-Post v h)
        (λ z _. Post-bind (check-Post (test z)) (λ _ p. done (f z p)))

  heading_of-Post : (v : Value) → (HasHuge v → H) → Post AllNonNegative H (heading_of float_of v)
  heading_of-Post null h = done tt
  heading_of-Post (huge z) h = tested-Post is_non_negative (λ z p. p) (huge z) h
  heading_of-Post (bool b) h = tested-Post is_non_negative (λ z p. p) (bool b) h
  heading_of-Post (num x) h = tested-Post is_non_negative (λ z p. p) (num x) h
  heading_of-Post (str s) h = tested-Post is_non_negative (λ z p. p) (str s) h
  heading_of-Post (array vs) h = tested-Post is_non_negative (λ z p. p) (array vs) h
  heading_of-Post (dict fs) h = tested-Post is_non_negative (λ z p. p) (dict fs) h

  max_xtrack_of-Post : (v : Value) → (HasHuge v → H) → Post AllPositive H (max_xtrack_of float_of v)
  max_xtrack_of-Post null h = done tt
  max_xtrack_of-Post (huge z) h = tested-Post is_positive (λ z p. p) (huge z) h
  max_xtrack_of-Post (bool b) h = tested-Post is_positive (λ z p. p) (bool b) h
  max_xtrack_of-Post (num x) h = tested-Post is_positive (λ z p. p) (num x) h
  max_xtrack_of-Post (str s) h = tested-Post is_positive (λ z p. p) (str s) h
  max_xtrack_of-Post (array vs) h = tested-Post is_positive (λ z p. p) (array vs) h
  max_xtrack_of-Post (dict fs) h = tested-Post is_positive (λ z p. p) (dict fs) h

  parse_dash-Post : (v : Value) → (HasHuge v → H) → Post DashIsValid H (parse_dash float_of v)
  unfolding parse_dash
  parse_dash-Post v h = Post-bind (as_dict-Post v) (λ d g.
      Post-bind (required-Post "on_distance_m" d) (λ a ga.
        Post-bind (required-Post "off_distance_m" d) (λ b gb.
          Post-bind (required-Post "start_state" d) (λ c gc.
            Post-bind (finite_float-Post a (λ x. h (g (ga x)))) (λ on _.
              Post-bind (finite_float-Post b (λ x. h (g (gb x)))) (λ off _.
                Post-bind (check-Post (is_positive on)) (λ _ p.
                  Post-bind (check-Post (is_positive off)) (λ _ q.
                    Post-bind (start_state_of-Post c)
                      (λ s _. done (record { on = p; off = q }))))))))))

  parse_points_mode-Post :
      (v : Value) → (HasHuge v → H) → Post PointsIsValid H (parse_points_mode float_of v)
  unfolding parse_points_mode
  parse_points_mode-Post v h = Post-bind (as_dict-Post v) (λ d g.
      Post-bind (required-Post "coordinates" d) (λ a ga.
        Post-bind (required-Post "arrival_tolerance_m" d) (λ b gb.
          Post-bind (required-Post "arrival_settle_s" d) (λ c gc.
            Post-bind (required-Post "dwell_s" d) (λ w gw. Post-bind (as_list-Post a) (λ items gi.
              Post-bind (coerce_all-Post items (λ x. h (g (ga (gi x))))) (λ coordinates _.
                Post-bind (finite_float-Post b (λ x. h (g (gb x)))) (λ tolerance _.
                  Post-bind (check-Post (is_non_negative tolerance)) (λ _ p.
                    Post-bind (finite_float-Post c (λ x. h (g (gc x)))) (λ settle _.
                      Post-bind (check-Post (is_non_negative settle)) (λ _ q.
                        Post-bind (finite_float-Post w (λ x. h (g (gw x)))) (λ dwell _.
                          Post-bind (check-Post (is_non_negative dwell)) (λ _ r.
                            Post-bind
                              (heading_of-Post (get_or "heading_tolerance_deg" null d) (λ x.
                                h (
                                  g (
                                    get_or-HasHuge "heading_tolerance_deg" null d null-HasHuge x))))
                              (λ heading k. done (record {
                                tolerance = p;
                                settle = q;
                                dwell = r;
                                heading = k;
                              })))))))))))))))

  sub_configs-Post :
      (m : Mode) (d p : Value)
      → (HasHuge d → H)
      → (HasHuge p → H)
      → Post (λ s. SubIsValid m s.0 s.1) H (sub_configs float_of m d p)
  unfolding sub_configs
  sub_configs-Post continuous d p f g =
      Post-bind (check-Post (is_null d))
        (λ _ _. Post-bind (check-Post (is_null p)) (λ _ _. done tt))
  sub_configs-Post dash d p f g = Post-bind (check-Post (not (is_null d))) (λ _ _.
      Post-bind (check-Post (is_null p)) (λ _ _. Post-bind (parse_dash-Post d f) (λ _ v. done v)))
  sub_configs-Post point d p f g = Post-bind (check-Post (not (is_null p))) (λ _ _.
      Post-bind (check-Post (is_null d))
        (λ _ _. Post-bind (parse_points_mode-Post p g) (λ _ v. done v)))

module _ (float_of : String → Option Number) where
  parse_session_config-Post :
      (v : Value) → Post IsValid (HasHuge v) (parse_session_config float_of v)
  unfolding parse_session_config
  parse_session_config-Post v = Post-bind (as_dict-Post v) (λ d g.
      Post-bind (check-Post (is_schema_version (get_or "schema_version" null d))) (λ _ _.
        Post-bind (mode_of-Post (get_or "mode" null d)) (λ m _.
          Post-bind
            (coerce_points_flags-Post float_of (get_or "points" (array no_elements) d)
              (get_or "flags" (array no_elements) d)
              (λ x. g (get_or-HasHuge "points" (array no_elements) d no_elements-HasHuge x)))
            (λ pf e.
              Post-bind
                (sub_configs-Post float_of m (get_or "dash" null d) (get_or "points_mode" null d)
                  (λ x. g (get_or-HasHuge "dash" null d null-HasHuge x))
                  (λ x. g (get_or-HasHuge "points_mode" null d null-HasHuge x)))
                (λ s p.
                  Post-bind
                    (max_xtrack_of-Post float_of (get_or "max_xtrack_error_m" null d)
                      (λ x. g (get_or-HasHuge "max_xtrack_error_m" null d null-HasHuge x)))
                    (λ o q. done (record { aligned = e; sub = p; xtrack = q })))))))

  -- A configuration that the parser accepts has one flag for each point, the sub-configuration of
  -- its mode and no other, dash distances above zero, tolerances and times of at least zero, and a
  -- cross-track gate, if it has one, above zero.
  pub parse_session_config-IsValid :
      (v : Value) (c : SpraySessionConfig) → parse_session_config float_of v ≡ ok c → IsValid c
  parse_session_config-IsValid v c e = Post-ok (parse_session_config-Post v) e

  -- What is read, written out by to_dict and read again is what was read the first time.
  pub parse_session_config-stable :
      (v : Value) (c : SpraySessionConfig)
      → parse_session_config float_of v ≡ ok c
      → parse_session_config float_of (to_dict c) ≡ ok c
  parse_session_config-stable v c e =
      parse_session_config-to_dict float_of c (parse_session_config-IsValid v c e)

  -- The parser raises an error other than ConfigSchemaError only for a value that has, somewhere in
  -- it, an integer beyond the range of floats.
  pub parse_session_config-overflow :
      (v : Value) → parse_session_config float_of v ≡ overflow_error → HasHuge v
  parse_session_config-overflow v e = Post-overflow (parse_session_config-Post v) e
