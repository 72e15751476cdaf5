-- ===== src/Placement/Frame.antt =====
-- Where the points of a placement that succeeds lie, and what of the telemetry decides it.
use px4_dxp.Prelude.{
  ◌≡◌, refl, arith, sym, ap, subst, ◌∙◌, ◌⊎◌, ℤ, pos, true, false, not, ◌||◌, Option, none, some,
  List, map, All, leb_ℤ, Bool-cases, inl, inr, length, length-map, some_inj,
}
use px4_dxp.Placement.Telemetry.{Floats, Telemetry, Limits}
use px4_dxp.Placement.Ned.{latlon_to_ned}
use px4_dxp.Placement.Health.{Status, in_bounds, finite_both, measured, evaluate_origin_health}
use px4_dxp.Placement.Resolve.{
  placed, require, is_ok, is_no_origin, translate, finite_point, finite_pair, fresh_age, fix_gate,
  apply_translation, gates, declared_translation, untrusted_translation, translation_for,
  resolve_surveyed_points, anchor_invalid, anchor_bounds, disconnected, no_pose, no_global_position,
  no_fix, stale_pose, stale_global_position, stale_fix, skewed, below_rtk_fixed, origin_untrusted,
  translation_not_finite,
}
use px4_dxp.Placement.Gates.{
  bind-placed, through, require-placed, IsVerified, evaluate-ok, apply_translation-map,
  apply_translation-finite,
}

-- A position fixed by RTK.
abbrev pub IsRtkFixed : Option ℤ → Type 0
IsRtkFixed o = (z : ℤ) × ((o ≡ some z) × (leb_ℤ (pos 6) z ≡ true))

fix_gate-IsRtkFixed : (o : Option ℤ) (u : Unit {0}) → fix_gate o ≡ placed u → IsRtkFixed o
fix_gate-IsRtkFixed none u e = absurd (ground arith)
fix_gate-IsRtkFixed (some z) u e = (z, (refl, require-placed (leb_ℤ (pos 6) z) below_rtk_fixed u e))

-- The tests of the telemetry that a placement goes through.
pub record IsLive (F : Floats) (s : Telemetry F.Num) : Type 0 where
  pub connected : s.connected ≡ true
  pub pose : s.pose_received ≡ true
  pub global : s.global_position_received ≡ true
  pub fix : s.gps_fix_received ≡ true
  pub rtk : IsRtkFixed s.gps_fix

is_ok-ok : {h : Status} → is_ok h ≡ true → h ≡ Status.ok
is_ok-ok {h} e = ground arith

pub placed_inj : {A : Type 0} {a b : A} → placed a ≡ placed b → a ≡ b
placed_inj e = cc

module _ (F : Floats) (l : Limits F.Num) where
  gates-IsLive : (s : Telemetry F.Num) (u : Unit {0}) → gates F l s ≡ placed u → IsLive F s
  unfolding gates
  gates-IsLive s u e =
      let (_, (a1, e1)) = bind-placed (require s.connected disconnected) _ u e in
      let (_, (a2, e2)) = bind-placed (require s.pose_received no_pose) _ u e1 in
      let (_, (a3, e3)) =
        bind-placed (require s.global_position_received no_global_position) _ u e2 in
      let (_, (a4, e4)) = bind-placed (require s.gps_fix_received no_fix) _ u e3 in
      let (_, (a5, e5)) =
        bind-placed (fresh_age F s.local_pose_age l.pose_stale stale_pose) _ u e4 in
      let (_, (a6, e6)) =
        bind-placed
          (fresh_age F s.global_position_age l.global_position_stale stale_global_position) _ u
          e5 in
      let (_, (a7, e7)) =
        bind-placed (fresh_age F s.gps_fix_age l.gps_fix_stale stale_fix) _ u e6 in
      let (_, (a8, e8)) = bind-placed (fresh_age F s.pose_global_skew l.max_skew skewed) _ u e7 in
      record {
        connected = require-placed s.connected disconnected _ a1;
        pose = require-placed s.pose_received no_pose _ a2;
        global = require-placed s.global_position_received no_global_position _ a3;
        fix = require-placed s.gps_fix_received no_fix _ a4;
        rtk = fix_gate-IsRtkFixed s.gps_fix u e8;
      }

  -- A verdict of NO_ORIGIN means that none was received.
  evaluate-no_origin :
      (s : Telemetry F.Num)
      → is_no_origin (evaluate_origin_health F l s).status ≡ true
      → s.ekf_origin_received ≡ false
  unfolding evaluate_origin_health measured
  evaluate-no_origin s e = ground arith

  -- Where a translation comes from: an origin that the live frame agrees with, or, when the
  -- operator has allowed it and no origin was received, the live pair.
  pub HasSource : Telemetry F.Num → F.Num × F.Num → F.Num × F.Num → Type 0
  HasSource s anchor t =
      ((d : F.Num × F.Num) × (IsVerified F l s d × (t ≡ latlon_to_ned F anchor.0 anchor.1 d.0 d.1)))
      ⊎ ((s.ekf_origin_received ≡ false) × (l.require_declared ≡ false))

  translation_for-HasSource :
      (s : Telemetry F.Num) (anchor t : F.Num × F.Num)
      → translation_for F l s anchor (evaluate_origin_health F l s) ≡ placed t
      → HasSource s anchor t
  unfolding translation_for HasSource
  translation_for-HasSource s anchor t e =
      elim (Bool-cases (is_ok (evaluate_origin_health F l s).status)) [
        | inl k ↦
            let (d, (v, o)) = evaluate-ok F l s (is_ok-ok k) in
            let e1 : declared_translation F anchor d ≡ placed t = sym (rw (k, o)) ∙ e in
            let (_, (_, e2)) =
              bind-placed
                (require (finite_point F (latlon_to_ned F anchor.0 anchor.1 d.0 d.1))
                  translation_not_finite)
                _ t e1 in
            inl (d, (v, sym (placed_inj e2)))
        | inr k ↦
            let h = (evaluate_origin_health F l s).status in
            let e1 : untrusted_translation F l s anchor h ≡ placed t = sym (rw k) ∙ e in
            let (u, (g, _)) =
              bind-placed
                (require (not (not (is_no_origin h) || l.require_declared)) origin_untrusted) _ t
                e1 in
            let q =
              require-placed (not (not (is_no_origin h) || l.require_declared)) origin_untrusted u
                g in
            inr (evaluate-no_origin s (ground arith), ground arith)
      ]

  finite_pair_self :
      (p a : F.Num × F.Num) → finite_pair F (some p.0) (some p.1) anchor_invalid ≡ placed a → a ≡ p
  finite_pair_self p a e = ground arith

  pub record IsPlaced (ps : List (F.Num × F.Num)) (anchor : F.Num × F.Num) (s : Telemetry F.Num)
      (qs : List (F.Num × F.Num)) (t : F.Num × F.Num) : Type 0 where
    pub moved : qs ≡ map (translate F t) ps
    pub finite : All (λ q. finite_point F q ≡ true) qs
    pub live : IsLive F s
    pub source : HasSource s anchor t

  IsPlaced-cast :
      {ps : List (F.Num × F.Num)} {a b : F.Num × F.Num} {s : Telemetry F.Num}
      {qs rs : List (F.Num × F.Num)} {t u : F.Num × F.Num}
      → a ≡ b
      → rs ≡ qs
      → u ≡ t
      → IsPlaced ps a s rs u
      → IsPlaced ps b s qs t
  IsPlaced-cast {ps} {a} {b} {s} {qs} {rs} {t} {u} p q r x =
      subst (λ v. IsPlaced ps b s qs v) r
        (subst (λ v. IsPlaced ps b s v u) q (subst (λ v. IsPlaced ps v s rs u) p x))

  -- A surveyed mission that is placed is the source moved by one translation, with finite
  -- coordinates, behind a connected vehicle with an RTK fix. The translation goes through the
  -- declared origin, which was checked against the live frame, unless no origin was received and
  -- the operator does not require one.
  pub resolve_surveyed_points-IsPlaced :
      (ps : List (F.Num × F.Num)) (anchor : F.Num × F.Num) (s : Telemetry F.Num)
      (qs : List (F.Num × F.Num)) (t : F.Num × F.Num)
      → resolve_surveyed_points F l ps (some anchor) s ≡ placed (qs, t)
      → IsPlaced ps anchor s qs t
  unfolding resolve_surveyed_points
  resolve_surveyed_points-IsPlaced ps anchor s qs t e =
      through (finite_pair F (some anchor.0) (some anchor.1) anchor_invalid) _ (qs, t) e
        (λ a a1 e1.
          through (require (in_bounds F a.0 a.1) anchor_bounds) _ (qs, t) e1
            (λ _ _ e2.
              through (gates F l s) _ (qs, t) e2
                (λ u g e3.
                  through (translation_for F l s a (evaluate_origin_health F l s)) _ (qs, t) e3
                    (λ m f e4.
                      through (apply_translation F ps m) _ (qs, t) e4
                        (λ rs x e5.
                          IsPlaced-cast (finite_pair_self anchor a a1)
                            (ap (λ r. r.0) (placed_inj e5)) (ap (λ r. r.1) (placed_inj e5))
                            (record {
                              moved = apply_translation-map F l ps rs m x;
                              finite = apply_translation-finite F l ps rs m x;
                              live = gates-IsLive s u g;
                              source = translation_for-HasSource s a m f;
                            }))))))

  pub length-resolve_surveyed_points :
      (ps : List (F.Num × F.Num)) (o : Option (F.Num × F.Num)) (s : Telemetry F.Num)
      (qs : List (F.Num × F.Num)) (t : F.Num × F.Num)
      → resolve_surveyed_points F l ps o s ≡ placed (qs, t)
      → length qs ≡ length ps
  unfolding resolve_surveyed_points
  length-resolve_surveyed_points ps none s qs t e = absurd (ground arith)
  length-resolve_surveyed_points ps (some o) s qs t e =
      ap length (resolve_surveyed_points-IsPlaced ps o s qs t e).moved
      ∙ length-map (translate F t) ps

  same_translation :
      (anchor t u : F.Num × F.Num) (s r : Telemetry F.Num)
      → s.ekf_origin_received ≡ true
      → r.ekf_origin_received ≡ true
      → s.ekf_origin_lat ≡ r.ekf_origin_lat
      → s.ekf_origin_lon ≡ r.ekf_origin_lon
      → HasSource s anchor t
      → HasSource r anchor u
      → t ≡ u
  unfolding HasSource
  same_translation anchor t u s r p q x y (inr (n, _)) h = absurd (ground arith)
  same_translation anchor t u s r p q x y (inl h) (inr (n, _)) = absurd (ground arith)
  same_translation anchor t u s r p q x y (inl (d, (v, e))) (inl (d', (v', e'))) =
      let same : finite_both F s.ekf_origin_lat s.ekf_origin_lon
          ≡ finite_both F r.ekf_origin_lat r.ekf_origin_lon =
        ap (λ o. finite_both F o s.ekf_origin_lon) x ∙ ap (finite_both F r.ekf_origin_lat) y in
      e
      ∙ ap (λ o. latlon_to_ned F anchor.0 anchor.1 o.0 o.1)
          (some_inj (sym v.declared ∙ same ∙ v'.declared))
      ∙ sym e'

  -- With an origin received, the placement depends on the source, the anchor and the origin only:
  -- two placements under telemetry with the same origin give the same points, wherever the vehicle
  -- is at the time.
  pub resolve_surveyed_points-reproducible :
      (ps qs rs : List (F.Num × F.Num)) (anchor t u : F.Num × F.Num) (s r : Telemetry F.Num)
      → s.ekf_origin_received ≡ true
      → r.ekf_origin_received ≡ true
      → s.ekf_origin_lat ≡ r.ekf_origin_lat
      → s.ekf_origin_lon ≡ r.ekf_origin_lon
      → resolve_surveyed_points F l ps (some anchor) s ≡ placed (qs, t)
      → resolve_surveyed_points F l ps (some anchor) r ≡ placed (rs, u)
      → (qs ≡ rs) × (t ≡ u)
  resolve_surveyed_points-reproducible ps qs rs anchor t u s r p q x y a b =
      let i = resolve_surveyed_points-IsPlaced ps anchor s qs t a in
      let j = resolve_surveyed_points-IsPlaced ps anchor r rs u b in
      let e = same_translation anchor t u s r p q x y i.source j.source in
      (i.moved ∙ ap (λ v. map (translate F v) ps) e ∙ sym j.moved, e)
