-- ===== src/Placement/Gates.antt =====
-- What a placement that succeeds has gone through.
use px4_dxp.Prelude.{
  ◌≡◌, refl, arith, Bool, true, false, not, ◌&&◌, some, List, [], ◌∷◌, Bool-cases, Option-cases,
  inl, inr, map, All, subst, ap, sym, ◌∙◌,
}
use px4_dxp.Placement.Telemetry.{Floats, Telemetry, Limits}
use px4_dxp.Placement.Health.{
  Status, OriginHealth, in_bounds, finite_both, is_simultaneous, evaluate_origin_health, measured,
  implied_origin, sample_of,
}
use px4_dxp.Placement.Resolve.{
  waypoint_invalid, Refusal, Placed, placed, refused, ◌>>=◌, require, translate, finite_point,
  apply_translation,
}

-- The result of a chain, and the steps it went through.
pub bind-placed :
    {A B : Type 0} (m : Placed A) (f : A → Placed B) (b : B)
    → (m >>= f) ≡ placed b
    → (a : A) × ((m ≡ placed a) × (f a ≡ placed b))
bind-placed (placed a) f b e = (a, (refl, e))
bind-placed (refused r) f b e = absurd (ground arith)

-- The same, for a goal of any kind.
pub through :
    {A B : Type 0} {C : Type 0} (m : Placed A) (f : A → Placed B) (b : B)
    → (m >>= f) ≡ placed b
    → ((a : A) → m ≡ placed a → f a ≡ placed b → C)
    → C
through m f b e k = let (a, (p, q)) = bind-placed m f b e in k a p q

pub require-placed : (b : Bool) (r : Refusal) (u : Unit {0}) → require b r ≡ placed u → b ≡ true
require-placed true r u e = refl
require-placed false r u e = absurd (ground arith)

module _ (F : Floats) (l : Limits F.Num) where
  -- The live frame is no farther from the declared one than the threshold allows.
  pub agrees : F.Num × F.Num → (F.Num × F.Num) × (F.Num × F.Num) → Bool
  agrees d (global, local) =
      let m = (implied_origin F global local d).1 in
      F.is_finite (F.hypot m.0 m.1) && not (F.lt l.consistency_max (F.hypot m.0 m.1))

  -- What a verdict of OK has established, the origin being that of the telemetry.
  pub record IsVerified (s : Telemetry F.Num) (d : F.Num × F.Num) : Type 0 where
    pub received : s.ekf_origin_received ≡ true
    pub declared : finite_both F s.ekf_origin_lat s.ekf_origin_lon ≡ some d
    pub bounded : in_bounds F d.0 d.1 ≡ true
    pub simultaneous : is_simultaneous F l s ≡ true
    pub sample : (F.Num × F.Num) × (F.Num × F.Num)
    pub sampled : sample_of F s ≡ some sample
    pub agrees : agrees d sample ≡ true

  measured-ok :
      (d : F.Num × F.Num) (x : (F.Num × F.Num) × (F.Num × F.Num))
      → (measured F l d x).status ≡ Status.ok
      → (agrees d x ≡ true)
        × (((measured F l d x).trusted ≡ true) × ((measured F l d x).declared ≡ some d))
  unfolding measured agrees
  measured-ok d x e = ground arith

  pub evaluate-ok :
      (s : Telemetry F.Num)
      → (evaluate_origin_health F l s).status ≡ Status.ok
      → (d : F.Num × F.Num) × (IsVerified s d × ((evaluate_origin_health F l s).declared ≡ some d))
  unfolding evaluate_origin_health
  evaluate-ok s e = elim (Bool-cases s.ekf_origin_received) [
    | inr r ↦ absurd (ground arith)
    | inl r ↦ elim (Option-cases (finite_both F s.ekf_origin_lat s.ekf_origin_lon)) [
      | inl q ↦ absurd (ground arith)
      | inr (d, q) ↦ elim (Bool-cases (in_bounds F d.0 d.1)) [
        | inr b ↦ absurd (ground arith)
        | inl b ↦ elim (Bool-cases (is_simultaneous F l s)) [
          | inr t ↦ absurd (ground arith)
          | inl t ↦ elim (Option-cases (sample_of F s)) [
            | inl x ↦ absurd (ground arith)
            | inr (x, y) ↦
                let same : evaluate_origin_health F l s ≡ measured F l d x = rw (r, q, b, t, y) in
                let m = measured-ok d x (sym (ap OriginHealth.status same) ∙ e) in
                (
                  d,
                  (
                    record {
                      received = r;
                      declared = q;
                      bounded = b;
                      simultaneous = t;
                      sample = x;
                      sampled = y;
                      agrees = m.0;
                    },
                    ap OriginHealth.declared same ∙ m.1.1,
                  ),
                )
          ]
        ]
      ]
    ]
  ]

  pub apply_translation-map :
      (ps qs : List (F.Num × F.Num)) (t : F.Num × F.Num)
      → apply_translation F ps t ≡ placed qs
      → qs ≡ map (translate F t) ps
  unfolding apply_translation
  apply_translation-map [] qs t e = ground arith
  apply_translation-map (p ∷ ps) qs t e =
      let (u, (_, e1)) = bind-placed (require (finite_point F p) waypoint_invalid) _ qs e in
      let (v, (_, e2)) =
        bind-placed (require (finite_point F (translate F t p)) waypoint_invalid) _ qs e1 in
      let (rest, (r, e3)) = bind-placed (apply_translation F ps t) _ qs e2 in
      ground (arith, apply_translation-map ps rest t r)

  pub apply_translation-finite :
      (ps qs : List (F.Num × F.Num)) (t : F.Num × F.Num)
      → apply_translation F ps t ≡ placed qs
      → All (λ q. finite_point F q ≡ true) qs
  unfolding apply_translation
  apply_translation-finite [] qs t e =
      subst (All (λ q. finite_point F q ≡ true)) {x = []} (ground arith) tt
  apply_translation-finite (p ∷ ps) qs t e =
      let (u, (_, e1)) = bind-placed (require (finite_point F p) waypoint_invalid) _ qs e in
      let (v, (f, e2)) =
        bind-placed (require (finite_point F (translate F t p)) waypoint_invalid) _ qs e1 in
      let (rest, (r, e3)) = bind-placed (apply_translation F ps t) _ qs e2 in
      subst (All (λ q. finite_point F q ≡ true)) {x = translate F t p ∷ rest} (ground arith) (
        require-placed (finite_point F (translate F t p)) waypoint_invalid v f,
        apply_translation-finite ps rest t r,
      )
