-- ===== src/Offboard/Leg.antt =====
-- The geometry of the entry leg, and its flags.
use px4_dxp.Prelude.{
  ◌≡◌, refl, arith, ◌⊎◌, Bool, false, some, List, [], ◌∷◌, length, All, Bool-cases, Option-cases,
  inl, inr, pos,
}
use px4_dxp.Placement.Telemetry.{Floats}
use px4_dxp.Offboard.Entry.{EntryConfig, direction, is_aligned, staging_point, entry_leg_points}
use px4_dxp.Offboard.Launch.{all_off}

pub length-all_off : {A : Type 0} (xs : List A) → length (all_off xs) ≡ length xs
length-all_off [] = refl
length-all_off (x ∷ xs) = omega (arith, length-all_off xs)

pub all_off-IsOff : {A : Type 0} (xs : List A) → All (λ b. b ≡ false) (all_off xs)
all_off-IsOff [] = tt
all_off-IsOff (x ∷ xs) = (refl, all_off-IsOff xs)

module _ (F : Floats) where
  -- Whether the vehicle is at the staging point already.
  abbrev is_near : EntryConfig F → F.Num × F.Num → F.Num × F.Num → F.Num × F.Num → Bool
  is_near g live p0 u =
      let s = staging_point F g p0 u in
      F.lt (F.hypot (F.sub live.0 s.0) (F.sub live.1 s.1)) (F.lit (pos 5) 1)

  -- An entry leg begins where the vehicle is and ends on the first point of the mission: straight,
  -- or by way of one staging point, which then lies at the configured distance behind the first
  -- point, against the direction of the mark.
  pub entry_leg_points-ends :
      (g : EntryConfig F) (live p0 : F.Num × F.Num) (rest : List (F.Num × F.Num))
      → (entry_leg_points F g live p0 rest ≡ live ∷ p0 ∷ [])
        ⊎ ((u : F.Num × F.Num) × ((direction F p0 rest ≡ some u)
              × (entry_leg_points F g live p0 rest ≡ live ∷ staging_point F g p0 u ∷ p0 ∷ [])))
  unfolding entry_leg_points
  entry_leg_points-ends g live p0 rest = elim (Bool-cases g.staging_enabled) [
    | inr d ↦ inl (rw d)
    | inl d ↦ elim (Option-cases (direction F p0 rest)) [
      | inl e ↦ inl (rw (d, e))
      | inr (u, e) ↦ elim (Bool-cases (is_aligned F g (F.sub live.0 p0.0, F.sub live.1 p0.1) u)) [
        | inl t ↦ inl (rw (d, e, t))
        | inr t ↦ elim (Bool-cases (is_near g live p0 u)) [
          | inl n ↦ inl (rw (d, e, t, n))
          | inr n ↦ inr (u, (e, rw (d, e, t, n)))
        ]
      ]
    ]
  ]
