-- ===== src/Progress/Phases.antt =====
-- The phase that a tick on a path with spray flags is given.
use px4_dxp.Prelude.{
  ℕ, zero, suc, ◌-◌, ◌<◌, ◌≤◌, ◌≡◌, ◌↔◌, refl, Bool, true, false, ◌&&◌, some, List, [], ◌∷◌, pos,
  arith, ap, ◌∙◌, length, subst, is_zero,
}
use px4_dxp.Progress.{
  MissionPhase, Boundary, mark_start, mark_end, approach_mark, ProgressMsg, Tick,
  segment_mark_flags, next_mark_boundary, clamp_index, mark_at, is_mark_phase, track_phase, tracked,
  classify_track, classify,
}
use px4_dxp.Progress.Scan.{Answer, next_mark_boundary-Answer}

pub length-segment_mark_flags :
    (flags : List Bool) → length (segment_mark_flags flags) ≡ length flags - 1
unfolding segment_mark_flags
length-segment_mark_flags [] = omega arith
length-segment_mark_flags (a ∷ []) = omega arith
length-segment_mark_flags (a ∷ b ∷ flags) = omega (arith, length-segment_mark_flags (b ∷ flags))

mark_at-segment_mark_flags :
    (flags : List Bool) (i : ℕ)
    → mark_at (segment_mark_flags flags) i ≡ (mark_at flags i && mark_at flags (suc i))
unfolding segment_mark_flags
mark_at-segment_mark_flags [] i = refl
mark_at-segment_mark_flags (a ∷ []) i = ground arith
mark_at-segment_mark_flags (a ∷ b ∷ flags) zero = refl
mark_at-segment_mark_flags (a ∷ b ∷ flags) (suc i) = mark_at-segment_mark_flags (b ∷ flags) i

track_phase_lem :
    (seg_mark : List Bool) (i dist : ℕ) (b : Boundary) (approach_dist : ℕ)
    → let p = track_phase seg_mark i dist b approach_dist in
      (is_mark_phase p ≡ mark_at seg_mark i)
      × ((p ≡ approach_mark)
          ↔ ((mark_at seg_mark i ≡ false) × (b ≡ mark_start) × (dist ≤ approach_dist)))
      × ((p ≡ MissionPhase.mark_end)
          ↔ ((mark_at seg_mark i ≡ true) × (b ≡ mark_end) × (dist ≤ approach_dist)))
unfolding track_phase
track_phase_lem seg_mark i dist b approach_dist = ground arith

-- What the message of a tick on a path says.
pub record Tracks (t : Tick) (m : ProgressMsg) : Type 0 where
  pub dist : ℕ
  pub index : ℕ
  pub index_eq : index ≡ clamp_index t.seg_idx (length t.spray_flags - 1)
  pub segment : m.segment_index ≡ pos index
  pub painting :
      is_mark_phase m.phase ≡ (mark_at t.spray_flags index && mark_at t.spray_flags (suc index))
  pub lead_on : (m.phase ≡ approach_mark) ↔ (
      (is_mark_phase m.phase ≡ false) × (m.next_boundary ≡ mark_start) × (dist ≤ t.approach_dist))
  pub lead_off :
      (m.phase ≡ MissionPhase.mark_end)
      ↔ ((is_mark_phase m.phase ≡ true) × (m.next_boundary ≡ mark_end) × (dist ≤ t.approach_dist))
  pub dist_eq : m.dist_to_next_boundary ≡ some dist
  pub answer :
      Answer (segment_mark_flags t.spray_flags) t.cum_s index t.along_s dist m.next_boundary

tracked-Tracks :
    (t : Tick) (i dist : ℕ) (name : Boundary)
    → i ≡ clamp_index t.seg_idx (length t.spray_flags - 1)
    → Answer (segment_mark_flags t.spray_flags) t.cum_s i t.along_s dist name
    → (m : ProgressMsg) × (tracked t (segment_mark_flags t.spray_flags) i (some (dist, name))
        ≡ some m)
      × Tracks t m
tracked-Tracks t i dist name e a =
    let (p, q, r) =
      track_phase_lem (segment_mark_flags t.spray_flags) i dist name t.approach_dist in
    (
      _,
      refl,
      record {
        dist = dist;
        index = i;
        index_eq = e;
        segment = refl;
        painting = p ∙ mark_at-segment_mark_flags t.spray_flags i;
        lead_on = rw p q;
        lead_off = rw p r;
        dist_eq = refl;
        answer = a;
      },
    )

classify_track-tracked :
    (t : Tick) (seg_mark : List Bool)
    → is_zero (length seg_mark) ≡ false
    → let i = clamp_index t.seg_idx (length seg_mark) in
      classify_track t seg_mark
      ≡ tracked t seg_mark i (next_mark_boundary seg_mark t.cum_s (pos i) t.along_s)
unfolding classify_track
classify_track-tracked t seg_mark z = rw z refl

classify_track-Tracks :
    (t : Tick)
    → 1 < length t.spray_flags
    → length t.cum_s ≡ length t.spray_flags
    → (m : ProgressMsg) × (classify_track t (segment_mark_flags t.spray_flags) ≡ some m)
      × Tracks t m
classify_track-Tracks t h n =
    let seg = segment_mark_flags t.spray_flags in
    let l = length-segment_mark_flags t.spray_flags in
    let i = clamp_index t.seg_idx (length seg) in
    let j : clamp_index (pos i) (length seg) ≡ i = omega arith in
    let (dist, name, e, a) =
      next_mark_boundary-Answer seg t.cum_s (pos i) t.along_s (omega (arith, l))
        (omega (arith, l, n)) in
    let (m, q, r) =
      tracked-Tracks t i dist name (ap (clamp_index t.seg_idx) l)
        (subst (λ k. Answer seg t.cum_s k t.along_s dist name) j a) in
    let z : is_zero (length seg) ≡ false = ground (arith, l) in
    (m, classify_track-tracked t seg z ∙ ap (tracked t seg i) e ∙ q, r)

classify-track :
    (t : Tick)
    → t.has_path ≡ true
    → t.path_done ≡ false
    → t.point_mode ≡ false
    → classify t ≡ classify_track t (segment_mark_flags t.spray_flags)
unfolding classify
classify-track t p d o = ground arith

-- On a path with a spray flag and a cumulative length for each of its vertices, of which there
-- are at least two, a tick outside point mode is always classified: the phase is a painting one
-- exactly when both vertices of the segment spray, it is APPROACH_MARK or MARK_END exactly when a
-- start or an end of painting lies within the approach distance, and the message gives the
-- distance and the name of the next boundary.
pub classify-Tracks :
    (t : Tick)
    → t.has_path ≡ true
    → t.path_done ≡ false
    → t.point_mode ≡ false
    → 1 < length t.spray_flags
    → length t.cum_s ≡ length t.spray_flags
    → (m : ProgressMsg) × (classify t ≡ some m) × Tracks t m
classify-Tracks t p d o h n =
    let (m, e, r) = classify_track-Tracks t h n in (m, classify-track t p d o ∙ e, r)
