-- ===== src/Manual/Gateway/Encoding.antt =====
-- The MANUAL_CONTROL frame that a stick position is encoded to.
use px4_dxp.Prelude.{
  ℕ, zero, suc, ◌+◌, ◌-◌, ◌*◌, ◌≤◌, ◌<◌, ◌≡◌, ◌↔◌, ◌⊎◌, refl, some, ℤ, pos, negsuc, neg, abs, arith,
  ap, ◌∙◌, sym,
}
use Prim.Native.Nat.{min}
use native.Mathlib.Decide.{dec_le}
use px4_dxp.Manual.Gateway.{
  finite, Frame, full, neutral_frame, clamp, round_div, thousandths, thrust, encode,
}

abs-neg : (m : ℕ) → abs (neg m) ≡ m
abs-neg zero = refl
abs-neg (suc m) = refl

pub abs-clamp : (m : ℕ) (z : ℤ) → abs (clamp m z) ≤ m
unfolding clamp
abs-clamp m (pos n) = omega arith
abs-clamp m (negsuc n) = ground (arith, abs-neg m)

abs-clamp_le : (m : ℕ) (z : ℤ) → abs (clamp m z) ≤ abs z
unfolding clamp
abs-clamp_le m (pos n) = omega arith
abs-clamp_le m (negsuc n) = ground (arith, abs-neg m)

-- At most half a step is lost.
round_1000-le : (n : ℕ) → 2000 * round_div n 1000 ≤ 2 * n + 1000
unfolding round_div
round_1000-le n = ground arith

round_2000-le : (n : ℕ) → 4000 * round_div n 2000 ≤ 2 * n + 2000
unfolding round_div
round_2000-le n = ground arith

round_2000-ge : (n : ℕ) → 2 * n ≤ 4000 * round_div n 2000 + 2000
unfolding round_div
round_2000-ge n = ground arith

thousandths-le : (s : ℤ) → 2000 * abs (thousandths s) ≤ 2 * abs s + 1000
unfolding thousandths
thousandths-le (pos n) = round_1000-le n
thousandths-le (negsuc n) = omega (arith, round_1000-le (suc n), abs-neg (round_div (suc n) 1000))

thrust_bounds :
    (t : ℤ)
    → (4000 * thrust t ≤ 2 * (full + abs t) + 2000) × (2 * (full - abs t) ≤ 4000 * thrust t + 2000)
unfolding thrust
thrust_bounds (pos n) = omega (arith, round_2000-le (n + full), round_2000-ge (n + full))
thrust_bounds (negsuc n) = omega (arith, round_2000-le (full - suc n), round_2000-ge (full - suc n))

-- Stick positions of at most `mt` and `ms` millionths give a steering field of at most `ms`
-- thousandths and a thrust field of at most half of `mt` thousandths from 500, each up to half a
-- step of rounding; the fields stay inside the ranges of the protocol, and the rest are zero.
pub encode_bounds :
    (t s : ℤ) (mt ms : ℕ) {f : Frame}
    → abs t ≤ mt
    → abs s ≤ ms
    → encode (finite t) (finite s) ≡ some f
    → (2000 * abs f.y ≤ 2 * ms + 1000)
      × (4000 * f.z ≤ 2 * (full + mt) + 2000)
      × (2 * (full - mt) ≤ 4000 * f.z + 2000)
      × (abs f.y ≤ 1000)
      × (f.z ≤ 1000)
      × (f.x ≡ pos 0)
      × (f.r ≡ pos 0)
unfolding encode
encode_bounds t s mt ms ht hs e = ground (
  arith,
  abs-clamp_le full t,
  abs-clamp full t,
  abs-clamp_le full s,
  thousandths-le (clamp full s),
  thrust_bounds (clamp full t),
  abs-clamp_le 1000 (thousandths (clamp full s)),
  abs-clamp 1000 (thousandths (clamp full s)),
)

abs-clamp-eq : (m : ℕ) (z : ℤ) → abs (clamp m z) ≡ min (abs z) m
unfolding clamp
abs-clamp-eq m (pos n) = refl
abs-clamp-eq m (negsuc n) = ground (arith, abs-neg m)

abs-thousandths : (s : ℤ) → abs (thousandths s) ≡ round_div (abs s) 1000
unfolding thousandths
abs-thousandths (pos n) = refl
abs-thousandths (negsuc n) = abs-neg (round_div (suc n) 1000)

round_1000-zero_iff : (n : ℕ) → (round_div n 1000 ≡ 0) ↔ (n ≤ 500)
unfolding round_div
round_1000-zero_iff n = ground arith

eq_zero : (z : ℤ) → abs z ≡ 0 → z ≡ pos 0
eq_zero (pos n) e = ap pos e
eq_zero (negsuc n) e = absurd (omega arith)

steering_zero_iff : (s : ℤ) → (clamp 1000 (thousandths (clamp full s)) ≡ pos 0) ↔ (abs s ≤ 500)
steering_zero_iff s = (
  λ e. small ((round_1000-zero_iff (min (abs s) full)).0 (none_of_min _ (sym exact ∙ ap abs e))),
  λ h. eq_zero _ (exact ∙ min_of_none _ ((round_1000-zero_iff (min (abs s) full)).1 (omega arith))),
)
  where
    small : min (abs s) full ≤ 500 → abs s ≤ 500
    small h = omega arith

    none_of_min : (n : ℕ) → min n 1000 ≡ 0 → n ≡ 0
    none_of_min n h = omega arith

    min_of_none : (n : ℕ) → n ≡ 0 → min n 1000 ≡ 0
    min_of_none n h = omega arith

    exact :
        abs (clamp 1000 (thousandths (clamp full s))) ≡ min (round_div (min (abs s) full) 1000) 1000
    exact = rw (
      abs-clamp-eq 1000 (thousandths (clamp full s)),
      abs-thousandths (clamp full s),
      abs-clamp-eq full s,
    )

thrust_cut : (t : ℤ) → abs t ≤ full → clamp full t ≡ t
unfolding clamp
thrust_cut (pos n) h = ap pos (omega arith)
thrust_cut (negsuc n) h = ground arith

thrust_zero_iff : (t : ℤ) → abs t ≤ full → (thrust t ≡ 500) ↔ (abs t ≤ 1000)
unfolding thrust round_div
thrust_zero_iff (pos n) h = ground arith
thrust_zero_iff (negsuc n) h = ground arith

-- Past full deflection the thrust is at an end of its range.
thrust_far :
    (t : ℤ)
    → full < abs t
    → (min (thrust (clamp full t)) 1000 ≡ 1000) ⊎ (min (thrust (clamp full t)) 1000 ≡ 0)
unfolding thrust clamp round_div
thrust_far (pos n) h = ground arith
thrust_far (negsuc n) h = ground (arith)

throttle_zero_iff : (t : ℤ) → (min (thrust (clamp full t)) 1000 ≡ 500) ↔ (abs t ≤ 1000)
throttle_zero_iff t = elim (dec_le (abs t) full) [
  | yes p ↦ rw (thrust_cut t p) (ground (arith, thrust_zero_iff t p))
  | no p ↦ ground (arith, thrust_far t)
]

-- The frame is the neutral frame exactly when the throttle is within a thousandth and the
-- steering within half a thousandth of the centre.
pub encode_neutral_iff :
    (t s : ℤ)
    → (encode (finite t) (finite s) ≡ some neutral_frame) ↔ ((abs t ≤ 1000) × (abs s ≤ 500))
unfolding encode
encode_neutral_iff t s = ground (arith, throttle_zero_iff t, steering_zero_iff s)

-- Finite positions are always encoded.
pub encode_finite : (t s : ℤ) → (f : Frame) × (encode (finite t) (finite s) ≡ some f)
unfolding encode
encode_finite t s = (_, refl)
