-- ===== src/Placement/Resolve.antt =====
-- server/mission_placement.py: the gates of placing a surveyed mission, and the translation.
use px4_dxp.Prelude.{
  ℤ, pos, Bool, true, false, not, ◌&&◌, ◌||◌, Option, none, some, List, [], ◌∷◌, leb_ℤ,
  if◌then◌else◌,
}
use px4_dxp.Placement.Telemetry.{Floats, Telemetry, Limits}
use px4_dxp.Placement.Ned.{latlon_to_ned}
use px4_dxp.Placement.Health.{
  Status, no_origin, OriginHealth, in_bounds, finite_both, evaluate_origin_health,
}

-- The messages of PlacementError.
pub data Refusal : Type 0 where
  anchor_invalid anchor_bounds disconnected no_pose no_global_position no_fix : Refusal
  stale_pose stale_global_position stale_fix skewed fix_invalid below_rtk_fixed : Refusal
  origin_untrusted translation_not_finite local_position_invalid : Refusal
  global_position_invalid global_position_bounds waypoint_invalid : Refusal

pub data Placed (A : Type 0) : Type 0 where
  placed : A → Placed A
  refused : Refusal → Placed A

infixl 5 ◌>>=◌ ◌>>◌
abbrev pub ◌>>=◌ : {A B : Type 0} → Placed A → (A → Placed B) → Placed B
placed a >>= f = f a
refused r >>= f = refused r

abbrev pub ◌>>◌ : {B : Type 0} → Placed (Unit {0}) → Placed B → Placed B
m >> k = m >>= λ _. k

abbrev pub require : Bool → Refusal → Placed (Unit {0})
require true r = placed tt
require false r = refused r

abbrev pub from_option : {A : Type 0} → Option A → Refusal → Placed A
from_option none r = refused r
from_option (some a) r = placed a

abbrev pub is_ok : Status → Bool
is_ok Status.ok = true
is_ok _ = false

abbrev pub is_no_origin : Status → Bool
is_no_origin no_origin = true
is_no_origin _ = false

-- `int(state.get("gps_fix"))`, RTK_FIXED being 6.
abbrev pub fix_gate : Option ℤ → Placed (Unit {0})
fix_gate none = refused fix_invalid
fix_gate (some z) = require (leb_ℤ (pos 6) z) below_rtk_fixed

module _ (F : Floats) where
  -- `_finite_pair`
  abbrev pub finite_pair : Option F.Num → Option F.Num → Refusal → Placed (F.Num × F.Num)
  finite_pair a b r = from_option (finite_both F a b) r

  -- `_fresh_age`, and the test of the skew, which is the same.
  abbrev pub fresh_age : Option F.Num → F.Num → Refusal → Placed (Unit {0})
  fresh_age none limit r = refused r
  fresh_age (some age) limit r =
      require (not (not (F.is_finite age) || (F.lt age (F.lit (pos 0) 0) || F.lt limit age))) r

  abbrev pub translate : F.Num × F.Num → F.Num × F.Num → F.Num × F.Num
  translate t p = (F.add p.0 t.0, F.add p.1 t.1)

  abbrev pub finite_point : F.Num × F.Num → Bool
  finite_point p = F.is_finite p.0 && F.is_finite p.1

  -- `_apply_translation`, on the points.
  unfoldable pub apply_translation :
      List (F.Num × F.Num) → F.Num × F.Num → Placed (List (F.Num × F.Num))
  apply_translation [] t = placed []
  apply_translation (p ∷ ps) t = do
    require (finite_point p) waypoint_invalid
    require (finite_point (translate t p)) waypoint_invalid
    rest ← apply_translation ps t
    placed (translate t p ∷ rest)

  -- The tests of the telemetry up to the fix.
  unfoldable pub gates : Limits F.Num → Telemetry F.Num → Placed (Unit {0})
  gates l s = do
    require s.connected disconnected
    require s.pose_received no_pose
    require s.global_position_received no_global_position
    require s.gps_fix_received no_fix
    fresh_age s.local_pose_age l.pose_stale stale_pose
    fresh_age s.global_position_age l.global_position_stale stale_global_position
    fresh_age s.gps_fix_age l.gps_fix_stale stale_fix
    fresh_age s.pose_global_skew l.max_skew skewed
    fix_gate s.gps_fix

  -- The translation through the declared origin.
  abbrev pub declared_translation : F.Num × F.Num → F.Num × F.Num → Placed (F.Num × F.Num)
  declared_translation anchor origin = do
    let t = latlon_to_ned F anchor.0 anchor.1 origin.0 origin.1
    require (finite_point t) translation_not_finite
    placed t

  -- The translation from one live pair of positions.
  abbrev pub live_translation : Telemetry F.Num → F.Num × F.Num → Placed (F.Num × F.Num)
  live_translation s anchor = do
    local ← finite_pair s.pos_n s.pos_e local_position_invalid
    global ← finite_pair s.lat s.lon global_position_invalid
    require (in_bounds F global.0 global.1) global_position_bounds
    let r = latlon_to_ned F global.0 global.1 anchor.0 anchor.1
    let t : F.Num × F.Num = (F.sub local.0 r.0, F.sub local.1 r.1)
    require (finite_point t) translation_not_finite
    placed t

  abbrev pub untrusted_translation :
      Limits F.Num → Telemetry F.Num → F.Num × F.Num → Status → Placed (F.Num × F.Num)
  untrusted_translation l s anchor status = do
    require (not (not (is_no_origin status) || l.require_declared)) origin_untrusted
    live_translation s anchor

  -- A verdict of OK always comes with the origin.
  unfoldable pub translation_for :
      Limits F.Num → Telemetry F.Num → F.Num × F.Num → OriginHealth F.Num → Placed (F.Num × F.Num)
  translation_for l s anchor h =
      if is_ok h.status
      then (from_option h.declared origin_untrusted >>= λ origin.
          declared_translation anchor origin)
      else untrusted_translation l s anchor h.status

  unfoldable pub resolve_surveyed_points :
      Limits F.Num
      → List (F.Num × F.Num)
      → Option (F.Num × F.Num)
      → Telemetry F.Num
      → Placed (List (F.Num × F.Num) × (F.Num × F.Num))
  resolve_surveyed_points l source origin_gps s = do
    raw ← from_option origin_gps anchor_invalid
    anchor ← finite_pair (some raw.0) (some raw.1) anchor_invalid
    require (in_bounds F anchor.0 anchor.1) anchor_bounds
    gates l s
    t ← translation_for l s anchor (evaluate_origin_health F l s)
    points ← apply_translation source t
    placed (points, t)
