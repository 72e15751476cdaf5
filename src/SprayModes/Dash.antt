-- ===== src/SprayModes/Dash.antt =====
-- src/spray_modes.py, `DashMeter`: the on and off pattern along the path. Lengths are whole
-- nanometres (the source's `_EPS` is one), times nanoseconds, speeds nanometres per second and the
-- jump factor thousandths; the product of the last three is rounded down to a nanometre.
pub mod Pattern
pub mod Tracking
mod Tests
use px4_dxp.Prelude.{
  ℕ, zero, suc, ◌+◌, ◌-◌, ◌*◌, ◌/◌, ◌^◌, Bool, true, false, not, ◌&&◌, Option, none, some, ℤ,
  pos_part, ltb, leb, if◌then◌else◌, is_none,
}
use Prim.Native.Nat.{min, max}

pub data DashPhase : Type 0 where
  on off : DashPhase

pub record Config : Type 0 where
  pub on_distance : ℕ
  pub off_distance : ℕ
  pub jump_tolerance_factor : ℕ
  pub jump_reject_accept_after : ℕ

pub record Dash : Type 0 where
  pub phase : DashPhase
  pub anchor : Option ℕ
  pub armed : Bool
  pub s_dash : ℕ
  pub s_at_last_toggle : ℕ
  pub reject_count : ℕ
  pub reject_ref : Option ℕ

pub record DashUpdate : Type 0 where
  pub geometry_desired : Bool
  pub armed : Bool
  pub phase : DashPhase
  pub s_dash : ℕ
  pub s_at_last_toggle : ℕ
  pub jump_rejected : Bool
  pub recovered : Bool

abbrev pub eps : ℕ
eps = 1

-- `__init__`; a distance that is not positive is refused, and no start state but these two can
-- be given.
unfoldable pub create : ℤ → ℤ → DashPhase → ℤ → ℤ → Option ℕ → Option (Config × Dash)
create on_d off_d start factor after anchor =
    if ltb 0 (pos_part on_d) && ltb 0 (pos_part off_d)
    then some (
      record {
        on_distance = pos_part on_d;
        off_distance = pos_part off_d;
        jump_tolerance_factor = max 1000 (pos_part factor);
        jump_reject_accept_after = max 1 (pos_part after);
      },
      record {
        phase = start;
        anchor = anchor;
        armed = false;
        s_dash = 0;
        s_at_last_toggle = 0;
        reject_count = 0;
        reject_ref = none;
      },
    )
    else none

unfoldable pub set_anchor_s : Option ℕ → Dash → Dash
set_anchor_s a d = record d { anchor = a }

abbrev pub is_on : DashPhase → Bool
is_on on = true
is_on off = false

abbrev pub flipped : DashPhase → DashPhase
flipped on = off
flipped off = on

-- `_target`
unfoldable pub target : Config → DashPhase → ℕ
target c on = c.on_distance
target c off = c.off_distance

pub record DashInput : Type 0 where
  pub raw_s : ℕ
  pub speed : ℤ
  pub dt : ℤ
  pub xtrack_ok : Bool
  pub on_lead : ℤ
  pub off_lead : ℤ

unfoldable pub max_step : Config → DashInput → ℕ
max_step c i = pos_part i.speed * pos_part i.dt * c.jump_tolerance_factor / 10 ^ 12

abbrev pub or_raw : Option ℕ → ℕ → ℕ
or_raw none raw = raw
or_raw (some a) raw = a

arm : ℕ → Dash → Dash
arm raw d = record d {
  armed = true;
  s_dash = raw;
  s_at_last_toggle = or_raw d.anchor raw;
  reject_count = 0;
  reject_ref = none;
}

-- `abs(a - b) <= step + _EPS` for a reference that is set
agrees : Option ℕ → ℕ → ℕ → Bool
agrees none raw step = false
agrees (some r) raw step = leb raw (r + (step + eps)) && leb r (raw + (step + eps))

pub note_reject : ℕ → ℕ → Dash → Dash
unfolding agrees
note_reject raw step d =
    if agrees d.reject_ref raw step
    then record d { reject_count = d.reject_count + 1 }
    else record d { reject_ref = some raw; reject_count = 1 }

-- A tick of an armed meter: the meter, and whether the tick was rejected and whether recovered.
pub record Tracked : Type 0 where
  pub meter : Dash
  pub jump_rejected : Bool
  pub recovered : Bool

pub relocate : Config → ℕ → Dash → Tracked
relocate c raw d =
    if leb c.jump_reject_accept_after d.reject_count
    then record {
      meter = record d {
        s_dash = raw;
        s_at_last_toggle = raw;
        reject_count = 0;
        reject_ref = none;
      };
      jump_rejected = false;
      recovered = true;
    }
    else record { meter = d; jump_rejected = true; recovered = false }

-- `-_EPS <= raw - s_dash <= step + _EPS`
unfoldable pub in_step : ℕ → ℕ → ℕ → Bool
in_step raw s step = leb s (raw + eps) && leb raw (s + (step + eps))

unfoldable pub track : Config → ℕ → ℕ → Dash → Tracked
unfolding in_step note_reject relocate
track c raw step d =
    if in_step raw d.s_dash step
    then record {
      meter = record d { s_dash = raw; reject_count = 0; reject_ref = none };
      jump_rejected = false;
      recovered = false;
    }
    else relocate c raw (note_reject raw step d)

-- The lead of the coming flip, kept between zero and the phase's length.
lead : Config → DashInput → DashPhase → ℕ
unfolding target
lead c i on = min (pos_part i.off_lead) (target c on)
lead c i off = min (pos_part i.on_lead) (target c off)

-- `s_dash >= next_toggle - lead - _EPS`
unfoldable pub crosses : Config → DashInput → Dash → Bool
unfolding lead
crosses c i d = leb (d.s_at_last_toggle + target c d.phase) (d.s_dash + (lead c i d.phase + eps))

unfoldable pub flip : Config → Dash → Dash
flip c d = record d {
  phase = flipped d.phase;
  s_at_last_toggle = d.s_at_last_toggle + target c d.phase;
}

-- `while self.armed`, for a meter that is armed, with the flips that the guard still allows.
unfoldable pub toggles : ℕ → Config → DashInput → Dash → Dash
toggles zero c i d = d
toggles (suc k) c i d = elim (crosses c i d) [ true ↦ toggles k c i (flip c d) | false ↦ d ]

-- The guard breaks the loop behind the flip that brings it above 10000.
abbrev pub max_flips : ℕ
max_flips = 10001

report : Tracked → Dash → Dash × DashUpdate
report t d = (
  d,
  record {
    geometry_desired = d.armed && is_on d.phase;
    armed = d.armed;
    phase = d.phase;
    s_dash = d.s_dash;
    s_at_last_toggle = d.s_at_last_toggle;
    jump_rejected = t.jump_rejected;
    recovered = t.recovered;
  },
)

idle : Dash → Dash × DashUpdate
idle d = (
  d,
  record {
    geometry_desired = false;
    armed = false;
    phase = d.phase;
    s_dash = d.s_dash;
    s_at_last_toggle = d.s_at_last_toggle;
    jump_rejected = false;
    recovered = false;
  },
)

unfoldable pub move : Config → DashInput → Dash → Tracked
unfolding arm
move c i d =
    if d.armed
    then track c i.raw_s (max_step c i) d
    else record { meter = arm i.raw_s d; jump_rejected = false; recovered = false }

unfoldable pub update : Config → DashInput → Dash → Dash × DashUpdate
unfolding report idle
update c i d =
    if not d.armed && not i.xtrack_ok
    then idle d
    else report (move c i d) (toggles max_flips c i (move c i d).meter)
