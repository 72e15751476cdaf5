-- ===== src/SprayModes/Point/Loop.antt =====
-- src/spray_modes.py, the loop of `PointMeter.update`, over the answers that the pose gives.
use px4_dxp.Prelude.{
  ℕ, zero, suc, ◌+◌, Bool, true, false, Option, none, some, List, [], ◌∷◌, ◌++◌, ltb, leb,
  if◌then◌else◌,
}

pub data PointPhase : Type 0 where
  transit arriving holding dwelling off_wait finished : PointPhase

pub record Meter : Type 0 where
  pub target_index : ℕ
  pub phase : PointPhase
  pub done : Bool
  pub skipped_indices : List ℕ
  pub settle_start : Option ℕ
  pub dwell_start : Option ℕ
  pub transit_start : Option ℕ

pub record Limits : Type 0 where
  pub num_points : ℕ
  pub arrival_settle : ℕ
  pub dwell : ℕ
  pub timeout : ℕ

pub record Tick : Type 0 where
  pub now : ℕ
  pub off_confirmed : Bool
  pub arrive : ℕ → Bool

-- The state of the loop: the meter, and the two indices that this call reports.
pub record Pass : Type 0 where
  pub meter : Meter
  pub skipped : Option ℕ
  pub completed : Option ℕ

abbrev pub enter : Meter → Pass
enter m = record { meter = m; skipped = none; completed = none }

-- `__init__`
unfoldable pub start : ℕ → Meter
start n = record {
  target_index = 0;
  phase = if leb n 0 then finished else transit;
  done = leb n 0;
  skipped_indices = [];
  settle_start = none;
  dwell_start = none;
  transit_start = none;
}

-- `now - t >= d` and `now - t > d` for a stamp that is set.
abbrev pub elapsed : Option ℕ → ℕ → ℕ → Bool
elapsed none d now = false
elapsed (some t) d now = leb (t + d) now

abbrev pub past : Option ℕ → ℕ → ℕ → Bool
past none d now = false
past (some t) d now = ltb (t + d) now

abbrev pub or_now : Option ℕ → ℕ → Option ℕ
or_now none now = some now
or_now (some t) now = some t

abbrev pub wants_spray : PointPhase → Bool
wants_spray holding = true
wants_spray dwelling = true
wants_spray _ = false

advance : ℕ → Meter → Meter
advance n m = record m {
  target_index = m.target_index + 1;
  settle_start = none;
  dwell_start = none;
  transit_start = none;
  phase = if leb n (m.target_index + 1) then finished else transit;
  done = if leb n (m.target_index + 1) then true else m.done;
}

-- A round ends with `continue` (true) or with `break` (false).
abbrev pub Round : Type 0
Round = Bool × Pass

-- The watchdog of `transit` and of `arriving`.
skip_if_late : Limits → Tick → Meter → Pass → Round
unfolding advance
skip_if_late p t m l =
    if past m.transit_start p.timeout t.now
    then (
      true,
      record l {
        meter =
            advance p.num_points
              (record m { skipped_indices = m.skipped_indices ++ m.target_index ∷ [] });
        skipped = some m.target_index;
      },
    )
    else (false, record l { meter = m })

settle : Limits → Tick → Meter → Pass → Round
settle p t m l =
    if elapsed m.settle_start p.arrival_settle t.now
    then (true, record l { meter = record m { phase = holding } })
    else (false, record l { meter = m })

-- One round, by the phase; `m` has its transit stamp.
in_phase : PointPhase → Limits → Tick → Meter → Pass → Round
unfolding skip_if_late settle advance
in_phase transit p t m l =
    if t.arrive m.target_index
    then (true, record l { meter = record m { phase = arriving; settle_start = some t.now } })
    else skip_if_late p t m l
in_phase arriving p t m l =
    if t.arrive m.target_index
    then settle p t (record m { settle_start = or_now m.settle_start t.now }) l
    else skip_if_late p t (record m { settle_start = none }) l
in_phase holding p t m l =
    (true, record l { meter = record m { dwell_start = some t.now; phase = dwelling } })
in_phase dwelling p t m l =
    if elapsed m.dwell_start p.dwell t.now
    then (true, record l { meter = record m { phase = off_wait } })
    else (false, record l { meter = m })
in_phase off_wait p t m l =
    if t.off_confirmed
    then (true, record l { meter = advance p.num_points m; completed = some m.target_index })
    else (false, record l { meter = m })
in_phase finished p t m l = (false, record l { meter = m })

stamped : Tick → Meter → Meter
stamped t m = record m { transit_start = or_now m.transit_start t.now }

unfoldable pub body : Limits → Tick → Pass → Round
unfolding in_phase stamped
body p t l = in_phase l.meter.phase p t (stamped t l.meter) l

-- `for _ in range(fuel)`, with the test of `done` at the head of each round.
unfoldable pub rounds : ℕ → Limits → Tick → Pass → Pass
rounds zero p t l = l
rounds (suc k) p t l =
    let r = body p t l in
    let rest = rounds k p t r.1 in if l.meter.done then l else if r.0 then rest else r.1
