-- ===== src/PointHold.antt =====
-- src/rpp_controller_node.py: the hold at each must-hit point, and the handshake with the spray node
-- that ends it. Times are nanoseconds of the node's clock. The path, the position and the trigger
-- distance of a tick are floats; whether the stop at the point is confirmed (by the corner stop or by
-- the precise stop) is an input, as is what these publish while they brake. The messages are those
-- of Channels, as their readers give them.
pub mod Once
pub mod Proof
mod Tests
use px4_dxp.Prelude.{
  ℕ, suc, ◌+◌, Bool, true, false, not, ◌&&◌, ◌||◌, Option, none, some, List, [], ◌∷◌, ◌++◌, ℤ, pos,
  negsuc, leb_ℤ, ltb, leb, ◌==◌, if◌then◌else◌,
}
use px4_dxp.Placement.Telemetry.{Floats}
use px4_dxp.Channels.{PointDonePayload, AdvancePayload}

abbrev pub eq_ℤ : ℤ → ℤ → Bool
eq_ℤ (pos a) (pos b) = a == b
eq_ℤ (negsuc a) (negsuc b) = a == b
eq_ℤ _ _ = false

-- A point on the grid of millimetres.
abbrev pub Key : Type 0
Key = ℤ × ℤ

abbrev pub key_eq : Key → Key → Bool
key_eq a b = eq_ℤ a.0 b.0 && eq_ℤ a.1 b.1

abbrev pub has_key : Key → List Key → Bool
has_key k [] = false
has_key k (j ∷ js) = key_eq j k || has_key k js

abbrev pub is_key : Key → Option Key → Bool
is_key k none = false
is_key k (some j) = key_eq j k

pub record Params : Type 0 where
  pub hold_enabled : Bool
  pub handshake_enabled : Bool
  pub is_manual : Bool
  pub hold_time : ℕ
  pub hold_max : ℕ
  pub manual_wait_timeout : ℕ

-- The attributes of the node that the hold reads or writes.
pub record Hold (Num : Type 0) : Type 0 where
  pub path : List (Num × Num)
  pub must_hit_keys : List Key
  pub rank_by_key : List (Key × ℕ)
  pub done_keys : List Key
  pub active_key : Option Key
  pub start : Option ℕ
  pub done_index : ℤ
  pub done_seq : ℤ
  pub done_seq_at_arm : ℤ
  pub spray_done : Bool
  pub wait_start : Option ℕ
  pub advance_index : ℤ
  pub advance_count : ℕ
  pub advance_count_at_wait : ℕ

-- `_musthit_rank_by_key.get(key, -1)`: of two entries of a key the later one counts.
abbrev pub rank_from : ℤ → Key → List (Key × ℕ) → ℤ
rank_from r k [] = r
rank_from r k (e ∷ es) = rank_from (if key_eq e.0 k then pos e.1 else r) k es

-- A time-out of zero never comes.
abbrev pub has_elapsed : ℕ → ℕ → ℕ → Bool
has_elapsed limit since now = ltb 0 limit && leb (since + limit) now

-- What a tick does: normal tracking, braking, dwelling, or the release of a point.
pub data Outcome : Type 0 where
  tracking braking dwelling : Outcome
  released : Key → Outcome

abbrev pub noted : Outcome → List Key → List Key
noted (released k) ks = k ∷ ks
noted _ ks = ks

module _ {Num : Type 0} where
  abbrev pub rank_of : Key → Hold Num → ℤ
  rank_of k h = rank_from (negsuc 0) k h.rank_by_key

  -- `_point_done_cb`
  unfoldable pub point_done_cb : PointDonePayload → Hold Num → Hold Num
  point_done_cb m h =
      if m.done && leb_ℤ (pos 0) m.point_index
      then record h { done_index = m.point_index; done_seq = m.seq }
      else h

  -- `_advance_cb`
  unfoldable pub advance_cb : AdvancePayload → Hold Num → Hold Num
  advance_cb m h =
      if m.advance
      then record h { advance_index = m.expect_index; advance_count = suc h.advance_count }
      else h

  -- `_point_handshake_ready`: the first phase, with what it answers of the proof.
  abbrev pub is_fresh : Key → Hold Num → Bool
  is_fresh k h = eq_ℤ h.done_index (rank_of k h) && not (leb_ℤ h.done_seq h.done_seq_at_arm)

  unfoldable pub is_proved : Params → ℕ → Key → ℕ → Hold Num → Bool
  is_proved c now k dwell h = h.spray_done || (is_fresh k h || has_elapsed c.hold_max dwell now)

  -- The second phase, once the wait for the operator has begun.
  abbrev pub begin_wait : ℕ → Hold Num → Hold Num
  begin_wait now h = elim h.wait_start [
    | some t ↦ h
    | none ↦ record h { wait_start = some now; advance_count_at_wait = h.advance_count }
  ]

  abbrev pub waited : Params → ℕ → Hold Num → Bool
  waited c now h = elim h.wait_start [
    | none ↦ false
    | some t ↦ has_elapsed c.manual_wait_timeout t now
  ]

  abbrev pub is_advanced : Key → Hold Num → Bool
  is_advanced k h =
      ltb h.advance_count_at_wait h.advance_count && eq_ℤ h.advance_index (rank_of k h)

  unfoldable pub handshake_ready : Params → ℕ → Key → ℕ → Hold Num → Hold Num × Bool
  unfolding is_proved
  handshake_ready c now k dwell h =
      let proved = record h { spray_done = true } in
      let waiting = begin_wait now proved in
      if not (is_proved c now k dwell h)
      then (h, false)
      else if not c.is_manual
      then (proved, true)
      else (waiting, is_advanced k waiting || waited c now waiting)

  -- Entering a hold at a new point.
  unfoldable pub arm : Key → Hold Num → Hold Num
  arm k h = if is_key k h.active_key then h else record h {
    active_key = some k;
    start = none;
    done_seq_at_arm = h.done_seq;
    spray_done = false;
    wait_start = none;
  }

  abbrev pub dwell_start : ℕ → Hold Num → ℕ
  dwell_start now h = elim h.start [ none ↦ now | some t ↦ t ]

  unfoldable pub release : Key → Hold Num → Hold Num
  release k h = record h {
    done_keys = k ∷ h.done_keys;
    active_key = none;
    start = none;
    wait_start = none;
  }

  abbrev pub may_release : Params → ℕ → Key → ℕ → Hold Num → Hold Num × Bool
  may_release c now k dwell h =
      if c.handshake_enabled
      then handshake_ready c now k dwell h
      else (h, leb (dwell + c.hold_time) now)

  -- The end of the dwell, or its next tick.
  unfoldable pub settle : Key → Hold Num × Bool → Hold Num × Outcome
  unfolding release
  settle k r = if r.1 then (release k r.0, released k) else (r.0, dwelling)

  unfoldable pub dwell_tick : Params → ℕ → Key → Hold Num → Hold Num × Outcome
  unfolding handshake_ready settle
  dwell_tick c now k h =
      let dwell = dwell_start now h in
      settle k (may_release c now k dwell (record h { start = some dwell }))

  -- `_point_hold_tick` behind the scan for a target.
  unfoldable pub target_tick : Params → ℕ → Bool → Option Key → Hold Num → Hold Num × Outcome
  unfolding arm dwell_tick
  target_tick c now stopped none h = (record h { active_key = none; start = none }, tracking)
  target_tick c now stopped (some k) h =
      if stopped then dwell_tick c now k (arm k h) else (arm k h, braking)

pub record Input (Num : Type 0) : Type 0 where
  pub now : ℕ
  pub position : Num × Num
  pub trigger : Num
  pub is_stopped : Bool

-- `round_int` is `int(round(x))` of a float.
module _ (F : Floats) (round_int : F.Num → ℤ) where
  -- `_pt_key`
  abbrev pub pt_key : F.Num × F.Num → Key
  pt_key p =
      (round_int (F.mul p.0 (F.lit (pos 1_000) 0)), round_int (F.mul p.1 (F.lit (pos 1_000) 0)))

  -- The nearest point within the trigger distance that is still to be held.
  unfoldable pub scan_target :
      F.Num × F.Num → List Key → List Key → F.Num → Option Key → List (F.Num × F.Num) → Option Key
  scan_target at must done best target [] = target
  scan_target at must done best target (p ∷ ps) =
      let d = F.hypot (F.sub at.0 p.0) (F.sub at.1 p.1) in
      elim (has_key (pt_key p) must && (not (has_key (pt_key p) done) && F.le d best)) [
        | true ↦ scan_target at must done d (some (pt_key p)) ps
        | false ↦ scan_target at must done best target ps
      ]

  abbrev pub target_of : Input F.Num → Hold F.Num → Option Key
  target_of i h = scan_target i.position h.must_hit_keys h.done_keys i.trigger none h.path

  abbrev pub is_nil : List Key → Bool
  is_nil [] = true
  is_nil (k ∷ ks) = false

  -- `_point_hold_tick`
  unfoldable pub point_hold_tick : Params → Input F.Num → Hold F.Num → Hold F.Num × Outcome
  unfolding target_tick scan_target
  point_hold_tick c i h =
      if not c.hold_enabled || is_nil h.must_hit_keys
      then (h, tracking)
      else target_tick c i.now i.is_stopped (target_of i h) h

  -- The ranks of the must-hit points of a run, from `_apply_run`.
  unfoldable pub ranks_from : ℕ → List Key → List (F.Num × F.Num) → List (Key × ℕ)
  ranks_from n must [] = []
  ranks_from n must (p ∷ ps) = elim (has_key (pt_key p) must) [
    | true ↦ (pt_key p, n) ∷ ranks_from (suc n) must ps
    | false ↦ ranks_from n must ps
  ]

  -- `_apply_run` and `_install_mission`, of these attributes.
  unfoldable pub apply_run : List (F.Num × F.Num) → Hold F.Num → Hold F.Num
  unfolding ranks_from
  apply_run run h = record h { path = run; rank_by_key = ranks_from 0 h.must_hit_keys run }

  unfoldable pub install_mission : List Key → List (F.Num × F.Num) → Hold F.Num → Hold F.Num
  unfolding apply_run
  install_mission must run h = apply_run run (record h {
    must_hit_keys = must;
    done_keys = [];
    active_key = none;
    start = none;
    spray_done = false;
    wait_start = none;
    done_seq_at_arm = h.done_seq;
    advance_count_at_wait = h.advance_count;
  })

  pub data Event : Type 0 where
    point_done : PointDonePayload → Event
    advance : AdvancePayload → Event
    run_begins : List (F.Num × F.Num) → Event
    ticked : Input F.Num → Event

  unfoldable pub handle : Params → Event → Hold F.Num → Hold F.Num × Outcome
  unfolding point_done_cb advance_cb apply_run point_hold_tick
  handle c (point_done m) h = (point_done_cb m h, tracking)
  handle c (advance m) h = (advance_cb m h, tracking)
  handle c (run_begins run) h = (apply_run run h, tracking)
  handle c (ticked i) h = point_hold_tick c i h

  -- A history, with the points that were released in their order.
  unfoldable pub run_from : Params → Hold F.Num → List Event → Hold F.Num × List Key
  unfolding handle
  run_from c h [] = (h, [])
  run_from c h (e ∷ es) = let s = handle c e h in let t = run_from c s.0 es in (t.0, noted s.1 t.1)
