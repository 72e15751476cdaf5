-- ===== src/PointHold/Proof.antt =====
-- What a hold waits for: the proof of the spray node, and in manual mode the operator.
use px4_dxp.Prelude.{
  ℕ, ◌≡◌, refl, sym, subst, ap, ◌∙◌, arith, Bool, true, false, not, ◌&&◌, ◌||◌, none, some, List,
  [], ◌∷◌, ℤ, pos, leb_ℤ, if◌then◌else◌, if-cases, All,
}
use px4_dxp.Placement.Telemetry.{Floats}
use px4_dxp.Channels.{PointDonePayload, AdvancePayload}
use px4_dxp.PointHold.{
  Key, eq_ℤ, is_key, Params, Hold, Outcome, braking, dwelling, rank_of, point_done_cb, advance_cb,
  is_fresh, has_elapsed, is_proved, handshake_ready, arm, dwell_start, may_release, dwell_tick,
  settle, target_tick, Input, target_of, is_nil, point_hold_tick, Event, point_done, advance,
  run_begins, ticked, handle, noted, run_from,
}

eq_ℤ-refl : (z : ℤ) → eq_ℤ z z ≡ true
eq_ℤ-refl z = ground arith

is_key_refl : (k : Key) → is_key k (some k) ≡ true
is_key_refl k = rw (eq_ℤ-refl k.0, eq_ℤ-refl k.1) refl

module _ {Num : Type 0} where
  -- The hold at a point goes on: nothing that it stands on has changed.
  pub record Stays (k : Key) (since : ℕ) (h0 h : Hold Num) : Type 0 where
    pub path : h.path ≡ h0.path
    pub must : h.must_hit_keys ≡ h0.must_hit_keys
    pub done : h.done_keys ≡ h0.done_keys
    pub ranks : h.rank_by_key ≡ h0.rank_by_key
    pub active : h.active_key ≡ some k
    pub start : h.start ≡ some since

  -- It waits for the proof.
  pub record IsUnproved (k : Key) (since : ℕ) (h0 h : Hold Num) : Type 0 where
    pub stays : Stays k since h0 h
    pub unlatched : h.spray_done ≡ false
    pub at_arm : h.done_seq_at_arm ≡ h0.done_seq_at_arm
    pub stale : is_fresh k h ≡ false

  -- A message of the spray node that is no proof for the point, with a sequence number that is not
  -- above the one at the arming, or for another point.
  abbrev pub no_proof : Key → Hold Num → PointDonePayload → Bool
  no_proof k h m = not (eq_ℤ m.point_index (rank_of k h) && not (leb_ℤ m.seq h.done_seq_at_arm))

  pub arm-active : (k : Key) (h : Hold Num) → h.active_key ≡ some k → arm k h ≡ h
  unfolding arm
  arm-active k h e =
      if-cases (λ t. t ≡ h) (is_key k h.active_key) (λ _. refl)
        (λ n. absurd (differ (sym n ∙ (ap (is_key k) e ∙ is_key_refl k))))
    where
      differ : ¬ (false ≡ true)
      differ q = ground arith

  dwell_start-some :
      (now since : ℕ) (h : Hold Num) → h.start ≡ some since → dwell_start now h ≡ since
  dwell_start-some now since h e = ap (λ o. elim o [ none ↦ now | some t ↦ t ]) e

  -- A tick at the point that is not let go.
  abbrev pub KeptHere : (Hold Num → Type 0) → Hold Num × Outcome → Type 0
  KeptHere P s = P s.0 × ((ks : List Key) → noted s.1 ks ≡ ks)

  not-proved :
      (c : Params) (now : ℕ) (k : Key) (since : ℕ) (h : Hold Num)
      → h.spray_done ≡ false
      → is_fresh k h ≡ false
      → has_elapsed c.hold_max since now ≡ false
      → is_proved c now k since h ≡ false
  unfolding is_proved
  not-proved c now k since h a b e = rw (a, b, e) refl

  -- A dwell whose release is refused goes on.
  refused_dwell :
      (c : Params) (now : ℕ) (k : Key) (since : ℕ) (h t : Hold Num)
      → h.start ≡ some since
      → may_release c now k since (record h { start = some since }) ≡ (t, false)
      → dwell_tick c now k h ≡ (t, dwelling)
  unfolding dwell_tick settle
  refused_dwell c now k since h t e r =
      ap (λ d. settle k (may_release c now k d (record h { start = some d })))
        (dwell_start-some now since h e)
      ∙ ap (settle k) r

  may_release-refused :
      (c : Params) (now : ℕ) (k : Key) (since : ℕ) (h : Hold Num)
      → c.handshake_enabled ≡ true
      → is_proved c now k since h ≡ false
      → may_release c now k since h ≡ (h, false)
  unfolding handshake_ready
  may_release-refused c now k since h on e = rw (on, e) refl

  -- A tick at a point that is being held, by what the dwell does.
  held_tick :
      (c : Params) (now : ℕ) (stopped : Bool) (k : Key) (h : Hold Num) (P : Hold Num → Type 0)
      → h.active_key ≡ some k
      → P h
      → KeptHere P (dwell_tick c now k h)
      → KeptHere P (target_tick c now stopped (some k) h)
  unfolding target_tick
  held_tick c now stopped k h P e p d =
      subst (λ x. KeptHere P (if stopped then dwell_tick c now k x else (x, braking)))
        (sym (arm-active k h e)) (if-cases (KeptHere P) stopped (λ _. d) (λ _. (p, λ ks. refl)))

  target_tick-IsUnproved :
      (c : Params) (now : ℕ) (stopped : Bool) (k : Key) (since : ℕ) (h0 h : Hold Num)
      → c.handshake_enabled ≡ true
      → IsUnproved k since h0 h
      → has_elapsed c.hold_max since now ≡ false
      → KeptHere (IsUnproved k since h0) (target_tick c now stopped (some k) h)
  unfolding is_proved
  target_tick-IsUnproved c now stopped k since h0 h on u e =
      let t = record h { start = some since } in
      let same : dwell_tick c now k h ≡ (t, dwelling) =
        refused_dwell c now k since h t u.stays.start (
          may_release-refused c now k since t on
            (not-proved c now k since h u.unlatched u.stale e)) in
      held_tick c now stopped k h (IsUnproved k since h0) u.stays.active u (
        subst (KeptHere (IsUnproved k since h0)) (sym same) (
          record {
            stays = record {
              path = u.stays.path;
              must = u.stays.must;
              done = u.stays.done;
              ranks = u.stays.ranks;
              active = u.stays.active;
              start = refl;
            };
            unlatched = u.unlatched;
            at_arm = u.at_arm;
            stale = u.stale;
          },
          λ ks. refl,
        ))

  done_message :
      (k : Key) (since : ℕ) (h0 h : Hold Num) (m : PointDonePayload)
      → IsUnproved k since h0 h
      → no_proof k h0 m ≡ true
      → IsUnproved k since h0 (point_done_cb m h)
  unfolding point_done_cb
  done_message k since h0 h m u n =
      if-cases (IsUnproved k since h0) (m.done && leb_ℤ (pos 0) m.point_index)
        (λ _. record {
          stays = record {
            path = u.stays.path;
            must = u.stays.must;
            done = u.stays.done;
            ranks = u.stays.ranks;
            active = u.stays.active;
            start = u.stays.start;
          };
          unlatched = u.unlatched;
          at_arm = u.at_arm;
          stale = not_fresh k h0 h m u.stays.ranks u.at_arm n;
        })
        (λ _. u)
    where
      not_fresh :
          (k : Key) (h0 h : Hold Num) (m : PointDonePayload)
          → h.rank_by_key ≡ h0.rank_by_key
          → h.done_seq_at_arm ≡ h0.done_seq_at_arm
          → no_proof k h0 m ≡ true
          → eq_ℤ m.point_index (rank_of k h) && not (leb_ℤ m.seq h.done_seq_at_arm) ≡ false
      not_fresh k h0 h m r a n = rw (r, a) (ground (arith, n))

  advance_message :
      (k : Key) (since : ℕ) (h0 h : Hold Num) (m : AdvancePayload)
      → IsUnproved k since h0 h
      → IsUnproved k since h0 (advance_cb m h)
  unfolding advance_cb
  advance_message k since h0 h m u =
      if-cases (IsUnproved k since h0) m.advance
        (λ _. record {
          stays = record {
            path = u.stays.path;
            must = u.stays.must;
            done = u.stays.done;
            ranks = u.stays.ranks;
            active = u.stays.active;
            start = u.stays.start;
          };
          unlatched = u.unlatched;
          at_arm = u.at_arm;
          stale = u.stale;
        })
        (λ _. u)

module _ (F : Floats) (round_int : F.Num → ℤ) where
  target-same :
      (i : Input F.Num) (k : Key) (since : ℕ) (h0 h : Hold F.Num)
      → Stays k since h0 h
      → target_of F round_int i h ≡ target_of F round_int i h0
  target-same i k since h0 h s = rw (s.path, s.must, s.done) refl

  -- What does not end the wait: other messages, and ticks near the point before the backstop.
  abbrev pub IsQuiet : Params → Key → ℕ → Hold F.Num → Event F round_int → Type 0
  IsQuiet c k since h0 (point_done m) = no_proof k h0 m ≡ true
  IsQuiet c k since h0 (advance m) = Unit
  IsQuiet c k since h0 (run_begins run) = ⊥
  IsQuiet c k since h0 (ticked i) =
      (target_of F round_int i h0 ≡ some k) × (has_elapsed c.hold_max since i.now ≡ false)

  quiet_step :
      (c : Params) (k : Key) (since : ℕ) (h0 h : Hold F.Num) (e : Event F round_int)
      → c.handshake_enabled ≡ true
      → IsUnproved k since h0 h
      → IsQuiet c k since h0 e
      → KeptHere (IsUnproved k since h0) (handle F round_int c e h)
  unfolding handle point_hold_tick
  quiet_step c k since h0 h (point_done m) on u q = (done_message k since h0 h m u q, λ ks. refl)
  quiet_step c k since h0 h (advance m) on u q = (advance_message k since h0 h m u, λ ks. refl)
  quiet_step c k since h0 h (run_begins run) on u q = absurd q
  quiet_step c k since h0 h (ticked i) on u (near, e) =
      if-cases (KeptHere (IsUnproved k since h0))
        (not c.hold_enabled || is_nil F round_int h.must_hit_keys) (λ _. (u, λ ks. refl))
        (λ _.
          subst (λ t. KeptHere (IsUnproved k since h0) (target_tick c i.now i.is_stopped t h))
            (sym (target-same i k since h0 h u.stays ∙ near))
            (target_tick-IsUnproved c i.now i.is_stopped k since h0 h on u e))

  run_from-IsUnproved :
      (c : Params) (k : Key) (since : ℕ) (h0 h : Hold F.Num) (es : List (Event F round_int))
      → c.handshake_enabled ≡ true
      → IsUnproved k since h0 h
      → All (IsQuiet c k since h0) es
      → let t = run_from F round_int c h es in (t.1 ≡ []) × IsUnproved k since h0 t.0
  unfolding run_from
  run_from-IsUnproved c k since h0 h [] on u q = (refl, u)
  run_from-IsUnproved c k since h0 h (e ∷ es) on u (q, qs) =
      let (v, n) = quiet_step c k since h0 h e on u q in
      let (r, w) = run_from-IsUnproved c k since h0 (handle F round_int c e h).0 es on v qs in
      (n _ ∙ r, w)

  -- With the handshake a point that is being held is not released without the proof of the spray
  -- node: no messages but one for its rank with a sequence number above that at the arming, and no
  -- ticks near it before the backstop, let it go. Messages with a sequence number that is not above,
  -- such as those of a spray node that was started again, are no proof; without a backstop the hold
  -- then never ends.
  pub run-waits :
      (c : Params) (k : Key) (since : ℕ) (h : Hold F.Num) (es : List (Event F round_int))
      → c.handshake_enabled ≡ true
      → h.active_key ≡ some k
      → h.start ≡ some since
      → h.spray_done ≡ false
      → is_fresh k h ≡ false
      → All (IsQuiet c k since h) es
      → ((run_from F round_int c h es).1 ≡ [])
        × ((run_from F round_int c h es).0.active_key ≡ some k)
  run-waits c k since h es on a s d f q =
      let u : IsUnproved k since h h = record {
        stays = record {
          path = refl;
          must = refl;
          done = refl;
          ranks = refl;
          active = a;
          start = s;
        };
        unlatched = d;
        at_arm = refl;
        stale = f;
      } in
      let (r, w) = run_from-IsUnproved c k since h h es on u q in (r, w.stays.active)
