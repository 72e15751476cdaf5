-- ===== src/PointHold/Once.antt =====
-- Every point is held once.
use px4_dxp.Prelude.{
  ◌≡◌, ◌∙◌, Option-elim, refl, sym, subst, ap, arith, Bool, true, false, not, ◌&&◌, ◌||◌, Option,
  none, some, List, [], ◌∷◌, ◌++◌, ℤ, pos, if-cases, Bool-elim, ℕ, append_assoc, append_nil, All,
  leb_ℤ,
}
use mathlib.Core.List.{reverse, reverse-cons}
use px4_dxp.Placement.Telemetry.{Floats}
use px4_dxp.PointHold.{
  Key, has_key, is_key, Params, Hold, Outcome, tracking, braking, dwelling, released, point_done_cb,
  advance_cb, begin_wait, handshake_ready, is_proved, arm, dwell_start, release, may_release,
  dwell_tick, settle, target_tick, pt_key, scan_target, target_of, is_nil, point_hold_tick,
  apply_run, install_mission, Event, point_done, advance, run_begins, ticked, handle, noted,
  run_from,
}

abbrev pub AreDistinct : List Key → Type 0
AreDistinct [] = Unit
AreDistinct (k ∷ ks) = (has_key k ks ≡ false) × AreDistinct ks

abbrev IsMust : List Key → Key → Type 0
IsMust must k = has_key k must ≡ true

-- A point that a tick may hold is a must-hit point that is not done.
abbrev pub IsOpen : List Key → List Key → Option Key → Type 0
IsOpen must done none = Unit
IsOpen must done (some k) = (has_key k must ≡ true) × (has_key k done ≡ false)

module _ (F : Floats) (round_int : F.Num → ℤ) where
  pub scan_target-IsOpen :
      (at : F.Num × F.Num) (must done : List Key) (best : F.Num) (target : Option Key)
      (ps : List (F.Num × F.Num))
      → IsOpen must done target
      → IsOpen must done (scan_target F round_int at must done best target ps)
  unfolding scan_target
  scan_target-IsOpen at must done best target [] h = h
  scan_target-IsOpen at must done best target (p ∷ ps) h =
      let k = pt_key F round_int p in
      let d = F.hypot (F.sub at.0 p.0) (F.sub at.1 p.1) in
      Bool-elim (IsOpen must done) (has_key k must && (not (has_key k done) && F.le d best))
        (λ e. scan_target-IsOpen at must done d (some k) ps (ground (arith, e), ground (arith, e)))
        (λ _. scan_target-IsOpen at must done best target ps h)

-- The keys that are done and the points that are due stay the same, but for a release.
abbrev pub Kept : {Num : Type 0} → Hold Num → Hold Num × Outcome → Type 0
Kept h (t, released k) =
    ((t.must_hit_keys ≡ h.must_hit_keys) × (t.done_keys ≡ k ∷ h.done_keys))
    × ((has_key k h.must_hit_keys ≡ true) × (has_key k h.done_keys ≡ false))
Kept h (t, _) = (t.must_hit_keys ≡ h.must_hit_keys) × (t.done_keys ≡ h.done_keys)

module _ {Num : Type 0} where
  -- Two states with the same due and done points.
  abbrev Alike : Hold Num → Hold Num → Type 0
  Alike h t = (t.must_hit_keys ≡ h.must_hit_keys) × (t.done_keys ≡ h.done_keys)

  arm-Alike : (k : Key) (h : Hold Num) → Alike h (arm k h)
  unfolding arm
  arm-Alike k h = if-cases (Alike h) (is_key k h.active_key) (λ _. (refl, refl)) (λ _. (refl, refl))

  begin_wait-Alike : (now : ℕ) (h : Hold Num) → Alike h (begin_wait now h)
  begin_wait-Alike now h =
      Option-elim (Alike h) h.wait_start (λ _. (refl, refl)) (λ t _. (refl, refl))

  may_release-Alike :
      (c : Params) (now : ℕ) (k : Key) (dwell : ℕ) (h : Hold Num)
      → Alike h (may_release c now k dwell h).0
  unfolding handshake_ready
  may_release-Alike c now k dwell h =
      let Q : Hold Num × Bool → Type 0 = λ t. Alike h t.0 in
      if-cases Q c.handshake_enabled
        (λ _.
          if-cases Q (not (is_proved c now k dwell h)) (λ _. (refl, refl))
            (λ _.
              if-cases Q (not c.is_manual) (λ _. (refl, refl))
                (λ _. begin_wait-Alike now (record h { spray_done = true }))))
        (λ _. (refl, refl))

  dwell_tick-Kept :
      (c : Params) (now : ℕ) (k : Key) (h t : Hold Num)
      → Alike h t
      → IsOpen h.must_hit_keys h.done_keys (some k)
      → Kept h (dwell_tick c now k t)
  unfolding dwell_tick release settle
  dwell_tick-Kept c now k h t (m, d) o =
      let r =
        may_release c now k (dwell_start now t) (record t { start = some (dwell_start now t) }) in
      let (m', d') =
        may_release-Alike c now k (dwell_start now t)
          (record t { start = some (dwell_start now t) }) in
      if-cases (Kept h) r.1 (λ _. ((m' ∙ m, ap (k ∷◌) (d' ∙ d)), o)) (λ _. (m' ∙ m, d' ∙ d))

  target_tick-Kept :
      (c : Params) (now : ℕ) (stopped : Bool) (k : Option Key) (h : Hold Num)
      → IsOpen h.must_hit_keys h.done_keys k
      → Kept h (target_tick c now stopped k h)
  unfolding target_tick
  target_tick-Kept c now stopped none h o = (refl, refl)
  target_tick-Kept c now stopped (some k) h o =
      if-cases (Kept h) stopped (λ _. dwell_tick-Kept c now k h (arm k h) (arm-Alike k h) o)
        (λ _. arm-Alike k h)

abbrev pub Held : List Key → List Key → Type 0
Held must ks = AreDistinct ks × All (IsMust must) ks

-- What a history leaves: the points that it released, the latest first, before those done already.
abbrev pub Leaves : {Num : Type 0} → Hold Num → Hold Num × List Key → Type 0
Leaves h t =
    Held h.must_hit_keys t.0.done_keys
    × ((t.0.done_keys ≡ reverse t.1 ++ h.done_keys) × (t.0.must_hit_keys ≡ h.must_hit_keys))

module _ {Num : Type 0} where
  Kept-Held :
      (h : Hold Num) (s : Hold Num × Outcome)
      → Kept h s
      → Held h.must_hit_keys h.done_keys
      → Held s.0.must_hit_keys s.0.done_keys
  Kept-Held h (t, tracking) (m, d) o = rw (m, d) o
  Kept-Held h (t, braking) (m, d) o = rw (m, d) o
  Kept-Held h (t, dwelling) (m, d) o = rw (m, d) o
  Kept-Held h (t, released k) ((m, d), (i, n)) (o, a) = rw (m, d) ((n, o), (i, a))

  Leaves-step :
      (h : Hold Num) (s : Hold Num × Outcome) (t : Hold Num × List Key)
      → Kept h s
      → Leaves s.0 t
      → Leaves h (t.0, noted s.1 t.1)
  Leaves-step h (u, tracking) t (m, d) l = rw⁻¹ (m, d) l
  Leaves-step h (u, braking) t (m, d) l = rw⁻¹ (m, d) l
  Leaves-step h (u, dwelling) t (m, d) l = rw⁻¹ (m, d) l
  Leaves-step h (u, released k) t ((m, d), o) (held, (e, must)) = (
    subst (λ x. Held x t.0.done_keys) m held,
    (
      e
          ∙ (ap (λ x. reverse t.1 ++ x) d
              ∙ (sym (append_assoc (reverse t.1) (k ∷ []) h.done_keys)
                  ∙ ap (λ x. x ++ h.done_keys) (sym (reverse-cons k t.1)))),
      must ∙ m,
    ),
  )

module _ (F : Floats) (round_int : F.Num → ℤ) where
  handle-Kept :
      (c : Params) (e : Event F round_int) (h : Hold F.Num) → Kept h (handle F round_int c e h)
  unfolding handle point_done_cb advance_cb apply_run point_hold_tick
  handle-Kept c (point_done m) h =
      if-cases (λ t. Kept h (t, tracking)) (m.done && leb_ℤ (pos 0) m.point_index)
        (λ _. (refl, refl)) (λ _. (refl, refl))
  handle-Kept c (advance m) h =
      if-cases (λ t. Kept h (t, tracking)) m.advance (λ _. (refl, refl)) (λ _. (refl, refl))
  handle-Kept c (run_begins run) h = (refl, refl)
  handle-Kept c (ticked i) h =
      if-cases (Kept h) (not c.hold_enabled || is_nil F round_int h.must_hit_keys)
        (λ _. (refl, refl))
        (λ _. target_tick-Kept c i.now i.is_stopped (target_of F round_int i h) h (
          scan_target-IsOpen F round_int i.position h.must_hit_keys h.done_keys i.trigger none
            h.path tt))

  run_from-Leaves :
      (c : Params) (h : Hold F.Num) (es : List (Event F round_int))
      → Held h.must_hit_keys h.done_keys
      → Leaves h (run_from F round_int c h es)
  unfolding run_from
  run_from-Leaves c h [] o = (o, (refl, refl))
  run_from-Leaves c h (e ∷ es) o =
      let s = handle F round_int c e h in
      let kept = handle-Kept c e h in
      Leaves-step h s (run_from F round_int c s.0 es) kept
        (run_from-Leaves c s.0 es (Kept-Held h s kept o))

  -- Behind the start of a mission each must-hit point is released at most once, nothing else is
  -- released, and the points that are done are those that were released.
  pub run-holds_once :
      (c : Params) (must : List Key) (run : List (F.Num × F.Num)) (h : Hold F.Num)
      (es : List (Event F round_int))
      → let t = run_from F round_int c (install_mission F round_int must run h) es in
        Held must (reverse t.1) × (t.0.done_keys ≡ reverse t.1)
  unfolding install_mission apply_run
  run-holds_once c must run h es =
      let t = run_from F round_int c (install_mission F round_int must run h) es in
      let (held, (e, m)) = run_from-Leaves c (install_mission F round_int must run h) es (tt, tt) in
      let done = e ∙ append_nil (reverse t.1) in (subst (Held must) done held, done)
