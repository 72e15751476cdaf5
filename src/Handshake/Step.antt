-- ===== src/Handshake/Step.antt =====
-- The sequence numbers of the two nodes stay in step, so that every proof that arrives counts.
use Prim.Native.String.{String}
use px4_dxp.Prelude.{
  ℕ, suc, ◌≡◌, refl, sym, subst, ap, arith, Bool, true, false, not, ◌&&◌, ◌||◌, Option, none, some,
  List, [], ◌∷◌, ℤ, pos, negsuc, leb_ℤ, ◌≤ℤ◌, if-cases, Option-elim,
}
use text.Mathlib.Text.{◌==◌}
use px4_dxp.Placement.Telemetry.{Floats}
use px4_dxp.Session.Json.{Number}
use px4_dxp.Session.Json
use px4_dxp.Channels.{PointDonePayload}
use px4_dxp.Channels.Codec.{message_roundtrips}
use px4_dxp.PointHold.{
  Key, eq_ℤ, is_key, Params, Hold, Input, Outcome, released, rank_of, point_done_cb, advance_cb,
  apply_run, install_mission, point_hold_tick, target_of, target_tick, dwell_tick, settle, release,
  arm, has_elapsed, may_release, handshake_ready, is_proved, dwell_start, is_nil,
}
use px4_dxp.PointHold.Proof.{arm-active}
use px4_dxp.Handshake.{
  Spray, publish_point_done, rebuild_point_meter, milestone_cb, rpp_progress_cb, System, Event,
  completed, advanced, installed, run_begins, ticked, rebuilt, arrived, progressed, deliver, step,
  run_from,
}

-- No sequence number that the hold has seen is above `n`.
abbrev pub Below : {Num : Type 0} → ℕ → Hold Num → Type 0
Below n h = (h.done_seq ≤ℤ pos n) × (h.done_seq_at_arm ≤ℤ pos n)

-- The message that `_publish_point_done` sends.
abbrev proof_of : ℕ → ℕ → PointDonePayload
proof_of i n = record { point_index = pos i; seq = pos n; done = true; reason = "dwell_complete" }

module _ {Num : Type 0} where
  arm-Below : (n : ℕ) (k : Key) (h : Hold Num) → Below n h → Below n (arm k h)
  unfolding arm
  arm-Below n k h b = if-cases (Below n) (is_key k h.active_key) (λ _. b) (λ _. (b.0, b.0))

  may_release-Below :
      (n : ℕ) (c : Params) (now : ℕ) (k : Key) (dwell : ℕ) (h : Hold Num)
      → Below n h
      → Below n (may_release c now k dwell h).0
  unfolding handshake_ready
  may_release-Below n c now k dwell h b =
      let Q : Hold Num × Bool → Type 0 = λ t. Below n t.0 in
      if-cases Q c.handshake_enabled
        (λ _.
          if-cases Q (not (is_proved c now k dwell h)) (λ _. b)
            (λ _.
              if-cases Q (not c.is_manual) (λ _. b)
                (λ _. Option-elim (Below n) h.wait_start (λ _. b) (λ t _. b))))
        (λ _. b)

  target_tick-Below :
      (n : ℕ) (c : Params) (now : ℕ) (stopped : Bool) (k : Option Key) (h : Hold Num)
      → Below n h
      → Below n (target_tick c now stopped k h).0
  unfolding target_tick dwell_tick settle release
  target_tick-Below n c now stopped none h b = b
  target_tick-Below n c now stopped (some k) h b =
      let t = arm k h in
      let bt = arm-Below n k h b in
      let dwell = dwell_start now t in
      let r = may_release c now k dwell (record t { start = some dwell }) in
      let br : Below n r.0 =
        may_release-Below n c now k dwell (record t { start = some dwell }) bt in
      let Q : Hold Num × Outcome → Type 0 = λ u. Below n u.0 in
      if-cases Q stopped (λ _. if-cases Q r.1 (λ _. br) (λ _. br)) (λ _. bt)

module _ (F : Floats) (round_int : F.Num → ℤ) (int_of : String → Option ℤ)
    (float_of : String → Option Number) (str_of : Json.Value → String) where
  deliver-same :
      (m : PointDonePayload) (h : Hold F.Num)
      → deliver F round_int int_of float_of str_of m h ≡ point_done_cb m h
  unfolding deliver
  deliver-same m h =
      ap (λ o. elim o [ none ↦ h | some p ↦ point_done_cb p h ])
        ((message_roundtrips int_of float_of str_of).1.0 m)

  abbrev pub InStep : System F round_int int_of float_of str_of → Type 0
  InStep s = Below s.spray.point_done_seq s.hold

  weaker : (n : ℕ) (h : Hold F.Num) → Below n h → Below (suc n) h
  weaker n h b = (ground (arith, b), ground (arith, b))

  proof_comes-Below :
      (n i : ℕ) (h : Hold F.Num) → Below n h → Below (suc n) (point_done_cb (proof_of i (suc n)) h)
  unfolding point_done_cb
  proof_comes-Below n i h b =
      if-cases (Below (suc n)) (true && leb_ℤ (pos 0) (pos i))
        (λ _. (omega arith, (weaker n h b).1)) (λ _. weaker n h b)

  step-InStep :
      (c : Params) (e : Event F round_int int_of float_of str_of)
      (s : System F round_int int_of float_of str_of)
      → InStep s
      → InStep (step F round_int int_of float_of str_of c e s)
  unfolding step publish_point_done advance_cb install_mission apply_run point_hold_tick
      rebuild_point_meter milestone_cb rpp_progress_cb
  step-InStep c (completed n arrives) s b =
      if-cases (Below (suc s.spray.point_done_seq)) arrives
        (λ _.
          subst (Below (suc s.spray.point_done_seq))
            (sym (deliver-same (proof_of n (suc s.spray.point_done_seq)) s.hold))
            (proof_comes-Below s.spray.point_done_seq n s.hold b))
        (λ _. weaker s.spray.point_done_seq s.hold b)
  step-InStep c (advanced m) s b =
      if-cases (Below s.spray.point_done_seq) m.advance (λ _. b) (λ _. b)
  step-InStep c (installed must run) s b = (b.0, b.0)
  step-InStep c (run_begins run) s b = b
  step-InStep c (ticked i) s b =
      if-cases (λ (t : Hold F.Num × Outcome). Below s.spray.point_done_seq t.0)
        (not c.hold_enabled || is_nil F round_int s.hold.must_hit_keys) (λ _. b)
        (λ _.
          target_tick-Below s.spray.point_done_seq c i.now i.is_stopped
            (target_of F round_int i s.hold) s.hold b)
  step-InStep c (rebuilt p) s b =
      if-cases (λ (x : Spray). Below x.point_done_seq s.hold) p (λ _. b) (λ _. b)
  step-InStep c (arrived m) s b =
      if-cases (λ (x : Spray). Below x.point_done_seq s.hold)
        ((m.event == "AT_POINT") && leb_ℤ (pos 0) m.index) (λ _. b) (λ _. b)
  step-InStep c (progressed now m) s b = b

  pub run_from-InStep :
      (c : Params) (es : List (Event F round_int int_of float_of str_of))
      (s : System F round_int int_of float_of str_of)
      → InStep s
      → InStep (run_from F round_int int_of float_of str_of c s es)
  unfolding run_from
  run_from-InStep c [] s b = b
  run_from-InStep c (e ∷ es) s b =
      run_from-InStep c es (step F round_int int_of float_of str_of c e s) (step-InStep c e s b)

  -- A proof for the point that is being held.
  proof_comes :
      (n i : ℕ) (h : Hold F.Num)
      → point_done_cb (proof_of i n) h ≡ record h { done_index = pos i; done_seq = pos n }
  unfolding point_done_cb
  proof_comes n i h = rw (zero_leb i) refl
    where
      zero_leb : (i : ℕ) → leb_ℤ (pos 0) (pos i) ≡ true
      zero_leb i = ground arith

  proved_tick :
      (c : Params) (now i n : ℕ) (k : Key) (h : Hold F.Num)
      → c.handshake_enabled ≡ true
      → c.is_manual ≡ false
      → h.active_key ≡ some k
      → rank_of k h ≡ pos i
      → h.done_seq_at_arm ≤ℤ pos n
      → (target_tick c now true
          (some k)
          (record h { done_index = pos i; done_seq = pos (suc n) })).1
        ≡ released k
  unfolding target_tick dwell_tick settle handshake_ready is_proved
  proved_tick c now i n k h on auto a r b =
      let t = record h { done_index = pos i; done_seq = pos (suc n) } in
      rw
        (
          arm-active k t a,
          on,
          auto,
          proof_counts h.spray_done (has_elapsed c.hold_max (dwell_start now h) now) i n
              (rank_of k h) h.done_seq_at_arm r b,
        )
        refl
    where
      proof_counts :
          (latch late : Bool) (i n : ℕ) (rank at_arm : ℤ)
          → rank ≡ pos i
          → at_arm ≤ℤ pos n
          → latch || ((eq_ℤ (pos i) rank && not (leb_ℤ (pos (suc n)) at_arm)) || late) ≡ true
      proof_counts latch late i n rank at_arm r b = rw (r) (ground (arith, b))

  -- A tick near the point with the vehicle stopped.
  near_tick :
      (c : Params) (input : Input F.Num) (k : Key) (h : Hold F.Num)
      → not c.hold_enabled || is_nil F round_int h.must_hit_keys ≡ false
      → input.is_stopped ≡ true
      → target_of F round_int input h ≡ some k
      → (target_tick c input.now true (some k) h).1 ≡ released k
      → (point_hold_tick F round_int c input h).1 ≡ released k
  unfolding point_hold_tick
  near_tick c input k h e stopped near r = rw (e, near, stopped) r

  abbrev IsStart : System F round_int int_of float_of str_of → Type 0
  IsStart s = (s.hold.done_seq ≡ negsuc 0) × (s.hold.done_seq_at_arm ≡ negsuc 0)

  -- From the start of the two nodes, over any history of theirs, lost messages, new missions and new
  -- runs included: while a point is being held in automatic mode, a completion that the spray node
  -- publishes for its rank and that arrives is a proof, and the next tick at the point with the
  -- vehicle stopped releases it.
  pub completion-releases :
      (c : Params) (es : List (Event F round_int int_of float_of str_of))
      (s0 : System F round_int int_of float_of str_of) (k : Key) (i : ℕ) (input : Input F.Num)
      → IsStart s0
      → c.hold_enabled ≡ true
      → c.handshake_enabled ≡ true
      → c.is_manual ≡ false
      → let s = run_from F round_int int_of float_of str_of c s0 es in
        s.hold.active_key ≡ some k
        → rank_of k s.hold ≡ pos i
        → is_nil F round_int s.hold.must_hit_keys ≡ false
        → input.is_stopped ≡ true
        → target_of F round_int input s.hold ≡ some k
        → (point_hold_tick F round_int c input
            (step F round_int int_of float_of str_of c (completed i true) s).hold).1
          ≡ released k
  unfolding step publish_point_done point_hold_tick
  completion-releases c es s0 k i input (d, a) hold on auto act rank must stopped near =
      let s = run_from F round_int int_of float_of str_of c s0 es in
      let n = s.spray.point_done_seq in
      let n0 = s0.spray.point_done_seq in
      let below : Below n s.hold =
        run_from-InStep c es s0
          (start_below n0 s0.hold.done_seq d, start_below n0 s0.hold.done_seq_at_arm a) in
      rw (deliver-same (proof_of i (suc n)) s.hold, proof_comes (suc n) i s.hold)
        (near_tick c input k (record s.hold { done_index = pos i; done_seq = pos (suc n) })
          (enabled c.hold_enabled (is_nil F round_int s.hold.must_hit_keys) hold must) stopped near
          (proved_tick c input.now i n k s.hold on auto act rank below.1))
    where
      start_below : (n : ℕ) (z : ℤ) → z ≡ negsuc 0 → z ≤ℤ pos n
      start_below n z e = rw (e) (omega arith)

      enabled : (a b : Bool) → a ≡ true → b ≡ false → not a || b ≡ false
      enabled a b p q = ground (arith, p, q)
