-- ===== src/Offboard/Arming.antt =====
-- What a start asks of the vehicle, and the state it leaves.
use px4_dxp.Prelude.{
  ◌≡◌, ◌≢◌, ap, sym, ◌∙◌, length-map, refl, arith, ◌⊎◌, Bool, true, false, not, ◌&&◌, Option, none,
  some, List, [], ◌∷◌, length, if-cases, Bool-cases, Option-cases, inl, inr, if◌then◌else◌,
}
use px4_dxp.Manual.Arbiter.{MissionState, entry, running, error}
use px4_dxp.Emergency.{accepted}
use px4_dxp.Placement.Telemetry.{Floats, Telemetry, Limits}
use px4_dxp.Placement.Resolve.{Refusal, Placed, placed, resolve_surveyed_points}
use px4_dxp.Placement.Frame.{placed_inj, length-resolve_surveyed_points}
use px4_dxp.Offboard.Controller.{
  PlacementMode, local_ned, gps_surveyed, MissionPath, Controller, Command, publish_path, arm,
  set_mode_offboard, without_entry,
}
use px4_dxp.Offboard.Entry.{EntryConfig}
use px4_dxp.Offboard.Launch.{
  Outcome, entering, driving, failed, no_pose, Started, Answers, fail, switch, launch,
  publish_and_go, nonempty, entry_start, is_unhealthy, is_rpp_idle, all_off, is_surveyed,
}
use px4_dxp.Offboard.Start.{
  place_and_go, start_locked, is_active, is_busy, with_offset, placed_points, pose_origin,
}

-- The last arming request of a list of commands, if it has one.
abbrev pub last_arm : {P : Type 0} → List (Command P) → Option Bool
last_arm [] = none
last_arm (arm b ∷ cs) = elim (last_arm cs) [ none ↦ some b | some x ↦ some x ]
last_arm (_ ∷ cs) = last_arm cs

-- Whether a start succeeded.
abbrev pub is_started : Outcome → Bool
is_started entering = true
is_started driving = true
is_started _ = false

Placed-cases :
    {A : Type 0} (p : Placed A)
    → ((r : Refusal) × (p ≡ Placed.refused r)) ⊎ ((x : A) × (p ≡ placed x))
Placed-cases (placed x) = inr (x, refl)
Placed-cases (Placed.refused r) = inl (r, refl)

module _ (F : Floats) (auto : Bool) (l : Limits F.Num) (g : EntryConfig F) (a : Answers F)
    (c : Controller (F.Num × F.Num)) where
  -- A property of every way in which a start ends: a refusal that asks nothing of the node and
  -- leaves the state or writes ERROR, or the launch with a vehicle that is connected and a path
  -- follower that is healthy.
  with_offset-cases :
      (Q : Started (F.Num × F.Num) → Type 0)
      → (Q (fail F error [] (failed no_pose) c))
      → (ps : List (F.Num × F.Num))
      → ((qs : List (F.Num × F.Num)) → length qs ≡ length ps → Q (publish_and_go F g a qs c))
      → Q (with_offset F auto l g a ps c)
  with_offset-cases Q f ps h = elim (Bool-cases (not (is_surveyed c.placement_mode) && auto)) [
    | inr e ↦ rw (with_offset, e) (h ps refl)
    | inl e ↦ elim (Option-cases (pose_origin F l a.pose)) [
      | inl q ↦ rw (with_offset, e, q) f
      | inr (o, q) ↦ rw (with_offset, e, q) (h _ (length-map _ ps))
    ]
  ]

  -- The placement keeps the number of points.
  placed_points-length :
      (ps qs : List (F.Num × F.Num))
      → placed_points F l a.fcu ps c ≡ placed qs
      → length qs ≡ length ps
  unfolding placed_points
  placed_points-length ps qs e = elim (Bool-cases (is_surveyed c.placement_mode)) [
    | inr m ↦ ap length (sym (placed_inj (sym (rw m) ∙ e)))
    | inl m ↦ elim (Placed-cases (resolve_surveyed_points F l ps c.origin_gps a.fcu)) [
      | inl (r, q) ↦ absurd (ground arith)
      | inr ((rs, t), q) ↦
          ap length (sym (placed_inj (sym (rw (m, q)) ∙ e)))
          ∙ length-resolve_surveyed_points F l ps c.origin_gps a.fcu rs t q
    ]
  ]

  place_and_go-cases :
      (Q : Started (F.Num × F.Num) → Type 0)
      → ((s : MissionState) (o : Outcome)
          → (s ≡ c.state) ⊎ (s ≡ error)
          → is_started o ≡ false
          → Q (fail F s [] o c))
      → (ps : List (F.Num × F.Num))
      → (a.fcu.connected ≡ true
          → is_unhealthy a.fcu.rpp_state ≡ false
          → (qs : List (F.Num × F.Num)) → length qs ≡ length ps
          → Q (publish_and_go F g a qs c))
      → Q (place_and_go F auto l g a ps c)
  unfolding place_and_go
  place_and_go-cases Q f ps h =
      if-cases Q (is_surveyed c.placement_mode && auto) (λ _. f _ _ (inl refl) refl)
        (λ _.
          if-cases Q (not a.fcu.connected) (λ _. f _ _ (inr refl) refl)
            (λ n. elim (Placed-cases (placed_points F l a.fcu ps c)) [
              | inl (r, q) ↦ rw q (f _ _ (inr refl) refl)
              | inr (qs, q) ↦ rw q (
                  if-cases Q (is_unhealthy a.fcu.rpp_state) (λ _. f _ _ (inr refl) refl)
                    (λ u.
                      with_offset-cases Q (f _ _ (inr refl) refl) qs
                        (λ rs e. h (ground arith) u rs (e ∙ placed_points-length ps qs q))))
            ]))

  pub start_locked-cases :
      (node : Bool) (Q : Started (F.Num × F.Num) → Type 0)
      → ((s : MissionState) (o : Outcome)
          → (s ≡ c.state) ⊎ (s ≡ error)
          → is_started o ≡ false
          → Q (fail F s [] o c))
      → (is_active c.state ≡ false
          → is_busy c.state ≡ false
          → a.fcu.connected ≡ true
          → is_unhealthy a.fcu.rpp_state ≡ false
          → (ps qs : List (F.Num × F.Num)) → nonempty c.loaded_pts ≡ some ps
          → length qs ≡ length ps
          → Q (publish_and_go F g a qs c))
      → Q (start_locked F node auto l g a c)
  unfolding start_locked
  start_locked-cases node Q f h =
      if-cases Q (not node) (λ _. f _ _ (inl refl) refl)
        (λ _.
          if-cases Q (is_active c.state) (λ _. f _ _ (inl refl) refl)
            (λ x.
              if-cases Q (is_busy c.state) (λ _. f _ _ (inl refl) refl)
                (λ b. elim (Option-cases (nonempty c.loaded_pts)) [
                  | inl p ↦ rw p (f _ _ (inr refl) refl)
                  | inr (ps, p) ↦ rw p (place_and_go-cases Q f ps (λ n u qs e. h x b n u ps qs p e))
                ])))

  pub entry_start-nonempty :
      (m : PlacementMode) (t : Telemetry F.Num) (ps : List (F.Num × F.Num)) (live : F.Num × F.Num)
      → entry_start F m t ps ≡ some live
      → nonempty (some ps) ≡ some ps
  entry_start-nonempty local_ned t ps live e = absurd (ground arith)
  entry_start-nonempty gps_surveyed t [] live e = absurd (ground arith)
  entry_start-nonempty gps_surveyed t (p ∷ ps) live e = refl

  -- Behind an arming that was accepted, a start that fails has asked for the disarm last.
  abbrev Disarms : Started (F.Num × F.Num) → Type 0
  Disarms r =
      is_started r.outcome ≡ false
      → (last_arm r.commands ≢ some true)
        × ((r.controller.state ≡ c.state) ⊎ (r.controller.state ≡ error))

  launch-Disarms :
      (t : Bool) (p : MissionPath (F.Num × F.Num)) (d : Controller (F.Num × F.Num))
      → a.arm ≡ accepted
      → Disarms (launch F a t p d)
  unfolding launch switch
  launch-Disarms t p d e f = (λ x. ground arith, inr (ground arith))

  publish_and_go-Disarms :
      a.arm ≡ accepted → (ps : List (F.Num × F.Num)) → Disarms (publish_and_go F g a ps c)
  unfolding publish_and_go
  publish_and_go-Disarms e ps = elim (Option-cases (entry_start F c.placement_mode a.fcu ps)) [
    | inl q ↦ rw (publish_and_go, q) (launch-Disarms false _ _ e)
    | inr (live, q) ↦ rw (publish_and_go, q) (launch-Disarms true _ _ e)
  ]

  -- A start that fails never leaves the vehicle with an arming request as the last one, when the
  -- node has accepted the arming; and it leaves the state as it was, or ERROR.
  pub start_locked-disarms :
      (node : Bool)
      → a.arm ≡ accepted
      → is_started (start_locked F node auto l g a c).outcome ≡ false
      → (last_arm (start_locked F node auto l g a c).commands ≢ some true)
        × (((start_locked F node auto l g a c).controller.state ≡ c.state)
            ⊎ ((start_locked F node auto l g a c).controller.state ≡ error))
  start_locked-disarms node e =
      start_locked-cases node Disarms (λ s o q n _. (ground arith, q))
        (λ _ _ _ _ _ qs _ _. publish_and_go-Disarms e qs)

  -- What a start that succeeds has done.
  pub record IsLaunched (r : Started (F.Num × F.Num)) : Type 0 where
    pub path : MissionPath (F.Num × F.Num)
    pub commands : r.commands ≡ publish_path path ∷ arm true ∷ set_mode_offboard ∷ []
    pub connected : a.fcu.connected ≡ true
    pub before : is_unhealthy a.fcu.rpp_state ≡ false
    pub behind :
        (is_unhealthy a.after_grace.rpp_state ≡ false)
        × (is_rpp_idle a.after_grace.rpp_state ≡ false)
    pub phase :
        ((r.controller.state ≡ running) × (r.controller.entry_marking_pts ≡ none))
        ⊎ ((r.controller.state ≡ entry)
            × ((path.spray_flags ≡ some (all_off path.points))
                × ((ps : List (F.Num × F.Num)) × (nonempty r.controller.entry_marking_pts
                      ≡ some ps))))

  launch-IsLaunched :
      (t : Bool) (p : MissionPath (F.Num × F.Num)) (d : Controller (F.Num × F.Num))
      → is_started (launch F a t p d).outcome ≡ true
      → ((launch F a t p d).commands ≡ publish_path p ∷ arm true ∷ set_mode_offboard ∷ [])
        × (((is_unhealthy a.after_grace.rpp_state ≡ false)
              × (is_rpp_idle a.after_grace.rpp_state ≡ false))
            × (((launch F a t p d).controller.state ≡ (if t then entry else running))
                × (((launch F a t p d).controller.entry_marking_pts ≡ d.entry_marking_pts))))
  unfolding launch switch
  launch-IsLaunched t p d e = ground arith

  publish_and_go-IsLaunched :
      a.fcu.connected ≡ true
      → is_unhealthy a.fcu.rpp_state ≡ false
      → (ps : List (F.Num × F.Num)) → is_started (publish_and_go F g a ps c).outcome ≡ true
      → IsLaunched (publish_and_go F g a ps c)
  unfolding publish_and_go
  publish_and_go-IsLaunched n u ps = elim (Option-cases (entry_start F c.placement_mode a.fcu ps)) [
    | inl q ↦
        rw (publish_and_go, q)
          (λ e.
            let p : MissionPath (F.Num × F.Num) = record {
              points = ps;
              spray_flags = c.loaded_spray_flags;
              must_hit = c.loaded_must_hit;
            } in
            let d = launch-IsLaunched false p (without_entry c) e in
            record {
              path = p;
              commands = d.0;
              connected = n;
              before = u;
              behind = d.1.0;
              phase = inl d.1.1;
            })
    | inr (live, q) ↦
        rw (publish_and_go, q)
          (λ e.
            let d = launch-IsLaunched true _ _ e in
            record {
              path = _;
              commands = d.0;
              connected = n;
              before = u;
              behind = d.1.0;
              phase = inr (
                d.1.1.0,
                (
                  refl,
                  (ps, ap nonempty d.1.1.1 ∙ entry_start-nonempty c.placement_mode a.fcu ps live q),
                ),
              );
            })
  ]

  -- A start that succeeds was made with the vehicle connected and the path follower healthy before
  -- and behind the grace, and not idle then; it has published a path, then armed, then asked for
  -- OFFBOARD. Either the mission runs, with no path kept for later, or the vehicle enters: the path
  -- that is published has the spray off at each point, and a path that is not empty is kept.
  pub start_locked-IsLaunched :
      (node : Bool)
      → is_started (start_locked F node auto l g a c).outcome ≡ true
      → IsLaunched (start_locked F node auto l g a c)
  start_locked-IsLaunched node =
      start_locked-cases node (λ r. is_started r.outcome ≡ true → IsLaunched r)
        (λ s o q n e. absurd (ground arith)) (λ _ _ n u _ qs _ _. publish_and_go-IsLaunched n u qs)
