-- ===== src/Offboard/Life.antt =====
-- Sequences of calls of the controller: what holds between them.
use px4_dxp.Prelude.{
  ◌≡◌, refl, ap, sym, ◌∙◌, ◌⊎◌, Bool, true, false, Option, none, some, List, [], ◌∷◌, length, All,
  All-append, if-cases, Option-elim, inl, inr,
}
use px4_dxp.Manual.Arbiter.{MissionState, entry, running, aborted, error}
use px4_dxp.Placement.Telemetry.{Floats, Limits}
use px4_dxp.Offboard.Controller.{MissionPath, Controller, Command, set_mode_offboard}
use px4_dxp.Offboard.Entry.{EntryConfig}
use px4_dxp.Offboard.Launch.{
  is_unhealthy, is_rpp_idle, Reason, rpp_unhealthy, rpp_idle, offboard_failed, Started, Answers,
  fail_armed, switch, launch, publish_and_go, nonempty, entry_start,
}
use px4_dxp.Offboard.Events.{
  Event, load, clear, start, stop, abort, disarm, complete, advance, emergency, step, run,
}
use px4_dxp.Offboard.Leg.{length-all_off}
use px4_dxp.Offboard.Arming.{start_locked-cases}
use px4_dxp.Offboard.Keeps.{
  Fits, PathFits, CommandFits, is_settled, IsWell, Answer-elim, load-Keeps, clear-Keeps, stop-Keeps,
  abort-Keeps, disarm-Keeps, complete-Keeps, advance-Keeps, Fits-nonempty, with_state, Keeps,
}

module _ (F : Floats) (l : Limits F.Num) (g : EntryConfig F) where
  -- What a start leaves.
  abbrev Starts : Started (F.Num × F.Num) → Type 0
  Starts r = IsWell r.controller × All CommandFits r.commands

  fail_armed-Starts :
      (a : Answers F) (cmds : List (Command (F.Num × F.Num))) (r : Reason)
      (c : Controller (F.Num × F.Num))
      → All CommandFits cmds
      → IsWell c
      → Starts (fail_armed F a cmds r c)
  fail_armed-Starts a cmds r c h w =
      if-cases Starts a.disarm_raises
        (λ _. (with_state F l g error c refl w, All-append CommandFits cmds _ h (tt, (tt, tt))))
        (λ _. (with_state F l g error c refl w, All-append CommandFits cmds _ h (tt, tt)))

  switch-Starts :
      (a : Answers F) (t : Bool) (cmds : List (Command (F.Num × F.Num)))
      (c : Controller (F.Num × F.Num))
      → All CommandFits cmds
      → IsWell c
      → Starts (switch F a t cmds c)
  unfolding switch
  switch-Starts a t cmds c h w =
      let asked = All-append CommandFits cmds (set_mode_offboard ∷ []) h (tt, tt) in
      if-cases Starts (is_unhealthy a.after_grace.rpp_state)
        (λ _. fail_armed-Starts a cmds rpp_unhealthy c h w)
        (λ _.
          if-cases Starts (is_rpp_idle a.after_grace.rpp_state)
            (λ _. fail_armed-Starts a cmds rpp_idle c h w)
            (λ _.
              Answer-elim Starts a.set_mode
                (if-cases Starts t (λ _. (with_state F l g entry c refl w, asked))
                  (λ _. (with_state F l g running c refl w, asked)))
                (fail_armed-Starts a _ offboard_failed c asked w)
                (with_state F l g error c refl w, All-append CommandFits _ _ asked (tt, tt))))

  -- A launch changes the state only, and publishes the path that it is given.
  launch-Starts :
      (a : Answers F) (t : Bool) (p : MissionPath (F.Num × F.Num)) (c : Controller (F.Num × F.Num))
      → PathFits p
      → IsWell c
      → Starts (launch F a t p c)
  unfolding launch
  launch-Starts a t p c f w =
      if-cases Starts a.publish_raises (λ _. (with_state F l g error c refl w, (f, tt)))
        (λ _.
          Answer-elim Starts a.arm (switch-Starts a t _ c (f, (tt, tt)) w)
            (with_state F l g error c refl w, (f, (tt, tt)))
            (with_state F l g error c refl w, (f, (tt, tt))))

  Fits-length :
      {P : Type 0} (ps qs : List P) (fs : Option (List Bool))
      → length qs ≡ length ps
      → Fits (some ps) fs
      → Fits (some qs) fs
  Fits-length ps qs none e h = tt
  Fits-length ps qs (some fs) e h = h ∙ sym e

  Fits-flags :
      {P : Type 0} (ps : List P) (fs : Option (List Bool))
      → Fits (some ps) fs
      → Fits (some ps) (nonempty fs)
  Fits-flags ps none h = tt
  Fits-flags ps (some []) h = tt
  Fits-flags ps (some (f ∷ fs)) h = h

  publish_and_go-Starts :
      (a : Answers F) (c : Controller (F.Num × F.Num)) (ps qs : List (F.Num × F.Num))
      → IsWell c
      → nonempty c.loaded_pts ≡ some ps
      → length qs ≡ length ps
      → Starts (publish_and_go F g a qs c)
  unfolding publish_and_go
  publish_and_go-Starts a c ps qs w e n =
      let spray = Fits-length ps qs c.loaded_spray_flags n (Fits-nonempty F l g _ _ ps e w.spray) in
      let must_hit =
        Fits-length ps qs c.loaded_must_hit n (Fits-nonempty F l g _ _ ps e w.must_hit) in
      Option-elim Starts (entry_start F c.placement_mode a.fcu qs)
        (λ _.
          launch-Starts a false _ _ (spray, must_hit)
            (record {
              settled = w.settled;
              spray = w.spray;
              must_hit = w.must_hit;
              entry_spray = tt;
              entry_must_hit = tt;
            }))
        (λ live _.
          launch-Starts a true _ _ (length-all_off _, length-all_off _)
            (record {
              settled = w.settled;
              spray = w.spray;
              must_hit = w.must_hit;
              entry_spray = Fits-flags qs c.loaded_spray_flags spray;
              entry_must_hit = Fits-flags qs c.loaded_must_hit must_hit;
            }))

  start-Keeps :
      (n auto : Bool) (a : Answers F) (c : Controller (F.Num × F.Num))
      → IsWell c
      → Keeps F l g (step F l g (start n auto a) c)
  unfolding step
  start-Keeps n auto a c w =
      start_locked-cases F auto l g a c n Starts
        (λ s o q _. (with_state F l g s c (settled_or s q) w, tt))
        (λ _ _ _ _ ps qs e m. publish_and_go-Starts a c ps qs w e m)
    where
      settled_or : (s : MissionState) → (s ≡ c.state) ⊎ (s ≡ error) → is_settled s ≡ true
      settled_or s (inl e) = ap is_settled e ∙ w.settled
      settled_or s (inr e) = ap is_settled e

  step-Keeps :
      (e : Event F) (c : Controller (F.Num × F.Num)) → IsWell c → Keeps F l g (step F l g e c)
  unfolding step
  step-Keeps (load f r) c w = load-Keeps F l g f r c w
  step-Keeps clear c w = clear-Keeps F l g c w
  step-Keeps (start n auto a) c w = start-Keeps n auto a c w
  step-Keeps (stop n p v) c w = stop-Keeps F l g n p v c w
  step-Keeps (abort n p m d v) c w = abort-Keeps F l g n p m d v c w
  step-Keeps (disarm n a) c w = disarm-Keeps F l g n a c w
  step-Keeps complete c w = complete-Keeps F l g c w
  step-Keeps (advance n p) c w = advance-Keeps F l g n p c w
  step-Keeps emergency c w = (with_state F l g aborted c refl w, (tt, (tt, (tt, tt))))

  -- Between calls, whatever the node answers and in whatever order the calls come, the state is
  -- none of LOADING, ARMING, SWITCHING_OFFBOARD, STOPPING and DISARMING, and the flags that are kept are as
  -- many as the points they belong to, or absent; each path that is published has flags of its own
  -- length, or none.
  pub run-IsWell :
      (es : List (Event F)) (c : Controller (F.Num × F.Num))
      → IsWell c
      → IsWell (run F l g es c).0 × All CommandFits (run F l g es c).1
  unfolding run
  run-IsWell [] c w = (w, tt)
  run-IsWell (e ∷ es) c w =
      let (v, x) = step-Keeps e c w in
      let (u, y) = run-IsWell es (step F l g e c).0 v in
      (u, All-append CommandFits (step F l g e c).1 _ x y)
