-- ===== src/Offboard/Stash.antt =====
-- The marking path that is kept while the vehicle enters, and how it is lost.
use px4_dxp.Prelude.{
  ◌≡◌, arith, subst, ap, sym, ◌∙◌, ◌⊎◌, Bool, true, false, none, some, List, [], ◌∷◌, if-cases,
  Option-elim, inl, inr,
}
use px4_dxp.Manual.Arbiter.{MissionState, entry, running, completed, error}
use px4_dxp.Emergency.{Answer}
use px4_dxp.Loading.{is_load_allowed}
use px4_dxp.Placement.Telemetry.{Floats, Limits}
use px4_dxp.Offboard.Controller.{
  MissionPath, Controller, publish_path, reset_monitor, init, LoadRequest, load_path, clear_mission,
  is_clear_allowed,
}
use px4_dxp.Offboard.Entry.{EntryConfig}
use px4_dxp.Offboard.Launch.{
  Started, Answers, launch, switch, publish_and_go, nonempty, entry_start,
}
use px4_dxp.Offboard.Start.{start_locked}
use px4_dxp.Offboard.Halt.{StopPath, Vehicle, stop_async, abort_async, disarm_async}
use px4_dxp.Offboard.Calls.{mark_completed, advance_entry_to_marking, is_entry}
use px4_dxp.Offboard.Events.{
  Event, load, clear, start, stop, abort, disarm, complete, advance, emergency, or_same, step, run,
}
use px4_dxp.Offboard.Arming.{entry_start-nonempty, start_locked-cases}

-- While the vehicle enters, a path that is not empty is kept.
abbrev pub KeepsPath : {P : Type 0} → Controller P → Type 0
KeepsPath {P} c = is_entry c.state ≡ true → (ps : List P) × (nonempty c.entry_marking_pts ≡ some ps)

-- A load that respects the guard of server/mission_loading.py, and the end of an entry leg whose
-- publication does not raise.
abbrev pub IsGuarded : {F : Floats} → Event F → Controller (F.Num × F.Num) → Type 0
IsGuarded (load f r) c = is_load_allowed c.state ≡ true
IsGuarded (advance n raises) c = raises ≡ false
IsGuarded _ c = Unit

module _ (F : Floats) (l : Limits F.Num) (g : EntryConfig F) where
  unfoldable pub AllGuarded : List (Event F) → Controller (F.Num × F.Num) → Type 0
  AllGuarded [] c = Unit
  AllGuarded (e ∷ es) c = IsGuarded e c × AllGuarded es (step F l g e c).0

  launch-keeps :
      (a : Answers F) (t : Bool) (p : MissionPath (F.Num × F.Num)) (c : Controller (F.Num × F.Num))
      (ps : List (F.Num × F.Num))
      → nonempty c.entry_marking_pts ≡ some ps
      → nonempty (launch F a t p c).controller.entry_marking_pts ≡ some ps
  unfolding launch switch
  launch-keeps a t p c ps q = ground arith

  launch-KeepsPath :
      (a : Answers F) (t : Bool) (p : MissionPath (F.Num × F.Num)) (c : Controller (F.Num × F.Num))
      → (t ≡ true → (ps : List (F.Num × F.Num)) × (nonempty c.entry_marking_pts ≡ some ps))
      → KeepsPath (launch F a t p c).controller
  unfolding launch switch
  launch-KeepsPath a t p c h e =
      let two : t ≡ true = ground arith in let (ps, q) = h two in (ps, launch-keeps a t p c ps q)

  start-KeepsPath :
      (n auto : Bool) (a : Answers F) (c : Controller (F.Num × F.Num))
      → KeepsPath c
      → KeepsPath (start_locked F n auto l g a c).controller
  unfolding publish_and_go
  start-KeepsPath n auto a c k =
      start_locked-cases F auto l g a c n (λ r. KeepsPath r.controller) (λ s o q _ e. kept s q e)
        (λ _ _ _ _ ps qs _ _.
          Option-elim (λ (r : Started (F.Num × F.Num)). KeepsPath r.controller)
            (entry_start F c.placement_mode a.fcu qs)
            (λ _. launch-KeepsPath a false _ _ (λ e. absurd (ground arith)))
            (λ live q.
              launch-KeepsPath a true _ _
                (λ _. (qs, entry_start-nonempty F auto l g a c c.placement_mode a.fcu qs live q))))
    where
      kept :
          (s : MissionState)
          → (s ≡ c.state) ⊎ (s ≡ error)
          → is_entry s ≡ true
          → (ps : List (F.Num × F.Num)) × (nonempty c.entry_marking_pts ≡ some ps)
      kept s (inl q) e = k (sym (ap is_entry q) ∙ e)
      kept s (inr q) e = absurd (ground arith)

  -- A call that leaves the entry, or changes nothing.
  KeepsPath-same :
      (c d : Controller (F.Num × F.Num))
      → (is_entry d.state ≡ true → d ≡ c)
      → KeepsPath c
      → KeepsPath d
  KeepsPath-same c d f k e = subst KeepsPath (sym (f e)) k e

  stop-same :
      (n : Bool) (p : StopPath (F.Num × F.Num)) (v : Vehicle) (c : Controller (F.Num × F.Num))
      → is_entry (stop_async n p v c).controller.state ≡ true
      → (stop_async n p v c).controller ≡ c
  unfolding stop_async
  stop-same n p v c e = ground arith

  abort-same :
      (n : Bool) (p : StopPath (F.Num × F.Num)) (m d : Answer) (v : Vehicle)
      (c : Controller (F.Num × F.Num))
      → is_entry (abort_async n p m d v c).controller.state ≡ true
      → (abort_async n p m d v c).controller ≡ c
  unfolding abort_async
  abort-same n p m d v c e = ground arith

  disarm-same :
      (n : Bool) (a : Answer) (c : Controller (F.Num × F.Num))
      → is_entry (disarm_async n a c).0.state ≡ true
      → (disarm_async n a c).0 ≡ c
  unfolding disarm_async
  disarm-same n a c e = ground arith

  complete-same :
      (c : Controller (F.Num × F.Num))
      → is_entry (mark_completed c).0.state ≡ true
      → (mark_completed c).0 ≡ c
  unfolding mark_completed
  complete-same c e = ground arith

  advance-same :
      (n raises : Bool) (c : Controller (F.Num × F.Num))
      → raises ≡ false
      → is_entry (advance_entry_to_marking n raises c).controller.state ≡ true
      → (advance_entry_to_marking n raises c).controller ≡ c
  unfolding advance_entry_to_marking
  advance-same n raises c h e = ground arith

  load-leaves :
      (f : F.Num × F.Num → Bool) (r : LoadRequest (F.Num × F.Num)) (c : Controller (F.Num × F.Num))
      → is_load_allowed c.state ≡ true
      → is_entry (load_path f r c).controller.state ≡ false
  unfolding load_path
  load-leaves f r c h = ground arith

  step-KeepsPath :
      (e : Event F) (c : Controller (F.Num × F.Num))
      → IsGuarded e c
      → KeepsPath c
      → KeepsPath (step F l g e c).0
  unfolding step clear_mission
  step-KeepsPath (load f r) c h k = λ x. absurd (ground (arith, load-leaves f r c h))
  step-KeepsPath clear c h k =
      if-cases (λ d. KeepsPath (or_same d c)) (is_clear_allowed c.state)
        (λ _ e. absurd (ground arith)) (λ _. k)
  step-KeepsPath (start n auto a) c h k = start-KeepsPath n auto a c k
  step-KeepsPath (stop n p v) c h k = KeepsPath-same c _ (stop-same n p v c) k
  step-KeepsPath (abort n p m d v) c h k = KeepsPath-same c _ (abort-same n p m d v c) k
  step-KeepsPath (disarm n a) c h k = KeepsPath-same c _ (disarm-same n a c) k
  step-KeepsPath complete c h k = KeepsPath-same c _ (complete-same c) k
  step-KeepsPath (advance n raises) c h k = KeepsPath-same c _ (advance-same n raises c h) k
  step-KeepsPath emergency c h k = λ e. absurd (ground arith)

  run-KeepsPath :
      (es : List (Event F)) (c : Controller (F.Num × F.Num))
      → AllGuarded es c
      → KeepsPath c
      → KeepsPath (run F l g es c).0
  unfolding run AllGuarded
  run-KeepsPath [] c h k = k
  run-KeepsPath (e ∷ es) c (h, hs) k =
      run-KeepsPath es (step F l g e c).0 hs (step-KeepsPath e c h k)

  -- From the start of the server on, as long as paths are loaded in the states that the guard of
  -- loading allows and no publication at the end of an entry leg has raised, whatever else the node
  -- answers: a vehicle that is entering has a marking path, which is not empty; the end of the
  -- entry leg publishes it with the flags that were kept with it, and the mission runs. When that
  -- publication raises, the vehicle is still entering and nothing is kept: the next end of the
  -- entry leg publishes nothing, and the mission runs all the same.
  pub run-marks :
      (es : List (Event F)) (c : Controller (F.Num × F.Num))
      → AllGuarded es init
      → (run F l g es init).0 ≡ c
      → is_entry c.state ≡ true
      → (ps : List (F.Num × F.Num)) × ((c.entry_marking_pts ≡ some ps)
          × (((advance_entry_to_marking true false c).commands
                ≡ publish_path (record {
                  points = ps;
                  spray_flags = c.entry_marking_flags;
                  must_hit = c.entry_marking_must_hit;
                })
                  ∷ reset_monitor
                  ∷ [])
              × ((advance_entry_to_marking true false c).controller.state ≡ running))
          × (let d = (advance_entry_to_marking true true c).controller in
              (d.state ≡ entry)
              × (d.entry_marking_pts ≡ none)
              × ((advance_entry_to_marking true false d).commands ≡ [])
              × ((advance_entry_to_marking true false d).controller.state ≡ running)))
  unfolding advance_entry_to_marking
  run-marks es c h q e =
      let (ps, p) = subst KeepsPath q (run-KeepsPath es init h (λ x. absurd (ground arith))) e in
      (
        ps,
        (
          ground arith,
          (ground arith, ground arith),
          (ground arith, ground arith, ground arith, ground arith),
        ),
      )

  -- A path that is loaded while the vehicle enters, as the handlers of POST /api/mission/load and
  -- of mission_load do in any state, takes the marking path away: the end of the entry leg then
  -- publishes nothing, the mission runs all the same, and the next completion ends it.
  pub load_path-loses :
      (f : F.Num × F.Num → Bool) (r : LoadRequest (F.Num × F.Num)) (c : Controller (F.Num × F.Num))
      (n raises : Bool)
      → is_entry c.state ≡ true
      → (((advance_entry_to_marking n raises (load_path f r c).controller).commands ≡ [])
          × ((advance_entry_to_marking n raises (load_path f r c).controller).controller.state
              ≡ running))
        × ((mark_completed
              (advance_entry_to_marking n raises (load_path f r c).controller).controller).0.state
            ≡ completed)
  unfolding load_path advance_entry_to_marking mark_completed
  load_path-loses f r c n raises e = ((ground arith, ground arith), ground arith)
