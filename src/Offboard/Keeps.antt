-- ===== src/Offboard/Keeps.antt =====
-- What the calls of the controller keep, but for the start.
use px4_dxp.Prelude.{
  ◌≡◌, refl, arith, ◌==◌, Bool, true, false, not, ◌&&◌, Option, none, some, List, [], ◌∷◌, length,
  All, if-cases, Option-elim,
}
use px4_dxp.Manual.Arbiter.{MissionState, idle, running, completed, aborted, error}
use px4_dxp.Emergency.{Answer, accepted, refused, raised}
use px4_dxp.Placement.Telemetry.{Floats, Limits}
use px4_dxp.Offboard.Controller.{
  MissionPath, Controller, Command, publish_path, arm, LoadRequest, Called, load_path,
  clear_mission, is_clear_allowed, after_load, aligned_flags, load_begin_path, load_end_path,
  without_entry,
}
use px4_dxp.Offboard.Entry.{EntryConfig}
use px4_dxp.Offboard.Launch.{nonempty}
use px4_dxp.Offboard.Start.{is_busy}
use px4_dxp.Offboard.Halt.{
  StopPath, at, nowhere, raises, Stopped, Aborted, stop_active, Vehicle, stop_async, abort_async,
  disarm_async, in_state, is_stop_allowed, is_abort_noop,
}
use px4_dxp.Offboard.Calls.{
  Advanced, mark_completed, advance_entry_to_marking, is_running, is_entry, marking_commands,
}
use px4_dxp.Offboard.Events.{load, clear, stop, abort, disarm, complete, advance, or_same, step}

-- Flags fit points when they are as many.
abbrev pub Fits : {P : Type 0} → Option (List P) → Option (List Bool) → Type 0
Fits ps none = Unit
Fits none (some fs) = ⊥
Fits (some ps) (some fs) = length fs ≡ length ps

abbrev pub PathFits : {P : Type 0} → MissionPath P → Type 0
PathFits p = Fits (some p.points) p.spray_flags × Fits (some p.points) p.must_hit

abbrev pub CommandFits : {P : Type 0} → Command P → Type 0
CommandFits (publish_path p) = PathFits p
CommandFits _ = Unit

-- No call is under way.
abbrev pub is_settled : MissionState → Bool
is_settled s = not (is_busy s)

pub record IsWell {P : Type 0} (c : Controller P) : Type 0 where
  pub settled : is_settled c.state ≡ true
  pub spray : Fits c.loaded_pts c.loaded_spray_flags
  pub must_hit : Fits c.loaded_pts c.loaded_must_hit
  pub entry_spray : Fits c.entry_marking_pts c.entry_marking_flags
  pub entry_must_hit : Fits c.entry_marking_pts c.entry_marking_must_hit

pub Answer-elim :
    {B : Type 0} (Q : B → Type 0) (x : Answer) {p q r : B}
    → Q p
    → Q q
    → Q r
    → Q (elim x [ accepted ↦ p | refused ↦ q | raised ↦ r ])
Answer-elim Q accepted p q r = p
Answer-elim Q refused p q r = q
Answer-elim Q raised p q r = r

module _ (F : Floats) (l : Limits F.Num) (g : EntryConfig F) where
  -- What holds of a call that is made in a well-formed state.
  abbrev pub Keeps : Controller (F.Num × F.Num) × List (Command (F.Num × F.Num)) → Type 0
  Keeps r = IsWell r.0 × All CommandFits r.1

  Fits-aligned_flags :
      {P : Type 0} (ps : List P) (fs : Option (List Bool)) → Fits (some ps) (aligned_flags ps fs)
  Fits-aligned_flags ps none = tt
  Fits-aligned_flags ps (some fs) =
      if-cases (Fits (some ps)) (length fs == length ps) (λ e. ground arith) (λ _. tt)

  pub with_state :
      (s : MissionState) (c : Controller (F.Num × F.Num))
      → is_settled s ≡ true
      → IsWell c
      → IsWell (in_state s c)
  with_state s c e w = record {
    settled = e;
    spray = w.spray;
    must_hit = w.must_hit;
    entry_spray = w.entry_spray;
    entry_must_hit = w.entry_must_hit;
  }

  after_load-settled : (s : MissionState) → is_settled s ≡ true → is_settled (after_load s) ≡ true
  after_load-settled s e = ground arith

  pub load-Keeps :
      (f : F.Num × F.Num → Bool) (r : LoadRequest (F.Num × F.Num)) (c : Controller (F.Num × F.Num))
      → IsWell c
      → Keeps (step F l g (load f r) c)
  unfolding step load_path
  load-Keeps f r c w =
      let begun : IsWell (load_begin_path r c) = record {
        settled = w.settled;
        spray = Fits-aligned_flags r.points r.spray_flags;
        must_hit = Fits-aligned_flags r.points r.must_hit;
        entry_spray = tt;
        entry_must_hit = tt;
      } in
      let ended : (o : Option (F.Num × F.Num))
          → IsWell (load_end_path o (load_begin_path r c)).controller =
        λ o. record {
          settled = after_load-settled c.state w.settled;
          spray = begun.spray;
          must_hit = begun.must_hit;
          entry_spray = tt;
          entry_must_hit = tt;
        } in
      let Q = λ (d : Called (F.Num × F.Num)). IsWell d.controller × All CommandFits d.commands in
      Option-elim Q r.origin (λ _. (ended none, (tt, tt)))
        (λ o _. if-cases Q (f o) (λ _. (ended (some o), (tt, tt))) (λ _. (begun, tt)))

  pub clear-Keeps : (c : Controller (F.Num × F.Num)) → IsWell c → Keeps (step F l g clear c)
  unfolding step clear_mission
  clear-Keeps c w = (
    if-cases (λ d. IsWell (or_same d c)) (is_clear_allowed c.state)
        (λ _. record {
          settled = refl;
          spray = tt;
          must_hit = tt;
          entry_spray = tt;
          entry_must_hit = tt;
        })
        (λ _. w),
    tt,
  )

  pub stop-Keeps :
      (n : Bool) (p : StopPath (F.Num × F.Num)) (v : Vehicle) (c : Controller (F.Num × F.Num))
      → IsWell c
      → Keeps (step F l g (stop n p v) c)
  unfolding step stop_async
  stop-Keeps n p v c w =
      let Q = λ (r : Stopped (F.Num × F.Num)). IsWell r.controller × All CommandFits r.commands in
      let active : (p : StopPath (F.Num × F.Num)) → Q (stop_active p v c) = λ p.
        elim p as (λ p. Q (stop_active p v c)) [
          | at x ↦ (with_state idle c refl w, (tt, tt))
          | nowhere ↦ (with_state error c refl w, (tt, tt))
          | raises ↦ (with_state error c refl w, (tt, tt))
        ] in
      if-cases Q (not n) (λ _. (w, tt))
        (λ _. if-cases Q (not (is_stop_allowed c.state)) (λ _. (w, tt)) (λ _. active p))

  pub abort-Keeps :
      (n : Bool) (p : StopPath (F.Num × F.Num)) (m d : Answer) (v : Vehicle)
      (c : Controller (F.Num × F.Num))
      → IsWell c
      → Keeps (step F l g (abort n p m d v) c)
  unfolding step abort_async
  abort-Keeps n p m d v c w =
      let Q = λ (r : Aborted (F.Num × F.Num)). IsWell r.controller × All CommandFits r.commands in
      if-cases Q (not n) (λ _. (w, tt))
        (λ _.
          if-cases Q (is_abort_noop c.state) (λ _. (w, tt))
            (λ _. (with_state aborted c refl w, (tt, (tt, (tt, tt))))))

  pub disarm-Keeps :
      (n : Bool) (a : Answer) (c : Controller (F.Num × F.Num))
      → IsWell c
      → Keeps (step F l g (disarm n a) c)
  unfolding step disarm_async
  disarm-Keeps n a c w = if-cases Keeps (not n) (λ _. (w, tt)) (λ _. answered a)
    where
      answered :
          (a : Answer)
          → Keeps (elim a [ raised ↦ (c, arm false ∷ []) | _ ↦ (in_state idle c, arm false ∷ []) ])
      answered accepted = (with_state idle c refl w, (tt, tt))
      answered refused = (with_state idle c refl w, (tt, tt))
      answered raised = (w, (tt, tt))

  pub complete-Keeps : (c : Controller (F.Num × F.Num)) → IsWell c → Keeps (step F l g complete c)
  unfolding step mark_completed
  complete-Keeps c w = (
    if-cases (λ (r : Controller (F.Num × F.Num) × Bool). IsWell r.0) (is_running c.state)
        (λ _. with_state completed c refl w) (λ _. w),
    tt,
  )

  pub Fits-nonempty :
      {P : Type 0} (o : Option (List P)) (fs : Option (List Bool)) (ps : List P)
      → nonempty o ≡ some ps
      → Fits o fs
      → Fits (some ps) fs
  Fits-nonempty o none ps e h = tt
  Fits-nonempty none (some f) ps e h = absurd h
  Fits-nonempty (some []) (some f) ps e h = absurd (ground arith)
  Fits-nonempty (some (x ∷ xs)) (some f) ps e h = ground arith

  marking-Fits :
      (n : Bool) (p : MissionPath (F.Num × F.Num))
      → PathFits p
      → All CommandFits (marking_commands n p)
  marking-Fits true p f = (f, (tt, tt))
  marking-Fits false p f = tt

  pub advance-Keeps :
      (n p : Bool) (c : Controller (F.Num × F.Num)) → IsWell c → Keeps (step F l g (advance n p) c)
  unfolding step advance_entry_to_marking
  advance-Keeps n p c w =
      let Q = λ (r : Advanced (F.Num × F.Num)). IsWell r.controller × All CommandFits r.commands in
      if-cases Q (not (is_entry c.state)) (λ _. (w, tt))
        (λ _.
          Option-elim Q (nonempty c.entry_marking_pts) (λ _. (with_state running c refl w, tt))
            (λ ps q.
              let bare : IsWell (without_entry c) = record {
                settled = w.settled;
                spray = w.spray;
                must_hit = w.must_hit;
                entry_spray = tt;
                entry_must_hit = tt;
              } in
              let fits : Fits (some ps) c.entry_marking_flags
                  × Fits (some ps) c.entry_marking_must_hit =
                (Fits-nonempty _ _ ps q w.entry_spray, Fits-nonempty _ _ ps q w.entry_must_hit) in
              if-cases Q (n && p) (λ _. (bare, (fits, tt)))
                (λ _. (with_state running (without_entry c) refl bare, marking-Fits n _ fits))))
