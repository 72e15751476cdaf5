-- ===== src/Progress/Milestones.antt =====
-- The events of a run of phases: each edge of the phase is announced once, and in turn.
use px4_dxp.Prelude.{
  ◌≡◌, refl, Bool, true, false, List, [], ◌∷◌, ◌++◌, arith, Option, none, some, ap, ◌∙◌,
}
use px4_dxp.Progress.{
  MissionPhase, Milestone, mark_start, mark_stop, at_point, dwell_done_rpp, is_mark_phase,
  is_dwell_hold, milestones_for,
}

-- The events of the phases of a run, one call of `milestones_for` after the other.
unfoldable pub events_from : MissionPhase → List MissionPhase → List Milestone
unfolding milestones_for
events_from prev [] = []
events_from prev (new ∷ phases) = milestones_for prev new ++ events_from new phases

abbrev pub last_from : MissionPhase → List MissionPhase → MissionPhase
last_from prev [] = prev
last_from prev (new ∷ phases) = last_from new phases

-- A listener that keeps whether painting goes on, and whether a point is held; an event that
-- does not fit what it keeps is an error.
abbrev pub listen : Bool × Bool → Milestone → Option (Bool × Bool)
listen (false, d) mark_start = some (true, d)
listen (true, d) mark_stop = some (false, d)
listen (m, false) at_point = some (m, true)
listen (m, true) dwell_done_rpp = some (m, false)
listen _ mark_start = none
listen _ mark_stop = none
listen _ at_point = none
listen _ dwell_done_rpp = none
listen s _ = some s

abbrev pub listen_all : Option (Bool × Bool) → List Milestone → Option (Bool × Bool)
listen_all none es = none
listen_all (some s) [] = some s
listen_all (some s) (e ∷ es) = listen_all (listen s e) es

listen_all-append :
    (o : Option (Bool × Bool)) (xs ys : List Milestone)
    → listen_all o (xs ++ ys) ≡ listen_all (listen_all o xs) ys
listen_all-append none xs ys = refl
listen_all-append (some s) [] ys = refl
listen_all-append (some s) (e ∷ es) ys = listen_all-append (listen s e) es ys

abbrev pub view : MissionPhase → Bool × Bool
view p = (is_mark_phase p, is_dwell_hold p)

listen_all-milestones_for :
    (prev new : MissionPhase)
    → listen_all (some (view prev)) (milestones_for prev new) ≡ some (view new)
unfolding milestones_for
listen_all-milestones_for prev new = ground arith

-- Over any run of phases a listener that hears the events never hears one that does not fit: the
-- starts and stops of painting alternate, and so do the arrivals at a point and the ends of its
-- dwell; what the listener then keeps is what the last phase says.
pub events_from-listen :
    (prev : MissionPhase) (phases : List MissionPhase)
    → listen_all (some (view prev)) (events_from prev phases) ≡ some (view (last_from prev phases))
unfolding events_from
events_from-listen prev [] = refl
events_from-listen prev (new ∷ phases) =
    listen_all-append (some (view prev)) (milestones_for prev new) (events_from new phases)
    ∙ ap (λ o. listen_all o (events_from new phases)) (listen_all-milestones_for prev new)
    ∙ events_from-listen new phases
