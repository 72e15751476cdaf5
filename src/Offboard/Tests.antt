-- ===== src/Offboard/Tests.antt =====
-- The theorems about the offboard controller, on whole numbers in place of floats.
use px4_dxp.Prelude.{◌≡◌, ◌≢◌, ◌⊎◌, refl, ℕ, Bool, true, false, List, [], ◌∷◌, none, some, All}
use px4_dxp.Manual.Arbiter.{idle, entry, running, completed, error, ControlOwner, Arbiter}
use px4_dxp.Emergency.{accepted, refused}
use px4_dxp.Placement.Flat.{flat, limits, here}
use px4_dxp.Placement.Ned.{latlon_to_ned, ned_to_latlon}
use px4_dxp.Placement.Health.{evaluate_origin_health, measured, implied_origin}
use px4_dxp.Placement.Resolve.{apply_translation, gates, translation_for, resolve_surveyed_points}
use px4_dxp.Offboard.Controller.{
  local_ned, gps_surveyed, Controller, publish_path, reset_monitor, init, LoadRequest, load_path,
}
use px4_dxp.Offboard.Entry.{EntryConfig, entry_leg_points}
use px4_dxp.Offboard.Launch.{Answers, publish_and_go, launch, switch}
use px4_dxp.Offboard.Start.{start_locked, placed_points, place_and_go}
use px4_dxp.Offboard.Halt.{at, Vehicle}
use px4_dxp.Offboard.Calls.{mark_completed, advance_entry_to_marking}
use px4_dxp.Offboard.Events.{Event, load, start, stop, advance, emergency, step, run}
use px4_dxp.Offboard.Arming.{last_arm, start_locked-disarms, IsLaunched, start_locked-IsLaunched}
use px4_dxp.Offboard.Keeps.{IsWell, CommandFits}
use px4_dxp.Offboard.Life.{run-IsWell}
use px4_dxp.Offboard.Stash.{AllGuarded, run-marks, load_path-loses}

abbrev settings : EntryConfig flat
settings = record { staging_enabled = true; staging_dist = 1; cos_skip = 1 }

abbrev obedient : Answers flat
obedient = record {
  fcu = here;
  pose = here;
  publish_raises = false;
  arm = accepted;
  after_grace = here;
  set_mode = accepted;
  disarm_raises = false;
}

abbrev no_offboard : Answers flat
no_offboard = record obedient { set_mode = refused }

abbrev survey : LoadRequest (ℕ × ℕ)
survey = record {
  points = (0, 0) ∷ (3, 0) ∷ (3, 3) ∷ [];
  name = some "square";
  spray_flags = some (true ∷ true ∷ false ∷ []);
  must_hit = some (true ∷ []);
  mode = gps_surveyed;
  origin = some (4, 2);
  is_staged = true;
}

abbrev plain : LoadRequest (ℕ × ℕ)
plain = record survey { mode = local_ned; origin = none; is_staged = false }

abbrev finite : ℕ × ℕ → Bool
finite p = true

abbrev loaded : Controller (ℕ × ℕ)
loaded = record init {
  loaded_pts = some ((0, 0) ∷ (3, 0) ∷ (3, 3) ∷ []);
  loaded_spray_flags = some (true ∷ true ∷ false ∷ []);
  path_name = some "square";
  placement_mode = gps_surveyed;
  origin_gps = some (4, 2);
  is_staged_mission = true;
}

abbrev entering : Controller (ℕ × ℕ)
entering = record loaded {
  state = entry;
  entry_marking_pts = some ((6_371_000, 0) ∷ (6_371_003, 0) ∷ (6_371_003, 3) ∷ []);
  entry_marking_flags = some (true ∷ true ∷ false ∷ []);
}

abbrev morning : List (Event flat)
morning = load finite survey ∷ start true false obedient ∷ []

morning-enters : (run flat limits settings morning init).0 ≡ entering
unfolding run step load_path start_locked place_and_go placed_points publish_and_go launch switch
    entry_leg_points resolve_surveyed_points gates translation_for apply_translation
    evaluate_origin_health measured implied_origin latlon_to_ned ned_to_latlon
morning-enters = refl

morning-guarded : AllGuarded flat limits settings morning init
unfolding AllGuarded step load_path
morning-guarded = (refl, (tt, tt))

run-marks_example :
    (ps : List (ℕ × ℕ)) × ((entering.entry_marking_pts ≡ some ps)
      × (((advance_entry_to_marking true false entering).commands
            ≡ publish_path (record {
              points = ps;
              spray_flags = entering.entry_marking_flags;
              must_hit = entering.entry_marking_must_hit;
            })
              ∷ reset_monitor
              ∷ [])
          × ((advance_entry_to_marking true false entering).controller.state ≡ running))
      × (let d = (advance_entry_to_marking true true entering).controller in
          (d.state ≡ entry)
          × (d.entry_marking_pts ≡ none)
          × ((advance_entry_to_marking true false d).commands ≡ [])
          × ((advance_entry_to_marking true false d).controller.state ≡ running)))
run-marks_example =
    run-marks flat limits settings morning entering morning-guarded morning-enters refl

load_path-loses_example :
    (((advance_entry_to_marking true false (load_path finite plain entering).controller).commands
        ≡ [])
      × ((advance_entry_to_marking true false
            (load_path finite plain entering).controller).controller.state
          ≡ running))
    × ((mark_completed
          (advance_entry_to_marking true false
            (load_path finite plain entering).controller).controller).0.state
        ≡ completed)
load_path-loses_example = load_path-loses flat limits settings finite plain entering true false refl

init-IsWell : IsWell {P = ℕ × ℕ} init
init-IsWell = record {
  settled = refl;
  spray = tt;
  must_hit = tt;
  entry_spray = tt;
  entry_must_hit = tt;
}

abbrev day : List (Event flat)
day =
    load finite survey
    ∷ start true false no_offboard
    ∷ start true false obedient
    ∷ advance true true
    ∷ stop true (at (1, 1)) (record { armed = some true; is_manual = false })
    ∷ emergency
    ∷ []

run-IsWell_example :
    IsWell (run flat limits settings day init).0
    × All CommandFits (run flat limits settings day init).1
run-IsWell_example = run-IsWell flat limits settings day init init-IsWell

start_locked-disarms_example :
    (last_arm (start_locked flat true false limits settings no_offboard loaded).commands
      ≢ some true)
    × (((start_locked flat true false limits settings no_offboard loaded).controller.state ≡ idle)
        ⊎ ((start_locked flat true false limits settings no_offboard loaded).controller.state
            ≡ error))
unfolding start_locked place_and_go placed_points publish_and_go launch switch entry_leg_points
    resolve_surveyed_points gates translation_for apply_translation evaluate_origin_health measured
    implied_origin latlon_to_ned ned_to_latlon
start_locked-disarms_example =
    start_locked-disarms flat false limits settings no_offboard loaded true refl refl

start_locked-IsLaunched_example :
    IsLaunched flat false limits settings obedient loaded
      (start_locked flat true false limits settings obedient loaded)
unfolding start_locked place_and_go placed_points publish_and_go launch switch entry_leg_points
    resolve_surveyed_points gates translation_for apply_translation evaluate_origin_health measured
    implied_origin latlon_to_ned ned_to_latlon
start_locked-IsLaunched_example =
    start_locked-IsLaunched flat false limits settings obedient loaded true refl

abbrev armed : Vehicle
armed = record { armed = some true; is_manual = false }

abbrev free : Arbiter
free = record { owner = ControlOwner.idle; session_id = none; lease_id = none; stop_reason = none }
