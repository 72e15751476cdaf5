-- ===== src/Loading/Checks.antt =====
-- What a load hands to the controller, and what it does to a stop that comes in between.
use px4_dxp.Prelude.{
  length-map, ℕ, zero, suc, ◌≡◌, refl, Bool, true, false, Option, none, some, List, [], map,
  if◌then◌else◌, sym, subst, ap, ◌==◌, if-cases, some_inj, length, leb, arith, Bool-cases, inl, inr,
}
use Prim.Native.String.{String}
use px4_dxp.Manual.Arbiter.{MissionState, idle, loading, aborted}
use px4_dxp.Offboard.Controller.{Controller, Called, aligned_flags, after_load, load_path}
use px4_dxp.Manual.Gateway.{Sending}
use px4_dxp.Manual.Control.{Station}
use px4_dxp.Emergency.{Answers, estop}
use px4_dxp.Loading.{
  Waypoint, replicate, fitting, spray_flags_for_path, must_hit_for_path, load_begin, checked,
  load_end, is_load_allowed,
}

length-replicate : (n : ℕ) (b : Bool) → length (replicate n b) ≡ n
length-replicate zero b = refl
length-replicate (suc n) b = omega (arith, length-replicate n b)

length-fitting : (n : ℕ) (b : Bool) (flags : List Bool) → length (fitting n b flags) ≡ n
length-fitting n b flags = ground (arith, length-replicate n b)

length-spray_flags_for_path :
    (default : Bool) (preview : Option (List Waypoint)) (n : ℕ)
    → length (spray_flags_for_path default preview n) ≡ n
unfolding spray_flags_for_path
length-spray_flags_for_path default none n = length-fitting n default (replicate n default)
length-spray_flags_for_path default (some ws) n = length-fitting n default (map Waypoint.spray ws)

-- Flags that are known have the given length.
abbrev pub Known : ℕ → Option (List Bool) → Type 0
Known n none = Unit
Known n (some flags) = length flags ≡ n

must_hit_for_path-Known :
    (preview : Option (List Waypoint)) (n : ℕ) → Known n (must_hit_for_path preview n)
unfolding must_hit_for_path
must_hit_for_path-Known none n = tt
must_hit_for_path-Known (some ws) n = ground (arith, length-map Waypoint.must_hit ws)

after_load-idle : (s : MissionState) → is_load_allowed s ≡ true → after_load s ≡ idle
after_load-idle s e = ground arith

module _ {P : Type 0} where
  -- A plan that can be loaded has at least two points.
  abbrev pub is_loadable : Option (List P) → Bool
  is_loadable none = false
  is_loadable (some ps) = leb 2 (length ps)

  abbrev pub points_of : Option (List P) → List P
  points_of none = []
  points_of (some ps) = ps

  -- What a load leaves in the controller `d`, from the one that it found.
  pub record IsLoaded (default : Bool) (plan : Option (List P)) (preview : Option (List Waypoint))
      (prior : MissionState) (found : Controller P) (d : Called P) : Type 0 where
    pub result : d.is_ok ≡ is_loadable plan
    pub state : d.controller.state ≡ (if is_loadable plan then idle else prior)
    pub points : d.controller.loaded_pts ≡ (if is_loadable plan then plan else found.loaded_pts)
    pub spray : d.controller.loaded_spray_flags ≡ (
        if is_loadable plan
        then some (spray_flags_for_path default preview (length (points_of plan)))
        else found.loaded_spray_flags)
    pub must_hit : d.controller.loaded_must_hit ≡ (
        if is_loadable plan
        then must_hit_for_path preview (length (points_of plan))
        else found.loaded_must_hit)
    pub entry :
        d.controller.entry_marking_pts
        ≡ (if is_loadable plan then none else found.entry_marking_pts)

  kept_flags :
      (ps : List P) (fs : Option (List Bool)) → Known (length ps) fs → aligned_flags ps fs ≡ fs
  kept_flags ps none k = refl
  kept_flags ps (some fs) k = rw (k, same_length (length ps)) refl
    where
      same_length : (n : ℕ) → (n == n) ≡ true
      same_length n = ground arith

  load_end-IsLoaded :
      (f : P → Bool) (name : String) (default : Bool) (plan : Option (List P))
      (preview : Option (List Waypoint)) (prior found : MissionState) (c : Controller P)
      → is_load_allowed prior ≡ true
      → IsLoaded default plan preview prior c
          (load_end f name default plan preview prior (record c { state = found }))
  unfolding load_end checked load_path
  load_end-IsLoaded f name default none preview prior found c a = record {
    result = refl;
    state = refl;
    points = refl;
    spray = refl;
    must_hit = refl;
    entry = refl;
  }
  load_end-IsLoaded f name default (some ps) preview prior found c a =
      let n = length ps in
      elim (Bool-cases (leb 2 n)) [
        | inl e ↦ record {
          result = rw (load_end, e) refl;
          state = rw (load_end, e) (after_load-idle prior a);
          points = rw (load_end, e) refl;
          spray =
              rw (load_end, e)
                (kept_flags ps (some (spray_flags_for_path default preview n))
                  (length-spray_flags_for_path default preview n));
          must_hit =
              rw (load_end, e)
                (kept_flags ps (must_hit_for_path preview n) (must_hit_for_path-Known preview n));
          entry = rw (load_end, e) refl;
        }
        | inr e ↦ record {
          result = rw (load_end, e) refl;
          state = rw (load_end, e) refl;
          points = rw (load_end, e) refl;
          spray = rw (load_end, e) refl;
          must_hit = rw (load_end, e) refl;
          entry = rw (load_end, e) refl;
        }
      ]

  abbrev Same : MissionState × Controller P → MissionState × Controller P → Type 0
  Same x y = x ≡ y

  load_begin-some :
      (c begun : Controller P) (prior : MissionState)
      → load_begin c ≡ some (prior, begun)
      → (is_load_allowed c.state ≡ true)
        × Same (c.state, record c { state = loading }) (prior, begun)
  unfolding load_begin
  load_begin-some c begun prior b =
      if-cases
        (λ (o : Option (MissionState × Controller P)).
          o ≡ some (prior, begun)
          → (is_load_allowed c.state ≡ true)
            × Same (c.state, record c { state = loading }) (prior, begun))
        (is_load_allowed c.state) (λ e h. (e, some_inj h)) (λ _ h. absurd (ground (arith, h))) b

  -- An emergency stop that comes between the two halves of a load writes ABORTED, and the end of the
  -- load overwrites it: a load of at least two points ends in IDLE with the path, its spray flags and
  -- its vertex flags resident, and a load that fails ends in the state from before it, with what was
  -- resident before.
  pub stop_forgotten :
      (f : P → Bool) (name : String) (default : Bool) (plan : Option (List P))
      (preview : Option (List Waypoint)) (c begun : Controller P) (prior found : MissionState)
      (reason : ℕ) (w : Sending) (a : Answers) (j : Option Station)
      → load_begin c ≡ some (prior, begun)
      → a.set_state_raises ≡ false
      → (estop reason w a
          (record { node = true; mission = some begun.state; joystick = j })).system.mission
        ≡ some found
      → (prior ≡ c.state)
        × (found ≡ aborted)
        × IsLoaded default plan preview c.state c
            (load_end f name default plan preview prior (record begun { state = found }))
  unfolding estop
  stop_forgotten f name default plan preview c begun prior found reason w a j b n e =
      let (ok, q) = load_begin-some c begun prior b in
      (
        sym (ap (λ (x : MissionState × Controller P). x.0) q),
        ground (arith, n, e),
        subst
            (λ (x : MissionState × Controller P).
              IsLoaded default plan preview c.state c
                (load_end f name default plan preview x.0 (record x.1 { state = found })))
            q (load_end-IsLoaded f name default plan preview c.state found c ok),
      )
