-- ===== src/SprayModes/Dash/Pattern.antt =====
-- The dash pattern does not drift: the meter's boundaries stay on one grid, and the phase is the
-- position in the period.
use px4_dxp.Prelude.{
  ℕ, zero, suc, ◌+◌, ◌-◌, ◌*◌, ◌%◌, ◌≤◌, ◌<◌, ◌≡◌, sym, ◌∙◌, ◌&&◌, Bool, true, false, arith, inl,
  inr, Bool-cases, ltb, leb, pos_part,
}
use native.Mathlib.Nat.{mul-add-mod_self_left, mod-eq_of_lt}
use px4_dxp.SprayModes.Dash.{
  DashPhase, on, off, Config, Dash, DashInput, eps, is_on, target, flip, crosses, toggles,
  max_flips, update, move, track, flipped,
}

abbrev pub period : Config → ℕ
period c = c.on_distance + c.off_distance

-- Independent of the meter: whether the pattern that begins with a phase paints at a distance
-- from its origin.
pub painted : Config → DashPhase → ℕ → Bool
painted c on x = ltb (x % period c) c.on_distance
painted c off x = leb c.off_distance (x % period c)

-- Where in the period a phase begins, for a pattern that begins with `start`.
abbrev pub offset : Config → DashPhase → DashPhase → ℕ
offset c on on = 0
offset c on off = c.on_distance
offset c off off = 0
offset c off on = c.off_distance

-- The last boundary is the beginning of its phase in the k-th period from the origin.
abbrev pub IsOnGrid : Config → DashPhase → ℕ → Dash → Type 0
IsOnGrid c start o d = (k : ℕ) × (d.s_at_last_toggle ≡ o + (period c * k + offset c start d.phase))

-- The period that the next phase belongs to.
abbrev next_period : DashPhase → DashPhase → ℕ → ℕ
next_period on on k = k
next_period on off k = k + 1
next_period off off k = k
next_period off on k = k + 1

grid_step :
    (c : Config) (start ph : DashPhase) (o k last : ℕ)
    → last ≡ o + (period c * k + offset c start ph)
    → last + target c ph ≡ o + (period c * next_period start ph k + offset c start (flipped ph))
unfolding target
grid_step c on on o k last e = omega arith
grid_step c on off o k last e = omega arith
grid_step c off on o k last e = omega arith
grid_step c off off o k last e = omega arith

flip-IsOnGrid :
    (c : Config) (start : DashPhase) (o : ℕ) (d : Dash)
    → IsOnGrid c start o d
    → IsOnGrid c start o (flip c d)
unfolding flip
flip-IsOnGrid c start o d (k, e) =
    (next_period start d.phase k, grid_step c start d.phase o k d.s_at_last_toggle e)

toggles-IsOnGrid :
    (f : ℕ) (c : Config) (i : DashInput) (start : DashPhase) (o : ℕ) (d : Dash)
    → IsOnGrid c start o d
    → IsOnGrid c start o (toggles f c i d)
unfolding toggles
toggles-IsOnGrid zero c i start o d g = g
toggles-IsOnGrid (suc f) c i start o d g =
    elim (crosses c i d)
      as (λ b. IsOnGrid c start o (elim b [ true ↦ toggles f c i (flip c d) | false ↦ d ])) [
        | true ↦ toggles-IsOnGrid f c i start o (flip c d) (flip-IsOnGrid c start o d g)
        | false ↦ g
      ]

crosses-behind :
    (c : Config) (i : DashInput) (d : Dash)
    → d.s_dash + eps < d.s_at_last_toggle
    → crosses c i d ≡ false
unfolding crosses target
crosses-behind c i d h = ground arith

target-le :
    (c : Config) (ph : DashPhase) (m : ℕ) → m ≤ c.on_distance → m ≤ c.off_distance → m ≤ target c ph
unfolding target
target-le c on m p q = p
target-le c off m p q = q

-- Each flip moves the boundary on by at least the shorter phase, so the loop ends by its test.
toggles-Short :
    (f m : ℕ) (c : Config) (i : DashInput) (d : Dash)
    → m ≤ c.on_distance
    → m ≤ c.off_distance
    → d.s_dash + eps < d.s_at_last_toggle + f * m
    → crosses c i (toggles f c i d) ≡ false
unfolding toggles
toggles-Short zero m c i d p q h = crosses-behind c i d (omega arith)
toggles-Short (suc f) m c i d p q h = elim (Bool-cases (crosses c i d)) [
  | inl e ↦
      rw (e, toggles)
        (toggles-Short f m c i (flip c d) p q
          (unfold flip in omega (arith, target-le c d.phase m p q)))
  | inr e ↦ rw (e, toggles) e
]

abbrev pub NoLead : DashInput → Type 0
NoLead i = (pos_part i.on_lead ≡ 0) × (pos_part i.off_lead ≡ 0)

crosses_reaches :
    (c : Config) (i : DashInput) (d : Dash)
    → NoLead i
    → crosses c i d ≡ true
    → d.s_at_last_toggle + target c d.phase ≤ d.s_dash + eps
unfolding crosses target
crosses_reaches c i d n h = ground arith

crosses_short :
    (c : Config) (i : DashInput) (d : Dash)
    → NoLead i
    → crosses c i d ≡ false
    → d.s_dash + eps < d.s_at_last_toggle + target c d.phase
unfolding crosses target
crosses_short c i d n h = ground arith

-- The loop moves the boundary only up to the position, and leaves the rest of the meter alone.
record Moved (d e : Dash) : Type 0 where
  same_s : e.s_dash ≡ d.s_dash
  same_armed : e.armed ≡ d.armed
  reached : e.s_at_last_toggle ≤ d.s_dash + eps

Moved-flip : (c : Config) (d e : Dash) → Moved (flip c d) e → Moved d e
unfolding flip
Moved-flip c d e v = ground arith

flip-reached :
    (c : Config) (d : Dash)
    → d.s_at_last_toggle + target c d.phase ≤ d.s_dash + eps
    → (flip c d).s_at_last_toggle ≤ (flip c d).s_dash + eps
unfolding flip
flip-reached c d h = h

toggles-Moved :
    (f : ℕ) (c : Config) (i : DashInput) (d : Dash)
    → NoLead i
    → d.s_at_last_toggle ≤ d.s_dash + eps
    → Moved d (toggles f c i d)
unfolding toggles
toggles-Moved zero c i d n h = ground arith
toggles-Moved (suc f) c i d n h = elim (Bool-cases (crosses c i d)) [
  | inl e ↦
      rw (e, toggles)
        (Moved-flip c d _
          (toggles-Moved f c i (flip c d) n (flip-reached c d (crosses_reaches c i d n e))))
  | inr e ↦ rw (e, toggles) (ground arith)
]

mod_of_parts : (p k r x : ℕ) → x ≡ p * k + r → r < p → x % p ≡ r
mod_of_parts p k r x e h = rw e (mul-add-mod_self_left p k r ∙ mod-eq_of_lt h)

-- The position in the period decides the phase.
phase_painted :
    (c : Config) (start : DashPhase) (o k x last : ℕ) (ph : DashPhase)
    → last ≡ o + (period c * k + offset c start ph)
    → last ≤ o + x
    → o + x < last + target c ph
    → painted c start x ≡ is_on ph
unfolding painted target
phase_painted c on o k x last on e lo hi =
    ground (arith, mod_of_parts (period c) k (x - period c * k) x)
phase_painted c on o k x last off e lo hi =
    ground (arith, mod_of_parts (period c) k (x - period c * k) x)
phase_painted c off o k x last on e lo hi =
    ground (arith, mod_of_parts (period c) k (x - period c * k) x)
phase_painted c off o k x last off e lo hi =
    ground (arith, mod_of_parts (period c) k (x - period c * k) x)

-- A tick of an armed meter that does not recover keeps the boundary and the phase.
record Kept (d e : Dash) : Type 0 where
  same_phase : e.phase ≡ d.phase
  same_last : e.s_at_last_toggle ≡ d.s_at_last_toggle
  still_armed : e.armed ≡ true
  not_ahead : d.s_at_last_toggle ≤ d.s_dash → e.s_at_last_toggle ≤ e.s_dash + eps

move-Kept :
    (c : Config) (i : DashInput) (d : Dash)
    → d.armed ≡ true
    → (move c i d).recovered ≡ false
    → Kept d (move c i d).meter
unfolding move track
move-Kept c i d a r = ground arith

-- The meter after a tick's tracking, and behind the loop.
abbrev moved : Config → DashInput → Dash → Dash
moved c i d = (move c i d).meter

abbrev after : Config → DashInput → Dash → Dash
after c i d = toggles max_flips c i (moved c i d)

module _ (c : Config) (start : DashPhase) (o : ℕ) (i : DashInput) (d : Dash)
    (armed : d.armed ≡ true) (grid : IsOnGrid c start o d) (behind : d.s_at_last_toggle ≤ d.s_dash)
    (no_lead : NoLead i) (kept : (move c i d).recovered ≡ false) where
  after-IsOnGrid : IsOnGrid c start o (after c i d)
  after-IsOnGrid =
      toggles-IsOnGrid max_flips c i start o (moved c i d)
        (let v = move-Kept c i d armed kept in (grid.0, rw (v.same_last, v.same_phase) grid.1))

  after-Moved : Moved (moved c i d) (after c i d)
  after-Moved =
      toggles-Moved max_flips c i (moved c i d) no_lead
        ((move-Kept c i d armed kept).not_ahead behind)

  after_short :
      (m : ℕ)
      → m ≤ c.on_distance
      → m ≤ c.off_distance
      → (moved c i d).s_dash + eps < d.s_at_last_toggle + max_flips * m
      → (after c i d).s_dash + eps < (after c i d).s_at_last_toggle + target c (after c i d).phase
  after_short m p q h = crosses_short c i (after c i d) no_lead (
      toggles-Short max_flips m c i (moved c i d) p q (rw (move-Kept c i d armed kept).same_last h))

update_armed :
    (c : Config) (i : DashInput) (d : Dash)
    → d.armed ≡ true
    → let (d', u) = update c i d in
      (d' ≡ after c i d)
      × (u.geometry_desired ≡ d'.armed && is_on d'.phase)
      × (u.recovered ≡ (move c i d).recovered)
unfolding update
update_armed c i d a = ground arith

paints :
    (c : Config) (start : DashPhase) (o : ℕ) (e : Dash)
    → IsOnGrid c start o e
    → e.armed ≡ true
    → e.s_at_last_toggle ≤ e.s_dash + eps
    → e.s_dash + eps < e.s_at_last_toggle + target c e.phase
    → (e.armed && is_on e.phase) ≡ painted c start (e.s_dash + eps - o)
paints c start o e (k, grid) armed lo hi = rw armed (
    sym (
      phase_painted c start o k (e.s_dash + eps - o) e.s_at_last_toggle e.phase grid (omega arith)
        (omega arith)))

-- Take an armed meter whose boundaries lie on the grid of a pattern that began at `o` in the
-- phase `start`, with the last boundary not ahead of the tracked position, and a tick with no
-- lead that does not recover from a relocation and lands short of 10001 of the shorter phases
-- beyond the boundary. Then spray is wanted exactly where the pattern paints at the tracked
-- position, up to the tolerance of a nanometre, and the boundaries stay on the grid.
pub update_paints :
    (c : Config) (start : DashPhase) (o m : ℕ) (i : DashInput) (d : Dash)
    → d.armed ≡ true
    → IsOnGrid c start o d
    → d.s_at_last_toggle ≤ d.s_dash
    → NoLead i
    → (update c i d).1.recovered ≡ false
    → m ≤ c.on_distance
    → m ≤ c.off_distance
    → (update c i d).0.s_dash + eps < d.s_at_last_toggle + max_flips * m
    → let (d', u) = update c i d in
      (u.geometry_desired ≡ painted c start (d'.s_dash + eps - o)) × IsOnGrid c start o d'
update_paints c start o m i d armed grid behind no_lead kept p q far =
    let (same, wanted, rec) = update_armed c i d armed in
    let kept' : (move c i d).recovered ≡ false = sym rec ∙ kept in
    let g = after-IsOnGrid c start o i d armed grid behind no_lead kept' in
    let v = after-Moved c start o i d armed grid behind no_lead kept' in
    let s : (moved c i d).s_dash + eps < d.s_at_last_toggle + max_flips * m =
      rw (← v.same_s) (rw same at far) in
    let short = after_short c start o i d armed grid behind no_lead kept' m p q s in
    let live = v.same_armed ∙ (move-Kept c i d armed kept').still_armed in
    let reached : (after c i d).s_at_last_toggle ≤ (after c i d).s_dash + eps =
      rw v.same_s v.reached in
    (rw (wanted, same) (paints c start o (after c i d) g live reached short), rw same g)
