-- ===== src/Bridge/Status.antt =====
-- The health that the watchdog reports.
use px4_dxp.Prelude.{◌≤◌, ◌≡◌, ◌↔◌, refl, Bool, false, none, some, List, [], ◌∷◌, arith}
use px4_dxp.Bridge.{healthy, Settings, Snapshot, Manager, init, Tick, tick, is_frozen, run_from}

-- A healthy link has no time since when it is degraded.
abbrev Cleared : Manager → Type 0
Cleared m = m.health ≡ healthy → m.degraded_since ≡ none

-- What a tick outside the cooldown makes of a snapshot.
abbrev pub Seen : Bool → Manager → Type 0
Seen still m = ((m.health ≡ healthy) ↔ (still ≡ false)) × (still ≡ false → m.degraded_since ≡ none)

tick-Cleared : (c : Settings) (t : Tick) (m : Manager) → Cleared m → Cleared (tick c t m).0
unfolding tick
tick-Cleared c t m h = ground arith

tick-Seen :
    (c : Settings) (t : Tick) (m : Manager) (s : Snapshot)
    → Cleared m
    → t.snapshot ≡ some s
    → m.cooldown_until ≤ t.now
    → Seen (is_frozen c s) (tick c t m).0
unfolding tick
tick-Seen c t m s i e h = ground arith

run_from-Cleared :
    (c : Settings) (m : Manager) (ts : List Tick) → Cleared m → Cleared (run_from c m ts).0
unfolding run_from
run_from-Cleared c m [] h = h
run_from-Cleared c m (t ∷ ts) h = run_from-Cleared c (tick c t m).0 ts (tick-Cleared c t m h)

-- After any rounds, a tick outside the cooldown leaves the link healthy exactly when its snapshot
-- is not frozen, whatever the health was before, and it then forgets since when it was degraded.
pub tick_health :
    (c : Settings) (ts : List Tick) (t : Tick) (s : Snapshot)
    → t.snapshot ≡ some s
    → (run_from c init ts).0.cooldown_until ≤ t.now
    → Seen (is_frozen c s) (tick c t (run_from c init ts).0).0
unfolding init
tick_health c ts t s e h =
    tick-Seen c t (run_from c init ts).0 s (run_from-Cleared c init ts (λ p. refl)) e h
