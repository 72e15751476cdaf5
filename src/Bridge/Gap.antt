-- ===== src/Bridge/Gap.antt =====
-- The time between two restarts.
use px4_dxp.Prelude.{
  ℕ, ◌+◌, ◌≤◌, ◌≡◌, ◌⊎◌, inl, inr, refl, sym, subst, Option, none, some, List, [], ◌∷◌, ◌++◌, arith,
  ltb, Bool-cases,
}
use px4_dxp.Bridge.{
  degraded, Settings, Snapshot, Cause, Manager, init, Tick, recover, thaw, act, freeze, tick,
  tick_with, is_frozen, reason, restarts, run_from,
}
use px4_dxp.Bridge.Budget.{InOrder}

abbrev FromOn : ℕ → Option ℕ → Type 0
FromOn e none = Unit
FromOn e (some d) = e ≤ d

-- Nothing that the watchdog waits for began before `e`.
abbrev Quiet : ℕ → Manager → Type 0
Quiet e m = (e ≤ m.cooldown_until) × FromOn e m.degraded_since

-- What a tick does to the time from which on the next restart is waited for.
abbrev Step : Settings → ℕ → Tick → Manager → List ℕ → Type 0
Step c e t m rs =
    ((rs ≡ []) × Quiet e m)
    ⊎ ((rs ≡ t.recover_now ∷ [])
        × (e + c.frozen_grace ≤ t.recover_now)
        × Quiet (t.recover_now + c.recovery_cooldown) m)

recover-Step :
    (c : Settings) (t : Tick) (why : List Cause) (m : Manager) (e : ℕ)
    → e + c.frozen_grace ≤ t.recover_now
    → t.recover_now ≤ t.done_now
    → Quiet e m
    → Step c e t (recover c t why m).0 (restarts (recover c t why m).1)
unfolding recover
recover-Step c t why m e h k q = ground arith

act-Step :
    (c : Settings) (t : Tick) (why : List Cause) (since : ℕ) (m : Manager) (e : ℕ)
    → e ≤ since
    → e ≤ t.now
    → t.now ≤ t.recover_now
    → t.recover_now ≤ t.done_now
    → Quiet e m
    → Step c e t (act c t why since m).0 (restarts (act c t why since m).1)
unfolding act
act-Step c t why since m e p n h k q = ground (arith, recover-Step c t why m e)

freeze-Step :
    (c : Settings) (t : Tick) (why : List Cause) (o : Option ℕ) (m : Manager) (e : ℕ)
    → FromOn e o
    → e ≤ t.now
    → t.now ≤ t.recover_now
    → t.recover_now ≤ t.done_now
    → Quiet e m
    → Step c e t (freeze c t why o m).0 (restarts (freeze c t why o m).1)
freeze-Step c t why none m e p n h k q =
    act-Step c t why t.now (record m { health = degraded; degraded_since = some t.now }) e n n h k
      (q.0, n)
freeze-Step c t why (some since) m e p n h k q = act-Step c t why since m e p n h k q

tick_with-Step :
    (c : Settings) (t : Tick) (o : Option Snapshot) (m : Manager) (e : ℕ)
    → t.now ≤ t.recover_now
    → t.recover_now ≤ t.done_now
    → Quiet e m
    → Step c e t (tick_with c t o m).0 (restarts (tick_with c t o m).1)
unfolding thaw
tick_with-Step c t none m e h k q = inl (refl, q)
tick_with-Step c t (some s) m e h k q = elim (Bool-cases (ltb t.now m.cooldown_until)) [
  | inl b ↦ rw b (inl (refl, q))
  | inr b ↦
      let f = freeze-Step c t (reason c s) m.degraded_since m e q.1 (ground arith) h k q in
      elim (Bool-cases (is_frozen c s)) [
        | inl i ↦ rw (b, i) f
        | inr i ↦ rw (b, i) (inl (ground arith, (q.0, tt)))
      ]
]

tick-Step :
    (c : Settings) (t : Tick) (m : Manager) (e : ℕ)
    → t.now ≤ t.recover_now
    → t.recover_now ≤ t.done_now
    → Quiet e m
    → Step c e t (tick c t m).0 (restarts (tick c t m).1)
unfolding tick
tick-Step c t m e h k q = tick_with-Step c t t.snapshot m e h k q

-- Restart times that keep the cooldown and the grace time between them; none comes before the
-- grace time behind `e`.
abbrev pub IsApart : Settings → ℕ → List ℕ → Type 0
IsApart c e [] = Unit
IsApart c e (r ∷ rs) = (e + c.frozen_grace ≤ r) × IsApart c (r + c.recovery_cooldown) rs

run_from-IsApart :
    (c : Settings) (ts : List Tick) (last e : ℕ) (m : Manager)
    → InOrder last ts
    → Quiet e m
    → IsApart c e (run_from c m ts).1
unfolding run_from
run_from-IsApart c [] last e m o q = tt
run_from-IsApart c (t ∷ ts) last e m (p, h, k, o) q = elim (tick-Step c t m e h k q) [
  | inl (r, q') ↦
      subst (λ rs. IsApart c e (rs ++ (run_from c (tick c t m).0 ts).1)) (sym r)
        (run_from-IsApart c ts t.done_now e (tick c t m).0 o q')
  | inr (r, g, q') ↦
      subst (λ rs. IsApart c e (rs ++ (run_from c (tick c t m).0 ts).1)) (sym r)
        (
          g,
          run_from-IsApart c ts t.done_now (t.recover_now + c.recovery_cooldown) (tick c t m).0 o
              q',
        )
]

-- Over any rounds with a clock that does not run backwards, the first restart comes no earlier
-- than the grace time, and each later one no earlier than the cooldown and the grace time behind
-- the one before.
pub run-IsApart :
    (c : Settings) (ts : List Tick) → InOrder 0 ts → IsApart c 0 (run_from c init ts).1
unfolding init
run-IsApart c ts o = run_from-IsApart c ts 0 0 init o (omega arith, tt)
