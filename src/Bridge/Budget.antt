-- ===== src/Bridge/Budget.antt =====
-- How often the watchdog may restart the service.
use px4_dxp.Prelude.{
  ℕ, ◌+◌, ◌≤◌, ◌<◌, ◌≡◌, ◌⊎◌, inl, inr, refl, sym, ap, ◌∙◌, Option, none, some, List, [], ◌∷◌, ◌++◌,
  arith, ltb, length, get_elem?, All, All-map, All-append, All-get, append_assoc, append_nil,
  length-append, get_elem?-append_left, get_elem?-snoc, subst, Bool-cases,
}
use px4_dxp.Bridge.{
  Health, Settings, Snapshot, Cause, Manager, init, Tick, prune, recover, thaw, act, freeze, tick,
  tick_with, is_frozen, reason, restarts, run_from,
}

-- The times that the window has left behind.
abbrev Expired : ℕ → ℕ → ℕ → Type 0
Expired window now t = t + window < now

record Pruned (window now : ℕ) (times kept : List ℕ) : Type 0 where
  dropped : List ℕ
  split : times ≡ dropped ++ kept
  expired : All (Expired window now) dropped

prune-Pruned : (window now : ℕ) (times : List ℕ) → Pruned window now times (prune window now times)
unfolding prune
prune-Pruned window now [] = record { dropped = []; split = refl; expired = tt }
prune-Pruned window now (t ∷ times) =
    let r = prune-Pruned window now times in
    elim (Bool-cases (ltb (t + window) now)) [
      | inl e ↦ rw e (record {
        dropped = t ∷ r.dropped;
        split = ap (t ∷◌) r.split;
        expired = (ground arith, r.expired);
      })
      | inr e ↦ rw e (record { dropped = []; split = refl; expired = tt })
    ]

-- What one tick does to the recovery times, with the restarts that it asks for.
abbrev Moved : Settings → Tick → Manager → Manager → List ℕ → Type 0
Moved c t m m' rs =
    ((m'.recovery_times ≡ m.recovery_times) × (rs ≡ []))
    ⊎ (((m'.recovery_times ≡ prune c.recovery_window t.recover_now m.recovery_times) × (rs ≡ []))
        ⊎ ((length (prune c.recovery_window t.recover_now m.recovery_times) < c.recovery_max)
            × (m'.recovery_times
                ≡ prune c.recovery_window t.recover_now m.recovery_times ++ (t.recover_now ∷ []))
            × (rs ≡ t.recover_now ∷ [])))

recover-Moved :
    (c : Settings) (t : Tick) (why : List Cause) (m : Manager)
    → Moved c t m (recover c t why m).0 (restarts (recover c t why m).1)
unfolding recover
recover-Moved c t why m = ground arith

act-Moved :
    (c : Settings) (t : Tick) (why : List Cause) (since : ℕ) (m : Manager)
    → Moved c t m (act c t why since m).0 (restarts (act c t why since m).1)
unfolding act
act-Moved c t why since m = ground (arith, recover-Moved c t why m)

freeze-Moved :
    (c : Settings) (t : Tick) (why : List Cause) (o : Option ℕ) (m : Manager)
    → Moved c t m (freeze c t why o m).0 (restarts (freeze c t why o m).1)
freeze-Moved c t why none m =
    act-Moved c t why t.now (record m { health = Health.degraded; degraded_since = some t.now })
freeze-Moved c t why (some since) m = act-Moved c t why since m

tick_with-Moved :
    (c : Settings) (t : Tick) (o : Option Snapshot) (m : Manager)
    → Moved c t m (tick_with c t o m).0 (restarts (tick_with c t o m).1)
unfolding thaw
tick_with-Moved c t none m = inl (refl, refl)
tick_with-Moved c t (some s) m =
    let f = freeze-Moved c t (reason c s) m.degraded_since m in
    elim (Bool-cases (ltb t.now m.cooldown_until)) [
      | inl e ↦ rw e (inl (refl, refl))
      | inr e ↦ elim (Bool-cases (is_frozen c s)) [
        | inl i ↦ rw (e, i) f
        | inr i ↦ rw (e, i) (inl (refl, ground arith))
      ]
    ]

tick-Moved :
    (c : Settings) (t : Tick) (m : Manager) → Moved c t m (tick c t m).0 (restarts (tick c t m).1)
unfolding tick
tick-Moved c t m = tick_with-Moved c t t.snapshot m

-- Of the restarts in a list, those `max` places apart are more than a window apart: no window
-- holds more than `max` of them.
abbrev pub IsSpaced : ℕ → ℕ → List ℕ → Type 0
IsSpaced window max log =
    (i a b : ℕ) → get_elem? log i ≡ some a → get_elem? log (i + max) ≡ some b → a + window < b

-- The log of the restarts against what the watchdog keeps of it.
record Logged (c : Settings) (log : List ℕ) (last : ℕ) (m : Manager) : Type 0 where
  old : List ℕ
  split : log ≡ old ++ m.recovery_times
  expired : All (Expired c.recovery_window last) old
  spaced : IsSpaced c.recovery_window c.recovery_max log

later-Expired :
    (window last now : ℕ) (ts : List ℕ)
    → last ≤ now
    → All (Expired window last) ts
    → All (Expired window now) ts
later-Expired window last now ts h a = All-map ts (λ x p. omega arith) a

later-Logged :
    {c : Settings} {log : List ℕ} {m : Manager} (last now : ℕ)
    → Logged c log last m
    → last ≤ now
    → Logged c log now m
later-Logged {c} last now g h = record {
  old = g.old;
  split = g.split;
  expired = later-Expired c.recovery_window last now g.old h g.expired;
  spaced = g.spaced;
}

-- The times that are dropped join the old ones.
record Split (c : Settings) (log : List ℕ) (now : ℕ) (kept : List ℕ) : Type 0 where
  old : List ℕ
  split : log ≡ old ++ kept
  expired : All (Expired c.recovery_window now) old

Logged-Split :
    (c : Settings) (log : List ℕ) (last now : ℕ) (m : Manager)
    → last ≤ now
    → Logged c log last m
    → Split c log now (prune c.recovery_window now m.recovery_times)
Logged-Split c log last now m h g =
    let p = prune-Pruned c.recovery_window now m.recovery_times in
    record {
      old = g.old ++ p.dropped;
      split = g.split ∙ ap (g.old ++◌) p.split ∙ sym (append_assoc g.old p.dropped _);
      expired =
          All-append (Expired c.recovery_window now) g.old p.dropped
            (later-Expired c.recovery_window last now g.old h g.expired) p.expired;
    }

-- A restart that the budget allows keeps the log spaced.
added-IsSpaced :
    (c : Settings) (log kept : List ℕ) (now : ℕ)
    → Split c log now kept
    → length kept < c.recovery_max
    → IsSpaced c.recovery_window c.recovery_max log
    → IsSpaced c.recovery_window c.recovery_max (log ++ (now ∷ []))
added-IsSpaced c log kept now s h g i a b ha hb =
    elim (get_elem?-snoc log now (i + c.recovery_max) b hb) [
      | inl (l, e) ↦ g i a b (sym (get_elem?-append_left i log (now ∷ []) (omega arith)) ∙ ha) e
      | inr (l, e) ↦
          let n : length log ≡ length s.old + length kept =
            ap length s.split ∙ length-append s.old kept in
          let k : get_elem? s.old i ≡ some a =
            sym (get_elem?-append_left i s.old kept (omega arith))
            ∙ ap (λ xs. get_elem? xs i) (sym s.split)
            ∙ sym (get_elem?-append_left i log (now ∷ []) (omega arith))
            ∙ ha in
          let x = All-get (Expired c.recovery_window now) i s.old a k s.expired in
          omega (arith, x, e)
    ]

Moved-Logged :
    (c : Settings) (t : Tick) (log : List ℕ) (last : ℕ) (m m' : Manager) (rs : List ℕ)
    → last ≤ t.recover_now
    → Moved c t m m' rs
    → Logged c log last m
    → Logged c (log ++ rs) t.recover_now m'
Moved-Logged c t log last m m' rs h (inl (e, f)) g = record {
  old = g.old;
  split = ap (log ++◌) f ∙ append_nil log ∙ g.split ∙ ap (g.old ++◌) (sym e);
  expired = later-Expired c.recovery_window last t.recover_now g.old h g.expired;
  spaced =
      subst (IsSpaced c.recovery_window c.recovery_max) (sym (ap (log ++◌) f ∙ append_nil log))
        g.spaced;
}
Moved-Logged c t log last m m' rs h (inr (inl (e, f))) g =
    let s = Logged-Split c log last t.recover_now m h g in
    record {
      old = s.old;
      split = ap (log ++◌) f ∙ append_nil log ∙ s.split ∙ ap (s.old ++◌) (sym e);
      expired = s.expired;
      spaced =
          subst (IsSpaced c.recovery_window c.recovery_max) (sym (ap (log ++◌) f ∙ append_nil log))
            g.spaced;
    }
Moved-Logged c t log last m m' rs h (inr (inr (l, e, f))) g =
    let s = Logged-Split c log last t.recover_now m h g in
    record {
      old = s.old;
      split =
          ap (log ++◌) f
          ∙ ap (◌++ (t.recover_now ∷ [])) s.split
          ∙ append_assoc s.old (prune c.recovery_window t.recover_now m.recovery_times)
              (t.recover_now ∷ [])
          ∙ ap (s.old ++◌) (sym e);
      expired = s.expired;
      spaced =
          subst (λ r. IsSpaced c.recovery_window c.recovery_max (log ++ r)) (sym f)
            (added-IsSpaced c log (prune c.recovery_window t.recover_now m.recovery_times)
              t.recover_now s l g.spaced);
    }

-- The readings of a clock that does not run backwards.
abbrev pub InOrder : ℕ → List Tick → Type 0
InOrder last [] = Unit
InOrder last (t ∷ ts) =
    (last ≤ t.now) × (t.now ≤ t.recover_now) × (t.recover_now ≤ t.done_now) × InOrder t.done_now ts

run_from-IsSpaced :
    (c : Settings) (ts : List Tick) (log : List ℕ) (last : ℕ) (m : Manager)
    → InOrder last ts
    → Logged c log last m
    → IsSpaced c.recovery_window c.recovery_max (log ++ (run_from c m ts).1)
unfolding run_from
run_from-IsSpaced c [] log last m o g =
    subst (IsSpaced c.recovery_window c.recovery_max) (sym (append_nil log)) g.spaced
run_from-IsSpaced c (t ∷ ts) log last m (p, q, r, o) g =
    let rs = restarts (tick c t m).1 in
    let k = Moved-Logged c t log last m (tick c t m).0 rs (omega arith) (tick-Moved c t m) g in
    subst (IsSpaced c.recovery_window c.recovery_max)
      (append_assoc log rs (run_from c (tick c t m).0 ts).1)
      (run_from-IsSpaced c ts (log ++ rs) t.done_now (tick c t m).0 o
        (later-Logged t.recover_now t.done_now k r))

-- Over any rounds with a clock that does not run backwards, any two restarts of the service that
-- are `recovery_max` places apart are more than the recovery window apart, so that no window holds
-- more than `recovery_max` of them.
pub run_budget :
    (c : Settings) (ts : List Tick)
    → InOrder 0 ts
    → IsSpaced c.recovery_window c.recovery_max (run_from c init ts).1
unfolding init
run_budget c ts o =
    run_from-IsSpaced c ts [] 0 init o
      (record { old = []; split = refl; expired = tt; spaced = λ i a b h k. ground arith })
