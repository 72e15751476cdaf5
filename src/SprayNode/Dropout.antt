-- ===== src/SprayNode/Dropout.antt =====
-- The wait behind a dropout of the GPS, when another gate hides the dropout.
use px4_dxp.Prelude.{ℕ, ◌+◌, ◌≤◌, ◌≡◌, refl, sym, subst, arith, Bool, true, false, some, leb}
use px4_dxp.SprayNode.Gates.{Params, Node, auto_safety_status, gps_gate, gps_health}
use px4_dxp.SprayNode.Calls.{gps_cb}

-- The gates of a vehicle that is not armed change nothing.
not_ready :
    (c : Params) (now : ℕ) (pose velocity : Bool) (n : Node)
    → n.armed ≡ false
    → auto_safety_status c now pose velocity n ≡ (n, false)
unfolding auto_safety_status
not_ready c now pose velocity n e = rw (e) refl

-- A good sample opens the gate when the time of recovery is over.
opens :
    (c : Params) (n : Node) (since back fix : ℕ)
    → n.gps_recover_since ≡ some since
    → c.require_rtk_fix ≡ true
    → c.min_fix_type ≤ fix
    → since + c.recover_hold ≤ back
    → (gps_gate c back (record (gps_cb back fix 0 n) { armed = true })).1 ≡ true
unfolding gps_cb gps_gate gps_health
opens c n since back fix s r f h =
    rw (r, is_leb back (back + c.gps_timeout) (omega arith), is_leb c.min_fix_type fix f, s)
      (is_leb (since + c.recover_hold) back h)
  where
    is_leb : (a b : ℕ) → a ≤ b → leb a b ≡ true
    is_leb a b l = ground (arith, l)

-- A sample without a fix that comes while the vehicle is disarmed is forgotten: when the fix was good
-- for the time of recovery once before, the first good sample behind it opens the gate, however short
-- the fix has been back.
pub dropout_forgotten :
    (c : Params) (n : Node) (since drop back fix : ℕ) (pose velocity : Bool)
    → n.armed ≡ false
    → n.gps_recover_since ≡ some since
    → c.require_rtk_fix ≡ true
    → c.min_fix_type ≤ fix
    → since + c.recover_hold ≤ back
    → let lost = (auto_safety_status c drop pose velocity (gps_cb drop 0 0 n)).0 in
      (gps_gate c back (record (gps_cb back fix 0 lost) { armed = true })).1 ≡ true
unfolding gps_cb
dropout_forgotten c n since drop back fix pose velocity e s r f h =
    subst
      (λ (m : Node × Bool).
        (gps_gate c back (record (gps_cb back fix 0 m.0) { armed = true })).1 ≡ true)
      (sym (not_ready c drop pose velocity (gps_cb drop 0 0 n) e))
      (opens c (gps_cb drop 0 0 n) since back fix s r f h)
