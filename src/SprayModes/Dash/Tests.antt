-- ===== src/SprayModes/Dash/Tests.antt =====
-- Runs of `DashMeter`, with the source's defaults: jump factor 3 and five rejects.
use px4_dxp.Prelude.{ℕ, ◌+◌, ◌-◌, ◌≡◌, refl, true, false, arith, pos, none}
use px4_dxp.SprayModes.Dash.{
  on, off, Config, Dash, DashInput, eps, target, flip, crosses, toggles, update, move, track,
  max_step,
}
use px4_dxp.SprayModes.Dash.Pattern.{IsOnGrid, painted, update_paints}
use px4_dxp.SprayModes.Dash.Tracking.{steady_run, steady_wedged}

-- Six metres on, three off.
abbrev config : Config
config = record {
  on_distance = 6_000_000_000;
  off_distance = 3_000_000_000;
  jump_tolerance_factor = 3000;
  jump_reject_accept_after = 5;
}

-- At 7 m of a pattern that began on, at 0.
abbrev meter : Dash
meter = record {
  phase = off;
  anchor = none;
  armed = true;
  s_dash = 7_000_000_000;
  s_at_last_toggle = 6_000_000_000;
  reject_count = 0;
  reject_ref = none;
}

-- 0.3 m/s over 20 ms.
abbrev input_at : ℕ → DashInput
input_at s = record {
  raw_s = s;
  speed = pos 300_000_000;
  dt = pos 20_000_000;
  xtrack_ok = true;
  on_lead = pos 0;
  off_lead = pos 0;
}

step_is : max_step config (input_at 0) ≡ 18_000_000
unfolding max_step
step_is = refl

update-next : (update config (input_at 7_006_000_000) meter).1.geometry_desired ≡ false
unfolding update move track max_step toggles crosses flip target
update-next = refl

update_paints_example :
    let (d', u) = update config (input_at 7_006_000_000) meter in
    (u.geometry_desired ≡ painted config on (d'.s_dash + eps - 0)) × IsOnGrid config on 0 d'
unfolding update move track max_step toggles crosses flip target
update_paints_example =
    update_paints config on 0 3_000_000_000 (input_at 7_006_000_000) meter refl (0, refl)
      (omega arith) (refl, refl) refl (omega arith) (omega arith) (omega arith)

-- The rover is relocated 2 m ahead and drives on at 6 mm per tick.
steady_wedged_example :
    (steady_run 1000 config 6_000_000 (input_at 9_000_000_000) meter).s_dash ≡ 7_000_000_000
steady_wedged_example =
    steady_wedged 1000 config 6_000_000 (input_at 9_000_000_000) meter refl refl
      (unfold max_step in omega arith) (unfold max_step in omega arith)
