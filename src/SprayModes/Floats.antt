-- ===== src/SprayModes/Floats.antt =====
-- Python's floats and the `math` functions that src/spray_modes.py calls on positions, angles and
-- speeds, as an interface: nothing is assumed of them.
use px4_dxp.Prelude.{Bool}

pub record Floats : Type 1 where
  pub Num : Type 0
  pub origin : Num
  pub pi : Num
  pub two_pi : Num
  pub add : Num → Num → Num
  pub sub : Num → Num → Num
  pub mod_by : Num → Num → Num
  pub greater : Num → Num → Num
  pub hypot : Num → Num → Num
  pub atan2 : Num → Num → Num
  pub degrees : Num → Num
  pub fabs : Num → Num
  pub le : Num → Num → Bool
