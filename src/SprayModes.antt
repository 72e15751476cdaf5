-- ===== src/SprayModes.antt =====
-- src/spray_modes.py: the engines of the dash and the point mode.
pub mod Floats
pub mod Point
pub mod Dash
