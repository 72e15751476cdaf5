-- ===== src/Placement.antt =====
-- server/mission_placement.py, server/origin_health.py and path_engine/ned.py: where a surveyed
-- mission lies in the live frame of the vehicle. Python's floats and its `math` module are the
-- interface `Floats`, of which nothing is assumed; the entries of the telemetry dictionary have
-- the types that the server writes, so the errors of `float` on other values are left out.
pub mod Telemetry
pub mod Ned
pub mod Health
pub mod Resolve
pub mod Gates
pub mod Frame
pub mod Flat
mod Tests
