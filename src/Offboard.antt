-- ===== src/Offboard.antt =====
-- server/offboard_controller.py: the life of a mission, on the placement of Placement and the
-- ownership of Manual.Arbiter. What the ROS node answers to each call is an argument, and what is
-- asked of it is a list of commands; `get_state` gives a snapshot and does not raise. The texts of
-- messages and the log are left out. The calls under the lifecycle lock do not overlap.
pub mod Controller
pub mod Entry
pub mod Launch
pub mod Start
pub mod Halt
pub mod Calls
pub mod Leg
pub mod Arming
pub mod Events
pub mod Keeps
pub mod Life
pub mod Stash
pub mod Ends
mod Tests
