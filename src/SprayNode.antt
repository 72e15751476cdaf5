-- ===== src/SprayNode.antt =====
-- src/spray_controller_node.py: the gates of the spray node and how it drives the state machine of
-- SprayFsm. Gates holds what the node knows and its safety gates, Calls its callbacks and timers.
pub mod Gates
pub mod Calls
pub mod Events
pub mod Sends
pub mod Dropout
mod Tests
