-- ===== src/Manual.antt =====
-- server/control_arbiter.py, server/manual_control_gateway.py and server/joystick_controller.py:
-- manual driving by a remote joystick, and its exclusion with the mission.
pub mod Arbiter
pub mod Gateway
pub mod Control
pub mod Drive
pub mod Joystick
