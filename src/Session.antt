-- ===== src/Session.antt =====
-- src/spray_session_config.py and server/spray_session_builder.py: the configuration of a spray
-- session, its parser and its two writers.
pub mod Json
pub mod Config
pub mod Writer
pub mod Roundtrip
pub mod Post
pub mod Checks
pub mod Builder
pub mod Accepted
mod Tests
