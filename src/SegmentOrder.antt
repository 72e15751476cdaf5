-- ===== src/SegmentOrder.antt =====
-- path_engine/optimizers/segment_order.py: the order in which the marks of a path are driven.
pub mod Segment
pub mod Paint
pub mod Search
pub mod Route
pub mod Same
pub mod Cost
pub mod Order
mod Tests
