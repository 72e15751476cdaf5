-- ===== src/Lib.antt =====
-- Verification of the PX4_DXP rover software: a ground rover that follows a path and paints it.
-- Paths below are from the repository's root.
--
-- The rover's ROS nodes (src/) follow the path and drive the spray; the server (server/) starts
-- and stops missions, lets an operator drive by joystick, and watches the link to the flight
-- controller. The pure parts behind the nodes are modelled, each by one tree of modules:
--   * SprayFsm: src/spray_fsm.py. `tick`, `on_ack` and `note_event_reset` of
--     SpraySafetyStateMachine are the functions of the same names, on a record of the attributes;
--     a command sent is the Option that they return.
--   * SprayModes.Dash and SprayModes.Point: src/spray_modes.py, DashPattern.update and
--     PointMeter.update, which say where spray is wanted; SprayFsm then decides what is sent.
--     SprayModes.Floats is the interface of the float operations that PointMeter calls.
--   * Progress: src/progress_classifier.py and the message of src/mission_progress.py. `classify`
--     and `milestones_for` are functions of the same names.
--   * Manual.Arbiter: server/control_arbiter.py, who owns the vehicle. Manual.Gateway:
--     server/manual_control_gateway.py, the sender of stick frames. Manual.Control, Manual.Drive
--     and Manual.Joystick: server/joystick_controller.py, which holds both and drives them: its
--     state, `handle_command`, and the lease.
--   * Emergency: server/emergency.py, `estop_async`, which neutralizes the joystick first.
--   * Loading: server/mission_loading.py, `load_path_for_controller` cut at its await, on the
--     controller of Offboard.
--   * Bridge: server/bridge_health.py, `_tick` and `_recover`.
--   * Session: src/spray_session_config.py, the parser and the writer of a spray configuration,
--     and server/spray_session_builder.py, which builds what the node parses.
--   * Placement: server/mission_placement.py, `resolve_surveyed_points`, on
--     server/origin_health.py and the map projection of path_engine/ned.py.
--   * Offboard: server/offboard_controller.py. Controller is its state with `load_path` and
--     `clear_mission_async`, Entry the geometry of the entry leg, Start `start_async`, Halt
--     `stop_async`, `abort_async` and `disarm_async`, Calls what the telemetry loop calls; Events
--     puts the calls in sequences.
--   * EntityOrder: path_engine/entity_order.py, `apply_entity_order`.
--   * Channels: src/mission_progress.py, `to_json` and `from_json` of its messages.
--   * SprayStatus: src/spray_status.py, `make_status` and its sanitizers.
--   * Runner: src/mission_runner_node.py, the phases of a mission and the requests they send.
--   * SegmentOrder: path_engine/optimizers/segment_order.py, `optimize_segment_order`. Segment is the
--     segment of path_engine/core.py, Paint the cost of a route, Search the local search.
--   * PointHold: src/rpp_controller_node.py, `_point_hold_tick`, `_point_handshake_ready` and the
--     callbacks and resets around them.
--   * Handshake: src/spray_controller_node.py, its side of the point handshake, and the two nodes
--     together: a completion goes from one to the other as JSON and may be lost.
--   * SprayNode: src/spray_controller_node.py, the safety gates (Gates), the callbacks and timers
--     (Calls, Events) and the commands that they send through SprayFsm.
-- Prelude holds the shared tests, lists and integers.
--
-- Times are whole ticks of a clock, lengths whole length units (nanometres in the dash pattern,
-- where the tolerance is 1), stick positions millionths of full deflection; ids, reasons and
-- messages are numbers, as they are only stored and compared. Where a float is only passed on or
-- compared, an integer stands for it; rounding of sums of floats is not modelled. Asynchronous
-- code is cut at its awaits: `acquire` and `release` are two functions each, and histories let
-- other calls come in between. What the transport, the ROS node and the clock answer are arguments.
--
-- Bounds: PointMeter's loop has the source's guard of 8 rounds as its fuel, and the dash pattern's
-- loop the source's guard of 10001 flips; when that is enough is stated with the theorems on them.
-- The loop that dispatches a command of the spray node has 3 turns as its fuel: behind two
-- failures in a row the state machine asks for nothing. All other loops are structural.
--
-- Placement, the entry leg, SegmentOrder and PointHold compute on floats through the interface Placement.Telemetry.Floats,
-- of which nothing is assumed. In Session a number is a whole number of millionths, a value that
-- is not finite, or an integer beyond the range of floats (Channels too); JSON objects are lists of fields.
--
-- Not modelled: the ROS nodes but for the runner and the point hold (the path following of
-- rpp_controller_node, the rest of spray_controller_node and of src/), the path engine but for the
-- projection and the orders of entities and segments, the path manager, HTTP routes, tokens, file
-- handling, logs and emits: I/O or floating-point geometry around these
-- components. Of the offboard controller, calls that overlap a start or a stop at its awaits.
pub mod Prelude
pub mod SprayFsm
pub mod SprayModes
pub mod Progress
pub mod Manual
pub mod Emergency
pub mod Loading
pub mod Bridge
pub mod Session
pub mod Placement
pub mod Offboard
pub mod EntityOrder
pub mod Channels
pub mod SprayStatus
pub mod Runner
pub mod SegmentOrder
pub mod PointHold
pub mod Handshake
pub mod SprayNode
