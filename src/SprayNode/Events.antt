-- ===== src/SprayNode/Events.antt =====
-- src/spray_controller_node.py: the callbacks and timers of the spray node as events.
use px4_dxp.Prelude.{ℕ, Bool, some, List, [], ◌∷◌, ◌++◌}
use px4_dxp.SprayNode.Gates.{Params, Node}
use px4_dxp.SprayNode.Calls.{
  Clock, Decision, Sent, state_cb, active_cb, manual_cb, gps_cb, segment_debug_cb, expire_manual,
  mode_tick, command_done, reassert_tick, service_probe_tick,
}

pub data Event : Type 0 where
  state_comes : Bool → Bool → Event
  active_comes : Bool → Event
  manual_comes : Bool → Event
  gps_comes : ℕ → ℕ → Event
  segment_comes : ℕ → Event
  pose_comes velocity_comes : Event
  -- The two halves of `_watchdog_tick`.
  override_expires : Event
  mode_ticks : (Bool → Decision) → Event
  command_answered : ℕ → Bool → Event
  reasserts : Event
  service_probed : Bool → Event

-- A callback at a time, with the parameters that hold then.
unfoldable pub handle : Params → Clock → Event → Node → Sent
unfolding state_cb active_cb manual_cb gps_cb segment_debug_cb expire_manual mode_tick command_done
    reassert_tick service_probe_tick
handle c t (state_comes armed is_offboard) n = state_cb c t.mono armed is_offboard n
handle c t (active_comes raw) n = active_cb c t raw n
handle c t (manual_comes on) n = manual_cb c t on n
handle c t (gps_comes fix accuracy) n = (gps_cb t.now fix accuracy n, [])
handle c t (segment_comes state) n = (segment_debug_cb t.now state n, [])
handle c t pose_comes n = (record n { pose_time = some t.now }, [])
handle c t velocity_comes n = (record n { velocity_time = some t.now }, [])
handle c t override_expires n = expire_manual c t n
handle c t (mode_ticks decide) n = mode_tick c t decide n
handle c t (command_answered seq success) n = command_done c t.mono seq success n
handle c t reasserts n = reassert_tick c t.mono n
handle c t (service_probed is_there) n = service_probe_tick c t.mono is_there n

pub record Happening : Type 0 where
  pub params : Params
  pub clock : Clock
  pub event : Event

unfoldable pub run_from : Node → List Happening → Sent
unfolding handle
run_from n [] = (n, [])
run_from n (h ∷ hs) =
    let s = handle h.params h.clock h.event n in let t = run_from s.0 hs in (t.0, s.1 ++ t.1)
