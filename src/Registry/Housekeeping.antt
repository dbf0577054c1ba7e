-- ===== src/Registry/Housekeeping.antt =====
-- Housekeeping of src/Registry.cpp, which the plugin's timer calls about once a second.
-- What ModuleIsLoaded answers, what the operating system does with the state file and what has arrived from
-- the relay are arguments, as is whether this is the main thread. Without a relay nothing is drained. The
-- differences of two uint64_t wrap.
use euroscope_plugin_bridge.Prelude.{ℕ, Bool, not, List, Option, none, some, ltb, if◌then◌else◌}
use euroscope_plugin_bridge.Text.{Bytes}
use euroscope_plugin_bridge.Json.Double.{Double}
use euroscope_plugin_bridge.Relay.{Message, Relay}
use euroscope_plugin_bridge.Registry.{Registry}
use euroscope_plugin_bridge.Registry.Drop.{reap_dead_modules, sweep_aircraft}
use euroscope_plugin_bridge.Registry.Outbox.{drain_relay}
use euroscope_plugin_bridge.Registry.State.{Attempt, Disk, since, flush_state_if_due}

unfoldable pub reap_if_due : (ℕ → Bytes → Bool) → ℕ → Registry → Registry
reap_if_due module_is_loaded now r =
    if ltb (since now r.last_module_check_ms) 5000
    then r
    else reap_dead_modules module_is_loaded (record r { last_module_check_ms = now })

unfoldable pub sweep_if_due : ℕ → Registry → Registry
sweep_if_due now r =
    if ltb (since now r.last_aircraft_sweep_ms) 30000
    then r
    else sweep_aircraft (record r { last_aircraft_sweep_ms = now }) now

-- What a round of Housekeeping works on.
pub record House : Type 0 where
  pub registry : Registry
  pub relay : Option Relay
  pub disk : Disk

module _ (d : Double) (parse_f64 : Bytes → Option (ℕ × Bytes))
    (module_is_loaded : ℕ → Bytes → Bool) where
  unfoldable pub drain_if_relay :
      ℕ → List Message → Registry → Option Relay → Registry × Option Relay
  drain_if_relay now arrived r none = (r, none)
  drain_if_relay now arrived r (some relay) =
      let (r', relay') = drain_relay d.print parse_f64 now arrived r relay in (r', some relay')

  unfoldable pub housekeeping : Bool → Attempt → ℕ → List Message → House → House
  housekeeping main a now arrived h =
      let swept = sweep_if_due now (reap_if_due module_is_loaded now h.registry) in
      let (flushed, disk') = flush_state_if_due d a now swept h.disk in
      let (drained, relay') = drain_if_relay now arrived flushed h.relay in
      if not main then h else record { registry = drained; relay = relay'; disk = disk' }
