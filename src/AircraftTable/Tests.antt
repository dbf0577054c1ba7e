-- ===== src/AircraftTable/Tests.antt =====
-- Runs of the aircraft table, and its theorems at concrete histories.
use euroscope_plugin_bridge.Prelude.{
  ℕ, ◌+◌, ◌*◌, ◌^◌, ◌≡◌, ◌≢◌, refl, List, [], ◌∷◌, some, arith, true, bytes_eq, if◌then◌else◌,
}
use euroscope_plugin_bridge.Prelude.Maps.{lookup, emplace, bytes_key}
use euroscope_plugin_bridge.Status.{ok, unknown_aircraft}
use euroscope_plugin_bridge.AircraftTable.{
  Bytes, Table, empty_table, entry_at, observe, observe_new, retire, retire_slot, sweep, sweep_loop,
  sweep_round, fate, age, resolve, validate, callsign_of, handle, slot_of, generation_of,
  aircraft_none,
}
use euroscope_plugin_bridge.AircraftTable.History.{
  Call, observes, retires, sweeps, call, run, IsAged, run-empty_table-IsAged, stale_forever,
}
use euroscope_plugin_bridge.AircraftTable.Resolve.{resolve-observe, resolve-retire, is_expired}
use euroscope_plugin_bridge.AircraftTable.Lifetime.{resolve-sweep, resolve-valid, observe-retire}

abbrev afr : Bytes
afr = b'A' ∷ b'F' ∷ b'R' ∷ []

abbrev baw : Bytes
baw = b'B' ∷ b'A' ∷ b'W' ∷ []

abbrev before : List Call
before = observes (some afr) 5 ∷ observes (some baw) 7 ∷ []

-- AFR leaves, BAW ages out, and both slots are reclaimed and taken anew.
abbrev after : List Call
after = sweeps 100 50 20 ∷ sweeps 200 50 20 ∷ observes (some baw) 201 ∷ observes (some afr) 202 ∷ []

abbrev afr_handle : ℕ
afr_handle = 1 * 2 ^ 32

abbrev traffic : Table
traffic = run empty_table before

traffic-IsAged : IsAged 2 traffic
traffic-IsAged = run-empty_table-IsAged before (omega arith)

run-empty_table-IsAged_example : IsAged 2 traffic
run-empty_table-IsAged_example = run-empty_table-IsAged before (omega arith)

afr_valid : validate traffic afr_handle ≡ ok
unfolding run call observe observe_new lookup emplace bytes_eq validate slot_of generation_of handle
afr_valid = refl

afr_retired : validate (call traffic (retires (some afr))) afr_handle ≢ ok
unfolding run call observe observe_new lookup emplace bytes_eq validate slot_of generation_of handle
    retire retire_slot
afr_retired e = cc

stale_forever_example : validate (run (call traffic (retires (some afr))) after) afr_handle ≢ ok
stale_forever_example =
    stale_forever before after (retires (some afr)) afr_handle (omega arith) afr_valid afr_retired

afr_resolves : resolve traffic (some afr) ≡ (ok, afr_handle)
unfolding run call observe observe_new lookup emplace bytes_eq resolve handle
afr_resolves = refl

resolve-valid_run :
    (validate traffic afr_handle ≡ ok)
    × (callsign_of traffic afr_handle (some 32) true ≡ (ok, some (3 + 1), some afr))
resolve-valid_run =
    resolve-valid 2 traffic afr afr_handle 32 traffic-IsAged (omega arith) afr_resolves
      (omega arith) (omega arith)

resolve-observe_example : resolve (observe traffic (some baw) 9).0 (some afr) ≡ (
    if bytes_eq baw afr then (ok, (observe traffic (some baw) 9).1) else resolve traffic (some afr))
resolve-observe_example =
    resolve-observe traffic b'B' (b'A' ∷ b'W' ∷ []) afr 9 traffic-IsAged.wf
      (omega (arith, traffic-IsAged.slots))

resolve-retire_example :
    resolve (retire traffic (some afr)).0 (some baw)
    ≡ (if bytes_eq afr baw then (unknown_aircraft, aircraft_none) else resolve traffic (some baw))
resolve-retire_example = resolve-retire traffic b'A' (b'F' ∷ b'R' ∷ []) baw traffic-IsAged.wf

resolve-sweep_run : resolve (sweep traffic 56 50 20).0 (some afr) ≡ (
    if is_expired traffic 56 50 afr
    then (unknown_aircraft, aircraft_none)
    else resolve traffic (some afr))
resolve-sweep_run = resolve-sweep traffic 56 50 20 afr traffic-IsAged.wf

observe-retire_example :
    let t' = (retire traffic (some afr)).0 in
    let again = observe t' (some afr) 60 in
    ((retire traffic (some afr)).1 ≡ some (slot_of afr_handle))
    × (again.1 ≡ handle (slot_of afr_handle) (generation_of afr_handle + 1))
    × ((entry_at again.0 (slot_of afr_handle)).first_seen ≡ 60)
observe-retire_example =
    observe-retire 2 traffic b'A' (b'F' ∷ b'R' ∷ []) afr_handle 60 traffic-IsAged (omega arith)
      afr_resolves

-- AFR was seen at 5 and is retired at 56, BAW at 7 is not.
sweep_run : resolve (sweep traffic 56 50 20).0 (some afr) ≡ (unknown_aircraft, aircraft_none)
unfolding run call observe observe_new lookup emplace bytes_eq resolve handle sweep sweep_loop
    sweep_round fate age
sweep_run = refl
