-- ===== src/Registry/Drop.antt =====
-- The values that go with an aircraft or a provider: DropAircraftSlot, DropProviderValues and their
-- callers in src/Registry.cpp. ModuleIsLoaded is a parameter.
pub mod Depth
pub mod Indexed
pub mod Unregistered
use euroscope_plugin_bridge.Prelude.{
  ℕ, zero, suc, ◌+◌, ◌%◌, ◌^◌, Bool, true, false, not, ◌&&◌, ◌||◌, List, [], ◌∷◌, Option, none,
  some, leb, ◌==◌, if◌then◌else◌, length, get_elem?, set,
}
use euroscope_plugin_bridge.Prelude.Maps.{lookup, erase, nat_eq, bytes_key}
use euroscope_plugin_bridge.Status.{Status, ok, invalid_arg, wrong_thread}
use euroscope_plugin_bridge.Value.{Slot}
use euroscope_plugin_bridge.Schema.{Bytes, ProviderDef, SubscriptionDef, scope_global}
use euroscope_plugin_bridge.AircraftTable.{observe, retire, sweep}
use euroscope_plugin_bridge.Registry.Indexed.{has_field}
use euroscope_plugin_bridge.Registry.{
  Registry, RemoteEntry, aircraft_key, tick, provider_at, field_def, owner,
}

-- Every remote value at the slot.
pub drop_remote_slot : ℕ → List (ℕ × List RemoteEntry) → List (ℕ × List RemoteEntry)
drop_remote_slot slot [] = []
drop_remote_slot slot ((key, entries) ∷ m) =
    let rest = drop_remote_slot slot m in
    if key % 2 ^ 32 == slot then rest else (key, entries) ∷ rest

pub drop_fields : List ℕ → ℕ → List (ℕ × Slot) → List (ℕ × Slot)
drop_fields [] slot aircraft = aircraft
drop_fields (i ∷ is) slot aircraft = drop_fields is slot (erase (aircraft_key i slot) aircraft)

pub drop_aircraft_slot : Registry → ℕ → Registry
drop_aircraft_slot r slot =
    let r' = record r { remote = drop_remote_slot slot r.remote } in
    elim (lookup slot r.slot_fields) [
      | none ↦ r'
      | some fields ↦ record r' {
        aircraft = drop_fields fields slot r.aircraft;
        slot_fields = erase slot r.slot_fields;
      }
    ]

pub drop_aircraft_slots : Registry → List ℕ → Registry
drop_aircraft_slots r [] = r
drop_aircraft_slots r (slot ∷ slots) = drop_aircraft_slots (drop_aircraft_slot r slot) slots

-- `fields.erase(std::find(…))`
pub erase_first : ℕ → List ℕ → List ℕ
erase_first i [] = []
erase_first i (j ∷ js) = let rest = erase_first i js in if j == i then js else j ∷ rest

abbrev keep_fields : ℕ → List ℕ → List (ℕ × List ℕ) → List (ℕ × List ℕ)
keep_fields slot [] rest = rest
keep_fields slot (j ∷ js) rest = (slot, j ∷ js) ∷ rest

-- The walk over m_slotFields for one field: the values that stay, and what is left of the index.
pub drop_field : ℕ → List (ℕ × List ℕ) → List (ℕ × Slot) → List (ℕ × Slot) × List (ℕ × List ℕ)
drop_field i [] aircraft = (aircraft, [])
drop_field i ((slot, fields) ∷ m) aircraft =
    let found = has_field i fields in
    let aircraft' = if found then erase (aircraft_key i slot) aircraft else aircraft in
    let fields' = if found then erase_first i fields else fields in
    let (dropped, rest) = drop_field i m aircraft' in (dropped, keep_fields slot fields' rest)

unfoldable pub drop_field_values : Registry → ℕ → Registry
drop_field_values r i =
    let (aircraft', slot_fields') = drop_field i r.slot_fields r.aircraft in
    if (field_def r i).scope == scope_global
    then record r { globals = erase i r.globals }
    else record r { aircraft = aircraft'; slot_fields = slot_fields' }

unfoldable pub drop_each : Registry → List ℕ → Registry
drop_each r [] = r
drop_each r (i ∷ is) = drop_each (drop_field_values r i) is

unfoldable pub drop_provider_values : Registry → ℕ → Registry
drop_provider_values r p =
    if leb (length r.providers) p then r else drop_each r (provider_at r p).fields

pub observe_aircraft : Registry → Option Bytes → ℕ → Registry × ℕ
observe_aircraft r callsign now =
    let (t, a) = observe r.table callsign now in (record r { table = t }, a)

-- With what Retire returned: the table, and the slot of an aircraft that was retired.
abbrev pub after_retire : Registry → Option ℕ → Registry
after_retire r none = r
after_retire r (some slot) = record (drop_aircraft_slot r slot) { clock = tick r }

pub retire_aircraft : Registry → Option Bytes → Registry
retire_aircraft r callsign =
    let (t, slot) = retire r.table callsign in after_retire (record r { table = t }) slot

abbrev pub after_sweep : Registry → List ℕ → Registry
after_sweep r [] = r
after_sweep r (slot ∷ slots) = record (drop_aircraft_slots r (slot ∷ slots)) { clock = tick r }

pub sweep_aircraft : Registry → ℕ → Registry
sweep_aircraft r now =
    let (t, retired, reclaimed) = sweep r.table now r.ttl r.grace in
    after_sweep (record r { table = t }) retired

-- `p.live = false`
abbrev pub with_dead : List ProviderDef → ℕ → ProviderDef → List ProviderDef
with_dead ps i d = set ps i (record d { live = false })

unfoldable pub unregister_owned : Registry → ℕ → Registry × Status
unregister_owned r o =
    let d = provider_at r o in
    let r' = record r { providers = with_dead r.providers o d } in
    let dropped : Registry = elim (lookup d.id r.provider_index) [
      | none ↦ r'
      | some i ↦ drop_provider_values r' i
    ] in
    (record dropped { clock = tick r }, ok)

unfoldable pub unregister_provider : Bool → Registry → Option ℕ → Registry × Status
unregister_provider main r p =
    if not main
    then (r, wrong_thread)
    else elim (owner r p) [ none ↦ (r, invalid_arg) | some o ↦ unregister_owned r o ]

module _ (module_is_loaded : ℕ → Bytes → Bool) where
  pub reap_provider : Registry → ℕ → Registry
  reap_provider r i =
      let d = provider_at r i in
      let dropped = drop_provider_values (record r { providers = with_dead r.providers i d }) i in
      if d.live && not (module_is_loaded d.module_handle d.module_path)
      then record dropped { clock = tick r }
      else r

  -- `n` providers from index `i` on.
  pub reap_providers : ℕ → ℕ → Registry → Registry
  reap_providers zero i r = r
  reap_providers (suc n) i r = reap_providers n (i + 1) (reap_provider r i)

  pub reap_subs : List SubscriptionDef → List SubscriptionDef
  reap_subs [] = []
  reap_subs (s ∷ subs) =
      (if s.live && not (module_is_loaded s.module_handle s.module_path)
        then record s { live = false }
        else s)
      ∷ reap_subs subs

  pub reap_dead_modules : Registry → Registry
  reap_dead_modules r =
      let r' = reap_providers (length r.providers) 0 r in record r' { subs = reap_subs r'.subs }
