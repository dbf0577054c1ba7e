-- ===== src/Registry/Read.antt =====
-- GetGlobal, GetAircraft, AircraftHandle, AircraftCallsign, RevisionOf and ProviderRevision of
-- src/Registry.cpp.
-- A read has the caller's `*out`, the size of its buffer and whether there is one, as ReadSlot has them.
use euroscope_plugin_bridge.Prelude.{ℕ, ◌-◌, Bool, not, Option, none, some, ◌==◌, if◌then◌else◌}
use euroscope_plugin_bridge.Prelude.Maps.{lookup, nat_eq, bytes_key}
use euroscope_plugin_bridge.Status.{
  Status, ok, no_provider, no_field, unset, invalid_arg, wrong_thread,
}
use euroscope_plugin_bridge.Value.{Value, Slot, read_slot}
use euroscope_plugin_bridge.Schema.{FieldDef, Bytes, scope_global, scope_aircraft}
use euroscope_plugin_bridge.AircraftTable.{
  validate, slot_of, aircraft_none, resolve_to, callsign_of,
}
use euroscope_plugin_bridge.Registry.{Registry, field, provider_at, aircraft_key}

abbrev pub Reading : Type 0
Reading = Status × Value × Option ℕ

abbrev pub read_found : Option Slot → Value → Option ℕ → Bool → Reading
read_found none out io buf = (unset, out, io)
read_found (some s) out io buf = read_slot s out io buf

-- The guards on the field that both reads share.
abbrev pub read_field :
    Registry → Option FieldDef → ℕ → Option Slot → Value → Option ℕ → Bool → Reading
read_field r none scope s out io buf = (no_field, out, io)
read_field r (some fd) scope s out io buf =
    if not (fd.scope == scope)
    then (invalid_arg, out, io)
    else (if not (provider_at r fd.provider).live
        then (no_provider, out, io)
        else read_found s out io buf)

unfoldable pub get_global : Bool → Registry → ℕ → Value → Option ℕ → Bool → Reading
get_global main r f out io buf =
    if not main
    then (wrong_thread, out, io)
    else read_field r (field r f) scope_global (lookup (f - 1) r.globals) out io buf

unfoldable pub get_aircraft : Bool → Registry → ℕ → ℕ → Value → Option ℕ → Bool → Reading
get_aircraft main r a f out io buf =
    if not main then (wrong_thread, out, io) else elim (validate r.table a) [
      | ok ↦
          read_field r (field r f) scope_aircraft
            (lookup (aircraft_key (f - 1) (slot_of a)) r.aircraft) out io buf
      | st ↦ (st, out, io)
    ]

abbrev pub revision_found : Option Slot → ℕ
revision_found none = 0
revision_found (some s) = s.revision

pub revision_of : Registry → ℕ → ℕ → ℕ
revision_of r f a = elim (field r f) [
  | none ↦ 0
  | some fd ↦
      (if fd.scope == scope_global
        then revision_found (lookup (f - 1) r.globals)
        else elim (validate r.table a) [
          | ok ↦ revision_found (lookup (aircraft_key (f - 1) (slot_of a)) r.aircraft)
          | st ↦ 0
        ])
]

pub provider_revision : Registry → Option Bytes → ℕ
provider_revision r none = 0
provider_revision r (some id) = elim (lookup id r.provider_index) [
  | none ↦ 0
  | some i ↦ (if not (provider_at r i).live then 0 else (provider_at r i).revision)
]

pub aircraft_handle : Bool → Registry → Option Bytes → Bool → Status × ℕ
aircraft_handle main r callsign out =
    if not main then (wrong_thread, aircraft_none) else resolve_to r.table callsign out

pub aircraft_callsign : Bool → Registry → ℕ → Option ℕ → Bool → Status × Option ℕ × Option Bytes
aircraft_callsign main r a io buf =
    if not main then (wrong_thread, io, none) else callsign_of r.table a io buf
