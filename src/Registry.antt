-- ===== src/Registry.antt =====
-- The state of src/Registry.h, and the reads and writes of values in src/Registry.cpp.
-- A map is an association list. An ESB_Provider* is an index into m_providers, whose entries are never
-- moved or freed, and a pointer that carries no magic word an index beyond them. What OnMainThread
-- answers is an argument, as are the pointers that may be null. A write ends by `notify`, which is
-- Notify or, inside a callback, QueuePending (Registry/Notify).
pub mod Depth
pub mod Indexed
pub mod Read
pub mod Aircraft
pub mod Drop
pub mod Notify
pub mod Writes
pub mod Discovery
pub mod Globals
pub mod Payload
pub mod Remote
pub mod Outbox
pub mod Register
pub mod State
pub mod Housekeeping
mod Tests
use euroscope_plugin_bridge.Prelude.{
  ℕ, ◌+◌, ◌-◌, ◌*◌, ◌%◌, ◌^◌, Bool, true, false, not, ◌&&◌, ◌||◌, List, [], ◌∷◌, ◌++◌, Option, none,
  some, ltb, leb, ◌==◌, if◌then◌else◌, length, get_elem?, get_or, set, bytes_eq,
}
use euroscope_plugin_bridge.Prelude.Maps.{lookup, insert, erase, nat_eq, bytes_key}
use euroscope_plugin_bridge.Status.{
  Status, ok, no_provider, no_field, unset, type_mismatch, not_owner, invalid_arg, wrong_thread,
  limit,
}
use euroscope_plugin_bridge.Value.{Value, Slot, fresh_slot, is_scalar, same_value, store, read_slot}
use euroscope_plugin_bridge.Schema.{
  Bytes, FieldDef, fresh_field, ProviderDef, fresh_provider, SubscriptionDef, scope_global,
  scope_aircraft, is_sync, is_persist,
}
use euroscope_plugin_bridge.Relay.{Message}
use euroscope_plugin_bridge.AircraftTable.{Table, aircraft_none, slot_of, validate}

-- The part of RelayConfig that the registry reads.
pub record RelayConfig : Type 0 where
  pub enabled : Bool
  pub providers : List Bytes
  pub publish_hz : ℕ
  pub max_keys : ℕ

pub record RemoteEntry : Type 0 where
  pub peer : Bytes
  pub value : Slot
  pub peer_revision : ℕ
  pub received_ms : ℕ

pub record PeerDef : Type 0 where
  pub callsign : Bytes
  pub last_seen_ms : ℕ

pub record StagedValue : Type 0 where
  pub type : ℕ
  pub i64 : ℕ
  pub f64 : ℕ
  pub bytes : List ℕ

-- The six values that arrived, which are those of a message.
pub record PendingRemote : Type 0 where
  pub message : Message
  pub arrived_ms : ℕ

-- `relay` holds m_relayConfig where m_relay and m_relayConfig are both set. An event in `pending` is a
-- field index and an aircraft.
pub record Registry : Type 0 where
  pub clock : ℕ
  pub providers : List ProviderDef
  pub fields : List FieldDef
  pub provider_index : List (Bytes × ℕ)
  pub field_index : List (Bytes × ℕ)
  pub globals : List (ℕ × Slot)
  pub aircraft : List (ℕ × Slot)
  pub slot_fields : List (ℕ × List ℕ)
  pub subs : List SubscriptionDef
  pub subs_by_field : List (ℕ × List ℕ)
  pub dispatch_depth : ℕ
  pub pending : List (ℕ × ℕ)
  pub dispatched : ℕ
  pub dropped : ℕ
  pub state_dirty : Bool
  pub outbox : List (ℕ × ℕ)
  pub relay : Option RelayConfig
  pub remote : List (ℕ × List RemoteEntry)
  pub peers : List PeerDef
  pub pending_remote : List PendingRemote
  pub relay_rejected : ℕ
  pub last_outbox_ms : ℕ
  pub staged : List (Bytes × StagedValue)
  pub table : Table
  pub ttl : ℕ
  pub grace : ℕ
  pub state_path : Bytes
  pub last_state_flush_ms : ℕ
  pub last_module_check_ms : ℕ
  pub last_aircraft_sweep_ms : ℕ
  pub shutting_down : Bool

abbrev pub global_slot : ℕ
global_slot = 0xFFFFFFFF

-- `(fieldIndex << 32) | slot` on two 32-bit numbers.
pub aircraft_key : ℕ → ℕ → ℕ
aircraft_key field_index slot = field_index * 2 ^ 32 + slot

-- `++m_clock`
abbrev pub tick : Registry → ℕ
tick r = (r.clock + 1) % 2 ^ 64

abbrev pub provider_at : Registry → ℕ → ProviderDef
provider_at r i = get_or r.providers i fresh_provider

abbrev pub field_def : Registry → ℕ → FieldDef
field_def r i = get_or r.fields i fresh_field

-- The id is the index + 1.
pub field : Registry → ℕ → Option FieldDef
field r f = if (f == 0) || ltb (length r.fields) f then none else some (field_def r (f - 1))

abbrev pub if_live : ProviderDef → ℕ → Option ℕ
if_live d i = if d.live then some i else none

pub owner : Registry → Option ℕ → Option ℕ
owner r none = none
owner r (some i) = elim (get_elem? r.providers i) [ none ↦ none | some d ↦ if_live d i ]

pub check_value : FieldDef → Option Value → Status
check_value fd none = ok
check_value fd (some v) =
    if not (v.type == fd.type)
    then type_mismatch
    else (if is_scalar v.type
        then ok
        else (if not (v.bytes == 0) && elim v.ptr [ none ↦ true | some p ↦ false ]
            then invalid_arg
            else (if not (fd.max_bytes == 0) && ltb fd.max_bytes v.bytes then limit else ok)))

-- `passed` has `*outOwner`.
pub data Checked : Type 0 where
  passed : ℕ → Checked
  refused : Status → Checked

pub check_field : ℕ → Option FieldDef → ℕ → Option Value → Checked
check_field o none scope v = refused no_field
check_field o (some fd) scope v =
    if not (fd.scope == scope)
    then refused invalid_arg
    else (if not (fd.provider == o)
        then refused not_owner
        else elim (check_value fd v) [ ok ↦ passed o | st ↦ refused st ])

pub check_write : Bool → Registry → Option ℕ → ℕ → ℕ → Option Value → Checked
check_write main r p f scope v = if not main then refused wrong_thread else elim (owner r p) [
  | none ↦ refused invalid_arg
  | some o ↦ check_field o (field r f) scope v
]

unfoldable pub contains : Bytes → List Bytes → Bool
contains id [] = false
contains id (p ∷ ps) = bytes_eq p id || contains id ps

-- SetRelay, with both pointers or with none.
pub set_aircraft_ttl : Registry → ℕ → ℕ → Registry
set_aircraft_ttl r ttl_ms grace_ms = record r { ttl = ttl_ms; grace = grace_ms }

-- Shutdown. The flag is read by the C exports alone.
pub shut_down : Registry → Registry
shut_down r = record r { shutting_down = true }

pub set_relay : Registry → Option RelayConfig → Registry
set_relay r config = record r { relay = config }

unfoldable pub allows_provider : RelayConfig → Bytes → Bool
allows_provider config id = config.enabled && contains id config.providers

pub sync_eligible : Registry → FieldDef → Bool
sync_eligible r f = elim r.relay [
  | none ↦ false
  | some config ↦
      (if not (is_sync f.flags)
        then false
        else allows_provider config (provider_at r f.provider).id)
]

pub queue_outbound : Registry → ℕ → ℕ → Registry
queue_outbound r i a =
    let f = field_def r i in
    let slot = if f.scope == scope_global then global_slot else slot_of a in
    if leb (length r.fields) i || not (sync_eligible r f)
    then r
    else record r { outbox = insert (aircraft_key i slot) r.clock r.outbox }

pub mark_state_dirty : Registry → ℕ → Registry
mark_state_dirty r i =
    let f = field_def r i in
    if is_persist f.flags && (f.scope == scope_global) then record r { state_dirty = true } else r

-- `owner->revision = …`
abbrev pub with_revision : List ProviderDef → ℕ → ℕ → List ProviderDef
with_revision ps o now = set ps o (record (get_or ps o fresh_provider) { revision = now })

-- `m[k]`, or a fresh slot
abbrev pub slot_or : Option Slot → Slot
slot_or none = fresh_slot
slot_or (some s) = s

module _ (notify : Registry → ℕ → ℕ → Registry) where
  -- SetGlobal after its guards.
  pub write_global : Registry → ℕ → ℕ → Value → Registry × Status
  write_global r o i v =
      let s = slot_or (lookup i r.globals) in
      let stored = store s v (tick r) in
      let r' = record r {
        clock = tick r;
        globals = insert i stored r.globals;
        providers = with_revision r.providers o stored.revision;
      } in
      if same_value s v
      then (r, ok)
      else (notify (mark_state_dirty (queue_outbound r' i aircraft_none) i) i aircraft_none, ok)

  pub set_global : Bool → Registry → Option ℕ → ℕ → Option Value → Registry × Status
  set_global main r p f v = elim (check_write main r p f scope_global v) [
    | refused st ↦ (r, st)
    | passed o ↦ elim v [ none ↦ (r, invalid_arg) | some w ↦ write_global r o (f - 1) w ]
  ]

  -- ClearGlobal with the slot that was found.
  pub clear_slot : Registry → ℕ → ℕ → Slot → Registry × Status
  clear_slot r o i s =
      let r' = record r {
        clock = tick r;
        globals = erase i r.globals;
        providers = with_revision r.providers o (tick r);
      } in
      if not s.assigned
      then (r, ok)
      else (notify (mark_state_dirty (queue_outbound r' i aircraft_none) i) i aircraft_none, ok)

  pub clear_global : Bool → Registry → Option ℕ → ℕ → Registry × Status
  clear_global main r p f = elim (check_write main r p f scope_global none) [
    | refused st ↦ (r, st)
    | passed o ↦ elim (lookup (f - 1) r.globals) [
      | none ↦ (r, ok)
      | some s ↦ clear_slot r o (f - 1) s
    ]
  ]
