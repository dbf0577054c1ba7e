-- ===== src/Registry/Remote.antt =====
-- What peers publish: TouchPeer, ApplyRemote, the loops of DrainRelay, RemotePublishers, GetRemote and
-- ListPeers of src/Registry.cpp.
-- The text of a double and the double of a text are the parameters of Registry/Payload.
pub mod Accepted
pub mod Allowed
pub mod Held
mod Tests
use euroscope_plugin_bridge.Prelude.{
  ℕ, suc, ◌+◌, ◌-◌, ◌*◌, ◌%◌, ◌^◌, Bool, true, false, not, ◌&&◌, ◌||◌, List, [], ◌∷◌, ◌++◌, Option,
  none, some, ltb, leb, ◌==◌, if◌then◌else◌, length, bytes_eq, map, take,
}
use euroscope_plugin_bridge.Prelude.Maps.{lookup, insert, nat_eq, bytes_key}
use euroscope_plugin_bridge.Status.{
  Status, ok, no_field, unset, invalid_arg, wrong_thread, buffer_too_small,
}
use euroscope_plugin_bridge.Mqtt.{is_empty}
use euroscope_plugin_bridge.Text.{Bytes, c_str}
use euroscope_plugin_bridge.Value.{Value, Slot, read_slot}
use euroscope_plugin_bridge.Schema.{FieldDef, scope_aircraft, is_sync}
use euroscope_plugin_bridge.AircraftTable.{resolve, validate, slot_of}
use euroscope_plugin_bridge.Relay.{Message, Relay, pop_inbound, note_rejected}
use euroscope_plugin_bridge.Registry.{
  Registry, RemoteEntry, PeerDef, PendingRemote, global_slot, aircraft_key, tick, provider_at,
  field_def, field,
}
use euroscope_plugin_bridge.Registry.Payload.{decode_payload}
use euroscope_plugin_bridge.Registry.Read.{Reading}

pub touch_peer : List PeerDef → Bytes → ℕ → List PeerDef
touch_peer [] callsign now = record { callsign = callsign; last_seen_ms = now } ∷ []
touch_peer (p ∷ ps) callsign now =
    let rest = touch_peer ps callsign now in
    if bytes_eq p.callsign callsign then record p { last_seen_ms = now } ∷ ps else p ∷ rest

abbrev pub entry_of : Message → Slot → ℕ → RemoteEntry
entry_of m value now = record {
  peer = m.peer;
  value = value;
  peer_revision = m.revision;
  received_ms = now;
}

abbrev pub behind : RemoteEntry → Option (List RemoteEntry) → Option (List RemoteEntry)
behind e none = none
behind e (some es) = some (e ∷ es)

-- The entry of the peer is replaced, or added behind the others. `none` is an older revision than the one
-- that is held.
pub merge : Message → Slot → ℕ → List RemoteEntry → Option (List RemoteEntry)
merge m value now [] = some (entry_of m value now ∷ [])
merge m value now (e ∷ es) =
    let rest = merge m value now es in
    if bytes_eq e.peer m.peer
    then (if not (m.revision == 0) && ltb m.revision e.peer_revision
        then none
        else some (entry_of m value now ∷ es))
    else behind e rest

-- `m_remote[key]`
abbrev pub entries_or : Option (List RemoteEntry) → List RemoteEntry
entries_or none = []
entries_or (some es) = es

-- ApplyRemote from `value.revision = ++m_clock` on.
pub apply_at : Registry → Message → ℕ → ℕ → ℕ → Slot → Registry × Bool
apply_at r m now i slot value =
    let key = aircraft_key i slot in
    let entries = entries_or (lookup key r.remote) in
    elim (merge m (record value { revision = tick r }) now entries) [
      | none ↦ (record r { clock = tick r; remote = insert key entries r.remote }, false)
      | some entries' ↦ (record r { clock = tick r; remote = insert key entries' r.remote }, true)
    ]

-- An update for an aircraft that is not known yet is held.
abbrev pub hold : Registry → Message → ℕ → Registry × Bool
hold r m now = (
  record r { pending_remote = r.pending_remote ++ (record { message = m; arrived_ms = now } ∷ []) },
  true,
)

abbrev pub is_ok : Status → Bool
is_ok ok = true
is_ok _ = false

-- ApplyRemote behind the payload: its size and the scope.
pub apply_value : Registry → Message → ℕ → ℕ → Slot → Registry × Bool
apply_value r m now i value =
    let fd = field_def r i in
    let found = resolve r.table (some (c_str m.callsign)) in
    if not (fd.max_bytes == 0) && ltb fd.max_bytes (length value.bytes)
    then (r, false)
    else (if fd.scope == scope_aircraft
        then (if is_empty m.callsign
            then (r, false)
            else (if is_ok found.0
                then apply_at r m now i (slot_of found.1) value
                else hold r m now))
        else (if not (is_empty m.callsign)
            then (r, false)
            else apply_at r m now i global_slot value))

module _ (format_f64 : ℕ → Bytes) (parse_f64 : Bytes → Option (ℕ × Bytes)) where
  -- ApplyRemote behind the search for the field.
  pub apply_field : Registry → Message → ℕ → ℕ → Registry × Bool
  apply_field r m now i =
      let fd = field_def r i in
      if not (provider_at r fd.provider).live
      then (r, false)
      else (if not (is_sync fd.flags)
          then (r, false)
          else (if not (fd.type == m.type)
              then (r, false)
              else elim (decode_payload format_f64 parse_f64 m.type m.payload) [
                | none ↦ (r, false)
                | some value ↦ apply_value r m now i value
              ]))

  pub apply_remote : Registry → Message → ℕ → Registry × Bool
  apply_remote r m now =
      let r' = record r { peers = touch_peer r.peers m.peer now } in
      elim (lookup m.qualified r.field_index) [
        | none ↦ (r', false)
        | some i ↦ apply_field r' m now i
      ]

  -- The messages that PopInbound gives until there is none.
  pub drain_messages : ℕ → List Message → Registry × Relay → Registry × Relay
  drain_messages now [] st = st
  drain_messages now (m ∷ ms) (r, relay) =
      let popped = (pop_inbound relay).0 in
      let (r', applied) = apply_remote r m now in
      drain_messages now ms (
        if applied then (r', popped) else (
          record r' { relay_rejected = (r'.relay_rejected + 1) % 2 ^ 64 },
          note_rejected popped,
        ))

  abbrev pub pending_ttl : ℕ
  pending_ttl = 60 * 1000

  -- What waited is tried again once its aircraft is known, and dropped once it is stale. What is tried
  -- finds its aircraft, so that nothing is held again meanwhile.
  pub retry_pending : ℕ → List PendingRemote → List PendingRemote → Registry → Registry
  retry_pending now [] kept r = record r { pending_remote = kept }
  retry_pending now (p ∷ ps) kept r =
      let known = is_ok (resolve r.table (some (c_str p.message.callsign))).0 in
      let stale = ltb pending_ttl ((now + 2 ^ 64 - p.arrived_ms) % 2 ^ 64) in
      let tried = if known then (apply_remote r p.message now).0 else r in
      if not known && not stale
      then retry_pending now ps (kept ++ (p ∷ [])) r
      else retry_pending now ps kept tried

-- The slot of a field and an aircraft: the status of a handle that does not validate.
abbrev pub slot_for : Registry → FieldDef → ℕ → Status × ℕ
slot_for r fd a =
    if fd.scope == scope_aircraft then (validate r.table a, slot_of a) else (ok, global_slot)

-- ESB_Origin: the name is cut to the 15 bytes that leave room for its end.
pub record Origin : Type 0 where
  pub peer : Bytes
  pub revision : ℕ
  pub received_ms : ℕ

abbrev pub origin_of : RemoteEntry → Origin
origin_of e = record {
  peer = take 15 (c_str e.peer);
  revision = e.peer_revision;
  received_ms = e.received_ms;
}

-- `*ioCount` and what is written to `out`, where there is one.
abbrev pub publishers_found : Bool → ℕ → List RemoteEntry → Status × ℕ × List Origin
publishers_found out capacity entries =
    let found = length entries % 2 ^ 32 in
    if not out || ltb capacity found
    then (buffer_too_small, found, [])
    else (ok, found, map origin_of (take found entries))

abbrev pub publishers_at : Bool → ℕ → Option (List RemoteEntry) → Status × ℕ × List Origin
publishers_at out capacity none = (ok, 0, [])
publishers_at out capacity (some entries) = publishers_found out capacity entries

abbrev pub publishers_of : Registry → ℕ → Bool → ℕ → Status × ℕ → Status × ℕ × List Origin
publishers_of r f out capacity (st, slot) = elim st [
  | ok ↦ publishers_at out capacity (lookup (aircraft_key (f - 1) slot) r.remote)
  | st' ↦ (st', 0, [])
]

-- A count that is not given is `none`.
pub remote_publishers : Bool → Registry → ℕ → ℕ → Bool → Option ℕ → Status × Option ℕ × List Origin
remote_publishers main r f a out none = (if main then invalid_arg else wrong_thread, none, [])
remote_publishers main r f a out (some capacity) =
    if not main then (wrong_thread, some capacity, []) else elim (field r f) [
      | none ↦ (no_field, some 0, [])
      | some fd ↦
          (let (st, n, origins) = publishers_of r f out capacity (slot_for r fd a) in
            (st, some n, origins))
    ]

pub entry_from : Bytes → List RemoteEntry → Option Slot
entry_from peer [] = none
entry_from peer (e ∷ es) = if bytes_eq e.peer peer then some e.value else entry_from peer es

abbrev pub read_entry : Option Slot → Value → Option ℕ → Bool → Reading
read_entry none out io buf = (unset, out, io)
read_entry (some s) out io buf = read_slot s out io buf

abbrev pub remote_of : Registry → ℕ → Bytes → Value → Option ℕ → Bool → Status × ℕ → Reading
remote_of r f peer out io buf (st, slot) = elim st [
  | ok ↦
      read_entry (entry_from peer (entries_or (lookup (aircraft_key (f - 1) slot) r.remote))) out io
        buf
  | st' ↦ (st', out, io)
]

-- `peer` is a C string, or no pointer.
pub get_remote : Bool → Registry → ℕ → ℕ → Option Bytes → Value → Option ℕ → Bool → Reading
get_remote main r f a none out io buf = (if main then invalid_arg else wrong_thread, out, io)
get_remote main r f a (some peer) out io buf =
    if not main then (wrong_thread, out, io) else elim (field r f) [
      | none ↦ (no_field, out, io)
      | some fd ↦ remote_of r f peer out io buf (slot_for r fd a)
    ]

-- ESB_Peer, its name cut as that of ESB_Origin.
abbrev pub listed_peer : PeerDef → PeerDef
listed_peer p = record p { callsign = take 15 (c_str p.callsign) }

pub list_peers : Bool → Registry → Bool → Option ℕ → Status × Option ℕ × List PeerDef
list_peers main r out none = (if main then invalid_arg else wrong_thread, none, [])
list_peers main r out (some capacity) =
    let found = length r.peers % 2 ^ 32 in
    if not main
    then (wrong_thread, some capacity, [])
    else (if not out || ltb capacity found
        then (if found == 0 then ok else buffer_too_small, some found, [])
        else (ok, some found, map listed_peer (take found r.peers)))
