-- ===== src/Registry/Remote/Accepted.antt =====
-- What a peer can do to this registry: ApplyRemote of src/Registry.cpp.
use euroscope_plugin_bridge.Prelude.{
  ℕ, ◌≡◌, refl, ◌∙◌, not, ◌&&◌, List, Option, some, ltb, ◌==◌, length, Bool-cases, Option-cases,
  inl, inr,
}
use euroscope_plugin_bridge.Prelude.Maps.{lookup, nat_eq, bytes_key}
use euroscope_plugin_bridge.Mqtt.{is_empty}
use euroscope_plugin_bridge.Text.{Bytes, c_str}
use euroscope_plugin_bridge.Value.{Slot}
use euroscope_plugin_bridge.Schema.{scope_aircraft, is_sync}
use euroscope_plugin_bridge.AircraftTable.{resolve, slot_of}
use euroscope_plugin_bridge.Relay.{Message}
use euroscope_plugin_bridge.Registry.{
  Registry, RemoteEntry, PeerDef, PendingRemote, global_slot, aircraft_key, tick, provider_at,
  field_def,
}
use euroscope_plugin_bridge.Registry.Payload.{decode_payload}
use euroscope_plugin_bridge.Registry.Remote.{
  is_ok, apply_remote, apply_field, apply_value, apply_at, merge, entries_or, touch_peer,
}

-- What belongs to this machine is the same: the fields and their providers, the values of both scopes, the
-- aircraft and what waits to be sent.
pub record SameLocal (r r' : Registry) : Type 0 where
  pub same_providers : r'.providers ≡ r.providers
  pub same_fields : r'.fields ≡ r.fields
  pub same_index : r'.field_index ≡ r.field_index
  pub same_globals : r'.globals ≡ r.globals
  pub same_aircraft : r'.aircraft ≡ r.aircraft
  pub same_table : r'.table ≡ r.table
  pub same_outbox : r'.outbox ≡ r.outbox

view-SameLocal :
    (r : Registry) (clock : ℕ) (remote : List (ℕ × List RemoteEntry)) (peers : List PeerDef)
    (pending : List PendingRemote)
    → SameLocal r
        (record r { clock = clock; remote = remote; peers = peers; pending_remote = pending })
view-SameLocal r clock remote peers pending = record {
  same_providers = refl;
  same_fields = refl;
  same_index = refl;
  same_globals = refl;
  same_aircraft = refl;
  same_table = refl;
  same_outbox = refl;
}

refl-SameLocal : (r : Registry) → SameLocal r r
refl-SameLocal r = view-SameLocal r r.clock r.remote r.peers r.pending_remote

trans-SameLocal : (r s t : Registry) → SameLocal r s → SameLocal s t → SameLocal r t
trans-SameLocal r s t h k = record {
  same_providers = k.same_providers ∙ h.same_providers;
  same_fields = k.same_fields ∙ h.same_fields;
  same_index = k.same_index ∙ h.same_index;
  same_globals = k.same_globals ∙ h.same_globals;
  same_aircraft = k.same_aircraft ∙ h.same_aircraft;
  same_table = k.same_table ∙ h.same_table;
  same_outbox = k.same_outbox ∙ h.same_outbox;
}

apply_at-SameLocal :
    (r : Registry) (m : Message) (now i slot : ℕ) (value : Slot)
    → SameLocal r (apply_at r m now i slot value).0
unfolding apply_at
apply_at-SameLocal r m now i slot value =
    elim (Option-cases (
      merge m (record value { revision = tick r }) now
        (entries_or (lookup (aircraft_key i slot) r.remote)))) [
          | inl q ↦ rw (q, apply_at) (view-SameLocal r (tick r) _ r.peers r.pending_remote)
          | inr (entries, q) ↦
              rw (q, apply_at) (view-SameLocal r (tick r) _ r.peers r.pending_remote)
        ]

apply_value-SameLocal :
    (r : Registry) (m : Message) (now i : ℕ) (value : Slot)
    → SameLocal r (apply_value r m now i value).0
unfolding apply_value
apply_value-SameLocal r m now i value =
    let fd = field_def r i in
    let same = refl-SameLocal r in
    let found = resolve r.table (some (c_str m.callsign)) in
    elim (Bool-cases (not (fd.max_bytes == 0) && ltb fd.max_bytes (length value.bytes))) [
      | inl q ↦ rw q same
      | inr q ↦ elim (Bool-cases (fd.scope == scope_aircraft)) [
        | inl w ↦ elim (Bool-cases (is_empty m.callsign)) [
          | inl v ↦ rw (q, w, v) same
          | inr v ↦ elim (Bool-cases (is_ok found.0)) [
            | inl u ↦ rw (q, w, v, u) (apply_at-SameLocal r m now i (slot_of found.1) value)
            | inr u ↦ rw (q, w, v, u) (view-SameLocal r r.clock r.remote r.peers _)
          ]
        ]
        | inr w ↦ elim (Bool-cases (is_empty m.callsign)) [
          | inl v ↦ rw (q, w, v) (apply_at-SameLocal r m now i global_slot value)
          | inr v ↦ rw (q, w, v) same
        ]
      ]
    ]

module _ (format_f64 : ℕ → Bytes) (parse_f64 : Bytes → Option (ℕ × Bytes)) where
  apply_field-SameLocal :
      (r : Registry) (m : Message) (now i : ℕ)
      → SameLocal r (apply_field format_f64 parse_f64 r m now i).0
  unfolding apply_field
  apply_field-SameLocal r m now i =
      let fd = field_def r i in
      let same = refl-SameLocal r in
      elim (Bool-cases (provider_at r fd.provider).live) [
        | inr q ↦ rw q same
        | inl q ↦ elim (Bool-cases (is_sync fd.flags)) [
          | inr w ↦ rw (q, w) same
          | inl w ↦ elim (Bool-cases (fd.type == m.type)) [
            | inr v ↦ rw (q, w, v) same
            | inl v ↦ elim (Option-cases (decode_payload format_f64 parse_f64 m.type m.payload)) [
              | inl u ↦ rw (q, w, v, u) same
              | inr (value, u) ↦ rw (q, w, v, u) (apply_value-SameLocal r m now i value)
            ]
          ]
        ]
      ]

  -- Whatever a peer sends, nothing of this machine's own is changed: not the fields and their providers, not
  -- the values of either scope, not the aircraft and not what waits to be sent.
  pub apply_remote-SameLocal :
      (r : Registry) (m : Message) (now : ℕ)
      → SameLocal r (apply_remote format_f64 parse_f64 r m now).0
  unfolding apply_remote
  apply_remote-SameLocal r m now =
      let touched = record r { peers = touch_peer r.peers m.peer now } in
      elim (Option-cases (lookup m.qualified r.field_index)) [
        | inl q ↦ rw (q, apply_remote) (view-SameLocal r r.clock r.remote _ r.pending_remote)
        | inr (i, q) ↦
            rw (q, apply_remote)
              (trans-SameLocal r touched _ (view-SameLocal r r.clock r.remote _ r.pending_remote)
                (apply_field-SameLocal touched m now i))
      ]
