-- ===== src/Registry/Outbox.antt =====
-- What leaves for the peers: FlushOutbox and DrainRelay of src/Registry.cpp.
-- A flush gives the messages that it hands to Relay::PushOutbound, in their order.
pub mod Eligible
use euroscope_plugin_bridge.Prelude.{
  ℕ, ◌+◌, ◌-◌, ◌/◌, ◌%◌, ◌^◌, Bool, true, false, not, ◌&&◌, ◌||◌, List, [], ◌∷◌, ◌++◌, Option, none,
  some, ltb, leb, ◌==◌, if◌then◌else◌, length,
}
use euroscope_plugin_bridge.Prelude.Maps.{lookup, insert, nat_eq}
use euroscope_plugin_bridge.Status.{Status}
use euroscope_plugin_bridge.Mqtt.{is_empty}
use euroscope_plugin_bridge.Text.{Bytes, c_str}
use euroscope_plugin_bridge.Value.{Slot}
use euroscope_plugin_bridge.Schema.{FieldDef}
use euroscope_plugin_bridge.AircraftTable.{Table, handle, callsign_of}
use euroscope_plugin_bridge.Relay.{Message, Relay, push_outbound}
use euroscope_plugin_bridge.Relay.Queues.Newest.{push_all}
use euroscope_plugin_bridge.Registry.{Registry, RelayConfig, global_slot, field_def, sync_eligible}
use euroscope_plugin_bridge.Registry.Payload.{encode_payload}
use euroscope_plugin_bridge.Registry.Remote.{drain_messages, retry_pending}

-- The order of a std::map.
pub insert_key : ℕ × ℕ → List (ℕ × ℕ) → List (ℕ × ℕ)
insert_key (k, v) [] = (k, v) ∷ []
insert_key (k, v) ((j, w) ∷ m) =
    let rest = insert_key (k, v) m in if ltb k j then (k, v) ∷ (j, w) ∷ m else (j, w) ∷ rest

pub by_key : List (ℕ × ℕ) → List (ℕ × ℕ)
by_key [] = []
by_key (kv ∷ m) = insert_key kv (by_key m)

-- The callsign in a buffer of 32 zero bytes: what CallsignOf copies, or nothing. It is asked with the
-- generation 0.
abbrev pub copied : Option Bytes → Bytes
copied none = []
copied (some cs) = c_str cs

pub wire_callsign : Table → ℕ → Bytes
wire_callsign table slot =
    let (st, n, cs) = callsign_of table (handle slot 0) (some 32) true in copied cs

abbrev pub count_or : Option ℕ → ℕ
count_or none = 0
count_or (some n) = n

abbrev pub interval : RelayConfig → ℕ
interval config = 1000 / (if config.publish_hz == 0 then 4 else config.publish_hz)

module _ (format_f64 : ℕ → Bytes) (parse_f64 : Bytes → Option (ℕ × Bytes)) where
  -- The message of a value; `none` is `continue`.
  pub value_message : Registry → FieldDef → ℕ → Option Slot → Option Message
  value_message r f slot none = none
  value_message r f slot (some s) =
      let callsign = if slot == global_slot then [] else wire_callsign r.table slot in
      if not s.assigned
      then none
      else (if not (slot == global_slot) && is_empty callsign
          then none
          else some (record {
            peer = [];
            qualified = f.qualified;
            callsign = callsign;
            type = s.type;
            payload = encode_payload format_f64 parse_f64 s;
            revision = s.revision;
          }))

  abbrev pub with_message : Option Message → List Message → List Message
  with_message none ms = ms
  with_message (some m) ms = m ∷ ms

  -- The loop over the batch, with the number of keys of each provider so far.
  pub flush_batch : RelayConfig → List (ℕ × ℕ) → List (ℕ × ℕ) → Registry → Registry × List Message
  flush_batch config [] counts r = (r, [])
  flush_batch config ((key, revision) ∷ batch) counts r =
      let i = key / 2 ^ 32 in
      let slot = key % 2 ^ 32 in
      let f = field_def r i in
      let count = count_or (lookup f.provider counts) in
      let value = if slot == global_slot then lookup i r.globals else lookup key r.aircraft in
      let skipped = flush_batch config batch counts r in
      let refused =
        flush_batch config batch (insert f.provider count counts)
          (record r { relay_rejected = (r.relay_rejected + 1) % 2 ^ 64 }) in
      let (r', ms) = flush_batch config batch (insert f.provider (count + 1) counts) r in
      if leb (length r.fields) i || not (sync_eligible r f)
      then skipped
      else (if leb config.max_keys count
          then refused
          else (r', with_message (value_message r f slot value) ms))

  -- FlushOutbox with a relay, and without.
  pub flush_if_due : Option RelayConfig → ℕ → Registry → Registry × List Message
  flush_if_due none now r = (r, [])
  flush_if_due (some config) now r =
      if length r.outbox == 0
      then (r, [])
      else (if ltb ((now + 2 ^ 64 - r.last_outbox_ms) % 2 ^ 64) (interval config)
          then (r, [])
          else flush_batch config (by_key r.outbox) []
              (record r { last_outbox_ms = now; outbox = [] }))

  pub flush_outbox : ℕ → Registry → Registry × List Message
  flush_outbox now r = flush_if_due r.relay now r

  -- DrainRelay with a relay, and with the messages that PopInbound gives until there is none.
  pub drain_relay : ℕ → List Message → Registry → Relay → Registry × Relay
  drain_relay now arrived r relay =
      let (received, relay') = drain_messages format_f64 parse_f64 now arrived (r, relay) in
      let retried = retry_pending format_f64 parse_f64 now received.pending_remote [] received in
      let (flushed, ms) = flush_outbox now retried in (flushed, push_all relay' ms)
