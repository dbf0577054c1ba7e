-- ===== src/Registry/Remote/Tests.antt =====
-- Runs of the values that peers publish.
use euroscope_plugin_bridge.Prelude.{
  ℕ, suc, ◌^◌, ◌-◌, true, false, [], ◌∷◌, Option, none, some, ◌≡◌, refl, All, arith, bytes_eq,
}
use euroscope_plugin_bridge.Prelude.Maps.{lookup, bytes_key}
use euroscope_plugin_bridge.Text.{Bytes, c_str}
use euroscope_plugin_bridge.Value.{
  Value, Slot, fresh_slot, t_f64, t_str, store, read_slot, valid_type,
}
use euroscope_plugin_bridge.Schema.{is_sync}
use euroscope_plugin_bridge.AircraftTable.Unborn.{AreBorn}
use euroscope_plugin_bridge.Relay.{Message, fresh_message}
use euroscope_plugin_bridge.Registry.{Registry, aircraft_key, global_slot}
use euroscope_plugin_bridge.Registry.Payload.{
  encode_payload, decode_payload, typed_slot, decode_payload-encode_payload,
}
use euroscope_plugin_bridge.Registry.Remote.{
  apply_remote, apply_field, apply_value, apply_at, get_remote, merge,
}
use euroscope_plugin_bridge.Registry.Remote.Accepted.{SameLocal, apply_remote-SameLocal}
use euroscope_plugin_bridge.Registry.Remote.Allowed.{IsAllowed, apply_remote-IsAllowed}
use euroscope_plugin_bridge.Registry.Remote.Held.{held, get_remote-apply_remote}
use euroscope_plugin_bridge.Registry.Outbox.{flush_outbox}
use euroscope_plugin_bridge.Registry.Outbox.Eligible.{IsGlobalShare, flush_outbox-IsGlobalShare}
use euroscope_plugin_bridge.Registry.Tests.{start}

-- A text of doubles: the bit pattern's successor as one character.
abbrev format_one : ℕ → Bytes
format_one x = suc x ∷ []

abbrev parse_one : Bytes → Option (ℕ × Bytes)
parse_one [] = none
parse_one (c ∷ rest) = some (c - 1, rest)

abbrev half : Value
half = record { type = t_f64; bytes = 8; i64 = 0; f64 = 5; b = 0; ptr = none }

decode_payload-encode_payload_example :
    decode_payload format_one parse_one t_f64
      (encode_payload format_one parse_one (store fresh_slot half 7))
    ≡ some (store fresh_slot half 0)
unfolding valid_type c_str
decode_payload-encode_payload_example =
    decode_payload-encode_payload format_one parse_one fresh_slot half 7 refl refl (omega arith) tt

-- "cdm/tobt", the first field
abbrev tobt : Bytes
tobt = b'c' ∷ b'd' ∷ b'm' ∷ b'/' ∷ b't' ∷ b'o' ∷ b'b' ∷ b't' ∷ []

abbrev room : Registry
room = record start { field_index = (tobt, 0) ∷ [] }

-- What the controller P publishes for it.
abbrev published : Message
published = record fresh_message {
  peer = b'P' ∷ [];
  qualified = tobt;
  type = t_str;
  payload = b'O' ∷ b'K' ∷ [];
  revision = 3;
}

abbrev arrived : Slot
arrived = record (typed_slot t_str) { bytes = b'O' ∷ b'K' ∷ [] }

published-decoded : decode_payload format_one parse_one t_str (b'O' ∷ b'K' ∷ []) ≡ some arrived
unfolding decode_payload
published-decoded = refl

tobt_found : lookup tobt room.field_index ≡ some 0
unfolding lookup bytes_eq
tobt_found = refl

published_taken : (apply_remote format_one parse_one room published 50).1 ≡ true
unfolding apply_remote apply_field apply_value apply_at merge lookup bytes_eq is_sync decode_payload
published_taken = refl

apply_remote-SameLocal_example :
    SameLocal room (apply_remote format_one parse_one room published 50).0
apply_remote-SameLocal_example = apply_remote-SameLocal format_one parse_one room published 50

apply_remote-IsAllowed_example :
    (i : ℕ) × (value : Slot) × (lookup tobt room.field_index ≡ some i)
    × (decode_payload format_one parse_one t_str (b'O' ∷ b'K' ∷ []) ≡ some value)
    × IsAllowed room published i value
apply_remote-IsAllowed_example =
    apply_remote-IsAllowed format_one parse_one room published 50 published_taken

get_remote-apply_remote_example :
    let r' = (apply_remote format_one parse_one room published 50).0 in
    (get_remote true r' 1 0 (some (b'P' ∷ [])) half (some 8) true
      ≡ read_slot arrived half (some 8) true)
    × (held r' (aircraft_key 0 global_slot) (b'P' ∷ []) ≡ some (record arrived { revision = 2 }))
    × (r'.clock ≡ 2)
    × ((name : Bytes)
        → bytes_eq (b'P' ∷ []) name ≡ false
        → get_remote true r' 1 0 (some name) half (some 8) true
          ≡ get_remote true room 1 0 (some name) half (some 8) true)
get_remote-apply_remote_example =
    get_remote-apply_remote format_one parse_one room published 50 0 0 arrived half (some 8) true
      tobt_found (omega arith) refl published-decoded published_taken

start-AreBorn : AreBorn start.table
start-AreBorn s h = ground arith

-- The global value and the aircraft's wait; only the first would leave.
abbrev waiting : Registry
waiting = record start { outbox = (0xFFFFFFFF, 1) ∷ (2 ^ 32, 1) ∷ [] }

flush_outbox-IsGlobalShare_example :
    All (IsGlobalShare waiting) (flush_outbox format_one parse_one 1000 waiting).1
flush_outbox-IsGlobalShare_example =
    flush_outbox-IsGlobalShare format_one parse_one 1000 waiting start-AreBorn
