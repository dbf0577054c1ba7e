-- ===== src/Relay.antt =====
-- src/Relay.h and src/Relay.cpp: the relay between the registry and an MQTT broker.
-- Each of the two queues is behind a mutex, so that PushOutbound, PopInbound, the swap of PumpOutbound and
-- the push of HandlePublish are single steps. The transport is a parameter: what it accepts, and what it
-- delivers. The text of the last error is one of the constants below.
pub mod Topic
pub mod Connect
pub mod Publish
pub mod Queues
pub mod Stream
pub mod Deliver
mod Tests
use euroscope_plugin_bridge.Prelude.{
  ℕ, zero, suc, ◌+◌, ◌%◌, ◌^◌, Bool, true, false, not, ◌&&◌, ◌||◌, List, [], ◌∷◌, ◌++◌, Option,
  none, some, ltb, leb, ◌==◌, if◌then◌else◌, length, drop, bytes_eq,
}
use euroscope_plugin_bridge.Text.{Bytes, decimal, strtoul}
use euroscope_plugin_bridge.Mqtt.{
  Properties, Packet, fresh_packet, DecodeResult, ok, need_more, malformed, decode, encode_publish,
  encode_pingreq, publish_type, is_empty,
}

-- The part of RelayConfig that the relay's thread reads.
pub record Identity : Type 0 where
  pub room : Bytes
  pub controller : Bytes
  pub username : Bytes
  pub password : Bytes

pub record Message : Type 0 where
  pub peer : Bytes
  pub qualified : Bytes
  pub callsign : Bytes
  pub type : ℕ
  pub payload : Bytes
  pub revision : ℕ

abbrev pub fresh_message : Message
fresh_message = record {
  peer = [];
  qualified = [];
  callsign = [];
  type = 0;
  payload = [];
  revision = 0;
}

pub data Trouble : Type 0 where
  no_trouble : Trouble
  connect_failed connect_not_sent closed_before_connack malformed_connack : Trouble
  connection_refused : ℕ → Trouble
  subscribe_not_sent closed_before_suback malformed_suback : Trouble
  subscription_refused : ℕ → Trouble
  suback_timeout connack_timeout connection_lost malformed_packet : Trouble

pub record Relay : Type 0 where
  pub identity : Identity
  pub running : Bool
  pub connected : Bool
  pub published : ℕ
  pub received : ℕ
  pub rejected : ℕ
  pub outbound : List Message
  pub inbound : List Message
  pub peers : List Bytes
  pub last_error : Trouble
  pub rx : Bytes

abbrev pub max_outbound_queue : ℕ
max_outbound_queue = 4096

abbrev pub max_inbound_queue : ℕ
max_inbound_queue = 4096

-- Split: one part for each stretch between two slashes.
abbrev pub extend : ℕ → List Bytes → List Bytes
extend c [] = (c ∷ []) ∷ []
extend c (part ∷ parts) = (c ∷ part) ∷ parts

pub split : Bytes → List Bytes
split [] = [] ∷ []
split (c ∷ topic) = let parts = split topic in if c == b'/' then [] ∷ parts else extend c parts

-- What stands before the first slash, or the whole, and what stands behind it, or nothing.
pub provider_of : Bytes → Bytes
provider_of [] = []
provider_of (c ∷ key) = let rest = provider_of key in if c == b'/' then [] else c ∷ rest

pub field_of : Bytes → Bytes
field_of [] = []
field_of (c ∷ key) = let rest = field_of key in if c == b'/' then key else rest

-- "esb" and "v1"
abbrev pub esb_part : Bytes
esb_part = b'e' ∷ b's' ∷ b'b' ∷ []

abbrev pub v1_part : Bytes
v1_part = b'v' ∷ b'1' ∷ []

-- "@presence"
abbrev pub presence_part : Bytes
presence_part = b'@' ∷ b'p' ∷ b'r' ∷ b'e' ∷ b's' ∷ b'e' ∷ b'n' ∷ b'c' ∷ b'e' ∷ []

-- "/" and what follows it
abbrev pub slash : Bytes → Bytes
slash s = b'/' ∷ s

-- "esb/v1/<room>/"
abbrev pub room_topic : Identity → Bytes → Bytes
room_topic id rest = esb_part ++ slash (v1_part ++ slash (id.room ++ slash rest))

pub topic_for : Identity → Message → Bytes
topic_for id m =
    let callsign_part = if is_empty m.callsign then [] else slash m.callsign in
    room_topic id (
      id.controller
      ++ slash (provider_of m.qualified ++ slash (field_of m.qualified ++ callsign_part)))

-- The oldest message goes when the queue is full.
abbrev pub drop_oldest : List Message → List Message
drop_oldest [] = []
drop_oldest (m ∷ ms) = ms

pub push_outbound : Relay → Message → Relay
push_outbound r m =
    let queue =
      if leb max_outbound_queue (length r.outbound) then drop_oldest r.outbound else r.outbound in
    record r { outbound = queue ++ (m ∷ []) }

pub pop_inbound : Relay → Relay × Option Message
pop_inbound r = elim r.inbound [ [] ↦ (r, none) | m ∷ ms ↦ (record r { inbound = ms }, some m) ]

abbrev pub note_rejected : Relay → Relay
note_rejected r = record r { rejected = (r.rejected + 1) % 2 ^ 64 }

-- "type" and "rev"
abbrev pub type_key : Bytes
type_key = b't' ∷ b'y' ∷ b'p' ∷ b'e' ∷ []

abbrev pub rev_key : Bytes
rev_key = b'r' ∷ b'e' ∷ b'v' ∷ []

abbrev pub message_properties : Message → Properties
message_properties m = (type_key, decimal m.type) ∷ (rev_key, decimal m.revision) ∷ []

abbrev pub message_packet : Identity → Message → Bytes
message_packet id m = encode_publish (topic_for id m) m.payload true (message_properties m)

-- `accepts n` is whether the transport takes the n-th packet from now on. What was not sent is lost.
pub send_batch : (ℕ → Bool) → ℕ → Relay → List Message → Relay × List Bytes
send_batch accepts n r [] = (r, [])
send_batch accepts n r (m ∷ batch) =
    let sent = record r { published = (r.published + 1) % 2 ^ 64 } in
    let (r', packets) = send_batch accepts (n + 1) sent batch in
    if accepts n
    then (r', message_packet r.identity m ∷ packets)
    else (record r { connected = false }, [])

pub pump_outbound : (ℕ → Bool) → Relay → Relay × List Bytes
pump_outbound accepts r = send_batch accepts 0 (record r { outbound = [] }) r.outbound

-- `std::find` on the peers
pub has_peer : Bytes → List Bytes → Bool
has_peer name [] = false
has_peer name (p ∷ ps) = bytes_eq p name || has_peer name ps

pub erase_peer : Bytes → List Bytes → List Bytes
erase_peer name [] = []
erase_peer name (p ∷ ps) = let rest = erase_peer name ps in if bytes_eq p name then ps else p ∷ rest

pub handle_presence : Relay → Bytes → Bytes → Relay
handle_presence r controller payload =
    if is_empty payload
    then record r { peers = erase_peer controller r.peers }
    else (if has_peer controller r.peers || bytes_eq controller r.identity.controller
        then r
        else record r { peers = r.peers ++ (controller ∷ []) })

-- The last value of a user property, or the one before the loop.
pub last_property : Bytes → Bytes → Properties → Bytes
last_property key found [] = found
last_property key found ((k, v) ∷ props) =
    last_property key (if bytes_eq k key then v else found) props

-- The number that is the whole of the text up to a zero byte.
abbrev pub whole_number : Option (ℕ × Bytes) → Option ℕ
whole_number none = none
whole_number (some (n, [])) = some n
whole_number (some (n, c ∷ rest)) = none

pub accept : Relay → Message → Relay
accept r m =
    if leb max_inbound_queue (length r.inbound)
    then note_rejected r
    else record r { inbound = r.inbound ++ (m ∷ []); received = (r.received + 1) % 2 ^ 64 }

-- The value of the two properties, where both are there and are numbers.
pub metadata : Properties → Option (ℕ × ℕ)
metadata props =
    let type_text = last_property type_key [] props in
    let rev_text = last_property rev_key [] props in
    if is_empty type_text || is_empty rev_text
    then none
    else elim (whole_number (strtoul 32 10 type_text)) [
      | none ↦ none
      | some t ↦ elim (whole_number (strtoul 64 10 rev_text)) [
        | none ↦ none
        | some revision ↦ some (t % 2 ^ 32, revision)
      ]
    ]

pub handle_value : Relay → Bytes → Bytes → Bytes → List Bytes → Bytes → Properties → Relay
handle_value r controller provider field more payload props = elim (metadata props) [
  | none ↦ r
  | some (t, revision) ↦ accept r (record {
    peer = controller;
    qualified = provider ++ slash field;
    callsign = elim more [ [] ↦ [] | cs ∷ rest ↦ cs ];
    type = t;
    payload = payload;
    revision = revision;
  })
]

-- HandlePublish on the parts of the topic.
pub handle_parts : Relay → List Bytes → Bytes → Properties → Relay
handle_parts r (p0 ∷ p1 ∷ room ∷ controller ∷ provider ∷ more) payload props =
    let value = elim more as (λ _. Relay) [
      | [] ↦ r
      | field ∷ rest ↦ handle_value r controller provider field rest payload props
    ] in
    if not (bytes_eq p0 esb_part)
      || (not (bytes_eq p1 v1_part) || not (bytes_eq room r.identity.room))
    then r
    else (if bytes_eq provider presence_part
        then handle_presence r controller payload
        else (if bytes_eq controller r.identity.controller then r else value))
handle_parts r parts payload props = r

pub handle_publish : Relay → Bytes → Bytes → Properties → Relay
handle_publish r topic payload props = handle_parts r (split topic) payload props

abbrev pub handle_packet : Relay → Packet → Relay
handle_packet r p = if p.type == publish_type then handle_publish r p.topic p.payload p.props else r

abbrev pub set_error : Relay → Trouble → Relay
set_error r why = record r { last_error = why }

-- The packets at the front of m_rx, one round for each; a packet takes two bytes at least, so that the
-- length of the buffer is rounds enough. `false` is a malformed packet.
pub drain_rx : ℕ → Relay → Relay × Bool
drain_rx zero r = (r, true)
drain_rx (suc fuel) r = elim (decode r.rx fresh_packet) [
  | need_more ↦ (r, true)
  | malformed ↦ (set_error r malformed_packet, false)
  | ok p consumed ↦ drain_rx fuel (handle_packet (record r { rx = drop consumed r.rx }) p)
]

-- What follows the loop: a PINGREQ when one is due, with whether the transport takes it.
abbrev pub keep_alive : Bool → Bool → Relay × Bool → Relay × Bool
keep_alive due accepted (r, false) = (r, false)
keep_alive due accepted (r, true) = (r, not due || accepted)

-- What Recv gave: `none` is an error. `false` is a connection to close.
pub pump_inbound : Relay → Option Bytes → Bool → Bool → Relay × Bool
pump_inbound r none due accepted = (set_error r connection_lost, false)
pump_inbound r (some chunk) due accepted =
    let received = record r { rx = r.rx ++ chunk } in
    keep_alive due accepted (drain_rx (suc (length received.rx)) received)
