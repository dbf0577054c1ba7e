-- ===== src/Mqtt.antt =====
-- src/MqttCodec.h and src/MqttCodec.cpp: the MQTT 5.0 packets of the relay.
-- A byte is a number below 256, a buffer or a std::string the list of its bytes. A routine that
-- appends to `out` returns what it appends. A pointer into a buffer with the length left is the
-- list of the bytes that are left. `size_t` sums stay below 2 ^ 32, since a varint is below 2 ^ 28.
pub mod Varint
pub mod Properties
pub mod Frame
pub mod RoundTrip
pub mod Acks
mod Tests
use euroscope_plugin_bridge.Prelude.{
  ℕ, zero, suc, ◌+◌, ◌*◌, ◌/◌, ◌%◌, ◌^◌, ◌<◌, ◌-◌, bit_and, bit_or, arith, Bool, true, false, not,
  ◌||◌, List, [], ◌∷◌, ◌++◌, Option, none, some, ltb, leb, ◌==◌, if◌then◌else◌, length, get_or,
  take, drop, All,
}
use euroscope_plugin_bridge.Prelude.Order.{lt_wf}
use mathlib.Core.Logic.{dite}
use mathlib.Core.WellFounded.{Acc}
use native.Mathlib.Decide.{dec_lt}

abbrev pub Bytes : Type 0
Bytes = List ℕ

abbrev pub IsByte : ℕ → Type 0
IsByte b = b < 256

-- `enum Type`: a packet holds the four bits that it read, whatever they are.
abbrev pub connect_type : ℕ
connect_type = 1

abbrev pub connack_type : ℕ
connack_type = 2

abbrev pub publish_type : ℕ
publish_type = 3

abbrev pub subscribe_type : ℕ
subscribe_type = 8

abbrev pub suback_type : ℕ
suback_type = 9

abbrev pub pingreq_type : ℕ
pingreq_type = 12

abbrev pub pingresp_type : ℕ
pingresp_type = 13

abbrev pub disconnect_type : ℕ
disconnect_type = 14

pub record Will : Type 0 where
  pub topic : Bytes
  pub payload : Bytes
  pub retain : Bool

-- The user properties, in order.
abbrev pub Properties : Type 0
Properties = List (Bytes × Bytes)

-- encoding

-- `static_cast<uint8_t>(v >> 8)`, then `v & 0xFF`.
unfoldable pub put_u16 : ℕ → Bytes
put_u16 v = v / 256 % 256 ∷ v % 256 ∷ []

-- The length is cut to 16 bits, and the bytes are not.
unfoldable pub put_string : Bytes → Bytes
unfolding put_u16
put_string s = put_u16 (length s % 2 ^ 16) ++ s

pub shift_shrinks : (v : ℕ) → 0 < v / 128 → v / 128 < v
shift_shrinks v h = omega arith

-- `do … while (value > 0)`
encode_loop : (v : ℕ) → Acc ◌<◌ v → Bytes
encode_loop v (Acc.intro _ smaller) =
    dite (dec_lt 0 (v / 128))
      (λ more. bit_or (v % 128) 0x80 ∷ encode_loop (v / 128) (smaller _ (shift_shrinks v more)))
      (λ _. v % 128 ∷ [])

unfoldable pub encode_var_int : ℕ → Bytes
unfolding encode_loop lt_wf dec_lt
encode_var_int v = encode_loop v (lt_wf.apply v)

-- The fixed header, the length of the body and the body.
pub frame : ℕ → ℕ → Bytes → Bytes
frame type flags body =
    bit_or (type * 2 ^ 4) (bit_and flags 0x0f) % 256
    ∷ (encode_var_int (length body % 2 ^ 32) ++ body)

unfoldable pub put_user : Properties → Bytes
put_user [] = []
put_user ((k, v) ∷ rest) = 0x26 ∷ (put_string k ++ (put_string v ++ put_user rest))

unfoldable pub put_properties : Properties → Bytes
put_properties props = encode_var_int (length (put_user props) % 2 ^ 32) ++ put_user props

abbrev pub is_empty : Bytes → Bool
is_empty [] = true
is_empty (b ∷ s) = false

abbrev will_flags : Option Will → ℕ
will_flags none = 0x02
will_flags (some w) =
    let with_will = bit_or 0x02 0x04 in if w.retain then bit_or with_will 0x20 else with_will

-- Clean session, the will and its retain flag, the user name and the password.
pub connect_flags : Option Will → Bool → Bool → ℕ
connect_flags will user pass =
    let with_user = if user then bit_or (will_flags will) 0x80 else will_flags will in
    if pass then bit_or with_user 0x40 else with_user

abbrev put_will : Option Will → Bytes
put_will none = []
put_will (some w) = 0x00 ∷ (put_string w.topic ++ put_string w.payload)

abbrev put_given : Bytes → Bytes
put_given s = if is_empty s then [] else put_string s

-- "MQTT"
abbrev protocol_name : Bytes
protocol_name = b'M' ∷ b'Q' ∷ b'T' ∷ b'T' ∷ []

pub encode_connect : Bytes → Bytes → Bytes → ℕ → Option Will → Bytes
encode_connect client_id username password keep_alive will = frame connect_type 0 (
    put_string protocol_name
    ++ (0x05
        ∷ connect_flags will (not (is_empty username)) (not (is_empty password))
        ∷ (put_u16 keep_alive
            ++ (0x00
                ∷ (put_string client_id
                    ++ (put_will will ++ (put_given username ++ put_given password)))))))

pub encode_publish : Bytes → Bytes → Bool → Properties → Bytes
encode_publish topic payload retain props =
    frame publish_type (if retain then 0x01 else 0x00)
      (put_string topic ++ (put_properties props ++ payload))

pub encode_subscribe : ℕ → Bytes → Bytes
encode_subscribe packet_id filter =
    frame subscribe_type 0x02 (put_u16 packet_id ++ (0x00 ∷ (put_string filter ++ (0x00 ∷ []))))

pub encode_pingreq : Bytes
encode_pingreq = frame pingreq_type 0 []

pub encode_disconnect : Bytes
encode_disconnect = frame disconnect_type 0 []

-- decoding

-- `i` bytes are read; `none` is `false`. The result is the value and the bytes used.
pub decode_loop : Bytes → ℕ → ℕ → ℕ → Option (ℕ × ℕ)
decode_loop [] i multiplier result = none
decode_loop (byte ∷ rest) i multiplier result =
    let result' = (result + bit_and byte 0x7f * multiplier) % 2 ^ 32 in
    let more = decode_loop rest (i + 1) (multiplier * 128 % 2 ^ 32) result' in
    if leb 4 i then none else (if bit_and byte 0x80 == 0 then some (result', i + 1) else more)

pub decode_var_int : Bytes → Option (ℕ × ℕ)
unfolding decode_loop
decode_var_int buffer = decode_loop buffer 0 1 0

-- The byte at an index below the length.
abbrev pub byte_at : Bytes → ℕ → ℕ
byte_at s i = get_or s i 0

-- `(hi << 8) | lo` on bytes.
abbrev pub u16 : ℕ → ℕ → ℕ
u16 hi lo = hi * 256 + lo

-- The string and what follows it.
pub get_string : Bytes → Option (Bytes × Bytes)
get_string p =
    if ltb (length p) 2
    then none
    else (let n = u16 (byte_at p 0) (byte_at p 1) in
        if ltb (length (drop 2 p)) n then none else some (take n (drop 2 p), drop n (drop 2 p)))

pub skip_bytes : Bytes → ℕ → Option Bytes
skip_bytes p n = if ltb (length p) n then none else some (drop n p)

infixl 5 ◌>>=◌
abbrev pub ◌>>=◌ {ℓ κ} : {A : Type ℓ} {B : Type κ} → Option A → (A → Option B) → Option B
none >>= f = none
some a >>= f = f a

-- The cases of the `switch` in ParseProperties: the user properties so far, and what follows.
pub user_property : Bytes → Properties → Option (Properties × Bytes)
user_property p user = do
  (k, p₁) ← get_string p
  (v, p₂) ← get_string p₁
  some (user ++ ((k, v) ∷ []), p₂)

pub fixed_property : ℕ → Bytes → Properties → Option (Properties × Bytes)
fixed_property n p user = do p₁ ← skip_bytes p n; some (user, p₁)

pub var_int_property : Bytes → Properties → Option (Properties × Bytes)
var_int_property p user = do (v, n) ← decode_var_int p; some (user, drop n p)

pub string_property : Bytes → Properties → Option (Properties × Bytes)
string_property p user = do (s, p₁) ← get_string p; some (user, p₁)

pub parse_property : ℕ → Bytes → Properties → Option (Properties × Bytes)
parse_property id p user =
    if id == 0x26
    then user_property p user
    else (if id == 0x01
        then fixed_property 1 p user
        else (if id == 0x23
            then fixed_property 2 p user
            else (if id == 0x02
                then fixed_property 4 p user
                else (if id == 0x0b
                    then var_int_property p user
                    else (if (id == 0x03) || ((id == 0x08) || (id == 0x09))
                        then string_property p user
                        else none)))))

-- `while (pos < len)`: each round takes a byte, so the length is fuel enough.
pub parse_loop : ℕ → Bytes → Properties → Option Properties
parse_loop fuel [] user = some user
parse_loop zero (id ∷ p) user = none
parse_loop (suc fuel) (id ∷ p) user = do
  (user', rest) ← parse_property id p user
  parse_loop fuel rest user'

pub parse_properties : Bytes → Properties → Option Properties
parse_properties p user = parse_loop (length p) p user

pub record Packet : Type 0 where
  pub type : ℕ
  pub flags : ℕ
  pub return_code : ℕ
  pub topic : Bytes
  pub payload : Bytes
  pub retain : Bool
  pub props : Properties
  pub packet_id : ℕ

-- What `Packet packet;` holds.
abbrev pub fresh_packet : Packet
fresh_packet = record {
  type = connect_type;
  flags = 0;
  return_code = 0;
  topic = [];
  payload = [];
  retain = false;
  props = [];
  packet_id = 0;
}

-- `ok` has `*out` and `*consumed`; both other results drop them.
pub data DecodeResult : Type 0 where
  ok : Packet → ℕ → DecodeResult
  need_more : DecodeResult
  malformed : DecodeResult

-- The body of one packet; `none` is Malformed.
pub decode_connack : Bytes → Packet → Option Packet
decode_connack body out =
    if ltb (length body) 2 then none else some (record out { return_code = byte_at body 1 })

-- The packet identifier that a PUBLISH above QoS 0 has between its topic and its properties.
pub publish_header : Bytes → Packet → Option (Bytes × Bytes)
publish_header body out =
    let topic_len = u16 (byte_at body 0) (byte_at body 1) in
    let offset = 2 + topic_len in
    let topic = take topic_len (drop 2 body) in
    let qos = bit_and (out.flags / 2) 0x03 in
    if ltb (length body) 2
    then none
    else (if ltb (length body) offset
        then none
        else (if ltb 0 qos
            then (if ltb (length body) (offset + 2)
                then none
                else some (topic, drop (offset + 2) body))
            else some (topic, drop offset body)))

pub decode_publish : Bytes → Packet → Option Packet
decode_publish body out = do
  (topic, rest) ← publish_header body out
  (prop_len, prop_bytes) ← decode_var_int rest
  let block = drop prop_bytes rest
  inside ← (if ltb (length block) prop_len then none else some (take prop_len block))
  user ← parse_properties inside []
  some (record out {
    topic = topic;
    props = user;
    payload = drop prop_len block;
    retain = not (bit_and out.flags 0x01 == 0);
  })

-- The reason code behind the properties.
abbrev suback_code : Bytes → Packet → ℕ × ℕ → Option Packet
suback_code body out (prop_len, prop_bytes) =
    let rc = 2 + prop_bytes + prop_len in
    let packet_id' = u16 (byte_at body 0) (byte_at body 1) % 2 ^ 16 in
    if leb (length body) rc
    then none
    else some (record out { packet_id = packet_id'; return_code = byte_at body rc })

pub decode_suback : Bytes → Packet → Option Packet
decode_suback body out =
    if ltb (length body) 2 then none else (decode_var_int (drop 2 body) >>= suback_code body out)

-- The `switch` over the packet type. What was never asked for is skipped.
pub decode_body : ℕ → Bytes → Packet → Option Packet
decode_body type body out =
    if type == connack_type
    then decode_connack body out
    else (if type == publish_type
        then decode_publish body out
        else (if type == suback_type then decode_suback body out else some out))

abbrev pub finish : ℕ → Option Packet → DecodeResult
finish consumed none = malformed
finish consumed (some out) = ok out consumed

-- The packet after a length that was read.
pub decode_framed : Bytes → Packet → ℕ × ℕ → DecodeResult
decode_framed buffer out (remaining, var_int_len) =
    let header = byte_at buffer 0 in
    let header_len = 1 + var_int_len in
    let consumed = header_len + remaining in
    let body = take remaining (drop header_len buffer) in
    let out' = record out { type = header / 2 ^ 4; flags = bit_and header 0x0f } in
    if ltb (length buffer) consumed
    then need_more
    else finish consumed (decode_body (header / 2 ^ 4) body out')

pub decode : Bytes → Packet → DecodeResult
decode buffer out =
    if ltb (length buffer) 2 then need_more else elim (decode_var_int (drop 1 buffer)) [
      | none ↦ (if leb 4 (length buffer - 1) then malformed else need_more)
      | some r ↦ decode_framed buffer out r
    ]
