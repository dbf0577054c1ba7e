-- ===== src/Mqtt/RoundTrip.antt =====
-- What the relay encodes is what a peer's Decode of src/MqttCodec.cpp returns.
use euroscope_plugin_bridge.Prelude.{
  ℕ, suc, ◌+◌, ◌*◌, ◌/◌, ◌%◌, ◌^◌, ◌<◌, ◌≡◌, refl, ap, ◌∙◌, arith, ◌++◌, some, ltb, le→ltb,
  if◌then◌else◌, length, length-append, take-append, drop-append, append_assoc, bit_and, Bool, true,
  false, not, ◌==◌,
}
use euroscope_plugin_bridge.Mqtt.{
  Bytes, Properties, Packet, ok, finish, encode_publish, encode_var_int, decode, decode_body,
  decode_publish, publish_header, put_string, put_u16, put_user, put_properties, publish_type,
}
use euroscope_plugin_bridge.Mqtt.Varint.{decode_var_int-encode_var_int}
use euroscope_plugin_bridge.Mqtt.Properties.{IsShort, ArePropertiesShort, parse_properties-put_user}
use euroscope_plugin_bridge.Mqtt.Frame.{decode-frame}

abbrev pub publish_flags : Bool → ℕ
publish_flags retain = if retain then 0x01 else 0x00

qos_zero : (flags : ℕ) (retain : Bool) → flags ≡ publish_flags retain → bit_and (flags / 2) 0x03 ≡ 0
qos_zero flags true f = rw f
qos_zero flags false f = rw f

retain_flag :
    (flags : ℕ) (retain : Bool)
    → flags ≡ publish_flags retain
    → not (bit_and flags 0x01 == 0) ≡ retain
retain_flag flags true f = rw f
retain_flag flags false f = rw f

publish_header-put_string :
    (topic rest : Bytes) (retain : Bool) (out : Packet)
    → IsShort topic
    → out.flags ≡ publish_flags retain
    → publish_header (put_string topic ++ rest) out ≡ some (topic, rest)
unfolding publish_header put_string put_u16
publish_header-put_string topic rest retain out h f =
    let e : length topic % 2 ^ 16 / 256 % 256 * 256 + length topic % 2 ^ 16 % 256 ≡ length topic =
      omega arith in
    let n : 2 + length topic ≡ suc (suc (length topic)) = omega arith in
    let fits : ltb (suc (suc (length topic + length rest))) (suc (suc (length topic))) ≡ false =
      le→ltb _ _ (omega arith) in
    rw
      (
        e,
        n,
        qos_zero out.flags retain f,
        length-append topic rest,
        fits,
        take-append topic rest,
        drop-append topic rest,
      )
      (ground arith)

abbrev pub publish_body : Bytes → Bytes → Properties → Bytes
publish_body topic payload props = put_string topic ++ (put_properties props ++ payload)

decode_publish-body :
    (topic payload : Bytes) (retain : Bool) (props : Properties) (out : Packet)
    → IsShort topic
    → ArePropertiesShort props
    → length (put_user props) < 2 ^ 28
    → out.flags ≡ publish_flags retain
    → decode_publish (publish_body topic payload props) out
      ≡ some (record out { topic = topic; props = props; payload = payload; retain = retain })
unfolding decode_publish put_properties
decode_publish-body topic payload retain props out ht hp hl f =
    let v = encode_var_int (length (put_user props)) in
    let e : length (put_user props) % 2 ^ 32 ≡ length (put_user props) = omega arith in
    rw
      (
        publish_header-put_string topic (put_properties props ++ payload) retain out ht f,
        e,
        append_assoc v (put_user props) payload,
      )
      (rw (
        decode_var_int-encode_var_int (length (put_user props)) (put_user props ++ payload) hl,
        drop-append v (put_user props ++ payload),
        length-append (put_user props) payload,
        le→ltb (length (put_user props) + length payload) (length (put_user props)) (omega arith),
        take-append (put_user props) payload,
        drop-append (put_user props) payload,
        parse_properties-put_user props hp,
        retain_flag out.flags retain f,
      ))

user_fits :
    (topic payload : Bytes) (props : Properties)
    → length (publish_body topic payload props) < 2 ^ 28
    → length (put_user props) < 2 ^ 28
unfolding put_properties
user_fits topic payload props h =
    let v = encode_var_int (length (put_user props) % 2 ^ 32) in
    omega (
      arith,
      length-append (put_string topic) (put_properties props ++ payload),
      length-append (put_properties props) payload,
      length-append v (put_user props),
    )

-- A PUBLISH that fits MQTT's limits is decoded to its topic, payload, retain flag and properties, with
-- all its bytes taken, whatever follows it in the stream.
pub decode-encode_publish :
    (topic payload rest : Bytes) (retain : Bool) (props : Properties) (out : Packet)
    → IsShort topic
    → ArePropertiesShort props
    → length (publish_body topic payload props) < 2 ^ 28
    → decode (encode_publish topic payload retain props ++ rest) out
      ≡ ok
          (record out {
            type = publish_type;
            flags = publish_flags retain;
            topic = topic;
            payload = payload;
            retain = retain;
            props = props;
          })
          (length (encode_publish topic payload retain props))
unfolding encode_publish decode_body
decode-encode_publish topic payload rest retain props out ht hp hl =
    decode-frame publish_type (publish_flags retain) (publish_body topic payload props) rest out
      (omega arith) (ground arith) hl
    ∙ ap (finish (length (encode_publish topic payload retain props))) (
        decode_publish-body topic payload retain props _ ht hp (user_fits topic payload props hl)
          refl)
