-- ===== src/Mqtt/Tests.antt =====
-- Runs of the codec on concrete packets.
use euroscope_plugin_bridge.Prelude.{
  none, ◌≤◌, drop, ◌≢◌, arith, length, ◌≡◌, refl, [], ◌∷◌, ◌++◌, some, true,
}
use euroscope_plugin_bridge.Mqtt.RoundTrip.{decode-encode_publish}
use euroscope_plugin_bridge.Mqtt.Varint.{
  decode_var_int-encode_var_int, decode_var_int-encode_var_int_large,
}
use euroscope_plugin_bridge.Mqtt.Acks.{decode_connack_lem, decode_suback_lem, suback_body}
use euroscope_plugin_bridge.Mqtt.Frame.{decode-append, decode_waits, decode_takes}
use euroscope_plugin_bridge.Mqtt.{
  connack_type, suback_type, Packet, malformed, need_more, Properties, frame, put_string,
  put_properties, put_user, decode_framed, decode_body, decode_publish, publish_header,
  parse_properties, parse_loop, parse_property, user_property, get_string, Bytes, encode_var_int,
  decode_var_int, encode_publish, decode, fresh_packet, ok, publish_type,
}

encode_var_int_321 : encode_var_int 321 ≡ 193 ∷ 2 ∷ []
unfolding encode_var_int
encode_var_int_321 = refl

decode_var_int_321 : decode_var_int (193 ∷ 2 ∷ 7 ∷ []) ≡ some (321, 2)
unfolding decode_var_int
decode_var_int_321 = refl

abbrev packet : Bytes
packet =
    0x31 ∷ 17 ∷ 0 ∷ 1 ∷ b'a' ∷ 11 ∷ 0x26 ∷ 0 ∷ 4 ∷ b't' ∷ b'y' ∷ b'p' ∷ b'e' ∷ 0 ∷ 2 ∷ b'4' ∷ b'2'
    ∷ b'h' ∷ b'i' ∷ []

encode_publish_run :
    encode_publish
      (b'a' ∷ [])
      (b'h' ∷ b'i' ∷ [])
      true
      ((b't' ∷ b'y' ∷ b'p' ∷ b'e' ∷ [], b'4' ∷ b'2' ∷ []) ∷ [])
    ≡ packet
unfolding encode_publish frame put_string put_properties put_user encode_var_int
encode_publish_run = refl

abbrev decoded : Packet
decoded = record fresh_packet {
  type = publish_type;
  flags = 1;
  topic = b'a' ∷ [];
  payload = b'h' ∷ b'i' ∷ [];
  retain = true;
  props = (b't' ∷ b'y' ∷ b'p' ∷ b'e' ∷ [], b'4' ∷ b'2' ∷ []) ∷ [];
}

decode_run : decode packet fresh_packet ≡ ok decoded 19
unfolding decode decode_framed decode_body decode_publish publish_header decode_var_int
    parse_properties parse_loop parse_property user_property get_string
decode_run = refl

-- A PUBLISH whose properties run past its end.
decode_overrun : decode (0x30 ∷ 4 ∷ 0 ∷ 1 ∷ b'a' ∷ 1 ∷ []) fresh_packet ≡ malformed
unfolding decode decode_framed decode_body decode_publish publish_header decode_var_int
decode_overrun = refl

abbrev topic : Bytes
topic = b'a' ∷ []

abbrev props : Properties
props = (b't' ∷ [], b'4' ∷ []) ∷ []

decode-encode_publish_example :
    decode (encode_publish topic (b'h' ∷ []) true props ++ (0xc0 ∷ [])) fresh_packet
    ≡ ok
        (record fresh_packet {
          type = publish_type;
          flags = 1;
          topic = topic;
          payload = b'h' ∷ [];
          retain = true;
          props = props;
        })
        (length (encode_publish topic (b'h' ∷ []) true props))
decode-encode_publish_example =
    decode-encode_publish topic (b'h' ∷ []) (0xc0 ∷ []) true props fresh_packet (omega arith)
      (omega arith) (unfold put_properties put_user encode_var_int put_string in omega arith)

packet_complete : decode packet fresh_packet ≢ need_more
packet_complete e = cc (decode_run, e)

decode-append_example : decode (packet ++ (9 ∷ 9 ∷ [])) fresh_packet ≡ decode packet fresh_packet
decode-append_example = decode-append packet (9 ∷ 9 ∷ []) fresh_packet packet_complete

decode_waits_run : decode (0x31 ∷ 17 ∷ 0 ∷ []) fresh_packet ≡ need_more
decode_waits_run =
    decode_waits (0x31 ∷ 17 ∷ 0 ∷ []) (drop 4 packet) 1 fresh_packet decoded decode_run

decode_takes_run : (2 ≤ 19) × (19 ≤ length packet)
decode_takes_run = decode_takes packet fresh_packet decoded 19 decode_run

decode_var_int-encode_var_int_run :
    decode_var_int (encode_var_int 321 ++ (7 ∷ [])) ≡ some (321, length (encode_var_int 321))
decode_var_int-encode_var_int_run = decode_var_int-encode_var_int 321 (7 ∷ []) (omega arith)

decode_var_int-encode_var_int_large_example :
    (length (encode_var_int 300_000_000) ≡ 5)
    × (decode_var_int (encode_var_int 300_000_000 ++ (7 ∷ [])) ≡ none)
decode_var_int-encode_var_int_large_example =
    decode_var_int-encode_var_int_large 300_000_000 (7 ∷ []) (omega arith) (omega arith)

abbrev block : Bytes
block = 0x01 ∷ 1 ∷ 0x26 ∷ 0 ∷ 1 ∷ b'k' ∷ 0 ∷ 1 ∷ b'v' ∷ []

decode_connack_run :
    decode (frame connack_type 0 (0 ∷ 0x87 ∷ []) ++ (9 ∷ [])) fresh_packet
    ≡ ok
        (record fresh_packet { type = connack_type; flags = 0; return_code = 0x87 })
        (length (frame connack_type 0 (0 ∷ 0x87 ∷ [])))
decode_connack_run = decode_connack_lem 0 0x87 [] (9 ∷ []) fresh_packet (omega arith)

decode_suback_run :
    decode (frame suback_type 0 (suback_body 1 block (0x87 ∷ [])) ++ (9 ∷ [])) fresh_packet
    ≡ ok
        (record fresh_packet { type = suback_type; flags = 0; packet_id = 1; return_code = 0x87 })
        (length (frame suback_type 0 (suback_body 1 block (0x87 ∷ []))))
decode_suback_run =
    decode_suback_lem 1 0x87 block [] (9 ∷ []) fresh_packet (omega arith)
      (unfold encode_var_int in omega arith)
