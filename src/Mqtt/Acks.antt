-- ===== src/Mqtt/Acks.antt =====
-- The broker's answers: CONNACK and SUBACK in Decode of src/MqttCodec.cpp.
use euroscope_plugin_bridge.Prelude.{
  ℕ, suc, ◌+◌, ◌*◌, ◌/◌, ◌%◌, ◌^◌, ◌<◌, ◌≡◌, refl, ap, ◌∙◌, arith, [], ◌∷◌, ◌++◌, some, leb, le→ltb,
  lt→leb, length, length-append, get_or, append_assoc, false,
}
use euroscope_plugin_bridge.Mqtt.{
  Bytes, Packet, ok, finish, frame, encode_var_int, decode, decode_body, decode_connack,
  decode_suback, suback_type, connack_type,
}
use euroscope_plugin_bridge.Mqtt.Varint.{decode_var_int-encode_var_int}
use euroscope_plugin_bridge.Mqtt.Frame.{decode-frame}

-- A CONNACK: its flags, the reason code and its properties.
pub decode_connack_lem :
    (acknowledge code : ℕ) (props rest : Bytes) (out : Packet)
    → length props + 2 < 2 ^ 28
    → decode (frame connack_type 0 (acknowledge ∷ code ∷ props) ++ rest) out
      ≡ ok
          (record out { type = connack_type; flags = 0; return_code = code })
          (length (frame connack_type 0 (acknowledge ∷ code ∷ props)))
unfolding decode_body decode_connack
decode_connack_lem acknowledge code props rest out h =
    decode-frame connack_type 0 (acknowledge ∷ code ∷ props) rest out (omega arith) (omega arith)
      (omega arith)
    ∙ rw (le→ltb (suc (suc (length props))) 2 (omega arith))

get_or-append : (xs ys : Bytes) (d : ℕ) → get_or (xs ++ ys) (length xs) d ≡ get_or ys 0 d
get_or-append [] ys d = refl
get_or-append (x ∷ xs) ys d = get_or-append xs ys d

abbrev pub suback_body : ℕ → Bytes → Bytes → Bytes
suback_body id block codes =
    id / 256 ∷ id % 256 ∷ (encode_var_int (length block) ++ (block ++ codes))

decode_suback-body :
    (id code : ℕ) (block codes : Bytes) (out : Packet)
    → id < 2 ^ 16
    → length block < 2 ^ 28
    → decode_suback (suback_body id block (code ∷ codes)) out
      ≡ some (record out { packet_id = id; return_code = code })
unfolding decode_suback
decode_suback-body id code block codes out hi hl =
    let v = encode_var_int (length block) in
    let s = v ++ (block ++ (code ∷ codes)) in
    let e : id / 256 * 256 + id % 256 ≡ id = omega arith in
    let m : id % 2 ^ 16 ≡ id = omega arith in
    let n : 2 + length v + length block ≡ suc (suc (length (v ++ block))) =
      omega (arith, length-append v block) in
    let w = v ++ block in
    let some_left : leb (suc (suc (length w + suc (length codes)))) (suc (suc (length w))) ≡ false =
      lt→leb _ _ (omega arith) in
    rw
      (
        le→ltb (suc (suc (length s))) 2 (omega arith),
        decode_var_int-encode_var_int (length block) (block ++ (code ∷ codes)) hl,
      )
      (rw (
        n,
        ← append_assoc v block (code ∷ codes),
        length-append w (code ∷ codes),
        some_left,
        get_or-append w (code ∷ codes) 0,
        e,
        m,
      ))

block_fits :
    (id : ℕ) (block codes : Bytes)
    → length (suback_body id block codes) < 2 ^ 28
    → length block < 2 ^ 28
block_fits id block codes h =
    let v = encode_var_int (length block) in
    omega (arith, length-append v (block ++ codes), length-append block codes)

-- A SUBACK: the packet identifier, the properties and the first reason code, which is the one that the
-- relay checks, wherever the properties end.
pub decode_suback_lem :
    (id code : ℕ) (block codes rest : Bytes) (out : Packet)
    → id < 2 ^ 16
    → length (suback_body id block (code ∷ codes)) < 2 ^ 28
    → decode (frame suback_type 0 (suback_body id block (code ∷ codes)) ++ rest) out
      ≡ ok
          (record out { type = suback_type; flags = 0; packet_id = id; return_code = code })
          (length (frame suback_type 0 (suback_body id block (code ∷ codes))))
unfolding decode_body
decode_suback_lem id code block codes rest out hi h =
    decode-frame suback_type 0 (suback_body id block (code ∷ codes)) rest out (omega arith)
      (omega arith) h
    ∙ ap (finish _)
        (decode_suback-body id code block codes _ hi (block_fits id block (code ∷ codes) h))
