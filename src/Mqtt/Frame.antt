-- ===== src/Mqtt/Frame.antt =====
-- The fixed header: Frame and the head of Decode in src/MqttCodec.cpp.
use euroscope_plugin_bridge.Prelude.{
  ◌⊎◌, ◌≢◌, leb, lt→ltb, false, ℕ, suc, ◌+◌, ◌*◌, ◌/◌, ◌%◌, ◌^◌, ◌≤◌, ◌<◌, ◌≡◌, refl, sym, ◌∙◌,
  arith, [], ◌∷◌, ◌++◌, none, some, ltb, le→ltb, if◌then◌else◌, length, length-append, drop,
  take-append, drop-append, append_assoc, bit_and, Option-cases, inl, inr, take-append_le,
  drop-append_le, length-drop,
}
use euroscope_plugin_bridge.Prelude.Bits.{header_byte, low_nibble}
use native.Mathlib.Decide.{dec_le}
use euroscope_plugin_bridge.Mqtt.{
  Bytes, Packet, DecodeResult, ok, need_more, malformed, finish, frame, encode_var_int,
  decode_var_int, decode, decode_framed, decode_body,
}
use euroscope_plugin_bridge.Mqtt.Varint.{
  decode_var_int-encode_var_int, encode_var_int_shape, decode_var_int_takes,
  decode_var_int-append_none,
}

-- The packet behind a length that was read: the body is what the length says.
decode_framed-body :
    (header : ℕ) (v body rest : Bytes) (out : Packet)
    → decode_framed (header ∷ (v ++ (body ++ rest))) out (length body, length v)
      ≡ finish (suc (length v + length body)) (
          decode_body
            (header / 2 ^ 4)
            body
            (record out { type = header / 2 ^ 4; flags = bit_and header 0x0f }))
unfolding decode_framed
decode_framed-body header v body rest out =
    let e : 1 + length v ≡ suc (length v) = omega arith in
    let n : 1 + length v + length body ≡ suc (length v + length body) = omega arith in
    let fits : ltb (suc (length v + (length body + length rest))) (suc (length v + length body))
        ≡ false =
      le→ltb _ _ (omega arith) in
    rw (n, e, length-append v (body ++ rest), length-append body rest, fits)
      (rw (drop-append v (body ++ rest), take-append body rest))

decode-two :
    (header : ℕ) (s : Bytes) (out : Packet) {r : ℕ × ℕ}
    → 1 ≤ length s
    → decode_var_int s ≡ some r
    → decode (header ∷ s) out ≡ decode_framed (header ∷ s) out r
unfolding decode
decode-two header s out h e = rw (le→ltb (suc (length s)) 2 (omega arith), e)

-- A frame is read back with its body, whatever follows it in the stream.
pub decode-frame :
    (type flags : ℕ) (body rest : Bytes) (out : Packet)
    → type < 16
    → flags < 16
    → length body < 2 ^ 28
    → decode (frame type flags body ++ rest) out
      ≡ finish
          (length (frame type flags body))
          (decode_body type body (record out { type = type; flags = flags }))
unfolding frame
decode-frame type flags body rest out ht hf hb =
    let v = encode_var_int (length body) in
    let h = type * 16 + flags in
    let e : length body % 2 ^ 32 ≡ length body = omega arith in
    let t : h / 2 ^ 4 ≡ type = omega arith in
    let f : bit_and h 0x0f ≡ flags = low_nibble h (omega arith) ∙ omega arith in
    let long : 1 ≤ length (v ++ (body ++ rest)) = omega (
      arith,
      length-append v (body ++ rest),
      (encode_var_int_shape (length body) (omega arith)).1,
    ) in
    rw (header_byte type flags ht hf, e, append_assoc v body rest, length-append v body)
      (decode-two h (v ++ (body ++ rest)) out long
          (decode_var_int-encode_var_int (length body) (body ++ rest) hb)
        ∙ decode_framed-body h v body rest out
        ∙ rw (t, f))

pub decode_short : (s : Bytes) (out : Packet) → length s < 2 → decode s out ≡ need_more
unfolding decode
decode_short s out h = rw (lt→ltb (length s) 2 h) refl

-- What a decoded packet takes: at least its two header bytes, and nothing beyond the buffer.
pub decode_takes :
    (s : Bytes) (out p : Packet) (n : ℕ) → decode s out ≡ ok p n → (2 ≤ n) × (n ≤ length s)
unfolding decode decode_framed
decode_takes s out p n e = elim (Option-cases (decode_var_int (drop 1 s))) [
  | inl z ↦ ground arith
  | inr (r, z) ↦ ground (arith, decode_var_int_takes (drop 1 s) [] r.0 r.1 z)
]

decode_framed-append :
    (h : ℕ) (s more : Bytes) (out : Packet) (r : ℕ × ℕ)
    → r.1 + r.0 ≤ length s
    → decode_framed (h ∷ (s ++ more)) out r ≡ decode_framed (h ∷ s) out r
unfolding decode_framed
decode_framed-append h s more out r fits =
    let e : 1 + r.1 ≡ suc r.1 = omega arith in
    let n : 1 + r.1 + r.0 ≡ suc (r.1 + r.0) = omega arith in
    rw (
      n,
      e,
      length-append s more,
      le→ltb (suc (length s + length more)) (suc (r.1 + r.0)) (omega arith),
      le→ltb (suc (length s)) (suc (r.1 + r.0)) (omega arith),
      drop-append_le r.1 s more (omega arith),
      take-append_le r.0 (drop r.1 s) more (omega (arith, length-drop r.1 s)),
    )

decode_framed_waits :
    (h : ℕ) (s : Bytes) (out : Packet) (r : ℕ × ℕ)
    → length s < r.1 + r.0
    → decode_framed (h ∷ s) out r ≡ need_more
unfolding decode_framed
decode_framed_waits h s out r short = ground arith

decode-none :
    (h : ℕ) (s : Bytes) (out : Packet)
    → decode_var_int s ≡ none
    → decode (h ∷ s) out ≡ (if leb 4 (length s) then malformed else need_more)
unfolding decode
decode-none h s out z = rw z (ground arith)

append_none :
    (b : ℕ) (s more : Bytes) (out : Packet)
    → decode (b ∷ s) out ≢ need_more
    → decode_var_int s ≡ none
    → decode (b ∷ (s ++ more)) out ≡ decode (b ∷ s) out
append_none b s more out h z = elim (dec_le 4 (length s)) [
  | yes q ↦ ground (
    arith,
    decode-none b s out z,
    decode-none b (s ++ more) out (decode_var_int-append_none s more q z),
    length-append s more,
  )
  | no q ↦ absurd (h (decode-none b s out z ∙ ground arith))
]

append_some :
    (b : ℕ) (s more : Bytes) (out : Packet) (r : ℕ × ℕ)
    → decode (b ∷ s) out ≢ need_more
    → decode_var_int s ≡ some r
    → decode (b ∷ (s ++ more)) out ≡ decode (b ∷ s) out
append_some b s more out r h z =
    let (pos, four, inside, z') = decode_var_int_takes s more r.0 r.1 z in
    let two = decode-two b s out (omega arith) z in
    elim (dec_le (r.1 + r.0) (length s)) [
      | yes q ↦
          decode-two b (s ++ more) out (omega (arith, length-append s more)) z'
          ∙ decode_framed-append b s more out r q
          ∙ sym two
      | no q ↦ absurd (h (two ∙ decode_framed_waits b s out r (omega arith)))
    ]

-- Once a buffer is decoded, or found malformed, input that comes later changes nothing.
pub decode-append :
    (s more : Bytes) (out : Packet)
    → decode s out ≢ need_more
    → decode (s ++ more) out ≡ decode s out
decode-append [] more out h = absurd (h (unfold decode in refl))
decode-append (b ∷ s) more out h = elim (Option-cases (decode_var_int s)) [
  | inl z ↦ append_none b s more out h z
  | inr (r, z) ↦ append_some b s more out r h z
]

pub DecodeResult-cases :
    (d : DecodeResult)
    → (d ≡ need_more)
      ⊎ ((d ≢ need_more) × ((d ≡ malformed) ⊎ ((p : Packet) × (n : ℕ) × (d ≡ ok p n))))
DecodeResult-cases need_more = inl refl
DecodeResult-cases malformed = inr (λ e. cc, inl refl)
DecodeResult-cases (ok p n) = inr (λ e. cc, inr (p, n, refl))

-- Where a whole buffer is one packet, each proper beginning of it waits for the rest.
pub decode_waits :
    (front back : Bytes) (b : ℕ) (out p : Packet)
    → decode (front ++ (b ∷ back)) out ≡ ok p (length (front ++ (b ∷ back)))
    → decode front out ≡ need_more
decode_waits front back b out p e = elim (DecodeResult-cases (decode front out)) [
  | inl w ↦ w
  | inr (d, inl m) ↦ cc (e, m, decode-append front (b ∷ back) out d)
  | inr (d, inr (q, n, m)) ↦ ground (
    arith,
    e,
    m,
    decode-append front (b ∷ back) out d,
    decode_takes front out q n m,
    length-append front (b ∷ back),
  )
]
