-- ===== src/Registry/Payload.antt =====
-- Values on the wire: EncodePayload and DecodePayload of src/Registry.cpp.
-- The text of a double (snprintf with %.17g) and the double of a text (strtod) are parameters: a double is
-- its bit pattern, and strtod gives it with the text that it leaves, or nothing where there is no number.
use euroscope_plugin_bridge.Prelude.{
  ℕ, ◌%◌, ◌^◌, ◌<◌, true, List, [], ◌∷◌, ◌++◌, Option, none, some, ◌≡◌, refl, ap, ◌==◌,
  if◌then◌else◌, All, arith, bytes_eq, Bool-cases, inl, inr,
}
use euroscope_plugin_bridge.Text.{Bytes, signed_decimal, hex_pair, c_str, strtoul, strtoll}
use euroscope_plugin_bridge.Text.Decimal.{strtoll-signed_decimal}
use euroscope_plugin_bridge.Text.Hex.{strtoul-hex_pair}
use euroscope_plugin_bridge.Value.Read.{
  is_i64, is_f64, is_bool, is_str, is_blob, valid_type-IsTyped,
}
use euroscope_plugin_bridge.Value.{
  Value, payload, store, Slot, fresh_slot, t_i64, t_f64, t_bool, t_str, t_blob, valid_type,
}
use euroscope_plugin_bridge.Relay.{whole_number}

unfoldable pub hex_text : List ℕ → Bytes
hex_text [] = []
hex_text (b ∷ bytes) = hex_pair b ++ hex_text bytes

-- The byte of a pair, `none` where something is left behind it. Without a digit `end` is the start of the
-- pair, which ends at a zero byte.
pub hex_byte : ℕ → ℕ → Option ℕ
hex_byte c d = elim (strtoul 32 16 (c ∷ d ∷ [])) [
  | none ↦ (if c == 0 then some 0 else none)
  | some (b, []) ↦ some (b % 256)
  | some (b, x ∷ rest) ↦ none
]

pub add_byte : Option ℕ → Option (List ℕ) → Option (List ℕ)
add_byte none bytes = none
add_byte (some b) none = none
add_byte (some b) (some bytes) = some (b ∷ bytes)

pub hex_bytes : Bytes → Option (List ℕ)
hex_bytes [] = some []
hex_bytes (c ∷ []) = none
hex_bytes (c ∷ d ∷ text) = add_byte (hex_byte c d) (hex_bytes text)

-- `*out` before a member is set.
abbrev pub typed_slot : ℕ → Slot
typed_slot type = record fresh_slot { type = type; assigned = true }

-- The members of `*out` behind a number or bytes that were read.
abbrev pub with_i64 : Slot → Option ℕ → Option Slot
with_i64 s none = none
with_i64 s (some n) = some (record s { i64 = n })

abbrev pub with_f64 : Slot → Option ℕ → Option Slot
with_f64 s none = none
with_f64 s (some x) = some (record s { f64 = x })

abbrev pub with_bytes : Slot → Option (List ℕ) → Option Slot
with_bytes s none = none
with_bytes s (some bytes) = some (record s { bytes = bytes })

-- "0" or "1"
abbrev pub flag_of : Bytes → Option ℕ
flag_of text =
    if bytes_eq text (b'0' ∷ [])
    then some 0
    else (if bytes_eq text (b'1' ∷ []) then some 1 else none)

module _ (format_f64 : ℕ → Bytes) (parse_f64 : Bytes → Option (ℕ × Bytes)) where
  pub encode_payload : Slot → Bytes
  encode_payload s =
      if s.type == t_i64
      then signed_decimal s.i64
      else (if s.type == t_bool
          then (if s.i64 == 0 then b'0' ∷ [] else b'1' ∷ [])
          else (if s.type == t_f64
              then format_f64 s.f64
              else (if s.type == t_str then s.bytes else hex_text s.bytes)))

  -- `none` is `false`. The slot is a fresh one.
  unfoldable pub decode_payload : ℕ → Bytes → Option Slot
  decode_payload type text =
      let out = typed_slot type in
      if type == t_i64
      then with_i64 out (whole_number (strtoll text))
      else (if type == t_bool
          then with_i64 out (flag_of text)
          else (if type == t_f64
              then with_f64 out (whole_number (parse_f64 (c_str text)))
              else (if type == t_str
                  then some (record out { bytes = text })
                  else (if type == t_blob then with_bytes out (hex_bytes text) else none))))

hex_bytes-hex_text :
    (bytes : List ℕ) → All (λ b. b < 256) bytes → hex_bytes (hex_text bytes) ≡ some bytes
unfolding hex_bytes hex_text hex_byte hex_pair add_byte
hex_bytes-hex_text [] h = refl
hex_bytes-hex_text (b ∷ bytes) (hb, hs) =
    let whole : b % 256 ≡ b = omega arith in
    rw (strtoul-hex_pair b hb, hex_byte) (rw (hex_bytes-hex_text bytes hs, whole) refl)

-- What a plugin wrote is what a peer decodes, for each of the five types: the slot that it gets is what
-- storing the same value in a fresh slot gives. The text of a double is read back by strtod; an integer has
-- 64 bits, and each byte of a payload is below 256.
pub decode_payload-encode_payload :
    (format_f64 : ℕ → Bytes) (parse_f64 : Bytes → Option (ℕ × Bytes)) (s : Slot) (v : Value)
    (now : ℕ)
    → valid_type v.type ≡ true
    → parse_f64 (c_str (format_f64 v.f64)) ≡ some (v.f64, [])
    → v.i64 < 2 ^ 64
    → All (λ b. b < 256) (payload v)
    → decode_payload format_f64 parse_f64 v.type
        (encode_payload format_f64 parse_f64 (store s v now))
      ≡ some (store fresh_slot v 0)
unfolding store encode_payload decode_payload bytes_eq
decode_payload-encode_payload format_f64 parse_f64 s v now valid exact small bytes =
    elim (valid_type-IsTyped v.type valid) [
      | is_i64 e ↦ rw e (
          ap (λ n. with_i64 (typed_slot t_i64) (whole_number n))
            (strtoll-signed_decimal v.i64 small))
      | is_f64 e ↦ rw e (ap (λ n. with_f64 (typed_slot t_f64) (whole_number n)) exact)
      | is_bool e ↦ rw e (elim (Bool-cases (v.b == 0)) [ inl q ↦ rw q refl | inr q ↦ rw q refl ])
      | is_str e ↦ rw e refl
      | is_blob e ↦
          rw e (ap (with_bytes (typed_slot t_blob)) (hex_bytes-hex_text (payload v) bytes))
    ]
