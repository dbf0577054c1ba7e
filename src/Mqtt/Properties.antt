-- ===== src/Mqtt/Properties.antt =====
-- Strings and property blocks: PutString, GetString, PutProperties and ParseProperties of
-- src/MqttCodec.cpp.
use euroscope_plugin_bridge.Prelude.{
  ℕ, zero, suc, ◌+◌, ◌*◌, ◌/◌, ◌%◌, ◌^◌, ◌≤◌, ◌<◌, ◌≡◌, ap, ◌∙◌, arith, [], ◌∷◌, ◌++◌, some, le→ltb,
  length, length-append, take-append, drop-append, append_assoc, append-nil, All,
}
use euroscope_plugin_bridge.Mqtt.{
  Bytes, Properties, put_string, put_user, get_string, user_property, parse_property, parse_loop,
  parse_properties,
}

-- A string whose length fits its 16-bit field.
abbrev pub IsShort : Bytes → Type 0
IsShort s = length s < 2 ^ 16

abbrev pub ArePropertiesShort : Properties → Type 0
ArePropertiesShort = All (λ kv. IsShort kv.0 × IsShort kv.1)

-- A short string is read back, and what follows it is left.
pub get_string-put_string :
    (s rest : Bytes) → IsShort s → get_string (put_string s ++ rest) ≡ some (s, rest)
unfolding get_string put_string
get_string-put_string s rest h =
    let e : length s % 2 ^ 16 / 256 % 256 * 256 + length s % 2 ^ 16 % 256 ≡ length s =
      omega arith in
    rw (e, length-append s rest, le→ltb (length s + length rest) (length s) (omega arith))
      (rw (take-append s rest, drop-append s rest) (ground arith))

user_property-put_string :
    (k v rest : Bytes) (user : Properties)
    → IsShort k
    → IsShort v
    → user_property (put_string k ++ (put_string v ++ rest)) user
      ≡ some (user ++ ((k, v) ∷ []), rest)
unfolding user_property
user_property-put_string k v rest user hk hv =
    rw (get_string-put_string k (put_string v ++ rest) hk, get_string-put_string v rest hv)

parse_loop-user :
    (fuel : ℕ) (k v rest : Bytes) (user : Properties)
    → IsShort k
    → IsShort v
    → parse_loop (suc fuel) (0x26 ∷ (put_string k ++ (put_string v ++ rest))) user
      ≡ parse_loop fuel rest (user ++ ((k, v) ∷ []))
unfolding parse_loop parse_property
parse_loop-user fuel k v rest user hk hv = rw (user_property-put_string k v rest user hk hv)

length_user :
    (k v : Bytes) (props : Properties)
    → length (put_user props) < length (put_user ((k, v) ∷ props))
unfolding put_user
length_user k v props = omega (
  arith,
  length-append (put_string k) (put_string v ++ put_user props),
  length-append (put_string v) (put_user props),
)

parse_loop-put_user :
    (fuel : ℕ) (props user : Properties)
    → ArePropertiesShort props
    → length (put_user props) ≤ fuel
    → parse_loop fuel (put_user props) user ≡ some (user ++ props)
unfolding put_user
parse_loop-put_user fuel [] user h k = unfold parse_loop in rw append-nil
parse_loop-put_user zero ((key, v) ∷ props) user h k = absurd (omega arith)
parse_loop-put_user (suc fuel) ((key, v) ∷ props) user h k =
    parse_loop-user fuel key v (put_user props) user h.0.0 h.0.1
    ∙ parse_loop-put_user fuel props (user ++ ((key, v) ∷ [])) h.1
        (ground (arith, length_user key v props))
    ∙ ap some (append_assoc user ((key, v) ∷ []) props)

-- The block of short user properties that a PUBLISH carries is read back in order.
pub parse_properties-put_user :
    (props : Properties)
    → ArePropertiesShort props
    → parse_properties (put_user props) [] ≡ some props
unfolding parse_properties
parse_properties-put_user props h = parse_loop-put_user _ props [] h (omega arith)
