-- ===== src/Mqtt/Varint.antt =====
-- The variable-length integer of the remaining length and of the property lengths:
-- EncodeVarInt and DecodeVarInt of src/MqttCodec.cpp.
use native.Mathlib.Nat.{div-add-mod, one-le-pow, pow-suc}
use mathlib.Core.WellFounded.{Acc}
use euroscope_plugin_bridge.Prelude.{
  ℕ, zero, suc, ◌+◌, ◌*◌, ◌/◌, ◌%◌, ◌^◌, ◌≤◌, ◌<◌, ◌≡◌, refl, ap, bit_and, arith, [], ◌∷◌, ◌++◌,
  none, some, ltb, if◌then◌else◌, length, All,
}
use euroscope_plugin_bridge.Prelude.Order.{lt_wf}
use euroscope_plugin_bridge.Prelude.Bits.{low_bits, top_bit, set_top_bit}
use euroscope_plugin_bridge.Mqtt.{
  Bytes, IsByte, encode_loop, encode_var_int, decode_loop, decode_var_int,
}

-- The groups of seven bits, lowest first, for a value below 128 ^ (k + 1).
groups : ℕ → ℕ → Bytes
groups zero v = v ∷ []
groups (suc k) v =
    let rest = groups k (v / 128) in if ltb v 128 then v ∷ [] else (v % 128 + 128) ∷ rest

encode_loop-groups : (k v : ℕ) (w : Acc ◌<◌ v) → v < 128 ^ suc k → encode_loop v w ≡ groups k v
unfolding encode_loop groups
encode_loop-groups zero v (Acc.intro _ smaller) h = ground arith
encode_loop-groups (suc k) v (Acc.intro _ smaller) h = grind (
  arith,
  set_top_bit (v % 128),
  λ (w : Acc ◌<◌ (v / 128)). encode_loop-groups k (v / 128) w (omega arith),
)

encode_var_int-groups : (v : ℕ) → v < 2 ^ 32 → encode_var_int v ≡ groups 4 v
unfolding encode_var_int
encode_var_int-groups v h = encode_loop-groups 4 v (lt_wf.apply v) (omega arith)

groups-IsByte : (k v : ℕ) → v < 128 ^ suc k → All IsByte (groups k v)
unfolding groups
groups-IsByte zero v h = omega arith
groups-IsByte (suc k) v h = ground (arith, groups-IsByte k (v / 128) (omega arith))

last_group :
    (b i m r : ℕ) (rest : Bytes)
    → b < 128
    → i < 4
    → r + b * m < 2 ^ 32
    → decode_loop (b ∷ rest) i m r ≡ some (r + b * m, i + 1)
unfolding decode_loop
last_group b i m r rest hb hi fits = ground (arith, low_bits b, top_bit b)

inner_group :
    (g i m r : ℕ) (rest : Bytes)
    → g < 128
    → i < 4
    → r + g * m < 2 ^ 32
    → m * 128 < 2 ^ 32
    → decode_loop ((g + 128) ∷ rest) i m r ≡ decode_loop rest (i + 1) (m * 128) (r + g * m)
unfolding decode_loop
inner_group g i m r rest hb hi fits hm = ground (arith, low_bits (g + 128), top_bit (g + 128))

-- The multiplier does not wrap in the next `k` rounds.
abbrev NoWrap : ℕ → ℕ → Type 0
NoWrap zero m = Unit {0}
NoWrap (suc k) m = (m * 128 < 2 ^ 32) × NoWrap k (m * 128)

split_group : (v m : ℕ) → v * m ≡ v % 128 * m + v / 128 * (m * 128)
split_group v m = omega (arith, ap (λ (t : ℕ). t * m) (div-add-mod v 128))

decode_loop-groups :
    (k v i m r : ℕ) (rest : Bytes)
    → v < 128 ^ suc k
    → i + k < 4
    → NoWrap k m
    → r + v * m < 2 ^ 32
    → decode_loop (groups k v ++ rest) i m r ≡ some (r + v * m, i + length (groups k v))
unfolding groups
decode_loop-groups zero v i m r rest hv hi hm fits = last_group v i m r rest hv (omega arith) fits
decode_loop-groups (suc k) v i m r rest hv hi hm fits = ground (
  arith,
  last_group v i m r rest,
  split_group v m,
  inner_group (v % 128) i m r (groups k (v / 128) ++ rest),
  decode_loop-groups k (v / 128) (i + 1) (m * 128) (r + v % 128 * m) rest (omega arith),
)

groups_four : (v : ℕ) → v < 2 ^ 28 → groups 4 v ≡ groups 3 v
unfolding groups
groups_four v h = ground arith

groups_more : (k v : ℕ) → 128 ≤ v → groups (suc k) v ≡ (v % 128 + 128) ∷ groups k (v / 128)
unfolding groups
groups_more k v h = ground arith

pow_shrinks : (k v : ℕ) → 128 ^ suc k ≤ v → (128 ≤ v) × (128 ^ k ≤ v / 128)
pow_shrinks k v h = omega (arith, pow-suc 128 k, one-le-pow k 128 (omega arith))

-- Each round of the decoder on a large value goes on, and the fifth gives up.
decode_loop_long :
    (k v i m r : ℕ) (rest : Bytes)
    → 128 ^ k ≤ v
    → i + k ≡ 4
    → decode_loop (groups k v ++ rest) i m r ≡ none
unfolding decode_loop
decode_loop_long zero v i m r rest hv hi = unfold groups in ground arith
decode_loop_long (suc k) v i m r rest hv hi =
    let b = v % 128 + 128 in
    ground (
      arith,
      groups_more k v (pow_shrinks k v hv).0,
      top_bit b,
      decode_loop_long k (v / 128) (i + 1) (m * 128 % 2 ^ 32) ((r + bit_and b 0x7f * m) % 2 ^ 32)
          rest (pow_shrinks k v hv).1 (omega arith),
    )

-- Every value that MQTT allows is read back, with the number of bytes that were written, and the
-- decoder does not look at what follows them.
pub decode_var_int-encode_var_int :
    (v : ℕ) (rest : Bytes)
    → v < 2 ^ 28
    → decode_var_int (encode_var_int v ++ rest) ≡ some (v, length (encode_var_int v))
unfolding decode_var_int
decode_var_int-encode_var_int v rest h =
    rw (encode_var_int-groups v (omega arith), groups_four v h)
      (ground (arith, decode_loop-groups 3 v 0 1 0 rest))

-- A value above that is written in five bytes, and the decoder refuses them whatever follows.
pub decode_var_int-encode_var_int_large :
    (v : ℕ) (rest : Bytes)
    → 2 ^ 28 ≤ v
    → v < 2 ^ 32
    → (length (encode_var_int v) ≡ 5) × (decode_var_int (encode_var_int v ++ rest) ≡ none)
unfolding decode_var_int
decode_var_int-encode_var_int_large v rest lo hi =
    rw (encode_var_int-groups v hi)
      (unfold groups in ground arith, decode_loop_long 4 v 0 1 0 rest (omega arith) (omega arith))

-- What is written takes one to five bytes.
pub encode_var_int_shape :
    (v : ℕ)
    → v < 2 ^ 32
    → All IsByte (encode_var_int v)
      × (1 ≤ length (encode_var_int v))
      × (length (encode_var_int v) ≤ 5)
encode_var_int_shape v h =
    rw (encode_var_int-groups v h) (
      groups-IsByte 4 v (omega arith),
      unfold groups in ground arith,
      unfold groups in ground arith,
    )

-- The loop reads at most four bytes, all from the buffer, and more input does not change its result.
decode_loop_takes :
    (s more : Bytes) (i m r v n : ℕ)
    → decode_loop s i m r ≡ some (v, n)
    → (i < n) × (n ≤ 4) × (n ≤ i + length s) × (decode_loop (s ++ more) i m r ≡ some (v, n))
unfolding decode_loop
decode_loop_takes [] more i m r v n e = cc
decode_loop_takes (b ∷ s) more i m r v n e = ground (
  arith,
  decode_loop_takes s more (i + 1) (m * 128 % 2 ^ 32) ((r + bit_and b 0x7f * m) % 2 ^ 32) v n,
)

pub decode_var_int_takes :
    (s more : Bytes) (v n : ℕ)
    → decode_var_int s ≡ some (v, n)
    → (0 < n) × (n ≤ 4) × (n ≤ length s) × (decode_var_int (s ++ more) ≡ some (v, n))
unfolding decode_var_int
decode_var_int_takes s more v n e = ground (arith, decode_loop_takes s more 0 1 0 v n)

decode_loop-append_none :
    (s more : Bytes) (i m r : ℕ)
    → 4 ≤ i + length s
    → decode_loop s i m r ≡ none
    → decode_loop (s ++ more) i m r ≡ none
unfolding decode_loop
decode_loop-append_none [] [] i m r h e = refl
decode_loop-append_none [] (b ∷ more) i m r h e = ground arith
decode_loop-append_none (b ∷ s) more i m r h e = ground (
  arith,
  decode_loop-append_none s more (i + 1) (m * 128 % 2 ^ 32) ((r + bit_and b 0x7f * m) % 2 ^ 32),
)

-- Four bytes that hold no value hold none with more behind them.
pub decode_var_int-append_none :
    (s more : Bytes) → 4 ≤ length s → decode_var_int s ≡ none → decode_var_int (s ++ more) ≡ none
unfolding decode_var_int
decode_var_int-append_none s more h e = decode_loop-append_none s more 0 1 0 (omega arith) e
