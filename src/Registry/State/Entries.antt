-- ===== src/Registry/State/Entries.antt =====
-- An entry of the state file that SaveState of src/Registry.cpp writes is what LoadState reads.
use euroscope_plugin_bridge.Prelude.{
  ℕ, ◌-◌, ◌%◌, ◌^◌, ◌<◌, ◌≤◌, ◌≡◌, refl, ap, ◌∙◌, ◌⊎◌, inl, inr, ◌||◌, List, [], ◌∷◌, Option, none,
  some, ◌==◌, if◌then◌else◌, All, arith, Bool-cases,
}
use euroscope_plugin_bridge.Text.{codes, hex_pair}
use euroscope_plugin_bridge.Text.Hex.{strtoul-hex_pair}
use euroscope_plugin_bridge.Value.{Slot, t_i64, t_f64, t_bool, t_str, t_blob}
use euroscope_plugin_bridge.Json.{JsonValue, at, set, as_number, as_string}
use euroscope_plugin_bridge.Json.Double.{Double, IsReadable, as_int}
use euroscope_plugin_bridge.Registry.{StagedValue}
use euroscope_plugin_bridge.Registry.Payload.{hex_text}
use euroscope_plugin_bridge.Registry.State.{
  integer, payload_value, entry_of, lenient_byte, lenient_bytes, fresh_staged, load_payload,
  load_entry,
}

-- The whole numbers that a double holds, as 64-bit patterns: from -2 ^ 53 to 2 ^ 53.
abbrev pub IsExact : ℕ → Type 0
IsExact n = (n ≤ 2 ^ 53) ⊎ ((2 ^ 64 - 2 ^ 53 ≤ n) × (n < 2 ^ 64))

-- What the state file relies on: such a number is cast to a double and back unchanged, and the double of
-- each int64_t is read back from its text.
pub record DoubleLaws (d : Double) : Type 0 where
  pub exact : (n : ℕ) → IsExact n → d.to_i64 (d.of_i64 n) ≡ n
  pub readable : (n : ℕ) → n < 2 ^ 64 → IsReadable d (d.of_i64 n)

-- What remains of a value: the member that its type names.
unfoldable pub remembered : (type i64 f64 : ℕ) → List ℕ → StagedValue
remembered type i64 f64 bytes =
    let v = fresh_staged type in
    if (type == t_i64) || (type == t_bool)
    then record v { i64 = i64 }
    else (if type == t_f64 then record v { f64 = f64 } else record v { bytes = bytes })

-- A slot's, with a flag as 0 or 1.
unfoldable pub remembered_slot : Slot → StagedValue
unfolding remembered
remembered_slot s =
    remembered s.type (if s.type == t_bool then (if s.i64 == 0 then 0 else 1) else s.i64) s.f64
      s.bytes

unfoldable pub remembered_staged : StagedValue → StagedValue
unfolding remembered
remembered_staged v = remembered v.type v.i64 v.f64 v.bytes

pub lenient_bytes-hex_text :
    (bytes : List ℕ) → All (λ b. b < 256) bytes → lenient_bytes (hex_text bytes) ≡ bytes
unfolding lenient_bytes hex_text lenient_byte hex_pair
lenient_bytes-hex_text [] h = refl
lenient_bytes-hex_text (b ∷ bytes) (hb, hs) =
    let byte : b % 256 ≡ b = omega arith in
    rw (strtoul-hex_pair b hb, lenient_byte) (rw (byte, lenient_bytes-hex_text bytes hs) refl)

-- The value, where there is one, is read as `v`.
abbrev LoadsAs : Double → ℕ → StagedValue → Option JsonValue → Type 0
LoadsAs d type v none = Unit {0}
LoadsAs d type v (some value) = load_payload d type value ≡ some v

payload_value-LoadsAs :
    (d : Double) (type i64 f64 : ℕ) (bytes : List ℕ)
    → d.to_i64 (d.of_i64 i64) ≡ i64
    → All (λ b. b < 256) bytes
    → LoadsAs d type (remembered type i64 f64 bytes) (payload_value d type i64 f64 bytes)
unfolding payload_value load_payload remembered as_int as_number as_string
payload_value-LoadsAs d type i64 f64 bytes exact hb =
    elim (Bool-cases ((type == t_i64) || (type == t_bool))) [
      | inl q ↦ rw q (rw (q, exact) refl)
      | inr q₁ ↦ rw q₁ (elim (Bool-cases (type == t_f64)) [
        | inl q ↦ rw q (rw (q₁, q) refl)
        | inr q₂ ↦ rw q₂ (elim (Bool-cases (type == t_str)) [
          | inl q ↦ rw q (rw (q₁, q₂, q) refl)
          | inr q₃ ↦ rw q₃ (elim (Bool-cases (type == t_blob)) [
            | inl q ↦ rw q (rw (q₁, q₂, q₃, q, lenient_bytes-hex_text bytes hb) refl)
            | inr q ↦ rw q tt
          ])
        ])
      ])
    ]

LoadsAs-some :
    (d : Double) (type : ℕ) (v : StagedValue) (o : Option JsonValue) (value : JsonValue)
    → o ≡ some value
    → LoadsAs d type v o
    → load_payload d type value ≡ some v
LoadsAs-some d type v o value e h = rw e at h

entry_type :
    (d : Double) (type : ℕ) (v : JsonValue) → at (entry_of d type v) (codes "type") ≡ integer d type
unfolding at entry_of set
entry_type d type v = refl

entry_value : (d : Double) (type : ℕ) (v : JsonValue) → at (entry_of d type v) (codes "value") ≡ v
unfolding at entry_of set
entry_value d type v = refl

pub load_entry-entry_of :
    (d : Double) (laws : DoubleLaws d) (type i64 f64 : ℕ) (bytes : List ℕ) (value : JsonValue)
    → payload_value d type i64 f64 bytes ≡ some value
    → type < 2 ^ 32
    → IsExact i64
    → All (λ b. b < 256) bytes
    → load_entry d (entry_of d type value) ≡ some (remembered type i64 f64 bytes)
unfolding load_entry as_int
load_entry-entry_of d laws type i64 f64 bytes value e ht hi hb =
    let kind : d.to_i64 (d.of_i64 type) % 2 ^ 32 ≡ type =
      ap (λ n. n % 2 ^ 32) (laws.exact type (inl (omega arith))) ∙ omega arith in
    unfold entry_of set in
    rw (entry_type d type value, entry_value d type value, kind)
      (LoadsAs-some d type (remembered type i64 f64 bytes) (payload_value d type i64 f64 bytes)
        value e (payload_value-LoadsAs d type i64 f64 bytes (laws.exact i64 hi) hb))
