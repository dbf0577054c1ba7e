-- ===== src/Registry/State/Readable.antt =====
-- The JSON value that SaveState of src/Registry.cpp writes is one that Write and Parse keep.
use euroscope_plugin_bridge.Prelude.{
  ℕ, ◌<◌, ◌^◌, not, ◌||◌, ◌==◌, List, [], ◌∷◌, leb, length, if◌then◌else◌, All, arith, Bool-cases,
  inl, inr, bytes_eq,
}
use euroscope_plugin_bridge.Prelude.Maps.{bytes_key}
use euroscope_plugin_bridge.Text.{Bytes, codes}
use euroscope_plugin_bridge.Value.{Slot, t_i64, t_f64, t_bool, t_str, t_blob}
use euroscope_plugin_bridge.Schema.{scope_global, is_persist}
use euroscope_plugin_bridge.Json.{
  JsonValue, number, string, object, Members, no_members, member, members, set, set_member,
  bytes_lt, has,
}
use euroscope_plugin_bridge.Json.Double.{Double, IsReadable}
use euroscope_plugin_bridge.Json.Sorted.{set_member-IsSorted}
use euroscope_plugin_bridge.Json.Writer.Writable.{IsWritable, MembersWritable}
use euroscope_plugin_bridge.Registry.{Registry, StagedValue, field_def}
use euroscope_plugin_bridge.Registry.Payload.{hex_text}
use euroscope_plugin_bridge.Registry.State.{
  integer, payload_value, entry_of, set_entry, slot_value, staged_value, save_global, save_globals,
  save_staged_value, save_staged,
}
use euroscope_plugin_bridge.Registry.State.Entries.{DoubleLaws}

set_member-MembersWritable :
    (d : Double) (key : Bytes) (v : JsonValue) (ms : Members)
    → IsWritable d v
    → MembersWritable d ms
    → MembersWritable d (set_member key v ms)
unfolding set_member IsWritable
set_member-MembersWritable d key v no_members hv h = (hv, tt)
set_member-MembersWritable d key v (member k w ms) hv h = elim (Bool-cases (bytes_lt key k)) [
  | inl e ↦ rw e (hv, h)
  | inr e ↦ rw e (elim (Bool-cases (bytes_eq k key)) [
    | inl q ↦ rw q (hv, h.1)
    | inr q ↦ rw q (h.0, set_member-MembersWritable d key v ms hv h.1)
  ])
]

-- Objects that can be written.
abbrev pub IsFields : Double → JsonValue → Type 0
IsFields d v = IsWritable d (object (members v))

pub set-IsFields :
    (d : Double) (v : JsonValue) (key : Bytes) (w : JsonValue)
    → IsWritable d w
    → IsFields d v
    → IsFields d (set v key w)
unfolding set IsWritable
set-IsFields d v key w hw h = (
  set_member-IsSorted key w (members v) h.0,
  set_member-MembersWritable d key w (members v) hw h.1,
)

pub none-IsFields : (d : Double) → IsFields d (object no_members)
unfolding IsWritable
none-IsFields d = (tt, tt)

-- A number that fits and a double that its text stands for.
pub record IsPlainValue (d : Double) (type i64 f64 : ℕ) : Type 0 where
  pub kind : type < 2 ^ 64
  pub whole : i64 < 2 ^ 64
  pub readable : IsReadable d f64

pub number-IsWritable : (d : Double) (n : ℕ) → IsReadable d n → IsWritable d (number n)
unfolding IsWritable
number-IsWritable d n h = h

string-IsWritable : (d : Double) (s : Bytes) → IsWritable d (string s)
unfolding IsWritable
string-IsWritable d s = tt

entry_of-IsWritable :
    (d : Double) (laws : DoubleLaws d) (type : ℕ) (v : JsonValue)
    → type < 2 ^ 64
    → IsWritable d v
    → IsWritable d (entry_of d type v)
unfolding entry_of
entry_of-IsWritable d laws type v h hv =
    unfold set in
    set-IsFields d (set (object no_members) (codes "type") (integer d type)) (codes "value") v hv (
      set-IsFields d (object no_members) (codes "type") (integer d type)
        (number-IsWritable d (d.of_i64 type) (laws.readable type h)) (none-IsFields d))

-- What is set for a payload can be written.
set_entry-IsFields :
    (d : Double) (laws : DoubleLaws d) (fields : JsonValue) (key : Bytes) (type i64 f64 : ℕ)
    (bytes : List ℕ)
    → IsPlainValue d type i64 f64
    → IsFields d fields
    → IsFields d (set_entry d fields key type (payload_value d type i64 f64 bytes))
unfolding payload_value
set_entry-IsFields d laws fields key type i64 f64 bytes h hf =
    let put : (v : JsonValue) → IsWritable d v → IsFields d (set fields key (entry_of d type v)) =
      λ v hv.
        set-IsFields d fields key (entry_of d type v) (entry_of-IsWritable d laws type v h.kind hv)
          hf in
    elim (Bool-cases ((type == t_i64) || (type == t_bool))) [
      | inl q ↦
          rw q
            (put (integer d i64) (number-IsWritable d (d.of_i64 i64) (laws.readable i64 h.whole)))
      | inr q ↦ rw q (elim (Bool-cases (type == t_f64)) [
        | inl q ↦ rw q (put (number f64) (number-IsWritable d f64 h.readable))
        | inr q ↦ rw q (elim (Bool-cases (type == t_str)) [
          | inl q ↦ rw q (put (string bytes) (string-IsWritable d bytes))
          | inr q ↦ rw q (elim (Bool-cases (type == t_blob)) [
            | inl q ↦ rw q (put (string (hex_text bytes)) (string-IsWritable d (hex_text bytes)))
            | inr q ↦ rw q hf
          ])
        ])
      ])
    ]

-- A slot and a staged value that can be written.
abbrev pub IsPlainSlot : Double → ℕ × Slot → Type 0
IsPlainSlot d e = IsPlainValue d e.1.type e.1.i64 e.1.f64

abbrev pub IsPlainStaged : Double → Bytes × StagedValue → Type 0
IsPlainStaged d e = IsPlainValue d e.1.type e.1.i64 e.1.f64

flag : ℕ → ℕ
flag n = if n == 0 then 0 else 1

flag-lt : (n : ℕ) → flag n < 2 ^ 64
unfolding flag
flag-lt n = ground arith

save_global-IsFields :
    (d : Double) (laws : DoubleLaws d) (r : Registry) (fields : JsonValue) (i : ℕ) (s : Slot)
    → IsPlainValue d s.type s.i64 s.f64
    → IsFields d fields
    → IsFields d (save_global d r fields i s)
unfolding save_global slot_value flag
save_global-IsFields d laws r fields i s h hf =
    let number = if s.type == t_bool then flag s.i64 else s.i64 in
    let fits : number < 2 ^ 64 = elim (Bool-cases (s.type == t_bool)) [
      | inl q ↦ rw q (flag-lt s.i64)
      | inr q ↦ rw q h.whole
    ] in
    let put =
      set_entry-IsFields d laws fields (field_def r i).qualified s.type number s.f64 s.bytes
        (record { kind = h.kind; whole = fits; readable = h.readable }) hf in
    elim (Bool-cases (leb (length r.fields) i)) [
      | inl q ↦ rw q hf
      | inr q ↦
          rw q
            (elim (Bool-cases (
              not (is_persist (field_def r i).flags)
              || not ((field_def r i).scope == scope_global))) [
                | inl q ↦ rw q hf
                | inr q ↦
                    rw q (elim (Bool-cases (not s.assigned)) [ inl q ↦ rw q hf | inr q ↦ rw q put ])
              ])
    ]

pub save_globals-IsFields :
    (d : Double) (laws : DoubleLaws d) (r : Registry) (fields : JsonValue)
    (globals : List (ℕ × Slot))
    → All (IsPlainSlot d) globals
    → IsFields d fields
    → IsFields d (save_globals d r fields globals)
unfolding save_globals
save_globals-IsFields d laws r fields [] h hf = hf
save_globals-IsFields d laws r fields ((i, s) ∷ globals) h hf =
    save_globals-IsFields d laws r (save_global d r fields i s) globals h.1
      (save_global-IsFields d laws r fields i s h.0 hf)

pub save_staged-IsFields :
    (d : Double) (laws : DoubleLaws d) (fields : JsonValue) (staged : List (Bytes × StagedValue))
    → All (IsPlainStaged d) staged
    → IsFields d fields
    → IsFields d (save_staged d fields staged)
unfolding save_staged save_staged_value staged_value
save_staged-IsFields d laws fields [] h hf = hf
save_staged-IsFields d laws fields ((key, v) ∷ staged) h hf = elim (Bool-cases (has fields key)) [
  | inl q ↦ rw q (save_staged-IsFields d laws fields staged h.1 hf)
  | inr q ↦ rw q (
      save_staged-IsFields d laws (set_entry d fields key v.type (staged_value d v)) staged h.1
        (set_entry-IsFields d laws fields key v.type v.i64 v.f64 v.bytes h.0 hf))
]
