-- ===== src/Value.antt =====
-- ESB_Value and Slot: the values that plugins exchange (include/esbridge.h, src/Registry.h) and how
-- src/Registry.cpp compares, stores and reads them.
-- An int64_t, a double and an int32_t are their bit patterns, numbers below 2 ^ 64, 2 ^ 64 and 2 ^ 32.
-- A pointer is `none` or the bytes behind it. The members of the union in ESB_Value are fields of their
-- own: each value is read through the member that its type names.
pub mod Read
mod Tests
use euroscope_plugin_bridge.Prelude.{
  ℕ, ◌+◌, ◌%◌, ◌^◌, ◌*◌, Bool, true, false, not, ◌&&◌, ◌||◌, List, [], Option, none, some, ltb, leb,
  ◌==◌, if◌then◌else◌, length, take, bytes_eq,
}
use euroscope_plugin_bridge.Status.{Status, ok, unset, invalid_arg, buffer_too_small}

abbrev pub t_i64 : ℕ
t_i64 = 1

abbrev pub t_f64 : ℕ
t_f64 = 2

abbrev pub t_bool : ℕ
t_bool = 3

abbrev pub t_str : ℕ
t_str = 4

abbrev pub t_blob : ℕ
t_blob = 5

unfoldable pub is_scalar : ℕ → Bool
is_scalar type = (type == t_i64) || ((type == t_f64) || (type == t_bool))

unfoldable pub valid_type : ℕ → Bool
valid_type t = leb t_i64 t && leb t t_blob

pub record Value : Type 0 where
  pub type : ℕ
  pub bytes : ℕ
  pub i64 : ℕ
  pub f64 : ℕ
  pub b : ℕ
  pub ptr : Option (List ℕ)

pub record Slot : Type 0 where
  pub type : ℕ
  pub revision : ℕ
  pub assigned : Bool
  pub i64 : ℕ
  pub f64 : ℕ
  pub bytes : List ℕ

-- `Slot{}`
abbrev pub fresh_slot : Slot
fresh_slot = record { type = 0; revision = 0; assigned = false; i64 = 0; f64 = 0; bytes = [] }

-- The bytes that a pointer and a length name. Nothing is read through a null pointer.
abbrev pub pointed : Option (List ℕ) → ℕ → List ℕ
pointed none n = []
pointed (some memory) n = take n memory

abbrev pub payload : Value → List ℕ
payload v = pointed v.ptr v.bytes

-- The same payload by length, then by memcmp.
unfoldable pub same_bytes : Slot → Value → Bool
same_bytes s v =
    if not (length s.bytes == v.bytes)
    then false
    else ((v.bytes == 0) || bytes_eq s.bytes (payload v))

unfoldable pub same_value : Slot → Value → Bool
same_value s v =
    if not s.assigned || not (s.type == v.type)
    then false
    else (if v.type == t_i64
        then s.i64 == v.i64
        else (if v.type == t_bool
            then (if s.i64 == 0 then v.b == 0 else not (v.b == 0))
            else (if v.type == t_f64
                then s.f64 == v.f64
                else (if (v.type == t_str) || (v.type == t_blob) then same_bytes s v else false))))

-- Store at a clock that has been advanced already: members of the other types keep what they held.
unfoldable pub store : Slot → Value → ℕ → Slot
store s v now =
    let s' = record s { type = v.type; assigned = true; revision = now } in
    if v.type == t_i64
    then record s' { i64 = v.i64 }
    else (if v.type == t_bool
        then record s' { i64 = if v.b == 0 then 0 else 1 }
        else (if v.type == t_f64
            then record s' { f64 = v.f64 }
            else record s' { bytes = payload v }))

-- `*out`, `*ioBytes` and whether there is a buffer, for a STR or a BLOB: `out` names the buffer's
-- content when it was filled.
pub read_bytes : Slot → Value → Option ℕ → Bool → Status × Value × Option ℕ
read_bytes s out none buf =
    (invalid_arg, record out { bytes = length s.bytes % 2 ^ 32; ptr = none }, none)
read_bytes s out (some have) buf =
    let need = length s.bytes % 2 ^ 32 in
    let out' = record out { bytes = need; ptr = none } in
    if not buf || ltb have need
    then (buffer_too_small, out', some need)
    else (ok, record out' { ptr = some (take need s.bytes) }, some need)

pub read_slot : Slot → Value → Option ℕ → Bool → Status × Value × Option ℕ
read_slot s out io buf =
    let out' = record out { type = s.type } in
    if not s.assigned
    then (unset, out, io)
    else (if s.type == t_i64
        then (ok, record out' { bytes = 8; i64 = s.i64 }, io)
        else (if s.type == t_f64
            then (ok, record out' { bytes = 8; f64 = s.f64 }, io)
            else (if s.type == t_bool
                then (ok, record out' { bytes = 4; b = if s.i64 == 0 then 0 else 1 }, io)
                else read_bytes s out' io buf)))
