-- ===== src/Registry/State.antt =====
-- The state file: LoadState, SaveState, FlushStateIfDue and Housekeeping of src/Registry.cpp.
-- What the operating system does is an argument: the text that was read, `none` where the file cannot be
-- opened, and what became of the temporary file. Doubles are those of Json/Double.
pub mod Entries
pub mod Fields
pub mod Readable
pub mod Survives
pub mod Flush
pub mod Restart
mod Tests
use euroscope_plugin_bridge.Prelude.{
  ℕ, zero, suc, ◌+◌, ◌-◌, ◌%◌, ◌^◌, Bool, true, false, not, ◌&&◌, ◌||◌, List, [], ◌∷◌, ◌++◌, Option,
  none, some, ltb, leb, ◌==◌, if◌then◌else◌, length, take,
}
use euroscope_plugin_bridge.Prelude.Maps.{insert, bytes_key}
use euroscope_plugin_bridge.Mqtt.{is_empty}
use euroscope_plugin_bridge.Text.{Bytes, codes, strtoul}
use euroscope_plugin_bridge.Value.{Slot, t_i64, t_f64, t_bool, t_str, t_blob}
use euroscope_plugin_bridge.Schema.{scope_global, is_persist}
use euroscope_plugin_bridge.Json.{
  JsonValue, null, number, string, object, no_members, Members, member, members, at, has, set,
  as_number, as_string, is_object,
}
use euroscope_plugin_bridge.Json.Double.{Double, as_int}
use euroscope_plugin_bridge.Json.Parser.{parse}
use euroscope_plugin_bridge.Json.Writer.{write}
use euroscope_plugin_bridge.Registry.{Registry, StagedValue, field_def, provider_at}
use euroscope_plugin_bridge.Registry.Payload.{hex_text}
use euroscope_plugin_bridge.Registry.Register.{restore_staged}
use euroscope_plugin_bridge.Relay.{Message, Relay}

pub set_state_path : Registry → Bytes → Registry
set_state_path r path = record r { state_path = path }

-- `Value(int64_t)`
abbrev pub integer : Double → ℕ → JsonValue
integer d n = number (d.of_i64 n)

-- The "value" of an entry; `i64` is what a number or a flag is saved as.
unfoldable pub payload_value : Double → (type i64 f64 : ℕ) → List ℕ → Option JsonValue
payload_value d type i64 f64 bytes =
    if (type == t_i64) || (type == t_bool)
    then some (integer d i64)
    else (if type == t_f64
        then some (number f64)
        else (if type == t_str
            then some (string bytes)
            else (if type == t_blob then some (string (hex_text bytes)) else none)))

unfoldable pub slot_value : Double → Slot → Option JsonValue
slot_value d s =
    payload_value d s.type (if s.type == t_bool then (if s.i64 == 0 then 0 else 1) else s.i64) s.f64
      s.bytes

unfoldable pub staged_value : Double → StagedValue → Option JsonValue
staged_value d v = payload_value d v.type v.i64 v.f64 v.bytes

unfoldable pub entry_of : Double → ℕ → JsonValue → JsonValue
entry_of d type value =
    set (set (object no_members) (codes "type") (integer d type)) (codes "value") value

-- `fields.Set` of an entry, or `continue` where the type is none that is saved
abbrev pub set_entry : Double → JsonValue → Bytes → ℕ → Option JsonValue → JsonValue
set_entry d fields key type none = fields
set_entry d fields key type (some value) = set fields key (entry_of d type value)

-- A round of the loop over m_globals.
unfoldable pub save_global : Double → Registry → JsonValue → ℕ → Slot → JsonValue
save_global d r fields i s =
    let f = field_def r i in
    if leb (length r.fields) i
    then fields
    else (if not (is_persist f.flags) || not (f.scope == scope_global)
        then fields
        else (if not s.assigned
            then fields
            else set_entry d fields f.qualified s.type (slot_value d s)))

unfoldable pub save_globals : Double → Registry → JsonValue → List (ℕ × Slot) → JsonValue
save_globals d r fields [] = fields
save_globals d r fields ((i, s) ∷ globals) = save_globals d r (save_global d r fields i s) globals

-- A round of the loop over m_staged.
unfoldable pub save_staged_value : Double → JsonValue → Bytes → StagedValue → JsonValue
save_staged_value d fields key v =
    if has fields key then fields else set_entry d fields key v.type (staged_value d v)

unfoldable pub save_staged : Double → JsonValue → List (Bytes × StagedValue) → JsonValue
save_staged d fields [] = fields
save_staged d fields ((key, v) ∷ staged) = save_staged d (save_staged_value d fields key v) staged

unfoldable pub saved_fields : Double → Registry → JsonValue
saved_fields d r = save_staged d (save_globals d r (object no_members) r.globals) r.staged

-- What is written.
unfoldable pub state_text : Double → Registry → Bytes
state_text d r =
    write d
      (set (set (object no_members) (codes "version") (integer d 1)) (codes "fields")
        (saved_fields d r))
      true

-- The two files, `none` where there is none.
pub record Disk : Type 0 where
  pub state : Option Bytes
  pub temp : Option Bytes

-- Whether fopen, remove and rename succeed, and how many bytes fwrite writes; the code asks neither of
-- remove nor of fwrite.
pub record Attempt : Type 0 where
  pub opened : Bool
  pub written : ℕ
  pub removed : Bool
  pub renamed : Bool

-- fopen to rename: the files, and whether the text has become the state file
unfoldable pub replace_file : Attempt → Bytes → Disk → Disk × Bool
replace_file a text disk =
    let temp = take a.written text in
    if not a.opened
    then (disk, false)
    else (if not a.renamed
        then (record { state = if a.removed then none else disk.state; temp = some temp }, false)
        else (record { state = some temp; temp = none }, true))

unfoldable pub save_state : Double → Attempt → Registry → Disk → Registry × Disk × Bool
save_state d a r disk =
    let (disk', done) = replace_file a (state_text d r) disk in
    if is_empty r.state_path
    then (r, disk, false)
    else (if done then record r { state_dirty = false } else r, disk', done)

-- The difference of two uint64_t
abbrev pub since : ℕ → ℕ → ℕ
since now then_ms = (now + 2 ^ 64 - then_ms) % 2 ^ 64

unfoldable pub flush_state_if_due : Double → Attempt → ℕ → Registry → Disk → Registry × Disk
flush_state_if_due d a now r disk =
    let (saved, disk', _) = save_state d a (record r { last_state_flush_ms = now }) disk in
    if not r.state_dirty
    then (r, disk)
    else (if ltb (since now r.last_state_flush_ms) 5000 then (r, disk) else (saved, disk'))

-- strtoul of a pair with no end pointer, as a byte
unfoldable pub lenient_byte : ℕ → ℕ → ℕ
lenient_byte c e = elim (strtoul 32 16 (c ∷ e ∷ [])) [ none ↦ 0 | some (b, rest) ↦ b % 256 ]

-- A digit that has no partner is left out.
unfoldable pub lenient_bytes : Bytes → List ℕ
lenient_bytes [] = []
lenient_bytes (c ∷ []) = []
lenient_bytes (c ∷ e ∷ text) = lenient_byte c e ∷ lenient_bytes text

abbrev pub fresh_staged : ℕ → StagedValue
fresh_staged type = record { type = type; i64 = 0; f64 = 0; bytes = [] }

-- The switch of LoadState; `none` drops the value.
unfoldable pub load_payload : Double → ℕ → JsonValue → Option StagedValue
load_payload d type value =
    let v = fresh_staged type in
    if (type == t_i64) || (type == t_bool)
    then some (record v { i64 = as_int d value 0 })
    else (if type == t_f64
        then some (record v { f64 = as_number value 0 })
        else (if type == t_str
            then some (record v { bytes = as_string value })
            else (if type == t_blob
                then some (record v { bytes = lenient_bytes (as_string value) })
                else none)))

unfoldable pub load_entry : Double → JsonValue → Option StagedValue
load_entry d entry =
    if not (is_object entry)
    then none
    else load_payload d (as_int d (at entry (codes "type")) 0 % 2 ^ 32) (at entry (codes "value"))

abbrev pub add_staged :
    Bytes → Option StagedValue → List (Bytes × StagedValue) → List (Bytes × StagedValue)
add_staged key none staged = staged
add_staged key (some v) staged = insert key v staged

unfoldable pub load_members :
    Double → Members → List (Bytes × StagedValue) → List (Bytes × StagedValue)
load_members d no_members staged = staged
load_members d (member key entry ms) staged =
    load_members d ms (add_staged key (load_entry d entry) staged)

-- What a readable state file stages.
unfoldable pub loaded : Double → JsonValue → List (Bytes × StagedValue)
loaded d root = load_members d (members (at root (codes "fields"))) []

module _ (d : Double) (notify : Registry → ℕ → ℕ → Registry) where
  -- The loop over m_providers, with a round for each that was there.
  unfoldable pub restore_live : ℕ → ℕ → Registry → Registry
  restore_live zero i r = r
  restore_live (suc rounds) i r =
      restore_live rounds (i + 1) (if (provider_at r i).live then restore_staged notify r i else r)

  unfoldable pub load_state : Option Bytes → Registry → Registry × Bool
  load_state none r = (r, false)
  load_state (some text) r =
      let root = (parse d text).0 in
      let staged = record r { staged = loaded d root } in
      if is_empty r.state_path || not (is_object root)
      then (r, false)
      else (restore_live (length r.providers) 0 staged, true)
