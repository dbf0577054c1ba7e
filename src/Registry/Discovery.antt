-- ===== src/Registry/Discovery.antt =====
-- OwnField, Resolve, ProviderVersion and ListProviders of src/Registry.cpp. Whether there is a pointer to
-- write the result through is an argument; a result is given with `ok`.
pub mod Resolved
use euroscope_plugin_bridge.Prelude.{
  ℕ, ◌+◌, ◌%◌, ◌^◌, Bool, true, false, not, ◌&&◌, ◌||◌, List, [], ◌∷◌, ◌++◌, Option, none, some,
  ◌==◌, ltb, if◌then◌else◌, length,
}
use euroscope_plugin_bridge.Prelude.Maps.{lookup, bytes_key}
use euroscope_plugin_bridge.Status.{
  Status, ok, no_provider, no_field, type_mismatch, buffer_too_small, invalid_arg, wrong_thread,
}
use euroscope_plugin_bridge.Schema.{Bytes, FieldDef, ProviderDef}
use euroscope_plugin_bridge.Registry.{Registry, owner, provider_at, field_def, field}

-- QualifiedName: empty where there is no such field.
pub field_name : Registry → ℕ → Bytes
field_name r f = elim (field r f) [ none ↦ [] | some fd ↦ fd.qualified ]

-- `id + "/" + name`
abbrev pub qualify : Bytes → Bytes → Bytes
qualify id name = id ++ (b'/' ∷ name)

abbrev pub Found : Type 0
Found = Status × Option ℕ

abbrev pub index_or : Option ℕ → ℕ
index_or none = 0
index_or (some i) = i

pub own_field_of : Registry → ProviderDef → Bytes → Found
own_field_of r d name = elim (lookup (qualify d.id name) r.field_index) [
  | none ↦ (no_field, none)
  | some i ↦
      (if not ((field_def r i).provider == index_or (lookup d.id r.provider_index))
        then (no_field, none)
        else (ok, some (i + 1)))
]

pub own_field : Bool → Registry → Option ℕ → Option Bytes → Bool → Found
own_field main r p none out = if not main then (wrong_thread, none) else (invalid_arg, none)
own_field main r p (some name) out =
    if not main
    then (wrong_thread, none)
    else (if not out then (invalid_arg, none) else elim (owner r p) [
      | none ↦ (invalid_arg, none)
      | some o ↦ own_field_of r (provider_at r o) name
    ])

-- What stands before the first slash.
unfoldable pub before_slash : Bytes → Option Bytes
before_slash [] = none
before_slash (c ∷ s) = elim (before_slash s) [
  | none ↦ (if c == b'/' then some [] else none)
  | some id ↦ (if c == b'/' then some [] else some (c ∷ id))
]

-- The provider that the id names now, if it is live.
unfoldable pub live_provider : Registry → Bytes → Option ℕ
live_provider r id = elim (lookup id r.provider_index) [
  | none ↦ none
  | some i ↦ (if not (provider_at r i).live then none else some i)
]

abbrev pub resolve_field : Registry → Bytes → ℕ → Found
resolve_field r qualified expect = elim (lookup qualified r.field_index) [
  | none ↦ (no_field, none)
  | some i ↦
      (if not (expect == 0) && not ((field_def r i).type == expect)
        then (type_mismatch, none)
        else (ok, some (i + 1)))
]

abbrev pub resolve_in : Registry → Bytes → ℕ → Option Bytes → Found
resolve_in r qualified expect none = (invalid_arg, none)
resolve_in r qualified expect (some id) = elim (live_provider r id) [
  | none ↦ (no_provider, none)
  | some i ↦ resolve_field r qualified expect
]

unfoldable pub resolve : Registry → Option Bytes → ℕ → Bool → Found
resolve r none expect out = (invalid_arg, none)
resolve r (some qualified) expect out =
    if not out then (invalid_arg, none) else resolve_in r qualified expect (before_slash qualified)

-- The major and the minor version.
pub provider_version : Registry → Option Bytes → Bool → Status × Option (ℕ × ℕ)
provider_version r none out = (invalid_arg, none)
provider_version r (some id) out =
    if not out then (invalid_arg, none) else elim (live_provider r id) [
      | none ↦ (no_provider, none)
      | some i ↦ (ok, some ((provider_at r i).major, (provider_at r i).minor))
    ]

pub live_ids : List ProviderDef → Bytes
live_ids [] = []
live_ids (p ∷ ps) = (if p.live then p.id ++ (b'\n' ∷ []) else []) ++ live_ids ps

-- The size of the caller's buffer and whether there is one: the size that is needed, and what is copied.
pub list_providers : Registry → Option ℕ → Bool → Status × Option ℕ × Option Bytes
list_providers r none buf = (invalid_arg, none, none)
list_providers r (some have) buf =
    let all = live_ids r.providers in
    let need = (length all + 1) % 2 ^ 32 in
    if not buf || ltb have need
    then (buffer_too_small, some need, none)
    else (ok, some need, some all)
