-- ===== src/Registry/Register.antt =====
-- RegisterProvider and RestoreStagedFor of src/Registry.cpp.
-- A declaration that is null or too short, or for which there is no `out`, is `none`. A result has `*out`
-- where it was written. What ModuleIsLoaded and GetModuleFileNameA find out are arguments; the path is
-- empty where there is none. A restored value ends by `notify`, as a write does.
pub mod Depth
pub mod Refused
pub mod Stable
pub mod Named
mod Tests
use euroscope_plugin_bridge.Prelude.{
  ℕ, suc, ◌+◌, ◌%◌, ◌^◌, Bool, true, false, not, ◌&&◌, ◌||◌, List, [], ◌∷◌, ◌++◌, Option, none,
  some, ltb, leb, ◌==◌, if◌then◌else◌, length, get_or, set, bytes_eq,
}
use euroscope_plugin_bridge.Prelude.Maps.{lookup, insert, emplace, erase, nat_eq, bytes_key}
use euroscope_plugin_bridge.Status.{
  Status, ok, invalid_arg, wrong_thread, schema_conflict, provider_taken,
}
use euroscope_plugin_bridge.Mqtt.{is_empty}
use euroscope_plugin_bridge.Value.{Slot, is_scalar, valid_type}
use euroscope_plugin_bridge.Schema.{
  Bytes, FieldDef, fresh_field, ProviderDef, FieldDecl, ProviderDecl, scope_global, valid_scope,
  is_persist, valid_field_name, valid_provider_id,
}
use euroscope_plugin_bridge.AircraftTable.{aircraft_none}
use euroscope_plugin_bridge.Registry.{
  Registry, StagedValue, tick, provider_at, field_def, with_revision,
}
use euroscope_plugin_bridge.Registry.Drop.{with_dead, drop_provider_values}

-- A C string, or another one where there is none.
abbrev pub text_or : Option Bytes → Bytes → Bytes
text_or none other = other
text_or (some s) other = s

-- "<id>/<name>"
abbrev pub qualified_name : Bytes → FieldDecl → Bytes
qualified_name id fd = id ++ (b'/' ∷ text_or fd.name [])

-- The schema that an earlier life of the provider declared.
pub agrees : Registry → ℕ → Option ℕ → Bool
agrees r type none = true
agrees r type (some i) = (field_def r i).type == type

pub check_decl : Registry → Bytes → FieldDecl → Status
check_decl r id fd =
    if not (valid_field_name fd.name) || (not (valid_type fd.type) || not (valid_scope fd.scope))
    then invalid_arg
    else (if not (is_scalar fd.type) && (fd.max_bytes == 0)
        then invalid_arg
        else (if is_persist fd.flags && not (fd.scope == scope_global)
            then invalid_arg
            else (if not (agrees r fd.type (lookup (qualified_name id fd) r.field_index))
                then schema_conflict
                else ok)))

pub check_decls : Registry → Bytes → List FieldDecl → Status
check_decls r id [] = ok
check_decls r id (fd ∷ fds) =
    let rest = check_decls r id fds in elim (check_decl r id fd) [ ok ↦ rest | st ↦ st ]

-- The field of an earlier life is kept, with its type and scope; `provider` is the new one.
abbrev pub reused : Registry → ℕ → FieldDecl → ℕ → FieldDef
reused r provider fd i = record (field_def r i) {
  provider = provider;
  flags = fd.flags;
  max_bytes = fd.max_bytes;
  doc = text_or fd.doc [];
}

pub reuse_field : Registry → ℕ → FieldDecl → ℕ → Registry
reuse_field r provider fd i = record r { fields = set r.fields i (reused r provider fd i) }

pub new_field : Bytes → ℕ → FieldDecl → FieldDef
new_field id provider fd = record {
  name = text_or fd.name [];
  qualified = qualified_name id fd;
  type = fd.type;
  scope = fd.scope;
  flags = fd.flags;
  max_bytes = fd.max_bytes;
  doc = text_or fd.doc [];
  provider = provider;
}

-- The index of the field that is declared, with the registry behind it.
pub declare_field : Registry → Bytes → ℕ → FieldDecl → Registry × ℕ
declare_field r id provider fd =
    let i = length r.fields % 2 ^ 32 in
    elim (lookup (qualified_name id fd) r.field_index) [
      | some j ↦ (reuse_field r provider fd j, j)
      | none ↦ (
        record r {
          fields = r.fields ++ (new_field id provider fd ∷ []);
          field_index = emplace (qualified_name id fd) i r.field_index;
        },
        i,
      )
    ]

pub declare_fields : Registry → Bytes → ℕ → List FieldDecl → Registry × List ℕ
declare_fields r id provider [] = (r, [])
declare_fields r id provider (fd ∷ fds) =
    let (r₁, i) = declare_field r id provider fd in
    let (r₂, is) = declare_fields r₁ id provider fds in (r₂, i ∷ is)

pub new_provider : Bytes → ProviderDecl → Bytes → ℕ → List ℕ → ProviderDef
new_provider id d path now is = record {
  id = id;
  major = d.schema_major;
  minor = d.schema_minor;
  display_name = text_or d.display_name id;
  contact = text_or d.contact [];
  module_handle = d.module_handle;
  module_path = if d.module_handle == 0 then [] else path;
  fields = is;
  revision = now;
  live = true;
}

-- A staged value in its slot.
abbrev pub restored : StagedValue → ℕ → Slot
restored s now = record {
  type = s.type;
  revision = now;
  assigned = true;
  i64 = s.i64;
  f64 = s.f64;
  bytes = s.bytes;
}

module _ (notify : Registry → ℕ → ℕ → Registry) where
  -- A value that was found for the field, which has been taken from the staged ones.
  unfoldable pub restore_value : Registry → ℕ → ℕ → StagedValue → Registry
  restore_value r provider i s =
      let f = field_def r i in
      let r' = record r {
        clock = tick r;
        globals = insert i (restored s (tick r)) r.globals;
        providers = with_revision r.providers provider (tick r);
      } in
      if not (s.type == f.type)
      then r
      else (if not (is_empty s.bytes)
            && (not (f.max_bytes == 0) && ltb f.max_bytes (length s.bytes))
          then r
          else notify r' i aircraft_none)

  unfoldable pub restore_field : Registry → ℕ → ℕ → Registry
  restore_field r provider i =
      let f = field_def r i in
      if not (is_persist f.flags) || not (f.scope == scope_global)
      then r
      else elim (lookup f.qualified r.staged) [
        | none ↦ r
        | some s ↦ restore_value (record r { staged = erase f.qualified r.staged }) provider i s
      ]

  pub restore_fields : Registry → ℕ → List ℕ → Registry
  restore_fields r provider [] = r
  restore_fields r provider (i ∷ is) = restore_fields (restore_field r provider i) provider is

  pub restore_staged : Registry → ℕ → Registry
  restore_staged r provider =
      if (length r.staged == 0) || leb (length r.providers) provider
      then r
      else restore_fields r provider (provider_at r provider).fields

  -- RegisterProvider once the schema was checked.
  pub add_provider : Registry → Bytes → ProviderDecl → Bytes → List FieldDecl → Registry × ℕ
  add_provider r id d path fds =
      let provider = length r.providers % 2 ^ 32 in
      let (declared, is) = declare_fields (record r { clock = tick r }) id provider fds in
      let added = record declared {
        providers = declared.providers ++ (new_provider id d path (tick r) is ∷ []);
        provider_index = insert id provider declared.provider_index;
      } in
      (restore_staged added provider, length r.providers)

  module _ (module_is_loaded : ℕ → Bytes → Bool) (path_of : ℕ → Bytes) where
    -- RegisterProvider behind the claim to the id.
    pub check_and_add :
        Registry → Bytes → ProviderDecl → List FieldDecl → Registry × Status × Option ℕ
    check_and_add r id d fds =
        let (added, p) = add_provider r id d (path_of d.module_handle) fds in
        elim (check_decls r id fds) [ ok ↦ (added, ok, some p) | st ↦ (r, st, none) ]

    -- A registration under an id that a provider `p` has had.
    pub claim_again :
        Registry → Bytes → ProviderDecl → List FieldDecl → ℕ → Registry × Status × Option ℕ
    claim_again r id d fds p =
        let prev = provider_at r p in
        let released =
          drop_provider_values (record r { providers = with_dead r.providers p prev }) p in
        if prev.live && module_is_loaded prev.module_handle prev.module_path
        then (if (prev.module_handle == d.module_handle)
              && ((prev.major == d.schema_major)
                  && ((prev.minor == d.schema_minor) && (length prev.fields == length fds)))
            then (r, ok, some p)
            else (
              r,
              (if prev.module_handle == d.module_handle then schema_conflict else provider_taken),
              none,
            ))
        else check_and_add released id d fds

    pub claim : Registry → Bytes → ProviderDecl → List FieldDecl → Registry × Status × Option ℕ
    claim r id d fds = elim (lookup id r.provider_index) [
      | none ↦ check_and_add r id d fds
      | some p ↦ claim_again r id d fds p
    ]

    abbrev pub claim_fields :
        Registry → ProviderDecl → Option (List FieldDecl) → Registry × Status × Option ℕ
    claim_fields r d none = (r, invalid_arg, none)
    claim_fields r d (some fds) = claim r (text_or d.provider_id []) d fds

    pub register_provider : Bool → Registry → Option ProviderDecl → Registry × Status × Option ℕ
    register_provider main r none = (r, (if main then invalid_arg else wrong_thread), none)
    register_provider main r (some d) =
        if not main
        then (r, wrong_thread, none)
        else (if not (valid_provider_id d.provider_id)
            then (r, invalid_arg, none)
            else claim_fields r d d.fields)
