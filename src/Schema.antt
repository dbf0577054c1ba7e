-- ===== src/Schema.antt =====
-- FieldDef, ProviderDef and SubscriptionDef of src/Registry.h, the declarations that a plugin hands in
-- (include/esbridge.h), and the tests on them at the head of src/Registry.cpp.
-- A C string is `none` or its bytes, a module handle a number that is 0 for a null handle.
pub mod Names
mod Tests
use euroscope_plugin_bridge.Prelude.{
  ℕ, suc, ◌+◌, ◌/◌, ◌%◌, Bool, true, false, not, ◌&&◌, ◌||◌, List, [], ◌∷◌, Option, none, some, leb,
  ◌==◌, if◌then◌else◌,
}
use euroscope_plugin_bridge.Value.{is_scalar, valid_type}

abbrev pub Bytes : Type 0
Bytes = List ℕ

abbrev pub scope_global : ℕ
scope_global = 1

abbrev pub scope_aircraft : ℕ
scope_aircraft = 2

pub record FieldDef : Type 0 where
  pub name : Bytes
  pub qualified : Bytes
  pub type : ℕ
  pub scope : ℕ
  pub flags : ℕ
  pub max_bytes : ℕ
  pub doc : Bytes
  pub provider : ℕ

abbrev pub fresh_field : FieldDef
fresh_field = record {
  name = [];
  qualified = [];
  type = 0;
  scope = 0;
  flags = 0;
  max_bytes = 0;
  doc = [];
  provider = 0;
}

pub record ProviderDef : Type 0 where
  pub id : Bytes
  pub major : ℕ
  pub minor : ℕ
  pub display_name : Bytes
  pub contact : Bytes
  pub module_handle : ℕ
  pub module_path : Bytes
  pub fields : List ℕ
  pub revision : ℕ
  pub live : Bool

abbrev pub fresh_provider : ProviderDef
fresh_provider = record {
  id = [];
  major = 0;
  minor = 0;
  display_name = [];
  contact = [];
  module_handle = 0;
  module_path = [];
  fields = [];
  revision = 0;
  live = false;
}

-- The callback is named by a number.
pub record SubscriptionDef : Type 0 where
  pub field_index : ℕ
  pub callback : ℕ
  pub user : ℕ
  pub module_handle : ℕ
  pub module_path : Bytes
  pub live : Bool
  pub delivered : ℕ

pub record FieldDecl : Type 0 where
  pub name : Option Bytes
  pub type : ℕ
  pub scope : ℕ
  pub flags : ℕ
  pub max_bytes : ℕ
  pub doc : Option Bytes

-- The fields that `fields` and `field_count` name; `none` is a count without a pointer.
pub record ProviderDecl : Type 0 where
  pub provider_id : Option Bytes
  pub schema_major : ℕ
  pub schema_minor : ℕ
  pub display_name : Option Bytes
  pub contact : Option Bytes
  pub module_handle : ℕ
  pub fields : Option (List FieldDecl)

-- `f.flags & ESB_F_SYNC`
unfoldable pub is_sync : ℕ → Bool
is_sync flags = not (flags % 2 == 0)

-- `f.flags & ESB_F_PERSIST`
unfoldable pub is_persist : ℕ → Bool
is_persist flags = not (flags / 2 % 2 == 0)

unfoldable pub valid_scope : ℕ → Bool
valid_scope s = (s == scope_global) || (s == scope_aircraft)

abbrev pub field_char : ℕ → Bool
field_char c = (leb b'a' c && leb c b'z') || ((leb b'0' c && leb c b'9') || (c == b'_'))

abbrev pub id_char : ℕ → Bool
id_char c = field_char c || ((c == b'.') || (c == b'-'))

-- `for (; n[i]; ++i)` from `i` on.
unfoldable pub valid_chars : (ℕ → Bool) → ℕ → ℕ → Bytes → Bool
valid_chars allowed limit i [] = true
valid_chars allowed limit i (c ∷ n) =
    if leb limit i
    then false
    else (if not (allowed c) then false else valid_chars allowed limit (i + 1) n)

unfoldable pub valid_name : (ℕ → Bool) → ℕ → Option Bytes → Bool
valid_name allowed limit none = false
valid_name allowed limit (some []) = false
valid_name allowed limit (some (c ∷ n)) = valid_chars allowed limit 0 (c ∷ n)

unfoldable pub valid_field_name : Option Bytes → Bool
valid_field_name n = valid_name field_char 47 n

unfoldable pub valid_provider_id : Option Bytes → Bool
valid_provider_id n = valid_name id_char 63 n
