-- ===== src/Registry/Register/Tests.antt =====
-- Registrations of concrete providers.
use euroscope_plugin_bridge.Prelude.{
  ℕ, true, List, [], ◌∷◌, none, some, arith, ◌≡◌, ◌≢◌, refl, sym, ◌∙◌, bytes_eq,
}
use euroscope_plugin_bridge.Prelude.Maps.{lookup, emplace}
use euroscope_plugin_bridge.Status.{ok, provider_taken}
use euroscope_plugin_bridge.Value.{t_i64, t_str, is_scalar, valid_type}
use euroscope_plugin_bridge.Schema.{
  FieldDecl, ProviderDecl, scope_global, valid_provider_id, valid_field_name, valid_name,
  valid_chars, valid_scope, is_persist,
}
use euroscope_plugin_bridge.Registry.{Registry}
use euroscope_plugin_bridge.Registry.Register.{
  register_provider, claim, claim_again, check_decls, check_decl, agrees, declare_fields,
  declare_field, reuse_field,
}
use euroscope_plugin_bridge.Registry.Register.Refused.{IsUndeclared, register_provider-IsUndeclared}
use euroscope_plugin_bridge.Registry.Register.Stable.{IsStable, declare_fields-IsStable}
use euroscope_plugin_bridge.Registry.Register.Named.{AreDeclared, declare_fields-IsFieldIndex}
use euroscope_plugin_bridge.Registry.Discovery.Resolved.{IsFieldIndex}
use euroscope_plugin_bridge.Registry.Tests.{start, cdm}

-- Another module with the id that "cdm" has.
abbrev intruder : ProviderDecl
intruder = record {
  provider_id = some cdm;
  schema_major = 1;
  schema_minor = 0;
  display_name = none;
  contact = none;
  module_handle = 7;
  fields = some [];
}

abbrev quiet : Registry → ℕ → ℕ → Registry
quiet r i a = r

intruder_taken :
    (register_provider quiet (λ _ _. true) (λ _. []) true start (some intruder)).1 ≡ provider_taken
unfolding register_provider claim claim_again lookup bytes_eq valid_provider_id valid_name
    valid_chars
intruder_taken = refl

taken-ne-ok : provider_taken ≢ ok
taken-ne-ok e = cc e

register_provider-IsUndeclared_example :
    IsUndeclared start (register_provider quiet (λ _ _. true) (λ _. []) true start (some intruder))
register_provider-IsUndeclared_example =
    register_provider-IsUndeclared quiet (λ _ _. true) (λ _. []) true start (some intruder)
      (λ e. taken-ne-ok (sym intruder_taken ∙ e))

-- One name twice, as a number and as a text: both are declared, and share a field of the first type.
abbrev twice : List FieldDecl
twice =
    record {
      name = some (b'a' ∷ []);
      type = t_i64;
      scope = scope_global;
      flags = 0;
      max_bytes = 0;
      doc = none;
    }
    ∷ record {
      name = some (b'a' ∷ []);
      type = t_str;
      scope = scope_global;
      flags = 0;
      max_bytes = 8;
      doc = none;
    }
    ∷ []

twice_checked : check_decls start (b'x' ∷ []) twice ≡ ok
unfolding check_decls check_decl agrees lookup valid_field_name valid_name valid_chars valid_type
    valid_scope is_scalar is_persist
twice_checked = refl

twice_declared : (declare_fields start (b'x' ∷ []) 1 twice).1 ≡ 2 ∷ 2 ∷ []
unfolding declare_fields declare_field lookup emplace bytes_eq reuse_field
twice_declared = refl

declare_fields-IsStable_example : IsStable start (declare_fields start (b'x' ∷ []) 1 twice).0
declare_fields-IsStable_example = declare_fields-IsStable start (b'x' ∷ []) 1 twice

start-IsFieldIndex : IsFieldIndex start
unfolding lookup
start-IsFieldIndex = record {
  exists = λ name i h. absurd (cc h);
  named = λ name i h. absurd (cc h);
}

declare_fields-IsFieldIndex_example :
    let (r', is) = declare_fields start (b'x' ∷ []) 1 twice in
    IsFieldIndex r' × AreDeclared r' (b'x' ∷ []) twice is
declare_fields-IsFieldIndex_example =
    declare_fields-IsFieldIndex start (b'x' ∷ []) 1 twice start-IsFieldIndex (omega arith)
