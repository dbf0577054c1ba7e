-- ===== src/Registry/Register/Depth.antt =====
-- RegisterProvider of src/Registry.cpp leaves m_dispatchDepth as it is.
use euroscope_plugin_bridge.Prelude.{
  ℕ, refl, ◌∙◌, Bool, true, not, ◌&&◌, ◌||◌, List, [], ◌∷◌, Option, none, some, ltb, leb, ◌==◌,
  length, Bool-cases, Option-cases, inl, inr,
}
use euroscope_plugin_bridge.Prelude.Maps.{lookup, bytes_key}
use euroscope_plugin_bridge.Mqtt.{is_empty}
use euroscope_plugin_bridge.Status.{Status, ok}
use euroscope_plugin_bridge.Schema.{
  Bytes, FieldDecl, ProviderDecl, scope_global, is_persist, valid_provider_id,
}
use euroscope_plugin_bridge.Registry.{Registry, StagedValue, tick, provider_at, field_def}
use euroscope_plugin_bridge.Registry.Depth.{SameDepth}
use euroscope_plugin_bridge.Registry.Drop.Depth.{drop_provider_values-SameDepth}
use euroscope_plugin_bridge.Registry.Register.{
  qualified_name, text_or, declare_field, declare_fields, reuse_field, check_decls, restore_value,
  restore_field, restore_fields, restore_staged, add_provider, check_and_add, claim_again, claim,
  claim_fields, register_provider,
}

declare_field-SameDepth :
    (r : Registry) (id : Bytes) (provider : ℕ) (fd : FieldDecl)
    → SameDepth r (declare_field r id provider fd).0
unfolding declare_field reuse_field
declare_field-SameDepth r id provider fd =
    elim (Option-cases (lookup (qualified_name id fd) r.field_index)) [
      | inl q ↦ rw (q, declare_field) refl
      | inr (j, q) ↦ rw (q, declare_field) refl
    ]

declare_fields-SameDepth :
    (r : Registry) (id : Bytes) (provider : ℕ) (fds : List FieldDecl)
    → SameDepth r (declare_fields r id provider fds).0
unfolding declare_fields
declare_fields-SameDepth r id provider [] = refl
declare_fields-SameDepth r id provider (fd ∷ fds) =
    declare_fields-SameDepth (declare_field r id provider fd).0 id provider fds
    ∙ declare_field-SameDepth r id provider fd

module _ (notify : Registry → ℕ → ℕ → Registry)
    (notify-SameDepth : (r : Registry) (i a : ℕ) → SameDepth r (notify r i a)) where
  restore_value-SameDepth :
      (r : Registry) (provider i : ℕ) (s : StagedValue)
      → SameDepth r (restore_value notify r provider i s)
  unfolding restore_value
  restore_value-SameDepth r provider i s =
      let f = field_def r i in
      elim (Bool-cases (s.type == f.type)) [
        | inr q ↦ rw q refl
        | inl q ↦
            elim (Bool-cases (
              not (is_empty s.bytes)
              && (not (f.max_bytes == 0) && ltb f.max_bytes (length s.bytes)))) [
                | inl w ↦ rw (q, w) refl
                | inr w ↦ rw (q, w) (notify-SameDepth _ i 0)
              ]
      ]

  restore_field-SameDepth :
      (r : Registry) (provider i : ℕ) → SameDepth r (restore_field notify r provider i)
  unfolding restore_field
  restore_field-SameDepth r provider i =
      let f = field_def r i in
      elim (Bool-cases (not (is_persist f.flags) || not (f.scope == scope_global))) [
        | inl q ↦ rw q refl
        | inr q ↦ elim (Option-cases (lookup f.qualified r.staged)) [
          | inl w ↦ rw (q, w, restore_field) refl
          | inr (s, w) ↦ rw (q, w, restore_field) (restore_value-SameDepth _ provider i s)
        ]
      ]

  restore_fields-SameDepth :
      (r : Registry) (provider : ℕ) (is : List ℕ)
      → SameDepth r (restore_fields notify r provider is)
  unfolding restore_fields
  restore_fields-SameDepth r provider [] = refl
  restore_fields-SameDepth r provider (i ∷ is) =
      restore_fields-SameDepth (restore_field notify r provider i) provider is
      ∙ restore_field-SameDepth r provider i

  restore_staged-SameDepth :
      (r : Registry) (provider : ℕ) → SameDepth r (restore_staged notify r provider)
  unfolding restore_staged
  restore_staged-SameDepth r provider =
      elim (Bool-cases ((length r.staged == 0) || leb (length r.providers) provider)) [
        | inl q ↦ rw q refl
        | inr q ↦ rw q (restore_fields-SameDepth r provider _)
      ]

  add_provider-SameDepth :
      (r : Registry) (id : Bytes) (d : ProviderDecl) (path : Bytes) (fds : List FieldDecl)
      → SameDepth r (add_provider notify r id d path fds).0
  unfolding add_provider
  add_provider-SameDepth r id d path fds =
      restore_staged-SameDepth _ _ ∙ declare_fields-SameDepth (record r { clock = tick r }) id _ fds

  -- A call behind the test of a schema.
  if_ok-SameDepth :
      (r : Registry) (w : Registry × Status × Option ℕ) (st : Status)
      → SameDepth r w.0
      → SameDepth r
          (elim st as (λ _. Registry × Status × Option ℕ) [ ok ↦ w | st' ↦ (r, st', none) ]).0
  if_ok-SameDepth r w ok h = h
  if_ok-SameDepth r w st h = refl

  module _ (module_is_loaded : ℕ → Bytes → Bool) (path_of : ℕ → Bytes) where
    check_and_add-SameDepth :
        (r : Registry) (id : Bytes) (d : ProviderDecl) (fds : List FieldDecl)
        → SameDepth r (check_and_add notify module_is_loaded path_of r id d fds).0
    unfolding check_and_add
    check_and_add-SameDepth r id d fds =
        let (added, p) = add_provider notify r id d (path_of d.module_handle) fds in
        if_ok-SameDepth r (added, ok, some p) (check_decls r id fds)
          (add_provider-SameDepth r id d (path_of d.module_handle) fds)

    claim_again-SameDepth :
        (r : Registry) (id : Bytes) (d : ProviderDecl) (fds : List FieldDecl) (p : ℕ)
        → SameDepth r (claim_again notify module_is_loaded path_of r id d fds p).0
    unfolding claim_again
    claim_again-SameDepth r id d fds p =
        let prev = provider_at r p in
        elim (Bool-cases (prev.live && module_is_loaded prev.module_handle prev.module_path)) [
          | inl q ↦
              elim (Bool-cases (
                (prev.module_handle == d.module_handle)
                && ((prev.major == d.schema_major)
                    && ((prev.minor == d.schema_minor) && (length prev.fields == length fds))))) [
                      | inl w ↦ rw (q, w) refl
                      | inr w ↦ rw (q, w) refl
                    ]
          | inr q ↦ rw q (check_and_add-SameDepth _ id d fds ∙ drop_provider_values-SameDepth _ p)
        ]

    claim-SameDepth :
        (r : Registry) (id : Bytes) (d : ProviderDecl) (fds : List FieldDecl)
        → SameDepth r (claim notify module_is_loaded path_of r id d fds).0
    unfolding claim
    claim-SameDepth r id d fds = elim (Option-cases (lookup id r.provider_index)) [
      | inl q ↦ rw (q, claim) (check_and_add-SameDepth r id d fds)
      | inr (p, q) ↦ rw (q, claim) (claim_again-SameDepth r id d fds p)
    ]

    claim_fields-SameDepth :
        (r : Registry) (d : ProviderDecl) (fds : Option (List FieldDecl))
        → SameDepth r (claim_fields notify module_is_loaded path_of r d fds).0
    claim_fields-SameDepth r d none = refl
    claim_fields-SameDepth r d (some fds) = claim-SameDepth r (text_or d.provider_id []) d fds

    pub register_provider-SameDepth :
        (r : Registry) (d : Option ProviderDecl)
        → SameDepth r (register_provider notify module_is_loaded path_of true r d).0
    unfolding register_provider
    register_provider-SameDepth r none = refl
    register_provider-SameDepth r (some d) = elim (Bool-cases (valid_provider_id d.provider_id)) [
      | inl q ↦ rw q (claim_fields-SameDepth r d d.fields)
      | inr q ↦ rw q refl
    ]
