-- ===== src/Registry/Register/Refused.antt =====
-- A registration that is refused: RegisterProvider of src/Registry.cpp.
use euroscope_plugin_bridge.Prelude.{
  ℕ, ◌≡◌, ◌≢◌, refl, sym, ◌∙◌, Bool, ◌&&◌, List, [], ◌∷◌, Option, none, some, leb, ◌==◌, length,
  Bool-cases, Option-cases, inl, inr, length-set, ap, subst,
}
use euroscope_plugin_bridge.Prelude.Maps.{lookup, bytes_key}
use euroscope_plugin_bridge.Status.{Status, ok}
use euroscope_plugin_bridge.Schema.{Bytes, ProviderDecl, FieldDecl, valid_provider_id, scope_global}
use euroscope_plugin_bridge.Registry.{Registry, provider_at, field_def}
use euroscope_plugin_bridge.Registry.Drop.{
  drop_field_values, drop_each, drop_provider_values, with_dead,
}
use euroscope_plugin_bridge.Registry.Register.{
  register_provider, claim, claim_fields, claim_again, check_and_add, check_decls, text_or,
}

-- The fields that are declared, and the names and ids by which they and their providers are found.
pub record SameSchema (r r' : Registry) : Type 0 where
  pub same_fields : r'.fields ≡ r.fields
  pub same_names : r'.field_index ≡ r.field_index
  pub same_ids : r'.provider_index ≡ r.provider_index
  pub same_count : length r'.providers ≡ length r.providers

refl-SameSchema : (r : Registry) → SameSchema r r
refl-SameSchema r = record {
  same_fields = refl;
  same_names = refl;
  same_ids = refl;
  same_count = refl;
}

trans-SameSchema : (r s t : Registry) → SameSchema r s → SameSchema s t → SameSchema r t
trans-SameSchema r s t h k = record {
  same_fields = k.same_fields ∙ h.same_fields;
  same_names = k.same_names ∙ h.same_names;
  same_ids = k.same_ids ∙ h.same_ids;
  same_count = k.same_count ∙ h.same_count;
}

drop_field_values-SameSchema : (r : Registry) (i : ℕ) → SameSchema r (drop_field_values r i)
unfolding drop_field_values
drop_field_values-SameSchema r i = elim (Bool-cases ((field_def r i).scope == scope_global)) [
  | inl q ↦
      rw q (record { same_fields = refl; same_names = refl; same_ids = refl; same_count = refl })
  | inr q ↦
      rw q (record { same_fields = refl; same_names = refl; same_ids = refl; same_count = refl })
]

drop_each-SameSchema : (r : Registry) (is : List ℕ) → SameSchema r (drop_each r is)
unfolding drop_each
drop_each-SameSchema r [] = refl-SameSchema r
drop_each-SameSchema r (i ∷ is) =
    trans-SameSchema r (drop_field_values r i) _ (drop_field_values-SameSchema r i)
      (drop_each-SameSchema (drop_field_values r i) is)

drop_provider_values-SameSchema : (r : Registry) (p : ℕ) → SameSchema r (drop_provider_values r p)
unfolding drop_provider_values
drop_provider_values-SameSchema r p = elim (Bool-cases (leb (length r.providers) p)) [
  | inl q ↦ rw q (refl-SameSchema r)
  | inr q ↦ rw q (drop_each-SameSchema r _)
]

with_dead-SameSchema :
    (r : Registry) (p : ℕ)
    → SameSchema r (record r { providers = with_dead r.providers p (provider_at r p) })
with_dead-SameSchema r p = record {
  same_fields = refl;
  same_names = refl;
  same_ids = refl;
  same_count = length-set r.providers p _;
}

abbrev Result : Type 0
Result = Registry × Status × Option ℕ

-- Nothing was declared, and `*out` was not set.
abbrev pub IsUndeclared : Registry → Result → Type 0
IsUndeclared r x = SameSchema r x.0 × (x.2 ≡ none)

checked-IsUndeclared :
    (r added : Registry) (p : ℕ) (st : Status)
    → let x : Result = elim st [ ok ↦ (added, ok, some p) | st' ↦ (r, st', none) ] in
      x.1 ≢ ok → IsUndeclared r x
checked-IsUndeclared r added p ok refused = absurd (refused refl)
checked-IsUndeclared r added p st refused = (refl-SameSchema r, refl)

module _ (notify : Registry → ℕ → ℕ → Registry) (module_is_loaded : ℕ → Bytes → Bool)
    (path_of : ℕ → Bytes) where
  check_and_add-IsUndeclared :
      (r : Registry) (id : Bytes) (d : ProviderDecl) (fds : List FieldDecl)
      → (check_and_add notify module_is_loaded path_of r id d fds).1 ≢ ok
      → IsUndeclared r (check_and_add notify module_is_loaded path_of r id d fds)
  unfolding check_and_add
  check_and_add-IsUndeclared r id d fds refused =
      checked-IsUndeclared r _ _ (check_decls r id fds) refused

  claim_again-IsUndeclared :
      (r : Registry) (id : Bytes) (d : ProviderDecl) (fds : List FieldDecl) (p : ℕ)
      → (claim_again notify module_is_loaded path_of r id d fds p).1 ≢ ok
      → IsUndeclared r (claim_again notify module_is_loaded path_of r id d fds p)
  unfolding claim_again
  claim_again-IsUndeclared r id d fds p refused =
      let prev = provider_at r p in
      let dead = record r { providers = with_dead r.providers p prev } in
      let released = drop_provider_values dead p in
      let same =
        trans-SameSchema r dead released (with_dead-SameSchema r p)
          (drop_provider_values-SameSchema dead p) in
      elim (Bool-cases (prev.live && module_is_loaded prev.module_handle prev.module_path)) [
        | inl q ↦
            elim (Bool-cases (
              (prev.module_handle == d.module_handle)
              && ((prev.major == d.schema_major)
                  && ((prev.minor == d.schema_minor) && (length prev.fields == length fds))))) [
                    | inl w ↦ absurd (refused (rw (q, w) refl))
                    | inr w ↦ rw (q, w) (refl-SameSchema r, refl)
                  ]
        | inr q ↦
            let here : claim_again notify module_is_loaded path_of r id d fds p
                ≡ check_and_add notify module_is_loaded path_of released id d fds =
              rw q refl in
            let (kept, unset_out) =
              check_and_add-IsUndeclared released id d fds
                (λ e. refused (ap (λ x. x.1) here ∙ e)) in
            subst (IsUndeclared r) (sym here) (trans-SameSchema r released _ same kept, unset_out)
      ]

  claim-IsUndeclared :
      (r : Registry) (id : Bytes) (d : ProviderDecl) (fds : List FieldDecl)
      → (claim notify module_is_loaded path_of r id d fds).1 ≢ ok
      → IsUndeclared r (claim notify module_is_loaded path_of r id d fds)
  unfolding claim
  claim-IsUndeclared r id d fds refused = elim (Option-cases (lookup id r.provider_index)) [
    | inl q ↦
        let here : claim notify module_is_loaded path_of r id d fds
            ≡ check_and_add notify module_is_loaded path_of r id d fds =
          rw (q, claim) refl in
        subst (IsUndeclared r) (sym here)
          (check_and_add-IsUndeclared r id d fds (λ e. refused (ap (λ x. x.1) here ∙ e)))
    | inr (p, q) ↦
        let here : claim notify module_is_loaded path_of r id d fds
            ≡ claim_again notify module_is_loaded path_of r id d fds p =
          rw (q, claim) refl in
        subst (IsUndeclared r) (sym here)
          (claim_again-IsUndeclared r id d fds p (λ e. refused (ap (λ x. x.1) here ∙ e)))
  ]

  claim_fields-IsUndeclared :
      (r : Registry) (d : ProviderDecl) (fields : Option (List FieldDecl))
      → (claim_fields notify module_is_loaded path_of r d fields).1 ≢ ok
      → IsUndeclared r (claim_fields notify module_is_loaded path_of r d fields)
  claim_fields-IsUndeclared r d none refused = (refl-SameSchema r, refl)
  claim_fields-IsUndeclared r d (some fds) refused =
      claim-IsUndeclared r (text_or d.provider_id []) d fds refused

  -- A registration that is refused, for any reason, leaves nothing half declared: the fields, their names, the
  -- ids of providers and the number of providers are what they were, and the caller is given no provider.
  pub register_provider-IsUndeclared :
      (main : Bool) (r : Registry) (decl : Option ProviderDecl)
      → (register_provider notify module_is_loaded path_of main r decl).1 ≢ ok
      → IsUndeclared r (register_provider notify module_is_loaded path_of main r decl)
  unfolding register_provider
  register_provider-IsUndeclared main r none refused = (refl-SameSchema r, refl)
  register_provider-IsUndeclared main r (some d) refused = elim (Bool-cases main) [
    | inr q ↦ rw q (refl-SameSchema r, refl)
    | inl q ↦ elim (Bool-cases (valid_provider_id d.provider_id)) [
      | inr w ↦ rw (q, w) (refl-SameSchema r, refl)
      | inl w ↦
          let here : register_provider notify module_is_loaded path_of main r (some d)
              ≡ claim_fields notify module_is_loaded path_of r d d.fields =
            rw (q, w) refl in
          subst (IsUndeclared r) (sym here)
            (claim_fields-IsUndeclared r d d.fields (λ e. refused (ap (λ x. x.1) here ∙ e)))
    ]
  ]
