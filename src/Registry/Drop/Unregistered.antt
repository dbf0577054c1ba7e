-- ===== src/Registry/Drop/Unregistered.antt =====
-- A provider that has unregistered: UnregisterProvider of src/Registry.cpp.
use euroscope_plugin_bridge.Prelude.{
  ℕ, zero, suc, ◌≡◌, refl, ◌∙◌, ap, Bool, true, false, List, [], ◌∷◌, Option, none, some, leb, ◌==◌,
  length, Bool-cases, Option-cases, inl, inr, ==_iff, get_elem?, get_or,
}
use euroscope_plugin_bridge.Prelude.Maps.{lookup, bytes_key, nat_eq}
use euroscope_plugin_bridge.Status.{no_provider}
use euroscope_plugin_bridge.Value.{Value}
use euroscope_plugin_bridge.Schema.{ProviderDef, FieldDef, fresh_provider, scope_global}
use euroscope_plugin_bridge.Registry.{Registry, owner, if_live, provider_at, field, field_def}
use euroscope_plugin_bridge.Registry.Read.{get_global}
use euroscope_plugin_bridge.Registry.Drop.{
  unregister_provider, unregister_owned, drop_provider_values, drop_each, drop_field_values,
  with_dead,
}

abbrev SameProviders : Registry → Registry → Type 0
SameProviders r r' = r'.providers ≡ r.providers

drop_field_values-SameProviders : (r : Registry) (i : ℕ) → SameProviders r (drop_field_values r i)
unfolding drop_field_values
drop_field_values-SameProviders r i = elim (Bool-cases ((field_def r i).scope == scope_global)) [
  | inl q ↦ rw q refl
  | inr q ↦ rw q refl
]

drop_each-SameProviders : (r : Registry) (is : List ℕ) → SameProviders r (drop_each r is)
unfolding drop_each
drop_each-SameProviders r [] = refl
drop_each-SameProviders r (i ∷ is) =
    drop_each-SameProviders (drop_field_values r i) is ∙ drop_field_values-SameProviders r i

drop_provider_values-SameProviders :
    (r : Registry) (p : ℕ) → SameProviders r (drop_provider_values r p)
unfolding drop_provider_values
drop_provider_values-SameProviders r p = elim (Bool-cases (leb (length r.providers) p)) [
  | inl q ↦ rw q refl
  | inr q ↦ rw q (drop_each-SameProviders r _)
]

unregister_owned-providers :
    (r : Registry) (o : ℕ)
    → (unregister_owned r o).0.providers ≡ with_dead r.providers o (provider_at r o)
unfolding unregister_owned
unregister_owned-providers r o =
    elim (Option-cases (lookup (provider_at r o).id r.provider_index)) [
      | inl q ↦ rw (q, unregister_owned) refl
      | inr (i, q) ↦ rw (q, unregister_owned) (drop_provider_values-SameProviders _ i)
    ]

-- The entry at the index is dead, or there is none.
dead_there :
    (ps : List ProviderDef) (o k : ℕ) (d : ProviderDef)
    → elim (get_elem? (with_dead ps o d) o) as (λ _. Option ℕ) [
      | none ↦ none
      | some e ↦ if_live e k
    ]
      ≡ none
dead_there [] o k d = refl
dead_there (p ∷ ps) zero k d = refl
dead_there (p ∷ ps) (suc o) k d = dead_there ps o k d

dead_at :
    (ps : List ProviderDef) (o : ℕ) (d : ProviderDef)
    → (get_or (with_dead ps o d) o fresh_provider).live ≡ false
dead_at [] o d = refl
dead_at (p ∷ ps) zero d = refl
dead_at (p ∷ ps) (suc o) d = dead_at ps o d

owner-none :
    (r : Registry) (ps : List ProviderDef) (o : ℕ) (d : ProviderDef)
    → r.providers ≡ with_dead ps o d
    → owner r (some o) ≡ none
unfolding owner
owner-none r ps o d e = rw (e, owner) (dead_there ps o o d)

get_global-no_provider :
    (r : Registry) (f : ℕ) (fd : FieldDef) (out : Value) (io : Option ℕ) (buf : Bool)
    → field r f ≡ some fd
    → fd.scope ≡ scope_global
    → (provider_at r fd.provider).live ≡ false
    → get_global true r f out io buf ≡ (no_provider, out, io)
unfolding get_global
get_global-no_provider r f fd out io buf found scoped dead =
    let global : (fd.scope == scope_global) ≡ true = (==_iff _ _).1 scoped in
    rw (found, global, dead, get_global) refl

-- A provider that has unregistered is no owner any more, so that CheckWrite refuses its token, and
-- GetGlobal answers ESB_E_NO_PROVIDER for each of its global fields and leaves the caller's data as it is.
pub unregister_provider-no_provider :
    (r : Registry) (o f : ℕ) (fd : FieldDef) (out : Value) (io : Option ℕ) (buf : Bool)
    → owner r (some o) ≡ some o
    → field (unregister_provider true r (some o)).0 f ≡ some fd
    → fd.scope ≡ scope_global
    → fd.provider ≡ o
    → (owner (unregister_provider true r (some o)).0 (some o) ≡ none)
      × (get_global true (unregister_provider true r (some o)).0 f out io buf
          ≡ (no_provider, out, io))
unfolding unregister_provider
unregister_provider-no_provider r o f fd out io buf live found scoped mine =
    let r' = (unregister_provider true r (some o)).0 in
    let d = provider_at r o in
    let owned : r' ≡ (unregister_owned r o).0 = rw (live, unregister_provider) refl in
    let e : r'.providers ≡ with_dead r.providers o d =
      ap (λ s. s.providers) owned ∙ unregister_owned-providers r o in
    let dead : (provider_at r' o).live ≡ false =
      ap (λ ps. (get_or ps o fresh_provider).live) e ∙ dead_at r.providers o d in
    (
      owner-none r' r.providers o d e,
      get_global-no_provider r' f fd out io buf found scoped
          (ap (λ i. (provider_at r' i).live) mine ∙ dead),
    )
