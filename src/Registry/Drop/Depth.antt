-- ===== src/Registry/Drop/Depth.antt =====
-- UnregisterProvider of src/Registry.cpp leaves m_dispatchDepth as it is.
use euroscope_plugin_bridge.Prelude.{
  ℕ, refl, ◌∙◌, true, List, [], ◌∷◌, Option, leb, ◌==◌, length, Bool-cases, Option-cases, inl, inr,
}
use euroscope_plugin_bridge.Prelude.Maps.{lookup, bytes_key}
use euroscope_plugin_bridge.Schema.{scope_global}
use euroscope_plugin_bridge.Registry.{Registry, owner, provider_at, field_def}
use euroscope_plugin_bridge.Registry.Depth.{SameDepth}
use euroscope_plugin_bridge.Registry.Drop.{
  unregister_provider, unregister_owned, drop_provider_values, drop_each, drop_field_values,
}

drop_field_values-SameDepth : (r : Registry) (i : ℕ) → SameDepth r (drop_field_values r i)
unfolding drop_field_values
drop_field_values-SameDepth r i = elim (Bool-cases ((field_def r i).scope == scope_global)) [
  | inl q ↦ rw q refl
  | inr q ↦ rw q refl
]

drop_each-SameDepth : (r : Registry) (is : List ℕ) → SameDepth r (drop_each r is)
unfolding drop_each
drop_each-SameDepth r [] = refl
drop_each-SameDepth r (i ∷ is) =
    drop_each-SameDepth (drop_field_values r i) is ∙ drop_field_values-SameDepth r i

pub drop_provider_values-SameDepth : (r : Registry) (p : ℕ) → SameDepth r (drop_provider_values r p)
unfolding drop_provider_values
drop_provider_values-SameDepth r p = elim (Bool-cases (leb (length r.providers) p)) [
  | inl q ↦ rw q refl
  | inr q ↦ rw q (drop_each-SameDepth r _)
]

unregister_owned-SameDepth : (r : Registry) (o : ℕ) → SameDepth r (unregister_owned r o).0
unfolding unregister_owned
unregister_owned-SameDepth r o =
    elim (Option-cases (lookup (provider_at r o).id r.provider_index)) [
      | inl q ↦ rw (q, unregister_owned) refl
      | inr (i, q) ↦ rw (q, unregister_owned) (drop_provider_values-SameDepth _ i)
    ]

pub unregister_provider-SameDepth :
    (r : Registry) (p : Option ℕ) → SameDepth r (unregister_provider true r p).0
unfolding unregister_provider
unregister_provider-SameDepth r p = elim (Option-cases (owner r p)) [
  | inl q ↦ rw (q, unregister_provider) refl
  | inr (o, q) ↦ rw (q, unregister_provider) (unregister_owned-SameDepth r o)
]
