-- ===== src/Registry/Register/Stable.antt =====
-- Field ids are stable: the loop of RegisterProvider of src/Registry.cpp that declares fields.
use euroscope_plugin_bridge.Prelude.{
  ℕ, ◌<◌, ◌≤◌, ◌≡◌, ◌≢◌, refl, ap, ◌∙◌, List, [], ◌∷◌, none, some, ◌==◌, ==_iff, arith, length,
  length-append, length-set, get_or-set_self, get_or-set_ne, get_or-push_ne, Bool-cases,
  Option-cases, inl, inr, bytes_eq, bytes_eq_iff,
}
use euroscope_plugin_bridge.Prelude.Maps.{lookup, emplace, lookup-emplace, bytes_key}
use euroscope_plugin_bridge.Schema.{Bytes, FieldDef, fresh_field, FieldDecl}
use euroscope_plugin_bridge.Registry.{Registry, field_def}
use euroscope_plugin_bridge.Registry.Register.{
  declare_fields, declare_field, reuse_field, reused, new_field, qualified_name,
}

-- What a consumer that resolved a field relies on.
pub record SameField (f f' : FieldDef) : Type 0 where
  pub same_name : f'.qualified ≡ f.qualified
  pub same_type : f'.type ≡ f.type
  pub same_scope : f'.scope ≡ f.scope

pub record IsStable (r r' : Registry) : Type 0 where
  pub names :
      (n : Bytes) (i : ℕ) → lookup n r.field_index ≡ some i → lookup n r'.field_index ≡ some i
  pub kept : (i : ℕ) → i < length r.fields → SameField (field_def r i) (field_def r' i)
  pub more : length r.fields ≤ length r'.fields

refl-IsStable : (r : Registry) → IsStable r r
refl-IsStable r = record {
  names = λ n i e. e;
  kept = λ i h. record { same_name = refl; same_type = refl; same_scope = refl };
  more = omega arith;
}

trans-IsStable : (r s t : Registry) → IsStable r s → IsStable s t → IsStable r t
trans-IsStable r s t h k = record {
  names = λ n i e. k.names n i (h.names n i e);
  kept = λ i inside.
      let a = h.kept i inside in
      let b = k.kept i (omega (arith, h.more)) in
      record {
        same_name = b.same_name ∙ a.same_name;
        same_type = b.same_type ∙ a.same_type;
        same_scope = b.same_scope ∙ a.same_scope;
      };
  more = omega (arith, h.more, k.more);
}

reuse_field-IsStable :
    (r : Registry) (provider : ℕ) (fd : FieldDecl) (j : ℕ)
    → IsStable r (reuse_field r provider fd j)
unfolding reuse_field
reuse_field-IsStable r provider fd j = record {
  names = λ n i e. e;
  kept = λ i inside. elim (Bool-cases (j == i)) [
    | inl q ↦
        let same : j ≡ i = (==_iff j i).0 q in
        let here = get_or-set_self r.fields i (reused r provider fd i) fresh_field inside in
        rw (same, here) (record { same_name = refl; same_type = refl; same_scope = refl })
    | inr q ↦
        let other : j ≢ i = ground (arith, q) in
        rw (get_or-set_ne r.fields j i (reused r provider fd j) fresh_field other)
          (record { same_name = refl; same_type = refl; same_scope = refl })
  ];
  more = omega (arith, length-set r.fields j (reused r provider fd j));
}

-- A name that is not there yet takes no other's place.
emplace_other :
    (m : List (Bytes × ℕ)) (k n : Bytes) (v i : ℕ)
    → lookup k m ≡ none
    → lookup n m ≡ some i
    → lookup n (emplace k v m) ≡ some i
emplace_other m k n v i absent found = elim (Bool-cases (bytes_eq k n)) [
  | inl q ↦ absurd (cc (absent, found, ap (λ x. lookup x m) ((bytes_eq_iff k n).0 q)))
  | inr q ↦ lookup-emplace k n v m absent ∙ rw q found
]

pub declare_field-IsStable :
    (r : Registry) (id : Bytes) (provider : ℕ) (fd : FieldDecl)
    → IsStable r (declare_field r id provider fd).0
unfolding declare_field
declare_field-IsStable r id provider fd =
    elim (Option-cases (lookup (qualified_name id fd) r.field_index)) [
      | inr (j, q) ↦ rw (q, declare_field) (reuse_field-IsStable r provider fd j)
      | inl q ↦
          rw (q, declare_field)
            (record {
              names = λ n i e. emplace_other r.field_index (qualified_name id fd) n _ i q e;
              kept = λ i inside.
                  rw
                    (get_or-push_ne r.fields (new_field id provider fd) fresh_field i (omega arith))
                    (record { same_name = refl; same_type = refl; same_scope = refl });
              more = omega (arith, length-append r.fields (new_field id provider fd ∷ []));
            })
    ]

-- A consumer that resolved a field before a plugin was loaded again need not resolve it again: whatever a
-- provider declares, each name that was found is found at the same id, and each field that was there has the
-- name, the type and the scope that it had.
pub declare_fields-IsStable :
    (r : Registry) (id : Bytes) (provider : ℕ) (fds : List FieldDecl)
    → IsStable r (declare_fields r id provider fds).0
unfolding declare_fields
declare_fields-IsStable r id provider [] = refl-IsStable r
declare_fields-IsStable r id provider (fd ∷ fds) =
    let next = (declare_field r id provider fd).0 in
    trans-IsStable r next _ (declare_field-IsStable r id provider fd)
      (declare_fields-IsStable next id provider fds)
