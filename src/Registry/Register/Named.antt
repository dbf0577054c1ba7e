-- ===== src/Registry/Register/Named.antt =====
-- Names and ids of fields: the loop of RegisterProvider of src/Registry.cpp that declares fields, and what
-- Resolve relies on.
use euroscope_plugin_bridge.Prelude.{
  ℕ, ◌+◌, ◌%◌, ◌^◌, ◌<◌, ◌≤◌, ◌≡◌, refl, sym, ap, ◌∙◌, subst, List, [], ◌∷◌, ◌++◌, none, some,
  arith, length, length-append, length-set, get_or, get_or-push, Bool-cases, Option-cases, inl, inr,
  bytes_eq, bytes_eq_iff, bytes_eq_refl,
}
use euroscope_plugin_bridge.Prelude.Maps.{lookup, emplace, lookup-emplace, bytes_key}
use euroscope_plugin_bridge.Schema.{Bytes, fresh_field, FieldDecl}
use euroscope_plugin_bridge.Registry.{Registry, field_def}
use euroscope_plugin_bridge.Registry.Discovery.Resolved.{IsFieldIndex}
use euroscope_plugin_bridge.Registry.Register.{
  declare_fields, declare_field, reuse_field, reused, new_field, qualified_name,
}
use euroscope_plugin_bridge.Registry.Register.Stable.{
  declare_field-IsStable, declare_fields-IsStable,
}

-- Each declaration is found under its name, at the id in its place.
unfoldable pub AreDeclared : Registry → Bytes → List FieldDecl → List ℕ → Type 0
AreDeclared r id [] [] = Unit
AreDeclared r id [] (i ∷ is) = ⊥
AreDeclared r id (fd ∷ fds) [] = ⊥
AreDeclared r id (fd ∷ fds) (i ∷ is) =
    (lookup (qualified_name id fd) r.field_index ≡ some i) × AreDeclared r id fds is

-- A field that is new, and one that an earlier life declared.
data IsDeclared (r : Registry) (id : Bytes) (provider : ℕ) (fd : FieldDecl) : Type 0 where
  adds :
      (declare_field r id provider fd).0.fields ≡ r.fields ++ (new_field id provider fd ∷ [])
      → (declare_field r id provider fd).0.field_index
        ≡ emplace (qualified_name id fd) (length r.fields % 2 ^ 32) r.field_index
      → lookup (qualified_name id fd) r.field_index ≡ none
      → (declare_field r id provider fd).1 ≡ length r.fields % 2 ^ 32
      → IsDeclared r id provider fd
  reuses :
      length (declare_field r id provider fd).0.fields ≡ length r.fields
      → (declare_field r id provider fd).0.field_index ≡ r.field_index
      → lookup (qualified_name id fd) r.field_index ≡ some (declare_field r id provider fd).1
      → IsDeclared r id provider fd

declare_field-IsDeclared :
    (r : Registry) (id : Bytes) (provider : ℕ) (fd : FieldDecl) → IsDeclared r id provider fd
unfolding declare_field reuse_field
declare_field-IsDeclared r id provider fd =
    elim (Option-cases (lookup (qualified_name id fd) r.field_index)) [
      | inl q ↦
          adds (rw (q, declare_field) refl) (rw (q, declare_field) refl) q
            (rw (q, declare_field) refl)
      | inr (j, q) ↦
          reuses (rw (q, declare_field) (length-set r.fields j (reused r provider fd j)))
            (rw (q, declare_field) refl) (q ∙ rw (q, declare_field) refl)
    ]

-- The name is found at the id, and a field more is there at most.
declare_field-found :
    (r : Registry) (id : Bytes) (provider : ℕ) (fd : FieldDecl)
    → let (r', i) = declare_field r id provider fd in
      (lookup (qualified_name id fd) r'.field_index ≡ some i)
      × (length r'.fields ≤ length r.fields + 1)
declare_field-found r id provider fd = elim (declare_field-IsDeclared r id provider fd) [
  | adds fields names absent at ↦
      (let here =
          lookup-emplace (qualified_name id fd) (qualified_name id fd) (length r.fields % 2 ^ 32)
            r.field_index absent in
        (
          ap (lookup (qualified_name id fd)) names
              ∙ rw (bytes_eq_refl (qualified_name id fd)) at here
              ∙ ap some (sym at),
          omega (arith, ap length fields, length-append r.fields (new_field id provider fd ∷ [])),
        ))
  | reuses fields names there ↦
      (ap (lookup (qualified_name id fd)) names ∙ there, omega (arith, fields))
]

module _ (r : Registry) (id : Bytes) (provider : ℕ) (fd : FieldDecl) (index : IsFieldIndex r)
    (room : length r.fields < 2 ^ 32) where
  -- A name that is in the new index was there, or is the one that is declared.
  old_name :
      (name : Bytes) (i : ℕ)
      → lookup name r.field_index ≡ some i
      → let r' = (declare_field r id provider fd).0 in
        (i < length r'.fields) × ((field_def r' i).qualified ≡ name)
  old_name name i found =
      let stable = declare_field-IsStable r id provider fd in
      let inside = index.exists name i found in
      (
        omega (arith, inside, stable.more),
        (stable.kept i inside).same_name ∙ index.named name i found,
      )

  -- The place behind the fields.
  new_name :
      (declare_field r id provider fd).0.fields ≡ r.fields ++ (new_field id provider fd ∷ [])
      → let r' = (declare_field r id provider fd).0 in
        (length r.fields < length r'.fields)
        × ((field_def r' (length r.fields)).qualified ≡ qualified_name id fd)
  unfolding new_field
  new_name fields = (
    omega (arith, ap length fields, length-append r.fields (new_field id provider fd ∷ [])),
    ap (λ fs. (get_or fs (length r.fields) fresh_field).qualified) fields
        ∙ ap (λ f. f.qualified) (get_or-push r.fields (new_field id provider fd) fresh_field),
  )

  named_at :
      (name : Bytes) (i : ℕ)
      → lookup name (declare_field r id provider fd).0.field_index ≡ some i
      → let r' = (declare_field r id provider fd).0 in
        (i < length r'.fields) × ((field_def r' i).qualified ≡ name)
  named_at name i found = elim (declare_field-IsDeclared r id provider fd) [
    | reuses fields names there ↦ old_name name i (ap (lookup name) (sym names) ∙ found)
    | adds fields names absent at ↦
        (let key = qualified_name id fd in
          let there = lookup-emplace key name (length r.fields % 2 ^ 32) r.field_index absent in
          let found' = sym there ∙ ap (lookup name) (sym names) ∙ found in
          elim (Bool-cases (bytes_eq key name)) [
            | inr q ↦ old_name name i (rw q at found')
            | inl q ↦
                (let e : some (length r.fields % 2 ^ 32) ≡ some i = rw q at found' in
                  let at' : length r.fields % 2 ^ 32 ≡ i = cc e in
                  let last : length r.fields ≡ i = omega (arith, room, at') in
                  let (inside, is_named) = new_name fields in
                  let r' = (declare_field r id provider fd).0 in
                  subst (λ k. (k < length r'.fields) × ((field_def r' k).qualified ≡ name)) last
                    (inside, is_named ∙ (bytes_eq_iff key name).0 q))
          ])
  ]

  declare_field-IsFieldIndex : IsFieldIndex (declare_field r id provider fd).0
  declare_field-IsFieldIndex = record {
    exists = λ name i found. (named_at name i found).0;
    named = λ name i found. (named_at name i found).1;
  }

-- A registration keeps names and ids in step. Where the index names each field under its qualified name,
-- it still does when a provider has declared its fields; and each field that it declares, new or of an
-- earlier life, is found under its own name at the id that the provider lists for it, in the order of the
-- declarations. The fields with those that are declared must be no more than 2 ^ 32.
pub declare_fields-IsFieldIndex :
    (r : Registry) (id : Bytes) (provider : ℕ) (fds : List FieldDecl)
    → IsFieldIndex r
    → length r.fields + length fds ≤ 2 ^ 32
    → let (r', is) = declare_fields r id provider fds in IsFieldIndex r' × AreDeclared r' id fds is
unfolding declare_fields AreDeclared
declare_fields-IsFieldIndex r id provider [] index room = (index, tt)
declare_fields-IsFieldIndex r id provider (fd ∷ fds) index room =
    let next = (declare_field r id provider fd).0 in
    let (found, more) = declare_field-found r id provider fd in
    let index' = declare_field-IsFieldIndex r id provider fd index (omega (arith, room)) in
    let (last, others) =
      declare_fields-IsFieldIndex next id provider fds index' (omega (arith, room, more)) in
    let stable = declare_fields-IsStable next id provider fds in
    (last, (stable.names (qualified_name id fd) _ found, others))
