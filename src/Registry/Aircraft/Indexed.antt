-- ===== src/Registry/Aircraft/Indexed.antt =====
-- SetAircraft and ClearAircraft of src/Registry.cpp keep m_slotFields in step with the values.
use euroscope_plugin_bridge.Prelude.{
  ℕ, ◌^◌, ◌<◌, ◌≡◌, ◌≢◌, refl, sym, ◌∙◌, ap, subst, true, false, List, [], ◌∷◌, ◌++◌, none, some,
  ◌==◌, Bool-cases, Option-cases, inl, inr, ==_iff,
}
use euroscope_plugin_bridge.Prelude.Maps.{
  lookup, insert, erase, nat_eq, lookup-erase, lookup-insert,
}
use native.Mathlib.Decide.{ℕ_discrete}
use euroscope_plugin_bridge.Value.{Value}
use euroscope_plugin_bridge.Registry.{Registry, aircraft_key}
use euroscope_plugin_bridge.Registry.Indexed.{
  IsIndexed, has_field, fields_or, has_field-append_left, has_field-push, aircraft_key_injective,
}
use euroscope_plugin_bridge.Registry.Aircraft.{
  put_value, remove_value, index_field, unindex_field, without, shrink,
}

differ : (k j : ℕ) → k ≢ j → (k == j) ≡ false
differ k j h = elim (Bool-cases (k == j)) [ inl q ↦ absurd (h ((==_iff k j).0 q)) | inr q ↦ q ]

module _ {ℓ} {V : Type ℓ} where
  insert-same : (k : ℕ) (v : V) (m : List (ℕ × V)) → lookup k (insert k v m) ≡ some v
  insert-same k v m =
      let q : (k == k) ≡ true = (==_iff k k).1 refl in rw q at (lookup-insert k k v m)

  insert-other : (k j : ℕ) (v : V) (m : List (ℕ × V)) → k ≢ j → lookup j (insert k v m) ≡ lookup j m
  insert-other k j v m h = rw (differ k j h) at (lookup-insert k j v m)

  erase-other : (k j : ℕ) (m : List (ℕ × V)) → k ≢ j → lookup j (erase k m) ≡ lookup j m
  erase-other k j m h = rw (differ k j h) at (lookup-erase k j m)

  erase-same : (k : ℕ) (m : List (ℕ × V)) → lookup k (erase k m) ≡ none
  erase-same k m = let q : (k == k) ≡ true = (==_iff k k).1 refl in rw q at (lookup-erase k k m)

abbrev Index : Type 0
Index = List (ℕ × List ℕ)

-- A field that is listed stays listed when another is added.
index_field-listed :
    (slot i j t : ℕ) (m : Index)
    → has_field j (fields_or (lookup t m)) ≡ true
    → has_field j (fields_or (lookup t (index_field slot i m))) ≡ true
index_field-listed slot i j t m h = elim (ℕ_discrete slot t) [
  | yes e ↦
      subst (λ k. has_field j (fields_or (lookup k (index_field slot i m))) ≡ true) e
        (rw (insert-same slot (fields_or (lookup slot m) ++ (i ∷ [])) m) (
          has_field-append_left j (fields_or (lookup slot m)) (i ∷ [])
            (subst (λ k. has_field j (fields_or (lookup k m)) ≡ true) (sym e) h)))
  | no d ↦ rw (insert-other slot t (fields_or (lookup slot m) ++ (i ∷ [])) m d) h
]

index_field-new :
    (slot i : ℕ) (m : Index) → has_field i (fields_or (lookup slot (index_field slot i m))) ≡ true
index_field-new slot i m =
    rw (insert-same slot (fields_or (lookup slot m) ++ (i ∷ [])) m)
      (has_field-push i (fields_or (lookup slot m)))

pub put_value-IsIndexed :
    (r : Registry) (o i slot : ℕ) (v : Value)
    → slot < 2 ^ 32
    → IsIndexed r
    → IsIndexed (put_value r o i slot (lookup (aircraft_key i slot) r.aircraft) v)
unfolding put_value
put_value-IsIndexed r o i slot v bound indexed =
    elim (Option-cases (lookup (aircraft_key i slot) r.aircraft)) [
      | inl q ↦
          rw (q, put_value)
            (record {
              listed = λ j t s ht held. elim (ℕ_discrete (aircraft_key i slot) (aircraft_key j t)) [
                | yes e ↦
                    (let (ei, es) = aircraft_key_injective i slot j t bound ht e in
                      subst
                        (λ k.
                          has_field k (fields_or (lookup t (index_field slot i r.slot_fields)))
                          ≡ true)
                        ei
                        (subst
                          (λ k.
                            has_field i (fields_or (lookup k (index_field slot i r.slot_fields)))
                            ≡ true)
                          es (index_field-new slot i r.slot_fields)))
                | no d ↦ index_field-listed slot i j t r.slot_fields (
                    indexed.listed j t s ht (
                      sym (insert-other (aircraft_key i slot) (aircraft_key j t) _ r.aircraft d)
                      ∙ held))
              ];
            })
      | inr (old, q) ↦
          rw (q, put_value)
            (record {
              listed = λ j t s ht held. elim (ℕ_discrete (aircraft_key i slot) (aircraft_key j t)) [
                | yes e ↦ indexed.listed j t old ht (ap (λ k. lookup k r.aircraft) (sym e) ∙ q)
                | no d ↦ indexed.listed j t s ht (
                    sym (insert-other (aircraft_key i slot) (aircraft_key j t) _ r.aircraft d)
                    ∙ held)
              ];
            })
    ]

without-listed :
    (i j : ℕ) (fields : List ℕ)
    → i ≢ j
    → has_field j fields ≡ true
    → has_field j (without i fields) ≡ true
unfolding without has_field
without-listed i j [] d h = h
without-listed i j (k ∷ ks) d h = elim (Bool-cases (k == i)) [
  | inl q ↦
      (let e : k ≡ i = (==_iff k i).0 q in
        let n : (k == j) ≡ false = differ k j (λ e'. d (sym e ∙ e')) in
        let h' : has_field j ks ≡ true = rw n at h in rw (q, without) (without-listed i j ks d h'))
  | inr q ↦ elim (Bool-cases (k == j)) [
    | inl w ↦ rw (q, without, w) refl
    | inr w ↦
        (let h' : has_field j ks ≡ true = rw w at h in
          rw (q, without, w) (without-listed i j ks d h'))
  ]
]

-- What is left of the list of a slot, put back or dropped.
shrink-same :
    (slot : ℕ) (left : List ℕ) (m : Index) → fields_or (lookup slot (shrink slot left m)) ≡ left
unfolding shrink
shrink-same slot [] m = rw (erase-same slot m) refl
shrink-same slot (k ∷ ks) m = rw (insert-same slot (k ∷ ks) m) refl

shrink-other :
    (slot t : ℕ) (left : List ℕ) (m : Index) → slot ≢ t → lookup t (shrink slot left m) ≡ lookup t m
unfolding shrink
shrink-other slot t [] m d = erase-other slot t m d
shrink-other slot t (k ∷ ks) m d = insert-other slot t (k ∷ ks) m d

unindex_field-listed :
    (slot i j t : ℕ) (m : Index)
    → (slot ≡ t → i ≢ j)
    → has_field j (fields_or (lookup t m)) ≡ true
    → has_field j (fields_or (lookup t (unindex_field slot i m))) ≡ true
unindex_field-listed slot i j t m d h = elim (Option-cases (lookup slot m)) [
  | inl q ↦ rw (q, unindex_field) h
  | inr (fields, q) ↦ elim (ℕ_discrete slot t) [
    | no other ↦ rw (q, unindex_field, shrink-other slot t (without i fields) m other) h
    | yes e ↦
        (let here : has_field j fields ≡ true =
            rw q at (subst (λ k. has_field j (fields_or (lookup k m)) ≡ true) (sym e) h) in
          let left = without-listed i j fields (d e) here in
          subst (λ k. has_field j (fields_or (lookup k (unindex_field slot i m))) ≡ true) e
            (rw (q, unindex_field, shrink-same slot (without i fields) m) left))
  ]
]

pub remove_value-IsIndexed :
    (r : Registry) (o i slot : ℕ) → IsIndexed r → IsIndexed (remove_value r o i slot)
unfolding remove_value
remove_value-IsIndexed r o i slot indexed = record {
  listed = λ j t s ht held. elim (ℕ_discrete (aircraft_key i slot) (aircraft_key j t)) [
    | yes e ↦ absurd (
        let held' : lookup (aircraft_key i slot) (erase (aircraft_key i slot) r.aircraft) ≡ some s =
          ap (λ k. lookup k (erase (aircraft_key i slot) r.aircraft)) e ∙ held in
        cc (held', erase-same (aircraft_key i slot) r.aircraft))
    | no d ↦
        unindex_field-listed slot i j t r.slot_fields
          (λ es ei. d (ap (λ k. aircraft_key k slot) ei ∙ ap (aircraft_key j) es))
          (indexed.listed j t s ht
            (sym (erase-other (aircraft_key i slot) (aircraft_key j t) r.aircraft d) ∙ held))
  ];
}
