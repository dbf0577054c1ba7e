-- ===== src/Registry/Discovery/Resolved.antt =====
-- What Resolve of src/Registry.cpp finds.
use euroscope_plugin_bridge.Prelude.{
  ℕ, ◌+◌, ◌-◌, ◌<◌, ◌≡◌, ◌≢◌, ◌⊎◌, ==_iff, All, subst, refl, sym, ◌∙◌, ap, true, false, not, ◌&&◌,
  [], ◌∷◌, ◌++◌, none, some, ◌==◌, ltb, length, arith, Bool-cases, Option-cases, inl, inr, le→ltb,
}
use euroscope_plugin_bridge.Prelude.Maps.{lookup, bytes_key}
use euroscope_plugin_bridge.Status.{ok, no_provider, no_field, type_mismatch, invalid_arg}
use euroscope_plugin_bridge.Schema.{Bytes, FieldDef}
use euroscope_plugin_bridge.Registry.{Registry, provider_at, field_def, field}
use euroscope_plugin_bridge.Registry.Discovery.{
  before_slash, live_provider, resolve_field, resolve_in, resolve,
}

-- The index of fields names fields that exist, each under its qualified name.
pub record IsFieldIndex (r : Registry) : Type 0 where
  pub exists : (name : Bytes) (i : ℕ) → lookup name r.field_index ≡ some i → i < length r.fields
  pub named :
      (name : Bytes) (i : ℕ) → lookup name r.field_index ≡ some i → (field_def r i).qualified ≡ name

-- `f` is the id of a field under that name, of the type that is expected, of a provider that is live: the
-- one whose id stands before the first slash.
pub record IsResolved (r : Registry) (name : Bytes) (expect f : ℕ) : Type 0 where
  pub id : Bytes
  pub rest : Bytes
  pub provider : ℕ
  pub fd : FieldDef
  pub split : name ≡ id ++ (b'/' ∷ rest)
  pub first : All (λ c. c ≢ b'/') id
  pub registered : lookup id r.provider_index ≡ some provider
  pub live : (provider_at r provider).live ≡ true
  pub there : field r f ≡ some fd
  pub named : fd.qualified ≡ name
  pub typed : (expect ≡ 0) ⊎ (fd.type ≡ expect)

field-exists : (r : Registry) (i : ℕ) → i < length r.fields → field r (i + 1) ≡ some (field_def r i)
unfolding field
field-exists r i h =
    let id : (i + 1 == 0) ≡ false = ground arith in
    let inside : ltb (length r.fields) (i + 1) ≡ false =
      le→ltb (length r.fields) (i + 1) (omega arith) in
    let back : i + 1 - 1 ≡ i = omega arith in rw (id, inside, back, field) refl

-- The text up to the first slash.
abbrev IsBefore : Bytes → Bytes → Type 0
IsBefore id s = (rest : Bytes) × (s ≡ id ++ (b'/' ∷ rest)) × All (λ c. c ≢ b'/') id

before_slash-IsBefore : (s id : Bytes) → before_slash s ≡ some id → IsBefore id s
unfolding before_slash
before_slash-IsBefore [] id h = absurd (cc h)
before_slash-IsBefore (c ∷ s) id h = elim (Bool-cases (c == b'/')) [
  | inl q ↦ elim (Option-cases (before_slash s)) [
    | inl w ↦
        (let e : some [] ≡ some id = rw (w, q, before_slash) at h in
          let none_before : [] ≡ id = cc e in
          let slash : c ≡ b'/' = (==_iff c b'/').0 q in
          subst (λ x. IsBefore x (c ∷ s)) none_before (s, ap (λ x. x ∷ s) slash, tt))
    | inr (front, w) ↦
        (let e : some [] ≡ some id = rw (w, q, before_slash) at h in
          let none_before : [] ≡ id = cc e in
          let slash : c ≡ b'/' = (==_iff c b'/').0 q in
          subst (λ x. IsBefore x (c ∷ s)) none_before (s, ap (λ x. x ∷ s) slash, tt))
  ]
  | inr q ↦ elim (Option-cases (before_slash s)) [
    | inl w ↦ absurd (let e : none ≡ some id = rw (w, q, before_slash) at h in cc e)
    | inr (front, w) ↦
        (let e : some (c ∷ front) ≡ some id = rw (w, q, before_slash) at h in
          let joined : c ∷ front ≡ id = cc e in
          let (rest, split, first) = before_slash-IsBefore s front w in
          let other : c ≢ b'/' = ground (arith, q) in
          subst (λ x. IsBefore x (c ∷ s)) joined (rest, ap (λ x. c ∷ x) split, (other, first)))
  ]
]

live_provider-live :
    (r : Registry) (id : Bytes) (i : ℕ)
    → live_provider r id ≡ some i
    → (lookup id r.provider_index ≡ some i) × ((provider_at r i).live ≡ true)
unfolding live_provider
live_provider-live r id i h = elim (Option-cases (lookup id r.provider_index)) [
  | inl q ↦ absurd (let e : none ≡ some i = rw (q, live_provider) at h in cc e)
  | inr (j, q) ↦ elim (Bool-cases (provider_at r j).live) [
    | inr w ↦ absurd (let e : none ≡ some i = rw (q, w, live_provider) at h in cc e)
    | inl w ↦
        (let e : some j ≡ some i = rw (q, w, live_provider) at h in
          let same : j ≡ i = cc e in (q ∙ e, ap (λ k. (provider_at r k).live) (sym same) ∙ w))
  ]
]

-- The field that the index names, and its type.
resolve_field-there :
    (r : Registry) (name : Bytes) (expect f : ℕ)
    → resolve_field r name expect ≡ (ok, some f)
    → (i : ℕ) × (lookup name r.field_index ≡ some i)
      × (i + 1 ≡ f)
      × ((expect ≡ 0) ⊎ ((field_def r i).type ≡ expect))
resolve_field-there r name expect f h = elim (Option-cases (lookup name r.field_index)) [
  | inl q ↦
      absurd (let h' : (no_field, none) ≡ (ok, some f) = rw (q, resolve_field) at h in cc (h'))
  | inr (i, q) ↦ elim (Bool-cases (not (expect == 0) && not ((field_def r i).type == expect))) [
    | inl w ↦
        absurd
          (let h' : (type_mismatch, none) ≡ (ok, some f) = rw (q, w, resolve_field) at h in cc (h'))
    | inr w ↦
        (let h' : (ok, some (i + 1)) ≡ (ok, some f) = rw (q, w, resolve_field) at h in
          (
            i,
            q,
            cc (h'),
            elim (Bool-cases (expect == 0)) [
              | inl z ↦ inl ((==_iff expect 0).0 z)
              | inr z ↦ inr (
                  let same : ((field_def r i).type == expect) ≡ true = ground arith in
                  (==_iff _ _).0 same)
            ],
          ))
  ]
]

resolve_found :
    (r : Registry) (name id : Bytes) (expect f p : ℕ)
    → IsFieldIndex r
    → before_slash name ≡ some id
    → live_provider r id ≡ some p
    → resolve_field r name expect ≡ (ok, some f)
    → IsResolved r name expect f
resolve_found r name id expect f p index before alive h =
    let (rest, split, first) = before_slash-IsBefore name id before in
    let (registered, live) = live_provider-live r id p alive in
    let (i, found, e, typed) = resolve_field-there r name expect f h in
    record {
      id = id;
      rest = rest;
      provider = p;
      fd = field_def r i;
      split = split;
      first = first;
      registered = registered;
      live = live;
      there = ap (field r) (sym e) ∙ field-exists r i (index.exists name i found);
      named = index.named name i found;
      typed = typed;
    }

-- An id that Resolve gives is that of the field with the name that was asked for, of the expected type if
-- one was, and the provider whose id stands before the first slash of the name is registered and live: in
-- a registry whose index names fields that exist, each under its qualified name.
pub resolve-field :
    (r : Registry) (name : Bytes) (expect f : ℕ)
    → IsFieldIndex r
    → resolve r (some name) expect true ≡ (ok, some f)
    → IsResolved r name expect f
unfolding resolve
resolve-field r name expect f index h = elim (Option-cases (before_slash name)) [
  | inl q ↦ absurd (let h' : (invalid_arg, none) ≡ (ok, some f) = rw (q, resolve) at h in cc (h'))
  | inr (id, q) ↦ elim (Option-cases (live_provider r id)) [
    | inl w ↦ absurd (
        let h' : (no_provider, none) ≡ (ok, some f) = rw (q, resolve, w, resolve_in) at h in
        cc (h'))
    | inr (i, w) ↦
        (let h' : resolve_field r name expect ≡ (ok, some f) =
            rw (q, resolve, w, resolve_in) at h in
          resolve_found r name id expect f i index q w h')
  ]
]
