-- ===== src/Registry/State/Fields.antt =====
-- The fields that SaveState of src/Registry.cpp sets, one after the other, and what LoadState makes of
-- them.
use euroscope_plugin_bridge.Prelude.{
  ℕ, ◌<◌, ◌≡◌, refl, sym, ap, ◌∙◌, true, false, List, [], ◌∷◌, Option, none, some, ◌==◌, length,
  All, arith, Bool-cases, Option-cases, inl, inr, bytes_eq, bytes_eq_iff, bytes_eq_refl, ==_iff,
  subst,
}
use euroscope_plugin_bridge.Prelude.Maps.{lookup, nat_eq, bytes_key}
use euroscope_plugin_bridge.Text.{Bytes}
use euroscope_plugin_bridge.Value.{Slot}
use euroscope_plugin_bridge.Schema.{scope_global, is_persist}
use euroscope_plugin_bridge.Json.{JsonValue, members, find, find-set_member, has, set}
use euroscope_plugin_bridge.Json.Double.{Double}
use euroscope_plugin_bridge.Registry.{Registry, StagedValue, field_def}
use euroscope_plugin_bridge.Registry.State.{
  entry_of, set_entry, slot_value, staged_value, save_global, save_globals, save_staged_value,
  save_staged,
}

-- The name that a field is saved under.
abbrev pub name_of : Registry → ℕ → Bytes
name_of r i = (field_def r i).qualified

find-set_entry_ne :
    (d : Double) (fields : JsonValue) (key k : Bytes) (type : ℕ) (o : Option JsonValue)
    → bytes_eq key k ≡ false
    → find k (members (set_entry d fields key type o)) ≡ find k (members fields)
unfolding set
find-set_entry_ne d fields key k type none h = refl
find-set_entry_ne d fields key k type (some v) h =
    find-set_member key k (entry_of d type v) (members fields) ∙ rw h refl

find-set_entry_self :
    (d : Double) (fields : JsonValue) (key : Bytes) (type : ℕ) (o : Option JsonValue)
    (v : JsonValue)
    → o ≡ some v
    → find key (members (set_entry d fields key type o)) ≡ some (entry_of d type v)
unfolding set
find-set_entry_self d fields key type o v e =
    ap (λ p. find key (members (set_entry d fields key type p))) e
    ∙ find-set_member key key (entry_of d type v) (members fields)
    ∙ rw (bytes_eq_refl key) refl

find-save_global_ne :
    (d : Double) (r : Registry) (fields : JsonValue) (i : ℕ) (s : Slot) (k : Bytes)
    → bytes_eq (name_of r i) k ≡ false
    → find k (members (save_global d r fields i s)) ≡ find k (members fields)
unfolding save_global
find-save_global_ne d r fields i s k h =
    ground (arith, find-set_entry_ne d fields (name_of r i) k s.type (slot_value d s) h)

-- A slot that SaveState writes.
pub record IsSaved (r : Registry) (i : ℕ) (s : Slot) : Type 0 where
  pub declared : i < length r.fields
  pub persist : is_persist (field_def r i).flags ≡ true
  pub global : ((field_def r i).scope == scope_global) ≡ true
  pub assigned : s.assigned ≡ true

find-save_global_self :
    (d : Double) (r : Registry) (fields : JsonValue) (i : ℕ) (s : Slot) (v : JsonValue)
    → IsSaved r i s
    → slot_value d s ≡ some v
    → find (name_of r i) (members (save_global d r fields i s)) ≡ some (entry_of d s.type v)
unfolding save_global
find-save_global_self d r fields i s v h e = ground (
  arith,
  h.declared,
  h.persist,
  h.global,
  h.assigned,
  find-set_entry_self d fields (name_of r i) s.type (slot_value d s) v e,
)

-- No field of the list is saved under the name.
abbrev pub Spares : Registry → Bytes → List (ℕ × Slot) → Type 0
Spares r k = All (λ e. bytes_eq (name_of r e.0) k ≡ false)

pub find-save_globals_ne :
    (d : Double) (r : Registry) (fields : JsonValue) (globals : List (ℕ × Slot)) (k : Bytes)
    → Spares r k globals
    → find k (members (save_globals d r fields globals)) ≡ find k (members fields)
unfolding save_globals
find-save_globals_ne d r fields [] k h = refl
find-save_globals_ne d r fields ((i, s) ∷ globals) k h =
    find-save_globals_ne d r (save_global d r fields i s) globals k h.1
    ∙ find-save_global_ne d r fields i s k h.0

-- No two of the fields have one name.
abbrev pub Apart : Registry → List (ℕ × Slot) → Type 0
Apart r [] = Unit {0}
Apart r ((i, s) ∷ globals) = Spares r (name_of r i) globals × Apart r globals

pub find-save_globals :
    (d : Double) (r : Registry) (fields : JsonValue) (globals : List (ℕ × Slot)) (i : ℕ) (s : Slot)
    (v : JsonValue)
    → Apart r globals
    → lookup i globals ≡ some s
    → IsSaved r i s
    → slot_value d s ≡ some v
    → find (name_of r i) (members (save_globals d r fields globals)) ≡ some (entry_of d s.type v)
unfolding save_globals lookup
find-save_globals d r fields [] i s v apart here h e = absurd (cc)
find-save_globals d r fields ((j, t) ∷ globals) i s v apart here h e = elim (Bool-cases (j == i)) [
  | inl q ↦
      (let found : some t ≡ some s = rw q at here in
        let same : t ≡ s = cc in
        let index : j ≡ i = (==_iff j i).0 q in
        let spared : Spares r (name_of r i) globals =
          subst (λ k. Spares r (name_of r k) globals) index apart.0 in
        find-save_globals_ne d r (save_global d r fields j t) globals (name_of r i) spared
        ∙ subst
            (λ k.
              find (name_of r i) (members (save_global d r fields k t))
              ≡ some (entry_of d s.type v))
            (sym index)
            (subst
              (λ u.
                find (name_of r i) (members (save_global d r fields i u))
                ≡ some (entry_of d s.type v))
              (sym same) (find-save_global_self d r fields i s v h e)))
  | inr q ↦
      (let later : lookup i globals ≡ some s = rw q at here in
        find-save_globals d r (save_global d r fields j t) globals i s v apart.1 later h e)
]

has-find :
    (fields : JsonValue) (k : Bytes) (v : JsonValue)
    → find k (members fields) ≡ some v
    → has fields k ≡ true
unfolding has
has-find fields k v e = rw (e, has) refl

find-none : (fields : JsonValue) (k : Bytes) → find k (members fields) ≡ none → has fields k ≡ false
unfolding has
find-none fields k e = rw (e, has) refl

pub find-has :
    (fields : JsonValue) (k : Bytes) → has fields k ≡ false → find k (members fields) ≡ none
unfolding has
find-has fields k h = elim (Option-cases (find k (members fields))) [
  | inl e ↦ e
  | inr (v, e) ↦ absurd (let t : has fields k ≡ true = has-find fields k v e in cc)
]

find-save_staged_value_ne :
    (d : Double) (fields : JsonValue) (key k : Bytes) (v : StagedValue)
    → bytes_eq key k ≡ false
    → find k (members (save_staged_value d fields key v)) ≡ find k (members fields)
unfolding save_staged_value
find-save_staged_value_ne d fields key k v h =
    ground (arith, find-set_entry_ne d fields key k v.type (staged_value d v) h)

-- What is set is kept: a field of this session comes before a staged value.
pub find-save_staged_kept :
    (d : Double) (fields : JsonValue) (staged : List (Bytes × StagedValue)) (k : Bytes)
    (w : JsonValue)
    → find k (members fields) ≡ some w
    → find k (members (save_staged d fields staged)) ≡ some w
unfolding save_staged save_staged_value
find-save_staged_kept d fields [] k w e = e
find-save_staged_kept d fields ((key, v) ∷ staged) k w e = elim (Bool-cases (bytes_eq key k)) [
  | inl q ↦
      (let same : k ≡ key = sym ((bytes_eq_iff key k).0 q) in
        let there : has fields key ≡ true =
          has-find fields key w (subst (λ j. find j (members fields) ≡ some w) same e) in
        rw there (find-save_staged_kept d fields staged k w e))
  | inr q ↦
      find-save_staged_kept d (save_staged_value d fields key v) staged k w
        (find-save_staged_value_ne d fields key k v q ∙ e)
]

pub find-save_staged :
    (d : Double) (fields : JsonValue) (staged : List (Bytes × StagedValue)) (k : Bytes)
    (v : StagedValue) (w : JsonValue)
    → lookup k staged ≡ some v
    → has fields k ≡ false
    → staged_value d v ≡ some w
    → find k (members (save_staged d fields staged)) ≡ some (entry_of d v.type w)
unfolding save_staged lookup
find-save_staged d fields [] k v w here free e = absurd (cc)
find-save_staged d fields ((key, u) ∷ staged) k v w here free e =
    elim (Bool-cases (bytes_eq key k)) [
      | inl q ↦
          (let found : some u ≡ some v = rw q at here in
            let same : v ≡ u = cc in
            let named : k ≡ key = sym ((bytes_eq_iff key k).0 q) in
            let free' : has fields key ≡ false = subst (λ j. has fields j ≡ false) named free in
            find-save_staged_kept d (save_staged_value d fields key u) staged k
              (entry_of d v.type w)
              (subst
                (λ j.
                  find j (members (save_staged_value d fields key u)) ≡ some (entry_of d v.type w))
                (sym named)
                (subst
                  (λ x.
                    find key (members (save_staged_value d fields key x))
                    ≡ some (entry_of d v.type w))
                  same
                  (unfold save_staged_value in
                    rw free' (find-set_entry_self d fields key v.type (staged_value d v) w e)))))
      | inr q ↦
          (let later : lookup k staged ≡ some v = rw q at here in
            let free' : has (save_staged_value d fields key u) k ≡ false =
              find-none (save_staged_value d fields key u) k
                (find-save_staged_value_ne d fields key k u q ∙ find-has fields k free) in
            find-save_staged d (save_staged_value d fields key u) staged k v w later free' e)
    ]
