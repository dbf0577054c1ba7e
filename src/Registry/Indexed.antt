-- ===== src/Registry/Indexed.antt =====
-- m_slotFields lists, for each slot, the fields that hold a value there (src/Registry.h).
use euroscope_plugin_bridge.Prelude.{
  ℕ, ◌^◌, ◌<◌, ◌≡◌, Bool, true, false, ◌||◌, List, [], ◌∷◌, ◌++◌, Option, none, some, ◌==◌, sym, ap,
  ◌∙◌, arith,
}
use euroscope_plugin_bridge.Prelude.Maps.{lookup, nat_eq}
use euroscope_plugin_bridge.Value.{Slot}
use euroscope_plugin_bridge.Registry.{Registry, aircraft_key, queue_outbound}

-- `std::find(…) != end()`
unfoldable pub has_field : ℕ → List ℕ → Bool
has_field i [] = false
has_field i (j ∷ js) = (j == i) || has_field i js

-- `m_slotFields[slot]`
abbrev pub fields_or : Option (List ℕ) → List ℕ
fields_or none = []
fields_or (some fields) = fields

-- A value that is held is listed at its slot.
pub record IsIndexed (r : Registry) : Type 0 where
  pub listed :
      (i slot : ℕ) (s : Slot)
      → slot < 2 ^ 32
      → lookup (aircraft_key i slot) r.aircraft ≡ some s
      → has_field i (fields_or (lookup slot r.slot_fields)) ≡ true

pub has_field-append_left :
    (i : ℕ) (xs ys : List ℕ) → has_field i xs ≡ true → has_field i (xs ++ ys) ≡ true
unfolding has_field
has_field-append_left i [] ys h = absurd (cc (h))
has_field-append_left i (x ∷ xs) ys h = ground (arith, has_field-append_left i xs ys)

pub has_field-push : (i : ℕ) (xs : List ℕ) → has_field i (xs ++ (i ∷ [])) ≡ true
unfolding has_field
has_field-push i [] = ground arith
has_field-push i (x ∷ xs) = ground (arith, has_field-push i xs)

pub aircraft_key_injective :
    (i slot j t : ℕ)
    → slot < 2 ^ 32
    → t < 2 ^ 32
    → aircraft_key i slot ≡ aircraft_key j t
    → (i ≡ j) × (slot ≡ t)
unfolding aircraft_key
aircraft_key_injective i slot j t hs ht e = (omega arith, omega arith)

-- Registries that hold the same values at the same slots.
pub IsIndexed-same :
    (r r' : Registry)
    → r'.aircraft ≡ r.aircraft
    → r'.slot_fields ≡ r.slot_fields
    → IsIndexed r
    → IsIndexed r'
IsIndexed-same r r' ea ef h = record {
  listed = λ i slot s bound held.
      ap (λ m. has_field i (fields_or (lookup slot m))) ef
      ∙ h.listed i slot s bound (ap (lookup (aircraft_key i slot)) (sym ea) ∙ held);
}

pub queue_outbound-IsIndexed :
    (r : Registry) (i a : ℕ) → IsIndexed r → IsIndexed (queue_outbound r i a)
unfolding queue_outbound
queue_outbound-IsIndexed r i a h =
    IsIndexed-same r (queue_outbound r i a) (ground arith) (ground arith) h
