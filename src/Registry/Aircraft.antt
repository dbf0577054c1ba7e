-- ===== src/Registry/Aircraft.antt =====
-- SetAircraft and ClearAircraft of src/Registry.cpp.
pub mod Depth
pub mod Owner
pub mod Indexed
pub mod Kept
use euroscope_plugin_bridge.Prelude.{
  ℕ, ◌-◌, Bool, not, List, [], ◌∷◌, ◌++◌, Option, none, some, ◌==◌, if◌then◌else◌,
}
use euroscope_plugin_bridge.Prelude.Maps.{lookup, insert, erase, nat_eq}
use euroscope_plugin_bridge.Status.{Status, ok, invalid_arg}
use euroscope_plugin_bridge.Value.{Value, Slot, fresh_slot, same_value, store}
use euroscope_plugin_bridge.Schema.{scope_aircraft}
use euroscope_plugin_bridge.AircraftTable.{validate, slot_of}
use euroscope_plugin_bridge.Registry.Indexed.{fields_or}
use euroscope_plugin_bridge.Registry.{
  Registry, check_write, passed, refused, aircraft_key, tick, with_revision, queue_outbound,
}

-- `m_slotFields[slot].push_back(i)`
abbrev pub index_field : ℕ → ℕ → List (ℕ × List ℕ) → List (ℕ × List ℕ)
index_field slot i slot_fields =
    insert slot (fields_or (lookup slot slot_fields) ++ (i ∷ [])) slot_fields

-- `std::remove`
pub without : ℕ → List ℕ → List ℕ
without i [] = []
without i (j ∷ js) = let rest = without i js in if j == i then rest else j ∷ rest

-- The fields of a slot after one was removed; an empty list leaves the map.
pub shrink : ℕ → List ℕ → List (ℕ × List ℕ) → List (ℕ × List ℕ)
shrink slot [] slot_fields = erase slot slot_fields
shrink slot (j ∷ js) slot_fields = insert slot (j ∷ js) slot_fields

abbrev pub unindex_field : ℕ → ℕ → List (ℕ × List ℕ) → List (ℕ × List ℕ)
unindex_field slot i slot_fields = elim (lookup slot slot_fields) [
  | none ↦ slot_fields
  | some fields ↦ shrink slot (without i fields) slot_fields
]

-- SetAircraft at its key, up to the notification: the value is stored, and indexed if it is new.
unfoldable pub put_value : Registry → ℕ → ℕ → ℕ → Option Slot → Value → Registry
put_value r o i slot none v =
    let stored = store fresh_slot v (tick r) in
    record r {
      clock = tick r;
      aircraft = insert (aircraft_key i slot) stored r.aircraft;
      slot_fields = index_field slot i r.slot_fields;
      providers = with_revision r.providers o stored.revision;
    }
put_value r o i slot (some s) v =
    let stored = store s v (tick r) in
    record r {
      clock = tick r;
      aircraft = insert (aircraft_key i slot) stored r.aircraft;
      providers = with_revision r.providers o stored.revision;
    }

abbrev pub is_same : Option Slot → Value → Bool
is_same none v = Bool.false
is_same (some s) v = same_value s v

-- ClearAircraft, up to the notification.
pub remove_value : Registry → ℕ → ℕ → ℕ → Registry
remove_value r o i slot = record r {
  clock = tick r;
  aircraft = erase (aircraft_key i slot) r.aircraft;
  slot_fields = unindex_field slot i r.slot_fields;
  providers = with_revision r.providers o (tick r);
}

module _ (notify : Registry → ℕ → ℕ → Registry) where
  unfoldable pub write_aircraft : Registry → ℕ → ℕ → ℕ → Value → Registry × Status
  write_aircraft r o a i v =
      let found = lookup (aircraft_key i (slot_of a)) r.aircraft in
      if is_same found v
      then (r, ok)
      else (notify (queue_outbound (put_value r o i (slot_of a) found v) i a) i a, ok)

  unfoldable pub set_aircraft :
      Bool → Registry → Option ℕ → ℕ → ℕ → Option Value → Registry × Status
  set_aircraft main r p a f v = elim (check_write main r p f scope_aircraft v) [
    | refused st ↦ (r, st)
    | passed o ↦ elim v [
      | none ↦ (r, invalid_arg)
      | some w ↦ elim (validate r.table a) [ ok ↦ write_aircraft r o a (f - 1) w | st ↦ (r, st) ]
    ]
  ]

  pub clear_value : Registry → ℕ → ℕ → ℕ → Registry × Status
  clear_value r o a i = elim (lookup (aircraft_key i (slot_of a)) r.aircraft) [
    | none ↦ (r, ok)
    | some s ↦ (notify (remove_value r o i (slot_of a)) i a, ok)
  ]

  pub clear_aircraft : Bool → Registry → Option ℕ → ℕ → ℕ → Registry × Status
  clear_aircraft main r p a f = elim (check_write main r p f scope_aircraft none) [
    | refused st ↦ (r, st)
    | passed o ↦ elim (validate r.table a) [ ok ↦ clear_value r o a (f - 1) | st ↦ (r, st) ]
  ]
