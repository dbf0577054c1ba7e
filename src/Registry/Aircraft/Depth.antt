-- ===== src/Registry/Aircraft/Depth.antt =====
-- SetAircraft and ClearAircraft of src/Registry.cpp leave m_dispatchDepth as it is.
use euroscope_plugin_bridge.Prelude.{
  ℕ, ◌-◌, refl, ◌∙◌, true, Option, none, some, Bool-cases, Option-cases, inl, inr,
}
use euroscope_plugin_bridge.Prelude.Maps.{lookup, nat_eq}
use euroscope_plugin_bridge.Value.{Value, Slot}
use euroscope_plugin_bridge.Schema.{scope_aircraft}
use euroscope_plugin_bridge.AircraftTable.{validate, slot_of}
use euroscope_plugin_bridge.Registry.{Registry, check_write, aircraft_key}
use euroscope_plugin_bridge.Registry.Depth.{
  SameDepth, queue_outbound-SameDepth, Checked-cases, if_ok-SameDepth,
}
use euroscope_plugin_bridge.Registry.Aircraft.{
  set_aircraft, clear_aircraft, write_aircraft, clear_value, put_value, remove_value, is_same,
}

put_value-SameDepth :
    (r : Registry) (o i slot : ℕ) (s : Option Slot) (v : Value)
    → SameDepth r (put_value r o i slot s v)
unfolding put_value
put_value-SameDepth r o i slot none v = refl
put_value-SameDepth r o i slot (some s) v = refl

remove_value-SameDepth : (r : Registry) (o i slot : ℕ) → SameDepth r (remove_value r o i slot)
unfolding remove_value
remove_value-SameDepth r o i slot = refl

module _ (notify : Registry → ℕ → ℕ → Registry)
    (notify-SameDepth : (r : Registry) (i a : ℕ) → SameDepth r (notify r i a)) where
  write_aircraft-SameDepth :
      (r : Registry) (o a i : ℕ) (v : Value) → SameDepth r (write_aircraft notify r o a i v).0
  unfolding write_aircraft
  write_aircraft-SameDepth r o a i v =
      let found = lookup (aircraft_key i (slot_of a)) r.aircraft in
      elim (Bool-cases (is_same found v)) [
        | inl q ↦ rw q refl
        | inr q ↦ rw q (
            notify-SameDepth _ i a
            ∙ (queue_outbound-SameDepth _ i a ∙ put_value-SameDepth r o i (slot_of a) found v))
      ]

  pub set_aircraft-SameDepth :
      (r : Registry) (p : Option ℕ) (a f : ℕ) (v : Option Value)
      → SameDepth r (set_aircraft notify true r p a f v).0
  unfolding set_aircraft
  set_aircraft-SameDepth r p a f none =
      elim (Checked-cases (check_write true r p f scope_aircraft none)) [
        | inl (st, q) ↦ rw (q, set_aircraft) refl
        | inr (o, q) ↦ rw (q, set_aircraft) refl
      ]
  set_aircraft-SameDepth r p a f (some v) =
      elim (Checked-cases (check_write true r p f scope_aircraft (some v))) [
        | inl (st, q) ↦ rw (q, set_aircraft) refl
        | inr (o, q) ↦
            rw (q, set_aircraft)
              (if_ok-SameDepth r _ (validate r.table a) (write_aircraft-SameDepth r o a (f - 1) v))
      ]

  clear_value-SameDepth : (r : Registry) (o a i : ℕ) → SameDepth r (clear_value notify r o a i).0
  unfolding clear_value
  clear_value-SameDepth r o a i =
      elim (Option-cases (lookup (aircraft_key i (slot_of a)) r.aircraft)) [
        | inl q ↦ rw (q, clear_value) refl
        | inr (s, q) ↦
            rw (q, clear_value) (notify-SameDepth _ i a ∙ remove_value-SameDepth r o i (slot_of a))
      ]

  pub clear_aircraft-SameDepth :
      (r : Registry) (p : Option ℕ) (a f : ℕ) → SameDepth r (clear_aircraft notify true r p a f).0
  unfolding clear_aircraft
  clear_aircraft-SameDepth r p a f =
      elim (Checked-cases (check_write true r p f scope_aircraft none)) [
        | inl (st, q) ↦ rw (q, clear_aircraft) refl
        | inr (o, q) ↦
            rw (q, clear_aircraft)
              (if_ok-SameDepth r _ (validate r.table a) (clear_value-SameDepth r o a (f - 1)))
      ]
