-- ===== src/Registry/Aircraft/Kept.antt =====
-- Every call of SetAircraft and ClearAircraft of src/Registry.cpp keeps each value listed at its slot.
use euroscope_plugin_bridge.Prelude.{
  ℕ, ◌-◌, ◌^◌, ◌<◌, true, Option, none, some, arith, Bool-cases, Option-cases, inl, inr,
}
use euroscope_plugin_bridge.Prelude.Maps.{lookup, nat_eq}
use euroscope_plugin_bridge.Status.{Status, ok}
use euroscope_plugin_bridge.Value.{Value}
use euroscope_plugin_bridge.Schema.{scope_aircraft}
use euroscope_plugin_bridge.AircraftTable.{slot_of, validate}
use euroscope_plugin_bridge.Registry.{Registry, check_write, aircraft_key}
use euroscope_plugin_bridge.Registry.Depth.{Checked-cases}
use euroscope_plugin_bridge.Registry.Indexed.{IsIndexed, queue_outbound-IsIndexed}
use euroscope_plugin_bridge.Registry.Aircraft.{
  set_aircraft, clear_aircraft, write_aircraft, clear_value, is_same,
}
use euroscope_plugin_bridge.Registry.Aircraft.Indexed.{put_value-IsIndexed, remove_value-IsIndexed}

slot_of_bound : (a : ℕ) → slot_of a < 2 ^ 32
unfolding slot_of
slot_of_bound a = omega arith

if_ok-IsIndexed :
    (r : Registry) (w : Registry × Status) (st : Status)
    → IsIndexed r
    → IsIndexed w.0
    → IsIndexed (elim st as (λ _. Registry × Status) [ ok ↦ w | st' ↦ (r, st') ]).0
if_ok-IsIndexed r w ok hr hw = hw
if_ok-IsIndexed r w st hr hw = hr

module _ (notify : Registry → ℕ → ℕ → Registry)
    (notify-IsIndexed : (r : Registry) (i a : ℕ) → IsIndexed r → IsIndexed (notify r i a)) where
  write_aircraft-IsIndexed :
      (r : Registry) (o a i : ℕ) (v : Value)
      → IsIndexed r
      → IsIndexed (write_aircraft notify r o a i v).0
  unfolding write_aircraft
  write_aircraft-IsIndexed r o a i v h =
      let found = lookup (aircraft_key i (slot_of a)) r.aircraft in
      elim (Bool-cases (is_same found v)) [
        | inl q ↦ rw q h
        | inr q ↦ rw q (
            notify-IsIndexed _ i a (
              queue_outbound-IsIndexed _ i a
                (put_value-IsIndexed r o i (slot_of a) v (slot_of_bound a) h)))
      ]

  -- SetAircraft, by any caller and at any handle, keeps every value listed at its slot, if the
  -- notification at its end does.
  pub set_aircraft-IsIndexed :
      (r : Registry) (p : Option ℕ) (a f : ℕ) (v : Value)
      → IsIndexed r
      → IsIndexed (set_aircraft notify true r p a f (some v)).0
  unfolding set_aircraft
  set_aircraft-IsIndexed r p a f v h =
      elim (Checked-cases (check_write true r p f scope_aircraft (some v))) [
        | inl (st, q) ↦ rw (q, set_aircraft) h
        | inr (o, q) ↦
            rw (q, set_aircraft)
              (if_ok-IsIndexed r _ (validate r.table a) h
                (write_aircraft-IsIndexed r o a (f - 1) v h))
      ]

  clear_value-IsIndexed :
      (r : Registry) (o a i : ℕ) → IsIndexed r → IsIndexed (clear_value notify r o a i).0
  unfolding clear_value
  clear_value-IsIndexed r o a i h =
      elim (Option-cases (lookup (aircraft_key i (slot_of a)) r.aircraft)) [
        | inl q ↦ rw (q, clear_value) h
        | inr (s, q) ↦
            rw (q, clear_value)
              (notify-IsIndexed _ i a (remove_value-IsIndexed r o i (slot_of a) h))
      ]

  -- ClearAircraft, by any caller and at any handle, keeps every value listed at its slot, if the
  -- notification at its end does.
  pub clear_aircraft-IsIndexed :
      (r : Registry) (p : Option ℕ) (a f : ℕ)
      → IsIndexed r
      → IsIndexed (clear_aircraft notify true r p a f).0
  unfolding clear_aircraft
  clear_aircraft-IsIndexed r p a f h =
      elim (Checked-cases (check_write true r p f scope_aircraft none)) [
        | inl (st, q) ↦ rw (q, clear_aircraft) h
        | inr (o, q) ↦
            rw (q, clear_aircraft)
              (if_ok-IsIndexed r _ (validate r.table a) h (clear_value-IsIndexed r o a (f - 1) h))
      ]
