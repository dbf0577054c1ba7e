-- ===== src/Registry/Drop/Indexed.antt =====
-- What is left of an aircraft's values when its slot is dropped: DropAircraftSlot and RetireAircraft of
-- src/Registry.cpp.
use euroscope_plugin_bridge.Prelude.{
  ℕ, ◌-◌, ◌^◌, ◌<◌, ◌≡◌, ◌≢◌, refl, sym, ◌∙◌, subst, Bool, true, List, [], ◌∷◌, Option, none, some,
  ◌==◌, arith, Bool-cases, Option-cases, inl, inr, ==_iff,
}
use euroscope_plugin_bridge.Prelude.Maps.{lookup, erase, nat_eq, lookup-erase}
use euroscope_plugin_bridge.Status.{Status, ok}
use euroscope_plugin_bridge.Value.{Value, Slot}
use euroscope_plugin_bridge.Schema.{Bytes, scope_aircraft}
use euroscope_plugin_bridge.AircraftTable.{Table, retire, slot_of, validate}
use euroscope_plugin_bridge.Registry.{Registry, aircraft_key, field, provider_at}
use euroscope_plugin_bridge.Registry.Read.{Reading, get_aircraft, read_field}
use euroscope_plugin_bridge.Registry.Indexed.{IsIndexed, has_field}
use euroscope_plugin_bridge.Registry.Drop.{
  drop_fields, drop_aircraft_slot, retire_aircraft, observe_aircraft,
}

abbrev Values : Type 0
Values = List (ℕ × Slot)

erase-none : (k j : ℕ) (m : Values) → lookup j m ≡ none → lookup j (erase k m) ≡ none
erase-none k j m h = elim (Bool-cases (k == j)) [
  | inl q ↦ rw q at (lookup-erase k j m)
  | inr q ↦ (let e : lookup j (erase k m) ≡ lookup j m = rw q at (lookup-erase k j m) in e ∙ h)
]

erase-same : (k : ℕ) (m : Values) → lookup k (erase k m) ≡ none
erase-same k m = let q : (k == k) ≡ true = (==_iff k k).1 refl in rw q at (lookup-erase k k m)

drop_fields-none :
    (is : List ℕ) (slot k : ℕ) (m : Values)
    → lookup k m ≡ none
    → lookup k (drop_fields is slot m) ≡ none
unfolding drop_fields
drop_fields-none [] slot k m h = h
drop_fields-none (i ∷ is) slot k m h =
    drop_fields-none is slot k (erase (aircraft_key i slot) m) (erase-none _ k m h)

drop_fields-listed :
    (is : List ℕ) (slot i : ℕ) (m : Values)
    → has_field i is ≡ true
    → lookup (aircraft_key i slot) (drop_fields is slot m) ≡ none
unfolding drop_fields has_field
drop_fields-listed [] slot i m h = absurd (cc (h))
drop_fields-listed (j ∷ js) slot i m h = elim (Bool-cases (j == i)) [
  | inl q ↦
      (let e : j ≡ i = (==_iff j i).0 q in
        drop_fields-none js slot (aircraft_key i slot) _ (
          subst (λ k. lookup (aircraft_key i slot) (erase (aircraft_key k slot) m) ≡ none) (sym e)
            (erase-same (aircraft_key i slot) m)))
  | inr q ↦
      (let h' : has_field i js ≡ true = ground arith in
        drop_fields-listed js slot i (erase (aircraft_key j slot) m) h')
]

-- Nothing is held at a slot that was dropped.
pub drop_aircraft_slot-none :
    (r : Registry) (slot i : ℕ)
    → IsIndexed r
    → slot < 2 ^ 32
    → lookup (aircraft_key i slot) (drop_aircraft_slot r slot).aircraft ≡ none
unfolding drop_aircraft_slot has_field
drop_aircraft_slot-none r slot i indexed bound =
    elim (Option-cases (lookup (aircraft_key i slot) r.aircraft)) [
      | inl free ↦ elim (Option-cases (lookup slot r.slot_fields)) [
        | inl q ↦ rw (q, drop_aircraft_slot) free
        | inr (fields, q) ↦
            rw (q, drop_aircraft_slot)
              (drop_fields-none fields slot (aircraft_key i slot) r.aircraft free)
      ]
      | inr (s, held) ↦
          (let listed = indexed.listed i slot s bound held in
            elim (Option-cases (lookup slot r.slot_fields)) [
              | inl q ↦ absurd (let l : has_field i [] ≡ true = rw q at listed in cc (l))
              | inr (fields, q) ↦
                  rw (q, drop_aircraft_slot)
                    (drop_fields-listed fields slot i r.aircraft (rw q at listed))
            ])
    ]

read_nothing :
    (r : Registry) (f scope : ℕ) (out : Value) (io : Option ℕ) (buf : Bool)
    → (read_field r (field r f) scope none out io buf).0 ≢ ok
read_nothing r f scope out io buf = elim (Option-cases (field r f)) [
  | inl q ↦ rw (q, read_field) (λ e. cc)
  | inr (fd, q) ↦ elim (Bool-cases (fd.scope == scope)) [
    | inr s ↦ rw (q, s, read_field) (λ e. cc)
    | inl s ↦ elim (Bool-cases (provider_at r fd.provider).live) [
      | inr l ↦ rw (q, s, l, read_field) (λ e. cc)
      | inl l ↦ rw (q, s, l, read_field) (λ e. cc)
    ]
  ]
]

behind_ok :
    (st : Status) (out : Value) (io : Option ℕ) (w : Reading)
    → w.0 ≢ ok
    → (elim st as (λ _. Reading) [ ok ↦ w | st' ↦ (st', out, io) ]).0 ≢ ok
behind_ok ok out io w h = h
behind_ok st out io w h = λ e. cc

-- Where nothing is held at a slot, no read at that slot gives a value.
get_aircraft-none :
    (r : Registry) (a f : ℕ) (out : Value) (io : Option ℕ) (buf : Bool)
    → lookup (aircraft_key (f - 1) (slot_of a)) r.aircraft ≡ none
    → (get_aircraft true r a f out io buf).0 ≢ ok
unfolding get_aircraft
get_aircraft-none r a f out io buf h = behind_ok (validate r.table a) out io _ (
    subst (λ s. (read_field r (field r f) scope_aircraft s out io buf).0 ≢ ok) (sym h)
      (read_nothing r f scope_aircraft out io buf))

-- A value does not outlive the aircraft that it is about: once Retire has let go of a slot, a read at any
-- handle to that slot gives no value, for every field, also when the same callsign or another one has
-- taken the slot. Before, every value that is held is listed at its slot.
pub get_aircraft-retire_aircraft :
    (r : Registry) (cs : Option Bytes) (t : Table) (slot : ℕ)
    → IsIndexed r
    → retire r.table cs ≡ (t, some slot)
    → (next : Option Bytes) (now a f : ℕ) (out : Value) (io : Option ℕ) (buf : Bool)
    → slot_of a ≡ slot
    → (get_aircraft true (observe_aircraft (retire_aircraft r cs) next now).0 a f out io buf).0 ≢ ok
unfolding retire_aircraft observe_aircraft slot_of
get_aircraft-retire_aircraft r cs t slot indexed gone next now a f out io buf here =
    let r' : Registry = record r { table = t } in
    let indexed' : IsIndexed r' = record { listed = indexed.listed } in
    let bound : slot < 2 ^ 32 = omega (arith, here) in
    let free = drop_aircraft_slot-none r' slot (f - 1) indexed' bound in
    let free' : lookup (aircraft_key (f - 1) slot) (retire_aircraft r cs).aircraft ≡ none =
      rw (gone, retire_aircraft) free in
    get_aircraft-none (observe_aircraft (retire_aircraft r cs) next now).0 a f out io buf (
      subst (λ s. lookup (aircraft_key (f - 1) s) (retire_aircraft r cs).aircraft ≡ none) (sym here)
        free')
