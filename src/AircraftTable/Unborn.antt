-- ===== src/AircraftTable/Unborn.antt =====
-- A handle of generation 0 is never that of an aircraft: Validate and CallsignOf of src/AircraftTable.cpp.
use euroscope_plugin_bridge.Prelude.{
  ℕ, ◌^◌, ◌<◌, ◌≡◌, ◌≢◌, ◌⊎◌, refl, Bool, true, false, not, ◌||◌, Option, none, leb, ◌==◌, arith,
  length, Bool-cases, inl, inr,
}
use euroscope_plugin_bridge.Status.{unknown_aircraft, stale_aircraft}
use euroscope_plugin_bridge.AircraftTable.{
  Table, entry_at, validate, handle, slot_of, generation_of, callsign_of, aircraft_none,
}

-- No slot of the table has the generation 0, which `observe` gives to none.
abbrev pub AreBorn : Table → Type 0
AreBorn t = (s : ℕ) → s < length t.slots → (entry_at t s).generation ≢ 0

slot_zero : (slot : ℕ) → slot < 2 ^ 32 → slot_of (handle slot 0) ≡ slot
unfolding slot_of handle
slot_zero slot h = omega arith

generation_zero : (slot : ℕ) → slot < 2 ^ 32 → generation_of (handle slot 0) ≡ 0
unfolding generation_of handle
generation_zero slot h = omega arith

or_true : (b : Bool) → (b || true) ≡ true
or_true true = refl
or_true false = refl

validate_unborn :
    (t : Table) (slot : ℕ)
    → slot < 2 ^ 32
    → AreBorn t
    → (validate t (handle slot 0) ≡ unknown_aircraft)
      ⊎ (validate t (handle slot 0) ≡ stale_aircraft)
unfolding validate
validate_unborn t slot small born =
    elim (Bool-cases
      ((handle slot 0 == aircraft_none) || leb (length t.slots) (slot_of (handle slot 0)))) [
        | inl q ↦ inl (rw q refl)
        | inr q ↦
            let back = slot_zero slot small in
            let inside : slot < length t.slots = ground (arith, q, back) in
            let other : ((entry_at t slot).generation == 0) ≡ false =
              ground (arith, born slot inside) in
            inr (
              rw
                (
                  q,
                  back,
                  generation_zero slot small,
                  other,
                  or_true (not (entry_at t slot).live),
                  or_true (not (entry_at t slot).used),
                )
                refl)
      ]

-- No callsign is copied for a handle of generation 0.
pub callsign_of_unborn :
    (t : Table) (slot : ℕ) (have : Option ℕ) (buf : Bool)
    → slot < 2 ^ 32
    → AreBorn t
    → (callsign_of t (handle slot 0) have buf).2 ≡ none
unfolding callsign_of
callsign_of_unborn t slot have buf small born = elim (validate_unborn t slot small born) [
  | inl e ↦ rw (e, callsign_of) refl
  | inr e ↦ rw (e, callsign_of) refl
]
