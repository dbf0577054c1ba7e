-- ===== src/Registry/Aircraft/Owner.antt =====
-- Who may write an aircraft's values: SetAircraft of src/Registry.cpp.
use euroscope_plugin_bridge.Prelude.{ℕ, ◌-◌, ◌≡◌, ◌⊎◌, refl, Bool, Option, some, inl, inr}
use euroscope_plugin_bridge.Status.{Status, ok}
use euroscope_plugin_bridge.Value.{Value}
use euroscope_plugin_bridge.Schema.{scope_aircraft}
use euroscope_plugin_bridge.AircraftTable.{validate}
use euroscope_plugin_bridge.Registry.{Registry}
use euroscope_plugin_bridge.Registry.Writes.{Denied, IsOwner, check_write-Verdict}
use euroscope_plugin_bridge.Registry.Aircraft.{set_aircraft, write_aircraft}

unless_ok :
    (r : Registry) (w : Registry × Status) (st : Status)
    → Denied r (elim st as (λ _. Registry × Status) [ ok ↦ w | st' ↦ (r, st') ]) ⊎ (st ≡ ok)
unless_ok r w ok = inr refl
unless_ok r w st = inl (refl, λ e. cc)

-- Only the live provider that declared an aircraft's field can set it, and only at a handle that is
-- valid: in every other case SetAircraft gives an error and changes nothing.
pub set_aircraft-IsOwner :
    (notify : Registry → ℕ → ℕ → Registry) (main : Bool) (r : Registry) (p : Option ℕ) (a f : ℕ)
    (v : Value)
    → Denied r (set_aircraft notify main r p a f (some v))
      ⊎ (IsOwner r p f scope_aircraft × (validate r.table a ≡ ok))
unfolding set_aircraft
set_aircraft-IsOwner notify main r p a f v =
    elim (check_write-Verdict r p f scope_aircraft (some v) main) [
      | inl (st, q, bad) ↦ inl (rw (q, set_aircraft) (refl, bad))
      | inr (o, q, here, owns) ↦
          elim (unless_ok r (write_aircraft notify r o a (f - 1) v) (validate r.table a)) [
            | inl denied ↦ inl (rw (q, set_aircraft) denied)
            | inr valid ↦ inr ((o, here, owns), valid)
          ]
    ]
