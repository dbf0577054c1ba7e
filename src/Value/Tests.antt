-- ===== src/Value/Tests.antt =====
-- Values at work: what is stored is read, and what is the same is not stored again.
use euroscope_plugin_bridge.Prelude.{
  ◌≡◌, ◌≤◌, inr, refl, true, [], ◌∷◌, none, some, arith, bytes_eq,
}
use euroscope_plugin_bridge.Status.{ok}
use euroscope_plugin_bridge.Value.{
  Value, Slot, t_i64, t_str, valid_type, is_scalar, same_value, same_bytes, store, read_slot,
}
use euroscope_plugin_bridge.Value.Read.{
  IsGiven, buffer_needed, delivered, delivered_length, read_slot-store, same_value-read_slot,
}

-- "1430" in a buffer of four bytes.
abbrev tobt : Value
tobt = record {
  type = t_str;
  bytes = 4;
  i64 = 0;
  f64 = 0;
  b = 0;
  ptr = some (b'1' ∷ b'4' ∷ b'3' ∷ b'0' ∷ []);
}

abbrev empty_out : Value
empty_out = record { type = 0; bytes = 0; i64 = 0; f64 = 0; b = 0; ptr = none }

tobt-IsGiven : IsGiven tobt
unfolding valid_type
tobt-IsGiven = record { valid = refl; sized = inr (refl, omega arith) }

tobt_fits : buffer_needed tobt ≤ 6
unfolding buffer_needed is_scalar
tobt_fits = omega arith

-- The slot held a number before.
abbrev number_slot : Slot
number_slot = record { type = t_i64; revision = 3; assigned = true; i64 = 42; f64 = 0; bytes = [] }

read_slot-store_run :
    read_slot (store number_slot tobt 4) empty_out (some 6) true
    ≡ (ok, delivered tobt empty_out, some (delivered_length tobt 6))
read_slot-store_run = read_slot-store number_slot tobt empty_out 4 6 tobt-IsGiven tobt_fits

delivered_run :
    (delivered tobt empty_out
      ≡ record empty_out { type = t_str; bytes = 4; ptr = some (b'1' ∷ b'4' ∷ b'3' ∷ b'0' ∷ []) })
    × (delivered_length tobt 6 ≡ 4)
unfolding delivered delivered_length
delivered_run = (refl, refl)

stored_same : same_value (store number_slot tobt 4) tobt ≡ true
unfolding same_value store same_bytes bytes_eq
stored_same = refl

same_value-read_slot_run :
    read_slot (store number_slot tobt 4) empty_out (some 2) true
    ≡ read_slot (store (store number_slot tobt 4) tobt 5) empty_out (some 2) true
same_value-read_slot_run =
    same_value-read_slot (store number_slot tobt 4) tobt empty_out 5 (some 2) true tobt-IsGiven
      stored_same
