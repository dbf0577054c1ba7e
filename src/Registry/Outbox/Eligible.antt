-- ===== src/Registry/Outbox/Eligible.antt =====
-- What leaves is what both its author and the user allow: FlushOutbox of src/Registry.cpp.
use euroscope_plugin_bridge.Prelude.{
  ℕ, ◌+◌, ◌-◌, ◌/◌, ◌%◌, ◌^◌, ◌<◌, ◌≡◌, ◌⊎◌, refl, ap, Bool, true, false, not, ◌||◌, List, [], ◌∷◌,
  Option, none, some, ltb, leb, ◌==◌, All, arith, length, Bool-cases, inl, inr,
}
use euroscope_plugin_bridge.Prelude.Maps.{lookup, nat_eq}
use euroscope_plugin_bridge.Text.{Bytes}
use euroscope_plugin_bridge.Value.{Slot}
use euroscope_plugin_bridge.Schema.{FieldDef}
use euroscope_plugin_bridge.AircraftTable.{Table}
use euroscope_plugin_bridge.AircraftTable.Unborn.{AreBorn, callsign_of_unborn}
use euroscope_plugin_bridge.Relay.{Message}
use euroscope_plugin_bridge.Registry.{Registry, RelayConfig, global_slot, field_def, sync_eligible}
use euroscope_plugin_bridge.Registry.Outbox.{
  wire_callsign, copied, value_message, with_message, flush_batch, flush_outbox, flush_if_due,
  by_key, count_or, interval,
}

-- A message of a field that may be shared, without a callsign.
abbrev pub IsGlobalShare : Registry → Message → Type 0
IsGlobalShare r m =
    (i : ℕ) × (i < length r.fields)
    × (sync_eligible r (field_def r i) ≡ true)
    × (m.qualified ≡ (field_def r i).qualified)
    × (m.callsign ≡ [])

wire_callsign_unborn :
    (t : Table) (slot : ℕ) → slot < 2 ^ 32 → AreBorn t → wire_callsign t slot ≡ []
unfolding wire_callsign
wire_callsign_unborn t slot small born =
    ap copied (callsign_of_unborn t slot (some 32) true small born)

both_false : (a b : Bool) → (a || not b) ≡ false → (a ≡ false) × (b ≡ true)
both_false false true h = (refl, refl)
both_false false false h = absurd (cc h)
both_false true b h = absurd (cc h)

module _ (format_f64 : ℕ → Bytes) (parse_f64 : Bytes → Option (ℕ × Bytes)) where
  -- A value has no message, or one of its field without a callsign.
  value_message-cases :
      (r : Registry) (f : FieldDef) (slot : ℕ) (s : Option Slot)
      → slot < 2 ^ 32
      → AreBorn r.table
      → (value_message format_f64 parse_f64 r f slot s ≡ none)
        ⊎ ((m : Message) × (value_message format_f64 parse_f64 r f slot s ≡ some m)
            × (m.qualified ≡ f.qualified)
            × (m.callsign ≡ []))
  unfolding value_message
  value_message-cases r f slot none small born = inl refl
  value_message-cases r f slot (some s) small born = elim (Bool-cases s.assigned) [
    | inr q ↦ inl (rw q refl)
    | inl q ↦ elim (Bool-cases (slot == global_slot)) [
      | inl w ↦ rw (q, w) (inr (_, refl, refl, refl))
      | inr w ↦ rw (q, w, wire_callsign_unborn r.table slot small born) (inl refl)
    ]
  ]

  with_message-All :
      (P : Message → Type 0) (o : Option Message) (ms : List Message)
      → (o ≡ none) ⊎ ((m : Message) × (o ≡ some m) × P m)
      → All P ms
      → All P (with_message format_f64 parse_f64 o ms)
  with_message-All P o ms (inl e) h = rw (e, with_message) h
  with_message-All P o ms (inr (m, e, p)) h = rw (e, with_message) (p, h)

  shared :
      (r : Registry) (i slot : ℕ) (s : Option Slot)
      → slot < 2 ^ 32
      → AreBorn r.table
      → (leb (length r.fields) i || not (sync_eligible r (field_def r i))) ≡ false
      → let o = value_message format_f64 parse_f64 r (field_def r i) slot s in
        (o ≡ none) ⊎ ((m : Message) × (o ≡ some m) × IsGlobalShare r m)
  shared r i slot s small born allowed =
      elim (value_message-cases r (field_def r i) slot s small born) [
        | inl e ↦ inl e
        | inr (m, e, named, plain) ↦
            let (inside, eligible) =
              both_false (leb (length r.fields) i) (sync_eligible r (field_def r i)) allowed in
            inr (m, e, (i, ground (arith, inside), eligible, named, plain))
      ]

  flush_batch-IsGlobalShare :
      (config : RelayConfig) (batch counts : List (ℕ × ℕ)) (r : Registry)
      → AreBorn r.table
      → All (IsGlobalShare r) (flush_batch format_f64 parse_f64 config batch counts r).1
  unfolding flush_batch sync_eligible
  flush_batch-IsGlobalShare config [] counts r born = tt
  flush_batch-IsGlobalShare config ((key, revision) ∷ batch) counts r born =
      let i = key / 2 ^ 32 in
      let f = field_def r i in
      elim (Bool-cases (leb (length r.fields) i || not (sync_eligible r f))) [
        | inl q ↦ rw q (flush_batch-IsGlobalShare config batch counts r born)
        | inr q ↦ elim (Bool-cases (leb config.max_keys (count_or (lookup f.provider counts)))) [
          | inl w ↦
              rw (q, w)
                (flush_batch-IsGlobalShare config batch _
                  (record r { relay_rejected = (r.relay_rejected + 1) % 2 ^ 64 }) born)
          | inr w ↦
              rw (q, w)
                (with_message-All (IsGlobalShare r) _ _
                  (shared r i (key % 2 ^ 32) _ (omega arith) born q)
                  (flush_batch-IsGlobalShare config batch _ r born))
        ]
      ]

  flush_if_due-IsGlobalShare :
      (relay : Option RelayConfig) (now : ℕ) (r : Registry)
      → AreBorn r.table
      → All (IsGlobalShare r) (flush_if_due format_f64 parse_f64 relay now r).1
  unfolding flush_if_due sync_eligible
  flush_if_due-IsGlobalShare none now r born = tt
  flush_if_due-IsGlobalShare (some config) now r born = elim (Bool-cases (length r.outbox == 0)) [
    | inl q ↦ rw q tt
    | inr q ↦
        elim (Bool-cases (ltb ((now + 2 ^ 64 - r.last_outbox_ms) % 2 ^ 64) (interval config))) [
          | inl w ↦ rw (q, w) tt
          | inr w ↦
              rw (q, w)
                (flush_batch-IsGlobalShare config (by_key r.outbox) []
                  (record r { last_outbox_ms = now; outbox = [] }) born)
        ]
  ]

-- Nothing leaves for the peers unless its author marked the field for sharing and the user allowed the
-- provider: each message of a flush is that of a field of the registry that is eligible at that time. And as
-- the callsign is asked with the generation 0, which no slot of the table has, each is of a value without an
-- aircraft, whatever waits in the outbox.
pub flush_outbox-IsGlobalShare :
    (format_f64 : ℕ → Bytes) (parse_f64 : Bytes → Option (ℕ × Bytes)) (now : ℕ) (r : Registry)
    → AreBorn r.table
    → All (IsGlobalShare r) (flush_outbox format_f64 parse_f64 now r).1
unfolding flush_outbox
flush_outbox-IsGlobalShare format_f64 parse_f64 now r born =
    flush_if_due-IsGlobalShare format_f64 parse_f64 r.relay now r born
