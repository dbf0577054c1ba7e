-- ===== src/Registry/State/Tests.antt =====
-- The state file at a registry that holds a value of each kind, and the theorems at it.
use euroscope_plugin_bridge.Prelude.{
  Bool, true, false, [], ◌∷◌, some, none, ◌≡◌, ◌⊎◌, take, length, refl, inl, arith, bytes_eq,
}
use euroscope_plugin_bridge.Prelude.Maps.{lookup, nat_eq, bytes_key}
use euroscope_plugin_bridge.Text.{codes, hex_pair}
use euroscope_plugin_bridge.Registry.Payload.{hex_text}
use euroscope_plugin_bridge.Value.{Slot, fresh_slot, t_i64, t_blob}
use euroscope_plugin_bridge.Schema.{FieldDef, fresh_field, scope_global, is_persist}
use euroscope_plugin_bridge.Json.{string, has, find, set}
use euroscope_plugin_bridge.Json.Parser.{parse}
use euroscope_plugin_bridge.Json.Tests.{whole_numbers, whole_numbers-IsReadable}
use euroscope_plugin_bridge.Registry.{Registry, StagedValue}
use euroscope_plugin_bridge.Registry.Tests.{start}
use euroscope_plugin_bridge.Registry.State.{
  loaded, state_text, slot_value, payload_value, staged_value, save_globals, save_global, set_entry,
  Attempt, Disk, flush_state_if_due, save_state,
}
use euroscope_plugin_bridge.Registry.State.Entries.{DoubleLaws, remembered_slot, remembered_staged}
use euroscope_plugin_bridge.Registry.State.Survives.{IsPlain, global_survives, staged_survives}
use euroscope_plugin_bridge.Registry.State.Flush.{flush_state_if_due-writes, save_state_outcome}
use euroscope_plugin_bridge.Registry.State.Restart.{restore_field-saved}
use euroscope_plugin_bridge.Registry.Register.{restored, restore_field}
use euroscope_plugin_bridge.AircraftTable.{aircraft_none}
use euroscope_plugin_bridge.Registry.{tick}
use euroscope_plugin_bridge.Registry.State.{load_state}
use euroscope_plugin_bridge.Prelude.{ℕ}

whole_numbers-DoubleLaws : DoubleLaws whole_numbers
whole_numbers-DoubleLaws = record { exact = λ n h. refl; readable = whole_numbers-IsReadable }

abbrev tobt : FieldDef
tobt = record fresh_field {
  qualified = codes "cdm/tobt";
  type = 1;
  scope = scope_global;
  flags = 2;
}

abbrev note : FieldDef
note = record fresh_field {
  qualified = codes "cdm/note";
  type = 5;
  scope = scope_global;
  flags = 2;
}

abbrev held_tobt : Slot
held_tobt = record fresh_slot { type = t_i64; assigned = true; i64 = 742 }

abbrev held_note : Slot
held_note = record fresh_slot { type = t_blob; assigned = true; bytes = 10 ∷ 255 ∷ [] }

abbrev staged_text : StagedValue
staged_text = record { type = 4; i64 = 0; f64 = 0; bytes = codes "hi" }

abbrev held : Registry
held = record start {
  fields = tobt ∷ note ∷ [];
  globals = (0, held_tobt) ∷ (1, held_note) ∷ [];
  staged = (codes "old/text", staged_text) ∷ [];
}

held-IsPlain : IsPlain whole_numbers held
held-IsPlain =
    let zero_readable = whole_numbers-IsReadable 0 (omega arith) in
    record {
      globals = (
        record { kind = omega arith; whole = omega arith; readable = zero_readable },
        (record { kind = omega arith; whole = omega arith; readable = zero_readable }, tt),
      );
      staged = (record { kind = omega arith; whole = omega arith; readable = zero_readable }, tt);
    }

global_survives_run :
    lookup
      (codes "cdm/note")
      (loaded whole_numbers (parse whole_numbers (state_text whole_numbers held)).0)
    ≡ some (remembered_slot held_note)
unfolding bytes_eq lookup slot_value payload_value hex_text hex_pair is_persist
global_survives_run =
    global_survives whole_numbers whole_numbers-DoubleLaws held 1 held_note (string (codes "0aff"))
      held-IsPlain ((refl, tt), (tt, tt)) refl
      (record { declared = omega arith; persist = refl; global = refl; assigned = refl }) refl
      (record {
        kind = omega arith;
        whole = inl (omega arith);
        in_range = (omega arith, (omega arith, tt));
      })

staged_survives_example :
    lookup
      (codes "old/text")
      (loaded whole_numbers (parse whole_numbers (state_text whole_numbers held)).0)
    ≡ some (remembered_staged staged_text)
unfolding lookup bytes_eq has find save_globals save_global set_entry set slot_value payload_value
    staged_value is_persist
staged_survives_example =
    staged_survives whole_numbers whole_numbers-DoubleLaws held (codes "old/text") staged_text
      (string (codes "hi")) held-IsPlain refl refl refl
      (record {
        kind = omega arith;
        whole = inl (omega arith);
        in_range = (omega arith, (omega arith, tt));
      })

abbrev changed : Registry
changed = record start { state_dirty = true }

abbrev working : Attempt
working = record {
  opened = true;
  written = length (state_text whole_numbers changed);
  removed = true;
  renamed = true;
}

abbrev empty_disk : Disk
empty_disk = record { state = none; temp = none }

flush_state_if_due-writes_example :
    let (r', disk') = flush_state_if_due whole_numbers working 6000 changed empty_disk in
    (disk'.state ≡ some (state_text whole_numbers changed))
    × (r'.state_dirty ≡ false)
    × (r'.last_state_flush_ms ≡ 6000)
flush_state_if_due-writes_example =
    flush_state_if_due-writes whole_numbers working 6000 changed empty_disk refl (omega arith)
      (record { opened = refl; whole = omega arith; renamed = refl }) refl

abbrev unrenamed : Attempt
unrenamed = record { opened = true; written = 10000; removed = true; renamed = false }

save_state_outcome_example :
    let (r', disk', done) = save_state whole_numbers unrenamed held empty_disk in
    ((done ≡ true)
      × (disk'.state ≡ some (take 10000 (state_text whole_numbers held)))
      × (r' ≡ record held { state_dirty = false }))
    ⊎ ((done ≡ false)
        × (r' ≡ held)
        × ((disk'.state ≡ none)
            ⊎ ((disk'.state ≡ none)
                × (◌≡◌ {A = Bool} true true)
                × (◌≡◌ {A = Bool} true true)
                × (◌≡◌ {A = Bool} false false))))
save_state_outcome_example = save_state_outcome whole_numbers unrenamed held empty_disk

abbrev fresh : Registry
fresh = record start { providers = [] }

abbrev quiet : Registry → ℕ → ℕ → Registry
quiet r i a = r

-- The next session has the field at another index.
abbrev later : Registry
later = record start {
  fields = note ∷ [];
  staged = (load_state whole_numbers quiet (some (state_text whole_numbers held)) fresh).0.staged;
}

restore_field-saved_example :
    (r' : Registry) × (restore_field quiet later 0 0 ≡ quiet r' 0 aircraft_none)
    × (lookup 0 r'.globals ≡ some (restored (remembered_slot held_note) (tick later)))
unfolding bytes_eq lookup slot_value payload_value hex_text hex_pair is_persist remembered_slot
restore_field-saved_example =
    restore_field-saved quiet whole_numbers whole_numbers-DoubleLaws held fresh later 1 0 0
      held_note (string (codes "0aff")) held-IsPlain ((refl, tt), (tt, tt)) refl
      (record { declared = omega arith; persist = refl; global = refl; assigned = refl }) refl
      (record {
        kind = omega arith;
        whole = inl (omega arith);
        in_range = (omega arith, (omega arith, tt));
      })
      refl refl refl refl
      (record { persist = refl; global = refl; same_type = refl; short_enough = refl })
