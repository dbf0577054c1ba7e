-- ===== src/Registry/State/Restart.antt =====
-- A value that was saved is written back when its provider registers again: SaveState, LoadState and
-- RestoreStagedFor of src/Registry.cpp, one after the other.
use euroscope_plugin_bridge.Prelude.{
  ℕ, ◌≡◌, refl, ap, ◌∙◌, true, false, not, ◌&&◌, [], some, ◌==◌, ltb, length, arith,
}
use euroscope_plugin_bridge.Prelude.Maps.{lookup, insert, lookup-insert, erase, nat_eq, bytes_key}
use euroscope_plugin_bridge.Mqtt.{is_empty}
use euroscope_plugin_bridge.Value.{Slot}
use euroscope_plugin_bridge.Schema.{FieldDef, scope_global, is_persist}
use euroscope_plugin_bridge.AircraftTable.{aircraft_none}
use euroscope_plugin_bridge.Json.{JsonValue, is_object, set}
use euroscope_plugin_bridge.Json.Double.{Double}
use euroscope_plugin_bridge.Json.Parser.{parse}
use euroscope_plugin_bridge.Registry.{Registry, StagedValue, field_def, tick, with_revision}
use euroscope_plugin_bridge.Registry.Register.{restored, restore_value, restore_field}
use euroscope_plugin_bridge.Registry.State.{
  loaded, state_text, slot_value, load_state, restore_live,
}
use euroscope_plugin_bridge.Registry.State.Entries.{DoubleLaws, remembered_slot}
use euroscope_plugin_bridge.Registry.State.Fields.{name_of, IsSaved, Apart}
use euroscope_plugin_bridge.Registry.State.Survives.{
  IsPlain, IsKept, global_survives, parse-state_text, root,
}

-- The field that is declared again takes a value of the type and length.
pub record Takes (f : FieldDef) (v : StagedValue) : Type 0 where
  pub persist : is_persist f.flags ≡ true
  pub global : (f.scope == scope_global) ≡ true
  pub same_type : (v.type == f.type) ≡ true
  pub short_enough : ((not (f.max_bytes == 0)) && ltb f.max_bytes (length v.bytes)) ≡ false

module _ (notify : Registry → ℕ → ℕ → Registry) where
  restore_value-Takes :
      (r : Registry) (provider i : ℕ) (v : StagedValue)
      → Takes (field_def r i) v
      → (r' : Registry) × (restore_value notify r provider i v ≡ notify r' i aircraft_none)
        × (lookup i r'.globals ≡ some (restored v (tick r)))
  unfolding restore_value
  restore_value-Takes r provider i v h =
      let r' = record r {
        clock = tick r;
        globals = insert i (restored v (tick r)) r.globals;
        providers = with_revision r.providers provider (tick r);
      } in
      (
        r',
        ground (arith, h.same_type, h.short_enough),
        lookup-insert i i (restored v (tick r)) r.globals ∙ ground arith,
      )

  restore_field-Takes :
      (r : Registry) (provider i : ℕ) (v : StagedValue)
      → lookup (name_of r i) r.staged ≡ some v
      → Takes (field_def r i) v
      → restore_field notify r provider i
        ≡ restore_value notify (record r { staged = erase (name_of r i) r.staged }) provider i v
  unfolding restore_field
  restore_field-Takes r provider i v e h = ground (arith, e, h.persist, h.global)

  module _ (d : Double) (laws : DoubleLaws d) where
    -- At the start, when no provider has registered, LoadState only stages the values.
    load_state-staged :
        (r fresh : Registry)
        → IsPlain d r
        → fresh.providers ≡ []
        → is_empty fresh.state_path ≡ false
        → (load_state d notify (some (state_text d r)) fresh).0.staged
          ≡ loaded d (parse d (state_text d r)).0
    unfolding load_state restore_live root set
    load_state-staged r fresh h none_yet path =
        let readable : is_object (parse d (state_text d r)).0 ≡ true =
          ap (λ p. is_object p.0) (parse-state_text d laws r h) in
        let count : length fresh.providers ≡ 0 = ap length none_yet in
        rw (path, readable, count) refl

    -- A value survives a restart. A registry holds an assigned value, of one of the five types, of a persisted
    -- global field, no two fields that hold a value have one name, whole numbers lie within 2 ^ 53, bytes below
    -- 256 and doubles are read back from their texts. The next session loads the text of that state before any
    -- provider has registered, with a path for the state file, and later, with the staged values as they were
    -- loaded, restores the values of a provider that has declared a field of that name, persisted and global,
    -- with the type of the value and room for it. Then the field holds the value: its type, number (a flag as 0
    -- or 1), double and bytes, as a new write, of which the subscribers are told.
    pub restore_field-saved :
        (r fresh later : Registry) (i j provider : ℕ) (s : Slot) (v : JsonValue)
        → IsPlain d r
        → Apart r r.globals
        → lookup i r.globals ≡ some s
        → IsSaved r i s
        → slot_value d s ≡ some v
        → IsKept s.type s.i64 s.bytes
        → fresh.providers ≡ []
        → is_empty fresh.state_path ≡ false
        → later.staged ≡ (load_state d notify (some (state_text d r)) fresh).0.staged
        → name_of later j ≡ name_of r i
        → Takes (field_def later j) (remembered_slot s)
        → (r' : Registry) × (restore_field notify later provider j ≡ notify r' j aircraft_none)
          × (lookup j r'.globals ≡ some (restored (remembered_slot s) (tick later)))
    restore_field-saved r fresh later i j provider s v h apart held saved e kept none_yet path same
          named takes =
        let found : lookup (name_of later j) later.staged ≡ some (remembered_slot s) =
          ap (λ staged. lookup (name_of later j) staged)
            (same ∙ load_state-staged r fresh h none_yet path)
          ∙ ap (λ k. lookup k (loaded d (parse d (state_text d r)).0)) named
          ∙ global_survives d laws r i s v h apart held saved e kept in
        let (r', restoring, there) =
          restore_value-Takes (record later { staged = erase (name_of later j) later.staged })
            provider j (remembered_slot s) takes in
        (
          r',
          restore_field-Takes later provider j (remembered_slot s) found takes ∙ restoring,
          there,
        )
