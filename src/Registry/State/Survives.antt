-- ===== src/Registry/State/Survives.antt =====
-- What LoadState of src/Registry.cpp stages from a file that SaveState wrote.
use euroscope_plugin_bridge.Prelude.{
  ℕ, ◌<◌, ◌^◌, ◌≡◌, refl, sym, ap, ◌∙◌, Bool, true, false, List, [], ◌∷◌, Option, none, some,
  if◌then◌else◌, All, arith, Bool-cases, inl, inr, bytes_eq, bytes_eq_iff, subst, ◌==◌,
}
use euroscope_plugin_bridge.Prelude.Maps.{lookup, lookup-insert, nat_eq, bytes_key}
use euroscope_plugin_bridge.Text.{Bytes, codes}
use euroscope_plugin_bridge.Value.{Slot, t_bool}
use euroscope_plugin_bridge.Json.{
  JsonValue, object, Members, no_members, member, members, find, set, at, has,
}
use euroscope_plugin_bridge.Json.Double.{Double}
use euroscope_plugin_bridge.Json.Sorted.{Above, IsSorted, bytes_lt_asym}
use euroscope_plugin_bridge.Json.Parser.{parse}
use euroscope_plugin_bridge.Json.Writer.Writable.{IsWritable}
use euroscope_plugin_bridge.Json.Writer.RoundTrip.{parse-write}
use euroscope_plugin_bridge.Registry.{Registry, StagedValue}
use euroscope_plugin_bridge.Registry.State.{
  integer, entry_of, slot_value, staged_value, save_globals, save_staged, saved_fields, state_text,
  load_entry, load_members, add_staged, loaded, set_entry, save_global, save_staged_value,
}
use euroscope_plugin_bridge.Registry.State.Entries.{
  DoubleLaws, IsExact, remembered_slot, remembered_staged, load_entry-entry_of,
}
use euroscope_plugin_bridge.Registry.State.Fields.{
  name_of, IsSaved, Apart, find-save_globals, find-save_staged_kept, find-save_staged,
}
use euroscope_plugin_bridge.Registry.State.Readable.{
  IsFields, IsPlainSlot, IsPlainStaged, none-IsFields, set-IsFields, number-IsWritable,
  save_globals-IsFields, save_staged-IsFields,
}

find-Above : (k : Bytes) (ms : Members) → Above k ms → find k ms ≡ none
unfolding find
find-Above k no_members h = refl
find-Above k (member j w ms) h =
    ground (arith, bytes_lt_asym k j h.0, bytes_eq_iff j k, bytes_eq_iff k j, find-Above k ms h.1)

-- What an entry stages over what was there.
abbrev recall : Double → Option JsonValue → Option StagedValue → Option StagedValue
recall d none other = other
recall d (some entry) other = elim (load_entry d entry) [ none ↦ other | some v ↦ some v ]

lookup-add_staged :
    (key k : Bytes) (o : Option StagedValue) (staged : List (Bytes × StagedValue))
    → lookup k (add_staged key o staged) ≡ (
        if bytes_eq key k
        then elim o [ none ↦ lookup k staged | some v ↦ some v ]
        else lookup k staged)
lookup-add_staged key k none staged = ground arith
lookup-add_staged key k (some v) staged = lookup-insert key k v staged

lookup-load_members :
    (d : Double) (k : Bytes) (ms : Members) (staged : List (Bytes × StagedValue))
    → IsSorted ms
    → lookup k (load_members d ms staged) ≡ recall d (find k ms) (lookup k staged)
unfolding load_members find
lookup-load_members d k no_members staged h = refl
lookup-load_members d k (member j e ms) staged h =
    lookup-load_members d k ms (add_staged j (load_entry d e) staged) h.1
    ∙ elim (Bool-cases (bytes_eq j k)) [
      | inl q ↦
          (let above : Above k ms = subst (λ i. Above i ms) ((bytes_eq_iff j k).0 q) h.0 in
            rw (find-Above k ms above, lookup-add_staged j k (load_entry d e) staged, q) refl)
      | inr q ↦ rw (lookup-add_staged j k (load_entry d e) staged, q) refl
    ]

abbrev IsObjectValue : JsonValue → Type 0
IsObjectValue v = v ≡ object (members v)

set_entry-IsObjectValue :
    (d : Double) (fields : JsonValue) (key : Bytes) (type : ℕ) (o : Option JsonValue)
    → IsObjectValue fields
    → IsObjectValue (set_entry d fields key type o)
unfolding set
set_entry-IsObjectValue d fields key type none h = h
set_entry-IsObjectValue d fields key type (some v) h = refl

save_globals-IsObjectValue :
    (d : Double) (r : Registry) (fields : JsonValue) (globals : List (ℕ × Slot))
    → IsObjectValue fields
    → IsObjectValue (save_globals d r fields globals)
unfolding save_globals save_global
save_globals-IsObjectValue d r fields [] h = h
save_globals-IsObjectValue d r fields ((i, s) ∷ globals) h =
    save_globals-IsObjectValue d r (save_global d r fields i s) globals
      (ground (arith, h, set_entry-IsObjectValue d fields (name_of r i) s.type (slot_value d s) h))

save_staged-IsObjectValue :
    (d : Double) (fields : JsonValue) (staged : List (Bytes × StagedValue))
    → IsObjectValue fields
    → IsObjectValue (save_staged d fields staged)
unfolding save_staged save_staged_value
save_staged-IsObjectValue d fields [] h = h
save_staged-IsObjectValue d fields ((key, v) ∷ staged) h =
    save_staged-IsObjectValue d (save_staged_value d fields key v) staged
      (ground (arith, h, set_entry-IsObjectValue d fields key v.type (staged_value d v) h))

-- What is held is within what the file can hold.
pub record IsPlain (d : Double) (r : Registry) : Type 0 where
  pub globals : All (IsPlainSlot d) r.globals
  pub staged : All (IsPlainStaged d) r.staged

saved_fields-IsFields :
    (d : Double) (laws : DoubleLaws d) (r : Registry) → IsPlain d r → IsFields d (saved_fields d r)
unfolding saved_fields
saved_fields-IsFields d laws r h =
    save_staged-IsFields d laws (save_globals d r (object no_members) r.globals) r.staged h.staged
      (save_globals-IsFields d laws r (object no_members) r.globals h.globals (none-IsFields d))

saved_fields-IsWritable :
    (d : Double) (laws : DoubleLaws d) (r : Registry)
    → IsPlain d r
    → IsWritable d (saved_fields d r)
unfolding saved_fields
saved_fields-IsWritable d laws r h =
    subst (IsWritable d)
      (sym (
        save_staged-IsObjectValue d _ r.staged
          (save_globals-IsObjectValue d r (object no_members) r.globals refl)))
      (saved_fields-IsFields d laws r h)

saved_fields-IsSorted :
    (d : Double) (laws : DoubleLaws d) (r : Registry)
    → IsPlain d r
    → IsSorted (members (saved_fields d r))
unfolding IsWritable
saved_fields-IsSorted d laws r h = (saved_fields-IsFields d laws r h).0

-- The file's value.
unfoldable pub root : Double → Registry → JsonValue
root d r =
    set (set (object no_members) (codes "version") (integer d 1)) (codes "fields")
      (saved_fields d r)

pub parse-state_text :
    (d : Double) (laws : DoubleLaws d) (r : Registry)
    → IsPlain d r
    → parse d (state_text d r) ≡ (root d r, [])
unfolding state_text root
parse-state_text d laws r h = parse-write d (root d r) true (
    unfold set in
    set-IsFields d (set (object no_members) (codes "version") (integer d 1)) (codes "fields")
      (saved_fields d r) (saved_fields-IsWritable d laws r h)
      (set-IsFields d (object no_members) (codes "version") (integer d 1)
        (number-IsWritable d (d.of_i64 1) (laws.readable 1 (omega arith))) (none-IsFields d)))

lookup-loaded :
    (d : Double) (laws : DoubleLaws d) (r : Registry) (k : Bytes)
    → IsPlain d r
    → lookup k (loaded d (parse d (state_text d r)).0)
      ≡ recall d (find k (members (saved_fields d r))) none
unfolding loaded root at set find lookup
lookup-loaded d laws r k h =
    ap (λ p. lookup k (loaded d p.0)) (parse-state_text d laws r h)
    ∙ lookup-load_members d k (members (saved_fields d r)) [] (saved_fields-IsSorted d laws r h)

recall-entry :
    (d : Double) (laws : DoubleLaws d) (r : Registry) (k : Bytes) (entry : JsonValue)
    (v : StagedValue)
    → IsPlain d r
    → find k (members (saved_fields d r)) ≡ some entry
    → load_entry d entry ≡ some v
    → lookup k (loaded d (parse d (state_text d r)).0) ≡ some v
recall-entry d laws r k entry v h e l =
    lookup-loaded d laws r k h ∙ ap (λ o. recall d o none) e ∙ rw (l, recall) refl

-- The members of a value that the file keeps: its type, its number where it is one that a double holds
-- exactly, and its bytes.
pub record IsKept (type i64 : ℕ) (bytes : List ℕ) : Type 0 where
  pub kind : type < 2 ^ 32
  pub whole : IsExact i64
  pub in_range : All (λ b. b < 256) bytes

flag-IsExact : (b : Bool) (n : ℕ) → IsExact n → IsExact (if b then (if n == 0 then 0 else 1) else n)
flag-IsExact true n h = elim (Bool-cases (n == 0)) [
  | inl q ↦ rw q (inl (omega arith))
  | inr q ↦ rw q (inl (omega arith))
]
flag-IsExact false n h = h

-- A global value that its provider persists survives a save and a load: what LoadState stages under the
-- field's name, from the text that SaveState wrote, is the value's type and payload, a flag as 0 or 1.
-- No two fields that hold a value have one name, numbers lie within 2 ^ 53, and doubles are readable.
pub global_survives :
    (d : Double) (laws : DoubleLaws d) (r : Registry) (i : ℕ) (s : Slot) (v : JsonValue)
    → IsPlain d r
    → Apart r r.globals
    → lookup i r.globals ≡ some s
    → IsSaved r i s
    → slot_value d s ≡ some v
    → IsKept s.type s.i64 s.bytes
    → lookup (name_of r i) (loaded d (parse d (state_text d r)).0) ≡ some (remembered_slot s)
global_survives d laws r i s v h apart held saved e k =
    recall-entry d laws r (name_of r i) (entry_of d s.type v) (remembered_slot s) h
      (unfold saved_fields in
        find-save_staged_kept d (save_globals d r (object no_members) r.globals) r.staged
          (name_of r i) (entry_of d s.type v)
          (find-save_globals d r (object no_members) r.globals i s v apart held saved e))
      (unfold slot_value remembered_slot in
        load_entry-entry_of d laws s.type
          (if s.type == t_bool then (if s.i64 == 0 then 0 else 1) else s.i64) s.f64 s.bytes v e
          k.kind (flag-IsExact (s.type == t_bool) s.i64 k.whole) k.in_range)

-- A value whose provider has not loaded this session is kept: what was staged under a name, as a value of one
-- of the five types, is staged again by a load of what was saved, where no field of the session is saved under
-- that name. Whole numbers lie within 2 ^ 53, bytes below 256, and doubles are read back from their texts.
pub staged_survives :
    (d : Double) (laws : DoubleLaws d) (r : Registry) (k : Bytes) (v : StagedValue) (w : JsonValue)
    → IsPlain d r
    → lookup k r.staged ≡ some v
    → has (save_globals d r (object no_members) r.globals) k ≡ false
    → staged_value d v ≡ some w
    → IsKept v.type v.i64 v.bytes
    → lookup k (loaded d (parse d (state_text d r)).0) ≡ some (remembered_staged v)
staged_survives d laws r k v w h held free e kept =
    recall-entry d laws r k (entry_of d v.type w) (remembered_staged v) h
      (unfold saved_fields in
        find-save_staged d (save_globals d r (object no_members) r.globals) r.staged k v w held free
          e)
      (unfold staged_value remembered_staged in
        load_entry-entry_of d laws v.type v.i64 v.f64 v.bytes w e kept.kind kept.whole
          kept.in_range)
