-- ===== src/Registry/Remote/Held.antt =====
-- What was taken from a peer is what a plugin reads: ApplyRemote and GetRemote of src/Registry.cpp.
use euroscope_plugin_bridge.Prelude.{
  ℕ, suc, ◌-◌, ◌<◌, ◌≡◌, ◌⊎◌, refl, sym, ap, subst, get_or, ◌∙◌, Bool, true, false, not, ◌||◌, ◌&&◌,
  List, [], ◌∷◌, Option, none, some, ltb, ◌==◌, ==_iff, arith, length, Bool-cases, inl, inr,
  bytes_eq, bytes_eq_refl, bytes_eq_iff,
}
use euroscope_plugin_bridge.Prelude.Maps.{lookup, insert, lookup-insert, bytes_key, nat_eq}
use euroscope_plugin_bridge.Mqtt.{is_empty}
use euroscope_plugin_bridge.Text.{Bytes}
use euroscope_plugin_bridge.Value.{Value, Slot, read_slot}
use euroscope_plugin_bridge.Value.Read.{read_slot-revision}
use euroscope_plugin_bridge.Schema.{fresh_field, scope_global, scope_aircraft, is_sync}
use euroscope_plugin_bridge.Relay.{Message}
use euroscope_plugin_bridge.Registry.{
  Registry, RemoteEntry, global_slot, aircraft_key, tick, provider_at, field_def, field,
}
use euroscope_plugin_bridge.Registry.Payload.{decode_payload}
use euroscope_plugin_bridge.Registry.Remote.{
  apply_remote, apply_field, apply_value, apply_at, touch_peer, merge, entry_of, entries_or,
  entry_from, get_remote, read_entry,
}
use euroscope_plugin_bridge.Registry.Remote.Allowed.{clash}
use euroscope_plugin_bridge.Registry.Remote.Accepted.{apply_remote-SameLocal}

-- The entry of the peer is the new value, and the entries of the others are what they were.
pub record IsMerged (m : Message) (value : Slot) (es es' : List RemoteEntry) : Type 0 where
  pub own : entry_from m.peer es' ≡ some value
  pub others :
      (name : Bytes) → bytes_eq m.peer name ≡ false → entry_from name es' ≡ entry_from name es

new-IsMerged :
    (m : Message) (value : Slot) (now : ℕ) → IsMerged m value [] (entry_of m value now ∷ [])
unfolding entry_from
new-IsMerged m value now = record {
  own = rw (bytes_eq_refl m.peer) refl;
  others = λ name ne. rw ne refl;
}

replaced-IsMerged :
    (m : Message) (value : Slot) (now : ℕ) (e : RemoteEntry) (es : List RemoteEntry)
    → bytes_eq e.peer m.peer ≡ true
    → IsMerged m value (e ∷ es) (entry_of m value now ∷ es)
unfolding entry_from
replaced-IsMerged m value now e es q =
    let named : e.peer ≡ m.peer = (bytes_eq_iff e.peer m.peer).0 q in
    record {
      own = rw (bytes_eq_refl m.peer) refl;
      others = λ name ne. rw (ne, ap (λ p. bytes_eq p name) named ∙ ne) refl;
    }

behind-IsMerged :
    (m : Message) (value : Slot) (e : RemoteEntry) (es es' : List RemoteEntry)
    → bytes_eq e.peer m.peer ≡ false
    → IsMerged m value es es'
    → IsMerged m value (e ∷ es) (e ∷ es')
unfolding entry_from
behind-IsMerged m value e es es' q h = record {
  own = rw q h.own;
  others = λ name ne. elim (Bool-cases (bytes_eq e.peer name)) [
    | inl w ↦ rw w refl
    | inr w ↦ rw w (h.others name ne)
  ];
}

merge-cases :
    (m : Message) (value : Slot) (now : ℕ) (es : List RemoteEntry)
    → (merge m value now es ≡ none)
      ⊎ ((es' : List RemoteEntry) × (merge m value now es ≡ some es') × IsMerged m value es es')
unfolding merge
merge-cases m value now [] = inr (entry_of m value now ∷ [], refl, new-IsMerged m value now)
merge-cases m value now (e ∷ es) = elim (Bool-cases (bytes_eq e.peer m.peer)) [
  | inl q ↦ elim (Bool-cases (not (m.revision == 0) && ltb m.revision e.peer_revision)) [
    | inl w ↦ inl (rw (q, w) refl)
    | inr w ↦ inr (entry_of m value now ∷ es, rw (q, w) refl, replaced-IsMerged m value now e es q)
  ]
  | inr q ↦ elim (merge-cases m value now es) [
    | inl w ↦ inl (rw (q, w) refl)
    | inr (es', w, h) ↦ inr (e ∷ es', rw (q, w) refl, behind-IsMerged m value e es es' q h)
  ]
]

-- The value that a peer is held to have, at a key.
abbrev pub held : Registry → ℕ → Bytes → Option Slot
held r key name = entry_from name (entries_or (lookup key r.remote))

lookup-insert_self :
    (k : ℕ) (es : List RemoteEntry) (m : List (ℕ × List RemoteEntry))
    → entries_or (lookup k (insert k es m)) ≡ es
lookup-insert_self k es m =
    let here : (k == k) ≡ true = (==_iff k k).1 refl in rw (lookup-insert k k es m, here) refl

apply_at-held :
    (r : Registry) (m : Message) (now i slot : ℕ) (value : Slot)
    → (apply_at r m now i slot value).1 ≡ true
    → let r' = (apply_at r m now i slot value).0 in
      let key = aircraft_key i slot in
      (held r' key m.peer ≡ some (record value { revision = tick r }))
      × ((name : Bytes) → bytes_eq m.peer name ≡ false → held r' key name ≡ held r key name)
unfolding apply_at
apply_at-held r m now i slot value h =
    let key = aircraft_key i slot in
    let entries = entries_or (lookup key r.remote) in
    let stamped = record value { revision = tick r } in
    elim (merge-cases m stamped now entries) [
      | inl q ↦ clash (apply_at r m now i slot value).1 (rw (q, apply_at) refl) h
      | inr (es', q, merged) ↦
          let back = lookup-insert_self key es' r.remote in
          rw (q, apply_at) (rw back merged.own, λ name ne. rw back (merged.others name ne))
    ]

apply_at-clock :
    (r : Registry) (m : Message) (now i slot : ℕ) (value : Slot)
    → (apply_at r m now i slot value).0.clock ≡ tick r
unfolding apply_at
apply_at-clock r m now i slot value =
    let entries = entries_or (lookup (aircraft_key i slot) r.remote) in
    let stamped = record value { revision = tick r } in
    elim (merge-cases m stamped now entries) [
      | inl q ↦ rw (q, apply_at) refl
      | inr (es', q, merged) ↦ rw (q, apply_at) refl
    ]

-- A global field and no callsign: what was taken is stored under the slot of global values.
apply_value-global :
    (r : Registry) (m : Message) (now i : ℕ) (value : Slot)
    → (field_def r i).scope ≡ scope_global
    → (apply_value r m now i value).1 ≡ true
    → apply_value r m now i value ≡ apply_at r m now i global_slot value
unfolding apply_value
apply_value-global r m now i value scoped h =
    let fd = field_def r i in
    let taken = (apply_value r m now i value).1 in
    let no_aircraft : (fd.scope == scope_aircraft) ≡ false = rw scoped refl in
    elim (Bool-cases (not (fd.max_bytes == 0) && ltb fd.max_bytes (length value.bytes))) [
      | inl q ↦ clash taken (rw q refl) h
      | inr q ↦ elim (Bool-cases (is_empty m.callsign)) [
        | inl w ↦ rw (q, no_aircraft, w) refl
        | inr w ↦ clash taken (rw (q, no_aircraft, w) refl) h
      ]
    ]

field_inside : (r : Registry) (i : ℕ) → i < length r.fields → field r (suc i) ≡ some (field_def r i)
unfolding field
field_inside r i h =
    let one_less : suc i - 1 ≡ i = omega arith in
    let nonzero : ((suc i == 0) || ltb (length r.fields) (suc i)) ≡ false = ground arith in
    rw (nonzero, one_less) refl

get_remote-held :
    (r : Registry) (i a : ℕ) (name : Bytes) (out : Value) (io : Option ℕ) (buf : Bool)
    → i < length r.fields
    → (field_def r i).scope ≡ scope_global
    → get_remote true r (suc i) a (some name) out io buf
      ≡ read_entry (held r (aircraft_key i global_slot) name) out io buf
unfolding get_remote
get_remote-held r i a name out io buf inside scoped =
    let no_aircraft : ((field_def r i).scope == scope_aircraft) ≡ false = rw scoped refl in
    let one_less : suc i - 1 ≡ i = omega arith in
    rw (field_inside r i inside, get_remote) (rw no_aircraft (rw one_less refl))

module _ (format_f64 : ℕ → Bytes) (parse_f64 : Bytes → Option (ℕ × Bytes)) where
  apply_field-value :
      (r : Registry) (m : Message) (now i : ℕ) (value : Slot)
      → decode_payload format_f64 parse_f64 m.type m.payload ≡ some value
      → (apply_field format_f64 parse_f64 r m now i).1 ≡ true
      → apply_field format_f64 parse_f64 r m now i ≡ apply_value r m now i value
  unfolding apply_field
  apply_field-value r m now i value decoded h =
      let fd = field_def r i in
      let taken = (apply_field format_f64 parse_f64 r m now i).1 in
      elim (Bool-cases (provider_at r fd.provider).live) [
        | inr q ↦ clash taken (rw q refl) h
        | inl q ↦ elim (Bool-cases (is_sync fd.flags)) [
          | inr w ↦ clash taken (rw (q, w) refl) h
          | inl w ↦ elim (Bool-cases (fd.type == m.type)) [
            | inr v ↦ clash taken (rw (q, w, v) refl) h
            | inl v ↦ rw (q, w, v, decoded) refl
          ]
        ]
      ]

  apply_remote-global :
      (r : Registry) (m : Message) (now i : ℕ) (value : Slot)
      → lookup m.qualified r.field_index ≡ some i
      → decode_payload format_f64 parse_f64 m.type m.payload ≡ some value
      → (field_def r i).scope ≡ scope_global
      → (apply_remote format_f64 parse_f64 r m now).1 ≡ true
      → let touched = record r { peers = touch_peer r.peers m.peer now } in
        apply_remote format_f64 parse_f64 r m now ≡ apply_at touched m now i global_slot value
  unfolding apply_remote
  apply_remote-global r m now i value found decoded scoped h =
      let touched = record r { peers = touch_peer r.peers m.peer now } in
      let here : apply_remote format_f64 parse_f64 r m now
          ≡ apply_field format_f64 parse_f64 touched m now i =
        rw (found, apply_remote) refl in
      let taken = ap (λ x. x.1) (sym here) ∙ h in
      let there = apply_field-value touched m now i value decoded taken in
      here
      ∙ there
      ∙ apply_value-global touched m now i value scoped (ap (λ x. x.1) (sym there) ∙ taken)

  -- What a peer publishes for a global field of the index, with a payload that decodes, is what GetRemote
  -- reads under that peer's name, once ApplyRemote has taken it: the value that the payload stands for. The
  -- value is held with this registry's next revision, to which the clock has moved, and not with the
  -- peer's. Under any other name GetRemote reads what it read before.
  pub get_remote-apply_remote :
      (r : Registry) (m : Message) (now i a : ℕ) (value : Slot) (out : Value) (io : Option ℕ)
      (buf : Bool)
      → lookup m.qualified r.field_index ≡ some i
      → i < length r.fields
      → (field_def r i).scope ≡ scope_global
      → decode_payload format_f64 parse_f64 m.type m.payload ≡ some value
      → (apply_remote format_f64 parse_f64 r m now).1 ≡ true
      → let r' = (apply_remote format_f64 parse_f64 r m now).0 in
        (get_remote true r' (suc i) a (some m.peer) out io buf ≡ read_slot value out io buf)
        × (held r' (aircraft_key i global_slot) m.peer ≡ some (record value { revision = tick r }))
        × (r'.clock ≡ tick r)
        × ((name : Bytes)
            → bytes_eq m.peer name ≡ false
            → get_remote true r' (suc i) a (some name) out io buf
              ≡ get_remote true r (suc i) a (some name) out io buf)
  unfolding get_remote
  get_remote-apply_remote r m now i a value out io buf found inside scoped decoded h =
      let r' = (apply_remote format_f64 parse_f64 r m now).0 in
      let touched = record r { peers = touch_peer r.peers m.peer now } in
      let applied = apply_remote-global r m now i value found decoded scoped h in
      let same = (apply_remote-SameLocal format_f64 parse_f64 r m now).same_fields in
      let (own, others) =
        apply_at-held touched m now i global_slot value (ap (λ x. x.1) (sym applied) ∙ h) in
      let inside' : i < length r'.fields = subst (λ fs. i < length fs) (sym same) inside in
      let scoped' = ap (λ fs. (get_or fs i fresh_field).scope) same ∙ scoped in
      let key = aircraft_key i global_slot in
      let there = ap (λ x. held x.0 key) applied in
      let stored = ap (λ g. g m.peer) there ∙ own in
      (
        get_remote-held r' i a m.peer out io buf inside' scoped'
            ∙ ap (λ s. read_entry s out io buf) stored
            ∙ read_slot-revision value (tick r) out io buf,
        stored,
        ap (λ x. x.0.clock) applied ∙ apply_at-clock touched m now i global_slot value,
        λ name ne.
            get_remote-held r' i a name out io buf inside' scoped'
            ∙ ap (λ s. read_entry s out io buf) (ap (λ g. g name) there ∙ others name ne)
            ∙ sym (get_remote-held r i a name out io buf inside scoped),
      )
