-- ===== src/Registry/Remote/Allowed.antt =====
-- What is taken from a peer: the guards of ApplyRemote of src/Registry.cpp.
use euroscope_plugin_bridge.Prelude.{
  ℕ, ◌≤◌, ◌≡◌, ◌⊎◌, refl, ◌∙◌, Bool, true, false, not, ◌&&◌, Option, some, ltb, ◌==◌, ==_iff, arith,
  length, Bool-cases, Option-cases, inl, inr,
}
use euroscope_plugin_bridge.Prelude.Maps.{lookup, bytes_key}
use euroscope_plugin_bridge.Mqtt.{is_empty}
use euroscope_plugin_bridge.Text.{Bytes}
use euroscope_plugin_bridge.Value.{Slot}
use euroscope_plugin_bridge.Schema.{scope_aircraft, is_sync}
use euroscope_plugin_bridge.Relay.{Message}
use euroscope_plugin_bridge.Registry.{Registry, provider_at, field_def}
use euroscope_plugin_bridge.Registry.Payload.{decode_payload}
use euroscope_plugin_bridge.Registry.Remote.{apply_remote, apply_field, apply_value, touch_peer}

-- The field's provider is loaded here, its author marked it for sharing, the types agree, the value is not
-- larger than the field allows, and there is a callsign just for a field of aircraft.
pub record IsAllowed (r : Registry) (m : Message) (i : ℕ) (value : Slot) : Type 0 where
  pub live : (provider_at r (field_def r i).provider).live ≡ true
  pub shared : is_sync (field_def r i).flags ≡ true
  pub typed : (field_def r i).type ≡ m.type
  pub fits : ((field_def r i).max_bytes ≡ 0) ⊎ (length value.bytes ≤ (field_def r i).max_bytes)
  pub addressed : ((field_def r i).scope == scope_aircraft) ≡ not (is_empty m.callsign)

small_enough : (most n : ℕ) → (not (most == 0) && ltb most n) ≡ false → (most ≡ 0) ⊎ (n ≤ most)
small_enough most n h = elim (Bool-cases (most == 0)) [
  | inl q ↦ inl ((==_iff most 0).0 q)
  | inr q ↦ inr (ground (arith, h, q))
]

pub clash {ℓ} : {A : Type ℓ} (b : Bool) → b ≡ false → b ≡ true → A
clash b h k = absurd (cc (h, k))

-- What the size and the scope ask for, where the result is true.
apply_value-taken :
    (r : Registry) (m : Message) (now i : ℕ) (value : Slot)
    → (apply_value r m now i value).1 ≡ true
    → (((field_def r i).max_bytes ≡ 0) ⊎ (length value.bytes ≤ (field_def r i).max_bytes))
      × (((field_def r i).scope == scope_aircraft) ≡ not (is_empty m.callsign))
unfolding apply_value
apply_value-taken r m now i value h =
    let fd = field_def r i in
    let taken = (apply_value r m now i value).1 in
    elim (Bool-cases (not (fd.max_bytes == 0) && ltb fd.max_bytes (length value.bytes))) [
      | inl q ↦ clash taken (rw q refl) h
      | inr q ↦ (
        small_enough fd.max_bytes (length value.bytes) q,
        elim (Bool-cases (fd.scope == scope_aircraft)) [
          | inl w ↦ elim (Bool-cases (is_empty m.callsign)) [
            | inl v ↦ clash taken (rw (q, w, v) refl) h
            | inr v ↦ rw (w, v) refl
          ]
          | inr w ↦ elim (Bool-cases (is_empty m.callsign)) [
            | inl v ↦ rw (w, v) refl
            | inr v ↦ clash taken (rw (q, w, v) refl) h
          ]
        ],
      )
    ]

module _ (format_f64 : ℕ → Bytes) (parse_f64 : Bytes → Option (ℕ × Bytes)) where
  apply_field-taken :
      (r : Registry) (m : Message) (now i : ℕ)
      → (apply_field format_f64 parse_f64 r m now i).1 ≡ true
      → (value : Slot) × (decode_payload format_f64 parse_f64 m.type m.payload ≡ some value)
        × IsAllowed r m i value
  unfolding apply_field
  apply_field-taken r m now i h =
      let fd = field_def r i in
      let taken = (apply_field format_f64 parse_f64 r m now i).1 in
      elim (Bool-cases (provider_at r fd.provider).live) [
        | inr q ↦ clash taken (rw q refl) h
        | inl q ↦ elim (Bool-cases (is_sync fd.flags)) [
          | inr w ↦ clash taken (rw (q, w) refl) h
          | inl w ↦ elim (Bool-cases (fd.type == m.type)) [
            | inr v ↦ clash taken (rw (q, w, v) refl) h
            | inl v ↦ elim (Option-cases (decode_payload format_f64 parse_f64 m.type m.payload)) [
              | inl u ↦ clash taken (rw (q, w, v, u) refl) h
              | inr (value, u) ↦
                  let same : (apply_value r m now i value).1 ≡ taken = rw (q, w, v, u) refl in
                  let (fits, addressed) = apply_value-taken r m now i value (same ∙ h) in
                  (
                    value,
                    u,
                    record {
                      live = q;
                      shared = w;
                      typed = (==_iff fd.type m.type).0 v;
                      fits = fits;
                      addressed = addressed;
                    },
                  )
            ]
          ]
        ]
      ]

  -- What is taken from a peer was checked first: if ApplyRemote answers true, the name is that of a field of
  -- this registry, the payload is a value of the field's type, and the field's provider is loaded, its author
  -- marked it for sharing, the value is within its bound, and a callsign is given just if the field is one of
  -- aircraft.
  pub apply_remote-IsAllowed :
      (r : Registry) (m : Message) (now : ℕ)
      → (apply_remote format_f64 parse_f64 r m now).1 ≡ true
      → (i : ℕ) × (value : Slot) × (lookup m.qualified r.field_index ≡ some i)
        × (decode_payload format_f64 parse_f64 m.type m.payload ≡ some value)
        × IsAllowed r m i value
  unfolding apply_remote
  apply_remote-IsAllowed r m now h =
      let touched = record r { peers = touch_peer r.peers m.peer now } in
      let taken = (apply_remote format_f64 parse_f64 r m now).1 in
      elim (Option-cases (lookup m.qualified r.field_index)) [
        | inl q ↦ clash taken (rw (q, apply_remote) refl) h
        | inr (i, q) ↦
            let same : (apply_field format_f64 parse_f64 touched m now i).1 ≡ taken =
              rw (q, apply_remote) refl in
            let (value, decoded, allowed) = apply_field-taken touched m now i (same ∙ h) in
            (
              i,
              value,
              q,
              decoded,
              record {
                live = allowed.live;
                shared = allowed.shared;
                typed = allowed.typed;
                fits = allowed.fits;
                addressed = allowed.addressed;
              },
            )
      ]
