-- ===== src/Value/Read.antt =====
-- What is stored is what is read: Store, SameValue and ReadSlot of src/Registry.cpp.
use euroscope_plugin_bridge.Prelude.{
  ℕ, ◌%◌, ◌^◌, ◌<◌, ◌≤◌, ◌≡◌, refl, subst, sym, ◌∙◌, Bool, true, false, List, [], ◌∷◌, Option, none,
  some, ltb, leb, ◌==◌, if◌then◌else◌, length, take, bytes_eq, bytes_eq_iff, Bool-cases, inl, inr,
  ◌⊎◌, arith, le→ltb, take-length,
}
use native.Mathlib.Decide.{ℕ_discrete}
use euroscope_plugin_bridge.Status.{ok}
use euroscope_plugin_bridge.Value.{
  Value, Slot, fresh_slot, t_i64, t_f64, t_bool, t_str, t_blob, payload, same_value, same_bytes,
  store, read_slot, read_bytes, valid_type, is_scalar,
}

-- A value that a plugin may write: of one of the five types, and a text or a blob with as many bytes as
-- it says. The pointer and the size of a number say nothing.
pub record IsGiven (v : Value) : Type 0 where
  pub valid : valid_type v.type ≡ true
  pub sized : (is_scalar v.type ≡ true) ⊎ ((length (payload v) ≡ v.bytes) × (v.bytes < 2 ^ 32))

-- The buffer that a reader needs for the value.
unfoldable pub buffer_needed : Value → ℕ
buffer_needed v = if is_scalar v.type then 0 else v.bytes

pub data IsTyped (t : ℕ) : Type 0 where
  is_i64 : t ≡ t_i64 → IsTyped t
  is_f64 : t ≡ t_f64 → IsTyped t
  is_bool : t ≡ t_bool → IsTyped t
  is_str : t ≡ t_str → IsTyped t
  is_blob : t ≡ t_blob → IsTyped t

pub valid_type-IsTyped : (t : ℕ) → valid_type t ≡ true → IsTyped t
valid_type-IsTyped t h =
    unfold valid_type in
    (let low : 1 ≤ t = ground arith in
      let high : t ≤ 5 = ground arith in
      elim (ℕ_discrete t 1) [
        | yes e ↦ is_i64 e
        | no n1 ↦ elim (ℕ_discrete t 2) [
          | yes e ↦ is_f64 e
          | no n2 ↦ elim (ℕ_discrete t 3) [
            | yes e ↦ is_bool e
            | no n3 ↦ elim (ℕ_discrete t 4) [ yes e ↦ is_str e | no n4 ↦ is_blob (omega arith) ]
          ]
        ]
      ])

bytes_sized :
    (v : Value)
    → IsGiven v
    → is_scalar v.type ≡ false
    → (length (payload v) ≡ v.bytes) × (v.bytes < 2 ^ 32)
bytes_sized v g bytes = elim g.sized [
  | inl scalar ↦ absurd (let e : true ≡ false = sym scalar ∙ bytes in cc e)
  | inr sized ↦ sized
]

-- A text or a blob fits the number of its bytes, and the reader's buffer.
bytes_read :
    (v : Value) (have : ℕ)
    → IsGiven v
    → buffer_needed v ≤ have
    → is_scalar v.type ≡ false
    → (length (payload v) % 2 ^ 32 ≡ v.bytes)
      × (take v.bytes (payload v) ≡ payload v)
      × (ltb have v.bytes ≡ false)
unfolding buffer_needed
bytes_read v have g room bytes =
    let (sized, fits) = bytes_sized v g bytes in
    (
      omega (arith, sized, fits),
      subst (λ n. take n (payload v) ≡ payload v) sized (take-length (payload v)),
      le→ltb have v.bytes (rw bytes at room),
    )

-- What a reader of `v` is given in `out`, and in the length of its buffer.
unfoldable pub delivered : Value → Value → Value
delivered v out =
    let out' = record out { type = v.type } in
    if v.type == t_i64
    then record out' { bytes = 8; i64 = v.i64 }
    else (if v.type == t_f64
        then record out' { bytes = 8; f64 = v.f64 }
        else (if v.type == t_bool
            then record out' { bytes = 4; b = if v.b == 0 then 0 else 1 }
            else record out' { bytes = v.bytes; ptr = some (payload v) }))

unfoldable pub delivered_length : Value → ℕ → ℕ
delivered_length v have = if leb t_str v.type then v.bytes else have

-- A value that was stored over any earlier one is read back whole by a reader whose buffer is large
-- enough: with its type, as the same bits, or as the same bytes with their number.
pub read_slot-store :
    (s : Slot) (v out : Value) (now have : ℕ)
    → IsGiven v
    → buffer_needed v ≤ have
    → read_slot (store s v now) out (some have) true
      ≡ (ok, delivered v out, some (delivered_length v have))
unfolding read_slot store delivered delivered_length read_bytes is_scalar
read_slot-store s v out now have g room = elim (valid_type-IsTyped v.type g.valid) [
  | is_i64 e ↦ rw e refl
  | is_f64 e ↦ rw e refl
  | is_bool e ↦ elim (Bool-cases (v.b == 0)) [ inl q ↦ rw (e, q) refl | inr q ↦ rw (e, q) refl ]
  | is_str e ↦
      (let (need, whole, enough) = bytes_read v have g room (rw e refl) in
        rw (e, need, whole, enough) refl)
  | is_blob e ↦
      (let (need, whole, enough) = bytes_read v have g room (rw e refl) in
        rw (e, need, whole, enough) refl)
]

length-zero : (xs : List ℕ) → length xs ≡ 0 → xs ≡ []
length-zero [] h = refl
length-zero (x ∷ xs) h = absurd (omega arith)

same_bytes_payload :
    (s : Slot) (v : Value)
    → length (payload v) ≡ v.bytes
    → same_bytes s v ≡ true
    → s.bytes ≡ payload v
unfolding same_bytes
same_bytes_payload s v sized h = elim (Bool-cases (v.bytes == 0)) [
  | inl q ↦
      (let none_there : length s.bytes ≡ 0 = ground arith in
        let none_given : length (payload v) ≡ 0 = ground (arith, sized) in
        length-zero s.bytes none_there ∙ sym (length-zero (payload v) none_given))
  | inr q ↦ (let e : bytes_eq s.bytes (payload v) ≡ true = ground arith in (bytes_eq_iff _ _).0 e)
]

-- Skipping the write of a value that is there already is invisible to readers: they get from the slot
-- as it is what they would get after the write. A Boolean is kept as 0 or 1.
pub same_value-read_slot :
    (s : Slot) (v out : Value) (now : ℕ) (io : Option ℕ) (buf : Bool)
    → IsGiven v
    → same_value s v ≡ true
    → read_slot s out io buf ≡ read_slot (store s v now) out io buf
unfolding read_slot store same_value read_bytes is_scalar
same_value-read_slot s v out now io buf g h =
    let there : s.assigned ≡ true = ground arith in
    let typed : s.type ≡ v.type = ground arith in
    elim (valid_type-IsTyped v.type g.valid) [
      | is_i64 e ↦ (let same : s.i64 ≡ v.i64 = ground arith in rw (there, e, typed ∙ e, same) refl)
      | is_f64 e ↦ (let same : s.f64 ≡ v.f64 = ground arith in rw (there, e, typed ∙ e, same) refl)
      | is_bool e ↦ elim (Bool-cases (v.b == 0)) [
        | inl q ↦
            (let same : (s.i64 == 0) ≡ true = ground arith in
              rw (there, e, typed ∙ e, same, q) refl)
        | inr q ↦
            (let same : (s.i64 == 0) ≡ false = ground arith in
              rw (there, e, typed ∙ e, same, q) refl)
      ]
      | is_str e ↦
          (let sized = (bytes_sized v g (rw e refl)).0 in
            let same : s.bytes ≡ payload v = same_bytes_payload s v sized (ground arith) in
            elim io [
              | none ↦ rw (there, e, typed ∙ e, same) refl
              | some have ↦ rw (there, e, typed ∙ e, same) refl
            ])
      | is_blob e ↦
          (let sized = (bytes_sized v g (rw e refl)).0 in
            let same : s.bytes ≡ payload v = same_bytes_payload s v sized (ground arith) in
            elim io [
              | none ↦ rw (there, e, typed ∙ e, same) refl
              | some have ↦ rw (there, e, typed ∙ e, same) refl
            ])
    ]

-- A slot that was never assigned is not the same as any value.
pub same_value-fresh_slot : (v : Value) → same_value fresh_slot v ≡ false
unfolding same_value
same_value-fresh_slot v = refl

-- A revision is not read.
pub read_slot-revision :
    (s : Slot) (n : ℕ) (out : Value) (io : Option ℕ) (buf : Bool)
    → read_slot (record s { revision = n }) out io buf ≡ read_slot s out io buf
unfolding read_slot read_bytes
read_slot-revision s n out none buf = refl
read_slot-revision s n out (some have) buf = refl
