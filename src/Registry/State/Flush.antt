-- ===== src/Registry/State/Flush.antt =====
-- When the state file of src/Registry.cpp is written, and what becomes of it.
use euroscope_plugin_bridge.Prelude.{
  ℕ, ◌≤◌, ◌≡◌, refl, sym, ap, ◌∙◌, ◌⊎◌, inl, inr, Bool, true, false, not, List, [], ◌∷◌, some, none,
  take, length, ltb, if◌then◌else◌, arith, Bool-cases, le→ltb, subst, zero, suc,
}
use euroscope_plugin_bridge.Mqtt.{is_empty}
use euroscope_plugin_bridge.Text.{Bytes}
use euroscope_plugin_bridge.Value.{Slot}
use euroscope_plugin_bridge.Json.{JsonValue}
use euroscope_plugin_bridge.Json.Double.{Double}
use euroscope_plugin_bridge.Registry.{Registry}
use euroscope_plugin_bridge.Registry.State.{
  Disk, Attempt, replace_file, save_state, state_text, saved_fields, save_globals, save_global,
  since, flush_state_if_due,
}

-- The three ends of SaveState. It says true where the text, as far as fwrite wrote it, has become the state
-- file, and then nothing is to be saved any more. Else the registry is as it was, and so is the state file,
-- unless the temporary file was opened, the old state file removed, and the rename failed: then there is no
-- state file.
pub save_state_outcome :
    (d : Double) (a : Attempt) (r : Registry) (disk : Disk)
    → let (r', disk', done) = save_state d a r disk in
      ((done ≡ true)
        × (disk'.state ≡ some (take a.written (state_text d r)))
        × (r' ≡ record r { state_dirty = false }))
      ⊎ ((done ≡ false)
          × (r' ≡ r)
          × ((disk'.state ≡ disk.state)
              ⊎ ((disk'.state ≡ none)
                  × (a.opened ≡ true)
                  × (a.removed ≡ true)
                  × (a.renamed ≡ false))))
unfolding save_state replace_file
save_state_outcome d a r disk = elim (Bool-cases (is_empty r.state_path)) [
  | inl q ↦ rw q (inr (refl, refl, inl refl))
  | inr q ↦ rw q (elim (Bool-cases a.opened) [
    | inl o ↦ rw o (elim (Bool-cases a.renamed) [
      | inl n ↦ rw n (inl (refl, refl, refl))
      | inr n ↦ rw n (elim (Bool-cases a.removed) [
        | inl m ↦ rw m (inr (refl, refl, inr (refl, refl, refl, refl)))
        | inr m ↦ rw m (inr (refl, refl, inl refl))
      ])
    ])
    | inr o ↦ rw o (inr (refl, refl, inl refl))
  ])
]

-- A disk that takes the text: both files can be opened, written and renamed.
pub record Works (a : Attempt) (text : Bytes) : Type 0 where
  pub opened : a.opened ≡ true
  pub whole : length text ≤ a.written
  pub renamed : a.renamed ≡ true

take-nil : (n : ℕ) → take {A = ℕ} n [] ≡ []
take-nil zero = refl
take-nil (suc n) = refl

take-whole : (n : ℕ) (s : Bytes) → length s ≤ n → take n s ≡ s
take-whole n [] h = take-nil n
take-whole zero (c ∷ s) h = absurd (omega arith)
take-whole (suc n) (c ∷ s) h = ap (λ t. c ∷ t) (take-whole n s (omega arith))

replace_file-Works :
    (a : Attempt) (text : Bytes) (disk : Disk)
    → Works a text
    → replace_file a text disk ≡ (record { state = some text; temp = none }, true)
unfolding replace_file
replace_file-Works a text disk h = rw (h.opened, h.renamed, take-whole a.written text h.whole) refl

-- The text does not tell when the state was last written.
save_globals-flush :
    (d : Double) (r : Registry) (now : ℕ) (fields : JsonValue) (globals : List (ℕ × Slot))
    → save_globals d (record r { last_state_flush_ms = now }) fields globals
      ≡ save_globals d r fields globals
unfolding save_globals save_global
save_globals-flush d r now fields [] = refl
save_globals-flush d r now fields ((i, s) ∷ globals) =
    save_globals-flush d r now (save_global d r fields i s) globals

state_text-flush :
    (d : Double) (r : Registry) (now : ℕ)
    → state_text d (record r { last_state_flush_ms = now }) ≡ state_text d r
unfolding state_text saved_fields
state_text-flush d r now = rw (save_globals-flush d r now _ r.globals) refl

save_state-Works :
    (d : Double) (a : Attempt) (r : Registry) (disk : Disk)
    → Works a (state_text d r)
    → is_empty r.state_path ≡ false
    → save_state d a r disk ≡ (
      record r { state_dirty = false },
      record { state = some (state_text d r); temp = none },
      true,
    )
unfolding save_state
save_state-Works d a r disk h path = rw (path, replace_file-Works a (state_text d r) disk h) refl

pick : Bool → Bool → Registry × Disk → Registry × Disk → Registry × Disk
pick dirty early same written = if not dirty then same else (if early then same else written)

-- State that has changed is written: once five seconds have gone by since the last attempt, and where a path
-- is set, a flush on a disk that takes the text leaves the registry's text as the state file, with nothing left
-- to be saved and the time of the attempt.
pub flush_state_if_due-writes :
    (d : Double) (a : Attempt) (now : ℕ) (r : Registry) (disk : Disk)
    → r.state_dirty ≡ true
    → 5000 ≤ since now r.last_state_flush_ms
    → Works a (state_text d r)
    → is_empty r.state_path ≡ false
    → let (r', disk') = flush_state_if_due d a now r disk in
      (disk'.state ≡ some (state_text d r))
      × (r'.state_dirty ≡ false)
      × (r'.last_state_flush_ms ≡ now)
unfolding flush_state_if_due pick
flush_state_if_due-writes d a now r disk dirty due works path =
    let late : ltb (since now r.last_state_flush_ms) 5000 ≡ false = le→ltb _ 5000 due in
    let text = state_text-flush d r now in
    let flushing = record r { last_state_flush_ms = now } in
    let saved = save_state d a flushing disk in
    let branch : flush_state_if_due d a now r disk ≡ (saved.0, saved.1) =
      ap (λ b. pick b (ltb (since now r.last_state_flush_ms) 5000) (r, disk) (saved.0, saved.1))
        dirty
      ∙ ap (λ c. pick true c (r, disk) (saved.0, saved.1)) late in
    let result : saved ≡ (
      record flushing { state_dirty = false },
      record { state = some (state_text d flushing); temp = none },
      true,
    ) =
      save_state-Works d a flushing disk (subst (Works a) (sym text) works) path in
    let both = branch ∙ ap (λ t. (t.0, t.1)) result in
    (
      ap (λ t. t.1.state) both ∙ ap some text,
      ap (λ t. t.0.state_dirty) both,
      ap (λ t. t.0.last_state_flush_ms) both,
    )
