-- ===== src/Schema/Names.antt =====
-- Names that pass ValidFieldName and ValidProviderId of src/Registry.cpp.

use euroscope_plugin_bridge.Prelude.{
  ℕ, ◌+◌, ◌≤◌, ◌≡◌, ◌↔◌, refl, Bool, true, false, [], ◌∷◌, some, leb, length, All, arith,
}
use euroscope_plugin_bridge.Schema.{
  Bytes, valid_chars, valid_name, valid_field_name, valid_provider_id, field_char, id_char,
}

-- Of one to `limit` characters, all of them allowed.
abbrev pub IsName : (ℕ → Bool) → ℕ → Bytes → Type 0
IsName allowed limit n = (1 ≤ length n) × (length n ≤ limit) × All (λ c. allowed c ≡ true) n

valid_chars_lem :
    (allowed : ℕ → Bool) (limit i : ℕ) (n : Bytes)
    → i ≤ limit
    → valid_chars allowed limit i n ≡ true
    → (i + length n ≤ limit) × All (λ c. allowed c ≡ true) n
unfolding valid_chars
valid_chars_lem allowed limit i [] bound h = (omega arith, tt)
valid_chars_lem allowed limit i (c ∷ n) bound h =
    let short : i + 1 ≤ limit = ground arith in
    let fine : allowed c ≡ true = ground arith in
    let rest : valid_chars allowed limit (i + 1) n ≡ true = ground arith in
    let (all_short, all_fine) = valid_chars_lem allowed limit (i + 1) n short rest in
    (omega (arith, all_short), (fine, all_fine))

valid_chars_back :
    (allowed : ℕ → Bool) (limit i : ℕ) (n : Bytes)
    → i + length n ≤ limit
    → All (λ c. allowed c ≡ true) n
    → valid_chars allowed limit i n ≡ true
unfolding valid_chars
valid_chars_back allowed limit i [] bound all = refl
valid_chars_back allowed limit i (c ∷ n) bound (fine, all_fine) =
    let rest = valid_chars_back allowed limit (i + 1) n (omega arith) all_fine in
    let short : leb limit i ≡ false = ground arith in rw (short, fine) rest

valid_name-IsName :
    (allowed : ℕ → Bool) (limit : ℕ) (n : Bytes)
    → (valid_name allowed limit (some n) ≡ true) ↔ IsName allowed limit n
unfolding valid_name
valid_name-IsName allowed limit [] =
    (λ h. absurd (cc (h)), λ h. absurd (let l = h.0 in omega (arith, l)))
valid_name-IsName allowed limit (c ∷ n) = (
  λ h.
      (let (short, fine) = valid_chars_lem allowed limit 0 (c ∷ n) (omega arith) h in
        (omega arith, omega (arith, short), fine)),
  λ h. (let l = h.1 in valid_chars_back allowed limit 0 (c ∷ n) (omega (arith, l)) h.2),
)

-- The names that pass are those of 1 to 47 characters from a-z, 0-9 and _ for a field, and of 1 to 63
-- characters from these, the dot and the dash for a provider, so that neither holds the slash that joins
-- them.
pub valid_names :
    (n : Bytes)
    → ((valid_field_name (some n) ≡ true) ↔ IsName field_char 47 n)
      × ((valid_provider_id (some n) ≡ true) ↔ IsName id_char 63 n)
unfolding valid_field_name valid_provider_id
valid_names n = (valid_name-IsName field_char 47 n, valid_name-IsName id_char 63 n)
