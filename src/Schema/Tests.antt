-- ===== src/Schema/Tests.antt =====
-- Names that pass and names that do not.
use euroscope_plugin_bridge.Prelude.{◌≡◌, ◌↔◌, refl, true, false, [], ◌∷◌, some}
use euroscope_plugin_bridge.Schema.{
  Bytes, valid_field_name, valid_provider_id, valid_name, valid_chars, field_char, id_char,
}
use euroscope_plugin_bridge.Schema.Names.{IsName, valid_names}

abbrev dotted : Bytes
dotted = b'a' ∷ b'.' ∷ b'b' ∷ []

valid_names_run :
    ((valid_field_name (some dotted) ≡ true) ↔ IsName field_char 47 dotted)
    × ((valid_provider_id (some dotted) ≡ true) ↔ IsName id_char 63 dotted)
valid_names_run = valid_names dotted

dotted_run : (valid_field_name (some dotted) ≡ false) × (valid_provider_id (some dotted) ≡ true)
unfolding valid_field_name valid_provider_id valid_name valid_chars
dotted_run = (refl, refl)
