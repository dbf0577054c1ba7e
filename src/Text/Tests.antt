-- ===== src/Text/Tests.antt =====
-- Runs of the text of numbers.
use euroscope_plugin_bridge.Prelude.{◌-◌, ◌^◌, [], ◌∷◌, ◌≡◌, refl, some, none}
use euroscope_plugin_bridge.Text.{
  decimal, signed_decimal, hex_pair, strtoul, c_str, skip_blank, skip_sign, skip_prefix,
  scan_number, scan_digits, scan_signed, scan_behind,
}

decimal_407 : decimal 407 ≡ b'4' ∷ b'0' ∷ b'7' ∷ []
unfolding decimal
decimal_407 = refl

signed_decimal_minus : signed_decimal (2 ^ 64 - 5) ≡ b'-' ∷ b'5' ∷ []
unfolding signed_decimal decimal
signed_decimal_minus = refl

hex_pair_ten : hex_pair 0x0a ≡ b'0' ∷ b'a' ∷ []
unfolding hex_pair
hex_pair_ten = refl

-- A minus sign is taken and the value wraps; what is behind the digits is left.
strtoul_minus : strtoul 32 10 (b' ' ∷ b'-' ∷ b'1' ∷ b'x' ∷ []) ≡ some (2 ^ 32 - 1, b'x' ∷ [])
unfolding strtoul scan_signed scan_behind c_str skip_blank skip_sign skip_prefix scan_number
    scan_digits
strtoul_minus = refl

strtoul_of_letter : strtoul 64 10 (b'x' ∷ []) ≡ none
unfolding strtoul scan_signed scan_behind c_str skip_blank skip_sign skip_prefix scan_number
    scan_digits
strtoul_of_letter = refl
