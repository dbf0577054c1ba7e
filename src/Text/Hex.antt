-- ===== src/Text/Hex.antt =====
-- A byte written as two digits in base sixteen is read back.
use euroscope_plugin_bridge.Prelude.{
  ℕ, ◌+◌, ◌*◌, ◌/◌, ◌%◌, ◌^◌, ◌<◌, ◌≡◌, refl, ap, ◌∙◌, false, [], ◌∷◌, some, leb, ◌==◌, arith,
}
use euroscope_plugin_bridge.Text.{
  hex_digit, hex_pair, c_str, skip_blank, skip_sign, skip_prefix, scan_digits, scan_number,
  scan_behind, scan_signed, strtoul, digit_value, is_space,
}

digit-hex_digit : (d : ℕ) → d < 16 → digit_value 16 (hex_digit d) ≡ d
digit-hex_digit d h = ground arith

-- What the readers look for before a digit.
pub record IsPlain (c : ℕ) : Type 0 where
  pub some_byte : (c == 0) ≡ false
  pub no_space : is_space c ≡ false
  pub no_minus : (c == b'-') ≡ false
  pub no_plus : (c == b'+') ≡ false

hex_digit-IsPlain : (d : ℕ) → d < 16 → IsPlain (hex_digit d)
hex_digit-IsPlain d h = record {
  some_byte = ground arith;
  no_space = ground arith;
  no_minus = ground arith;
  no_plus = ground arith;
}

c_str-pair : (c d : ℕ) → IsPlain c → IsPlain d → c_str (c ∷ d ∷ []) ≡ c ∷ d ∷ []
unfolding c_str
c_str-pair c d hc hd = rw (hc.some_byte, hd.some_byte) refl

no_sign : (c d : ℕ) → IsPlain c → skip_sign (skip_blank (c ∷ d ∷ [])) ≡ (false, c ∷ d ∷ [])
unfolding skip_sign skip_blank
no_sign c d h = rw (h.no_space, h.no_minus, h.no_plus) refl

scan_number-pair :
    (c d hi lo : ℕ)
    → digit_value 16 c ≡ hi
    → digit_value 16 d ≡ lo
    → hi < 16
    → lo < 16
    → scan_number 16 (c ∷ d ∷ []) ≡ some (hi * 16 + lo, [])
unfolding scan_number scan_digits
scan_number-pair c d hi lo hc hd small_hi small_lo =
    let hi_digit : (hi == 16) ≡ false = ground arith in
    let lo_digit : (lo == 16) ≡ false = ground arith in
    let whole : 0 * 16 + hi ≡ hi = omega arith in rw (hc, hd, hi_digit, lo_digit, whole) refl

scan_signed-pair :
    (c d n : ℕ)
    → IsPlain c
    → IsPlain d
    → scan_number 16 (c ∷ d ∷ []) ≡ some (n, [])
    → scan_signed 16 (c ∷ d ∷ []) ≡ some (false, n, [])
unfolding scan_signed scan_behind skip_prefix
scan_signed-pair c d n plain plain' e =
    ap (scan_behind 16)
      (ap (λ t. skip_sign (skip_blank t)) (c_str-pair c d plain plain') ∙ no_sign c d plain)
    ∙ rw (e, scan_behind) refl

strtoul-pair :
    (c d hi lo : ℕ)
    → IsPlain c
    → IsPlain d
    → digit_value 16 c ≡ hi
    → digit_value 16 d ≡ lo
    → hi < 16
    → lo < 16
    → strtoul 32 16 (c ∷ d ∷ []) ≡ some (hi * 16 + lo, [])
unfolding strtoul
strtoul-pair c d hi lo plain plain' hc hd small_hi small_lo =
    let small : leb (2 ^ 32) (hi * 16 + lo) ≡ false = ground arith in
    let scanned =
      scan_signed-pair c d (hi * 16 + lo) plain plain'
        (scan_number-pair c d hi lo hc hd small_hi small_lo) in
    rw (scanned, strtoul) (rw small refl)

-- Two hexadecimal digits are read back as the byte that they were written for.
pub strtoul-hex_pair : (b : ℕ) → b < 256 → strtoul 32 16 (hex_pair b) ≡ some (b, [])
unfolding hex_pair
strtoul-hex_pair b h =
    let whole : b / 16 * 16 + b % 16 ≡ b = omega arith in
    strtoul-pair (hex_digit (b / 16)) (hex_digit (b % 16)) (b / 16) (b % 16)
      (hex_digit-IsPlain (b / 16) (omega arith)) (hex_digit-IsPlain (b % 16) (omega arith))
      (digit-hex_digit (b / 16) (omega arith)) (digit-hex_digit (b % 16) (omega arith))
      (omega arith) (omega arith)
    ∙ ap (λ n. some (n, [])) whole
