-- ===== src/Text.antt =====
-- The standard library's text of numbers, as src/Relay.cpp, src/Registry.cpp and src/Json.cpp use it:
-- std::to_string, snprintf with %lld and %02x, and strtoul, strtoull and strtoll. A text that goes through
-- c_str() ends at its first zero byte.
pub mod Decimal
pub mod Hex
mod Tests
use euroscope_plugin_bridge.Prelude.{
  ℕ, ◌+◌, ◌-◌, ◌*◌, ◌/◌, ◌%◌, ◌^◌, ◌<◌, Bool, true, false, ◌&&◌, ◌||◌, List, [], ◌∷◌, ◌++◌, Option,
  none, some, ltb, leb, ◌==◌, if◌then◌else◌, arith,
}
use euroscope_plugin_bridge.Prelude.Order.{lt_wf}
use mathlib.Core.Logic.{dite}
use mathlib.Core.WellFounded.{Acc}
use native.Mathlib.Decide.{dec_lt}
use Prim.Native.Char.{code}
use Prim.Native.String.{String}

abbrev pub Bytes : Type 0
Bytes = List ℕ

-- The bytes of a text literal, which is ASCII.
abbrev pub codes : String → Bytes
codes String.[] = []
codes (String.◌∷◌ c s) = code c ∷ codes s

pub fewer : (n : ℕ) → 9 < n → n / 10 < n
fewer n h = omega arith

-- The last digit stands behind those of the tenth part.
decimal_loop : (n : ℕ) → Acc ◌<◌ n → Bytes
decimal_loop n (Acc.intro _ smaller) =
    dite (dec_lt 9 n)
      (λ more. decimal_loop (n / 10) (smaller _ (fewer n more)) ++ ((b'0' + n % 10) ∷ []))
      (λ _. (b'0' + n) ∷ [])

-- `%u`, `%llu` and std::to_string
unfoldable pub decimal : ℕ → Bytes
unfolding decimal_loop lt_wf dec_lt
decimal n = decimal_loop n (lt_wf.apply n)

-- `%lld` of a 64-bit pattern
unfoldable pub signed_decimal : ℕ → Bytes
signed_decimal x = if ltb x (2 ^ 63) then decimal x else (b'-' ∷ decimal (2 ^ 64 - x))

abbrev pub hex_digit : ℕ → ℕ
hex_digit d = if ltb d 10 then b'0' + d else b'a' + (d - 10)

-- `%02x` of a byte
unfoldable pub hex_pair : ℕ → Bytes
hex_pair b = hex_digit (b / 16) ∷ hex_digit (b % 16) ∷ []

-- The text up to its first zero byte.
unfoldable pub c_str : Bytes → Bytes
c_str [] = []
c_str (c ∷ s) = let rest = c_str s in if c == 0 then [] else c ∷ rest

abbrev pub is_space : ℕ → Bool
is_space c = (c == b' ') || (leb 9 c && leb c 13)

unfoldable pub skip_blank : Bytes → Bytes
skip_blank [] = []
skip_blank (c ∷ s) = let rest = skip_blank s in if is_space c then rest else c ∷ s

-- The value of a digit in a base, or the base for a byte that is none.
abbrev pub digit_value : ℕ → ℕ → ℕ
digit_value base c =
    let v =
      if leb b'0' c && leb c b'9'
      then c - b'0'
      else (if leb b'a' c && leb c b'z'
          then c - b'a' + 10
          else (if leb b'A' c && leb c b'Z' then c - b'A' + 10 else base)) in
    if ltb v base then v else base

-- The value of the digits behind `n`, and what follows them.
unfoldable pub scan_digits : ℕ → Bytes → ℕ → ℕ × Bytes
scan_digits base [] n = (n, [])
scan_digits base (c ∷ s) n =
    let d = digit_value base c in
    let rest = scan_digits base s (n * base + d) in if d == base then (n, c ∷ s) else rest

-- One digit at least; `none` where there is none, so that `end` is the start of the text.
unfoldable pub scan_number : ℕ → Bytes → Option (ℕ × Bytes)
scan_number base [] = none
scan_number base (c ∷ s) =
    if digit_value base c == base then none else some (scan_digits base (c ∷ s) 0)

-- In base 16 a prefix 0x before a digit.
unfoldable pub skip_prefix : ℕ → Bytes → Bytes
skip_prefix base (zero_char ∷ x ∷ d ∷ s) =
    if (base == 16)
      && ((zero_char == b'0') && (((x == b'x') || (x == b'X')) && ltb (digit_value 16 d) 16))
    then d ∷ s
    else zero_char ∷ x ∷ d ∷ s
skip_prefix base s = s

-- The sign, `true` for a minus, and the text behind it.
unfoldable pub skip_sign : Bytes → Bool × Bytes
skip_sign [] = (false, [])
skip_sign (c ∷ s) =
    if c == b'-' then (true, s) else (if c == b'+' then (false, s) else (false, c ∷ s))

-- The number behind a sign that was read.
unfoldable pub scan_behind : ℕ → Bool × Bytes → Option (Bool × ℕ × Bytes)
scan_behind base (minus, s) = elim (scan_number base (skip_prefix base s)) [
  | none ↦ none
  | some (n, rest) ↦ some (minus, n, rest)
]

-- The sign, the number without bound, and what follows it.
unfoldable pub scan_signed : ℕ → Bytes → Option (Bool × ℕ × Bytes)
scan_signed base text = scan_behind base (skip_sign (skip_blank (c_str text)))

-- The largest value where the number does not fit, and the negated value behind a minus.
abbrev pub to_unsigned : ℕ → Bool → ℕ → ℕ
to_unsigned w minus n =
    if leb (2 ^ w) n then 2 ^ w - 1 else (if minus then (2 ^ w - n) % 2 ^ w else n)

-- strtoul (`w` is 32 on Windows) and strtoull (`w` is 64): the value and the text from `end` on.
unfoldable pub strtoul : ℕ → ℕ → Bytes → Option (ℕ × Bytes)
strtoul w base text = elim (scan_signed base text) [
  | none ↦ none
  | some (minus, n, rest) ↦ some (to_unsigned w minus n, rest)
]

-- The bit pattern of the value, or of LLONG_MAX or LLONG_MIN.
abbrev pub to_signed : Bool → ℕ → ℕ
to_signed minus n =
    if minus
    then (if leb (2 ^ 63) n then 2 ^ 63 else (2 ^ 64 - n) % 2 ^ 64)
    else (if leb (2 ^ 63) n then 2 ^ 63 - 1 else n)

pub strtoll : Bytes → Option (ℕ × Bytes)
strtoll text = elim (scan_signed 10 text) [
  | none ↦ none
  | some (minus, n, rest) ↦ some (to_signed minus n, rest)
]
