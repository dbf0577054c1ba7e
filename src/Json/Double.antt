-- ===== src/Json/Double.antt =====
-- What src/Json.cpp does with a double: std::floor, std::fabs, a cast to and from int64_t, snprintf with
-- %.17g and strtod. These are the C++ library's: a record of functions on bit patterns, and the laws that
-- the code relies on.
use euroscope_plugin_bridge.Prelude.{
  ℕ, Bool, true, ◌&&◌, ◌||◌, [], ◌≡◌, ◌≢◌, leb, ◌==◌, if◌then◌else◌, All,
}
use euroscope_plugin_bridge.Json.{JsonValue, number}
use euroscope_plugin_bridge.Text.{Bytes, signed_decimal}

pub record Double : Type 0 where
  -- `n == std::floor(n)`
  pub is_integral : ℕ → Bool
  -- `std::fabs(n) < 9.0e15`
  pub is_small : ℕ → Bool
  pub to_i64 : ℕ → ℕ
  pub of_i64 : ℕ → ℕ
  -- `%.17g`
  pub print : ℕ → Bytes
  -- strtod with no end pointer: zero where there is no number
  pub strtod : Bytes → ℕ

-- AsInt
unfoldable pub as_int : Double → JsonValue → ℕ → ℕ
as_int d (number n) fallback = d.to_i64 n
as_int d _ fallback = fallback

-- The bytes that ParseNumber passes over.
abbrev pub is_numeral : ℕ → Bool
is_numeral c =
    (leb b'0' c && leb c b'9')
    || ((c == b'.') || ((c == b'e') || ((c == b'E') || ((c == b'+') || (c == b'-')))))

abbrev pub IsNumeral : Bytes → Type 0
IsNumeral s = All (λ c. is_numeral c ≡ true) s × (s ≢ [])

-- The text of a number in WriteValue.
unfoldable pub number_text : Double → ℕ → Bytes
number_text d n = if d.is_integral n && d.is_small n then signed_decimal (d.to_i64 n) else d.print n

-- A double that its text stands for: neither an infinity nor a NaN, whose texts are words, nor -0.0,
-- which is written as an integer.
pub record IsReadable (d : Double) (n : ℕ) : Type 0 where
  pub numeral : IsNumeral (number_text d n)
  pub read_back : d.strtod (number_text d n) ≡ n
