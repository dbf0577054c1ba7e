-- ===== src/Json/Tests.antt =====
-- The parser and the writer at concrete texts, and the theorems at inputs that meet their hypotheses.
use euroscope_plugin_bridge.Prelude.{
  ℕ, ◌<◌, ◌^◌, true, false, [], ◌∷◌, ◌++◌, none, some, ◌≡◌, refl, ltb, All-imp, arith,
}
use euroscope_plugin_bridge.Text.{
  Bytes, codes, decimal, signed_decimal, strtoul, scan_signed, scan_behind, skip_sign, skip_blank,
  skip_prefix, scan_number, scan_digits, c_str,
}
use euroscope_plugin_bridge.Json.{
  JsonValue, null, number, string, array, object, no_items, item, no_members, member,
}
use euroscope_plugin_bridge.Json.Double.{Double}
use euroscope_plugin_bridge.Json.Parser.{parse}
use euroscope_plugin_bridge.Json.{bytes_lt, set_member}
use euroscope_plugin_bridge.Json.Double.{IsReadable, number_text, is_numeral}
use euroscope_plugin_bridge.Json.Sorted.{IsSorted, set_member-IsSorted}
use euroscope_plugin_bridge.Json.Scan.{done, parse_string}
use euroscope_plugin_bridge.Json.Scan.Bounds.{Ends}
use euroscope_plugin_bridge.Json.Parser.{parse_value}
use euroscope_plugin_bridge.Json.Parser.Ends.{parse_value-Ends}
use euroscope_plugin_bridge.Json.Writer.{write, write_string}
use euroscope_plugin_bridge.Json.Writer.Strings.{parse_string-write_string}
use euroscope_plugin_bridge.Json.Writer.Writable.{IsWritable}
use euroscope_plugin_bridge.Json.Writer.RoundTrip.{parse-write}
use euroscope_plugin_bridge.Text.Decimal.{IsDigit, decimal-IsDigit, decimal-ne-nil, strtoul-decimal}

-- Whole numbers for doubles.
unfoldable pub read_number : Bytes → ℕ
unfolding strtoul scan_signed scan_behind skip_sign skip_blank skip_prefix scan_number scan_digits
    c_str
read_number text = elim (strtoul 64 10 text) [ none ↦ 0 | some (n, rest) ↦ n ]

abbrev pub whole_numbers : Double
whole_numbers = record {
  is_integral = λ n. false;
  is_small = λ n. ltb n 9000000000000000;
  to_i64 = λ n. n;
  of_i64 = λ n. n;
  print = λ n. decimal n;
  strtod = read_number;
}

abbrev sample : JsonValue
sample = object (
    member (codes "a") (array (item (number 12) (item null no_items)))
      (member (codes "b") (object (member [] (string (1 ∷ 34 ∷ 200 ∷ [])) no_members)) no_members))

digit-is_numeral : (c : ℕ) → IsDigit c → is_numeral c ≡ true
digit-is_numeral c h = ground arith

sample_text : parse whole_numbers (write whole_numbers sample true) ≡ (sample, [])
unfolding parse write read_number decimal signed_decimal
sample_text = refl

comment_text :
    parse whole_numbers (codes "// note\n{\"b\": [ ], \"a\":-3, \"b\": \"\\u00e9\\/\"} //") ≡ (
      object (
          member
            (codes "a")
            (number 18446744073709551613)
            (member (codes "b") (string (195 ∷ 169 ∷ 47 ∷ [])) no_members)),
      [],
    )
unfolding parse read_number strtoul scan_signed scan_behind skip_sign skip_blank skip_prefix
    scan_number scan_digits c_str
comment_text = refl

fault_text : parse whole_numbers (codes "[1, nan]") ≡ (null, codes "bad literal at offset 4")
unfolding parse read_number decimal
fault_text = refl

parse_value-Ends_example : Ends 2 (parse_value whole_numbers 5 (codes "[]"))
parse_value-Ends_example = parse_value-Ends whole_numbers 5 (codes "[]") (omega arith)

parse_string-write_string_example :
    parse_string (write_string (0 ∷ 34 ∷ 200 ∷ []) ++ (b',' ∷ []))
    ≡ done (0 ∷ 34 ∷ 200 ∷ []) (b',' ∷ [])
parse_string-write_string_example = parse_string-write_string (0 ∷ 34 ∷ 200 ∷ []) (b',' ∷ [])

set_member-IsSorted_run :
    IsSorted
      (set_member (codes "b") null (member (codes "a") null (member (codes "c") null no_members)))
unfolding bytes_lt
set_member-IsSorted_run =
    set_member-IsSorted (codes "b") null
      (member (codes "a") null (member (codes "c") null no_members)) ((refl, tt), (tt, tt))

-- A number's text is its decimal digits, which are read back.
pub whole_numbers-IsReadable : (n : ℕ) → n < 2 ^ 64 → IsReadable whole_numbers n
unfolding number_text read_number
whole_numbers-IsReadable n h = record {
  numeral = (
    All-imp (decimal n) (λ c digit. digit-is_numeral c digit) (decimal-IsDigit n),
    decimal-ne-nil n,
  );
  read_back = rw (strtoul-decimal 64 n h, read_number) refl;
}

sample-IsWritable : IsWritable whole_numbers sample
unfolding IsWritable bytes_lt
sample-IsWritable = (
  ((refl, tt), (tt, tt)),
  ((whole_numbers-IsReadable 12 (omega arith), (tt, tt)), (((tt, tt), (tt, tt)), tt)),
)

parse-write_example : parse whole_numbers (write whole_numbers sample true) ≡ (sample, [])
parse-write_example = parse-write whole_numbers sample true sample-IsWritable
