-- ===== src/Json/Scan.antt =====
-- SkipSpace, Literal, ParseString and ParseNumber of src/Json.cpp.
-- A parser takes the text from m_pos on and gives the value with the text behind it, or why it failed with
-- the text from the offset of the message on.
pub mod Bounds
use euroscope_plugin_bridge.Prelude.{
  ℕ, zero, suc, ◌+◌, ◌/◌, ◌%◌, ◌^◌, Bool, true, false, not, ◌&&◌, ◌||◌, [], ◌∷◌, ◌++◌, none, some,
  ltb, ◌==◌, if◌then◌else◌, take, drop, length, bytes_eq, bit_and, bit_or,
}
use euroscope_plugin_bridge.Text.{Bytes, strtoul}
use euroscope_plugin_bridge.Json.{JsonValue, number}
use euroscope_plugin_bridge.Json.Double.{Double, is_numeral}

pub data Fault : Type 0 where
  end_of_input bad_literal expected_string unterminated_escape truncated_escape : Fault
  unknown_escape unterminated_string expected_value unterminated_array expected_comma : Fault
  expected_key expected_colon unterminated_object expected_member_comma : Fault

-- `spent` is the model's own: the rounds given did not reach the end.
pub data Parsed {ℓ} (A : Type ℓ) : Type ℓ where
  done : A → Bytes → Parsed A
  failed : Fault → Bytes → Parsed A
  spent : Parsed A

unfoldable pub is_blank : ℕ → Bool
is_blank c = (c == b' ') || ((c == b'\t') || ((c == b'\n') || (c == b'\r')))

unfoldable pub starts_with : ℕ → Bytes → Bool
starts_with c [] = false
starts_with c (d ∷ s) = d == c

-- SkipSpace, a byte a round; `inside` while the loop over a comment runs.
unfoldable pub skip_from : Bool → Bytes → Bytes
unfolding is_blank starts_with
skip_from inside [] = []
skip_from inside (c ∷ s) =
    let still = inside && not (c == b'\n') in
    let opens = not (is_blank c) && ((c == b'/') && starts_with b'/' s) in
    let rest = skip_from (still || opens) s in
    if still || (is_blank c || opens) then rest else c ∷ s

unfoldable pub skip_space : Bytes → Bytes
unfolding skip_from
skip_space text = skip_from false text

unfoldable pub literal : Bytes → JsonValue → Bytes → Parsed JsonValue
unfolding bytes_eq
literal word v text =
    if bytes_eq (take (length word) text) word
    then done v (drop (length word) text)
    else failed bad_literal text

-- strtoul of the four characters, with no end pointer
unfoldable pub code_point : Bytes → ℕ
code_point hex = elim (strtoul 32 16 hex) [ none ↦ 0 | some (n, rest) ↦ n ]

unfoldable pub utf8 : ℕ → Bytes
utf8 cp =
    if ltb cp 0x80
    then cp ∷ []
    else (if ltb cp 0x800
        then bit_or 0xc0 (cp / 2 ^ 6) % 256 ∷ bit_or 0x80 (bit_and cp 0x3f) % 256 ∷ []
        else bit_or 0xe0 (cp / 2 ^ 12) % 256
          ∷ bit_or 0x80 (bit_and (cp / 2 ^ 6) 0x3f) % 256
          ∷ bit_or 0x80 (bit_and cp 0x3f) % 256
          ∷ [])

-- A round of the loop in ParseString behind the byte `c`: the closing quote, or what is added and how
-- many bytes more are read, or why it fails.
pub data Piece : Type 0 where
  close : Piece
  put : Bytes → ℕ → Piece
  broken : Fault → ℕ → Piece

unfoldable pub unicode : Bytes → Piece
unicode s =
    if ltb (length s) 4 then broken truncated_escape 1 else put (utf8 (code_point (take 4 s))) 5

unfoldable pub escape : Bytes → Piece
escape [] = broken unterminated_escape 0
escape (e ∷ s) =
    if (e == b'"') || ((e == b'\\') || (e == b'/'))
    then put (e ∷ []) 1
    else (if e == b'b'
        then put (8 ∷ []) 1
        else (if e == b'f'
            then put (12 ∷ []) 1
            else (if e == b'n'
                then put (b'\n' ∷ []) 1
                else (if e == b'r'
                    then put (b'\r' ∷ []) 1
                    else (if e == b't'
                        then put (b'\t' ∷ []) 1
                        else (if e == b'u' then unicode s else broken unknown_escape 1))))))

unfoldable pub piece : ℕ → Bytes → Piece
piece c s = if c == b'"' then close else (if c == b'\\' then escape s else put (c ∷ []) 0)

-- The loop of ParseString; a number of bytes that an escape has read are passed over first.
unfoldable pub string_loop : ℕ → Bytes → Bytes → Parsed Bytes
unfolding piece escape unicode utf8 code_point
string_loop pass out [] = failed unterminated_string []
string_loop (suc pass) out (c ∷ s) = string_loop pass out s
string_loop zero out (c ∷ s) = elim (piece c s) [
  | close ↦ done out s
  | put bytes read ↦ string_loop read (out ++ bytes) s
  | broken why read ↦ failed why (drop read s)
]

unfoldable pub parse_string : Bytes → Parsed Bytes
unfolding string_loop
parse_string [] = failed expected_string []
parse_string (c ∷ s) = if c == b'"' then string_loop 0 [] s else failed expected_string (c ∷ s)

-- What the loop of ParseNumber passes over, and what follows.
unfoldable pub numeral_loop : Bytes → Bytes × Bytes
numeral_loop [] = ([], [])
numeral_loop (c ∷ s) =
    let rest = numeral_loop s in if is_numeral c then (c ∷ rest.0, rest.1) else ([], c ∷ s)

unfoldable pub number_span : Bytes → Bytes × Bytes
unfolding numeral_loop
number_span [] = ([], [])
number_span (c ∷ s) =
    let rest = numeral_loop s in
    if (c == b'-') || (c == b'+') then (c ∷ rest.0, rest.1) else numeral_loop (c ∷ s)

unfoldable pub parse_span : Double → Bytes × Bytes → Parsed JsonValue
parse_span d ([], rest) = failed expected_value rest
parse_span d (c ∷ s, rest) = done (number (d.strtod (c ∷ s))) rest

unfoldable pub parse_number : Double → Bytes → Parsed JsonValue
unfolding parse_span number_span
parse_number d text = parse_span d (number_span text)
