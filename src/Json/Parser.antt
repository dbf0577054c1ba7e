-- ===== src/Json/Parser.antt =====
-- ParseValue, ParseArray and ParseObject of src/Json.cpp, and Parse.
-- The parser calls itself, a round for each value, item and member; `parse` gives it two rounds for each
-- byte of the text. The calls that a step makes are passed to it as functions.
pub mod Ends
use euroscope_plugin_bridge.Prelude.{
  ℕ, zero, suc, ◌+◌, ◌-◌, ◌*◌, ◌%◌, ◌^◌, true, false, [], ◌∷◌, ◌++◌, ◌==◌, if◌then◌else◌, drop,
  length,
}
use euroscope_plugin_bridge.Text.{Bytes, codes, decimal}
use euroscope_plugin_bridge.Json.{
  JsonValue, null, boolean, string, array, object, Items, no_items, push, Members, no_members,
  set_member,
}
use euroscope_plugin_bridge.Json.Double.{Double}
use euroscope_plugin_bridge.Json.Scan.{
  Fault, end_of_input, bad_literal, expected_string, unterminated_escape, truncated_escape,
  unknown_escape, unterminated_string, expected_value, unterminated_array, expected_comma,
  expected_key, expected_colon, unterminated_object, expected_member_comma, Parsed, done, failed,
  spent, skip_space, starts_with, literal, parse_string, parse_number,
}

unfoldable pub string_value : Parsed Bytes → Parsed JsonValue
string_value (done s rest) = done (string s) rest
string_value (failed why rest) = failed why rest
string_value spent = spent

-- The switch of ParseValue. `array_at` and `object_at` are called behind the bracket.
unfoldable pub value_at :
    Double → (array_at object_at : Bytes → Parsed JsonValue) → Bytes → Parsed JsonValue
value_at d array_at object_at [] = failed end_of_input []
value_at d array_at object_at (c ∷ s) =
    if c == b'{'
    then object_at s
    else (if c == b'['
        then array_at s
        else (if c == b'"'
            then string_value (parse_string (c ∷ s))
            else (if c == b't'
                then literal (codes "true") (boolean true) (c ∷ s)
                else (if c == b'f'
                    then literal (codes "false") (boolean false) (c ∷ s)
                    else (if c == b'n'
                        then literal (codes "null") null (c ∷ s)
                        else parse_number d (c ∷ s))))))

-- What closes an empty array or object behind its bracket, or else the loop.
unfoldable pub unless_closed : ℕ → JsonValue → (Bytes → Parsed JsonValue) → Bytes → Parsed JsonValue
unless_closed bracket v loop text =
    if starts_with bracket text then done v (drop 1 text) else loop text

-- Behind an item or a member: a comma, the bracket, or a fault.
unfoldable pub separator :
    (bracket : ℕ) (at_end wrong : Fault) (again : Bytes → Parsed JsonValue)
    → JsonValue
    → Bytes
    → Parsed JsonValue
separator bracket at_end wrong again v [] = failed at_end []
separator bracket at_end wrong again v (c ∷ s) =
    if c == b',' then again s else (if c == bracket then done v s else failed wrong (c ∷ s))

unfoldable pub behind_item :
    (Items → Bytes → Parsed JsonValue) → Items → Parsed JsonValue → Parsed JsonValue
behind_item loop xs (done v s) =
    separator b']' unterminated_array expected_comma (loop (push xs v)) (array (push xs v))
      (skip_space s)
behind_item loop xs (failed why s) = failed why s
behind_item loop xs spent = spent

unfoldable pub behind_member :
    (Members → Bytes → Parsed JsonValue) → Members → Bytes → Parsed JsonValue → Parsed JsonValue
behind_member loop ms key (done v s) =
    separator b'}' unterminated_object expected_member_comma (loop (set_member key v ms))
      (object (set_member key v ms)) (skip_space s)
behind_member loop ms key (failed why s) = failed why s
behind_member loop ms key spent = spent

-- A fault of ParseString stays the message: Fail keeps the first.
unfoldable pub key_at : Bytes → Parsed Bytes
key_at [] = failed expected_key []
key_at (c ∷ s) = parse_string (c ∷ s)

unfoldable pub colon_at : (Bytes → Parsed JsonValue) → Bytes → Parsed JsonValue
colon_at value [] = failed expected_colon []
colon_at value (c ∷ s) = if c == b':' then value s else failed expected_colon (c ∷ s)

unfoldable pub behind_key : (Bytes → Bytes → Parsed JsonValue) → Parsed Bytes → Parsed JsonValue
behind_key value (done key s) = colon_at (value key) (skip_space s)
behind_key value (failed why s) = failed why s
behind_key value spent = spent

module _ (d : Double) where
  unfoldable mutual
    pub parse_value : ℕ → Bytes → Parsed JsonValue
    parse_value zero text = spent
    parse_value (suc n) text =
        value_at d
          (λ s. unless_closed b']' (array no_items) (parse_items n no_items) (skip_space s))
          (λ s. unless_closed b'}' (object no_members) (parse_members n no_members) (skip_space s))
          (skip_space text)

    pub parse_items : ℕ → Items → Bytes → Parsed JsonValue
    parse_items zero xs text = spent
    parse_items (suc n) xs text = behind_item (parse_items n) xs (parse_value n text)

    pub parse_members : ℕ → Members → Bytes → Parsed JsonValue
    parse_members zero ms text = spent
    parse_members (suc n) ms text =
        behind_key (λ key s. behind_member (parse_members n) ms key (parse_value n s))
          (key_at (skip_space text))

abbrev pub message : Fault → Bytes
message end_of_input = codes "unexpected end of input"
message bad_literal = codes "bad literal"
message expected_string = codes "expected a string"
message unterminated_escape = codes "unterminated escape"
message truncated_escape = codes "truncated \\u escape"
message unknown_escape = codes "unknown escape"
message unterminated_string = codes "unterminated string"
message expected_value = codes "expected a value"
message unterminated_array = codes "unterminated array"
message expected_comma = codes "expected ',' or ']'"
message expected_key = codes "expected a key"
message expected_colon = codes "expected ':'"
message unterminated_object = codes "unterminated object"
message expected_member_comma = codes "expected ',' or '}'"

-- Fail, where the text from m_pos on is `rest`
unfoldable pub fail_text : Bytes → Fault → Bytes → Bytes
fail_text text why rest =
    message why ++ (codes " at offset " ++ decimal ((length text - length rest) % 2 ^ 32))

-- AtEnd, behind the top-level value
unfoldable pub whole : JsonValue → Bytes → JsonValue × Bytes
whole v [] = (v, [])
whole v (c ∷ s) = (null, codes "trailing content after the top-level value")

unfoldable pub outcome : Bytes → Parsed JsonValue → JsonValue × Bytes
outcome text (done v rest) = whole v (skip_space rest)
outcome text (failed why rest) = (null, fail_text text why rest)
outcome text spent = (null, [])

-- Parse: the value and `*error`.
unfoldable pub parse : Double → Bytes → JsonValue × Bytes
unfolding parse_value outcome whole fail_text value_at unless_closed behind_item behind_member
    key_at colon_at behind_key separator string_value push set_member skip_space starts_with literal
    parse_string parse_number
parse d text = outcome text (parse_value d (2 * length text + 1) text)
