-- ===== src/Json/Writer.antt =====
-- WriteString, WriteValue and Write of src/Json.cpp. `indent` is the depth, two spaces each.
pub mod Strings
pub mod Heads
pub mod Writable
pub mod Layout
pub mod Steps
pub mod RoundTrip
use euroscope_plugin_bridge.Prelude.{
  ℕ, zero, suc, ◌+◌, ◌*◌, ◌/◌, ◌%◌, Bool, true, false, [], ◌∷◌, ◌++◌, ltb, ◌==◌, if◌then◌else◌,
}
use euroscope_plugin_bridge.Text.{Bytes, codes, hex_pair}
use euroscope_plugin_bridge.Json.{
  JsonValue, null, boolean, number, string, array, object, Items, no_items, item, Members,
  no_members, member,
}
use euroscope_plugin_bridge.Json.Double.{Double, number_text}

-- The text of a character; `\u%04x` of a byte is two zeros and its two digits.
unfoldable pub escaped : ℕ → Bytes
unfolding hex_pair
escaped c =
    if c == b'"'
    then b'\\' ∷ b'"' ∷ []
    else (if c == b'\\'
        then b'\\' ∷ b'\\' ∷ []
        else (if c == 8
            then b'\\' ∷ b'b' ∷ []
            else (if c == 12
                then b'\\' ∷ b'f' ∷ []
                else (if c == b'\n'
                    then b'\\' ∷ b'n' ∷ []
                    else (if c == b'\r'
                        then b'\\' ∷ b'r' ∷ []
                        else (if c == b'\t'
                            then b'\\' ∷ b't' ∷ []
                            else (if ltb c 0x20
                                then b'\\' ∷ b'u' ∷ b'0' ∷ b'0' ∷ hex_pair c
                                else c ∷ [])))))))

unfoldable pub escape_all : Bytes → Bytes
unfolding escaped
escape_all [] = []
escape_all (c ∷ s) = escaped c ++ escape_all s

unfoldable pub write_string : Bytes → Bytes
unfolding escape_all
write_string s = b'"' ∷ (escape_all s ++ (b'"' ∷ []))

unfoldable pub spaces : ℕ → Bytes
spaces zero = []
spaces (suc n) = b' ' ∷ spaces n

-- `pad` and `padIn` at their depth, and `nl`
unfoldable pub pad : Bool → ℕ → Bytes
unfolding spaces
pad pretty indent = spaces (if pretty then indent * 2 else 0)

abbrev pub newline : Bool → Bytes
newline pretty = if pretty then b'\n' ∷ [] else []

abbrev pub colon : Bool → Bytes
colon pretty = if pretty then b':' ∷ b' ' ∷ [] else b':' ∷ []

-- The comma that stands before every item but the first.
abbrev pub comma : Bool → Bool → Bytes
comma pretty first = if first then [] else b',' ∷ newline pretty

module _ (d : Double) (pretty : Bool) where
  unfoldable mutual
    unfolding pad write_string number_text

    pub write_value : ℕ → JsonValue → Bytes
    write_value indent null = codes "null"
    write_value indent (boolean true) = codes "true"
    write_value indent (boolean false) = codes "false"
    write_value indent (number n) = number_text d n
    write_value indent (string s) = write_string s
    write_value indent (array no_items) = codes "[]"
    write_value indent (array (item x xs)) =
        b'['
        ∷ (newline pretty
            ++ (write_items indent true (item x xs)
                ++ (newline pretty ++ (pad pretty indent ++ (b']' ∷ [])))))
    write_value indent (object no_members) = codes "{}"
    write_value indent (object (member k v ms)) =
        b'{'
        ∷ (newline pretty
            ++ (write_members indent true (member k v ms)
                ++ (newline pretty ++ (pad pretty indent ++ (b'}' ∷ [])))))

    pub write_items : ℕ → Bool → Items → Bytes
    write_items indent first no_items = []
    write_items indent first (item x xs) =
        comma pretty first
        ++ (pad pretty (indent + 1) ++ (write_value (indent + 1) x ++ write_items indent false xs))

    pub write_members : ℕ → Bool → Members → Bytes
    write_members indent first no_members = []
    write_members indent first (member k v ms) =
        comma pretty first
        ++ (pad pretty (indent + 1)
            ++ (write_string k
                ++ (colon pretty ++ (write_value (indent + 1) v ++ write_members indent false ms))))

-- Write
unfoldable pub write : Double → JsonValue → Bool → Bytes
unfolding write_value
write d v pretty = write_value d pretty 0 v ++ newline pretty
