-- ===== src/Json.antt =====
-- The JSON values of src/Json.h and their accessors (src/Json.cpp).
-- A double is its bit pattern; what the code does with it is a record of functions. A std::map keeps its
-- keys sorted: the members of an object stand in the order of std::string.
pub mod Double
pub mod Sorted
pub mod Scan
pub mod Parser
pub mod Writer
pub mod Tests
use euroscope_plugin_bridge.Prelude.{
  ℕ, Bool, true, false, [], ◌∷◌, Option, none, some, ◌≡◌, refl, ltb, bytes_eq, bytes_eq_iff, ◌==◌,
  if◌then◌else◌, arith,
}
use euroscope_plugin_bridge.Text.{Bytes}

mutual
  pub data JsonValue : Type 0 where
    null : JsonValue
    boolean : Bool → JsonValue
    number : ℕ → JsonValue
    string : Bytes → JsonValue
    array : Items → JsonValue
    object : Members → JsonValue

  -- m_array
  pub data Items : Type 0 where
    no_items : Items
    item : JsonValue → Items → Items

  -- m_object
  pub data Members : Type 0 where
    no_members : Members
    member : Bytes → JsonValue → Members → Members

-- `operator<` of two std::string
unfoldable pub bytes_lt : Bytes → Bytes → Bool
bytes_lt s [] = false
bytes_lt [] (d ∷ t) = true
bytes_lt (c ∷ s) (d ∷ t) =
    let rest = bytes_lt s t in if ltb c d then true else (if c == d then rest else false)

-- Push
unfoldable pub push : Items → JsonValue → Items
push no_items v = item v no_items
push (item x xs) v = item x (push xs v)

-- `m_object[key] = v`
unfoldable pub set_member : Bytes → JsonValue → Members → Members
unfolding bytes_lt bytes_eq
set_member key v no_members = member key v no_members
set_member key v (member k w ms) =
    if bytes_lt key k
    then member key v (member k w ms)
    else (if bytes_eq k key then member k v ms else member k w (set_member key v ms))

unfoldable pub find : Bytes → Members → Option JsonValue
unfolding bytes_eq
find key no_members = none
find key (member k w ms) = if bytes_eq k key then some w else find key ms

-- Members and Items, which are empty in a value of another type.
abbrev pub members : JsonValue → Members
members (object ms) = ms
members _ = no_members

abbrev pub items : JsonValue → Items
items (array xs) = xs
items _ = no_items

unfoldable pub as_bool : JsonValue → Bool → Bool
as_bool (boolean b) fallback = b
as_bool _ fallback = fallback

unfoldable pub as_number : JsonValue → ℕ → ℕ
as_number (number n) fallback = n
as_number _ fallback = fallback

unfoldable pub as_string : JsonValue → Bytes
as_string (string s) = s
as_string _ = []

abbrev pub is_object : JsonValue → Bool
is_object (object ms) = true
is_object _ = false

abbrev pub is_string : JsonValue → Bool
is_string (string s) = true
is_string _ = false

-- `operator[]`: a missing key gives kNull.
unfoldable pub at : JsonValue → Bytes → JsonValue
unfolding find
at v key = elim (find key (members v)) [ none ↦ null | some w ↦ w ]

unfoldable pub has : JsonValue → Bytes → Bool
unfolding find
has v key = elim (find key (members v)) [ none ↦ false | some w ↦ true ]

-- Set. A value of another type becomes an object; m_object is empty there.
unfoldable pub set : JsonValue → Bytes → JsonValue → JsonValue
unfolding set_member
set v key w = object (set_member key w (members v))

-- A member reads back what was set last, and the others what they held.
pub find-set_member :
    (key k : Bytes) (v : JsonValue) (ms : Members)
    → find k (set_member key v ms) ≡ (if bytes_eq key k then some v else find k ms)
unfolding find set_member
find-set_member key k v no_members = refl
find-set_member key k v (member j w ms) =
    ground
      (arith, bytes_eq_iff key k, bytes_eq_iff j k, bytes_eq_iff j key, find-set_member key k v ms)
