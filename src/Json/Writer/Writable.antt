-- ===== src/Json/Writer/Writable.antt =====
-- The values of src/Json.cpp whose text stands for them, and the bytes that such a text begins with.
use euroscope_plugin_bridge.Prelude.{ℕ, zero, suc, ◌≡◌, refl, sym, ap, ◌∙◌, Bool, true, false, ◌++◌}
use euroscope_plugin_bridge.Text.{Bytes}
use euroscope_plugin_bridge.Json.{
  JsonValue, null, boolean, number, string, array, object, Items, no_items, item, push, Members,
  no_members, member,
}
use euroscope_plugin_bridge.Json.Sorted.{IsSorted}
use euroscope_plugin_bridge.Json.Double.{Double, IsReadable, number_text}
use euroscope_plugin_bridge.Json.Scan.{done, is_blank}
use euroscope_plugin_bridge.Json.Parser.{value_at, parse_value}
use euroscope_plugin_bridge.Json.Writer.{write_string, write_value}
use euroscope_plugin_bridge.Json.Writer.Heads.{
  AreBlank, skip_space-blank, Opens, Opens-append, skip_space-Opens, IsNumeral-Opens, Stops,
  value_at-numeral, parse_number-append,
}

-- Values that the file format can hold: readable numbers, and objects as std::map keeps them.
unfoldable mutual
  pub IsWritable : Double → JsonValue → Type 0
  IsWritable d null = Unit {0}
  IsWritable d (boolean b) = Unit {0}
  IsWritable d (number n) = IsReadable d n
  IsWritable d (string s) = Unit {0}
  IsWritable d (array xs) = AllWritable d xs
  IsWritable d (object ms) = IsSorted ms × MembersWritable d ms

  pub AllWritable : Double → Items → Type 0
  AllWritable d no_items = Unit {0}
  AllWritable d (item x xs) = IsWritable d x × AllWritable d xs

  pub MembersWritable : Double → Members → Type 0
  MembersWritable d no_members = Unit {0}
  MembersWritable d (member k v ms) = IsWritable d v × MembersWritable d ms

-- The items pushed one after the other.
unfoldable pub push_all : Items → Items → Items
push_all xs no_items = xs
push_all xs (item y ys) = push_all (push xs y) ys

join_items : Items → Items → Items
join_items no_items ys = ys
join_items (item x xs) ys = item x (join_items xs ys)

push-join :
    (xs : Items) (y : JsonValue) (ys : Items)
    → join_items (push xs y) ys ≡ join_items xs (item y ys)
unfolding join_items push
push-join no_items y ys = refl
push-join (item x xs) y ys = ap (item x) (push-join xs y ys)

join_items-none : (xs : Items) → join_items xs no_items ≡ xs
unfolding join_items
join_items-none no_items = refl
join_items-none (item x xs) = ap (item x) (join_items-none xs)

push_all-join : (xs ys : Items) → push_all xs ys ≡ join_items xs ys
unfolding push_all
push_all-join xs no_items = sym (join_items-none xs)
push_all-join xs (item y ys) = push_all-join (push xs y) ys ∙ push-join xs y ys

pub push_all-none : (ys : Items) → push_all no_items ys ≡ ys
unfolding join_items
push_all-none ys = push_all-join no_items ys

abbrev pub IsNonempty : Items → Type 0
IsNonempty no_items = ⊥
IsNonempty (item x xs) = Unit {0}

abbrev pub HasMembers : Members → Type 0
HasMembers no_members = ⊥
HasMembers (member k v ms) = Unit {0}

module _ (d : Double) (pretty : Bool) where
  pub parse_value-blank :
      (rounds : ℕ) (gap s : Bytes)
      → AreBlank gap
      → parse_value d rounds (gap ++ s) ≡ parse_value d rounds s
  unfolding parse_value
  parse_value-blank zero gap s h = refl
  parse_value-blank (suc rounds) gap s h = ap (value_at d _ _) (skip_space-blank gap s h)

  -- A number's text is read as the number.
  pub parse_value-number :
      (rounds n : ℕ) (rest : Bytes)
      → IsReadable d n
      → Stops rest
      → parse_value d (suc rounds) (number_text d n ++ rest) ≡ done (number n) rest
  unfolding parse_value
  parse_value-number rounds n rest h stop =
      ap (value_at d _ _) (
        skip_space-Opens (number_text d n ++ rest)
          (Opens-append (number_text d n) rest (IsNumeral-Opens (number_text d n) h.numeral)))
      ∙ value_at-numeral d _ _ (number_text d n) rest h.numeral
      ∙ parse_number-append d (number_text d n) rest h.numeral stop
      ∙ ap (λ m. done (number m) rest) h.read_back

  pub write_value-Opens :
      (indent : ℕ) (v : JsonValue) → IsWritable d v → Opens (write_value d pretty indent v)
  unfolding write_value write_string IsWritable is_blank
  write_value-Opens indent null h = record { solid = refl; no_comment = refl; no_end = refl }
  write_value-Opens indent (boolean true) h = record {
    solid = refl;
    no_comment = refl;
    no_end = refl;
  }
  write_value-Opens indent (boolean false) h = record {
    solid = refl;
    no_comment = refl;
    no_end = refl;
  }
  write_value-Opens indent (number n) h = IsNumeral-Opens (number_text d n) h.numeral
  write_value-Opens indent (string s) h = record { solid = refl; no_comment = refl; no_end = refl }
  write_value-Opens indent (array no_items) h = record {
    solid = refl;
    no_comment = refl;
    no_end = refl;
  }
  write_value-Opens indent (array (item x xs)) h = record {
    solid = refl;
    no_comment = refl;
    no_end = refl;
  }
  write_value-Opens indent (object no_members) h = record {
    solid = refl;
    no_comment = refl;
    no_end = refl;
  }
  write_value-Opens indent (object (member k v ms)) h = record {
    solid = refl;
    no_comment = refl;
    no_end = refl;
  }
