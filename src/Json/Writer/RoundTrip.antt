-- ===== src/Json/Writer/RoundTrip.antt =====
-- What Write of src/Json.cpp wrote is what Parse reads, at any depth and with either layout.
use euroscope_plugin_bridge.Prelude.{
  ℕ, zero, suc, ◌+◌, ◌*◌, ◌<◌, ◌≡◌, refl, ap, ◌∙◌, Bool, true, false, [], ◌++◌, length, arith,
  length-append,
}
use euroscope_plugin_bridge.Text.{Bytes}
use euroscope_plugin_bridge.Json.{
  JsonValue, null, boolean, number, string, array, object, Items, no_items, item, push, Members,
  no_members, member, set_member,
}
use euroscope_plugin_bridge.Json.Sorted.{set_all, set_all-sorted}
use euroscope_plugin_bridge.Json.Double.{Double}
use euroscope_plugin_bridge.Json.Scan.{done, skip_space, skip_from, is_blank, starts_with, literal}
use euroscope_plugin_bridge.Json.Parser.{
  value_at, string_value, unless_closed, parse_value, parse_items, parse_members, parse, outcome,
  whole,
}
use euroscope_plugin_bridge.Json.Writer.{newline, write_value, write_items, write_members, write}
use euroscope_plugin_bridge.Json.Writer.Strings.{parse_string-write_string}
use euroscope_plugin_bridge.Json.Writer.Heads.{Stops}
use euroscope_plugin_bridge.Json.Writer.Writable.{
  IsWritable, AllWritable, MembersWritable, push_all, push_all-none, IsNonempty, HasMembers,
  parse_value-number,
}
use euroscope_plugin_bridge.Json.Writer.Layout.{
  closing, Stops-closing, items_length, more_items_length, array_length, members_length,
  more_members_length, object_length,
}
use euroscope_plugin_bridge.Json.Writer.Steps.{
  into_array, behind_item-last, behind_item-more, read_item, into_object, behind_member-last,
  behind_member-more, read_member,
}

module _ (d : Double) (pretty : Bool) where
  mutual
    unfolding parse_value value_at string_value literal skip_space skip_from is_blank unless_closed
        starts_with write_value IsWritable push_all set_all

    value-read :
        (v : JsonValue) (indent rounds : ℕ) (rest : Bytes)
        → IsWritable d v
        → Stops rest
        → 2 * length (write_value d pretty indent v) < rounds
        → parse_value d rounds (write_value d pretty indent v ++ rest) ≡ done v rest
    value-read v indent zero rest h stop m = absurd (omega arith)
    value-read null indent (suc rounds) rest h stop m = refl
    value-read (boolean true) indent (suc rounds) rest h stop m = refl
    value-read (boolean false) indent (suc rounds) rest h stop m = refl
    value-read (number n) indent (suc rounds) rest h stop m =
        parse_value-number d pretty rounds n rest h stop
    value-read (string s) indent (suc rounds) rest h stop m =
        ap string_value (parse_string-write_string s rest)
    value-read (array no_items) indent (suc rounds) rest h stop m = refl
    value-read (array (item x xs)) indent (suc rounds) rest h stop m =
        into_array d pretty rounds indent x xs rest h.0
        ∙ items-read (item x xs) indent rounds no_items rest tt h
            (omega (arith, array_length d pretty indent x xs))
        ∙ ap (λ ys. done (array ys) rest) (push_all-none (item x xs))
    value-read (object no_members) indent (suc rounds) rest h stop m = refl
    value-read (object (member k v ms)) indent (suc rounds) rest h stop m =
        into_object d pretty rounds indent k v ms rest
        ∙ members-read (member k v ms) indent rounds no_members rest tt h.1
            (omega (arith, object_length d pretty indent k v ms))
        ∙ ap (λ ks. done (object ks) rest) (set_all-sorted (member k v ms) h.0)

    items-read :
        (zs : Items) (indent rounds : ℕ) (xs : Items) (rest : Bytes)
        → IsNonempty zs
        → AllWritable d zs
        → 2 * length (write_items d pretty indent true zs) + 1 < rounds
        → parse_items d rounds xs
            (write_items d pretty indent true zs ++ closing pretty indent b']' rest)
          ≡ done (array (push_all xs zs)) rest
    items-read no_items indent rounds xs rest full h m = absurd full
    items-read (item x zs) indent zero xs rest full h m = absurd (omega arith)
    items-read (item x no_items) indent (suc rounds) xs rest full h m =
        read_item d pretty rounds indent xs x no_items (closing pretty indent b']' rest) (
          value-read x (indent + 1) rounds (closing pretty indent b']' rest) h.0
            (Stops-closing pretty indent b']' rest refl)
            (omega (arith, items_length d pretty indent x no_items)))
        ∙ behind_item-last d pretty (parse_items d rounds) xs x indent rest
    items-read (item x (item y ys)) indent (suc rounds) xs rest full h m =
        let c = closing pretty indent b']' rest in
        read_item d pretty rounds indent xs x (item y ys) c (
          value-read x (indent + 1) rounds (write_items d pretty indent false (item y ys) ++ c) h.0
            refl (omega (arith, items_length d pretty indent x (item y ys))))
        ∙ behind_item-more d pretty rounds xs x y ys indent c
        ∙ items-read (item y ys) indent rounds (push xs x) rest tt h.1 (
            omega (
              arith,
              items_length d pretty indent x (item y ys),
              more_items_length d pretty indent y ys,
            ))

    members-read :
        (zs : Members) (indent rounds : ℕ) (ms : Members) (rest : Bytes)
        → HasMembers zs
        → MembersWritable d zs
        → 2 * length (write_members d pretty indent true zs) + 1 < rounds
        → parse_members d rounds ms
            (write_members d pretty indent true zs ++ closing pretty indent b'}' rest)
          ≡ done (object (set_all ms zs)) rest
    members-read no_members indent rounds ms rest full h m = absurd full
    members-read (member k v zs) indent zero ms rest full h m = absurd (omega arith)
    members-read (member k v no_members) indent (suc rounds) ms rest full h m =
        read_member d pretty rounds indent ms k v no_members (closing pretty indent b'}' rest) (
          value-read v (indent + 1) rounds (closing pretty indent b'}' rest) h.0
            (Stops-closing pretty indent b'}' rest refl)
            (omega (arith, members_length d pretty indent k v no_members)))
        ∙ behind_member-last d pretty (parse_members d rounds) ms k v indent rest
    members-read (member k v (member j w zs)) indent (suc rounds) ms rest full h m =
        let c = closing pretty indent b'}' rest in
        read_member d pretty rounds indent ms k v (member j w zs) c (
          value-read v (indent + 1) rounds
            (write_members d pretty indent false (member j w zs) ++ c) h.0 refl
            (omega (arith, members_length d pretty indent k v (member j w zs))))
        ∙ behind_member-more d pretty rounds ms k v j w zs indent c
        ∙ members-read (member j w zs) indent rounds (set_member k v ms) rest tt h.1 (
            omega (
              arith,
              members_length d pretty indent k v (member j w zs),
              more_members_length d pretty indent j w zs,
            ))

Stops-newline : (pretty : Bool) → Stops (newline pretty)
Stops-newline true = refl
Stops-newline false = tt

whole-newline : (v : JsonValue) (pretty : Bool) → whole v (skip_space (newline pretty)) ≡ (v, [])
unfolding whole skip_space skip_from is_blank
whole-newline v true = refl
whole-newline v false = refl

-- Whatever a value holds, its text is read as that value, with no error: for each value whose numbers are
-- read back from their texts and whose objects are sorted, at any depth and with either layout.
pub parse-write :
    (d : Double) (v : JsonValue) (pretty : Bool)
    → IsWritable d v
    → parse d (write d v pretty) ≡ (v, [])
unfolding parse write outcome
parse-write d v pretty h =
    let text = write_value d pretty 0 v ++ newline pretty in
    let enough : 2 * length (write_value d pretty 0 v) < 2 * length text + 1 =
      omega (arith, length-append (write_value d pretty 0 v) (newline pretty)) in
    ap (outcome text) (
      value-read d pretty v 0 (2 * length text + 1) (newline pretty) h (Stops-newline pretty)
        enough)
    ∙ whole-newline v pretty
