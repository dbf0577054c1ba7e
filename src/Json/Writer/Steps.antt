-- ===== src/Json/Writer/Steps.antt =====
-- The steps of the parser of src/Json.cpp over an array or an object that WriteValue wrote.
use euroscope_plugin_bridge.Prelude.{
  ℕ, zero, suc, ◌+◌, ◌≡◌, refl, sym, ap, ◌∙◌, Bool, true, false, [], ◌∷◌, ◌++◌,
}
use euroscope_plugin_bridge.Text.{Bytes}
use euroscope_plugin_bridge.Json.{
  JsonValue, array, object, Items, no_items, item, push, Members, no_members, member, set_member,
}
use euroscope_plugin_bridge.Json.Double.{Double}
use euroscope_plugin_bridge.Json.Scan.{Parsed, done, skip_space, skip_from, is_blank, starts_with}
use euroscope_plugin_bridge.Json.Parser.{
  value_at, unless_closed, separator, behind_item, behind_member, key_at, colon_at, behind_key,
  parse_value, parse_items, parse_members,
}
use euroscope_plugin_bridge.Json.Writer.{
  pad, newline, colon, write_string, write_value, write_items, write_members,
}
use euroscope_plugin_bridge.Json.Writer.Strings.{parse_string-write_string}
use euroscope_plugin_bridge.Json.Writer.Heads.{
  pad-AreBlank, newline-AreBlank, skip_space-blank, AreBlank, Opens-append, skip_space-Opens,
  unless_closed-Opens,
}
use euroscope_plugin_bridge.Json.Writer.Writable.{IsWritable, parse_value-blank, write_value-Opens}
use euroscope_plugin_bridge.Json.Writer.Layout.{
  closing, skip_space-closing, items_text, more_items_text, array_text, members_text,
  more_members_text, object_text,
}

behind_key-colon :
    (pretty : Bool) (value : Bytes → Parsed JsonValue) (s : Bytes)
    → ((t : Bytes) → value (b' ' ∷ t) ≡ value t)
    → colon_at value (skip_space (colon pretty ++ s)) ≡ value s
unfolding colon_at skip_space skip_from is_blank
behind_key-colon true value s h = h s
behind_key-colon false value s h = refl

skip_space-quote : (k rest : Bytes) → skip_space (write_string k ++ rest) ≡ write_string k ++ rest
unfolding skip_space skip_from is_blank write_string
skip_space-quote k rest = refl

key_at-write_string : (k rest : Bytes) → key_at (write_string k ++ rest) ≡ done k rest
unfolding key_at write_string
key_at-write_string k rest = parse_string-write_string k rest

parse_value-space :
    (d : Double) (rounds : ℕ) (s : Bytes) → parse_value d rounds (b' ' ∷ s) ≡ parse_value d rounds s
unfolding is_blank
parse_value-space d rounds s = parse_value-blank d true rounds (b' ' ∷ []) s (refl, tt)

module _ (d : Double) (pretty : Bool) where
  parse_items-blank :
      (rounds : ℕ) (xs : Items) (gap s : Bytes)
      → AreBlank gap
      → parse_items d rounds xs (gap ++ s) ≡ parse_items d rounds xs s
  unfolding parse_value
  parse_items-blank zero xs gap s h = refl
  parse_items-blank (suc rounds) xs gap s h =
      ap (behind_item (parse_items d rounds) xs) (parse_value-blank d pretty rounds gap s h)

  parse_members-blank :
      (rounds : ℕ) (ms : Members) (gap s : Bytes)
      → AreBlank gap
      → parse_members d rounds ms (gap ++ s) ≡ parse_members d rounds ms s
  unfolding parse_value
  parse_members-blank zero ms gap s h = refl
  parse_members-blank (suc rounds) ms gap s h =
      ap
        (λ t.
          behind_key
            (λ key s. behind_member (parse_members d rounds) ms key (parse_value d rounds s))
            (key_at t))
        (skip_space-blank gap s h)

  -- The bracket of an array that is not empty: the loop begins at the first item.
  pub into_array :
      (rounds indent : ℕ) (x : JsonValue) (xs : Items) (rest : Bytes)
      → IsWritable d x
      → parse_value d (suc rounds) (write_value d pretty indent (array (item x xs)) ++ rest)
        ≡ parse_items d rounds no_items
            (write_items d pretty indent true (item x xs) ++ closing pretty indent b']' rest)
  unfolding parse_value value_at skip_from skip_space is_blank
  into_array rounds indent x xs rest hx =
      let c = closing pretty indent b']' rest in
      let t = write_items d pretty indent true (item x xs) ++ c in
      let value = write_value d pretty (indent + 1) x in
      let behind = value ++ (write_items d pretty indent false xs ++ c) in
      let opens = Opens-append value _ (write_value-Opens d pretty (indent + 1) x hx) in
      ap (parse_value d (suc rounds)) (array_text d pretty indent x xs rest)
      ∙ ap (unless_closed b']' (array no_items) (parse_items d rounds no_items)) (
          skip_space-blank (newline pretty) t (newline-AreBlank pretty)
          ∙ ap skip_space (items_text d pretty indent x xs c)
          ∙ skip_space-blank (pad pretty (indent + 1)) behind (pad-AreBlank pretty (indent + 1))
          ∙ skip_space-Opens behind opens)
      ∙ unless_closed-Opens (array no_items) (parse_items d rounds no_items) behind opens
      ∙ sym (
          parse_items-blank rounds no_items (pad pretty (indent + 1)) behind
            (pad-AreBlank pretty (indent + 1)))
      ∙ ap (parse_items d rounds no_items) (sym (items_text d pretty indent x xs c))

  -- Behind an item: the loop ends at the bracket, or goes on behind the comma.
  pub behind_item-last :
      (loop : Items → Bytes → Parsed JsonValue) (xs : Items) (x : JsonValue) (indent : ℕ)
      (rest : Bytes)
      → behind_item loop xs (done x (closing pretty indent b']' rest))
        ≡ done (array (push xs x)) rest
  unfolding behind_item separator skip_space skip_from is_blank
  behind_item-last loop xs x indent rest =
      ap (separator b']' _ _ (loop (push xs x)) (array (push xs x)))
        (skip_space-closing pretty indent b']' rest refl)

  pub behind_item-more :
      (rounds : ℕ) (xs : Items) (x y : JsonValue) (ys : Items) (indent : ℕ) (t : Bytes)
      → behind_item
          (parse_items d rounds)
          xs
          (done x (write_items d pretty indent false (item y ys) ++ t))
        ≡ parse_items d rounds (push xs x) (write_items d pretty indent true (item y ys) ++ t)
  unfolding behind_item separator skip_space skip_from is_blank
  behind_item-more rounds xs x y ys indent t =
      ap (λ u. behind_item (parse_items d rounds) xs (done x u))
        (more_items_text d pretty indent y ys t)
      ∙ parse_items-blank rounds (push xs x) (newline pretty) _ (newline-AreBlank pretty)

  -- An item is read up to what follows it.
  pub read_item :
      (rounds indent : ℕ) (xs : Items) (x : JsonValue) (more : Items) (t : Bytes)
      → parse_value d rounds
          (write_value d pretty (indent + 1) x ++ (write_items d pretty indent false more ++ t))
        ≡ done x (write_items d pretty indent false more ++ t)
      → parse_items d (suc rounds) xs (write_items d pretty indent true (item x more) ++ t)
        ≡ behind_item
            (parse_items d rounds)
            xs
            (done x (write_items d pretty indent false more ++ t))
  unfolding parse_value
  read_item rounds indent xs x more t h = ap (behind_item (parse_items d rounds) xs) (
      ap (parse_value d rounds) (items_text d pretty indent x more t)
      ∙ parse_value-blank d pretty rounds (pad pretty (indent + 1)) _
          (pad-AreBlank pretty (indent + 1))
      ∙ h)

  -- The brace of an object that is not empty: the loop begins at the first key.
  pub into_object :
      (rounds indent : ℕ) (k : Bytes) (v : JsonValue) (ms : Members) (rest : Bytes)
      → parse_value d (suc rounds) (write_value d pretty indent (object (member k v ms)) ++ rest)
        ≡ parse_members d rounds no_members
            (write_members d pretty indent true (member k v ms) ++ closing pretty indent b'}' rest)
  unfolding parse_value value_at skip_from skip_space is_blank unless_closed starts_with
      write_string
  into_object rounds indent k v ms rest =
      let c = closing pretty indent b'}' rest in
      let t = write_members d pretty indent true (member k v ms) ++ c in
      let behind =
        write_string k
        ++ (colon pretty
            ++ (write_value d pretty (indent + 1) v
                ++ (write_members d pretty indent false ms ++ c))) in
      ap (parse_value d (suc rounds)) (object_text d pretty indent k v ms rest)
      ∙ ap (unless_closed b'}' (object no_members) (parse_members d rounds no_members)) (
          skip_space-blank (newline pretty) t (newline-AreBlank pretty)
          ∙ ap skip_space (members_text d pretty indent k v ms c)
          ∙ skip_space-blank (pad pretty (indent + 1)) behind (pad-AreBlank pretty (indent + 1)))
      ∙ sym (
          parse_members-blank rounds no_members (pad pretty (indent + 1)) behind
            (pad-AreBlank pretty (indent + 1)))
      ∙ ap (parse_members d rounds no_members) (sym (members_text d pretty indent k v ms c))

  pub behind_member-last :
      (loop : Members → Bytes → Parsed JsonValue) (ms : Members) (k : Bytes) (v : JsonValue)
      (indent : ℕ) (rest : Bytes)
      → behind_member loop ms k (done v (closing pretty indent b'}' rest))
        ≡ done (object (set_member k v ms)) rest
  unfolding behind_member separator skip_space skip_from is_blank
  behind_member-last loop ms k v indent rest =
      ap (separator b'}' _ _ (loop (set_member k v ms)) (object (set_member k v ms)))
        (skip_space-closing pretty indent b'}' rest refl)

  pub behind_member-more :
      (rounds : ℕ) (ms : Members) (k : Bytes) (v : JsonValue) (j : Bytes) (w : JsonValue)
      (more : Members) (indent : ℕ) (t : Bytes)
      → behind_member
          (parse_members d rounds)
          ms
          k
          (done v (write_members d pretty indent false (member j w more) ++ t))
        ≡ parse_members d rounds
            (set_member k v ms)
            (write_members d pretty indent true (member j w more) ++ t)
  unfolding behind_member separator skip_space skip_from is_blank
  behind_member-more rounds ms k v j w more indent t =
      ap (λ u. behind_member (parse_members d rounds) ms k (done v u))
        (more_members_text d pretty indent j w more t)
      ∙ parse_members-blank rounds (set_member k v ms) (newline pretty) _ (newline-AreBlank pretty)

  pub read_member :
      (rounds indent : ℕ) (ms : Members) (k : Bytes) (v : JsonValue) (more : Members) (t : Bytes)
      → parse_value d rounds
          (write_value d pretty (indent + 1) v ++ (write_members d pretty indent false more ++ t))
        ≡ done v (write_members d pretty indent false more ++ t)
      → parse_members d (suc rounds) ms (write_members d pretty indent true (member k v more) ++ t)
        ≡ behind_member
            (parse_members d rounds)
            ms
            k
            (done v (write_members d pretty indent false more ++ t))
  unfolding parse_value behind_key
  read_member rounds indent ms k v more t h =
      let go =
        λ (key s : Bytes). behind_member (parse_members d rounds) ms key (parse_value d rounds s) in
      let tail =
        write_value d pretty (indent + 1) v ++ (write_members d pretty indent false more ++ t) in
      ap (λ u. behind_key go (key_at (skip_space u))) (members_text d pretty indent k v more t)
      ∙ ap (λ u. behind_key go (key_at u))
          (skip_space-blank (pad pretty (indent + 1)) (write_string k ++ (colon pretty ++ tail))
              (pad-AreBlank pretty (indent + 1))
            ∙ skip_space-quote k (colon pretty ++ tail))
      ∙ ap (behind_key go) (key_at-write_string k (colon pretty ++ tail))
      ∙ behind_key-colon pretty (go k) tail
          (λ u. ap (behind_member (parse_members d rounds) ms k) (parse_value-space d rounds u))
      ∙ ap (behind_member (parse_members d rounds) ms k) h
