-- ===== src/Json/Writer/Layout.antt =====
-- How the texts of arrays and objects that WriteValue of src/Json.cpp writes are put together, and how the
-- parser takes them apart.
use euroscope_plugin_bridge.Prelude.{
  ℕ, suc, ◌+◌, ◌≤◌, ◌≡◌, refl, ap, ◌∙◌, Bool, true, false, [], ◌∷◌, ◌++◌, length, length-append,
  arith, append_assoc,
}
use euroscope_plugin_bridge.Text.{Bytes}
use euroscope_plugin_bridge.Json.{JsonValue, array, object, Items, item, Members, member}
use euroscope_plugin_bridge.Json.Double.{Double, is_numeral}
use euroscope_plugin_bridge.Json.Scan.{skip_space}
use euroscope_plugin_bridge.Json.Writer.{
  pad, spaces, newline, colon, write_string, write_value, write_items, write_members,
}
use euroscope_plugin_bridge.Json.Writer.Heads.{
  pad-AreBlank, newline-AreBlank, skip_space-blank, Stops,
}

-- What stands behind the last item or member.
unfoldable pub closing : Bool → ℕ → ℕ → Bytes → Bytes
closing pretty indent bracket rest = newline pretty ++ (pad pretty indent ++ (bracket ∷ rest))

pub Stops-closing :
    (pretty : Bool) (indent bracket : ℕ) (rest : Bytes)
    → is_numeral bracket ≡ false
    → Stops (closing pretty indent bracket rest)
unfolding closing pad spaces
Stops-closing true indent bracket rest h = refl
Stops-closing false indent bracket rest h = h

pub skip_space-closing :
    (pretty : Bool) (indent bracket : ℕ) (rest : Bytes)
    → skip_space (bracket ∷ rest) ≡ bracket ∷ rest
    → skip_space (closing pretty indent bracket rest) ≡ bracket ∷ rest
unfolding closing
skip_space-closing pretty indent bracket rest h =
    skip_space-blank (newline pretty) (pad pretty indent ++ (bracket ∷ rest))
      (newline-AreBlank pretty)
    ∙ skip_space-blank (pad pretty indent) (bracket ∷ rest) (pad-AreBlank pretty indent)
    ∙ h

module _ (d : Double) (pretty : Bool) where
  pub items_text :
      (indent : ℕ) (x : JsonValue) (xs : Items) (t : Bytes)
      → write_items d pretty indent true (item x xs) ++ t
        ≡ pad pretty (indent + 1)
          ++ (write_value d pretty (indent + 1) x ++ (write_items d pretty indent false xs ++ t))
  unfolding write_value
  items_text indent x xs t =
      append_assoc (pad pretty (indent + 1)) _ t
      ∙ ap (λ u. pad pretty (indent + 1) ++ u)
          (append_assoc (write_value d pretty (indent + 1) x) _ t)

  pub more_items_text :
      (indent : ℕ) (y : JsonValue) (ys : Items) (t : Bytes)
      → write_items d pretty indent false (item y ys) ++ t
        ≡ b',' ∷ (newline pretty ++ (write_items d pretty indent true (item y ys) ++ t))
  unfolding write_value
  more_items_text indent y ys t = append_assoc (b',' ∷ newline pretty) _ t

  pub array_text :
      (indent : ℕ) (x : JsonValue) (xs : Items) (rest : Bytes)
      → write_value d pretty indent (array (item x xs)) ++ rest
        ≡ b'['
          ∷ (newline pretty
              ++ (write_items d pretty indent true (item x xs) ++ closing pretty indent b']' rest))
  unfolding write_value closing
  array_text indent x xs rest =
      let all = write_items d pretty indent true (item x xs) in
      let p = pad pretty indent in
      ap (λ t. b'[' ∷ t)
        (append_assoc (newline pretty) (all ++ (newline pretty ++ (p ++ (b']' ∷ [])))) rest
          ∙ ap (λ t. newline pretty ++ t)
              (append_assoc all (newline pretty ++ (p ++ (b']' ∷ []))) rest
                ∙ ap (λ t. all ++ t)
                    (append_assoc (newline pretty) (p ++ (b']' ∷ [])) rest
                      ∙ ap (λ t. newline pretty ++ t) (append_assoc p (b']' ∷ []) rest))))

  pub members_text :
      (indent : ℕ) (k : Bytes) (v : JsonValue) (ms : Members) (t : Bytes)
      → write_members d pretty indent true (member k v ms) ++ t
        ≡ pad pretty (indent + 1)
          ++ (write_string k
              ++ (colon pretty
                  ++ (write_value d pretty (indent + 1) v
                      ++ (write_members d pretty indent false ms ++ t))))
  unfolding write_value
  members_text indent k v ms t =
      append_assoc (pad pretty (indent + 1)) _ t
      ∙ ap (λ u. pad pretty (indent + 1) ++ u)
          (append_assoc (write_string k) _ t
            ∙ ap (λ u. write_string k ++ u)
                (append_assoc (colon pretty) _ t
                  ∙ ap (λ u. colon pretty ++ u)
                      (append_assoc (write_value d pretty (indent + 1) v) _ t)))

  pub more_members_text :
      (indent : ℕ) (k : Bytes) (v : JsonValue) (ms : Members) (t : Bytes)
      → write_members d pretty indent false (member k v ms) ++ t
        ≡ b',' ∷ (newline pretty ++ (write_members d pretty indent true (member k v ms) ++ t))
  unfolding write_value
  more_members_text indent k v ms t = append_assoc (b',' ∷ newline pretty) _ t

  pub object_text :
      (indent : ℕ) (k : Bytes) (v : JsonValue) (ms : Members) (rest : Bytes)
      → write_value d pretty indent (object (member k v ms)) ++ rest
        ≡ b'{'
          ∷ (newline pretty
              ++ (write_members d pretty indent true (member k v ms)
                  ++ closing pretty indent b'}' rest))
  unfolding write_value closing
  object_text indent k v ms rest =
      let all = write_members d pretty indent true (member k v ms) in
      let p = pad pretty indent in
      ap (λ t. b'{' ∷ t)
        (append_assoc (newline pretty) (all ++ (newline pretty ++ (p ++ (b'}' ∷ [])))) rest
          ∙ ap (λ t. newline pretty ++ t)
              (append_assoc all (newline pretty ++ (p ++ (b'}' ∷ []))) rest
                ∙ ap (λ t. all ++ t)
                    (append_assoc (newline pretty) (p ++ (b'}' ∷ [])) rest
                      ∙ ap (λ t. newline pretty ++ t) (append_assoc p (b'}' ∷ []) rest))))

  pub items_length :
      (indent : ℕ) (x : JsonValue) (xs : Items)
      → length (write_value d pretty (indent + 1) x) + length (write_items d pretty indent false xs)
        ≤ length (write_items d pretty indent true (item x xs))
  items_length indent x xs = omega (arith, ap length (items_text indent x xs []), length-append {0})

  pub more_items_length :
      (indent : ℕ) (y : JsonValue) (ys : Items)
      → suc (length (write_items d pretty indent true (item y ys)))
        ≤ length (write_items d pretty indent false (item y ys))
  more_items_length indent y ys =
      omega (arith, ap length (more_items_text indent y ys []), length-append {0})

  pub array_length :
      (indent : ℕ) (x : JsonValue) (xs : Items)
      → suc (suc (length (write_items d pretty indent true (item x xs))))
        ≤ length (write_value d pretty indent (array (item x xs)))
  unfolding write_value
  array_length indent x xs = omega (arith, length-append {0})

  pub members_length :
      (indent : ℕ) (k : Bytes) (v : JsonValue) (ms : Members)
      → length (write_value d pretty (indent + 1) v)
          + length (write_members d pretty indent false ms)
        ≤ length (write_members d pretty indent true (member k v ms))
  members_length indent k v ms =
      omega (arith, ap length (members_text indent k v ms []), length-append {0})

  pub more_members_length :
      (indent : ℕ) (k : Bytes) (v : JsonValue) (ms : Members)
      → suc (length (write_members d pretty indent true (member k v ms)))
        ≤ length (write_members d pretty indent false (member k v ms))
  more_members_length indent k v ms =
      omega (arith, ap length (more_members_text indent k v ms []), length-append {0})

  pub object_length :
      (indent : ℕ) (k : Bytes) (v : JsonValue) (ms : Members)
      → suc (suc (length (write_members d pretty indent true (member k v ms))))
        ≤ length (write_value d pretty indent (object (member k v ms)))
  unfolding write_value
  object_length indent k v ms = omega (arith, length-append {0})
