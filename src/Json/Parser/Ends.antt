-- ===== src/Json/Parser/Ends.antt =====
-- The rounds that Parse of src/Json.cpp is given reach its end, and a value is at least a byte long.
use euroscope_plugin_bridge.Prelude.{
  ℕ, zero, suc, ◌+◌, ◌*◌, ◌≤◌, ◌<◌, true, false, [], ◌∷◌, ◌==◌, length, arith, Bool-cases, inl, inr,
}
use euroscope_plugin_bridge.Text.{Bytes}
use euroscope_plugin_bridge.Json.{
  JsonValue, boolean, null, Items, no_items, push, Members, no_members, set_member,
}
use euroscope_plugin_bridge.Json.Double.{Double}
use euroscope_plugin_bridge.Json.Scan.{
  Fault, Parsed, done, failed, spent, skip_space, starts_with, parse_string,
}
use euroscope_plugin_bridge.Json.Scan.Bounds.{
  Ends, Ends-le, skip_space-le, parse_string-Ends, literal-Ends, parse_number-Ends,
}
use euroscope_plugin_bridge.Json.Parser.{
  string_value, value_at, unless_closed, separator, behind_item, behind_member, key_at, colon_at,
  behind_key, parse_value, parse_items, parse_members,
}

string_value-Ends : (n : ℕ) (p : Parsed Bytes) → Ends n p → Ends n (string_value p)
unfolding string_value
string_value-Ends n (done s rest) e = e
string_value-Ends n (failed why rest) e = tt
string_value-Ends n spent e = e

value_at-Ends :
    (d : Double) (array_at object_at : Bytes → Parsed JsonValue) (s : Bytes)
    → ((t : Bytes) → length t < length s → Ends (length s) (array_at t))
    → ((t : Bytes) → length t < length s → Ends (length s) (object_at t))
    → Ends (length s) (value_at d array_at object_at s)
unfolding value_at
value_at-Ends d array_at object_at [] ha ho = tt
value_at-Ends d array_at object_at (c ∷ s) ha ho =
    let inner : length s < suc (length s) = omega arith in
    elim (Bool-cases (c == b'{')) [
      | inl e ↦ rw e (ho s inner)
      | inr e ↦ rw e (elim (Bool-cases (c == b'[')) [
        | inl e ↦ rw e (ha s inner)
        | inr e ↦ rw e (elim (Bool-cases (c == b'"')) [
          | inl e ↦ rw e (string_value-Ends _ (parse_string (c ∷ s)) (parse_string-Ends (c ∷ s)))
          | inr e ↦ rw e (elim (Bool-cases (c == b't')) [
            | inl e ↦ rw e (literal-Ends b't' c _ (boolean true) s)
            | inr e ↦ rw e (elim (Bool-cases (c == b'f')) [
              | inl e ↦ rw e (literal-Ends b'f' c _ (boolean false) s)
              | inr e ↦ rw e (elim (Bool-cases (c == b'n')) [
                | inl e ↦ rw e (literal-Ends b'n' c _ null s)
                | inr e ↦ rw e (parse_number-Ends d (c ∷ s))
              ])
            ])
          ])
        ])
      ])
    ]

unless_closed-Ends :
    (bracket : ℕ) (v : JsonValue) (loop : Bytes → Parsed JsonValue) (s : Bytes) (n : ℕ)
    → length s < n
    → Ends n (loop s)
    → Ends n (unless_closed bracket v loop s)
unfolding unless_closed starts_with
unless_closed-Ends bracket v loop [] n h e = e
unless_closed-Ends bracket v loop (c ∷ s) n h e = elim (Bool-cases (c == bracket)) [
  | inl q ↦ rw q (omega arith)
  | inr q ↦ rw q e
]

separator-Ends :
    (bracket : ℕ) (at_end wrong : Fault) (again : Bytes → Parsed JsonValue) (v : JsonValue)
    (s : Bytes) (n : ℕ)
    → length s < n
    → ((t : Bytes) → suc (length t) < n → Ends n (again t))
    → Ends n (separator bracket at_end wrong again v s)
unfolding separator
separator-Ends bracket at_end wrong again v [] n h e = tt
separator-Ends bracket at_end wrong again v (c ∷ s) n h e = elim (Bool-cases (c == b',')) [
  | inl q ↦ rw q (e s h)
  | inr q ↦ rw q (elim (Bool-cases (c == bracket)) [ inl q ↦ rw q (omega arith) | inr q ↦ rw q tt ])
]

behind_item-Ends :
    (loop : Items → Bytes → Parsed JsonValue) (xs : Items) (p : Parsed JsonValue) (n : ℕ)
    → Ends n p
    → ((ys : Items) (t : Bytes) → suc (length t) < n → Ends n (loop ys t))
    → Ends n (behind_item loop xs p)
unfolding behind_item
behind_item-Ends loop xs (done v s) n e next =
    separator-Ends _ _ _ (loop (push xs v)) _ (skip_space s) n (omega (arith, skip_space-le s))
      (next (push xs v))
behind_item-Ends loop xs (failed why s) n e next = tt
behind_item-Ends loop xs spent n e next = absurd e

behind_member-Ends :
    (loop : Members → Bytes → Parsed JsonValue) (ms : Members) (key : Bytes) (p : Parsed JsonValue)
    (n : ℕ)
    → Ends n p
    → ((ks : Members) (t : Bytes) → suc (length t) < n → Ends n (loop ks t))
    → Ends n (behind_member loop ms key p)
unfolding behind_member
behind_member-Ends loop ms key (done v s) n e next =
    separator-Ends _ _ _ (loop (set_member key v ms)) _ (skip_space s) n
      (omega (arith, skip_space-le s)) (next (set_member key v ms))
behind_member-Ends loop ms key (failed why s) n e next = tt
behind_member-Ends loop ms key spent n e next = absurd e

key_at-Ends : (s : Bytes) → Ends (length s) (key_at s)
unfolding key_at
key_at-Ends [] = tt
key_at-Ends (c ∷ s) = parse_string-Ends (c ∷ s)

colon_at-Ends :
    (value : Bytes → Parsed JsonValue) (s : Bytes) (n : ℕ)
    → length s < n
    → ((t : Bytes) → length t < n → Ends n (value t))
    → Ends n (colon_at value s)
unfolding colon_at
colon_at-Ends value [] n h e = tt
colon_at-Ends value (c ∷ s) n h e = elim (Bool-cases (c == b':')) [
  | inl q ↦ rw q (e s (omega arith))
  | inr q ↦ rw q tt
]

behind_key-Ends :
    (value : Bytes → Bytes → Parsed JsonValue) (p : Parsed Bytes) (n : ℕ)
    → Ends n p
    → ((key t : Bytes) → length t < n → Ends n (value key t))
    → Ends n (behind_key value p)
unfolding behind_key
behind_key-Ends value (done key s) n e next =
    colon_at-Ends (value key) (skip_space s) n (omega (arith, skip_space-le s)) (next key)
behind_key-Ends value (failed why s) n e next = tt
behind_key-Ends value spent n e next = absurd e

module _ (d : Double) where
  mutual
    unfolding parse_value

    parse_value-Ends_within :
        (rounds : ℕ) (s : Bytes) → 2 * length s < rounds → Ends (length s) (parse_value d rounds s)
    parse_value-Ends_within zero s h = absurd (omega arith)
    parse_value-Ends_within (suc rounds) s h =
        let t = skip_space s in
        let shorter : length t ≤ length s = skip_space-le s in
        Ends-le (length t) (length s) _ shorter (
          value_at-Ends d _ _ t
            (λ u hu.
              unless_closed-Ends _ _ (parse_items d rounds no_items) (skip_space u) (length t)
                (omega (arith, skip_space-le u))
                (Ends-le (length (skip_space u)) (length t)
                  (parse_items d rounds no_items (skip_space u)) (omega (arith, skip_space-le u))
                  (parse_items-Ends rounds no_items (skip_space u)
                    (omega (arith, skip_space-le u)))))
            (λ u hu.
              unless_closed-Ends _ _ (parse_members d rounds no_members) (skip_space u) (length t)
                (omega (arith, skip_space-le u))
                (Ends-le (length (skip_space u)) (length t)
                  (parse_members d rounds no_members (skip_space u))
                  (omega (arith, skip_space-le u))
                  (parse_members-Ends rounds no_members (skip_space u)
                    (omega (arith, skip_space-le u))))))

    parse_items-Ends :
        (rounds : ℕ) (xs : Items) (s : Bytes)
        → 2 * length s + 1 < rounds
        → Ends (length s) (parse_items d rounds xs s)
    parse_items-Ends zero xs s h = absurd (omega arith)
    parse_items-Ends (suc rounds) xs s h =
        behind_item-Ends (parse_items d rounds) xs (parse_value d rounds s) (length s)
          (parse_value-Ends_within rounds s (omega arith))
          (λ ys t ht.
            Ends-le (length t) (length s) (parse_items d rounds ys t) (omega arith)
              (parse_items-Ends rounds ys t (omega arith)))

    parse_members-Ends :
        (rounds : ℕ) (ms : Members) (s : Bytes)
        → 2 * length s + 1 < rounds
        → Ends (length s) (parse_members d rounds ms s)
    parse_members-Ends zero ms s h = absurd (omega arith)
    parse_members-Ends (suc rounds) ms s h =
        behind_key-Ends _ (key_at (skip_space s)) (length s)
          (Ends-le (length (skip_space s)) (length s) (key_at (skip_space s)) (skip_space-le s)
            (key_at-Ends (skip_space s)))
          (λ key t ht.
            behind_member-Ends (parse_members d rounds) ms key (parse_value d rounds t) (length s)
              (Ends-le (length t) (length s) (parse_value d rounds t) (omega arith)
                (parse_value-Ends_within rounds t (omega arith)))
              (λ ks u hu.
                Ends-le (length u) (length s) (parse_members d rounds ks u) (omega arith)
                  (parse_members-Ends rounds ks u (omega arith))))

-- The parser comes to an end: with more rounds than twice the bytes of the text, and Parse gives it one more,
-- it never runs out of rounds, and where it gives a value it has read at least a byte of the text.
pub parse_value-Ends :
    (d : Double) (rounds : ℕ) (s : Bytes)
    → 2 * length s < rounds
    → Ends (length s) (parse_value d rounds s)
parse_value-Ends d rounds s h = parse_value-Ends_within d rounds s h
