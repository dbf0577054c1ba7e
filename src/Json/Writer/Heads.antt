-- ===== src/Json/Writer/Heads.antt =====
-- What the parser of src/Json.cpp meets in a text that WriteValue wrote: the blanks between the tokens,
-- the byte that a value begins with, and the digits of a number.
use euroscope_plugin_bridge.Prelude.{
  ℕ, zero, suc, ◌≡◌, refl, Bool, true, false, ◌||◌, [], ◌∷◌, ◌++◌, ◌==◌, arith, All, Bool-cases,
  inl, inr,
}
use euroscope_plugin_bridge.Text.{Bytes}
use euroscope_plugin_bridge.Json.{JsonValue, number}
use euroscope_plugin_bridge.Json.Double.{Double, is_numeral, IsNumeral}
use euroscope_plugin_bridge.Json.Scan.{
  Parsed, done, skip_space, skip_from, is_blank, starts_with, numeral_loop, number_span, parse_span,
  parse_number,
}
use euroscope_plugin_bridge.Json.Parser.{value_at, unless_closed}
use euroscope_plugin_bridge.Json.Writer.{spaces, pad, newline}

abbrev pub AreBlank : Bytes → Type 0
AreBlank = All (λ c. is_blank c ≡ true)

pub spaces-AreBlank : (n : ℕ) → AreBlank (spaces n)
unfolding spaces is_blank
spaces-AreBlank zero = tt
spaces-AreBlank (suc n) = (refl, spaces-AreBlank n)

pub pad-AreBlank : (pretty : Bool) (indent : ℕ) → AreBlank (pad pretty indent)
unfolding pad
pad-AreBlank true indent = spaces-AreBlank _
pad-AreBlank false indent = spaces-AreBlank 0

pub newline-AreBlank : (pretty : Bool) → AreBlank (newline pretty)
unfolding is_blank
newline-AreBlank true = (refl, tt)
newline-AreBlank false = tt

pub skip_space-blank : (gap s : Bytes) → AreBlank gap → skip_space (gap ++ s) ≡ skip_space s
unfolding skip_space skip_from
skip_space-blank [] s h = refl
skip_space-blank (c ∷ gap) s h = rw h.0 (skip_space-blank gap s h.1)

-- A byte that begins a value.
pub record Starts (c : ℕ) : Type 0 where
  pub solid : is_blank c ≡ false
  pub no_comment : (c == b'/') ≡ false
  pub no_end : (c == b']') ≡ false

abbrev pub Opens : Bytes → Type 0
Opens [] = ⊥
Opens (c ∷ s) = Starts c

pub Opens-append : (s t : Bytes) → Opens s → Opens (s ++ t)
Opens-append [] t h = absurd h
Opens-append (c ∷ s) t h = h

pub skip_space-Opens : (s : Bytes) → Opens s → skip_space s ≡ s
unfolding skip_space skip_from
skip_space-Opens [] h = absurd h
skip_space-Opens (c ∷ s) h = rw (h.solid, h.no_comment) refl

pub unless_closed-Opens :
    (v : JsonValue) (loop : Bytes → Parsed JsonValue) (s : Bytes)
    → Opens s
    → unless_closed b']' v loop s ≡ loop s
unfolding unless_closed starts_with
unless_closed-Opens v loop [] h = absurd h
unless_closed-Opens v loop (c ∷ s) h = rw h.no_end refl

numeral-Starts : (c : ℕ) → is_numeral c ≡ true → Starts c
unfolding is_blank
numeral-Starts c h = record {
  solid = ground arith;
  no_comment = ground arith;
  no_end = ground arith;
}

pub IsNumeral-Opens : (s : Bytes) → IsNumeral s → Opens s
IsNumeral-Opens [] h = h.1 refl
IsNumeral-Opens (c ∷ s) h = numeral-Starts c h.0.0

-- What follows a number ends it.
abbrev pub Stops : Bytes → Type 0
Stops [] = Unit {0}
Stops (c ∷ s) = is_numeral c ≡ false

numeral_loop-append :
    (s rest : Bytes)
    → All (λ c. is_numeral c ≡ true) s
    → Stops rest
    → numeral_loop (s ++ rest) ≡ (s, rest)
unfolding numeral_loop
numeral_loop-append [] [] h stop = refl
numeral_loop-append [] (c ∷ rest) h stop = rw stop refl
numeral_loop-append (c ∷ s) rest h stop = rw (h.0, numeral_loop-append s rest h.1 stop) refl

number_span-append :
    (s rest : Bytes) → IsNumeral s → Stops rest → number_span (s ++ rest) ≡ (s, rest)
unfolding number_span
number_span-append [] rest h stop = absurd (h.1 refl)
number_span-append (c ∷ s) rest h stop = elim (Bool-cases ((c == b'-') || (c == b'+'))) [
  | inl e ↦ rw (e, numeral_loop-append s rest h.0.1 stop) refl
  | inr e ↦ rw e (numeral_loop-append (c ∷ s) rest h.0 stop)
]

pub parse_number-append :
    (d : Double) (s rest : Bytes)
    → IsNumeral s
    → Stops rest
    → parse_number d (s ++ rest) ≡ done (number (d.strtod s)) rest
unfolding parse_number parse_span
parse_number-append d [] rest h stop = absurd (h.1 refl)
parse_number-append d (c ∷ s) rest h stop = rw (number_span-append (c ∷ s) rest h stop) refl

-- The switch of ParseValue takes a text that begins like a number for one.
pub value_at-numeral :
    (d : Double) (array_at object_at : Bytes → Parsed JsonValue) (s rest : Bytes)
    → IsNumeral s
    → value_at d array_at object_at (s ++ rest) ≡ parse_number d (s ++ rest)
unfolding value_at
value_at-numeral d array_at object_at [] rest h = absurd (h.1 refl)
value_at-numeral d array_at object_at (c ∷ s) rest h =
    let first : is_numeral c ≡ true = h.0.0 in
    let brace : (c == b'{') ≡ false = ground arith in
    let bracket : (c == b'[') ≡ false = ground arith in
    let quote : (c == b'"') ≡ false = ground arith in
    let t : (c == b't') ≡ false = ground arith in
    let f : (c == b'f') ≡ false = ground arith in
    let n : (c == b'n') ≡ false = ground arith in rw (brace, bracket, quote, t, f, n) refl
