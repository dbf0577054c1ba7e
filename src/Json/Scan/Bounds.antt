-- ===== src/Json/Scan/Bounds.antt =====
-- How much of the text SkipSpace, Literal, ParseString and ParseNumber of src/Json.cpp read.
use euroscope_plugin_bridge.Prelude.{
  ℕ, zero, suc, ◌+◌, ◌≤◌, ◌<◌, ◌≡◌, Bool, true, false, ◌||◌, [], ◌∷◌, ◌++◌, ◌==◌, drop, length,
  length-drop, take, arith, bytes_eq, Bool-cases, inl, inr,
}
use euroscope_plugin_bridge.Text.{Bytes}
use euroscope_plugin_bridge.Json.{JsonValue}
use euroscope_plugin_bridge.Json.Double.{Double, is_numeral}
use euroscope_plugin_bridge.Json.Scan.{
  Parsed, done, failed, spent, skip_from, skip_space, literal, close, put, broken, piece,
  string_loop, parse_string, numeral_loop, number_span, parse_span, parse_number,
}

-- The parser comes to an end, and leaves less than `n` bytes where it gives a value.
abbrev pub Ends {ℓ} : {A : Type ℓ} → ℕ → Parsed A → Type 0
Ends n (done v rest) = length rest < n
Ends n (failed why rest) = Unit {0}
Ends n spent = ⊥

pub Ends-le {ℓ} : {A : Type ℓ} (m n : ℕ) (p : Parsed A) → m ≤ n → Ends m p → Ends n p
Ends-le m n (done v rest) h e = omega arith
Ends-le m n (failed why rest) h e = tt
Ends-le m n spent h e = absurd e

skip_from-le : (inside : Bool) (s : Bytes) → length (skip_from inside s) ≤ length s
unfolding skip_from
skip_from-le inside [] = omega arith
skip_from-le inside (c ∷ s) = ground (arith, skip_from-le true s, skip_from-le false s)

pub skip_space-le : (s : Bytes) → length (skip_space s) ≤ length s
unfolding skip_space
skip_space-le s = skip_from-le false s

string_loop-Ends : (pass : ℕ) (out s : Bytes) → Ends (length s) (string_loop pass out s)
unfolding string_loop
string_loop-Ends pass out [] = tt
string_loop-Ends (suc pass) out (c ∷ s) =
    Ends-le (length s) _ (string_loop pass out s) (omega arith) (string_loop-Ends pass out s)
string_loop-Ends zero out (c ∷ s) =
    elim (piece c s)
      as (λ p. Ends (suc (length s)) (elim p [
        | close ↦ done out s
        | put bytes read ↦ string_loop read (out ++ bytes) s
        | broken why read ↦ failed why (drop read s)
      ])) [
        | close ↦ omega arith
        | put bytes read ↦
            Ends-le (length s) _ (string_loop read (out ++ bytes) s) (omega arith)
              (string_loop-Ends read (out ++ bytes) s)
        | broken why read ↦ tt
      ]

pub parse_string-Ends : (s : Bytes) → Ends (length s) (parse_string s)
unfolding parse_string
parse_string-Ends [] = tt
parse_string-Ends (c ∷ s) = elim (Bool-cases (c == b'"')) [
  | inl e ↦ rw e (Ends-le (length s) _ (string_loop 0 [] s) (omega arith) (string_loop-Ends 0 [] s))
  | inr e ↦ rw e tt
]

pub literal-Ends :
    (w c : ℕ) (word : Bytes) (v : JsonValue) (s : Bytes)
    → Ends (suc (length s)) (literal (w ∷ word) v (c ∷ s))
unfolding literal
literal-Ends w c word v s =
    elim (Bool-cases (bytes_eq (take (length (w ∷ word)) (c ∷ s)) (w ∷ word))) [
      | inl e ↦ rw e (omega (arith, length-drop (length word) s))
      | inr e ↦ rw e tt
    ]

numeral_loop-le : (s : Bytes) → length (numeral_loop s).0 + length (numeral_loop s).1 ≡ length s
unfolding numeral_loop
numeral_loop-le [] = omega arith
numeral_loop-le (c ∷ s) = elim (Bool-cases (is_numeral c)) [
  | inl e ↦ rw e (omega (arith, numeral_loop-le s))
  | inr e ↦ rw e (omega arith)
]

number_span-le : (s : Bytes) → length (number_span s).0 + length (number_span s).1 ≡ length s
unfolding number_span
number_span-le [] = omega arith
number_span-le (c ∷ s) = elim (Bool-cases ((c == b'-') || (c == b'+'))) [
  | inl e ↦ rw e (omega (arith, numeral_loop-le s))
  | inr e ↦ rw e (numeral_loop-le (c ∷ s))
]

parse_span-Ends :
    (d : Double) (taken rest : Bytes) (n : ℕ)
    → length taken + length rest ≡ n
    → Ends n (parse_span d (taken, rest))
unfolding parse_span
parse_span-Ends d [] rest n h = tt
parse_span-Ends d (c ∷ taken) rest n h = omega arith

pub parse_number-Ends : (d : Double) (s : Bytes) → Ends (length s) (parse_number d s)
unfolding parse_number
parse_number-Ends d s =
    parse_span-Ends d (number_span s).0 (number_span s).1 (length s) (number_span-le s)
