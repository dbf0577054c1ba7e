-- ===== src/Json/Writer/Strings.antt =====
-- What WriteString of src/Json.cpp wrote is what ParseString reads.
use euroscope_plugin_bridge.Prelude.{
  ℕ, suc, ◌/◌, ◌%◌, ◌<◌, ◌≡◌, refl, sym, ap, ◌∙◌, subst, true, false, [], ◌∷◌, ◌++◌, ◌==◌, ltb,
  length, arith, Bool-cases, inl, inr, ==_iff, append_assoc, append-nil, ltb→lt,
}
use euroscope_plugin_bridge.Prelude.Bits.{same_upto, agree_upto}
use euroscope_plugin_bridge.Text.{
  Bytes, hex_pair, hex_digit, strtoul, scan_signed, scan_behind, skip_sign, skip_blank, skip_prefix,
  scan_number, scan_digits, c_str,
}
use euroscope_plugin_bridge.Json.Scan.{
  done, piece, escape, unicode, code_point, utf8, put, string_loop, parse_string,
}
use euroscope_plugin_bridge.Json.Writer.{escaped, escape_all, write_string}

code_point-hex_pair : (c : ℕ) → c < 32 → code_point (b'0' ∷ b'0' ∷ hex_pair c) ≡ c
unfolding code_point same_upto hex_pair strtoul scan_signed scan_behind skip_sign skip_blank
    skip_prefix scan_number scan_digits c_str
code_point-hex_pair = agree_upto (λ c. code_point (b'0' ∷ b'0' ∷ hex_pair c)) (λ c. c) 31 refl

-- The characters of one byte are read as that byte.
abbrev Reads : Bytes → Bytes → ℕ → Type 0
Reads out tail c = string_loop 0 out (escaped c ++ tail) ≡ string_loop 0 (out ++ (c ∷ [])) tail

known : (out tail : Bytes) (c k : ℕ) → (c == k) ≡ true → Reads out tail k → Reads out tail c
known out tail c k e h = subst (λ j. Reads out tail j) (sym ((==_iff c k).0 e)) h

string_loop-put :
    (out s bytes : Bytes) (c read : ℕ)
    → piece c s ≡ put bytes read
    → string_loop 0 out (c ∷ s) ≡ string_loop read (out ++ bytes) s
unfolding string_loop
string_loop-put out s bytes c read e = rw (e, string_loop) refl

unicode-control :
    (hi lo c : ℕ) (tail : Bytes)
    → code_point (b'0' ∷ b'0' ∷ hi ∷ lo ∷ []) ≡ c
    → c < 32
    → unicode (b'0' ∷ b'0' ∷ hi ∷ lo ∷ tail) ≡ put (c ∷ []) 5
unfolding unicode utf8
unicode-control hi lo c tail e h =
    let enough : ltb (suc (suc (suc (suc (length tail))))) 4 ≡ false = ground arith in
    let ascii : ltb c 0x80 ≡ true = ground arith in rw (enough, e, ascii) refl

piece-control :
    (c : ℕ) (tail : Bytes)
    → c < 32
    → piece b'\\' (b'u' ∷ b'0' ∷ b'0' ∷ (hex_pair c ++ tail)) ≡ put (c ∷ []) 5
unfolding piece escape hex_pair
piece-control c tail h =
    unicode-control (hex_digit (c / 16)) (hex_digit (c % 16)) c tail (code_point-hex_pair c h) h

Reads-control :
    (out tail : Bytes) (c : ℕ)
    → c < 32
    → escaped c ≡ b'\\' ∷ b'u' ∷ b'0' ∷ b'0' ∷ hex_pair c
    → Reads out tail c
unfolding hex_pair
Reads-control out tail c h e =
    ap (λ t. string_loop 0 out (t ++ tail)) e
    ∙ string_loop-put out _ (c ∷ []) b'\\' 5 (piece-control c tail h)
    ∙ unfold string_loop in refl

Reads-raw :
    (out tail : Bytes) (c : ℕ)
    → (c == b'"') ≡ false
    → (c == b'\\') ≡ false
    → escaped c ≡ c ∷ []
    → Reads out tail c
Reads-raw out tail c quote slash e =
    ap (λ t. string_loop 0 out (t ++ tail)) e
    ∙ string_loop-put out tail (c ∷ []) c 0 (unfold piece in rw (quote, slash) refl)

escaped-Reads : (out tail : Bytes) (c : ℕ) → Reads out tail c
unfolding string_loop piece escaped escape
escaped-Reads out tail c = elim (Bool-cases (c == b'"')) [
  | inl e ↦ known out tail c b'"' e refl
  | inr e1 ↦ elim (Bool-cases (c == b'\\')) [
    | inl e ↦ known out tail c b'\\' e refl
    | inr e2 ↦ elim (Bool-cases (c == 8)) [
      | inl e ↦ known out tail c 8 e refl
      | inr e3 ↦ elim (Bool-cases (c == 12)) [
        | inl e ↦ known out tail c 12 e refl
        | inr e4 ↦ elim (Bool-cases (c == b'\n')) [
          | inl e ↦ known out tail c b'\n' e refl
          | inr e5 ↦ elim (Bool-cases (c == b'\r')) [
            | inl e ↦ known out tail c b'\r' e refl
            | inr e6 ↦ elim (Bool-cases (c == b'\t')) [
              | inl e ↦ known out tail c b'\t' e refl
              | inr e7 ↦ elim (Bool-cases (ltb c 32)) [
                | inl e ↦
                    Reads-control out tail c (ltb→lt c 32 e)
                      (rw (e1, e2, e3, e4, e5, e6, e7, e) refl)
                | inr e ↦ Reads-raw out tail c e1 e2 (rw (e1, e2, e3, e4, e5, e6, e7, e) refl)
              ]
            ]
          ]
        ]
      ]
    ]
  ]
]

string_loop-escape_all :
    (s out rest : Bytes) → string_loop 0 out (escape_all s ++ (b'"' ∷ rest)) ≡ done (out ++ s) rest
unfolding escape_all
string_loop-escape_all [] out rest =
    unfold string_loop piece in ap (λ t. done t rest) (sym (append-nil out))
string_loop-escape_all (c ∷ s) out rest =
    ap (string_loop 0 out) (append_assoc (escaped c) (escape_all s) (b'"' ∷ rest))
    ∙ escaped-Reads out (escape_all s ++ (b'"' ∷ rest)) c
    ∙ string_loop-escape_all s (out ++ (c ∷ [])) rest
    ∙ ap (λ t. done t rest) (append_assoc out (c ∷ []) s)

-- Any string, whatever bytes it holds, is read back from its text, and what follows is left.
pub parse_string-write_string :
    (s rest : Bytes) → parse_string (write_string s ++ rest) ≡ done s rest
unfolding parse_string write_string
parse_string-write_string s rest =
    ap (string_loop 0 []) (append_assoc (escape_all s) (b'"' ∷ []) rest)
    ∙ string_loop-escape_all s [] rest
