-- ===== src/Text/Decimal.antt =====
-- Numbers in base ten are read back from their text.
use euroscope_plugin_bridge.Prelude.{
  ℕ, zero, suc, length, ◌+◌, ◌-◌, ◌*◌, ◌/◌, ◌%◌, ◌^◌, ◌<◌, ◌≤◌, ◌≡◌, ◌≢◌, refl, sym, ap, ◌∙◌, Bool,
  true, false, [], ◌∷◌, ◌++◌, some, ltb, leb, ◌==◌, arith, append_assoc, append-nil, All,
  Bool-cases, inl, inr, lt→leb,
}
use euroscope_plugin_bridge.Prelude.Order.{lt_wf}
use mathlib.Core.Logic.{dite}
use mathlib.Core.WellFounded.{Acc}
use native.Mathlib.Decide.{dec_lt}
use euroscope_plugin_bridge.Text.{
  Bytes, decimal_loop, decimal, signed_decimal, fewer, c_str, skip_blank, skip_sign, skip_prefix,
  scan_digits, scan_number, scan_behind, scan_signed, to_signed, strtoul, strtoll, digit_value,
  is_space,
}

-- A digit, and nothing else that the readers look for.
abbrev pub IsDigit : ℕ → Type 0
IsDigit c = (b'0' ≤ c) × (c ≤ b'9')

digit-value : (d : ℕ) → d < 10 → digit_value 10 (b'0' + d) ≡ d
digit-value d h = ground arith

scan_digit :
    (d n : ℕ) (rest : Bytes)
    → d < 10
    → scan_digits 10 ((b'0' + d) ∷ rest) n ≡ scan_digits 10 rest (n * 10 + d)
unfolding scan_digits
scan_digit d n rest h =
    let inside : (d == 10) ≡ false = ground arith in rw (digit-value d h, inside) refl

decimal_loop-scan :
    (n : ℕ) (w : Acc ◌<◌ n) (rest : Bytes)
    → scan_digits 10 (decimal_loop n w ++ rest) 0 ≡ scan_digits 10 rest n
unfolding decimal_loop
decimal_loop-scan n (Acc.intro _ smaller) rest =
    elim (dec_lt 9 n)
      as (λ d.
        scan_digits 10
          (dite d
              (λ more. decimal_loop (n / 10) (smaller _ (fewer n more)) ++ ((b'0' + n % 10) ∷ []))
              (λ _. (b'0' + n) ∷ [])
            ++ rest)
          0
        ≡ scan_digits 10 rest n) [
          | yes more ↦
              (let whole : n / 10 * 10 + n % 10 ≡ n = omega arith in
                rw
                  (append_assoc (decimal_loop (n / 10) (smaller _ (fewer n more)))
                    ((b'0' + n % 10) ∷ []) rest)
                  (decimal_loop-scan (n / 10) (smaller _ (fewer n more)) ((b'0' + n % 10) ∷ rest)
                    ∙ scan_digit (n % 10) (n / 10) rest (omega arith)
                    ∙ ap (scan_digits 10 rest) whole))
          | no last ↦
              (let whole : 0 * 10 + n ≡ n = omega arith in
                scan_digit n 0 rest (omega arith) ∙ ap (scan_digits 10 rest) whole)
        ]

All-snoc : (s : Bytes) (c : ℕ) → All IsDigit s → IsDigit c → All IsDigit (s ++ (c ∷ []))
All-snoc [] c hs hc = (hc, tt)
All-snoc (d ∷ s) c (hd, hs) hc = (hd, All-snoc s c hs hc)

decimal_loop-IsDigit : (n : ℕ) (w : Acc ◌<◌ n) → All IsDigit (decimal_loop n w)
unfolding decimal_loop
decimal_loop-IsDigit n (Acc.intro _ smaller) =
    elim (dec_lt 9 n)
      as (λ d. All IsDigit (
        dite d (λ more. decimal_loop (n / 10) (smaller _ (fewer n more)) ++ ((b'0' + n % 10) ∷ []))
          (λ _. (b'0' + n) ∷ []))) [
            | yes more ↦
                All-snoc _ (b'0' + n % 10)
                  (decimal_loop-IsDigit (n / 10) (smaller _ (fewer n more)))
                  (omega arith, omega arith)
            | no last ↦ ((omega arith, omega arith), tt)
          ]

pub decimal-IsDigit : (n : ℕ) → All IsDigit (decimal n)
unfolding decimal
decimal-IsDigit n = decimal_loop-IsDigit n (lt_wf.apply n)

snoc-ne-nil : (s : Bytes) (c : ℕ) → s ++ (c ∷ []) ≢ []
snoc-ne-nil [] c e = cc (e)
snoc-ne-nil (d ∷ s) c e = cc (e)

decimal_loop-ne-nil : (n : ℕ) (w : Acc ◌<◌ n) → decimal_loop n w ≢ []
unfolding decimal_loop
decimal_loop-ne-nil n (Acc.intro _ smaller) =
    elim (dec_lt 9 n)
      as (λ d.
        dite d (λ more. decimal_loop (n / 10) (smaller _ (fewer n more)) ++ ((b'0' + n % 10) ∷ []))
          (λ _. (b'0' + n) ∷ [])
        ≢ []) [ yes more ↦ snoc-ne-nil _ (b'0' + n % 10) | no last ↦ (λ e. cc (e)) ]

pub decimal-ne-nil : (n : ℕ) → decimal n ≢ []
unfolding decimal
decimal-ne-nil n = decimal_loop-ne-nil n (lt_wf.apply n)

length-snoc : (s : Bytes) (c : ℕ) → length (s ++ (c ∷ [])) ≡ suc (length s)
length-snoc [] c = refl
length-snoc (d ∷ s) c = ap suc (length-snoc s c)

tenth : (k n : ℕ) → n < 10 ^ suc (suc k) → n / 10 < 10 ^ suc k
tenth k n h = omega arith

decimal_loop-length : (k n : ℕ) (w : Acc ◌<◌ n) → n < 10 ^ suc k → length (decimal_loop n w) ≤ suc k
unfolding decimal_loop
decimal_loop-length zero n (Acc.intro _ smaller) h =
    elim (dec_lt 9 n)
      as (λ d.
        length (
          dite d
            (λ more. decimal_loop (n / 10) (smaller _ (fewer n more)) ++ ((b'0' + n % 10) ∷ []))
            (λ _. (b'0' + n) ∷ []))
        ≤ 1) [ no last ↦ omega arith | yes more ↦ absurd (omega arith) ]
decimal_loop-length (suc k) n (Acc.intro _ smaller) h =
    elim (dec_lt 9 n)
      as (λ d.
        length (
          dite d
            (λ more. decimal_loop (n / 10) (smaller _ (fewer n more)) ++ ((b'0' + n % 10) ∷ []))
            (λ _. (b'0' + n) ∷ []))
        ≤ suc (suc k)) [
          | no last ↦ omega arith
          | yes more ↦ omega (
            arith,
            length-snoc (decimal_loop (n / 10) (smaller _ (fewer n more))) (b'0' + n % 10),
            decimal_loop-length k (n / 10) (smaller _ (fewer n more)) (tenth k n h),
          )
        ]

-- A 64-bit number has at most 20 digits.
pub length-decimal : (n : ℕ) → n < 2 ^ 64 → length (decimal n) ≤ 20
unfolding decimal
length-decimal n h = decimal_loop-length 19 n (lt_wf.apply n) (omega arith)

c_str-IsDigit : (s : Bytes) → All IsDigit s → c_str s ≡ s
unfolding c_str
c_str-IsDigit [] h = refl
c_str-IsDigit (c ∷ s) (hc, hs) =
    let (low, high) = hc in
    let some_byte : (c == 0) ≡ false = ground arith in rw (some_byte, c_str-IsDigit s hs) refl

skip_prefix-ten : (s : Bytes) → skip_prefix 10 s ≡ s
unfolding skip_prefix
skip_prefix-ten [] = refl
skip_prefix-ten (a ∷ []) = refl
skip_prefix-ten (a ∷ b ∷ []) = refl
skip_prefix-ten (a ∷ b ∷ c ∷ s) = refl

-- Behind a sign or none: the digits are read.
scan_number-IsDigit :
    (s : Bytes) → s ≢ [] → All IsDigit s → scan_number 10 s ≡ some (scan_digits 10 s 0)
unfolding scan_number
scan_number-IsDigit [] ne h = absurd (ne refl)
scan_number-IsDigit (c ∷ s) ne (hc, hs) =
    let (low, high) = hc in
    let a_digit : (digit_value 10 c == 10) ≡ false = ground arith in rw a_digit refl

scan_signed-scan_number :
    (text s : Bytes) (minus : Bool) (r : ℕ × Bytes)
    → skip_sign (skip_blank (c_str text)) ≡ (minus, s)
    → scan_number 10 s ≡ some r
    → scan_signed 10 text ≡ some (minus, r.0, r.1)
unfolding scan_signed scan_behind
scan_signed-scan_number text s minus r e n =
    ap (scan_behind 10) e ∙ rw (skip_prefix-ten s, scan_behind, n) refl

no_sign : (s : Bytes) → s ≢ [] → All IsDigit s → skip_sign (skip_blank s) ≡ (false, s)
unfolding skip_sign skip_blank
no_sign [] ne h = absurd (ne refl)
no_sign (c ∷ s) ne ((low, high), hs) =
    let no_space : is_space c ≡ false = ground arith in
    let no_minus : (c == b'-') ≡ false = ground arith in
    let no_plus : (c == b'+') ≡ false = ground arith in rw (no_space, no_minus, no_plus) refl

scan_signed-IsDigit :
    (s : Bytes)
    → s ≢ []
    → All IsDigit s
    → scan_signed 10 s ≡ some (false, (scan_digits 10 s 0).0, (scan_digits 10 s 0).1)
scan_signed-IsDigit s ne h =
    scan_signed-scan_number s s false _
      (ap (λ t. skip_sign (skip_blank t)) (c_str-IsDigit s h) ∙ no_sign s ne h)
      (scan_number-IsDigit s ne h)

scan_signed-minus :
    (s : Bytes)
    → s ≢ []
    → All IsDigit s
    → scan_signed 10 (b'-' ∷ s) ≡ some (true, (scan_digits 10 s 0).0, (scan_digits 10 s 0).1)
scan_signed-minus s ne h =
    scan_signed-scan_number (b'-' ∷ s) s true _ behind (scan_number-IsDigit s ne h)
  where
    behind : skip_sign (skip_blank (c_str (b'-' ∷ s))) ≡ (true, s)
    behind = unfold skip_sign skip_blank c_str in rw (c_str-IsDigit s h) refl

scan_digits-decimal : (n : ℕ) → scan_digits 10 (decimal n) 0 ≡ (n, [])
unfolding decimal
scan_digits-decimal n =
    ap (λ s. scan_digits 10 s 0) (sym (append-nil (decimal_loop n (lt_wf.apply n))))
    ∙ (decimal_loop-scan n (lt_wf.apply n) [] ∙ unfold scan_digits in refl)

-- std::to_string, and then strtoul or strtoull at a width where the number fits: the number, with all of
-- the text read.
pub strtoul-decimal : (w n : ℕ) → n < 2 ^ w → strtoul w 10 (decimal n) ≡ some (n, [])
unfolding strtoul
strtoul-decimal w n h =
    let fits : leb (2 ^ w) n ≡ false = lt→leb (2 ^ w) n h in
    rw
      (
        scan_signed-IsDigit (decimal n) (decimal-ne-nil n) (decimal-IsDigit n),
        strtoul,
        scan_digits-decimal n,
        fits,
      )
      refl

-- A 64-bit number as a signed one, with %lld, and then strtoll.
pub strtoll-signed_decimal : (x : ℕ) → x < 2 ^ 64 → strtoll (signed_decimal x) ≡ some (x, [])
unfolding strtoll signed_decimal
strtoll-signed_decimal x h = elim (Bool-cases (ltb x (2 ^ 63))) [
  | inl q ↦
      (let fits : leb (2 ^ 63) x ≡ false = ground arith in
        rw
          (
            q,
            scan_signed-IsDigit (decimal x) (decimal-ne-nil x) (decimal-IsDigit x),
            strtoll,
            scan_digits-decimal x,
            fits,
          )
          refl)
  | inr q ↦
      (let y = 2 ^ 64 - x in
        let back : to_signed true y ≡ x = ground arith in
        rw
          (
            q,
            scan_signed-minus (decimal y) (decimal-ne-nil y) (decimal-IsDigit y),
            strtoll,
            scan_digits-decimal y,
            back,
          )
          refl)
]
