-- ===== src/Prelude/Bits.antt =====
-- The masks of the codec on one byte, as arithmetic: each is checked on all 256 bytes.
use Prim.Native.Nat.{ℕ, zero, suc, ◌+◌, ◌*◌, ◌/◌, ◌%◌, ◌^◌, ◌<◌, bit_and, bit_or}
use mathlib.Core.Path.{◌≡◌, refl, subst}
use mathlib.Core.Bool.{Bool, true, ◌&&◌}
use native.Mathlib.Decide.{dec_lt}
use native.Mathlib.Omega.{arith}
use euroscope_plugin_bridge.Prelude.Tests.{◌==◌, ==_iff}

-- Two functions have the same values up to and including `n`.
unfoldable pub same_upto : (f g : ℕ → ℕ) → ℕ → Bool
same_upto f g zero = f 0 == g 0
same_upto f g (suc n) = same_upto f g n && (f (suc n) == g (suc n))

pub agree_upto : (f g : ℕ → ℕ) (n : ℕ) → same_upto f g n ≡ true → (x : ℕ) → x < suc n → f x ≡ g x
unfolding same_upto
agree_upto f g zero same zero h = (==_iff (f 0) (g 0)).0 same
agree_upto f g zero same (suc x) h = absurd (omega arith)
agree_upto f g (suc n) same x h = elim (dec_lt x (suc n)) [
  | yes below ↦
      (let all_same : same_upto f g n ≡ true = ground arith in agree_upto f g n all_same x below)
  | no last ↦
      (let e : suc n ≡ x = omega arith in
        subst (λ k. f k ≡ g k) e (ground (arith, (==_iff (f (suc n)) (g (suc n))).0)))
]

pub low_bits : (b : ℕ) → b < 256 → bit_and b 0x7f ≡ b % 128
unfolding same_upto
low_bits = agree_upto _ _ 255 refl

pub top_bit : (b : ℕ) → b < 256 → bit_and b 0x80 ≡ b / 128 * 128
unfolding same_upto
top_bit = agree_upto _ _ 255 refl

pub set_top_bit : (b : ℕ) → b < 128 → bit_or b 0x80 ≡ b + 128
unfolding same_upto
set_top_bit = agree_upto _ _ 127 refl

pub low_nibble : (b : ℕ) → b < 256 → bit_and b 0x0f ≡ b % 16
unfolding same_upto
low_nibble = agree_upto _ _ 255 refl

pub low_bit : (b : ℕ) → b < 256 → bit_and b 0x01 ≡ b % 2
unfolding same_upto
low_bit = agree_upto _ _ 255 refl

header_table : (x : ℕ) → x < 256 → bit_or (x / 16 * 16) (bit_and (x % 16) 0x0f) % 256 ≡ x
unfolding same_upto
header_table = agree_upto _ _ 255 refl

-- The type above the flags.
pub header_byte :
    (type flags : ℕ)
    → type < 16
    → flags < 16
    → bit_or (type * 2 ^ 4) (bit_and flags 0x0f) % 256 ≡ type * 16 + flags
header_byte type flags ht hf =
    let x = type * 16 + flags in
    let t : x / 16 ≡ type = omega arith in
    let f : x % 16 ≡ flags = omega arith in rw (t, f) at (header_table x (omega arith))
