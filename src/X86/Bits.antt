-- ===== src/X86/Bits.antt =====
-- The bit operations of src/x86_64/ops.cc on bytes, as arithmetic. Each law is checked on its range.
use Prim.Native.Nat.{bit_and, bit_or}
use katara.Prelude.{
  ℕ, zero, suc, ◌+◌, ◌*◌, ◌/◌, ◌%◌, ◌<◌, ◌≡◌, refl, Bool, true, false, ◌==◌, if◌then◌else◌, arith,
}

-- Two functions agree on the numbers below a bound: decided by running them.
agree : (ℕ → ℕ) → (ℕ → ℕ) → ℕ → Bool
agree f g zero = true
agree f g (suc k) = if f k == g k then agree f g k else false

tabulated : (f g : ℕ → ℕ) (k x : ℕ) → agree f g k ≡ true → x < k → f x ≡ g x
unfolding agree
tabulated f g zero x table below = absurd (omega arith)
tabulated f g (suc k) x table below = ground (arith, tabulated f g k x)

pub and_seven : (x : ℕ) → x < 256 → bit_and x 0x7 ≡ x % 8
unfolding agree
and_seven x h = tabulated (λ y. bit_and y 0x7) (λ y. y % 8) 256 x refl h

pub clear_rm : (x : ℕ) → x < 256 → bit_and x 0xf8 ≡ x / 8 * 8
unfolding agree
clear_rm x h = tabulated (λ y. bit_and y 0xf8) (λ y. y / 8 * 8) 256 x refl h

pub clear_mod : (x : ℕ) → x < 256 → bit_and x 0x3f ≡ x % 64
unfolding agree
clear_mod x h = tabulated (λ y. bit_and y 0x3f) (λ y. y % 64) 256 x refl h

pub clear_reg : (x : ℕ) → x < 256 → bit_and x 0xc7 ≡ x / 64 * 64 + x % 8
unfolding agree
clear_reg x h = tabulated (λ y. bit_and y 0xc7) (λ y. y / 64 * 64 + y % 8) 256 x refl h

-- Two digits that do not overlap: `x` is read as a number of the high part and of the low part.
or_low_table : (x : ℕ) → x < 256 → bit_or (x / 8 * 8) (x % 8) ≡ x
unfolding agree
or_low_table x h = tabulated (λ y. bit_or (y / 8 * 8) (y % 8)) (λ y. y) 256 x refl h

pub or_low : (a b : ℕ) → a < 32 → b < 8 → bit_or (a * 8) b ≡ a * 8 + b
or_low a b ha hb =
    let hi : (a * 8 + b) / 8 ≡ a = omega arith in
    let lo : (a * 8 + b) % 8 ≡ b = omega arith in
    rw (hi, lo) at (or_low_table (a * 8 + b) (omega arith))

or_high_table : (x : ℕ) → x < 256 → bit_or (x % 64) (x / 64 * 64) ≡ x
unfolding agree
or_high_table x h = tabulated (λ y. bit_or (y % 64) (y / 64 * 64)) (λ y. y) 256 x refl h

pub or_high : (a b : ℕ) → a < 64 → b < 4 → bit_or a (b * 64) ≡ a + b * 64
or_high a b ha hb =
    let hi : (a + b * 64) / 64 ≡ b = omega arith in
    let lo : (a + b * 64) % 64 ≡ a = omega arith in
    rw (hi, lo) at (or_high_table (a + b * 64) (omega arith))

or_mid_table : (x : ℕ) → x < 256 → bit_or (x / 64 * 64 + x % 8) (x / 8 % 8 * 8) ≡ x
unfolding agree
or_mid_table x h =
    tabulated (λ y. bit_or (y / 64 * 64 + y % 8) (y / 8 % 8 * 8)) (λ y. y) 256 x refl h

pub or_mid : (a b c : ℕ) → a < 4 → b < 8 → c < 8 → bit_or (a * 64 + c) (b * 8) ≡ a * 64 + b * 8 + c
or_mid a b c ha hb hc =
    let hi : (a * 64 + b * 8 + c) / 64 ≡ a = omega arith in
    let mid : (a * 64 + b * 8 + c) / 8 % 8 ≡ b = omega arith in
    let lo : (a * 64 + b * 8 + c) % 8 ≡ c = omega arith in
    rw (hi, mid, lo) at (or_mid_table (a * 64 + b * 8 + c) (omega arith))

-- A REX prefix whose two low bits are clear.
pub rex_b : (x : ℕ) → x < 64 → bit_or (x * 4) 0x01 ≡ x * 4 + 1
unfolding agree
rex_b x h = tabulated (λ y. bit_or (y * 4) 0x01) (λ y. y * 4 + 1) 64 x refl h

pub rex_x : (x : ℕ) → x < 64 → bit_or (x * 4) 0x02 ≡ x * 4 + 2
unfolding agree
rex_x x h = tabulated (λ y. bit_or (y * 4) 0x02) (λ y. y * 4 + 2) 64 x refl h

pub rex_xb : (x : ℕ) → x < 64 → bit_or (x * 4 + 1) 0x02 ≡ x * 4 + 3
unfolding agree
rex_xb x h = tabulated (λ y. bit_or (y * 4 + 1) 0x02) (λ y. y * 4 + 3) 64 x refl h

pub and_three : (x : ℕ) → x < 4 → bit_and x 0x3 ≡ x
unfolding agree
and_three x h = tabulated (λ y. bit_and y 0x3) (λ y. y) 4 x refl h

pub zero_or : (x : ℕ) → x < 256 → bit_or 0 x ≡ x
unfolding agree
zero_or x h = tabulated (λ y. bit_or 0 y) (λ y. y) 256 x refl h

-- Bit 2 of a REX prefix, REX.R, over a REX.B that is set or clear.
pub rex_r : (x b : ℕ) → x < 32 → b < 2 → bit_or (x * 8 + b) 0x04 ≡ x * 8 + 4 + b
unfolding agree
rex_r x zero h k = tabulated (λ y. bit_or (y * 8 + 0) 0x04) (λ y. y * 8 + 4 + 0) 32 x refl h
rex_r x (suc zero) h k = tabulated (λ y. bit_or (y * 8 + 1) 0x04) (λ y. y * 8 + 4 + 1) 32 x refl h
rex_r x (suc (suc b)) h k = absurd (omega arith)

pub set_mod : (x : ℕ) → x < 256 → bit_or x 0xc0 ≡ x % 64 + 192
unfolding agree
set_mod x h = tabulated (λ y. bit_or y 0xc0) (λ y. y % 64 + 192) 256 x refl h
