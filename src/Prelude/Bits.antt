-- ===== src/Prelude/Bits.antt =====
-- The masks and shifts that the program uses on bytes and 16-bit words, as arithmetic.
use Prim.Native.Nat.{
  ℕ, zero, suc, ◌+◌, ◌*◌, ◌/◌, ◌%◌, ◌≤◌, ◌<◌, ◌^◌, min, max, bit_and, bit_or, digits, bitwise,
  bit_and-bitwise, bit_or-bitwise,
}
use mathlib.Core.Path.{◌≡◌, refl, sym, ◌∙◌, ap}
use mathlib.Core.Bool.{Bool, true, ◌&&◌}
use native.Mathlib.Omega.{arith}
use native.Mathlib.Nat.{le_refl, pow-suc}
use esp32_usb_ip.Prelude.Tests.{◌==◌, ==_iff}

-- The count of digits in `digits` makes no difference once it reaches the first number.
digits_count :
    (out : ℕ → ℕ) (op : ℕ → ℕ → ℕ) (m n x y : ℕ)
    → x ≤ m
    → x ≤ n
    → digits out op m x y ≡ digits out op n x y
digits_count out op zero zero x y p q = refl
digits_count out op zero (suc n) zero y p q = refl
digits_count out op zero (suc n) (suc x) y p q = absurd (omega arith)
digits_count out op (suc m) n zero y p q = zeros n
  where
    zeros : (k : ℕ) → out y ≡ digits out op k 0 y
    zeros zero = refl
    zeros (suc k) = refl
digits_count out op (suc m) zero (suc x) y p q = absurd (omega arith)
digits_count out op (suc m) (suc n) (suc x) y p q =
    ap (λ rest. rest * 2 + op (suc x % 2) (y % 2))
      (digits_count out op m n (suc x / 2) (y / 2) (omega arith) (omega arith))

lowest_digit :
    (out : ℕ → ℕ) (op : ℕ → ℕ → ℕ) (x y : ℕ)
    → bitwise out op (suc x) y ≡ bitwise out op (suc x / 2) (y / 2) * 2 + op (suc x % 2) (y % 2)
lowest_digit out op x y =
    ap (λ rest. rest * 2 + op (suc x % 2) (y % 2))
      (digits_count out op x (suc x / 2) (suc x / 2) (y / 2) (omega arith) (le_refl _))

and_digit : (x y : ℕ) → bit_and x y ≡ bit_and (x / 2) (y / 2) * 2 + min (x % 2) (y % 2)
and_digit zero y = simp bit_and-bitwise (omega arith)
and_digit (suc x) y = simp bit_and-bitwise (lowest_digit (λ _. 0) min x y)

or_digit : (x y : ℕ) → bit_or x y ≡ bit_or (x / 2) (y / 2) * 2 + max (x % 2) (y % 2)
or_digit zero y = simp bit_or-bitwise (omega arith)
or_digit (suc x) y = simp bit_or-bitwise (lowest_digit (λ d. d) max x y)

and_zero : (n x : ℕ) → x ≤ n → bit_and x 0 ≡ 0
and_zero n zero h = refl
and_zero zero (suc x) h = absurd (omega arith)
and_zero (suc n) (suc x) h =
    omega (arith, and_digit (suc x) 0, and_zero n (suc x / 2) (omega arith))

or_zero : (n x : ℕ) → x ≤ n → bit_or x 0 ≡ x
or_zero n zero h = refl
or_zero zero (suc x) h = absurd (omega arith)
or_zero (suc n) (suc x) h = omega (arith, or_digit (suc x) 0, or_zero n (suc x / 2) (omega arith))

mask_digit : (m x : ℕ) → bit_and x (2 * m + 1) ≡ bit_and (x / 2) m * 2 + x % 2
mask_digit m x =
    let half : (2 * m + 1) / 2 ≡ m = omega arith in and_digit x (2 * m + 1) ∙ rw half (omega arith)

pub low_nibble : (x : ℕ) → bit_and x 15 ≡ x % 16
low_nibble x = omega (
  arith,
  mask_digit 7 x,
  mask_digit 3 (x / 2),
  mask_digit 1 (x / 2 / 2),
  mask_digit 0 (x / 2 / 2 / 2),
  and_zero _ (x / 2 / 2 / 2 / 2) (le_refl _),
)

-- `x & 0xFF`
pub low_byte : (x : ℕ) → bit_and x 255 ≡ x % 256
low_byte x = omega (
  arith,
  mask_digit 127 x,
  mask_digit 63 (x / 2),
  mask_digit 31 (x / 2 / 2),
  mask_digit 15 (x / 2 / 2 / 2),
  low_nibble (x / 2 / 2 / 2 / 2),
)

or_double : (x y : ℕ) → bit_or (2 * x) y ≡ bit_or x (y / 2) * 2 + y % 2
or_double x y = let half : 2 * x / 2 ≡ x = omega arith in or_digit (2 * x) y ∙ rw half (omega arith)

-- `x << k`
shl : ℕ → ℕ → ℕ
shl zero x = x
shl (suc k) x = 2 * shl k x

shl-or : (k x y : ℕ) → y < 2 ^ k → bit_or (shl k x) y ≡ shl k x + y
unfolding shl
shl-or zero x y h =
    let none_left : y ≡ 0 = omega arith in rw none_left (or_zero x x (le_refl x) ∙ omega arith)
shl-or (suc k) x y h =
    omega (arith, or_double (shl k x) y, shl-or k x (y / 2) (omega (arith, pow-suc 2 k)))

shl_eight : (x : ℕ) → shl 8 x ≡ x * 256
unfolding shl
shl_eight x = omega arith

-- `high << 8 | low`
pub join_bytes : (high low : ℕ) → low < 256 → bit_or (high * 256) low ≡ high * 256 + low
join_bytes high low h = rw (← shl_eight) (shl-or 8 high low h)

-- A statement about every byte is checked at each of them.
pub all_below : ℕ → (ℕ → Bool) → Bool
all_below zero test = true
all_below (suc n) test = test n && all_below n test

pub all_below→true :
    (n : ℕ) (test : ℕ → Bool) (x : ℕ) → all_below n test ≡ true → x < n → test x ≡ true
unfolding all_below
all_below→true zero test x h lt = absurd (omega arith)
all_below→true (suc n) test x h lt = ground (arith, all_below→true n test x)

direction_table : all_below 256 (λ b. bit_and b 128 == b / 128 * 128) ≡ true
unfolding all_below
direction_table = refl

-- The top bit of a byte.
pub top_bit : (b : ℕ) → b < 256 → bit_and b 128 ≡ b / 128 * 128
top_bit b h = (==_iff _ _).0 (all_below→true 256 _ b direction_table h)

endpoint_table : all_below 256 (λ b. bit_or b 128 == b % 128 + 128) ≡ true
unfolding all_below
endpoint_table = refl

pub set_top_bit : (b : ℕ) → b < 256 → bit_or b 128 ≡ b % 128 + 128
set_top_bit b h = (==_iff _ _).0 (all_below→true 256 _ b endpoint_table h)

shl_four : (x : ℕ) → shl 4 x ≡ x * 16
unfolding shl
shl_four x = omega arith

-- `high << 4 | low`
pub join_nibbles : (high low : ℕ) → low < 16 → bit_or (high * 16) low ≡ high * 16 + low
join_nibbles high low h = rw (← shl_four) (shl-or 4 high low h)

or_comm : (n x y : ℕ) → x ≤ n → bit_or x y ≡ bit_or y x
or_comm n zero y h =
    let nothing : bit_or 0 y ≡ y = simp bit_or-bitwise in nothing ∙ sym (or_zero y y (le_refl y))
or_comm zero (suc x) y h = absurd (omega arith)
or_comm (suc n) (suc x) y h =
    omega
      (arith, or_digit (suc x) y, or_digit y (suc x), or_comm n (suc x / 2) (y / 2) (omega arith))

or_above : (k low high : ℕ) → low < 2 ^ k → bit_or low (shl k high) ≡ low + shl k high
or_above k low high h =
    or_comm low low (shl k high) (le_refl low) ∙ shl-or k high low h ∙ omega arith

shl_sixteen : (x : ℕ) → shl 16 x ≡ x * 2 ^ 16
unfolding shl
shl_sixteen x = omega arith

shl_twenty_four : (x : ℕ) → shl 24 x ≡ x * 2 ^ 24
unfolding shl
shl_twenty_four x = omega arith

-- `a | (b << 8) | (c << 16) | (d << 24)`
pub join_four :
    (a b c d : ℕ)
    → a < 256
    → b < 256
    → c < 256
    → bit_or (bit_or (bit_or a (b * 2 ^ 8)) (c * 2 ^ 16)) (d * 2 ^ 24)
      ≡ a + b * 2 ^ 8 + c * 2 ^ 16 + d * 2 ^ 24
join_four a b c d ha hb hc =
    let first = or_above 8 a b ha in
    let second = or_above 16 (a + shl 8 b) c (omega (arith, shl_eight b)) in
    let third =
      or_above 24 (a + shl 8 b + shl 16 c) d (omega (arith, shl_eight b, shl_sixteen c)) in
    rw (← shl_eight, ← shl_sixteen, ← shl_twenty_four, first, second, third) refl
