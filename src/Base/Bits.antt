-- ===== src/Base/Bits.antt =====
-- The bit operations that the wire format uses, as arithmetic: `|` of a number with a field above
-- it, the low seven bits and the top bit of a byte, and `^` with an all-ones word.
use Prim.Native.Nat.{ℕ, zero, suc, ◌+◌, ◌-◌, ◌*◌, ◌/◌, ◌%◌, ◌^◌, ◌≤◌, ◌<◌, min, max}
use Prim.Native.Nat.{bit_and, bit_or, bit_xor, digits, bitwise, differ}
use Prim.Native.Nat.{bit_and-bitwise, bit_or-bitwise, bit_xor-bitwise}
use mathlib.Core.Path.{◌≡◌, refl, sym, ap}
use mathlib.Core.Bool.{Bool, true, ◌&&◌}
use native.Mathlib.Nat.{pow-suc, one-le-pow}
use native.Mathlib.Omega.{arith}
use phpser.Base.Tests.{◌==◌, ==→eq}

-- The recursion behind the native operations takes the first number as its count of digits; any
-- larger count gives the same result.
spare_count :
    (z : ℕ → ℕ) (f : ℕ → ℕ → ℕ) (a b n m : ℕ) → a ≤ n → a ≤ m → digits z f n a b ≡ digits z f m a b
spare_count z f zero b zero zero p q = refl
spare_count z f zero b zero (suc m) p q = refl
spare_count z f zero b (suc n) zero p q = refl
spare_count z f zero b (suc n) (suc m) p q = refl
spare_count z f (suc a) b zero m p q = absurd (omega arith)
spare_count z f (suc a) b (suc n) zero p q = absurd (omega arith)
spare_count z f (suc a) b (suc n) (suc m) p q =
    rw (spare_count z f (suc a / 2) (b / 2) n m (omega arith) (omega arith))

lowest_digit :
    (z : ℕ → ℕ) (f : ℕ → ℕ → ℕ) (a b : ℕ)
    → bitwise z f (suc a) b ≡ bitwise z f (suc a / 2) (b / 2) * 2 + f (suc a % 2) (b % 2)
lowest_digit z f a b =
    omega (arith, spare_count z f (suc a / 2) (b / 2) a (suc a / 2) (omega arith) (omega arith))

or_digit : (a b : ℕ) → bit_or a b ≡ bit_or (a / 2) (b / 2) * 2 + max (a % 2) (b % 2)
or_digit zero b = simp bit_or-bitwise (omega arith)
or_digit (suc a) b = simp bit_or-bitwise (lowest_digit (λ y. y) max a b)

and_digit : (a b : ℕ) → bit_and a b ≡ bit_and (a / 2) (b / 2) * 2 + min (a % 2) (b % 2)
and_digit zero b = simp bit_and-bitwise (omega arith)
and_digit (suc a) b = simp bit_and-bitwise (lowest_digit (λ y. 0) min a b)

zero-differ : (y : ℕ) → differ 0 y ≡ y
zero-differ y = refl

xor_digit : (a b : ℕ) → bit_xor a b ≡ bit_xor (a / 2) (b / 2) * 2 + differ (a % 2) (b % 2)
xor_digit zero b = simp bit_xor-bitwise (omega arith)
xor_digit (suc a) b = simp bit_xor-bitwise (lowest_digit (λ y. y) differ a b)

-- `v | (c << k)` is a sum when `v` fits the `k` bits below the field.
pub bit_or_above : (k v c : ℕ) → v < 2 ^ k → bit_or v (c * 2 ^ k) ≡ v + c * 2 ^ k
bit_or_above zero v c h = let e : v ≡ 0 = omega arith in rw (e, bit_or-bitwise) (omega arith)
bit_or_above (suc k) v c h = ground (
  arith,
  or_digit v (c * 2 ^ suc k),
  ap (λ (t : ℕ). c * t) (pow-suc 2 k),
  bit_or_above k (v / 2) c (omega arith),
)

flip_digit : (b : ℕ) → b < 2 → differ b 1 ≡ 1 - b
flip_digit zero h = refl
flip_digit (suc zero) h = refl
flip_digit (suc (suc b)) h = absurd (omega arith)

ones_digit : (k : ℕ) → ((2 ^ suc k - 1) % 2 ≡ 1) × ((2 ^ suc k - 1) / 2 ≡ 2 ^ k - 1)
ones_digit k = omega (arith, pow-suc 2 k, one-le-pow k 2)

-- `x ^ (2^k - 1)` flips every one of the `k` bits.
pub bit_xor_ones : (k x : ℕ) → x < 2 ^ k → bit_xor x (2 ^ k - 1) ≡ 2 ^ k - 1 - x
bit_xor_ones zero x h = let e : x ≡ 0 = omega arith in rw e refl
bit_xor_ones (suc k) x h = rw xor_digit (
    rw ((ones_digit k).0, (ones_digit k).1, flip_digit (x % 2) (omega arith))
      (omega (arith, bit_xor_ones k (x / 2) (omega (arith, pow-suc 2 k)), pow-suc 2 k)))

-- Masks of a byte. `|` with the top bit, checked value by value.
unfoldable pub all_below : ℕ → (ℕ → Bool) → Bool
all_below zero p = true
all_below (suc n) p = p n && all_below n p

pub all_below→ : (n : ℕ) (p : ℕ → Bool) → all_below n p ≡ true → (x : ℕ) → x < n → p x ≡ true
unfolding all_below
all_below→ zero p e x h = absurd (omega arith)
all_below→ (suc n) p e x h = ground (arith, all_below→ n p (ground arith) x)

top_bit_table : all_below 256 (λ b. bit_and b 0x80 == b / 128 * 128) ≡ true
unfolding all_below
top_bit_table = refl

set_top_table : all_below 128 (λ b. bit_or b 0x80 == b + 128) ≡ true
unfolding all_below
set_top_table = refl

pub top_bit : (b : ℕ) → b < 256 → bit_and b 0x80 ≡ b / 128 * 128
top_bit b h = ==→eq _ _ (all_below→ 256 _ top_bit_table b h)

pub set_top : (b : ℕ) → b < 128 → bit_or b 0x80 ≡ b + 128
set_top b h = ==→eq _ _ (all_below→ 128 _ set_top_table b h)

bit_and-zero : (n a : ℕ) → a ≤ n → bit_and a 0 ≡ 0
bit_and-zero n zero h = bit_and-bitwise 0 0
bit_and-zero zero (suc a) h = absurd (omega arith)
bit_and-zero (suc n) (suc a) h =
    omega (arith, and_digit (suc a) 0, bit_and-zero n (suc a / 2) (omega arith))

pub bit_and-one : (a : ℕ) → bit_and a 1 ≡ a % 2
bit_and-one a = omega (arith, and_digit a 1, bit_and-zero (a / 2) (a / 2) (omega arith))

and_three : (a : ℕ) → bit_and a 7 ≡ a % 8
and_three a = omega (arith, and_digit a 7, and_digit (a / 2) 3, bit_and-one (a / 2 / 2))

-- `a & 0x7f` on any word.
pub low_seven : (a : ℕ) → bit_and a 0x7f ≡ a % 128
low_seven a = omega (
  arith,
  and_digit a 127,
  and_digit (a / 2) 63,
  and_digit (a / 2 / 2) 31,
  and_digit (a / 2 / 2 / 2) 15,
  and_three (a / 2 / 2 / 2 / 2),
)

xor-zero_count : (n a : ℕ) → a ≤ n → bit_xor a 0 ≡ a
xor-zero_count n zero h = bit_xor-bitwise 0 0
xor-zero_count zero (suc a) h = absurd (omega arith)
xor-zero_count (suc n) (suc a) h = rw xor_digit (
    rw (digit_alone (suc a % 2) (omega arith))
      (omega (arith, xor-zero_count n (suc a / 2) (omega arith))))
  where
    digit_alone : (b : ℕ) → b < 2 → differ b (0 % 2) ≡ b
    digit_alone zero h = refl
    digit_alone (suc b) h = refl

pub bit_xor-zero : (a : ℕ) → bit_xor a 0 ≡ a
bit_xor-zero a = xor-zero_count a a (omega arith)

zero-or : (b : ℕ) → bit_or 0 b ≡ b
zero-or b = bit_or-bitwise 0 b

zero-xor : (b : ℕ) → bit_xor 0 b ≡ b
zero-xor b = bit_xor-bitwise 0 b

or-eq-zero : (n a b : ℕ) → a ≤ n → bit_or a b ≡ 0 → (a ≡ 0) × (b ≡ 0)
or-eq-zero n zero b h e = (refl, omega (arith, zero-or b, e))
or-eq-zero zero (suc a) b h e = absurd (omega arith)
or-eq-zero (suc n) (suc a) b h e =
    let low = or_digit (suc a) b in
    let (p, q) = or-eq-zero n (suc a / 2) (b / 2) (omega arith) (omega arith) in
    (omega (arith, low), omega (arith, low))

-- `a | b` is zero exactly when both are.
pub bit_or-eq-zero : (a b : ℕ) → bit_or a b ≡ 0 → (a ≡ 0) × (b ≡ 0)
bit_or-eq-zero a b e = or-eq-zero a a b (omega arith) e

same_digit : (x y : ℕ) → x < 2 → y < 2 → differ x y ≡ 0 → x ≡ y
same_digit zero y p q e = sym e
same_digit (suc zero) zero p q e = absurd (omega arith)
same_digit (suc zero) (suc zero) p q e = refl
same_digit (suc zero) (suc (suc y)) p q e = absurd (omega arith)
same_digit (suc (suc x)) y p q e = absurd (omega arith)

xor-eq-zero : (n a b : ℕ) → a ≤ n → bit_xor a b ≡ 0 → a ≡ b
xor-eq-zero n zero b h e = omega (arith, zero-xor b, e)
xor-eq-zero zero (suc a) b h e = absurd (omega arith)
xor-eq-zero (suc n) (suc a) b h e =
    let low = xor_digit (suc a) b in
    omega (
      arith,
      same_digit (suc a % 2) (b % 2) (omega arith) (omega arith) (omega (arith, low)),
      xor-eq-zero n (suc a / 2) (b / 2) (omega arith) (omega (arith, low)),
    )

-- `a ^ b` is zero only when they agree.
pub bit_xor-eq-zero : (a b : ℕ) → bit_xor a b ≡ 0 → a ≡ b
bit_xor-eq-zero a b e = xor-eq-zero a a b (omega arith) e

xor_self : (n a : ℕ) → a ≤ n → bit_xor a a ≡ 0
xor_self n zero h = refl
xor_self zero (suc a) h = absurd (omega arith)
xor_self (suc n) (suc a) h =
    rw xor_digit (omega (arith, differ_self (suc a % 2), xor_self n (suc a / 2) (omega arith)))
  where
    differ_self : (x : ℕ) → differ x x ≡ 0
    differ_self zero = refl
    differ_self (suc x) = differ_self x

pub bit_xor_self : (a : ℕ) → bit_xor a a ≡ 0
bit_xor_self a = xor_self a a (omega arith)
