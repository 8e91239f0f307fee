-- ===== src/Wire/Zigzag.antt =====
-- The zigzag map between int64_t and uint64_t is a bijection.
use phpser.Base.{ℕ, ◌+◌, ◌-◌, ◌*◌, ◌/◌, ◌%◌, ◌^◌, ◌<◌, ◌≤◌, ◌≡◌, arith}
use phpser.Base.Bits.{bit_xor-zero, bit_xor_ones, bit_and-one}
use phpser.Wire.{IsU64, zigzag_encode64, zigzag_decode64}
use native.Mathlib.Decide.{dec_lt}

-- A number that is not negative goes to its double.
pub zigzag_encode64_pos : (v : ℕ) → v < 2 ^ 63 → zigzag_encode64 v ≡ 2 * v
unfolding zigzag_encode64
zigzag_encode64_pos v h = ground (arith, bit_xor-zero (v * 2 % 2 ^ 64))

-- `-(n + 1)`, the pattern 2^64 - 1 - n, goes to 2n + 1.
pub zigzag_encode64_neg :
    (v : ℕ) → 2 ^ 63 ≤ v → IsU64 v → zigzag_encode64 v ≡ 2 * (2 ^ 64 - 1 - v) + 1
unfolding zigzag_encode64
zigzag_encode64_neg v h u = ground (arith, bit_xor_ones 64 (v * 2 % 2 ^ 64) (omega arith))

decode_even : (u : ℕ) → u % 2 ≡ 0 → IsU64 u → zigzag_decode64 u ≡ u / 2
unfolding zigzag_decode64
decode_even u e h = rw (bit_and-one, e) (bit_xor-zero (u / 2))

decode_odd : (u : ℕ) → u % 2 ≡ 1 → IsU64 u → zigzag_decode64 u ≡ 2 ^ 64 - 1 - u / 2
unfolding zigzag_decode64
decode_odd u e h = rw (bit_and-one, e) (bit_xor_ones 64 (u / 2) (omega arith))

pub zigzag_decode64-encode64 : (v : ℕ) → IsU64 v → zigzag_decode64 (zigzag_encode64 v) ≡ v
zigzag_decode64-encode64 v h = elim (dec_lt v (2 ^ 63)) [
  | yes p ↦
      rw (zigzag_encode64_pos v p) (omega (arith, decode_even (2 * v) (omega arith) (omega arith)))
  | no p ↦
      rw (zigzag_encode64_neg v (omega arith) h)
        (omega (arith, decode_odd (2 * (2 ^ 64 - 1 - v) + 1) (omega arith) (omega arith)))
]

pub zigzag_encode64-IsU64 : (v : ℕ) → IsU64 v → IsU64 (zigzag_encode64 v)
zigzag_encode64-IsU64 v h = elim (dec_lt v (2 ^ 63)) [
  | yes p ↦ rw (zigzag_encode64_pos v p) (omega arith)
  | no p ↦ rw (zigzag_encode64_neg v (omega arith) h) (omega arith)
]

pub zigzag_decode64-IsU64 : (u : ℕ) → IsU64 u → IsU64 (zigzag_decode64 u)
zigzag_decode64-IsU64 u h = elim (dec_lt (u % 2) 1) [
  | yes p ↦ rw (decode_even u (omega arith) h) (omega arith)
  | no p ↦ rw (decode_odd u (omega arith) h) (omega arith)
]

encode64-decode64 : (u : ℕ) → IsU64 u → zigzag_encode64 (zigzag_decode64 u) ≡ u
encode64-decode64 u h = elim (dec_lt (u % 2) 1) [
  | yes p ↦
      rw (decode_even u (omega arith) h)
        (rw (zigzag_encode64_pos (u / 2) (omega arith)) (omega arith))
  | no p ↦
      rw (decode_odd u (omega arith) h)
        (rw (zigzag_encode64_neg (2 ^ 64 - 1 - u / 2) (omega arith) (omega arith)) (omega arith))
]

-- On 64-bit words zigzag is a bijection: decoding undoes encoding and encoding undoes decoding.
pub zigzag_bijection :
    (v : ℕ)
    → IsU64 v
    → (zigzag_decode64 (zigzag_encode64 v) ≡ v) × (zigzag_encode64 (zigzag_decode64 v) ≡ v)
zigzag_bijection v h = (zigzag_decode64-encode64 v h, encode64-decode64 v h)
