-- ===== src/Wire/Varint/Shortest.antt =====
-- The length of a varint, and what any accepted varint looks like.
use phpser.Base.{
  ℕ, zero, suc, ◌+◌, ◌-◌, ◌*◌, ◌/◌, ◌%◌, ◌^◌, ◌<◌, ◌≤◌, bit_and, bit_or, ◌≡◌, refl, arith, List, [],
  ◌∷◌, some, Bool-cases, inl, inr, ◌==◌, length, length-append, All,
}
use phpser.Base.Bits.{bit_or_above, low_seven, top_bit}
use phpser.Wire.{IsByte, IsU64, varint_put, varint_len_u64, len_loop, read_loop, varint_read_u64}
use native.Mathlib.Nat.{pow-suc, pow-le-pow_right}
use mathlib.Core.Logic.{◌⊎◌}
use phpser.Wire.Varint.{groups, varint_put-groups, pow_shift, group_fits}

len_loop-groups :
    (k rounds n v : ℕ)
    → v ≤ rounds
    → v < 128 ^ suc k
    → len_loop rounds n v + 1 ≡ n + length (groups k v)
unfolding len_loop groups
len_loop-groups zero zero n v h b = ground arith
len_loop-groups zero (suc r) n v h b = ground arith
len_loop-groups (suc k) zero n v h b = ground arith
len_loop-groups (suc k) (suc r) n v h b = ground (arith, len_loop-groups k r (n + 1) (v / 128))

length-groups : (k v : ℕ) → (1 ≤ length (groups k v)) × (length (groups k v) ≤ k + 1)
unfolding groups
length-groups zero v = omega arith
length-groups (suc k) v = ground (arith, length-groups k (v / 128))

pub varint_len_u64-groups : (v : ℕ) → IsU64 v → varint_len_u64 v ≡ length (groups 9 v)
unfolding varint_len_u64
varint_len_u64-groups v h = omega (arith, len_loop-groups 9 v 1 v (omega arith) (omega arith))

-- The sizing pass agrees with the writer, and no varint is longer than VARINT_MAX_BYTES.
pub length-varint_put :
    (v : ℕ) (out : List ℕ)
    → IsU64 v
    → (length (varint_put out v) ≡ length out + varint_len_u64 v)
      × (1 ≤ varint_len_u64 v)
      × (varint_len_u64 v ≤ 10)
length-varint_put v out h =
    rw (varint_put-groups v out h, varint_len_u64-groups v h, length-append)
      (refl, (length-groups 9 v).0, (length-groups 9 v).1)

-- A number of at most `n` groups is written in at most `n` bytes.
groups_shortest : (k n v : ℕ) → v < 128 ^ suc n → length (groups k v) ≤ suc n
unfolding groups
groups_shortest zero n v h = omega arith
groups_shortest (suc k) zero v h = ground arith
groups_shortest (suc k) (suc n) v h =
    ground (arith, groups_shortest k n (v / 128), pow-suc 128 (suc n))

top_group :
    (chunk v : ℕ)
    → chunk ≤ 1
    → v < 2 ^ 63
    → (bit_or v (chunk * 2 ^ 63 % 2 ^ 64) ≡ v + chunk * 2 ^ 63)
      × IsU64 (v + chunk * 2 ^ 63)
      × (v + chunk * 2 ^ 63 < 2 ^ 70)
top_group chunk v one hv = (ground (arith, bit_or_above 63 v chunk), omega arith, omega arith)

-- One byte read at bit `shift`, below the sixty-fourth: no bit is lost and none overlaps.
group_step :
    (chunk v shift : ℕ)
    → chunk < 128
    → v < 2 ^ shift
    → shift ≤ 56 ⊎ (shift ≡ 63) × (chunk ≤ 1)
    → (bit_or v (chunk * 2 ^ shift % 2 ^ 64) ≡ v + chunk * 2 ^ shift)
      × IsU64 (v + chunk * 2 ^ shift)
      × (v + chunk * 2 ^ shift < 2 ^ (shift + 7))
group_step chunk v shift hc hv (inl h) =
    let fits : v + chunk * 2 ^ shift < 2 ^ (shift + 7) = group_fits chunk v shift hc hv in
    let low : 2 ^ (shift + 7) ≤ 2 ^ 63 =
      pow-le-pow_right {n = 2} (omega arith) {i = shift + 7} {j = 63} (omega arith) in
    (ground (arith, bit_or_above shift v chunk), omega arith, fits)
group_step chunk v shift hc hv (inr (h, one)) = rw h (top_group chunk v one (rw h at hv))

-- Reading on after `j` bytes: the number stays below 2^64, it fits the groups that were read, and
-- at most ten bytes are read in all.
read_loop_takes :
    (src : List ℕ) (v shift j u : ℕ) (rest : List ℕ)
    → shift ≡ 7 * j
    → v < 2 ^ shift
    → j ≤ 10
    → read_loop src v shift ≡ some (u, rest)
    → IsU64 u
      × (length rest < length src)
      × (length src + j ≤ length rest + 10)
      × (u < 2 ^ (7 * (length src + j - length rest)))
unfolding read_loop
read_loop_takes [] v shift j u rest hs hv hj e = cc
read_loop_takes (b ∷ bs) v shift j u rest hs hv hj e = ground (
  arith,
  low_seven b,
  group_step (bit_and b 0x7f) v shift,
  read_loop_takes bs (bit_or v (bit_and b 0x7f * 2 ^ shift % 2 ^ 64)) (shift + 7) (j + 1) u rest,
)

pow_groups : (n : ℕ) → 2 ^ (7 * n) ≡ 128 ^ n
pow_groups zero = refl
pow_groups (suc n) =
    let e : 7 * suc n ≡ 7 * n + 7 = omega arith in
    rw e (omega (arith, pow_shift (7 * n), pow_groups n, pow-suc 128 n))

len_fits : (u n : ℕ) → IsU64 u → u < 2 ^ (7 * suc n) → varint_len_u64 u ≤ suc n
len_fits u n h b =
    rw (varint_len_u64-groups u h) (groups_shortest 9 n u (rw (← pow_groups (suc n)) b))

-- Whatever the reader accepts is a uint64 and takes one to ten bytes; and the writer never needs
-- more bytes for that number.
pub varint_read_u64_takes :
    (src : List ℕ) (u : ℕ) (rest : List ℕ)
    → All IsByte src
    → varint_read_u64 src ≡ some (u, rest)
    → IsU64 u
      × (length rest < length src)
      × (length src ≤ length rest + 10)
      × (varint_len_u64 u + length rest ≤ length src)
unfolding varint_read_u64
varint_read_u64_takes [] u rest hb e = cc
varint_read_u64_takes (b ∷ bs) u rest hb e = elim (Bool-cases (bit_and b 0x80 == 0)) [
  | inl last ↦ ground (arith, top_bit b (hb.0), len_fits b 0)
  | inr more ↦ ground (
    arith,
    low_seven b,
    read_loop_takes bs (bit_and b 0x7f) 7 1 u rest,
    len_fits u (length bs - length rest),
  )
]
