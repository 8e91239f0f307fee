-- ===== src/Wire/Varint/Progress.antt =====
-- A varint takes a byte at least.
use phpser.Base.{
  ℕ, ◌+◌, ◌*◌, ◌^◌, ◌%◌, ◌<◌, ◌≡◌, refl, arith, bit_and, bit_or, List, [], ◌∷◌, Option, some, none,
  length,
}
use phpser.Wire.{zigzag_decode64, read_loop, varint_read_u64, varint_read_i64}
use mathlib.Core.Option

read_loop_shorter :
    (src : List ℕ) (v shift u : ℕ) (rest : List ℕ)
    → read_loop src v shift ≡ some (u, rest)
    → length rest < length src
unfolding read_loop
read_loop_shorter [] v shift u rest e = cc
read_loop_shorter (b ∷ bs) v shift u rest e = ground (
  arith,
  read_loop_shorter bs (bit_or v (bit_and b 0x7f * 2 ^ shift % 2 ^ 64)) (shift + 7) u rest,
)

pub varint_shorter :
    (src : List ℕ) (u : ℕ) (rest : List ℕ)
    → varint_read_u64 src ≡ some (u, rest)
    → length rest < length src
unfolding varint_read_u64
varint_shorter [] u rest e = cc
varint_shorter (b ∷ bs) u rest e = ground (arith, read_loop_shorter bs (bit_and b 0x7f) 7 u rest)

pub signed_shorter :
    (src : List ℕ) (u : ℕ) (rest : List ℕ)
    → varint_read_i64 src ≡ some (u, rest)
    → length rest < length src
unfolding varint_read_i64
signed_shorter src u rest e = go (varint_read_u64 src) refl e
  where
    go :
        (r : Option (ℕ × List ℕ))
        → varint_read_u64 src ≡ r
        → Option.map {B = ℕ × List ℕ} (λ (x, y). (zigzag_decode64 x, y)) r ≡ some (u, rest)
        → length rest < length src
    go none e₁ e₂ = absurd (cc)
    go (some (x, y)) e₁ e₂ = ground (arith, varint_shorter src x y e₁)
