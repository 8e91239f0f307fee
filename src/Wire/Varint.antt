-- ===== src/Wire/Varint.antt =====
-- Varints: what the writer puts is what the reader takes, in the shortest form there is.
pub mod Shortest
pub mod Progress
use phpser.Base.{
  ℕ, zero, suc, ◌+◌, ◌-◌, ◌*◌, ◌/◌, ◌%◌, ◌^◌, ◌<◌, ◌≤◌, bit_and, bit_or, ◌≡◌, refl, sym, ap, arith,
  List, [], ◌∷◌, ◌++◌, some, none, Bool-cases, inl, inr, leb, if◌then◌else◌, length, lengths,
  append_assoc, ◌∙◌, append-nil,
}
use phpser.Base.Bits.{bit_or_above, low_seven, top_bit, set_top}
use phpser.Wire.{
  IsU64, put_loop, varint_put, read_loop, varint_read_u64, zigzag_encode64, zigzag_decode64,
  varint_write_u64, varint_write_i64, varint_read_i64, emit_tag_and_varint,
}
use phpser.Wire.Zigzag.{zigzag_decode64-encode64, zigzag_encode64-IsU64}
use native.Mathlib.Nat.{div-add-mod}
use native.Mathlib.Numerals.{towards_suc}

-- The groups of seven bits of `v`, lowest first, in at most `k + 1` bytes.
unfoldable pub groups : ℕ → ℕ → List ℕ
groups zero v = v ∷ []
groups (suc k) v =
    let rest = groups k (v / 128) in if leb 0x80 v then (v % 128 + 128) ∷ rest else v ∷ []

put_loop-groups :
    (k rounds v : ℕ) (out : List ℕ)
    → v ≤ rounds
    → v < 128 ^ suc k
    → put_loop rounds out v ≡ out ++ groups k v
unfolding put_loop groups
put_loop-groups zero zero v out h b = ground arith
put_loop-groups zero (suc r) v out h b = ground arith
put_loop-groups (suc k) zero v out h b = ground arith
put_loop-groups (suc k) (suc r) v out h b = ground (
  arith,
  low_seven v,
  set_top (v % 128),
  put_loop-groups k r (v / 128) (out ++ ((v % 128 + 128) ∷ [])),
  append_assoc out ((v % 128 + 128) ∷ []) (groups k (v / 128)),
)

pub varint_put-groups : (v : ℕ) (out : List ℕ) → IsU64 v → varint_put out v ≡ out ++ groups 9 v
unfolding varint_put
varint_put-groups v out h = put_loop-groups 9 v v out (omega arith) (omega arith)

-- One byte of the loop that reads on: the last byte of a number, and one with the top bit set.
last_byte :
    (w v shift : ℕ) (rest : List ℕ)
    → w < 128
    → v < 2 ^ shift
    → shift ≤ 63
    → IsU64 (v + w * 2 ^ shift)
    → read_loop (w ∷ rest) v shift ≡ some (v + w * 2 ^ shift, rest)
unfolding read_loop
last_byte w v shift rest hw hv hs fits =
    ground (arith, low_seven w, top_bit w, bit_or_above shift v w)

inner_byte :
    (g v shift : ℕ) (rest : List ℕ)
    → g < 128
    → v < 2 ^ shift
    → shift < 63
    → IsU64 (v + g * 2 ^ shift)
    → read_loop ((g + 128) ∷ rest) v shift ≡ read_loop rest (v + g * 2 ^ shift) (shift + 7)
unfolding read_loop
inner_byte g v shift rest hg hv hs fits =
    ground (arith, low_seven (g + 128), top_bit (g + 128), bit_or_above shift v g)

pow_shift : (s : ℕ) → 2 ^ (s + 7) ≡ 128 * 2 ^ s
pow_shift s = simp towards_suc (omega arith)

-- The lowest group of `w` and what is above it, both shifted to bit `s`.
group_shift : (w s : ℕ) → w * 2 ^ s ≡ w % 128 * 2 ^ s + w / 128 * 2 ^ (s + 7)
group_shift w s = omega (
  arith,
  ap (λ (t : ℕ). t * 2 ^ s) (div-add-mod w 128),
  ap (λ (t : ℕ). w / 128 * t) (pow_shift s),
)

group_fits : (g v s : ℕ) → g < 128 → v < 2 ^ s → v + g * 2 ^ s < 2 ^ (s + 7)
group_fits g v s hg hv = rw pow_shift (grind arith)

read_loop-groups :
    (k w v shift : ℕ) (rest : List ℕ)
    → w < 128 ^ suc k
    → v < 2 ^ shift
    → shift + 7 * k ≤ 63
    → IsU64 (v + w * 2 ^ shift)
    → read_loop (groups k w ++ rest) v shift ≡ some (v + w * 2 ^ shift, rest)
unfolding groups
read_loop-groups zero w v shift rest hw hv hs fits =
    last_byte w v shift rest hw hv (omega arith) fits
read_loop-groups (suc k) w v shift rest hw hv hs fits = ground (
  arith,
  last_byte w v shift rest,
  group_shift w shift,
  inner_byte (w % 128) v shift (groups k (w / 128) ++ rest),
  group_fits (w % 128) v shift,
  read_loop-groups k (w / 128) (v + w % 128 * 2 ^ shift) (shift + 7) rest (omega arith),
)

pub varint_read_u64-groups :
    (v : ℕ) (rest : List ℕ) → IsU64 v → varint_read_u64 (groups 9 v ++ rest) ≡ some (v, rest)
unfolding groups varint_read_u64
varint_read_u64-groups v rest h = ground (
  arith,
  top_bit v,
  top_bit (v % 128 + 128),
  low_seven (v % 128 + 128),
  read_loop-groups 8 (v / 128) (v % 128) 7 rest,
)

-- The reader takes back the number that the writer put, and leaves the bytes after it.
pub varint_read_u64-put :
    (v : ℕ) (rest : List ℕ) → IsU64 v → varint_read_u64 (varint_put [] v ++ rest) ≡ some (v, rest)
varint_read_u64-put v rest h = rw (varint_put-groups v [] h) (varint_read_u64-groups v rest h)

pub varint_write_u64-groups :
    (v : ℕ) (s : List ℕ) → IsU64 v → varint_write_u64 s v ≡ s ++ groups 9 v
unfolding varint_write_u64
varint_write_u64-groups v s h = varint_put-groups v s h

pub varint_write_i64-groups :
    (v : ℕ) (s : List ℕ) → IsU64 v → varint_write_i64 s v ≡ s ++ groups 9 (zigzag_encode64 v)
unfolding varint_write_i64
varint_write_i64-groups v s h =
    varint_write_u64-groups (zigzag_encode64 v) s (zigzag_encode64-IsU64 v h)

pub emit_tag_and_varint-groups :
    (v tag : ℕ) (s : List ℕ) → IsU64 v → emit_tag_and_varint s tag v ≡ s ++ (tag ∷ groups 9 v)
unfolding emit_tag_and_varint
emit_tag_and_varint-groups v tag s h =
    varint_put-groups v (s ++ (tag ∷ [])) h ∙ append_assoc s (tag ∷ []) (groups 9 v)

pub varint_read_i64-groups :
    (v : ℕ) (rest : List ℕ)
    → IsU64 v
    → varint_read_i64 (groups 9 (zigzag_encode64 v) ++ rest) ≡ some (v, rest)
unfolding varint_read_i64
varint_read_i64-groups v rest h =
    rw (varint_read_u64-groups (zigzag_encode64 v) rest (zigzag_encode64-IsU64 v h))
      (rw (zigzag_decode64-encode64 v h))

-- The same for an int64_t, through zigzag.
pub varint_read_i64-write_i64 :
    (v : ℕ) (rest : List ℕ)
    → IsU64 v
    → varint_read_i64 (varint_write_i64 [] v ++ rest) ≡ some (v, rest)
varint_read_i64-write_i64 v rest h =
    rw (varint_write_i64-groups v [] h) (varint_read_i64-groups v rest h)
