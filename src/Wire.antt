-- ===== src/Wire.antt =====
-- phpser.c, "Varint helpers" and the fixed-width doubles: the bytes of one number.
-- A buffer that is written is the list of the bytes in it, so `base[pos++] = b` appends. A buffer
-- that is read is the list of the bytes from the cursor on, so its length is `buflen - pos`.
-- A uint64_t is a number below 2 ^ 64, and an int64_t is its two's complement bit pattern.
pub mod Varint
pub mod Zigzag
pub mod Le64
pub mod Tests
use phpser.Base.{
  ℕ, zero, suc, ◌+◌, ◌-◌, ◌*◌, ◌/◌, ◌%◌, ◌^◌, ◌<◌, bit_and, bit_or, bit_xor, Bool, ◌&&◌, List, [],
  ◌∷◌, ◌++◌, Option, some, none, if◌then◌else◌, ltb, leb, ◌==◌, take, drop,
}
use mathlib.Core.Option

abbrev pub IsU64 : ℕ → Type 0
IsU64 v = v < 2 ^ 64

abbrev pub IsByte : ℕ → Type 0
IsByte b = b < 256

-- `while (v >= 0x80)`: `v >> 7` is below a positive `v`, so `v` rounds are enough.
unfoldable pub put_loop : ℕ → List ℕ → ℕ → List ℕ
put_loop zero out v = out ++ (v % 256 ∷ [])
put_loop (suc rounds) out v =
    let more = put_loop rounds (out ++ (bit_or (bit_and v 0x7f) 0x80 ∷ [])) (v / 128) in
    if leb 0x80 v then more else out ++ (v % 256 ∷ [])

unfoldable pub varint_put : List ℕ → ℕ → List ℕ
varint_put out v = put_loop v out v

-- `smart_str_alloc` reserves room, and then the bytes are put at the end.
unfoldable pub varint_write_u64 : List ℕ → ℕ → List ℕ
varint_write_u64 s v = varint_put s v

pub emit_tag_and_varint : List ℕ → ℕ → ℕ → List ℕ
emit_tag_and_varint s tag v = varint_put (s ++ (tag ∷ [])) v

unfoldable pub len_loop : ℕ → ℕ → ℕ → ℕ
len_loop zero n v = n
len_loop (suc rounds) n v =
    let more = len_loop rounds (n + 1) (v / 128) in if leb 0x80 v then more else n

unfoldable pub varint_len_u64 : ℕ → ℕ
varint_len_u64 v = len_loop v 1 v

-- The bytes after the first one. `shift` is the bit at which the next group goes.
unfoldable pub read_loop : List ℕ → ℕ → ℕ → Option (ℕ × List ℕ)
read_loop [] v shift = none
read_loop (b ∷ rest) v shift =
    let chunk = bit_and b 0x7f in
    let v' = bit_or v (chunk * 2 ^ shift % 2 ^ 64) in
    let more = read_loop rest v' (shift + 7) in
    if leb 64 shift
    then none
    else if shift == 63 && ltb 1 chunk
    then none
    else if bit_and b 0x80 == 0
    then some (v', rest)
    else more

unfoldable pub varint_read_u64 : List ℕ → Option (ℕ × List ℕ)
varint_read_u64 [] = none
varint_read_u64 (b ∷ rest) =
    if bit_and b 0x80 == 0 then some (b, rest) else read_loop rest (bit_and b 0x7f) 7

-- `v >> 63` of an int64_t copies the sign bit.
unfoldable pub sign_fill : ℕ → ℕ
sign_fill v = if leb (2 ^ 63) v then 2 ^ 64 - 1 else 0

unfoldable pub zigzag_encode64 : ℕ → ℕ
unfolding sign_fill
zigzag_encode64 v = bit_xor (v * 2 % 2 ^ 64) (sign_fill v)

unfoldable pub zigzag_decode64 : ℕ → ℕ
zigzag_decode64 v = bit_xor (v / 2) ((2 ^ 64 - 1 - bit_and v 1 + 1) % 2 ^ 64)

unfoldable pub varint_write_i64 : List ℕ → ℕ → List ℕ
varint_write_i64 s v = varint_write_u64 s (zigzag_encode64 v)

unfoldable pub varint_read_i64 : List ℕ → Option (ℕ × List ℕ)
varint_read_i64 buf = Option.map (λ (u, rest). (zigzag_decode64 u, rest)) (varint_read_u64 buf)

-- A double is its 64-bit IEEE 754 pattern. `k` counts the bytes still to go.
unfoldable pub le_put : ℕ → List ℕ → ℕ → List ℕ
le_put zero out bits = out
le_put (suc k) out bits = le_put k (out ++ (bits % 256 ∷ [])) (bits / 256)

unfoldable pub le64_put : List ℕ → ℕ → List ℕ
le64_put out dv = le_put 8 out dv

-- Byte `i` goes to bit 8 * i.
unfoldable pub le_read : List ℕ → ℕ → ℕ → ℕ
le_read [] shift bits = bits
le_read (b ∷ rest) shift bits = le_read rest (shift + 8) (bit_or bits (b * 2 ^ shift))

unfoldable pub le64_read : List ℕ → ℕ
le64_read src = le_read (take 8 src) 0 0
