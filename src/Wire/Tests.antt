-- ===== src/Wire/Tests.antt =====
-- Runs of the number coders.
use phpser.Base.{◌≡◌, ◌≤◌, ◌<◌, ◌+◌, ◌-◌, ◌^◌, refl, [], ◌∷◌, ◌++◌, some, none, length, arith}
use phpser.Wire.{
  IsU64, put_loop, varint_put, len_loop, varint_len_u64, read_loop, varint_read_u64, sign_fill,
  zigzag_encode64, zigzag_decode64, varint_write_i64, varint_read_i64, le64_put, le64_read,
}
use phpser.Wire.Varint.{varint_read_u64-put, varint_read_i64-write_i64}
use phpser.Wire.Varint.Shortest.{length-varint_put, varint_read_u64_takes}
use phpser.Wire.Zigzag.{zigzag_bijection}
use phpser.Wire.Le64.{le64_read-put}

put_300 : varint_put [] 300 ≡ 0xac ∷ 0x02 ∷ []
unfolding varint_put put_loop
put_300 = refl

largest : varint_len_u64 (2 ^ 64 - 1) ≡ 10
unfolding varint_len_u64 len_loop
largest = refl

-- An eleventh byte, a tenth byte above 1 and a cut number are refused.
tenth_byte :
    varint_read_u64 (0x80 ∷ 0x80 ∷ 0x80 ∷ 0x80 ∷ 0x80 ∷ 0x80 ∷ 0x80 ∷ 0x80 ∷ 0x80 ∷ 0x02 ∷ [])
    ≡ none
unfolding varint_read_u64 read_loop
tenth_byte = refl

cut_short : varint_read_u64 (0xac ∷ []) ≡ none
unfolding varint_read_u64 read_loop
cut_short = refl

zigzag_minus_one : zigzag_encode64 (2 ^ 64 - 1) ≡ 1
unfolding zigzag_encode64 sign_fill
zigzag_minus_one = refl

varint_read_u64-put_example : varint_read_u64 (varint_put [] 300 ++ 7 ∷ []) ≡ some (300, 7 ∷ [])
varint_read_u64-put_example = varint_read_u64-put 300 (7 ∷ []) (omega arith)

varint_read_i64-write_i64_example :
    varint_read_i64 (varint_write_i64 [] (2 ^ 64 - 5) ++ 7 ∷ []) ≡ some (2 ^ 64 - 5, 7 ∷ [])
varint_read_i64-write_i64_example = varint_read_i64-write_i64 (2 ^ 64 - 5) (7 ∷ []) (omega arith)

read_padded : varint_read_u64 (0xac ∷ 0x82 ∷ 0x00 ∷ 9 ∷ []) ≡ some (300, 9 ∷ [])
unfolding varint_read_u64 read_loop
read_padded = refl

varint_read_u64_takes_example : IsU64 300 × (1 < 4) × (4 ≤ 1 + 10) × (varint_len_u64 300 + 1 ≤ 4)
varint_read_u64_takes_example =
    varint_read_u64_takes (0xac ∷ 0x82 ∷ 0x00 ∷ 9 ∷ []) 300 (9 ∷ [])
      (omega arith, (omega arith, (omega arith, (omega arith, tt)))) read_padded

length-varint_put_example :
    (length (varint_put (5 ∷ []) 300) ≡ 1 + varint_len_u64 300)
    × (1 ≤ varint_len_u64 300)
    × (varint_len_u64 300 ≤ 10)
length-varint_put_example = length-varint_put 300 (5 ∷ []) (omega arith)

zigzag_bijection_example :
    (zigzag_decode64 (zigzag_encode64 (2 ^ 63)) ≡ 2 ^ 63)
    × (zigzag_encode64 (zigzag_decode64 (2 ^ 63)) ≡ 2 ^ 63)
zigzag_bijection_example = zigzag_bijection (2 ^ 63) (omega arith)

le64_read-put_example :
    le64_read (le64_put [] 0x4009_21fb_5444_2d18 ++ 9 ∷ []) ≡ 0x4009_21fb_5444_2d18
le64_read-put_example = le64_read-put 0x4009_21fb_5444_2d18 (9 ∷ []) (omega arith)
