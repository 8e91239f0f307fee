-- ===== src/Encode/Frame.antt =====
-- phpser_encode_zval_ex: the size of the icache, the walk, and the frame. The exception that
-- throw_on_overflow asks for is left to the caller. A size_t has 64 bits.
pub mod Header
pub mod Parts
pub mod Reading
use phpser.Base.{
  ℕ, zero, suc, ◌+◌, ◌-◌, ◌*◌, ◌%◌, ◌^◌, Bool, false, ◌||◌, List, [], ◌∷◌, ◌++◌, if◌then◌else◌, ltb,
  leb, length, map,
}
use phpser.Wire.{varint_put, varint_len_u64}
use phpser.Decode.Array.{max_depth}
use phpser.Decode.Frame.{size_max}
use phpser.Decode.Ctx.{uint32_max}
use phpser.Encode.Memory.{Memory, Zval, ref, arr, HashTable, packed, hashed, num_elements}
use phpser.Encode.Ctx.{Enc, enc_ctx_init}
use phpser.Encode.Table.{values_of}
use phpser.Encode.Value.{encode_value_ex}

-- The count of an array under at most one reference: ZVAL_DEREF.
unfoldable pub array_elems : Zval → ℕ
unfolding num_elements
array_elems (arr p t) = num_elements t
array_elems _ = 0

unfoldable pub deref : Memory → Zval → Zval
deref m (ref r) = m.ref_value r
deref m v = v

unfoldable pub sum_elems : Memory → List Zval → ℕ → ℕ
unfolding array_elems deref
sum_elems m [] total = total
sum_elems m (v ∷ vs) total = sum_elems m vs (total + array_elems (deref m v))

unfoldable pub capped : ℕ → ℕ
capped total = if ltb uint32_max total then uint32_max else total

-- A hole counts nothing, as the loop passes it over.
unfoldable pub enc_wrapped_elems : Memory → HashTable → ℕ
unfolding capped sum_elems values_of num_elements
enc_wrapped_elems m t = capped (sum_elems m (values_of t) (num_elements t))

-- ENC_WRAPPER_MAX_KEYS
unfoldable pub n_seed : Memory → HashTable → ℕ
unfolding enc_wrapped_elems num_elements
n_seed m (packed cs) = num_elements (packed cs)
n_seed m (hashed es) =
    if leb (num_elements (hashed es)) 16
    then enc_wrapped_elems m (hashed es)
    else num_elements (hashed es)

-- `while (cap < want) cap <<= 1;` from 128 on reaches 32768 in eight rounds.
unfoldable pub cap_loop : ℕ → ℕ → ℕ → ℕ
cap_loop zero cap want = cap
cap_loop (suc rounds) cap want =
    let more = cap_loop rounds (cap * 2) want in if ltb cap want then more else cap

unfoldable pub seeded_cap : ℕ → ℕ
unfolding cap_loop
seeded_cap n_seed =
    if ltb 64 n_seed then cap_loop 8 128 (if ltb n_seed 8192 then n_seed * 4 else 32768) else 0

unfoldable pub init_cap : Memory → Zval → ℕ
unfolding seeded_cap n_seed
init_cap m (arr p t) = seeded_cap (n_seed m t)
init_cap m _ = 0

-- The dictionary's strings are on the wire by their bytes.
unfoldable pub entry_lengths : List (List ℕ) → ℕ
entry_lengths [] = 0
entry_lengths (s ∷ dict) = varint_len_u64 (length s) + length s + entry_lengths dict

unfoldable pub put_entries : List (List ℕ) → List ℕ → List ℕ
put_entries [] out = out
put_entries (s ∷ dict) out = put_entries dict (varint_put out (length s) ++ s)

unfoldable pub dict_bytes : Memory → Enc → List (List ℕ)
dict_bytes m e = map m.bytes_at e.dict

unfoldable pub header_len : List (List ℕ) → ℕ
unfolding entry_lengths
header_len dict = 1 + varint_len_u64 (length dict) + entry_lengths dict

unfoldable pub put_header : Bool → List (List ℕ) → List ℕ
unfolding put_entries
put_header wire_v2 dict =
    put_entries dict (varint_put ((if wire_v2 then 0x02 else 0x01) ∷ []) (length dict))

unfoldable pub frame_overflows : ℕ → ℕ → ℕ → Bool
frame_overflows frame_len body_len tail_reserve =
    ltb frame_len body_len
    || ltb (size_max - 4096) tail_reserve
    || ltb (size_max - 4096 - tail_reserve) frame_len

-- A frame, or NULL with its status.
pub data Framed : Type 0 where
  frame_ok : List ℕ → Framed
  depth_status size_status : Framed

unfoldable pub framed : ℕ → Bool → List (List ℕ) → List ℕ → Framed
unfolding frame_overflows header_len put_header
framed tail_reserve wire_v2 dict body =
    if frame_overflows ((header_len dict + length body) % 2 ^ 64) (length body) tail_reserve
    then size_status
    else frame_ok (put_header wire_v2 dict ++ body)

unfoldable pub finish_frame : Memory → ℕ → Enc → Framed
unfolding framed dict_bytes
finish_frame m tail_reserve e =
    if e.depth_exceeded
    then depth_status
    else if e.size_exceeded
    then size_status
    else framed tail_reserve e.wire_v2 (dict_bytes m e) e.body

unfoldable pub phpser_encode_zval_ex : Memory → Zval → ℕ → Framed
unfolding finish_frame encode_value_ex init_cap
phpser_encode_zval_ex m value tail_reserve =
    finish_frame m tail_reserve
      (encode_value_ex m max_depth false value (enc_ctx_init (init_cap m value)))
