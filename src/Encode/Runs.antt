-- ===== src/Encode/Runs.antt =====
-- Runs of longs and doubles: enc_pick_long_run_tag, detect_packed_run, and the loops of
-- encode_hashtable and enc_emit_table_column that write a run.
-- A long is its 64-bit pattern, so `cur - prev` of two uint64_t is written `sub64 cur prev`.
pub mod Decoded
pub mod Choice
pub mod Chosen
use phpser.Base.{
  ℕ, ◌+◌, ◌-◌, ◌%◌, ◌^◌, Bool, true, false, ◌&&◌, List, [], ◌∷◌, Option, some, none, if◌then◌else◌,
  ltb, leb, ◌==◌, length,
}
use phpser.Tag.{Tag}
use phpser.Wire.{varint_write_i64, le64_put, varint_len_u64, zigzag_encode64}
use phpser.Decode.Runs.{sublinear_max_elems}
use phpser.Encode.Memory.{Zval, long, double}
use phpser.Encode.Ctx.{Enc}

unfoldable pub sub64 : ℕ → ℕ → ℕ
sub64 cur prev = (cur + 2 ^ 64 - prev) % 2 ^ 64

-- varint_len_u64(zigzag_encode64(v))
unfoldable pub long_len : ℕ → ℕ
long_len v = varint_len_u64 (zigzag_encode64 v)

unfoldable pub write_longs : List ℕ → List ℕ → List ℕ
write_longs [] out = out
write_longs (v ∷ vs) out = write_longs vs (varint_write_i64 out v)

unfoldable pub write_deltas : ℕ → List ℕ → List ℕ → List ℕ
unfolding sub64
write_deltas prev [] out = out
write_deltas prev (cur ∷ vs) out = write_deltas cur vs (varint_write_i64 out (sub64 cur prev))

-- The first value is written as it is.
unfoldable pub write_delta_run : List ℕ → List ℕ → List ℕ
unfolding write_deltas
write_delta_run [] out = out
write_delta_run (v ∷ vs) out = write_deltas v vs (varint_write_i64 out v)

unfoldable pub write_doubles : List ℕ → List ℕ → List ℕ
write_doubles [] out = out
write_doubles (v ∷ vs) out = write_doubles vs (le64_put out v)

-- plain_bytes and delta_bytes: uint32_t sums.
unfoldable pub plain_bytes : List ℕ → ℕ → ℕ
unfolding long_len
plain_bytes [] n = n
plain_bytes (cur ∷ vs) n = plain_bytes vs ((n + long_len cur) % 2 ^ 32)

unfoldable pub delta_bytes : ℕ → List ℕ → ℕ → ℕ
unfolding long_len sub64
delta_bytes prev [] n = n
delta_bytes prev (cur ∷ vs) n = delta_bytes cur vs ((n + long_len (sub64 cur prev)) % 2 ^ 32)

unfoldable pub is_affine : ℕ → ℕ → List ℕ → Bool
unfolding sub64
is_affine step prev [] = true
is_affine step prev (cur ∷ vs) =
    let rest = is_affine step cur vs in if sub64 cur prev == step then rest else false

unfoldable pub delta_or_longs : ℕ → List ℕ → Tag
unfolding delta_bytes plain_bytes
delta_or_longs v vs =
    if ltb (delta_bytes v vs (long_len v)) (plain_bytes vs (long_len v))
    then Tag.packed_delta
    else Tag.packed_longs

-- `n <= MAX && e->sublinear_elems <= MAX - n`
unfoldable pub sublinear_fits : ℕ → Enc → Bool
sublinear_fits n e = leb n sublinear_max_elems && leb e.sublinear_elems (sublinear_max_elems - n)

-- The tag, out_step, and the state. A run of fewer than four is plain.
unfoldable pub enc_pick_long_run_tag : List ℕ → Enc → Tag × ℕ × Enc
unfolding is_affine sublinear_fits delta_or_longs
enc_pick_long_run_tag (v ∷ w ∷ x ∷ y ∷ vs) e =
    if is_affine (sub64 w v) v (w ∷ x ∷ y ∷ vs) && sublinear_fits (length (v ∷ w ∷ x ∷ y ∷ vs)) e
    then (
      Tag.packed_affine,
      sub64 w v,
      record e { sublinear_elems = e.sublinear_elems + length (v ∷ w ∷ x ∷ y ∷ vs) },
    )
    else (delta_or_longs v (w ∷ x ∷ y ∷ vs), 0, e)
enc_pick_long_run_tag vs e = (Tag.packed_longs, 0, e)

-- The payloads, when every value is of the type.
unfoldable pub cons_payload : ℕ → Option (List ℕ) → Option (List ℕ)
cons_payload v none = none
cons_payload v (some vs) = some (v ∷ vs)

unfoldable pub all_longs : List Zval → Option (List ℕ)
unfolding cons_payload
all_longs [] = some []
all_longs (long v ∷ zs) = cons_payload v (all_longs zs)
all_longs (_ ∷ zs) = none

unfoldable pub all_doubles : List Zval → Option (List ℕ)
unfolding cons_payload
all_doubles [] = some []
all_doubles (double v ∷ zs) = cons_payload v (all_doubles zs)
all_doubles (_ ∷ zs) = none

-- What detect_packed_run finds: the tag, with the payloads of the run and the step.
pub data PackedRun : Type 0 where
  longs : Tag → ℕ → List ℕ → PackedRun
  doubles : List ℕ → PackedRun
  mixed : PackedRun

unfoldable pub picked : List ℕ → Tag × ℕ × Enc → PackedRun × Enc
picked vs (tag, step, e) = (longs tag step vs, e)

unfoldable pub long_run : Option (List ℕ) → Enc → PackedRun × Enc
unfolding picked enc_pick_long_run_tag
long_run none e = (mixed, e)
long_run (some vs) e = picked vs (enc_pick_long_run_tag vs e)

unfoldable pub double_run : Option (List ℕ) → PackedRun
double_run none = mixed
double_run (some vs) = doubles vs

unfoldable pub detect_packed_run : List Zval → Enc → PackedRun × Enc
unfolding long_run double_run all_longs all_doubles
detect_packed_run (long v ∷ zs) e = long_run (all_longs (long v ∷ zs)) e
detect_packed_run (double v ∷ zs) e = (double_run (all_doubles (double v ∷ zs)), e)
detect_packed_run _ e = (mixed, e)
