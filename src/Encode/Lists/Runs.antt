-- ===== src/Encode/Lists/Runs.antt =====
-- A list of longs, or of doubles: a run under one tag.
use phpser.Base.{ℕ, suc, ◌≤◌, ◌≡◌, refl, sym, arith, Bool, List, [], ◌∷◌, ◌++◌, length, append-nil}
use phpser.Wire.{varint_put}
use phpser.Tag
use phpser.Tag.{Tag, tag_of_byte, dec_is_scalar_tag}
use phpser.Php.{Value, Items}
use phpser.Decode.Ctx.{Engine, Ctx, ok, ◌>>=◌, ◌>>◌, require, read_byte, first_byte, uint32_max}
use phpser.Decode.Array.{decode_value, decode_value_inner, decode_tag, decode_array_tag}
use phpser.Decode.Runs.{
  repeat, long_cell, delta_cells, read_count, decode_packed_longs, decode_packed_mixed,
  decode_packed_strings, dec_decode_packed_delta, decode_value_hot, string_cell,
}
use phpser.Encode.Memory.{Memory}
use phpser.Encode.Ctx.{Enc}
use phpser.Encode.Strings.Sound.{IsSound}
use phpser.Encode.Strings.Written.{Written}
use phpser.Encode.Runs.Decoded.{at}
use phpser.Encode.Lists.Scalars.{room, read_u64-wrote}

pub body-Written :
    (m : Memory) (e : Enc) (body out : List ℕ) (v2 : Bool)
    → IsSound m e
    → body ≡ e.body ++ out
    → Written m e (record e { body = body; wire_v2 = v2 }) out [] 0
unfolding IsSound
body-Written m e body out v2 sound written = record {
  body_written = written;
  dict_grown = sym (append-nil e.dict);
  tables = sound;
  budget = omega arith;
  held_alike = refl;
  depth_alike = refl;
  size_alike = refl;
  refs_alike = refl;
}

read_count-wrote :
    (d : Ctx) (n : ℕ) (rest : List ℕ)
    → n ≤ uint32_max
    → n ≤ length rest
    → read_count (at d (varint_put [] n ++ rest)) ≡ ok (n, at d rest)
unfolding read_count require
read_count-wrote d n rest h k =
    rw (◌>>=◌, read_u64-wrote d n rest (omega arith))
      (rw (◌>>=◌, ◌>>◌, require, room n rest h k) refl)

-- The arrays whose tag is followed by a count and then the run.
module _ (eng : Engine) (levels : ℕ) (d d' : Ctx) (vs : Items) (n : ℕ) (rest : List ℕ)
    (few : n ≤ uint32_max) (enough : n ≤ length rest) where
  pub longs_opened :
      repeat n (long_cell eng) (at d rest) ≡ ok (vs, d')
      → decode_value eng (suc levels) (at d ((Tag.byte Tag.packed_longs ∷ varint_put [] n) ++ rest))
        ≡ ok (Value.packed vs, d')
  unfolding decode_value decode_value_inner read_byte first_byte tag_of_byte decode_tag
      dec_is_scalar_tag decode_array_tag decode_packed_longs
  longs_opened e = rw (◌>>=◌, read_count-wrote d n rest few enough) (rw (◌>>=◌, e) refl)

  pub delta_opened :
      delta_cells eng n 0 (at d rest) ≡ ok (vs, d')
      → decode_value eng (suc levels) (at d ((Tag.byte Tag.packed_delta ∷ varint_put [] n) ++ rest))
        ≡ ok (Value.packed vs, d')
  unfolding decode_value decode_value_inner read_byte first_byte tag_of_byte decode_tag
      dec_is_scalar_tag decode_array_tag dec_decode_packed_delta
  delta_opened e = rw (◌>>=◌, read_count-wrote d n rest few enough) (rw (◌>>=◌, e) refl)

  pub mixed_opened :
      repeat n (decode_value_hot eng (decode_value eng levels)) (at d rest) ≡ ok (vs, d')
      → decode_value eng (suc levels) (at d ((Tag.byte Tag.packed_mixed ∷ varint_put [] n) ++ rest))
        ≡ ok (Value.packed vs, d')
  unfolding decode_value decode_value_inner read_byte first_byte tag_of_byte decode_tag
      dec_is_scalar_tag decode_array_tag decode_packed_mixed
  mixed_opened e = rw (◌>>=◌, read_count-wrote d n rest few enough) (rw (◌>>=◌, e) refl)

  pub strings_opened :
      repeat n string_cell (at d rest) ≡ ok (vs, d')
      → decode_value eng
          (suc levels)
          (at d ((Tag.byte Tag.packed_strings ∷ varint_put [] n) ++ rest))
        ≡ ok (Value.packed vs, d')
  unfolding decode_value decode_value_inner read_byte first_byte tag_of_byte decode_tag
      dec_is_scalar_tag decode_array_tag decode_packed_strings
  strings_opened e = rw (◌>>=◌, read_count-wrote d n rest few enough) (rw (◌>>=◌, e) refl)
