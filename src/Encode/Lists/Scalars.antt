-- ===== src/Encode/Lists/Scalars.antt =====
-- Scalars of a nested list: what is written is read back.
use phpser.Base.{
  ℕ, zero, suc, ◌<◌, ◌≤◌, ◌≡◌, refl, sym, ◌∙◌, ap, arith, true, false, inl, inr, List, [], ◌∷◌,
  ◌++◌, Option, some, none, length, get_elem?, append_assoc, leb, ◌&&◌, length-append,
  take-append_length, drop-append_length,
}
use phpser.Wire.{IsU64, varint_put, zigzag_encode64, varint_write_i64, varint_write_u64}
use phpser.Wire.Varint.{varint_read_u64-put}
use phpser.Wire.Le64.{low_bytes, le64_read-low_bytes}
use phpser.Tag
use phpser.Tag.{Tag, tag_of_byte, dec_is_scalar_tag}
use phpser.Php.{Value}
use phpser.Decode.Ctx.{
  Engine, Ctx, Zstr, ok, ◌>>=◌, ◌>>◌, require, read_byte, first_byte, read_u64, advance,
  dec_get_zstr, read_counted_bytes, take_bytes, uint32_max,
}
use phpser.Decode.Scalar.{decode_scalar_tag, read_double}
use phpser.Decode.Array.{decode_value, decode_value_inner, decode_tag}
use phpser.Decode.Runs.{decode_value_hot, hot_rest, hot_tag}
use phpser.Encode.Memory.{Memory}
use phpser.Encode.Strings.{too_long}
use phpser.Encode.Strings.Sound.{Names}
use phpser.Encode.Strings.Emitted.{StringBytes}
use phpser.Encode.Runs.Decoded.{at, read_long-wrote}
use phpser.Encode.Lists.{Covers, after}

get_elem?_below : (zs : List Zstr) (i : ℕ) (z : Zstr) → get_elem? zs i ≡ some z → i < length zs
get_elem?_below [] i z e = cc
get_elem?_below (x ∷ zs) zero z e = omega arith
get_elem?_below (x ∷ zs) (suc i) z e = omega (arith, get_elem?_below zs i z e)

pub read_u64-wrote :
    (d : Ctx) (v : ℕ) (tail : List ℕ)
    → IsU64 v
    → read_u64 (at d (varint_put [] v ++ tail)) ≡ ok (v, at d tail)
unfolding read_u64 advance
read_u64-wrote d v tail h = rw (varint_read_u64-put v tail h) refl

-- The string at a dictionary index that names it.
pub named_zstr :
    (m : Memory) (dict : List ℕ) (d : Ctx) (zs i : ℕ)
    → Covers m dict d.dict
    → Names m dict zs i
    → (z : Zstr) × IsU64 i × (dec_get_zstr i d ≡ ok (z, d)) × (z.bytes ≡ m.bytes_at zs)
unfolding Names dec_get_zstr
named_zstr m dict d zs i covers (q, there, same) =
    let (z, found, bytes) = covers.entries i q there in
    (
      z,
      omega (arith, get_elem?_below d.dict i z found, covers.small),
      rw (dec_get_zstr, found) refl,
      bytes ∙ same,
    )

-- The hot path reads as decode_value does, one level up from the bottom.
hot_tag-decode_value :
    (eng : Engine) (levels : ℕ) (d d' : Ctx) (tag : Option Tag)
    → (decode_value eng (suc levels) d ≡ decode_tag eng (decode_value eng levels) tag d')
    → hot_tag eng (decode_value eng (suc levels)) d d' tag ≡ decode_value eng (suc levels) d
unfolding hot_tag decode_tag dec_is_scalar_tag
hot_tag-decode_value eng levels d d' none e = refl
hot_tag-decode_value eng levels d d' (some Tag.null) e = sym e
hot_tag-decode_value eng levels d d' (some Tag.false) e = sym e
hot_tag-decode_value eng levels d d' (some Tag.true) e = sym e
hot_tag-decode_value eng levels d d' (some Tag.long) e = sym e
hot_tag-decode_value eng levels d d' (some Tag.double) e = sym e
hot_tag-decode_value eng levels d d' (some Tag.str_dict) e = sym e
hot_tag-decode_value eng levels d d' (some Tag.str_inline) e = sym e
hot_tag-decode_value eng levels d d' (some _) e = refl

pub decode_value_hot_lem :
    (eng : Engine) (levels : ℕ) (d : Ctx) (bytes : List ℕ)
    → decode_value_hot eng (decode_value eng (suc levels)) (at d bytes)
      ≡ decode_value eng (suc levels) (at d bytes)
unfolding decode_value_hot hot_rest decode_value decode_value_inner read_byte first_byte
decode_value_hot_lem eng levels d [] = refl
decode_value_hot_lem eng levels d (b ∷ rest) =
    hot_tag-decode_value eng levels (at d (b ∷ rest)) (at d rest) (tag_of_byte b) refl

pub after_zero : (d : Ctx) (tail : List ℕ) → after d tail 0 ≡ at d tail
after_zero d tail = ap (λ (n : ℕ). record d { rest = tail; sublinear_elems = n }) (omega arith)

pub room :
    (n : ℕ) (rest : List ℕ)
    → n ≤ uint32_max
    → n ≤ length rest
    → (leb n uint32_max && leb n (length rest)) ≡ true
room n rest h k = ground arith

-- Bytes that are counted by a varint before them.
pub counted-wrote :
    (d : Ctx) (bytes tail : List ℕ)
    → length bytes ≤ uint32_max
    → read_counted_bytes (at d ((varint_put [] (length bytes) ++ bytes) ++ tail))
      ≡ ok (bytes, at d tail)
unfolding read_counted_bytes take_bytes require
counted-wrote d bytes tail h = rw (append_assoc (varint_put [] (length bytes)) bytes tail) (
    rw (◌>>=◌, read_u64-wrote d (length bytes) (bytes ++ tail) (omega arith))
      (rw
        (
          ◌>>=◌,
          ◌>>◌,
          require,
          room (length bytes) (bytes ++ tail) h (omega (arith, length-append bytes tail)),
        )
        (rw (take-append_length bytes tail, drop-append_length bytes tail) refl)))

within : (m : Memory) (zs : ℕ) → too_long m zs ≡ false → length (m.bytes_at zs) ≤ uint32_max
unfolding too_long
within m zs short = ground arith

at_least_8 : (n : ℕ) → leb 8 (suc (suc (suc (suc (suc (suc (suc (suc n)))))))) ≡ true
at_least_8 n = ground arith

-- Reading a value whose tag is a scalar's.
module _ (eng : Engine) (wide : eng.zend_long_32 ≡ false) (levels : ℕ) (d : Ctx)
    (tail : List ℕ) where
  inline-wrote :
      (bytes : List ℕ)
      → length bytes ≤ uint32_max
      → decode_value eng
          (suc levels)
          (at d (((Tag.byte Tag.str_inline ∷ varint_put [] (length bytes)) ++ bytes) ++ tail))
        ≡ ok (Value.str bytes, at d tail)
  unfolding decode_value decode_value_inner read_byte first_byte tag_of_byte decode_tag
      dec_is_scalar_tag decode_scalar_tag
  inline-wrote bytes h = rw (◌>>=◌, counted-wrote d bytes tail h) refl

  index-wrote :
      (m : Memory) (dict : List ℕ) (zs i : ℕ)
      → Covers m dict d.dict
      → Names m dict zs i
      → decode_value eng (suc levels) (at d ((Tag.byte Tag.str_dict ∷ varint_put [] i) ++ tail))
        ≡ ok (Value.str (m.bytes_at zs), at d tail)
  unfolding decode_value decode_value_inner read_byte first_byte tag_of_byte decode_tag
      dec_is_scalar_tag decode_scalar_tag
  index-wrote m dict zs i covers named =
      let (z, small, got, same) = named_zstr m dict (at d tail) zs i covers named in
      rw (◌>>=◌, read_u64-wrote d i tail small)
        (rw (◌>>=◌, got) (ap (λ b. ok (Value.str b, at d tail)) same))

  pub string-wrote :
      (m : Memory) (dict : List ℕ) (zs : ℕ) (out : List ℕ)
      → Covers m dict d.dict
      → too_long m zs ≡ false
      → StringBytes m dict (Tag.byte Tag.str_dict) (Tag.byte Tag.str_inline) zs out
      → decode_value eng (suc levels) (at d (out ++ tail))
        ≡ ok (Value.str (m.bytes_at zs), at d tail)
  unfolding StringBytes
  string-wrote m dict zs out covers short (inl (i, named, e)) =
      rw e (index-wrote m dict zs i covers named)
  string-wrote m dict zs out covers short (inr e) =
      rw e (inline-wrote (m.bytes_at zs) (within m zs short))

  pub long-wrote :
      (v : ℕ)
      → IsU64 v
      → decode_value eng
          (suc levels)
          (at d ((Tag.byte Tag.long ∷ varint_put [] (zigzag_encode64 v)) ++ tail))
        ≡ ok (Value.long v, at d tail)
  unfolding decode_value decode_value_inner read_byte first_byte tag_of_byte decode_tag
      dec_is_scalar_tag decode_scalar_tag varint_write_i64 varint_write_u64
  long-wrote v h = rw (◌>>=◌, read_long-wrote eng wide d v tail h) refl

  pub read_double-wrote :
      (v : ℕ) → IsU64 v → read_double (at d (low_bytes 8 v ++ tail)) ≡ ok (v, at d tail)
  unfolding read_double low_bytes take_bytes require
  read_double-wrote v h =
      rw (◌>>=◌, ◌>>◌, require, at_least_8 (length tail)) (rw (le64_read-low_bytes v [] h) refl)

  pub double-wrote :
      (v : ℕ)
      → IsU64 v
      → decode_value eng (suc levels) (at d ((Tag.byte Tag.double ∷ low_bytes 8 v) ++ tail))
        ≡ ok (Value.double v, at d tail)
  unfolding decode_value decode_value_inner read_byte first_byte tag_of_byte decode_tag
      dec_is_scalar_tag decode_scalar_tag
  double-wrote v h = rw (◌>>=◌, read_double-wrote v h) refl
