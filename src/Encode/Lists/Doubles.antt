-- ===== src/Encode/Lists/Doubles.antt =====
-- A list of doubles: eight bytes each.
use phpser.Base.{
  ℕ, suc, ◌+◌, ◌*◌, ◌/◌, ◌≤◌, ◌≡◌, refl, sym, ◌∙◌, ap, arith, true, false, ◌&&◌, List, [], ◌∷◌,
  ◌++◌, length, append_assoc, append-nil, length-append, leb, All,
}
use phpser.Wire.{IsU64, varint_put, le64_put}
use phpser.Wire.Le64.{low_bytes, le64_put-low_bytes}
use phpser.Tag
use phpser.Tag.{tag_of_byte, dec_is_scalar_tag}
use phpser.Php.{Value, Items, nil, item}
use phpser.Decode.Ctx.{Engine, Ctx, ok, ◌>>=◌, ◌>>◌, require, read_byte, first_byte, uint32_max}
use phpser.Decode.Array.{decode_value, decode_value_inner, decode_tag, decode_array_tag}
use phpser.Decode.Runs.{repeat, double_cell, decode_packed_doubles}
use phpser.Encode.Memory.{Memory}
use phpser.Encode.Ctx.{Enc, emit_tag}
use phpser.Encode.Strings.Written.{emit_tag-Written}
use phpser.Encode.Runs.{write_doubles}
use phpser.Encode.Runs.Decoded.{at}
use phpser.Encode.Lists.{Coded}
use phpser.Encode.Lists.Scalars.{read_u64-wrote, read_double-wrote}
use phpser.Encode.Lists.Coding.{Ready, free_Coded, head_Coded}
use phpser.Encode.Lists.Runs.{body-Written}

unfoldable pub double_items : List ℕ → Items
double_items [] = nil
double_items (v ∷ vs) = item (Value.double v) (double_items vs)

write_doubles-after : (vs out : List ℕ) → write_doubles vs out ≡ out ++ write_doubles vs []
unfolding write_doubles
write_doubles-after [] out = sym (append-nil out)
write_doubles-after (v ∷ vs) out =
    write_doubles-after vs (le64_put out v)
    ∙ ap (λ b. b ++ write_doubles vs []) (le64_put-low_bytes v out)
    ∙ append_assoc out (low_bytes 8 v) (write_doubles vs [])
    ∙ ap (λ b. out ++ b)
        (sym (
          write_doubles-after vs (le64_put [] v)
          ∙ ap (λ b. b ++ write_doubles vs []) (le64_put-low_bytes v [])))

write_doubles-cons :
    (v : ℕ) (vs tail : List ℕ)
    → write_doubles (v ∷ vs) [] ++ tail ≡ low_bytes 8 v ++ (write_doubles vs [] ++ tail)
unfolding write_doubles
write_doubles-cons v vs tail =
    ap (λ b. b ++ tail)
      (write_doubles-after vs (le64_put [] v)
        ∙ ap (λ b. b ++ write_doubles vs []) (le64_put-low_bytes v []))
    ∙ append_assoc (low_bytes 8 v) (write_doubles vs []) tail

length-write_doubles :
    (vs out : List ℕ) → length (write_doubles vs out) ≡ length out + 8 * length vs
unfolding write_doubles low_bytes
length-write_doubles [] out = omega arith
length-write_doubles (v ∷ vs) out = omega (
  arith,
  length-write_doubles vs (le64_put out v),
  ap length (le64_put-low_bytes v out),
  length-append out (low_bytes 8 v),
)

room_8 :
    (n : ℕ) (rest : List ℕ)
    → n ≤ uint32_max
    → 8 * n ≤ length rest
    → (leb n uint32_max && leb n (length rest / 8)) ≡ true
room_8 n rest h k = ground arith

no_doubles :
    (d : Ctx) (tail : List ℕ)
    → repeat 0 double_cell (at d (write_doubles [] [] ++ tail)) ≡ ok (nil, at d tail)
unfolding repeat write_doubles
no_doubles d tail = refl

module _ (eng : Engine) (wide : eng.zend_long_32 ≡ false) (levels : ℕ) where
  double_cell-wrote :
      (d : Ctx) (v : ℕ) (tail : List ℕ)
      → IsU64 v
      → double_cell (at d (low_bytes 8 v ++ tail)) ≡ ok (Value.double v, at d tail)
  unfolding double_cell
  double_cell-wrote d v tail h = rw (◌>>=◌, read_double-wrote eng wide levels d tail v h) refl

  doubles-wrote :
      (d : Ctx) (vs tail : List ℕ)
      → All IsU64 vs
      → repeat (length vs) double_cell (at d (write_doubles vs [] ++ tail))
        ≡ ok (double_items vs, at d tail)
  unfolding repeat double_items
  doubles-wrote d [] tail h = no_doubles d tail
  doubles-wrote d (v ∷ vs) tail (hv, h) = rw (write_doubles-cons v vs tail) (
      rw (◌>>=◌, double_cell-wrote d v (write_doubles vs [] ++ tail) hv)
        (rw (◌>>=◌, doubles-wrote d vs tail h) refl))

  doubles_opened :
      (d d' : Ctx) (vs : Items) (n : ℕ) (rest : List ℕ)
      → n ≤ uint32_max
      → 8 * n ≤ length rest
      → repeat n double_cell (at d rest) ≡ ok (vs, d')
      → decode_value eng
          (suc levels)
          (at d ((Tag.byte Tag.packed_doubles ∷ varint_put [] n) ++ rest))
        ≡ ok (Value.packed vs, d')
  unfolding decode_value decode_value_inner read_byte first_byte tag_of_byte decode_tag
      dec_is_scalar_tag decode_array_tag decode_packed_doubles require
  doubles_opened d d' vs n rest few enough e =
      rw (◌>>=◌, read_u64-wrote d n rest (omega arith))
        (rw (◌>>=◌, ◌>>◌, require, room_8 n rest few enough) (rw (◌>>=◌, e) refl))

  pub doubles_Coded :
      (m : Memory) (holds vs : List ℕ) (e : Enc)
      → All IsU64 vs
      → length vs ≤ uint32_max
      → Ready m holds e
      → Coded m (decode_value eng (suc levels)) (Value.packed (double_items vs)) 1 e (record e {
        body =
            write_doubles vs
              (varint_put (e.body ++ (Tag.byte Tag.packed_doubles ∷ [])) (length vs));
      })
  doubles_Coded m holds vs e all few ready =
      let w = emit_tag-Written m (Tag.byte Tag.packed_doubles) (length vs) e ready.sound in
      let f = emit_tag (Tag.byte Tag.packed_doubles) (length vs) e in
      head_Coded m (repeat (length vs) double_cell) _ (double_items vs) _ _ (length vs)
        (8 * length vs) e f _ [] w
        (free_Coded m _ _ (8 * length vs) f _ (write_doubles vs []) []
          (body-Written m f _ _ f.wire_v2 w.tables (write_doubles-after vs f.body)) ready.in_budget
          (omega (arith, length-write_doubles vs []))
          (λ d tail covers. doubles-wrote d vs tail all))
        (λ d d' rest enough. doubles_opened d d' (double_items vs) (length vs) rest few enough)
