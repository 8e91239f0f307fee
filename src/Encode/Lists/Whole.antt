-- ===== src/Encode/Lists/Whole.antt =====
-- A nested list: encode_value_ex writes what decode_value reads as the same value.
use phpser.Base.{
  ℕ, zero, suc, ◌≤◌, ◌≡◌, refl, ap, arith, Bool, true, false, ◌&&◌, List, [], ◌∷◌, ◌++◌, length,
  ltb, ◌==◌, leb, ◌/◌,
}
use phpser.Wire.{varint_put}
use phpser.Tag
use phpser.Tag.{Tag, tag_of_byte, dec_is_scalar_tag}
use phpser.Php.{Value}
use phpser.Decode.Ctx.{Engine, Ctx, ok, ◌>>=◌, ◌>>◌, require, read_byte, first_byte, uint32_max}
use phpser.Decode.Array.{decode_value, decode_value_inner, decode_tag, decode_array_tag}
use phpser.Decode.Assoc.{decode_assoc, read_pair_count}
use phpser.Encode.Memory.{
  Memory, Zval, undef, null, long, double, str, arr, ref, HashTable, packed, hashed, Cells, nil,
  cell, cell_list, num_elements, live_cells,
}
use phpser.Encode.Ctx.{Enc}
use phpser.Encode.Runs.Decoded.{at}
use phpser.Encode.Table.{count, gc_refcount, is_shared, hold, release}
use phpser.Encode.Strings.Sound.{IsSound}
use phpser.Encode.Strings.Written.{emit_tag-Written}
use phpser.Encode.Array.{
  encode_hashtable, encode_packed, encode_dense, walk_sparse, encode_sparse, enc_pin_walk,
  packed_cells,
}
use phpser.Encode.Value.{
  encode_array, encode_held, is_claimable, encode_value_inner, encode_value_ex,
}
use phpser.Encode.Lists.{IsListed, AreListed, value_of, values_of_cells, Covers, after, Coded}
use phpser.Encode.Lists.Scalars.{read_u64-wrote}
use phpser.Encode.Lists.Coding.{
  Ready, free_Coded, release-Coded, unhold_Coded, null_Coded, true_Coded, false_Coded, long_Coded,
  double_Coded, str_Coded,
}
use phpser.Encode.Strings.{too_long}
use phpser.Encode.Lists.Arrays.{live_cells-length, listed_long, listed_double}
use phpser.Encode.Lists.Dense.{dense_Coded, no_hashed}

pair_room : (n : ℕ) → (leb 0 uint32_max && leb 0 (n / 2)) ≡ true
pair_room n = ground arith

empty-wrote :
    (eng : Engine) (levels : ℕ) (d : Ctx) (tail : List ℕ)
    → decode_value eng (suc levels) (at d ((Tag.byte Tag.assoc ∷ varint_put [] 0) ++ tail))
      ≡ ok (Value.empty_array, at d tail)
unfolding decode_value decode_value_inner read_byte first_byte tag_of_byte decode_tag
    dec_is_scalar_tag decode_array_tag decode_assoc read_pair_count require
empty-wrote eng levels d tail =
    rw (◌>>=◌, read_u64-wrote d 0 tail (omega arith))
      (rw (◌>>=◌, ◌>>◌, require, pair_room (length tail)) refl)

unshared :
    (m : Memory) (e : Enc) (p : ℕ) (holds : List ℕ)
    → m.is_immutable p ≡ false
    → m.refcount p ≤ 1
    → count holds p ≡ 0
    → e.holds ≡ holds
    → is_shared m e p ≡ false
unfolding is_shared gc_refcount
unshared m e p holds own single free same = rw (own, same, free) (ground arith)

hold-IsSound :
    (m : Memory) (e : Enc) (holds : List ℕ) → IsSound m e → IsSound m (record e { holds = holds })
unfolding IsSound
hold-IsSound m e holds sound = sound

none_listed : (m : Memory) (holds : List ℕ) (v : Zval) → IsListed m zero holds v → ⊥
unfolding IsListed
none_listed m holds v h = h

listed_str :
    (m : Memory) (levels : ℕ) (holds : List ℕ) (zs : ℕ)
    → IsListed m (suc levels) holds (str zs)
    → too_long m zs ≡ false
unfolding IsListed
listed_str m levels holds zs h = h

no_undef : (m : Memory) (levels : ℕ) (holds : List ℕ) → IsListed m (suc levels) holds undef → ⊥
unfolding IsListed
no_undef m levels holds h = h

no_ref :
    (m : Memory) (levels : ℕ) (holds : List ℕ) (r : ℕ) → IsListed m (suc levels) holds (ref r) → ⊥
unfolding IsListed
no_ref m levels holds r h = h

module _ (m : Memory) (eng : Engine) (wide : eng.zend_long_32 ≡ false) (levels : ℕ) (holds : List ℕ)
    (encode : Bool → Zval → Enc → Enc) (nested : Bool) (p : ℕ)
    (each : (v : Zval) (e : Enc)
      → IsListed m levels (p ∷ holds) v
      → Ready m (p ∷ holds) e
      → Coded m (decode_value eng levels) (value_of m v) 1 e (encode false v e)) where
  dense_case :
      (t : HashTable) (zp : List Zval) (n : ℕ) (e : Enc)
      → (length zp == n) && ltb 0 (length zp) ≡ true
      → encode_packed m encode nested false p t zp n e ≡ encode_dense m encode nested false p t zp e
  unfolding encode_packed
  dense_case t zp n e full = rw full refl

  full :
      (v : Zval) (cs : Cells)
      → AreListed m levels (p ∷ holds) (cell v cs)
      → (length (cell_list (cell v cs)) == live_cells (cell_list (cell v cs)))
          && ltb 0 (length (cell_list (cell v cs)))
        ≡ true
  unfolding cell_list
  full v cs listed = rw (live_cells-length m levels (p ∷ holds) (cell v cs) listed) (ground arith)

  cons_dense :
      (v : Zval) (cs : Cells) (e : Enc)
      → AreListed m levels (p ∷ holds) (cell v cs)
      → length (cell_list (cell v cs)) ≤ uint32_max
      → Ready m (p ∷ holds) e
      → Coded m
          (decode_value eng (suc levels))
          (Value.packed (values_of_cells m (cell v cs)))
          1
          e
          (encode_dense m encode nested false p (packed (cell v cs)) (cell_list (cell v cs)) e)
  unfolding cell_list
  cons_dense v cs e listed few ready =
      dense_Coded m eng wide levels (p ∷ holds) encode nested p each v cs e listed few ready

  cons_Coded :
      (v : Zval) (cs : Cells) (e : Enc)
      → AreListed m levels (p ∷ holds) (cell v cs)
      → length (cell_list (cell v cs)) ≤ uint32_max
      → Ready m (p ∷ holds) e
      → Coded m (decode_value eng (suc levels)) (Value.packed (values_of_cells m (cell v cs))) 1 e (
          encode_packed m encode nested false p
            (packed (cell v cs))
            (cell_list (cell v cs))
            (live_cells (cell_list (cell v cs)))
            e)
  cons_Coded v cs e listed few ready =
      rw (dense_case (packed (cell v cs)) _ _ e (full v cs listed))
        (cons_dense v cs e listed few ready)

  array_case :
      (t : HashTable) (e : Enc)
      → m.is_immutable p ≡ false
      → is_shared m e p ≡ false
      → encode_array m encode nested false p t e
        ≡ release e (encode_hashtable m encode nested false p t (record e { holds = p ∷ e.holds }))
  unfolding encode_array is_claimable encode_held hold
  array_case t e own alone = rw alone (rw own refl)

  packed_Coded :
      (cs : Cells) (e : Enc)
      → AreListed m levels (p ∷ holds) cs
      → length (cell_list cs) ≤ uint32_max
      → Ready m (p ∷ holds) e
      → Coded m (decode_value eng (suc levels)) (value_of m (arr p (packed cs))) 1 e (
          encode_packed m encode nested false p
            (packed cs)
            (cell_list cs)
            (live_cells (cell_list cs))
            e)
  unfolding encode_packed walk_sparse encode_sparse packed_cells enc_pin_walk live_cells cell_list
      value_of values_of_cells
  packed_Coded nil e listed few ready =
      let w = emit_tag-Written m (Tag.byte Tag.assoc) 0 e ready.sound in
      release-Coded m _ _ 1 e e _ refl (
        free_Coded m _ _ 1 e _ _ [] w ready.in_budget (omega arith)
          (λ d tail covers. empty-wrote eng levels d tail))
  packed_Coded (cell v cs) e listed few ready = cons_Coded v cs e listed few ready

  array_Coded :
      (cs : Cells) (e : Enc)
      → IsListed m (suc levels) holds (arr p (packed cs))
      → Ready m holds e
      → Coded m
          (decode_value eng (suc levels))
          (value_of m (arr p (packed cs)))
          1
          e
          (encode_array m encode nested false p (packed cs) e)
  unfolding IsListed encode_hashtable num_elements
  array_Coded cs e (own, single, free, few, listed) ready =
      let alone = unshared m e p holds own single free ready.holding in
      rw (array_case (packed cs) e own alone) (
        unhold_Coded m _ _ 1 (p ∷ e.holds) e _ (
          packed_Coded cs (record e { holds = p ∷ e.holds }) listed few
            (record {
              sound = hold-IsSound m e (p ∷ e.holds) ready.sound;
              in_budget = ready.in_budget;
              holding = ap (λ h. p ∷ h) ready.holding;
            })))

-- Whatever the state, a nested list is written so that it is read back.
pub encode_value_ex-Coded :
    (m : Memory) (eng : Engine) (levels : ℕ) (holds : List ℕ) (v : Zval) (e : Enc)
    → eng.zend_long_32 ≡ false
    → IsListed m levels holds v
    → Ready m holds e
    → Coded m (decode_value eng levels) (value_of m v) 1 e (encode_value_ex m levels false v e)
unfolding encode_value_ex encode_value_inner value_of
encode_value_ex-Coded m eng zero holds v e wide listed ready = absurd (none_listed m holds v listed)
encode_value_ex-Coded m eng (suc levels) holds null e wide listed ready =
    null_Coded m eng wide levels holds e ready
encode_value_ex-Coded m eng (suc levels) holds Zval.true e wide listed ready =
    true_Coded m eng wide levels holds e ready
encode_value_ex-Coded m eng (suc levels) holds Zval.false e wide listed ready =
    false_Coded m eng wide levels holds e ready
encode_value_ex-Coded m eng (suc levels) holds (long v) e wide listed ready =
    long_Coded m eng wide levels holds e v ready (listed_long m (suc levels) holds v listed)
encode_value_ex-Coded m eng (suc levels) holds (double v) e wide listed ready =
    double_Coded m eng wide levels holds e v ready (listed_double m (suc levels) holds v listed)
encode_value_ex-Coded m eng (suc levels) holds (str zs) e wide listed ready =
    str_Coded m eng wide levels holds e zs ready (listed_str m levels holds zs listed)
encode_value_ex-Coded m eng (suc levels) holds (arr p (packed cs)) e wide listed ready =
    array_Coded m eng wide levels holds (encode_value_ex m levels) _ p
      (λ w f. encode_value_ex-Coded m eng levels (p ∷ holds) w f wide) cs e listed ready
encode_value_ex-Coded m eng (suc levels) holds (arr p (hashed es)) e wide listed ready =
    absurd (no_hashed m (suc levels) holds p es listed)
encode_value_ex-Coded m eng (suc levels) holds undef e wide listed ready =
    absurd (no_undef m levels holds listed)
encode_value_ex-Coded m eng (suc levels) holds (ref r) e wide listed ready =
    absurd (no_ref m levels holds r listed)

-- What encode_value_ex appends for a nested list is what decode_value reads as the same value, whatever
-- comes after it. The encoder's tables are sound, its budget is kept and it holds the arrays around
-- the list; the decoder, of a build with 64-bit integers, has a dictionary that begins with the
-- encoder's and has used as much of its budget as the encoder had.
pub encode_value_ex-decode_value :
    (m : Memory) (eng : Engine) (levels : ℕ) (holds : List ℕ) (v : Zval) (e : Enc) (d : Ctx)
    (tail : List ℕ)
    → eng.zend_long_32 ≡ false
    → IsListed m levels holds v
    → Ready m holds e
    → Covers m (encode_value_ex m levels false v e).dict d.dict
    → d.sublinear_elems ≡ e.sublinear_elems
    → (out : List ℕ) × (spent : ℕ) × ((encode_value_ex m levels false v e).body ≡ e.body ++ out)
      × (decode_value eng levels (at d (out ++ tail)) ≡ ok (value_of m v, after d tail spent))
encode_value_ex-decode_value m eng levels holds v e d tail wide listed ready covers same =
    let c = encode_value_ex-Coded m eng levels holds v e wide listed ready in
    (c.out, c.spent, c.written.body_written, c.decodes d tail covers same)
