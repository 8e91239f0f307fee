-- ===== src/Encode/Lists/Dense.antt =====
-- A packed array without holes: the run of strings, of longs, of doubles, or of any values.
use phpser.Base.{
  ℕ, zero, suc, ◌≤◌, ◌≡◌, refl, ◌∙◌, ap, arith, Bool, false, inl, inr, List, [], ◌∷◌, ◌++◌, Option,
  some, none, length, append_assoc, append-nil, leb, length-append, Bool-cases, ◌/◌, ◌%◌, bit_or,
  bit_and, Option-cases, set,
}
use mathlib.Core.Path.{subst}
use phpser.Wire.{varint_put, put_loop}
use phpser.Tag
use phpser.Tag.{Tag, tag_of_byte, dec_is_scalar_tag}
use phpser.Php.{Value}
use phpser.Decode.Ctx.{Engine, uint32_max}
use phpser.Decode.Array.{decode_value}
use phpser.Decode.Runs.{repeat, decode_value_hot, string_cell}
use phpser.Encode.Memory.{
  Memory, Zval, undef, null, long, double, str, arr, ref, packed, hashed, Cells, nil, cell, Entries,
  cell_list,
}
use phpser.Encode.Ctx.{Enc, emit_tag}
use phpser.Encode.Runs.{detect_packed_run, long_run, double_run, all_longs, all_doubles, picked}
use phpser.Encode.Schema.{
  enc_match_rowset_schema, interned_keys, rowset_keys, enc_write_key_idx_run,
}
use phpser.Encode.Table.{enc_try_table, with_schema}
use phpser.Encode.Strings.Sound.{IsSound}
use phpser.Encode.Strings.Written.{varint_put-after, Written, Written-trans, emit_tag-Written}
use phpser.Encode.Array.{
  encode_dense, encode_run, encode_mixed, encode_strings, walk_mixed, enc_pin_walk, packed_cells,
}
use phpser.Encode.Lists.{IsListed, AreListed, value_of, values_of_cells, Coded}
use phpser.Encode.Lists.Scalars.{decode_value_hot_lem}
use phpser.Encode.Lists.Coding.{Ready, free_Coded, head_Coded, cells_Coded, release-Coded}
use phpser.Encode.Lists.Runs.{mixed_opened, strings_opened, body-Written}
use phpser.Encode.Lists.Strings.{
  AllNamed, StringRun, string_run-StringRun, strings-wrote, key_run-after,
}
use phpser.Encode.Lists.Longs.{longs_Coded}
use phpser.Encode.Lists.Doubles.{doubles_Coded}
use phpser.Encode.Lists.Arrays.{take_all, set-append, all_longs-values, all_doubles-values}

put_loop_some : (rounds v : ℕ) (out : List ℕ) → 1 ≤ length (put_loop rounds out v)
unfolding put_loop
put_loop_some zero v out = omega (arith, length-append out (v % 256 ∷ []))
put_loop_some (suc r) v out = elim (Bool-cases (leb 0x80 v)) [
  | inl more ↦ rw more (put_loop_some r (v / 128) (out ++ (bit_or (bit_and v 0x7f) 0x80 ∷ [])))
  | inr last ↦ rw last (omega (arith, length-append out (v % 256 ∷ [])))
]

varint_put_some : (v : ℕ) → 1 ≤ length (varint_put [] v)
unfolding varint_put
varint_put_some v = put_loop_some v v []

key_run_bytes :
    (m : Memory) (dict : List ℕ) (cs : Cells) (is : List ℕ)
    → AllNamed m dict cs is
    → length (cell_list cs) ≤ length (enc_write_key_idx_run is [])
unfolding AllNamed cell_list enc_write_key_idx_run
key_run_bytes m dict nil is named = omega arith
key_run_bytes m dict (cell v cs) is (zs, i, js, e, e', first, rest) = rw e' (
    omega (
      arith,
      key_run_bytes m dict cs js rest,
      varint_put_some i,
      ap length (key_run-after js (varint_put [] i)),
      length-append (varint_put [] i) (enc_write_key_idx_run js []),
    ))

pub no_hashed :
    (m : Memory) (levels : ℕ) (holds : List ℕ) (q : ℕ) (es : Entries)
    → IsListed m levels holds (arr q (hashed es))
    → ⊥
unfolding IsListed
no_hashed m zero holds q es h = h
no_hashed m (suc levels) holds q es h = h

hot_Coded :
    (m : Memory) (eng : Engine) (levels : ℕ) (holds : List ℕ) (v : Zval) (e e' : Enc)
    → IsListed m levels holds v
    → Coded m (decode_value eng levels) (value_of m v) 1 e e'
    → Coded m (decode_value_hot eng (decode_value eng levels)) (value_of m v) 1 e e'
unfolding IsListed
hot_Coded m eng zero holds v e e' listed c = absurd listed
hot_Coded m eng (suc levels) holds v e e' listed c = record {
  out = c.out;
  more = c.more;
  spent = c.spent;
  written = c.written;
  long_enough = c.long_enough;
  in_budget = c.in_budget;
  decodes = λ d tail covers same.
      decode_value_hot_lem eng levels d (c.out ++ tail) ∙ c.decodes d tail covers same;
}

patched-IsSound :
    (m : Memory) (e g : Enc)
    → IsSound m g
    → IsSound m (record g { body = set g.body (length e.body) (Tag.byte Tag.packed_mixed) })
unfolding IsSound
patched-IsSound m e g sound = sound

patched :
    (e g : Enc) (n : ℕ)
    → g.body ≡ varint_put (e.body ++ (Tag.byte Tag.packed_strings ∷ [])) n ++ []
    → set g.body (length e.body) (Tag.byte Tag.packed_mixed)
      ≡ e.body ++ (Tag.byte Tag.packed_mixed ∷ varint_put [] n)
patched e g n same =
    ap (λ b. set b (length e.body) (Tag.byte Tag.packed_mixed))
      (same
        ∙ append-nil _
        ∙ varint_put-after (e.body ++ (Tag.byte Tag.packed_strings ∷ [])) n
        ∙ append_assoc e.body (Tag.byte Tag.packed_strings ∷ []) (varint_put [] n))
    ∙ set-append e.body (Tag.byte Tag.packed_strings) (Tag.byte Tag.packed_mixed) (varint_put [] n)

module _ (m : Memory) (eng : Engine) (wide : eng.zend_long_32 ≡ false) (levels : ℕ) (holds : List ℕ)
    (encode : Bool → Zval → Enc → Enc) (nested : Bool) (p : ℕ)
    (each : (v : Zval) (e : Enc)
      → IsListed m levels holds v
      → Ready m holds e
      → Coded m (decode_value eng levels) (value_of m v) 1 e (encode false v e)) where
  hot_each :
      (v : Zval) (e : Enc)
      → IsListed m levels holds v
      → Ready m holds e
      → Coded m
          (decode_value_hot eng (decode_value eng levels))
          (value_of m v)
          1
          e
          (encode false v e)
  hot_each v e listed ready = hot_Coded m eng levels holds v e _ listed (each v e listed ready)

  mixed_Coded :
      (cs : Cells) (before e f : Enc) (more : List ℕ)
      → AreListed m levels holds cs
      → length (cell_list cs) ≤ uint32_max
      → before.holds ≡ e.holds
      → Ready m holds f
      → Written m e f (Tag.byte Tag.packed_mixed ∷ varint_put [] (length (cell_list cs))) more 0
      → Coded m
          (decode_value eng (suc levels))
          (Value.packed (values_of_cells m cs))
          1
          e
          (walk_mixed m encode (length (cell_list cs)) before (packed cs, false, f))
  unfolding walk_mixed packed_cells
  mixed_Coded cs before e f more listed few alike ready w = rw (take_all (cell_list cs)) (
      release-Coded m _ _ 1 before e _ alike (
        head_Coded m
          (repeat (length (cell_list cs)) (decode_value_hot eng (decode_value eng levels))) _
          (values_of_cells m cs) _ _ (length (cell_list cs)) (length (cell_list cs)) e f _ more w
          (cells_Coded m levels holds encode _ hot_each cs f listed ready)
          (λ d d' rest enough.
            mixed_opened eng levels d d' (values_of_cells m cs) (length (cell_list cs)) rest few
              enough)))

  -- Every string is in the dictionary, or the run is given up for a mixed one.
  strings_Coded :
      (cs : Cells) (e : Enc) (r : Option (List ℕ) × Enc)
      → AreListed m levels holds cs
      → length (cell_list cs) ≤ uint32_max
      → Ready m holds e
      → StringRun m cs (emit_tag (Tag.byte Tag.packed_strings) (length (cell_list cs)) e) r
      → Coded m (decode_value eng (suc levels)) (Value.packed (values_of_cells m cs)) 1 e (
          encode_strings m encode nested false p
            (packed cs)
            (length e.body)
            (length (cell_list cs))
            r)
  unfolding encode_strings enc_pin_walk
  strings_Coded cs e (some is, g) listed few ready x =
      let n = length (cell_list cs) in
      let f = emit_tag (Tag.byte Tag.packed_strings) n e in
      let w = emit_tag-Written m (Tag.byte Tag.packed_strings) n e ready.sound in
      let y = body-Written m g _ _ g.wire_v2 x.unwritten.tables (key_run-after is g.body) in
      head_Coded m (repeat n string_cell) _ (values_of_cells m cs) _ _ n n e f _ [] w
        (free_Coded m _ _ n f _ _ _ (Written-trans m f g _ [] _ [] [] 0 0 x.unwritten y)
          ready.in_budget (key_run_bytes m g.dict cs is (x.named is refl))
          (λ d tail covers. strings-wrote m g.dict d covers cs is tail (x.named is refl)))
        (λ d d' rest enough.
          strings_opened eng levels d d' (values_of_cells m cs) n rest few enough)
  strings_Coded cs e (none, g) listed few ready x =
      let n = length (cell_list cs) in
      let u = x.unwritten in
      mixed_Coded cs g e
        (record g { body = set g.body (length e.body) (Tag.byte Tag.packed_mixed) }) [] listed few
        (u.held_alike)
        (record {
          sound = patched-IsSound m e g u.tables;
          in_budget = omega (arith, u.budget, ready.in_budget);
          holding = u.held_alike ∙ ready.holding;
        })
        (record {
          body_written = patched e g n u.body_written;
          dict_grown = u.dict_grown;
          tables = patched-IsSound m e g u.tables;
          budget = u.budget;
          held_alike = u.held_alike;
          depth_alike = u.depth_alike;
          size_alike = u.size_alike;
          refs_alike = u.refs_alike;
        })

  given_up :
      (cs : Cells) (e : Enc)
      → AreListed m levels holds cs
      → length (cell_list cs) ≤ uint32_max
      → Ready m holds e
      → Coded m
          (decode_value eng (suc levels))
          (Value.packed (values_of_cells m cs))
          1
          e
          (encode_mixed m encode nested false p (packed cs) (length (cell_list cs)) (false, e))
  unfolding encode_mixed enc_pin_walk
  given_up cs e listed few ready =
      let n = length (cell_list cs) in
      let w = emit_tag-Written m (Tag.byte Tag.packed_mixed) n e ready.sound in
      mixed_Coded cs e e (emit_tag (Tag.byte Tag.packed_mixed) n e) [] listed few refl
        (record { sound = w.tables; in_budget = ready.in_budget; holding = ready.holding }) w

  long_run-Coded :
      (v : ℕ) (cs : Cells) (e : Enc)
      → AreListed m levels holds (cell (long v) cs)
      → length (cell_list (cell (long v) cs)) ≤ uint32_max
      → Ready m holds e
      → Coded m
          (decode_value eng (suc levels))
          (Value.packed (values_of_cells m (cell (long v) cs)))
          1
          e
          (encode_run m encode nested false p
            (packed (cell (long v) cs))
            (long v ∷ cell_list cs)
            (long_run (all_longs (long v ∷ cell_list cs)) e))
  unfolding encode_run long_run picked enc_try_table with_schema enc_match_rowset_schema
      interned_keys rowset_keys cell_list
  long_run-Coded v cs e listed few ready =
      elim (Option-cases (all_longs (cell_list (cell (long v) cs)))) [
        | inl other ↦ rw other (given_up (cell (long v) cs) e listed few ready)
        | inr (vs, same) ↦
            let (values, all, len) =
              all_longs-values m levels holds (cell (long v) cs) vs listed same in
            rw same (
              rw (len, values)
                (longs_Coded m eng wide levels holds vs e all
                  (subst (λ (k : ℕ). k ≤ uint32_max) len few) ready))
      ]

  double_run-Coded :
      (v : ℕ) (cs : Cells) (e : Enc)
      → AreListed m levels holds (cell (double v) cs)
      → length (cell_list (cell (double v) cs)) ≤ uint32_max
      → Ready m holds e
      → Coded m
          (decode_value eng (suc levels))
          (Value.packed (values_of_cells m (cell (double v) cs)))
          1
          e
          (encode_run m encode nested false p
            (packed (cell (double v) cs))
            (double v ∷ cell_list cs)
            (double_run (all_doubles (double v ∷ cell_list cs)), e))
  unfolding encode_run double_run enc_try_table with_schema enc_match_rowset_schema interned_keys
      rowset_keys cell_list
  double_run-Coded v cs e listed few ready =
      elim (Option-cases (all_doubles (cell_list (cell (double v) cs)))) [
        | inl other ↦ rw other (given_up (cell (double v) cs) e listed few ready)
        | inr (vs, same) ↦
            let (values, all, len) =
              all_doubles-values m levels holds (cell (double v) cs) vs listed same in
            rw same (
              rw (len, values)
                (doubles_Coded eng wide levels m holds vs e all
                  (subst (λ (k : ℕ). k ≤ uint32_max) len few) ready))
      ]

  pub dense_Coded :
      (v : Zval) (cs : Cells) (e : Enc)
      → AreListed m levels holds (cell v cs)
      → length (cell_list (cell v cs)) ≤ uint32_max
      → Ready m holds e
      → Coded m
          (decode_value eng (suc levels))
          (Value.packed (values_of_cells m (cell v cs)))
          1
          e
          (encode_dense m encode nested false p (packed (cell v cs)) (v ∷ cell_list cs) e)
  unfolding encode_dense encode_run detect_packed_run enc_try_table with_schema
      enc_match_rowset_schema interned_keys rowset_keys cell_list AreListed
  dense_Coded (str zs) cs e listed few ready =
      let w =
        emit_tag-Written m (Tag.byte Tag.packed_strings) (length (cell_list (cell (str zs) cs))) e
          ready.sound in
      strings_Coded (cell (str zs) cs) e _ listed few ready
        (string_run-StringRun m (cell (str zs) cs) _ w.tables)
  dense_Coded (long v) cs e listed few ready = long_run-Coded v cs e listed few ready
  dense_Coded (double v) cs e listed few ready = double_run-Coded v cs e listed few ready
  dense_Coded (arr q (packed ds)) cs e listed few ready =
      given_up (cell (arr q (packed ds)) cs) e listed few ready
  dense_Coded (arr q (hashed es)) cs e listed few ready =
      absurd (no_hashed m levels holds q es listed.0)
  dense_Coded undef cs e listed few ready = given_up (cell undef cs) e listed few ready
  dense_Coded null cs e listed few ready = given_up (cell null cs) e listed few ready
  dense_Coded Zval.true cs e listed few ready = given_up (cell Zval.true cs) e listed few ready
  dense_Coded Zval.false cs e listed few ready = given_up (cell Zval.false cs) e listed few ready
  dense_Coded (ref r) cs e listed few ready = given_up (cell (ref r) cs) e listed few ready
