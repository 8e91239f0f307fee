-- ===== src/Encode/Column.antt =====
-- The columns of a table: enc_detect_column_tag and enc_emit_table_column.
use phpser.Base.{
  ℕ, ◌+◌, Bool, true, false, ◌&&◌, List, [], ◌∷◌, ◌++◌, Option, some, none, if◌then◌else◌, ltb,
  ◌==◌, length, map,
}
use phpser.Tag
use phpser.Tag.{Tag}
use phpser.Encode.Memory.{Memory, Zval, long, double, str, arr}
use phpser.Encode.Ctx.{Enc, append}
use phpser.Encode.Runs.{
  all_longs, all_doubles, delta_or_longs, write_longs, write_delta_run, write_doubles,
}
use phpser.Encode.Schema.{
  all_strings, zend_string_equals, intern_all, enc_write_key_idx_run,
  enc_prebind_equal_packed_string_arrays,
}
use phpser.Encode.Strings.{enc_cache_find, dict_slot, enc_intern_zstr}

-- What enc_detect_column_tag says of a column: its tag with the payloads, same_value with the first
-- string, string_idx, or strings that the icache finds.
pub data Column : Type 0 where
  long_column : Tag → List ℕ → Column
  double_column : List ℕ → Column
  same_string : ℕ → Column
  string_indices cached_strings : List ℕ → Column
  mixed_column : Column

-- Below four rows a column of longs is plain; it is never affine.
unfoldable pub long_column_tag : List ℕ → Tag
unfolding delta_or_longs
long_column_tag (v ∷ w ∷ x ∷ y ∷ vs) = delta_or_longs v (w ∷ x ∷ y ∷ vs)
long_column_tag vs = Tag.packed_longs

-- The place of a string among the distinct ones so far.
unfoldable pub unique_place : Memory → ℕ → List ℕ → Option ℕ
unfolding zend_string_equals
unique_place m s [] = none
unique_place m s (u ∷ us) =
    let rest = unique_place m s us in
    if zend_string_equals m s u then some 0 else elim rest [ none ↦ none | some i ↦ some (i + 1) ]

-- unique with cardinality_overflow: `none` once a ninth distinct string has come.
unfoldable pub add_unique : Memory → ℕ → Option (List ℕ) → Option (List ℕ)
unfolding unique_place
add_unique m s none = none
add_unique m s (some us) = elim (unique_place m s us) [
  | some i ↦ some us
  | none ↦ if length us == 8 then none else some (us ++ (s ∷ []))
]

unfoldable pub is_cached : Enc → ℕ → Bool
unfolding enc_cache_find dict_slot
is_cached e s = elim (dict_slot (enc_cache_find s e)) [ none ↦ false | some i ↦ true ]

-- The loop over the cells leaves unique and all_dict. Its early return, when both are lost, is the
-- answer that the end gives as well, and the loop changes no state.
unfoldable pub scan_strings :
    Memory → Enc → List ℕ → Option (List ℕ) → Bool → Option (List ℕ) × Bool
unfolding add_unique is_cached
scan_strings m e [] us all_dict = (us, all_dict)
scan_strings m e (s ∷ ss) us all_dict =
    scan_strings m e ss (add_unique m s us) (all_dict && is_cached e s)

unfoldable pub index_of : Memory → List ℕ → List ℕ → ℕ → Option ℕ
unfolding zend_string_equals
index_of m (u ∷ us) (i ∷ is) s =
    let rest = index_of m us is s in if zend_string_equals m s u then some i else rest
index_of m us is s = none

unfoldable pub indices_of : Memory → List ℕ → List ℕ → List ℕ → Option (List ℕ)
unfolding index_of
indices_of m us is [] = some []
indices_of m us is (s ∷ ss) =
    let rest = indices_of m us is ss in
    elim (index_of m us is s) [
      | none ↦ none
      | some i ↦ elim rest [ none ↦ none | some js ↦ some (i ∷ js) ]
    ]

unfoldable pub indexed : Option (List ℕ) → Column
indexed none = mixed_column
indexed (some is) = string_indices is

-- Few distinct strings: they are interned, and the column is their indices.
unfoldable pub low_cardinality : Memory → List ℕ → List ℕ → Enc → Column × Enc
unfolding intern_all indexed indices_of
low_cardinality m ss (u ∷ []) e = (same_string u, (intern_all m (u ∷ []) e).1)
low_cardinality m ss us e =
    (indexed (indices_of m us (intern_all m us e).0 ss), (intern_all m us e).1)

unfoldable pub string_column : Memory → List ℕ → Option (List ℕ) × Bool → Enc → Column × Enc
unfolding low_cardinality
string_column m ss (us, true) e = (cached_strings ss, e)
string_column m ss (none, false) e = (mixed_column, e)
string_column m ss (some us, false) e =
    if ltb (length us) (length ss) then low_cardinality m ss us e else (mixed_column, e)

unfoldable pub strings_detected : Memory → Option (List ℕ) → Enc → Column × Enc
unfolding string_column scan_strings
strings_detected m none e = (mixed_column, e)
strings_detected m (some ss) e = string_column m ss (scan_strings m e ss (some []) true) e

unfoldable pub longs_detected : Option (List ℕ) → Column
unfolding long_column_tag
longs_detected none = mixed_column
longs_detected (some vs) = long_column (long_column_tag vs) vs

unfoldable pub doubles_detected : Option (List ℕ) → Column
doubles_detected none = mixed_column
doubles_detected (some vs) = double_column vs

unfoldable pub all_arrays : List Zval → Bool
all_arrays [] = true
all_arrays (arr p t ∷ zs) = all_arrays zs
all_arrays (_ ∷ zs) = false

unfoldable pub enc_detect_column_tag : Memory → List Zval → Enc → Column × Enc
unfolding longs_detected doubles_detected strings_detected all_arrays all_longs all_doubles
    all_strings enc_prebind_equal_packed_string_arrays
enc_detect_column_tag m (long v ∷ zs) e = (longs_detected (all_longs (long v ∷ zs)), e)
enc_detect_column_tag m (double v ∷ zs) e = (doubles_detected (all_doubles (double v ∷ zs)), e)
enc_detect_column_tag m (str s ∷ zs) e = strings_detected m (all_strings (str s ∷ zs)) e
enc_detect_column_tag m (arr p t ∷ zs) e =
    if all_arrays zs
    then (mixed_column, enc_prebind_equal_packed_string_arrays m (arr p t ∷ zs) e)
    else (mixed_column, e)
enc_detect_column_tag m _ e = (mixed_column, e)

-- The byte of the tag, then the run appended to the body.
unfoldable pub with_tag : Tag → (List ℕ → List ℕ) → Enc → Enc
with_tag tag run e = record e { body = run (e.body ++ (Tag.byte tag ∷ [])) }

-- `nrows` times one index
unfoldable pub same_indices : ℕ → List Zval → List ℕ
same_indices i [] = []
same_indices i (_ ∷ zs) = i ∷ same_indices i zs

-- `SLOT_DICT_IDX(*enc_cache_find(e, ...))`; the slot was there when the column was looked at.
unfoldable pub cached_idx : Enc → ℕ → ℕ
unfolding enc_cache_find
cached_idx e s = elim (enc_cache_find s e) [ none ↦ 0 | some i ↦ i ]

unfoldable pub write_long_column : Tag → List ℕ → List ℕ → List ℕ
unfolding write_delta_run write_longs
write_long_column Tag.packed_delta vs out = write_delta_run vs out
write_long_column _ vs out = write_longs vs out

-- A cell comes with whether its row is a private duplicate. `encode` is encode_value_ex.
unfoldable pub encode_column : (Bool → Zval → Enc → Enc) → List (Bool × Zval) → Enc → Enc
encode_column encode [] e = e
encode_column encode (cell ∷ cells) e = encode_column encode cells (encode cell.0 cell.1 e)

-- The tag is appended before the first string is interned, which leaves the body alone.
unfoldable pub enc_emit_table_column :
    Memory → (Bool → Zval → Enc → Enc) → List (Bool × Zval) → Column × Enc → Enc
unfolding with_tag write_long_column write_doubles enc_write_key_idx_run same_indices
    enc_intern_zstr cached_idx encode_column
enc_emit_table_column m encode cells (long_column tag vs, e) =
    with_tag tag (write_long_column tag vs) e
enc_emit_table_column m encode cells (double_column vs, e) =
    with_tag Tag.packed_doubles (write_doubles vs) e
enc_emit_table_column m encode cells (same_string s, e) =
    with_tag Tag.packed_strings
      (enc_write_key_idx_run (same_indices (enc_intern_zstr m s e).0 (map (λ cell. cell.1) cells)))
      (enc_intern_zstr m s e).1
enc_emit_table_column m encode cells (string_indices is, e) =
    with_tag Tag.packed_strings (enc_write_key_idx_run is) e
enc_emit_table_column m encode cells (cached_strings ss, e) =
    with_tag Tag.packed_strings (enc_write_key_idx_run (map (cached_idx e) ss)) e
enc_emit_table_column m encode cells (mixed_column, e) =
    encode_column encode cells (append (Tag.byte Tag.packed_mixed ∷ []) e)
