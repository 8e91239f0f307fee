-- ===== src/Encode/Schema.antt =====
-- Rows of one schema: enc_key_is_schema_eligible, enc_match_rowset_schema, enc_write_key_idx_run,
-- enc_prebind_equal_packed_string_arrays.
use phpser.Base.{
  ℕ, Bool, true, false, not, ◌&&◌, ◌||◌, List, [], ◌∷◌, Option, some, none, if◌then◌else◌, ltb,
  ◌==◌, length, bytes_eq,
}
use phpser.Wire.{varint_put}
use phpser.Encode.Memory.{
  Memory, Zval, arr, str, EntryKey, name, index, packed, hashed, cell_list, entry_list, live,
  num_elements,
}
use phpser.Encode.Ctx.{Enc}
use phpser.Encode.Strings.{enc_intern_zstr}

-- The first byte of an empty string is the zero at its end.
unfoldable pub key_start : List ℕ → ℕ
key_start [] = 0
key_start (b ∷ bs) = b

unfoldable pub enc_key_is_schema_eligible : Memory → ℕ → Bool
unfolding key_start
enc_key_is_schema_eligible m key =
    ltb 57 (key_start (m.bytes_at key)) || not (m.is_numeric (m.bytes_at key))

-- zend_string_equals: equal addresses are equal bytes.
unfoldable pub zend_string_equals : Memory → ℕ → ℕ → Bool
zend_string_equals m p q = p == q || bytes_eq (m.bytes_at p) (m.bytes_at q)

-- The keys of row 0.
unfoldable pub schema_keys : Memory → List (EntryKey × Zval) → Option (List ℕ)
unfolding enc_key_is_schema_eligible
schema_keys m [] = some []
schema_keys m ((name k, v) ∷ kvs) =
    let rest = schema_keys m kvs in
    if enc_key_is_schema_eligible m k
    then elim rest [ none ↦ none | some ks ↦ some (k ∷ ks) ]
    else none
schema_keys m ((index n, v) ∷ kvs) = none

unfoldable pub keys_match : Memory → List (EntryKey × Zval) → List ℕ → Bool
unfolding zend_string_equals
keys_match m [] [] = true
keys_match m ((name k, v) ∷ kvs) (k0 ∷ ks) = zend_string_equals m k k0 && keys_match m kvs ks
keys_match m kvs ks = false

unfoldable pub row_matches : Memory → List ℕ → Zval → Bool
unfolding keys_match num_elements live entry_list
row_matches m ks (arr p (hashed es)) =
    (num_elements (hashed es) == length ks) && keys_match m (live (entry_list es)) ks
row_matches m ks v = false

unfoldable pub rows_match : Memory → List ℕ → List Zval → Bool
unfolding row_matches
rows_match m ks [] = true
rows_match m ks (v ∷ vs) = row_matches m ks v && rows_match m ks vs

unfoldable pub matched_keys : Memory → List Zval → Option (List ℕ) → Option (List ℕ)
unfolding rows_match
matched_keys m rows none = none
matched_keys m rows (some []) = none
matched_keys m rows (some (k ∷ ks)) = if rows_match m (k ∷ ks) rows then some (k ∷ ks) else none

-- Before anything is interned: the keys of row 0 that at least one more row has.
unfoldable pub rowset_keys : Memory → List Zval → Option (List ℕ)
unfolding matched_keys schema_keys live entry_list
rowset_keys m (arr p (hashed es) ∷ row ∷ rows) =
    matched_keys m (row ∷ rows) (schema_keys m (live (entry_list es)))
rowset_keys m zp = none

unfoldable pub consed : ℕ → List ℕ × Enc → List ℕ × Enc
consed idx (idxs, e) = (idx ∷ idxs, e)

unfoldable pub intern_all : Memory → List ℕ → Enc → List ℕ × Enc
unfolding consed enc_intern_zstr
intern_all m [] e = ([], e)
intern_all m (zs ∷ rest) e =
    consed (enc_intern_zstr m zs e).0 (intern_all m rest (enc_intern_zstr m zs e).1)

unfoldable pub interned_keys : Memory → Option (List ℕ) → Enc → Option (List ℕ) × Enc
unfolding intern_all
interned_keys m none e = (none, e)
interned_keys m (some ks) e = (some (intern_all m ks e).0, (intern_all m ks e).1)

unfoldable pub enc_match_rowset_schema : Memory → List Zval → Enc → Option (List ℕ) × Enc
unfolding interned_keys rowset_keys
enc_match_rowset_schema m zp e = interned_keys m (rowset_keys m zp) e

unfoldable pub enc_write_key_idx_run : List ℕ → List ℕ → List ℕ
enc_write_key_idx_run [] out = out
enc_write_key_idx_run (idx ∷ idxs) out = enc_write_key_idx_run idxs (varint_put out idx)

unfoldable pub all_strings : List Zval → Option (List ℕ)
all_strings [] = some []
all_strings (str s ∷ zs) = elim (all_strings zs) [ none ↦ none | some vs ↦ some (s ∷ vs) ]
all_strings (_ ∷ zs) = none

-- A packed array without holes that holds strings only: their addresses.
unfoldable pub string_vector : Zval → Option (List ℕ)
unfolding all_strings cell_list
string_vector (arr p (packed cs)) = all_strings (cell_list cs)
string_vector v = none

unfoldable pub vectors_equal : Memory → List ℕ → List ℕ → Bool
unfolding zend_string_equals
vectors_equal m [] [] = true
vectors_equal m (p ∷ ps) (q ∷ qs) = zend_string_equals m p q && vectors_equal m ps qs
vectors_equal m ps qs = false

unfoldable pub is_vector : Memory → List ℕ → Option (List ℕ) → Bool
unfolding vectors_equal
is_vector m values none = false
is_vector m values (some ps) = vectors_equal m values ps

unfoldable pub vectors_follow : Memory → List ℕ → List Zval → Bool
unfolding is_vector string_vector
vectors_follow m values [] = true
vectors_follow m values (v ∷ vs) =
    is_vector m values (string_vector v) && vectors_follow m values vs

unfoldable pub same_addresses : List ℕ → List ℕ → Bool
same_addresses [] [] = true
same_addresses (p ∷ ps) (q ∷ qs) = (p == q) && same_addresses ps qs
same_addresses ps qs = false

unfoldable pub is_same : List ℕ → Option (List ℕ) → Bool
unfolding same_addresses
is_same values none = false
is_same values (some ps) = same_addresses values ps

-- `same_ptrs` is about the second row alone.
unfoldable pub prebind : Memory → Option (List ℕ) → Zval → List Zval → Enc → Enc
unfolding vectors_follow is_same string_vector intern_all
prebind m none second rows e = e
prebind m (some []) second rows e = e
prebind m (some (p ∷ ps)) second rows e =
    if vectors_follow m (p ∷ ps) (second ∷ rows) && not (is_same (p ∷ ps) (string_vector second))
    then (intern_all m (p ∷ ps) e).1
    else e

unfoldable pub enc_prebind_equal_packed_string_arrays : Memory → List Zval → Enc → Enc
unfolding prebind string_vector
enc_prebind_equal_packed_string_arrays m (first ∷ second ∷ rows) e =
    prebind m (string_vector first) second rows e
enc_prebind_equal_packed_string_arrays m cells e = e
