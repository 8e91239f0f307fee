-- ===== src/Encode/Table.antt =====
-- enc_try_table: rows of one schema as columns.
-- The build is a 64-bit one, so `SIZE_MAX / sizeof(zval *)` is above UINT32_MAX.
pub mod Allowance
use phpser.Base.{
  ℕ, zero, suc, ◌+◌, ◌-◌, ◌*◌, ◌/◌, Bool, true, false, not, ◌&&◌, ◌||◌, List, [], ◌∷◌, ◌++◌, Option,
  some, none, if◌then◌else◌, ltb, leb, ◌==◌, length, map, take, get_elem?,
}
use phpser.Tag
use phpser.Tag.{Tag}
use phpser.Wire.{varint_put}
use phpser.Decode.Frame.{materialize_allowance, materialize_ratio}
use phpser.Decode.Table.{phpser_mixed_array_bytes}
use phpser.Encode.Memory.{Memory, Zval, arr, HashTable, packed, hashed, entry_list, cell_list, live}
use phpser.Encode.Ctx.{Enc}
use phpser.Decode.Ctx.{uint32_max}
use phpser.Encode.Schema.{enc_match_rowset_schema, enc_write_key_idx_run}
use phpser.Encode.Column.{enc_detect_column_tag, enc_emit_table_column}

-- row_bytes less the credit of a row, which is no less than nothing.
unfoldable pub row_excess : ℕ → ℕ
unfolding phpser_mixed_array_bytes
row_excess ncols = phpser_mixed_array_bytes ncols + 48 - ncols * materialize_ratio

-- The two tests on the size of the table, and materialization_excess after them.
unfoldable pub excess_fits : ℕ → ℕ → ℕ → Bool
excess_fits excess available n_used =
    leb excess available && ((excess == 0) || leb n_used (available / excess))

unfoldable pub table_fits : ℕ → ℕ → Enc → Bool
unfolding row_excess excess_fits
table_fits ncols n_used e =
    leb (ncols * n_used) uint32_max
    && excess_fits (row_excess ncols) (materialize_allowance - e.materialization_excess) n_used

unfoldable pub charge_table : ℕ → ℕ → Enc → Enc
unfolding row_excess
charge_table ncols n_used e = record e {
  materialization_excess = e.materialization_excess + n_used * row_excess ncols;
}

unfoldable pub count : List ℕ → ℕ → ℕ
count [] p = 0
count (q ∷ qs) p = if q == p then count qs p + 1 else count qs p

-- GC_REFCOUNT
unfoldable pub gc_refcount : Memory → Enc → ℕ → ℕ
unfolding count
gc_refcount m e p = m.refcount p + count e.holds p

-- GC_TRY_ADDREF
unfoldable pub hold : Memory → ℕ → Enc → Enc
hold m p e = if m.is_immutable p then e else record e { holds = p ∷ e.holds }

unfoldable pub is_shared : Memory → Enc → ℕ → Bool
unfolding gc_refcount
is_shared m e p = not (m.is_immutable p) && ltb 1 (gc_refcount m e p)

-- zend_array_dup adds a reference to each element that has a count.
unfoldable pub hold_values : List Zval → List ℕ → List ℕ
hold_values [] holds = holds
hold_values (arr p t ∷ zs) holds = p ∷ hold_values zs holds
hold_values (_ ∷ zs) holds = hold_values zs holds

unfoldable pub values_of : HashTable → List Zval
unfolding cell_list entry_list
values_of (packed cs) = cell_list cs
values_of (hashed es) = map (λ kv. kv.1) (entry_list es)

unfoldable pub hold_elements : HashTable → Enc → Enc
unfolding hold_values values_of
hold_elements t e = record e { holds = hold_values (values_of t) e.holds }

-- The references that the encoder added since `before` are dropped.
unfoldable pub release : Enc → Enc → Enc
release before e = record e { holds = before.holds }

-- The buckets of a row in the walk of the gather.
unfoldable pub row_values : HashTable → List Zval
unfolding live entry_list
row_values (packed cs) = []
row_values (hashed es) = map (λ kv. kv.1) (live (entry_list es))

-- One row: `row_dup`, the cells of its first `ncols` live buckets, and the state that pins it.
unfoldable pub gather_row : Memory → ℕ → ℕ → HashTable → Enc → List (Bool × Zval) × Enc
unfolding is_shared hold hold_elements row_values
gather_row m ncols p t e =
    if is_shared m e p
    then (
      map (λ (v : Zval). (true, v)) (take ncols (row_values (m.array_dup p t))),
      hold_elements (m.array_dup p t) e,
    )
    else (map (λ (v : Zval). (false, v)) (take ncols (row_values t)), hold m p e)

unfoldable pub gathered :
    Option (List (List (Bool × Zval))) → List (Bool × Zval) → ℕ → Option (List (List (Bool × Zval)))
gathered none row ncols = none
gathered (some rows) row ncols = if length row == ncols then some (row ∷ rows) else none

-- `none` is a row that has not `ncols` cells.
unfoldable pub gather : Memory → ℕ → List Zval → Enc → Option (List (List (Bool × Zval))) × Enc
unfolding gather_row gathered
gather m ncols [] e = (some [], e)
gather m ncols (arr p t ∷ zs) e =
    let (row, e') = gather_row m ncols p t e in
    let (rows, e'') = gather m ncols zs e' in (gathered rows row ncols, e'')
gather m ncols (_ ∷ zs) e = (none, e)

-- col_cells, by column.
unfoldable pub column_at : ℕ → List (List (Bool × Zval)) → List (Bool × Zval)
column_at c [] = []
column_at c (row ∷ rows) = elim (get_elem? row c) [
  | none ↦ column_at c rows
  | some cell ↦ cell ∷ column_at c rows
]

-- The last `todo` of `ncols` columns.
unfoldable pub emit_columns :
    Memory → (Bool → Zval → Enc → Enc) → ℕ → ℕ → List (List (Bool × Zval)) → Enc → Enc
unfolding column_at enc_detect_column_tag enc_emit_table_column
emit_columns m encode zero c rows e = e
emit_columns m encode (suc todo) c rows e = emit_columns m encode todo (c + 1) rows (
    enc_emit_table_column m encode (column_at c rows)
      (enc_detect_column_tag m (map (λ cell. cell.1) (column_at c rows)) e))

unfoldable pub table_head : ℕ → List ℕ → Enc → Enc
unfolding enc_write_key_idx_run
table_head n_used key_idx e = record e {
  wire_v2 = true;
  body =
      enc_write_key_idx_run key_idx
        (varint_put (varint_put (e.body ++ (Tag.byte Tag.table ∷ [])) n_used) (length key_idx));
}

-- The return, and the state.
unfoldable pub emit_table :
    Memory
    → (Bool → Zval → Enc → Enc)
    → ℕ
    → List ℕ
    → Option (List (List (Bool × Zval))) × Enc
    → Bool × Enc
unfolding table_head emit_columns
emit_table m encode n_used key_idx (none, e) = (false, e)
emit_table m encode n_used key_idx (some rows, e) =
    (true, emit_columns m encode (length key_idx) 0 rows (table_head n_used key_idx e))

unfoldable pub released : Enc → Bool × Enc → Bool × Enc
unfolding release
released before (handled, e) = (handled, release before e)

unfoldable pub with_schema :
    Memory → (Bool → Zval → Enc → Enc) → List Zval → Option (List ℕ) × Enc → Bool × Enc
unfolding table_fits charge_table gather emit_table released
with_schema m encode zp (none, e) = (false, e)
with_schema m encode zp (some key_idx, e) =
    if table_fits (length key_idx) (length zp) e
    then released e (
        emit_table m encode (length zp) key_idx
          (gather m (length key_idx) zp (charge_table (length key_idx) (length zp) e)))
    else (false, e)

unfoldable pub enc_try_table : Memory → (Bool → Zval → Enc → Enc) → List Zval → Enc → Bool × Enc
unfolding with_schema enc_match_rowset_schema
enc_try_table m encode zp e = with_schema m encode zp (enc_match_rowset_schema m zp e)
