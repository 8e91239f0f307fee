-- ===== src/Decode/Table.antt =====
-- dec_decode_table and dec_decode_rowset, and the budget of what they materialize.
use phpser.Base.{
  ℕ, zero, suc, ◌+◌, ◌-◌, ◌*◌, ◌/◌, ◌^◌, not, ◌&&◌, List, [], ◌∷◌, ◌++◌, if◌then◌else◌, ltb, leb,
  ◌==◌, replicate,
}
use phpser.Php.{Value, Key, Items, nil, item, Buckets, end, bucket}
use phpser.Tag.{tag_of_byte}
use phpser.Decode.Ctx.{
  Engine, Zstr, ok, failed, M, ◌>>=◌, ◌>>◌, pure, require, remaining, read_u64, read_byte,
  uint32_max,
}
use phpser.Decode.Runs.{repeat, dec_table_column}
use phpser.Decode.Schema.{dec_read_schema_keys, read_row}

-- HT_MIN_SIZE, and HT_MAX_SIZE of a 64-bit build.
abbrev pub ht_min_size : ℕ
ht_min_size = 8

abbrev pub ht_max_size : ℕ
ht_max_size = 0x4000_0000

-- `while (capacity < count) capacity *= 2;`, with the doublings left. From 8, 27 of them reach
-- HT_MAX_SIZE.
unfoldable pub grow_capacity : ℕ → ℕ → ℕ → ℕ
grow_capacity zero capacity count = capacity
grow_capacity (suc rounds) capacity count =
    let more = grow_capacity rounds (capacity * 2) count in
    if ltb capacity count then more else capacity

unfoldable pub phpser_mixed_array_bytes : ℕ → ℕ
unfolding grow_capacity
phpser_mixed_array_bytes count =
    if ltb ht_max_size count then 2 ^ 64 - 1 else 56 + grow_capacity 27 ht_min_size count * 40

unfoldable pub charge_rows : ℕ → ℕ → M (Unit {0})
charge_rows nrows row_bytes d =
    if ltb (d.materialize_left / row_bytes) nrows
    then failed
    else ok (tt, record d { materialize_left = d.materialize_left - nrows * row_bytes })

-- The header of both: the dimensions, their bounds and their cost.
unfoldable pub read_dimensions : M (ℕ × ℕ)
unfolding read_u64 charge_rows phpser_mixed_array_bytes
read_dimensions = do
  nrows ← read_u64
  ncols ← read_u64
  require (leb ncols uint32_max && leb nrows uint32_max && not (ncols == 0))
  require (leb ncols ht_max_size)
  charge_rows nrows (phpser_mixed_array_bytes ncols + 48)
  left ← remaining
  require (leb ncols (left / 2) && leb nrows (left / ncols))
  pure (nrows, ncols)

-- The rows under construction, each with its cells so far.
abbrev pub Row : Type 0
Row = List (Key × Value)

-- One decoded column is scattered over the rows.
unfoldable pub scatter : Key → Items → List Row → List Row
scatter key nil rows = rows
scatter key (item v vs) [] = []
scatter key (item v vs) (row ∷ rows) = (row ++ ((key, v) ∷ [])) ∷ scatter key vs rows

unfoldable pub columns : Engine → M Value → ℕ → List Zstr → List Row → M (List Row)
unfolding read_byte dec_table_column scatter
columns eng decode_value nrows [] rows = pure rows
columns eng decode_value nrows (key ∷ keys) rows = do
  col_tag ← read_byte
  cells ← dec_table_column eng decode_value nrows (tag_of_byte col_tag)
  columns eng decode_value nrows keys (scatter (Key.str key.bytes) cells rows)

unfoldable pub row_buckets : Row → Buckets
row_buckets [] = end
row_buckets ((k, v) ∷ row) = bucket k v (row_buckets row)

unfoldable pub row_items : List Row → Items
unfolding row_buckets
row_items [] = nil
row_items (row ∷ rows) = item (Value.hash (row_buckets row)) (row_items rows)

unfoldable pub dec_decode_table : Engine → M Value → M Value
unfolding read_dimensions dec_read_schema_keys columns row_items
dec_decode_table eng decode_value = do
  (nrows, ncols) ← read_dimensions
  keys ← dec_read_schema_keys eng ncols
  rows ← columns eng decode_value nrows keys (replicate nrows [])
  pure (Value.packed (row_items rows))

unfoldable pub rowset_row : Engine → M Value → List Zstr → M Value
unfolding read_row
rowset_row eng decode_value keys = do pure (Value.hash (← read_row eng decode_value keys))

unfoldable pub dec_decode_rowset : Engine → M Value → M Value
unfolding read_dimensions dec_read_schema_keys repeat rowset_row
dec_decode_rowset eng decode_value = do
  (nrows, ncols) ← read_dimensions
  keys ← dec_read_schema_keys eng ncols
  pure (Value.packed (← repeat nrows (rowset_row eng decode_value keys)))
