-- ===== src/Decode/Bounded/Tables.antt =====
-- Tables and row sets pay for what they make.
use phpser.Base.{
  ℕ, zero, suc, ◌+◌, ◌/◌, ◌≤◌, ◌<◌, ◌≡◌, refl, ap, arith, Bool, not, List, [], ◌∷◌, ◌++◌, length,
  leb, ◌&&◌, ◌==◌, replicate,
}
use phpser.Php.{Value, Key, Items, nil, item}
use phpser.Tag.{tag_of_byte}
use phpser.Decode.Ctx.{
  Engine, Zstr, M, ◌>>=◌, require, remaining, uint32_max, read_u64, read_byte, dec_get_zstr,
}
use phpser.Decode.Runs.{repeat, dec_table_column}
use phpser.Decode.Schema.{
  dec_schema_keys_are_unique, read_keys, has_numeric, dec_read_schema_keys, read_row,
}
use phpser.Decode.Table.{
  ht_max_size, phpser_mixed_array_bytes, charge_rows, read_dimensions, Row, scatter, columns,
  row_buckets, row_items, dec_decode_table, rowset_row, dec_decode_rowset,
}
use phpser.Decode.Spends.{
  size, size_items, size_buckets, Spends, Spends-bind, Spends-pure, Spends-require,
  Spends-remaining, Spends-read_u64, Spends-read_byte, Spends-frame, Spends-bind_knowing, Yields,
  Yields-bind, Yields-pure, Yields-Anything, Yields-require, Anything,
}
use phpser.Decode.Bounded.Rows.{
  Spends-dec_read_schema_keys, Spends-read_row, Spends-dec_table_column,
}

length-read_keys : (n : ℕ) → Yields (read_keys n) (λ keys. length keys ≡ n)
unfolding read_keys
length-read_keys zero = Yields-pure [] _ refl
length-read_keys (suc n) = Yields-bind read_u64 _ Anything _ (Yields-Anything read_u64) λ idx _.
    Yields-bind (dec_get_zstr idx) _ Anything _ (Yields-Anything (dec_get_zstr idx)) λ key _.
      Yields-bind (read_keys n) _ (λ keys. length keys ≡ n) _ (length-read_keys n)
        λ keys h. Yields-pure (key ∷ keys) _ (ap suc h)

length-dec_read_schema_keys :
    (eng : Engine) (n : ℕ) → Yields (dec_read_schema_keys eng n) (λ keys. length keys ≡ n)
unfolding dec_read_schema_keys
length-dec_read_schema_keys eng n =
    Yields-bind (read_keys n) _ (λ keys. length keys ≡ n) _ (length-read_keys n)
      λ keys h.
        Yields-bind (dec_schema_keys_are_unique eng keys) _ Anything _ (Yields-Anything _)
          λ unique _.
            Yields-bind (require (unique && not (has_numeric eng keys))) _ Anything _
              (Yields-Anything _) λ _ _. Yields-pure keys _ h

-- A table has a column.
ncols-pos : Yields read_dimensions (λ dims. 0 < dims.1)
unfolding read_dimensions
ncols-pos = Yields-bind read_u64 _ Anything _ (Yields-Anything read_u64) λ nrows _.
    Yields-bind read_u64 _ Anything _ (Yields-Anything read_u64) λ ncols _.
      Yields-bind (require (leb ncols uint32_max && leb nrows uint32_max && not (ncols == 0))) _
        (λ _. (leb ncols uint32_max && leb nrows uint32_max && not (ncols == 0)) ≡ Bool.true) _
        (Yields-require _)
        λ _ h. Yields-bind _ _ Anything _ (Yields-Anything (require (leb ncols ht_max_size))) λ _ _.
          Yields-bind _ _ Anything _
            (Yields-Anything (charge_rows nrows (phpser_mixed_array_bytes ncols + 48)))
            λ _ _. Yields-bind _ _ Anything _ (Yields-Anything remaining) λ left _.
              Yields-bind _ _ Anything _
                (Yields-Anything (require (leb ncols (left / 2) && leb nrows (left / ncols))))
                λ _ _. Yields-pure (nrows, ncols) _ (ground arith)

Spends-charge_rows : (n b c : ℕ) → Spends c (charge_rows n b) (λ _. c)
unfolding charge_rows
Spends-charge_rows n b c d a d' e = ground arith

Spends-read_dimensions : (c : ℕ) → Spends c read_dimensions (λ _. c + 4)
unfolding read_dimensions
Spends-read_dimensions c =
    Spends-bind read_u64 _ c (λ _. c + 2) _ (Spends-read_u64 c)
      λ nrows.
        Spends-bind read_u64 _ (c + 2) (λ _. c + 2 + 2) _ (Spends-read_u64 (c + 2))
          λ ncols.
            Spends-bind (require (leb ncols uint32_max && leb nrows uint32_max && not (ncols == 0)))
              _ _ (λ _. c + 2 + 2) _ (Spends-require _ _)
              λ _.
                Spends-bind (require (leb ncols ht_max_size)) _ _ (λ _. c + 2 + 2) _
                  (Spends-require _ _)
                  λ _.
                    Spends-bind (charge_rows nrows (phpser_mixed_array_bytes ncols + 48)) _ _
                      (λ _. c + 2 + 2) _ (Spends-charge_rows _ _ _)
                      λ _.
                        Spends-bind remaining _ _ (λ _. c + 2 + 2) _ (Spends-remaining _)
                          λ left.
                            Spends-bind (require (leb ncols (left / 2) && leb nrows (left / ncols)))
                              _ _ (λ _. c + 2 + 2) _ (Spends-require _ _)
                              λ _. Spends-pure (nrows, ncols) _ _ (omega arith)

abbrev size_row : Row → ℕ
size_row [] = 0
size_row (cell ∷ row) = size (cell.1) + size_row row

-- The rows with one zval for each, and their cells.
abbrev size_rows : List Row → ℕ
size_rows [] = 0
size_rows (row ∷ rows) = suc (size_row row + size_rows rows)

size_row-append :
    (row : Row) (key : Key) (v : Value) → size_row (row ++ ((key, v) ∷ [])) ≡ size_row row + size v
size_row-append [] key v = omega arith
size_row-append (cell ∷ row) key v = omega (arith, size_row-append row key v)

size_rows-scatter :
    (key : Key) (cells : Items) (rows : List Row)
    → size_rows (scatter key cells rows) ≤ size_rows rows + size_items cells
unfolding scatter
size_rows-scatter key nil rows = omega arith
size_rows-scatter key (item v vs) [] = omega arith
size_rows-scatter key (item v vs) (row ∷ rows) =
    omega (arith, size_row-append row key v, size_rows-scatter key vs rows)

size_rows-replicate : (n : ℕ) → size_rows (replicate n []) ≡ n
size_rows-replicate zero = refl
size_rows-replicate (suc n) = omega (arith, size_rows-replicate n)

size-row_buckets : (row : Row) → size_buckets (row_buckets row) ≡ size_row row
unfolding row_buckets
size-row_buckets [] = refl
size-row_buckets (cell ∷ row) = omega (arith, size-row_buckets row)

size-row_items : (rows : List Row) → size_items (row_items rows) ≡ size_rows rows
unfolding row_items
size-row_items [] = refl
size-row_items (row ∷ rows) = omega (arith, size-row_buckets row, size-row_items rows)

module _ (eng : Engine) (decode_value : M Value)
    (pays : Spends 0 decode_value (λ v. suc (size v))) where
  Spends-columns :
      (n : ℕ) (keys : List Zstr) (rows : List Row) (c : ℕ)
      → Spends
          (c + size_rows rows)
          (columns eng decode_value n keys rows)
          (λ rows'. c + size_rows rows')
  unfolding columns
  Spends-columns n [] rows c = Spends-pure rows _ _ (omega arith)
  Spends-columns n (key ∷ keys) rows c =
      let credit = c + size_rows rows in
      Spends-bind read_byte _ credit (λ _. credit + 2) _ (Spends-read_byte credit)
        λ t.
          Spends-bind (dec_table_column eng decode_value n (tag_of_byte t)) _ _
            (λ vs. credit + 2 + (n + size_items vs)) _
            (Spends-dec_table_column eng decode_value pays n _ (credit + 2))
            λ vs d rows' d' e. omega (
              arith,
              size_rows-scatter (Key.str key.bytes) vs rows,
              Spends-columns n keys (scatter (Key.str key.bytes) vs rows) c d rows' d' e,
            )

  -- The first column also pays for the rows themselves.
  Spends-all_columns :
      (n : ℕ) (keys : List Zstr) (c : ℕ)
      → 0 < length keys
      → Spends c (columns eng decode_value n keys (replicate n [])) (λ rows'. c + size_rows rows')
  unfolding columns
  Spends-all_columns n [] c h = absurd (omega arith)
  Spends-all_columns n (key ∷ keys) c h =
      Spends-bind read_byte _ c (λ _. c + 2) _ (Spends-read_byte c)
        λ t.
          Spends-bind (dec_table_column eng decode_value n (tag_of_byte t)) _ _
            (λ vs. c + 2 + (n + size_items vs)) _
            (Spends-dec_table_column eng decode_value pays n _ (c + 2))
            λ vs d rows' d' e. omega (
              arith,
              size_rows-scatter (Key.str key.bytes) vs (replicate n []),
              size_rows-replicate n,
              Spends-columns n keys (scatter (Key.str key.bytes) vs (replicate n [])) c d rows' d'
                  e,
            )

  Spends-read_schema :
      {B : Type 0} (f : List Zstr → M B) (w : B → ℕ) (n c : ℕ)
      → 0 < n
      → ((keys : List Zstr) → 0 < length keys → Spends (c + length keys) (f keys) w)
      → Spends c (dec_read_schema_keys eng n >>= f) w
  Spends-read_schema f w n c pos hf =
      Spends-bind_knowing (dec_read_schema_keys eng n) f c (λ keys. c + length keys) w
        (λ keys. length keys ≡ n) (Spends-dec_read_schema_keys eng n c)
        (length-dec_read_schema_keys eng n) (λ keys h. hf keys (omega (arith, h)))

  pub Spends-dec_decode_table : Spends 2 (dec_decode_table eng decode_value) (λ v. suc (size v))
  unfolding dec_decode_table
  Spends-dec_decode_table =
      Spends-bind_knowing read_dimensions _ 2 (λ _. 6) _ (λ dims. 0 < dims.1)
        (Spends-read_dimensions 2) ncols-pos
        λ dims pos. Spends-read_schema _ _ (dims.1) 6 pos λ keys h.
          Spends-bind (columns eng decode_value (dims.0) keys (replicate (dims.0) [])) _ _
            (λ rows. 6 + length keys + size_rows rows) _ (Spends-all_columns (dims.0) keys _ h)
            λ rows. Spends-pure _ _ _ (omega (arith, size-row_items rows))

  Spends-rowset_row :
      (keys : List Zstr) → 0 < length keys → Spends 0 (rowset_row eng decode_value keys) size
  unfolding rowset_row
  Spends-rowset_row keys h =
      Spends-bind (read_row eng decode_value keys) _ 0 (λ row. 0 + length keys + size_buckets row) _
        (Spends-read_row eng decode_value pays keys 0) λ row. Spends-pure _ _ _ (omega arith)

  Spends-repeat_rows :
      (n : ℕ) (cell : M Value) (c : ℕ)
      → Spends 0 cell size
      → Spends c (repeat n cell) (λ vs. c + size_items vs)
  unfolding repeat
  Spends-repeat_rows zero cell c h = Spends-pure nil c _ (omega arith)
  Spends-repeat_rows (suc n) cell c h =
      Spends-bind cell _ c (λ v. c + size v) _ (Spends-frame cell _ c h)
        λ v.
          Spends-bind (repeat n cell) _ _ (λ vs. c + size v + size_items vs) _
            (Spends-repeat_rows n cell (c + size v) h)
            λ vs. Spends-pure (item v vs) _ _ (omega arith)

  pub Spends-dec_decode_rowset : Spends 2 (dec_decode_rowset eng decode_value) (λ v. suc (size v))
  unfolding dec_decode_rowset
  Spends-dec_decode_rowset =
      Spends-bind_knowing read_dimensions _ 2 (λ _. 6) _ (λ dims. 0 < dims.1)
        (Spends-read_dimensions 2) ncols-pos
        λ dims pos. Spends-read_schema _ _ (dims.1) 6 pos λ keys h.
          Spends-bind (repeat (dims.0) (rowset_row eng decode_value keys)) _ _
            (λ vs. 6 + length keys + size_items vs) _
            (Spends-repeat_rows (dims.0) _ _ (Spends-rowset_row keys h))
            λ vs. Spends-pure _ _ _ (omega arith)
