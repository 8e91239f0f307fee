-- ===== src/Decode/Bounded/Rows.antt =====
-- Column names, rows and columns pay for what they make.
use phpser.Base.{
  ℕ, zero, suc, ◌+◌, ◌/◌, ◌%◌, arith, not, List, [], ◌∷◌, Option, some, length, leb, ltb, ◌&&◌,
  ◌||◌, ◌==◌,
}
use phpser.Php.{Value}
use phpser.Tag.{Tag}
use phpser.Decode.Ctx.{
  Engine, Zstr, M, require, remaining, read_u64, dec_get_zstr, dec_charge_comparison,
  dec_strings_equal, same_pointer,
}
use phpser.Decode.Runs.{decode_value_hot, dec_table_column}
use phpser.Decode.Assoc.{chain_step, max_hash_chain_length}
use phpser.Decode.Schema.{
  scan_row, scan_keys, chain_match, chain_walk, dec_string_hash_chain_exhausted, known, hash_keys,
  dec_schema_keys_are_unique, read_keys, has_numeric, dec_read_schema_keys, read_row,
  decode_assoc_dict, schema_uniq_scan_max,
}
use phpser.Decode.Spends.{
  size, size_items, size_buckets, Spends, Spends-bind, Spends-pure, Spends-require,
  Spends-remaining, Spends-read_u64, Spends-dec_get_zstr, Spends-frame, Spends-if, Spends-fail,
}
use phpser.Decode.Mass.{
  Spends-long_cell, Spends-double_cell, Spends-string_cell, Spends-delta_cells, Spends-repeat,
}
use phpser.Decode.Bounded.{
  Spends-charge_comparison, Spends-dec_strings_equal, Spends-chain_step, Spends-decode_value_hot,
  Spends-read_pair_count,
}

Spends-scan_row :
    (eng : Engine) (key : Zstr) (earlier : List Zstr) (c : ℕ)
    → Spends c (scan_row eng key earlier) (λ _. c)
unfolding scan_row
Spends-scan_row eng key [] c = Spends-pure _ c _ (omega arith)
Spends-scan_row eng key (k ∷ earlier) c =
    Spends-bind (dec_strings_equal eng key k) _ c (λ _. c) _ (Spends-dec_strings_equal eng key k c)
      λ equal.
        Spends-if equal _ _ c _ (Spends-pure _ c _ (omega arith))
          (Spends-scan_row eng key earlier c)

Spends-scan_keys :
    (eng : Engine) (earlier keys : List Zstr) (c : ℕ)
    → Spends c (scan_keys eng earlier keys) (λ _. c)
unfolding scan_keys
Spends-scan_keys eng earlier [] c = Spends-pure _ c _ (omega arith)
Spends-scan_keys eng earlier (key ∷ keys) c =
    Spends-bind (scan_row eng key earlier) _ c (λ _. c) _ (Spends-scan_row eng key earlier c)
      λ fresh.
        Spends-if fresh _ _ c _ (Spends-scan_keys eng _ keys c) (Spends-pure _ c _ (omega arith))

Spends-chain_match :
    (eng : Engine) (key : Zstr) (n : ℕ) (k : Zstr) (c : ℕ)
    → Spends c (chain_match eng key n k) (λ _. c)
unfolding chain_match
Spends-chain_match eng key n k c =
    Spends-if (not (eng.hash k.bytes == eng.hash key.bytes)) _ _ c _
      (Spends-pure _ c _ (omega arith))
      (Spends-bind (require (not (leb max_hash_chain_length (n + 1)))) _ c (λ _. c) _
        (Spends-require _ c)
        λ _.
          Spends-if
            (ltb 64 (length key.bytes)
              && not (same_pointer k key)
              && length k.bytes == length key.bytes)
            _ _ c _
            (Spends-bind (dec_charge_comparison (length key.bytes)) _ c (λ _. c) _
              (Spends-charge_comparison _ c) λ _. Spends-pure (n + 1) c _ (omega arith))
            (Spends-pure _ c _ (omega arith)))

Spends-chain_walk :
    (eng : Engine) (slots : ℕ) (key : Zstr) (n m : ℕ) (seen : List Zstr) (c : ℕ)
    → Spends c (chain_walk eng slots key n m seen) (λ _. c)
unfolding chain_walk
Spends-chain_walk eng slots key n m [] c = Spends-pure _ c _ (omega arith)
Spends-chain_walk eng slots key n m (k ∷ older) c =
    Spends-if (not (eng.hash k.bytes % slots == eng.hash key.bytes % slots)) _ _ c _
      (Spends-chain_walk eng slots key n m older c)
      (Spends-bind (chain_match eng key m k) _ c (λ _. c) _ (Spends-chain_match eng key m k c)
        λ m'.
          Spends-bind (chain_step n) _ c (λ _. c) _ (Spends-chain_step n c)
            λ n'. Spends-chain_walk eng slots key n' m' older c)

Spends-hash_keys :
    (eng : Engine) (slots : ℕ) (seen keys : List Zstr) (c : ℕ)
    → Spends c (hash_keys eng slots seen keys) (λ _. c)
unfolding hash_keys
Spends-hash_keys eng slots seen [] c = Spends-pure _ c _ (omega arith)
Spends-hash_keys eng slots seen (key ∷ keys) c =
    Spends-bind (dec_string_hash_chain_exhausted eng slots seen key) _ c (λ _. c) _
      (unfold dec_string_hash_chain_exhausted in
        Spends-if
          ((ltb (length seen) max_hash_chain_length && leb (length key.bytes) 64)
            || length seen == 0)
          _ _ c _ (Spends-pure _ c _ (omega arith)) (Spends-chain_walk eng slots key 0 0 seen c))
      λ _.
        Spends-if (known key seen) _ _ c _ (Spends-pure _ c _ (omega arith))
          (Spends-hash_keys eng slots (key ∷ seen) keys c)

Spends-keys_are_unique :
    (eng : Engine) (keys : List Zstr) (c : ℕ)
    → Spends c (dec_schema_keys_are_unique eng keys) (λ _. c)
unfolding dec_schema_keys_are_unique
Spends-keys_are_unique eng keys c =
    Spends-if (leb (length keys) 1) _ _ c _ (Spends-pure _ c _ (omega arith)) (
      Spends-if (leb (length keys) schema_uniq_scan_max) _ _ c _ (Spends-scan_keys eng [] keys c)
        (Spends-hash_keys eng (eng.table_slots (length keys)) [] keys c))

-- As many keys as asked for.
Spends-read_keys : (n c : ℕ) → Spends c (read_keys n) (λ keys. c + length keys)
unfolding read_keys
Spends-read_keys zero c = Spends-pure _ c _ (omega arith)
Spends-read_keys (suc n) c =
    Spends-bind read_u64 _ c (λ _. c + 2) _ (Spends-read_u64 c)
      λ idx.
        Spends-bind (dec_get_zstr idx) _ (c + 2) (λ _. c + 2) _ (Spends-dec_get_zstr idx (c + 2))
          λ key.
            Spends-bind (read_keys n) _ (c + 2) (λ keys. c + 2 + length keys) _
              (Spends-read_keys n (c + 2)) λ keys. Spends-pure _ _ _ (omega arith)

pub Spends-dec_read_schema_keys :
    (eng : Engine) (n c : ℕ) → Spends c (dec_read_schema_keys eng n) (λ keys. c + length keys)
unfolding dec_read_schema_keys
Spends-dec_read_schema_keys eng n c =
    Spends-bind (read_keys n) _ c (λ keys. c + length keys) _ (Spends-read_keys n c)
      λ keys.
        Spends-bind (dec_schema_keys_are_unique eng keys) _ _ (λ _. c + length keys) _
          (Spends-keys_are_unique eng keys _)
          λ unique.
            Spends-bind (require (unique && not (has_numeric eng keys))) _ _ (λ _. c + length keys)
              _ (Spends-require _ _) λ _. Spends-pure keys _ _ (omega arith)

module _ (eng : Engine) (decode_value : M Value)
    (pays : Spends 0 decode_value (λ v. suc (size v))) where
  pub Spends-read_row :
      (keys : List Zstr) (c : ℕ)
      → Spends c (read_row eng decode_value keys) (λ row. c + length keys + size_buckets row)
  unfolding read_row
  Spends-read_row [] c = Spends-pure _ c _ (omega arith)
  Spends-read_row (key ∷ keys) c =
      Spends-bind (decode_value_hot eng decode_value) _ c (λ v. c + suc (size v)) _
        (Spends-frame _ _ c (Spends-decode_value_hot eng decode_value pays))
        λ v.
          Spends-bind (read_row eng decode_value keys) _ _
            (λ row. c + suc (size v) + length keys + size_buckets row) _
            (Spends-read_row keys (c + suc (size v))) λ row. Spends-pure _ _ _ (omega arith)

  pub Spends-decode_assoc_dict : Spends 2 (decode_assoc_dict eng decode_value) (λ v. suc (size v))
  unfolding decode_assoc_dict
  Spends-decode_assoc_dict =
      Spends-bind _ _ 2 (λ _. 4) _ (Spends-read_pair_count 2)
        λ n.
          Spends-bind (dec_read_schema_keys eng n) _ 4 (λ keys. 4 + length keys) _
            (Spends-dec_read_schema_keys eng n 4)
            λ keys.
              Spends-bind (read_row eng decode_value keys) _ _
                (λ row. 4 + length keys + length keys + size_buckets row) _
                (Spends-read_row keys (4 + length keys)) λ row. Spends-pure _ _ _ (omega arith)

  pub Spends-dec_table_column :
      (n : ℕ) (t : Option Tag) (c : ℕ)
      → Spends c (dec_table_column eng decode_value n t) (λ vs. c + (n + size_items vs))
  unfolding dec_table_column
  Spends-dec_table_column n (some Tag.packed_longs) c = Spends-repeat n _ c (Spends-long_cell eng)
  Spends-dec_table_column n (some Tag.packed_doubles) c =
      Spends-bind remaining _ c (λ _. c) _ (Spends-remaining c)
        λ left.
          Spends-bind (require (leb n (left / 8))) _ c (λ _. c) _ (Spends-require _ c)
            λ _. Spends-repeat n _ c Spends-double_cell
  Spends-dec_table_column n (some Tag.packed_strings) c = Spends-repeat n _ c Spends-string_cell
  Spends-dec_table_column n (some Tag.packed_delta) c = Spends-delta_cells eng n 0 c
  Spends-dec_table_column n (some Tag.packed_mixed) c =
      Spends-repeat n _ c (Spends-decode_value_hot eng decode_value pays)
  Spends-dec_table_column n _ c = Spends-fail c _
