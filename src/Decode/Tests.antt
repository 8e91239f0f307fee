-- ===== src/Decode/Tests.antt =====
-- Runs of the decoder on small frames.
use phpser.Base.{arith, ℕ, some, ◌≡◌, refl, true, List, [], ◌∷◌, bytes_eq, ◌≤◌, ◌+◌, ◌*◌, ◌^◌}
use phpser.Sample.{plain_engine}
use phpser.Php.{Key, Value, nil, item, end, bucket}
use phpser.Decode.Ctx.{Zstr, same_address, id_ref, owned, Ctx, ok, failed}
use phpser.Decode.Frame.{Graph}
use phpser.Wire.{varint_read_u64, read_loop, varint_read_i64, zigzag_decode64, le64_read, le_read}
use phpser.Decode.Assign.Small.{dec_assoc_update_bounded-succeeds}
use phpser.Decode.Assign.Ordered.{IsTable, php_key, assign, dec_assoc_update_bounded-assign}
use phpser.Decode.Bounded.Whole.{phpser_decode_buf_opts-bounded}
use phpser.Php.{items}
use phpser.Tag.{tag_of_byte, dec_is_scalar_tag, dec_is_array_tag}
use phpser.Decode.Ctx.{
  same_pointer, require, advance, read_u64, read_i64, first_byte, read_byte, take_bytes,
  dec_get_zstr, read_counted_bytes, dec_string_init, dec_string_init_existing_interned,
  dec_charge_comparison, dec_strings_equal, dec_i64_fits_zend_long, read_long,
}
use phpser.Decode.Scalar.{
  read_double, decode_scalar_tag, key_of_tag, decode_key, id_slot_of, dec_register,
}
use phpser.Decode.Runs.{
  hot_tag, hot_rest, decode_value_hot, repeat, long_cell, double_cell, string_cell, read_count,
  decode_packed_longs, decode_packed_doubles, decode_packed_strings, decode_packed_mixed,
  delta_cells, dec_decode_packed_delta, affine_cells, charge_sublinear, decode_packed_affine,
  dec_table_column,
}
use phpser.Decode.Scalar.{kv_str}
use phpser.Decode.Assoc.{
  Slot, Building, string_bucket_equal, bucket_equal, chain_step, dec_assoc_update_collision,
  filed_key, insert_absent, dec_assoc_update_bounded, key_of_slot, finish_onto, finish,
  assoc_entries, read_pair_count, decode_assoc,
}
use phpser.Decode.Schema.{
  scan_row, scan_keys, chain_match, chain_walk, dec_string_hash_chain_exhausted, known, hash_keys,
  dec_schema_keys_are_unique, read_keys, has_numeric, dec_read_schema_keys, read_row,
  decode_assoc_dict,
}
use phpser.Decode.Table.{
  grow_capacity, phpser_mixed_array_bytes, charge_rows, read_dimensions, scatter, columns,
  row_buckets, row_items, dec_decode_table, rowset_row, dec_decode_rowset,
}
use phpser.Decode.Array.{
  decode_array_tag, slot_value, back_reference, decode_ref, new_cell, count_ref, fill_cell, is_ref,
  next_is_new_ref, decode_new_ref, refs_so_far, ids_so_far, shared_value, array_of_byte,
  dec_decode_shared_array, decode_tag, decode_value_inner, decode_value,
}
use phpser.Decode.Frame.{
  push_dict, dict_entries, decode_header, initial_ctx, cell_value, unwrap, graph_of, exactly_read,
  decode_frame, phpser_decode_buf_opts,
}

-- ["a" => [10, 12, 14]], the list as an affine run
abbrev affine_frame : List ℕ
affine_frame = 1 ∷ 0 ∷ 6 ∷ 1 ∷ 2 ∷ 1 ∷ 0x61 ∷ 0x17 ∷ 3 ∷ 20 ∷ 4 ∷ []

abbrev start : Ctx
start = record {
  rest = [];
  dict = [];
  owned_strings = 0;
  id_table = [];
  cells = [];
  sublinear_elems = 0;
  materialize_left = 0;
  compare_left = 0;
  refs_seen = 0;
}

abbrev affine_graph : Graph
affine_graph = record {
  value = Value.hash (
      bucket (Key.str (0x61 ∷ []))
        (Value.packed (item (Value.long 10) (item (Value.long 12) (item (Value.long 14) nil))))
        end);
  cells = [];
  id_table = [];
}

abbrev affine_ctx : Ctx
affine_ctx = record start {
  owned_strings = 1;
  sublinear_elems = 3;
  materialize_left = 16777920;
  compare_left = 66240;
}

affine_run : phpser_decode_buf_opts plain_engine affine_frame true ≡ ok (affine_graph, affine_ctx)
unfolding items tag_of_byte dec_is_scalar_tag dec_is_array_tag same_pointer require advance read_u64
    read_i64 first_byte read_byte take_bytes dec_get_zstr read_counted_bytes dec_string_init
    dec_string_init_existing_interned dec_charge_comparison dec_strings_equal dec_i64_fits_zend_long
    read_long read_double decode_scalar_tag key_of_tag decode_key id_slot_of dec_register hot_tag
    hot_rest decode_value_hot repeat long_cell double_cell string_cell read_count
    decode_packed_longs decode_packed_doubles decode_packed_strings decode_packed_mixed delta_cells
    dec_decode_packed_delta affine_cells charge_sublinear decode_packed_affine dec_table_column
    bucket_equal chain_step dec_assoc_update_collision filed_key insert_absent
    dec_assoc_update_bounded key_of_slot finish_onto finish assoc_entries read_pair_count
    decode_assoc scan_row scan_keys chain_match chain_walk dec_string_hash_chain_exhausted known
    hash_keys dec_schema_keys_are_unique read_keys has_numeric dec_read_schema_keys read_row
    decode_assoc_dict grow_capacity phpser_mixed_array_bytes charge_rows read_dimensions scatter
    columns row_buckets row_items dec_decode_table rowset_row dec_decode_rowset decode_array_tag
    slot_value back_reference decode_ref new_cell count_ref fill_cell is_ref next_is_new_ref
    decode_new_ref refs_so_far ids_so_far shared_value array_of_byte dec_decode_shared_array
    decode_tag decode_value_inner decode_value push_dict dict_entries decode_header initial_ctx
    cell_value unwrap graph_of exactly_read decode_frame phpser_decode_buf_opts varint_read_u64
    read_loop varint_read_i64 zigzag_decode64 le64_read le_read bytes_eq
affine_run = refl

phpser_decode_buf_opts-bounded_example : (5 ≤ 2 * 11 + 2 ^ 20) × (0 ≤ 2 * 11 + 2 ^ 20)
phpser_decode_buf_opts-bounded_example =
    phpser_decode_buf_opts-bounded plain_engine affine_frame true affine_graph affine_ctx affine_run

-- [["a" => 1], ["a" => 2]] as a table; a reference and a back reference that share a cell; bytes
-- after the value; a value cut short; no bytes at all.
runs :
    (phpser_decode_buf_opts plain_engine (2 ∷ 1 ∷ 1 ∷ 0x61 ∷ 0x15 ∷ 2 ∷ 1 ∷ 0 ∷ 8 ∷ 2 ∷ 4 ∷ []) true
      ≡ ok (
        record {
          value = Value.packed (
              item
                (Value.hash (bucket (Key.str (0x61 ∷ [])) (Value.long 1) end))
                (item (Value.hash (bucket (Key.str (0x61 ∷ [])) (Value.long 2) end)) nil));
          cells = [];
          id_table = [];
        },
        record start {
          dict = record { address = owned 0; bytes = 0x61 ∷ [] } ∷ [];
          owned_strings = 1;
          materialize_left = 16777072;
          compare_left = 66240;
        },
      ))
    × (phpser_decode_buf_opts plain_engine (2 ∷ 0 ∷ 7 ∷ 2 ∷ 0x11 ∷ 3 ∷ 10 ∷ 0x10 ∷ 0 ∷ []) true
        ≡ ok (
          record {
            value = Value.packed (item (Value.ref 0) (item (Value.ref 0) nil));
            cells = Value.long 5 ∷ [];
            id_table = id_ref 0 ∷ [];
          },
          record start {
            id_table = id_ref 0 ∷ [];
            cells = Value.long 5 ∷ [];
            refs_seen = 2;
            materialize_left = 16777792;
            compare_left = 66112;
          },
        ))
    × (phpser_decode_buf_opts plain_engine (1 ∷ 0 ∷ 3 ∷ 2 ∷ 0 ∷ []) true ≡ failed)
    × (phpser_decode_buf_opts plain_engine (1 ∷ 0 ∷ 8 ∷ 2 ∷ 2 ∷ []) true ≡ failed)
    × (phpser_decode_buf_opts plain_engine [] true ≡ failed)
unfolding items tag_of_byte dec_is_scalar_tag dec_is_array_tag same_pointer require advance read_u64
    read_i64 first_byte read_byte take_bytes dec_get_zstr read_counted_bytes dec_string_init
    dec_string_init_existing_interned dec_charge_comparison dec_strings_equal dec_i64_fits_zend_long
    read_long read_double decode_scalar_tag key_of_tag decode_key id_slot_of dec_register hot_tag
    hot_rest decode_value_hot repeat long_cell double_cell string_cell read_count
    decode_packed_longs decode_packed_doubles decode_packed_strings decode_packed_mixed delta_cells
    dec_decode_packed_delta affine_cells charge_sublinear decode_packed_affine dec_table_column
    bucket_equal chain_step dec_assoc_update_collision filed_key insert_absent
    dec_assoc_update_bounded key_of_slot finish_onto finish assoc_entries read_pair_count
    decode_assoc scan_row scan_keys chain_match chain_walk dec_string_hash_chain_exhausted known
    hash_keys dec_schema_keys_are_unique read_keys has_numeric dec_read_schema_keys read_row
    decode_assoc_dict grow_capacity phpser_mixed_array_bytes charge_rows read_dimensions scatter
    columns row_buckets row_items dec_decode_table rowset_row dec_decode_rowset decode_array_tag
    slot_value back_reference decode_ref new_cell count_ref fill_cell is_ref next_is_new_ref
    decode_new_ref refs_so_far ids_so_far shared_value array_of_byte dec_decode_shared_array
    decode_tag decode_value_inner decode_value push_dict dict_entries decode_header initial_ctx
    cell_value unwrap graph_of exactly_read decode_frame phpser_decode_buf_opts varint_read_u64
    read_loop varint_read_i64 zigzag_decode64 le64_read le_read bytes_eq
runs = (refl, refl, refl, refl, refl)

-- ["a" => 1], and the key "a" from elsewhere
abbrev letter : ℕ → Zstr
letter n = record { address = owned n; bytes = 0x61 ∷ [] }

abbrev one_bucket : Value → List Slot
one_bucket v = record { h = 0; key = some (letter 0); val = v } ∷ []

overwrite_run :
    dec_assoc_update_bounded plain_engine 8
      (kv_str (letter 1))
      (Value.long 2)
      (one_bucket (Value.long 1))
      start
    ≡ ok (one_bucket (Value.long 2), start)
unfolding dec_assoc_update_bounded dec_assoc_update_collision bucket_equal string_bucket_equal
    dec_strings_equal same_pointer same_address bytes_eq filed_key insert_absent require
overwrite_run = refl

dec_assoc_update_bounded-assign_example :
    (finish (one_bucket (Value.long 2))
      ≡ assign
          (php_key plain_engine (kv_str (letter 1)))
          (Value.long 2)
          (finish (one_bucket (Value.long 1))))
    × IsTable plain_engine (one_bucket (Value.long 2))
dec_assoc_update_bounded-assign_example =
    dec_assoc_update_bounded-assign plain_engine 8 (kv_str (letter 1)) (Value.long 2)
      (one_bucket (Value.long 1)) start (one_bucket (Value.long 2)) start ((refl, tt), (tt, tt))
      overwrite_run

dec_assoc_update_bounded-succeeds_example :
    (table' : Building) × (dec_assoc_update_bounded plain_engine 8
        (kv_str (letter 1))
        (Value.long 2)
        (one_bucket (Value.long 1))
        start
      ≡ ok (table', start))
    × (finish table'
        ≡ assign
            (php_key plain_engine (kv_str (letter 1)))
            (Value.long 2)
            (finish (one_bucket (Value.long 1))))
    × IsTable plain_engine table'
dec_assoc_update_bounded-succeeds_example =
    dec_assoc_update_bounded-succeeds plain_engine 8 (kv_str (letter 1)) (Value.long 2)
      (one_bucket (Value.long 1)) start ((refl, tt), (tt, tt)) (omega arith) (omega arith)
