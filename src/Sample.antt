-- ===== src/Sample.antt =====
-- What the tests share: an engine, a stand-in for SHA-256's compression, a key and a frame.
use phpser.Base.{
  inl, ℕ, zero, suc, ◌+◌, ◌%◌, ◌^◌, ◌≡◌, refl, true, false, List, [], ◌∷◌, none, replicate, All,
  bytes_eq, arith,
}
use phpser.Wire.{IsByte, varint_read_u64, read_loop, varint_read_i64, zigzag_decode64}
use phpser.Php.{Value, nil}
use phpser.Hmac.{Compress, phpser_sha256_iv, HmacState}
use phpser.Hmac.Cache.{IsCurrent}
use phpser.Decode.Ctx.{Engine, Ctx, ok}
use phpser.Decode.Frame.{Graph}
use phpser.Php.{items}
use phpser.Tag.{tag_of_byte, dec_is_scalar_tag, dec_is_array_tag}
use phpser.Decode.Ctx.{
  same_pointer, require, advance, read_u64, read_i64, first_byte, read_byte, take_bytes,
  dec_get_zstr, read_counted_bytes, dec_string_init, dec_string_init_existing_interned,
  dec_charge_comparison, dec_strings_equal, dec_i64_fits_zend_long, read_long,
}
use phpser.Decode.Scalar.{
  read_double, decode_scalar_tag, key_of_tag, decode_key, id_slot_of, dec_register,
}
use phpser.Decode.Runs.{
  hot_tag, hot_rest, decode_value_hot, repeat, long_cell, double_cell, string_cell, read_count,
  decode_packed_longs, decode_packed_doubles, decode_packed_strings, decode_packed_mixed,
  delta_cells, dec_decode_packed_delta, affine_cells, charge_sublinear, decode_packed_affine,
  dec_table_column,
}
use phpser.Decode.Assoc.{
  bucket_equal, chain_step, dec_assoc_update_collision, filed_key, insert_absent,
  dec_assoc_update_bounded, key_of_slot, finish_onto, finish, assoc_entries, read_pair_count,
  decode_assoc,
}
use phpser.Decode.Schema.{
  scan_row, scan_keys, chain_match, chain_walk, dec_string_hash_chain_exhausted, known, hash_keys,
  dec_schema_keys_are_unique, read_keys, has_numeric, dec_read_schema_keys, read_row,
  decode_assoc_dict,
}
use phpser.Decode.Table.{
  grow_capacity, phpser_mixed_array_bytes, charge_rows, read_dimensions, scatter, columns,
  row_buckets, row_items, dec_decode_table, rowset_row, dec_decode_rowset,
}
use phpser.Decode.Array.{
  decode_array_tag, slot_value, back_reference, decode_ref, new_cell, count_ref, fill_cell, is_ref,
  next_is_new_ref, decode_new_ref, refs_so_far, ids_so_far, shared_value, array_of_byte,
  dec_decode_shared_array, decode_tag, decode_value_inner, decode_value,
}
use phpser.Decode.Frame.{
  push_dict, dict_entries, decode_header, initial_ctx, cell_value, unwrap, graph_of, exactly_read,
  decode_frame, phpser_decode_buf_opts,
}

-- An engine that hashes every string alike, with no interned strings and no numeric keys.
abbrev pub plain_engine : Engine
plain_engine = record {
  hash = λ bytes. 0;
  handle_numeric = λ bytes. none;
  is_interned = λ bytes. false;
  table_slots = λ n. n;
  zend_long_32 = false;
}

-- A stand-in for the compression: the first byte of the block, added.
first : List ℕ → ℕ
first [] = 0
first (b ∷ bs) = b

abbrev pub adding : Compress
unfolding first
adding st block = record st { word7 = (st.word7 + first block) % 2 ^ 32 }

abbrev pub empty_cache : HmacState
empty_cache = record {
  key_valid = false;
  key_block = [];
  inner = phpser_sha256_iv;
  outer = phpser_sha256_iv;
}

pub empty_cache-IsCurrent : IsCurrent adding empty_cache
unfolding IsCurrent
empty_cache-IsCurrent = inl refl

abbrev pub key : List ℕ
key = replicate 32 0x6b

pub key-bytes : All IsByte key
key-bytes = many 32
  where
    many : (n : ℕ) → All IsByte (replicate n 0x6b)
    many zero = tt
    many (suc n) = (omega arith, many n)

-- An empty list.
abbrev pub frame : List ℕ
frame = 1 ∷ 0 ∷ 7 ∷ 0 ∷ []

abbrev pub frame_graph : Graph
frame_graph = record { value = Value.packed nil; cells = []; id_table = [] }

abbrev pub frame_ctx : Ctx
frame_ctx = record {
  rest = [];
  dict = [];
  owned_strings = 0;
  id_table = [];
  cells = [];
  sublinear_elems = 0;
  materialize_left = 16777472;
  compare_left = 65792;
  refs_seen = 0;
}

pub frame_run : phpser_decode_buf_opts plain_engine frame true ≡ ok (frame_graph, frame_ctx)
unfolding items tag_of_byte dec_is_scalar_tag dec_is_array_tag same_pointer require advance read_u64
    read_i64 first_byte read_byte take_bytes dec_get_zstr read_counted_bytes dec_string_init
    dec_string_init_existing_interned dec_charge_comparison dec_strings_equal dec_i64_fits_zend_long
    read_long read_double decode_scalar_tag key_of_tag decode_key id_slot_of dec_register hot_tag
    hot_rest decode_value_hot repeat long_cell double_cell string_cell read_count
    decode_packed_longs decode_packed_doubles decode_packed_strings decode_packed_mixed delta_cells
    dec_decode_packed_delta affine_cells charge_sublinear decode_packed_affine dec_table_column
    bucket_equal chain_step dec_assoc_update_collision filed_key insert_absent
    dec_assoc_update_bounded key_of_slot finish_onto finish assoc_entries read_pair_count
    decode_assoc scan_row scan_keys chain_match chain_walk dec_string_hash_chain_exhausted known
    hash_keys dec_schema_keys_are_unique read_keys has_numeric dec_read_schema_keys read_row
    decode_assoc_dict grow_capacity phpser_mixed_array_bytes charge_rows read_dimensions scatter
    columns row_buckets row_items dec_decode_table rowset_row dec_decode_rowset decode_array_tag
    slot_value back_reference decode_ref new_cell count_ref fill_cell is_ref next_is_new_ref
    decode_new_ref refs_so_far ids_so_far shared_value array_of_byte dec_decode_shared_array
    decode_tag decode_value_inner decode_value push_dict dict_entries decode_header initial_ctx
    cell_value unwrap graph_of exactly_read decode_frame phpser_decode_buf_opts varint_read_u64
    read_loop varint_read_i64 zigzag_decode64 bytes_eq
frame_run = refl
