-- ===== src/Encode/Tests.antt =====
-- Runs of the encoder on small values, and the theorems at concrete inputs.
use phpser.Base.{
  ℕ, zero, suc, ◌+◌, ◌≡◌, ◌≤◌, ◌<◌, ◌⊎◌, refl, arith, true, false, List, [], ◌∷◌, ◌++◌, ◌%◌, Option,
  none, some, bytes_eq, length, get_elem?,
}
use phpser.Sample.{plain_engine}
use phpser.Tag.{Tag}
use phpser.Wire.{
  put_loop, varint_put, len_loop, varint_len_u64, sign_fill, zigzag_encode64, varint_write_u64,
  varint_write_i64, le_put, le64_put,
}
use phpser.Decode.Ctx.{Ctx, Zstr, owned, ok, failed}
use phpser.Decode.Runs.{sublinear_max_elems}
use phpser.Encode.Memory.{
  Memory, Zval, nil, cell, end, entry, packed, hashed, HashTable, long, str, arr, name,
}
use phpser.Encode.Ctx.{Enc, enc_ctx_init}
use phpser.Encode.Frame.{frame_ok}
use phpser.Encode.Probe.Filled.{find-place_kept}
use phpser.Encode.Probe.Found.{EndsAt, seek_from-EndsAt, find-place}
use phpser.Encode.Strings.Sound.{IsSound, SlotSound, MapSound, Names}
use phpser.Encode.Strings.Interned.{string_tables-IsSound, enc_intern_zstr-Names}
use phpser.Encode.Runs.Choice.{enc_pick_long_run_tag-budget}
use phpser.Encode.Runs.Chosen.{HasStep, enc_pick_long_run_tag-choice}
use phpser.Encode.Runs.Decoded.{at}
use phpser.Encode.Table.Allowance.{charge_table-allowance}
use phpser.Decode.Frame.{materialize_allowance, phpser_decode_buf_opts}
use phpser.Encode.Frame.Reading.{
  frame_of, phpser_encode_zval_ex-decode, phpser_decode_buf_opts-trailing,
}
use phpser.Decode.Array.{max_depth}
use phpser.Encode.Lists.{IsListed, Covers, after, value_of}
use phpser.Encode.Lists.Whole.{encode_value_ex-decode_value}
use phpser.Encode.Memory.{cell_list, entry_list, is_undef, live_cells, live, num_elements}
use phpser.Encode.Probe.{
  id_hash, slot_at, seek, seek_free, seek_from, find, place, overwrite, rehash, grow,
}
use phpser.Encode.Ctx.{
  enc_id_grow, id_room, add_entry, visit_found, enc_visit, set_entry, array_state, array_found,
  enc_visit_array, kept_id, enc_array_done,
}
use phpser.Encode.Strings.{
  enc_cache_find, first_cap, enc_icache_grow, cache_room, enc_cache_alloc_slot, put_slot, dict_slot,
  content_find, hash_put, hash_add, hash_fill, chain_length, enc_dict_hash_add, map_add, map_after,
  too_long, enc_dict_append, enc_seed_dict_on_hit, map_lookup, map_find, content_hit, known_idx,
  enc_str_dict_idx, promote, intern_miss, enc_intern_zstr, emit_inline, emit_content, emit_slot,
  enc_emit_str_tagged, emitted, enc_emit_str_value, enc_emit_str_key,
}
use phpser.Encode.Runs.{
  sub64, long_len, write_longs, write_deltas, write_delta_run, write_doubles, plain_bytes,
  delta_bytes, is_affine, delta_or_longs, sublinear_fits, enc_pick_long_run_tag, cons_payload,
  all_longs, all_doubles, picked, long_run, double_run, detect_packed_run,
}
use phpser.Encode.Schema.{
  key_start, enc_key_is_schema_eligible, zend_string_equals, schema_keys, keys_match, row_matches,
  rows_match, matched_keys, rowset_keys, consed, intern_all, interned_keys, enc_match_rowset_schema,
  enc_write_key_idx_run, all_strings, string_vector, vectors_equal, is_vector, vectors_follow,
  same_addresses, is_same, prebind, enc_prebind_equal_packed_string_arrays,
}
use phpser.Encode.Column.{
  long_column_tag, unique_place, add_unique, is_cached, scan_strings, index_of, indices_of, indexed,
  low_cardinality, string_column, strings_detected, longs_detected, doubles_detected, all_arrays,
  enc_detect_column_tag, with_tag, same_indices, cached_idx, write_long_column, encode_column,
  enc_emit_table_column,
}
use phpser.Encode.Table.{
  row_excess, excess_fits, table_fits, charge_table, count, gc_refcount, hold, is_shared,
  hold_values, values_of, hold_elements, release, row_values, gather_row, gathered, gather,
  column_at, emit_columns, table_head, emit_table, released, with_schema, enc_try_table,
}
use phpser.Encode.Array.{
  encode_longs, after_idx, string_run, dict_keys, idx_or_zero, key_indices, enc_pin_walk,
  packed_cells, live_buckets, encode_cells, encode_sparse, encode_key, encode_buckets,
  encode_values, walk_mixed, walk_sparse, walk_values, walk_buckets, encode_strings, encode_mixed,
  encode_run, encode_dense, encode_packed, assoc_dict, encode_assoc, encode_hashtable,
}
use phpser.Encode.Value.{
  is_claimable, encode_held, drop_prefix, close_claim, encode_visited, encode_array, encode_ref,
  encode_value_inner, encode_value_ex,
}
use phpser.Encode.Frame.{
  array_elems, deref, sum_elems, capped, enc_wrapped_elems, n_seed, cap_loop, seeded_cap, init_cap,
  entry_lengths, put_entries, dict_bytes, header_len, put_header, frame_overflows, framed,
  finish_frame, phpser_encode_zval_ex,
}
use phpser.Decode.Table.{grow_capacity, phpser_mixed_array_bytes}
use phpser.Decode.Array.{decode_value}

-- The string at an address is the address as a byte.
abbrev plain_memory : Memory
plain_memory = record {
  bytes_at = λ p. (p ∷ []);
  is_interned = λ p. false;
  hash = λ bytes. 0;
  is_numeric = λ bytes. false;
  table_slots = λ n. n;
  is_immutable = λ p. false;
  refcount = λ p. 1;
  array_dup = λ p t. t;
  ref_value = λ p. Zval.null;
}

-- [10, 12, "a", "a"], and [["k" => 1, "l" => "1"], ["k" => 2, "l" => "2"]]
abbrev four_cells : HashTable
four_cells = packed (cell (long 10) (cell (long 12) (cell (str 0x61) (cell (str 0x61) nil))))

abbrev row : ℕ → HashTable
row n = hashed (entry (name 0x6b) (long n) (entry (name 0x6c) (str (0x30 + n)) end))

abbrev two_rows : HashTable
two_rows = packed (cell (arr 1 (row 1)) (cell (arr 2 (row 2)) nil))

mixed_frame :
    phpser_encode_zval_ex plain_memory (arr 9 four_cells) 0
    ≡ frame_ok (1 ∷ 1 ∷ 1 ∷ 97 ∷ 7 ∷ 4 ∷ 3 ∷ 20 ∷ 3 ∷ 24 ∷ 12 ∷ 1 ∷ 97 ∷ 5 ∷ 0 ∷ [])
unfolding put_loop varint_put len_loop varint_len_u64 sign_fill zigzag_encode64 varint_write_u64
    varint_write_i64 le_put le64_put cell_list entry_list is_undef live_cells live num_elements
    id_hash slot_at seek seek_free seek_from find place overwrite rehash grow enc_id_grow id_room
    add_entry visit_found enc_visit set_entry array_state array_found enc_visit_array kept_id
    enc_array_done enc_cache_find first_cap enc_icache_grow cache_room enc_cache_alloc_slot put_slot
    dict_slot content_find hash_put hash_add hash_fill chain_length enc_dict_hash_add map_add
    map_after too_long enc_dict_append enc_seed_dict_on_hit map_lookup map_find content_hit
    known_idx enc_str_dict_idx promote intern_miss enc_intern_zstr emit_inline emit_content
    emit_slot enc_emit_str_tagged emitted enc_emit_str_value enc_emit_str_key sub64 long_len
    write_longs write_deltas write_delta_run write_doubles plain_bytes delta_bytes is_affine
    delta_or_longs sublinear_fits enc_pick_long_run_tag cons_payload all_longs all_doubles picked
    long_run double_run detect_packed_run key_start enc_key_is_schema_eligible zend_string_equals
    schema_keys keys_match row_matches rows_match matched_keys rowset_keys consed intern_all
    interned_keys enc_match_rowset_schema enc_write_key_idx_run all_strings string_vector
    vectors_equal is_vector vectors_follow same_addresses is_same prebind
    enc_prebind_equal_packed_string_arrays long_column_tag unique_place add_unique is_cached
    scan_strings index_of indices_of indexed low_cardinality string_column strings_detected
    longs_detected doubles_detected all_arrays enc_detect_column_tag with_tag same_indices
    cached_idx write_long_column encode_column enc_emit_table_column row_excess excess_fits
    table_fits charge_table count gc_refcount hold is_shared hold_values values_of hold_elements
    release row_values gather_row gathered gather column_at emit_columns table_head emit_table
    released with_schema enc_try_table encode_longs after_idx string_run dict_keys idx_or_zero
    key_indices enc_pin_walk packed_cells live_buckets encode_cells encode_sparse encode_key
    encode_buckets encode_values walk_mixed walk_sparse walk_values walk_buckets encode_strings
    encode_mixed encode_run encode_dense encode_packed assoc_dict encode_assoc encode_hashtable
    is_claimable encode_held drop_prefix close_claim encode_visited encode_array encode_ref
    encode_value_inner encode_value_ex array_elems deref sum_elems capped enc_wrapped_elems n_seed
    cap_loop seeded_cap init_cap entry_lengths put_entries dict_bytes header_len put_header
    frame_overflows framed finish_frame phpser_encode_zval_ex
mixed_frame = refl

table_frame :
    phpser_encode_zval_ex plain_memory (arr 9 two_rows) 0
    ≡ frame_ok (
        2 ∷ 2 ∷ 1 ∷ 107 ∷ 1 ∷ 108 ∷ 21 ∷ 2 ∷ 2 ∷ 0 ∷ 1 ∷ 8 ∷ 2 ∷ 4 ∷ 7 ∷ 12 ∷ 1 ∷ 49 ∷ 12 ∷ 1 ∷ 50
        ∷ [])
unfolding put_loop varint_put len_loop varint_len_u64 sign_fill zigzag_encode64 varint_write_u64
    varint_write_i64 le_put le64_put cell_list entry_list is_undef live_cells live num_elements
    id_hash slot_at seek seek_free seek_from find place overwrite rehash grow enc_id_grow id_room
    add_entry visit_found enc_visit set_entry array_state array_found enc_visit_array kept_id
    enc_array_done enc_cache_find first_cap enc_icache_grow cache_room enc_cache_alloc_slot put_slot
    dict_slot content_find hash_put hash_add hash_fill chain_length enc_dict_hash_add map_add
    map_after too_long enc_dict_append enc_seed_dict_on_hit map_lookup map_find content_hit
    known_idx enc_str_dict_idx promote intern_miss enc_intern_zstr emit_inline emit_content
    emit_slot enc_emit_str_tagged emitted enc_emit_str_value enc_emit_str_key sub64 long_len
    write_longs write_deltas write_delta_run write_doubles plain_bytes delta_bytes is_affine
    delta_or_longs sublinear_fits enc_pick_long_run_tag cons_payload all_longs all_doubles picked
    long_run double_run detect_packed_run key_start enc_key_is_schema_eligible zend_string_equals
    schema_keys keys_match row_matches rows_match matched_keys rowset_keys consed intern_all
    interned_keys enc_match_rowset_schema enc_write_key_idx_run all_strings string_vector
    vectors_equal is_vector vectors_follow same_addresses is_same prebind
    enc_prebind_equal_packed_string_arrays long_column_tag unique_place add_unique is_cached
    scan_strings index_of indices_of indexed low_cardinality string_column strings_detected
    longs_detected doubles_detected all_arrays enc_detect_column_tag with_tag same_indices
    cached_idx write_long_column encode_column enc_emit_table_column row_excess excess_fits
    table_fits charge_table count gc_refcount hold is_shared hold_values values_of hold_elements
    release row_values gather_row gathered gather column_at emit_columns table_head emit_table
    released with_schema enc_try_table encode_longs after_idx string_run dict_keys idx_or_zero
    key_indices enc_pin_walk packed_cells live_buckets encode_cells encode_sparse encode_key
    encode_buckets encode_values walk_mixed walk_sparse walk_values walk_buckets encode_strings
    encode_mixed encode_run encode_dense encode_packed assoc_dict encode_assoc encode_hashtable
    is_claimable encode_held drop_prefix close_claim encode_visited encode_array encode_ref
    encode_value_inner encode_value_ex array_elems deref sum_elems capped enc_wrapped_elems n_seed
    cap_loop seeded_cap init_cap entry_lengths put_entries dict_bytes header_len put_header
    frame_overflows framed finish_frame phpser_encode_zval_ex bytes_eq
table_frame = refl

abbrev fresh : Enc
fresh = enc_ctx_init 0

fresh-IsSound : IsSound plain_memory fresh
unfolding IsSound SlotSound MapSound
fresh-IsSound = (tt, tt)

abbrev letter_a : Zstr
letter_a = record { address = owned 0; bytes = 0x61 ∷ [] }

abbrev reader : Ctx
reader = record {
  rest = [];
  dict = letter_a ∷ [];
  owned_strings = 1;
  id_table = [];
  cells = [];
  sublinear_elems = 0;
  materialize_left = 100;
  compare_left = 100;
  refs_seen = 0;
}

letter_a-entry :
    (i q : ℕ)
    → get_elem? (0x61 ∷ []) i ≡ some q
    → (z : Zstr) × (get_elem? (letter_a ∷ []) i ≡ some z) × (z.bytes ≡ q ∷ [])
letter_a-entry zero q e = (letter_a, refl, cc)
letter_a-entry (suc i) q e = absurd (cc)

reader-Covers : Covers plain_memory (0x61 ∷ []) (letter_a ∷ [])
reader-Covers = record { small = omega arith; entries = letter_a-entry }

encoded-Covers :
    Covers plain_memory
      (encode_value_ex plain_memory 3 false (arr 9 four_cells) fresh).dict
      reader.dict
unfolding put_loop varint_put len_loop varint_len_u64 sign_fill zigzag_encode64 varint_write_u64
    varint_write_i64 le_put le64_put cell_list entry_list is_undef live_cells live num_elements
    id_hash slot_at seek seek_free seek_from find place overwrite rehash grow enc_id_grow id_room
    add_entry visit_found enc_visit set_entry array_state array_found enc_visit_array kept_id
    enc_array_done enc_cache_find first_cap enc_icache_grow cache_room enc_cache_alloc_slot put_slot
    dict_slot content_find hash_put hash_add hash_fill chain_length enc_dict_hash_add map_add
    map_after too_long enc_dict_append enc_seed_dict_on_hit map_lookup map_find content_hit
    known_idx enc_str_dict_idx promote intern_miss enc_intern_zstr emit_inline emit_content
    emit_slot enc_emit_str_tagged emitted enc_emit_str_value enc_emit_str_key sub64 long_len
    write_longs write_deltas write_delta_run write_doubles plain_bytes delta_bytes is_affine
    delta_or_longs sublinear_fits enc_pick_long_run_tag cons_payload all_longs all_doubles picked
    long_run double_run detect_packed_run key_start enc_key_is_schema_eligible zend_string_equals
    schema_keys keys_match row_matches rows_match matched_keys rowset_keys consed intern_all
    interned_keys enc_match_rowset_schema enc_write_key_idx_run all_strings string_vector
    vectors_equal is_vector vectors_follow same_addresses is_same prebind
    enc_prebind_equal_packed_string_arrays long_column_tag unique_place add_unique is_cached
    scan_strings index_of indices_of indexed low_cardinality string_column strings_detected
    longs_detected doubles_detected all_arrays enc_detect_column_tag with_tag same_indices
    cached_idx write_long_column encode_column enc_emit_table_column row_excess excess_fits
    table_fits charge_table count gc_refcount hold is_shared hold_values values_of hold_elements
    release row_values gather_row gathered gather column_at emit_columns table_head emit_table
    released with_schema enc_try_table encode_longs after_idx string_run dict_keys idx_or_zero
    key_indices enc_pin_walk packed_cells live_buckets encode_cells encode_sparse encode_key
    encode_buckets encode_values walk_mixed walk_sparse walk_values walk_buckets encode_strings
    encode_mixed encode_run encode_dense encode_packed assoc_dict encode_assoc encode_hashtable
    is_claimable encode_held drop_prefix close_claim encode_visited encode_array encode_ref
    encode_value_inner encode_value_ex array_elems deref sum_elems capped enc_wrapped_elems n_seed
    cap_loop seeded_cap init_cap entry_lengths put_entries dict_bytes header_len put_header
    frame_overflows framed finish_frame phpser_encode_zval_ex
encoded-Covers = reader-Covers

four_cells-IsListed : IsListed plain_memory 3 [] (arr 9 four_cells)
unfolding IsListed count cell_list too_long
four_cells-IsListed =
    (refl, omega arith, refl, omega arith, (omega arith, (omega arith, (refl, (refl, tt)))))

encode_value_ex-decode_value_example :
    (out : List ℕ) × (spent : ℕ) × ((encode_value_ex plain_memory 3 false
        (arr 9 four_cells)
        fresh).body
      ≡ [] ++ out)
    × (decode_value plain_engine 3 (at reader (out ++ (7 ∷ [])))
        ≡ ok (value_of plain_memory (arr 9 four_cells), after reader (7 ∷ []) spent))
encode_value_ex-decode_value_example =
    encode_value_ex-decode_value plain_memory plain_engine 3 [] (arr 9 four_cells) fresh reader
      (7 ∷ []) refl four_cells-IsListed
      (record { sound = fresh-IsSound; in_budget = omega arith; holding = refl }) encoded-Covers
      refl

four_cells-size : length (frame_of plain_memory (arr 9 four_cells)) ≡ 15
unfolding put_loop varint_put len_loop varint_len_u64 sign_fill zigzag_encode64 varint_write_u64
    varint_write_i64 le_put le64_put cell_list entry_list is_undef live_cells live num_elements
    id_hash slot_at seek seek_free seek_from find place overwrite rehash grow enc_id_grow id_room
    add_entry visit_found enc_visit set_entry array_state array_found enc_visit_array kept_id
    enc_array_done enc_cache_find first_cap enc_icache_grow cache_room enc_cache_alloc_slot put_slot
    dict_slot content_find hash_put hash_add hash_fill chain_length enc_dict_hash_add map_add
    map_after too_long enc_dict_append enc_seed_dict_on_hit map_lookup map_find content_hit
    known_idx enc_str_dict_idx promote intern_miss enc_intern_zstr emit_inline emit_content
    emit_slot enc_emit_str_tagged emitted enc_emit_str_value enc_emit_str_key sub64 long_len
    write_longs write_deltas write_delta_run write_doubles plain_bytes delta_bytes is_affine
    delta_or_longs sublinear_fits enc_pick_long_run_tag cons_payload all_longs all_doubles picked
    long_run double_run detect_packed_run key_start enc_key_is_schema_eligible zend_string_equals
    schema_keys keys_match row_matches rows_match matched_keys rowset_keys consed intern_all
    interned_keys enc_match_rowset_schema enc_write_key_idx_run all_strings string_vector
    vectors_equal is_vector vectors_follow same_addresses is_same prebind
    enc_prebind_equal_packed_string_arrays long_column_tag unique_place add_unique is_cached
    scan_strings index_of indices_of indexed low_cardinality string_column strings_detected
    longs_detected doubles_detected all_arrays enc_detect_column_tag with_tag same_indices
    cached_idx write_long_column encode_column enc_emit_table_column row_excess excess_fits
    table_fits charge_table count gc_refcount hold is_shared hold_values values_of hold_elements
    release row_values gather_row gathered gather column_at emit_columns table_head emit_table
    released with_schema enc_try_table encode_longs after_idx string_run dict_keys idx_or_zero
    key_indices enc_pin_walk packed_cells live_buckets encode_cells encode_sparse encode_key
    encode_buckets encode_values walk_mixed walk_sparse walk_values walk_buckets encode_strings
    encode_mixed encode_run encode_dense encode_packed assoc_dict encode_assoc encode_hashtable
    is_claimable encode_held drop_prefix close_claim encode_visited encode_array encode_ref
    encode_value_inner encode_value_ex array_elems deref sum_elems capped enc_wrapped_elems n_seed
    cap_loop seeded_cap init_cap entry_lengths put_entries dict_bytes header_len put_header
    frame_overflows framed finish_frame phpser_encode_zval_ex
four_cells-size = refl

top-IsListed : IsListed plain_memory max_depth [] (arr 9 four_cells)
unfolding IsListed count cell_list too_long
top-IsListed =
    (refl, omega arith, refl, omega arith, (omega arith, (omega arith, (refl, (refl, tt)))))

phpser_encode_zval_ex-decode_example :
    (phpser_encode_zval_ex plain_memory (arr 9 four_cells) 32
      ≡ frame_ok (frame_of plain_memory (arr 9 four_cells)))
    × (last : Ctx) × (phpser_decode_buf_opts plain_engine
          (frame_of plain_memory (arr 9 four_cells))
          true
        ≡ ok (
          record { value = value_of plain_memory (arr 9 four_cells); cells = []; id_table = [] },
          last,
        ))
phpser_encode_zval_ex-decode_example =
    phpser_encode_zval_ex-decode plain_memory plain_engine (arr 9 four_cells) 32 refl top-IsListed
      (omega (arith, four_cells-size)) (omega arith)

phpser_decode_buf_opts-trailing_example :
    (last : Ctx) × (phpser_decode_buf_opts plain_engine
        (frame_of plain_memory (arr 9 four_cells) ++ (7 ∷ 8 ∷ []))
        false
      ≡ ok (
        record { value = value_of plain_memory (arr 9 four_cells); cells = []; id_table = [] },
        last,
      ))
    × (last.rest ≡ 7 ∷ 8 ∷ [])
    × (phpser_decode_buf_opts plain_engine
          (frame_of plain_memory (arr 9 four_cells) ++ (7 ∷ 8 ∷ []))
          true
        ≡ failed)
phpser_decode_buf_opts-trailing_example =
    phpser_decode_buf_opts-trailing plain_memory plain_engine (arr 9 four_cells) 7 (8 ∷ []) refl
      top-IsListed (omega (arith, four_cells-size))

-- The probe of pointer 9 starts at the slot of pointer 5, and ends at the other one.
abbrev two_slots : List (Option (ℕ × ℕ))
two_slots = none ∷ some (5, 41) ∷ []

two_slots-free : slot_at two_slots 0 ≡ none
unfolding slot_at
two_slots-free = refl

absent_9 : find two_slots 9 ≡ none
unfolding find seek_from seek slot_at id_hash
absent_9 = refl

find-place_example : find (place two_slots 9 42) 9 ≡ some 42
find-place_example = find-place two_slots 9 0 42 (omega arith) two_slots-free absent_9

there_5 : find two_slots 5 ≡ some 41
unfolding find seek_from seek slot_at id_hash
there_5 = refl

find-place_kept_example : find (place two_slots 9 42) 5 ≡ some 41
find-place_kept_example =
    find-place_kept two_slots 9 5 0 42 41 (omega arith) two_slots-free absent_9 there_5

seek_from-EndsAt_example : EndsAt two_slots 9 (seek_from two_slots 9)
seek_from-EndsAt_example = seek_from-EndsAt two_slots 9 0 (omega arith) two_slots-free

start_of_9 : id_hash 9 % 2 ≡ 1
unfolding id_hash
start_of_9 = refl

short_a : too_long plain_memory 0x61 ≡ false
unfolding too_long
short_a = refl

string_tables-IsSound_example :
    IsSound plain_memory (enc_str_dict_idx plain_memory 0x61 fresh).1
    × IsSound plain_memory (enc_emit_str_tagged plain_memory 5 12 0x61 fresh).1
string_tables-IsSound_example =
    string_tables-IsSound plain_memory 5 12 0x61 fresh fresh-IsSound short_a

enc_intern_zstr-Names_example :
    Names plain_memory
      (enc_intern_zstr plain_memory 0x61 fresh).1.dict
      0x61
      (enc_intern_zstr plain_memory 0x61 fresh).0
    × IsSound plain_memory (enc_intern_zstr plain_memory 0x61 fresh).1
enc_intern_zstr-Names_example = enc_intern_zstr-Names plain_memory 0x61 fresh fresh-IsSound

abbrev near_thousand : List ℕ
near_thousand = 1000 ∷ 1001 ∷ 1003 ∷ 1002 ∷ []

enc_pick_long_run_tag-choice_example :
    ((length near_thousand < 4)
      × (enc_pick_long_run_tag near_thousand fresh ≡ (Tag.packed_longs, 0, fresh)))
    ⊎ (((4 ≤ length near_thousand)
          × (fresh.sublinear_elems + length near_thousand ≤ sublinear_max_elems)
          × (step : ℕ) × HasStep step near_thousand
          × (enc_pick_long_run_tag near_thousand fresh ≡ (
            Tag.packed_affine,
            step,
            record fresh { sublinear_elems = fresh.sublinear_elems + length near_thousand },
          )))
        ⊎ ((4 ≤ length near_thousand)
            × (¬ (
                (fresh.sublinear_elems + length near_thousand ≤ sublinear_max_elems)
                × (step : ℕ) × HasStep step near_thousand))
            × (((enc_pick_long_run_tag near_thousand fresh ≡ (Tag.packed_delta, 0, fresh))
                  × (length (write_delta_run near_thousand [])
                      < length (write_longs near_thousand [])))
                ⊎ ((enc_pick_long_run_tag near_thousand fresh ≡ (Tag.packed_longs, 0, fresh))
                    × (length (write_longs near_thousand [])
                        ≤ length (write_delta_run near_thousand []))))))
enc_pick_long_run_tag-choice_example =
    enc_pick_long_run_tag-choice near_thousand fresh
      (omega arith, (omega arith, (omega arith, (omega arith, tt)))) (omega arith)

enc_pick_long_run_tag-budget_example :
    (enc_pick_long_run_tag (5 ∷ 6 ∷ 7 ∷ 8 ∷ 9 ∷ []) fresh).2.sublinear_elems ≤ sublinear_max_elems
enc_pick_long_run_tag-budget_example =
    enc_pick_long_run_tag-budget (5 ∷ 6 ∷ 7 ∷ 8 ∷ 9 ∷ []) fresh (omega arith)

small_table-fits : table_fits 2 3 fresh ≡ true
unfolding table_fits row_excess excess_fits grow_capacity phpser_mixed_array_bytes
small_table-fits = refl

charge_table-allowance_example :
    (charge_table 2 3 fresh).materialization_excess ≤ materialize_allowance
charge_table-allowance_example = charge_table-allowance 2 3 fresh (omega arith) small_table-fits
