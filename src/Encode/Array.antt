-- ===== src/Encode/Array.antt =====
-- encode_hashtable with enc_pin_walk and enc_walk_flags. ENC_RCN, which is read for objects alone, is
-- left out. `encode` is encode_value_ex.

use phpser.Base.{
  ℕ, ◌+◌, Bool, true, false, ◌&&◌, List, [], ◌∷◌, ◌++◌, Option, some, none, if◌then◌else◌, ltb,
  ◌==◌, length, take, set,
}
use phpser.Tag
use phpser.Tag.{Tag}
use phpser.Wire.{varint_write_i64, zigzag_encode64}
use phpser.Encode.Memory.{
  Memory, Zval, str, EntryKey, name, index, HashTable, packed, hashed, entry_list, cell_list, live,
  is_undef, num_elements,
}
use phpser.Encode.Ctx.{Enc, emit_tag, set_wire_v2}
use phpser.Encode.Strings.{enc_str_dict_idx, enc_emit_str_key}
use phpser.Encode.Runs.{
  PackedRun, longs, doubles, mixed, detect_packed_run, write_longs, write_delta_run, write_doubles,
}
use phpser.Encode.Schema.{enc_key_is_schema_eligible, enc_write_key_idx_run}
use phpser.Encode.Table.{enc_try_table, hold_elements, release}

-- The numbers of a run of longs, after the tag and the count.
unfoldable pub encode_longs : Tag → ℕ → List ℕ → Enc → Enc
unfolding write_longs write_delta_run
encode_longs Tag.packed_affine step [] e = e
encode_longs Tag.packed_affine step (v ∷ vs) e = record e {
  body = varint_write_i64 (varint_write_i64 e.body v) step;
  wire_v2 = true;
}
encode_longs Tag.packed_delta step vs e = record e {
  body = write_delta_run vs e.body;
  wire_v2 = true;
}
encode_longs tag step vs e = record e { body = write_longs vs e.body }

module _ (m : Memory) where
  -- The indices of strings that are all known; `none` is where the walk over them breaks off.
  unfoldable pub after_idx : ℕ → Option (List ℕ) × Enc → Option (List ℕ) × Enc
  after_idx idx (none, e) = (none, e)
  after_idx idx (some idxs, e) = (some (idx ∷ idxs), e)

  unfoldable pub string_run : List Zval → Enc → Option (List ℕ) × Enc
  unfolding after_idx enc_str_dict_idx
  string_run [] e = (some [], e)
  string_run (str zs ∷ rest) e =
      let (found, e') = enc_str_dict_idx m zs e in
      let more = string_run rest e' in
      elim found [ none ↦ (none, e') | some idx ↦ after_idx idx more ]
  string_run (_ ∷ rest) e = (none, e)

  unfoldable pub dict_keys : List (EntryKey × Zval) → Enc → Bool × Enc
  unfolding enc_str_dict_idx enc_key_is_schema_eligible
  dict_keys [] e = (true, e)
  dict_keys ((index n, v) ∷ kvs) e = (false, e)
  dict_keys ((name k, v) ∷ kvs) e =
      let (found, e') = enc_str_dict_idx m k e in
      let more = dict_keys kvs e' in
      if enc_key_is_schema_eligible m k
      then elim found [ none ↦ (false, e') | some idx ↦ more ]
      else (false, e)

  -- `uint32_t kidx = 0; (void)enc_str_dict_idx(e, b->key, &kidx);`
  unfoldable pub idx_or_zero : Option ℕ → ℕ
  idx_or_zero none = 0
  idx_or_zero (some idx) = idx

  unfoldable pub key_indices : List (EntryKey × Zval) → Enc → List ℕ × Enc
  unfolding enc_str_dict_idx idx_or_zero
  key_indices [] e = ([], e)
  key_indices ((index n, v) ∷ kvs) e = key_indices kvs e
  key_indices ((name k, v) ∷ kvs) e =
      let (found, e') = enc_str_dict_idx m k e in
      let (idxs, e'') = key_indices kvs e' in (idx_or_zero found ∷ idxs, e'')

  -- enc_pin_walk with enc_walk_flags: the table to walk, ENC_BORROWED, and what the duplicate holds.
  -- `nested` is `e->depth > 1`.
  unfoldable pub enc_pin_walk : Bool → Bool → ℕ → HashTable → Enc → HashTable × Bool × Enc
  unfolding hold_elements
  enc_pin_walk nested ht_shared p t e =
      if ht_shared && nested
      then (m.array_dup p t, true, hold_elements (m.array_dup p t) e)
      else (t, false, e)

  unfoldable pub packed_cells : HashTable → List Zval
  unfolding cell_list
  packed_cells (packed cs) = cell_list cs
  packed_cells (hashed es) = []

  unfoldable pub live_buckets : HashTable → List (EntryKey × Zval)
  unfolding live entry_list
  live_buckets (packed cs) = []
  live_buckets (hashed es) = live (entry_list es)

  module _ (encode : Bool → Zval → Enc → Enc) where
    unfoldable pub encode_cells : Bool → List Zval → Enc → Enc
    encode_cells borrowed [] e = e
    encode_cells borrowed (v ∷ vs) e = encode_cells borrowed vs (encode borrowed v e)

    -- Holes are left out, and every other cell has its place as its key.
    unfoldable pub encode_sparse : Bool → ℕ → List Zval → Enc → Enc
    unfolding is_undef
    encode_sparse borrowed i [] e = e
    encode_sparse borrowed i (v ∷ vs) e =
        if is_undef v
        then encode_sparse borrowed (i + 1) vs e
        else encode_sparse borrowed (i + 1) vs (
            encode borrowed v
              (record e { body = varint_write_i64 (e.body ++ (Tag.key_long ∷ [])) i }))

    unfoldable pub encode_key : EntryKey → Enc → Enc
    unfolding enc_emit_str_key
    encode_key (name k) e = enc_emit_str_key m k e
    encode_key (index n) e = emit_tag Tag.key_long (zigzag_encode64 n) e

    unfoldable pub encode_buckets : Bool → List (EntryKey × Zval) → Enc → Enc
    unfolding encode_key
    encode_buckets borrowed [] e = e
    encode_buckets borrowed (kv ∷ kvs) e =
        encode_buckets borrowed kvs (encode borrowed kv.1 (encode_key kv.0 e))

    unfoldable pub encode_values : Bool → List (EntryKey × Zval) → Enc → Enc
    encode_values borrowed [] e = e
    encode_values borrowed (kv ∷ kvs) e = encode_values borrowed kvs (encode borrowed kv.1 e)

    -- The three walks over the table or its duplicate, which is released after them.
    unfoldable pub walk_mixed : ℕ → Enc → HashTable × Bool × Enc → Enc
    unfolding encode_cells packed_cells release
    walk_mixed n_used before (t, borrowed, e) =
        release before (encode_cells borrowed (take n_used (packed_cells t)) e)

    unfoldable pub walk_sparse : ℕ → Enc → HashTable × Bool × Enc → Enc
    unfolding encode_sparse packed_cells release
    walk_sparse n_used before (t, borrowed, e) =
        release before (encode_sparse borrowed 0 (take n_used (packed_cells t)) e)

    unfoldable pub walk_values : Enc → HashTable × Bool × Enc → Enc
    unfolding encode_values live_buckets release
    walk_values before (t, borrowed, e) = release before (encode_values borrowed (live_buckets t) e)

    unfoldable pub walk_buckets : Enc → HashTable × Bool × Enc → Enc
    unfolding encode_buckets live_buckets release
    walk_buckets before (t, borrowed, e) =
        release before (encode_buckets borrowed (live_buckets t) e)

    module _ (nested ht_shared : Bool) (p : ℕ) (t : HashTable) where
      -- A run of strings: on a miss the tag is replaced, and the body ends where the run started.
      unfoldable pub encode_strings : ℕ → ℕ → Option (List ℕ) × Enc → Enc
      unfolding enc_write_key_idx_run walk_mixed enc_pin_walk
      encode_strings tag_off n_used (some idxs, e) = record e {
        body = enc_write_key_idx_run idxs e.body;
      }
      encode_strings tag_off n_used (none, e) =
          let patched = record e { body = set e.body tag_off (Tag.byte Tag.packed_mixed) } in
          walk_mixed n_used e (enc_pin_walk nested ht_shared p t patched)

      unfoldable pub encode_mixed : ℕ → Bool × Enc → Enc
      unfolding walk_mixed enc_pin_walk
      encode_mixed n_used (true, e) = e
      encode_mixed n_used (false, e) =
          walk_mixed n_used e
            (enc_pin_walk nested ht_shared p t (emit_tag (Tag.byte Tag.packed_mixed) n_used e))

      unfoldable pub encode_run : List Zval → PackedRun × Enc → Enc
      unfolding encode_longs write_doubles encode_mixed enc_try_table
      encode_run zp (longs tag step vs, e) =
          encode_longs tag step vs (emit_tag (Tag.byte tag) (length zp) e)
      encode_run zp (doubles vs, e) =
          let e' = emit_tag (Tag.byte Tag.packed_doubles) (length zp) e in
          record e' { body = write_doubles vs e'.body }
      encode_run zp (mixed, e) = encode_mixed (length zp) (enc_try_table m encode zp e)

      -- A packed array without holes, by its first value.
      unfoldable pub encode_dense : List Zval → Enc → Enc
      unfolding encode_strings string_run encode_run detect_packed_run
      encode_dense (str zs ∷ rest) e = encode_strings (length e.body) (length (str zs ∷ rest)) (
          string_run (str zs ∷ rest)
            (emit_tag (Tag.byte Tag.packed_strings) (length (str zs ∷ rest)) e))
      encode_dense zp e = encode_run zp (detect_packed_run zp e)

      unfoldable pub encode_packed : List Zval → ℕ → Enc → Enc
      unfolding encode_dense walk_sparse enc_pin_walk
      encode_packed zp n_elems e =
          if (length zp == n_elems) && ltb 0 (length zp)
          then encode_dense zp e
          else walk_sparse (length zp) e
              (enc_pin_walk nested ht_shared p t (emit_tag (Tag.byte Tag.assoc) n_elems e))

      unfoldable pub assoc_dict : List ℕ × Enc → Enc
      unfolding enc_write_key_idx_run walk_values enc_pin_walk
      assoc_dict (idxs, e) = walk_values e (
          enc_pin_walk nested ht_shared p t (record e { body = enc_write_key_idx_run idxs e.body }))

      unfoldable pub encode_assoc : List (EntryKey × Zval) → Bool × Enc → Enc
      unfolding assoc_dict key_indices walk_buckets enc_pin_walk
      encode_assoc buckets (keys_known, e) =
          if keys_known && ltb 0 (length buckets)
          then assoc_dict (
              key_indices buckets
                (emit_tag (Tag.byte Tag.assoc_dict) (length buckets) (set_wire_v2 e)))
          else walk_buckets e
              (enc_pin_walk nested ht_shared p t (emit_tag (Tag.byte Tag.assoc) (length buckets) e))

    unfoldable pub encode_hashtable : Bool → Bool → ℕ → HashTable → Enc → Enc
    unfolding encode_packed encode_assoc dict_keys num_elements live cell_list entry_list
    encode_hashtable nested ht_shared p (packed cs) e =
        encode_packed nested ht_shared p (packed cs) (cell_list cs) (num_elements (packed cs)) e
    encode_hashtable nested ht_shared p (hashed es) e =
        encode_assoc nested ht_shared p (hashed es) (live (entry_list es))
          (dict_keys (live (entry_list es)) e)
