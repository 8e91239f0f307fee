-- ===== src/Decode/Schema.antt =====
-- Column names: dec_schema_keys_are_unique and dec_read_schema_keys; TAG_ASSOC_DICT.
use phpser.Base.{
  ℕ, zero, suc, ◌+◌, ◌%◌, Bool, true, false, not, ◌&&◌, ◌||◌, List, [], ◌∷◌, ◌++◌, Option, some,
  none, if◌then◌else◌, ltb, leb, ◌==◌, length, bytes_eq,
}
use phpser.Php.{Value, Key, Buckets, end, bucket}
use phpser.Decode.Ctx.{
  Engine, Zstr, M, ◌>>=◌, ◌>>◌, pure, require, read_u64, dec_strings_equal, dec_charge_comparison,
  dec_get_zstr, same_pointer,
}
use phpser.Decode.Runs.{decode_value_hot}
use phpser.Decode.Assoc.{read_pair_count, max_hash_chain_length, chain_step}

-- Whether `key` differs from each of `earlier`, from the first to the last.
unfoldable pub scan_row : Engine → Zstr → List Zstr → M Bool
unfolding dec_strings_equal
scan_row eng key [] = pure true
scan_row eng key (k ∷ earlier) = do
  equal ← dec_strings_equal eng key k
  if equal then pure false else scan_row eng key earlier

-- The pairwise scan: `earlier` are the keys before `keys`.
unfoldable pub scan_keys : Engine → List Zstr → List Zstr → M Bool
unfolding scan_row
scan_keys eng earlier [] = pure true
scan_keys eng earlier (key ∷ keys) = do
  fresh ← scan_row eng key earlier
  if fresh then scan_keys eng (earlier ++ (key ∷ [])) keys else pure false

-- dec_string_hash_chain_exhausted, its return of 1 given as failure, since the caller returns -1
-- on it: the walk over the chain of `key` in the set `seen`, newest first.
unfoldable pub chain_match : Engine → Zstr → ℕ → Zstr → M ℕ
unfolding dec_charge_comparison same_pointer
chain_match eng key collisions k =
    if not (eng.hash k.bytes == eng.hash key.bytes) then pure collisions else (do
      require (not (leb max_hash_chain_length (collisions + 1)))
      if ltb 64 (length key.bytes) && not (same_pointer k key) && length k.bytes == length key.bytes
          then (dec_charge_comparison (length key.bytes) >> pure (collisions + 1))
          else pure (collisions + 1))

unfoldable pub chain_walk : Engine → ℕ → Zstr → ℕ → ℕ → List Zstr → M (Unit {0})
unfolding chain_match chain_step
chain_walk eng slots key chain_len collisions [] = pure tt
chain_walk eng slots key chain_len collisions (k ∷ older) =
    if not (eng.hash k.bytes % slots == eng.hash key.bytes % slots)
    then chain_walk eng slots key chain_len collisions older
    else (do
      collisions' ← chain_match eng key collisions k
      chain_len' ← chain_step chain_len
      chain_walk eng slots key chain_len' collisions' older)

unfoldable pub dec_string_hash_chain_exhausted : Engine → ℕ → List Zstr → Zstr → M (Unit {0})
unfolding chain_walk
dec_string_hash_chain_exhausted eng slots seen key =
    if (ltb (length seen) max_hash_chain_length && leb (length key.bytes) 64) || length seen == 0
    then pure tt
    else chain_walk eng slots key 0 0 seen

-- zend_hash_add_empty_element finds the key by its bytes.
unfoldable pub known : Zstr → List Zstr → Bool
known key [] = false
known key (k ∷ seen) = bytes_eq key.bytes k.bytes || known key seen

-- The hashed set, newest key first.
unfoldable pub hash_keys : Engine → ℕ → List Zstr → List Zstr → M Bool
unfolding dec_string_hash_chain_exhausted known
hash_keys eng slots seen [] = pure true
hash_keys eng slots seen (key ∷ keys) = do
  dec_string_hash_chain_exhausted eng slots seen key
  if known key seen then pure false else hash_keys eng slots (key ∷ seen) keys

abbrev pub schema_uniq_scan_max : ℕ
schema_uniq_scan_max = 32

unfoldable pub dec_schema_keys_are_unique : Engine → List Zstr → M Bool
unfolding scan_keys hash_keys
dec_schema_keys_are_unique eng keys =
    if leb (length keys) 1
    then pure true
    else if leb (length keys) schema_uniq_scan_max
    then scan_keys eng [] keys
    else hash_keys eng (eng.table_slots (length keys)) [] keys

unfoldable pub read_keys : ℕ → M (List Zstr)
unfolding read_u64 dec_get_zstr
read_keys zero = pure []
read_keys (suc n) = do idx ← read_u64; key ← dec_get_zstr idx; keys ← read_keys n; pure (key ∷ keys)

unfoldable pub has_numeric : Engine → List Zstr → Bool
has_numeric eng [] = false
has_numeric eng (key ∷ keys) = is_some (eng.handle_numeric key.bytes) || has_numeric eng keys
  where
    is_some : Option ℕ → Bool
    is_some none = false
    is_some (some h) = true

unfoldable pub dec_read_schema_keys : Engine → ℕ → M (List Zstr)
unfolding read_keys dec_schema_keys_are_unique has_numeric
dec_read_schema_keys eng nkeys = do
  keys ← read_keys nkeys
  unique ← dec_schema_keys_are_unique eng keys
  require (unique && not (has_numeric eng keys))
  pure keys

-- The values of one keyed array, in the order of its keys.
unfoldable pub read_row : Engine → M Value → List Zstr → M Buckets
unfolding decode_value_hot
read_row eng decode_value [] = pure end
read_row eng decode_value (key ∷ keys) = do
  v ← decode_value_hot eng decode_value
  row ← read_row eng decode_value keys
  pure (bucket (Key.str key.bytes) v row)

unfoldable pub decode_assoc_dict : Engine → M Value → M Value
unfolding read_pair_count dec_read_schema_keys read_row
decode_assoc_dict eng decode_value = do
  n ← read_pair_count
  keys ← dec_read_schema_keys eng n
  pure (Value.hash (← read_row eng decode_value keys))
