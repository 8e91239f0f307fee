-- ===== src/Decode/Assoc.antt =====
-- Keyed arrays under construction: dec_assoc_update_bounded and its budgets, TAG_ASSOC.
use phpser.Base.{
  ℕ, zero, suc, ◌+◌, ◌/◌, ◌%◌, Bool, true, false, not, ◌&&◌, List, [], ◌∷◌, Option, some, none,
  if◌then◌else◌, leb, ◌==◌,
}
use phpser.Php.{Value, Key, int, Buckets, end, bucket}
use phpser.Decode.Ctx.{
  Engine, Zstr, M, ◌>>=◌, ◌>>◌, pure, require, remaining, read_u64, dec_strings_equal,
  dec_charge_comparison, uint32_max,
}
use phpser.Decode.Scalar.{KeyVal, kv_long, kv_str, decode_key}
use phpser.Decode.Runs.{decode_value_hot}
use mathlib.Core.Option

abbrev pub max_hash_chain_length : ℕ
max_hash_chain_length = 64

-- A bucket of a table under construction: `key` is NULL for an integer key, which is then `h`.
pub record Slot : Type 0 where
  pub h : ℕ
  pub key : Option Zstr
  pub val : Value

-- The buckets, newest first. The chain of a hash slot is those of them that fall into it, in this
-- order: Z_NEXT of a new bucket is the former head.
abbrev pub Building : Type 0
Building = List Slot

-- A string bucket of the wanted hash: `collisions` counts them, and one too many that is not the
-- key ends the decode.
unfoldable pub string_bucket_equal : Engine → Zstr → Zstr → ℕ → M (Bool × ℕ)
unfolding dec_strings_equal
string_bucket_equal eng key zs collisions = do
  equal ← dec_strings_equal eng key zs
  require (not (leb max_hash_chain_length (collisions + 1) && not equal))
  pure (equal, collisions + 1)

-- The test of one bucket of the chain whose hash is the wanted one, by the bucket's key and the
-- wanted key, with the new count of collisions.
unfoldable pub bucket_equal : Engine → ℕ → Option Zstr → Option Zstr → M (Bool × ℕ)
unfolding string_bucket_equal
bucket_equal eng collisions none none = pure (true, collisions)
bucket_equal eng collisions (some key) none = pure (false, collisions)
bucket_equal eng collisions none (some zs) = pure (false, collisions)
bucket_equal eng collisions (some key) (some zs) = string_bucket_equal eng key zs collisions

-- `if (++chain_len == MAX_HASH_CHAIN_LENGTH)` charge the walk and count anew.
unfoldable pub chain_step : ℕ → M ℕ
unfolding dec_charge_comparison
chain_step chain_len =
    if chain_len + 1 == max_hash_chain_length
    then (dec_charge_comparison (chain_len + 1) >> pure 0)
    else pure (chain_len + 1)

-- dec_assoc_update_collision: `none` for an absent key, `some` with the table after replacement.
-- `slots` is the number of hash slots of the table, a power of two.
unfoldable pub dec_assoc_update_collision :
    Engine → ℕ → ℕ → Option Zstr → Value → ℕ → ℕ → Building → M (Option Building)
unfolding bucket_equal chain_step
dec_assoc_update_collision eng slots h zs value chain_len collisions [] = pure none
dec_assoc_update_collision eng slots h zs value chain_len collisions (b ∷ older) =
    if not (b.h % slots == h % slots)
    then (do
      r ← dec_assoc_update_collision eng slots h zs value chain_len collisions older
      pure (Option.map (λ bs. b ∷ bs) r))
    else (do
      (equal, collisions') ←
          (if b.h == h then bucket_equal eng collisions b.key zs else pure (false, collisions))
      if equal then pure (some (record b { val = value } ∷ older)) else (do
        chain_len' ← chain_step chain_len
        r ← dec_assoc_update_collision eng slots h zs value chain_len' collisions' older
        pure (Option.map (λ bs. b ∷ bs) r)))

-- The hash and the string key, if any, that a key_val is filed under.
unfoldable pub filed_key : Engine → KeyVal → ℕ × Option Zstr
filed_key eng (kv_long v) = (v, none)
filed_key eng (kv_str s) = elim (eng.handle_numeric s.bytes) [
  | some h ↦ (h, none)
  | none ↦ (eng.hash s.bytes, some s)
]

unfoldable pub insert_absent : ℕ → Option Zstr → Value → Building → Option Building → Building
insert_absent h zs value table none = record { h = h; key = zs; val = value } ∷ table
insert_absent h zs value table (some replaced) = replaced

unfoldable pub dec_assoc_update_bounded : Engine → ℕ → KeyVal → Value → Building → M Building
unfolding dec_assoc_update_collision filed_key insert_absent
dec_assoc_update_bounded eng slots key value table = do
  let h = (filed_key eng key).0
  let zs = (filed_key eng key).1
  r ← dec_assoc_update_collision eng slots h zs value 0 0 table
  pure (insert_absent h zs value table r)

unfoldable pub key_of_slot : Slot → Key
key_of_slot b = elim b.key [ none ↦ int b.h | some s ↦ Key.str s.bytes ]

-- The finished table, oldest bucket first.
unfoldable pub finish_onto : Building → Buckets → Buckets
unfolding key_of_slot
finish_onto [] done = done
finish_onto (b ∷ older) done = finish_onto older (bucket (key_of_slot b) b.val done)

unfoldable pub finish : Building → Buckets
unfolding finish_onto
finish table = finish_onto table end

unfoldable pub assoc_entries : Engine → M Value → ℕ → ℕ → Building → M Building
unfolding decode_key decode_value_hot dec_assoc_update_bounded
assoc_entries eng decode_value slots zero table = pure table
assoc_entries eng decode_value slots (suc n) table = do
  k ← decode_key eng
  v ← decode_value_hot eng decode_value
  table' ← dec_assoc_update_bounded eng slots k v table
  assoc_entries eng decode_value slots n table'

-- varint(len), at most one entry to two bytes left.
unfoldable pub read_pair_count : M ℕ
unfolding read_u64
read_pair_count = do
  n ← read_u64
  left ← remaining
  require (leb n uint32_max && leb n (left / 2))
  pure n

unfoldable pub decode_assoc : Engine → M Value → M Value
unfolding read_pair_count assoc_entries finish
decode_assoc eng decode_value = do
  n ← read_pair_count
  let entries = (do
    table ← assoc_entries eng decode_value (eng.table_slots n) n []
    pure (Value.hash (finish table)))
  if n == 0 then pure Value.empty_array else entries
