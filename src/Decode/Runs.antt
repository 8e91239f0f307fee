-- ===== src/Decode/Runs.antt =====
-- The typed runs of decode_value_inner, dec_decode_packed_delta, and the columns of a table.
use phpser.Base.{
  ℕ, zero, suc, ◌+◌, ◌-◌, ◌/◌, ◌%◌, ◌^◌, ◌&&◌, ◌||◌, List, [], ◌∷◌, Option, some, none,
  if◌then◌else◌, ltb, leb,
}
use phpser.Php.{Value, Items, nil, item}
use phpser.Tag.{Tag, tag_of_byte, dec_is_scalar_tag}
use phpser.Decode.Ctx.{
  Engine, Ctx, Outcome, ok, failed, M, ◌>>=◌, ◌>>◌, pure, fail, require, remaining, read_u64,
  read_i64, read_long, dec_get_zstr, uint32_max, dec_i64_fits_zend_long,
}
use phpser.Decode.Scalar.{decode_scalar_tag, read_double}

-- `1u << 20`
abbrev pub sublinear_max_elems : ℕ
sublinear_max_elems = 2 ^ 20

-- A tag whose bit pattern says scalar is read here; any other is left to decode_value, which gets
-- the cursor back before the tag.
unfoldable pub hot_tag : Engine → M Value → Ctx → Ctx → Option Tag → Outcome (Value × Ctx)
hot_tag eng decode_value before after none = decode_value before
hot_tag eng decode_value before after (some tag) =
    if dec_is_scalar_tag tag then decode_scalar_tag eng tag after else decode_value before

unfoldable pub hot_rest : Engine → M Value → Ctx → List ℕ → Outcome (Value × Ctx)
hot_rest eng decode_value d [] = failed
hot_rest eng decode_value d (b ∷ rest) =
    hot_tag eng decode_value d (record d { rest = rest }) (tag_of_byte b)

unfoldable pub decode_value_hot : Engine → M Value → M Value
unfolding hot_tag hot_rest
decode_value_hot eng decode_value d = hot_rest eng decode_value d d.rest

-- `for (i = 0; i < n; i++)` over the cells of a new array.
unfoldable pub repeat : ℕ → M Value → M Items
repeat zero cell = pure nil
repeat (suc n) cell = do v ← cell; vs ← repeat n cell; pure (item v vs)

unfoldable pub long_cell : Engine → M Value
unfolding read_long
long_cell eng = do pure (Value.long (← read_long eng))

unfoldable pub double_cell : M Value
unfolding read_double
double_cell = do pure (Value.double (← read_double))

unfoldable pub string_cell : M Value
unfolding read_u64 dec_get_zstr
string_cell = do idx ← read_u64; zs ← dec_get_zstr idx; pure (Value.str zs.bytes)

-- varint(len), at most one element to a byte left.
unfoldable pub read_count : M ℕ
unfolding read_u64
read_count = do n ← read_u64; left ← remaining; require (leb n uint32_max && leb n left); pure n

unfoldable pub decode_packed_longs : Engine → M Value
unfolding read_count repeat long_cell
decode_packed_longs eng = do n ← read_count; pure (Value.packed (← repeat n (long_cell eng)))

unfoldable pub decode_packed_doubles : M Value
unfolding read_u64 repeat double_cell
decode_packed_doubles = do
  n ← read_u64
  left ← remaining
  require (leb n uint32_max && leb n (left / 8))
  pure (Value.packed (← repeat n double_cell))

unfoldable pub decode_packed_strings : M Value
unfolding read_count repeat string_cell
decode_packed_strings = do n ← read_count; pure (Value.packed (← repeat n string_cell))

unfoldable pub decode_packed_mixed : Engine → M Value → M Value
unfolding read_count repeat decode_value_hot
decode_packed_mixed eng decode_value = do
  n ← read_count
  pure (Value.packed (← repeat n (decode_value_hot eng decode_value)))

-- `acc += (uint64_t)dv`, wrapping; `acc` starts at 0, so the first delta is the first value.
unfoldable pub delta_cells : Engine → ℕ → ℕ → M Items
unfolding read_i64
delta_cells eng zero acc = pure nil
delta_cells eng (suc n) acc = do
  dv ← read_i64
  let acc' = (acc + dv) % 2 ^ 64
  require (dec_i64_fits_zend_long eng acc')
  vs ← delta_cells eng n acc'
  pure (item (Value.long acc') vs)

unfoldable pub dec_decode_packed_delta : Engine → M Value
unfolding read_count delta_cells
dec_decode_packed_delta eng = do n ← read_count; pure (Value.packed (← delta_cells eng n 0))

unfoldable pub affine_cells : Engine → ℕ → ℕ → ℕ → M Items
affine_cells eng zero acc step = pure nil
affine_cells eng (suc n) acc step = do
  require (dec_i64_fits_zend_long eng acc)
  vs ← affine_cells eng n ((acc + step) % 2 ^ 64) step
  pure (item (Value.long acc) vs)

-- The shared budget: `n > MAX || d->sublinear_elems > MAX - n` is refused.
unfoldable pub charge_sublinear : ℕ → M (Unit {0})
charge_sublinear n d =
    if ltb sublinear_max_elems n || ltb (sublinear_max_elems - n) d.sublinear_elems
    then failed
    else ok (tt, record d { sublinear_elems = d.sublinear_elems + n })

unfoldable pub decode_packed_affine : Engine → M Value
unfolding read_u64 read_i64 charge_sublinear affine_cells
decode_packed_affine eng = do
  n ← read_u64
  charge_sublinear n
  base_v ← read_i64
  step ← read_i64
  pure (Value.packed (← affine_cells eng n base_v step))

-- dec_table_column: one column of `nrows` cells. Any other tag is refused.
unfoldable pub dec_table_column : Engine → M Value → ℕ → Option Tag → M Items
unfolding repeat long_cell double_cell string_cell delta_cells decode_value_hot
dec_table_column eng decode_value nrows (some Tag.packed_longs) = repeat nrows (long_cell eng)
dec_table_column eng decode_value nrows (some Tag.packed_doubles) = do
  left ← remaining
  require (leb nrows (left / 8))
  repeat nrows double_cell
dec_table_column eng decode_value nrows (some Tag.packed_strings) = repeat nrows string_cell
dec_table_column eng decode_value nrows (some Tag.packed_delta) = delta_cells eng nrows 0
dec_table_column eng decode_value nrows (some Tag.packed_mixed) =
    repeat nrows (decode_value_hot eng decode_value)
dec_table_column eng decode_value nrows _ = fail
