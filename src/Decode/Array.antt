-- ===== src/Decode/Array.antt =====
-- decode_value and decode_value_inner: the dispatch on the tag, back references, new references,
-- shared arrays, and the bound on depth.
use phpser.Base.{
  ℕ, zero, suc, ◌+◌, Bool, not, List, [], ◌∷◌, ◌++◌, Option, some, none, if◌then◌else◌, ◌==◌,
  length, get_elem?, set,
}
use phpser.Php.{Value}
use phpser.Tag.{Tag, tag_of_byte, dec_is_scalar_tag, dec_is_array_tag, byte}
use phpser.Decode.Ctx.{
  Engine, IdSlot, id_ref, id_arr, id_null, id_empty_arr, ok, failed, beyond, M, ◌>>=◌, ◌>>◌, pure,
  fail, require, read_u64, read_byte,
}
use phpser.Decode.Scalar.{decode_scalar_tag, dec_register}
use phpser.Decode.Runs.{
  decode_packed_longs, decode_packed_doubles, decode_packed_strings, decode_packed_mixed,
  dec_decode_packed_delta, decode_packed_affine,
}
use phpser.Decode.Assoc.{decode_assoc}
use phpser.Decode.Schema.{decode_assoc_dict}
use phpser.Decode.Table.{dec_decode_table, dec_decode_rowset}

-- The arms of the switch for array tags. `decode_value` is the decoder of the elements.
unfoldable pub decode_array_tag : Engine → M Value → Tag → M Value
decode_array_tag eng decode_value Tag.packed_longs = decode_packed_longs eng
decode_array_tag eng decode_value Tag.packed_doubles = decode_packed_doubles
decode_array_tag eng decode_value Tag.packed_strings = decode_packed_strings
decode_array_tag eng decode_value Tag.packed_mixed = decode_packed_mixed eng decode_value
decode_array_tag eng decode_value Tag.packed_delta = dec_decode_packed_delta eng
decode_array_tag eng decode_value Tag.packed_affine = decode_packed_affine eng
decode_array_tag eng decode_value Tag.assoc = decode_assoc eng decode_value
decode_array_tag eng decode_value Tag.assoc_dict = decode_assoc_dict eng decode_value
decode_array_tag eng decode_value Tag.table = dec_decode_table eng decode_value
decode_array_tag eng decode_value Tag.rowset = dec_decode_rowset eng decode_value
decode_array_tag eng decode_value _ = fail

-- What a back reference to the id gives.
unfoldable pub slot_value : ℕ → IdSlot → M Value
slot_value id (id_ref loc) d = ok (Value.ref loc, record d { refs_seen = d.refs_seen + 1 })
slot_value id (id_arr v) d = ok (Value.shared id, d)
slot_value id id_null d = ok (Value.null, d)
slot_value id id_empty_arr d = ok (Value.empty_array, d)

unfoldable pub back_reference : ℕ → M Value
unfolding slot_value
back_reference id d = elim (get_elem? d.id_table id) [ none ↦ failed | some s ↦ slot_value id s d ]

unfoldable pub decode_ref : M Value
unfolding read_u64 back_reference
decode_ref = do id ← read_u64; back_reference id

-- A new cell, undefined until its value is decoded.
unfoldable pub new_cell : M ℕ
new_cell d = ok (length d.cells, record d { cells = d.cells ++ (Value.undef ∷ []) })

unfoldable pub count_ref : M (Unit {0})
count_ref d = ok (tt, record d { refs_seen = d.refs_seen + 1 })

unfoldable pub fill_cell : ℕ → Value → M (Unit {0})
fill_cell loc v d = ok (tt, record d { cells = set d.cells loc v })

unfoldable pub is_ref : Value → Bool
is_ref (Value.ref loc) = Bool.true
is_ref _ = Bool.false

unfoldable pub next_is_new_ref : List ℕ → Bool
next_is_new_ref [] = Bool.true
next_is_new_ref (b ∷ rest) = b == byte Tag.new_ref

-- A wrapper directly inside a wrapper is refused, before and after the inner value.
unfoldable pub decode_new_ref : M Value → M Value
unfolding new_cell count_ref fill_cell is_ref next_is_new_ref dec_register
decode_new_ref decode_value = do
  (λ d. require (not (next_is_new_ref d.rest)) d)
  loc ← new_cell
  dec_register (Value.ref loc)
  count_ref
  v ← decode_value
  require (not (is_ref v))
  fill_cell loc v
  pure (Value.ref loc)

unfoldable pub refs_so_far : M ℕ
refs_so_far d = ok (d.refs_seen, d)

unfoldable pub ids_so_far : M ℕ
ids_so_far d = ok (length d.id_table, d)

-- An array whose pointer later tags share; zend_empty_array has none.
unfoldable pub shared_value : ℕ → Value → Value
shared_value id Value.empty_array = Value.empty_array
shared_value id _ = Value.shared id

unfoldable pub array_of_byte : Engine → M Value → Option Tag → M Value
array_of_byte eng decode_value none = fail
array_of_byte eng decode_value (some tag) =
    if dec_is_array_tag tag then decode_array_tag eng decode_value tag else fail

-- The array is registered once it is complete, and it may hold no PHP reference.
unfoldable pub dec_decode_shared_array : Engine → M Value → M Value
unfolding read_byte refs_so_far ids_so_far shared_value array_of_byte decode_array_tag dec_register
dec_decode_shared_array eng decode_value = do
  refs_before ← refs_so_far
  tag ← read_byte
  v ← array_of_byte eng decode_value (tag_of_byte tag)
  refs_after ← refs_so_far
  require (refs_after == refs_before)
  id ← ids_so_far
  dec_register v
  pure (shared_value id v)

-- The switch. `decode_value` is the decoder one level further in.
unfoldable pub decode_tag : Engine → M Value → Option Tag → M Value
unfolding decode_ref decode_new_ref dec_decode_shared_array decode_array_tag decode_scalar_tag
decode_tag eng decode_value none = fail
decode_tag eng decode_value (some Tag.ref) = decode_ref
decode_tag eng decode_value (some Tag.new_ref) = decode_new_ref decode_value
decode_tag eng decode_value (some Tag.shared_array) = dec_decode_shared_array eng decode_value
decode_tag eng decode_value (some Tag.object) = λ d. beyond
decode_tag eng decode_value (some Tag.object_slots) = λ d. beyond
decode_tag eng decode_value (some Tag.object_magic) = λ d. beyond
decode_tag eng decode_value (some Tag.object_legacy) = λ d. beyond
decode_tag eng decode_value (some Tag.enum) = λ d. beyond
decode_tag eng decode_value (some tag) =
    if dec_is_scalar_tag tag
    then decode_scalar_tag eng tag
    else decode_array_tag eng decode_value tag

unfoldable pub decode_value_inner : Engine → M Value → M Value
unfolding read_byte decode_tag
decode_value_inner eng decode_value = do
  tag ← read_byte
  decode_tag eng decode_value (tag_of_byte tag)

abbrev pub max_depth : ℕ
max_depth = 512

-- `levels` is MAX_DEPTH - d->depth.
unfoldable pub decode_value : Engine → ℕ → M Value
decode_value eng zero = fail
decode_value eng (suc levels) = decode_value_inner eng (decode_value eng levels)
