-- ===== src/Decode/Scalar.antt =====
-- decode_scalar_tag, decode_key and dec_register.
use phpser.Base.{ℕ, [], ◌∷◌, ◌++◌, if◌then◌else◌, leb, ◌==◌}
use phpser.Php.{Value}
use phpser.Tag.{Tag, key_long, key_str, key_str_inline}
use phpser.Wire.{le64_read}
use phpser.Decode.Ctx.{
  Engine, Zstr, IdSlot, id_ref, id_arr, id_null, id_empty_arr, M, ◌>>=◌, ◌>>◌, pure, fail, require,
  remaining, read_byte, read_u64, read_long, take_bytes, dec_get_zstr, read_counted_bytes,
  dec_string_init, ok,
}

-- `if (d->pos + 8 > d->len) return -1;` and le64_read
unfoldable pub read_double : M ℕ
unfolding take_bytes
read_double = do
  left ← remaining
  require (leb 8 left)
  bytes ← take_bytes 8
  pure (le64_read bytes)

-- The tag's byte has been read. A tag that is no scalar is refused.
unfoldable pub decode_scalar_tag : Engine → Tag → M Value
unfolding read_double read_long dec_get_zstr read_counted_bytes read_u64
decode_scalar_tag eng Tag.null = pure Value.null
decode_scalar_tag eng Tag.false = pure Value.false
decode_scalar_tag eng Tag.true = pure Value.true
decode_scalar_tag eng Tag.long = do pure (Value.long (← read_long eng))
decode_scalar_tag eng Tag.double = do pure (Value.double (← read_double))
decode_scalar_tag eng Tag.str_dict = do
  idx ← read_u64
  zs ← dec_get_zstr idx
  pure (Value.str zs.bytes)
decode_scalar_tag eng Tag.str_inline = do pure (Value.str (← read_counted_bytes))
decode_scalar_tag eng _ = fail

-- key_val: an integer, or a string whether of the dictionary or new.
pub data KeyVal : Type 0 where
  kv_long : ℕ → KeyVal
  kv_str : Zstr → KeyVal

unfoldable pub key_of_tag : Engine → ℕ → M KeyVal
unfolding read_long dec_get_zstr read_counted_bytes read_u64 dec_string_init
key_of_tag eng tag =
    if tag == key_long
    then (do pure (kv_long (← read_long eng)))
    else if tag == key_str
    then (do idx ← read_u64; zs ← dec_get_zstr idx; pure (kv_str zs))
    else if tag == key_str_inline
    then (do bytes ← read_counted_bytes; zs ← dec_string_init bytes; pure (kv_str zs))
    else fail

unfoldable pub decode_key : Engine → M KeyVal
unfolding key_of_tag read_byte
decode_key eng = do tag ← read_byte; key_of_tag eng tag

unfoldable pub id_slot_of : Value → IdSlot
id_slot_of (Value.ref loc) = id_ref loc
id_slot_of Value.empty_array = id_empty_arr
id_slot_of (Value.packed vs) = id_arr (Value.packed vs)
id_slot_of (Value.hash bs) = id_arr (Value.hash bs)
id_slot_of _ = id_null

-- The next id goes to `z`. The table grows without bound, so growth is not visible.
unfoldable pub dec_register : Value → M (Unit {0})
unfolding id_slot_of
dec_register z d = ok (tt, record d { id_table = d.id_table ++ (id_slot_of z ∷ []) })
