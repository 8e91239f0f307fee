-- ===== src/Decode/Ctx.antt =====
-- decode_ctx, its reads, and the outcome of a decoding step.
-- The build is the one where ZEND_HAS_OOM is not defined: PHPSER_HAS_OOM() is 0 there, and the
-- allocations of the decoder do not fail.
use phpser.Base.{
  ℕ, ◌+◌, ◌-◌, Bool, true, false, not, ◌^◌, ◌&&◌, ◌||◌, List, [], ◌∷◌, Option, some, none,
  if◌then◌else◌, ltb, leb, ◌==◌, length, take, drop, get_elem?, bytes_eq,
}
use phpser.Php.{Value}
use phpser.Wire.{varint_read_u64, varint_read_i64}

-- What the Zend engine computes for the decoder.
pub record Engine : Type 0 where
  -- zend_string_hash_val
  pub hash : List ℕ → ℕ
  -- ZEND_HANDLE_NUMERIC: the integer key that a string stands for
  pub handle_numeric : List ℕ → Option ℕ
  -- whether the engine holds an interned string of these bytes
  pub is_interned : List ℕ → Bool
  -- the number of hash slots of a table made for so many elements (-nTableMask)
  pub table_slots : ℕ → ℕ
  -- SIZEOF_ZEND_LONG == 4
  pub zend_long_32 : Bool

-- The address of a zend_string: that of the engine's interned string of its bytes, or its own.
pub data Address : Type 0 where
  interned : Address
  owned : ℕ → Address

pub record Zstr : Type 0 where
  pub address : Address
  pub bytes : List ℕ

-- `a == b` of two zend_string pointers.
unfoldable pub same_address : Address → Address → Bool
same_address interned interned = true
same_address interned (owned n) = false
same_address (owned m) interned = false
same_address (owned m) (owned n) = m == n

unfoldable pub same_pointer : Zstr → Zstr → Bool
unfolding same_address
same_pointer a b = same_address a.address b.address && bytes_eq a.bytes b.bytes

-- id_slot, without objects.
pub data IdSlot : Type 0 where
  id_ref : ℕ → IdSlot
  id_arr : Value → IdSlot
  id_null id_empty_arr : IdSlot

-- `rest` is what lies from `pos` to `len`; `cells` holds the values of the references made so far,
-- and `owned_strings` counts the strings allocated. `depth` is an argument of the functions.
pub record Ctx : Type 0 where
  pub rest : List ℕ
  pub dict : List Zstr
  pub owned_strings : ℕ
  pub id_table : List IdSlot
  pub cells : List Value
  pub sublinear_elems : ℕ
  pub materialize_left : ℕ
  pub compare_left : ℕ
  pub refs_seen : ℕ

-- `failed` is the return of -1; `beyond` is an object tag, where the model ends.
pub data Outcome {ℓ} (A : Type ℓ) : Type ℓ where
  ok : A → Outcome A
  failed beyond : Outcome A

abbrev pub M {ℓ} : Type ℓ → Type ℓ
M A = Ctx → Outcome (A × Ctx)

infixl 5 ◌>>=◌ ◌>>◌
abbrev pub ◌>>=◌ {ℓ κ} : {A : Type ℓ} {B : Type κ} → M A → (A → M B) → M B
◌>>=◌ m f d = elim (m d) [ ok (a, d') ↦ f a d' | failed ↦ failed | beyond ↦ beyond ]

abbrev pub ◌>>◌ {ℓ κ} : {A : Type ℓ} {B : Type κ} → M A → M B → M B
m >> k = m >>= λ _. k

abbrev pub pure {ℓ} : {A : Type ℓ} → A → M A
pure a d = ok (a, d)

abbrev pub fail {ℓ} : {A : Type ℓ} → M A
fail d = failed

-- `if (!test) return -1;`
unfoldable pub require : Bool → M (Unit {0})
require true d = ok (tt, d)
require false d = failed

-- `d->len - d->pos`
abbrev pub remaining : M ℕ
remaining d = ok (length d.rest, d)

unfoldable pub advance : Ctx → Option (ℕ × List ℕ) → Outcome (ℕ × Ctx)
advance d none = failed
advance d (some (v, rest)) = ok (v, record d { rest = rest })

unfoldable pub read_u64 : M ℕ
unfolding advance
read_u64 d = advance d (varint_read_u64 d.rest)

unfoldable pub read_i64 : M ℕ
unfolding advance
read_i64 d = advance d (varint_read_i64 d.rest)

-- `if (d->pos >= d->len) return -1; tag = d->buf[d->pos++];`
unfoldable pub first_byte : Ctx → List ℕ → Outcome (ℕ × Ctx)
first_byte d [] = failed
first_byte d (b ∷ rest) = ok (b, record d { rest = rest })

unfoldable pub read_byte : M ℕ
unfolding first_byte
read_byte d = first_byte d d.rest

-- `n` bytes from the cursor on, which a test before has found to be there.
unfoldable pub take_bytes : ℕ → M (List ℕ)
take_bytes n d = ok (take n d.rest, record d { rest = drop n d.rest })

abbrev pub uint32_max : ℕ
uint32_max = 0xffff_ffff

-- dec_get_zstr: the index is compared with dict_len before anything else.
unfoldable pub dec_get_zstr : ℕ → M Zstr
dec_get_zstr idx d = elim (get_elem? d.dict idx) [ none ↦ failed | some s ↦ ok (s, d) ]

-- varint(len), then as many bytes: `if (slen > UINT32_MAX || slen > d->len - d->pos) return -1;`
unfoldable pub read_counted_bytes : M (List ℕ)
unfolding read_u64 take_bytes
read_counted_bytes = do
  slen ← read_u64
  left ← remaining
  require (leb slen uint32_max && leb slen left)
  take_bytes slen

-- dec_string_init: always a new string.
unfoldable pub dec_string_init : List ℕ → M Zstr
dec_string_init bytes d = ok (
  record { address = owned d.owned_strings; bytes = bytes },
  record d { owned_strings = d.owned_strings + 1 },
)

-- dec_string_init_existing_interned: the engine's string if there is one.
unfoldable pub dec_string_init_existing_interned : Engine → List ℕ → M Zstr
unfolding dec_string_init
dec_string_init_existing_interned eng bytes =
    if eng.is_interned bytes
    then pure (record { address = interned; bytes = bytes })
    else dec_string_init bytes

-- Budgets for comparisons.
unfoldable pub dec_charge_comparison : ℕ → M (Unit {0})
dec_charge_comparison bytes d =
    if ltb d.compare_left bytes
    then failed
    else ok (tt, record d { compare_left = d.compare_left - bytes })

unfoldable pub dec_strings_equal : Engine → Zstr → Zstr → M Bool
unfolding same_pointer dec_charge_comparison
dec_strings_equal eng a b =
    if same_pointer a b
    then pure true
    else if not (length a.bytes == length b.bytes && eng.hash a.bytes == eng.hash b.bytes)
    then pure false
    else if ltb 64 (length a.bytes)
    then (dec_charge_comparison (length a.bytes) >> pure (bytes_eq a.bytes b.bytes))
    else pure (bytes_eq a.bytes b.bytes)

-- A 32-bit zend_long holds the patterns of -2^31 to 2^31 - 1; a 64-bit one holds every int64_t.
unfoldable pub dec_i64_fits_zend_long : Engine → ℕ → Bool
dec_i64_fits_zend_long eng v =
    if eng.zend_long_32 then ltb v (2 ^ 31) || leb (2 ^ 64 - 2 ^ 31) v else true

-- A varint_read_i64 whose value must fit a zend_long.
unfoldable pub read_long : Engine → M ℕ
unfolding read_i64 dec_i64_fits_zend_long
read_long eng = do v ← read_i64; require (dec_i64_fits_zend_long eng v); pure v
