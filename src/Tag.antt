-- ===== src/Tag.antt =====
-- The wire's tags: phpser.c, the TAG_ and KEY_ constants, and the tests on them.
use phpser.Base.{ℕ, Bool, List, [], ◌∷◌, Option, get_elem?}

pub data Tag : Type 0 where
  null false true long double str_dict assoc packed_mixed packed_longs packed_doubles : Tag
  object packed_strings str_inline enum object_magic object_legacy ref new_ref : Tag
  object_slots assoc_dict rowset table packed_delta packed_affine shared_array : Tag

-- The tags in the order of their bytes, from 0x00 on.
abbrev pub tags : List Tag
tags =
    Tag.null ∷ Tag.false ∷ Tag.true ∷ Tag.long ∷ Tag.double ∷ Tag.str_dict ∷ Tag.assoc
    ∷ Tag.packed_mixed ∷ Tag.packed_longs ∷ Tag.packed_doubles ∷ Tag.object ∷ Tag.packed_strings
    ∷ Tag.str_inline ∷ Tag.enum ∷ Tag.object_magic ∷ Tag.object_legacy ∷ Tag.ref ∷ Tag.new_ref
    ∷ Tag.object_slots ∷ Tag.assoc_dict ∷ Tag.rowset ∷ Tag.table ∷ Tag.packed_delta
    ∷ Tag.packed_affine ∷ Tag.shared_array ∷ []

-- `none` is a byte that no TAG_ constant has; every switch over tags sends it to its default.
unfoldable pub tag_of_byte : ℕ → Option Tag
tag_of_byte b = get_elem? tags b

abbrev pub byte : Tag → ℕ
byte Tag.null = 0x00
byte Tag.false = 0x01
byte Tag.true = 0x02
byte Tag.long = 0x03
byte Tag.double = 0x04
byte Tag.str_dict = 0x05
byte Tag.assoc = 0x06
byte Tag.packed_mixed = 0x07
byte Tag.packed_longs = 0x08
byte Tag.packed_doubles = 0x09
byte Tag.object = 0x0a
byte Tag.packed_strings = 0x0b
byte Tag.str_inline = 0x0c
byte Tag.enum = 0x0d
byte Tag.object_magic = 0x0e
byte Tag.object_legacy = 0x0f
byte Tag.ref = 0x10
byte Tag.new_ref = 0x11
byte Tag.object_slots = 0x12
byte Tag.assoc_dict = 0x13
byte Tag.rowset = 0x14
byte Tag.table = 0x15
byte Tag.packed_delta = 0x16
byte Tag.packed_affine = 0x17
byte Tag.shared_array = 0x18

-- The fixed-width and dictionary leaves.
unfoldable pub dec_is_scalar_tag : Tag → Bool
dec_is_scalar_tag Tag.null = Bool.true
dec_is_scalar_tag Tag.false = Bool.true
dec_is_scalar_tag Tag.true = Bool.true
dec_is_scalar_tag Tag.long = Bool.true
dec_is_scalar_tag Tag.double = Bool.true
dec_is_scalar_tag Tag.str_dict = Bool.true
dec_is_scalar_tag Tag.str_inline = Bool.true
dec_is_scalar_tag _ = Bool.false

-- Tags whose value is always an array.
unfoldable pub dec_is_array_tag : Tag → Bool
dec_is_array_tag Tag.assoc = Bool.true
dec_is_array_tag Tag.packed_mixed = Bool.true
dec_is_array_tag Tag.packed_longs = Bool.true
dec_is_array_tag Tag.packed_doubles = Bool.true
dec_is_array_tag Tag.packed_strings = Bool.true
dec_is_array_tag Tag.assoc_dict = Bool.true
dec_is_array_tag Tag.rowset = Bool.true
dec_is_array_tag Tag.table = Bool.true
dec_is_array_tag Tag.packed_delta = Bool.true
dec_is_array_tag Tag.packed_affine = Bool.true
dec_is_array_tag _ = Bool.false

-- KEY_LONG, KEY_STR, KEY_STR_INLINE
abbrev pub key_long : ℕ
key_long = 0x00

abbrev pub key_str : ℕ
key_str = 0x01

abbrev pub key_str_inline : ℕ
key_str_inline = 0x02
