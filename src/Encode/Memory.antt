-- ===== src/Encode/Memory.antt =====
-- The values that the encoder walks: zvals without objects, with the addresses that it compares.
use phpser.Base.{ℕ, ◌+◌, Bool, List, [], ◌∷◌, if◌then◌else◌, length}

-- A bucket's key: an integer (a 64-bit pattern), or the address of a string.
pub data EntryKey : Type 0 where
  index : ℕ → EntryKey
  name : ℕ → EntryKey

-- A string and a reference are addresses; an array is its address and its table. A table is packed
-- or a list of buckets, and `undef` is a hole in it.
mutual
  pub data Zval : Type 0 where
    undef null false true : Zval
    long double : ℕ → Zval
    str : ℕ → Zval
    arr : ℕ → HashTable → Zval
    ref : ℕ → Zval

  pub data HashTable : Type 0 where
    packed : Cells → HashTable
    hashed : Entries → HashTable

  pub data Cells : Type 0 where
    nil : Cells
    cell : Zval → Cells → Cells

  pub data Entries : Type 0 where
    end : Entries
    entry : EntryKey → Zval → Entries → Entries

unfoldable pub cell_list : Cells → List Zval
cell_list nil = []
cell_list (cell v cs) = v ∷ cell_list cs

unfoldable pub entry_list : Entries → List (EntryKey × Zval)
entry_list end = []
entry_list (entry k v es) = (k, v) ∷ entry_list es

-- What stands at the addresses. No user code runs in a walk without objects, so it stays.
pub record Memory : Type 0 where
  -- ZSTR_VAL with ZSTR_LEN, and ZSTR_IS_INTERNED
  pub bytes_at : ℕ → List ℕ
  pub is_interned : ℕ → Bool
  -- zend_string_hash_val, ZEND_HANDLE_NUMERIC, and the hash slots of a table of so many elements
  pub hash : List ℕ → ℕ
  pub is_numeric : List ℕ → Bool
  pub table_slots : ℕ → ℕ
  -- GC_IMMUTABLE of an array, GC_REFCOUNT of it before the walk, and what zend_array_dup makes
  pub is_immutable : ℕ → Bool
  pub refcount : ℕ → ℕ
  pub array_dup : ℕ → HashTable → HashTable
  -- the value of a zend_reference
  pub ref_value : ℕ → Zval

-- nNumUsed and nNumOfElements
unfoldable pub is_undef : Zval → Bool
is_undef undef = Bool.true
is_undef _ = Bool.false

unfoldable pub live_cells : List Zval → ℕ
unfolding is_undef
live_cells [] = 0
live_cells (v ∷ vs) = if is_undef v then live_cells vs else live_cells vs + 1

-- The buckets that are no hole.
unfoldable pub live : List (EntryKey × Zval) → List (EntryKey × Zval)
unfolding is_undef
live [] = []
live (kv ∷ kvs) = let rest = live kvs in if is_undef kv.1 then rest else kv ∷ rest

unfoldable pub num_elements : HashTable → ℕ
unfolding live_cells live cell_list entry_list
num_elements (packed cs) = live_cells (cell_list cs)
num_elements (hashed es) = length (live (entry_list es))
