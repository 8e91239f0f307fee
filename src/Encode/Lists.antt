-- ===== src/Encode/Lists.antt =====
-- Nested lists: the values of null, booleans, longs, doubles, strings and lists of these, each list
-- with one holder. What they mean to the decoder, and what it takes for the decoder to read a part
-- of the body back.
pub mod Scalars
pub mod Coding
pub mod Strings
pub mod Runs
pub mod Longs
pub mod Doubles
pub mod Arrays
pub mod Dense
pub mod Whole
use phpser.Base.{
  ℕ, zero, suc, ◌+◌, ◌^◌, ◌<◌, ◌≤◌, ◌≡◌, Bool, List, [], ◌∷◌, ◌++◌, some, length, get_elem?,
}
use phpser.Wire.{IsU64}
use phpser.Php.{Value, Items, item}
use phpser.Decode.Ctx.{Engine, Ctx, Zstr, Outcome, ok, M, uint32_max}
use phpser.Decode.Array.{decode_value}
use phpser.Decode.Runs.{sublinear_max_elems}
use phpser.Encode.Memory.{
  Memory, Zval, undef, null, long, double, str, arr, ref, HashTable, packed, hashed, Cells, nil,
  cell, cell_list,
}
use phpser.Encode.Ctx.{Enc}
use phpser.Encode.Strings.{too_long}
use phpser.Encode.Strings.Sound.{IsSound}
use phpser.Encode.Strings.Written.{Written}
use phpser.Encode.Table.{count}

-- `levels` deep at most; no list is held by anything else, or stands in itself.
unfoldable mutual
  pub IsListed : Memory → ℕ → List ℕ → Zval → Type 0
  IsListed m zero holds v = ⊥
  IsListed m (suc levels) holds (arr p (packed cs)) =
      (m.is_immutable p ≡ Bool.false)
      × (m.refcount p ≤ 1)
      × (count holds p ≡ 0)
      × (length (cell_list cs) ≤ uint32_max)
      × AreListed m levels (p ∷ holds) cs
  IsListed m (suc levels) holds (arr p (hashed es)) = ⊥
  IsListed m (suc levels) holds (ref r) = ⊥
  IsListed m (suc levels) holds undef = ⊥
  IsListed m (suc levels) holds (long v) = IsU64 v
  IsListed m (suc levels) holds (double v) = IsU64 v
  IsListed m (suc levels) holds (str zs) = too_long m zs ≡ Bool.false
  IsListed m (suc levels) holds v = Unit

  pub AreListed : Memory → ℕ → List ℕ → Cells → Type 0
  AreListed m levels holds nil = Unit
  AreListed m levels holds (cell v cs) = IsListed m levels holds v × AreListed m levels holds cs

-- The value without its addresses.
unfoldable mutual
  pub value_of : Memory → Zval → Value
  value_of m (arr p (packed nil)) = Value.empty_array
  value_of m (arr p (packed (cell v cs))) =
      Value.packed (item (value_of m v) (values_of_cells m cs))
  value_of m (long v) = Value.long v
  value_of m (double v) = Value.double v
  value_of m (str zs) = Value.str (m.bytes_at zs)
  value_of m Zval.true = Value.true
  value_of m Zval.false = Value.false
  value_of m _ = Value.null

  pub values_of_cells : Memory → Cells → Items
  values_of_cells m nil = Items.nil
  values_of_cells m (cell v cs) = item (value_of m v) (values_of_cells m cs)

-- The decoder's dictionary begins with the strings of the encoder's.
pub record Covers (m : Memory) (dict : List ℕ) (zstrs : List Zstr) : Type 0 where
  pub small : length zstrs < 2 ^ 64
  pub entries :
      (i q : ℕ)
      → get_elem? dict i ≡ some q
      → (z : Zstr) × (get_elem? zstrs i ≡ some z) × (z.bytes ≡ m.bytes_at q)

-- The decoder at the end of what was written, its budget charged as the encoder's was.
abbrev pub after : Ctx → List ℕ → ℕ → Ctx
after d tail spent = record d { rest = tail; sublinear_elems = d.sublinear_elems + spent }

-- From e to e' the encoder wrote what `decode` reads as `a`.
pub record Coded (m : Memory) {A : Type 0} (decode : M A) (a : A) (least : ℕ) (e e' : Enc)
    : Type 0 where
  pub out : List ℕ
  pub more : List ℕ
  pub spent : ℕ
  pub written : Written m e e' out more spent
  pub long_enough : least ≤ length out
  pub in_budget : e'.sublinear_elems ≤ sublinear_max_elems
  pub decodes :
      (d : Ctx) (tail : List ℕ)
      → Covers m e'.dict d.dict
      → d.sublinear_elems ≡ e.sublinear_elems
      → decode (record d { rest = out ++ tail }) ≡ ok (a, after d tail spent)
