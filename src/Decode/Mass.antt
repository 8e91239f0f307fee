-- ===== src/Decode/Mass.antt =====
-- Every step of the decoder pays for what it makes.
use phpser.Base.{ℕ, zero, suc, ◌+◌, arith, leb, ◌&&◌, length-drop_bytes}
use phpser.Php.{Value, nil, item}
use phpser.Tag.{Tag}
use phpser.Decode.Ctx.{
  Engine, M, require, remaining, uint32_max, read_u64, read_i64, read_long, dec_get_zstr,
  read_counted_bytes,
}
use phpser.Decode.Scalar.{decode_scalar_tag, read_double}
use phpser.Decode.Runs.{
  repeat, long_cell, double_cell, string_cell, delta_cells, charge_sublinear, affine_cells,
}
use phpser.Decode.Spends.{
  size, size_items, Spends, Spends-bind, Spends-pure, Spends-require, Spends-remaining,
  Spends-read_u64, Spends-read_i64, Spends-take_bytes, Spends-dec_get_zstr, Spends-frame,
}

pub Spends-read_long : (eng : Engine) (c : ℕ) → Spends c (read_long eng) (λ _. c + 2)
unfolding read_long
Spends-read_long eng c =
    Spends-bind read_i64 _ c (λ _. c + 2) _ (Spends-read_i64 c)
      λ v.
        Spends-bind (require _) _ (c + 2) (λ _. c + 2) _ (Spends-require _ (c + 2))
          λ _. Spends-pure v (c + 2) (λ _. c + 2) (omega arith)

pub Spends-read_double : (c : ℕ) → Spends c read_double (λ _. c + 2)
unfolding read_double require
Spends-read_double c d a d' e = ground (arith, length-drop_bytes 8 d.rest)

pub Spends-read_counted_bytes : (c : ℕ) → Spends c read_counted_bytes (λ _. c + 2)
unfolding read_counted_bytes
Spends-read_counted_bytes c =
    Spends-bind read_u64 _ c (λ _. c + 2) _ (Spends-read_u64 c)
      λ n.
        Spends-bind remaining _ (c + 2) (λ _. c + 2) _ (Spends-remaining (c + 2))
          λ left.
            Spends-bind (require (leb n uint32_max && leb n left)) _ (c + 2) (λ _. c + 2) _
              (Spends-require _ (c + 2)) λ _. Spends-take_bytes n (c + 2)

-- The tag has been read, and its two credits pay for the value and one more.
pub Spends-decode_scalar_tag :
    (eng : Engine) (tag : Tag) (c : ℕ)
    → Spends (c + 2) (decode_scalar_tag eng tag) (λ v. c + suc (size v))
unfolding decode_scalar_tag
Spends-decode_scalar_tag eng Tag.null c = Spends-pure _ (c + 2) _ (omega arith)
Spends-decode_scalar_tag eng Tag.false c = Spends-pure _ (c + 2) _ (omega arith)
Spends-decode_scalar_tag eng Tag.true c = Spends-pure _ (c + 2) _ (omega arith)
Spends-decode_scalar_tag eng Tag.long c =
    Spends-bind (read_long eng) _ (c + 2) (λ _. c + 2 + 2) _ (Spends-read_long eng (c + 2))
      λ v. Spends-pure _ (c + 2 + 2) _ (omega arith)
Spends-decode_scalar_tag eng Tag.double c =
    Spends-bind read_double _ (c + 2) (λ _. c + 2 + 2) _ (Spends-read_double (c + 2))
      λ v. Spends-pure _ (c + 2 + 2) _ (omega arith)
Spends-decode_scalar_tag eng Tag.str_dict c =
    Spends-bind read_u64 _ (c + 2) (λ _. c + 2 + 2) _ (Spends-read_u64 (c + 2))
      λ idx.
        Spends-bind (dec_get_zstr idx) _ (c + 2 + 2) (λ _. c + 2 + 2) _
          (Spends-dec_get_zstr idx (c + 2 + 2)) λ zs. Spends-pure _ (c + 2 + 2) _ (omega arith)
Spends-decode_scalar_tag eng Tag.str_inline c =
    Spends-bind read_counted_bytes _ (c + 2) (λ _. c + 2 + 2) _ (Spends-read_counted_bytes (c + 2))
      λ v. Spends-pure _ (c + 2 + 2) _ (omega arith)
Spends-decode_scalar_tag eng _ c = λ d a d' e. cc

pub Spends-long_cell : (eng : Engine) → Spends 0 (long_cell eng) (λ v. suc (size v))
unfolding long_cell
Spends-long_cell eng =
    Spends-bind (read_long eng) _ 0 (λ _. 2) _ (Spends-read_long eng 0)
      λ v. Spends-pure _ 2 _ (omega arith)

pub Spends-double_cell : Spends 0 double_cell (λ v. suc (size v))
unfolding double_cell
Spends-double_cell =
    Spends-bind read_double _ 0 (λ _. 2) _ (Spends-read_double 0)
      λ v. Spends-pure _ 2 _ (omega arith)

pub Spends-string_cell : Spends 0 string_cell (λ v. suc (size v))
unfolding string_cell
Spends-string_cell =
    Spends-bind read_u64 _ 0 (λ _. 2) _ (Spends-read_u64 0)
      λ idx.
        Spends-bind (dec_get_zstr idx) _ 2 (λ _. 2) _ (Spends-dec_get_zstr idx 2)
          λ zs. Spends-pure _ 2 _ (omega arith)

-- A run of cells is paid for cell by cell, with one credit over for each.
pub Spends-repeat :
    (n : ℕ) (cell : M Value) (c : ℕ)
    → Spends 0 cell (λ v. suc (size v))
    → Spends c (repeat n cell) (λ vs. c + (n + size_items vs))
unfolding repeat
Spends-repeat zero cell c h = Spends-pure nil c _ (omega arith)
Spends-repeat (suc n) cell c h =
    Spends-bind cell _ c (λ v. c + suc (size v)) _ (Spends-frame cell _ c h)
      λ v.
        Spends-bind (repeat n cell) _ _ (λ vs. c + suc (size v) + (n + size_items vs)) _
          (Spends-repeat n cell (c + suc (size v)) h)
          λ vs. Spends-pure (item v vs) _ _ (omega arith)

pub Spends-delta_cells :
    (eng : Engine) (n acc c : ℕ) → Spends c (delta_cells eng n acc) (λ vs. c + (n + size_items vs))
unfolding delta_cells
Spends-delta_cells eng zero acc c = Spends-pure nil c _ (omega arith)
Spends-delta_cells eng (suc n) acc c =
    Spends-bind read_i64 _ c (λ _. c + 2) _ (Spends-read_i64 c)
      λ dv.
        Spends-bind (require _) _ (c + 2) (λ _. c + 2) _ (Spends-require _ (c + 2))
          λ _.
            Spends-bind (delta_cells eng n _) _ (c + 2) (λ vs. c + 2 + (n + size_items vs)) _
              (Spends-delta_cells eng n _ (c + 2)) λ vs. Spends-pure _ _ _ (omega arith)

pub Spends-charge_sublinear : (n c : ℕ) → Spends c (charge_sublinear n) (λ _. c + n)
unfolding charge_sublinear
Spends-charge_sublinear n c d a d' e = ground arith

pub Spends-affine_cells :
    (eng : Engine) (n acc step c : ℕ)
    → Spends (c + n) (affine_cells eng n acc step) (λ vs. c + size_items vs)
unfolding affine_cells
Spends-affine_cells eng zero acc step c = Spends-pure nil (c + 0) _ (omega arith)
Spends-affine_cells eng (suc n) acc step c =
    Spends-bind (require _) _ (c + suc n) (λ _. c + suc n) _ (Spends-require _ (c + suc n))
      λ _.
        Spends-bind (affine_cells eng n _ step) _ _ (λ vs. c + 1 + size_items vs) _
          (λ d vs d' e. omega (arith, Spends-affine_cells eng n _ step (c + 1) d vs d' e))
          λ vs. Spends-pure _ _ _ (omega arith)
