-- ===== src/Decode/Bounded/Graph.antt =====
-- The arms for arrays pay for what they make.
use phpser.Base.{ℕ, suc, ◌+◌, ◌/◌, arith, Option, some, none, leb, ◌&&◌}
use phpser.Php.{Value, Items}
use phpser.Tag.{Tag, dec_is_array_tag}
use phpser.Decode.Ctx.{Engine, M, ◌>>=◌, pure, require, remaining, uint32_max, read_u64, read_i64}
use phpser.Decode.Runs.{
  repeat, double_cell, charge_sublinear, affine_cells, read_count, decode_packed_longs,
  decode_packed_doubles, decode_packed_strings, decode_packed_mixed, dec_decode_packed_delta,
  decode_packed_affine,
}
use phpser.Decode.Array.{decode_array_tag, array_of_byte}
use phpser.Decode.Spends.{
  size, size_items, Spends, Spends-bind, Spends-pure, Spends-require, Spends-remaining,
  Spends-read_u64, Spends-read_i64, Spends-if, Spends-fail,
}
use phpser.Decode.Mass.{
  Spends-long_cell, Spends-double_cell, Spends-string_cell, Spends-delta_cells, Spends-repeat,
  Spends-charge_sublinear, Spends-affine_cells,
}
use phpser.Decode.Bounded.{Spends-decode_value_hot, Spends-decode_assoc}
use phpser.Decode.Bounded.Rows.{Spends-decode_assoc_dict}
use phpser.Decode.Bounded.Tables.{Spends-dec_decode_table, Spends-dec_decode_rowset}

Spends-read_count : (c : ℕ) → Spends c read_count (λ _. c + 2)
unfolding read_count
Spends-read_count c =
    Spends-bind read_u64 _ c (λ _. c + 2) _ (Spends-read_u64 c)
      λ n.
        Spends-bind remaining _ (c + 2) (λ _. c + 2) _ (Spends-remaining (c + 2))
          λ left.
            Spends-bind (require (leb n uint32_max && leb n left)) _ (c + 2) (λ _. c + 2) _
              (Spends-require _ (c + 2)) λ _. Spends-pure n (c + 2) _ (omega arith)

-- A counted run of cells, from the two credits of its tag.
counted :
    (run : ℕ → M Items)
    → ((n : ℕ) → Spends 4 (run n) (λ vs. 4 + (n + size_items vs)))
    → Spends 2 (do n ← read_count; pure (Value.packed (← run n))) (λ v. suc (size v))
counted run h =
    Spends-bind read_count _ 2 (λ _. 4) _ (Spends-read_count 2)
      λ n.
        Spends-bind (run n) _ 4 (λ vs. 4 + (n + size_items vs)) _ (h n)
          λ vs. Spends-pure (Value.packed vs) _ _ (omega arith)

Spends-decode_packed_doubles : Spends 2 decode_packed_doubles (λ v. suc (size v))
unfolding decode_packed_doubles
Spends-decode_packed_doubles =
    Spends-bind read_u64 _ 2 (λ _. 4) _ (Spends-read_u64 2)
      λ n.
        Spends-bind remaining _ 4 (λ _. 4) _ (Spends-remaining 4)
          λ left.
            Spends-bind (require (leb n uint32_max && leb n (left / 8))) _ 4 (λ _. 4) _
              (Spends-require _ 4)
              λ _.
                Spends-bind (repeat n double_cell) _ 4 (λ vs. 4 + (n + size_items vs)) _
                  (Spends-repeat n _ 4 Spends-double_cell)
                  λ vs. Spends-pure (Value.packed vs) _ _ (omega arith)

Spends-decode_packed_affine :
    (eng : Engine) → Spends 2 (decode_packed_affine eng) (λ v. suc (size v))
unfolding decode_packed_affine
Spends-decode_packed_affine eng =
    Spends-bind read_u64 _ 2 (λ _. 4) _ (Spends-read_u64 2)
      λ n.
        Spends-bind (charge_sublinear n) _ 4 (λ _. 4 + n) _ (Spends-charge_sublinear n 4)
          λ _.
            Spends-bind read_i64 _ _ (λ _. 4 + n + 2) _ (Spends-read_i64 (4 + n))
              λ b.
                Spends-bind read_i64 _ _ (λ _. 4 + n + 2 + 2) _ (Spends-read_i64 (4 + n + 2))
                  λ s.
                    Spends-bind (affine_cells eng n b s) _ _ (λ vs. 8 + size_items vs) _
                      (λ d vs d' e. omega (arith, Spends-affine_cells eng n b s 8 d vs d' e))
                      λ vs. Spends-pure (Value.packed vs) _ _ (omega arith)

module _ (eng : Engine) (decode_value : M Value)
    (pays : Spends 0 decode_value (λ v. suc (size v))) where
  pub Spends-decode_array_tag :
      (tag : Tag) → Spends 2 (decode_array_tag eng decode_value tag) (λ v. suc (size v))
  unfolding decode_array_tag decode_packed_longs decode_packed_strings decode_packed_mixed
      dec_decode_packed_delta
  Spends-decode_array_tag Tag.packed_longs =
      counted _ (λ n. Spends-repeat n _ 4 (Spends-long_cell eng))
  Spends-decode_array_tag Tag.packed_doubles = Spends-decode_packed_doubles
  Spends-decode_array_tag Tag.packed_strings =
      counted _ (λ n. Spends-repeat n _ 4 Spends-string_cell)
  Spends-decode_array_tag Tag.packed_mixed =
      counted _ (λ n. Spends-repeat n _ 4 (Spends-decode_value_hot eng decode_value pays))
  Spends-decode_array_tag Tag.packed_delta = counted _ (λ n. Spends-delta_cells eng n 0 4)
  Spends-decode_array_tag Tag.packed_affine = Spends-decode_packed_affine eng
  Spends-decode_array_tag Tag.assoc = Spends-decode_assoc eng decode_value pays
  Spends-decode_array_tag Tag.assoc_dict = Spends-decode_assoc_dict eng decode_value pays
  Spends-decode_array_tag Tag.table = Spends-dec_decode_table eng decode_value pays
  Spends-decode_array_tag Tag.rowset = Spends-dec_decode_rowset eng decode_value pays
  Spends-decode_array_tag _ = Spends-fail 2 _

  pub Spends-array_of_byte :
      (t : Option Tag) → Spends 2 (array_of_byte eng decode_value t) (λ v. suc (size v))
  unfolding array_of_byte
  Spends-array_of_byte none = Spends-fail 2 _
  Spends-array_of_byte (some t) =
      Spends-if (dec_is_array_tag t) _ _ 2 _ (Spends-decode_array_tag t) (Spends-fail 2 _)
