-- ===== src/Encode/Table/Allowance.antt =====
-- The allowance for the rows of tables: the test that enc_try_table makes, and its own charge.
use phpser.Base.{ℕ, ◌-◌, ◌*◌, ◌/◌, ◌≤◌, ◌≡◌, arith, true}
use native.Mathlib.Nat.{div-add-mod, mul-le-mul_right}
use phpser.Decode.Frame.{materialize_allowance}
use phpser.Encode.Ctx.{Enc}
use phpser.Encode.Table.{row_excess, excess_fits, table_fits, charge_table}

quotient_bound : (n a x : ℕ) → n ≤ a / x → n * x ≤ a
quotient_bound n a x h = omega (arith, mul-le-mul_right x h, div-add-mod a x)

excess_fits-bound :
    (excess available n : ℕ) → excess_fits excess available n ≡ true → n * excess ≤ available
unfolding excess_fits
excess_fits-bound excess available n h = ground (arith, quotient_bound n available excess)

-- A table that the test of enc_try_table lets through is charged within the allowance of 16 MiB, if
-- the charges before it were.
pub charge_table-allowance :
    (ncols n_used : ℕ) (e : Enc)
    → e.materialization_excess ≤ materialize_allowance
    → table_fits ncols n_used e ≡ true
    → (charge_table ncols n_used e).materialization_excess ≤ materialize_allowance
unfolding table_fits charge_table
charge_table-allowance ncols n_used e h fits = ground (
  arith,
  excess_fits-bound (row_excess ncols) (materialize_allowance - e.materialization_excess) n_used,
)
