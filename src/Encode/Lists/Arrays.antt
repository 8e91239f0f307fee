-- ===== src/Encode/Lists/Arrays.antt =====
-- The arrays of a nested list, and the whole of it.
use phpser.Base.{
  ℕ, zero, suc, ◌≡◌, refl, ap, arith, false, List, [], ◌∷◌, ◌++◌, Option, some, none, length, All,
  take, set,
}
use phpser.Wire.{IsU64}
use phpser.Php.{Value, item}
use phpser.Encode.Memory.{
  Memory, Zval, undef, long, double, Cells, nil, cell, cell_list, live_cells, is_undef,
}
use phpser.Encode.Runs.{all_longs, all_doubles, cons_payload}
use phpser.Encode.Runs.Decoded.{long_items}
use phpser.Encode.Lists.{IsListed, AreListed, value_of, values_of_cells}
use phpser.Encode.Lists.Doubles.{double_items}

pub take_all : (zs : List Zval) → take (length zs) zs ≡ zs
take_all [] = refl
take_all (z ∷ zs) = ap (λ r. z ∷ r) (take_all zs)

pub set-append :
    (xs : List ℕ) (y z : ℕ) (ys : List ℕ) → set (xs ++ (y ∷ ys)) (length xs) z ≡ xs ++ (z ∷ ys)
set-append [] y z ys = refl
set-append (x ∷ xs) y z ys = ap (λ r. x ∷ r) (set-append xs y z ys)

listed_live :
    (m : Memory) (levels : ℕ) (holds : List ℕ) (v : Zval)
    → IsListed m levels holds v
    → is_undef v ≡ false
unfolding is_undef IsListed
listed_live m zero holds v h = absurd h
listed_live m (suc levels) holds undef h = absurd h
listed_live m (suc levels) holds _ h = refl

pub listed_long :
    (m : Memory) (levels : ℕ) (holds : List ℕ) (v : ℕ) → IsListed m levels holds (long v) → IsU64 v
unfolding IsListed
listed_long m zero holds v h = absurd h
listed_long m (suc levels) holds v h = h

pub listed_double :
    (m : Memory) (levels : ℕ) (holds : List ℕ) (v : ℕ)
    → IsListed m levels holds (double v)
    → IsU64 v
unfolding IsListed
listed_double m zero holds v h = absurd h
listed_double m (suc levels) holds v h = h

cons_payload-some :
    (v : ℕ) (o : Option (List ℕ)) (vs : List ℕ)
    → cons_payload v o ≡ some vs
    → (ws : List ℕ) × (o ≡ some ws) × (vs ≡ v ∷ ws)
unfolding cons_payload
cons_payload-some v none vs e = absurd (cc)
cons_payload-some v (some ws) vs e = (ws, refl, cc)

module _ (m : Memory) (levels : ℕ) (holds : List ℕ) where
  pub live_cells-length :
      (cs : Cells) → AreListed m levels holds cs → live_cells (cell_list cs) ≡ length (cell_list cs)
  unfolding live_cells cell_list AreListed
  live_cells-length nil h = refl
  live_cells-length (cell v cs) (hv, h) =
      rw (listed_live m levels holds v hv) (omega (arith, live_cells-length cs h))

  -- When every cell is a long, the run is what the cells mean.
  pub all_longs-values :
      (cs : Cells) (vs : List ℕ)
      → AreListed m levels holds cs
      → all_longs (cell_list cs) ≡ some vs
      → (values_of_cells m cs ≡ long_items vs) × All IsU64 vs × (length (cell_list cs) ≡ length vs)
  unfolding all_longs cell_list AreListed values_of_cells value_of long_items
  all_longs-values nil [] h e = (refl, tt, refl)
  all_longs-values nil (v ∷ vs) h e = absurd (cc)
  all_longs-values (cell (long v) cs) vs (hv, h) e =
      let (ws, e', same) = cons_payload-some v (all_longs (cell_list cs)) vs e in
      let (values, all, len) = all_longs-values cs ws h e' in
      rw same
        (ap (λ r. item (Value.long v) r) values, (listed_long m levels holds v hv, all), ap suc len)
  all_longs-values (cell _ cs) vs h e = absurd (cc)

  pub all_doubles-values :
      (cs : Cells) (vs : List ℕ)
      → AreListed m levels holds cs
      → all_doubles (cell_list cs) ≡ some vs
      → (values_of_cells m cs ≡ double_items vs)
        × All IsU64 vs
        × (length (cell_list cs) ≡ length vs)
  unfolding all_doubles cell_list AreListed values_of_cells value_of double_items
  all_doubles-values nil [] h e = (refl, tt, refl)
  all_doubles-values nil (v ∷ vs) h e = absurd (cc)
  all_doubles-values (cell (double v) cs) vs (hv, h) e =
      let (ws, e', same) = cons_payload-some v (all_doubles (cell_list cs)) vs e in
      let (values, all, len) = all_doubles-values cs ws h e' in
      rw same (
        ap (λ r. item (Value.double v) r) values,
        (listed_double m levels holds v hv, all),
        ap suc len,
      )
  all_doubles-values (cell _ cs) vs h e = absurd (cc)
