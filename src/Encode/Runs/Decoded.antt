-- ===== src/Encode/Runs/Decoded.antt =====
-- What the decoder reads where the encoder wrote a run.
use phpser.Base.{
  ℕ, suc, ◌+◌, ◌%◌, ◌^◌, ◌≡◌, refl, sym, ◌∙◌, ap, arith, true, false, List, [], ◌∷◌, ◌++◌, length,
  All, append_assoc, append-nil,
}
use phpser.Php.{Value, Items, nil, item}
use phpser.Wire.{IsU64, varint_write_i64, varint_write_u64, zigzag_encode64}
use phpser.Wire.Varint.{varint_read_i64-write_i64}
use phpser.Decode.Ctx.{
  Engine, Ctx, ok, ◌>>=◌, ◌>>◌, require, read_i64, advance, read_long, dec_i64_fits_zend_long,
}
use phpser.Decode.Runs.{repeat, long_cell, delta_cells, affine_cells}
use phpser.Encode.Strings.Written.{varint_put-after}
use phpser.Encode.Runs.{sub64, write_longs, write_deltas, write_delta_run, is_affine}

-- The decoder's state with the cursor before `tail`.
abbrev pub at : Ctx → List ℕ → Ctx
at d tail = record d { rest = tail }

unfoldable pub long_items : List ℕ → Items
long_items [] = nil
long_items (v ∷ vs) = item (Value.long v) (long_items vs)

pub write_i64-after : (out : List ℕ) (v : ℕ) → varint_write_i64 out v ≡ out ++ varint_write_i64 [] v
unfolding varint_write_i64 varint_write_u64
write_i64-after out v = varint_put-after out (zigzag_encode64 v)

pub write_longs-after : (vs out : List ℕ) → write_longs vs out ≡ out ++ write_longs vs []
unfolding write_longs
write_longs-after [] out = sym (append-nil out)
write_longs-after (v ∷ vs) out =
    write_longs-after vs (varint_write_i64 out v)
    ∙ ap (λ b. b ++ write_longs vs []) (write_i64-after out v)
    ∙ append_assoc out (varint_write_i64 [] v) (write_longs vs [])
    ∙ ap (λ b. out ++ b) (sym (write_longs-after vs (varint_write_i64 [] v)))

pub write_deltas-after :
    (prev : ℕ) (vs out : List ℕ) → write_deltas prev vs out ≡ out ++ write_deltas prev vs []
unfolding write_deltas
write_deltas-after prev [] out = sym (append-nil out)
write_deltas-after prev (v ∷ vs) out =
    write_deltas-after v vs (varint_write_i64 out (sub64 v prev))
    ∙ ap (λ b. b ++ write_deltas v vs []) (write_i64-after out (sub64 v prev))
    ∙ append_assoc out (varint_write_i64 [] (sub64 v prev)) (write_deltas v vs [])
    ∙ ap (λ b. out ++ b) (sym (write_deltas-after v vs (varint_write_i64 [] (sub64 v prev))))

module _ (eng : Engine) (wide : eng.zend_long_32 ≡ false) where
  fits : (v : ℕ) → dec_i64_fits_zend_long eng v ≡ true
  unfolding dec_i64_fits_zend_long
  fits v = rw wide refl

  pub read_i64-wrote :
      (d : Ctx) (v : ℕ) (tail : List ℕ)
      → IsU64 v
      → read_i64 (at d (varint_write_i64 [] v ++ tail)) ≡ ok (v, at d tail)
  unfolding read_i64 advance
  read_i64-wrote d v tail h = rw (varint_read_i64-write_i64 v tail h) refl

  pub read_long-wrote :
      (d : Ctx) (v : ℕ) (tail : List ℕ)
      → IsU64 v
      → read_long eng (at d (varint_write_i64 [] v ++ tail)) ≡ ok (v, at d tail)
  unfolding read_long require
  read_long-wrote d v tail h =
      rw (◌>>=◌, read_i64-wrote d v tail h) (rw (◌>>=◌, ◌>>◌, require, fits v) refl)

  long_cell-wrote :
      (d : Ctx) (v : ℕ) (tail : List ℕ)
      → IsU64 v
      → long_cell eng (at d (varint_write_i64 [] v ++ tail)) ≡ ok (Value.long v, at d tail)
  unfolding long_cell
  long_cell-wrote d v tail h = rw (◌>>=◌, read_long-wrote d v tail h) refl

  longs_split :
      (v : ℕ) (vs tail : List ℕ)
      → write_longs (v ∷ vs) [] ++ tail ≡ varint_write_i64 [] v ++ (write_longs vs [] ++ tail)
  unfolding write_longs
  longs_split v vs tail =
      ap (λ b. b ++ tail) (write_longs-after vs (varint_write_i64 [] v))
      ∙ append_assoc (varint_write_i64 [] v) (write_longs vs []) tail

  longs_nil :
      (d : Ctx) (tail : List ℕ)
      → repeat 0 (long_cell eng) (at d (write_longs [] [] ++ tail)) ≡ ok (nil, at d tail)
  unfolding repeat write_longs
  longs_nil d tail = refl

  pub longs-wrote :
      (d : Ctx) (vs tail : List ℕ)
      → All IsU64 vs
      → repeat (length vs) (long_cell eng) (at d (write_longs vs [] ++ tail))
        ≡ ok (long_items vs, at d tail)
  unfolding repeat long_items
  longs-wrote d [] tail h = longs_nil d tail
  longs-wrote d (v ∷ vs) tail (hv, h) = rw (longs_split v vs tail) (
      rw (◌>>=◌, long_cell-wrote d v (write_longs vs [] ++ tail) hv)
        (rw (◌>>=◌, longs-wrote d vs tail h) refl))

  -- The differences add up again, wrapping.
  sum_back : (prev v : ℕ) → IsU64 prev → IsU64 v → (prev + sub64 v prev) % 2 ^ 64 ≡ v
  unfolding sub64
  sum_back prev v hp hv = omega arith

  sub64-IsU64 : (v prev : ℕ) → IsU64 (sub64 v prev)
  unfolding sub64
  sub64-IsU64 v prev = omega arith

  deltas_split :
      (first prev : ℕ) (vs tail : List ℕ)
      → write_deltas prev vs (varint_write_i64 [] first) ++ tail
        ≡ varint_write_i64 [] first ++ (write_deltas prev vs [] ++ tail)
  deltas_split first prev vs tail =
      ap (λ b. b ++ tail) (write_deltas-after prev vs (varint_write_i64 [] first))
      ∙ append_assoc (varint_write_i64 [] first) (write_deltas prev vs []) tail

  -- One difference, and the cells after it.
  delta_cell-wrote :
      (d : Ctx) (prev dv v n : ℕ) (vs : Items) (d' : Ctx) (tail : List ℕ)
      → IsU64 dv
      → (prev + dv) % 2 ^ 64 ≡ v
      → delta_cells eng n v (at d tail) ≡ ok (vs, d')
      → delta_cells eng (suc n) prev (at d (varint_write_i64 [] dv ++ tail))
        ≡ ok (item (Value.long v) vs, d')
  unfolding delta_cells require
  delta_cell-wrote d prev dv v n vs d' tail h sum rest =
      rw (◌>>=◌, read_i64-wrote d dv tail h)
        (rw (◌>>=◌, ◌>>◌, require, sum) (rw (fits v) (rw sum (rw (◌>>=◌, rest) refl))))

  deltas-wrote :
      (d : Ctx) (prev : ℕ) (vs tail : List ℕ)
      → IsU64 prev
      → All IsU64 vs
      → delta_cells eng (length vs) prev (at d (write_deltas prev vs [] ++ tail))
        ≡ ok (long_items vs, at d tail)
  unfolding delta_cells write_deltas long_items
  deltas-wrote d prev [] tail hp h = refl
  deltas-wrote d prev (v ∷ vs) tail hp (hv, h) = rw (deltas_split (sub64 v prev) v vs tail) (
      delta_cell-wrote d prev (sub64 v prev) v (length vs) (long_items vs) (at d tail)
        (write_deltas v vs [] ++ tail) (sub64-IsU64 v prev) (sum_back prev v hp hv)
        (deltas-wrote d v vs tail hv h))

  from_zero : (v : ℕ) → IsU64 v → (0 + v) % 2 ^ 64 ≡ v
  from_zero v h = omega arith

  -- The first value is a difference from zero.
  pub delta_run-wrote :
      (d : Ctx) (vs tail : List ℕ)
      → All IsU64 vs
      → delta_cells eng (length vs) 0 (at d (write_delta_run vs [] ++ tail))
        ≡ ok (long_items vs, at d tail)
  unfolding delta_cells write_delta_run long_items
  delta_run-wrote d [] tail h = refl
  delta_run-wrote d (v ∷ vs) tail (hv, h) = rw (deltas_split v v vs tail) (
      delta_cell-wrote d 0 v v (length vs) (long_items vs) (at d tail)
        (write_deltas v vs [] ++ tail) hv (from_zero v hv) (deltas-wrote d v vs tail hv h))

  step_forward : (step v w : ℕ) → IsU64 v → IsU64 w → sub64 w v ≡ step → (v + step) % 2 ^ 64 ≡ w
  unfolding sub64
  step_forward step v w hv hw e = omega arith

  affine_cell-wrote :
      (d : Ctx) (step v w n : ℕ) (vs : Items)
      → (v + step) % 2 ^ 64 ≡ w
      → affine_cells eng n w step d ≡ ok (vs, d)
      → affine_cells eng (suc n) v step d ≡ ok (item (Value.long v) vs, d)
  unfolding affine_cells require
  affine_cell-wrote d step v w n vs sum rest =
      rw (◌>>=◌, ◌>>◌, require, fits v) (rw (◌>>=◌, sum, rest) refl)

  -- A run with one step is computed from its first value.
  pub affine-wrote :
      (d : Ctx) (step v : ℕ) (vs : List ℕ)
      → IsU64 v
      → All IsU64 vs
      → is_affine step v vs ≡ true
      → affine_cells eng (length (v ∷ vs)) v step d ≡ ok (long_items (v ∷ vs), d)
  unfolding affine_cells is_affine long_items
  affine-wrote d step v [] hv h e = affine_cell-wrote d step v ((v + step) % 2 ^ 64) 0 nil refl refl
  affine-wrote d step v (w ∷ vs) hv (hw, h) e =
      let same : sub64 w v ≡ step = ground arith in
      affine_cell-wrote d step v w (length (w ∷ vs)) (long_items (w ∷ vs))
        (step_forward step v w hv hw same) (affine-wrote d step w vs hw h (ground arith))

pub write_delta_run-after :
    (vs out : List ℕ) → write_delta_run vs out ≡ out ++ write_delta_run vs []
unfolding write_delta_run
write_delta_run-after [] out = sym (append-nil out)
write_delta_run-after (v ∷ vs) out =
    write_deltas-after v vs (varint_write_i64 out v)
    ∙ ap (λ b. b ++ write_deltas v vs []) (write_i64-after out v)
    ∙ append_assoc out (varint_write_i64 [] v) (write_deltas v vs [])
    ∙ ap (λ b. out ++ b) (sym (write_deltas-after v vs (varint_write_i64 [] v)))
