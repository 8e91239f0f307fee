-- ===== src/Encode/Lists/Longs.antt =====
-- A list of longs under the tag that enc_pick_long_run_tag picks.
use phpser.Base.{
  ℕ, suc, ◌+◌, ◌-◌, ◌≤◌, ◌≡◌, refl, sym, ◌∙◌, ap, arith, true, false, ◌&&◌, ◌||◌, inl, inr, List,
  [], ◌∷◌, ◌++◌, length, append_assoc, append-nil, ltb, Bool-cases, All,
}
use phpser.Wire.{IsU64, varint_put, varint_write_i64}
use phpser.Tag
use phpser.Tag.{Tag, tag_of_byte, dec_is_scalar_tag}
use phpser.Php.{Value}
use phpser.Decode.Ctx.{Engine, Ctx, ok, ◌>>=◌, ◌>>◌, read_byte, first_byte, uint32_max}
use phpser.Decode.Array.{decode_value, decode_value_inner, decode_tag, decode_array_tag}
use phpser.Decode.Runs.{
  repeat, long_cell, delta_cells, charge_sublinear, decode_packed_affine, sublinear_max_elems,
}
use phpser.Encode.Memory.{Memory}
use phpser.Encode.Ctx.{Enc, emit_tag}
use phpser.Encode.Strings.Sound.{IsSound}
use phpser.Encode.Strings.Written.{emit_tag-Written}
use phpser.Encode.Runs.{
  sub64, write_longs, write_delta_run, is_affine, delta_or_longs, sublinear_fits,
  enc_pick_long_run_tag, delta_bytes, plain_bytes, long_len,
}
use phpser.Encode.Runs.Decoded.{
  at, long_items, longs-wrote, delta_run-wrote, affine-wrote, read_i64-wrote, write_longs-after,
  write_i64-after, write_delta_run-after,
}
use phpser.Encode.Runs.Choice.{run_bytes, sub64-IsU64, and_left, and_right, within}
use phpser.Encode.Array.{encode_longs}
use phpser.Encode.Lists.{after, Coded}
use phpser.Encode.Lists.Scalars.{read_u64-wrote}
use phpser.Encode.Lists.Coding.{Ready, free_Coded, head_Coded}
use phpser.Encode.Lists.Runs.{body-Written, longs_opened, delta_opened}

module _ (m : Memory) (eng : Engine) (wide : eng.zend_long_32 ≡ false) (levels : ℕ) (holds : List ℕ)
    (vs : List ℕ) (all : All IsU64 vs) (few : length vs ≤ uint32_max) where
  plain_Coded :
      (e : Enc)
      → Ready m holds e
      → Coded m
          (decode_value eng (suc levels))
          (Value.packed (long_items vs))
          1
          e
          (encode_longs Tag.packed_longs 0 vs (emit_tag (Tag.byte Tag.packed_longs) (length vs) e))
  unfolding encode_longs
  plain_Coded e ready =
      let w = emit_tag-Written m (Tag.byte Tag.packed_longs) (length vs) e ready.sound in
      let f = emit_tag (Tag.byte Tag.packed_longs) (length vs) e in
      head_Coded m (repeat (length vs) (long_cell eng)) _ (long_items vs) _ _ (length vs)
        (length vs) e f _ [] w
        (free_Coded m _ _ (length vs) f _ (write_longs vs []) []
          (body-Written m f _ _ f.wire_v2 w.tables (write_longs-after vs f.body)) ready.in_budget
          (run_bytes vs all).0 (λ d tail covers. longs-wrote eng wide d vs tail all))
        (λ d d' rest enough.
          longs_opened eng levels d d' (long_items vs) (length vs) rest few enough)

  delta_Coded :
      (e : Enc)
      → Ready m holds e
      → Coded m
          (decode_value eng (suc levels))
          (Value.packed (long_items vs))
          1
          e
          (encode_longs Tag.packed_delta 0 vs (emit_tag (Tag.byte Tag.packed_delta) (length vs) e))
  unfolding encode_longs
  delta_Coded e ready =
      let w = emit_tag-Written m (Tag.byte Tag.packed_delta) (length vs) e ready.sound in
      let f = emit_tag (Tag.byte Tag.packed_delta) (length vs) e in
      head_Coded m (delta_cells eng (length vs) 0) _ (long_items vs) _ _ (length vs) (length vs) e f
        _ [] w
        (free_Coded m _ _ (length vs) f _ (write_delta_run vs []) []
          (body-Written m f _ _ true w.tables (write_delta_run-after vs f.body)) ready.in_budget
          (run_bytes vs all).1 (λ d tail covers. delta_run-wrote eng wide d vs tail all))
        (λ d d' rest enough.
          delta_opened eng levels d d' (long_items vs) (length vs) rest few enough)

two_longs :
    (out : List ℕ) (v w : ℕ)
    → varint_write_i64 (varint_write_i64 out v) w
      ≡ out ++ (varint_write_i64 [] v ++ varint_write_i64 [] w)
two_longs out v w =
    write_i64-after (varint_write_i64 out v) w
    ∙ ap (λ b. b ++ varint_write_i64 [] w) (write_i64-after out v)
    ∙ append_assoc out (varint_write_i64 [] v) (varint_write_i64 [] w)

room_left :
    (n s : ℕ)
    → s + n ≤ sublinear_max_elems
    → (ltb sublinear_max_elems n || ltb (sublinear_max_elems - n) s) ≡ false
room_left n s h = ground arith

charge-fits :
    (n : ℕ) (d : Ctx)
    → d.sublinear_elems + n ≤ sublinear_max_elems
    → charge_sublinear n d ≡ ok (tt, record d { sublinear_elems = d.sublinear_elems + n })
unfolding charge_sublinear
charge-fits n d h = rw (charge_sublinear, room_left n d.sublinear_elems h) refl

module _ (m : Memory) (eng : Engine) (wide : eng.zend_long_32 ≡ false) (levels : ℕ) (holds : List ℕ)
    (v step : ℕ) (vs : List ℕ) (all : All IsU64 (v ∷ vs)) (step64 : IsU64 step)
    (constant : is_affine step v vs ≡ true) where
  affine_opened :
      (d : Ctx) (tail : List ℕ)
      → d.sublinear_elems + length (v ∷ vs) ≤ sublinear_max_elems
      → decode_value eng (suc levels) (
          at d (
            (Tag.byte Tag.packed_affine ∷ varint_put [] (length (v ∷ vs)))
            ++ (varint_write_i64 [] v ++ (varint_write_i64 [] step ++ tail))))
        ≡ ok (Value.packed (long_items (v ∷ vs)), after d tail (length (v ∷ vs)))
  unfolding decode_value decode_value_inner read_byte first_byte tag_of_byte decode_tag
      dec_is_scalar_tag decode_array_tag decode_packed_affine
  affine_opened d tail fits =
      let n = length (v ∷ vs) in
      let rest = varint_write_i64 [] v ++ (varint_write_i64 [] step ++ tail) in
      let charged = record d { sublinear_elems = d.sublinear_elems + n } in
      rw (◌>>=◌, read_u64-wrote d n rest (omega arith))
        (rw (◌>>=◌, ◌>>◌, charge-fits n (at d rest) fits)
          (rw (◌>>=◌, read_i64-wrote eng wide charged v (varint_write_i64 [] step ++ tail) all.0)
            (rw (◌>>=◌, read_i64-wrote eng wide charged step tail step64)
              (rw (◌>>=◌, affine-wrote eng wide (at charged tail) step v vs all.0 all.1 constant)
                refl))))

  affine_Coded :
      (e : Enc)
      → Ready m holds e
      → e.sublinear_elems + length (v ∷ vs) ≤ sublinear_max_elems
      → Coded m (decode_value eng (suc levels)) (Value.packed (long_items (v ∷ vs))) 1 e (
          encode_longs Tag.packed_affine step (v ∷ vs) (
            emit_tag
              (Tag.byte Tag.packed_affine)
              (length (v ∷ vs))
              (record e { sublinear_elems = e.sublinear_elems + length (v ∷ vs) })))
  unfolding encode_longs IsSound
  affine_Coded e ready fits =
      let n = length (v ∷ vs) in
      let head = Tag.byte Tag.packed_affine ∷ varint_put [] n in
      let f =
        emit_tag (Tag.byte Tag.packed_affine) n
          (record e { sublinear_elems = e.sublinear_elems + n }) in
      let w =
        emit_tag-Written m (Tag.byte Tag.packed_affine) n
          (record e { sublinear_elems = e.sublinear_elems + n }) ready.sound in
      record {
        out = head ++ (varint_write_i64 [] v ++ varint_write_i64 [] step);
        more = [];
        spent = n;
        written = record {
          body_written =
              two_longs f.body v step
              ∙ ap (λ b. b ++ (varint_write_i64 [] v ++ varint_write_i64 [] step)) w.body_written
              ∙ append_assoc e.body head (varint_write_i64 [] v ++ varint_write_i64 [] step);
          dict_grown = sym (append-nil e.dict);
          tables = ready.sound;
          budget = refl;
          held_alike = refl;
          depth_alike = refl;
          size_alike = refl;
          refs_alike = refl;
        };
        long_enough = omega arith;
        in_budget = fits;
        decodes = λ d tail covers same.
            rw (append_assoc head (varint_write_i64 [] v ++ varint_write_i64 [] step) tail) (
              rw (append_assoc (varint_write_i64 [] v) (varint_write_i64 [] step) tail)
                (affine_opened d tail (omega (arith, same))));
      }

module _ (m : Memory) (eng : Engine) (wide : eng.zend_long_32 ≡ false) (levels : ℕ)
    (holds : List ℕ) where
  linear_Coded :
      (v : ℕ) (vs : List ℕ) (e : Enc)
      → All IsU64 (v ∷ vs)
      → length (v ∷ vs) ≤ uint32_max
      → Ready m holds e
      → Coded m (decode_value eng (suc levels)) (Value.packed (long_items (v ∷ vs))) 1 e (
          encode_longs
            (delta_or_longs v vs)
            0
            (v ∷ vs)
            (emit_tag (Tag.byte (delta_or_longs v vs)) (length (v ∷ vs)) e))
  unfolding delta_or_longs
  linear_Coded v vs e all few ready =
      elim (Bool-cases (ltb (delta_bytes v vs (long_len v)) (plain_bytes vs (long_len v)))) [
        | inl less ↦ rw less (delta_Coded m eng wide levels holds (v ∷ vs) all few e ready)
        | inr more ↦ rw more (plain_Coded m eng wide levels holds (v ∷ vs) all few e ready)
      ]

  -- A list of longs is read back, whichever tag was picked.
  pub longs_Coded :
      (vs : List ℕ) (e : Enc)
      → All IsU64 vs
      → length vs ≤ uint32_max
      → Ready m holds e
      → Coded m (decode_value eng (suc levels)) (Value.packed (long_items vs)) 1 e (
          encode_longs (enc_pick_long_run_tag vs e).0 (enc_pick_long_run_tag vs e).1 vs (
            emit_tag
              (Tag.byte (enc_pick_long_run_tag vs e).0)
              (length vs)
              (enc_pick_long_run_tag vs e).2))
  unfolding enc_pick_long_run_tag
  longs_Coded [] e all few ready = plain_Coded m eng wide levels holds [] all few e ready
  longs_Coded (a ∷ []) e all few ready =
      plain_Coded m eng wide levels holds (a ∷ []) all few e ready
  longs_Coded (a ∷ b ∷ []) e all few ready =
      plain_Coded m eng wide levels holds (a ∷ b ∷ []) all few e ready
  longs_Coded (a ∷ b ∷ c ∷ []) e all few ready =
      plain_Coded m eng wide levels holds (a ∷ b ∷ c ∷ []) all few e ready
  longs_Coded (v ∷ w ∷ x ∷ y ∷ vs) e all few ready =
      elim (Bool-cases (
        is_affine (sub64 w v) v (w ∷ x ∷ y ∷ vs)
        && sublinear_fits (length (v ∷ w ∷ x ∷ y ∷ vs)) e)) [
          | inl affine ↦ rw affine (
              affine_Coded m eng wide levels holds v (sub64 w v) (w ∷ x ∷ y ∷ vs) all
                (sub64-IsU64 w v) (and_left _ _ affine) e ready (within _ e (and_right _ _ affine)))
          | inr linear ↦ rw linear (linear_Coded v (w ∷ x ∷ y ∷ vs) e all few ready)
        ]
