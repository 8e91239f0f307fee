-- ===== src/Encode/Runs/Choice.antt =====
-- The choice of a tag for a run of longs: the budget, and the sizes that are compared.
use phpser.Base.{
  ℕ, ◌+◌, ◌*◌, ◌%◌, ◌^◌, ◌<◌, ◌≤◌, ◌⊎◌, ◌≡◌, refl, arith, Bool, true, false, ◌&&◌, List, [], ◌∷◌,
  length, All, ltb, inl, inr, Bool-cases,
}
use phpser.Tag.{Tag}
use phpser.Wire.{IsU64, varint_write_i64, varint_write_u64, zigzag_encode64}
use phpser.Wire.Varint.Shortest.{length-varint_put}
use phpser.Wire.Zigzag.{zigzag_encode64-IsU64}
use phpser.Decode.Runs.{sublinear_max_elems}
use phpser.Encode.Ctx.{Enc}
use phpser.Encode.Runs.{
  sub64, long_len, write_longs, write_deltas, write_delta_run, plain_bytes, delta_bytes, is_affine,
  delta_or_longs, sublinear_fits, enc_pick_long_run_tag,
}

-- The bytes that the two writers append, without the wrap of uint32_t.
pub long_total : List ℕ → ℕ
long_total [] = 0
long_total (v ∷ vs) = long_len v + long_total vs

pub delta_total : ℕ → List ℕ → ℕ
delta_total prev [] = 0
delta_total prev (v ∷ vs) = long_len (sub64 v prev) + delta_total v vs

long_len_bounds : (v : ℕ) → IsU64 v → long_len v ≤ 10
unfolding long_len
long_len_bounds v h =
    let (_, _, most) = length-varint_put (zigzag_encode64 v) [] (zigzag_encode64-IsU64 v h) in most

length-write_i64 :
    (v : ℕ) (out : List ℕ) → IsU64 v → length (varint_write_i64 out v) ≡ length out + long_len v
unfolding varint_write_i64 varint_write_u64 long_len
length-write_i64 v out h =
    let (written, _, _) = length-varint_put (zigzag_encode64 v) out (zigzag_encode64-IsU64 v h) in
    written

pub sub64-IsU64 : (v prev : ℕ) → IsU64 (sub64 v prev)
unfolding sub64
sub64-IsU64 v prev = omega arith

pub length-write_longs :
    (vs out : List ℕ) → All IsU64 vs → length (write_longs vs out) ≡ length out + long_total vs
unfolding write_longs long_total
length-write_longs [] out h = omega arith
length-write_longs (v ∷ vs) out (hv, h) =
    omega (arith, length-write_longs vs (varint_write_i64 out v) h, length-write_i64 v out hv)

length-write_deltas :
    (prev : ℕ) (vs out : List ℕ)
    → length (write_deltas prev vs out) ≡ length out + delta_total prev vs
unfolding write_deltas delta_total
length-write_deltas prev [] out = omega arith
length-write_deltas prev (v ∷ vs) out = omega (
  arith,
  length-write_deltas v vs (varint_write_i64 out (sub64 v prev)),
  length-write_i64 (sub64 v prev) out (sub64-IsU64 v prev),
)

long_total_bounds : (vs : List ℕ) → All IsU64 vs → long_total vs ≤ 10 * length vs
unfolding long_total
long_total_bounds [] h = omega arith
long_total_bounds (v ∷ vs) (hv, h) = omega (arith, long_len_bounds v hv, long_total_bounds vs h)

delta_total_bounds : (prev : ℕ) (vs : List ℕ) → delta_total prev vs ≤ 10 * length vs
unfolding delta_total
delta_total_bounds prev [] = omega arith
delta_total_bounds prev (v ∷ vs) =
    omega (arith, long_len_bounds (sub64 v prev) (sub64-IsU64 v prev), delta_total_bounds v vs)

long_len_positive : (v : ℕ) → IsU64 v → 1 ≤ long_len v
unfolding long_len
long_len_positive v h =
    let (_, least, _) = length-varint_put (zigzag_encode64 v) [] (zigzag_encode64-IsU64 v h) in
    least

long_total_positive : (vs : List ℕ) → All IsU64 vs → length vs ≤ long_total vs
unfolding long_total
long_total_positive [] h = omega arith
long_total_positive (v ∷ vs) (hv, h) =
    omega (arith, long_len_positive v hv, long_total_positive vs h)

delta_total_positive : (prev : ℕ) (vs : List ℕ) → length vs ≤ delta_total prev vs
unfolding delta_total
delta_total_positive prev [] = omega arith
delta_total_positive prev (v ∷ vs) =
    omega (arith, long_len_positive (sub64 v prev) (sub64-IsU64 v prev), delta_total_positive v vs)

-- Below 2 ^ 32 the sums do not wrap.
plain_bytes-total :
    (vs : List ℕ) (n : ℕ) → n + long_total vs < 2 ^ 32 → plain_bytes vs n ≡ n + long_total vs
unfolding plain_bytes long_total
plain_bytes-total [] n h = omega arith
plain_bytes-total (v ∷ vs) n h =
    omega (arith, plain_bytes-total vs ((n + long_len v) % 2 ^ 32) (omega arith))

delta_bytes-total :
    (prev : ℕ) (vs : List ℕ) (n : ℕ)
    → n + delta_total prev vs < 2 ^ 32
    → delta_bytes prev vs n ≡ n + delta_total prev vs
unfolding delta_bytes delta_total
delta_bytes-total prev [] n h = omega arith
delta_bytes-total prev (v ∷ vs) n h =
    omega (arith, delta_bytes-total v vs ((n + long_len (sub64 v prev)) % 2 ^ 32) (omega arith))

pub and_left : (a b : Bool) → (a && b) ≡ true → a ≡ true
and_left true b e = refl
and_left false b e = e

pub and_right : (a b : Bool) → (a && b) ≡ true → b ≡ true
and_right true b e = e
and_right false b e = cc

pub within :
    (n : ℕ) (e : Enc) → sublinear_fits n e ≡ true → e.sublinear_elems + n ≤ sublinear_max_elems
unfolding sublinear_fits
within n e fits = ground arith

shorter :
    (len n d p dt pt ld lp : ℕ)
    → ltb d p ≡ true
    → d ≡ n + dt
    → p ≡ n + pt
    → ld ≡ len + dt
    → lp ≡ len + pt
    → ld < lp
shorter len n d p dt pt ld lp less e1 e2 e3 e4 = ground arith

longer :
    (len n d p dt pt ld lp : ℕ)
    → ltb d p ≡ false
    → d ≡ n + dt
    → p ≡ n + pt
    → ld ≡ len + dt
    → lp ≡ len + pt
    → lp ≤ ld
longer len n d p dt pt ld lp more e1 e2 e3 e4 = ground arith

-- The budget is kept, whatever the run is.
pub enc_pick_long_run_tag-budget :
    (vs : List ℕ) (e : Enc)
    → e.sublinear_elems ≤ sublinear_max_elems
    → (enc_pick_long_run_tag vs e).2.sublinear_elems ≤ sublinear_max_elems
unfolding enc_pick_long_run_tag sublinear_fits
enc_pick_long_run_tag-budget [] e h = h
enc_pick_long_run_tag-budget (a ∷ []) e h = h
enc_pick_long_run_tag-budget (a ∷ b ∷ []) e h = h
enc_pick_long_run_tag-budget (a ∷ b ∷ c ∷ []) e h = h
enc_pick_long_run_tag-budget (v ∷ w ∷ x ∷ y ∷ vs) e h =
    elim (Bool-cases (
      is_affine (sub64 w v) v (w ∷ x ∷ y ∷ vs) && sublinear_fits (length (v ∷ w ∷ x ∷ y ∷ vs)) e)) [
        | inl affine ↦ rw affine (within (length (v ∷ w ∷ x ∷ y ∷ vs)) e (and_right _ _ affine))
        | inr linear ↦ rw linear h
      ]

-- A comparison of the sums is one of the lengths.
pub sized_choice :
    (v : ℕ) (vs : List ℕ)
    → All IsU64 (v ∷ vs)
    → 10 * length (v ∷ vs) < 2 ^ 32
    → ((delta_or_longs v vs ≡ Tag.packed_delta)
        × (length (write_delta_run (v ∷ vs) []) < length (write_longs (v ∷ vs) [])))
      ⊎ ((delta_or_longs v vs ≡ Tag.packed_longs)
          × (length (write_longs (v ∷ vs) []) ≤ length (write_delta_run (v ∷ vs) [])))
unfolding delta_or_longs write_delta_run write_longs
sized_choice v vs (hv, h) few =
    let plain =
      plain_bytes-total vs (long_len v)
        (omega (arith, long_len_bounds v hv, long_total_bounds vs h)) in
    let delta =
      delta_bytes-total v vs (long_len v)
        (omega (arith, long_len_bounds v hv, delta_total_bounds v vs)) in
    let longs = length-write_longs vs (varint_write_i64 [] v) h in
    let deltas = length-write_deltas v vs (varint_write_i64 [] v) in
    elim (Bool-cases (ltb (delta_bytes v vs (long_len v)) (plain_bytes vs (long_len v)))) [
      | inl less ↦ inl (rw less refl, shorter _ _ _ _ _ _ _ _ less delta plain deltas longs)
      | inr more ↦ inr (rw more refl, longer _ _ _ _ _ _ _ _ more delta plain deltas longs)
    ]

length-write_delta_run : (vs : List ℕ) → All IsU64 vs → length vs ≤ length (write_delta_run vs [])
unfolding write_delta_run
length-write_delta_run [] h = omega arith
length-write_delta_run (v ∷ vs) (hv, h) = omega (
  arith,
  length-write_deltas v vs (varint_write_i64 [] v),
  length-write_i64 v [] hv,
  long_len_positive v hv,
  delta_total_positive v vs,
)

-- Every number of a run takes a byte at least.
pub run_bytes :
    (vs : List ℕ)
    → All IsU64 vs
    → (length vs ≤ length (write_longs vs [])) × (length vs ≤ length (write_delta_run vs []))
run_bytes vs h = (
  omega (arith, length-write_longs vs [] h, long_total_positive vs h),
  length-write_delta_run vs h,
)
