-- ===== src/Encode/Frame/Parts.antt =====
-- The parts of a frame: its size test, its dictionary as the decoder has read it, what follows its
-- header.
use phpser.Base.{
  ℕ, zero, suc, ◌+◌, ◌<◌, ◌≤◌, ◌≡◌, refl, ap, arith, Bool, true, false, not, ◌&&◌, ◌==◌, List, [],
  ◌∷◌, ◌++◌, some, length, map, get_elem?,
}
use phpser.Decode.Ctx.{Engine, Ctx, Zstr, ok, failed, ◌>>=◌, ◌>>◌, require, uint32_max}
use phpser.Decode.Array.{decode_value, max_depth}
use phpser.Decode.Frame.{graph_of, unwrap, exactly_read, decode_frame, decode_header}
use phpser.Encode.Memory.{
  Memory, Zval, undef, null, long, double, str, arr, ref, packed, hashed, nil, cell,
}
use phpser.Encode.Frame.{frame_ok, framed, frame_overflows, header_len, put_header}
use phpser.Encode.Lists.{value_of, Covers}

covered :
    (m : Memory) (dict : List ℕ) (zs : List Zstr)
    → map (λ z. z.bytes) zs ≡ map m.bytes_at dict
    → (i q : ℕ) → get_elem? dict i ≡ some q
    → (z : Zstr) × (get_elem? zs i ≡ some z) × (z.bytes ≡ m.bytes_at q)
covered m [] zs same i q e = cc
covered m (p ∷ dict) [] same i q e = cc
covered m (p ∷ dict) (z ∷ zs) same zero q e = (z, refl, cc)
covered m (p ∷ dict) (z ∷ zs) same (suc i) q e =
    let tails : map (λ z. z.bytes) zs ≡ map m.bytes_at dict = cc in covered m dict zs tails i q e

map-length : {A B : Type 0} (f : A → B) (xs : List A) → length (map f xs) ≡ length xs
map-length f [] = refl
map-length f (x ∷ xs) = ap suc (map-length f xs)

pub read-Covers :
    (m : Memory) (dict : List ℕ) (zs : List Zstr)
    → map (λ z. z.bytes) zs ≡ map m.bytes_at dict
    → length (map m.bytes_at dict) < uint32_max
    → Covers m dict zs
read-Covers m dict zs same few = record {
  small = omega (arith, few, ap length same, map-length (λ (z : Zstr). z.bytes) zs);
  entries = covered m dict zs same;
}

-- A nested list is no reference.
unwrap-value_of : (m : Memory) (v : Zval) → unwrap [] (value_of m v) ≡ value_of m v
unfolding unwrap value_of
unwrap-value_of m undef = refl
unwrap-value_of m null = refl
unwrap-value_of m Zval.true = refl
unwrap-value_of m Zval.false = refl
unwrap-value_of m (long v) = refl
unwrap-value_of m (double v) = refl
unwrap-value_of m (str zs) = refl
unwrap-value_of m (arr p (packed nil)) = refl
unwrap-value_of m (arr p (packed (cell v cs))) = refl
unwrap-value_of m (arr p (hashed es)) = refl
unwrap-value_of m (ref r) = refl

pub framed-frame_ok :
    (tail_reserve : ℕ) (wire_v2 : Bool) (dict : List (List ℕ)) (body : List ℕ)
    → header_len dict + length body < uint32_max
    → tail_reserve ≤ uint32_max
    → framed tail_reserve wire_v2 dict body ≡ frame_ok (put_header wire_v2 dict ++ body)
unfolding framed frame_overflows
framed-frame_ok tail_reserve wire_v2 dict body small reserve = ground arith

-- After the header comes the value, and then what is left over is tested.
module _ (m : Memory) (eng : Engine) (d d' : Ctx) (v : Zval) (last : Ctx)
    (header : decode_header eng d ≡ ok (tt, d'))
    (value : decode_value eng max_depth d' ≡ ok (value_of m v, last)) (exact : Bool) where
  pub frame_read :
      (exact && not (length last.rest == 0)) ≡ false
      → last.cells ≡ []
      → last.id_table ≡ []
      → decode_frame eng exact d
        ≡ ok (record { value = value_of m v; cells = []; id_table = [] }, last)
  unfolding decode_frame exactly_read graph_of require
  frame_read used cells shared =
      rw (◌>>=◌, ◌>>◌, header)
        (rw (◌>>=◌, value) (rw (◌>>=◌, ◌>>◌, used, cells, shared, unwrap-value_of m v) refl))

  pub frame_refused :
      (exact && not (length last.rest == 0)) ≡ true → decode_frame eng exact d ≡ failed
  unfolding decode_frame exactly_read require
  frame_refused left = rw (◌>>=◌, ◌>>◌, header) (rw (◌>>=◌, value) (rw (◌>>=◌, ◌>>◌, left) refl))

pub left_over : (b : ℕ) (tail : List ℕ) → (true && not (length (b ∷ tail) == 0)) ≡ true
left_over b tail = ground arith
