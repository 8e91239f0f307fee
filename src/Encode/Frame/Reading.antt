-- ===== src/Encode/Frame/Reading.antt =====
-- A frame that phpser_encode_zval_ex makes of a nested list, as phpser_decode_buf_opts reads it.
use phpser.Base.{
  ℕ, ◌<◌, ◌≤◌, ◌≡◌, refl, sym, ◌∙◌, ap, arith, true, false, List, [], ◌∷◌, ◌++◌, length, map,
  append-nil, append_assoc, length-append,
}
use phpser.Decode.Ctx.{Engine, Ctx, ok, failed, uint32_max}
use phpser.Decode.Array.{decode_value, max_depth}
use phpser.Decode.Frame.{decode_frame, decode_header, initial_ctx, phpser_decode_buf_opts}
use phpser.Encode.Memory.{Memory, Zval}
use phpser.Encode.Ctx.{Enc, enc_ctx_init}
use phpser.Encode.Strings.Sound.{IsSound}
use phpser.Encode.Runs.Decoded.{at}
use phpser.Encode.Value.{encode_value_ex}
use phpser.Encode.Frame.{
  frame_ok, finish_frame, phpser_encode_zval_ex, init_cap, dict_bytes, put_header,
}
use phpser.Encode.Frame.Header.{small_header, length-put_header, HasRead, header-wrote}
use phpser.Encode.Lists.{IsListed, value_of, after, Coded}
use phpser.Encode.Lists.Coding.{Ready}
use phpser.Encode.Lists.Whole.{encode_value_ex-Coded}
use phpser.Encode.Frame.Parts.{read-Covers, framed-frame_ok, left_over, frame_read, frame_refused}

-- What the encoder has written when it comes to the frame, and the frame.
abbrev written_of : Memory → Zval → Enc
written_of m v = encode_value_ex m max_depth false v (enc_ctx_init (init_cap m v))

abbrev pub frame_of : Memory → Zval → List ℕ
frame_of m v =
    put_header (written_of m v).wire_v2 (dict_bytes m (written_of m v)) ++ (written_of m v).body

fresh-Ready : (m : Memory) (n : ℕ) → Ready m [] (enc_ctx_init n)
unfolding IsSound
fresh-Ready m n = record { sound = (tt, tt); in_budget = omega arith; holding = refl }

module _ (m : Memory) (eng : Engine) (wide : eng.zend_long_32 ≡ false) (v : Zval)
    (listed : IsListed m max_depth [] v) (small : length (frame_of m v) < uint32_max) where
  coded :
      Coded m
        (decode_value eng max_depth)
        (value_of m v)
        1
        (enc_ctx_init (init_cap m v))
        (written_of m v)
  coded =
      encode_value_ex-Coded m eng max_depth [] v (enc_ctx_init (init_cap m v)) wide listed
        (fresh-Ready m (init_cap m v))

  header_small :
      length (put_header (written_of m v).wire_v2 (dict_bytes m (written_of m v))) < uint32_max
  header_small = omega (
    arith,
    small,
    length-append (put_header (written_of m v).wire_v2 (dict_bytes m (written_of m v)))
        (written_of m v).body,
  )

  frame_written :
      (tail_reserve : ℕ)
      → tail_reserve ≤ uint32_max
      → phpser_encode_zval_ex m v tail_reserve ≡ frame_ok (frame_of m v)
  unfolding phpser_encode_zval_ex finish_frame
  frame_written tail_reserve reserve =
      let w = coded.written in
      let dict = dict_bytes m (written_of m v) in
      let (short, few) = small_header (written_of m v).wire_v2 dict header_small in
      let (size, _) = length-put_header (written_of m v).wire_v2 dict short (omega (arith, few)) in
      rw (w.depth_alike, w.size_alike)
        (framed-frame_ok tail_reserve (written_of m v).wire_v2 dict (written_of m v).body
          (omega (
            arith,
            small,
            size,
            length-append (put_header (written_of m v).wire_v2 dict) (written_of m v).body,
          ))
          reserve)

  body_read :
      (d d' : Ctx) (tail : List ℕ)
      → d.dict ≡ []
      → d.sublinear_elems ≡ 0
      → HasRead d d' ((written_of m v).body ++ tail) (dict_bytes m (written_of m v))
      → decode_value eng max_depth d' ≡ ok (value_of m v, after d' tail coded.spent)
  unfolding dict_bytes
  body_read d d' tail empty unspent r =
      let dict = (written_of m v).dict in
      let (_, few) = small_header (written_of m v).wire_v2 (map m.bytes_at dict) header_small in
      let read : d'.dict ≡ r.zstrs = ap (λ c. c.dict) r.state ∙ ap (λ zs. zs ++ r.zstrs) empty in
      let same : map (λ z. z.bytes) d'.dict ≡ map m.bytes_at dict =
        ap (λ zs. map (λ z. z.bytes) zs) read ∙ r.same_bytes in
      let at_body : coded.out ++ tail ≡ d'.rest =
        ap (λ b. b ++ tail) (sym coded.written.body_written) ∙ sym (ap (λ c. c.rest) r.state) in
      ap (λ b. decode_value eng max_depth (record d' { rest = b })) (sym at_body)
      ∙ coded.decodes d' tail (read-Covers m dict d'.dict same few)
          (ap (λ c. c.sublinear_elems) r.state ∙ unspent)

  -- The header and the value of a frame in a buffer, and what stands behind it.
  parts_read :
      (tail : List ℕ)
      → (d' : Ctx) × (decode_header eng (initial_ctx (frame_of m v ++ tail)) ≡ ok (tt, d'))
        × (decode_value eng max_depth d' ≡ ok (value_of m v, after d' tail coded.spent))
        × (d'.cells ≡ [])
        × (d'.id_table ≡ [])
  unfolding initial_ctx
  parts_read tail =
      let e = written_of m v in
      let d = initial_ctx (frame_of m v ++ tail) in
      let (short, few) = small_header e.wire_v2 (dict_bytes m e) header_small in
      let (d', header, r) =
        header-wrote eng d e.wire_v2 (dict_bytes m e) (e.body ++ tail) short few in
      (
        d',
        ap (λ b. decode_header eng (at d b))
              (append_assoc (put_header e.wire_v2 (dict_bytes m e)) e.body tail)
            ∙ header,
        body_read d d' tail refl refl r,
        ap (λ c. c.cells) r.state,
        ap (λ c. c.id_table) r.state,
      )

  frame_decoded :
      (last : Ctx) × (phpser_decode_buf_opts eng (frame_of m v) true
        ≡ ok (record { value = value_of m v; cells = []; id_table = [] }, last))
  unfolding phpser_decode_buf_opts
  frame_decoded =
      let (d', header, value, cells, shared) = parts_read [] in
      let last = after d' [] coded.spent in
      (
        last,
        ap (λ b. decode_frame eng true (initial_ctx b)) (sym (append-nil (frame_of m v)))
            ∙ frame_read m eng _ d' v last header value true refl cells shared,
      )

  trailing_decoded :
      (b : ℕ) (tail : List ℕ)
      → (last : Ctx) × (phpser_decode_buf_opts eng (frame_of m v ++ (b ∷ tail)) false
          ≡ ok (record { value = value_of m v; cells = []; id_table = [] }, last))
        × (last.rest ≡ b ∷ tail)
        × (phpser_decode_buf_opts eng (frame_of m v ++ (b ∷ tail)) true ≡ failed)
  unfolding phpser_decode_buf_opts
  trailing_decoded b tail =
      let (d', header, value, cells, shared) = parts_read (b ∷ tail) in
      let last = after d' (b ∷ tail) coded.spent in
      (
        last,
        frame_read m eng _ d' v last header value false refl cells shared,
        refl,
        frame_refused m eng _ d' v last header value true (left_over b tail),
      )

-- phpser_encode_zval_ex makes a frame of a nested list of null, booleans, 64-bit integers, doubles
-- and strings below 4 GiB, at most max_depth deep, each list with one holder and at most 2^32 - 1
-- elements, and phpser_decode_buf_opts, told to read exactly one value, reads that frame as the same
-- value without references or shared arrays. The frame is shorter than 2^32 - 1 bytes, no more than
-- 2^32 - 1 bytes are reserved after it, and the decoder is of a build with 64-bit integers.
pub phpser_encode_zval_ex-decode :
    (m : Memory) (eng : Engine) (v : Zval) (tail_reserve : ℕ)
    → eng.zend_long_32 ≡ false
    → IsListed m max_depth [] v
    → length (frame_of m v) < uint32_max
    → tail_reserve ≤ uint32_max
    → (phpser_encode_zval_ex m v tail_reserve ≡ frame_ok (frame_of m v))
      × (last : Ctx) × (phpser_decode_buf_opts eng (frame_of m v) true
          ≡ ok (record { value = value_of m v; cells = []; id_table = [] }, last))
phpser_encode_zval_ex-decode m eng v tail_reserve wide listed small reserve =
    let (last, reads) = frame_decoded m eng wide v listed small in
    (frame_written m eng wide v listed small tail_reserve reserve, last, reads)

-- Where bytes follow the frame of a nested list (of null, booleans, 64-bit integers, doubles and
-- strings below 4 GiB, at most max_depth deep, each list with one holder and at most 2^32 - 1
-- elements) in a buffer, phpser_decode_buf_opts without require_exact reads the list and stops before
-- them, and with require_exact it fails. The frame is shorter than 2^32 - 1 bytes, and the decoder is
-- of a build with 64-bit integers.
pub phpser_decode_buf_opts-trailing :
    (m : Memory) (eng : Engine) (v : Zval) (b : ℕ) (tail : List ℕ)
    → eng.zend_long_32 ≡ false
    → IsListed m max_depth [] v
    → length (frame_of m v) < uint32_max
    → (last : Ctx) × (phpser_decode_buf_opts eng (frame_of m v ++ (b ∷ tail)) false
        ≡ ok (record { value = value_of m v; cells = []; id_table = [] }, last))
      × (last.rest ≡ b ∷ tail)
      × (phpser_decode_buf_opts eng (frame_of m v ++ (b ∷ tail)) true ≡ failed)
phpser_decode_buf_opts-trailing m eng v b tail wide listed small =
    trailing_decoded m eng wide v listed small b tail
