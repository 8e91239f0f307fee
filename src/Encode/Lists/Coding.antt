-- ===== src/Encode/Lists/Coding.antt =====
-- Parts of a nested list that the encoder writes and the decoder reads: scalars, and the cells of a
-- mixed run.
use phpser.Base.{
  ℕ, suc, ◌+◌, ◌≤◌, ◌≡◌, refl, sym, ◌∙◌, ap, arith, Bool, true, false, inl, inr, List, [], ◌∷◌,
  ◌++◌, length, append_assoc, length-append,
}
use mathlib.Core.Path.{subst}
use phpser.Wire.{IsU64, varint_put, zigzag_encode64, le64_put}
use phpser.Wire.Le64.{low_bytes, le64_put-low_bytes}
use phpser.Tag
use phpser.Tag.{Tag, tag_of_byte, dec_is_scalar_tag}
use phpser.Php.{Value, nil}
use phpser.Decode.Ctx.{Engine, Ctx, Zstr, ok, M, ◌>>=◌, read_byte, first_byte}
use phpser.Decode.Scalar.{decode_scalar_tag}
use phpser.Decode.Array.{decode_value, decode_value_inner, decode_tag}
use phpser.Decode.Runs.{repeat, sublinear_max_elems}
use phpser.Encode.Memory.{Memory, Zval, Cells, nil as no_cells, cell, cell_list}
use phpser.Encode.Ctx.{Enc, append, emit_tag}
use phpser.Encode.Strings.{too_long, enc_emit_str_value, emitted}
use phpser.Encode.Strings.Sound.{IsSound, get_elem?-append}
use phpser.Encode.Strings.Emitted.{Emitted, enc_emit_str_tagged-Emitted, StringBytes}
use phpser.Encode.Strings.Written.{
  Written, Written-refl, Written-trans, append-Written, emit_tag-Written,
}
use phpser.Encode.Runs.Decoded.{at}
use phpser.Encode.Array.{encode_cells}
use phpser.Encode.Table.{release}
use phpser.Encode.Lists.{IsListed, AreListed, value_of, values_of_cells, Covers, after, Coded}
use phpser.Encode.Lists.Scalars.{string-wrote, long-wrote, double-wrote, after_zero}

-- What the encoder needs of its own state before a value.
pub record Ready (m : Memory) (holds : List ℕ) (e : Enc) : Type 0 where
  pub sound : IsSound m e
  pub in_budget : e.sublinear_elems ≤ sublinear_max_elems
  pub holding : e.holds ≡ holds

pub Coded-Ready :
    (m : Memory) (holds : List ℕ) {A : Type 0} (decode : M A) (a : A) (least : ℕ) (e e' : Enc)
    → Ready m holds e
    → Coded m decode a least e e'
    → Ready m holds e'
Coded-Ready m holds decode a least e e' ready c = record {
  sound = c.written.tables;
  in_budget = c.in_budget;
  holding = c.written.held_alike ∙ ready.holding;
}

pub Covers-shrink :
    (m : Memory) (dict more : List ℕ) (zstrs : List Zstr)
    → Covers m (dict ++ more) zstrs
    → Covers m dict zstrs
Covers-shrink m dict more zstrs c = record {
  small = c.small;
  entries = λ i q e. c.entries i q (get_elem?-append dict more i q e);
}

-- A part that spends nothing.
pub free_Coded :
    (m : Memory) {A : Type 0} (decode : M A) (a : A) (least : ℕ) (e e' : Enc) (out more : List ℕ)
    → Written m e e' out more 0
    → e.sublinear_elems ≤ sublinear_max_elems
    → least ≤ length out
    → ((d : Ctx) (tail : List ℕ)
        → Covers m e'.dict d.dict
        → decode (at d (out ++ tail)) ≡ ok (a, at d tail))
    → Coded m decode a least e e'
free_Coded m decode a least e e' out more w budget enough reads = record {
  out = out;
  more = more;
  spent = 0;
  written = w;
  long_enough = enough;
  in_budget = omega (arith, w.budget);
  decodes =
      λ d tail covers same. reads d tail covers ∙ ap (λ s. ok (a, s)) (sym (after_zero d tail));
}

module _ (m : Memory) (eng : Engine) (wide : eng.zend_long_32 ≡ false) (levels : ℕ)
    (holds : List ℕ) where
  pub null_Coded :
      (e : Enc)
      → Ready m holds e
      → Coded m (decode_value eng (suc levels)) Value.null 1 e (append (Tag.byte Tag.null ∷ []) e)
  unfolding decode_value decode_value_inner read_byte first_byte tag_of_byte decode_tag
      dec_is_scalar_tag decode_scalar_tag
  null_Coded e ready =
      free_Coded m _ _ 1 e _ _ [] (append-Written m _ e ready.sound) ready.in_budget (omega arith)
        (λ d tail covers. refl)

  pub true_Coded :
      (e : Enc)
      → Ready m holds e
      → Coded m (decode_value eng (suc levels)) Value.true 1 e (append (Tag.byte Tag.true ∷ []) e)
  unfolding decode_value decode_value_inner read_byte first_byte tag_of_byte decode_tag
      dec_is_scalar_tag decode_scalar_tag
  true_Coded e ready =
      free_Coded m _ _ 1 e _ _ [] (append-Written m _ e ready.sound) ready.in_budget (omega arith)
        (λ d tail covers. refl)

  pub false_Coded :
      (e : Enc)
      → Ready m holds e
      → Coded m (decode_value eng (suc levels)) Value.false 1 e (append (Tag.byte Tag.false ∷ []) e)
  unfolding decode_value decode_value_inner read_byte first_byte tag_of_byte decode_tag
      dec_is_scalar_tag decode_scalar_tag
  false_Coded e ready =
      free_Coded m _ _ 1 e _ _ [] (append-Written m _ e ready.sound) ready.in_budget (omega arith)
        (λ d tail covers. refl)

  pub long_Coded :
      (e : Enc) (v : ℕ)
      → Ready m holds e
      → IsU64 v
      → Coded m
          (decode_value eng (suc levels))
          (Value.long v)
          1
          e
          (emit_tag (Tag.byte Tag.long) (zigzag_encode64 v) e)
  long_Coded e v ready h =
      free_Coded m _ _ 1 e _ _ []
        (emit_tag-Written m (Tag.byte Tag.long) (zigzag_encode64 v) e ready.sound) ready.in_budget
        (omega arith) (λ d tail covers. long-wrote eng wide levels d tail v h)

  pub double_Coded :
      (e : Enc) (v : ℕ)
      → Ready m holds e
      → IsU64 v
      → Coded m
          (decode_value eng (suc levels))
          (Value.double v)
          1
          e
          (record e { body = le64_put (e.body ++ (Tag.byte Tag.double ∷ [])) v })
  double_Coded e v ready h = rw (le64_put-low_bytes v (e.body ++ (Tag.byte Tag.double ∷ []))) (
      rw (append_assoc e.body (Tag.byte Tag.double ∷ []) (low_bytes 8 v)) (
        free_Coded m _ _ 1 e _ _ []
          (append-Written m (Tag.byte Tag.double ∷ low_bytes 8 v) e ready.sound) ready.in_budget
          (omega arith) (λ d tail covers. double-wrote eng wide levels d tail v h)))

  some_bytes :
      (dict : List ℕ) (zs : ℕ) (out : List ℕ)
      → StringBytes m dict (Tag.byte Tag.str_dict) (Tag.byte Tag.str_inline) zs out
      → 1 ≤ length out
  unfolding StringBytes
  some_bytes dict zs out (inl (i, named, e)) = rw e (omega arith)
  some_bytes dict zs out (inr e) = rw e (omega arith)

  emitted-Coded :
      (e : Enc) (zs : ℕ) (r : Bool × Enc)
      → Ready m holds e
      → too_long m zs ≡ false
      → Emitted m (Tag.byte Tag.str_dict) (Tag.byte Tag.str_inline) zs e r
      → Coded m (decode_value eng (suc levels)) (Value.str (m.bytes_at zs)) 1 e (emitted m r)
  unfolding emitted
  emitted-Coded e zs (false, e') ready short x = absurd (ground (arith, x.success))
  emitted-Coded e zs (true, e') ready short x =
      free_Coded m _ _ 1 e e' x.out x.more x.written ready.in_budget
        (some_bytes e'.dict zs x.out x.bytes)
        (λ d tail covers.
          string-wrote eng wide levels d tail m e'.dict zs x.out covers short x.bytes)

  pub str_Coded :
      (e : Enc) (zs : ℕ)
      → Ready m holds e
      → too_long m zs ≡ false
      → Coded m
          (decode_value eng (suc levels))
          (Value.str (m.bytes_at zs))
          1
          e
          (enc_emit_str_value m zs e)
  unfolding enc_emit_str_value
  str_Coded e zs ready short =
      emitted-Coded e zs _ ready short (enc_emit_str_tagged-Emitted m _ _ zs e ready.sound short)

-- Two parts, one after the other.
module _ (m : Memory) {A B : Type 0} (p : M A) (q : M B) (a : A) (b : B) where
  after_twice :
      (d : Ctx) (mid tail : List ℕ) (s t : ℕ) → after (after d mid s) tail t ≡ after d tail (s + t)
  after_twice d mid tail s t =
      ap (λ (n : ℕ). record d { rest = tail; sublinear_elems = n }) (omega arith)

  pub then_Coded :
      {C : Type 0} (both : M C) (c : C) (k l n : ℕ) (e f g : Enc)
      → n ≤ k + l
      → Coded m p a k e f
      → Coded m q b l f g
      → ((d d1 d2 : Ctx) → p d ≡ ok (a, d1) → q d1 ≡ ok (b, d2) → both d ≡ ok (c, d2))
      → Coded m both c n e g
  then_Coded both c k l n e f g least x y joined = record {
    out = x.out ++ y.out;
    more = x.more ++ y.more;
    spent = x.spent + y.spent;
    written = Written-trans m e f g x.out y.out x.more y.more x.spent y.spent x.written y.written;
    long_enough = omega (arith, least, x.long_enough, y.long_enough, length-append x.out y.out);
    in_budget = y.in_budget;
    decodes = λ d tail covers same. rw (append_assoc x.out y.out tail) (
        joined _ (after d (y.out ++ tail) x.spent) _
          (x.decodes d (y.out ++ tail)
            (Covers-shrink m f.dict y.more d.dict
              (subst (λ dict. Covers m dict d.dict) {x = g.dict} y.written.dict_grown covers))
            same)
          (y.decodes (after d (y.out ++ tail) x.spent) tail covers
            (omega (arith, same, x.written.budget)))
        ∙ ap (λ s. ok (c, s)) (after_twice d (y.out ++ tail) tail x.spent y.spent));
  }

module _ (m : Memory) (levels : ℕ) (holds : List ℕ) (encode : Bool → Zval → Enc → Enc)
    (read : M Value)
    (each : (v : Zval) (e : Enc)
      → IsListed m levels holds v
      → Ready m holds e
      → Coded m read (value_of m v) 1 e (encode false v e)) where
  pub cells_Coded :
      (cs : Cells) (e : Enc)
      → AreListed m levels holds cs
      → Ready m holds e
      → Coded m
          (repeat (length (cell_list cs)) read)
          (values_of_cells m cs)
          (length (cell_list cs))
          e
          (encode_cells m encode false (cell_list cs) e)
  unfolding AreListed cell_list encode_cells repeat values_of_cells
  cells_Coded no_cells e listed ready =
      free_Coded m _ nil 0 e e [] [] (Written-refl m e ready.sound) ready.in_budget (omega arith)
        (λ d tail covers. refl)
  cells_Coded (cell v cs) e (first, rest) ready =
      let head = each v e first ready in
      let tail =
        cells_Coded cs (encode false v e) rest (Coded-Ready m holds _ _ _ e _ ready head) in
      then_Coded m _ _ _ _ _ _ 1 (length (cell_list cs)) _ e _ _ (omega arith) head tail
        (λ d d1 d2 h t. rw (◌>>=◌, h) (rw (◌>>=◌, t) refl))

-- Two states that differ in what the encoder holds for the walk.
pub release-Coded :
    (m : Memory) {A : Type 0} (decode : M A) (a : A) (least : ℕ) (before e e' : Enc)
    → before.holds ≡ e.holds
    → Coded m decode a least e e'
    → Coded m decode a least e (release before e')
unfolding release IsSound
release-Coded m decode a least before e e' alike c = record {
  out = c.out;
  more = c.more;
  spent = c.spent;
  written = record {
    body_written = c.written.body_written;
    dict_grown = c.written.dict_grown;
    tables = c.written.tables;
    budget = c.written.budget;
    held_alike = alike;
    depth_alike = c.written.depth_alike;
    size_alike = c.written.size_alike;
    refs_alike = c.written.refs_alike;
  };
  long_enough = c.long_enough;
  in_budget = c.in_budget;
  decodes = c.decodes;
}

-- A header, which is a tag and a count, and the run that it announces.
pub head_Coded :
    (m : Memory) {A B : Type 0} (run : M A) (whole : M B) (a : A) (b : B) (tag n k : ℕ)
    (e f g : Enc) (more : List ℕ)
    → Written m e f (tag ∷ varint_put [] n) more 0
    → Coded m run a k f g
    → ((d d' : Ctx) (rest : List ℕ)
        → k ≤ length rest
        → run (at d rest) ≡ ok (a, d')
        → whole (at d ((tag ∷ varint_put [] n) ++ rest)) ≡ ok (b, d'))
    → Coded m whole b 1 e g
head_Coded m run whole a b tag n k e f g more w x opened = record {
  out = (tag ∷ varint_put [] n) ++ x.out;
  more = more ++ x.more;
  spent = 0 + x.spent;
  written = Written-trans m e f g _ x.out more x.more 0 x.spent w x.written;
  long_enough = omega arith;
  in_budget = x.in_budget;
  decodes = λ d tail covers same. rw (append_assoc (tag ∷ varint_put [] n) x.out tail) (
      opened d _ (x.out ++ tail) (omega (arith, x.long_enough, length-append x.out tail))
        (x.decodes d tail covers (omega (arith, same, w.budget)))
      ∙ ap (λ (s : ℕ). ok (b, record d { rest = tail; sublinear_elems = s })) (omega arith));
}

-- What is held during a walk is let go after it.
pub unhold_Coded :
    (m : Memory) {A : Type 0} (decode : M A) (a : A) (least : ℕ) (holds : List ℕ) (e g : Enc)
    → Coded m decode a least (record e { holds = holds }) g
    → Coded m decode a least e (release e g)
unfolding release IsSound
unhold_Coded m decode a least holds e g c = record {
  out = c.out;
  more = c.more;
  spent = c.spent;
  written = record {
    body_written = c.written.body_written;
    dict_grown = c.written.dict_grown;
    tables = c.written.tables;
    budget = c.written.budget;
    held_alike = refl;
    depth_alike = c.written.depth_alike;
    size_alike = c.written.size_alike;
    refs_alike = c.written.refs_alike;
  };
  long_enough = c.long_enough;
  in_budget = c.in_budget;
  decodes = c.decodes;
}
