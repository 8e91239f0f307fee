-- ===== src/Encode/Strings/Emitted.antt =====
-- What enc_emit_str_tagged writes for a string: the index of an entry with the string's bytes, or
-- the string itself.
use phpser.Base.{
  ℕ, ◌≡◌, refl, arith, ◌⊎◌, inl, inr, Bool, true, false, Bool-cases, List, [], ◌∷◌, ◌++◌, Option,
  some, none, ltb, length, append-nil,
}
use phpser.Wire.{varint_put}
use phpser.Encode.Memory.{Memory}
use phpser.Encode.Ctx.{Enc, emit_tag, append}
use phpser.Encode.Strings.{
  inline_mark, enc_cache_find, put_slot, too_long, map_find, promote, emit_inline, emit_content,
  emit_slot, enc_emit_str_tagged, enc_dict_append,
}
use phpser.Encode.Strings.Sound.{
  IsSound, Names, Names-last, map_find-Names, cached-Names, SlotSound,
}
use phpser.Encode.Strings.Written.{
  Written, Written-refl, Written-trans, put_slot-Written, append-Written, emit_tag-Written,
  promote-Written, seed-Written, Names-grown,
}

unfoldable pub StringBytes : Memory → List ℕ → ℕ → ℕ → ℕ → List ℕ → Type 0
unfolding Names
StringBytes m dict dict_tag inline_tag zs out =
    ((i : ℕ) × Names m dict zs i × (out ≡ dict_tag ∷ varint_put [] i))
    ⊎ (out ≡ (inline_tag ∷ varint_put [] (length (m.bytes_at zs))) ++ m.bytes_at zs)

-- The result of an emitter that started at `e`.
pub record Emitted (m : Memory) (dict_tag inline_tag zs : ℕ) (e : Enc) (r : Bool × Enc)
    : Type 0 where
  pub out : List ℕ
  pub more : List ℕ
  pub success : r.0 ≡ true
  pub written : Written m e r.1 out more 0
  pub bytes : StringBytes m r.1.dict dict_tag inline_tag zs out

module _ (m : Memory) (dict_tag inline_tag zs : ℕ) where
  -- An index is written after a step `f` that leaves the body alone.
  index_Emitted :
      (e f : Enc) (more : List ℕ) (i : ℕ)
      → Written m e f [] more 0
      → Names m f.dict zs i
      → Emitted m dict_tag inline_tag zs e (true, emit_tag dict_tag i f)
  unfolding StringBytes
  index_Emitted e f more i w named = record {
    out = dict_tag ∷ varint_put [] i;
    more = more ++ [];
    success = refl;
    written =
        Written-trans m e f _ [] (dict_tag ∷ varint_put [] i) more [] 0 0 w
          (emit_tag-Written m dict_tag i f w.tables);
    bytes = inl (i, named, refl);
  }

  inline_Emitted :
      (e : Enc)
      → IsSound m e
      → too_long m zs ≡ false
      → Emitted m dict_tag inline_tag zs e (emit_inline m inline_tag zs e)
  unfolding StringBytes emit_inline SlotSound put_slot
  inline_Emitted e sound short =
      let len = length (m.bytes_at zs) in
      let f = emit_tag inline_tag len e in
      let g = append (m.bytes_at zs) f in
      let w = emit_tag-Written m inline_tag len e sound in
      let x = append-Written m (m.bytes_at zs) f w.tables in
      let y = put_slot-Written m none zs inline_mark g x.tables (inl (omega arith)) in
      rw short (record {
        out = ((inline_tag ∷ varint_put [] len) ++ m.bytes_at zs) ++ [];
        more = [];
        success = refl;
        written =
            Written-trans m e g _ _ [] [] [] 0 0
              (Written-trans m e f g _ (m.bytes_at zs) [] [] 0 0 w x) y;
        bytes = inr (append-nil _);
      })

  content_Emitted :
      (e : Enc) (found : Option ℕ)
      → IsSound m e
      → too_long m zs ≡ false
      → map_find m e zs ≡ found
      → Emitted m dict_tag inline_tag zs e (emit_content m dict_tag inline_tag zs e found)
  unfolding emit_content
  content_Emitted e none sound short eq = inline_Emitted e sound short
  content_Emitted e (some i) sound short eq =
      let named = map_find-Names m zs i e sound eq in
      let w = seed-Written m none zs i e sound named in
      index_Emitted e _ [] i w (Names-grown m e _ [] [] 0 zs i w named)

  promoted :
      (e : Enc) (i : ℕ)
      → IsSound m e
      → too_long m zs ≡ false
      → Emitted m dict_tag inline_tag zs e
          (true, emit_tag dict_tag (length e.dict) (promote m (some i) zs e))
  unfolding promote put_slot enc_dict_append
  promoted e i sound short =
      index_Emitted e (promote m (some i) zs e) (zs ∷ []) (length e.dict)
        (promote-Written m (some i) zs e sound short) (Names-last m e.dict zs)

  slot_Emitted :
      (e : Enc) (s : Option ℕ)
      → IsSound m e
      → too_long m zs ≡ false
      → enc_cache_find zs e ≡ s
      → Emitted m dict_tag inline_tag zs e (emit_slot m dict_tag inline_tag zs e s)
  unfolding emit_slot
  slot_Emitted e none sound short eq = content_Emitted e _ sound short refl
  slot_Emitted e (some i) sound short eq = elim (Bool-cases (ltb i inline_mark)) [
    | inr mark ↦ rw mark (promoted e i sound short)
    | inl dict ↦ rw dict (elim (cached-Names m zs i e sound eq) [
      | inl above ↦ absurd (ground arith)
      | inr named ↦ index_Emitted e e [] i (Written-refl m e sound) named
    ])
  ]

  -- A string within the limit is always emitted.
  pub enc_emit_str_tagged-Emitted :
      (e : Enc)
      → IsSound m e
      → too_long m zs ≡ false
      → Emitted m dict_tag inline_tag zs e (enc_emit_str_tagged m dict_tag inline_tag zs e)
  unfolding enc_emit_str_tagged
  enc_emit_str_tagged-Emitted e sound short = slot_Emitted e _ sound short refl
