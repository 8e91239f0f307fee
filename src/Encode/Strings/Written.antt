-- ===== src/Encode/Strings/Written.antt =====
-- What a step of the encoder leaves, and the strings: bytes that name an entry of the dictionary, or
-- are the string itself.
use phpser.Base.{
  ℕ, suc, ◌+◌, ◌≡◌, refl, sym, ◌∙◌, ap, arith, inl, inr, Bool, true, false, ◌||◌, Bool-cases, List,
  [], ◌∷◌, ◌++◌, Option, some, none, length, leb, ◌/◌, zero, bit_or, bit_and, append_assoc,
  append-nil,
}
use phpser.Wire.{put_loop, varint_put}
use phpser.Encode.Probe.{overwrite}
use mathlib.Core.Path.{subst}
use phpser.Encode.Memory.{Memory}
use phpser.Encode.Ctx.{Enc, emit_tag, append}
use phpser.Encode.Strings.{
  enc_cache_alloc_slot, put_slot, enc_dict_append, too_long, enc_seed_dict_on_hit, promote,
}
use phpser.Encode.Strings.Sound.{
  IsSound, Names, Names-append, enc_dict_append-Sound, Names-last, put_slot-Sound, SlotSound,
}

-- From e to e' the walk appends `out` to the body and `more` to the dictionary, and spends `spent`
-- of the budget of sub-linear runs. The tables are sound after it, and the flags and holds are those
-- before.
pub record Written (m : Memory) (e e' : Enc) (out more : List ℕ) (spent : ℕ) : Type 0 where
  pub body_written : e'.body ≡ e.body ++ out
  pub dict_grown : e'.dict ≡ e.dict ++ more
  pub tables : IsSound m e'
  pub budget : e'.sublinear_elems ≡ e.sublinear_elems + spent
  pub held_alike : e'.holds ≡ e.holds
  pub depth_alike : e'.depth_exceeded ≡ e.depth_exceeded
  pub size_alike : e'.size_exceeded ≡ e.size_exceeded
  pub refs_alike : e'.refs_seen ≡ e.refs_seen

-- A varint is put after whatever is there.
put_loop-append :
    (rounds v : ℕ) (xs ys : List ℕ) → put_loop rounds (xs ++ ys) v ≡ xs ++ put_loop rounds ys v
unfolding put_loop
put_loop-append zero v xs ys = append_assoc xs ys _
put_loop-append (suc r) v xs ys = elim (Bool-cases (leb 0x80 v)) [
  | inl more ↦ rw more (
      rw (append_assoc xs ys (bit_or (bit_and v 0x7f) 0x80 ∷ []))
        (put_loop-append r (v / 128) xs (ys ++ (bit_or (bit_and v 0x7f) 0x80 ∷ []))))
  | inr last ↦ rw last (append_assoc xs ys _)
]

pub varint_put-append : (xs ys : List ℕ) (v : ℕ) → varint_put (xs ++ ys) v ≡ xs ++ varint_put ys v
unfolding varint_put
varint_put-append xs ys v = put_loop-append v v xs ys

pub varint_put-after : (xs : List ℕ) (v : ℕ) → varint_put xs v ≡ xs ++ varint_put [] v
varint_put-after xs v =
    sym (ap (λ (b : List ℕ). varint_put b v) (append-nil xs)) ∙ varint_put-append xs [] v

module _ (m : Memory) where
  pub Written-refl : (e : Enc) → IsSound m e → Written m e e [] [] 0
  Written-refl e sound = record {
    body_written = sym (append-nil e.body);
    dict_grown = sym (append-nil e.dict);
    tables = sound;
    budget = omega arith;
    held_alike = refl;
    depth_alike = refl;
    size_alike = refl;
    refs_alike = refl;
  }

  pub Written-trans :
      (e f g : Enc) (out1 out2 more1 more2 : List ℕ) (n k : ℕ)
      → Written m e f out1 more1 n
      → Written m f g out2 more2 k
      → Written m e g (out1 ++ out2) (more1 ++ more2) (n + k)
  Written-trans e f g out1 out2 more1 more2 n k w x = record {
    body_written =
        x.body_written ∙ ap (λ b. b ++ out2) w.body_written ∙ append_assoc e.body out1 out2;
    dict_grown = x.dict_grown ∙ ap (λ b. b ++ more2) w.dict_grown ∙ append_assoc e.dict more1 more2;
    tables = x.tables;
    budget = omega (arith, w.budget, x.budget);
    held_alike = x.held_alike ∙ w.held_alike;
    depth_alike = x.depth_alike ∙ w.depth_alike;
    size_alike = x.size_alike ∙ w.size_alike;
    refs_alike = x.refs_alike ∙ w.refs_alike;
  }

  -- The icache alone is written.
  icache-Written :
      (e : Enc) (slots : List (Option (ℕ × ℕ))) (n : ℕ)
      → IsSound m (record e { icache = slots; icache_count = n })
      → Written m e (record e { icache = slots; icache_count = n }) [] [] 0
  icache-Written e slots n sound = record {
    body_written = sym (append-nil e.body);
    dict_grown = sym (append-nil e.dict);
    tables = sound;
    budget = omega arith;
    held_alike = refl;
    depth_alike = refl;
    size_alike = refl;
    refs_alike = refl;
  }

  pub put_slot-Written :
      (s : Option ℕ) (zs idx : ℕ) (e : Enc)
      → IsSound m e
      → SlotSound m e.dict (some (zs, idx))
      → Written m e (put_slot s zs idx e) [] [] 0
  unfolding put_slot enc_cache_alloc_slot overwrite
  put_slot-Written none zs idx e sound named =
      icache-Written e _ _ (put_slot-Sound m none zs idx e sound named)
  put_slot-Written (some i) zs idx e sound named =
      icache-Written e _ _ (put_slot-Sound m (some i) zs idx e sound named)

  pub append-Written :
      (bytes : List ℕ) (e : Enc) → IsSound m e → Written m e (append bytes e) bytes [] 0
  unfolding IsSound
  append-Written bytes e sound = record {
    body_written = refl;
    dict_grown = sym (append-nil e.dict);
    tables = sound;
    budget = omega arith;
    held_alike = refl;
    depth_alike = refl;
    size_alike = refl;
    refs_alike = refl;
  }

  tag_bytes :
      (body : List ℕ) (tag v : ℕ)
      → varint_put (body ++ (tag ∷ [])) v ≡ body ++ (tag ∷ varint_put [] v)
  tag_bytes body tag v =
      varint_put-after (body ++ (tag ∷ [])) v ∙ append_assoc body (tag ∷ []) (varint_put [] v)

  pub emit_tag-Written :
      (tag v : ℕ) (e : Enc)
      → IsSound m e
      → Written m e (emit_tag tag v e) (tag ∷ varint_put [] v) [] 0
  unfolding IsSound
  emit_tag-Written tag v e sound = record {
    body_written = tag_bytes e.body tag v;
    dict_grown = sym (append-nil e.dict);
    tables = sound;
    budget = omega arith;
    held_alike = refl;
    depth_alike = refl;
    size_alike = refl;
    refs_alike = refl;
  }

  no_more : (b c : Bool) → c ≡ false → (b || c) ≡ b
  no_more true c h = refl
  no_more false c h = h

  dict_append-Written :
      (zs : ℕ) (e : Enc)
      → IsSound m e
      → too_long m zs ≡ false
      → Written m e (enc_dict_append m zs e) [] (zs ∷ []) 0
  unfolding enc_dict_append
  dict_append-Written zs e sound short = record {
    body_written = sym (append-nil e.body);
    dict_grown = refl;
    tables = enc_dict_append-Sound m zs e sound;
    budget = omega arith;
    held_alike = refl;
    depth_alike = refl;
    size_alike = no_more e.size_exceeded (too_long m zs) short;
    refs_alike = refl;
  }

  pub promote-Written :
      (s : Option ℕ) (zs : ℕ) (e : Enc)
      → IsSound m e
      → too_long m zs ≡ false
      → Written m e (promote m s zs e) [] (zs ∷ []) 0
  unfolding promote enc_dict_append SlotSound
  promote-Written s zs e sound short =
      Written-trans e (enc_dict_append m zs e) _ [] [] (zs ∷ []) [] 0 0
        (dict_append-Written zs e sound short)
        (put_slot-Written s zs (length e.dict) (enc_dict_append m zs e)
          (enc_dict_append-Sound m zs e sound) (inr (Names-last m e.dict zs)))

  pub seed-Written :
      (s : Option ℕ) (zs idx : ℕ) (e : Enc)
      → IsSound m e
      → Names m e.dict zs idx
      → Written m e (enc_seed_dict_on_hit m s zs idx e) [] [] 0
  unfolding enc_seed_dict_on_hit SlotSound
  seed-Written s zs idx e sound named = elim (Bool-cases (m.is_interned zs)) [
    | inl interned ↦ rw interned (put_slot-Written s zs idx e sound (inr named))
    | inr own ↦ rw own (Written-refl e sound)
  ]

  pub Names-grown :
      (e e' : Enc) (out more : List ℕ) (n p i : ℕ)
      → Written m e e' out more n
      → Names m e.dict p i
      → Names m e'.dict p i
  Names-grown e e' out more n p i w named =
      subst (λ dict. Names m dict p i) {x = e.dict ++ more} (sym w.dict_grown)
        (Names-append m e.dict more p i named)
