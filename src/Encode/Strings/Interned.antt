-- ===== src/Encode/Strings/Interned.antt =====
-- enc_str_dict_idx and enc_intern_zstr: the indices that they return, and the tables.
use phpser.Base.{
  ℕ, ◌≡◌, refl, ◌∙◌, arith, false, inl, inr, [], Option, some, none, length, ltb, Bool-cases,
}
use phpser.Encode.Memory.{Memory}
use phpser.Encode.Ctx.{Enc}
use phpser.Encode.Strings.{
  enc_str_dict_idx, known_idx, content_hit, dict_slot, enc_cache_find, map_find, inline_mark,
  intern_miss, promote, put_slot, enc_cache_alloc_slot, enc_dict_append, enc_intern_zstr,
  enc_emit_str_tagged, too_long,
}
use phpser.Encode.Strings.Sound.{
  IsSound, Names, Names-last, promote-Sound, cached-Names, map_find-Names,
}
use phpser.Encode.Strings.Emitted.{enc_emit_str_tagged-Emitted}
use phpser.Encode.Strings.Written.{Written, Written-refl, seed-Written, Names-grown}

-- The result of a search for a string that is not to be added.
pub record Looked (m : Memory) (zs : ℕ) (e : Enc) (r : Option ℕ × Enc) : Type 0 where
  pub unwritten : Written m e r.1 [] [] 0
  pub named : (i : ℕ) → r.0 ≡ some i → Names m r.1.dict zs i

module _ (m : Memory) (zs : ℕ) where
  hit_Looked :
      (s : Option ℕ) (e : Enc) (found : Option ℕ)
      → IsSound m e
      → map_find m e zs ≡ found
      → Looked m zs e (content_hit m s zs e found)
  unfolding content_hit
  hit_Looked s e none sound eq = record { unwritten = Written-refl m e sound; named = λ i no. cc }
  hit_Looked s e (some i) sound eq =
      let named = map_find-Names m zs i e sound eq in
      let w = seed-Written m s zs i e sound named in
      record {
        unwritten = w;
        named =
            λ j same. Names-grown m e _ [] [] 0 zs j w (map_find-Names m zs j e sound (eq ∙ same));
      }

  known_Looked :
      (e : Enc) (s : Option ℕ)
      → IsSound m e
      → enc_cache_find zs e ≡ s
      → Looked m zs e (known_idx m s zs e (dict_slot s))
  unfolding known_idx dict_slot
  known_Looked e none sound eq = hit_Looked none e _ sound refl
  known_Looked e (some i) sound eq = elim (Bool-cases (ltb i inline_mark)) [
    | inr mark ↦ rw mark (hit_Looked (some i) e _ sound refl)
    | inl dict ↦ rw dict (record {
      unwritten = Written-refl m e sound;
      named = λ j same. elim (cached-Names m zs j e sound (eq ∙ same)) [
        | inl above ↦ absurd (ground (arith, same))
        | inr named ↦ named
      ];
    })
  ]

  pub enc_str_dict_idx-Looked : (e : Enc) → IsSound m e → Looked m zs e (enc_str_dict_idx m zs e)
  unfolding enc_str_dict_idx
  enc_str_dict_idx-Looked e sound = known_Looked e _ sound refl

module _ (m : Memory) (zs : ℕ) where
  interned_last : (s : Option ℕ) (e : Enc) → Names m (promote m s zs e).dict zs (length e.dict)
  unfolding promote put_slot enc_cache_alloc_slot enc_dict_append
  interned_last none e = Names-last m e.dict zs
  interned_last (some i) e = Names-last m e.dict zs

  intern_known :
      (e : Enc) (r : Option ℕ × Enc)
      → Looked m zs e r
      → Names m
          (intern_miss m (enc_cache_find zs e) zs r).1.dict
          zs
          (intern_miss m (enc_cache_find zs e) zs r).0
        × IsSound m (intern_miss m (enc_cache_find zs e) zs r).1
  unfolding intern_miss
  intern_known e (some i, f) l = (l.named i refl, l.unwritten.tables)
  intern_known e (none, f) l = (
    interned_last (enc_cache_find zs e) f,
    promote-Sound m (enc_cache_find zs e) zs f l.unwritten.tables,
  )

-- enc_intern_zstr returns the index of an entry, of the dictionary after it, with the string's own
-- bytes, and the tables stay sound, if they are sound before.
pub enc_intern_zstr-Names :
    (m : Memory) (zs : ℕ) (e : Enc)
    → IsSound m e
    → Names m (enc_intern_zstr m zs e).1.dict zs (enc_intern_zstr m zs e).0
      × IsSound m (enc_intern_zstr m zs e).1
unfolding enc_intern_zstr
enc_intern_zstr-Names m zs e sound = intern_known m zs e _ (enc_str_dict_idx-Looked m zs e sound)

-- Neither a search of the dictionary nor the emission of a string leaves the tables unsound: every
-- index in them is still that of an entry with the string's bytes. The string is within the limit.
pub string_tables-IsSound :
    (m : Memory) (dict_tag inline_tag zs : ℕ) (e : Enc)
    → IsSound m e
    → too_long m zs ≡ false
    → IsSound m (enc_str_dict_idx m zs e).1
      × IsSound m (enc_emit_str_tagged m dict_tag inline_tag zs e).1
string_tables-IsSound m dict_tag inline_tag zs e sound short =
    let l = enc_str_dict_idx-Looked m zs e sound in
    let x = enc_emit_str_tagged-Emitted m dict_tag inline_tag zs e sound short in
    (l.unwritten.tables, x.written.tables)
