-- ===== src/Encode/Strings/Sound.antt =====
-- The tables of strings name the dictionary: every index of the icache or of the content map is that
-- of an entry with the string's own bytes.
use phpser.Base.{
  ℕ, zero, suc, ◌+◌, ◌*◌, ◌≤◌, ◌≡◌, refl, ◌∙◌, arith, ◌⊎◌, inl, inr, Bool-cases, List, [], ◌∷◌,
  ◌++◌, Option, some, none, ltb, ◌==◌, length, get_elem?, All, drop, leb, ◌&&◌, bytes_eq,
  bytes_eq→eq,
}
use mathlib.Core.Path.{subst}
use phpser.Encode.Memory.{Memory}
use phpser.Encode.Probe.Kept.{place-All, overwrite-All, grow-All, find-All}
use phpser.Encode.Ctx.{Enc}
use phpser.Encode.Strings.{
  inline_mark, enc_cache_find, enc_icache_grow, cache_room, enc_cache_alloc_slot, put_slot,
  content_find, hash_put, hash_add, hash_fill, chain_length, map_add, map_lookup, enc_dict_hash_add,
  map_after, enc_dict_append, enc_seed_dict_on_hit, map_find, promote,
}

-- Entry `i` of the dictionary has the bytes of the string at `p`.
unfoldable pub Names : Memory → List ℕ → ℕ → ℕ → Type 0
Names m dict p i = (q : ℕ) × (get_elem? dict i ≡ some q) × (m.bytes_at q ≡ m.bytes_at p)

unfoldable pub SlotSound : Memory → List ℕ → Option (ℕ × ℕ) → Type 0
unfolding Names
SlotSound m dict none = Unit
SlotSound m dict (some (p, i)) = (inline_mark ≤ i) ⊎ Names m dict p i

unfoldable pub EntrySound : Memory → List ℕ → ℕ × ℕ → Type 0
unfolding Names
EntrySound m dict (p, i) = Names m dict p i

unfoldable pub MapSound : Memory → List ℕ → Option (List (ℕ × ℕ)) → Type 0
unfolding EntrySound
MapSound m dict none = Unit
MapSound m dict (some entries) = All (EntrySound m dict) entries

unfoldable pub IsSound : Memory → Enc → Type 0
unfolding SlotSound MapSound
IsSound m e = All (SlotSound m e.dict) e.icache × MapSound m e.dict e.hash_map

pub get_elem?-append :
    (xs ys : List ℕ) (i q : ℕ) → get_elem? xs i ≡ some q → get_elem? (xs ++ ys) i ≡ some q
get_elem?-append [] ys i q e = cc
get_elem?-append (x ∷ xs) ys zero q e = e
get_elem?-append (x ∷ xs) ys (suc i) q e = get_elem?-append xs ys i q e

pub get_elem?-append_length :
    (xs ys : List ℕ) (q : ℕ) → get_elem? (xs ++ (q ∷ ys)) (length xs) ≡ some q
get_elem?-append_length [] ys q = refl
get_elem?-append_length (x ∷ xs) ys q = get_elem?-append_length xs ys q

module _ (m : Memory) where
  pub Names-append : (dict more : List ℕ) (p i : ℕ) → Names m dict p i → Names m (dict ++ more) p i
  unfolding Names
  Names-append dict more p i (q, e, same) = (q, get_elem?-append dict more i q e, same)

  pub Names-last : (dict : List ℕ) (p : ℕ) → Names m (dict ++ (p ∷ [])) p (length dict)
  unfolding Names
  Names-last dict p = (p, get_elem?-append_length dict [] p, refl)

  SlotSound-append :
      (dict more : List ℕ) (s : Option (ℕ × ℕ)) → SlotSound m dict s → SlotSound m (dict ++ more) s
  unfolding SlotSound
  SlotSound-append dict more none h = tt
  SlotSound-append dict more (some (p, i)) (inl above) = inl above
  SlotSound-append dict more (some (p, i)) (inr names) = inr (Names-append dict more p i names)

  slots-append :
      (dict more : List ℕ) (slots : List (Option (ℕ × ℕ)))
      → All (SlotSound m dict) slots
      → All (SlotSound m (dict ++ more)) slots
  slots-append dict more [] h = tt
  slots-append dict more (s ∷ slots) (hs, h) =
      (SlotSound-append dict more s hs, slots-append dict more slots h)

  entries-append :
      (dict more : List ℕ) (entries : List (ℕ × ℕ))
      → All (EntrySound m dict) entries
      → All (EntrySound m (dict ++ more)) entries
  unfolding EntrySound
  entries-append dict more [] h = tt
  entries-append dict more ((p, i) ∷ entries) (hs, h) =
      (Names-append dict more p i hs, entries-append dict more entries h)

  room-All : (e : Enc) → All (SlotSound m e.dict) e.icache → All (SlotSound m e.dict) (cache_room e)
  unfolding cache_room enc_icache_grow SlotSound
  room-All e slots = elim (Bool-cases (ltb (length e.icache) ((e.icache_count + 1) * 2))) [
    | inl small ↦ rw small (grow-All (SlotSound m e.dict) tt e.icache _ slots)
    | inr wide ↦ rw wide slots
  ]

  pub alloc-Sound :
      (zs idx : ℕ) (e : Enc)
      → IsSound m e
      → SlotSound m e.dict (some (zs, idx))
      → IsSound m (enc_cache_alloc_slot zs idx e)
  unfolding IsSound enc_cache_alloc_slot SlotSound
  alloc-Sound zs idx e (slots, entries) named =
      (place-All (SlotSound m e.dict) tt (cache_room e) zs idx (room-All e slots) named, entries)

  pub put_slot-Sound :
      (s : Option ℕ) (zs idx : ℕ) (e : Enc)
      → IsSound m e
      → SlotSound m e.dict (some (zs, idx))
      → IsSound m (put_slot s zs idx e)
  unfolding IsSound put_slot SlotSound
  put_slot-Sound none zs idx e sound named = alloc-Sound zs idx e sound named
  put_slot-Sound (some _) zs idx e (slots, entries) named =
      (overwrite-All (SlotSound m e.dict) tt e.icache zs idx slots named, entries)

  content_find-Names :
      (dict : List ℕ) (entries : List (ℕ × ℕ)) (zs i : ℕ)
      → All (EntrySound m dict) entries
      → content_find m entries zs ≡ some i
      → Names m dict zs i
  unfolding content_find EntrySound Names
  content_find-Names dict [] zs i all e = cc
  content_find-Names dict ((p, j) ∷ entries) zs i ((q, at, same), all) e =
      elim (Bool-cases (bytes_eq (m.bytes_at p) (m.bytes_at zs))) [
        | inl eq ↦ (q, ground (arith, eq), same ∙ bytes_eq→eq _ _ eq)
        | inr ne ↦ content_find-Names dict entries zs i all (ground (arith, ne))
      ]

  hash_put-Sound :
      (dict : List ℕ) (found : Option ℕ) (entries : List (ℕ × ℕ)) (zs i : ℕ)
      → All (EntrySound m dict) entries
      → Names m dict zs i
      → All (EntrySound m dict) (hash_put m found entries zs i)
  unfolding hash_put EntrySound
  hash_put-Sound dict none entries zs i all named = (named, all)
  hash_put-Sound dict (some _) entries zs i all named = all

  hash_add-Sound :
      (dict : List ℕ) (entries : List (ℕ × ℕ)) (zs i : ℕ)
      → All (EntrySound m dict) entries
      → Names m dict zs i
      → All (EntrySound m dict) (hash_add m entries zs i)
  unfolding hash_add
  hash_add-Sound dict entries zs i all named = hash_put-Sound dict _ entries zs i all named

  drop-cons :
      (n : ℕ) (dict : List ℕ) (z : ℕ) (rest : List ℕ)
      → drop n dict ≡ z ∷ rest
      → (get_elem? dict n ≡ some z) × (drop (suc n) dict ≡ rest)
  drop-cons zero [] z rest e = cc
  drop-cons zero (x ∷ dict) z rest e = (cc, cc)
  drop-cons (suc n) [] z rest e = cc
  drop-cons (suc n) (x ∷ dict) z rest e = drop-cons n dict z rest e

  -- The strings from the n-th on are filed under their places.
  hash_fill-Sound :
      (dict rest : List ℕ) (n : ℕ) (entries : List (ℕ × ℕ))
      → drop n dict ≡ rest
      → All (EntrySound m dict) entries
      → All (EntrySound m dict) (hash_fill m rest n entries)
  unfolding hash_fill Names
  hash_fill-Sound dict [] n entries e all = all
  hash_fill-Sound dict (zs ∷ rest) n entries e all =
      let (at, tail) = drop-cons n dict zs rest e in
      hash_fill-Sound dict rest (n + 1) _
        (subst (λ (k : ℕ). drop k dict ≡ rest) {x = suc n} (omega arith) tail)
        (hash_add-Sound dict entries zs n all (zs, at, refl))

  hash_add_bounded-Sound :
      (dict : List ℕ) (entries : List (ℕ × ℕ)) (zs i : ℕ)
      → All (EntrySound m dict) entries
      → Names m dict zs i
      → MapSound m dict (enc_dict_hash_add m entries zs i)
  unfolding enc_dict_hash_add MapSound
  hash_add_bounded-Sound dict entries zs i all named =
      elim (Bool-cases (
        leb 64 (length entries)
        && leb 64
            (chain_length m entries (m.table_slots (length entries)) (m.hash (m.bytes_at zs))))) [
              | inl full ↦ rw full tt
              | inr room ↦ rw room (hash_add-Sound dict entries zs i all named)
            ]

  map_add-Sound :
      (dict : List ℕ) (map : Option (List (ℕ × ℕ))) (zs : ℕ)
      → MapSound m dict map
      → MapSound m (dict ++ (zs ∷ [])) (map_add m map zs (length dict))
  unfolding map_add MapSound
  map_add-Sound dict none zs h = tt
  map_add-Sound dict (some entries) zs h =
      hash_add_bounded-Sound (dict ++ (zs ∷ [])) entries zs (length dict)
        (entries-append dict (zs ∷ []) entries h) (Names-last dict zs)

  map_after-Sound :
      (zs : ℕ) (e : Enc)
      → MapSound m e.dict e.hash_map
      → MapSound m (e.dict ++ (zs ∷ [])) (map_after m e zs)
  unfolding map_after MapSound
  map_after-Sound zs e h = elim (Bool-cases (length e.dict + 1 == 4)) [
    | inl four ↦ rw four (hash_fill-Sound (e.dict ++ (zs ∷ [])) _ 0 [] refl tt)
    | inr other ↦ rw other (map_add-Sound e.dict e.hash_map zs h)
  ]

  pub enc_dict_append-Sound : (zs : ℕ) (e : Enc) → IsSound m e → IsSound m (enc_dict_append m zs e)
  unfolding IsSound enc_dict_append
  enc_dict_append-Sound zs e (slots, entries) =
      (slots-append e.dict (zs ∷ []) e.icache slots, map_after-Sound zs e entries)

  pub promote-Sound : (s : Option ℕ) (zs : ℕ) (e : Enc) → IsSound m e → IsSound m (promote m s zs e)
  unfolding promote SlotSound enc_dict_append
  promote-Sound s zs e sound =
      put_slot-Sound s zs (length e.dict) (enc_dict_append m zs e)
        (enc_dict_append-Sound zs e sound) (inr (Names-last e.dict zs))

  pub seed-Sound :
      (s : Option ℕ) (zs idx : ℕ) (e : Enc)
      → IsSound m e
      → Names m e.dict zs idx
      → IsSound m (enc_seed_dict_on_hit m s zs idx e)
  unfolding enc_seed_dict_on_hit SlotSound
  seed-Sound s zs idx e sound named = elim (Bool-cases (m.is_interned zs)) [
    | inl interned ↦ rw interned (put_slot-Sound s zs idx e sound (inr named))
    | inr own ↦ rw own sound
  ]

  map_lookup-Names :
      (dict : List ℕ) (map : Option (List (ℕ × ℕ))) (zs i : ℕ)
      → MapSound m dict map
      → map_lookup m map zs ≡ some i
      → Names m dict zs i
  unfolding map_lookup MapSound
  map_lookup-Names dict none zs i h e = cc
  map_lookup-Names dict (some entries) zs i h e = content_find-Names dict entries zs i h e

  pub map_find-Names :
      (zs i : ℕ) (e : Enc) → IsSound m e → map_find m e zs ≡ some i → Names m e.dict zs i
  unfolding IsSound map_find
  map_find-Names zs i e (slots, entries) found =
      map_lookup-Names e.dict e.hash_map zs i entries found

  pub cached-Names :
      (zs i : ℕ) (e : Enc)
      → IsSound m e
      → enc_cache_find zs e ≡ some i
      → (inline_mark ≤ i) ⊎ Names m e.dict zs i
  unfolding IsSound enc_cache_find SlotSound
  cached-Names zs i e (slots, entries) found =
      find-All (SlotSound m e.dict) tt e.icache zs i slots found
