-- ===== src/Encode/Strings.antt =====
-- The encoder's strings: enc_cache_find, enc_cache_alloc_slot, enc_dict_append, enc_str_dict_idx,
-- enc_intern_zstr, enc_emit_str_tagged and their parts. A string is its address.

pub mod Sound
pub mod Written
pub mod Emitted
pub mod Interned
use phpser.Base.{
  ℕ, ◌+◌, ◌*◌, ◌%◌, ◌^◌, Bool, true, false, ◌&&◌, ◌||◌, List, [], ◌∷◌, ◌++◌, Option, some, none,
  if◌then◌else◌, ltb, leb, ◌==◌, length, bytes_eq,
}
use phpser.Tag
use phpser.Encode.Memory.{Memory}
use phpser.Encode.Probe.{find, place, overwrite, grow}
use phpser.Decode.Ctx.{uint32_max}
use phpser.Encode.Ctx.{Enc, append, emit_tag}

-- SLOT_INLINE_MARK: the high bit says that a string has been emitted inline only.
abbrev pub inline_mark : ℕ
inline_mark = 2 ^ 31

unfoldable pub enc_cache_find : ℕ → Enc → Option ℕ
unfolding find
enc_cache_find zs e = find e.icache zs

unfoldable pub first_cap : Enc → ℕ
first_cap e = if e.icache_init_cap == 0 then 32 else e.icache_init_cap

-- The table that takes the old one's place.
unfoldable pub enc_icache_grow : Enc → List (Option (ℕ × ℕ))
unfolding first_cap grow
enc_icache_grow e =
    grow e.icache (if length e.icache == 0 then first_cap e else length e.icache * 2)

-- `(e->icache_count + 1) * 2 > e->icache_mask + 1`
unfoldable pub cache_room : Enc → List (Option (ℕ × ℕ))
unfolding enc_icache_grow
cache_room e =
    if ltb (length e.icache) ((e.icache_count + 1) * 2) then enc_icache_grow e else e.icache

-- The slot that it returns gets its idx at once.
unfoldable pub enc_cache_alloc_slot : ℕ → ℕ → Enc → Enc
unfolding cache_room place
enc_cache_alloc_slot zs idx e = record e {
  icache = place (cache_room e) zs idx;
  icache_count = e.icache_count + 1;
}

-- `if (s) { s->idx = idx; } else { enc_cache_alloc_slot(e, zs)->idx = idx; }`
unfoldable pub put_slot : Option ℕ → ℕ → ℕ → Enc → Enc
unfolding enc_cache_alloc_slot overwrite
put_slot none zs idx e = enc_cache_alloc_slot zs idx e
put_slot (some _) zs idx e = record e { icache = overwrite e.icache zs idx }

-- SLOT_IS_DICT and SLOT_DICT_IDX of a slot that was found
unfoldable pub dict_slot : Option ℕ → Option ℕ
dict_slot none = none
dict_slot (some idx) = if ltb idx inline_mark then some idx else none

module _ (m : Memory) where
  -- zend_hash_find: the strings of the dictionary are compared by their bytes.
  unfoldable pub content_find : List (ℕ × ℕ) → ℕ → Option ℕ
  content_find [] zs = none
  content_find (entry ∷ entries) zs =
      let rest = content_find entries zs in
      if bytes_eq (m.bytes_at entry.0) (m.bytes_at zs) then some entry.1 else rest

  unfoldable pub hash_put : Option ℕ → List (ℕ × ℕ) → ℕ → ℕ → List (ℕ × ℕ)
  hash_put none entries zs idx = (zs, idx) ∷ entries
  hash_put (some _) entries zs idx = entries

  unfoldable pub hash_add : List (ℕ × ℕ) → ℕ → ℕ → List (ℕ × ℕ)
  unfolding hash_put content_find
  hash_add entries zs idx = hash_put (content_find entries zs) entries zs idx

  -- zend_hash_init and zend_hash_add of every string of the dictionary
  unfoldable pub hash_fill : List ℕ → ℕ → List (ℕ × ℕ) → List (ℕ × ℕ)
  unfolding hash_add
  hash_fill [] idx entries = entries
  hash_fill (zs ∷ dict) idx entries = hash_fill dict (idx + 1) (hash_add entries zs idx)

  -- The length of the collision chain that a string of this hash falls in, of `slots` hash slots.
  unfoldable pub chain_length : List (ℕ × ℕ) → ℕ → ℕ → ℕ
  chain_length [] slots h = 0
  chain_length (entry ∷ entries) slots h =
      let rest = chain_length entries slots h in
      if m.hash (m.bytes_at entry.0) % 2 ^ 32 % slots == h % 2 ^ 32 % slots then rest + 1 else rest

  -- ENC_DICT_MAX_CHAIN_LENGTH: `none` is the map destroyed.
  unfoldable pub enc_dict_hash_add : List (ℕ × ℕ) → ℕ → ℕ → Option (List (ℕ × ℕ))
  unfolding hash_add chain_length
  enc_dict_hash_add entries zs idx =
      let slots = m.table_slots (length entries) in
      if leb 64 (length entries) && leb 64 (chain_length entries slots (m.hash (m.bytes_at zs)))
      then none
      else some (hash_add entries zs idx)

  -- HASH_MAP_THRESHOLD: the fourth string starts the map.
  unfoldable pub map_add : Option (List (ℕ × ℕ)) → ℕ → ℕ → Option (List (ℕ × ℕ))
  unfolding enc_dict_hash_add
  map_add none zs idx = none
  map_add (some entries) zs idx = enc_dict_hash_add entries zs idx

  unfoldable pub map_after : Enc → ℕ → Option (List (ℕ × ℕ))
  unfolding hash_fill map_add
  map_after e zs =
      if length e.dict + 1 == 4
      then some (hash_fill (e.dict ++ (zs ∷ [])) 0 [])
      else map_add e.hash_map zs (length e.dict)

  unfoldable pub too_long : ℕ → Bool
  too_long zs = ltb uint32_max (length (m.bytes_at zs))

  -- The index of the new entry is the length of the dictionary before.
  unfoldable pub enc_dict_append : ℕ → Enc → Enc
  unfolding map_after too_long
  enc_dict_append zs e = record e {
    size_exceeded = e.size_exceeded || too_long zs;
    dict = e.dict ++ (zs ∷ []);
    hash_map = map_after e zs;
  }

  unfoldable pub enc_seed_dict_on_hit : Option ℕ → ℕ → ℕ → Enc → Enc
  unfolding put_slot
  enc_seed_dict_on_hit s zs idx e = if m.is_interned zs then put_slot s zs idx e else e

  -- `if (e->hash_map_inited) { hit = zend_hash_find(...); if (hit) ... }`
  unfoldable pub map_lookup : Option (List (ℕ × ℕ)) → ℕ → Option ℕ
  unfolding content_find
  map_lookup none zs = none
  map_lookup (some entries) zs = content_find entries zs

  unfoldable pub map_find : Enc → ℕ → Option ℕ
  unfolding map_lookup
  map_find e zs = map_lookup e.hash_map zs

  unfoldable pub content_hit : Option ℕ → ℕ → Enc → Option ℕ → Option ℕ × Enc
  unfolding enc_seed_dict_on_hit
  content_hit s zs e none = (none, e)
  content_hit s zs e (some idx) = (some idx, enc_seed_dict_on_hit s zs idx e)

  unfoldable pub known_idx : Option ℕ → ℕ → Enc → Option ℕ → Option ℕ × Enc
  unfolding content_hit map_find
  known_idx s zs e (some idx) = (some idx, e)
  known_idx s zs e none = content_hit s zs e (map_find e zs)

  unfoldable pub enc_str_dict_idx : ℕ → Enc → Option ℕ × Enc
  unfolding enc_cache_find dict_slot known_idx
  enc_str_dict_idx zs e = known_idx (enc_cache_find zs e) zs e (dict_slot (enc_cache_find zs e))

  -- enc_dict_append, and the index in the string's slot
  unfoldable pub promote : Option ℕ → ℕ → Enc → Enc
  unfolding put_slot enc_dict_append
  promote s zs e = put_slot s zs (length e.dict) (enc_dict_append zs e)

  unfoldable pub intern_miss : Option ℕ → ℕ → Option ℕ × Enc → ℕ × Enc
  unfolding promote
  intern_miss s zs (some idx, e) = (idx, e)
  intern_miss s zs (none, e) = (length e.dict, promote s zs e)

  unfoldable pub enc_intern_zstr : ℕ → Enc → ℕ × Enc
  unfolding enc_str_dict_idx intern_miss enc_cache_find
  enc_intern_zstr zs e = intern_miss (enc_cache_find zs e) zs (enc_str_dict_idx zs e)

  -- The first encounter. `false` is the return of -1.
  unfoldable pub emit_inline : ℕ → ℕ → Enc → Bool × Enc
  unfolding too_long enc_cache_alloc_slot
  emit_inline inline_tag zs e =
      if too_long zs then (false, record e { size_exceeded = true }) else (
        true,
        enc_cache_alloc_slot zs inline_mark
            (append (m.bytes_at zs) (emit_tag inline_tag (length (m.bytes_at zs)) e)),
      )

  -- Without a slot of its own, a string is looked up by its bytes.
  unfoldable pub emit_content : ℕ → ℕ → ℕ → Enc → Option ℕ → Bool × Enc
  unfolding enc_seed_dict_on_hit emit_inline
  emit_content dict_tag inline_tag zs e (some idx) =
      (true, emit_tag dict_tag idx (enc_seed_dict_on_hit none zs idx e))
  emit_content dict_tag inline_tag zs e none = emit_inline inline_tag zs e

  unfoldable pub emit_slot : ℕ → ℕ → ℕ → Enc → Option ℕ → Bool × Enc
  unfolding promote emit_content map_find
  emit_slot dict_tag inline_tag zs e (some idx) =
      if ltb idx inline_mark
      then (true, emit_tag dict_tag idx e)
      else (true, emit_tag dict_tag (length e.dict) (promote (some idx) zs e))
  emit_slot dict_tag inline_tag zs e none = emit_content dict_tag inline_tag zs e (map_find e zs)

  unfoldable pub enc_emit_str_tagged : ℕ → ℕ → ℕ → Enc → Bool × Enc
  unfolding emit_slot enc_cache_find
  enc_emit_str_tagged dict_tag inline_tag zs e =
      emit_slot dict_tag inline_tag zs e (enc_cache_find zs e)

  -- A string that is too long leaves a NULL.
  unfoldable pub emitted : Bool × Enc → Enc
  emitted (true, e) = e
  emitted (false, e) = append (Tag.byte Tag.null ∷ []) e

  unfoldable pub enc_emit_str_value : ℕ → Enc → Enc
  unfolding enc_emit_str_tagged emitted
  enc_emit_str_value zs e =
      emitted (enc_emit_str_tagged (Tag.byte Tag.str_dict) (Tag.byte Tag.str_inline) zs e)

  unfoldable pub enc_emit_str_key : ℕ → Enc → Enc
  unfolding enc_emit_str_tagged
  enc_emit_str_key zs e = (enc_emit_str_tagged Tag.key_str Tag.key_str_inline zs e).1
