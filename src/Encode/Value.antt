-- ===== src/Encode/Value.antt =====
-- encode_value_ex and encode_value_inner for values without objects. ENC_RCN, which
-- is read for objects alone, is left out.

use phpser.Base.{
  ℕ, zero, suc, ◌+◌, ◌%◌, ◌^◌, Bool, true, false, ◌&&◌, ◌||◌, [], ◌∷◌, ◌++◌, if◌then◌else◌, ltb,
  ◌==◌, length, take, drop,
}
use phpser.Tag
use phpser.Tag.{Tag}
use phpser.Wire.{zigzag_encode64, le64_put}
use phpser.Encode.Memory.{
  Memory, Zval, undef, null, long, double, str, arr, ref, HashTable, num_elements,
}
use phpser.Encode.Ctx.{
  Enc, append, emit_tag, set_wire_v2, enc_visit, ArrVisit, arr_new, arr_by_value, arr_repeat,
  enc_visit_array, enc_array_done,
}
use phpser.Encode.Strings.{enc_emit_str_value}
use phpser.Encode.Array.{encode_hashtable}
use phpser.Encode.Table.{gc_refcount, is_shared, hold, release}

module _ (m : Memory) where
  module _ (encode : Bool → Zval → Enc → Enc) where
    -- `e->depth > 1`, and more than one holder beside the encoder
    unfoldable pub is_claimable : Bool → Bool → ℕ → HashTable → Enc → Bool
    unfolding is_shared gc_refcount num_elements
    is_claimable nested borrowed p t e =
        (m.is_immutable p
          || (is_shared m e p && ltb (if borrowed then 2 else 1) (gc_refcount m e p)))
        && nested
        && ltb 0 (num_elements t)

    unfoldable pub encode_held : Bool → ℕ → HashTable → Enc → Enc
    unfolding release encode_hashtable is_shared hold
    encode_held nested p t e =
        release e (encode_hashtable m encode nested (is_shared m e p) p t (hold m p e))

    -- `memmove(base + prefix_off, base + prefix_off + 1, ...)`
    unfoldable pub drop_prefix : ℕ → Enc → Enc
    drop_prefix off e = record e { body = take off e.body ++ drop (off + 1) e.body }

    unfoldable pub close_claim : ℕ → ℕ → Enc → Enc → Enc
    unfolding enc_array_done drop_prefix
    close_claim off p before e =
        if e.refs_seen == before.refs_seen
        then set_wire_v2 (enc_array_done p true e)
        else drop_prefix off (enc_array_done p false e)

    unfoldable pub encode_visited : Bool → ℕ → HashTable → ArrVisit × Enc → Enc
    unfolding close_claim encode_held
    encode_visited nested p t (arr_repeat id, e) = emit_tag (Tag.byte Tag.ref) id e
    encode_visited nested p t (arr_by_value, e) = encode_held nested p t e
    encode_visited nested p t (arr_new, e) =
        close_claim (length e.body) p e
          (encode_held nested p t (append (Tag.byte Tag.shared_array ∷ []) e))

    unfoldable pub encode_array : Bool → Bool → ℕ → HashTable → Enc → Enc
    unfolding is_claimable encode_visited encode_held enc_visit_array
    encode_array nested borrowed p t e =
        if is_claimable nested borrowed p t e
        then encode_visited nested p t (enc_visit_array p e)
        else encode_held nested p t e

    unfoldable pub encode_ref : ℕ → Bool × ℕ × Enc → Enc
    encode_ref r (false, id, e) = emit_tag (Tag.byte Tag.ref) id e
    encode_ref r (true, id, e) = encode false (m.ref_value r) (append (Tag.byte Tag.new_ref ∷ []) e)

    unfoldable pub encode_value_inner : Bool → Bool → Zval → Enc → Enc
    unfolding enc_emit_str_value encode_array encode_ref enc_visit
    encode_value_inner nested borrowed undef e = append (Tag.byte Tag.null ∷ []) e
    encode_value_inner nested borrowed null e = append (Tag.byte Tag.null ∷ []) e
    encode_value_inner nested borrowed Zval.false e = append (Tag.byte Tag.false ∷ []) e
    encode_value_inner nested borrowed Zval.true e = append (Tag.byte Tag.true ∷ []) e
    encode_value_inner nested borrowed (long v) e =
        emit_tag (Tag.byte Tag.long) (zigzag_encode64 v) e
    encode_value_inner nested borrowed (double v) e = record e {
      body = le64_put (e.body ++ (Tag.byte Tag.double ∷ [])) v;
    }
    encode_value_inner nested borrowed (str zs) e = enc_emit_str_value m zs e
    encode_value_inner nested borrowed (arr p t) e = encode_array nested borrowed p t e
    encode_value_inner nested borrowed (ref r) e =
        encode_ref r (enc_visit r (record e { refs_seen = (e.refs_seen + 1) % 2 ^ 32 }))

  -- `levels` is MAX_DEPTH - e->depth, so that the depth is above 1 where less than 511 are left.
  unfoldable pub encode_value_ex : ℕ → Bool → Zval → Enc → Enc
  unfolding encode_value_inner
  encode_value_ex zero borrowed v e =
      append (Tag.byte Tag.null ∷ []) (record e { depth_exceeded = true })
  encode_value_ex (suc levels) borrowed v e =
      encode_value_inner (encode_value_ex levels) (ltb levels 511) borrowed v e
