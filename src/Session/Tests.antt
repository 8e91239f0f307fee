-- ===== src/Session/Tests.antt =====
-- Runs of the session handler.
use phpser.Base.{ℕ, ◌≡◌, ◌<◌, ◌∙◌, refl, List, [], ◌∷◌, ◌++◌, some, none, length, arith}
use phpser.Hmac.Cache.{hmac}
use phpser.Decode.Ctx.{ok, failed}
use phpser.Sample.{
  plain_engine, adding, empty_cache, empty_cache-IsCurrent, key, key-bytes, frame, frame_graph,
  frame_run,
}
use phpser.Session.{
  session_tombstone, session_kdf_label, Session, enc_ok, enc_depth, phpser_session_key_lookup,
  encode_status, encode_func, decode_payload, decode_func, array_root, is_array,
}
use phpser.Session.Signed.{
  signing, session_subkey, decode_func-tagged, decode_func-signed_only, decode_func-encode_func,
}
use phpser.Session.Marker.{frame_of, lost_session-fails}

decode_func-encode_func_example :
    (stored : List ℕ) × (s' : Session) × (encode_func
        (signing adding key (0x61 ∷ []) empty_cache)
        (enc_ok frame)
      ≡ (some stored, s'))
    × ((decode_func plain_engine s' stored).0 ≡ decode_payload plain_engine frame)
decode_func-encode_func_example =
    decode_func-encode_func plain_engine adding key (0x61 ∷ []) frame empty_cache key-bytes
      (omega arith) empty_cache-IsCurrent (omega arith)

depth_stored :
    encode_func (signing adding key (0x61 ∷ []) empty_cache) enc_depth
    ≡ (some session_tombstone, signing adding key (0x61 ∷ []) empty_cache)
unfolding encode_func encode_status phpser_session_key_lookup
depth_stored = refl

depth_lost : frame_of enc_depth ≡ none
unfolding frame_of
depth_lost = refl

lost_session-fails_example :
    (decode_func plain_engine (signing adding key (0x62 ∷ []) empty_cache) session_tombstone).0
    ≡ failed
lost_session-fails_example =
    lost_session-fails plain_engine (signing adding key (0x61 ∷ []) empty_cache)
      (signing adding key (0x61 ∷ []) empty_cache) (signing adding key (0x62 ∷ []) empty_cache)
      enc_depth session_tombstone depth_lost depth_stored

frame_decoded : decode_payload plain_engine frame ≡ ok frame_graph
unfolding decode_payload array_root is_array
frame_decoded = rw (decode_payload, frame_run) refl

abbrev signed : List ℕ
signed = frame ++ hmac adding (session_subkey adding key (0x61 ∷ [])) frame

decode_func-signed_only_example :
    (frame' : List ℕ) × (signed
      ≡ frame' ++ hmac adding (hmac adding key (session_kdf_label ++ 0x61 ∷ [])) frame')
    × (0 < length frame')
    × (decode_payload plain_engine frame' ≡ ok frame_graph)
decode_func-signed_only_example =
    decode_func-signed_only plain_engine adding key (0x61 ∷ []) signed empty_cache frame_graph
      key-bytes (omega arith) empty_cache-IsCurrent (omega arith)
      (decode_func-tagged plain_engine adding key (0x61 ∷ []) frame empty_cache key-bytes
          (omega arith) empty_cache-IsCurrent (omega arith)
        ∙ frame_decoded)
