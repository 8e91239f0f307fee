-- ===== src/Keyed/Tests.antt =====
-- Runs of the C API.
use phpser.Base.{inl, ℕ, ◌≡◌, ◌≢◌, ◌∙◌, refl, true, List, [], ◌∷◌, ◌++◌, some, bytes_eq, arith}
use phpser.Hmac.{HmacState}
use phpser.Hmac.Cache.{hmac, IsCurrent}
use phpser.Session.{session_kdf_label}
use phpser.Sample.{
  plain_engine, adding, empty_cache, empty_cache-IsCurrent, key, key-bytes, frame, frame_graph,
  frame_run,
}
use phpser.Keyed.{
  zeroed, SubkeyCache, Keyed, has_no_nul, phpser_keyed_context_valid, keyed_message,
  phpser_keyed_subkey, keyed_ok, rc_of, decode_exact, phpser_api_serialize, phpser_api_unserialize,
}
use phpser.Keyed.Subkey.{IsDerived, keyed, keyed_message-session, phpser_keyed_subkey-hmac}
use phpser.Keyed.Api.{
  phpser_api_unserialize-tagged, phpser_api_unserialize-signed_only,
  phpser_api_unserialize-serialize,
}
use phpser.Keyed.Verify.{store_tag}

-- "apcu"
abbrev apcu : List ℕ
apcu = 0x61 ∷ 0x70 ∷ 0x63 ∷ 0x75 ∷ []

apcu-valid : phpser_keyed_context_valid apcu ≡ true
unfolding phpser_keyed_context_valid has_no_nul bytes_eq
apcu-valid = refl

zeroed-IsDerived : IsDerived adding zeroed
unfolding IsDerived
zeroed-IsDerived = inl refl

keyed_message-session_example : keyed_message apcu ≢ session_kdf_label ++ 0x61 ∷ []
keyed_message-session_example = keyed_message-session apcu (0x61 ∷ []) apcu-valid

phpser_keyed_subkey-hmac_example :
    (hs' : HmacState) × (c' : SubkeyCache) × (phpser_keyed_subkey
        (keyed adding key empty_cache zeroed)
        key
        apcu
      ≡ (some (hmac adding key (keyed_message apcu)), keyed adding key hs' c'))
    × IsCurrent adding hs'
    × IsDerived adding c'
phpser_keyed_subkey-hmac_example =
    phpser_keyed_subkey-hmac adding key apcu empty_cache zeroed key-bytes empty_cache-IsCurrent
      zeroed-IsDerived

phpser_api_unserialize-serialize_example :
    (stored : List ℕ) × (s' : Keyed) × (phpser_api_serialize
        (keyed adding key empty_cache zeroed)
        apcu
        (some frame)
      ≡ (some stored, s'))
    × ((phpser_api_unserialize plain_engine s' stored apcu).0 ≡ decode_exact plain_engine frame)
phpser_api_unserialize-serialize_example =
    phpser_api_unserialize-serialize plain_engine adding key apcu frame empty_cache zeroed key-bytes
      (omega arith) apcu-valid empty_cache-IsCurrent zeroed-IsDerived

frame_decoded : decode_exact plain_engine frame ≡ keyed_ok frame_graph
unfolding decode_exact rc_of
frame_decoded = rw (decode_exact, frame_run) refl

abbrev signed : List ℕ
signed = frame ++ store_tag adding key apcu frame

phpser_api_unserialize-signed_only_example :
    (frame' : List ℕ) × (signed
      ≡ frame' ++ hmac adding (hmac adding key (keyed_message apcu)) frame')
    × (decode_exact plain_engine frame' ≡ keyed_ok frame_graph)
phpser_api_unserialize-signed_only_example =
    phpser_api_unserialize-signed_only plain_engine adding key apcu signed empty_cache zeroed
      frame_graph key-bytes (omega arith) apcu-valid empty_cache-IsCurrent zeroed-IsDerived
      (phpser_api_unserialize-tagged plain_engine adding key apcu frame empty_cache zeroed key-bytes
          (omega arith) apcu-valid empty_cache-IsCurrent zeroed-IsDerived
        ∙ frame_decoded)
