-- ===== src/Session/Marker.antt =====
-- The marker that stands for a session which could not be serialized.
use phpser.Base.{ℕ, ◌≡◌, refl, List, Option, some, none, arith, bytes_eq_refl}
use phpser.Decode.Ctx.{Engine, failed, read_byte, first_byte, require}
use phpser.Decode.Frame.{phpser_decode_buf_opts, decode_frame, decode_header, initial_ctx}
use phpser.Session.{
  session_tombstone, KeyStatus, skey_unset, skey_short, skey_ok, phpser_session_key_lookup, Session,
  Encoded, enc_ok, enc_exception, encode_status, encode_func, decode_payload, decode_signed,
  decode_status, decode_func,
}

-- The marker starts with no version byte.
decode_payload-tombstone : (eng : Engine) → decode_payload eng session_tombstone ≡ failed
unfolding decode_payload phpser_decode_buf_opts decode_frame decode_header initial_ctx read_byte
    first_byte require
decode_payload-tombstone eng = refl

decode_signed-tombstone :
    (eng : Engine) (s : Session) (key : List ℕ)
    → (decode_signed eng s key session_tombstone).0 ≡ failed
unfolding decode_signed
decode_signed-tombstone eng s key = rw (bytes_eq_refl session_tombstone) refl

decode_status-tombstone :
    (eng : Engine) (s : Session) (status : KeyStatus)
    → (decode_status eng s status session_tombstone).0 ≡ failed
unfolding decode_status
decode_status-tombstone eng s skey_short = refl
decode_status-tombstone eng s skey_unset = decode_payload-tombstone eng
decode_status-tombstone eng s (skey_ok key) = decode_signed-tombstone eng s key

-- The frame of an encoding that gave one.
unfoldable pub frame_of : Encoded → Option (List ℕ)
frame_of (enc_ok frame) = some frame
frame_of _ = none

lost-stored :
    (s s' : Session) (status : KeyStatus) (encoded : Encoded) (stored : List ℕ)
    → frame_of encoded ≡ none
    → encode_status s status encoded ≡ (some stored, s')
    → stored ≡ session_tombstone
unfolding frame_of encode_status
lost-stored s s' skey_short encoded stored h e = ground arith
lost-stored s s' status (enc_ok frame) stored h e = absurd (ground arith)
lost-stored s s' skey_unset enc_exception stored h e = absurd (ground arith)
lost-stored s s' (skey_ok key) enc_exception stored h e = absurd (ground arith)
lost-stored s s' skey_unset _ stored h e = ground arith
lost-stored s s' (skey_ok key) _ stored h e = ground arith

-- A session that could not be encoded is not read back as an empty one: what is stored for it, if
-- anything is, fails to decode in every later request, whatever its key, session ID and HMAC cache.
pub lost_session-fails :
    (eng : Engine) (s s' later : Session) (encoded : Encoded) (stored : List ℕ)
    → frame_of encoded ≡ none
    → encode_func s encoded ≡ (some stored, s')
    → (decode_func eng later stored).0 ≡ failed
unfolding encode_func decode_func
lost_session-fails eng s s' later encoded stored h e =
    rw (lost-stored s s' (phpser_session_key_lookup s.session_key) encoded stored h e)
      (decode_status-tombstone eng later (phpser_session_key_lookup later.session_key))
