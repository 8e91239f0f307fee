-- ===== src/Session.antt =====
-- phpser_session.c: the session serializer, which signs what it stores under phpser.session_key.
-- The session ID, the INI setting and the result of phpser_encode_zval_ex are arguments. The
-- warnings are not modelled, nor is the binding of $_SESSION after a decode.
pub mod Signed
pub mod Marker
pub mod Tests
use phpser.Base.{
  ℕ, zero, suc, ◌+◌, ◌-◌, Bool, true, false, List, [], ◌∷◌, ◌++◌, Option, some, none, if◌then◌else◌,
  ltb, leb, ◌==◌, length, take, drop, bytes_eq,
}
use phpser.Php.{Value, nil}
use phpser.Hmac.{Compress, HmacState, phpser_ct_eq, phpser_hmac_sha256}
use phpser.Decode.Ctx.{Engine, Outcome, ok, failed, beyond}
use phpser.Decode.Frame.{Graph, phpser_decode_buf_opts}

abbrev pub hmac_tag_len : ℕ
hmac_tag_len = 32

abbrev pub session_key_min : ℕ
session_key_min = 32

-- "phpser:session-not-serialized"
abbrev pub session_tombstone : List ℕ
session_tombstone =
    0x70 ∷ 0x68 ∷ 0x70 ∷ 0x73 ∷ 0x65 ∷ 0x72 ∷ 0x3a ∷ 0x73 ∷ 0x65 ∷ 0x73 ∷ 0x73 ∷ 0x69 ∷ 0x6f ∷ 0x6e
    ∷ 0x2d ∷ 0x6e ∷ 0x6f ∷ 0x74 ∷ 0x2d ∷ 0x73 ∷ 0x65 ∷ 0x72 ∷ 0x69 ∷ 0x61 ∷ 0x6c ∷ 0x69 ∷ 0x7a
    ∷ 0x65 ∷ 0x64 ∷ []

-- "phpser:session:v1" and its terminating NUL
abbrev pub session_kdf_label : List ℕ
session_kdf_label =
    0x70 ∷ 0x68 ∷ 0x70 ∷ 0x73 ∷ 0x65 ∷ 0x72 ∷ 0x3a ∷ 0x73 ∷ 0x65 ∷ 0x73 ∷ 0x73 ∷ 0x69 ∷ 0x6f ∷ 0x6e
    ∷ 0x3a ∷ 0x76 ∷ 0x31 ∷ 0x00 ∷ []

-- phpser_skey_status, with the key where there is one
pub data KeyStatus : Type 0 where
  skey_unset skey_short : KeyStatus
  skey_ok : List ℕ → KeyStatus

unfoldable pub phpser_session_key_lookup : Option (List ℕ) → KeyStatus
phpser_session_key_lookup none = skey_unset
phpser_session_key_lookup (some key) =
    if length key == 0
    then skey_unset
    else if ltb (length key) session_key_min
    then skey_short
    else skey_ok key

-- The state of one request: the setting, PS(id), ext/hash's SHA-256 and the HMAC cache.
pub record Session : Type 0 where
  pub session_key : Option (List ℕ)
  pub sid : Option (List ℕ)
  pub sha256_ops : Option Compress
  pub hmac_state : HmacState

abbrev pub keep : HmacState → Session → Session
keep hs s = record s { hmac_state = hs }

unfoldable pub phpser_session_tag : Session → List ℕ → List ℕ → Option (List ℕ × Session)
phpser_session_tag s key frame = elim s.sid [
  | none ↦ none
  | some sid ↦ elim (phpser_hmac_sha256 s.sha256_ops s.hmac_state key (session_kdf_label ++ sid)) [
    | none ↦ none
    | some (subkey, hs) ↦ elim (phpser_hmac_sha256 s.sha256_ops hs subkey frame) [
      | none ↦ none
      | some (tag, hs') ↦ some (tag, keep hs' s)
    ]
  ]
]

-- What phpser_encode_zval_ex returns: a frame, or NULL with its status.
pub data Encoded : Type 0 where
  enc_ok : List ℕ → Encoded
  enc_size enc_exception enc_depth enc_failed : Encoded

unfoldable pub signed_frame : Session → List ℕ → List ℕ → Option (List ℕ) × Session
unfolding phpser_session_tag
signed_frame s key frame = elim (phpser_session_tag s key frame) [
  | none ↦ (some session_tombstone, s)
  | some (tag, s') ↦ (some (frame ++ tag), s')
]

unfoldable pub encode_status : Session → KeyStatus → Encoded → Option (List ℕ) × Session
unfolding signed_frame
encode_status s skey_short encoded = (some session_tombstone, s)
encode_status s skey_unset (enc_ok frame) = (some frame, s)
encode_status s (skey_ok key) (enc_ok frame) = signed_frame s key frame
encode_status s status enc_exception = (none, s)
encode_status s status _ = (some session_tombstone, s)

-- PS_SERIALIZER_ENCODE_FUNC(phpser): what is stored, or none for NULL.
unfoldable pub encode_func : Session → Encoded → Option (List ℕ) × Session
unfolding encode_status phpser_session_key_lookup
encode_func s encoded = encode_status s (phpser_session_key_lookup s.session_key) encoded

-- Z_TYPE(decoded) == IS_ARRAY
unfoldable pub is_array : Value → Bool
is_array (Value.packed vs) = true
is_array (Value.hash bs) = true
is_array Value.empty_array = true
is_array (Value.shared i) = true
is_array _ = false

unfoldable pub array_root : Graph → Outcome Graph
unfolding is_array
array_root g = if is_array g.value then ok g else failed

-- A frame once its tag is off.
unfoldable pub decode_payload : Engine → List ℕ → Outcome Graph
unfolding array_root
decode_payload eng [] = ok (record { value = Value.packed nil; cells = []; id_table = [] })
decode_payload eng (b ∷ val) = elim (phpser_decode_buf_opts eng (b ∷ val) Bool.true) [
  | ok (g, d) ↦ array_root g
  | failed ↦ failed
  | beyond ↦ beyond
]

unfoldable pub decode_tagged : Engine → List ℕ → List ℕ → List ℕ → Outcome Graph
unfolding decode_payload
decode_tagged eng frame stored tag =
    if phpser_ct_eq tag stored hmac_tag_len then decode_payload eng frame else failed

unfoldable pub check_tag : Engine → Session → List ℕ → List ℕ → List ℕ → Outcome Graph × Session
unfolding phpser_session_tag decode_tagged
check_tag eng s key frame stored = elim (phpser_session_tag s key frame) [
  | none ↦ (failed, s)
  | some (tag, s') ↦ (decode_tagged eng frame stored tag, s')
]

unfoldable pub decode_signed : Engine → Session → List ℕ → List ℕ → Outcome Graph × Session
unfolding check_tag
decode_signed eng s key val =
    let split = length val - hmac_tag_len in
    if bytes_eq val session_tombstone
    then (failed, s)
    else if leb (length val) hmac_tag_len
    then (failed, s)
    else check_tag eng s key (take split val) (drop split val)

unfoldable pub decode_status : Engine → Session → KeyStatus → List ℕ → Outcome Graph × Session
unfolding decode_signed decode_payload
decode_status eng s skey_short val = (failed, s)
decode_status eng s skey_unset val = (decode_payload eng val, s)
decode_status eng s (skey_ok key) val =
    if length val == 0 then (decode_payload eng val, s) else decode_signed eng s key val

-- PS_SERIALIZER_DECODE_FUNC(phpser): the new $_SESSION, or failed for FAILURE.
unfoldable pub decode_func : Engine → Session → List ℕ → Outcome Graph × Session
unfolding decode_status phpser_session_key_lookup
decode_func eng s val = decode_status eng s (phpser_session_key_lookup s.session_key) val
