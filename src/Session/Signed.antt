-- ===== src/Session/Signed.antt =====
-- What a session handler with a key accepts, and what becomes of what it wrote.
use phpser.Base.{
  ℕ, ◌+◌, ◌-◌, ◌≤◌, ◌<◌, ◌≡◌, refl, sym, ap, ◌∙◌, false, List, [], ◌∷◌, ◌++◌, some, inl, inr, arith,
  leb, length, take, drop, lengths, All, Bool-cases, bytes_eq, bytes_eq→eq, take-append-drop,
  take-append_length, drop-append_length, length-take_le,
}
use phpser.Wire.{IsByte}
use phpser.Hmac.{Compress, HmacState, phpser_ct_eq, store_digest}
use phpser.Hmac.Padding.{sha256}
use phpser.Hmac.Cache.{IsByte-store_digest, hmac, IsCurrent, phpser_hmac_sha256-hmac}
use phpser.Hmac.Compare.{phpser_ct_eq-eq, phpser_ct_eq_refl}
use phpser.Decode.Ctx.{Engine, ok}
use phpser.Decode.Frame.{Graph}
use phpser.Session.{
  session_tombstone, session_kdf_label, skey_ok, phpser_session_key_lookup, Session,
  phpser_session_tag, enc_ok, signed_frame, encode_status, encode_func, decode_payload,
  decode_tagged, check_tag, decode_signed, decode_status, decode_func,
}

-- The key of one session: the handler's key bound to the session ID.
abbrev pub session_subkey : Compress → List ℕ → List ℕ → List ℕ
session_subkey compress key sid = hmac compress key (session_kdf_label ++ sid)

pub length-hmac :
    (compress : Compress) (key message : List ℕ) → length (hmac compress key message) ≡ 32
unfolding hmac sha256 store_digest
length-hmac compress key message = refl

pub IsByte-hmac :
    (compress : Compress) (key message : List ℕ) → All IsByte (hmac compress key message)
unfolding hmac sha256
IsByte-hmac compress key message = IsByte-store_digest _

-- A request that signs: SHA-256 is there, the key is set and the session has an ID.
abbrev pub signing : Compress → List ℕ → List ℕ → HmacState → Session
signing compress key sid hs = record {
  session_key = some key;
  sid = some sid;
  sha256_ops = some compress;
  hmac_state = hs;
}

lookup-key : (key : List ℕ) → 32 ≤ length key → phpser_session_key_lookup (some key) ≡ skey_ok key
unfolding phpser_session_key_lookup
lookup-key key h = ground arith

-- The tag of a frame is HMAC under the session's key, and the cache stays current.
phpser_session_tag-hmac :
    (compress : Compress) (key sid frame : List ℕ) (hs : HmacState)
    → All IsByte key
    → IsCurrent compress hs
    → (hs' : HmacState) × (phpser_session_tag (signing compress key sid hs) key frame
        ≡ some
            (hmac compress (session_subkey compress key sid) frame, signing compress key sid hs'))
      × IsCurrent compress hs'
unfolding phpser_session_tag
phpser_session_tag-hmac compress key sid frame hs bytes cur =
    let (hs₁, first, cur₁) =
      phpser_hmac_sha256-hmac compress hs key (session_kdf_label ++ sid) bytes cur in
    let (hs₂, second, cur₂) =
      phpser_hmac_sha256-hmac compress hs₁ (session_subkey compress key sid) frame
        (IsByte-hmac compress key (session_kdf_label ++ sid)) cur₁ in
    (hs₂, rw (phpser_session_tag, first, second) refl, cur₂)

-- What is no longer than a tag is not a signed frame, and the marker is short enough.
tombstone_short : (val : List ℕ) → 32 < length val → bytes_eq val session_tombstone ≡ false
tombstone_short val h = elim (Bool-cases (bytes_eq val session_tombstone)) [
  | inl e ↦
      let len : length val ≡ 29 = ap length (bytes_eq→eq val session_tombstone e) in
      absurd (omega arith)
  | inr e ↦ e
]

-- What a tag is put after comes apart again.
tail_of : (frame tag : List ℕ) → length tag ≡ 32 → length (frame ++ tag) - 32 ≡ length frame
tail_of frame tag h = omega lengths

-- The bytes after a frame are compared with its HMAC under the session's key.
check_tag-hmac :
    (eng : Engine) (compress : Compress) (key sid frame stored : List ℕ) (hs : HmacState)
    → All IsByte key
    → IsCurrent compress hs
    → (check_tag eng (signing compress key sid hs) key frame stored).0
      ≡ decode_tagged eng frame stored (hmac compress (session_subkey compress key sid) frame)
unfolding check_tag
check_tag-hmac eng compress key sid frame stored hs byte_key cur =
    let (hs', tagged, _) = phpser_session_tag-hmac compress key sid frame hs byte_key cur in
    rw (check_tag, tagged) refl

decode_tagged-own :
    (eng : Engine) (frame tag : List ℕ) → decode_tagged eng frame tag tag ≡ decode_payload eng frame
unfolding decode_tagged
decode_tagged-own eng frame tag = rw (phpser_ct_eq_refl 32 tag) refl

decode_tagged-accepted :
    (eng : Engine) (frame stored tag : List ℕ) (g : Graph)
    → length stored ≡ 32
    → length tag ≡ 32
    → decode_tagged eng frame stored tag ≡ ok g
    → (tag ≡ stored) × (decode_payload eng frame ≡ ok g)
unfolding decode_tagged
decode_tagged-accepted eng frame stored tag g len len' e =
    elim (Bool-cases (phpser_ct_eq tag stored 32)) [
      | inl same ↦ (phpser_ct_eq-eq 32 tag stored len' len same, ground arith)
      | inr differ ↦ absurd (ground arith)
    ]

-- The frame that a signing request reads is the frame that it wrote.
decode_signed-tagged :
    (eng : Engine) (compress : Compress) (key sid frame : List ℕ) (hs : HmacState)
    → All IsByte key
    → IsCurrent compress hs
    → 0 < length frame
    → (decode_signed eng
        (signing compress key sid hs)
        key
        (frame ++ hmac compress (session_subkey compress key sid) frame)).0
      ≡ decode_payload eng frame
unfolding decode_signed
decode_signed-tagged eng compress key sid frame hs byte_key cur some_bytes =
    let tag = hmac compress (session_subkey compress key sid) frame in
    let s = signing compress key sid hs in
    let val = frame ++ tag in
    let len : length tag ≡ 32 = length-hmac compress (session_subkey compress key sid) frame in
    let bytes : length val ≡ length frame + 32 = omega (lengths, len) in
    let long : leb (length val) 32 ≡ false = ground arith in
    let unmarked : bytes_eq val session_tombstone ≡ false = tombstone_short val (omega arith) in
    let parts : (check_tag eng s key (take (length val - 32) val) (drop (length val - 32) val)).0
        ≡ (check_tag eng s key frame tag).0 =
      ap (λ n. (check_tag eng s key (take n val) (drop n val)).0) (tail_of frame tag len)
      ∙ rw (take-append_length frame tag, drop-append_length frame tag) refl in
    rw (unmarked, long)
      (parts
        ∙ check_tag-hmac eng compress key sid frame tag hs byte_key cur
        ∙ decode_tagged-own eng frame tag)

decode_signed-accepted :
    (eng : Engine) (compress : Compress) (key sid val : List ℕ) (hs : HmacState) (g : Graph)
    → All IsByte key
    → IsCurrent compress hs
    → (decode_signed eng (signing compress key sid hs) key val).0 ≡ ok g
    → (frame : List ℕ) × (val ≡ frame ++ hmac compress (session_subkey compress key sid) frame)
      × (0 < length frame)
      × (decode_payload eng frame ≡ ok g)
unfolding decode_signed
decode_signed-accepted eng compress key sid val hs g byte_key cur e =
    let s = signing compress key sid hs in
    let split = length val - 32 in
    let checked : (32 < length val)
        × ((check_tag eng s key (take split val) (drop split val)).0 ≡ ok g) =
      ground arith in
    let tag = hmac compress (session_subkey compress key sid) (take split val) in
    let (same, decoded) =
      decode_tagged-accepted eng (take split val) (drop split val) tag g (omega lengths)
        (length-hmac compress (session_subkey compress key sid) (take split val))
        (sym (check_tag-hmac eng compress key sid (take split val) (drop split val) hs byte_key cur)
          ∙ checked.1) in
    (
      take split val,
      rw same (sym (take-append-drop split val)),
      omega (arith, checked.0, length-take_le split val (omega arith)),
      decoded,
    )

decode_func-signed :
    (eng : Engine) (compress : Compress) (key sid val : List ℕ) (hs : HmacState)
    → 32 ≤ length key
    → 0 < length val
    → decode_func eng (signing compress key sid hs) val
      ≡ decode_signed eng (signing compress key sid hs) key val
unfolding decode_func decode_status
decode_func-signed eng compress key sid [] hs long some_bytes = absurd (omega arith)
decode_func-signed eng compress key sid (b ∷ val) hs long some_bytes =
    rw (decode_func, lookup-key key long) (ground arith)

-- With phpser.session_key set to at least 32 bytes, $_SESSION is loaded from stored bytes only if
-- they are empty or a frame followed by its HMAC-SHA256 under the key of this session ID, and what
-- is loaded is what that frame decodes to. The HMAC cache is empty or current before.
pub decode_func-signed_only :
    (eng : Engine) (compress : Compress) (key sid val : List ℕ) (hs : HmacState) (g : Graph)
    → All IsByte key
    → 32 ≤ length key
    → IsCurrent compress hs
    → 0 < length val
    → (decode_func eng (signing compress key sid hs) val).0 ≡ ok g
    → (frame : List ℕ) × (val
        ≡ frame ++ hmac compress (hmac compress key (session_kdf_label ++ sid)) frame)
      × (0 < length frame)
      × (decode_payload eng frame ≡ ok g)
decode_func-signed_only eng compress key sid val hs g byte_key long cur some_bytes e =
    decode_signed-accepted eng compress key sid val hs g byte_key cur
      (ap (λ r. r.0) (sym (decode_func-signed eng compress key sid val hs long some_bytes)) ∙ e)

pub decode_func-tagged :
    (eng : Engine) (compress : Compress) (key sid frame : List ℕ) (hs : HmacState)
    → All IsByte key
    → 32 ≤ length key
    → IsCurrent compress hs
    → 0 < length frame
    → (decode_func eng
        (signing compress key sid hs)
        (frame ++ hmac compress (session_subkey compress key sid) frame)).0
      ≡ decode_payload eng frame
decode_func-tagged eng compress key sid frame hs byte_key long cur some_bytes =
    let stored = frame ++ hmac compress (session_subkey compress key sid) frame in
    ap (λ r. r.0) (decode_func-signed eng compress key sid stored hs long (omega lengths))
    ∙ decode_signed-tagged eng compress key sid frame hs byte_key cur some_bytes

encode_func-signs :
    (compress : Compress) (key sid frame : List ℕ) (hs : HmacState)
    → All IsByte key
    → 32 ≤ length key
    → IsCurrent compress hs
    → (hs' : HmacState) × (encode_func (signing compress key sid hs) (enc_ok frame) ≡ (
      some (frame ++ hmac compress (session_subkey compress key sid) frame),
      signing compress key sid hs',
    ))
      × IsCurrent compress hs'
unfolding encode_func encode_status signed_frame
encode_func-signs compress key sid frame hs byte_key long cur =
    let (hs', tagged, cur') = phpser_session_tag-hmac compress key sid frame hs byte_key cur in
    (hs', rw (encode_func, lookup-key key long, signed_frame, tagged) refl, cur')

-- A session that is stored signed and read back under the same key and session ID: the encoder
-- appends a tag to any frame, and the decoder accepts the result and decodes that very frame.
pub decode_func-encode_func :
    (eng : Engine) (compress : Compress) (key sid frame : List ℕ) (hs : HmacState)
    → All IsByte key
    → 32 ≤ length key
    → IsCurrent compress hs
    → 0 < length frame
    → (stored : List ℕ) × (s' : Session) × (encode_func (signing compress key sid hs) (enc_ok frame)
        ≡ (some stored, s'))
      × ((decode_func eng s' stored).0 ≡ decode_payload eng frame)
decode_func-encode_func eng compress key sid frame hs byte_key long cur some_bytes =
    let (hs', signed, cur') = encode_func-signs compress key sid frame hs byte_key long cur in
    let stored = frame ++ hmac compress (session_subkey compress key sid) frame in
    (
      stored,
      signing compress key sid hs',
      signed,
      decode_func-tagged eng compress key sid frame hs' byte_key long cur' some_bytes,
    )
