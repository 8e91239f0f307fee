-- ===== src/Keyed.antt =====
-- phpser_api.c: frames signed under phpser.key for a named store, and the exported functions. The
-- result of phpser_encode_zval_ex is an argument. The APCu callbacks are these functions at the
-- context "apcu"; warnings and status texts are not modelled.
pub mod Subkey
pub mod Verify
pub mod Api
pub mod Tests
use phpser.Base.{
  ℕ, ◌+◌, ◌-◌, Bool, true, false, not, ◌&&◌, ◌||◌, List, [], ◌∷◌, ◌++◌, Option, some, none,
  if◌then◌else◌, ltb, leb, ◌==◌, length, take, drop, bytes_eq,
}
use phpser.Hmac.{Compress, HmacState, phpser_ct_eq, phpser_hmac_sha256}
use phpser.Decode.Ctx.{Engine, Outcome, ok, failed, beyond, Ctx}
use phpser.Decode.Frame.{Graph, phpser_decode_buf_opts}

abbrev pub tag_len : ℕ
tag_len = 32

abbrev pub key_min : ℕ
key_min = 32

abbrev pub keyed_context_max : ℕ
keyed_context_max = 255

abbrev pub subkey_cache_key_max : ℕ
subkey_cache_key_max = 128

-- "phpser:"
abbrev pub keyed_label_prefix : List ℕ
keyed_label_prefix = 0x70 ∷ 0x68 ∷ 0x70 ∷ 0x73 ∷ 0x65 ∷ 0x72 ∷ 0x3a ∷ []

-- ":v1" and its terminating NUL
abbrev pub keyed_label_suffix : List ℕ
keyed_label_suffix = 0x3a ∷ 0x76 ∷ 0x31 ∷ 0x00 ∷ []

-- "session"
abbrev pub session_context : List ℕ
session_context = 0x73 ∷ 0x65 ∷ 0x73 ∷ 0x73 ∷ 0x69 ∷ 0x6f ∷ 0x6e ∷ []

-- phpser_subkey_cache: the arrays up to their lengths.
pub record SubkeyCache : Type 0 where
  pub valid : Bool
  pub cached_key : List ℕ
  pub cached_context : List ℕ
  pub cached_subkey : List ℕ

abbrev pub zeroed : SubkeyCache
zeroed = record { valid = false; cached_key = []; cached_context = []; cached_subkey = [] }

-- The setting, ext/hash's SHA-256 and the two caches of a thread.
pub record Keyed : Type 0 where
  pub phpser_key : Option (List ℕ)
  pub sha256_ops : Option Compress
  pub hmac_state : HmacState
  pub subkey_cache : SubkeyCache

-- phpser_key_status, with the key where there is one
pub data KeyedStatus : Type 0 where
  key_unset key_short : KeyedStatus
  key_ok : List ℕ → KeyedStatus

unfoldable pub key_status : Option (List ℕ) → KeyedStatus
key_status none = key_unset
key_status (some key) =
    if length key == 0
    then key_unset
    else if ltb (length key) key_min
    then key_short
    else key_ok key

-- phpser_subkey_cache_drop, where the key is unset or short
unfoldable pub phpser_subkey_cache_drop : Keyed → Keyed
phpser_subkey_cache_drop s = record s { subkey_cache = zeroed }

unfoldable pub drop_unless_ok : KeyedStatus → Keyed → Keyed
unfolding phpser_subkey_cache_drop
drop_unless_ok (key_ok key) s = s
drop_unless_ok _ s = phpser_subkey_cache_drop s

unfoldable pub phpser_key_lookup : Keyed → KeyedStatus × Keyed
unfolding key_status drop_unless_ok
phpser_key_lookup s = (key_status s.phpser_key, drop_unless_ok (key_status s.phpser_key) s)

-- memchr(context, 0, context_len) == NULL
unfoldable pub has_no_nul : List ℕ → Bool
has_no_nul [] = true
has_no_nul (b ∷ bs) = not (b == 0) && has_no_nul bs

unfoldable pub phpser_keyed_context_valid : List ℕ → Bool
unfolding has_no_nul
phpser_keyed_context_valid context =
    ltb 0 (length context)
    && leb (length context) keyed_context_max
    && has_no_nul context
    && not (bytes_eq context session_context)

unfoldable pub keyed_message : List ℕ → List ℕ
keyed_message context = keyed_label_prefix ++ (context ++ keyed_label_suffix)

unfoldable pub cache_hit : SubkeyCache → List ℕ → List ℕ → Bool
cache_hit c key context =
    leb (length key) subkey_cache_key_max
    && c.valid
    && (length c.cached_key == length key)
    && bytes_eq c.cached_context context
    && phpser_ct_eq c.cached_key key (length key)

-- The derived subkey is kept if its key is short enough; on a miss the old entry is wiped first.
unfoldable pub keep_subkey :
    Keyed → List ℕ → List ℕ → Option (List ℕ × HmacState) → Option (List ℕ) × Keyed
keep_subkey s key context none = (none, record s { subkey_cache = zeroed })
keep_subkey s key context (some (subkey, hs)) = (
  some subkey,
  record s {
    hmac_state = hs;
    subkey_cache =
        if leb (length key) subkey_cache_key_max
        then record {
          valid = true;
          cached_key = key;
          cached_context = context;
          cached_subkey = subkey;
        }
        else zeroed;
  },
)

unfoldable pub phpser_keyed_subkey : Keyed → List ℕ → List ℕ → Option (List ℕ) × Keyed
unfolding cache_hit keep_subkey keyed_message
phpser_keyed_subkey s key context =
    if cache_hit s.subkey_cache key context
    then (some s.subkey_cache.cached_subkey, s)
    else keep_subkey s key context
        (phpser_hmac_sha256 s.sha256_ops s.hmac_state key (keyed_message context))

unfoldable pub keep_tag : Keyed → Option (List ℕ × HmacState) → Option (List ℕ) × Keyed
keep_tag s none = (none, s)
keep_tag s (some (tag, hs)) = (some tag, record s { hmac_state = hs })

unfoldable pub tag_under : List ℕ → Option (List ℕ) × Keyed → Option (List ℕ) × Keyed
unfolding keep_tag
tag_under frame (none, s) = (none, s)
tag_under frame (some subkey, s) =
    keep_tag s (phpser_hmac_sha256 s.sha256_ops s.hmac_state subkey frame)

unfoldable pub phpser_keyed_tag : Keyed → List ℕ → List ℕ → List ℕ → Option (List ℕ) × Keyed
unfolding tag_under phpser_keyed_subkey
phpser_keyed_tag s key context frame = tag_under frame (phpser_keyed_subkey s key context)

unfoldable pub append_tag : List ℕ → Option (List ℕ) × Keyed → Option (List ℕ) × Keyed
append_tag frame (none, s) = (none, s)
append_tag frame (some tag, s) = (some (frame ++ tag), s)

-- phpser_keyed_encode: `encoded` is the frame, or none for NULL.
unfoldable pub phpser_keyed_encode :
    Keyed → KeyedStatus → List ℕ → Option (List ℕ) → Option (List ℕ) × Keyed
unfolding append_tag phpser_keyed_tag
phpser_keyed_encode s status context none = (none, s)
phpser_keyed_encode s (key_ok key) context (some frame) =
    append_tag frame (phpser_keyed_tag s key context frame)
phpser_keyed_encode s _ context (some frame) = (some frame, s)

unfoldable pub compare_tag : List ℕ → Option (List ℕ) × Keyed → Bool × Keyed
compare_tag stored (none, s) = (false, s)
compare_tag stored (some tag, s) = (phpser_ct_eq tag stored tag_len, s)

unfoldable pub phpser_keyed_verify : Keyed → List ℕ → List ℕ → List ℕ → Bool × Keyed
unfolding compare_tag phpser_keyed_tag
phpser_keyed_verify s key buf context =
    let frame_len = length buf - tag_len in
    if ltb (length buf) tag_len
    then (false, s)
    else compare_tag (drop frame_len buf) (phpser_keyed_tag s key context (take frame_len buf))

-- phpser_keyed_rc, with the graph where there is one
pub data KeyedRc : Type 0 where
  keyed_ok : Graph → KeyedRc
  keyed_decode keyed_bad_tag keyed_beyond : KeyedRc

unfoldable pub rc_of : Outcome (Graph × Ctx) → KeyedRc
rc_of (ok (g, d)) = keyed_ok g
rc_of failed = keyed_decode
rc_of beyond = keyed_beyond

unfoldable pub decode_exact : Engine → List ℕ → KeyedRc
unfolding rc_of
decode_exact eng buf = rc_of (phpser_decode_buf_opts eng buf true)

unfoldable pub decode_verified : Engine → List ℕ → Bool × Keyed → KeyedRc × Keyed
unfolding decode_exact
decode_verified eng buf (true, s) = (decode_exact eng (take (length buf - tag_len) buf), s)
decode_verified eng buf (false, s) = (keyed_bad_tag, s)

unfoldable pub phpser_keyed_decode :
    Engine → Keyed → KeyedStatus → List ℕ → List ℕ → KeyedRc × Keyed
unfolding decode_verified phpser_keyed_verify decode_exact
phpser_keyed_decode eng s (key_ok key) buf context =
    decode_verified eng buf (phpser_keyed_verify s key buf context)
phpser_keyed_decode eng s _ buf context = (decode_exact eng buf, s)

unfoldable pub serialize_status :
    KeyedStatus × Keyed → List ℕ → Option (List ℕ) → Option (List ℕ) × Keyed
unfolding phpser_keyed_encode
serialize_status (key_short, s) context encoded = (none, s)
serialize_status (status, s) context encoded = phpser_keyed_encode s status context encoded

-- none is PHPSER_API_ERR
unfoldable pub phpser_api_serialize : Keyed → List ℕ → Option (List ℕ) → Option (List ℕ) × Keyed
unfolding phpser_keyed_context_valid phpser_key_lookup serialize_status
phpser_api_serialize s context encoded =
    if phpser_keyed_context_valid context
    then serialize_status (phpser_key_lookup s) context encoded
    else (none, s)

unfoldable pub unserialize_status : Engine → KeyedStatus × Keyed → List ℕ → List ℕ → KeyedRc × Keyed
unfolding phpser_keyed_decode
unserialize_status eng (key_short, s) buf context = (keyed_decode, s)
unserialize_status eng (status, s) buf context = phpser_keyed_decode eng s status buf context

-- keyed_decode is PHPSER_API_ERR, and keyed_bad_tag PHPSER_API_ERR_TAG
unfoldable pub phpser_api_unserialize : Engine → Keyed → List ℕ → List ℕ → KeyedRc × Keyed
unfolding phpser_keyed_context_valid phpser_key_lookup unserialize_status
phpser_api_unserialize eng s buf context =
    if phpser_keyed_context_valid context
    then unserialize_status eng (phpser_key_lookup s) buf context
    else (keyed_decode, s)
