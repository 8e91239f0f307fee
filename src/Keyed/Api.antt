-- ===== src/Keyed/Api.antt =====
-- phpser_api_serialize and phpser_api_unserialize with phpser.key set.
use phpser.Base.{
  ℕ, ◌+◌, ◌-◌, ◌≤◌, ◌<◌, ◌≡◌, refl, sym, ap, ◌∙◌, Bool, true, false, List, ◌++◌, some, inl, inr,
  arith, if◌then◌else◌, ltb, length, take, drop, lengths, All, Bool-cases, take-append-drop,
  take-append_length, drop-append_length,
}
use phpser.Wire.{IsByte}
use phpser.Hmac.{Compress, HmacState, phpser_ct_eq}
use phpser.Hmac.Cache.{hmac, IsCurrent}
use phpser.Hmac.Compare.{phpser_ct_eq-eq, phpser_ct_eq_refl}
use phpser.Session.Signed.{length-hmac}
use phpser.Decode.Ctx.{Engine}
use phpser.Decode.Frame.{Graph}
use phpser.Keyed.{
  SubkeyCache, Keyed, phpser_keyed_context_valid, keyed_message, append_tag, phpser_keyed_encode,
  phpser_keyed_verify, KeyedRc, keyed_ok, keyed_bad_tag, decode_exact, decode_verified,
  phpser_keyed_decode, serialize_status, phpser_api_serialize, unserialize_status,
  phpser_api_unserialize,
}
use phpser.Keyed.Subkey.{IsDerived, keyed}
use phpser.Keyed.Verify.{phpser_keyed_tag-hmac, lookup-keyed, phpser_keyed_verify-tag, store_tag}

compared : (eng : Engine) (buf : List ℕ) (r : Bool × Keyed) → KeyedRc
compared eng buf r = if r.0 then decode_exact eng (take (length buf - 32) buf) else keyed_bad_tag

decode_verified-compared :
    (eng : Engine) (buf : List ℕ) (r : Bool × Keyed)
    → (decode_verified eng buf r).0 ≡ compared eng buf r
unfolding decode_verified compared
decode_verified-compared eng buf (true, s) = refl
decode_verified-compared eng buf (false, s) = refl

-- With a key, unserialize verifies, and then decodes what precedes the tag.
unserialize-verified :
    (eng : Engine) (compress : Compress) (key context buf : List ℕ) (hs : HmacState)
    (c : SubkeyCache)
    → 32 ≤ length key
    → phpser_keyed_context_valid context ≡ true
    → (phpser_api_unserialize eng (keyed compress key hs c) buf context).0
      ≡ compared eng buf (phpser_keyed_verify (keyed compress key hs c) key buf context)
unfolding phpser_api_unserialize unserialize_status phpser_keyed_decode
unserialize-verified eng compress key context buf hs c long valid =
    rw (phpser_api_unserialize, valid, lookup-keyed compress key hs c long)
      (decode_verified-compared eng buf
        (phpser_keyed_verify (keyed compress key hs c) key buf context))

verify-short :
    (s : Keyed) (key context buf : List ℕ)
    → length buf < 32
    → (phpser_keyed_verify s key buf context).0 ≡ false
unfolding phpser_keyed_verify
verify-short s key context buf h =
    let short : ltb (length buf) 32 ≡ true = ground arith in rw (phpser_keyed_verify, short) refl

compared-ok :
    (eng : Engine) (buf : List ℕ) (r : Bool × Keyed) (g : Graph)
    → compared eng buf r ≡ keyed_ok g
    → (r.0 ≡ true) × (decode_exact eng (take (length buf - 32) buf) ≡ keyed_ok g)
unfolding compared
compared-ok eng buf (true, s) g e = (refl, e)
compared-ok eng buf (false, s) g e = absurd cc

-- With phpser.key set to at least 32 bytes and a valid context, the C API returns a value only for
-- a frame followed by its HMAC-SHA256 under the subkey of this key and context, and returns what
-- that frame decodes to. The HMAC cache and the subkey cache are empty or right before.
pub phpser_api_unserialize-signed_only :
    (eng : Engine) (compress : Compress) (key context buf : List ℕ) (hs : HmacState)
    (c : SubkeyCache) (g : Graph)
    → All IsByte key
    → 32 ≤ length key
    → phpser_keyed_context_valid context ≡ true
    → IsCurrent compress hs
    → IsDerived compress c
    → (phpser_api_unserialize eng (keyed compress key hs c) buf context).0 ≡ keyed_ok g
    → (frame : List ℕ) × (buf
        ≡ frame ++ hmac compress (hmac compress key (keyed_message context)) frame)
      × (decode_exact eng frame ≡ keyed_ok g)
phpser_api_unserialize-signed_only eng compress key context buf hs c g byte_key long valid cur
      derived e =
    let verified = phpser_keyed_verify (keyed compress key hs c) key buf context in
    let frame = take (length buf - 32) buf in
    let stored = drop (length buf - 32) buf in
    let tag = store_tag compress key context frame in
    let (same, decoded) =
      compared-ok eng buf verified g
        (sym (unserialize-verified eng compress key context buf hs c long valid) ∙ e) in
    let enough : 32 ≤ length buf = elim (Bool-cases (ltb (length buf) 32)) [
      | inl short ↦
          let no = verify-short (keyed compress key hs c) key context buf (ground arith) in
          absurd cc
      | inr enough ↦ ground arith
    ] in
    let equal : tag ≡ stored =
      phpser_ct_eq-eq 32 tag stored (length-hmac compress _ frame) (omega lengths) (
        sym (phpser_keyed_verify-tag compress key context buf hs c byte_key cur derived enough)
        ∙ same) in
    (frame, rw equal (sym (take-append-drop (length buf - 32) buf)), decoded)

verify-own :
    (eng : Engine) (compress : Compress) (key context frame : List ℕ) (hs : HmacState)
    (c : SubkeyCache)
    → All IsByte key
    → IsCurrent compress hs
    → IsDerived compress c
    → compared eng (frame ++ store_tag compress key context frame) (
        phpser_keyed_verify
          (keyed compress key hs c)
          key
          (frame ++ store_tag compress key context frame)
          context)
      ≡ decode_exact eng frame
unfolding compared
verify-own eng compress key context frame hs c byte_key cur derived =
    let tag = store_tag compress key context frame in
    let buf = frame ++ tag in
    let len : length tag ≡ 32 = length-hmac compress _ frame in
    let bytes : length buf ≡ length frame + 32 = omega (lengths, len) in
    let cut : length buf - 32 ≡ length frame = omega arith in
    let before : take (length buf - 32) buf ≡ frame =
      ap (λ n. take n buf) cut ∙ take-append_length frame tag in
    let after : drop (length buf - 32) buf ≡ tag =
      ap (λ n. drop n buf) cut ∙ drop-append_length frame tag in
    let equal : (phpser_keyed_verify (keyed compress key hs c) key buf context).0 ≡ true =
      phpser_keyed_verify-tag compress key context buf hs c byte_key cur derived (omega arith)
      ∙ ap (λ f. phpser_ct_eq (store_tag compress key context f) (drop (length buf - 32) buf) 32)
          before
      ∙ ap (λ t. phpser_ct_eq tag t 32) after
      ∙ phpser_ct_eq_refl 32 tag in
    ap (λ b. if b then decode_exact eng (take (length buf - 32) buf) else keyed_bad_tag) equal
    ∙ ap (λ f. decode_exact eng f) before

pub phpser_api_unserialize-tagged :
    (eng : Engine) (compress : Compress) (key context frame : List ℕ) (hs : HmacState)
    (c : SubkeyCache)
    → All IsByte key
    → 32 ≤ length key
    → phpser_keyed_context_valid context ≡ true
    → IsCurrent compress hs
    → IsDerived compress c
    → (phpser_api_unserialize eng
        (keyed compress key hs c)
        (frame ++ store_tag compress key context frame)
        context).0
      ≡ decode_exact eng frame
phpser_api_unserialize-tagged eng compress key context frame hs c byte_key long valid cur derived =
    unserialize-verified eng compress key context (frame ++ store_tag compress key context frame) hs
      c long valid
    ∙ verify-own eng compress key context frame hs c byte_key cur derived

serialize-signs :
    (compress : Compress) (key context frame : List ℕ) (hs : HmacState) (c : SubkeyCache)
    → All IsByte key
    → 32 ≤ length key
    → phpser_keyed_context_valid context ≡ true
    → IsCurrent compress hs
    → IsDerived compress c
    → (hs' : HmacState) × (c' : SubkeyCache) × (phpser_api_serialize
          (keyed compress key hs c)
          context
          (some frame)
        ≡ (some (frame ++ store_tag compress key context frame), keyed compress key hs' c'))
      × IsCurrent compress hs'
      × IsDerived compress c'
unfolding phpser_api_serialize serialize_status phpser_keyed_encode append_tag
serialize-signs compress key context frame hs c byte_key long valid cur derived =
    let (hs', c', tag, cur', derived') =
      phpser_keyed_tag-hmac compress key context frame hs c byte_key cur derived in
    (
      hs',
      c',
      rw (phpser_api_serialize, valid, lookup-keyed compress key hs c long)
          (rw (append_tag, tag) refl),
      cur',
      derived',
    )

-- A frame that the C API signs for a context is read back under the same key and context, whatever
-- the caches that are empty or right: serialize gives a result for any frame, and unserialize gives
-- what that very frame decodes to.
pub phpser_api_unserialize-serialize :
    (eng : Engine) (compress : Compress) (key context frame : List ℕ) (hs : HmacState)
    (c : SubkeyCache)
    → All IsByte key
    → 32 ≤ length key
    → phpser_keyed_context_valid context ≡ true
    → IsCurrent compress hs
    → IsDerived compress c
    → (stored : List ℕ) × (s' : Keyed) × (phpser_api_serialize
          (keyed compress key hs c)
          context
          (some frame)
        ≡ (some stored, s'))
      × ((phpser_api_unserialize eng s' stored context).0 ≡ decode_exact eng frame)
phpser_api_unserialize-serialize eng compress key context frame hs c byte_key long valid cur
      derived =
    let (hs', c', signed, cur', derived') =
      serialize-signs compress key context frame hs c byte_key long valid cur derived in
    let stored = frame ++ store_tag compress key context frame in
    (
      stored,
      keyed compress key hs' c',
      signed,
      phpser_api_unserialize-tagged eng compress key context frame hs' c' byte_key long valid cur'
          derived',
    )
