-- ===== src/Keyed/Verify.antt =====
-- phpser_keyed_tag and phpser_keyed_verify with phpser.key set.
use phpser.Base.{ℕ, ◌-◌, ◌≤◌, ◌≡◌, refl, false, List, some, arith, ltb, length, take, drop, All}
use phpser.Wire.{IsByte}
use phpser.Hmac.{Compress, HmacState, phpser_ct_eq}
use phpser.Hmac.Cache.{hmac, IsCurrent, phpser_hmac_sha256-hmac}
use phpser.Session.Signed.{IsByte-hmac}
use phpser.Keyed.{
  SubkeyCache, key_ok, key_status, drop_unless_ok, phpser_key_lookup, keyed_message, keep_tag,
  tag_under, phpser_keyed_tag, compare_tag, phpser_keyed_verify,
}
use phpser.Keyed.Subkey.{IsDerived, keyed, phpser_keyed_subkey-hmac}

-- The tag of a frame for a store.
abbrev pub store_tag : Compress → List ℕ → List ℕ → List ℕ → List ℕ
store_tag compress key context frame =
    hmac compress (hmac compress key (keyed_message context)) frame

pub phpser_keyed_tag-hmac :
    (compress : Compress) (key context frame : List ℕ) (hs : HmacState) (c : SubkeyCache)
    → All IsByte key
    → IsCurrent compress hs
    → IsDerived compress c
    → (hs' : HmacState) × (c' : SubkeyCache) × (phpser_keyed_tag
          (keyed compress key hs c)
          key
          context
          frame
        ≡ (some (store_tag compress key context frame), keyed compress key hs' c'))
      × IsCurrent compress hs'
      × IsDerived compress c'
unfolding phpser_keyed_tag tag_under keep_tag
phpser_keyed_tag-hmac compress key context frame hs c byte_key cur derived =
    let (hs₁, c₁, subkey, cur₁, derived₁) =
      phpser_keyed_subkey-hmac compress key context hs c byte_key cur derived in
    let (hs₂, tag, cur₂) =
      phpser_hmac_sha256-hmac compress hs₁ (hmac compress key (keyed_message context)) frame
        (IsByte-hmac compress key (keyed_message context)) cur₁ in
    (hs₂, c₁, rw (phpser_keyed_tag, subkey) (rw (tag_under, tag) refl), cur₂, derived₁)

key_status-key : (key : List ℕ) → 32 ≤ length key → key_status (some key) ≡ key_ok key
unfolding key_status
key_status-key key long = ground arith

pub lookup-keyed :
    (compress : Compress) (key : List ℕ) (hs : HmacState) (c : SubkeyCache)
    → 32 ≤ length key
    → phpser_key_lookup (keyed compress key hs c) ≡ (key_ok key, keyed compress key hs c)
unfolding phpser_key_lookup drop_unless_ok
lookup-keyed compress key hs c long = rw (phpser_key_lookup, key_status-key key long) refl

-- The bytes after a frame are compared with its tag for the store.
pub phpser_keyed_verify-tag :
    (compress : Compress) (key context buf : List ℕ) (hs : HmacState) (c : SubkeyCache)
    → All IsByte key
    → IsCurrent compress hs
    → IsDerived compress c
    → 32 ≤ length buf
    → (phpser_keyed_verify (keyed compress key hs c) key buf context).0
      ≡ phpser_ct_eq
          (store_tag compress key context (take (length buf - 32) buf))
          (drop (length buf - 32) buf)
          32
unfolding phpser_keyed_verify compare_tag
phpser_keyed_verify-tag compress key context buf hs c byte_key cur derived long =
    let (hs', c', tag, _, _) =
      phpser_keyed_tag-hmac compress key context (take (length buf - 32) buf) hs c byte_key cur
        derived in
    let enough : ltb (length buf) 32 ≡ false = ground arith in
    rw (phpser_keyed_verify, enough) (rw (compare_tag, tag) refl)
