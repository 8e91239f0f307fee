-- ===== src/Keyed/Subkey.antt =====
-- The derived subkey: what the cache gives, and what the derivation messages have in common.
use phpser.Base.{
  ◌⊎◌, ℕ, zero, suc, ◌≡◌, ◌≢◌, get_elem?, refl, ap, ◌∙◌, true, false, List, [], ◌∷◌, ◌++◌, some,
  inl, inr, arith, leb, length, All, Bool-cases, bytes_eq, bytes_eq→eq, bytes_eq_refl,
}
use phpser.Wire.{IsByte}
use phpser.Hmac.{Compress, HmacState, phpser_ct_eq}
use phpser.Hmac.Cache.{hmac, IsCurrent, phpser_hmac_sha256-hmac}
use phpser.Hmac.Compare.{phpser_ct_eq-eq}
use phpser.Session.{session_kdf_label}
use phpser.Keyed.{
  session_context, keyed_label_prefix, keyed_label_suffix, SubkeyCache, zeroed, Keyed, has_no_nul,
  phpser_keyed_context_valid, keyed_message, cache_hit, keep_subkey, phpser_keyed_subkey,
}

no_nul_at : (n : ℕ) (xs : List ℕ) → has_no_nul xs ≡ true → get_elem? xs n ≡ some 0 → ⊥
unfolding has_no_nul
no_nul_at n [] h e = cc
no_nul_at zero (x ∷ xs) h e = let z : x ≡ 0 = cc in ground arith
no_nul_at (suc n) (x ∷ xs) h e = no_nul_at n xs (ground arith) e

-- The first NUL of the one message is where the context ends, that of the other after "session:v1".
before_nul :
    (context sid : List ℕ)
    → has_no_nul context ≡ true
    → context ++ keyed_label_suffix
      ≡ 0x73 ∷ 0x65 ∷ 0x73 ∷ 0x73 ∷ 0x69 ∷ 0x6f ∷ 0x6e ∷ 0x3a ∷ 0x76 ∷ 0x31 ∷ 0x00 ∷ sid
    → context ≡ session_context
unfolding has_no_nul
before_nul [] sid h e = absurd cc
before_nul (a ∷ []) sid h e = absurd cc
before_nul (a ∷ b ∷ []) sid h e = absurd cc
before_nul (a ∷ b ∷ c ∷ []) sid h e = absurd cc
before_nul (a ∷ b ∷ c ∷ d ∷ []) sid h e = absurd cc
before_nul (a ∷ b ∷ c ∷ d ∷ f ∷ []) sid h e = absurd cc
before_nul (a ∷ b ∷ c ∷ d ∷ f ∷ g ∷ []) sid h e = absurd cc
before_nul (a ∷ b ∷ c ∷ d ∷ f ∷ g ∷ i ∷ []) sid h e = cc
before_nul (a ∷ b ∷ c ∷ d ∷ f ∷ g ∷ i ∷ j ∷ []) sid h e = absurd cc
before_nul (a ∷ b ∷ c ∷ d ∷ f ∷ g ∷ i ∷ j ∷ k ∷ []) sid h e = absurd cc
before_nul (a ∷ b ∷ c ∷ d ∷ f ∷ g ∷ i ∷ j ∷ k ∷ l ∷ []) sid h e = absurd cc
before_nul (a ∷ b ∷ c ∷ d ∷ f ∷ g ∷ i ∷ j ∷ k ∷ l ∷ z ∷ rest) sid h e =
    let nul : z ≡ 0 = cc in
    absurd (
      no_nul_at 10 (a ∷ b ∷ c ∷ d ∷ f ∷ g ∷ i ∷ j ∷ k ∷ l ∷ z ∷ rest) h
        (ap (λ (y : ℕ). some y) nul))

after_prefix : (xs ys : List ℕ) → keyed_label_prefix ++ xs ≡ keyed_label_prefix ++ ys → xs ≡ ys
after_prefix xs ys e = cc

-- No valid context of the C API, whatever the session ID, derives the subkey of a session from the
-- same key: the two derivation messages differ.
pub keyed_message-session :
    (context sid : List ℕ)
    → phpser_keyed_context_valid context ≡ true
    → keyed_message context ≢ session_kdf_label ++ sid
unfolding phpser_keyed_context_valid keyed_message
keyed_message-session context sid valid same =
    let parts : (has_no_nul context ≡ true) × (bytes_eq context session_context ≡ false) =
      ground arith in
    let is_session : context ≡ session_context =
      before_nul context sid parts.0 (after_prefix _ _ same) in
    let clash : bytes_eq context session_context ≡ true =
      rw is_session (bytes_eq_refl session_context) in
    ground (arith, clash, parts.1)

-- A subkey cache that is empty or holds the subkey of its key and context.
unfoldable pub IsDerived : Compress → SubkeyCache → Type 0
IsDerived compress c =
    (c.valid ≡ false)
    ⊎ (c.cached_subkey ≡ hmac compress c.cached_key (keyed_message c.cached_context))

derived_subkey :
    (compress : Compress) (c : SubkeyCache)
    → IsDerived compress c
    → c.valid ≡ true
    → c.cached_subkey ≡ hmac compress c.cached_key (keyed_message c.cached_context)
unfolding IsDerived
derived_subkey compress c (inl empty) valid = absurd cc
derived_subkey compress c (inr subkey) valid = subkey

cache_hit-key :
    (c : SubkeyCache) (key context : List ℕ)
    → cache_hit c key context ≡ true
    → (c.valid ≡ true) × (c.cached_key ≡ key) × (c.cached_context ≡ context)
unfolding cache_hit
cache_hit-key c key context hit =
    let parts : (c.valid ≡ true)
        × (length c.cached_key ≡ length key)
        × (bytes_eq c.cached_context context ≡ true)
        × (phpser_ct_eq c.cached_key key (length key) ≡ true) =
      ground arith in
    let (valid, len, same_context, same_key) = parts in
    (
      valid,
      phpser_ct_eq-eq (length key) c.cached_key key len refl same_key,
      bytes_eq→eq c.cached_context context same_context,
    )

-- A thread with SHA-256 and a key set.
abbrev pub keyed : Compress → List ℕ → HmacState → SubkeyCache → Keyed
keyed compress key hs c = record {
  phpser_key = some key;
  sha256_ops = some compress;
  hmac_state = hs;
  subkey_cache = c;
}

keep_subkey-IsDerived :
    (compress : Compress) (key context : List ℕ) (hs hs' : HmacState) (c : SubkeyCache)
    → (c' : SubkeyCache) × (keep_subkey
          (keyed compress key hs c)
          key
          context
          (some (hmac compress key (keyed_message context), hs'))
        ≡ (some (hmac compress key (keyed_message context)), keyed compress key hs' c'))
      × IsDerived compress c'
unfolding keep_subkey IsDerived
keep_subkey-IsDerived compress key context hs hs' c = elim (Bool-cases (leb (length key) 128)) [
  | inl short ↦ (
    record {
      valid = true;
      cached_key = key;
      cached_context = context;
      cached_subkey = hmac compress key (keyed_message context);
    },
    rw (keep_subkey, short) refl,
    inr refl,
  )
  | inr long ↦ (zeroed, rw (keep_subkey, long) refl, inl refl)
]

-- The subkey of a context, cached or not, is HMAC of its message under the key: for a key of bytes
-- and caches that are empty or right for what they hold. The caches stay so.
pub phpser_keyed_subkey-hmac :
    (compress : Compress) (key context : List ℕ) (hs : HmacState) (c : SubkeyCache)
    → All IsByte key
    → IsCurrent compress hs
    → IsDerived compress c
    → (hs' : HmacState) × (c' : SubkeyCache) × (phpser_keyed_subkey
          (keyed compress key hs c)
          key
          context
        ≡ (some (hmac compress key (keyed_message context)), keyed compress key hs' c'))
      × IsCurrent compress hs'
      × IsDerived compress c'
unfolding phpser_keyed_subkey IsDerived
phpser_keyed_subkey-hmac compress key context hs c byte_key cur derived =
    elim (Bool-cases (cache_hit c key context)) [
      | inl hit ↦
          let (valid, same_key, same_context) = cache_hit-key c key context hit in
          let subkey : c.cached_subkey ≡ hmac compress key (keyed_message context) =
            derived_subkey compress c derived valid ∙ rw (same_key, same_context) refl in
          (
            hs,
            c,
            rw (phpser_keyed_subkey, hit) (ap (λ k. (some k, keyed compress key hs c)) subkey),
            cur,
            derived,
          )
      | inr miss ↦
          let (hs', made, cur') =
            phpser_hmac_sha256-hmac compress hs key (keyed_message context) byte_key cur in
          let (c', kept, derived') = keep_subkey-IsDerived compress key context hs hs' c in
          (hs', c', rw (phpser_keyed_subkey, miss, made) kept, cur', derived')
    ]
