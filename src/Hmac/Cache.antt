-- ===== src/Hmac/Cache.antt =====
-- phpser_hmac_sha256 against RFC 2104, and its cache of keyed states.
use phpser.Base.{
  ◌⊎◌, false, ℕ, zero, suc, ◌-◌, ◌/◌, ◌≤◌, bit_xor, ◌≡◌, refl, sym, ap, ◌∙◌, true, ◌&&◌, List, [],
  ◌∷◌, ◌++◌, map, some, inl, inr, arith, if◌then◌else◌, ltb, ◌==◌, ==→eq, length, replicate,
  lengths, length-append, length-replicate, All, Bool-cases, append_assoc,
}
use phpser.Base.Bits.{all_below, all_below→}
use phpser.Wire.{IsByte}
use phpser.Hmac.{
  ShaState, Compress, phpser_sha256_iv, blocks, store_be32, store_digest, sha256_absorb_final,
  HmacState, hmac_load_key, phpser_ct_eq, normal_key, refresh, keyed_tag, phpser_hmac_sha256,
}
use phpser.Hmac.Padding.{
  padding, padded, sha256_state, sha256, sha256_absorb_final-resumes, blocks-append, length-padding,
}
use phpser.Hmac.Compare.{phpser_ct_eq-eq}

-- RFC 2104 over SHA-256: H((K ^ opad) ++ H((K ^ ipad) ++ message)), the key first made a block.
unfoldable pub rfc_key : Compress → List ℕ → List ℕ
unfolding sha256
rfc_key compress key =
    let k = if ltb 64 (length key) then sha256 compress key else key in
    k ++ replicate (64 - length k) 0

unfoldable pub hmac : Compress → List ℕ → List ℕ → List ℕ
unfolding sha256 rfc_key
hmac compress key message =
    let k = rfc_key compress key in
    sha256 compress
      (map (λ b. bit_xor b 0x5c) k ++ sha256 compress (map (λ b. bit_xor b 0x36) k ++ message))

-- The two states of the key block.
abbrev HoldsKey : Compress → HmacState → Type 0
HoldsKey compress hs =
    (length hs.key_block ≡ 64)
    × (hs.inner ≡ blocks compress phpser_sha256_iv (map (λ b. bit_xor b 0x36) hs.key_block) 1)
    × (hs.outer ≡ blocks compress phpser_sha256_iv (map (λ b. bit_xor b 0x5c) hs.key_block) 1)

-- A cache that is empty or holds the two states of its key block.
unfoldable pub IsCurrent : Compress → HmacState → Type 0
IsCurrent compress hs = (hs.key_valid ≡ false) ⊎ HoldsKey compress hs

held :
    (compress : Compress) (hs : HmacState)
    → IsCurrent compress hs
    → hs.key_valid ≡ true
    → HoldsKey compress hs
unfolding IsCurrent
held compress hs (inl empty) valid = absurd cc
held compress hs (inr holds) valid = holds

length-map : (f : ℕ → ℕ) (xs : List ℕ) → length (map f xs) ≡ length xs
length-map f [] = refl
length-map f (x ∷ xs) = ap suc (length-map f xs)

-- The two masks one after the other are the outer mask.
masks_table :
    all_below 256 (λ b. bit_xor (bit_xor b 0x36) (bit_xor 0x36 0x5c) == bit_xor b 0x5c) ≡ true
unfolding all_below
masks_table = refl

both_masks : (b : ℕ) → IsByte b → bit_xor (bit_xor b 0x36) (bit_xor 0x36 0x5c) ≡ bit_xor b 0x5c
both_masks b h = ==→eq _ _ (all_below→ 256 _ masks_table b h)

remasked :
    (k : List ℕ)
    → All IsByte k
    → map (λ b. bit_xor b (bit_xor 0x36 0x5c)) (map (λ b. bit_xor b 0x36) k)
      ≡ map (λ b. bit_xor b 0x5c) k
remasked [] h = refl
remasked (b ∷ k) (p, h) = rw (both_masks b p, remasked k h) refl

hmac_load_key-IsCurrent :
    (compress : Compress) (k : List ℕ)
    → All IsByte k
    → length k ≡ 64
    → IsCurrent compress (hmac_load_key compress k)
unfolding IsCurrent hmac_load_key
hmac_load_key-IsCurrent compress k bytes len =
    inr (len, refl, ap (λ pad. blocks compress phpser_sha256_iv pad 1) (remasked k bytes))

refresh-key :
    (compress : Compress) (hs : HmacState) (k : List ℕ)
    → All IsByte k
    → length k ≡ 64
    → IsCurrent compress hs
    → IsCurrent compress (refresh compress hs k)
      × ((refresh compress hs k).key_block ≡ k)
      × ((refresh compress hs k).key_valid ≡ true)
unfolding refresh hmac_load_key IsCurrent
refresh-key compress hs k bytes len cur =
    elim (Bool-cases (hs.key_valid && phpser_ct_eq k hs.key_block 64)) [
      | inl hit ↦
          let valid : hs.key_valid ≡ true = ground arith in
          let (stored, _, _) = held compress hs cur valid in
          let same = phpser_ct_eq-eq 64 k hs.key_block len stored (ground arith) in
          rw hit (cur, sym same, valid)
      | inr miss ↦ rw miss (hmac_load_key-IsCurrent compress k bytes len, refl, refl)
    ]

be32_then : (v : ℕ) (ys : List ℕ) → All IsByte ys → All IsByte (store_be32 v ++ ys)
be32_then v ys h = (omega arith, (omega arith, (omega arith, (omega arith, h))))

All-append : (xs ys : List ℕ) → All IsByte xs → All IsByte ys → All IsByte (xs ++ ys)
All-append [] ys h k = k
All-append (x ∷ xs) ys (p, h) k = (p, All-append xs ys h k)

All-zeros : (n : ℕ) → All IsByte (replicate n 0)
All-zeros zero = tt
All-zeros (suc n) = (omega arith, All-zeros n)

pub IsByte-store_digest : (st : ShaState) → All IsByte (store_digest st)
unfolding store_digest
IsByte-store_digest st =
    let last : List ℕ = store_be32 st.word7 in
    let three = store_be32 st.word5 ++ (store_be32 st.word6 ++ last) in
    let five = store_be32 st.word3 ++ (store_be32 st.word4 ++ three) in
    let seven = store_be32 st.word1 ++ (store_be32 st.word2 ++ five) in
    be32_then st.word0 seven (
      be32_then st.word1 (store_be32 st.word2 ++ five) (
        be32_then st.word2 five (
          be32_then st.word3 (store_be32 st.word4 ++ three) (
            be32_then st.word4 three (
              be32_then st.word5 (store_be32 st.word6 ++ last)
                (be32_then st.word6 last (be32_then st.word7 [] tt)))))))

length-store_digest : (st : ShaState) → length (store_digest st) ≡ 32
unfolding store_digest
length-store_digest st = refl

normal_key-rfc_key :
    (compress : Compress) (key : List ℕ) → normal_key compress key ≡ rfc_key compress key
unfolding normal_key rfc_key sha256
normal_key-rfc_key compress key = elim (Bool-cases (ltb 64 (length key))) [
  | inl e ↦ rw e (
      ap (λ st. store_digest st ++ replicate 32 0)
        (sha256_absorb_final-resumes compress 0 [] key refl))
  | inr e ↦ rw e refl
]

normal_key-length : (compress : Compress) (key : List ℕ) → length (normal_key compress key) ≡ 64
unfolding normal_key
normal_key-length compress key = elim (Bool-cases (ltb 64 (length key))) [
  | inl e ↦ rw e refl
  | inr e ↦
      let short : length key ≤ 64 = ground arith in
      rw e (
        omega (
          arith,
          length-append key (replicate (64 - length key) 0),
          length-replicate {A = ℕ} (64 - length key) 0,
        ))
]

normal_key-bytes :
    (compress : Compress) (key : List ℕ) → All IsByte key → All IsByte (normal_key compress key)
unfolding normal_key
normal_key-bytes compress key h =
    let long = sha256_absorb_final compress phpser_sha256_iv key 0 in
    elim (Bool-cases (ltb 64 (length key))) [
      | inl e ↦ rw e (
          All-append (store_digest long) (replicate 32 0) (IsByte-store_digest long) (All-zeros 32))
      | inr e ↦ rw e (All-append key _ h (All-zeros (64 - length key)))
    ]

-- The outer message is a key block and a digest: its padding ends it in one more block.
outer_state :
    (compress : Compress) (opad digest : List ℕ)
    → length opad ≡ 64
    → length digest ≡ 32
    → blocks compress (blocks compress phpser_sha256_iv opad 1) (digest ++ padding 96) 1
      ≡ sha256_state compress (opad ++ digest)
unfolding sha256_state padded
outer_state compress opad digest p q =
    let len : length (opad ++ digest) ≡ 96 = omega lengths in
    let total : length ((opad ++ digest) ++ padding 96) / 64 ≡ 2 =
      omega (lengths, length-padding 96, length-append (opad ++ digest) (padding 96)) in
    rw len (
      rw total (
        sym (blocks-append compress 1 1 phpser_sha256_iv opad (digest ++ padding 96) p)
        ∙ ap (λ x. blocks compress phpser_sha256_iv x 2)
            (sym (append_assoc opad digest (padding 96)))))

keyed_tag-sha256 :
    (compress : Compress) (hs : HmacState) (input : List ℕ)
    → IsCurrent compress hs
    → hs.key_valid ≡ true
    → keyed_tag compress hs input
      ≡ sha256 compress (
          map (λ b. bit_xor b 0x5c) hs.key_block
          ++ sha256 compress (map (λ b. bit_xor b 0x36) hs.key_block ++ input))
unfolding keyed_tag IsCurrent sha256 padding
keyed_tag-sha256 compress hs input cur valid =
    let (len, inside, outside) = held compress hs cur valid in
    let ipad = map (λ b. bit_xor b 0x36) hs.key_block in
    let opad = map (λ b. bit_xor b 0x5c) hs.key_block in
    let digest = sha256 compress (ipad ++ input) in
    let first : sha256_absorb_final compress hs.inner input 64
        ≡ sha256_state compress (ipad ++ input) =
      rw inside
        (sha256_absorb_final-resumes compress 1 ipad input (length-map _ hs.key_block ∙ len)) in
    let second : blocks compress hs.outer (digest ++ padding 96) 1
        ≡ sha256_state compress (opad ++ digest) =
      rw outside (outer_state compress opad digest (length-map _ hs.key_block ∙ len) refl) in
    rw first (ap store_digest second)

-- HMAC-SHA256 with a cache that cannot be told from none: for a key of bytes and a cache that is
-- empty or current for the key it holds, the tag is RFC 2104's for this key and this message, and
-- the cache left behind is current again.
pub phpser_hmac_sha256-hmac :
    (compress : Compress) (hs : HmacState) (key message : List ℕ)
    → All IsByte key
    → IsCurrent compress hs
    → (hs' : HmacState) × (phpser_hmac_sha256 (some compress) hs key message
        ≡ some (hmac compress key message, hs'))
      × IsCurrent compress hs'
unfolding phpser_hmac_sha256 hmac
phpser_hmac_sha256-hmac compress hs key message bytes cur =
    let k = normal_key compress key in
    let (cur', block, valid) =
      refresh-key compress hs k (normal_key-bytes compress key bytes)
        (normal_key-length compress key) cur in
    let hs' = refresh compress hs k in
    let tag : keyed_tag compress hs' message ≡ hmac compress key message =
      keyed_tag-sha256 compress hs' message cur' valid
      ∙ rw (block, normal_key-rfc_key compress key) refl in
    (hs', ap (λ t. some (t, hs')) tag, cur')
