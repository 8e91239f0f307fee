-- ===== src/Hmac.antt =====
-- phpser_hmac.c: HMAC-SHA256 with the thread's cached key, and the comparison of tags.
-- The compression of one block is a parameter: phpser_sha256.c takes it from ext/hash or from the
-- processor's instructions. What is written to memory that is wiped afterwards has no place here.
pub mod Padding
pub mod Compare
pub mod Cache
pub mod Tests
use phpser.Base.{
  ℕ, zero, suc, ◌+◌, ◌-◌, ◌*◌, ◌/◌, ◌%◌, ◌^◌, bit_or, bit_xor, Bool, true, false, ◌&&◌, List, [],
  ◌∷◌, ◌++◌, map, Option, some, none, if◌then◌else◌, ltb, ◌==◌, length, take, drop, replicate,
}

-- uint32_t st[8]
pub record ShaState : Type 0 where
  pub word0 : ℕ
  pub word1 : ℕ
  pub word2 : ℕ
  pub word3 : ℕ
  pub word4 : ℕ
  pub word5 : ℕ
  pub word6 : ℕ
  pub word7 : ℕ

-- One block into a state.
abbrev pub Compress : Type 0
Compress = ShaState → List ℕ → ShaState

abbrev pub phpser_sha256_iv : ShaState
phpser_sha256_iv = record {
  word0 = 0x6a09_e667;
  word1 = 0xbb67_ae85;
  word2 = 0x3c6e_f372;
  word3 = 0xa54f_f53a;
  word4 = 0x510e_527f;
  word5 = 0x9b05_688c;
  word6 = 0x1f83_d9ab;
  word7 = 0x5be0_cd19;
}

abbrev pub sha256_block : ℕ
sha256_block = 64

-- `blocks(st, input, nblocks)`
unfoldable pub blocks : Compress → ShaState → List ℕ → ℕ → ShaState
blocks compress st input zero = st
blocks compress st input (suc n) =
    blocks compress (compress st (take sha256_block input)) (drop sha256_block input) n

abbrev pub store_be32 : ℕ → List ℕ
store_be32 v = v / 2 ^ 24 % 256 ∷ v / 2 ^ 16 % 256 ∷ v / 2 ^ 8 % 256 ∷ v % 256 ∷ []

unfoldable pub store_digest : ShaState → List ℕ
store_digest st =
    store_be32 st.word0
    ++ store_be32 st.word1
    ++ store_be32 st.word2
    ++ store_be32 st.word3
    ++ store_be32 st.word4
    ++ store_be32 st.word5
    ++ store_be32 st.word6
    ++ store_be32 st.word7

-- The bytes that end a message, of which the last `rem` bytes are in no full block.
unfoldable pub final_tail : ℕ → ℕ → ℕ → List ℕ
final_tail rem tail bits =
    0x80 ∷ replicate (tail - 8 - rem - 1) 0
    ++ store_be32 (bits / 2 ^ 32 % 2 ^ 32)
    ++ store_be32 (bits % 2 ^ 32)

unfoldable pub sha256_absorb_final : Compress → ShaState → List ℕ → ℕ → ShaState
unfolding final_tail
sha256_absorb_final compress st input prefix_len =
    let full = length input / sha256_block in
    let rem = length input % sha256_block in
    let tail = if ltb rem (sha256_block - 8) then sha256_block else 2 * sha256_block in
    let bits = (prefix_len + length input) * 2 ^ 3 % 2 ^ 64 in
    let st' = if full == 0 then st else blocks compress st input full in
    let buf = take rem (drop (full * sha256_block) input) ++ final_tail rem tail bits in
    blocks compress st' buf (tail / sha256_block)

-- phpser_hmac_state, without the choice of the implementation
pub record HmacState : Type 0 where
  pub key_valid : Bool
  pub key_block : List ℕ
  pub inner : ShaState
  pub outer : ShaState

unfoldable pub hmac_load_key : Compress → List ℕ → HmacState
hmac_load_key compress k =
    let pad = map (λ b. bit_xor b 0x36) k in
    let pad' = map (λ b. bit_xor b (bit_xor 0x36 0x5c)) pad in
    record {
      key_valid = true;
      key_block = k;
      inner = blocks compress phpser_sha256_iv pad 1;
      outer = blocks compress phpser_sha256_iv pad' 1;
    }

-- phpser_ct_eq on two arrays of the same length
unfoldable pub ct_loop : ℕ → List ℕ → List ℕ → ℕ
ct_loop r [] bs = r
ct_loop r (a ∷ as') [] = r
ct_loop r (a ∷ as') (b ∷ bs) = ct_loop (bit_or r (bit_xor a b)) as' bs

unfoldable pub phpser_ct_eq : List ℕ → List ℕ → ℕ → Bool
unfolding ct_loop
phpser_ct_eq a b n = ct_loop 0 (take n a) (take n b) == 0

-- The key as HMAC takes it: a block of zeros that starts with the key or with its digest.
unfoldable pub normal_key : Compress → List ℕ → List ℕ
unfolding store_digest sha256_absorb_final
normal_key compress key =
    if ltb sha256_block (length key)
    then store_digest (sha256_absorb_final compress phpser_sha256_iv key 0)
      ++ replicate (sha256_block - 32) 0
    else key ++ replicate (sha256_block - length key) 0

unfoldable pub refresh : Compress → HmacState → List ℕ → HmacState
unfolding phpser_ct_eq hmac_load_key
refresh compress hs k =
    if hs.key_valid && phpser_ct_eq k hs.key_block sha256_block
    then hs
    else hmac_load_key compress k

-- The tag that the keyed states give to `input`.
unfoldable pub keyed_tag : Compress → HmacState → List ℕ → List ℕ
unfolding store_digest sha256_absorb_final
keyed_tag compress hs input =
    let st = sha256_absorb_final compress hs.inner input sha256_block in
    let blk =
      store_digest st
      ++ 0x80 ∷ replicate (sha256_block - 33 - 8) 0
      ++ store_be32 0
      ++ store_be32 ((sha256_block + 32) * 8) in
    store_digest (blocks compress hs.outer blk 1)

-- The tag and the state that is kept, or none where ext/hash has no SHA-256.
unfoldable pub phpser_hmac_sha256 :
    Option Compress → HmacState → List ℕ → List ℕ → Option (List ℕ × HmacState)
unfolding normal_key refresh keyed_tag
phpser_hmac_sha256 none hs key input = none
phpser_hmac_sha256 (some compress) hs key input =
    let hs' = refresh compress hs (normal_key compress key) in
    some (keyed_tag compress hs' input, hs')
