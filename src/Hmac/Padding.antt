-- ===== src/Hmac/Padding.antt =====
-- sha256_absorb_final against SHA-256 as FIPS 180-4 defines it.
use phpser.Base.{
  ℕ, zero, suc, ◌+◌, ◌-◌, ◌*◌, ◌/◌, ◌%◌, ◌^◌, ◌≤◌, ◌≡◌, refl, sym, ap, ◌∙◌, List, [], ◌∷◌, ◌++◌,
  append_assoc, arith, if◌then◌else◌, ltb, ◌==◌, length, take, drop, replicate, lengths,
  length-append, length-replicate, take-append-drop, length-take_le,
}
use phpser.Hmac.{
  ShaState, Compress, phpser_sha256_iv, blocks, store_be32, store_digest, final_tail,
  sha256_absorb_final,
}

-- 0x80, the least number of zeros, and the count of bits as eight bytes.
unfoldable pub padding : ℕ → List ℕ
padding len =
    let bits = len * 8 % 2 ^ 64 in
    0x80 ∷ replicate ((119 - len % 64) % 64) 0
    ++ store_be32 (bits / 2 ^ 32 % 2 ^ 32)
    ++ store_be32 (bits % 2 ^ 32)

unfoldable pub padded : List ℕ → List ℕ
unfolding padding
padded m = m ++ padding (length m)

-- The state after a whole message.
unfoldable pub sha256_state : Compress → List ℕ → ShaState
unfolding padded blocks
sha256_state compress m = blocks compress phpser_sha256_iv (padded m) (length (padded m) / 64)

unfoldable pub sha256 : Compress → List ℕ → List ℕ
unfolding sha256_state store_digest
sha256 compress m = store_digest (sha256_state compress m)

take-append_le : (n : ℕ) (xs ys : List ℕ) → n ≤ length xs → take n (xs ++ ys) ≡ take n xs
take-append_le zero xs ys h = refl
take-append_le (suc n) [] ys h = absurd (omega arith)
take-append_le (suc n) (x ∷ xs) ys h = ap (λ r. x ∷ r) (take-append_le n xs ys (omega arith))

drop-append_le : (n : ℕ) (xs ys : List ℕ) → n ≤ length xs → drop n (xs ++ ys) ≡ drop n xs ++ ys
drop-append_le zero xs ys h = refl
drop-append_le (suc n) [] ys h = absurd (omega arith)
drop-append_le (suc n) (x ∷ xs) ys h = drop-append_le n xs ys (omega arith)

-- Blocks one list after the other.
pub blocks-append :
    (compress : Compress) (n m : ℕ) (st : ShaState) (a b : List ℕ)
    → length a ≡ n * 64
    → blocks compress st (a ++ b) (n + m) ≡ blocks compress (blocks compress st a n) b m
unfolding blocks
blocks-append compress zero m st [] b h =
    let none_left : 0 + m ≡ m = omega arith in rw none_left refl
blocks-append compress zero m st (x ∷ a) b h = absurd (omega arith)
blocks-append compress (suc n) m st a b h =
    let more : suc n + m ≡ suc (n + m) = omega arith in
    let first : blocks compress (compress st (take 64 (a ++ b))) (drop 64 (a ++ b)) (n + m)
        ≡ blocks compress (blocks compress (compress st (take 64 a)) (drop 64 a) n) b m =
      rw (take-append_le 64 a b (omega arith), drop-append_le 64 a b (omega arith))
        (blocks-append compress n m (compress st (take 64 a)) (drop 64 a) b (omega lengths)) in
    rw more first

-- Bytes beyond the blocks are not read.
blocks-surplus :
    (compress : Compress) (n : ℕ) (st : ShaState) (a b : List ℕ)
    → length a ≡ n * 64
    → blocks compress st (a ++ b) n ≡ blocks compress st a n
unfolding blocks
blocks-surplus compress zero st a b h = refl
blocks-surplus compress (suc n) st a b h =
    rw (take-append_le 64 a b (omega arith), drop-append_le 64 a b (omega arith))
      (blocks-surplus compress n (compress st (take 64 a)) (drop 64 a) b (omega lengths))

pub length-padding : (len : ℕ) → length (padding len) ≡ 9 + (119 - len % 64) % 64
unfolding padding
length-padding len =
    let zeros : List ℕ = replicate ((119 - len % 64) % 64) 0 in
    let high = store_be32 (len * 8 % 2 ^ 64 / 2 ^ 32 % 2 ^ 32) in
    let low = store_be32 (len * 8 % 2 ^ 64 % 2 ^ 32) in
    omega (
      arith,
      length-append (zeros ++ high) low,
      length-append zeros high,
      length-replicate {A = ℕ} ((119 - len % 64) % 64) 0,
    )

tail-padding :
    (n len : ℕ)
    → final_tail (len % 64) (if ltb (len % 64) 56 then 64 else 128) ((n * 64 + len) * 8 % 2 ^ 64)
      ≡ padding (n * 64 + len)
unfolding final_tail padding
tail-padding n len =
    let zeros : (if ltb (len % 64) 56 then 64 else 128) - 8 - len % 64 - 1
        ≡ (119 - (n * 64 + len) % 64) % 64 =
      ground arith in
    rw zeros refl

full_blocks :
    (compress : Compress) (st : ShaState) (input : List ℕ) (full : ℕ)
    → (if full == 0 then st else blocks compress st input full) ≡ blocks compress st input full
unfolding blocks
full_blocks compress st input zero = refl
full_blocks compress st input (suc n) = ground arith

length-rest : (input : List ℕ) → length (drop (length input / 64 * 64) input) ≡ length input % 64
length-rest input = omega lengths

take-all : (n : ℕ) (xs : List ℕ) → length xs ≡ n → take n xs ≡ xs
take-all zero [] h = refl
take-all zero (x ∷ xs) h = absurd (omega arith)
take-all (suc n) [] h = refl
take-all (suc n) (x ∷ xs) h = ap (λ r. x ∷ r) (take-all n xs (omega arith))

length-front :
    (input : List ℕ) → length (take (length input / 64 * 64) input) ≡ length input / 64 * 64
length-front input = length-take_le (length input / 64 * 64) input (omega arith)

-- The routine compresses the message and the padding of the whole length.
absorb-blocks :
    (compress : Compress) (n : ℕ) (st : ShaState) (input : List ℕ)
    → sha256_absorb_final compress st input (n * 64)
      ≡ blocks compress st
          (input ++ padding (n * 64 + length input))
          (length input / 64 + (if ltb (length input % 64) 56 then 64 else 128) / 64)
unfolding sha256_absorb_final
absorb-blocks compress n st input =
    let full = length input / 64 in
    let t = (if ltb (length input % 64) 56 then 64 else 128) / 64 in
    let front = take (full * 64) input in
    let rest = drop (full * 64) input in
    let pad = padding (n * 64 + length input) in
    let parts : front ++ rest ≡ input = take-append-drop (full * 64) input in
    let first : blocks compress st input full ≡ blocks compress st front full =
      ap (λ x. blocks compress st x full) (sym parts)
      ∙ blocks-surplus compress full st front rest (length-front input) in
    let whole : front ++ (rest ++ pad) ≡ input ++ pad =
      sym (append_assoc front rest pad) ∙ ap (λ x. x ++ pad) parts in
    rw
      (
        full_blocks compress st input full,
        take-all (length input % 64) rest (length-rest input),
        tail-padding n (length input),
        first,
      )
      (sym (blocks-append compress full t st front (rest ++ pad) (length-front input))
        ∙ ap (λ x. blocks compress st x (full + t)) whole)

block_count :
    (n len : ℕ)
    → n + (len / 64 + (if ltb (len % 64) 56 then 64 else 128) / 64)
      ≡ (n * 64 + len + (9 + (119 - (n * 64 + len) % 64) % 64)) / 64
block_count n len = ground arith

-- Resumed after any number of full blocks, the routine gives the SHA-256 state of those blocks
-- followed by its input.
pub sha256_absorb_final-resumes :
    (compress : Compress) (n : ℕ) (pre input : List ℕ)
    → length pre ≡ n * 64
    → sha256_absorb_final compress (blocks compress phpser_sha256_iv pre n) input (n * 64)
      ≡ sha256_state compress (pre ++ input)
unfolding sha256_state padded
sha256_absorb_final-resumes compress n pre input h =
    let t = (if ltb (length input % 64) 56 then 64 else 128) / 64 in
    let len : length (pre ++ input) ≡ n * 64 + length input = omega lengths in
    let pad = padding (n * 64 + length input) in
    let whole : pre ++ (input ++ pad) ≡ (pre ++ input) ++ pad = sym (append_assoc pre input pad) in
    let count : n + (length input / 64 + t) ≡ length ((pre ++ input) ++ pad) / 64 =
      block_count n (length input)
      ∙ ap (λ l. l / 64)
          (sym (
            length-append (pre ++ input) pad
            ∙ rw (len, length-padding (n * 64 + length input)) refl)) in
    rw len (
      absorb-blocks compress n (blocks compress phpser_sha256_iv pre n) input
      ∙ sym (blocks-append compress n (length input / 64 + t) phpser_sha256_iv pre (input ++ pad) h)
      ∙ rw (whole, count) refl)
