-- ===== src/Hmac/Compare.antt =====
-- phpser_ct_eq against a comparison with an early exit.
use phpser.Base.{
  ℕ, zero, suc, bit_or, bit_xor, ◌≡◌, refl, sym, ap, ◌∙◌, true, List, [], ◌∷◌, inl, inr, arith,
  ==→eq, length, take, Bool-cases, bytes_eq, bytes_eq→eq, bytes_eq_refl,
}
use phpser.Base.Bits.{bit_or-eq-zero, bit_xor-eq-zero, bit_xor_self}
use phpser.Hmac.{ct_loop, phpser_ct_eq}

-- The comparison.
ct_loop-zero :
    (r : ℕ) (as' bs : List ℕ) → length as' ≡ length bs → ct_loop r as' bs ≡ 0 → (r ≡ 0) × (as' ≡ bs)
unfolding ct_loop
ct_loop-zero r [] [] h e = (e, refl)
ct_loop-zero r [] (b ∷ bs) h e = absurd (omega arith)
ct_loop-zero r (a ∷ as') [] h e = absurd (omega arith)
ct_loop-zero r (a ∷ as') (b ∷ bs) h e =
    let (p, q) = ct_loop-zero (bit_or r (bit_xor a b)) as' bs (omega arith) e in
    let (s, t) = bit_or-eq-zero r (bit_xor a b) p in (s, rw (bit_xor-eq-zero a b t, q) refl)

ct_loop_self : (as' : List ℕ) → ct_loop 0 as' as' ≡ 0
unfolding ct_loop
ct_loop_self [] = refl
ct_loop_self (a ∷ as') = rw (bit_xor_self a) (ct_loop_self as')

length-take_eq :
    (n : ℕ) (as' bs : List ℕ) → length as' ≡ length bs → length (take n as') ≡ length (take n bs)
length-take_eq zero as' bs h = refl
length-take_eq (suc n) [] [] h = refl
length-take_eq (suc n) [] (b ∷ bs) h = absurd (omega arith)
length-take_eq (suc n) (a ∷ as') [] h = absurd (omega arith)
length-take_eq (suc n) (a ∷ as') (b ∷ bs) h = omega (arith, length-take_eq n as' bs (omega arith))

take-length : (n : ℕ) (as' : List ℕ) → length as' ≡ n → take n as' ≡ as'
take-length zero [] h = refl
take-length zero (a ∷ as') h = absurd (omega arith)
take-length (suc n) [] h = refl
take-length (suc n) (a ∷ as') h = ap (λ r. a ∷ r) (take-length n as' (omega arith))

pub phpser_ct_eq-eq :
    (n : ℕ) (a b : List ℕ) → length a ≡ n → length b ≡ n → phpser_ct_eq a b n ≡ true → a ≡ b
unfolding phpser_ct_eq
phpser_ct_eq-eq n a b p q e =
    let (z, same) =
      ct_loop-zero 0 (take n a) (take n b) (length-take_eq n a b (p ∙ sym q)) (==→eq _ _ e) in
    sym (take-length n a p) ∙ same ∙ take-length n b q

pub phpser_ct_eq_refl : (n : ℕ) (a : List ℕ) → phpser_ct_eq a a n ≡ true
unfolding phpser_ct_eq
phpser_ct_eq_refl n a = rw (ct_loop_self (take n a)) refl

-- The comparison that never stops early decides equality: on two arrays of n bytes it gives what
-- comparing them byte by byte with an early exit gives.
pub phpser_ct_eq-bytes_eq :
    (n : ℕ) (a b : List ℕ) → length a ≡ n → length b ≡ n → phpser_ct_eq a b n ≡ bytes_eq a b
phpser_ct_eq-bytes_eq n a b p q = elim (Bool-cases (bytes_eq a b)) [
  | inl same ↦ let e = bytes_eq→eq a b same in rw same (rw e (phpser_ct_eq_refl n b))
  | inr differ ↦ elim (Bool-cases (phpser_ct_eq a b n)) [
    | inl taken ↦ let e = phpser_ct_eq-eq n a b p q taken in taken ∙ sym (rw e (bytes_eq_refl b))
    | inr refused ↦ refused ∙ sym differ
  ]
]
