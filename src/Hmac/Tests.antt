-- ===== src/Hmac/Tests.antt =====
-- Runs of the HMAC code.
use phpser.Base.{◌≡◌, refl, true, false, [], ◌∷◌, ◌++◌, some, replicate, bytes_eq, arith}
use phpser.Sample.{adding, empty_cache, empty_cache-IsCurrent}
use phpser.Hmac.{
  phpser_sha256_iv, blocks, sha256_absorb_final, HmacState, ct_loop, phpser_ct_eq,
  phpser_hmac_sha256,
}
use phpser.Hmac.Padding.{sha256_state, sha256_absorb_final-resumes}
use phpser.Hmac.Cache.{hmac, IsCurrent, phpser_hmac_sha256-hmac}
use phpser.Hmac.Compare.{phpser_ct_eq-bytes_eq}

compare_runs :
    (phpser_ct_eq (1 ∷ 2 ∷ []) (1 ∷ 2 ∷ []) 2 ≡ true)
    × (phpser_ct_eq (1 ∷ 2 ∷ []) (3 ∷ 2 ∷ []) 2 ≡ false)
unfolding phpser_ct_eq ct_loop
compare_runs = (refl, refl)

phpser_ct_eq-bytes_eq_example :
    phpser_ct_eq (1 ∷ 2 ∷ []) (3 ∷ 2 ∷ []) 2 ≡ bytes_eq (1 ∷ 2 ∷ []) (3 ∷ 2 ∷ [])
phpser_ct_eq-bytes_eq_example = phpser_ct_eq-bytes_eq 2 (1 ∷ 2 ∷ []) (3 ∷ 2 ∷ []) refl refl

sha256_absorb_final-resumes_example :
    sha256_absorb_final adding (blocks adding phpser_sha256_iv (replicate 64 7) 1) (1 ∷ 2 ∷ []) 64
    ≡ sha256_state adding (replicate 64 7 ++ 1 ∷ 2 ∷ [])
sha256_absorb_final-resumes_example =
    sha256_absorb_final-resumes adding 1 (replicate 64 7) (1 ∷ 2 ∷ []) refl

phpser_hmac_sha256-hmac_example :
    (hs' : HmacState) × (phpser_hmac_sha256 (some adding) empty_cache (1 ∷ 2 ∷ []) (3 ∷ [])
      ≡ some (hmac adding (1 ∷ 2 ∷ []) (3 ∷ []), hs'))
    × IsCurrent adding hs'
phpser_hmac_sha256-hmac_example =
    phpser_hmac_sha256-hmac adding empty_cache (1 ∷ 2 ∷ []) (3 ∷ [])
      (omega arith, (omega arith, tt)) empty_cache-IsCurrent
