-- ===== src/Encode/Runs/Chosen.antt =====
-- The tag that enc_pick_long_run_tag picks, on every branch.
use phpser.Base.{
  ℕ, ◌+◌, ◌*◌, ◌%◌, ◌^◌, ◌<◌, ◌≤◌, ◌⊎◌, ◌≡◌, refl, sym, ap, ◌∙◌, arith, Bool, true, false, ◌&&◌,
  List, [], ◌∷◌, length, All, inl, inr, Bool-cases,
}
use phpser.Tag.{Tag}
use phpser.Wire.{IsU64}
use phpser.Decode.Runs.{sublinear_max_elems}
use phpser.Encode.Ctx.{Enc}
use phpser.Encode.Runs.{
  sub64, write_longs, write_delta_run, is_affine, sublinear_fits, enc_pick_long_run_tag,
}
use phpser.Encode.Runs.Choice.{and_left, and_right, within, sized_choice}

-- Each value of the run is the one before plus the step, wrapping.
abbrev pub HasStep : ℕ → List ℕ → Type 0
HasStep step [] = Unit {0}
HasStep step (v ∷ []) = Unit {0}
HasStep step (v ∷ w ∷ vs) = ((v + step) % 2 ^ 64 ≡ w) × HasStep step (w ∷ vs)

difference : (v w step : ℕ) → IsU64 v → (v + step) % 2 ^ 64 ≡ w → sub64 w v ≡ step % 2 ^ 64
unfolding sub64
difference v w step hv e = omega arith

sum_with : (v w : ℕ) → IsU64 v → IsU64 w → (v + sub64 w v) % 2 ^ 64 ≡ w
unfolding sub64
sum_with v w hv hw = omega arith

is_affine-HasStep :
    (step v : ℕ) (vs : List ℕ)
    → All IsU64 (v ∷ vs)
    → is_affine step v vs ≡ true
    → HasStep step (v ∷ vs)
unfolding is_affine
is_affine-HasStep step v [] h e = tt
is_affine-HasStep step v (w ∷ vs) (hv, (hw, h)) e =
    let same : sub64 w v ≡ step = ground arith in
    let rest : is_affine step w vs ≡ true = ground arith in
    (
      ap (λ s. (v + s) % 2 ^ 64) (sym same) ∙ sum_with v w hv hw,
      is_affine-HasStep step w vs (hw, h) rest,
    )

HasStep-is_affine :
    (step v : ℕ) (vs : List ℕ)
    → All IsU64 (v ∷ vs)
    → HasStep step (v ∷ vs)
    → is_affine (step % 2 ^ 64) v vs ≡ true
unfolding is_affine
HasStep-is_affine step v [] h steps = refl
HasStep-is_affine step v (w ∷ vs) (hv, h) (one, steps) =
    let same = difference v w step hv one in
    let rest = HasStep-is_affine step w vs h steps in ground (arith, same, rest)

fits_budget :
    (n : ℕ) (e : Enc) → e.sublinear_elems + n ≤ sublinear_max_elems → sublinear_fits n e ≡ true
unfolding sublinear_fits
fits_budget n e h = ground arith

and_true : (a b : Bool) → a ≡ true → b ≡ true → (a && b) ≡ false → ⊥
and_true a b p q e = ground arith

not_stepped :
    (v w : ℕ) (vs : List ℕ) (e : Enc)
    → All IsU64 (v ∷ w ∷ vs)
    → (e.sublinear_elems + length (v ∷ w ∷ vs) ≤ sublinear_max_elems)
      × (step : ℕ) × HasStep step (v ∷ w ∷ vs)
    → (is_affine (sub64 w v) v (w ∷ vs) && sublinear_fits (length (v ∷ w ∷ vs)) e) ≡ false
    → ⊥
not_stepped v w vs e (hv, h) (room, step, (one, steps)) sized =
    let affine = HasStep-is_affine step v (w ∷ vs) (hv, h) (one, steps) in
    let same = difference v w step hv one in
    and_true _ _ (ap (λ s. is_affine s v (w ∷ vs)) same ∙ affine)
      (fits_budget (length (v ∷ w ∷ vs)) e room) sized

-- enc_pick_long_run_tag on every run of 64-bit integers with fewer than 2^32 / 10 elements. A run of
-- fewer than four is plain. A longer one with a constant wrapping step, where its elements are left
-- in the budget, is affine with that step and charged. Any other is delta if the delta run is the
-- shorter one, else plain, and is not charged.
pub enc_pick_long_run_tag-choice :
    (vs : List ℕ) (e : Enc)
    → All IsU64 vs
    → 10 * length vs < 2 ^ 32
    → ((length vs < 4) × (enc_pick_long_run_tag vs e ≡ (Tag.packed_longs, 0, e)))
      ⊎ (((4 ≤ length vs)
            × (e.sublinear_elems + length vs ≤ sublinear_max_elems)
            × (step : ℕ) × HasStep step vs
            × (enc_pick_long_run_tag vs e ≡ (
              Tag.packed_affine,
              step,
              record e { sublinear_elems = e.sublinear_elems + length vs },
            )))
          ⊎ ((4 ≤ length vs)
              × (¬ (
                  (e.sublinear_elems + length vs ≤ sublinear_max_elems)
                  × (step : ℕ) × HasStep step vs))
              × (((enc_pick_long_run_tag vs e ≡ (Tag.packed_delta, 0, e))
                    × (length (write_delta_run vs []) < length (write_longs vs [])))
                  ⊎ ((enc_pick_long_run_tag vs e ≡ (Tag.packed_longs, 0, e))
                      × (length (write_longs vs []) ≤ length (write_delta_run vs []))))))
unfolding enc_pick_long_run_tag
enc_pick_long_run_tag-choice [] e h few = inl (omega arith, refl)
enc_pick_long_run_tag-choice (a ∷ []) e h few = inl (omega arith, refl)
enc_pick_long_run_tag-choice (a ∷ b ∷ []) e h few = inl (omega arith, refl)
enc_pick_long_run_tag-choice (a ∷ b ∷ c ∷ []) e h few = inl (omega arith, refl)
enc_pick_long_run_tag-choice (v ∷ w ∷ x ∷ y ∷ vs) e h few =
    let n = length (v ∷ w ∷ x ∷ y ∷ vs) in
    let affine = is_affine (sub64 w v) v (w ∷ x ∷ y ∷ vs) in
    elim (Bool-cases (affine && sublinear_fits n e)) [
      | inl taken ↦ inr (
          inl (
            omega arith,
            within n e (and_right _ _ taken),
            sub64 w v,
            is_affine-HasStep (sub64 w v) v (w ∷ x ∷ y ∷ vs) h (and_left _ _ taken),
            rw taken refl,
          ))
      | inr sized ↦ inr (
          inr (
            omega arith,
            λ stepped. not_stepped v w (x ∷ y ∷ vs) e h stepped sized,
            elim (sized_choice v (w ∷ x ∷ y ∷ vs) h few) [
              | inl (tag, shorter) ↦ inl (rw (sized, tag) refl, shorter)
              | inr (tag, longer) ↦ inr (rw (sized, tag) refl, longer)
            ],
          ))
    ]
