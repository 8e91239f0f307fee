-- ===== src/Encode/Probe/Filled.antt =====
-- What a table holds stays found when another pointer is placed in it.
use phpser.Base.{
  ℕ, zero, suc, ◌+◌, ◌%◌, ◌<◌, ◌≡◌, refl, sym, ◌∙◌, ap, arith, List, Option, some, none, ◌==◌,
  ==→eq, Bool-cases, inl, inr, length, set, if◌then◌else◌,
}
use mathlib.Core.Path.{subst}
use phpser.Encode.Probe.{id_hash, slot_at, seek, seek_from, find, place}
use phpser.Encode.Probe.Found.{
  slot_cases, seek_here, seek_on, slot_at-set_other, apart, length-set, seek_placed, find_at,
  seek_from-EndsAt,
}

module _ {A : Type 0} where
  -- The probe of q passes filled slots alone, so that filling an empty one does not change it.
  seek_filled :
      (rounds : ℕ) (slots : List (Option (ℕ × A))) (q h u t : ℕ) (b : A) (s : Option (ℕ × A))
      → seek rounds slots q h ≡ u
      → slot_at slots u ≡ some (q, b)
      → slot_at slots t ≡ none
      → seek rounds (set slots t s) q h ≡ u
  unfolding seek
  seek_filled zero slots q h u t b s e held free = e
  seek_filled (suc rounds) slots q h u t b s e held free = elim (slot_cases (slot_at slots h) q) [
    | inl (inl empty) ↦
        let same : h ≡ u = sym (seek_here (suc rounds) slots q h (inl empty)) ∙ e in
        let clash : some (q, b) ≡ none = sym held ∙ sym (ap (slot_at slots) same) ∙ empty in cc
    | inl (inr (c, here)) ↦
        seek_here (suc rounds) (set slots t s) q h
          (inr (c, slot_at-set_other slots t h s (apart slots h t (q, c) here free) ∙ here))
        ∙ sym (seek_here (suc rounds) slots q h (inr (c, here)))
        ∙ e
    | inr (p, c, here, other) ↦
        seek_on rounds (set slots t s) q h p c
          (slot_at-set_other slots t h s (apart slots h t (p, c) here free) ∙ here) other
        ∙ ap (λ n. seek rounds (set slots t s) q ((h + 1) % n)) (length-set slots t s)
        ∙ seek_filled rounds slots q ((h + 1) % length slots) u t b s
            (sym (seek_on rounds slots q h p c here other) ∙ e) held free
  ]

  found_slot :
      (s : Option (ℕ × A)) (q : ℕ) (b : A)
      → elim s [ none ↦ none | some t ↦ if t.0 == q then some t.1 else none ] ≡ some b
      → s ≡ some (q, b)
  found_slot none q b e = cc
  found_slot (some (p, a)) q b e = elim (Bool-cases (p == q)) [
    | inl same ↦ ground (arith, same, ==→eq p q same)
    | inr other ↦ ground (arith, other)
  ]

  found_at :
      (slots : List (Option (ℕ × A))) (q : ℕ) (b : A)
      → find slots q ≡ some b
      → slot_at slots (seek_from slots q) ≡ some (q, b)
  unfolding find
  found_at slots q b e = found_slot (slot_at slots (seek_from slots q)) q b e

-- In a table with a free slot, a pointer q that is found is still found, with what was stored for it,
-- once a pointer p that is not found has been placed.
pub find-place_kept :
    {A : Type 0} (slots : List (Option (ℕ × A))) (p q f : ℕ) (a b : A)
    → f < length slots
    → slot_at slots f ≡ none
    → find slots p ≡ none
    → find slots q ≡ some b
    → find (place slots p a) q ≡ some b
unfolding place seek_from
find-place_kept slots p q f a b inside free absent found =
    let (below, end) = seek_from-EndsAt slots p f inside free in
    let held = found_at slots q b found in
    elim end [
      | inl empty ↦
          let t = seek_from slots p in
          let u = seek_from slots q in
          let (goes, _) =
            seek_placed (length slots) slots p (id_hash p % length slots) a t refl empty below in
          let placed = set slots t (some (p, a)) in
          subst (λ c. find c q ≡ some b) (ap (λ k. set slots k (some (p, a))) (sym goes))
            (find_at placed q u b
              (ap (λ n. seek n placed q (id_hash q % n)) (length-set slots t (some (p, a)))
                ∙ seek_filled (length slots) slots q (id_hash q % length slots) u t b (some (p, a))
                    refl held empty)
              (slot_at-set_other slots t u (some (p, a)) (apart slots u t (q, b) held empty)
                ∙ held))
      | inr (c, here) ↦
          let clash : some c ≡ none =
            sym (find_at slots p (seek_from slots p) c refl here) ∙ absent in
          cc
    ]
