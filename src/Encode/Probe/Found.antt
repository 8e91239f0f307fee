-- ===== src/Encode/Probe/Found.antt =====
-- Probes of a table with a free slot: they end, and find what was placed.
use native.Mathlib.Nat.{mod-eq_of_lt, mod_self, mod-lt}
use phpser.Base.{
  ℕ, zero, suc, ◌+◌, ◌-◌, ◌%◌, ◌<◌, ◌≤◌, ◌≡◌, ◌⊎◌, refl, sym, ◌∙◌, ap, arith, true, false, List, [],
  ◌∷◌, Option, some, none, ◌==◌, leb, ==→eq, Bool-cases, inl, inr, length, set,
}
use mathlib.Core.Path.{subst}
use phpser.Encode.Probe.{id_hash, slot_at, seek, seek_free, seek_from, find, place}

==_self : (p : ℕ) → (p == p) ≡ true
==_self p = ground arith

next_slot :
    (h n : ℕ) → h < n → (((h + 1) % n ≡ h + 1) × (h + 1 < n)) ⊎ (((h + 1) % n ≡ 0) × (h + 1 ≡ n))
next_slot h n below = elim (lt_or_eq (h + 1) n (omega (arith, below))) [
  | inl more ↦ inl (mod-eq_of_lt more, more)
  | inr last ↦ inr (ap (λ k. k % n) last ∙ mod_self n, last)
]
  where
    lt_or_eq : (a b : ℕ) → a ≤ b → (a < b) ⊎ (a ≡ b)
    lt_or_eq a b e = ground arith

-- Going round a table of n slots, slot f comes k slots after slot h.
abbrev IsAhead : ℕ → ℕ → ℕ → ℕ → Type 0
IsAhead n h k f = (h + k ≡ f) ⊎ (h + k ≡ f + n)

some_slot-IsAhead : (h f n : ℕ) → h < n → f < n → (k : ℕ) × IsAhead n h k f × (k < n)
some_slot-IsAhead h f n below inside = elim (Bool-cases (leb h f)) [
  | inl before ↦ (f - h, inl (ground (arith, before)), omega (arith, inside))
  | inr after ↦ (f + n - h, inr (omega (arith, below)), ground (arith, after))
]

step-IsAhead :
    (n h k f : ℕ)
    → h < n
    → f < n
    → IsAhead n h (suc k) f
    → ((h + 1) % n < n) × IsAhead n ((h + 1) % n) k f
step-IsAhead n h k f below free ahead = elim (next_slot h n below) [
  | inl (e, more) ↦ ground (arith, e, more, ahead)
  | inr (e, last) ↦ ground (arith, e, last, ahead)
]

module _ {A : Type 0} where
  -- An empty slot, or the one of p.
  abbrev pub EndsAt : List (Option (ℕ × A)) → ℕ → ℕ → Type 0
  EndsAt slots p h =
      (h < length slots) × ((slot_at slots h ≡ none) ⊎ ((a : A) × (slot_at slots h ≡ some (p, a))))

  pub slot_cases :
      (s : Option (ℕ × A)) (p : ℕ)
      → ((s ≡ none) ⊎ ((a : A) × (s ≡ some (p, a))))
        ⊎ ((q : ℕ) × (a : A) × (s ≡ some (q, a)) × ((q == p) ≡ false))
  slot_cases none p = inl (inl refl)
  slot_cases (some (q, a)) p = elim (Bool-cases (q == p)) [
    | inl same ↦ inl (inr (a, ap (λ k. some (k, a)) (==→eq q p same)))
    | inr other ↦ inr (q, a, refl, other)
  ]

  pub seek_here :
      (rounds : ℕ) (slots : List (Option (ℕ × A))) (p h : ℕ)
      → (slot_at slots h ≡ none) ⊎ ((a : A) × (slot_at slots h ≡ some (p, a)))
      → seek rounds slots p h ≡ h
  unfolding seek
  seek_here zero slots p h end = refl
  seek_here (suc rounds) slots p h (inl e) = rw (seek, e) refl
  seek_here (suc rounds) slots p h (inr (a, e)) = rw (seek, e, ==_self p) refl

  pub seek_on :
      (rounds : ℕ) (slots : List (Option (ℕ × A))) (p h q : ℕ) (a : A)
      → slot_at slots h ≡ some (q, a)
      → (q == p) ≡ false
      → seek (suc rounds) slots p h ≡ seek rounds slots p ((h + 1) % length slots)
  unfolding seek
  seek_on rounds slots p h q a e other = rw (seek, e, other) refl

  not_free :
      (slots : List (Option (ℕ × A))) (h k f q : ℕ) (a : A)
      → slot_at slots f ≡ none
      → slot_at slots h ≡ some (q, a)
      → h < length slots
      → IsAhead (length slots) h k f
      → (j : ℕ) × (k ≡ suc j)
  not_free slots h zero f q a free e below (inl same) =
      let here : h ≡ f = omega (arith, same) in
      let clash : some (q, a) ≡ none = sym e ∙ ap (slot_at slots) here ∙ free in cc
  not_free slots h zero f q a free e below (inr same) = absurd (omega (arith, same, below))
  not_free slots h (suc j) f q a free e below ahead = (j, refl)

  seek-EndsAt :
      (rounds : ℕ) (slots : List (Option (ℕ × A))) (p h k f : ℕ)
      → h < length slots
      → f < length slots
      → slot_at slots f ≡ none
      → IsAhead (length slots) h k f
      → k < rounds
      → EndsAt slots p (seek rounds slots p h)
  seek-EndsAt zero slots p h k f below inside free ahead enough = absurd (omega (arith, enough))
  seek-EndsAt (suc rounds) slots p h k f below inside free ahead enough =
      elim (slot_cases (slot_at slots h) p) [
        | inl end ↦ subst (EndsAt slots p) (sym (seek_here (suc rounds) slots p h end)) (below, end)
        | inr (q, a, e, other) ↦
            let (j, next) = not_free slots h k f q a free e below ahead in
            let (below', ahead') =
              step-IsAhead (length slots) h j f below inside
                (subst (λ k. IsAhead (length slots) h k f) next ahead) in
            subst (EndsAt slots p) (sym (seek_on rounds slots p h q a e other)) (
              seek-EndsAt rounds slots p ((h + 1) % length slots) j f below' inside free ahead'
                (omega (arith, next, enough)))
      ]

  pub length-set :
      (slots : List (Option (ℕ × A))) (t : ℕ) (s : Option (ℕ × A))
      → length (set slots t s) ≡ length slots
  length-set [] t s = refl
  length-set (x ∷ slots) zero s = refl
  length-set (x ∷ slots) (suc t) s = ap suc (length-set slots t s)

  slot_at-set :
      (slots : List (Option (ℕ × A))) (t : ℕ) (s : Option (ℕ × A))
      → t < length slots
      → slot_at (set slots t s) t ≡ s
  unfolding slot_at
  slot_at-set [] t s below = absurd (omega (arith, below))
  slot_at-set (x ∷ slots) zero none below = refl
  slot_at-set (x ∷ slots) zero (some e) below = refl
  slot_at-set (x ∷ slots) (suc t) s below = slot_at-set slots t s (omega (arith, below))

  pub slot_at-set_other :
      (slots : List (Option (ℕ × A))) (t h : ℕ) (s : Option (ℕ × A))
      → (h == t) ≡ false
      → slot_at (set slots t s) h ≡ slot_at slots h
  unfolding slot_at
  slot_at-set_other [] t h s other = refl
  slot_at-set_other (x ∷ slots) zero zero s other = cc
  slot_at-set_other (x ∷ slots) zero (suc h) s other = refl
  slot_at-set_other (x ∷ slots) (suc t) zero s other = refl
  slot_at-set_other (x ∷ slots) (suc t) (suc h) s other =
      let below : (h == t) ≡ false = ground (arith, other) in slot_at-set_other slots t h s below

  seek_free_here :
      (rounds : ℕ) (slots : List (Option (ℕ × A))) (h : ℕ)
      → slot_at slots h ≡ none
      → seek_free rounds slots h ≡ h
  unfolding seek_free
  seek_free_here zero slots h e = refl
  seek_free_here (suc rounds) slots h e = rw (seek_free, e) refl

  seek_free_on :
      (rounds : ℕ) (slots : List (Option (ℕ × A))) (h : ℕ) (s : ℕ × A)
      → slot_at slots h ≡ some s
      → seek_free (suc rounds) slots h ≡ seek_free rounds slots ((h + 1) % length slots)
  unfolding seek_free
  seek_free_on rounds slots h s e = rw (seek_free, e) refl

  pub apart :
      (slots : List (Option (ℕ × A))) (h t : ℕ) (s : ℕ × A)
      → slot_at slots h ≡ some s
      → slot_at slots t ≡ none
      → (h == t) ≡ false
  apart slots h t s held free = elim (Bool-cases (h == t)) [
    | inl same ↦
        let clash : some s ≡ none = sym held ∙ ap (slot_at slots) (==→eq h t same) ∙ free in cc
    | inr other ↦ other
  ]

  -- Where p is not found, it goes to the slot at which its probe ended, and its probe ends there again.
  pub seek_placed :
      (rounds : ℕ) (slots : List (Option (ℕ × A))) (p h : ℕ) (a : A) (t : ℕ)
      → seek rounds slots p h ≡ t
      → slot_at slots t ≡ none
      → t < length slots
      → (seek_free rounds slots h ≡ t) × (seek rounds (set slots t (some (p, a))) p h ≡ t)
  unfolding seek seek_free
  seek_placed zero slots p h a t e free below = (e, e)
  seek_placed (suc rounds) slots p h a t e free below =
      let placed = set slots t (some (p, a)) in
      elim (slot_cases (slot_at slots h) p) [
        | inl (inl empty) ↦
            let same : h ≡ t = sym (seek_here (suc rounds) slots p h (inl empty)) ∙ e in
            (
              seek_free_here (suc rounds) slots h empty ∙ same,
              seek_here (suc rounds) placed p h
                    (inr (a, ap (slot_at placed) same ∙ slot_at-set slots t (some (p, a)) below))
                  ∙ same,
            )
        | inl (inr (b, held)) ↦
            let same : h ≡ t = sym (seek_here (suc rounds) slots p h (inr (b, held))) ∙ e in
            let clash : some (p, b) ≡ none = sym held ∙ ap (slot_at slots) same ∙ free in cc
        | inr (q, b, held, other) ↦
            let (goes, ends) =
              seek_placed rounds slots p ((h + 1) % length slots) a t
                (sym (seek_on rounds slots p h q b held other) ∙ e) free below in
            (
              seek_free_on rounds slots h (q, b) held ∙ goes,
              seek_on rounds placed p h q b
                    (slot_at-set_other slots t h (some (p, a)) (apart slots h t (q, b) held free)
                      ∙ held)
                    other
                  ∙ ap (λ n. seek rounds placed p ((h + 1) % n)) (length-set slots t (some (p, a)))
                  ∙ ends,
            )
      ]

  pub find_at :
      (slots : List (Option (ℕ × A))) (p t : ℕ) (a : A)
      → seek_from slots p ≡ t
      → slot_at slots t ≡ some (p, a)
      → find slots p ≡ some a
  unfolding find
  find_at slots p t a e held = rw (find, e, held, ==_self p) refl

-- In a table with a free slot, the probe of a pointer p that starts at its hash takes no more rounds
-- than the table has slots: it ends inside the table, at an empty slot or at the one of p.
pub seek_from-EndsAt :
    {A : Type 0} (slots : List (Option (ℕ × A))) (p f : ℕ)
    → f < length slots
    → slot_at slots f ≡ none
    → EndsAt slots p (seek_from slots p)
unfolding seek_from
seek_from-EndsAt slots p f inside free =
    let below = mod-lt (id_hash p) {m = length slots} (omega (arith, inside)) in
    let (k, ahead, enough) =
      some_slot-IsAhead (id_hash p % length slots) f (length slots) below inside in
    seek-EndsAt (length slots) slots p (id_hash p % length slots) k f below inside free ahead enough

-- A pointer that is not in a table with a free slot is found, with what was stored for it, once it
-- has been placed.
pub find-place :
    {A : Type 0} (slots : List (Option (ℕ × A))) (p f : ℕ) (a : A)
    → f < length slots
    → slot_at slots f ≡ none
    → find slots p ≡ none
    → find (place slots p a) p ≡ some a
unfolding place seek_from
find-place slots p f a inside free absent =
    let (below, end) = seek_from-EndsAt slots p f inside free in
    elim end [
      | inl empty ↦
          let t = seek_from slots p in
          let (goes, ends) =
            seek_placed (length slots) slots p (id_hash p % length slots) a t refl empty below in
          let placed = set slots t (some (p, a)) in
          subst (λ c. find c p ≡ some a) (ap (λ k. set slots k (some (p, a))) (sym goes))
            (find_at placed p t a
              (ap (λ n. seek n placed p (id_hash p % n)) (length-set slots t (some (p, a))) ∙ ends)
              (slot_at-set slots t (some (p, a)) below))
      | inr (b, held) ↦
          let clash : some b ≡ none =
            sym (find_at slots p (seek_from slots p) b refl held) ∙ absent in
          cc
    ]
