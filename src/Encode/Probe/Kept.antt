-- ===== src/Encode/Probe/Kept.antt =====
-- A property of every slot of a table, through what phpser.c does to the table.
use phpser.Base.{
  ℕ, zero, suc, ◌≡◌, arith, List, [], ◌∷◌, Option, some, none, ◌==◌, ==→eq, Bool-cases, inl, inr,
  set, replicate, All, if◌then◌else◌,
}
use mathlib.Core.Path.{subst}
use phpser.Encode.Probe.{slot_at, seek_from, find, place, overwrite, rehash, grow}

module _ {A : Type 0} (P : Option (ℕ × A) → Type 0) (P_none : P none) where
  set-All :
      (slots : List (Option (ℕ × A))) (h : ℕ) (s : Option (ℕ × A))
      → All P slots
      → P s
      → All P (set slots h s)
  set-All [] h s all p = tt
  set-All (x ∷ slots) zero s (px, all) p = (p, all)
  set-All (x ∷ slots) (suc h) s (px, all) p = (px, set-All slots h s all p)

  replicate-All : (n : ℕ) → All P (replicate n none)
  replicate-All zero = tt
  replicate-All (suc n) = (P_none, replicate-All n)

  slot_at-All : (slots : List (Option (ℕ × A))) (h : ℕ) → All P slots → P (slot_at slots h)
  unfolding slot_at
  slot_at-All [] h all = P_none
  slot_at-All (x ∷ slots) zero (px, all) = px
  slot_at-All (x ∷ slots) (suc h) (px, all) = slot_at-All slots h all

  pub place-All :
      (slots : List (Option (ℕ × A))) (p : ℕ) (a : A)
      → All P slots
      → P (some (p, a))
      → All P (place slots p a)
  unfolding place
  place-All slots p a all pa = set-All slots _ (some (p, a)) all pa

  pub overwrite-All :
      (slots : List (Option (ℕ × A))) (p : ℕ) (a : A)
      → All P slots
      → P (some (p, a))
      → All P (overwrite slots p a)
  unfolding overwrite
  overwrite-All slots p a all pa = set-All slots _ (some (p, a)) all pa

  rehash-All :
      (slots fresh : List (Option (ℕ × A))) → All P slots → All P fresh → All P (rehash slots fresh)
  unfolding rehash
  rehash-All [] fresh all ok = ok
  rehash-All (none ∷ slots) fresh (px, all) ok = rehash-All slots fresh all ok
  rehash-All (some s ∷ slots) fresh (px, all) ok =
      rehash-All slots (place fresh s.0 s.1) all (place-All fresh s.0 s.1 ok px)

  pub grow-All :
      (slots : List (Option (ℕ × A))) (new_cap : ℕ) → All P slots → All P (grow slots new_cap)
  unfolding grow
  grow-All slots new_cap all = rehash-All slots (replicate new_cap none) all (replicate-All new_cap)

  held :
      (s : Option (ℕ × A)) (p : ℕ) (a : A)
      → P s
      → elim s [ none ↦ none | some t ↦ if t.0 == p then some t.1 else none ] ≡ some a
      → P (some (p, a))
  held none p a ps e = cc
  held (some (q, b)) p a ps e = elim (Bool-cases (q == p)) [
    | inl same ↦ subst P (ground (arith, same, ==→eq q p same)) ps
    | inr other ↦ ground (arith, other)
  ]

  -- What a probe finds stands in a slot.
  pub find-All :
      (slots : List (Option (ℕ × A))) (p : ℕ) (a : A)
      → All P slots
      → find slots p ≡ some a
      → P (some (p, a))
  unfolding find
  find-All slots p a all e =
      held (slot_at slots (seek_from slots p)) p a (slot_at-All slots _ all) e
