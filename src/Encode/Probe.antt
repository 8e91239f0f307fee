-- ===== src/Encode/Probe.antt =====
-- The encoder's open-addressing tables: pointer to payload, no eviction. A slot whose pointer is
-- NULL is none. The mask is the capacity less one, so `& mask` is the remainder by the capacity.
pub mod Kept
pub mod Found
pub mod Filled
use phpser.Base.{
  ℕ, zero, suc, ◌+◌, ◌*◌, ◌/◌, ◌%◌, ◌^◌, List, [], ◌∷◌, Option, some, none, if◌then◌else◌, ◌==◌,
  length, get_elem?, set, replicate,
}

unfoldable pub id_hash : ℕ → ℕ
id_hash p = p * 11400714819323198485 % 2 ^ 64 / 2 ^ 32

module _ {A : Type 0} where
  unfoldable pub slot_at : List (Option (ℕ × A)) → ℕ → Option (ℕ × A)
  slot_at slots h = elim (get_elem? slots h) [ none ↦ none | some s ↦ s ]

  -- `while (c[h].ptr) { if (c[h].ptr == p) ...; h = (h + 1) & mask; }`: where it stops.
  unfoldable pub seek : ℕ → List (Option (ℕ × A)) → ℕ → ℕ → ℕ
  unfolding slot_at
  seek zero slots p h = h
  seek (suc rounds) slots p h =
      let rest = seek rounds slots p ((h + 1) % length slots) in
      elim (slot_at slots h) [ none ↦ h | some s ↦ if s.0 == p then h else rest ]

  unfoldable pub seek_free : ℕ → List (Option (ℕ × A)) → ℕ → ℕ
  unfolding slot_at
  seek_free zero slots h = h
  seek_free (suc rounds) slots h =
      let rest = seek_free rounds slots ((h + 1) % length slots) in
      elim (slot_at slots h) [ none ↦ h | some s ↦ rest ]

  unfoldable pub seek_from : List (Option (ℕ × A)) → ℕ → ℕ
  unfolding seek id_hash
  seek_from slots p = seek (length slots) slots p (id_hash p % length slots)

  unfoldable pub find : List (Option (ℕ × A)) → ℕ → Option A
  unfolding seek_from slot_at
  find slots p = elim (slot_at slots (seek_from slots p)) [
    | none ↦ none
    | some s ↦ if s.0 == p then some s.1 else none
  ]

  -- A new entry goes to the first empty slot.
  unfoldable pub place : List (Option (ℕ × A)) → ℕ → A → List (Option (ℕ × A))
  unfolding seek_free id_hash
  place slots p a =
      set slots (seek_free (length slots) slots (id_hash p % length slots)) (some (p, a))

  -- `c[h].idx = a` at the slot of p
  unfoldable pub overwrite : List (Option (ℕ × A)) → ℕ → A → List (Option (ℕ × A))
  unfolding seek_from
  overwrite slots p a = set slots (seek_from slots p) (some (p, a))

  unfoldable pub rehash : List (Option (ℕ × A)) → List (Option (ℕ × A)) → List (Option (ℕ × A))
  unfolding place
  rehash [] fresh = fresh
  rehash (none ∷ slots) fresh = rehash slots fresh
  rehash (some s ∷ slots) fresh = rehash slots (place fresh s.0 s.1)

  unfoldable pub grow : List (Option (ℕ × A)) → ℕ → List (Option (ℕ × A))
  unfolding rehash
  grow slots new_cap = rehash slots (replicate new_cap none)
