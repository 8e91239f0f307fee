-- ===== src/Decode/Assign/Ordered.antt =====
-- dec_assoc_update_bounded and TAG_ASSOC against assignment to an ordered PHP array.
use phpser.Base.{
  ℕ, ◌≡◌, ◌⊎◌, refl, sym, ap, ◌∙◌, Bool, true, false, List, [], ◌∷◌, Option, some, none, inl, inr,
  arith, map, if◌then◌else◌, ◌==◌, ==→eq, All, Bool-cases, Option-cases, bytes_eq, bytes_eq→eq,
}
use mathlib.Core.Path.{subst}
use phpser.Php.{Value, Key, int, Buckets, end, bucket}
use phpser.Decode.Ctx.{Engine, Zstr, Ctx, ok}
use phpser.Decode.Scalar.{KeyVal, kv_long, kv_str}
use phpser.Decode.Assoc.{
  Slot, Building, filed_key, insert_absent, key_of_slot, finish_onto, finish,
  dec_assoc_update_bounded,
}
use phpser.Decode.Equal.{same_key, IsFiledSlot}
use phpser.Decode.Assign.{replace, dec_assoc_update_bounded-replace}

-- The PHP array key of a key on the wire: an integer string is an integer.
unfoldable pub php_key : Engine → KeyVal → Key
php_key eng (kv_long v) = int v
php_key eng (kv_str s) = elim (eng.handle_numeric s.bytes) [
  | none ↦ Key.str s.bytes
  | some h ↦ int h
]

unfoldable pub key_eq : Key → Key → Bool
key_eq (int a) (int b) = a == b
key_eq (Key.str a) (Key.str b) = bytes_eq a b
key_eq _ _ = false

-- `$array[$key] = $value`: in place where the key is there, at the end where it is not.
unfoldable pub assign : Key → Value → Buckets → Buckets
unfolding key_eq
assign k value end = bucket k value end
assign k value (bucket k' v rest) =
    if key_eq k' k then bucket k' value rest else bucket k' v (assign k value rest)

abbrev pub keys : Building → List Key
keys table = map key_of_slot table

-- No key of the list is the same as a later one.
abbrev pub AllDiffer : List Key → Type 0
AllDiffer [] = Unit {0}
AllDiffer (k ∷ ks) = All (λ k'. key_eq k' k ≡ false) ks × AllDiffer ks

-- A table whose buckets are filed under their hashes, one for each key.
abbrev pub IsTable : Engine → Building → Type 0
IsTable eng table = All (IsFiledSlot eng) table × AllDiffer (keys table)

key_eq→eq : (a b : Key) → key_eq a b ≡ true → a ≡ b
unfolding key_eq
key_eq→eq (int a) (int b) e = ap int (==→eq a b e)
key_eq→eq (int a) (Key.str b) e = cc
key_eq→eq (Key.str a) (int b) e = cc
key_eq→eq (Key.str a) (Key.str b) e = ap Key.str (bytes_eq→eq a b e)

abbrev wanted : ℕ → Option Zstr → Value → Slot
wanted h zs value = record { h = h; key = zs; val = value }

same_key-key_eq :
    (h : ℕ) (zs : Option Zstr) (value : Value) (bh : ℕ) (bk : Option Zstr) (bv : Value)
    → same_key h zs bh bk ≡ key_eq (key_of_slot (wanted bh bk bv)) (key_of_slot (wanted h zs value))
unfolding same_key key_eq key_of_slot
same_key-key_eq h none value bh none bv = refl
same_key-key_eq h none value bh (some k) bv = refl
same_key-key_eq h (some z) value bh none bv = refl
same_key-key_eq h (some z) value bh (some k) bv = refl

filed_key-php_key :
    (eng : Engine) (key : KeyVal) (value : Value)
    → key_of_slot (wanted (filed_key eng key).0 (filed_key eng key).1 value) ≡ php_key eng key
unfolding filed_key php_key key_of_slot
filed_key-php_key eng (kv_long v) value = refl
filed_key-php_key eng (kv_str s) value = elim (Option-cases (eng.handle_numeric s.bytes)) [
  | inl e ↦ rw (filed_key, php_key, e) refl
  | inr (h, e) ↦ rw (filed_key, php_key, e) refl
]

-- Assignment passes the buckets of other keys.
assign-passes :
    (k : Key) (value : Value) (table : Building) (done : Buckets)
    → All (λ k'. key_eq k' k ≡ false) (keys table)
    → assign k value (finish_onto table done) ≡ finish_onto table (assign k value done)
unfolding finish_onto assign
assign-passes k value [] done absent = refl
assign-passes k value (b ∷ older) done (differ, absent) =
    assign-passes k value older (bucket (key_of_slot b) b.val done) absent
    ∙ ap (finish_onto older) (rw differ refl)

module _ (h : ℕ) (zs : Option Zstr) (value : Value) where
  passed_absent :
      (b : Slot) (older : Building)
      → replace h zs value (b ∷ older) ≡ none
      → (same_key h zs b.h b.key ≡ false) × (replace h zs value older ≡ none)
  unfolding replace
  passed_absent b older e = elim (Bool-cases (same_key h zs b.h b.key)) [
    | inl same ↦ absurd (ground (arith, same))
    | inr differ ↦ (
      differ,
      elim (Option-cases (replace h zs value older)) [
        | inl absent ↦ absent
        | inr (t, found) ↦ absurd (ground arith)
      ],
    )
  ]

  -- What is replaced is the bucket, or stands behind it.
  replaced_cases :
      (b : Slot) (older t : Building)
      → replace h zs value (b ∷ older) ≡ some t
      → ((same_key h zs b.h b.key ≡ true) × (t ≡ record b { val = value } ∷ older))
        ⊎ ((t' : Building) × (same_key h zs b.h b.key ≡ false)
            × (replace h zs value older ≡ some t')
            × (t ≡ b ∷ t'))
  unfolding replace
  replaced_cases b older t e = elim (Bool-cases (same_key h zs b.h b.key)) [
    | inl same ↦ inl (same, ground (arith, same))
    | inr differ ↦ elim (Option-cases (replace h zs value older)) [
      | inl absent ↦ absurd (ground arith)
      | inr (t', found) ↦ inr (t', differ, found, ground arith)
    ]
  ]

  tested :
      (b : Slot) (r : Bool)
      → same_key h zs b.h b.key ≡ r
      → key_eq (key_of_slot b) (key_of_slot (wanted h zs value)) ≡ r
  tested b r e = sym (same_key-key_eq h zs value b.h b.key b.val) ∙ e

  replace-absent :
      (table : Building)
      → replace h zs value table ≡ none
      → All (λ k'. key_eq k' (key_of_slot (wanted h zs value)) ≡ false) (keys table)
  replace-absent [] e = tt
  replace-absent (b ∷ older) e =
      let (differ, absent) = passed_absent b older e in
      (tested b false differ, replace-absent older absent)

  replace-keys : (table t : Building) → replace h zs value table ≡ some t → keys t ≡ keys table
  unfolding replace key_of_slot
  replace-keys [] t e = cc
  replace-keys (b ∷ older) t e = elim (replaced_cases b older t e) [
    | inl (same, eq) ↦ ap keys eq
    | inr (t', differ, found, eq) ↦
        ap keys eq ∙ ap (λ ks. key_of_slot b ∷ ks) (replace-keys older t' found)
  ]

  replace-assign :
      (table t : Building) (done : Buckets)
      → AllDiffer (keys table)
      → replace h zs value table ≡ some t
      → finish_onto t done ≡ assign (key_of_slot (wanted h zs value)) value (finish_onto table done)
  unfolding replace finish_onto assign key_of_slot
  replace-assign [] t done differ e = cc
  replace-assign (b ∷ older) t done (others, differ) e = elim (replaced_cases b older t e) [
    | inl (same, eq) ↦
        let k = key_of_slot (wanted h zs value) in
        let here = tested b true same in
        let its_key : key_of_slot b ≡ k = key_eq→eq (key_of_slot b) k here in
        let there : finish_onto older (bucket (key_of_slot b) value done)
            ≡ finish_onto older (assign k value (bucket (key_of_slot b) b.val done)) =
          ap (finish_onto older) (rw here refl) in
        ap (λ x. finish_onto x done) eq
        ∙ there
        ∙ sym (
            assign-passes k value older (bucket (key_of_slot b) b.val done)
              (subst (λ k. All (λ k'. key_eq k' k ≡ false) (keys older)) its_key others))
    | inr (t', passed, found, eq) ↦
        ap (λ x. finish_onto x done) eq
        ∙ replace-assign older t' (bucket (key_of_slot b) b.val done) differ found
  ]

  updated-assign :
      (table : Building)
      → AllDiffer (keys table)
      → (finish (insert_absent h zs value table (replace h zs value table))
          ≡ assign (key_of_slot (wanted h zs value)) value (finish table))
        × AllDiffer (keys (insert_absent h zs value table (replace h zs value table)))
  unfolding finish finish_onto insert_absent assign
  updated-assign table differ = elim (Option-cases (replace h zs value table)) [
    | inl e ↦
        let absent = replace-absent table e in
        rw e (
          sym (assign-passes (key_of_slot (wanted h zs value)) value table end absent),
          (absent, differ),
        )
    | inr (t, e) ↦
        rw e (
          replace-assign table t end differ e,
          subst AllDiffer (sym (replace-keys table t e)) differ,
        )
  ]

-- The bounded update of an array under construction, with its hash chains, collision limits and
-- budgets, is `$array[$key] = $value` on the array in insertion order, wherever it succeeds: the value
-- of the bucket with that key is replaced in place, or a bucket is added at the end. Keys are compared
-- as PHP keys, an integer string as the integer. The table holds one bucket for a key, filed under
-- its hash, and does so afterwards.
pub dec_assoc_update_bounded-assign :
    (eng : Engine) (slots : ℕ) (key : KeyVal) (value : Value) (table : Building) (d : Ctx)
    (table' : Building) (d' : Ctx)
    → IsTable eng table
    → dec_assoc_update_bounded eng slots key value table d ≡ ok (table', d')
    → (finish table' ≡ assign (php_key eng key) value (finish table)) × IsTable eng table'
dec_assoc_update_bounded-assign eng slots key value table d table' d' (filed, differ) e =
    let (updated, filed') =
      dec_assoc_update_bounded-replace eng slots key value table d table' d' filed e in
    let h = (filed_key eng key).0 in
    let zs = (filed_key eng key).1 in
    let (assigned, differ') = updated-assign h zs value table differ in
    (
      ap finish updated
          ∙ assigned
          ∙ ap (λ k. assign k value (finish table)) (filed_key-php_key eng key value),
      (filed', subst (λ t. AllDiffer (keys t)) (sym updated) differ'),
    )
