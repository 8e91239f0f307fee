-- ===== src/Decode/Assign.antt =====
-- dec_assoc_update_bounded: what its walk over hash chains finds and replaces.
pub mod Ordered
pub mod Small
use phpser.Base.{
  ℕ, ◌%◌, ◌≡◌, refl, sym, ap, ◌∙◌, Bool, true, false, not, [], ◌∷◌, Option, some, none, ◌⊎◌, inl,
  inr, arith, if◌then◌else◌, ◌==◌, ==→eq, All, Bool-cases, Option-cases,
}
use mathlib.Core.Option
use phpser.Php.{Value}
use phpser.Decode.Ctx.{Engine, Zstr, Ctx, ok, M, pure}
use phpser.Decode.Scalar.{KeyVal, kv_long, kv_str}
use phpser.Decode.Assoc.{
  Slot, Building, bucket_equal, chain_step, dec_assoc_update_collision, filed_key, insert_absent,
  dec_assoc_update_bounded,
}
use phpser.Decode.Spends.{>>=-ok}
use phpser.Decode.Equal.{
  pure-ok, keys_differ, bucket_equal-same_key, same_key, IsFiled, IsFiledSlot,
}

-- Assignment to the bucket of a key, if there is one.
unfoldable pub replace : ℕ → Option Zstr → Value → Building → Option Building
unfolding same_key
replace h zs value [] = none
replace h zs value (b ∷ older) =
    if same_key h zs b.h b.key
    then some (record b { val = value } ∷ older)
    else Option.map (λ bs. b ∷ bs) (replace h zs value older)

branch :
    {A : Type 0} (t : Bool) (m₁ m₂ : M A) (d : Ctx) (r : A) (d' : Ctx)
    → (if t then m₁ else m₂) d ≡ ok (r, d')
    → ((t ≡ true) × (m₁ d ≡ ok (r, d'))) ⊎ ((t ≡ false) × (m₂ d ≡ ok (r, d')))
branch true m₁ m₂ d r d' e = inl (refl, e)
branch false m₁ m₂ d r d' e = inr (refl, e)

far_bucket : (slots bh h : ℕ) → not (bh % slots == h % slots) ≡ true → (bh == h) ≡ false
far_bucket slots bh h far = elim (Bool-cases (bh == h)) [
  | inl hit ↦
      let same : bh % slots ≡ h % slots = ap (λ n. n % slots) (==→eq bh h hit) in
      absurd (ground arith)
  | inr miss ↦ miss
]

passed :
    (h : ℕ) (zs : Option Zstr) (value : Value) (b : Slot) (older : Building) (r : Option Building)
    → same_key h zs b.h b.key ≡ false
    → r ≡ replace h zs value older
    → Option.map (λ bs. b ∷ bs) r ≡ replace h zs value (b ∷ older)
unfolding replace
passed h zs value b older r differ e = rw (differ, e) refl

near_bucket :
    (eng : Engine) (h : ℕ) (zs : Option Zstr) (m bh : ℕ) (bk : Option Zstr) (d : Ctx) (r : Bool × ℕ)
    (d' : Ctx)
    → IsFiled eng h zs
    → IsFiled eng bh bk
    → (if bh == h then bucket_equal eng m bk zs else pure (false, m)) d ≡ ok (r, d')
    → r.0 ≡ same_key h zs bh bk
near_bucket eng h zs m bh bk d r d' p q e =
    elim (branch (bh == h) (bucket_equal eng m bk zs) (pure (false, m)) d r d' e) [
      | inl (hit, e') ↦ bucket_equal-same_key eng h zs m bh bk d r d' hit e'
      | inr (miss, e') ↦
          ap (λ (t : Bool × ℕ). t.0) (pure-ok (false, m) r d d' e')
          ∙ sym (keys_differ eng h zs bh bk p q miss)
    ]

replaced :
    (h : ℕ) (zs : Option Zstr) (value : Value) (b : Slot) (older : Building)
    → same_key h zs b.h b.key ≡ true
    → some (record b { val = value } ∷ older) ≡ replace h zs value (b ∷ older)
unfolding replace
replaced h zs value b older same = rw same refl

-- The walk over the chain, where it is paid for, replaces what a search of the whole table would.
dec_assoc_update_collision-replace :
    (eng : Engine) (slots h : ℕ) (zs : Option Zstr) (value : Value) (n m : ℕ) (table : Building)
    (d : Ctx) (r : Option Building) (d' : Ctx)
    → IsFiled eng h zs
    → All (IsFiledSlot eng) table
    → dec_assoc_update_collision eng slots h zs value n m table d ≡ ok (r, d')
    → r ≡ replace h zs value table
unfolding dec_assoc_update_collision replace
dec_assoc_update_collision-replace eng slots h zs value n m [] d r d' p q e = pure-ok none r d d' e
dec_assoc_update_collision-replace eng slots h zs value n m (b ∷ older) d r d' p (q, qs) e =
    elim (branch (not (b.h % slots == h % slots)) _ _ d r d' e) [
      | inl (far, e₁) ↦
          let (r₁, d₁, walked, e₂) =
            >>=-ok (dec_assoc_update_collision eng slots h zs value n m older) _ d e₁ in
          pure-ok _ r d₁ d' e₂
          ∙ passed h zs value b older r₁
              (keys_differ eng h zs b.h b.key p q (far_bucket slots b.h h far))
              (dec_assoc_update_collision-replace eng slots h zs value n m older d r₁ d₁ p qs
                walked)
      | inr (near, e₁) ↦
          let (found, d₁, tested, e₂) =
            >>=-ok (if b.h == h then bucket_equal eng m b.key zs else pure (false, m)) _ d e₁ in
          let equal = near_bucket eng h zs m b.h b.key d found d₁ p q tested in
          elim (branch (found.0) _ _ d₁ r d' e₂) [
            | inl (hit, e₃) ↦ pure-ok _ r d₁ d' e₃ ∙ replaced h zs value b older (sym equal ∙ hit)
            | inr (miss, e₃) ↦
                let (n', d₂, charged, e₄) = >>=-ok (chain_step n) _ d₁ e₃ in
                let (r₁, d₃, walked, e₅) =
                  >>=-ok (dec_assoc_update_collision eng slots h zs value n' (found.1) older) _ d₂
                    e₄ in
                pure-ok _ r d₃ d' e₅
                ∙ passed h zs value b older r₁ (sym equal ∙ miss) (
                    dec_assoc_update_collision-replace eng slots h zs value n' (found.1) older d₂ r₁
                      d₃ p qs walked)
          ]
    ]

IsFiled-filed_key :
    (eng : Engine) (key : KeyVal) → IsFiled eng (filed_key eng key).0 (filed_key eng key).1
unfolding filed_key
IsFiled-filed_key eng (kv_long v) = tt
IsFiled-filed_key eng (kv_str s) = elim (Option-cases (eng.handle_numeric s.bytes)) [
  | inl e ↦ rw (filed_key, e) refl
  | inr (h, e) ↦ rw (filed_key, e) tt
]

-- Replacement keeps the keys.
replace-IsFiled :
    (eng : Engine) (h : ℕ) (zs : Option Zstr) (value : Value) (table t : Building)
    → All (IsFiledSlot eng) table
    → replace h zs value table ≡ some t
    → All (IsFiledSlot eng) t
unfolding replace
replace-IsFiled eng h zs value [] t filed e = absurd cc
replace-IsFiled eng h zs value (b ∷ older) t (q, qs) e =
    elim (Bool-cases (same_key h zs b.h b.key)) [
      | inl same ↦ let eq : record b { val = value } ∷ older ≡ t = ground arith in rw⁻¹ eq (q, qs)
      | inr differ ↦ elim (Option-cases (replace h zs value older)) [
        | inl absent ↦ absurd (ground arith)
        | inr (t', found) ↦
            let eq : b ∷ t' ≡ t = ground arith in
            rw⁻¹ eq (q, replace-IsFiled eng h zs value older t' qs found)
      ]
    ]

updated-IsFiled :
    (eng : Engine) (h : ℕ) (zs : Option Zstr) (value : Value) (table : Building)
    → IsFiled eng h zs
    → All (IsFiledSlot eng) table
    → All (IsFiledSlot eng) (insert_absent h zs value table (replace h zs value table))
unfolding insert_absent
updated-IsFiled eng h zs value table p filed = elim (Option-cases (replace h zs value table)) [
  | inl absent ↦ rw absent (p, filed)
  | inr (t, found) ↦ rw found (replace-IsFiled eng h zs value table t filed found)
]

-- The walk with its hash chains, collision limits and budgets comes, where it succeeds, to a search of
-- the whole table.
pub dec_assoc_update_bounded-replace :
    (eng : Engine) (slots : ℕ) (key : KeyVal) (value : Value) (table : Building) (d : Ctx)
    (table' : Building) (d' : Ctx)
    → All (IsFiledSlot eng) table
    → dec_assoc_update_bounded eng slots key value table d ≡ ok (table', d')
    → (table'
        ≡ insert_absent
            (filed_key eng key).0
            (filed_key eng key).1
            value
            table
            (replace (filed_key eng key).0 (filed_key eng key).1 value table))
      × All (IsFiledSlot eng) table'
unfolding dec_assoc_update_bounded
dec_assoc_update_bounded-replace eng slots key value table d table' d' filed e =
    let h = (filed_key eng key).0 in
    let zs = (filed_key eng key).1 in
    let (r, d₁, walked, e') =
      >>=-ok (dec_assoc_update_collision eng slots h zs value 0 0 table) _ d e in
    let assigned : table' ≡ insert_absent h zs value table (replace h zs value table) =
      pure-ok _ table' d₁ d' e'
      ∙ ap (λ x. insert_absent h zs value table x)
          (dec_assoc_update_collision-replace eng slots h zs value 0 0 table d r d₁
            (IsFiled-filed_key eng key) filed walked) in
    (assigned, rw assigned (updated-IsFiled eng h zs value table (IsFiled-filed_key eng key) filed))
