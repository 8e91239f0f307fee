-- ===== src/Decode/Equal.antt =====
-- Keys of array buckets: what the tests of dec_assoc_update_collision answer where they succeed.
use phpser.Base.{
  ℕ, ◌+◌, ◌≡◌, refl, sym, ap, ◌∙◌, Bool, true, false, not, ◌&&◌, Option, some, none, ◌⊎◌, inl, inr,
  arith, if◌then◌else◌, ltb, ◌==◌, length, Bool-cases, bytes_eq, bytes_eq→eq,
}
use phpser.Decode.Ctx.{
  Engine, Zstr, Ctx, ok, M, ◌>>◌, pure, require, same_pointer, dec_charge_comparison,
  dec_strings_equal,
}
use phpser.Decode.Assoc.{Slot, string_bucket_equal, bucket_equal}
use phpser.Decode.Spends.{>>=-ok}

pub pure-ok : {A : Type 0} (a r : A) (d d' : Ctx) → pure a d ≡ ok (r, d') → r ≡ a
pure-ok a r d d' e = cc

-- The three ways in which a comparison ends.
comparison :
    (charge : M (Unit {0})) (same alike long m : Bool) (d : Ctx) (r : Bool) (d' : Ctx)
    → (if same
          then pure true
          else if not alike
          then pure false
          else if long
          then (charge >> pure m)
          else pure m)
        d
      ≡ ok (r, d')
    → ((same ≡ true) × (r ≡ true)) ⊎ (((alike ≡ false) × (r ≡ false)) ⊎ (r ≡ m))
comparison charge true alike long m d r d' e = inl (refl, pure-ok true r d d' e)
comparison charge false false long m d r d' e = inr (inl (refl, pure-ok false r d d' e))
comparison charge false true true m d r d' e =
    let (u, d₁, charged, e') = >>=-ok charge (λ _. pure m) d e in inr (inr (pure-ok m r d₁ d' e'))
comparison charge false true false m d r d' e = inr (inr (pure-ok m r d d' e))

same_pointer-bytes : (a b : Zstr) → same_pointer a b ≡ true → bytes_eq a.bytes b.bytes ≡ true
unfolding same_pointer
same_pointer-bytes a b h = ground arith

differ-bytes :
    (eng : Engine) (a b : Zstr)
    → (length a.bytes == length b.bytes && eng.hash a.bytes == eng.hash b.bytes) ≡ false
    → bytes_eq a.bytes b.bytes ≡ false
differ-bytes eng a b h = elim (Bool-cases (bytes_eq a.bytes b.bytes)) [
  | inl same ↦
      let e = bytes_eq→eq a.bytes b.bytes same in
      let len : length a.bytes ≡ length b.bytes = ap length e in
      let hash : eng.hash a.bytes ≡ eng.hash b.bytes = ap eng.hash e in absurd (ground arith)
  | inr differ ↦ differ
]

-- A comparison that is paid for says whether the bytes are the same.
dec_strings_equal-bytes_eq :
    (eng : Engine) (a b : Zstr) (d : Ctx) (r : Bool) (d' : Ctx)
    → dec_strings_equal eng a b d ≡ ok (r, d')
    → r ≡ bytes_eq a.bytes b.bytes
unfolding dec_strings_equal same_pointer
dec_strings_equal-bytes_eq eng a b d r d' e =
    let alike = length a.bytes == length b.bytes && eng.hash a.bytes == eng.hash b.bytes in
    elim (comparison (dec_charge_comparison (length a.bytes)) (same_pointer a b) alike
      (ltb 64 (length a.bytes)) (bytes_eq a.bytes b.bytes) d r d' e) [
        | inl (same, equal) ↦ equal ∙ sym (same_pointer-bytes a b same)
        | inr (inl (differ, unequal)) ↦ unequal ∙ sym (differ-bytes eng a b differ)
        | inr (inr compared) ↦ compared
      ]

-- Whether the bucket's key `bh`, `bk` is the key `h`, `zs`: the same integer, or the same bytes.
unfoldable pub same_key : ℕ → Option Zstr → ℕ → Option Zstr → Bool
same_key h none bh none = bh == h
same_key h none bh (some k) = false
same_key h (some z) bh none = false
same_key h (some z) bh (some k) = bytes_eq k.bytes z.bytes

-- A bucket is filed under its integer, or under the hash of its string.
abbrev pub IsFiled : Engine → ℕ → Option Zstr → Type 0
IsFiled eng h none = Unit {0}
IsFiled eng h (some z) = h ≡ eng.hash z.bytes

abbrev pub IsFiledSlot : Engine → Slot → Type 0
IsFiledSlot eng b = IsFiled eng b.h b.key

string_bucket_equal-bytes_eq :
    (eng : Engine) (k z : Zstr) (n : ℕ) (d : Ctx) (r : Bool × ℕ) (d' : Ctx)
    → string_bucket_equal eng k z n d ≡ ok (r, d')
    → r.0 ≡ bytes_eq k.bytes z.bytes
unfolding string_bucket_equal
string_bucket_equal-bytes_eq eng k z n d r d' e =
    let (equal, d₁, compared, e₁) = >>=-ok (dec_strings_equal eng k z) _ d e in
    let (u, d₂, allowed, e₂) = >>=-ok (require _) _ d₁ e₁ in
    ap (λ (p : Bool × ℕ). p.0) (pure-ok (equal, n + 1) r d₂ d' e₂)
    ∙ dec_strings_equal-bytes_eq eng k z d equal d₁ compared

pub keys_differ :
    (eng : Engine) (h : ℕ) (zs : Option Zstr) (bh : ℕ) (bk : Option Zstr)
    → IsFiled eng h zs
    → IsFiled eng bh bk
    → (bh == h) ≡ false
    → same_key h zs bh bk ≡ false
unfolding same_key
keys_differ eng h none bh none p q e = e
keys_differ eng h none bh (some k) p q e = refl
keys_differ eng h (some z) bh none p q e = refl
keys_differ eng h (some z) bh (some k) p q e = elim (Bool-cases (bytes_eq k.bytes z.bytes)) [
  | inl same ↦
      let hash : eng.hash k.bytes ≡ eng.hash z.bytes =
        ap eng.hash (bytes_eq→eq k.bytes z.bytes same) in
      absurd (ground arith)
  | inr differ ↦ differ
]

pub bucket_equal-same_key :
    (eng : Engine) (h : ℕ) (zs : Option Zstr) (n bh : ℕ) (bk : Option Zstr) (d : Ctx) (r : Bool × ℕ)
    (d' : Ctx)
    → (bh == h) ≡ true
    → bucket_equal eng n bk zs d ≡ ok (r, d')
    → r.0 ≡ same_key h zs bh bk
unfolding bucket_equal same_key
bucket_equal-same_key eng h none n bh none d r d' hit e =
    ap (λ (p : Bool × ℕ). p.0) (pure-ok (true, n) r d d' e) ∙ sym hit
bucket_equal-same_key eng h none n bh (some k) d r d' hit e =
    ap (λ (p : Bool × ℕ). p.0) (pure-ok (false, n) r d d' e)
bucket_equal-same_key eng h (some z) n bh none d r d' hit e =
    ap (λ (p : Bool × ℕ). p.0) (pure-ok (false, n) r d d' e)
bucket_equal-same_key eng h (some z) n bh (some k) d r d' hit e =
    string_bucket_equal-bytes_eq eng k z n d r d' e
