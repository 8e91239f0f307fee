-- ===== src/Decode/Assign/Small.antt =====
-- dec_assoc_update_bounded where its limits cannot be met: short keys and small tables.
use phpser.Base.{
  ℕ, ◌+◌, ◌%◌, ◌<◌, ◌≤◌, ◌≡◌, refl, arith, Bool, true, false, not, ◌&&◌, [], ◌∷◌, Option, some,
  none, inl, inr, if◌then◌else◌, ltb, leb, ◌==◌, ==→eq, length, Bool-cases, Option-cases, bytes_eq,
}
use mathlib.Core.Option
use phpser.Php.{Value}
use phpser.Decode.Ctx.{
  Engine, Zstr, Ctx, ok, M, ◌>>=◌, ◌>>◌, pure, require, same_pointer, dec_strings_equal,
  dec_charge_comparison,
}
use phpser.Decode.Scalar.{KeyVal, kv_long, kv_str}
use phpser.Decode.Assoc.{
  Building, string_bucket_equal, bucket_equal, chain_step, dec_assoc_update_collision, filed_key,
  insert_absent, finish, dec_assoc_update_bounded,
}
use phpser.Decode.Assign.Ordered.{IsTable, php_key, assign, dec_assoc_update_bounded-assign}

-- A key of at most 64 bytes, which is compared without charge.
abbrev IsShort : Option Zstr → Type 0
IsShort none = Unit {0}
IsShort (some z) = length z.bytes ≤ 64

compared :
    (same alike long r : Bool) (charge : M (Unit {0})) (d : Ctx)
    → (alike ≡ true → long ≡ false)
    → (t : Bool) × ((if same
            then pure true
            else if not alike
            then pure false
            else if long
            then (charge >> pure r)
            else pure r)
          d
        ≡ ok (t, d))
compared true alike long r charge d h = (true, refl)
compared false false long r charge d h = (false, refl)
compared false true long r charge d h = rw (h refl) (r, refl)

short_alike : (a b ha hb : ℕ) → b ≤ 64 → (a == b && ha == hb) ≡ true → ltb 64 a ≡ false
short_alike a b ha hb short alike = elim (Bool-cases (a == b)) [
  | inl same ↦ let e = ==→eq a b same in ground arith
  | inr differ ↦ ground arith
]

short_equal :
    (eng : Engine) (k z : Zstr) (d : Ctx)
    → length z.bytes ≤ 64
    → (t : Bool) × (dec_strings_equal eng k z d ≡ ok (t, d))
unfolding dec_strings_equal
short_equal eng k z d short =
    compared (same_pointer k z) _ (ltb 64 (length k.bytes)) (bytes_eq k.bytes z.bytes)
      (dec_charge_comparison (length k.bytes)) d
      (short_alike (length k.bytes) (length z.bytes) (eng.hash k.bytes) (eng.hash z.bytes) short)

allowed : (m : ℕ) (t : Bool) → m + 1 < 64 → not (leb 64 (m + 1) && not t) ≡ true
allowed m true few = ground arith
allowed m false few = ground arith

bucket_compared :
    (eng : Engine) (m : ℕ) (bk zs : Option Zstr) (d : Ctx)
    → IsShort zs
    → m + 1 < 64
    → (t : Bool) × (m' : ℕ) × (bucket_equal eng m bk zs d ≡ ok ((t, m'), d)) × (m' ≤ m + 1)
unfolding bucket_equal string_bucket_equal require
bucket_compared eng m none none d short few = (true, m, refl, omega arith)
bucket_compared eng m (some k) none d short few = (false, m, refl, omega arith)
bucket_compared eng m none (some z) d short few = (false, m, refl, omega arith)
bucket_compared eng m (some k) (some z) d short few =
    let (t, e) = short_equal eng k z d short in
    (t, m + 1, rw (◌>>=◌, e) (rw (◌>>=◌, ◌>>◌, allowed m t few) refl), omega arith)

slot_compared :
    (eng : Engine) (m bh h : ℕ) (bk zs : Option Zstr) (d : Ctx)
    → IsShort zs
    → m + 1 < 64
    → (t : Bool) × (m' : ℕ) × ((if bh == h then bucket_equal eng m bk zs else pure (false, m)) d
        ≡ ok ((t, m'), d))
      × (m' ≤ m + 1)
slot_compared eng m bh h bk zs d short few = elim (Bool-cases (bh == h)) [
  | inl hit ↦ rw hit (bucket_compared eng m bk zs d short few)
  | inr miss ↦ rw miss (false, m, refl, omega arith)
]

stepped : (n : ℕ) (d : Ctx) → n + 1 < 64 → chain_step n d ≡ ok (n + 1, d)
unfolding chain_step
stepped n d few = let e : (n + 1 == 64) ≡ false = ground arith in rw e refl

walked :
    (eng : Engine) (slots h : ℕ) (zs : Option Zstr) (value : Value) (n m : ℕ) (table : Building)
    (d : Ctx)
    → IsShort zs
    → n + length table < 64
    → m + length table < 64
    → (r : Option Building) × (dec_assoc_update_collision eng slots h zs value n m table d
        ≡ ok (r, d))
unfolding dec_assoc_update_collision
walked eng slots h zs value n m [] d short steps few = (none, refl)
walked eng slots h zs value n m (b ∷ older) d short steps few =
    elim (Bool-cases (not (b.h % slots == h % slots))) [
      | inl far ↦
          let (r, e) = walked eng slots h zs value n m older d short (omega arith) (omega arith) in
          (Option.map (λ bs. b ∷ bs) r, rw far (rw (◌>>=◌, e) refl))
      | inr near ↦
          let (t, m', e, more) = slot_compared eng m b.h h b.key zs d short (omega arith) in
          elim (Bool-cases t) [
            | inl hit ↦
                (some (record b { val = value } ∷ older), rw near (rw (◌>>=◌, e) (rw hit refl)))
            | inr miss ↦
                let (r, rest) =
                  walked eng slots h zs value (n + 1) m' older d short (omega arith)
                    (omega (arith, more)) in
                (
                  Option.map (λ bs. b ∷ bs) r,
                  rw near (
                      rw (◌>>=◌, e)
                        (rw miss (rw (◌>>=◌, stepped n d (omega arith)) (rw (◌>>=◌, rest) refl)))),
                )
          ]
    ]

abbrev pub IsShortKey : KeyVal → Type 0
IsShortKey (kv_long v) = Unit {0}
IsShortKey (kv_str s) = length s.bytes ≤ 64

filed_key-IsShort : (eng : Engine) (key : KeyVal) → IsShortKey key → IsShort (filed_key eng key).1
unfolding filed_key
filed_key-IsShort eng (kv_long v) short = tt
filed_key-IsShort eng (kv_str s) short = elim (Option-cases (eng.handle_numeric s.bytes)) [
  | inl e ↦ rw (filed_key, e) short
  | inr (h, e) ↦ rw (filed_key, e) tt
]

-- With fewer than 64 buckets, and a key that is an integer or at most 64 bytes long, the bounded
-- update succeeds: it reads and spends nothing, and assigns the value in the array in insertion
-- order. The table holds one bucket for a key, filed under its hash, and does so afterwards.
pub dec_assoc_update_bounded-succeeds :
    (eng : Engine) (slots : ℕ) (key : KeyVal) (value : Value) (table : Building) (d : Ctx)
    → IsTable eng table
    → IsShortKey key
    → length table < 64
    → (table' : Building) × (dec_assoc_update_bounded eng slots key value table d ≡ ok (table', d))
      × (finish table' ≡ assign (php_key eng key) value (finish table))
      × IsTable eng table'
unfolding dec_assoc_update_bounded
dec_assoc_update_bounded-succeeds eng slots key value table d filed short small =
    let h = (filed_key eng key).0 in
    let zs = (filed_key eng key).1 in
    let (r, e) =
      walked eng slots h zs value 0 0 table d (filed_key-IsShort eng key short)
        (omega (arith, small)) (omega (arith, small)) in
    let done : dec_assoc_update_bounded eng slots key value table d
        ≡ ok (insert_absent h zs value table r, d) =
      rw (◌>>=◌, e) refl in
    let (assigned, table_kept) =
      dec_assoc_update_bounded-assign eng slots key value table d (insert_absent h zs value table r)
        d filed done in
    (insert_absent h zs value table r, done, assigned, table_kept)
