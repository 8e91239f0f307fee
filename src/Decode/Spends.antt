-- ===== src/Decode/Spends.antt =====
-- Accounting for a decoder. A step that succeeds moves credit from the context to its result: two
-- credits for a byte read and one for an element charged to the sublinear budget.
use phpser.Base.{
  ℕ, suc, ◌+◌, ◌-◌, ◌*◌, ◌≤◌, ◌<◌, ◌≡◌, refl, ap, arith, Bool, List, [], ◌∷◌, Option, some, none,
  length, if◌then◌else◌, length-drop_bytes,
}
use phpser.Php.{Value, Items, nil, item, Buckets, end, bucket}
use phpser.Wire.Varint.Progress.{varint_shorter, signed_shorter}
use phpser.Decode.Ctx.{
  IdSlot, id_arr, Ctx, Outcome, ok, failed, beyond, M, ◌>>=◌, pure, fail, require, first_byte,
  remaining, advance, read_u64, read_i64, read_byte, take_bytes, dec_get_zstr,
}
use phpser.Decode.Runs.{sublinear_max_elems}
use mathlib.Core.Path.{subst}

-- The zvals of a value: its own, and those of its elements. A reference and a shared array are
-- one zval each; what they lead to is counted in the context.
abbrev mutual
  pub size : Value → ℕ
  size (Value.packed vs) = suc (size_items vs)
  size (Value.hash bs) = suc (size_buckets bs)
  size _ = 1

  pub size_items : Items → ℕ
  size_items nil = 0
  size_items (item v vs) = size v + size_items vs

  pub size_buckets : Buckets → ℕ
  size_buckets end = 0
  size_buckets (bucket k v bs) = size v + size_buckets bs

abbrev pub size_slot : IdSlot → ℕ
size_slot (id_arr v) = size v
size_slot _ = 0

abbrev pub size_slots : List IdSlot → ℕ
size_slots [] = 0
size_slots (s ∷ ss) = size_slot s + size_slots ss

abbrev pub size_cells : List Value → ℕ
size_cells [] = 0
size_cells (v ∷ vs) = size v + size_cells vs

-- What the context holds, and the credit that it has left.
abbrev pub mass : Ctx → ℕ
mass d =
    size_cells d.cells
    + size_slots d.id_table
    + 2 * length d.rest
    + (sublinear_max_elems - d.sublinear_elems)

-- From the credit `c`, a run of `m` that succeeds pays for the weight of its result.
abbrev pub Spends {ℓ} : {A : Type ℓ} → ℕ → M A → (A → ℕ) → Type ℓ
Spends {A = A} c m w = (d : Ctx) (a : A) (d' : Ctx) → m d ≡ ok (a, d') → w a + mass d' ≤ c + mass d

pub >>=-ok {ℓ κ} :
    {A : Type ℓ} {B : Type κ} (m : M A) (f : A → M B) (d : Ctx) {b : B} {d'' : Ctx}
    → (m >>= f) d ≡ ok (b, d'')
    → (a : A) × (d' : Ctx) × (m d ≡ ok (a, d')) × (f a d' ≡ ok (b, d''))
>>=-ok {A = A} m f d {b} {d''} h = go (m d) refl h
  where
    go :
        (r : Outcome (A × Ctx))
        → m d ≡ r
        → (elim r [ ok (a, d') ↦ f a d' | failed ↦ failed | beyond ↦ beyond ]) ≡ ok (b, d'')
        → (a : A) × (d' : Ctx) × (m d ≡ ok (a, d')) × (f a d' ≡ ok (b, d''))
    go (ok (a, d')) e h = (a, d', e, h)
    go failed e h = absurd (cc)
    go beyond e h = absurd (cc)

pub Spends-bind {ℓ κ} :
    {A : Type ℓ} {B : Type κ} (m : M A) (f : A → M B) (c : ℕ) (w : A → ℕ) (w' : B → ℕ)
    → Spends c m w
    → ((a : A) → Spends (w a) (f a) w')
    → Spends c (m >>= f) w'
Spends-bind m f c w w' hm hf d b d'' e =
    let (a, d', e₁, e₂) = >>=-ok m f d e in omega (arith, hm d a d' e₁, hf a d' b d'' e₂)

pub Spends-pure {ℓ} : {A : Type ℓ} (a : A) (c : ℕ) (w : A → ℕ) → w a ≤ c → Spends c (pure a) w
Spends-pure a c w h d a' d' e = ground arith

pub Spends-require : (b : Bool) (c : ℕ) → Spends c (require b) (λ _. c)
unfolding require
Spends-require Bool.true c d a d' e = ground arith
Spends-require Bool.false c d a d' e = cc

pub Spends-remaining : (c : ℕ) → Spends c remaining (λ _. c)
Spends-remaining c d a d' e = ground arith

advance_pays :
    (r : Option (ℕ × List ℕ)) (c : ℕ) (d : Ctx) (a : ℕ) (d' : Ctx)
    → ((u : ℕ) (rest : List ℕ) → r ≡ some (u, rest) → length rest < length d.rest)
    → advance d r ≡ ok (a, d')
    → c + 2 + mass d' ≤ c + mass d
unfolding advance
advance_pays none c d a d' h e = cc
advance_pays (some (v, rest)) c d a d' h e = ground (arith, h v rest refl)

pub Spends-read_u64 : (c : ℕ) → Spends c read_u64 (λ _. c + 2)
unfolding read_u64
Spends-read_u64 c d a d' e = advance_pays _ c d a d' (varint_shorter d.rest) e

pub Spends-read_i64 : (c : ℕ) → Spends c read_i64 (λ _. c + 2)
unfolding read_i64
Spends-read_i64 c d a d' e = advance_pays _ c d a d' (signed_shorter d.rest) e

byte_pays :
    (c : ℕ) (d : Ctx) (a : ℕ) (d' : Ctx) (l : List ℕ)
    → d.rest ≡ l
    → first_byte d l ≡ ok (a, d')
    → c + 2 + mass d' ≤ c + mass d
unfolding first_byte
byte_pays c d a d' [] h e = absurd (cc)
byte_pays c d a d' (b ∷ rest) h e = ground (arith, ap length h)

pub Spends-read_byte : (c : ℕ) → Spends c read_byte (λ _. c + 2)
unfolding read_byte
Spends-read_byte c d a d' e = byte_pays c d a d' d.rest refl e

pub Spends-take_bytes : (n c : ℕ) → Spends c (take_bytes n) (λ _. c)
unfolding take_bytes
Spends-take_bytes n c d a d' e = ground (arith, length-drop_bytes n d.rest)

pub Spends-dec_get_zstr : (idx c : ℕ) → Spends c (dec_get_zstr idx) (λ _. c)
unfolding dec_get_zstr
Spends-dec_get_zstr idx c d a d' e = ground arith

-- Credit that a run does not need is kept.
pub Spends-frame {ℓ} :
    {A : Type ℓ} (m : M A) (w : A → ℕ) (k : ℕ) → Spends 0 m w → Spends k m (λ a. k + w a)
Spends-frame m w k h d a d' e = omega (arith, h d a d' e)

-- More credit than is needed, and less weight than there is.
pub Spends-credit {ℓ} :
    {A : Type ℓ} (m : M A) (c c' : ℕ) (w w' : A → ℕ)
    → Spends c m w
    → c ≤ c'
    → ((a : A) → w' a ≤ w a)
    → Spends c' m w'
Spends-credit m c c' w w' h more less d a d' e = omega (arith, h d a d' e, less a)

pub Spends-if {ℓ} :
    {A : Type ℓ} (b : Bool) (x y : M A) (c : ℕ) (w : A → ℕ)
    → Spends c x w
    → Spends c y w
    → Spends c (if b then x else y) w
Spends-if Bool.true x y c w hx hy = hx
Spends-if Bool.false x y c w hx hy = hy

pub Spends-fail {ℓ} : {A : Type ℓ} (c : ℕ) (w : A → ℕ) → Spends c fail w
Spends-fail c w d a d' e = absurd (cc)

-- What holds of every result of `m`.
abbrev pub Yields {ℓ κ} : {A : Type ℓ} → M A → (A → Type κ) → Type (ℓ ⊔ κ)
Yields {A = A} m P = (d : Ctx) (a : A) (d' : Ctx) → m d ≡ ok (a, d') → P a

pub Spends-bind_knowing {ℓ κ μ} :
    {A : Type ℓ} {B : Type κ} (m : M A) (f : A → M B) (c : ℕ) (w : A → ℕ) (w' : B → ℕ)
    (P : A → Type μ)
    → Spends c m w
    → Yields m P
    → ((a : A) → P a → Spends (w a) (f a) w')
    → Spends c (m >>= f) w'
Spends-bind_knowing m f c w w' P hm hp hf d b d'' e =
    let (a, d', e₁, e₂) = >>=-ok m f d e in
    omega (arith, hm d a d' e₁, hf a (hp d a d' e₁) d' b d'' e₂)

pub Yields-bind {ℓ κ μ ν} :
    {A : Type ℓ} {B : Type κ} (m : M A) (f : A → M B) (P : A → Type ν) (Q : B → Type μ)
    → Yields m P
    → ((a : A) → P a → Yields (f a) Q)
    → Yields (m >>= f) Q
Yields-bind m f P Q hm hf d b d'' e =
    let (a, d', e₁, e₂) = >>=-ok m f d e in hf a (hm d a d' e₁) d' b d'' e₂

abbrev pub Anything {ℓ} : {A : Type ℓ} → A → Type 0
Anything a = Unit

pub Yields-Anything {ℓ} : {A : Type ℓ} (m : M A) → Yields m Anything
Yields-Anything m d a d' e = tt

pub Yields-require : (b : Bool) → Yields (require b) (λ _. b ≡ Bool.true)
unfolding require
Yields-require Bool.true d a d' e = refl
Yields-require Bool.false d a d' e = absurd (cc)

pub Yields-pure {ℓ κ} : {A : Type ℓ} (a : A) (P : A → Type κ) → P a → Yields (pure a) P
Yields-pure {A = A} a P h d a' d' e = subst P (cc) h
