-- ===== src/Wire/Le64.antt =====
-- The eight bytes of a double: the reader restores the bit pattern that was written.
use phpser.Base.{
  ℕ, zero, suc, ◌+◌, ◌*◌, ◌/◌, ◌%◌, ◌^◌, ◌<◌, ◌≡◌, sym, ap, arith, List, [], ◌∷◌, ◌++◌,
  append_assoc, append-nil, ◌∙◌,
}
use phpser.Base.Bits.{bit_or_above}
use phpser.Wire.{IsU64, le_put, le64_put, le_read, le64_read}
use native.Mathlib.Nat.{div-add-mod, pow-suc}
use native.Mathlib.Numerals.{towards_suc}

-- The low `k` bytes of `v`, lowest first.
unfoldable pub low_bytes : ℕ → ℕ → List ℕ
low_bytes zero v = []
low_bytes (suc k) v = (v % 256) ∷ low_bytes k (v / 256)

le_put-low_bytes : (k v : ℕ) (out : List ℕ) → le_put k out v ≡ out ++ low_bytes k v
unfolding le_put low_bytes
le_put-low_bytes zero v out = sym (append-nil out)
le_put-low_bytes (suc k) v out =
    le_put-low_bytes k (v / 256) (out ++ (v % 256 ∷ []))
    ∙ append_assoc out (v % 256 ∷ []) (low_bytes k (v / 256))

pub le64_put-low_bytes : (v : ℕ) (out : List ℕ) → le64_put out v ≡ out ++ low_bytes 8 v
unfolding le64_put
le64_put-low_bytes v out = le_put-low_bytes 8 v out

shift_byte : (s : ℕ) → 2 ^ (s + 8) ≡ 256 * 2 ^ s
shift_byte s = simp towards_suc (omega arith)

byte_fits : (b v s : ℕ) → b < 256 → v < 2 ^ s → v + b * 2 ^ s < 2 ^ (s + 8)
byte_fits b v s hb hv = rw shift_byte (grind arith)

byte_split : (v s : ℕ) → v * 2 ^ s ≡ v % 256 * 2 ^ s + v / 256 * 2 ^ (s + 8)
byte_split v s = omega (
  arith,
  ap (λ (t : ℕ). t * 2 ^ s) (div-add-mod v 256),
  ap (λ (t : ℕ). v / 256 * t) (shift_byte s),
)

le_read-low_bytes :
    (k v shift acc : ℕ)
    → v < 256 ^ k
    → acc < 2 ^ shift
    → le_read (low_bytes k v) shift acc ≡ acc + v * 2 ^ shift
unfolding le_read low_bytes
le_read-low_bytes zero v shift acc hv ha = let e : v ≡ 0 = omega arith in rw e (omega arith)
le_read-low_bytes (suc k) v shift acc hv ha = ground (
  arith,
  bit_or_above shift acc (v % 256),
  byte_fits (v % 256) acc shift,
  byte_split v shift,
  pow-suc 256 k,
  le_read-low_bytes k (v / 256) (shift + 8) (acc + v % 256 * 2 ^ shift),
)

pub le64_read-low_bytes : (v : ℕ) (rest : List ℕ) → IsU64 v → le64_read (low_bytes 8 v ++ rest) ≡ v
unfolding le64_read low_bytes
le64_read-low_bytes v rest h = omega (arith, le_read-low_bytes 8 v 0 0 h (omega arith))

-- The reader restores the bit pattern of the double that was written.
pub le64_read-put : (v : ℕ) (rest : List ℕ) → IsU64 v → le64_read (le64_put [] v ++ rest) ≡ v
le64_read-put v rest h = rw (le64_put-low_bytes v []) (le64_read-low_bytes v rest h)
