-- ===== src/Decode/Bounded.antt =====
-- Keyed arrays pay for what they make.
pub mod Rows
pub mod Tables
pub mod Graph
pub mod Refs
pub mod Whole
use phpser.Base.{
  ℕ, zero, suc, ◌+◌, ◌-◌, ◌*◌, ◌/◌, ◌%◌, ◌≤◌, ◌<◌, ◌≡◌, refl, ap, arith, Bool, not, Bool-cases, inl,
  inr, List, [], ◌∷◌, ◌++◌, Option, some, none, length, leb, ltb, ◌&&◌, ◌||◌, ◌==◌, if◌then◌else◌,
  take, drop, length-drop_bytes,
}
use phpser.Php.{Value, Items, nil, item, Buckets, end, bucket}
use phpser.Tag.{key_long, key_str, key_str_inline, Tag, tag_of_byte, dec_is_scalar_tag}
use phpser.Decode.Ctx.{
  Engine, Zstr, Ctx, Outcome, ok, failed, M, ◌>>=◌, ◌>>◌, pure, require, remaining, uint32_max,
  dec_i64_fits_zend_long, read_u64, read_i64, read_byte, read_long, take_bytes, dec_get_zstr,
  read_counted_bytes, dec_charge_comparison, dec_strings_equal, dec_string_init,
}
use phpser.Decode.Scalar.{decode_scalar_tag, key_of_tag, decode_key, KeyVal, kv_str}
use phpser.Decode.Runs.{hot_tag, hot_rest, decode_value_hot, repeat}
use phpser.Decode.Assoc.{
  Slot, Building, bucket_equal, chain_step, dec_assoc_update_collision, dec_assoc_update_bounded,
  filed_key, insert_absent, key_of_slot, finish_onto, finish, assoc_entries, read_pair_count,
  decode_assoc,
}
use mathlib.Core.Option
use phpser.Decode.Spends.{
  size, size_items, size_buckets, mass, Spends, Spends-bind, Spends-pure, Spends-require,
  Spends-remaining, Spends-read_u64, Spends-read_i64, Spends-read_byte, Spends-take_bytes,
  Spends-dec_get_zstr, Spends-frame, Spends-credit, Spends-if, Spends-fail,
}
use phpser.Decode.Mass.{
  Spends-read_long, Spends-read_counted_bytes, Spends-decode_scalar_tag, Spends-repeat,
}

-- Comparisons only use up their own budget.
Spends-charge_comparison : (n c : ℕ) → Spends c (dec_charge_comparison n) (λ _. c)
unfolding dec_charge_comparison
Spends-charge_comparison n c d a d' e = ground arith

Spends-dec_strings_equal :
    (eng : Engine) (a b : Zstr) (c : ℕ) → Spends c (dec_strings_equal eng a b) (λ _. c)
unfolding dec_strings_equal
Spends-dec_strings_equal eng a b c d r d' e = ground arith

Spends-chain_step : (n c : ℕ) → Spends c (chain_step n) (λ _. c)
unfolding chain_step
Spends-chain_step n c d r d' e = ground arith

Spends-dec_string_init : (bytes : List ℕ) (c : ℕ) → Spends c (dec_string_init bytes) (λ _. c)
unfolding dec_string_init
Spends-dec_string_init bytes c d r d' e = ground arith

Spends-key_of_tag : (eng : Engine) (tag c : ℕ) → Spends c (key_of_tag eng tag) (λ _. c)
unfolding key_of_tag
Spends-key_of_tag eng tag c =
    Spends-if (tag == key_long) _ _ c _
      (Spends-bind (read_long eng) _ c (λ _. c + 2) _ (Spends-read_long eng c)
        λ v. Spends-pure _ (c + 2) _ (omega arith))
      (Spends-if (tag == key_str) _ _ c _
        (Spends-bind read_u64 _ c (λ _. c + 2) _ (Spends-read_u64 c)
          λ idx.
            Spends-bind (dec_get_zstr idx) _ (c + 2) (λ _. c + 2) _
              (Spends-dec_get_zstr idx (c + 2)) λ zs. Spends-pure _ (c + 2) _ (omega arith))
        (Spends-if (tag == key_str_inline) _ _ c _
          (Spends-bind read_counted_bytes _ c (λ _. c + 2) _ (Spends-read_counted_bytes c)
            λ bytes.
              Spends-bind (dec_string_init bytes) _ (c + 2) (λ _. c + 2) _
                (Spends-dec_string_init bytes (c + 2))
                λ zs. Spends-pure (kv_str zs) (c + 2) _ (omega arith))
          (Spends-fail c _)))

Spends-decode_key : (eng : Engine) (c : ℕ) → Spends c (decode_key eng) (λ _. c + 2)
unfolding decode_key
Spends-decode_key eng c =
    Spends-bind read_byte _ c (λ _. c + 2) _ (Spends-read_byte c)
      λ tag. Spends-key_of_tag eng tag (c + 2)

module _ (eng : Engine) (decode_value : M Value)
    (pays : Spends 0 decode_value (λ v. suc (size v))) where
  hot_tag_pays :
      (d after : Ctx) (t : Option Tag) (v : Value) (d' : Ctx)
      → mass d ≡ 2 + mass after
      → hot_tag eng decode_value d after t ≡ ok (v, d')
      → suc (size v) + mass d' ≤ mass d
  unfolding hot_tag
  hot_tag_pays d after none v d' h e = omega (arith, pays d v d' e)
  hot_tag_pays d after (some t) v d' h e = elim (Bool-cases (dec_is_scalar_tag t)) [
    | inl s ↦ omega (arith, Spends-decode_scalar_tag eng t 0 after v d' (rw s at e))
    | inr s ↦ omega (arith, pays d v d' (rw s at e))
  ]

  hot_rest_pays :
      (d : Ctx) (l : List ℕ) (v : Value) (d' : Ctx)
      → d.rest ≡ l
      → hot_rest eng decode_value d l ≡ ok (v, d')
      → suc (size v) + mass d' ≤ mass d
  unfolding hot_rest
  hot_rest_pays d [] v d' h e = absurd (cc)
  hot_rest_pays d (b ∷ rest) v d' h e =
      hot_tag_pays d (record d { rest = rest }) (tag_of_byte b) v d' (omega (arith, ap length h)) e

  pub Spends-decode_value_hot : Spends 0 (decode_value_hot eng decode_value) (λ v. suc (size v))
  unfolding decode_value_hot
  Spends-decode_value_hot d v d' e = omega (arith, hot_rest_pays d d.rest v d' refl e)

pub Spends-read_pair_count : (c : ℕ) → Spends c read_pair_count (λ _. c + 2)
unfolding read_pair_count
Spends-read_pair_count c =
    Spends-bind read_u64 _ c (λ _. c + 2) _ (Spends-read_u64 c)
      λ n.
        Spends-bind remaining _ (c + 2) (λ _. c + 2) _ (Spends-remaining (c + 2))
          λ left.
            Spends-bind (require (leb n uint32_max && leb n (left / 2))) _ (c + 2) (λ _. c + 2) _
              (Spends-require _ (c + 2)) λ _. Spends-pure n (c + 2) _ (omega arith)

abbrev size_building : Building → ℕ
size_building [] = 0
size_building (b ∷ bs) = size b.val + size_building bs

-- The weight of an update's answer: what has still to be put in, or the new table.
abbrev size_update : Value → Building → Option Building → ℕ
size_update value table none = size value + size_building table
size_update value table (some bs) = size_building bs

size_update-cons :
    (value : Value) (b : Slot) (older : Building) (r : Option Building)
    → size_update value (b ∷ older) (Option.map (λ bs. b ∷ bs) r)
      ≤ size b.val + size_update value older r
size_update-cons value b older none = omega arith
size_update-cons value b older (some bs) = omega arith

Spends-bucket_equal :
    (eng : Engine) (n c : ℕ) (k k' : Option Zstr) → Spends c (bucket_equal eng n k k') (λ _. c)
unfolding bucket_equal
Spends-bucket_equal eng n c none none = Spends-pure _ c _ (omega arith)
Spends-bucket_equal eng n c (some k) none = Spends-pure _ c _ (omega arith)
Spends-bucket_equal eng n c none (some k') = Spends-pure _ c _ (omega arith)
Spends-bucket_equal eng n c (some k) (some k') =
    Spends-bind (dec_strings_equal eng k k') _ c (λ _. c) _ (Spends-dec_strings_equal eng k k' c)
      λ equal.
        Spends-bind (require _) _ c (λ _. c) _ (Spends-require _ c)
          λ _. Spends-pure _ c _ (omega arith)

keep_bucket :
    (value : Value) (b : Slot) (older : Building) (c : ℕ) (m : M (Option Building))
    → Spends
        (c + size b.val + size value + size_building older)
        m
        (λ r. c + size b.val + size_update value older r)
    → Spends
        (c + size value + size_building (b ∷ older))
        (m >>= λ r. pure (Option.map (λ bs. b ∷ bs) r))
        (λ r. c + size_update value (b ∷ older) r)
keep_bucket value b older c m h =
    Spends-bind m _ (c + size value + size_building (b ∷ older))
      (λ r. c + size b.val + size_update value older r) _ (λ d r d' e. omega (arith, h d r d' e))
      λ r. Spends-pure _ _ _ (omega (arith, size_update-cons value b older r))

Spends-update_collision :
    (eng : Engine) (slots h : ℕ) (zs : Option Zstr) (value : Value) (n m : ℕ) (table : Building)
    (c : ℕ)
    → Spends
        (c + size value + size_building table)
        (dec_assoc_update_collision eng slots h zs value n m table)
        (λ r. c + size_update value table r)
unfolding dec_assoc_update_collision
Spends-update_collision eng slots h zs value n m [] c = Spends-pure none _ _ (omega arith)
Spends-update_collision eng slots h zs value n m (b ∷ older) c =
    let credit = c + size value + size_building (b ∷ older) in
    let on = λ (n' m' : ℕ).
      keep_bucket value b older c _
        (Spends-update_collision eng slots h zs value n' m' older (c + size b.val)) in
    Spends-if (not (b.h % slots == h % slots)) _ _ credit _ (on n m) (
      Spends-bind _ _ credit (λ _. credit) _
        (Spends-if (b.h == h) _ _ credit _ (Spends-bucket_equal eng m credit b.key zs)
          (Spends-pure _ credit _ (omega arith)))
        λ found. Spends-if (found.0) _ _ credit _ (Spends-pure _ credit _ (omega arith)) (
          Spends-bind (chain_step n) _ credit (λ _. credit) _ (Spends-chain_step n credit)
            λ n'. on n' (found.1)))

insert_absent_size :
    (h : ℕ) (zs : Option Zstr) (value : Value) (table : Building) (r : Option Building)
    → size_building (insert_absent h zs value table r) ≤ size_update value table r
unfolding insert_absent
insert_absent_size h zs value table none = omega arith
insert_absent_size h zs value table (some bs) = omega arith

Spends-update_bounded :
    (eng : Engine) (slots : ℕ) (key : KeyVal) (value : Value) (table : Building) (c : ℕ)
    → Spends
        (c + size value + size_building table)
        (dec_assoc_update_bounded eng slots key value table)
        (λ t. c + size_building t)
unfolding dec_assoc_update_bounded
Spends-update_bounded eng slots key value table c =
    Spends-bind _ _ (c + size value + size_building table) (λ r. c + size_update value table r) _
      (Spends-update_collision eng slots _ _ value 0 0 table c)
      λ r. Spends-pure _ _ _ (omega (arith, insert_absent_size _ _ value table r))

size-finish_onto :
    (table : Building) (done : Buckets)
    → size_buckets (finish_onto table done) ≡ size_building table + size_buckets done
unfolding finish_onto
size-finish_onto [] done = omega arith
size-finish_onto (b ∷ older) done =
    omega (arith, size-finish_onto older (bucket (key_of_slot b) b.val done))

module _ (eng : Engine) (decode_value : M Value)
    (pays : Spends 0 decode_value (λ v. suc (size v))) where
  Spends-assoc_entries :
      (slots n : ℕ) (table : Building) (c : ℕ)
      → Spends
          (c + size_building table)
          (assoc_entries eng decode_value slots n table)
          (λ t. c + size_building t)
  unfolding assoc_entries
  Spends-assoc_entries slots zero table c = Spends-pure table _ _ (omega arith)
  Spends-assoc_entries slots (suc n) table c =
      let credit = c + size_building table in
      Spends-bind (decode_key eng) _ credit (λ _. credit + 2) _ (Spends-decode_key eng credit)
        λ k.
          Spends-bind (decode_value_hot eng decode_value) _ (credit + 2)
            (λ v. credit + 2 + suc (size v)) _
            (Spends-frame _ _ (credit + 2) (Spends-decode_value_hot eng decode_value pays))
            λ v.
              Spends-bind _ _ (credit + 2 + suc (size v)) (λ t. c + 3 + size_building t) _
                (λ d t d' e.
                  omega (arith, Spends-update_bounded eng slots k v table (c + 3) d t d' e))
                λ t.
                  Spends-credit (assoc_entries eng decode_value slots n t) (c + 3 + size_building t)
                    (c + 3 + size_building t) (λ t'. c + 3 + size_building t')
                    (λ t'. c + size_building t') (Spends-assoc_entries slots n t (c + 3))
                    (omega arith) λ t'. omega arith

  pub Spends-decode_assoc : Spends 2 (decode_assoc eng decode_value) (λ v. suc (size v))
  unfolding decode_assoc finish
  Spends-decode_assoc =
      Spends-bind read_pair_count _ 2 (λ _. 4) _ (Spends-read_pair_count 2)
        λ n. Spends-if (n == 0) _ _ 4 _ (Spends-pure _ 4 _ (omega arith)) (
          Spends-bind _ _ 4 (λ t. 4 + size_building t) _
            (Spends-assoc_entries (eng.table_slots n) n [] 4)
            λ t. Spends-pure _ _ _ (omega (arith, size-finish_onto t end)))
