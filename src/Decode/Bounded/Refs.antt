-- ===== src/Decode/Bounded/Refs.antt =====
-- References, shared arrays and the whole of decode_value pay for what they make.
use phpser.Base.{
  ℕ, zero, suc, ◌+◌, ◌≤◌, ◌≡◌, refl, arith, not, List, [], ◌∷◌, ◌++◌, Option, some, none, ◌==◌,
  if◌then◌else◌, set,
}
use phpser.Php.{Value}
use phpser.Tag.{Tag, tag_of_byte, dec_is_scalar_tag}
use phpser.Decode.Ctx.{Engine, IdSlot, id_ref, M, require, read_u64, read_byte}
use phpser.Decode.Scalar.{decode_scalar_tag, id_slot_of, dec_register}
use phpser.Decode.Array.{
  decode_array_tag, slot_value, back_reference, decode_ref, new_cell, count_ref, fill_cell, is_ref,
  next_is_new_ref, decode_new_ref, refs_so_far, ids_so_far, shared_value, array_of_byte,
  dec_decode_shared_array, decode_tag, decode_value_inner, decode_value,
}
use phpser.Decode.Spends.{
  size, size_slot, size_slots, size_cells, Spends, Spends-bind, Spends-pure, Spends-require,
  Spends-read_u64, Spends-read_byte, Spends-frame, Spends-if, Spends-fail,
}
use phpser.Decode.Mass.{Spends-decode_scalar_tag}
use phpser.Decode.Bounded.Graph.{Spends-decode_array_tag, Spends-array_of_byte}

-- Two credits of the tag and the value's own pay for the slot that keeps it.
size_slots-append :
    (ss : List IdSlot) (s : IdSlot) → size_slots (ss ++ (s ∷ [])) ≡ size_slots ss + size_slot s
size_slots-append [] s = omega arith
size_slots-append (t ∷ ss) s = omega (arith, size_slots-append ss s)

size_cells-append :
    (vs : List Value) (v : Value) → size_cells (vs ++ (v ∷ [])) ≡ size_cells vs + size v
size_cells-append [] v = omega arith
size_cells-append (u ∷ vs) v = omega (arith, size_cells-append vs v)

size_cells-set :
    (vs : List Value) (i : ℕ) (v : Value) → size_cells (set vs i v) ≤ size_cells vs + size v
size_cells-set [] i v = omega arith
size_cells-set (u ∷ vs) zero v = omega arith
size_cells-set (u ∷ vs) (suc i) v = omega (arith, size_cells-set vs i v)

size_slot_of : (v : Value) → size_slot (id_slot_of v) ≤ size v
unfolding id_slot_of
size_slot_of (Value.packed vs) = omega arith
size_slot_of (Value.hash bs) = omega arith
size_slot_of _ = omega arith

Spends-dec_register : (v : Value) (c : ℕ) → Spends (c + size v) (dec_register v) (λ _. c)
unfolding dec_register
Spends-dec_register v c d a d' e =
    ground (arith, size_slots-append d.id_table (id_slot_of v), size_slot_of v)

Spends-back_reference : (id c : ℕ) → Spends (c + 2) (back_reference id) (λ v. c + suc (size v))
unfolding back_reference slot_value
Spends-back_reference id c d v d' e = ground arith

Spends-decode_ref : Spends 2 decode_ref (λ v. suc (size v))
unfolding decode_ref
Spends-decode_ref =
    Spends-bind read_u64 _ 2 (λ _. 4) _ (Spends-read_u64 2)
      λ id d v d' e. omega (arith, Spends-back_reference id 2 d v d' e)

Spends-new_cell : (c : ℕ) → Spends (c + 1) new_cell (λ _. c)
unfolding new_cell
Spends-new_cell c d loc d' e = ground (arith, size_cells-append d.cells Value.undef)

Spends-count_ref : (c : ℕ) → Spends c count_ref (λ _. c)
unfolding count_ref
Spends-count_ref c d a d' e = ground arith

Spends-register_ref : (loc c : ℕ) → Spends c (dec_register (Value.ref loc)) (λ _. c)
unfolding dec_register id_slot_of
Spends-register_ref loc c d a d' e = ground (arith, size_slots-append d.id_table (id_ref loc))

Spends-fill_cell : (loc : ℕ) (v : Value) (c : ℕ) → Spends (c + size v) (fill_cell loc v) (λ _. c)
unfolding fill_cell
Spends-fill_cell loc v c d a d' e = ground (arith, size_cells-set d.cells loc v)

Spends-peek : (c : ℕ) → Spends c (λ d. require (not (next_is_new_ref d.rest)) d) (λ _. c)
Spends-peek c d a d' e = Spends-require (not (next_is_new_ref d.rest)) c d a d' e

Spends-decode_new_ref :
    (decode_value : M Value)
    → Spends 0 decode_value (λ v. suc (size v))
    → Spends 2 (decode_new_ref decode_value) (λ v. suc (size v))
unfolding decode_new_ref
Spends-decode_new_ref decode_value pays =
    Spends-bind _ _ 2 (λ _. 2) _ (Spends-peek 2)
      λ _.
        Spends-bind new_cell _ 2 (λ _. 1) _ (Spends-new_cell 1)
          λ loc.
            Spends-bind (dec_register (Value.ref loc)) _ 1 (λ _. 1) _ (Spends-register_ref loc 1)
              λ _.
                Spends-bind count_ref _ 1 (λ _. 1) _ (Spends-count_ref 1)
                  λ _.
                    Spends-bind decode_value _ 1 (λ v. 1 + suc (size v)) _ (Spends-frame _ _ 1 pays)
                      λ v.
                        Spends-bind (require (not (is_ref v))) _ _ (λ _. 1 + suc (size v)) _
                          (Spends-require _ _)
                          λ _.
                            Spends-bind (fill_cell loc v) _ _ (λ _. 2) _
                              (λ d a d' e. omega (arith, Spends-fill_cell loc v 2 d a d' e))
                              λ _. Spends-pure (Value.ref loc) 2 _ (omega arith)

size-shared_value : (id : ℕ) (v : Value) → size (shared_value id v) ≡ 1
unfolding shared_value
size-shared_value id Value.empty_array = refl
size-shared_value id _ = refl

Spends-refs_so_far : (c : ℕ) → Spends c refs_so_far (λ _. c)
unfolding refs_so_far
Spends-refs_so_far c d a d' e = ground arith

Spends-ids_so_far : (c : ℕ) → Spends c ids_so_far (λ _. c)
unfolding ids_so_far
Spends-ids_so_far c d a d' e = ground arith

Spends-shared_array :
    (eng : Engine) (decode_value : M Value)
    → Spends 0 decode_value (λ v. suc (size v))
    → Spends 2 (dec_decode_shared_array eng decode_value) (λ v. suc (size v))
unfolding dec_decode_shared_array
Spends-shared_array eng decode_value pays =
    Spends-bind refs_so_far _ 2 (λ _. 2) _ (Spends-refs_so_far 2)
      λ before.
        Spends-bind read_byte _ 2 (λ _. 4) _ (Spends-read_byte 2)
          λ t.
            Spends-bind (array_of_byte eng decode_value (tag_of_byte t)) _ 4 (λ v. 2 + suc (size v))
              _ (λ d v d' e. omega (arith, Spends-array_of_byte eng decode_value pays _ d v d' e))
              λ v.
                Spends-bind refs_so_far _ _ (λ _. 3 + size v) _
                  (λ d r d' e. omega (arith, Spends-refs_so_far (3 + size v) d r d' e))
                  λ after.
                    Spends-bind (require (after == before)) _ _ (λ _. 3 + size v) _
                      (Spends-require _ _)
                      λ _.
                        Spends-bind ids_so_far _ _ (λ _. 3 + size v) _ (Spends-ids_so_far _)
                          λ id.
                            Spends-bind (dec_register v) _ _ (λ _. 3) _ (Spends-dec_register v 3)
                              λ _.
                                Spends-pure (shared_value id v) 3 _
                                  (omega (arith, size-shared_value id v))

Spends-leaf_or_array :
    (eng : Engine) (decode_value : M Value) (tag : Tag)
    → Spends 0 decode_value (λ v. suc (size v))
    → Spends 2
        (if dec_is_scalar_tag tag
          then decode_scalar_tag eng tag
          else decode_array_tag eng decode_value tag)
        (λ v. suc (size v))
Spends-leaf_or_array eng decode_value tag pays =
    Spends-if (dec_is_scalar_tag tag) _ _ 2 _
      (λ d v d' e. omega (arith, Spends-decode_scalar_tag eng tag 0 d v d' e))
      (Spends-decode_array_tag eng decode_value pays tag)

Spends-decode_tag :
    (eng : Engine) (decode_value : M Value) (t : Option Tag)
    → Spends 0 decode_value (λ v. suc (size v))
    → Spends 2 (decode_tag eng decode_value t) (λ v. suc (size v))
unfolding decode_tag
Spends-decode_tag eng decode_value none pays = Spends-fail 2 _
Spends-decode_tag eng decode_value (some Tag.ref) pays = Spends-decode_ref
Spends-decode_tag eng decode_value (some Tag.new_ref) pays = Spends-decode_new_ref decode_value pays
Spends-decode_tag eng decode_value (some Tag.shared_array) pays =
    Spends-shared_array eng decode_value pays
Spends-decode_tag eng decode_value (some Tag.object) pays = λ d v d' e. absurd (cc)
Spends-decode_tag eng decode_value (some Tag.object_slots) pays = λ d v d' e. absurd (cc)
Spends-decode_tag eng decode_value (some Tag.object_magic) pays = λ d v d' e. absurd (cc)
Spends-decode_tag eng decode_value (some Tag.object_legacy) pays = λ d v d' e. absurd (cc)
Spends-decode_tag eng decode_value (some Tag.enum) pays = λ d v d' e. absurd (cc)
Spends-decode_tag eng decode_value (some t) pays = Spends-leaf_or_array eng decode_value t pays

pub Spends-decode_value :
    (eng : Engine) (levels : ℕ) → Spends 0 (decode_value eng levels) (λ v. suc (size v))
unfolding decode_value decode_value_inner
Spends-decode_value eng zero = Spends-fail 0 _
Spends-decode_value eng (suc levels) =
    Spends-bind read_byte _ 0 (λ _. 2) _ (Spends-read_byte 0)
      λ t.
        Spends-decode_tag eng (decode_value eng levels) (tag_of_byte t)
          (Spends-decode_value eng levels)
