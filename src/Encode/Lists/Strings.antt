-- ===== src/Encode/Lists/Strings.antt =====
-- A list of strings that are all in the dictionary, as their indices.
use phpser.Base.{
  ℕ, ◌≡◌, refl, sym, ◌∙◌, ap, List, [], ◌∷◌, ◌++◌, Option, some, none, length, append_assoc,
  append-nil,
}
use phpser.Wire.{varint_put}
use phpser.Php.{Value}
use phpser.Decode.Ctx.{Ctx, ok, ◌>>=◌}
use phpser.Decode.Runs.{repeat, string_cell}
use phpser.Encode.Memory.{Memory, str, Cells, nil as no_cells, cell, cell_list}
use phpser.Encode.Ctx.{Enc}
use phpser.Encode.Strings.{enc_str_dict_idx}
use phpser.Encode.Strings.Sound.{IsSound, Names}
use phpser.Encode.Strings.Written.{
  Written, Written-refl, Written-trans, Names-grown, varint_put-after,
}
use phpser.Encode.Strings.Interned.{Looked, enc_str_dict_idx-Looked}
use phpser.Encode.Array.{string_run, after_idx}
use phpser.Encode.Schema.{enc_write_key_idx_run}
use phpser.Encode.Runs.Decoded.{at}
use phpser.Encode.Lists.{value_of, values_of_cells, Covers}
use phpser.Encode.Lists.Scalars.{read_u64-wrote, named_zstr}

-- The indices name the strings of the cells, one by one.
unfoldable pub AllNamed : Memory → List ℕ → Cells → List ℕ → Type 0
unfolding Names
AllNamed m dict no_cells is = is ≡ []
AllNamed m dict (cell v cs) is =
    (zs : ℕ) × (i : ℕ) × (js : List ℕ) × (v ≡ str zs)
    × (is ≡ i ∷ js)
    × Names m dict zs i
    × AllNamed m dict cs js

pub record StringRun (m : Memory) (cs : Cells) (e : Enc) (r : Option (List ℕ) × Enc) : Type 0 where
  pub unwritten : Written m e r.1 [] [] 0
  pub named : (is : List ℕ) → r.0 ≡ some is → AllNamed m r.1.dict cs is

some_inj : {is js : List ℕ} → some is ≡ some js → js ≡ is
some_inj e = cc

module _ (m : Memory) where
  cons_run :
      (zs i : ℕ) (cs : Cells) (e f : Enc) (r : Option (List ℕ) × Enc)
      → Written m e f [] [] 0
      → Names m f.dict zs i
      → StringRun m cs f r
      → StringRun m (cell (str zs) cs) e (after_idx m i r)
  unfolding after_idx AllNamed
  cons_run zs i cs e f (none, g) w named x = record {
    unwritten = Written-trans m e f g [] [] [] [] 0 0 w x.unwritten;
    named = λ is no. cc;
  }
  cons_run zs i cs e f (some is, g) w named x = record {
    unwritten = Written-trans m e f g [] [] [] [] 0 0 w x.unwritten;
    named = λ js same. (
      zs,
      i,
      is,
      refl,
      some_inj same,
      Names-grown m f g [] [] 0 zs i x.unwritten named,
      x.named is refl,
    );
  }

  Looked-run :
      (zs : ℕ) (cs : Cells) (e f : Enc) (found : Option ℕ) (r : Option (List ℕ) × Enc)
      → Looked m zs e (found, f)
      → StringRun m cs f r
      → StringRun m
          (cell (str zs) cs)
          e
          (elim found [ none ↦ (none, f) | some idx ↦ after_idx m idx r ])
  Looked-run zs cs e f none r l x = record { unwritten = l.unwritten; named = λ is no. cc }
  Looked-run zs cs e f (some i) r l x = cons_run zs i cs e f r l.unwritten (l.named i refl) x

  pub string_run-StringRun :
      (cs : Cells) (e : Enc) → IsSound m e → StringRun m cs e (string_run m (cell_list cs) e)
  unfolding string_run cell_list AllNamed
  string_run-StringRun no_cells e sound = record {
    unwritten = Written-refl m e sound;
    named = λ is same. some_inj same;
  }
  string_run-StringRun (cell (str zs) cs) e sound =
      let l = enc_str_dict_idx-Looked m zs e sound in
      Looked-run zs cs e (enc_str_dict_idx m zs e).1 (enc_str_dict_idx m zs e).0 _ l
        (string_run-StringRun cs (enc_str_dict_idx m zs e).1 l.unwritten.tables)
  string_run-StringRun (cell _ cs) e sound = record {
    unwritten = Written-refl m e sound;
    named = λ is no. cc;
  }

pub key_run-after :
    (is out : List ℕ) → enc_write_key_idx_run is out ≡ out ++ enc_write_key_idx_run is []
unfolding enc_write_key_idx_run
key_run-after [] out = sym (append-nil out)
key_run-after (i ∷ is) out =
    key_run-after is (varint_put out i)
    ∙ ap (λ b. b ++ enc_write_key_idx_run is []) (varint_put-after out i)
    ∙ append_assoc out (varint_put [] i) (enc_write_key_idx_run is [])
    ∙ ap (λ b. out ++ b) (sym (key_run-after is (varint_put [] i)))

string_run_nil : (tail : List ℕ) → enc_write_key_idx_run [] [] ++ tail ≡ tail
unfolding enc_write_key_idx_run
string_run_nil tail = refl

string_run-split :
    (i : ℕ) (is js tail : List ℕ)
    → is ≡ i ∷ js
    → enc_write_key_idx_run is [] ++ tail ≡ varint_put [] i ++ (enc_write_key_idx_run js [] ++ tail)
unfolding enc_write_key_idx_run
string_run-split i is js tail e = rw e (
    ap (λ b. b ++ tail) (key_run-after js (varint_put [] i))
    ∙ append_assoc (varint_put [] i) (enc_write_key_idx_run js []) tail)

module _ (m : Memory) (dict : List ℕ) (d : Ctx) (covers : Covers m dict d.dict) where
  string_cell-wrote :
      (zs i : ℕ) (tail : List ℕ)
      → Names m dict zs i
      → string_cell (at d (varint_put [] i ++ tail)) ≡ ok (Value.str (m.bytes_at zs), at d tail)
  unfolding string_cell
  string_cell-wrote zs i tail named =
      let (z, small, got, same) = named_zstr m dict (at d tail) zs i covers named in
      rw (◌>>=◌, read_u64-wrote d i tail small)
        (rw (◌>>=◌, got) (ap (λ b. ok (Value.str b, at d tail)) same))

  pub strings-wrote :
      (cs : Cells) (is tail : List ℕ)
      → AllNamed m dict cs is
      → repeat (length (cell_list cs)) string_cell (at d (enc_write_key_idx_run is [] ++ tail))
        ≡ ok (values_of_cells m cs, at d tail)
  unfolding repeat AllNamed cell_list values_of_cells value_of
  strings-wrote no_cells is tail named = rw named (rw (string_run_nil tail) refl)
  strings-wrote (cell v cs) is tail (zs, i, js, e, e', first, rest) = rw e (
      rw (string_run-split i is js tail e') (
        rw (◌>>=◌, string_cell-wrote zs i (enc_write_key_idx_run js [] ++ tail) first)
          (rw (◌>>=◌, strings-wrote cs js tail rest) refl)))
