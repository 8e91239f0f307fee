-- ===== src/Decode/Bounded/Whole.antt =====
-- What a whole decode makes is linear in the payload.
use phpser.Base.{
  ℕ, zero, suc, ◌+◌, ◌*◌, ◌^◌, ◌≤◌, ◌≡◌, arith, Bool, List, [], ◌∷◌, length, leb, ltb, ◌&&◌, ◌||◌,
  ◌==◌, get_elem?,
}
use phpser.Php.{Value}
use phpser.Decode.Ctx.{
  Engine, Zstr, Ctx, ok, require, remaining, uint32_max, read_u64, read_byte, read_counted_bytes,
  dec_string_init_existing_interned,
}
use phpser.Decode.Array.{decode_value, max_depth}
use phpser.Decode.Frame.{
  version_v1, version_v2, push_dict, dict_entries, decode_header, initial_ctx, Graph, cell_value,
  unwrap, graph_of, exactly_read, decode_frame, phpser_decode_buf_opts,
}
use phpser.Decode.Spends.{
  size, size_slots, size_cells, mass, Spends, Spends-bind, Spends-pure, Spends-require,
  Spends-remaining, Spends-read_u64, Spends-read_byte, >>=-ok,
}
use phpser.Decode.Mass.{Spends-read_counted_bytes}
use phpser.Decode.Bounded.Refs.{Spends-decode_value}

Spends-push_dict : (zs : Zstr) (c : ℕ) → Spends c (push_dict zs) (λ _. c)
unfolding push_dict
Spends-push_dict zs c d a d' e = ground arith

Spends-existing_interned :
    (eng : Engine) (bytes : List ℕ) (c : ℕ)
    → Spends c (dec_string_init_existing_interned eng bytes) (λ _. c)
unfolding dec_string_init_existing_interned
Spends-existing_interned eng bytes c d a d' e = ground arith

Spends-dict_entries : (eng : Engine) (n c : ℕ) → Spends c (dict_entries eng n) (λ _. c)
unfolding dict_entries
Spends-dict_entries eng zero c = Spends-pure _ c _ (omega arith)
Spends-dict_entries eng (suc n) c =
    Spends-bind read_counted_bytes _ c (λ _. c) _
      (λ d r d' e. omega (arith, Spends-read_counted_bytes c d r d' e))
      λ bytes.
        Spends-bind (dec_string_init_existing_interned eng bytes) _ c (λ _. c) _
          (Spends-existing_interned eng bytes c)
          λ zs.
            Spends-bind (push_dict zs) _ c (λ _. c) _ (Spends-push_dict zs c)
              λ _. Spends-dict_entries eng n c

Spends-decode_header : (eng : Engine) → Spends 0 (decode_header eng) (λ _. 4)
unfolding decode_header
Spends-decode_header eng =
    Spends-bind read_byte _ 0 (λ _. 2) _ (Spends-read_byte 0)
      λ ver.
        Spends-bind (require (ver == version_v1 || ver == version_v2)) _ 2 (λ _. 2) _
          (Spends-require _ 2)
          λ _.
            Spends-bind read_u64 _ 2 (λ _. 4) _ (Spends-read_u64 2)
              λ n.
                Spends-bind remaining _ 4 (λ _. 4) _ (Spends-remaining 4)
                  λ left.
                    Spends-bind (require (ltb n uint32_max && leb n left)) _ 4 (λ _. 4) _
                      (Spends-require _ 4) λ _. Spends-dict_entries eng n 4

-- Everything that a graph holds beside its top value.
abbrev pub store_size : Graph → ℕ
store_size g = size_cells g.cells + size_slots g.id_table

size-cell_value :
    (cells : List Value) (i : ℕ) → size (cell_value (get_elem? cells i)) ≤ 1 + size_cells cells
unfolding cell_value
size-cell_value [] i = omega arith
size-cell_value (v ∷ cells) zero = omega arith
size-cell_value (v ∷ cells) (suc i) = omega (arith, size-cell_value cells i)

size-unwrap : (cells : List Value) (v : Value) → size (unwrap cells v) ≤ size v + size_cells cells
unfolding unwrap
size-unwrap cells (Value.ref loc) = omega (arith, size-cell_value cells loc)
size-unwrap cells _ = omega arith

Spends-graph_of : (v : Value) (c : ℕ) → Spends (c + size v) (graph_of v) (λ g. c)
unfolding graph_of
Spends-graph_of v c d g d' e = ground arith

graph_of-size :
    (v : Value) (d : Ctx) (g : Graph) (d' : Ctx)
    → graph_of v d ≡ ok (g, d')
    → (size g.value ≤ size v + mass d) × (store_size g ≤ mass d)
unfolding graph_of
graph_of-size v d g d' e = ground (arith, size-unwrap d.cells v)

mass-initial_ctx : (buf : List ℕ) → mass (initial_ctx buf) ≡ 2 * length buf + 2 ^ 20
unfolding initial_ctx
mass-initial_ctx buf = omega arith

Spends-exactly_read : (b : Bool) (c : ℕ) → Spends c (exactly_read b) (λ _. c)
unfolding exactly_read
Spends-exactly_read b c d a d' e = Spends-require _ c d a d' e

-- The memory bound of the decoder without objects. Whatever bytes it is given and accepts, meeting no
-- object or enum on the way, the value it returns has at most 2 * len + 2^20 zvals, and so have all
-- its reference cells and shared arrays together: the sublinear runs, back references and tables of a
-- payload cannot make more.
pub phpser_decode_buf_opts-bounded :
    (eng : Engine) (buf : List ℕ) (require_exact : Bool) (g : Graph) (d : Ctx)
    → phpser_decode_buf_opts eng buf require_exact ≡ ok (g, d)
    → (size g.value ≤ 2 * length buf + 2 ^ 20) × (store_size g ≤ 2 * length buf + 2 ^ 20)
unfolding phpser_decode_buf_opts decode_frame
phpser_decode_buf_opts-bounded eng buf exact g d e =
    let start = initial_ctx buf in
    let (u, d₁, e₁, r₁) = >>=-ok (decode_header eng) _ start e in
    let (v, d₂, e₂, r₂) = >>=-ok (decode_value eng max_depth) _ d₁ r₁ in
    let (w, d₃, e₃, r₃) = >>=-ok (exactly_read exact) _ d₂ r₂ in
    let (l, r) = graph_of-size v d₃ g d r₃ in
    omega (
      arith,
      l,
      r,
      mass-initial_ctx buf,
      Spends-decode_header eng start u d₁ e₁,
      Spends-decode_value eng max_depth d₁ v d₂ e₂,
      Spends-exactly_read exact 0 d₂ w d₃ e₃,
    )
