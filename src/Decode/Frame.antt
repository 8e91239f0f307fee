-- ===== src/Decode/Frame.antt =====
-- decode_header and phpser_decode_buf_opts, without the hooks that only objects have.
use phpser.Base.{
  ℕ, zero, suc, ◌+◌, ◌-◌, ◌*◌, ◌/◌, ◌^◌, Bool, not, ◌&&◌, ◌||◌, List, [], ◌∷◌, ◌++◌, Option, some,
  none, if◌then◌else◌, ltb, leb, ◌==◌, length, get_elem?,
}
use phpser.Php.{Value}
use phpser.Decode.Ctx.{
  Engine, Zstr, IdSlot, Ctx, Outcome, ok, M, ◌>>=◌, ◌>>◌, pure, require, remaining, read_u64,
  read_byte, read_counted_bytes, dec_string_init_existing_interned, uint32_max,
}
use phpser.Decode.Array.{decode_value, max_depth}

abbrev pub version_v1 : ℕ
version_v1 = 0x01

abbrev pub version_v2 : ℕ
version_v2 = 0x02

unfoldable pub push_dict : Zstr → M (Unit {0})
push_dict zs d = ok (tt, record d { dict = d.dict ++ (zs ∷ []) })

unfoldable pub dict_entries : Engine → ℕ → M (Unit {0})
unfolding read_counted_bytes dec_string_init_existing_interned push_dict
dict_entries eng zero = pure tt
dict_entries eng (suc n) = do
  bytes ← read_counted_bytes
  zs ← dec_string_init_existing_interned eng bytes
  push_dict zs
  dict_entries eng n

unfoldable pub decode_header : Engine → M (Unit {0})
unfolding read_byte read_u64 dict_entries
decode_header eng = do
  ver ← read_byte
  require (ver == version_v1 || ver == version_v2)
  n ← read_u64
  left ← remaining
  require (ltb n uint32_max && leb n left)
  dict_entries eng n

abbrev pub size_max : ℕ
size_max = 2 ^ 64 - 1

abbrev pub materialize_allowance : ℕ
materialize_allowance = 16 * 1024 * 1024

abbrev pub materialize_ratio : ℕ
materialize_ratio = 64

-- The budgets grow with the payload.
unfoldable pub initial_ctx : List ℕ → Ctx
initial_ctx buf = record {
  rest = buf;
  dict = [];
  owned_strings = 0;
  id_table = [];
  cells = [];
  sublinear_elems = 0;
  materialize_left =
      if ltb ((size_max - materialize_allowance) / materialize_ratio) (length buf)
      then size_max
      else materialize_allowance + length buf * materialize_ratio;
  compare_left =
      if ltb ((size_max - 65536) / 64) (length buf) then size_max else 65536 + length buf * 64;
  refs_seen = 0;
}

-- The graph that a decode returns: the value, the cells of its references and its shared arrays.
pub record Graph : Type 0 where
  pub value : Value
  pub cells : List Value
  pub id_table : List IdSlot

unfoldable pub cell_value : Option Value → Value
cell_value none = Value.null
cell_value (some v) = v

-- A reference at the top is unwrapped.
unfoldable pub unwrap : List Value → Value → Value
unfolding cell_value
unwrap cells (Value.ref loc) = cell_value (get_elem? cells loc)
unwrap cells v = v

unfoldable pub graph_of : Value → M Graph
unfolding unwrap
graph_of v d = ok (record { value = unwrap d.cells v; cells = d.cells; id_table = d.id_table }, d)

unfoldable pub exactly_read : Bool → M (Unit {0})
exactly_read require_exact d = require (not (require_exact && not (length d.rest == 0))) d

unfoldable pub decode_frame : Engine → Bool → M Graph
unfolding decode_header exactly_read graph_of
decode_frame eng require_exact = do
  decode_header eng
  v ← decode_value eng max_depth
  exactly_read require_exact
  graph_of v

unfoldable pub phpser_decode_buf_opts : Engine → List ℕ → Bool → Outcome (Graph × Ctx)
unfolding decode_frame initial_ctx
phpser_decode_buf_opts eng buf require_exact = decode_frame eng require_exact (initial_ctx buf)
