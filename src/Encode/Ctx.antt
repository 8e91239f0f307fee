-- ===== src/Encode/Ctx.antt =====
-- encode_ctx without pins, and its id table: enc_visit, enc_visit_array, enc_array_done.
-- The depth is an argument of the functions, and `failed` is set by hooks alone.
use phpser.Base.{
  ℕ, ◌+◌, ◌*◌, ◌%◌, ◌^◌, Bool, true, false, List, [], ◌∷◌, ◌++◌, Option, some, none, if◌then◌else◌,
  ltb, ◌==◌, length,
}
use phpser.Wire.{varint_put}
use phpser.Encode.Probe.{find, place, overwrite, grow}

pub data ArrState : Type 0 where
  claimed pending unshared : ArrState

pub record IdEntry : Type 0 where
  pub id : ℕ
  pub arr_state : ArrState

-- hash_map holds pointers into the dictionary with their indices, newest first, and is none while
-- it is not in use. Both tables of slots are empty while unallocated. The icache maps a string to
-- the idx of its intern_slot. `holds` lists the arrays that the encoder has added a reference to.
pub record Enc : Type 0 where
  pub body : List ℕ
  pub icache : List (Option (ℕ × ℕ))
  pub icache_count : ℕ
  pub icache_init_cap : ℕ
  pub hash_map : Option (List (ℕ × ℕ))
  pub id_buckets : List (Option (ℕ × IdEntry))
  pub id_count : ℕ
  pub next_id : ℕ
  pub sublinear_elems : ℕ
  pub materialization_excess : ℕ
  pub refs_seen : ℕ
  pub dict : List ℕ
  pub depth_exceeded : Bool
  pub size_exceeded : Bool
  pub wire_v2 : Bool
  pub holds : List ℕ

abbrev pub enc_ctx_init : ℕ → Enc
enc_ctx_init init_cap = record {
  body = [];
  icache = [];
  icache_count = 0;
  icache_init_cap = init_cap;
  hash_map = none;
  id_buckets = [];
  id_count = 0;
  next_id = 0;
  sublinear_elems = 0;
  materialization_excess = 0;
  refs_seen = 0;
  dict = [];
  depth_exceeded = false;
  size_exceeded = false;
  wire_v2 = false;
  holds = [];
}

-- smart_str_appendc, smart_str_appendl and emit_tag_and_varint on the body
abbrev pub append : List ℕ → Enc → Enc
append bytes e = record e { body = e.body ++ bytes }

abbrev pub emit_tag : ℕ → ℕ → Enc → Enc
emit_tag tag v e = record e { body = varint_put (e.body ++ (tag ∷ [])) v }

abbrev pub set_wire_v2 : Enc → Enc
set_wire_v2 e = record e { wire_v2 = true }

unfoldable pub enc_id_grow : Enc → Enc
unfolding grow
enc_id_grow e = record e {
  id_buckets = grow e.id_buckets (if length e.id_buckets == 0 then 16 else length e.id_buckets * 2);
}

-- `(e->id_count + 1) * 2 > e->id_mask + 1`
unfoldable pub id_room : Enc → Enc
unfolding enc_id_grow
id_room e = if ltb (length e.id_buckets) ((e.id_count + 1) * 2) then enc_id_grow e else e

unfoldable pub add_entry : ℕ → IdEntry → Enc → Enc
unfolding place
add_entry p entry e = record e {
  id_buckets = place e.id_buckets p entry;
  id_count = e.id_count + 1;
}

-- The id, whether it is new, and the state.
unfoldable pub visit_found : ℕ → Enc → Option IdEntry → Bool × ℕ × Enc
unfolding add_entry
visit_found p e (some entry) = (false, entry.id, e)
visit_found p e none = (
  true,
  e.next_id,
  add_entry p (record { id = e.next_id; arr_state = claimed })
      (record e { next_id = (e.next_id + 1) % 2 ^ 32 }),
)

unfoldable pub enc_visit : ℕ → Enc → Bool × ℕ × Enc
unfolding id_room visit_found find
enc_visit p e = visit_found p (id_room e) (find (id_room e).id_buckets p)

pub data ArrVisit : Type 0 where
  arr_new arr_by_value : ArrVisit
  arr_repeat : ℕ → ArrVisit

unfoldable pub set_entry : ℕ → IdEntry → Enc → Enc
unfolding overwrite
set_entry p entry e = record e { id_buckets = overwrite e.id_buckets p entry }

unfoldable pub array_state : ℕ → ℕ → ArrState → Enc → ArrVisit × Enc
unfolding set_entry
array_state p id unshared e = (arr_new, set_entry p (record { id = id; arr_state = pending }) e)
array_state p id pending e = (arr_by_value, e)
array_state p id claimed e = (arr_repeat id, e)

unfoldable pub array_found : ℕ → Enc → Option IdEntry → ArrVisit × Enc
unfolding array_state add_entry
array_found p e (some entry) = array_state p entry.id entry.arr_state e
array_found p e none = (arr_new, add_entry p (record { id = 0; arr_state = pending }) e)

unfoldable pub enc_visit_array : ℕ → Enc → ArrVisit × Enc
unfolding id_room array_found find
enc_visit_array p e = array_found p (id_room e) (find (id_room e).id_buckets p)

-- An array that is not shareable keeps the id of its entry, which nothing reads.
unfoldable pub kept_id : Option IdEntry → ℕ
kept_id none = 0
kept_id (some entry) = entry.id

unfoldable pub enc_array_done : ℕ → Bool → Enc → Enc
unfolding set_entry kept_id find
enc_array_done p true e = record (set_entry p (record { id = e.next_id; arr_state = claimed }) e) {
  next_id = (e.next_id + 1) % 2 ^ 32;
}
enc_array_done p false e =
    set_entry p (record { id = kept_id (find e.id_buckets p); arr_state = unshared }) e
