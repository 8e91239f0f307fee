-- ===== src/Encode/Frame/Header.antt =====
-- The header of a frame: its length, and what decode_header reads from it.
use phpser.Base.{
  ℕ, suc, ◌+◌, ◌<◌, ◌≤◌, ◌≡◌, refl, sym, ◌∙◌, ap, arith, Bool, true, false, ◌&&◌, ◌||◌, inl, inr,
  Bool-cases, List, [], ◌∷◌, ◌++◌, length, map, append_assoc, append-nil, length-append, All, ltb,
  leb, ◌==◌, if◌then◌else◌,
}
use phpser.Wire.{varint_put}
use phpser.Wire.Varint.Shortest.{length-varint_put}
use phpser.Decode.Ctx.{
  Engine, Ctx, Zstr, ok, ◌>>=◌, ◌>>◌, require, read_byte, first_byte, remaining, uint32_max, owned,
  interned, dec_string_init, dec_string_init_existing_interned,
}
use phpser.Decode.Frame.{decode_header, dict_entries, push_dict}
use phpser.Encode.Strings.Written.{varint_put-after}
use phpser.Encode.Runs.Decoded.{at}
use phpser.Encode.Frame.{entry_lengths, put_entries, header_len, put_header}
use phpser.Encode.Lists.Scalars.{read_u64-wrote, counted-wrote}

put_entries-after :
    (dict : List (List ℕ)) (out : List ℕ) → put_entries dict out ≡ out ++ put_entries dict []
unfolding put_entries
put_entries-after [] out = sym (append-nil out)
put_entries-after (s ∷ dict) out =
    put_entries-after dict (varint_put out (length s) ++ s)
    ∙ ap (λ b. (b ++ s) ++ put_entries dict []) (varint_put-after out (length s))
    ∙ ap (λ b. b ++ put_entries dict []) (append_assoc out (varint_put [] (length s)) s)
    ∙ append_assoc out (varint_put [] (length s) ++ s) (put_entries dict [])
    ∙ ap (λ b. out ++ b) (sym (put_entries-after dict (varint_put [] (length s) ++ s)))

abbrev pub Short : List ℕ → Type 0
Short s = length s ≤ uint32_max

length-put_entries :
    (dict : List (List ℕ)) (out : List ℕ)
    → All Short dict
    → (length (put_entries dict out) ≡ length out + entry_lengths dict)
      × (length dict ≤ entry_lengths dict)
unfolding put_entries entry_lengths
length-put_entries [] out h = (omega arith, omega arith)
length-put_entries (s ∷ dict) out (hs, h) =
    let (rest, least) = length-put_entries dict (varint_put out (length s) ++ s) h in
    let (one, some_byte, _) = length-varint_put (length s) out (omega arith) in
    (
      omega (arith, rest, one, length-append (varint_put out (length s)) s),
      omega (arith, least, some_byte),
    )

entries-Short :
    (dict : List (List ℕ)) (out : List ℕ)
    → length (put_entries dict out) ≤ uint32_max
    → All Short dict
unfolding put_entries
entries-Short [] out h = tt
entries-Short (s ∷ dict) out h = (
  omega (
    arith,
    ap length (put_entries-after dict (varint_put out (length s) ++ s)),
    length-append (varint_put out (length s) ++ s) (put_entries dict []),
    length-append (varint_put out (length s)) s,
  ),
  entries-Short dict (varint_put out (length s) ++ s) h,
)

pub length-put_header :
    (wire_v2 : Bool) (dict : List (List ℕ))
    → All Short dict
    → length dict ≤ uint32_max
    → (length (put_header wire_v2 dict) ≡ header_len dict) × (length dict ≤ header_len dict)
unfolding put_header header_len
length-put_header wire_v2 dict h few =
    let first = (if wire_v2 then 0x02 else 0x01) ∷ [] in
    let (rest, least) = length-put_entries dict (varint_put first (length dict)) h in
    let (one, _, _) = length-varint_put (length dict) first (omega arith) in
    (omega (arith, rest, one), omega (arith, least))

-- In a frame of less than 4 GiB every entry is short, and there are fewer than 2^32.
pub small_header :
    (wire_v2 : Bool) (dict : List (List ℕ))
    → length (put_header wire_v2 dict) < uint32_max
    → All Short dict × (length dict < uint32_max)
unfolding put_header
small_header wire_v2 dict h =
    let first = varint_put ((if wire_v2 then 0x02 else 0x01) ∷ []) (length dict) in
    let short = entries-Short dict first (omega arith) in
    let (size, least) = length-put_entries dict first short in (short, omega (arith, size, least))

-- The decoder's state when it has read the entries of the dictionary.
pub record HasRead (d d' : Ctx) (tail : List ℕ) (dict : List (List ℕ)) : Type 0 where
  pub zstrs : List Zstr
  pub owned : ℕ
  pub state : d' ≡ record d { rest = tail; dict = d.dict ++ zstrs; owned_strings = owned }
  pub same_bytes : map (λ z. z.bytes) zstrs ≡ dict

new_entry :
    (eng : Engine) (d : Ctx) (bytes : List ℕ)
    → (z : Zstr) × (n : ℕ) × (dec_string_init_existing_interned eng bytes d
        ≡ ok (z, record d { owned_strings = n }))
      × (z.bytes ≡ bytes)
unfolding dec_string_init_existing_interned dec_string_init
new_entry eng d bytes = elim (Bool-cases (eng.is_interned bytes)) [
  | inl there ↦ (record { address = interned; bytes = bytes }, d.owned_strings, rw there refl, refl)
  | inr new ↦ (
    record { address = owned d.owned_strings; bytes = bytes },
    d.owned_strings + 1,
    rw new refl,
    refl,
  )
]

put_entries-cons :
    (s : List ℕ) (dict : List (List ℕ)) (tail : List ℕ)
    → put_entries (s ∷ dict) [] ++ tail
      ≡ (varint_put [] (length s) ++ s) ++ (put_entries dict [] ++ tail)
unfolding put_entries
put_entries-cons s dict tail =
    ap (λ b. b ++ tail) (put_entries-after dict (varint_put [] (length s) ++ s))
    ∙ append_assoc (varint_put [] (length s) ++ s) (put_entries dict []) tail

-- One entry, and then the others.
entry_step :
    (eng : Engine) (d : Ctx) (s : List ℕ) (n k : ℕ) (z : Zstr) (tail : List ℕ)
    → Short s
    → dec_string_init_existing_interned eng s (at d tail)
      ≡ ok (z, record (at d tail) { owned_strings = k })
    → dict_entries eng (suc n) (at d ((varint_put [] (length s) ++ s) ++ tail))
      ≡ dict_entries eng n (at (record d { dict = d.dict ++ (z ∷ []); owned_strings = k }) tail)
unfolding dict_entries push_dict
entry_step eng d s n k z tail h new = rw (◌>>=◌, counted-wrote d s tail h) (rw (◌>>=◌, new) refl)

more_read :
    (d d' : Ctx) (z : Zstr) (k : ℕ) (tail s : List ℕ) (dict : List (List ℕ))
    → z.bytes ≡ s
    → HasRead (record d { dict = d.dict ++ (z ∷ []); owned_strings = k }) d' tail dict
    → HasRead d d' tail (s ∷ dict)
more_read d d' z k tail s dict same r = record {
  zstrs = z ∷ r.zstrs;
  owned = r.owned;
  state =
      r.state
      ∙ ap (λ zs. record d { rest = tail; dict = zs; owned_strings = r.owned })
          (append_assoc d.dict (z ∷ []) r.zstrs);
  same_bytes = rw (same, r.same_bytes) refl;
}

pub entries-wrote :
    (eng : Engine) (d : Ctx) (dict : List (List ℕ)) (tail : List ℕ)
    → All Short dict
    → (d' : Ctx) × (dict_entries eng (length dict) (at d (put_entries dict [] ++ tail))
        ≡ ok (tt, d'))
      × HasRead d d' tail dict
unfolding dict_entries put_entries
entries-wrote eng d [] tail h = (
  at d tail,
  refl,
  record {
    zstrs = [];
    owned = d.owned_strings;
    state = ap (λ zs. record d { rest = tail; dict = zs }) (sym (append-nil d.dict));
    same_bytes = refl;
  },
)
entries-wrote eng d (s ∷ dict) tail (hs, h) =
    let rest = put_entries dict [] ++ tail in
    let (z, k, new, same) = new_entry eng (at d rest) s in
    let (d', reads, r) =
      entries-wrote eng (record d { dict = d.dict ++ (z ∷ []); owned_strings = k }) dict tail h in
    (
      d',
      ap (λ b. dict_entries eng (length (s ∷ dict)) (at d b)) (put_entries-cons s dict tail)
          ∙ entry_step eng d s (length dict) k z rest hs new
          ∙ reads,
      more_read d d' z k tail s dict same r,
    )

counts :
    (n : ℕ) (rest : List ℕ)
    → n < uint32_max
    → n ≤ length rest
    → (ltb n uint32_max && leb n (length rest)) ≡ true
counts n rest h k = ground arith

abbrev version : Bool → ℕ
version wire_v2 = if wire_v2 then 0x02 else 0x01

version_known : (wire_v2 : Bool) → (version wire_v2 == 0x01 || version wire_v2 == 0x02) ≡ true
version_known true = refl
version_known false = refl

header_step :
    (eng : Engine) (d : Ctx) (wire_v2 : Bool) (n : ℕ) (rest : List ℕ)
    → n < uint32_max
    → n ≤ length rest
    → decode_header eng (at d (version wire_v2 ∷ (varint_put [] n ++ rest)))
      ≡ dict_entries eng n (at d rest)
unfolding decode_header read_byte first_byte require remaining
header_step eng d wire_v2 n rest few room =
    rw (◌>>=◌, ◌>>◌, version_known wire_v2)
      (rw (◌>>=◌, read_u64-wrote d n rest (omega arith))
        (rw (◌>>=◌, ◌>>◌, counts n rest few room) refl))

header_bytes :
    (wire_v2 : Bool) (dict : List (List ℕ)) (tail : List ℕ)
    → put_header wire_v2 dict ++ tail
      ≡ version wire_v2 ∷ (varint_put [] (length dict) ++ (put_entries dict [] ++ tail))
unfolding put_header
header_bytes wire_v2 dict tail =
    let first = version wire_v2 ∷ [] in
    ap (λ b. b ++ tail) (put_entries-after dict (varint_put first (length dict)))
    ∙ append_assoc (varint_put first (length dict)) (put_entries dict []) tail
    ∙ ap (λ b. b ++ (put_entries dict [] ++ tail)) (varint_put-after first (length dict))

pub header-wrote :
    (eng : Engine) (d : Ctx) (wire_v2 : Bool) (dict : List (List ℕ)) (tail : List ℕ)
    → All Short dict
    → length dict < uint32_max
    → (d' : Ctx) × (decode_header eng (at d (put_header wire_v2 dict ++ tail)) ≡ ok (tt, d'))
      × HasRead d d' tail dict
header-wrote eng d wire_v2 dict tail h few =
    let (d', reads, r) = entries-wrote eng d dict tail h in
    let (size, least) = length-put_entries dict [] h in
    (
      d',
      ap (λ b. decode_header eng (at d b)) (header_bytes wire_v2 dict tail)
          ∙ header_step eng d wire_v2 (length dict) (put_entries dict [] ++ tail) few
              (omega (arith, least, size, length-append (put_entries dict []) tail))
          ∙ reads,
      r,
    )
