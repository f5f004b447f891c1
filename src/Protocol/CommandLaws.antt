-- ===== src/Protocol/CommandLaws.antt =====
-- The commands as the runtime reads them: an independent reader of the frames, from the layout in
-- docs/features/openplc-debug-protocol/openplc-debug-protocol.md, gives back what was asked.
use orchestrator_agent.Prelude.{
  ℕ, ◌+◌, ◌*◌, ◌/◌, ◌%◌, ◌≤◌, ◌<◌, ◌≡◌, refl, sym, Bool, true, false, Option, none, some, List, [],
  ◌∷◌, map, arith, ltb, ◌==◌, if◌then◌else◌, length, All, length-map, lt→ltb, inl, inr, Bool-cases,
  le→ltb_false,
}
use orchestrator_agent.Prelude.Value.{pos, negsuc, Value, int, bool}
use orchestrator_agent.Chunking.{as_int}
use orchestrator_agent.Protocol.{IsByte, hex_to_bytes, bytes_to_hex}
use orchestrator_agent.Protocol.HexLaws.{hex_to_bytes-bytes_to_hex}
use orchestrator_agent.Protocol.Command.{
  Packing, packs, raises, ◌>>=◌, pack_u16, pack_value, pack_indexes, build_get_list,
  build_set_variable, flag,
}

pub data Request : Type 0 where
  get_info : Request
  get_md5 : ℕ → Request
  get_list : List ℕ → Request
  set_variable : ℕ → Bool → List ℕ → Request

-- The big-endian 16-bit numbers in a list of bytes; an odd byte at the end is left out.
pub read_u16s : List ℕ → List ℕ
read_u16s (hi ∷ lo ∷ l) = (hi * 256 + lo) ∷ read_u16s l
read_u16s _ = []

-- A frame whose announced size is not the size of what follows is no request.
pub read_frame : List ℕ → Option Request
unfolding read_u16s
read_frame (fc ∷ []) = if fc == 0x41 then some get_info else none
read_frame (fc ∷ hi ∷ lo ∷ f ∷ shi ∷ slo ∷ l) =
    if fc == 0x42
    then (if length l == shi * 256 + slo
        then some (set_variable (hi * 256 + lo) (f == 1) l)
        else none)
    else if fc == 0x44
    then (if length (f ∷ shi ∷ slo ∷ l) == 2 * (hi * 256 + lo)
        then some (get_list (read_u16s (f ∷ shi ∷ slo ∷ l)))
        else none)
    else none
read_frame (fc ∷ hi ∷ lo ∷ l) =
    if fc == 0x44
    then (if length l == 2 * (hi * 256 + lo) then some (get_list (read_u16s l)) else none)
    else if fc == 0x45
    then some (get_md5 (hi * 256 + lo))
    else none
read_frame _ = none

abbrev pub read_decoded : Option (List ℕ) → Option Request
read_decoded none = none
read_decoded (some l) = read_frame l

abbrev pub read_request : List ℕ → Option Request
read_request s = read_decoded (hex_to_bytes s)

abbrev encode_u16s : List ℕ → List ℕ
encode_u16s [] = []
encode_u16s (n ∷ ns) = n / 256 ∷ n % 256 ∷ encode_u16s ns

abbrev IsWord : ℕ → Type 0
IsWord n = n < 65536

abbrev pub of_ℕ : ℕ → Value
of_ℕ n = int (pos n)

read-encode : (ns : List ℕ) → read_u16s (encode_u16s ns) ≡ ns
unfolding read_u16s
read-encode [] = refl
read-encode (n ∷ ns) = ground (arith, read-encode ns)

encode-IsByte : (ns : List ℕ) → All IsWord ns → All IsByte (encode_u16s ns)
encode-IsByte [] h = tt
encode-IsByte (n ∷ ns) h = (omega arith, (omega arith, encode-IsByte ns h.1))

length-encode : (ns : List ℕ) → length (encode_u16s ns) ≡ 2 * length ns
length-encode [] = refl
length-encode (n ∷ ns) = omega (arith, length-encode ns)

pack_indexes-encode :
    (ns : List ℕ) → All IsWord ns → pack_indexes (map of_ℕ ns) ≡ packs (encode_u16s ns)
unfolding pack_indexes
pack_indexes-encode [] h = refl
pack_indexes-encode (n ∷ ns) h = rw (lt→ltb n 65536 h.0, pack_indexes-encode ns h.1)

read_list_frame :
    (hi lo : ℕ) (l : List ℕ)
    → length l ≡ 2 * (hi * 256 + lo)
    → read_frame (0x44 ∷ hi ∷ lo ∷ l) ≡ some (get_list (read_u16s l))
unfolding read_frame
read_list_frame hi lo [] h = ground arith
read_list_frame hi lo (a ∷ []) h = ground arith
read_list_frame hi lo (a ∷ b ∷ []) h = ground arith
read_list_frame hi lo (a ∷ b ∷ c ∷ l) h = ground arith

-- For 1 to 256 indexes below 65,536 the command is built, and the runtime reads from it the same
-- indexes in the same order.
pub build_get_list-read :
    (ns : List ℕ)
    → All IsWord ns
    → 0 < length ns
    → length ns ≤ 256
    → (s : List ℕ) × (build_get_list (map of_ℕ ns) ≡ packs s)
      × (read_request s ≡ some (get_list ns))
unfolding build_get_list
build_get_list-read ns h some_index few =
    let n = length ns in
    let frame = 0x44 ∷ n / 256 ∷ n % 256 ∷ encode_u16s ns in
    let bytes : All IsByte frame =
      (omega arith, (omega arith, (omega arith, encode-IsByte ns h))) in
    let halves : n / 256 * 256 + n % 256 ≡ n = omega arith in
    (
      bytes_to_hex frame,
      rw
          (
            length-map of_ℕ ns,
            le→ltb_false 256 n few,
            lt→ltb n 65536 (omega arith),
            pack_indexes-encode ns h,
          )
          (ground arith),
      rw (
        hex_to_bytes-bytes_to_hex frame bytes,
        read_list_frame (n / 256) (n % 256) (encode_u16s ns) (rw (halves, length-encode ns)),
        read-encode ns,
      ),
    )

-- What `struct.pack(">H", v)` takes: an integer, or a bool, in range.
abbrev IsIndex : Value → Type 0
IsIndex v = (n : ℕ) × (as_int v ≡ some (pos n)) × (n < 65536)

pack_u16_ok : (n : ℕ) {b : List ℕ} → pack_u16 n ≡ packs b → n < 65536
unfolding pack_u16
pack_u16_ok n h = ground arith

pack_value_ok : (v : Value) {b : List ℕ} → pack_value v ≡ packs b → IsIndex v
unfolding pack_value
pack_value_ok (int (pos n)) h = (n, refl, pack_u16_ok n h)
pack_value_ok (bool true) h = (1, refl, omega arith)
pack_value_ok (bool false) h = (0, refl, omega arith)
pack_value_ok (int (negsuc n)) h = absurd (ground arith)
pack_value_ok Value.null h = absurd (ground arith)
pack_value_ok (Value.float t) h = absurd (ground arith)
pack_value_ok (Value.str t) h = absurd (ground arith)
pack_value_ok (Value.arr t) h = absurd (ground arith)
pack_value_ok (Value.obj t) h = absurd (ground arith)

packed_first :
    {A : Type 0} {B : Type 0} (first : Packing A) (next : A → Packing B) {all : B}
    → (first >>= next) ≡ packs all
    → (part : A) × (first ≡ packs part) × (next part ≡ packs all)
packed_first (packs part) next done = (part, refl, done)
packed_first (raises reason) next done = absurd (ground arith)

pack_indexes_ok : (vs : List Value) {b : List ℕ} → pack_indexes vs ≡ packs b → All IsIndex vs
unfolding pack_indexes
pack_indexes_ok [] h = tt
pack_indexes_ok (v ∷ vs) h =
    let (b, packed, more) = packed_first (pack_value v) _ h in
    let (rest, packed_rest, done) = packed_first (pack_indexes vs) _ more in
    (pack_value_ok v packed, pack_indexes_ok vs packed_rest)

-- A list command that is built has 1 to 256 indexes, each an integer (or a bool) from 0 to 65,535.
build_get_list_guards :
    (vs : List Value) {s : List ℕ}
    → build_get_list vs ≡ packs s
    → (0 < length vs) × (length vs ≤ 256) × All IsIndex vs
unfolding build_get_list
build_get_list_guards vs h = elim (Bool-cases (length vs == 0)) [
  | inl none_given ↦ absurd (ground arith)
  | inr some_given ↦ elim (Bool-cases (ltb 256 (length vs))) [
    | inl too_many ↦ absurd (ground arith)
    | inr few ↦
        let (count, _, more) = packed_first (pack_u16 (length vs)) _ (rw (some_given, few) at h) in
        let (rest, packed, _) = packed_first (pack_indexes vs) _ more in
        (ground arith, ground arith, pack_indexes_ok vs packed)
  ]
]

read_set_frame :
    (i1 i0 f s1 s0 : ℕ) (l : List ℕ)
    → length l ≡ s1 * 256 + s0
    → read_frame (0x42 ∷ i1 ∷ i0 ∷ f ∷ s1 ∷ s0 ∷ l) ≡ some (set_variable (i1 * 256 + i0) (f == 1) l)
unfolding read_frame
read_set_frame i1 i0 f s1 s0 l h = ground arith

flag_read : (b : Bool) → (flag b == 1) ≡ b
flag_read true = refl
flag_read false = refl

flag-IsByte : (b : Bool) → IsByte (flag b)
flag-IsByte true = omega arith
flag-IsByte false = omega arith

-- For an index below 65,536 and a value of fewer than 65,536 bytes the set command is built, and
-- the runtime reads from it the same index, flag and value.
pub build_set_variable-read :
    (index : ℕ) (force : Bool) (value : List ℕ)
    → index < 65536
    → length value < 65536
    → All IsByte value
    → (s : List ℕ) × (build_set_variable (pos index) force value ≡ packs s)
      × (read_request s ≡ some (set_variable index force value))
unfolding build_set_variable
build_set_variable-read index force value a b h =
    let n = length value in
    let frame = 0x42 ∷ index / 256 ∷ index % 256 ∷ flag force ∷ n / 256 ∷ n % 256 ∷ value in
    let bytes : All IsByte frame = (
      omega arith,
      (omega arith, (omega arith, (flag-IsByte force, (omega arith, (omega arith, h))))),
    ) in
    let whole : index / 256 * 256 + index % 256 ≡ index = omega arith in
    let size : n / 256 * 256 + n % 256 ≡ n = omega arith in
    (
      bytes_to_hex frame,
      rw (lt→ltb index 65536 a, lt→ltb n 65536 b),
      rw (
        hex_to_bytes-bytes_to_hex frame bytes,
        read_set_frame (index / 256) (index % 256) (flag force) (n / 256) (n % 256) value
            (sym size),
        whole,
        flag_read force,
      ),
    )
