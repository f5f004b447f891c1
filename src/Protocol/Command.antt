-- ===== src/Protocol/Command.antt =====
-- The command builders of src/tools/debug_protocol.py, over `struct.pack` in big-endian order.
use orchestrator_agent.Prelude.{
  ℕ, ◌/◌, ◌%◌, Bool, true, false, none, some, List, [], ◌∷◌, ◌++◌, ltb, ◌==◌, if◌then◌else◌, length,
}
use orchestrator_agent.Prelude.Value.{ℤ, pos, negsuc, Value}
use orchestrator_agent.Chunking.{as_int}
use orchestrator_agent.Protocol.{
  bytes_to_hex, fc_debug_get_md5, fc_debug_info, fc_debug_get_list, fc_debug_set,
}

-- The exceptions that a builder raises.
pub data BuildError : Type 0 where
  value_error struct_error : BuildError

pub data Packing (A : Type 0) : Type 0 where
  packs : A → Packing A
  raises : BuildError → Packing A

-- What follows a packed value, for `do`; an exception ends the builder.
infixl 5 ◌>>=◌
abbrev pub ◌>>=◌ : {A : Type 0} {B : Type 0} → Packing A → (A → Packing B) → Packing B
(packs bytes) >>= next = next bytes
(raises reason) >>= next = raises reason

-- `struct.pack(">H", n)`: two bytes, the higher first.
unfoldable pub pack_u16 : ℕ → Packing (List ℕ)
pack_u16 n = if ltb n 65536 then packs (n / 256 ∷ n % 256 ∷ []) else raises struct_error

-- The same of any Python value: only integers (with them bools) pack.
unfoldable pub pack_value : Value → Packing (List ℕ)
unfolding pack_u16 as_int
pack_value v = elim (as_int v) [
  | none ↦ raises struct_error
  | some (negsuc n) ↦ raises struct_error
  | some (pos n) ↦ pack_u16 n
]

unfoldable pub build_get_md5 : List ℕ
unfolding bytes_to_hex
build_get_md5 = bytes_to_hex (fc_debug_get_md5 ∷ 0xde ∷ 0xad ∷ 0 ∷ 0 ∷ [])

unfoldable pub build_get_info : List ℕ
unfolding bytes_to_hex
build_get_info = bytes_to_hex (fc_debug_info ∷ [])

-- The loop `for idx in indexes: data += struct.pack(">H", idx)`.
unfoldable pub pack_indexes : List Value → Packing (List ℕ)
unfolding pack_value
pack_indexes [] = packs []
pack_indexes (v ∷ vs) = do b ← pack_value v; rest ← pack_indexes vs; packs (b ++ rest)

unfoldable pub build_get_list : List Value → Packing (List ℕ)
unfolding pack_indexes pack_u16 bytes_to_hex
build_get_list indexes =
    if length indexes == 0
    then raises value_error
    else if ltb 256 (length indexes)
    then raises value_error
    else (do
      count ← pack_u16 (length indexes)
      data' ← pack_indexes indexes
      packs (bytes_to_hex (fc_debug_get_list ∷ (count ++ data'))))

abbrev pub flag : Bool → ℕ
flag true = 1
flag false = 0

-- `struct.pack(">BHbH", …)` and the value's bytes. The index is an integer here, as its caller has
-- tested.
unfoldable pub build_set_variable : ℤ → Bool → List ℕ → Packing (List ℕ)
unfolding pack_u16 bytes_to_hex
build_set_variable (negsuc n) force value = raises struct_error
build_set_variable (pos index) force value = do
  i ← pack_u16 index
  size ← pack_u16 (length value)
  packs (bytes_to_hex (fc_debug_set ∷ (i ++ flag force ∷ (size ++ value))))
