-- ===== src/Protocol.antt =====
-- src/tools/debug_protocol.py: codes and the hex codec. The commands are in `Command`, the
-- responses in `Response`, the proofs in the other children. A byte is a number below 256, a text
-- the list of its code points.
pub mod Command
pub mod Response
pub mod HexLaws
pub mod CommandLaws
pub mod ResponseLaws
pub mod Truncation
use mathlib.Core.Option
use orchestrator_agent.Prelude.{
  ℕ, ◌+◌, ◌-◌, ◌*◌, ◌/◌, ◌%◌, ◌<◌, String, Bool, true, false, ◌&&◌, ◌||◌, not, Option, none, some,
  List, [], ◌∷◌, ◌++◌, ltb, leb, ◌==◌, if◌then◌else◌, select, All,
}

abbrev pub fc_debug_info : ℕ
fc_debug_info = 0x41

abbrev pub fc_debug_set : ℕ
fc_debug_set = 0x42

abbrev pub fc_debug_get : ℕ
fc_debug_get = 0x43

abbrev pub fc_debug_get_list : ℕ
fc_debug_get_list = 0x44

abbrev pub fc_debug_get_md5 : ℕ
fc_debug_get_md5 = 0x45

abbrev pub status_success : ℕ
status_success = 0x7e

abbrev status_out_of_bounds : ℕ
status_out_of_bounds = 0x81

abbrev status_out_of_memory : ℕ
status_out_of_memory = 0x82

-- `UNKNOWN(0x..)` keeps the code whose two hex digits it shows.
pub data StatusName : Type 0 where
  success error_out_of_bounds error_out_of_memory : StatusName
  unknown_status : ℕ → StatusName

pub data FcName : Type 0 where
  debug_info debug_set debug_get debug_get_list debug_get_md5 : FcName
  unknown_fc : ℕ → FcName

unfoldable pub status_name : ℕ → StatusName
status_name code =
    if code == status_success
    then success
    else if code == status_out_of_bounds
    then error_out_of_bounds
    else if code == status_out_of_memory
    then error_out_of_memory
    else unknown_status code

unfoldable pub fc_name : ℕ → FcName
fc_name code =
    if code == fc_debug_info
    then debug_info
    else if code == fc_debug_set
    then debug_set
    else if code == fc_debug_get
    then debug_get
    else if code == fc_debug_get_list
    then debug_get_list
    else if code == fc_debug_get_md5
    then debug_get_md5
    else unknown_fc code

abbrev pub IsByte : ℕ → Type 0
IsByte b = b < 256

-- One digit of the format `02X`.
unfoldable pub hex_digit : ℕ → ℕ
hex_digit d = if ltb d 10 then b'0' + d else b'A' + (d - 10)

unfoldable pub bytes_to_hex : List ℕ → List ℕ
unfolding hex_digit
bytes_to_hex [] = []
bytes_to_hex (b ∷ []) = hex_digit (b / 16) ∷ hex_digit (b % 16) ∷ []
bytes_to_hex (b ∷ c ∷ l) = hex_digit (b / 16) ∷ hex_digit (b % 16) ∷ b' ' ∷ bytes_to_hex (c ∷ l)

unfoldable pub hex_value : ℕ → Option ℕ
hex_value c =
    if leb b'0' c && leb c b'9'
    then some (c - b'0')
    else if leb b'A' c && leb c b'F'
    then some (c - b'A' + 10)
    else if leb b'a' c && leb c b'f'
    then some (c - b'a' + 10)
    else none

-- The ASCII white space that `bytes.fromhex` passes over between bytes.
abbrev pub is_space : ℕ → Bool
is_space c = c == 32 || (leb 9 c && leb c 13)

abbrev pub push_byte : Option ℕ → Option ℕ → Option (List ℕ) → Option (List ℕ)
push_byte (some hi) (some lo) (some l) = some ((hi * 16 + lo) ∷ l)
push_byte (some hi) (some lo) none = none
push_byte (some hi) none _ = none
push_byte none _ _ = none

-- `bytes.fromhex`; `none` is its ValueError.
unfoldable pub from_hex : List ℕ → Option (List ℕ)
unfolding hex_value
from_hex [] = some []
from_hex (c ∷ []) = if is_space c then some [] else none
from_hex (c ∷ d ∷ l) =
    let skipped = from_hex (d ∷ l) in
    let pushed = push_byte (hex_value c) (hex_value d) (from_hex l) in
    if is_space c then skipped else pushed

-- `s.replace(" ", "")`
abbrev without_blanks : List ℕ → List ℕ
without_blanks = select (λ c. not (c == b' '))

unfoldable pub hex_to_bytes : List ℕ → Option (List ℕ)
unfolding from_hex
hex_to_bytes s = from_hex (without_blanks s)
