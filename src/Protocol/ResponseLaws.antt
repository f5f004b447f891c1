-- ===== src/Protocol/ResponseLaws.antt =====
-- The responses that the runtime writes, by the layout in
-- docs/features/openplc-debug-protocol/openplc-debug-protocol.md, and what the parsers make of them.
use orchestrator_agent.Prelude.{
  ℕ, ◌+◌, ◌/◌, ◌%◌, ◌^◌, ◌<◌, ◌≡◌, refl, ap, ◌⊎◌, some, List, [], ◌∙◌, ◌∷◌, ◌++◌, arith, length,
  All, take, le→ltb_false,
}
use orchestrator_agent.Protocol.{
  IsByte, status_name, fc_name, status_success, bytes_to_hex, fc_debug_get, fc_debug_get_list,
}
use orchestrator_agent.Protocol.HexLaws.{hex_to_bytes-bytes_to_hex}
use orchestrator_agent.Protocol.Response.{
  Response, bare, unpack, parse_values, parse_get_list, parse_bytes, parse_response,
}

abbrev u16 : ℕ → List ℕ
u16 n = n / 256 ∷ n % 256 ∷ []

abbrev u32 : ℕ → List ℕ
u32 n = n / 16777216 ∷ n / 65536 % 256 ∷ n / 256 % 256 ∷ n % 256 ∷ []

-- What follows the status of a successful answer.
abbrev pub body : ℕ → ℕ → List ℕ → List ℕ
body last_index tick values = u16 last_index ++ (u32 tick ++ (u16 (length values) ++ values))

-- A successful answer to DEBUG_GET or DEBUG_GET_LIST.
abbrev pub list_response : ℕ → ℕ → ℕ → List ℕ → List ℕ
list_response fc last_index tick values = fc ∷ 0x7e ∷ body last_index tick values

take_all : (l : List ℕ) → take (length l) l ≡ l
take_all [] = refl
take_all (x ∷ l) = ap (◌∷◌ x) (take_all l)

pub unpack-u16 : (n : ℕ) → unpack 0 (u16 n) ≡ n
unfolding unpack
unpack-u16 n = omega arith

unpack-u32 : (n : ℕ) → unpack 0 (u32 n) ≡ n
unfolding unpack
unpack-u32 n = omega arith

module _ (r : Response) (last_index tick : ℕ) (values : List ℕ) where
  parse_values-body : parse_values (length values + 10) (body last_index tick values) r ≡ record r {
    last_index = some last_index;
    tick = some tick;
    data_size = some (length values);
    variable_data_hex = some (bytes_to_hex values);
  }
  unfolding parse_values
  parse_values-body = rw (
    le→ltb_false (length values + 10) 10 (omega arith),
    unpack-u16 (length values),
    le→ltb_false (length values + 10) (10 + length values) (omega arith),
    unpack-u16 last_index,
    unpack-u32 tick,
    take_all values,
  )

pub list_response-IsByte :
    (fc last_index tick : ℕ) (values : List ℕ)
    → IsByte fc
    → last_index < 65536
    → tick < 2 ^ 32
    → length values < 65536
    → All IsByte values
    → All IsByte (list_response fc last_index tick values)
list_response-IsByte fc last_index tick values a b c d h = (
  a,
  (
    omega arith,
    (
      omega arith,
      (
        omega arith,
        (omega arith, (omega arith, (omega arith, (omega arith, (omega arith, (omega arith, h)))))),
      ),
    ),
  ),
)

pub list_branch :
    (raw : List ℕ) (fc s : ℕ) (l : List ℕ)
    → (fc ≡ fc_debug_get) ⊎ (fc ≡ fc_debug_get_list)
    → parse_bytes raw (some (fc ∷ s ∷ l))
      ≡ parse_get_list (s ∷ l) (bare (some fc) (some (fc_name fc)) raw)
unfolding parse_bytes
list_branch raw fc s l h = ground arith

-- A well-formed answer to DEBUG_GET or DEBUG_GET_LIST is parsed into the numbers and the bytes that
-- it was made from, with the status SUCCESS and no error.
pub parse_list_response :
    (fc last_index tick : ℕ) (values : List ℕ)
    → (fc ≡ fc_debug_get) ⊎ (fc ≡ fc_debug_get_list)
    → last_index < 65536
    → tick < 2 ^ 32
    → length values < 65536
    → All IsByte values
    → let s = bytes_to_hex (list_response fc last_index tick values) in
      parse_response s ≡ record (bare (some fc) (some (fc_name fc)) s) {
        status = some status_success;
        status_text = some (status_name status_success);
        last_index = some last_index;
        tick = some tick;
        data_size = some (length values);
        variable_data_hex = some (bytes_to_hex values);
      }
unfolding parse_response
parse_list_response fc last_index tick values code a b c h =
    let frame = list_response fc last_index tick values in
    let s = bytes_to_hex frame in
    let r = record (bare (some fc) (some (fc_name fc)) s) {
      status = some status_success;
      status_text = some (status_name status_success);
    } in
    let bytes = list_response-IsByte fc last_index tick values (ground arith) a b c h in
    let whole : length (body last_index tick values) + 2 ≡ length values + 10 = omega arith in
    rw (hex_to_bytes-bytes_to_hex frame bytes) (
      list_branch s fc 0x7e (body last_index tick values) code
      ∙ (unfold parse_get_list in rw whole (parse_values-body r last_index tick values)))
