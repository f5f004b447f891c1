-- ===== src/Protocol/Response.antt =====
-- The response parsers of src/tools/debug_protocol.py. A result dict is a record; a field that the
-- source leaves out of the dict is `none`.
use orchestrator_agent.Prelude.{
  ℕ, ◌+◌, ◌*◌, Option, none, some, List, [], ◌∷◌, ltb, ◌==◌, ◌||◌, if◌then◌else◌, length, take,
  drop, map,
}
use orchestrator_agent.Protocol.{
  StatusName, FcName, status_name, fc_name, status_success, bytes_to_hex, hex_to_bytes,
  fc_debug_info, fc_debug_set, fc_debug_get, fc_debug_get_list, fc_debug_get_md5,
}

-- The texts of `"error"`, with the numbers that they show.
pub data ParseError : Type 0 where
  malformed_hex empty_response short_info short_set short_md5 short_list short_success : ParseError
  truncated : ℕ → ℕ → ParseError
  unknown_code : ℕ → ParseError

pub record Response : Type 0 where
  pub function_code : Option ℕ
  pub function_name : Option FcName
  pub raw : List ℕ
  pub error : Option ParseError
  pub variable_count : Option ℕ
  pub status : Option ℕ
  pub status_text : Option StatusName
  pub md5 : Option (List ℕ)
  pub last_index : Option ℕ
  pub tick : Option ℕ
  pub data_size : Option ℕ
  pub variable_data_hex : Option (List ℕ)

abbrev pub bare : Option ℕ → Option FcName → List ℕ → Response
bare code name raw = record {
  function_code = code;
  function_name = name;
  raw = raw;
  error = none;
  variable_count = none;
  status = none;
  status_text = none;
  md5 = none;
  last_index = none;
  tick = none;
  data_size = none;
  variable_data_hex = none;
}

-- `struct.unpack` of a big-endian number: `>H` on two bytes, `>I` on four.
unfoldable pub unpack : ℕ → List ℕ → ℕ
unpack acc [] = acc
unpack acc (b ∷ l) = unpack (acc * 256 + b) l

-- `data[a:b]`
abbrev pub slice : ℕ → ℕ → List ℕ → List ℕ
slice a n l = take n (drop a l)

-- Each parser is given the bytes after the function code.
unfoldable pub parse_info : List ℕ → Response → Response
unfolding unpack
parse_info (hi ∷ lo ∷ _) r = record r { variable_count = some (unpack 0 (hi ∷ lo ∷ [])) }
parse_info _ r = record r { error = some short_info }

-- `{"status": status, "status_name": status_name(status)}`
unfoldable pub with_status : ℕ → Response → Response
with_status s r = record r { status = some s; status_text = some (status_name s) }

unfoldable pub parse_set : List ℕ → Response → Response
unfolding with_status
parse_set [] r = record r { error = some short_set }
parse_set (s ∷ _) r = with_status s r

-- `md5_bytes.split(b"\x00")[0].decode("ascii", errors="replace")`
unfoldable until_nul : List ℕ → List ℕ
until_nul [] = []
until_nul (b ∷ l) = if b == 0 then [] else b ∷ until_nul l

abbrev ascii : ℕ → ℕ
ascii b = if ltb b 128 then b else 0xfffd

unfoldable pub parse_get_md5 : List ℕ → Response → Response
unfolding with_status until_nul
parse_get_md5 [] r = record r { error = some short_md5 }
parse_get_md5 (s ∷ []) r = with_status s r
parse_get_md5 (s ∷ b ∷ l) r = record (with_status s r) {
  md5 = some (map ascii (until_nul (b ∷ l)));
}

-- The fields of a successful list response. `l` is the bytes after the status, `total` the length
-- of the whole response.
unfoldable pub parse_values : ℕ → List ℕ → Response → Response
unfolding unpack bytes_to_hex
parse_values total l r =
    if ltb total 10
    then record r { error = some short_success }
    else (let size = unpack 0 (slice 6 2 l) in
        if ltb total (10 + size)
        then record r { error = some (truncated (10 + size) total) }
        else record r {
          last_index = some (unpack 0 (slice 0 2 l));
          tick = some (unpack 0 (slice 2 4 l));
          data_size = some size;
          variable_data_hex = some (bytes_to_hex (slice 8 size l));
        })

unfoldable pub values_if_success : ℕ → List ℕ → Response → Response
unfolding parse_values
values_if_success s l r = if s == status_success then parse_values (length l + 2) l r else r

unfoldable pub parse_get_list : List ℕ → Response → Response
unfolding with_status values_if_success
parse_get_list [] r = record r { error = some short_list }
parse_get_list (s ∷ l) r = values_if_success s l (with_status s r)

unfoldable pub parse_bytes : List ℕ → Option (List ℕ) → Response
unfolding parse_info parse_set parse_get_md5 parse_get_list
parse_bytes raw none = record (bare none none raw) { error = some malformed_hex }
parse_bytes raw (some []) = record (bare none none raw) { error = some empty_response }
parse_bytes raw (some (fc ∷ l)) =
    let r = bare (some fc) (some (fc_name fc)) raw in
    if fc == fc_debug_info
    then parse_info l r
    else if fc == fc_debug_set
    then parse_set l r
    else if fc == fc_debug_get_md5
    then parse_get_md5 l r
    else if fc == fc_debug_get || fc == fc_debug_get_list
    then parse_get_list l r
    else record r { error = some (unknown_code fc) }

unfoldable pub parse_response : List ℕ → Response
unfolding parse_bytes hex_to_bytes
parse_response hex_string = parse_bytes hex_string (hex_to_bytes hex_string)
