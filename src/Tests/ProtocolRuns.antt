-- ===== src/Tests/ProtocolRuns.antt =====
-- src/tools/debug_protocol.py on small inputs.
use orchestrator_agent.Prelude.{ℕ, ◌≡◌, refl, inr, some, List, [], ◌∷◌, map, arith}
use orchestrator_agent.Protocol.{bytes_to_hex, fc_name, status_name, status_success}
use orchestrator_agent.Protocol.Command.{build_get_list, build_get_md5, packs}
use orchestrator_agent.Protocol.CommandLaws.{read_request, get_list, of_ℕ, build_get_list-read}
use orchestrator_agent.Protocol.Response.{bare, parse_response}
use orchestrator_agent.Protocol.ResponseLaws.{list_response, parse_list_response}
use orchestrator_agent.Protocol.Truncation.{Reports, parse_response-Reports}

-- "45 DE AD 00 00", the frame of the docstring.
md5_frame :
    build_get_md5
    ≡ b'4' ∷ b'5' ∷ b' ' ∷ b'D' ∷ b'E' ∷ b' ' ∷ b'A' ∷ b'D' ∷ b' ' ∷ b'0' ∷ b'0' ∷ b' ' ∷ b'0'
      ∷ b'0' ∷ []
unfolding build_get_md5
md5_frame = refl

build_get_list-read_example :
    (s : List ℕ) × (build_get_list (map of_ℕ (3 ∷ 700 ∷ [])) ≡ packs s)
    × (read_request s ≡ some (get_list (3 ∷ 700 ∷ [])))
build_get_list-read_example =
    build_get_list-read (3 ∷ 700 ∷ []) (omega arith) (omega arith) (omega arith)

abbrev list_hex : List ℕ
list_hex = bytes_to_hex (0x44 ∷ 0 ∷ 1 ∷ 0 ∷ 3 ∷ [])

list_built : build_get_list (map of_ℕ (3 ∷ [])) ≡ packs list_hex
unfolding build_get_list
list_built = refl

parse_list_response_example :
    let s = bytes_to_hex (list_response 0x44 1 77 (9 ∷ [])) in
    parse_response s ≡ record (bare (some 0x44) (some (fc_name 0x44)) s) {
      status = some status_success;
      status_text = some (status_name status_success);
      last_index = some 1;
      tick = some 77;
      data_size = some 1;
      variable_data_hex = some (bytes_to_hex (9 ∷ []));
    }
parse_list_response_example =
    parse_list_response 0x44 1 77 (9 ∷ []) (inr refl) (omega arith) (omega arith) (omega arith)
      (omega arith)

values_shown :
    (parse_response (bytes_to_hex (list_response 0x44 1 77 (9 ∷ [])))).variable_data_hex
    ≡ some (bytes_to_hex (9 ∷ []))
unfolding parse_response
values_shown = refl

parse_response-Reports_example :
    Reports
      (parse_response (bytes_to_hex (list_response 0x44 1 77 (9 ∷ []))))
      (bytes_to_hex (9 ∷ []))
parse_response-Reports_example =
    parse_response-Reports (bytes_to_hex (list_response 0x44 1 77 (9 ∷ []))) (bytes_to_hex (9 ∷ []))
      values_shown
