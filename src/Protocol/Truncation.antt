-- ===== src/Protocol/Truncation.antt =====
-- Short and damaged responses of src/tools/debug_protocol.py.
use mathlib.Core.Path.{subst}
use orchestrator_agent.Prelude.{
  All-take, ◌||◌, ℕ, suc, ◌+◌, ◌-◌, ◌^◌, ◌<◌, ◌≡◌, ◌≢◌, refl, sym, ap, ◌⊎◌, inl, inr, Option, none,
  some, List, [], ◌∷◌, arith, ltb, ◌==◌, length, All, take, drop, Bool-cases, le→ltb_false,
  length-take, length-drop, lt→ltb,
}
use orchestrator_agent.Protocol.{
  IsByte, fc_name, status_success, bytes_to_hex, hex_to_bytes, fc_debug_info, fc_debug_set,
  fc_debug_get, fc_debug_get_list, fc_debug_get_md5,
}
use orchestrator_agent.Protocol.HexLaws.{hex_to_bytes-bytes_to_hex}
use orchestrator_agent.Protocol.Response.{
  Response, unknown_code, bare, unpack, slice, parse_info, parse_set, parse_get_md5, parse_values,
  values_if_success, with_status, parse_get_list, parse_bytes, parse_response,
}
use orchestrator_agent.Protocol.ResponseLaws.{
  body, list_response, list_response-IsByte, list_branch, unpack-u16,
}

-- What a report of values promises: the bytes reported are as many as announced, the status is
-- SUCCESS, and nothing went wrong.
pub record Reports (r : Response) (shown : List ℕ) : Type 0 where
  pub values : List ℕ
  pub shows : shown ≡ bytes_to_hex values
  pub size : r.data_size ≡ some (length values)
  pub status_ok : r.status ≡ some status_success
  pub no_error : r.error ≡ none

parse_values-Reports :
    (l : List ℕ) (r : Response) (shown : List ℕ)
    → r.error ≡ none
    → r.variable_data_hex ≡ none
    → r.status ≡ some status_success
    → (parse_values (length l + 2) l r).variable_data_hex ≡ some shown
    → Reports (parse_values (length l + 2) l r) shown
unfolding parse_values
parse_values-Reports l r shown fine empty succeeded h =
    let size = unpack 0 (slice 6 2 l) in
    elim (Bool-cases (ltb (length l + 2) 10)) [
      | inl short ↦ absurd (ground arith)
      | inr long ↦ elim (Bool-cases (ltb (length l + 2) (10 + size))) [
        | inl cut ↦ absurd (ground arith)
        | inr whole ↦
            let len : length (take size (drop 8 l)) ≡ size =
              ground (arith, length-take size (drop 8 l), length-drop 8 l) in
            rw (long, whole)
              (record {
                values = take size (drop 8 l);
                shows = ground arith;
                size = ap some (sym len);
                status_ok = succeeded;
                no_error = fine;
              })
      ]
    ]

-- A response with a function code goes to one of four parsers, or is unknown.
parse_bytes_rule :
    (Q : Response → Type 0) (raw : List ℕ) (fc : ℕ) (l : List ℕ)
    → (let r = bare (some fc) (some (fc_name fc)) raw in
        Q (parse_info l r)
        → Q (parse_set l r)
        → Q (parse_get_md5 l r)
        → Q (parse_get_list l r)
        → Q (record r { error = some (unknown_code fc) })
        → Q (parse_bytes raw (some (fc ∷ l))))
unfolding parse_bytes
parse_bytes_rule Q raw fc l info sets md5 lists unknown = elim (Bool-cases (fc == fc_debug_info)) [
  | inl a ↦ rw a info
  | inr not_info ↦ elim (Bool-cases (fc == fc_debug_set)) [
    | inl a ↦ rw (not_info, a) sets
    | inr not_set ↦ elim (Bool-cases (fc == fc_debug_get_md5)) [
      | inl a ↦ rw (not_info, not_set, a) md5
      | inr not_md5 ↦ elim (Bool-cases (fc == fc_debug_get || fc == fc_debug_get_list)) [
        | inl a ↦ rw (not_info, not_set, not_md5, a) lists
        | inr not_list ↦ rw (not_info, not_set, not_md5, not_list) unknown
      ]
    ]
  ]
]

Silent : Response → Type 0
Silent r = r.variable_data_hex ≡ none

info-Silent : (l : List ℕ) (r : Response) → Silent r → Silent (parse_info l r)
unfolding parse_info Silent
info-Silent [] r h = h
info-Silent (hi ∷ []) r h = h
info-Silent (hi ∷ lo ∷ l) r h = h

set-Silent : (l : List ℕ) (r : Response) → Silent r → Silent (parse_set l r)
unfolding parse_set Silent
set-Silent [] r h = h
set-Silent (s ∷ l) r h = h

md5-Silent : (l : List ℕ) (r : Response) → Silent r → Silent (parse_get_md5 l r)
unfolding parse_get_md5 Silent
md5-Silent [] r h = h
md5-Silent (s ∷ []) r h = h
md5-Silent (s ∷ b ∷ l) r h = h

abbrev Sound : Response → Type 0
Sound r = (shown : List ℕ) → r.variable_data_hex ≡ some shown → Reports r shown

Silent-Sound : (r : Response) → Silent r → Sound r
unfolding Silent
Silent-Sound r h shown e = absurd (ground arith)

values-Sound :
    (s : ℕ) (l : List ℕ) (r : Response)
    → r.error ≡ none
    → r.variable_data_hex ≡ none
    → r.status ≡ some s
    → Sound (values_if_success s l r)
unfolding values_if_success
values-Sound s l r fine h has_status shown e = elim (Bool-cases (s == status_success)) [
  | inl ok ↦ rw ok (parse_values-Reports l r shown fine h (ground arith) (rw ok at e))
  | inr failed ↦ absurd (ground arith)
]

list-Sound : (l : List ℕ) (r : Response) → r.error ≡ none → Silent r → Sound (parse_get_list l r)
unfolding Silent parse_get_list
list-Sound [] r fine h shown e = absurd (ground arith)
list-Sound (s ∷ l) r fine h shown e =
    unfold with_status in values-Sound s l (with_status s r) fine h refl shown e

parse_bytes-Sound : (raw : List ℕ) (o : Option (List ℕ)) → Sound (parse_bytes raw o)
parse_bytes-Sound raw none = λ shown h. unfold parse_bytes in absurd (ground arith)
parse_bytes-Sound raw (some []) = λ shown h. unfold parse_bytes in absurd (ground arith)
parse_bytes-Sound raw (some (fc ∷ l)) =
    let r = bare (some fc) (some (fc_name fc)) raw in
    let quiet : Silent r = unfold Silent in refl in
    parse_bytes_rule Sound raw fc l (Silent-Sound (parse_info l r) (info-Silent l r quiet))
      (Silent-Sound (parse_set l r) (set-Silent l r quiet))
      (Silent-Sound (parse_get_md5 l r) (md5-Silent l r quiet)) (list-Sound l r refl quiet)
      (λ shown e. absurd (ground arith))

-- Whatever text comes in: if the parsed response reports values, then their hex text shows exactly as
-- many bytes as the response announces, the status is SUCCESS, and there is no error.
pub parse_response-Reports :
    (s shown : List ℕ)
    → (parse_response s).variable_data_hex ≡ some shown
    → Reports (parse_response s) shown
unfolding parse_response
parse_response-Reports s shown h = parse_bytes-Sound s (hex_to_bytes s) shown h

abbrev Fails : Response → Type 0
Fails r = (r.error ≢ none) × (r.variable_data_hex ≡ none)

cut_tail :
    (r : Response) (last_index tick : ℕ) (values : List ℕ) (i : ℕ)
    → i < length values
    → r.variable_data_hex ≡ none
    → Fails (
        parse_values
          (i + 10)
          (take (suc (suc (suc (suc (suc (suc (suc (suc i)))))))) (body last_index tick values))
          r)
unfolding parse_values
cut_tail r last_index tick values i h e =
    rw
      (
        le→ltb_false (i + 10) 10 (omega arith),
        unpack-u16 (length values),
        lt→ltb (i + 10) (10 + length values) (omega arith),
      )
      (λ p. cc, e)

cut_values :
    (r : Response) (last_index tick : ℕ) (values : List ℕ) (j : ℕ)
    → j < 8 + length values
    → r.variable_data_hex ≡ none
    → Fails (parse_values (j + 2) (take j (body last_index tick values)) r)
cut_values r last_index tick values j h e = elim (Bool-cases (ltb (j + 2) 10)) [
  | inl short ↦ unfold parse_values in rw short (λ p. cc, e)
  | inr long ↦
      let i = j - 8 in
      let eight : suc (suc (suc (suc (suc (suc (suc (suc i))))))) ≡ j = ground arith in
      let ten : i + 10 ≡ j + 2 = ground arith in
      subst (λ n. Fails (parse_values (j + 2) (take n (body last_index tick values)) r)) eight
        (rw (← ten) (cut_tail r last_index tick values i (ground arith) e))
]

-- A well-formed answer to DEBUG_GET or DEBUG_GET_LIST that is cut off anywhere behind its status is
-- reported as an error, with no values.
pub parse_truncated :
    (fc last_index tick : ℕ) (values : List ℕ) (j : ℕ)
    → (fc ≡ fc_debug_get) ⊎ (fc ≡ fc_debug_get_list)
    → last_index < 65536
    → tick < 2 ^ 32
    → length values < 65536
    → All IsByte values
    → suc (suc j) < length (list_response fc last_index tick values)
    → let r =
        parse_response
          (bytes_to_hex (take (suc (suc j)) (list_response fc last_index tick values))) in
      (r.error ≢ none) × (r.variable_data_hex ≡ none)
unfolding parse_response
parse_truncated fc last_index tick values j code a b c h cut =
    let l = take j (body last_index tick values) in
    let s = bytes_to_hex (fc ∷ 0x7e ∷ l) in
    let bytes =
      All-take IsByte (suc (suc j)) (list_response fc last_index tick values)
        (list_response-IsByte fc last_index tick values (ground arith) a b c h) in
    let len : length l + 2 ≡ j + 2 = omega (arith, length-take j (body last_index tick values)) in
    rw (hex_to_bytes-bytes_to_hex (fc ∷ 0x7e ∷ l) bytes, list_branch s fc 0x7e l code)
      (unfold parse_get_list in rw len (cut_values _ last_index tick values j (omega arith) refl))
