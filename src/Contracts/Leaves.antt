-- ===== src/Contracts/Leaves.antt =====
-- What the basic types of src/tools/contract_validation.py describe, said without the code's tests.
use orchestrator_agent.Prelude.{
  ◌≡◌, refl, ap, ◌⊎◌, inl, inr, ℕ, ◌≤◌, String, Bool, true, false, List, [], ◌∷◌, ◌++◌, arith,
  length, All, Bool-cases,
}
use orchestrator_agent.Prelude.Value.{Value, null, bool, int, float, str, arr, obj}
use orchestrator_agent.Prelude.Texts.{codes, replace_code}
use orchestrator_agent.Contracts.{
  Basic, number_type, string_type, non_empty_string_type, interface_name_type, date_type,
  boolean_type, is_blank, has_ink, is_name_char, rest_of_name, is_interface_name, ends_in_z,
  with_offset, passes,
}

-- Alphanumeric, a dot, a dash or an underscore.
abbrev IsNameChar : ℕ → Type 0
IsNameChar c =
    ((b'a' ≤ c) × (c ≤ b'z'))
    ⊎ (((b'A' ≤ c) × (c ≤ b'Z'))
        ⊎ (((b'0' ≤ c) × (c ≤ b'9')) ⊎ ((c ≡ b'_') ⊎ ((c ≡ b'.') ⊎ (c ≡ b'-')))))

-- One character or more, at most 15, all of a name; a line feed may stand at the end, since `$` also
-- matches before it.
abbrev IsInterfaceName : List ℕ → Type 0
IsInterfaceName s =
    (c : ℕ) × (body : List ℕ) × (end : List ℕ) × (s ≡ c ∷ (body ++ end))
    × ((end ≡ []) ⊎ (end ≡ 10 ∷ []))
    × All IsNameChar (c ∷ body)
    × (length s ≤ 15)

-- A character that `str.strip` keeps.
abbrev HasInk : List ℕ → Type 0
HasInk s =
    (before : List ℕ) × (c : ℕ) × (after : List ℕ) × (s ≡ before ++ c ∷ after)
    × (is_blank c ≡ false)

abbrev EndsInZ : List ℕ → Type 0
EndsInZ s = (front : List ℕ) × (s ≡ front ++ b'Z' ∷ [])

-- A Boolean is an `int` of Python.
pub data Fits (fromisoformat : String → Bool) : Basic → Value → Type 0 where
  an_int : {n : _} → Fits fromisoformat number_type (int n)
  a_float : {t : _} → Fits fromisoformat number_type (float t)
  a_bool_as_int : {b : Bool} → Fits fromisoformat number_type (bool b)
  a_text : {s : String} → Fits fromisoformat string_type (str s)
  some_ink : {s : String} → HasInk (codes s) → Fits fromisoformat non_empty_string_type (str s)
  a_name : {s : String} → IsInterfaceName (codes s) → Fits fromisoformat interface_name_type (str s)
  a_date :
      {s : String}
      → ¬ EndsInZ (codes s)
      → fromisoformat s ≡ true
      → Fits fromisoformat date_type (str s)
  a_date_in_utc :
      {s : String}
      → EndsInZ (codes s)
      → fromisoformat (replace_code b'Z' "+00:00" s) ≡ true
      → Fits fromisoformat date_type (str s)
  a_bool : {b : Bool} → Fits fromisoformat boolean_type (bool b)

IsNameChar-sound : (c : ℕ) → is_name_char c ≡ true → IsNameChar c
IsNameChar-sound c h = grind arith

IsNameChar-complete : (c : ℕ) → IsNameChar c → is_name_char c ≡ true
IsNameChar-complete c h = grind arith

rest_sound :
    (s : List ℕ)
    → rest_of_name s ≡ true
    → (body : List ℕ) × (end : List ℕ) × (s ≡ body ++ end)
      × ((end ≡ []) ⊎ (end ≡ 10 ∷ []))
      × All IsNameChar body
unfolding rest_of_name
rest_sound [] h = ([], [], refl, inl refl, tt)
rest_sound (c ∷ []) h = elim (Bool-cases (is_name_char c)) [
  | inl named ↦ (c ∷ [], [], refl, inl refl, (IsNameChar-sound c named, tt))
  | inr other ↦ ([], c ∷ [], refl, inr (ap (λ n. n ∷ []) (grind (arith, other, h))), tt)
]
rest_sound (c ∷ d ∷ s) h =
    let (body, end, e, closed, all) = rest_sound (d ∷ s) (ground arith) in
    (c ∷ body, end, ap (λ t. c ∷ t) e, closed, (IsNameChar-sound c (ground arith), all))

rest_cons :
    (c : ℕ) (s : List ℕ)
    → is_name_char c ≡ true
    → rest_of_name s ≡ true
    → rest_of_name (c ∷ s) ≡ true
unfolding rest_of_name
rest_cons c [] named h = rw named refl
rest_cons c (d ∷ s) named h = rw (named, h) refl

rest_complete :
    (body end : List ℕ)
    → ((end ≡ []) ⊎ (end ≡ 10 ∷ []))
    → All IsNameChar body
    → rest_of_name (body ++ end) ≡ true
unfolding rest_of_name
rest_complete [] end (inl e) all = rw e refl
rest_complete [] end (inr e) all = rw e refl
rest_complete (c ∷ body) end closed all =
    rest_cons c (body ++ end) (IsNameChar-complete c all.0) (rest_complete body end closed all.1)

name_sound : (s : List ℕ) → is_interface_name s ≡ true → IsInterfaceName s
unfolding is_interface_name
name_sound [] h = absurd (ground arith)
name_sound (c ∷ s) h =
    let (body, end, e, closed, all) = rest_sound s (ground arith) in
    (
      c,
      body,
      end,
      ap (λ t. c ∷ t) e,
      closed,
      (IsNameChar-sound c (ground arith), all),
      ground arith,
    )

name_complete : (s : List ℕ) → IsInterfaceName s → is_interface_name s ≡ true
unfolding is_interface_name
name_complete s (c, body, end, e, closed, all, short) =
    let named = IsNameChar-complete c all.0 in
    let rest = rest_complete body end closed all.1 in
    let few : length (c ∷ (body ++ end)) ≤ 15 = rw e at short in
    rw (e, named, rest) (ground (arith, few))

ink_sound : (s : List ℕ) → has_ink s ≡ true → HasInk s
unfolding has_ink
ink_sound [] h = absurd (ground arith)
ink_sound (c ∷ s) h = elim (Bool-cases (is_blank c)) [
  | inr kept ↦ ([], c, s, refl, kept)
  | inl blank ↦
      let (front, d, after, e, kept) = ink_sound s (rw blank at h) in
      (c ∷ front, d, after, ap (λ t. c ∷ t) e, kept)
]

ink_in : (front after : List ℕ) (c : ℕ) → is_blank c ≡ false → has_ink (front ++ c ∷ after) ≡ true
unfolding has_ink
ink_in [] after c kept = rw kept refl
ink_in (d ∷ front) after c kept = ground (arith, ink_in front after c kept)

ink_complete : (s : List ℕ) → HasInk s → has_ink s ≡ true
ink_complete s (front, c, after, e, kept) = rw e (ink_in front after c kept)

z_sound : (s : List ℕ) → ends_in_z s ≡ true → EndsInZ s
unfolding ends_in_z
z_sound [] h = absurd (ground arith)
z_sound (c ∷ []) h = ([], ap (λ n. n ∷ []) (ground arith))
z_sound (c ∷ d ∷ s) h = let (front, e) = z_sound (d ∷ s) h in (c ∷ front, ap (λ t. c ∷ t) e)

z_cons : (c : ℕ) (s : List ℕ) → ends_in_z s ≡ true → ends_in_z (c ∷ s) ≡ true
unfolding ends_in_z
z_cons c [] h = absurd (ground arith)
z_cons c (d ∷ s) h = h

z_at_end : (front : List ℕ) → ends_in_z (front ++ b'Z' ∷ []) ≡ true
unfolding ends_in_z
z_at_end [] = refl
z_at_end (c ∷ front) = z_cons c (front ++ b'Z' ∷ []) (z_at_end front)

z_complete : (s : List ℕ) → EndsInZ s → ends_in_z s ≡ true
z_complete s (front, e) = rw e (z_at_end front)

module _ (iso : String → Bool) where
  pub passes_sound : (b : Basic) (v : Value) → passes iso b v ≡ true → Fits iso b v
  unfolding passes with_offset
  passes_sound number_type (int n) h = an_int
  passes_sound number_type (float t) h = a_float
  passes_sound number_type (bool b) h = a_bool_as_int
  passes_sound number_type null h = absurd (ground arith)
  passes_sound number_type (str s) h = absurd (ground arith)
  passes_sound number_type (arr vs) h = absurd (ground arith)
  passes_sound number_type (obj fs) h = absurd (ground arith)
  passes_sound string_type (str s) h = a_text
  passes_sound string_type _ h = absurd (ground arith)
  passes_sound non_empty_string_type (str s) h = some_ink (ink_sound (codes s) h)
  passes_sound non_empty_string_type _ h = absurd (ground arith)
  passes_sound interface_name_type (str s) h = a_name (name_sound (codes s) h)
  passes_sound interface_name_type _ h = absurd (ground arith)
  passes_sound date_type (str s) h = elim (Bool-cases (ends_in_z (codes s))) [
    | inl z ↦ a_date_in_utc (z_sound (codes s) z) (rw z at h)
    | inr other ↦
        a_date (λ e. absurd (ground (arith, z_complete (codes s) e, other))) (rw other at h)
  ]
  passes_sound date_type _ h = absurd (ground arith)
  passes_sound boolean_type (bool b) h = a_bool
  passes_sound boolean_type null h = absurd (ground arith)
  passes_sound boolean_type (int n) h = absurd (ground arith)
  passes_sound boolean_type (float t) h = absurd (ground arith)
  passes_sound boolean_type (str s) h = absurd (ground arith)
  passes_sound boolean_type (arr vs) h = absurd (ground arith)
  passes_sound boolean_type (obj fs) h = absurd (ground arith)

  pub passes_complete : {b : Basic} {v : Value} → Fits iso b v → passes iso b v ≡ true
  unfolding passes with_offset
  passes_complete an_int = refl
  passes_complete a_float = refl
  passes_complete a_bool_as_int = refl
  passes_complete a_text = refl
  passes_complete (some_ink {s} h) = ink_complete (codes s) h
  passes_complete (a_name {s} h) = name_complete (codes s) h
  passes_complete (a_date {s} other h) = elim (Bool-cases (ends_in_z (codes s))) [
    | inl z ↦ absurd (other (z_sound (codes s) z))
    | inr no_z ↦ rw no_z h
  ]
  passes_complete (a_date_in_utc {s} z h) = rw (z_complete (codes s) z) h
  passes_complete a_bool = refl
