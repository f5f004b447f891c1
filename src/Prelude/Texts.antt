-- ===== src/Prelude/Texts.antt =====
-- What the source asks of texts: `in`, `split`, `lower`, and the truth value of a text that may be
-- missing. `lower` is that of ASCII letters.
use Prim.Native.Char.{code}
use Prim.Native.String.{◌∷◌ as char_then, [] as no_text, slice, ◌++◌ as join_text}
use text.Mathlib.Text.{find?, starts_with as starts}
use orchestrator_agent.Prelude.{
  ℕ, ◌+◌, String, Bool, true, false, not, ◌&&◌, ◌||◌, Option, none, some, List, [], ◌∷◌, str_eq,
  leb, ◌==◌, if◌then◌else◌,
}

-- `if s:`
abbrev pub truthy : Option String → Bool
truthy none = false
truthy (some s) = not (str_eq s "")

-- What an f-string shows of a text that may be None.
abbrev pub shown : Option String → String
shown none = "None"
shown (some s) = s

abbrev pub append : String → String → String
append s t = join_text s t

-- `s.startswith(t)`
abbrev pub starts_with : String → String → Bool
starts_with s t = starts s t

-- `t in s`
abbrev pub has_text : String → String → Bool
has_text s t = elim (find? s t) [ none ↦ false | some i ↦ true ]

-- `s.split(t)[0]`
abbrev pub before : String → String → String
before s t = elim (find? s t) [ none ↦ s | some i ↦ slice s 0 i ]

-- The code points of a text.
abbrev pub codes : String → List ℕ
codes no_text = []
codes (char_then c s) = code c ∷ codes s

lower_code : ℕ → ℕ
lower_code c = if leb b'A' c && leb c b'Z' then c + 32 else c

lower_codes : String → List ℕ
unfolding lower_code
lower_codes no_text = []
lower_codes (char_then c s) = lower_code (code c) ∷ lower_codes s

same_codes : List ℕ → List ℕ → Bool
same_codes [] [] = true
same_codes (a ∷ s) (b ∷ t) = (a == b) && same_codes s t
same_codes _ _ = false

-- `s.lower() == t.lower()`
unfoldable pub same_lower : String → String → Bool
unfolding lower_codes same_codes
same_lower s t = same_codes (lower_codes s) (lower_codes t)

unfoldable ends_in : List ℕ → List ℕ → Bool
unfolding same_codes
ends_in [] t = same_codes [] t
ends_in (c ∷ s) t = same_codes (c ∷ s) t || ends_in s t

-- `s.endswith(t)`
unfoldable pub ends_with : String → String → Bool
unfolding ends_in
ends_with s t = ends_in (codes s) (codes t)

-- `s.replace(c, t)` for one character.
unfoldable pub replace_code : ℕ → String → String → String
replace_code c t no_text = ""
replace_code c t (char_then d s) =
    let rest = replace_code c t s in if code d == c then append t rest else char_then d rest

abbrev pub within : ℕ → ℕ → ℕ → Bool
within low high c = leb low c && leb c high

abbrev pub is_digit : ℕ → Bool
is_digit c = within b'0' b'9' c
