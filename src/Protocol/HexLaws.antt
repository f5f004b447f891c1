-- ===== src/Protocol/HexLaws.antt =====
-- Laws of the hex codec of src/tools/debug_protocol.py.
use mathlib.Core.Path.{subst}
use orchestrator_agent.Prelude.{
  ℕ, ◌+◌, ◌*◌, ◌/◌, ◌%◌, ◌<◌, ◌≡◌, refl, false, Option, none, some, List, [], ◌∷◌, ap, All, arith,
  ◌==◌, inl, inr, Bool-cases,
}
use orchestrator_agent.Protocol.{
  IsByte, hex_digit, hex_value, is_space, bytes_to_hex, push_byte, from_hex, hex_to_bytes,
}

hex_value-digit : (d : ℕ) → d < 16 → hex_value (hex_digit d) ≡ some d
unfolding hex_value hex_digit
hex_value-digit d h = ground arith

hex_digit_blank : (d : ℕ) → d < 16 → (hex_digit d == b' ') ≡ false
unfolding hex_digit
hex_digit_blank d h = ground arith

hex_digit_space : (d : ℕ) → d < 16 → is_space (hex_digit d) ≡ false
unfolding hex_digit
hex_digit_space d h = ground arith

-- One encoded byte in front of a text decodes to the byte in front of the rest.
hex_to_bytes-cons :
    (b : ℕ) (s : List ℕ)
    → IsByte b
    → hex_to_bytes (hex_digit (b / 16) ∷ hex_digit (b % 16) ∷ s)
      ≡ push_byte (some (b / 16)) (some (b % 16)) (hex_to_bytes s)
unfolding hex_to_bytes
hex_to_bytes-cons b s h = rw (
  hex_digit_blank (b / 16) (omega arith),
  hex_digit_blank (b % 16) (omega arith),
  hex_digit_space (b / 16) (omega arith),
  hex_value-digit (b / 16) (omega arith),
  hex_value-digit (b % 16) (omega arith),
)

hex_to_bytes-blank : (s : List ℕ) → hex_to_bytes (b' ' ∷ s) ≡ hex_to_bytes s
unfolding hex_to_bytes
hex_to_bytes-blank s = refl

halves : (b : ℕ) → b / 16 * 16 + b % 16 ≡ b
halves b = omega arith

-- Every list of bytes comes back from its hex text.
pub hex_to_bytes-bytes_to_hex : (l : List ℕ) → All IsByte l → hex_to_bytes (bytes_to_hex l) ≡ some l
unfolding bytes_to_hex
hex_to_bytes-bytes_to_hex [] h = unfold hex_to_bytes in refl
hex_to_bytes-bytes_to_hex (b ∷ []) h =
    rw (hex_to_bytes-cons b [] h.0) (unfold hex_to_bytes in ap (λ n. some (n ∷ [])) (halves b))
hex_to_bytes-bytes_to_hex (b ∷ c ∷ l) h =
    rw (hex_to_bytes-cons b (b' ' ∷ bytes_to_hex (c ∷ l)) h.0, hex_to_bytes-blank)
      (unfold bytes_to_hex in rw (hex_to_bytes-bytes_to_hex (c ∷ l) h.1, halves b))

hex_value-lt : (c : ℕ) {d : ℕ} → hex_value c ≡ some d → d < 16
unfolding hex_value
hex_value-lt c h = ground arith

push_byte-IsByte :
    (c d : ℕ) (o : Option (List ℕ)) {l : List ℕ}
    → ((t : List ℕ) → o ≡ some t → All IsByte t)
    → push_byte (hex_value c) (hex_value d) o ≡ some l
    → All IsByte l
push_byte-IsByte c d o {l} rest h = go (hex_value c) (hex_value d) o refl refl refl h
  where
    go :
        (a b : Option ℕ) (q : Option (List ℕ))
        → hex_value c ≡ a
        → hex_value d ≡ b
        → o ≡ q
        → push_byte a b q ≡ some l
        → All IsByte l
    go (some hi) (some lo) (some t) x y z e =
        let whole : (hi * 16 + lo) ∷ t ≡ l = ground arith in
        subst (All IsByte) whole (omega (arith, hex_value-lt c x, hex_value-lt d y), rest t z)
    go (some hi) (some lo) none x y z e = absurd (ground arith)
    go (some hi) none q x y z e = absurd (ground arith)
    go none b q x y z e = absurd (ground arith)

from_hex-IsByte : (s : List ℕ) {l : List ℕ} → from_hex s ≡ some l → All IsByte l
unfolding from_hex
from_hex-IsByte [] {l} h = subst (All IsByte) (let e : [] ≡ l = ground arith in e) tt
from_hex-IsByte (c ∷ []) {l} h = elim (Bool-cases (is_space c)) [
  | inl space ↦ subst (All IsByte) (let e : [] ≡ l = ground arith in e) tt
  | inr digit ↦ absurd (ground arith)
]
from_hex-IsByte (c ∷ d ∷ s) {l} h = elim (Bool-cases (is_space c)) [
  | inl space ↦ from_hex-IsByte (d ∷ s) (rw space at h)
  | inr digit ↦ push_byte-IsByte c d (from_hex s) (λ t e. from_hex-IsByte s e) (rw digit at h)
]
