-- ===== src/Networks/Masks.antt =====
-- Netmasks of src/tools/network_utils.py against prefix lengths.
use orchestrator_agent.Prelude.{
  ◌≡◌, refl, ℕ, zero, suc, ◌-◌, ◌^◌, ◌<◌, ◌≤◌, min, String, Bool, true, false, ◌&&◌, Option, none,
  some, arith, ◌==◌, Bool-cases, inl, inr,
}
use orchestrator_agent.Prelude.Texts.{append}
use orchestrator_agent.Prelude.Decimal.{decimal}
use orchestrator_agent.Networks.{netmask_to_cidr}

-- An octet with its `n` highest bits set.
abbrev high_bits : ℕ → ℕ
high_bits n = 256 - 2 ^ (8 - min n 8)

-- The netmask of a prefix length, as dotted decimals.
unfoldable pub mask_text : ℕ → String
unfolding decimal
mask_text p = append (decimal (high_bits p)) (
    append "." (
      append (decimal (high_bits (p - 8))) (
        append "."
          (append (decimal (high_bits (p - 16))) (append "." (decimal (high_bits (p - 24))))))))

unfoldable gives : Option ℕ → ℕ → Bool
gives none p = false
gives (some n) p = n == p

abbrev all_below : ℕ → (ℕ → Bool) → Bool
all_below zero test = true
all_below (suc n) test = test n && all_below n test

all_below-at : (n p : ℕ) (test : ℕ → Bool) → all_below n test ≡ true → p < n → test p ≡ true
all_below-at zero p test h less = absurd (omega arith)
all_below-at (suc n) p test h less = elim (Bool-cases (p == n)) [
  | inl same ↦ (let e : p ≡ n = ground arith in rw e (ground (arith, h)))
  | inr lower ↦ all_below-at n p test (ground (arith, h)) (ground arith)
]

checked : all_below 33 (λ p. gives (netmask_to_cidr (mask_text p)) p) ≡ true
unfolding netmask_to_cidr mask_text gives
checked = refl

gives-eq : (o : Option ℕ) (p : ℕ) → gives o p ≡ true → o ≡ some p
unfolding gives
gives-eq none p h = absurd (ground arith)
gives-eq (some n) p h = ground arith

-- The netmask of each prefix length up to 32 is read as that length.
pub netmask_to_cidr-mask_text : (p : ℕ) → p ≤ 32 → netmask_to_cidr (mask_text p) ≡ some p
netmask_to_cidr-mask_text p h =
    gives-eq (netmask_to_cidr (mask_text p)) p
      (all_below-at 33 p (λ q. gives (netmask_to_cidr (mask_text q)) q) checked (omega arith))
