-- ===== src/Chunking/Slots.antt =====
-- The slots of one transfer: how many are filled, and what joining them gives.
use mathlib.Core.Option
use native.Mathlib.Nat.{add-zero}
use orchestrator_agent.Prelude.{
  ℕ, zero, suc, ◌+◌, ◌*◌, ◌≤◌, ◌<◌, ◌≡◌, refl, sym, ap, ◌∙◌, none, some, List, [], ◌∷◌, ◌++◌, map,
  arith, if◌then◌else◌, length, get_elem?, set, take, drop, replicate, All, take-append-drop,
  drop_all, drop-drop,
}
use orchestrator_agent.Chunking.{Text, Slot, empty, text, other, join, is_empty}

abbrev pub filled : List Slot → ℕ
filled [] = 0
filled (empty ∷ l) = filled l
filled (_ ∷ l) = suc (filled l)

abbrev pub IsTextual : Slot → Type 0
IsTextual other = ⊥
IsTextual _ = Unit

abbrev pub flatten : List Text → Text
flatten [] = []
flatten (s ∷ ss) = s ++ flatten ss

pub filled-le : (l : List Slot) → filled l ≤ length l
filled-le [] = omega arith
filled-le (empty ∷ l) = omega (arith, filled-le l)
filled-le (text s ∷ l) = omega (arith, filled-le l)
filled-le (other ∷ l) = omega (arith, filled-le l)

pub filled-replicate : (n : ℕ) → filled (replicate n empty) ≡ 0
filled-replicate zero = refl
filled-replicate (suc n) = filled-replicate n

pub All-replicate : (n : ℕ) → All IsTextual (replicate n empty)
All-replicate zero = tt
All-replicate (suc n) = (tt, All-replicate n)

-- A text written into a slot raises the count exactly where the slot was empty.
pub filled-set :
    (l : List Slot) (i : ℕ) (s : Text)
    → i < length l
    → filled (set l i (text s)) ≡ (if is_empty (get_elem? l i) then filled l + 1 else filled l)
filled-set [] i s h = absurd (omega arith)
filled-set (empty ∷ l) zero s h = omega arith
filled-set (text _ ∷ l) zero s h = refl
filled-set (other ∷ l) zero s h = refl
filled-set (empty ∷ l) (suc i) s h = filled-set l i s (omega arith)
filled-set (text _ ∷ l) (suc i) s h = ground (arith, filled-set l i s)
filled-set (other ∷ l) (suc i) s h = ground (arith, filled-set l i s)

pub All-set :
    (l : List Slot) (i : ℕ) (s : Text) → All IsTextual l → All IsTextual (set l i (text s))
All-set [] i s h = tt
All-set (x ∷ l) zero s h = (tt, h.1)
All-set (x ∷ l) (suc i) s h = (h.0, All-set l i s h.1)

-- Slots that all hold texts join.
pub join_full :
    (l : List Slot) → All IsTextual l → filled l ≡ length l → (s : Text) × (join l ≡ some s)
unfolding join
join_full [] h e = ([], refl)
join_full (empty ∷ l) h e = absurd (omega (arith, filled-le l))
join_full (text s ∷ l) h e =
    let (rest, eq) = join_full l h.1 (omega arith) in (s ++ rest, ap (Option.map (λ r. s ++ r)) eq)
join_full (other ∷ l) h e = absurd h.0

-- An empty slot keeps the others from being joined.
pub join_short : (l : List Slot) → filled l < length l → join l ≡ none
unfolding join
join_short [] h = absurd (omega arith)
join_short (empty ∷ l) h = refl
join_short (text s ∷ l) h = ap (Option.map (λ r. s ++ r)) (join_short l (omega arith))
join_short (other ∷ l) h = refl

pub join-map : (ss : List Text) → join (map text ss) ≡ some (flatten ss)
unfolding join
join-map [] = refl
join-map (s ∷ ss) = ap (Option.map (λ r. s ++ r)) (join-map ss)

module _ {ℓ} {A : Type ℓ} where
  set-append :
      (xs : List A) (y v : A) (ys : List A) → set (xs ++ y ∷ ys) (length xs) v ≡ xs ++ v ∷ ys
  set-append [] y v ys = refl
  set-append (x ∷ xs) y v ys = ap (◌∷◌ x) (set-append xs y v ys)

  get_elem?-append :
      (xs : List A) (y : A) (ys : List A) → get_elem? (xs ++ y ∷ ys) (length xs) ≡ some y
  get_elem?-append [] y ys = refl
  get_elem?-append (x ∷ xs) y ys = get_elem?-append xs y ys

-- The slices of `size` code points from the `seq`-th on.
abbrev pub slices : ℕ → Text → ℕ → ℕ → List Text
slices size message seq zero = []
slices size message seq (suc n) =
    take size (drop (seq * size) message) ∷ slices size message (suc seq) n

-- Enough slices put together give the text back.
pub flatten-slices :
    (size : ℕ) (message : Text) (seq n : ℕ)
    → length message ≤ (seq + n) * size
    → flatten (slices size message seq n) ≡ drop (seq * size) message
flatten-slices size message seq zero h = sym (drop_all (seq * size) message (rw (← add-zero seq) h))
flatten-slices size message seq (suc n) h =
    let e : seq * size + size ≡ suc seq * size = grind arith in
    let rest = drop (seq * size) message in
    ap (λ t. take size rest ++ t)
      (flatten-slices size message (suc seq) n (grind arith)
        ∙ (ap (λ k. drop k message) (sym e) ∙ sym (drop-drop (seq * size) size message)))
    ∙ take-append-drop size rest

length-slices : (size : ℕ) (message : Text) (seq n : ℕ) → length (slices size message seq n) ≡ n
length-slices size message seq zero = refl
length-slices size message seq (suc n) = ap suc (length-slices size message (suc seq) n)
