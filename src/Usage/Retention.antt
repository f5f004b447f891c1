-- ===== src/Usage/Retention.antt =====
-- What the circular buffer holds, and for how long.
use mathlib.Core.List.{append-nil, append_assoc}
use orchestrator_agent.Prelude.{
  ℕ, zero, suc, ◌+◌, ◌-◌, ◌*◌, ◌≤◌, ◌<◌, ◌≡◌, sym, ap, ◌∙◌, some, List, [], ◌∷◌, ◌++◌, arith, ltb,
  length, drop, get_elem?, length-append, length-drop, drop-drop, drop-append, get_elem?-drop,
  Bool-cases, inl, inr, le→ltb_false,
}
use orchestrator_agent.Prelude.Value.{ℤ}
use orchestrator_agent.Usage.{
  Sample, BaseUsageBuffer, empty_buffer, max_samples, append_bounded, sample, add_sample,
}

-- The last `n` items.
abbrev pub last {ℓ} : {A : Type ℓ} → ℕ → List A → List A
last n l = drop (length l - n) l

module _ {ℓ} {A : Type ℓ} where
  length-last : (n : ℕ) (l : List A) → n ≤ length l → length (last n l) ≡ n
  length-last n l h = omega (arith, length-drop (length l - n) l)

  pub append_bounded-last :
      (n : ℕ) (l : List A) (x : A) → 0 < n → append_bounded n (last n l) x ≡ last n (l ++ x ∷ [])
  unfolding append_bounded
  append_bounded-last n l x h = elim (Bool-cases (ltb (length l) n)) [
    | inl room ↦
        let none_gone : length l - n ≡ 0 = ground arith in
        let none_goes : length (l ++ x ∷ []) - n ≡ 0 = ground (arith, length-append l (x ∷ [])) in
        rw (none_gone, room, none_goes)
    | inr full ↦
        let k = length l - n in
        let size : length (last n l) ≡ n = length-last n l (ground arith) in
        let more : length (l ++ x ∷ []) - n ≡ k + 1 = ground (arith, length-append l (x ∷ [])) in
        rw (le→ltb_false (length (last n l)) n (omega arith), more)
          (ap (drop 1) (sym (drop-append k l (x ∷ []) (omega arith))) ∙ drop-drop k 1 (l ++ x ∷ []))
  ]

module _ {F : Type 0} (truncate : F → ℤ) where
  -- The readings in the order in which they are taken, each with its time.
  unfoldable pub samples_of : List (ℕ × F × F) → List Sample
  samples_of [] = []
  samples_of ((now, cpu, memory) ∷ l) = sample truncate now cpu memory ∷ samples_of l

  unfoldable pub add_all : List (ℕ × F × F) → BaseUsageBuffer → BaseUsageBuffer
  add_all [] b = b
  add_all ((now, cpu, memory) ∷ l) b = add_all l (add_sample truncate now cpu memory b)

  add_all-from :
      (l : List (ℕ × F × F)) (before : List Sample)
      → (add_all l (record { buffer = last max_samples before })).buffer
        ≡ last max_samples (before ++ samples_of l)
  unfolding add_all samples_of add_sample
  add_all-from [] before = rw append-nil
  add_all-from ((now, cpu, memory) ∷ l) before =
      let x = sample truncate now cpu memory in
      ap (λ b. (add_all l (record { buffer = b })).buffer)
        (append_bounded-last max_samples before x (omega arith))
      ∙ (add_all-from l (before ++ x ∷ [])
          ∙ ap (last max_samples) (append_assoc before (x ∷ []) (samples_of l)))

  -- After any readings, added in order to an empty buffer, the buffer holds exactly the last 34,560
  -- of them, in order.
  pub add_all-last :
      (l : List (ℕ × F × F)) → (add_all l empty_buffer).buffer ≡ last max_samples (samples_of l)
  add_all-last l = add_all-from l []

-- Each sample is taken at least `gap` seconds after the one before.
abbrev IsSpaced : ℕ → List Sample → Type 0
IsSpaced gap [] = Unit
IsSpaced gap (s ∷ []) = Unit
IsSpaced gap (s ∷ t ∷ l) = (s.timestamp + gap ≤ t.timestamp) × IsSpaced gap (t ∷ l)

first_to :
    (gap k : ℕ) (s t : Sample) (l : List Sample)
    → IsSpaced gap (s ∷ l)
    → get_elem? (s ∷ l) k ≡ some t
    → s.timestamp + gap * k ≤ t.timestamp
first_to gap zero s t l h e = ground arith
first_to gap (suc k) s t [] h e = absurd (ground arith)
first_to gap (suc k) s t (u ∷ l) h e = grind (arith, first_to gap k u t l h.1 e)

spaced_apart :
    (gap i k : ℕ) (s t : Sample) (l : List Sample)
    → IsSpaced gap l
    → get_elem? l i ≡ some s
    → get_elem? l (i + k) ≡ some t
    → s.timestamp + gap * k ≤ t.timestamp
spaced_apart gap i k s t [] h e f = absurd (ground arith)
spaced_apart gap zero k s t (u ∷ l) h e f =
    let same : u ≡ s = ground arith in
    let here : 0 + k ≡ k = omega arith in rw (← same) (first_to gap k u t l h (rw here at f))
spaced_apart gap (suc i) k s t (u ∷ []) h e f = absurd (ground arith)
spaced_apart gap (suc i) k s t (u ∷ v ∷ l) h e f =
    let shift : suc i + k ≡ suc (i + k) = omega arith in
    spaced_apart gap i k s t (v ∷ l) h.1 e (rw shift at f)

-- Where readings are added at least 5 seconds apart, a reading less than 48 hours older than the
-- newest is still in the buffer.
recent_retained :
    {F : Type 0} (truncate : F → ℤ) (l : List (ℕ × F × F)) (i k : ℕ) (s newest : Sample)
    → IsSpaced 5 (samples_of truncate l)
    → get_elem? (samples_of truncate l) i ≡ some s
    → get_elem? (samples_of truncate l) (i + k) ≡ some newest
    → i + k + 1 ≡ length (samples_of truncate l)
    → newest.timestamp < s.timestamp + 48 * 3600
    → get_elem?
        (add_all truncate l empty_buffer).buffer
        (i - (length (samples_of truncate l) - max_samples))
      ≡ some s
recent_retained truncate l i k s newest spaced found last_one size recent =
    let history = samples_of truncate l in
    let far = spaced_apart 5 i k s newest history spaced found last_one in
    let index : length history - max_samples + (i - (length history - max_samples)) ≡ i =
      omega arith in
    rw
      (
        add_all-last truncate l,
        get_elem?-drop (length history - max_samples) (i - (length history - max_samples)) history,
        index,
      )
      found
