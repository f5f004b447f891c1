-- ===== src/Prelude/Dict.antt =====
-- Python's `dict` with text keys: pairs in insertion order. Writing a present key keeps its place.
use Prim.Native.Nat.{◌+◌}
use Prim.Native.String.{String}
use mathlib.Core.Path.{◌≡◌, refl, subst}
use mathlib.Core.Logic.{inl, inr}
use mathlib.Core.Bool.{Bool, true, false, ◌||◌}
use mathlib.Core.Option.{Option, none, some}
use mathlib.Core.List.{List, [], ◌∷◌}
use native.Mathlib.Omega.{arith}
use text.Mathlib.Text.{◌==◌ as str_eq}
use text.Mathlib.TextEquality.{eq_iff}
use orchestrator_agent.Prelude.Tests.{if◌then◌else◌, Bool-cases}
use orchestrator_agent.Prelude.Lists.{length}

abbrev pub Dict {ℓ} : Type ℓ → Type ℓ
Dict V = List (String × V)

module _ {ℓ} {V : Type ℓ} where
  -- `d.get(k)`
  unfoldable pub lookup : String → Dict V → Option V
  lookup k [] = none
  lookup k ((j, v) ∷ m) = if str_eq j k then some v else lookup k m

  -- `d[k] = v`
  unfoldable pub insert : String → V → Dict V → Dict V
  insert k v [] = (k, v) ∷ []
  insert k v ((j, w) ∷ m) = if str_eq j k then (j, v) ∷ m else (j, w) ∷ insert k v m

  -- `del d[k]`, `d.pop(k, None)`
  unfoldable pub remove : String → Dict V → Dict V
  remove k [] = []
  remove k ((j, w) ∷ m) = let rest = remove k m in if str_eq j k then rest else (j, w) ∷ rest

  -- `k in d`
  unfoldable pub contains : String → Dict V → Bool
  contains k [] = false
  contains k ((j, v) ∷ m) = str_eq j k || contains k m

  -- `list(d)`
  unfoldable pub keys : Dict V → List String
  keys [] = []
  keys ((j, v) ∷ m) = j ∷ keys m

module _ {ℓ} {V : Type ℓ} where
  pub lookup-insert :
      (key asked : String) (new : V) (d : Dict V)
      → lookup asked (insert key new d) ≡ (if str_eq key asked then some new else lookup asked d)
  unfolding insert lookup
  lookup-insert key asked new [] = refl
  lookup-insert key asked new ((first, old) ∷ d) =
      ground (
        arith,
        lookup-insert key asked new d,
        eq_iff first key,
        eq_iff first asked,
        eq_iff key asked,
      )

  pub lookup-remove :
      (k j : String) (m : Dict V)
      → lookup j (remove k m) ≡ (if str_eq k j then none else lookup j m)
  unfolding lookup remove
  lookup-remove k j [] = ground arith
  lookup-remove k j ((i, w) ∷ m) =
      ground (arith, eq_iff k j, eq_iff i k, eq_iff i j, lookup-remove k j m)

pub ruleset dict_laws = (lookup-insert, lookup-remove)

-- A predicate on every value.
abbrev pub AllValues {ℓ κ} : {V : Type ℓ} → (V → Type κ) → Dict V → Type κ
AllValues P [] = Unit
AllValues P ((k, v) ∷ m) = P v × AllValues P m

-- No key stands twice, as in every `dict`.
abbrev pub IsDistinct {ℓ} : {V : Type ℓ} → Dict V → Type 0
IsDistinct [] = Unit
IsDistinct ((k, v) ∷ m) = (contains k m ≡ false) × IsDistinct m

module _ {ℓ κ} {V : Type ℓ} (P : V → Type κ) where
  pub AllValues-insert :
      (k : String) (v : V) (m : Dict V) → AllValues P m → P v → AllValues P (insert k v m)
  unfolding insert
  AllValues-insert k v [] h p = (p, tt)
  AllValues-insert k v ((j, w) ∷ m) h p =
      elim (str_eq j k) as (λ b. AllValues P (if b then (j, v) ∷ m else (j, w) ∷ insert k v m)) [
        | true ↦ (p, h.1)
        | false ↦ (h.0, AllValues-insert k v m h.1 p)
      ]

  pub AllValues-remove : (k : String) (m : Dict V) → AllValues P m → AllValues P (remove k m)
  unfolding remove
  AllValues-remove k [] h = tt
  AllValues-remove k ((j, w) ∷ m) h =
      elim (str_eq j k) as (λ b. AllValues P (if b then remove k m else (j, w) ∷ remove k m)) [
        | true ↦ AllValues-remove k m h.1
        | false ↦ (h.0, AllValues-remove k m h.1)
      ]

  pub AllValues-lookup :
      (k : String) (m : Dict V) {v : V} → AllValues P m → lookup k m ≡ some v → P v
  unfolding lookup
  AllValues-lookup k [] {v} h e = cc
  AllValues-lookup k ((j, w) ∷ m) {v} h e = elim (Bool-cases (str_eq j k)) [
    | inl same ↦ (let found : w ≡ v = ground arith in subst P found h.0)
    | inr different ↦ AllValues-lookup k m h.1 (rw different at e)
  ]

module _ {ℓ} {V : Type ℓ} where
  pub contains-lookup : (k : String) (m : Dict V) → contains k m ≡ false → lookup k m ≡ none
  unfolding contains lookup
  contains-lookup k [] h = refl
  contains-lookup k ((j, v) ∷ m) h = ground (arith, contains-lookup k m)

  pub lookup-contains : (k : String) (m : Dict V) → lookup k m ≡ none → contains k m ≡ false
  unfolding contains lookup
  lookup-contains k [] h = refl
  lookup-contains k ((j, v) ∷ m) h = ground (arith, lookup-contains k m)

  contains-insert :
      (k j : String) (v : V) (m : Dict V) → contains j (insert k v m) ≡ (str_eq k j || contains j m)
  unfolding contains insert
  contains-insert k j v [] = refl
  contains-insert k j v ((i, w) ∷ m) =
      ground (arith, eq_iff k j, eq_iff i k, eq_iff i j, contains-insert k j v m)

  contains-remove :
      (k j : String) (m : Dict V) → contains j m ≡ false → contains j (remove k m) ≡ false
  unfolding contains remove
  contains-remove k j [] h = refl
  contains-remove k j ((i, w) ∷ m) h = ground (arith, contains-remove k j m)

  pub insert-IsDistinct :
      (k : String) (v : V) (m : Dict V) → IsDistinct m → IsDistinct (insert k v m)
  unfolding insert contains
  insert-IsDistinct k v [] h = (refl, tt)
  insert-IsDistinct k v ((j, w) ∷ m) h = elim (Bool-cases (str_eq j k)) [
    | inl same ↦ rw same h
    | inr different ↦ rw different (
      ground (arith, contains-insert k j v m, eq_iff k j, eq_iff j k),
      insert-IsDistinct k v m h.1,
    )
  ]

  pub remove-IsDistinct : (k : String) (m : Dict V) → IsDistinct m → IsDistinct (remove k m)
  unfolding remove contains
  remove-IsDistinct k [] h = tt
  remove-IsDistinct k ((j, w) ∷ m) h = elim (Bool-cases (str_eq j k)) [
    | inl same ↦ rw same (remove-IsDistinct k m h.1)
    | inr different ↦ rw different (contains-remove k j m h.0, remove-IsDistinct k m h.1)
  ]

  length-insert_new :
      (k : String) (v : V) (m : Dict V) → lookup k m ≡ none → length (insert k v m) ≡ length m + 1
  unfolding lookup insert
  length-insert_new k v [] h = omega arith
  length-insert_new k v ((j, w) ∷ m) h = ground (arith, length-insert_new k v m)

module _ {ℓ} {V : Type ℓ} where
  pub insert-insert : (k : String) (v w : V) (m : Dict V) → insert k w (insert k v m) ≡ insert k w m
  unfolding insert
  insert-insert k v w [] = ground (arith, eq_iff k k)
  insert-insert k v w ((j, u) ∷ m) = ground (arith, insert-insert k v w m)

  pub remove-insert : (k : String) (v : V) (m : Dict V) → remove k (insert k v m) ≡ remove k m
  unfolding insert remove
  remove-insert k v [] = ground (arith, eq_iff k k)
  remove-insert k v ((j, u) ∷ m) = ground (arith, remove-insert k v m)

module _ {ℓ} {V : Type ℓ} where
  remove_absent : (k : String) (m : Dict V) → contains k m ≡ false → remove k m ≡ m
  unfolding contains remove
  remove_absent k [] h = refl
  remove_absent k ((j, v) ∷ m) h = ground (arith, remove_absent k m)

  pub length-remove :
      (k : String) (v : V) (m : Dict V)
      → IsDistinct m
      → lookup k m ≡ some v
      → length m ≡ length (remove k m) + 1
  unfolding lookup remove
  length-remove k v [] d h = absurd (ground arith)
  length-remove k v ((j, w) ∷ m) d h = elim (Bool-cases (str_eq j k)) [
    | inl same ↦
        let name : j ≡ k = (eq_iff j k).0 same in
        rw (same, remove_absent k m (ground (arith, d.0, name))) (omega arith)
    | inr different ↦ rw different (omega (arith, length-remove k v m d.1 (rw different at h)))
  ]

  pub length-insert_present :
      (k : String) (v w : V) (m : Dict V) → lookup k m ≡ some v → length (insert k w m) ≡ length m
  unfolding lookup insert
  length-insert_present k v w [] h = absurd (ground arith)
  length-insert_present k v w ((j, u) ∷ m) h = ground (arith, length-insert_present k v w m)
