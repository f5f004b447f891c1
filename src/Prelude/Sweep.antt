-- ===== src/Prelude/Sweep.antt =====
-- Sweeping a `dict`: collect the keys whose values pass a test, then delete each of them.
use orchestrator_agent.Prelude.{
  ◌∙◌, ◌≡◌, refl, String, Bool, false, ◌||◌, Option, none, some, List, [], ◌∷◌, arith, eq_iff,
  str_eq, if◌then◌else◌, Bool-cases, inl, inr,
}
use orchestrator_agent.Prelude.Dict.{
  Dict, lookup, remove, contains, IsDistinct, lookup-remove, remove-IsDistinct,
}

is_listed : String → List String → Bool
is_listed k [] = false
is_listed k (j ∷ ks) = str_eq j k || is_listed k ks

module _ {ℓ} {V : Type ℓ} where
  -- `[k for k, v in d.items() if test(v)]`
  unfoldable pub keys_where : (V → Bool) → Dict V → List String
  keys_where test [] = []
  keys_where test ((k, v) ∷ m) = let rest = keys_where test m in if test v then k ∷ rest else rest

  -- `for k in ks: del d[k]`
  unfoldable pub remove_all : List String → Dict V → Dict V
  remove_all [] m = m
  remove_all (k ∷ ks) m = remove_all ks (remove k m)

  abbrev pub reject : (V → Bool) → Option V → Option V
  reject test none = none
  reject test (some v) = if test v then none else some v

  lookup-remove_all :
      (k : String) (ks : List String) (m : Dict V)
      → lookup k (remove_all ks m) ≡ (if is_listed k ks then none else lookup k m)
  unfolding remove_all is_listed
  lookup-remove_all k [] m = refl
  lookup-remove_all k (j ∷ ks) m =
      ground (arith, lookup-remove_all k ks (remove j m), lookup-remove j k m)

  is_listed_absent :
      (test : V → Bool) (k : String) (m : Dict V)
      → contains k m ≡ false
      → is_listed k (keys_where test m) ≡ false
  unfolding is_listed keys_where contains
  is_listed_absent test k [] h = refl
  is_listed_absent test k ((j, v) ∷ m) h = ground (arith, is_listed_absent test k m)

  lookup-listed :
      (test : V → Bool) (k : String) (m : Dict V)
      → IsDistinct m
      → (if is_listed k (keys_where test m) then none else lookup k m) ≡ reject test (lookup k m)
  unfolding is_listed keys_where lookup
  lookup-listed test k [] h = refl
  lookup-listed test k ((j, v) ∷ m) h = elim (Bool-cases (str_eq j k)) [
    | inl same ↦
        let name : j ≡ k = (eq_iff j k).0 same in ground (arith, is_listed_absent test j m, name)
    | inr different ↦ ground (arith, lookup-listed test k m)
  ]

  -- Exactly the entries that pass the test are gone.
  pub lookup-sweep :
      (test : V → Bool) (k : String) (m : Dict V)
      → IsDistinct m
      → lookup k (remove_all (keys_where test m) m) ≡ reject test (lookup k m)
  lookup-sweep test k m h = lookup-remove_all k (keys_where test m) m ∙ lookup-listed test k m h

  remove_all-IsDistinct :
      (ks : List String) (m : Dict V) → IsDistinct m → IsDistinct (remove_all ks m)
  unfolding remove_all
  remove_all-IsDistinct [] m h = h
  remove_all-IsDistinct (k ∷ ks) m h =
      remove_all-IsDistinct ks (remove k m) (remove-IsDistinct k m h)
