-- ===== src/Provision/CheckLaws.antt =====
-- What a valid request of src/use_cases/docker_manager/create_runtime_container.py promises.
use orchestrator_agent.Prelude.{
  ◌≡◌, ◌≢◌, refl, ◌⊎◌, inl, inr, ℕ, ◌+◌, String, true, false, Option, none, some, List, [], ◌∷◌,
  arith, eq_iff, str_eq, All, Bool-cases,
}
use orchestrator_agent.Prelude.Dict.{Dict, lookup, insert, lookup-insert}
use orchestrator_agent.Vnics.{VnicConfig}
use orchestrator_agent.Provision.{World}
use orchestrator_agent.Provision.Checks.{
  Check, valid, name_at, network_key, is_on_wifi, clash_with, key_clash, answer_or, check_networks,
  validate_vnic_configs,
}

-- A vNIC is on Wi-Fi, or its network's name is known and is not in the dict.
abbrev IsFresh : World → Dict String → VnicConfig → Type 0
IsFresh w seen v =
    (is_on_wifi w v ≡ true)
    ⊎ ((key : String) × (network_key w v ≡ some key) × (lookup key seen ≡ none))

-- No two of the vNICs that are not on Wi-Fi have one network.
abbrev pub Apart : World → List VnicConfig → Type 0
Apart w [] = Unit
Apart w (v ∷ vs) =
    ((is_on_wifi w v ≡ true)
      ⊎ ((key : String) × (network_key w v ≡ some key)
          × All (λ u. (is_on_wifi w u ≡ true) ⊎ (network_key w u ≢ some key)) vs))
    × Apart w vs

clash_with-valid :
    (vnic key : String) (o : Option String) (rest : Check)
    → answer_or (clash_with vnic key o) rest ≡ valid
    → (o ≡ none) × (rest ≡ valid)
unfolding clash_with answer_or
clash_with-valid vnic key none rest h = (refl, h)
clash_with-valid vnic key (some other) rest h = absurd (ground arith)

-- A vNIC that does not end the check has a key, and the key is new.
answer_or-valid :
    (vnic : String) (key : Option String) (seen : Dict String) (rest : Check)
    → answer_or (key_clash vnic key seen) rest ≡ valid
    → (k : String) × (key ≡ some k) × (lookup k seen ≡ none) × (rest ≡ valid)
unfolding key_clash answer_or
answer_or-valid vnic none seen rest h = absurd (ground arith)
answer_or-valid vnic (some k) seen rest h =
    let (new, valid_rest) = clash_with-valid vnic k (lookup k seen) rest h in
    (k, refl, new, valid_rest)

All-map :
    {P Q : VnicConfig → Type 0} (vs : List VnicConfig)
    → ((v : VnicConfig) → P v → Q v)
    → All P vs
    → All Q vs
All-map [] f h = tt
All-map (v ∷ vs) f h = (f v h.0, All-map vs f h.1)

insert-IsFresh :
    (w : World) (key vnic : String) (seen : Dict String) (u : VnicConfig)
    → lookup key seen ≡ none
    → IsFresh w (insert key vnic seen) u
    → IsFresh w seen u × ((is_on_wifi w u ≡ true) ⊎ (network_key w u ≢ some key))
insert-IsFresh w key vnic seen u new (inl wifi) = (inl wifi, inl wifi)
insert-IsFresh w key vnic seen u new (inr (k, named, absent)) =
    let apart : str_eq key k ≡ false =
      ground (arith, absent, lookup-insert key k vnic seen, eq_iff key k) in
    let free : lookup k seen ≡ none =
      ground (arith, absent, lookup-insert key k vnic seen, apart) in
    (inr (k, named, free), inr (λ same. ground (arith, apart, same, named, eq_iff key k)))

networks-Apart :
    (w : World) (idx : ℕ) (seen : Dict String) (vs : List VnicConfig)
    → check_networks w idx seen vs ≡ valid
    → All (IsFresh w seen) vs × Apart w vs
unfolding check_networks
networks-Apart w idx seen [] h = (tt, tt)
networks-Apart w idx seen (v ∷ vs) h = elim (Bool-cases (is_on_wifi w v)) [
  | inl wifi ↦
      let (fresh, apart) = networks-Apart w (idx + 1) seen vs (rw wifi at h) in
      ((inl wifi, fresh), (inl wifi, apart))
  | inr wired ↦
      let (key, named, new, rest) =
        answer_or-valid (name_at idx v.name) (network_key w v) seen _ (rw wired at h) in
      let tail : check_networks w (idx + 1) (insert key (name_at idx v.name) seen) vs ≡ valid =
        rw named at rest in
      let (fresh, apart) =
        networks-Apart w (idx + 1) (insert key (name_at idx v.name) seen) vs tail in
      let both = All-map vs (λ u f. insert-IsFresh w key (name_at idx v.name) seen u new f) fresh in
      (
        (inr (key, named, new), All-map vs (λ u f. f.0) both),
        (inr (key, named, All-map vs (λ u f. f.1) both), apart),
      )
]

-- When the check of the networks finds nothing wrong, every vNIC that is not on Wi-Fi has a network,
-- and no two of them have the same one.
pub validate_vnic_configs-Apart :
    (w : World) (vs : List VnicConfig) → validate_vnic_configs w vs ≡ valid → Apart w vs
unfolding validate_vnic_configs
validate_vnic_configs-Apart w vs h = (networks-Apart w 0 [] vs h).1
