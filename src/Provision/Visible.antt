-- ===== src/Provision/Visible.antt =====
-- What src/use_cases/docker_manager/get_device_status.py shows, and what it hides.
use orchestrator_agent.Prelude.{
  ◌≡◌, refl, ◌∙◌, ℕ, String, Bool, true, false, ◌&&◌, Option, none, some, List, [], ◌∷◌, any,
  str_eq, eq_iff, Bool-cases, inl, inr, either_branch, arith,
}
use orchestrator_agent.Prelude.Dict.{Dict, lookup, insert, lookup-insert}
use orchestrator_agent.Prelude.Texts.{append, codes, ends_with}
use orchestrator_agent.Contracts.{has_ink}
use orchestrator_agent.Operations.{Operation, get_state, set_error, failed}
use orchestrator_agent.Stores.{load_vnics}
use orchestrator_agent.Vnics.{VnicConfig}
use orchestrator_agent.Provision.{Agent, World, remove_raises}
use orchestrator_agent.Provision.Create.{Env, step_to}
use orchestrator_agent.Provision.Delete.{delete_sync, after_removal}
use orchestrator_agent.Provision.Status as Shown
use orchestrator_agent.Provision.Status.{
  Network, Attrs, Looked, there, not_found, look_raises, Docker, Reply, invalid_id, no_container,
  tracked, success, Lease, or_parent, by_parent, with_lease, docker_networks, wifi_key, wifi_ip,
  wifi_network, is_wifi_vnic, raises_at, wifi_networks, leases_by, networks_of, shown_as,
  with_networks, looked_at, with_state, get_device_status_data,
}

abbrev pub is_wifi_named : String → VnicConfig → Bool
is_wifi_named name v = is_wifi_vnic v && str_eq (wifi_key v) name

abbrev found_in : String → Option (Dict Network) → Option Network
found_in name none = none
found_in name (some m) = lookup name m

abbrev pub shown_network : String → Reply → Option Network
shown_network name (success f) = lookup name f.shown_networks
shown_network name invalid_id = none
shown_network name no_container = none
shown_network name (tracked op m) = none
shown_network name (Shown.failed m) = none

module _ (name : String) where
  insert_apart :
      (k : String) (n : Network) (m : Dict Network)
      → str_eq k name ≡ false
      → lookup name m ≡ none
      → lookup name (insert k n m) ≡ none
  insert_apart k n m apart h = lookup-insert k name n m ∙ rw apart h

  docker_networks_hidden :
      (by_network parents : Dict Lease) (ns shown : Dict Network)
      → ends_with name "_internal" ≡ true
      → lookup name shown ≡ none
      → lookup name (docker_networks by_network parents ns shown) ≡ none
  unfolding docker_networks
  docker_networks_hidden by_network parents [] shown hidden h = h
  docker_networks_hidden by_network parents ((k, n) ∷ ns) shown hidden h =
      let lease = or_parent (lookup k by_network) (by_parent k parents) in
      let later = docker_networks_hidden by_network parents ns in
      elim (Bool-cases (ends_with k "_internal")) [
        | inl internal ↦ rw internal (later shown hidden h)
        | inr visible ↦
            let apart : str_eq k name ≡ false = elim (Bool-cases (str_eq k name)) [
              | inr other ↦ other
              | inl same ↦
                  let one : k ≡ name = (eq_iff k name).0 same in
                  absurd (ground (arith, rw one at visible, hidden))
            ] in
            rw visible (
              later (insert k (with_lease lease n) shown) hidden
                (insert_apart k (with_lease lease n) shown apart h))
      ]

  wifi_networks_hidden :
      (d : Docker) (vs : List VnicConfig) (shown : Dict Network)
      → any (is_wifi_named name) vs ≡ false
      → lookup name shown ≡ none
      → found_in name (wifi_networks d vs shown) ≡ none
  unfolding wifi_networks
  wifi_networks_hidden d [] shown e h = h
  wifi_networks_hidden d (v ∷ vs) shown e h =
      let later : any (is_wifi_named name) vs ≡ false = ground (arith, e) in
      elim (Bool-cases (is_wifi_vnic v)) [
        | inr wired ↦ rw wired (wifi_networks_hidden d vs shown later h)
        | inl wifi ↦
            let apart : str_eq (wifi_key v) name ≡ false = ground (arith, e, wifi) in
            rw wifi (
              either_branch (λ o. found_in name o ≡ none) (raises_at d v) none _ refl
                (either_branch (λ o. found_in name o ≡ none) (str_eq (wifi_ip v) "")
                  (wifi_networks d vs shown)
                  (wifi_networks d vs (insert (wifi_key v) (wifi_network v) shown))
                  (wifi_networks_hidden d vs shown later h)
                  (wifi_networks_hidden d vs (insert (wifi_key v) (wifi_network v) shown) later
                    (insert_apart (wifi_key v) (wifi_network v) shown apart h))))
      ]

  networks_of_hidden :
      (d : Docker) (vs : List VnicConfig) (ns : Dict Network)
      → ends_with name "_internal" ≡ true
      → any (is_wifi_named name) vs ≡ false
      → found_in name (networks_of d vs ns) ≡ none
  unfolding networks_of lookup
  networks_of_hidden d vs ns hidden e =
      wifi_networks_hidden d vs _ e (docker_networks_hidden _ _ ns [] hidden refl)

  with_networks_hidden :
      (id : String) (d : Docker) (a : Agent) (attrs : Attrs) (o : Option (Dict Network))
      → found_in name o ≡ none
      → shown_network name (with_networks id d a attrs o) ≡ none
  unfolding shown_as
  with_networks_hidden id d a attrs none h = refl
  with_networks_hidden id d a attrs (some m) h = h

  looked_at_hidden :
      (id : String) (d : Docker) (a : Agent) (l : Looked)
      → ends_with name "_internal" ≡ true
      → any (is_wifi_named name) (load_vnics id a.vnic_file) ≡ false
      → shown_network name (looked_at id d a l) ≡ none
  looked_at_hidden id d a not_found hidden e = refl
  looked_at_hidden id d a (look_raises m) hidden e = refl
  looked_at_hidden id d a (there attrs) hidden e =
      let vnics = load_vnics id a.vnic_file in
      with_networks_hidden id d a attrs (networks_of d vnics attrs.networks)
        (networks_of_hidden d vnics attrs.networks hidden e)

  with_state_hidden :
      (id : String) (d : Docker) (a : Agent) (o : Option Operation)
      → ends_with name "_internal" ≡ true
      → any (is_wifi_named name) (load_vnics id a.vnic_file) ≡ false
      → shown_network name (with_state id d a o) ≡ none
  with_state_hidden id d a (some op) hidden e = refl
  with_state_hidden id d a none hidden e = looked_at_hidden id d a (d.look id) hidden e

-- The status of a device never shows a network whose name ends in "_internal", whatever Docker says of
-- the container, unless the name is that of one of its WiFi vNICs.
pub get_device_status_data_hidden :
    (name id : String) (d : Docker) (a : Agent)
    → ends_with name "_internal" ≡ true
    → any (is_wifi_named name) (load_vnics id a.vnic_file) ≡ false
    → shown_network name (get_device_status_data d a id) ≡ none
unfolding get_device_status_data
get_device_status_data_hidden name id d a hidden e =
    either_branch (λ r. shown_network name r ≡ none) (has_ink (codes id))
      (with_state id d a (get_state id a.operations)) invalid_id
      (with_state_hidden name id d a (get_state id a.operations) hidden e) refl

abbrev pub shown_message : Reply → Option String
shown_message (tracked op m) = m
shown_message invalid_id = none
shown_message no_container = none
shown_message (success f) = none
shown_message (Shown.failed m) = none

error_shown :
    (d : Docker) (a : Agent) (id message : String) (now : ℕ) (kind : Option String)
    (o : Option Operation)
    → str_eq message "" ≡ false
    → shown_message (with_state id d a (some (failed now message kind o)))
      ≡ some (append "Operation failed: " message)
error_shown d a id message now kind none full = rw full refl
error_shown d a id message now kind (some op) full = rw full refl

-- A deletion whose removal of the container raises an exception is shown by the status of the device,
-- with the text of the exception, where that text is not empty.
pub get_device_status_data-delete_sync :
    (w : World) (e : Env) (d : Docker) (id message : String) (a : Agent)
    → has_ink (codes id) ≡ true
    → w.stop_and_remove id ≡ remove_raises message
    → str_eq message "" ≡ false
    → shown_message (get_device_status_data d (delete_sync w e id a).1 id)
      ≡ some (append "Operation failed: " message)
unfolding get_device_status_data get_state delete_sync after_removal set_error step_to
get_device_status_data-delete_sync w e d id message a ink bad full =
    let begun = (step_to e id "stopping_container" a).operations.operations in
    let error = failed e.now message (some "delete") (lookup id begun) in
    let there : lookup id (insert id error begun) ≡ some error =
      lookup-insert id id error begun ∙ rw ((eq_iff id id).1 refl) refl in
    rw (ink, bad, there)
      (error_shown d (delete_sync w e id a).1 id message e.now (some "delete") (lookup id begun)
        full)
