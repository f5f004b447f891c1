-- ===== src/SelfDestruct/Order.antt =====
-- When src/use_cases/docker_manager/selfdestruct.py comes to the agent's own container.
use orchestrator_agent.Prelude.{
  ◌≡◌, refl, sym, ap, ◌∙◌, String, Bool, true, false, Option, none, some, List, [], ◌∷◌, any, All,
}
use orchestrator_agent.Prelude.Dict.{Dict, keys}
use orchestrator_agent.SerialPorts.{read_json_file}
use orchestrator_agent.Stores.{DedicatedNicConfig}
use orchestrator_agent.Provision.{Agent}
use orchestrator_agent.Provision.Create.{Env}
use orchestrator_agent.SelfDestruct.{
  Reply, ok, not_found, raises, Handle, World, asked_get, stop_and_remove_container,
}
use orchestrator_agent.SelfDestruct.Cleanup.{
  Ran, after, then_do, return_each, load_all_configs, return_all_dedicated_nics, forgotten,
  removed_container, delete_runtime_container_for_selfdestruct, unregistered, delete_each,
  delete_all_runtime_containers, cleanup_orchestrator_networks,
}
use orchestrator_agent.SelfDestruct.Run.{
  netmon_container_name, at_step, named, cleanup_proxy_arp_veths, caught,
  delete_orchestrator_container, in_order, cleanup_steps, all_steps, self_destruct,
}
use orchestrator_agent.SelfDestruct.Quiet.{
  is_own, then_do_own, one_deleted, in_order-Quiet, cleanup_steps-Quiet,
}

abbrev settled : Reply → Bool → Bool
settled ok next = next
settled (not_found m) next = true
settled (raises m) next = false

-- A container that has been removed, or that was seen not to be there.
abbrev pub is_gone : Handle → Bool
is_gone h = settled h.get (settled h.stop (settled h.remove true))

gone_asked :
    (name : String) (get stop remove' : Reply)
    → (asked_get name get stop remove').1 ≡ none
    → settled get (settled stop (settled remove' true)) ≡ true
gone_asked name ok ok ok h = refl
gone_asked name ok ok (not_found m) h = refl
gone_asked name ok ok (raises m) h = absurd cc
gone_asked name ok (not_found m) r h = refl
gone_asked name ok (raises m) r h = absurd cc
gone_asked name (not_found m) s r h = refl
gone_asked name (raises m) s r h = absurd cc

after-none :
    (x : Option String) (one two : Ran)
    → x ≡ one.exception
    → (after x one two).exception ≡ none
    → (one.exception ≡ none) × (two.exception ≡ none)
after-none (some m) one two e h = absurd cc
after-none none one two e h = (sym e, h)

module _ (first second : Agent → Ran) where
  -- Where both went well, and what the second started from.
  then_do-none :
      (a : Agent)
      → (then_do first second a).exception ≡ none
      → ((first a).exception ≡ none) × ((second (first a).agent).exception ≡ none)
  unfolding then_do
  then_do-none a h = after-none (first a).exception (first a) (second (first a).agent) refl h

module _ (w : World) (e : Env) where
  removed_container-is_gone :
      (name : String) (a : Agent)
      → (removed_container w name a).exception ≡ none
      → is_gone (w.containers name) ≡ true
  unfolding removed_container stop_and_remove_container
  removed_container-is_gone name a h = gone_asked name _ _ _ h

  one_deleted-is_gone :
      (name : String) (a : Agent)
      → (one_deleted w e name a).exception ≡ none
      → is_gone (w.containers name) ≡ true
  unfolding delete_runtime_container_for_selfdestruct
  one_deleted-is_gone name a h =
      let deleted = then_do (removed_container w name) (forgotten w e name) in
      let here = (then_do-none deleted (unregistered w e name) a h).0 in
      removed_container-is_gone name a
        (then_do-none (removed_container w name) (forgotten w e name) a here).0

  delete_each-is_gone :
      (names : List String) (a : Agent)
      → (delete_each w e names a).exception ≡ none
      → All (λ name. is_gone (w.containers name) ≡ true) names
  unfolding delete_each
  delete_each-is_gone [] a h = tt
  delete_each-is_gone (name ∷ names) a h =
      let both = after-none (one_deleted w e name a).exception (one_deleted w e name a) _ refl h in
      (one_deleted-is_gone name a both.0, delete_each-is_gone names _ both.1)

  in_order-none :
      (step : Agent → Ran) (steps : List (Agent → Ran)) (a : Agent)
      → (in_order (step ∷ steps) a).exception ≡ none
      → ((step a).exception ≡ none) × ((in_order steps (step a).agent).exception ≡ none)
  unfolding in_order
  in_order-none step steps a h = then_do-none step (in_order steps) a h

  named-none :
      (text : String) (run : Agent → Ran) (a : Agent)
      → (named e text run a).exception ≡ none
      → (run (at_step e text a).agent).exception ≡ none
  unfolding named
  named-none text run a h = (then_do-none (at_step e text) run a h).1

  return_each-clients :
      (configs : Dict DedicatedNicConfig) (a : Agent)
      → (return_each w e configs a).agent.client_repo ≡ a.client_repo
  unfolding return_each
  return_each-clients [] a = refl
  return_each-clients ((name, c) ∷ configs) a = return_each-clients configs _

  first_step-clients :
      (a : Agent)
      → (named e "returning_dedicated_nics" (return_all_dedicated_nics w e) a).agent.client_repo
        ≡ a.client_repo
  unfolding named then_do at_step return_all_dedicated_nics
  first_step-clients a =
      return_each-clients (load_all_configs (read_json_file a.nic_file))
        (at_step e "returning_dedicated_nics" a).agent

  -- The containers of the clients, and netmon's.
  abbrev pub AllGone : Agent → Type 0
  AllGone a =
      All (λ name. is_gone (w.containers name) ≡ true)
        (netmon_container_name ∷ keys a.client_repo.clients)

  cleanup-AllGone : (a : Agent) → (in_order (cleanup_steps w e) a).exception ≡ none → AllGone a
  unfolding cleanup_steps delete_all_runtime_containers at_step
  cleanup-AllGone a h =
      let first = named e "returning_dedicated_nics" (return_all_dedicated_nics w e) a in
      let two = in_order-none _ _ first.agent (in_order-none _ _ a h).1 in
      let three = in_order-none _ _ _ two.1 in
      let four = in_order-none _ _ _ three.1 in
      let five = in_order-none _ _ _ four.1 in
      let deleted =
        named-none "deleting_runtimes" (delete_all_runtime_containers w e) first.agent two.0 in
      let second = named e "deleting_runtimes" (delete_all_runtime_containers w e) first.agent in
      let third = named e "cleaning_networks" (cleanup_orchestrator_networks w) second.agent in
      let fourth = named e "cleaning_proxy_arp" cleanup_proxy_arp_veths third.agent in
      let netmon =
        named-none "deleting_netmon" (removed_container w netmon_container_name) fourth.agent
          five.0 in
      let clients = delete_each-is_gone (keys first.agent.client_repo.clients) _ deleted in
      (
        removed_container-is_gone netmon_container_name
            (at_step e "deleting_netmon" fourth.agent).agent netmon,
        rw (first_step-clients a) at clients,
      )

  own_caught : (x : Option String) (ran : Ran) → (caught e x ran).acts ≡ ran.acts
  own_caught none ran = refl
  own_caught (some m) ran = refl

  -- Where the removal of the agent's own container is asked for, each container of a client and
  -- netmon's have been removed, or turned out not to be there.
  pub self_destruct-AllGone : (a : Agent) → any is_own (self_destruct w e a).acts ≡ true → AllGone a
  unfolding self_destruct all_steps
  self_destruct-AllGone a h =
      let ran = all_steps w e a in
      let asked : any is_own ran.acts ≡ true =
        sym (ap (any is_own) (own_caught ran.exception ran)) ∙ h in
      cleanup-AllGone a (
        then_do_own (in_order (cleanup_steps w e))
          (named e "removing_self" (delete_orchestrator_container w)) a
          (in_order-Quiet w e (cleanup_steps w e) (cleanup_steps-Quiet w e)) asked)
