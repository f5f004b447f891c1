-- ===== src/SelfDestruct/Quiet.antt =====
-- The removal of the agent's own container, in src/use_cases/docker_manager/selfdestruct.py.
use orchestrator_agent.Prelude.{
  ◌≡◌, refl, ℕ, String, Bool, true, false, ◌||◌, Option, none, some, List, [], ◌∷◌, ◌++◌, map, any,
  any-append, All, arith, either_branch,
}
use orchestrator_agent.Prelude.Dict.{Dict, keys}
use orchestrator_agent.SerialPorts.{read_json_file}
use orchestrator_agent.Stores.{DedicatedNicConfig}
use orchestrator_agent.Provision.{Agent, Try, done, raised}
use orchestrator_agent.Provision.Create.{Env}
use orchestrator_agent.SelfDestruct.{
  Reply, ok, not_found, raises, Network, Found, World, Act, return_nic, stop_container,
  remove_container, disconnect, removed_network, disconnected, remove_network,
  cleanup_all_proxy_arp, remove_volume, remove_own, asked_get, stop_and_remove_container,
  remove_internal_network, get_self_container,
}
use orchestrator_agent.SelfDestruct.Cleanup.{
  Ran, after, then_do, asked_return, return_each, load_all_configs, return_all_dedicated_nics,
  forgotten, removed_container, delete_runtime_container_for_selfdestruct, unregistered,
  delete_each, delete_all_runtime_containers, cleanup_each, is_internal, is_macvlan,
  reloaded_cleanup, cleanup_listed, cleanup_orchestrator_networks,
}
use orchestrator_agent.SelfDestruct.Run.{
  netmon_container_name, at_step, named, cleanup_proxy_arp_veths, delete_shared_volume, volume_acts,
  in_order, cleanup_steps,
}

-- A removal of the agent's own container is asked for.
abbrev pub is_own : Act → Bool
is_own (remove_own name) = true
is_own (return_nic _ _) = false
is_own (stop_container _) = false
is_own (remove_container _ _) = false
is_own (disconnect _ _) = false
is_own (remove_network _) = false
is_own cleanup_all_proxy_arp = false
is_own remove_volume = false

quiet_asked :
    (name : String) (get stop remove' : Reply)
    → any is_own (asked_get name get stop remove').0 ≡ false
quiet_asked name ok ok ok = refl
quiet_asked name ok ok (not_found m) = refl
quiet_asked name ok ok (raises m) = refl
quiet_asked name ok (not_found m) r = refl
quiet_asked name ok (raises m) r = refl
quiet_asked name (not_found m) s r = refl
quiet_asked name (raises m) s r = refl

-- A step that does not ask for it.
abbrev pub Quiet : (Agent → Ran) → Type 0
Quiet run = (a : Agent) → any is_own (run a).acts ≡ false

quiet_both :
    (xs ys : List Act)
    → any is_own xs ≡ false
    → any is_own ys ≡ false
    → any is_own (xs ++ ys) ≡ false
quiet_both xs ys hx hy = rw (any-append is_own xs ys, hx, hy) refl

after_quiet :
    (x : Option String) (one two : Ran)
    → any is_own one.acts ≡ false
    → any is_own two.acts ≡ false
    → any is_own (after x one two).acts ≡ false
after_quiet (some m) one two h g = h
after_quiet none one two h g = quiet_both one.acts two.acts h g

after_own :
    (x : Option String) (one two : Ran)
    → any is_own one.acts ≡ false
    → any is_own (after x one two).acts ≡ true
    → x ≡ none
after_own (some m) one two quiet h = absurd cc
after_own none one two quiet h = refl

module _ (first second : Agent → Ran) where
  then_do-Quiet : Quiet first → Quiet second → Quiet (then_do first second)
  unfolding then_do
  then_do-Quiet h g a =
      after_quiet (first a).exception (first a) (second (first a).agent) (h a) (g _)

  pub then_do_own :
      (a : Agent)
      → Quiet first
      → any is_own (then_do first second a).acts ≡ true
      → (first a).exception ≡ none
  unfolding then_do
  then_do_own a quiet h =
      after_own (first a).exception (first a) (second (first a).agent) (quiet a) h

quiet_disconnects :
    (network : String) (connected : List String)
    → any is_own (map (disconnect network) connected ++ remove_network network ∷ []) ≡ false
quiet_disconnects network [] = refl
quiet_disconnects network (c ∷ connected) = quiet_disconnects network connected

quiet_removed :
    (own : Found) (network : String) (r : Reply) (connected : List String)
    → any is_own (removed_network true own network r connected) ≡ false
unfolding disconnected
quiet_removed own network ok connected = quiet_disconnects network connected
quiet_removed own network (not_found m) connected = refl
quiet_removed own network (raises m) connected = refl

quiet_internal :
    (own : Found) (container : String) (n : Option Network)
    → any is_own (remove_internal_network true own container n) ≡ false
unfolding remove_internal_network
quiet_internal own container none = refl
quiet_internal own container (some n) = quiet_removed own _ n.network_reload n.connected

quiet_return : (nic : String) (pid : Try (Option ℕ)) → any is_own (asked_return nic pid) ≡ false
quiet_return nic (raised m) = refl
quiet_return nic (done none) = refl
quiet_return nic (done (some pid)) = ground arith

quiet_reloaded :
    (name : String) (r : Reply) (connected : List String)
    → any is_own (reloaded_cleanup name r connected) ≡ false
quiet_reloaded name ok [] = refl
quiet_reloaded name ok (_ ∷ _) = refl
quiet_reloaded name (not_found m) connected = refl
quiet_reloaded name (raises m) connected = refl

quiet_networks : (ns : List Network) → any is_own (cleanup_each ns) ≡ false
unfolding cleanup_each
quiet_networks [] = refl
quiet_networks (n ∷ ns) =
    let some_acts = reloaded_cleanup n.network_name n.network_reload n.connected in
    either_branch (λ acts. any is_own acts ≡ false)
      (is_internal n.network_name || is_macvlan n.network_name) (some_acts ++ cleanup_each ns)
      (cleanup_each ns)
      (quiet_both some_acts (cleanup_each ns)
        (quiet_reloaded n.network_name n.network_reload n.connected) (quiet_networks ns))
      (quiet_networks ns)

quiet_listed : (t : Try (List Network)) → any is_own (cleanup_listed t) ≡ false
quiet_listed (raised m) = refl
quiet_listed (done ns) = quiet_networks ns

quiet_volume : (r : Reply) → any is_own (volume_acts r) ≡ false
quiet_volume ok = refl
quiet_volume (not_found m) = refl
quiet_volume (raises m) = refl

module _ (w : World) (e : Env) where
  removed_container-Quiet : (name : String) → Quiet (removed_container w name)
  unfolding removed_container stop_and_remove_container
  removed_container-Quiet name a = quiet_asked name _ _ _

  abbrev pub one_deleted : String → Agent → Ran
  one_deleted name =
      then_do (delete_runtime_container_for_selfdestruct w e name) (unregistered w e name)

  forgotten-Quiet : (name : String) → Quiet (forgotten w e name)
  unfolding forgotten
  forgotten-Quiet name a = quiet_internal (get_self_container w) name (w.internal_network name)

  unregistered-Quiet : (name : String) → Quiet (unregistered w e name)
  unfolding unregistered
  unregistered-Quiet name a = refl

  one_deleted-Quiet : (name : String) → Quiet (one_deleted name)
  unfolding delete_runtime_container_for_selfdestruct
  one_deleted-Quiet name =
      then_do-Quiet (then_do (removed_container w name) (forgotten w e name))
        (unregistered w e name)
        (then_do-Quiet (removed_container w name) (forgotten w e name)
          (removed_container-Quiet name) (forgotten-Quiet name))
        (unregistered-Quiet name)

  delete_each-Quiet : (names : List String) → Quiet (delete_each w e names)
  unfolding delete_each
  delete_each-Quiet [] a = refl
  delete_each-Quiet (name ∷ names) a =
      let one = one_deleted name a in
      after_quiet one.exception one _ (one_deleted-Quiet name a) (delete_each-Quiet names _)

  return_each-Quiet : (configs : Dict DedicatedNicConfig) → Quiet (return_each w e configs)
  unfolding return_each
  return_each-Quiet [] a = refl
  return_each-Quiet ((name, c) ∷ configs) a =
      quiet_both (asked_return c.host_interface (w.running_pid name)) _
        (quiet_return c.host_interface (w.running_pid name)) (return_each-Quiet configs _)

  named-Quiet : (step : String) (run : Agent → Ran) → Quiet run → Quiet (named e step run)
  unfolding named at_step
  named-Quiet step run h = then_do-Quiet (at_step e step) run (λ a. refl) h

  pub in_order-Quiet : (steps : List (Agent → Ran)) → All Quiet steps → Quiet (in_order steps)
  unfolding in_order
  in_order-Quiet [] h = λ a. refl
  in_order-Quiet (step ∷ steps) h =
      then_do-Quiet step (in_order steps) h.0 (in_order-Quiet steps h.1)

  pub cleanup_steps-Quiet : All Quiet (cleanup_steps w e)
  unfolding cleanup_steps return_all_dedicated_nics delete_all_runtime_containers
      cleanup_orchestrator_networks cleanup_proxy_arp_veths delete_shared_volume
  cleanup_steps-Quiet = (
    named-Quiet "returning_dedicated_nics" (return_all_dedicated_nics w e)
        (λ a. return_each-Quiet (load_all_configs (read_json_file a.nic_file)) a),
    (
      named-Quiet "deleting_runtimes" (delete_all_runtime_containers w e)
          (λ a. delete_each-Quiet (keys a.client_repo.clients) a),
      (
        named-Quiet "cleaning_networks" (cleanup_orchestrator_networks w)
            (λ a. quiet_listed w.list_networks),
        (
          named-Quiet "cleaning_proxy_arp" cleanup_proxy_arp_veths (λ a. refl),
          (
            named-Quiet "deleting_netmon" (removed_container w netmon_container_name)
                (removed_container-Quiet netmon_container_name),
            (
              named-Quiet "deleting_volume" (delete_shared_volume w)
                  (λ a. quiet_volume w.get_volume),
              tt,
            ),
          ),
        ),
      ),
    ),
  )
