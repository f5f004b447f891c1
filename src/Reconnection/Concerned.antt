-- ===== src/Reconnection/Concerned.antt =====
-- Which containers src/use_cases/network_reconnection.py touches.
use orchestrator_agent.Prelude.{
  ◌≡◌, refl, String, Bool, true, false, ◌||◌, ◌&&◌, Option, none, some, List, [], ◌∷◌, ◌++◌, map,
  any, any-append, if◌then◌else◌, str_eq, arith,
}
use orchestrator_agent.Prelude.Dict.{Dict}
use orchestrator_agent.SerialPorts.{Write}
use orchestrator_agent.Stores.{load_all_vnics}
use orchestrator_agent.Vnics.{VnicConfig, same_name}
use orchestrator_agent.Listener.{Change}
use orchestrator_agent.Reconnection.{
  World, Call, Vnics, AllDone, tag, reconnect_found, reconnect_vnics, reconnect_each, with_subnet,
  reconnect_containers,
}

abbrev pub is_for : String → String × Call → Bool
is_for name (container, c) = str_eq container name

abbrev pub is_on : String → VnicConfig → Bool
is_on interface v = same_name v.parent_interface (some interface)

-- A container with a vNIC on the interface.
abbrev pub is_concerned : String → String → Dict (List VnicConfig) → Bool
is_concerned name interface [] = false
is_concerned name interface ((container, vs) ∷ all) =
    (str_eq container name && any (is_on interface) vs) || is_concerned name interface all

module _ (name : String) where
  tags_apart :
      (container : String) (cs : List Call)
      → str_eq container name ≡ false
      → any (is_for name) (map (tag container) cs) ≡ false
  tags_apart container [] apart = refl
  tags_apart container (c ∷ cs) apart = rw apart (tags_apart container cs apart)

  both_apart :
      (xs ys : List (String × Call))
      → any (is_for name) xs ≡ false
      → any (is_for name) ys ≡ false
      → any (is_for name) (xs ++ ys) ≡ false
  both_apart xs ys hx hy = rw (any-append (is_for name) xs ys, hx, hy) refl

  choose_apart :
      (b : Bool) (x y : AllDone)
      → (b ≡ true → any (is_for name) x.0 ≡ false)
      → any (is_for name) y.0 ≡ false
      → any (is_for name) (if b then x else y).0 ≡ false
  choose_apart true x y hx hy = hx refl
  choose_apart false x y hx hy = hy

  module _ (w : World) (write : Write) (interface subnet : String) (gateway : Option String) where
    vnics_apart :
        (container : String) (vs : List VnicConfig) (file : Vnics)
        → str_eq container name && any (is_on interface) vs ≡ false
        → any (is_for name) (reconnect_vnics w write interface subnet gateway container vs file).0
          ≡ false
    unfolding reconnect_vnics
    vnics_apart container [] file none_of = refl
    vnics_apart container (v ∷ vs) file none_of =
        let one =
          reconnect_found w write container interface subnet gateway v (w.get_container container)
            file in
        let rest : str_eq container name && any (is_on interface) vs ≡ false =
          ground (arith, none_of) in
        choose_apart (same_name v.parent_interface (some interface)) _
          (reconnect_vnics w write interface subnet gateway container vs file)
          (λ on.
            let apart : str_eq container name ≡ false = ground (arith, none_of, on) in
            both_apart (map (tag container) one.0) _ (tags_apart container one.0 apart)
              (vnics_apart container vs one.1 rest))
          (vnics_apart container vs file rest)

    each_apart :
        (all : Dict (List VnicConfig)) (file : Vnics)
        → is_concerned name interface all ≡ false
        → any (is_for name) (reconnect_each w write interface subnet gateway all file).0 ≡ false
    unfolding reconnect_each
    each_apart [] file none_of = refl
    each_apart ((container, vs) ∷ all) file none_of =
        let one = reconnect_vnics w write interface subnet gateway container vs file in
        let here : str_eq container name && any (is_on interface) vs ≡ false =
          ground (arith, none_of) in
        let later : is_concerned name interface all ≡ false = ground (arith, none_of) in
        both_apart one.0 _ (vnics_apart container vs file here) (each_apart all one.1 later)

with_subnet_apart :
    (name : String) (w : World) (write : Write) (interface : String)
    (subnets : List (Option String)) (gateway : Option String) (file : Vnics)
    → is_concerned name interface (load_all_vnics file) ≡ false
    → any (is_for name) (with_subnet w write interface subnets gateway file).0 ≡ false
with_subnet_apart name w write interface [] gateway file h = refl
with_subnet_apart name w write interface (none ∷ _) gateway file h = refl
with_subnet_apart name w write interface (some subnet ∷ _) gateway file h =
    choose_apart name (str_eq subnet "") ([], file) _ (λ _. refl)
      (each_apart name w write interface subnet gateway (load_all_vnics file) file h)

-- A container without a vNIC on the interface whose network changes is not touched: nothing is asked
-- of Docker or of netmon for it.
pub reconnect_containers_concerned :
    (name : String) (w : World) (write : Write) (interface : String) (d : Change) (file : Vnics)
    → is_concerned name interface (load_all_vnics file) ≡ false
    → any (is_for name) (reconnect_containers w write interface d file).0 ≡ false
unfolding reconnect_containers
reconnect_containers_concerned name w write interface d file h =
    with_subnet_apart name w write interface d.subnets d.gateway file h
