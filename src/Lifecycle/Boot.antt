-- ===== src/Lifecycle/Boot.antt =====
-- What the start of src/use_cases/container_lifecycle_manager.py does to containers that run.
use orchestrator_agent.Prelude.{
  ◌≡◌, refl, ℕ, String, Bool, true, false, List, [], ◌∷◌, str_eq, eq_iff, Bool-cases, inl, inr,
  arith, any, any-append, ◌⊎◌,
}
use orchestrator_agent.SerialPorts.{Write}
use orchestrator_agent.Lifecycle.{
  Look, seen, absent, look_raises, World, Effect, start_container, update_policy, connect_bridge,
  ContainerLifecycleManager, reconnected, migrate_restart_policy, boot_start, by_status,
  ensure_seen, ensure_container_running, ensure_each, start_existing_containers,
}

-- A start of a container, whether it succeeds or not.
abbrev pub starts : String → Effect → Bool
starts name (start_container other t ok) = str_eq other name
starts name (update_policy other) = false
starts name (connect_bridge other) = false

module _ (w : World) (write : Write) (now : ℕ) (running policy : String) where
  boot_started :
      (name : String) (m : ContainerLifecycleManager)
      → str_eq name running ≡ false
      → any (starts running) (boot_start w write now name m).0 ≡ false
  unfolding boot_start reconnected
  boot_started name m other = elim (Bool-cases (w.start_raises name)) [
    | inl bad ↦ rw bad (ground (arith, other))
    | inr good ↦ rw good (ground (arith, other))
  ]

  by_status-starts :
      (name status : String) (m : ContainerLifecycleManager)
      → (str_eq status "running" ≡ true) ⊎ (str_eq name running ≡ false)
      → any (starts running) (by_status w write now name status m).0 ≡ false
  unfolding by_status reconnected
  by_status-starts name status m (inl on) = rw on refl
  by_status-starts name status m (inr other) =
      let start = boot_started name m other in
      elim (Bool-cases (str_eq status "running")) [
        | inl on ↦ rw on refl
        | inr off ↦ rw off (elim (Bool-cases (str_eq status "exited")) [
          | inl stopped ↦ rw stopped start
          | inr live ↦ rw live (elim (Bool-cases (str_eq status "created")) [
            | inl made ↦ rw made start
            | inr strange ↦ rw strange refl
          ])
        ])
      ]

  policy_starts : (name p : String) → any (starts running) (migrate_restart_policy name p) ≡ false
  unfolding migrate_restart_policy
  policy_starts name p = ground arith

  ensure_starts :
      (name : String) (l : Look) (m : ContainerLifecycleManager)
      → w.look running ≡ seen "running" policy
      → w.look name ≡ l
      → any (starts running) (ensure_seen w write now name l m).0 ≡ false
  unfolding ensure_seen
  ensure_starts name absent m h e = refl
  ensure_starts name look_raises m h e = refl
  ensure_starts name (seen status p) m h e =
      let here : (str_eq status "running" ≡ true) ⊎ (str_eq name running ≡ false) =
        elim (Bool-cases (str_eq name running)) [
          | inr other ↦ inr other
          | inl same ↦
              inl (ground (arith, same, eq_iff name running, h, e, eq_iff status "running"))
        ] in
      rw
        (
          any-append (starts running) (migrate_restart_policy name p)
              (by_status w write now name status m).0,
          policy_starts name p,
          by_status-starts name status m here,
        )
        refl

  each_starts :
      (names : List String) (m : ContainerLifecycleManager)
      → w.look running ≡ seen "running" policy
      → any (starts running) (ensure_each w write now names m).0 ≡ false
  unfolding ensure_each ensure_container_running
  each_starts [] m h = refl
  each_starts (name ∷ names) m h =
      let one = ensure_container_running w write now name m in
      rw
        (
          any-append (starts running) one.0 (ensure_each w write now names one.1).0,
          ensure_starts name (w.look name) m h refl,
          each_starts names one.1 h,
        )
        refl

  -- The start after boot never starts a container that runs, whatever the other containers are and
  -- whatever the outcomes of their starts.
  pub start_existing_containers-running :
      (m : ContainerLifecycleManager)
      → w.look running ≡ seen "running" policy
      → any (starts running) (start_existing_containers w write now m).0 ≡ false
  unfolding start_existing_containers
  start_existing_containers-running m h = each_starts _ m h
