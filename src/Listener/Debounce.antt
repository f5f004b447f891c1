-- ===== src/Listener/Debounce.antt =====
-- The debounce of src/tools/network_event_listener.py: what a change of an interface leads to.
use orchestrator_agent.Prelude.{
  ◌≡◌, refl, ◌∙◌, ℕ, ◌-◌, ◌&&◌, String, Bool, true, false, not, Option, none, some, List, [], ◌∷◌,
  ◌++◌, any, if◌then◌else◌, str_eq, eq_iff, ltb, Bool-cases, inl, inr, arith, either_branch,
}
use orchestrator_agent.Prelude.Dict.{lookup, lookup-insert, lookup-remove}
use orchestrator_agent.Listener.{
  debounce_seconds, Change, Listener, noted, is_early, popped, process_pending_changes, Event,
  change, wake, step, run,
}

-- The data with which the containers of an interface were reconnected.
abbrev pub reconnections : String → List (String × Change) → List Change
reconnections name [] = []
reconnections name ((other, d) ∷ l) =
    let rest = reconnections name l in if str_eq other name then d ∷ rest else rest

reconnections-append :
    (name other : String) (d : Change) (l : List (String × Change))
    → reconnections name (l ++ (other, d) ∷ [])
      ≡ (if str_eq other name then reconnections name l ++ d ∷ [] else reconnections name l)
reconnections-append name other d [] = refl
reconnections-append name other d ((one, c) ∷ l) =
    ground (arith, reconnections-append name other d l)

abbrev pub is_change : String → Event → Bool
is_change name (change now other d) = str_eq other name
is_change name (wake now other) = false

-- The end of a sleep for the interface, three seconds or more after the time.
abbrev pub is_late : String → ℕ → Event → Bool
is_late name t (change now other d) = false
is_late name t (wake now other) = str_eq other name && not (ltb (now - t) debounce_seconds)

module _ (name : String) (d : Change) (t : ℕ) (before : List Change) where
  -- The change waits, or it has been acted on.
  abbrev Waits : Listener → Type 0
  Waits l =
      (lookup name l.pending_changes ≡ some d)
      × (lookup name l.last_event_time ≡ some t)
      × (reconnections name l.reconnected ≡ before)

  abbrev Acted : Listener → Type 0
  Acted l =
      (lookup name l.pending_changes ≡ none) × (reconnections name l.reconnected ≡ before ++ d ∷ [])

  noted-Waits :
      (now : ℕ) (other : String) (c : Change) (l : Listener)
      → str_eq other name ≡ false
      → Waits l
      → Waits (noted now other c l)
  unfolding noted
  noted-Waits now other c l apart h = (
    lookup-insert other name c l.pending_changes ∙ rw apart h.0,
    lookup-insert other name now l.last_event_time ∙ rw apart h.1,
    h.2,
  )

  noted-Acted :
      (now : ℕ) (other : String) (c : Change) (l : Listener)
      → str_eq other name ≡ false
      → Acted l
      → Acted (noted now other c l)
  unfolding noted
  noted-Acted now other c l apart h =
      (lookup-insert other name c l.pending_changes ∙ rw apart h.0, h.1)

  popped-Waits :
      (other : String) (o : Option Change) (l : Listener)
      → str_eq other name ≡ false
      → Waits l
      → Waits (popped other o l)
  popped-Waits other none l apart h = h
  popped-Waits other (some c) l apart h = (
    lookup-remove other name l.pending_changes ∙ rw apart h.0,
    h.1,
    reconnections-append name other c l.reconnected ∙ rw apart h.2,
  )

  popped-Acted :
      (other : String) (o : Option Change) (l : Listener)
      → str_eq other name ≡ false
      → Acted l
      → Acted (popped other o l)
  popped-Acted other none l apart h = h
  popped-Acted other (some c) l apart h = (
    lookup-remove other name l.pending_changes ∙ rw apart h.0,
    reconnections-append name other c l.reconnected ∙ rw apart h.1,
  )

  wake-Waits :
      (now : ℕ) (other : String) (l : Listener)
      → is_late name t (wake now other) ≡ false
      → Waits l
      → Waits (process_pending_changes now other l)
  unfolding process_pending_changes
  wake-Waits now other l early h = elim (Bool-cases (str_eq other name)) [
    | inl same ↦
        let one : other ≡ name = (eq_iff other name).0 same in
        let soon : ltb (now - t) debounce_seconds ≡ true = ground (arith, early, same) in
        rw (one, h.1, soon) h
    | inr apart ↦
        either_branch Waits (is_early now (lookup other l.last_event_time)) l
          (popped other (lookup other l.pending_changes) l) h
          (popped-Waits other (lookup other l.pending_changes) l apart h)
  ]

  wake_late :
      (now : ℕ) (other : String) (l : Listener)
      → is_late name t (wake now other) ≡ true
      → Waits l
      → Acted (process_pending_changes now other l)
  unfolding process_pending_changes
  wake_late now other l late h =
      let same : str_eq other name ≡ true = ground (arith, late) in
      let one : other ≡ name = (eq_iff other name).0 same in
      let over : ltb (now - t) debounce_seconds ≡ false = ground (arith, late) in
      rw (one, h.1, over, h.0)
        (
          lookup-remove name name l.pending_changes ∙ rw ((eq_iff name name).1 refl) refl,
          reconnections-append name name d l.reconnected ∙ rw ((eq_iff name name).1 refl, h.2) refl,
        )

  wake-Acted :
      (now : ℕ) (other : String) (l : Listener)
      → Acted l
      → Acted (process_pending_changes now other l)
  unfolding process_pending_changes
  wake-Acted now other l h = elim (Bool-cases (str_eq other name)) [
    | inl same ↦
        let one : other ≡ name = (eq_iff other name).0 same in
        either_branch Acted (is_early now (lookup other l.last_event_time)) l
          (popped other (lookup other l.pending_changes) l) h (rw (one, h.0) h)
    | inr apart ↦
        either_branch Acted (is_early now (lookup other l.last_event_time)) l
          (popped other (lookup other l.pending_changes) l) h
          (popped-Acted other (lookup other l.pending_changes) l apart h)
  ]

  run-Acted :
      (evs : List Event) (l : Listener)
      → any (is_change name) evs ≡ false
      → Acted l
      → Acted (run evs l)
  unfolding run step
  run-Acted [] l none_of h = h
  run-Acted (change now other c ∷ evs) l none_of h =
      let apart : str_eq other name ≡ false = ground (arith, none_of) in
      run-Acted evs (noted now other c l) (ground (arith, none_of))
        (noted-Acted now other c l apart h)
  run-Acted (wake now other ∷ evs) l none_of h =
      run-Acted evs (process_pending_changes now other l) none_of (wake-Acted now other l h)

  run_late :
      (evs : List Event) (l : Listener)
      → any (is_change name) evs ≡ false
      → any (is_late name t) evs ≡ true
      → Waits l
      → Acted (run evs l)
  unfolding run step
  run_late [] l none_of late h = absurd cc
  run_late (change now other c ∷ evs) l none_of late h =
      let apart : str_eq other name ≡ false = ground (arith, none_of) in
      run_late evs (noted now other c l) (ground (arith, none_of)) late
        (noted-Waits now other c l apart h)
  run_late (wake now other ∷ evs) l none_of late h =
      elim (Bool-cases (is_late name t (wake now other))) [
        | inl here ↦
            run-Acted evs (process_pending_changes now other l) none_of
              (wake_late now other l here h)
        | inr early ↦
            run_late evs (process_pending_changes now other l) none_of (rw early at late)
              (wake-Waits now other l early h)
      ]

-- After a change of an interface, where no other change of it follows and a sleep for it ends three
-- seconds or more after the change: its containers are reconnected once, with the data of this
-- change, whatever happens to other interfaces and however many sleeps end.
pub run-reconnections :
    (name : String) (d : Change) (t : ℕ) (evs : List Event) (l : Listener)
    → any (is_change name) evs ≡ false
    → any (is_late name t) evs ≡ true
    → reconnections name (run evs (noted t name d l)).reconnected
      ≡ reconnections name l.reconnected ++ d ∷ []
unfolding noted
run-reconnections name d t evs l none_of late =
    let itself : str_eq name name ≡ true = (eq_iff name name).1 refl in
    (run_late name d t (reconnections name l.reconnected) evs (noted t name d l) none_of late (
      lookup-insert name name d l.pending_changes ∙ rw itself refl,
      lookup-insert name name t l.last_event_time ∙ rw itself refl,
      refl,
    )).1
