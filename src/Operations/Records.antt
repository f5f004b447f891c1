-- ===== src/Operations/Records.antt =====
-- What the tracked operations say: the status and the kind of operation fit, and the times are in
-- order.
use orchestrator_agent.Prelude.{
  ℕ, ◌≡◌, ◌≤◌, refl, String, Option, none, some, [], ◌∷◌, arith, Bool-cases, inl, inr, Option-cases,
}
use orchestrator_agent.Prelude.Dict.{
  Dict, lookup, contains, AllValues, AllValues-insert, AllValues-remove, AllValues-lookup,
}
use orchestrator_agent.Operations.{
  Status, creating, deleting, error_status, Operation, OperationsStateTracker, Kind, create, delete,
  is_busy, set_kind, set_creating, set_deleting, set_step, set_error, clear_state, fresh, failed,
  stepped,
}
use orchestrator_agent.Operations.Exclusion.{Action, begin, step, fail, clear, perform}

-- What an operation's status promises of its other fields.
abbrev Agrees : Status → String → Option String → Type 0
Agrees creating kind error = (kind ≡ "create") × (error ≡ none)
Agrees deleting kind error = (kind ≡ "delete") × (error ≡ none)
Agrees error_status kind error = (message : String) × (error ≡ some message)

pub record IsConsistent (clock : ℕ) (op : Operation) : Type 0 where
  pub agrees : Agrees op.status op.operation op.error
  pub in_order : op.started_at ≤ op.updated_at
  pub past : op.updated_at ≤ clock

-- The call reads a clock that is not behind `clock`, and not ahead of `next`.
abbrev Reads : ℕ → ℕ → Action → Type 0
Reads clock next (begin kind now name) = (clock ≤ now) × (now ≤ next)
Reads clock next (step now name text) = (clock ≤ now) × (now ≤ next)
Reads clock next (fail now name message kind) = (clock ≤ now) × (now ≤ next)
Reads clock next (clear name) = clock ≤ next

IsConsistent-later :
    (clock next : ℕ) (op : Operation) → clock ≤ next → IsConsistent clock op → IsConsistent next op
IsConsistent-later clock next op h c = record {
  agrees = c.agrees;
  in_order = c.in_order;
  past = omega arith;
}

AllValues-later :
    (clock next : ℕ) (m : Dict Operation)
    → clock ≤ next
    → AllValues (IsConsistent clock) m
    → AllValues (IsConsistent next) m
AllValues-later clock next [] h c = tt
AllValues-later clock next ((k, op) ∷ m) h c =
    (IsConsistent-later clock next op h c.0, AllValues-later clock next m h c.1)

module _ (clock next : ℕ) where
  set_kind-IsConsistent :
      (kind : Kind) (now : ℕ) (name : String) (s : OperationsStateTracker)
      → now ≤ next
      → AllValues (IsConsistent next) s.operations
      → AllValues (IsConsistent next) (set_kind kind now name s).1.operations
  unfolding set_creating set_deleting
  set_kind-IsConsistent create now name s h c =
      elim (Bool-cases (is_busy (lookup name s.operations))) [
        | inl busy ↦ rw busy c
        | inr free ↦ rw free (
            AllValues-insert (IsConsistent next) name (fresh creating "create" now) s.operations c
              (record { agrees = (refl, refl); in_order = omega arith; past = h }))
      ]
  set_kind-IsConsistent delete now name s h c =
      elim (Bool-cases (is_busy (lookup name s.operations))) [
        | inl busy ↦ rw busy c
        | inr free ↦ rw free (
            AllValues-insert (IsConsistent next) name (fresh deleting "delete" now) s.operations c
              (record { agrees = (refl, refl); in_order = omega arith; past = h }))
      ]

  failed-IsConsistent :
      (now : ℕ) (message : String) (kind : Option String) (o : Option Operation)
      → clock ≤ now
      → now ≤ next
      → ((op : Operation) → o ≡ some op → IsConsistent clock op)
      → IsConsistent next (failed now message kind o)
  failed-IsConsistent now message kind none a b c = record {
    agrees = (message, refl);
    in_order = omega arith;
    past = b;
  }
  failed-IsConsistent now message kind (some op) a b c = record {
    agrees = (message, refl);
    in_order = omega (arith, (c op refl).in_order, (c op refl).past);
    past = b;
  }

  set_step-IsConsistent :
      (now : ℕ) (name text : String) (s : OperationsStateTracker)
      → clock ≤ now
      → now ≤ next
      → AllValues (IsConsistent clock) s.operations
      → AllValues (IsConsistent next) (set_step now name text s).operations
  unfolding set_step
  set_step-IsConsistent now name text s a b c =
      let later = AllValues-later clock next s.operations (omega arith) c in
      elim (Option-cases (lookup name s.operations)) [
        | inl missing ↦ rw (missing, set_step) later
        | inr (op, found) ↦
            let old = AllValues-lookup (IsConsistent clock) name s.operations c found in
            rw (found, set_step)
              (AllValues-insert (IsConsistent next) name (stepped now text op) s.operations later
                (record {
                  agrees = old.agrees;
                  in_order = omega (arith, old.in_order, old.past);
                  past = b;
                }))
      ]

  clear_state-IsConsistent :
      (name : String) (s : OperationsStateTracker)
      → AllValues (IsConsistent next) s.operations
      → AllValues (IsConsistent next) (clear_state name s).operations
  unfolding clear_state
  clear_state-IsConsistent name s c = elim (Bool-cases (contains name s.operations)) [
    | inl here ↦ rw here (AllValues-remove (IsConsistent next) name s.operations c)
    | inr absent ↦ rw absent c
  ]

  -- Whatever writing call is made, with a clock that does not run back: if every tracked operation has
  -- a kind that fits its status, an error message exactly when its status is error, and was last
  -- updated neither before it started nor in the future, then so has every one afterwards.
  pub perform-IsConsistent :
      (a : Action) (s : OperationsStateTracker)
      → Reads clock next a
      → AllValues (IsConsistent clock) s.operations
      → AllValues (IsConsistent next) (perform a s).operations
  unfolding perform
  perform-IsConsistent (begin kind now name) s h c =
      set_kind-IsConsistent kind now name s h.1
        (AllValues-later clock next s.operations (omega arith) c)
  perform-IsConsistent (step now name text) s h c = set_step-IsConsistent now name text s h.0 h.1 c
  perform-IsConsistent (fail now name message kind) s h c =
      unfold set_error in
      AllValues-insert (IsConsistent next) name (failed now message kind (lookup name s.operations))
        s.operations (AllValues-later clock next s.operations (omega arith) c)
        (failed-IsConsistent now message kind (lookup name s.operations) h.0 h.1
          (λ op found. AllValues-lookup (IsConsistent clock) name s.operations c found))
  perform-IsConsistent (clear name) s h c =
      clear_state-IsConsistent name s (AllValues-later clock next s.operations h c)
