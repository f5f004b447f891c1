-- ===== src/Lifecycle/History.antt =====
-- The restarts of a container in the effects of src/use_cases/container_lifecycle_manager.py, and
-- what of them its restart history keeps.
use orchestrator_agent.Prelude.{
  ◌≡◌, refl, sym, ap, ◌∙◌, ℕ, ◌≤◌, String, Bool, true, false, List, [], ◌∷◌, ◌++◌, select, length,
  length-append, if◌then◌else◌, str_eq, leb, Bool-cases, inl, inr, arith,
}
use orchestrator_agent.Lifecycle.{
  max_rapid_restarts, Effect, start_container, update_policy, connect_bridge, is_recent,
}

-- The times at which a container was started with success.
abbrev pub restarts : String → List Effect → List ℕ
restarts name [] = []
restarts name (start_container other t true ∷ l) =
    if str_eq other name then t ∷ restarts name l else restarts name l
restarts name (start_container other t false ∷ l) = restarts name l
restarts name (update_policy other ∷ l) = restarts name l
restarts name (connect_bridge other ∷ l) = restarts name l

pub restarts-append :
    (name : String) (xs ys : List Effect)
    → restarts name (xs ++ ys) ≡ restarts name xs ++ restarts name ys
restarts-append name [] ys = refl
restarts-append name (start_container other t true ∷ xs) ys =
    ground (arith, restarts-append name xs ys)
restarts-append name (start_container other t false ∷ xs) ys = restarts-append name xs ys
restarts-append name (update_policy other ∷ xs) ys = restarts-append name xs ys
restarts-append name (connect_bridge other ∷ xs) ys = restarts-append name xs ys

select-append :
    (test : ℕ → Bool) (xs ys : List ℕ) → select test (xs ++ ys) ≡ select test xs ++ select test ys
select-append test [] ys = refl
select-append test (x ∷ xs) ys = ground (arith, select-append test xs ys)

-- What is recent later was recent before.
recent_before :
    (early late t : ℕ) → early ≤ late → is_recent late t ≡ true → is_recent early t ≡ true
recent_before early late t h = ground arith

not_recent_after :
    (early late t : ℕ) → early ≤ late → is_recent early t ≡ false → is_recent late t ≡ false
not_recent_after early late t h = ground arith

select-select :
    (early late : ℕ) (ts : List ℕ)
    → early ≤ late
    → select (is_recent late) (select (is_recent early) ts) ≡ select (is_recent late) ts
select-select early late [] h = refl
select-select early late (t ∷ ts) h = elim (Bool-cases (is_recent early t)) [
  | inl kept ↦ rw (kept, select-select early late ts h) refl
  | inr dropped ↦
      rw (dropped, not_recent_after early late t h dropped, select-select early late ts h) refl
]

fewer_recent :
    (early late : ℕ) (ts : List ℕ)
    → early ≤ late
    → length (select (is_recent late) ts) ≤ length (select (is_recent early) ts)
fewer_recent early late [] h = omega arith
fewer_recent early late (t ∷ ts) h = ground (arith, fewer_recent early late ts h)

one_recent : (now t : ℕ) → length (select (is_recent now) (t ∷ [])) ≤ 1
one_recent now t = ground arith

-- The history kept for a container shows what the restarts until `last` were, as far as they still
-- count, and they are not too many.
abbrev pub Kept : ℕ → List ℕ → List ℕ → Type 0
Kept last history log =
    (now : ℕ)
    → last ≤ now
    → (select (is_recent now) history ≡ select (is_recent now) log)
      × (length (select (is_recent now) log) ≤ max_rapid_restarts)

pub Kept-select :
    (last early : ℕ) (history log : List ℕ)
    → last ≤ early
    → Kept last history log
    → Kept early (select (is_recent early) history) log
Kept-select last early history log h k now g =
    let here = k now (omega (arith, h, g)) in (select-select early now history g ∙ here.0, here.1)

-- A restart that the check has allowed.
pub Kept-append :
    (early late : ℕ) (history log : List ℕ)
    → early ≤ late
    → Kept early (select (is_recent early) history) log
    → leb max_rapid_restarts (length (select (is_recent early) history)) ≡ false
    → Kept late (select (is_recent early) history ++ late ∷ []) (log ++ late ∷ [])
Kept-append early late history log h k free now g =
    let before = k early (omega arith) in
    let here = k now (omega (arith, h, g)) in
    let kept = select (is_recent early) history in
    let few : length kept ≤ 4 = ground (arith, free) in
    (
      select-append (is_recent now) kept (late ∷ [])
          ∙ ap (λ l. l ++ select (is_recent now) (late ∷ [])) here.0
          ∙ sym (select-append (is_recent now) log (late ∷ [])),
      omega (
        arith,
        few,
        ap length (select-append (is_recent now) log (late ∷ [])),
        length-append (select (is_recent now) log) (select (is_recent now) (late ∷ [])),
        one_recent now late,
        fewer_recent early now log (omega (arith, h, g)),
        ap length before.0,
        ap length (select-select early early history (omega arith)),
      ),
    )

pub later-Kept :
    (last late : ℕ) (history log : List ℕ)
    → last ≤ late
    → Kept last history log
    → Kept late history log
later-Kept last late history log h k now g = k now (omega (arith, h, g))
