-- ===== src/Dhcp/Loops.antt =====
-- How the retry loop of src/use_cases/dhcp_manager.py ends.
use orchestrator_agent.Prelude.{
  ◌≡◌, refl, ap, ◌∙◌, inl, inr, ℕ, zero, suc, ◌+◌, ◌≤◌, String, true, false, none, some, List, [],
  ◌∷◌, arith, length, Bool-cases,
}
use orchestrator_agent.Prelude.Dict.{Dict, IsDistinct, AllValues-lookup, length-remove}
use orchestrator_agent.Dhcp.{
  Pending, DhcpManager, Round, retry, attempt, earliest_of, goes_on, broken, rescheduled, settle,
  round_for, retry_round, is_empty, completed, failed, retry_loop, schedule_next_retry, backoff,
}
use orchestrator_agent.Dhcp.Rounds.{
  earliest_of-IsEarliest, Settles, Enough, Room, RoundEnds, settle-RoundEnds, settle-Enough,
}

round-eq :
    (r : Round) (k : String) (p : Pending) (m : DhcpManager)
    → earliest_of none m.pending_dhcp_resyncs ≡ some (k, p)
    → retry_round r m ≡ settle r k p (attempt r.world r.vnics p) m
unfolding retry_round round_for
round-eq r k p m e = rw e refl

round-RoundEnds :
    (n : ℕ) (r : Round) (m : DhcpManager)
    → IsDistinct m.pending_dhcp_resyncs
    → Room (suc n) m.pending_dhcp_resyncs
    → is_empty m.pending_dhcp_resyncs ≡ false
    → RoundEnds n m (retry_round r m)
round-RoundEnds n r m d room some_left =
    let (k, p, e, here) = earliest_of-IsEarliest m.pending_dhcp_resyncs d some_left in
    rw (round-eq r k p m e) (settle-RoundEnds n r k p (attempt r.world r.vnics p) m d room here.0)

settled_shrinks :
    (r : Round) (m : DhcpManager)
    → Settles r m.pending_dhcp_resyncs
    → IsDistinct m.pending_dhcp_resyncs
    → is_empty m.pending_dhcp_resyncs ≡ false
    → length m.pending_dhcp_resyncs ≡ length (retry_round r m).1.pending_dhcp_resyncs + 1
unfolding settle
settled_shrinks r m settles d some_left =
    let (k, p, e, here) = earliest_of-IsEarliest m.pending_dhcp_resyncs d some_left in
    let gone = AllValues-lookup _ k m.pending_dhcp_resyncs settles here.0 in
    rw (round-eq r k p m e, gone) (length-remove k p m.pending_dhcp_resyncs d here.0)

round-Enough :
    (n : ℕ) (rs : List Round) (r : Round) (m : DhcpManager)
    → IsDistinct m.pending_dhcp_resyncs
    → is_empty m.pending_dhcp_resyncs ≡ false
    → Enough n rs m.pending_dhcp_resyncs
    → Enough n rs (retry_round r m).1.pending_dhcp_resyncs
round-Enough n rs r m d some_left enough =
    let (k, p, e, here) = earliest_of-IsEarliest m.pending_dhcp_resyncs d some_left in
    rw (round-eq r k p m e) (settle-Enough n rs r k p (attempt r.world r.vnics p) m here.0 enough)

-- The loop's next step, while it runs and has entries.
loop_step :
    (r : Round) (rs : List Round) (m : DhcpManager)
    → m.running ≡ true
    → is_empty m.pending_dhcp_resyncs ≡ false
    → (retry_round r m).0 ≡ goes_on
    → retry_loop (r ∷ rs) m ≡ retry_loop rs (retry_round r m).1
unfolding retry_loop
loop_step r rs m on some_left e = rw (e, some_left, on) refl

loop_empty :
    (rs : List Round) (m : DhcpManager)
    → is_empty m.pending_dhcp_resyncs ≡ true
    → retry_loop rs m ≡ (completed, m)
unfolding retry_loop
loop_empty [] m e = ground arith
loop_empty (r ∷ rs) m e = ground arith

is_empty-length : (m : Dict Pending) → length m ≡ 0 → is_empty m ≡ true
is_empty-length [] h = refl
is_empty-length (e ∷ m) h = absurd (omega arith)

-- The retry loop completes with nothing pending when it runs and, among the rounds that it makes, at
-- least as many as there are entries have the attempt for any entry of the table succeed or find the
-- entry void; the other rounds may fail in any way. For a table that has each key once, and entries whose counts leave
-- room for that many rounds below 1,024.
pub retry_loop_completes :
    (n : ℕ) (rs : List Round) (m : DhcpManager)
    → m.running ≡ true
    → IsDistinct m.pending_dhcp_resyncs
    → Room (length rs) m.pending_dhcp_resyncs
    → length m.pending_dhcp_resyncs ≤ n
    → Enough n rs m.pending_dhcp_resyncs
    → ((retry_loop rs m).0 ≡ completed) × (is_empty (retry_loop rs m).1.pending_dhcp_resyncs ≡ true)
unfolding RoundEnds
retry_loop_completes zero rs m on d room few enough =
    let none_left = is_empty-length m.pending_dhcp_resyncs (omega arith) in
    rw (loop_empty rs m none_left) (refl, none_left)
retry_loop_completes (suc n) [] m on d room few enough = absurd enough
retry_loop_completes (suc n) (r ∷ rs) m on d room few enough =
    elim (Bool-cases (is_empty m.pending_dhcp_resyncs)) [
      | inl none_left ↦ rw (loop_empty (r ∷ rs) m none_left) (refl, none_left)
      | inr some_left ↦
          let (goes, running, distinct, room_left, fewer) =
            round-RoundEnds (length rs) r m d room some_left in
          rw (loop_step r rs m on some_left goes) (elim enough [
            | inl (settles, rest) ↦
                let shrunk = settled_shrinks r m settles d some_left in
                retry_loop_completes n rs (retry_round r m).1 (running ∙ on) distinct room_left
                  (omega (arith, shrunk)) (round-Enough n rs r m d some_left rest)
            | inr rest ↦
                retry_loop_completes (suc n) rs (retry_round r m).1 (running ∙ on) distinct
                  room_left (omega (arith, fewer)) (round-Enough (suc n) rs r m d some_left rest)
          ])
    ]

overflow : (n : ℕ) → 1024 ≤ n → backoff n ≡ none
unfolding backoff
overflow n h = ground arith

loop_broken :
    (r : Round) (rs : List Round) (m : DhcpManager)
    → m.running ≡ true
    → is_empty m.pending_dhcp_resyncs ≡ false
    → (retry_round r m).0 ≡ broken
    → retry_loop (r ∷ rs) m ≡ (failed, (retry_round r m).1)
unfolding retry_loop
loop_broken r rs m on some_left e = rw (e, some_left, on) refl

-- When the entry that is due has been put off 1,023 times and its next attempt fails as well, the
-- loop fails: the delay overflows, the table stays as it is, and nothing pending is retried.
pub retry_loop_overflows :
    (r : Round) (rs : List Round) (k : String) (p : Pending) (m : DhcpManager)
    → m.running ≡ true
    → is_empty m.pending_dhcp_resyncs ≡ false
    → earliest_of none m.pending_dhcp_resyncs ≡ some (k, p)
    → 1023 ≤ p.retry_count
    → attempt r.world r.vnics p ≡ retry
    → retry_loop (r ∷ rs) m ≡ (failed, m)
unfolding settle schedule_next_retry rescheduled
retry_loop_overflows r rs k p m on some_left e many again =
    let over : backoff (p.retry_count + 1) ≡ none = overflow (p.retry_count + 1) (omega arith) in
    let ends : retry_round r m ≡ (broken, m) = round-eq r k p m e ∙ rw (again, over) refl in
    loop_broken r rs m on some_left (ap (λ x. x.0) ends) ∙ ap (λ x. (failed, x.1)) ends
