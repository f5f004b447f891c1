-- ===== src/Dhcp/Rounds.antt =====
-- The retry loop of src/use_cases/dhcp_manager.py, round by round.
use orchestrator_agent.Prelude.{
  ◌≡◌, refl, ℕ, zero, suc, ◌+◌, ◌≤◌, ◌<◌, String, true, false, none, some, List, [], ◌∷◌, arith,
  ltb, length, str_eq, eq_iff, Bool-cases, Option-cases, ◌∙◌, Option, inl, inr, ◌⊎◌,
}
use orchestrator_agent.Prelude.Dict.{
  Dict, lookup, contains, IsDistinct, insert-IsDistinct, remove-IsDistinct, AllValues,
  AllValues-insert, AllValues-remove, AllValues-lookup, length-remove, length-insert_present,
}
use orchestrator_agent.Vnics.{VnicConfig}
use orchestrator_agent.Dhcp.{
  World, Container, Found, found, not_found, lookup_raises, macvlan_of, vnic_named, attempt_macvlan,
  attempt_vnic, attempt_on, vnics_or_none, Pending, DhcpManager, Round, Verdict, drop, retry,
  attempt, earliest_of, Loop, goes_on, rescheduled, settle, is_empty, schedule_next_retry, backoff,
}

-- The entry is in the table, and none is due before it.
abbrev IsEarliest : String × Pending → Dict Pending → Type 0
IsEarliest (k, p) m = (lookup k m ≡ some p) × AllValues (λ q. p.next_retry_at ≤ q.next_retry_at) m

earliest_of-some :
    (j : String) (q : Pending) (m : Dict Pending)
    → (k : String) × (p : Pending) × (earliest_of (some (j, q)) m ≡ some (k, p))
      × (p.next_retry_at ≤ q.next_retry_at)
      × AllValues (λ s. p.next_retry_at ≤ s.next_retry_at) m
unfolding earliest_of
earliest_of-some j q [] = (j, q, refl, omega arith, tt)
earliest_of-some j q ((k, p) ∷ m) = elim (Bool-cases (ltb p.next_retry_at q.next_retry_at)) [
  | inl sooner ↦
      let (i, s, e, least, all) = earliest_of-some k p m in
      (i, s, rw sooner e, ground arith, (least, all))
  | inr later ↦
      let (i, s, e, least, all) = earliest_of-some j q m in
      (i, s, rw later e, least, (ground arith, all))
]

-- Where the earliest entry comes from: it is the one to beat, or an entry of the table.
earliest_of-lookup :
    (j k : String) (q p : Pending) (m : Dict Pending)
    → IsDistinct m
    → earliest_of (some (j, q)) m ≡ some (k, p)
    → ((j ≡ k) × (q ≡ p)) ⊎ ((contains k m ≡ true) × (lookup k m ≡ some p))
unfolding earliest_of lookup contains
earliest_of-lookup j k q p [] d h = inl (ground arith)
earliest_of-lookup j k q p ((i, s) ∷ m) d h =
    elim (Bool-cases (ltb s.next_retry_at q.next_retry_at)) [
      | inl sooner ↦ elim (earliest_of-lookup i k s p m d.1 (rw sooner at h)) [
        | inl (same, value) ↦ inr (ground (arith, eq_iff i k), ground (arith, eq_iff i k))
        | inr (there, value) ↦
            let other : str_eq i k ≡ false = ground (arith, eq_iff i k, d.0) in
            inr (rw (other, there) refl, rw other value)
      ]
      | inr later ↦ elim (earliest_of-lookup j k q p m d.1 (rw later at h)) [
        | inl same ↦ inl same
        | inr (there, value) ↦
            let other : str_eq i k ≡ false = ground (arith, eq_iff i k, d.0) in
            inr (rw (other, there) refl, rw other value)
      ]
    ]

-- A table with entries has an earliest one, for a table that has each key once.
pub earliest_of-IsEarliest :
    (m : Dict Pending)
    → IsDistinct m
    → is_empty m ≡ false
    → (k : String) × (p : Pending) × (earliest_of none m ≡ some (k, p)) × IsEarliest (k, p) m
unfolding earliest_of lookup
earliest_of-IsEarliest [] d h = absurd (ground arith)
earliest_of-IsEarliest ((j, q) ∷ m) d h =
    let (k, p, e, least, all) = earliest_of-some j q m in
    elim (earliest_of-lookup j k q p m d.1 e) [
      | inl (same, value) ↦ (k, p, e, (ground (arith, eq_iff j k), (least, all)))
      | inr (there, value) ↦
          let other : str_eq j k ≡ false = ground (arith, eq_iff j k, d.0) in
          (k, p, e, (rw other value, (least, all)))
    ]

-- An attempt for any entry of the table has its verdict to drop in this round.
abbrev pub Settles : Round → Dict Pending → Type 0
Settles r = AllValues (λ p. attempt r.world r.vnics p ≡ drop)

-- At least `n` of the rounds settle the table's entries; the others may go in any way.
abbrev pub Enough : ℕ → List Round → Dict Pending → Type 0
Enough zero rs m = Unit
Enough (suc n) [] m = ⊥
Enough (suc n) (r ∷ rs) m = (Settles r m × Enough n rs m) ⊎ Enough (suc n) rs m

-- An attempt does not look at how often and when an entry is tried.
abbrev again : ℕ → ℕ → Pending → Pending
again n t p = record p { retry_count = n; next_retry_at = t }

attempt_macvlan-again :
    (w : World) (n t : ℕ) (p : Pending) (v : VnicConfig) (pid : ℕ)
    (net : Option (String × Option String))
    → attempt_macvlan w (again n t p) v pid net ≡ attempt_macvlan w p v pid net
unfolding attempt_macvlan
attempt_macvlan-again w n t p v pid none = refl
attempt_macvlan-again w n t p v pid (some (net, none)) = refl
attempt_macvlan-again w n t p v pid (some (net, some mac)) = refl

attempt_vnic-again :
    (w : World) (n t : ℕ) (p : Pending) (c : Container) (v : Option VnicConfig)
    → attempt_vnic w (again n t p) c v ≡ attempt_vnic w p c v
unfolding attempt_vnic
attempt_vnic-again w n t p c none = refl
attempt_vnic-again w n t p c (some v) =
    rw (attempt_macvlan-again w n t p v c.pid (macvlan_of p.parent_interface c.networks)) refl

attempt_on-again :
    (w : World) (vnics : Dict (List VnicConfig)) (n t : ℕ) (p : Pending) (f : Found)
    → attempt_on w vnics (again n t p) f ≡ attempt_on w vnics p f
unfolding attempt_on
attempt_on-again w vnics n t p not_found = refl
attempt_on-again w vnics n t p lookup_raises = refl
attempt_on-again w vnics n t p (found c) =
    rw
      (attempt_vnic-again w n t p c
        (vnic_named p.vnic_name (vnics_or_none (lookup p.container_name vnics))))
      refl

attempt-again :
    (r : Round) (n t : ℕ) (p : Pending)
    → attempt r.world r.vnics p ≡ drop
    → attempt r.world r.vnics (again n t p) ≡ drop
unfolding attempt
attempt-again r n t p h =
    attempt_on-again r.world r.vnics n t p (r.world.get_container p.container_name) ∙ h

-- What settles the entries before a round settles those after it.
settle-Settles :
    (s r : Round) (k : String) (p : Pending) (v : Verdict) (m : DhcpManager)
    → lookup k m.pending_dhcp_resyncs ≡ some p
    → Settles s m.pending_dhcp_resyncs
    → Settles s (settle r k p v m).1.pending_dhcp_resyncs
unfolding settle rescheduled schedule_next_retry
settle-Settles s r k p drop m e h = AllValues-remove _ k m.pending_dhcp_resyncs h
settle-Settles s r k p retry m e h = elim (Option-cases (backoff (p.retry_count + 1))) [
  | inl over ↦ rw over h
  | inr (delay, some_delay) ↦ rw some_delay (
      AllValues-insert _ k _ m.pending_dhcp_resyncs h
        (attempt-again s _ _ p (AllValues-lookup _ k m.pending_dhcp_resyncs h e)))
]

pub settle-Enough :
    (n : ℕ) (rs : List Round) (r : Round) (k : String) (p : Pending) (v : Verdict) (m : DhcpManager)
    → lookup k m.pending_dhcp_resyncs ≡ some p
    → Enough n rs m.pending_dhcp_resyncs
    → Enough n rs (settle r k p v m).1.pending_dhcp_resyncs
settle-Enough zero rs r k p v m e h = tt
settle-Enough (suc n) [] r k p v m e h = absurd h
settle-Enough (suc n) (s ∷ rs) r k p v m e (inl (here, rest)) =
    inl (settle-Settles s r k p v m e here, settle-Enough n rs r k p v m e rest)
settle-Enough (suc n) (s ∷ rs) r k p v m e (inr rest) =
    inr (settle-Enough (suc n) rs r k p v m e rest)

Verdict-cases : (v : Verdict) → (v ≡ drop) ⊎ (v ≡ retry)
Verdict-cases drop = inl refl
Verdict-cases retry = inr refl

-- Every entry can be retried for `n` rounds more without an overflow.
abbrev pub Room : ℕ → Dict Pending → Type 0
Room n = AllValues (λ p. p.retry_count + n < 1024)

AllValues-map :
    {P Q : Pending → Type 0} (m : Dict Pending)
    → ((p : Pending) → P p → Q p)
    → AllValues P m
    → AllValues Q m
AllValues-map [] f h = tt
AllValues-map ((k, p) ∷ m) f h = (f p h.0, AllValues-map m f h.1)

Room-less : (n : ℕ) (m : Dict Pending) → Room (suc n) m → Room n m
Room-less n m = AllValues-map m (λ p h. omega arith)

-- What a round does to the table: an entry leaves it, or one is put off.
unfoldable pub RoundEnds : ℕ → DhcpManager → Loop × DhcpManager → Type 0
RoundEnds n m r =
    (r.0 ≡ goes_on)
    × (r.1.running ≡ m.running)
    × IsDistinct r.1.pending_dhcp_resyncs
    × Room n r.1.pending_dhcp_resyncs
    × (length r.1.pending_dhcp_resyncs ≤ length m.pending_dhcp_resyncs)

pub settle-RoundEnds :
    (n : ℕ) (r : Round) (k : String) (p : Pending) (v : Verdict) (m : DhcpManager)
    → IsDistinct m.pending_dhcp_resyncs
    → Room (suc n) m.pending_dhcp_resyncs
    → lookup k m.pending_dhcp_resyncs ≡ some p
    → RoundEnds n m (settle r k p v m)
unfolding RoundEnds settle rescheduled schedule_next_retry backoff
settle-RoundEnds n r k p drop m d room h = (
  refl,
  refl,
  remove-IsDistinct k m.pending_dhcp_resyncs d,
  AllValues-remove _ k m.pending_dhcp_resyncs (Room-less n m.pending_dhcp_resyncs room),
  omega (arith, length-remove k p m.pending_dhcp_resyncs d h),
)
settle-RoundEnds n r k p retry m d room h =
    let few = AllValues-lookup _ k m.pending_dhcp_resyncs room h in
    let counted : ltb (p.retry_count + 1) 1024 ≡ true = ground arith in
    rw counted (
      refl,
      refl,
      insert-IsDistinct k _ m.pending_dhcp_resyncs d,
      AllValues-insert _ k _ m.pending_dhcp_resyncs (Room-less n m.pending_dhcp_resyncs room)
          (omega (arith, few)),
      omega (arith, length-insert_present k p _ m.pending_dhcp_resyncs h),
    )
