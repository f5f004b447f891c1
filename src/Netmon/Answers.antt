-- ===== src/Netmon/Answers.antt =====
-- Whether the commands of src/repos/netmon_client_repo.py get their own answers.
use orchestrator_agent.Prelude.{
  ◌≡◌, refl, ap, ◌⊎◌, inl, inr, ℕ, Option, none, some, List, [], ◌∷◌, All, either_branch,
}
use orchestrator_agent.Netmon.{
  Result, answered, not_connected, send_failed, timed_out, NetmonClient, init, returned, Sending,
  sent, raises_after, raises_before, written, send_command, got, expired, arrived, Event, send,
  arrive, receive, expire, connect, when_free, step, run,
}

abbrev pub Own : ℕ × Result → Type 0
Own (command, answered other) = other ≡ command
Own (command, not_connected) = Unit
Own (command, send_failed) = Unit
Own (command, timed_out) = Unit

-- While a command waits, its answer is on the way or at hand, and nothing else is.
abbrev Expects : Option ℕ → List ℕ → Option ℕ → Type 0
Expects none in_flight slot = Unit
Expects (some command) in_flight slot =
    ((in_flight ≡ command ∷ []) × (slot ≡ none)) ⊎ ((in_flight ≡ []) × (slot ≡ some command))

abbrev Matched : NetmonClient → Type 0
Matched c = Expects c.waiting c.in_flight c.slot × All Own c.results

abbrev pub Quiet : Option ℕ → List ℕ → Type 0
Quiet none in_flight = in_flight ≡ []
Quiet (some command) in_flight = Unit

-- A command is sent only when netmon has answered all before it. One that waits for the lock is not
-- sent yet.
abbrev pub Prompt : Event → NetmonClient → Type 0
Prompt (send how command) c = Quiet c.waiting c.in_flight
Prompt arrive c = Unit
Prompt receive c = Unit
Prompt expire c = Unit
Prompt (connect on) c = Unit

abbrev pub AllPrompt : List Event → NetmonClient → Type 0
AllPrompt [] c = Unit
AllPrompt (ev ∷ evs) c = Prompt ev c × AllPrompt evs (step ev c)

written-Matched :
    (how : Sending) (command : ℕ) (c : NetmonClient)
    → c.in_flight ≡ []
    → c.slot ≡ none
    → All Own c.results
    → Matched (written how command c)
written-Matched sent command c quiet empty own = (inl (rw quiet refl, empty), own)
written-Matched raises_after command c quiet empty own = (tt, (tt, own))
written-Matched raises_before command c quiet empty own = (tt, (tt, own))

free-Matched :
    (w : Option ℕ) (c next : NetmonClient)
    → Quiet w c.in_flight
    → Matched c
    → (c.in_flight ≡ [] → Matched next)
    → Matched (when_free w c next)
free-Matched none c next quiet h g = g quiet
free-Matched (some command) c next quiet h g = h

got-Matched :
    (w s : Option ℕ) (c : NetmonClient) → Expects w c.in_flight s → Matched c → Matched (got w s c)
got-Matched none s c e h = h
got-Matched (some command) none c e h = h
got-Matched (some command) (some answer) c (inl onway) h = absurd cc
got-Matched (some command) (some answer) c (inr here) h =
    let same : answer ≡ command = cc in (tt, (same, h.1))

expired-Matched : (w s : Option ℕ) (c : NetmonClient) → Matched c → Matched (expired w s c)
expired-Matched none s c h = h
expired-Matched (some command) none c h = (tt, (tt, h.1))
expired-Matched (some command) (some answer) c h = h

arrived-Expects :
    (w : Option ℕ) (flying : List ℕ) (c : NetmonClient)
    → Expects w c.in_flight c.slot
    → c.in_flight ≡ flying
    → Expects w (arrived flying c).in_flight (arrived flying c).slot
arrived-Expects w [] c e same = e
arrived-Expects none (x ∷ rest) c e same = tt
arrived-Expects (some command) (x ∷ rest) c (inl onway) same =
    let own : x ≡ command = cc in inr (cc, rw onway.1 (ap some own))
arrived-Expects (some command) (x ∷ rest) c (inr here) same = absurd cc

arrived_waiting : (flying : List ℕ) (c : NetmonClient) → (arrived flying c).waiting ≡ c.waiting
arrived_waiting [] c = refl
arrived_waiting (x ∷ rest) c = refl

arrived-Matched :
    (flying : List ℕ) (c : NetmonClient)
    → c.in_flight ≡ flying
    → Matched c
    → Matched (arrived flying c)
arrived-Matched [] c same h = h
arrived-Matched (x ∷ rest) c same h = (arrived-Expects c.waiting (x ∷ rest) c h.0 same, h.1)

step-Matched : (ev : Event) (c : NetmonClient) → Prompt ev c → Matched c → Matched (step ev c)
unfolding step send_command
step-Matched (send how command) c quiet h =
    free-Matched c.waiting c (send_command how command c) quiet h (λ nothing.
      either_branch Matched c.writer (written how command (record c { slot = none }))
        (returned command not_connected c)
        (written-Matched how command (record c { slot = none }) nothing refl h.1) (tt, (tt, h.1)))
step-Matched arrive c quiet h = arrived-Matched c.in_flight c refl h
step-Matched receive c quiet h = got-Matched c.waiting c.slot c h.0 h
step-Matched expire c quiet h = expired-Matched c.waiting c.slot c h
step-Matched (connect on) c quiet h = h

run-Matched :
    (evs : List Event) (c : NetmonClient) → AllPrompt evs c → Matched c → Matched (run evs c)
unfolding run
run-Matched [] c p h = h
run-Matched (ev ∷ evs) c p h = run-Matched evs (step ev c) p.1 (step-Matched ev c p.0 h)

-- Where each command is sent when netmon has answered all those before it, every answer that a
-- command returns is its own, also after commands that have timed out or that could not be sent.
pub run-Own : (evs : List Event) → AllPrompt evs init → All Own (run evs init).results
unfolding init
run-Own evs p = (run-Matched evs init p (tt, tt)).1
