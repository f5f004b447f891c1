-- ===== src/Chunking/Cleanup.antt =====
-- Stale transfers, and the ids of the transfers in flight.
use orchestrator_agent.Prelude.{ℕ, ◌≡◌, String}
use orchestrator_agent.Prelude.Dict.{lookup, IsDistinct}
use orchestrator_agent.Prelude.Sweep.{reject, lookup-sweep}
use orchestrator_agent.Chunking.{ChunkReassembler, is_stale, cleanup_stale}

-- Where no id stands twice: after `cleanup_stale` exactly the transfers that are older than the
-- timeout are gone, and every other one is as it was.
lookup-cleanup_stale :
    (now timeout : ℕ) (tid : String) (r : ChunkReassembler)
    → IsDistinct r.transfers
    → lookup tid (cleanup_stale now timeout r).transfers
      ≡ reject (is_stale now timeout) (lookup tid r.transfers)
unfolding cleanup_stale
lookup-cleanup_stale now timeout tid r h = lookup-sweep (is_stale now timeout) tid r.transfers h
