-- ===== src/Dhcp/Backoff.antt =====
-- The delays of src/use_cases/dhcp_manager.py.
use native.Mathlib.Nat.{mul-le-mul_left}
use orchestrator_agent.Prelude.{
  ◌≡◌, refl, ℕ, ◌+◌, ◌*◌, ◌/◌, ◌^◌, ◌≤◌, ◌<◌, min, arith, true, some, ltb,
}
use orchestrator_agent.Dhcp.{
  Pending, backoff, jittered, schedule_next_retry, retry_backoff_base, retry_backoff_max,
}

backoff-max : (n d : ℕ) → backoff n ≡ some d → d ≤ retry_backoff_max
unfolding backoff
backoff-max n d h = ground arith

jittered_bounds :
    (draw d : ℕ)
    → draw < 2 ^ 53
    → d ≤ retry_backoff_max
    → (retry_backoff_base ≤ jittered draw d) × (jittered draw d ≤ 390000000)
unfolding jittered
jittered_bounds draw d small bounded =
    let factor : 7 * 2 ^ 53 + 6 * draw ≤ 13 * 2 ^ 53 = omega arith in
    let first : d * (7 * 2 ^ 53 + 6 * draw) ≤ d * (13 * 2 ^ 53) = mul-le-mul_left d factor in
    let top : d * (7 * 2 ^ 53 + 6 * draw) / (10 * 2 ^ 53) ≤ 390000000 = omega arith in ground arith

-- A retry is at least 1 and at most 390 seconds away, and counted, for any random number below
-- 1 and up to 1,022 retries before it.
pub schedule_next_retry_bounds :
    (now draw : ℕ) (p : Pending)
    → draw < 2 ^ 53
    → p.retry_count < 1023
    → (q : Pending) × (schedule_next_retry now draw p ≡ some q)
      × (q.retry_count ≡ p.retry_count + 1)
      × (now + 1000000 ≤ q.next_retry_at)
      × (q.next_retry_at ≤ now + 390000000)
unfolding schedule_next_retry backoff
schedule_next_retry_bounds now draw p small few =
    let delay = min (retry_backoff_base * 2 ^ (p.retry_count + 1)) retry_backoff_max in
    let counted : ltb (p.retry_count + 1) 1024 ≡ true = ground arith in
    let bounded : delay ≤ retry_backoff_max = omega arith in
    let bounds = jittered_bounds draw delay small bounded in
    (
      record p { retry_count = p.retry_count + 1; next_retry_at = now + jittered draw delay },
      rw counted refl,
      refl,
      omega (arith, bounds.0),
      omega (arith, bounds.1),
    )
