-- ===== src/GroupProbe/Due.antt =====
-- proxy/group_probe.py: the backoff of the probe.
use llm_plug.Common.{ℕ, zero, suc, ◌+◌, ◌-◌, ◌*◌, ◌^◌, ◌≤◌, some, pair_eq, min, ◌≡◌, arith}
use llm_plug.Channel.{Channel}
use llm_plug.Dict.{get}
use llm_plug.Outcomes.State.{Outcomes}
use llm_plug.Outcomes.Views.{ProbeTarget}
use llm_plug.ModelGroup.{ModelGroup}
use llm_plug.GroupProbe.{ProbeCandidate, due_at, Targets}

-- How long a pair rests after so many failures in a row: the interval, doubled with each failure but
-- the first, and ten minutes at most.
pub backoff : ℕ → ℕ → ℕ
backoff interval zero = min interval 600000
backoff interval (suc zero) = min interval 600000
backoff interval (suc (suc failures)) = min (2 * backoff interval (suc failures)) 600000

-- The candidate carries the row of its pair, and its backoff is over at `now`.
pub record IsDue (degraded : Targets) (interval now : ℕ) (c : ProbeCandidate) : Type 0 where
  pub row : ProbeTarget
  pub found : get (c.model, c.channel_id) degraded ≡ some row
  pub first_failed_at : c.first_failed_at ≡ row.first_failed_at
  pub consecutive_failures : c.consecutive_failures ≡ row.consecutive_failures
  pub next_due_at : c.next_due_at ≡ row.first_failed_at + backoff interval row.consecutive_failures
  pub is_over : c.next_due_at ≤ now

power-le : (n : ℕ) → 1 ≤ 2 ^ n
power-le zero = omega arith
power-le (suc n) = let ih = power-le n in omega arith

mul-le : (i p : ℕ) → 1 ≤ p → i ≤ i * p
mul-le i zero h = absurd (omega arith)
mul-le i (suc p) h = omega arith

-- A pair is due no sooner after its first failure than the interval, or ten minutes if that is
-- less, and no later than ten minutes.
pub due_at-bounds :
    (first failures interval : ℕ)
    → (first + min interval 600000 ≤ due_at first failures interval)
      × (due_at first failures interval ≤ first + 600000)
unfolding due_at
due_at-bounds first failures interval =
    let least = mul-le interval (2 ^ (failures - 1)) (power-le (failures - 1)) in
    (omega arith, omega arith)
