-- ===== src/Tests/LimitTests.antt =====
-- rate_limiter.py and rate_limiting.py: the theorems at concrete inputs.
use llm_plug.Common.{◌≤◌, Bool, some, List, [], ◌∷◌, ◌≡◌, refl, arith, ltb, string_eq}
use llm_plug.RateLimiter.{poll, acquire}
use llm_plug.RateLimiter.Permits
use llm_plug.RateLimiter.Permits.{given}
use llm_plug.RateLimiter.Window.{Event, polled, recent, within, replay, issued, latest, is_granted}
use llm_plug.RateLimiter.Waiting
use llm_plug.RateLimiting.Send.{acquire_send_budget, queue_timeout_after}
use llm_plug.Channel.{Channel}
use llm_plug.Dict.{get_or}
use llm_plug.RateLimiting.Budget
use llm_plug.Tests.BalancerTests.{heavy}

-- Two permits, a refused poll, one for another channel, and a third permit after the window.
abbrev polls : List Event
polls =
    polled "ch_a" 2 60000
    ∷ polled "ch_b" 2 1500
    ∷ polled "ch_a" 2 1000
    ∷ polled "ch_a" 2 500
    ∷ polled "ch_a" 2 0
    ∷ []

poll-issued_example :
    is_granted (poll "ch_a" 2 60000 60100 (replay 60000 polls)).0
    ≡ ltb (recent 60000 60100 (issued 60000 "ch_a" polls)) 2
unfolding latest
poll-issued_example =
    Permits.poll-issued 60000 "ch_a" 2 60100 polls
      (omega arith, (omega arith, (omega arith, (omega arith, (omega arith, tt))))) (omega arith)

within-given_example : within 60000 60000 (given 60000 "ch_a" polls) ≤ 2
unfolding latest
within-given_example =
    Permits.within-given 60000 "ch_a" 2 polls
      (omega arith, (omega arith, (omega arith, (omega arith, (omega arith, tt)))))
      (
        λ e. omega arith,
        (λ e. omega arith, (λ e. omega arith, (λ e. omega arith, (λ e. omega arith, tt)))),
      )
      60000

permits : issued 60000 "ch_a" polls ≡ 60000 ∷ 500 ∷ 0 ∷ []
unfolding issued recent
permits = refl

acquire-returns_example :
    (answer : Bool) × ((acquire "ch_a" 1 60000
        (some 2)
        100
        ((100, 101) ∷ (102, 102) ∷ (103, 104) ∷ [])
        (("ch_a", 50 ∷ []) ∷ [])).0
      ≡ some answer)
acquire-returns_example =
    Waiting.acquire-returns "ch_a" 1 60000 2 100 ((100, 101) ∷ (102, 102) ∷ (103, 104) ∷ [])
      (("ch_a", 50 ∷ []) ∷ [])
      (omega arith, omega arith, (omega arith, omega arith, (omega arith, omega arith, tt)))
      (omega arith)

-- The heavy channel, with one request a minute.
abbrev slow : Channel
slow = record heavy { rate_limit_rpm = some 1 }

out_of_permits :
    (acquire_send_budget slow 0 100 130 ((110, 120) ∷ []) (("ch_a", 50 ∷ []) ∷ [])).0
    ≡ some (some (queue_timeout_after 30))
unfolding acquire_send_budget acquire poll get_or
out_of_permits = refl
