-- ===== src/RateLimiting/Send.antt =====
-- rate_limiting.py: `acquire_send_budget`, the wait for a permit before a request is sent.
use llm_plug.Common.{
  ℕ, zero, suc, ◌-◌, String, Bool, true, false, Option, none, some, List, ◌≡◌, subst, refl, arith,
}
use llm_plug.Channel.{Channel}
use llm_plug.Outcomes.State.{Outcomes}
use llm_plug.RateLimiter.{Windows, acquire}
use llm_plug.RateLimiting.{Failure, rate_limit_exceeded, queue_wait, give_up, handle_rate_limit}

-- The error of a wait that found no permit.
abbrev pub queue_timeout_after : ℕ → Failure
queue_timeout_after waited = rate_limit_exceeded (record {
  retry_after = none;
  waited = waited;
  queue_timeout = true;
  error_body = none;
  response = none;
})

-- What the limiter's answer comes to: no error, or that of the time waited; `none` still waits.
unfoldable pub sent_after : ℕ → Option Bool → Option (Option Failure)
sent_after waited none = none
sent_after waited (some true) = some none
sent_after waited (some false) = some (some (queue_timeout_after waited))

-- By the channel's requests per minute; the window is a minute, and the wait is from `start` to
-- `ended`.
unfoldable pub send_within :
    Option ℕ → String → ℕ → ℕ → ℕ → List (ℕ × ℕ) → Windows → Option (Option Failure) × Windows
unfolding sent_after
send_within none id wait_timeout start ended readings windows = (some none, windows)
send_within (some zero) id wait_timeout start ended readings windows = (some none, windows)
send_within (some (suc n)) id wait_timeout start ended readings windows =
    let (answer, windows') = acquire id (suc n) 60000 (some wait_timeout) start readings windows in
    (sent_after (ended - start) answer, windows')

unfoldable pub acquire_send_budget :
    Channel → ℕ → ℕ → ℕ → List (ℕ × ℕ) → Windows → Option (Option Failure) × Windows
unfolding send_within
acquire_send_budget channel wait_timeout start ended readings windows =
    send_within channel.rate_limit_rpm channel.id wait_timeout start ended readings windows

queue_wait_timeout : (waited : ℕ) → queue_wait (queue_timeout_after waited) ≡ some waited
unfolding queue_wait
queue_wait_timeout waited = ground arith

timeout-failover :
    (waited : ℕ) (selected : Channel) (budget : ℕ) (tried : List String) (model : Option String)
    (now : ℕ) (s : Outcomes)
    → (handle_rate_limit
        (queue_timeout_after waited)
        selected
        budget
        tried
        model
        now
        s).did_failover
      ≡ true
unfolding handle_rate_limit give_up
timeout-failover waited selected budget tried model now s =
    rw (queue_wait_timeout waited, handle_rate_limit) refl

sent_after-error :
    (waited : ℕ) (answer : Option Bool) (exc : Failure)
    → sent_after waited answer ≡ some (some exc)
    → queue_timeout_after waited ≡ exc
unfolding sent_after
sent_after-error waited none exc e = cc
sent_after-error waited (some true) exc e = cc
sent_after-error waited (some false) exc e = cc

send-error :
    (rpm : Option ℕ) (id : String) (wait_timeout start ended : ℕ) (readings : List (ℕ × ℕ))
    (windows : Windows) (exc : Failure)
    → (send_within rpm id wait_timeout start ended readings windows).0 ≡ some (some exc)
    → queue_timeout_after (ended - start) ≡ exc
unfolding send_within
send-error none id wait_timeout start ended readings windows exc e = cc
send-error (some zero) id wait_timeout start ended readings windows exc e = cc
send-error (some (suc n)) id wait_timeout start ended readings windows exc e =
    sent_after-error (ended - start)
      (acquire id (suc n) 60000 (some wait_timeout) start readings windows).0 exc e

-- An error of the wait before a request is sent gives the channel up, whatever the budget that is
-- left.
pub handle_rate_limit-acquire_send_budget :
    (channel : Channel) (wait_timeout start ended : ℕ) (readings : List (ℕ × ℕ)) (windows : Windows)
    (exc : Failure) (budget : ℕ) (tried : List String) (model : Option String) (now : ℕ)
    (s : Outcomes)
    → (acquire_send_budget channel wait_timeout start ended readings windows).0 ≡ some (some exc)
    → (handle_rate_limit exc channel budget tried model now s).did_failover ≡ true
unfolding acquire_send_budget
handle_rate_limit-acquire_send_budget channel wait_timeout start ended readings windows exc budget
      tried model now s e =
    subst (λ x. (handle_rate_limit x channel budget tried model now s).did_failover ≡ true)
      (send-error channel.rate_limit_rpm channel.id wait_timeout start ended readings windows exc e)
      (timeout-failover (ended - start) channel budget tried model now s)
