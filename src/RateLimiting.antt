-- ===== src/RateLimiting.antt =====
-- rate_limiting.py: what a rate-limit error costs of a request's waiting budget, and when the
-- channel is given up. proxy/errors.py: the exceptions that routing tells apart.

pub mod Budget
pub mod Send
use llm_plug.Common.{
  ℕ, zero, suc, ◌+◌, ◌-◌, String, Bool, true, false, Option, none, some, List, [], ◌∷◌, ◌||◌, ◌&&◌,
  if◌then◌else◌, ◌==◌, string_eq, nat_eq, ltb, leb, max, not, contains,
}
use llm_plug.Channel.{Channel}
use llm_plug.Outcomes.State.{Outcomes, OutcomeKind}
use llm_plug.Outcomes.Accounting.{record_outcome}

-- quota_limits/models.py. `none` is a body that does not give the end of the window.
pub record QuotaLimitInfo : Type 0 where
  pub code : String
  pub reset_at : Option ℕ

-- An upstream's error body: not an object, or the `code` of its `error` (none if `error` is no
-- object) with the time that the regular expression and `strptime` find in the message.
pub data ErrorBody : Type 0 where
  not_object : ErrorBody
  error_object : Option String → Option ℕ → ErrorBody

-- httpx.HTTPStatusError, with the Retry-After header as `_parse_retry_after` reads it.
pub record HttpStatusError : Type 0 where
  pub status_code : ℕ
  pub retry_after : Option ℕ
  pub body : Option ErrorBody

pub record RateLimitExceeded : Type 0 where
  pub retry_after : Option ℕ
  pub waited : ℕ
  pub queue_timeout : Bool
  pub error_body : Option ErrorBody
  pub response : Option HttpStatusError

-- The exceptions that an attempt may raise, as far as the code tells them apart.
pub data Failure : Type 0 where
  rate_limit_exceeded : RateLimitExceeded → Failure
  http_status : HttpStatusError → Failure
  upstream_stream_error empty_stream converter_error timeout transport json_decode : Failure
  profile_resolution incompatible_request incompatible_response sensitive_block : Failure
  other_error : String → Failure

unfoldable pub is_rate_limit_exception : Failure → Bool
is_rate_limit_exception (rate_limit_exceeded e) = true
is_rate_limit_exception (http_status e) = e.status_code == 429
is_rate_limit_exception _ = false

unfoldable pub rate_limit_retry_after : Failure → Option ℕ
rate_limit_retry_after (rate_limit_exceeded e) = e.retry_after
rate_limit_retry_after (http_status e) = if e.status_code == 429 then e.retry_after else none
rate_limit_retry_after _ = none

-- quota_limits/vendors/ark.py: `match`, the one adapter that is registered.
unfoldable pub match_ark : ErrorBody → Option QuotaLimitInfo
match_ark not_object = none
match_ark (error_object none reset_at) = none
match_ark (error_object (some code) reset_at) =
    if code == "AccountQuotaExceeded"
    then some (record { code = "AccountQuotaExceeded"; reset_at = reset_at })
    else none

unfoldable pub detect_body : Option ErrorBody → Option QuotaLimitInfo
unfolding match_ark
detect_body none = none
detect_body (some body) = match_ark body

unfoldable pub detect_exception : Failure → Option QuotaLimitInfo
unfolding detect_body
detect_exception (rate_limit_exceeded e) = detect_body e.error_body
detect_exception (http_status e) = detect_body e.body
detect_exception _ = none

-- `waited > 0 or queue_timeout`, with the time that the send queue has used up already.
unfoldable pub queue_wait : Failure → Option ℕ
queue_wait (rate_limit_exceeded e) =
    if ltb 0 e.waited || e.queue_timeout then some e.waited else none
queue_wait _ = none

unfoldable pub record_rate_limit_exhausted : Channel → Option String → ℕ → Outcomes → Outcomes
record_rate_limit_exhausted selected none now s = s
record_rate_limit_exhausted selected (some model) now s =
    if model == ""
    then s
    else record_outcome model selected.id OutcomeKind.rate_limit_exhausted now none "" s

-- One second without a suggestion, and never less than 0.1 seconds.
unfoldable pub delay_of : Option ℕ → ℕ
delay_of none = 1000
delay_of (some t) = max t 100

-- What is left of the budget, whether the channel is given up, and the time slept.
pub record Waited : Type 0 where
  pub wait_budget : ℕ
  pub did_failover : Bool
  pub slept : ℕ
  pub tried : List String
  pub outcomes : Outcomes

-- The set of tried channels is a list without duplicates in any order: `add` puts in front.
unfoldable pub add_tried : String → List String → List String
add_tried id tried = if contains id tried then tried else id ∷ tried

unfoldable pub give_up : Channel → Option String → ℕ → ℕ → List String → Outcomes → Waited
unfolding record_rate_limit_exhausted add_tried
give_up selected model now budget tried s = record {
  wait_budget = budget;
  did_failover = true;
  slept = 0;
  tried = add_tried selected.id tried;
  outcomes = record_rate_limit_exhausted selected model now s;
}

unfoldable pub wait_or_give_up :
    ℕ → Channel → Option String → ℕ → ℕ → List String → Outcomes → Waited
unfolding give_up
wait_or_give_up delay selected model now budget tried s =
    if leb delay budget
    then record {
      wait_budget = budget - delay;
      did_failover = false;
      slept = delay;
      tried = tried;
      outcomes = s;
    }
    else give_up selected model now budget tried s

unfoldable pub handle_rate_limit :
    Failure → Channel → ℕ → List String → Option String → ℕ → Outcomes → Waited
unfolding queue_wait delay_of rate_limit_retry_after wait_or_give_up
handle_rate_limit exc selected budget tried model now s = elim (queue_wait exc) [
  | some waited ↦ give_up selected model now (budget - waited) tried s
  | none ↦ wait_or_give_up (delay_of (rate_limit_retry_after exc)) selected model now budget tried s
]
