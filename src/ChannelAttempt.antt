-- ===== src/ChannelAttempt.antt =====
-- proxy/channel_attempt.py: the endpoints of a selected channel are tried in order, and the channel
-- is charged with at most one failure. `execute` stands for `execute_endpoint`, followed for a
-- stream by the wait for its first event.
pub mod Fallback
pub mod Charge
use llm_plug.Common.{
  ℕ, String, Bool, true, false, ◌||◌, Option, none, some, List, [], ◌∷◌, if◌then◌else◌,
}
use llm_plug.Channel.{ApiType, Endpoint, Channel}
use llm_plug.Config.{Settings}
use llm_plug.Outcomes.Accounting.{record_outcome, effective_model}
use llm_plug.RateLimiting.{
  Failure, incompatible_request, incompatible_response, other_error, is_rate_limit_exception,
}
use llm_plug.Errors.{classify_failure, is_retryable_exception, is_channel_config_error}
use llm_plug.Conversion.{resolve_endpoint_attempts}
use llm_plug.Dispatcher.{World, with_outcomes, Attempt, served, exhausted, raised}

-- ChannelAttemptInput: the fields that the attempt itself reads.
pub record ChannelAttemptInput : Type 0 where
  pub payload_model : Option String
  pub inbound_api_type : ApiType
  pub requested_model : String
  pub serving_model : String

-- What an endpoint's execution comes to.
pub data Execution (A : Type 0) : Type 0 where
  output : A → Execution A
  error : Failure → Execution A

-- The `except` block: the next endpoint without or with an account of the failure, or a raise.
pub data Reaction : Type 0 where
  skips counts raises : Reaction

unfoldable pub is_incompatible : Failure → Bool
is_incompatible incompatible_request = true
is_incompatible incompatible_response = true
is_incompatible _ = false

unfoldable pub reaction : Failure → Reaction
unfolding is_incompatible
reaction exc =
    if is_incompatible exc
    then skips
    else if is_rate_limit_exception exc
    then raises
    else if is_retryable_exception exc || is_channel_config_error exc
    then counts
    else raises

module _ {E A : Type 0} (execute : Channel → Endpoint → ℕ → World E → Execution A × World E)
    (channel : Channel) (input : ChannelAttemptInput) (wait_budget : ℕ) where
  unfoldable pub charge_failure : Failure → World E → World E
  charge_failure exc w =
      with_outcomes
        (record_outcome
          (effective_model (some input.serving_model) input.payload_model
            (some input.requested_model) channel.id)
          channel.id (classify_failure (some exc) none) w.now none "" w.routing.outcomes)
        w

  -- `record_failure_once`, by whether a failure was recorded before.
  unfoldable pub record_failure_once : Bool → Failure → World E → World E
  unfolding charge_failure
  record_failure_once true exc w = w
  record_failure_once false exc w = charge_failure exc w

  -- The `for` loop, with `failure_recorded` and `last_error`. The assertion after it fails if no
  -- endpoint was tried.
  unfoldable pub try_endpoints :
      Bool → Option Failure → List Endpoint → World E → Attempt (A × Endpoint) × World E
  unfolding record_failure_once
  try_endpoints recorded none [] w = (raised (other_error "AssertionError"), w)
  try_endpoints recorded (some last_error) [] w = (exhausted last_error, w)
  try_endpoints recorded last_error (endpoint ∷ endpoints) w =
      let (execution, w') = execute channel endpoint wait_budget w in
      elim execution [
        | output a ↦ (served (a, endpoint) channel, w')
        | error exc ↦ elim (reaction exc) [
          | skips ↦ try_endpoints recorded (some exc) endpoints w'
          | counts ↦ try_endpoints true (some exc) endpoints (record_failure_once recorded exc w')
          | raises ↦ (raised exc, w')
        ]
      ]

  unfoldable pub try_attempts : List Endpoint → World E → Attempt (A × Endpoint) × World E
  unfolding try_endpoints
  try_attempts [] w = (exhausted (other_error "no available endpoint"), w)
  try_attempts (endpoint ∷ endpoints) w = try_endpoints false none (endpoint ∷ endpoints) w

  unfoldable pub attempt_channel : Settings → World E → Attempt (A × Endpoint) × World E
  unfolding try_attempts
  attempt_channel settings w =
      try_attempts (resolve_endpoint_attempts settings channel input.inbound_api_type) w
