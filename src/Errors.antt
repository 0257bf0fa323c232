-- ===== src/Errors.antt =====
-- proxy/errors.py: which exceptions let a request go on elsewhere, and which outcome they count as.
use llm_plug.Common.{
  ℕ, Bool, true, false, ◌||◌, ◌&&◌, Option, none, some, if◌then◌else◌, ◌==◌, nat_eq, ltb, leb,
}
use llm_plug.Outcomes.State.{OutcomeKind}
use llm_plug.RateLimiting.{
  Failure, http_status, upstream_stream_error, empty_stream, converter_error, timeout, transport,
  json_decode, profile_resolution, is_rate_limit_exception,
}

-- _HTTP_4XX_CONFIG_CODES
unfoldable pub is_config_code : ℕ → Bool
is_config_code status = (status == 401) || (status == 403) || (status == 404)

unfoldable pub classify_status_code : ℕ → OutcomeKind
unfolding is_config_code
classify_status_code status =
    if is_config_code status
    then OutcomeKind.http_4xx_config
    else if leb 500 status && ltb status 600
    then OutcomeKind.http_5xx
    else if status == 429
    then OutcomeKind.http_429
    else OutcomeKind.transport_failure

-- The exception, and the status that counts where there is none.
unfoldable pub classify_failure : Option Failure → Option ℕ → OutcomeKind
unfolding classify_status_code
classify_failure (some (http_status e)) status = classify_status_code e.status_code
classify_failure (some _) status = OutcomeKind.transport_failure
classify_failure none (some status) = classify_status_code status
classify_failure none none = OutcomeKind.transport_failure

unfoldable pub is_retryable_exception : Failure → Bool
is_retryable_exception upstream_stream_error = true
is_retryable_exception empty_stream = true
is_retryable_exception (http_status e) =
    is_rate_limit_exception (http_status e) || (leb 500 e.status_code && ltb e.status_code 600)
is_retryable_exception converter_error = true
is_retryable_exception timeout = true
is_retryable_exception transport = true
is_retryable_exception json_decode = true
is_retryable_exception _ = false

unfoldable pub is_channel_config_error : Failure → Bool
unfolding is_config_code
is_channel_config_error profile_resolution = true
is_channel_config_error (http_status e) = is_config_code e.status_code
is_channel_config_error _ = false
