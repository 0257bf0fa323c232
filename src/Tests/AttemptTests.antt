-- ===== src/Tests/AttemptTests.antt =====
-- proxy/conversion.py and proxy/channel_attempt.py: the theorems at concrete inputs.
use llm_plug.Common.{
  ℕ, Bool, true, false, none, some, [], ◌∷◌, ◌≡◌, refl, Has, ◌↔◌, string_eq, nat_eq,
}
use llm_plug.Channel.{Channel, Endpoint, ApiType, openai_chat, openai_response, anthropic}
use llm_plug.Outcomes.State.{OutcomeKind}
use llm_plug.RateLimiting.{Failure, http_status}
use llm_plug.Conversion.{
  resolve_endpoint_attempts, conversion_allowed, get_converter_for_endpoint, to_chat, to_anthropic,
  same_type,
}
use llm_plug.Conversion.Attempts
use llm_plug.Conversion.Attempts.{Servable, IsSorted, place}
use llm_plug.Conversion.Order
use llm_plug.Conversion.Order.{converter_to}
use llm_plug.Outcomes.Accounting.{record_outcome}
use llm_plug.Dispatcher.{with_outcomes, World, served, exhausted}
use llm_plug.ChannelAttempt.{
  ChannelAttemptInput, Execution, output, error, attempt_channel, reaction,
}
use llm_plug.ChannelAttempt.Fallback
use llm_plug.ChannelAttempt.Fallback.{IsServedBy, AllPassed}
use llm_plug.ChannelAttempt.Charge
use llm_plug.ChannelAttempt.Charge.{ChargedOnce}
use llm_plug.Tests.OutcomesTests.{settings}
use llm_plug.Tests.DispatchTests.{world}

abbrev pub endpoint_of : ApiType → Bool → Endpoint
endpoint_of api_type enabled = record {
  api_type = api_type;
  base_url = "https://upstream.example";
  url_override = none;
  enabled = enabled;
}

abbrev pub channel : Channel
channel = record {
  id = "ch_a";
  models = "gpt" ∷ [];
  enabled = true;
  weight = 1;
  priority = 1;
  rate_limit_rpm = none;
  allow_format_conversion = none;
  endpoints =
      endpoint_of openai_response true
      ∷ endpoint_of openai_chat false
      ∷ endpoint_of anthropic true
      ∷ [];
}

abbrev input : ChannelAttemptInput
input = record {
  payload_model = some "gpt";
  inbound_api_type = openai_chat;
  requested_model = "gpt";
  serving_model = "gpt";
}

attempts :
    resolve_endpoint_attempts settings channel openai_chat
    ≡ endpoint_of anthropic true ∷ endpoint_of openai_response true ∷ []
unfolding resolve_endpoint_attempts same_type llm_plug.Conversion.by_priority
attempts = refl

resolve_endpoint_attempts_iff_example :
    Has (endpoint_of anthropic true) (resolve_endpoint_attempts settings channel openai_chat) ↔ (
      Has (endpoint_of anthropic true) channel.endpoints
      × (true ≡ true)
      × Servable (conversion_allowed settings channel) openai_chat (endpoint_of anthropic true))
resolve_endpoint_attempts_iff_example =
    Attempts.resolve_endpoint_attempts_iff settings channel openai_chat (endpoint_of anthropic true)

resolve_endpoint_attempts-IsSorted_example :
    IsSorted
      (λ ep. place openai_chat ep.api_type)
      (resolve_endpoint_attempts settings channel openai_chat)
resolve_endpoint_attempts-IsSorted_example =
    Order.resolve_endpoint_attempts-IsSorted settings channel openai_chat

abbrev unavailable : Failure
unavailable = http_status (record { status_code = 503; retry_after = none; body = none })

-- Anthropic fails with a 503, Responses answers.
abbrev pub answer : ApiType → Execution ℕ
answer anthropic = error unavailable
answer _ = output 7

abbrev execute : Channel → Endpoint → ℕ → World Unit → Execution ℕ × World Unit
execute ch ep budget w = (answer ep.api_type, w)

abbrev refuse : Channel → Endpoint → ℕ → World Unit → Execution ℕ × World Unit
refuse ch ep budget w = (error unavailable, w)

-- The second endpoint answers, and its execution records the success itself.
abbrev succeeding : Execution ℕ → World Unit → World Unit
succeeding (output n) w =
    with_outcomes
      (record_outcome "gpt" channel.id OutcomeKind.success w.now none "" w.routing.outcomes) w
succeeding (error exc) w = w

abbrev recording : Channel → Endpoint → ℕ → World Unit → Execution ℕ × World Unit
recording ch ep budget w = (answer ep.api_type, succeeding (answer ep.api_type) w)

attempt_channel-ChargedOnce_example :
    ChargedOnce recording channel input 0
      (resolve_endpoint_attempts settings channel input.inbound_api_type)
      world
      (attempt_channel recording channel input 0 settings world).1
attempt_channel-ChargedOnce_example =
    Charge.attempt_channel-ChargedOnce recording channel input 0 settings world

abbrev served_world : World Unit
served_world = (attempt_channel execute channel input 0 settings world).1

abbrev refused_world : World Unit
refused_world = (attempt_channel refuse channel input 0 settings world).1

served_second :
    attempt_channel execute channel input 0 settings world
    ≡ (served (7, endpoint_of openai_response true) channel, served_world)
unfolding llm_plug.ChannelAttempt.attempt_channel llm_plug.Conversion.resolve_endpoint_attempts
    same_type llm_plug.Conversion.by_priority reaction llm_plug.RateLimiting.is_rate_limit_exception
    llm_plug.Errors.is_retryable_exception
served_second = refl

attempt_channel-served_example :
    Has (endpoint_of openai_response true) (resolve_endpoint_attempts settings channel openai_chat)
    × ((v : World Unit) × IsServedBy execute channel input 0 7
          (endpoint_of openai_response true)
          channel
          served_world
          v)
attempt_channel-served_example =
    Fallback.attempt_channel-served execute channel input 0 settings world 7
      (endpoint_of openai_response true) channel served_world served_second

refused_both :
    attempt_channel refuse channel input 0 settings world ≡ (exhausted unavailable, refused_world)
unfolding llm_plug.ChannelAttempt.attempt_channel llm_plug.Conversion.resolve_endpoint_attempts
    same_type llm_plug.Conversion.by_priority reaction llm_plug.RateLimiting.is_rate_limit_exception
    llm_plug.Errors.is_retryable_exception
refused_both = refl
