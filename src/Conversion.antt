-- ===== src/Conversion.antt =====
-- proxy/conversion.py: the order in which a channel's endpoints are tried for an inbound format.
pub mod Attempts
pub mod Order
use llm_plug.Common.{
  ℕ, Bool, true, false, Option, none, some, List, [], ◌∷◌, ◌++◌, if◌then◌else◌, not, leb, keep,
}
use llm_plug.Channel.{ApiType, openai_chat, openai_response, anthropic, Endpoint, Channel}
use llm_plug.Config.{Settings}

unfoldable pub same_type : ApiType → ApiType → Bool
same_type openai_chat openai_chat = true
same_type openai_response openai_response = true
same_type anthropic anthropic = true
same_type _ _ = false

-- _ENDPOINT_ATTEMPT_PRIORITY
unfoldable pub by_priority : ApiType → ℕ
by_priority openai_chat = 0
by_priority anthropic = 1
by_priority openai_response = 2

unfoldable pub conversion_allowed : Settings → Channel → Bool
conversion_allowed settings channel = elim channel.allow_format_conversion [
  | some allowed ↦ allowed
  | none ↦ elim settings.allow_format_conversion [ some allowed ↦ allowed | none ↦ true ]
]

-- `sorted(candidates, key=by_priority)`, which is stable.
unfoldable pub insert_by_priority : Endpoint → List Endpoint → List Endpoint
insert_by_priority ep [] = ep ∷ []
insert_by_priority ep (ep' ∷ eps) =
    let rest = insert_by_priority ep eps in
    if leb (by_priority ep.api_type) (by_priority ep'.api_type) then ep ∷ ep' ∷ eps else ep' ∷ rest

unfoldable pub sort_by_priority : List Endpoint → List Endpoint
unfolding insert_by_priority
sort_by_priority [] = []
sort_by_priority (ep ∷ eps) = insert_by_priority ep (sort_by_priority eps)

abbrev pub is_native : ApiType → Endpoint → Bool
is_native target ep = same_type ep.api_type target

-- By the native endpoints among the enabled ones.
unfoldable pub order_attempts : Bool → ApiType → List Endpoint → List Endpoint → List Endpoint
unfolding sort_by_priority
order_attempts allowed target [] candidates = if allowed then sort_by_priority candidates else []
order_attempts allowed target (ep ∷ native) candidates =
    if allowed
    then (ep ∷ native) ++ sort_by_priority (keep (λ e. not (is_native target e)) candidates)
    else ep ∷ native

unfoldable pub resolve_endpoint_attempts : Settings → Channel → ApiType → List Endpoint
unfolding conversion_allowed order_attempts
resolve_endpoint_attempts settings channel target =
    let candidates = keep (λ ep. ep.enabled) channel.endpoints in
    order_attempts (conversion_allowed settings channel) target (keep (is_native target) candidates)
      candidates

unfoldable pub is_servable : List Endpoint → Bool
is_servable [] = false
is_servable (ep ∷ eps) = true

unfoldable pub filter_channels_by_conversion : Settings → List Channel → ApiType → List Channel
unfolding resolve_endpoint_attempts is_servable
filter_channels_by_conversion settings channels target =
    keep (λ ch. is_servable (resolve_endpoint_attempts settings ch target)) channels

-- The converter classes, by the format that they convert to.
pub data Converter : Type 0 where
  to_chat to_response to_anthropic : Converter

-- CONVERTER_MAP: the request converter and the response converter of an upstream and an inbound
-- format. `none` is a missing key.
unfoldable pub converter_map : ApiType → ApiType → Option (Converter × Converter)
converter_map openai_chat anthropic = some (to_chat, to_anthropic)
converter_map openai_response anthropic = some (to_response, to_anthropic)
converter_map openai_response openai_chat = some (to_response, to_chat)
converter_map anthropic openai_chat = some (to_anthropic, to_chat)
converter_map anthropic openai_response = some (to_anthropic, to_response)
converter_map openai_chat openai_response = some (to_chat, to_response)
converter_map _ _ = none

-- The two converters and the upstream format; the outer `none` is the `ValueError`.
unfoldable pub get_converter_for_endpoint :
    Endpoint → ApiType → Option (Option (Converter × Converter) × ApiType)
unfolding converter_map same_type
get_converter_for_endpoint endpoint target =
    if same_type endpoint.api_type target
    then some (none, endpoint.api_type)
    else elim (converter_map endpoint.api_type target) [
      | none ↦ none
      | some converters ↦ some (some converters, endpoint.api_type)
    ]
