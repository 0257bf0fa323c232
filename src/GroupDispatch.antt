-- ===== src/GroupDispatch.antt =====
-- proxy/model_group_dispatch.py: `execute_model_group_request`, which tries a group's entries in
-- order with one shared context. channel_catalog.py: `channels_for_model`.

pub mod Origin
pub mod Answer
use llm_plug.Common.{
  ℕ, String, Bool, true, false, ◌&&◌, ◌||◌, Option, none, some, List, [], ◌∷◌, if◌then◌else◌, ◌==◌,
  string_eq, contains, not, keep, find_first,
}
use llm_plug.Channel.{ApiType, Endpoint, Channel}
use llm_plug.Config.{Settings}
use llm_plug.Outcomes.Views.{is_degraded}
use llm_plug.Outcomes.Sticky.{sticky_preferred, remember_preferred}
use llm_plug.RateLimiting.{Failure}
use llm_plug.Conversion.{filter_channels_by_conversion}
use llm_plug.Dispatcher.{
  World, with_outcomes, Context, fresh_context, Attempt, Dispatched, result, all_exhausted, failed,
  dispatch, dispatch_pinned, to_upstream_http_status_error,
}
use llm_plug.ChannelAttempt.{ChannelAttemptInput, Execution, attempt_channel}
use llm_plug.ModelGroup.{ModelGroupEntry, ModelGroup, is_model_blocked_by_schedule}

unfoldable pub channels_for_model : String → List Channel → List Channel
channels_for_model model channels = keep (λ ch. ch.enabled && contains model ch.models) channels

-- `if entry.channel_id:`
unfoldable pub binding_of : ModelGroupEntry → Option String
binding_of entry = elim entry.channel_id [
  | none ↦ none
  | some id ↦ if id == "" then none else some id
]

unfoldable pub find_channel : String → List Channel → Option Channel
find_channel id channels = find_first (λ ch. ch.id == id) channels

-- What an entry comes to: the next entry's turn, or the request's end.
pub data EntryEnd (A : Type 0) : Type 0 where
  passes : EntryEnd A
  ends : Dispatched A → EntryEnd A

-- The request's group, target format and settings; the catalog and the minute of the day on the
-- schedule's clock, as the state has them; and the execution of an endpoint.
pub record Request (E A : Type 0) : Type 0 where
  pub group : ModelGroup
  pub target : ApiType
  pub settings : Settings
  pub hrw_score : String → String → ℕ → ℕ
  pub session_key : String
  pub catalog_of : World E → List Channel
  pub minute_of : World E → ℕ
  pub execute : ChannelAttemptInput → Channel → Endpoint → ℕ → World E → Execution A × World E

module _ {E A : Type 0} (request : Request E A) where
  -- The answer of a loop that may not have come to its end.
  abbrev pub Answer : Type 0 → Type 0
  Answer R = Option (R × World E × Context)

  abbrev pub input_of : String → ChannelAttemptInput
  input_of model = record {
    payload_model = some model;
    inbound_api_type = request.target;
    requested_model = request.group.name;
    serving_model = model;
  }

  unfoldable pub attempt_for : String → Channel → ℕ → World E → Attempt (A × Endpoint) × World E
  attempt_for model channel wait_budget w =
      attempt_channel (request.execute (input_of model)) channel (input_of model) wait_budget
        request.settings w

  -- `yield_predicate` of the lazy groups; the others pass `None`.
  unfoldable pub not_degraded : Bool → String → Channel → World E → Bool
  not_degraded use_lazy model channel w =
      if use_lazy then not (is_degraded model channel.id w.routing.outcomes) else true

  unfoldable pub remember_served : Bool → String → Channel → World E → World E
  remember_served use_lazy model served_channel w =
      if use_lazy
      then with_outcomes
          (remember_preferred request.group.id model served_channel.id w.routing.outcomes) w
      else w

  -- AllChannelsExhausted passes on to what comes next, all else ends the request.
  unfoldable pub entry_end :
      Bool → String → Answer (Dispatched (A × Endpoint)) → Answer (EntryEnd (A × Endpoint))
  unfolding remember_served
  entry_end use_lazy model none = none
  entry_end use_lazy model (some (result a ch, w, ctx)) =
      some (ends (result a ch), remember_served use_lazy model ch w, ctx)
  entry_end use_lazy model (some (all_exhausted error, w, ctx)) = some (passes, w, ctx)
  entry_end use_lazy model (some (failed exc, w, ctx)) = some (ends (failed exc), w, ctx)

  unfoldable pub try_bound :
      ℕ → String → Option Channel → World E → Context → Answer (EntryEnd (A × Endpoint))
  unfolding entry_end attempt_for not_degraded
  try_bound fuel model none w ctx = some (passes, w, ctx)
  try_bound fuel model (some bound) w ctx = entry_end false model (
      dispatch_pinned bound (attempt_for model) (not_degraded false model) (some model) false fuel w
        ctx)

  unfoldable pub try_pool :
      ℕ → String → List Channel → World E → Context → Answer (EntryEnd (A × Endpoint))
  unfolding entry_end attempt_for not_degraded
  try_pool fuel model channels w ctx =
      let use_lazy = request.group.lazy_sticky in
      entry_end use_lazy model (
        dispatch request.hrw_score channels (attempt_for model) (not_degraded use_lazy model)
          (some model) request.session_key fuel w ctx)

  -- The sticky channel, if the group is lazy and it is a candidate that was not tried.
  unfoldable pub preferred_of : String → List Channel → World E → Context → Option Channel
  unfolding find_channel
  preferred_of model channels w ctx =
      if request.group.lazy_sticky
      then elim (sticky_preferred request.group.id model w.routing.outcomes) [
        | none ↦ none
        | some id ↦ if (id == "") || contains id ctx.tried then none else find_channel id channels
      ]
      else none

  unfoldable pub then_pool :
      ℕ
      → String
      → List Channel
      → Answer (EntryEnd (A × Endpoint))
      → Answer (EntryEnd (A × Endpoint))
  unfolding try_pool
  then_pool fuel model channels none = none
  then_pool fuel model channels (some (passes, w, ctx)) = try_pool fuel model channels w ctx
  then_pool fuel model channels (some (ends end, w, ctx)) = some (ends end, w, ctx)

  unfoldable pub try_preferred :
      ℕ → String → Option Channel → World E → Context → Answer (EntryEnd (A × Endpoint))
  unfolding entry_end attempt_for not_degraded
  try_preferred fuel model none w ctx = some (passes, w, ctx)
  try_preferred fuel model (some preferred) w ctx = entry_end true model (
      dispatch_pinned preferred (attempt_for model) (not_degraded true model) (some model) true fuel
        w ctx)

  -- By the candidates that can serve the target format.
  unfoldable pub try_candidates :
      ℕ → String → List Channel → World E → Context → Answer (EntryEnd (A × Endpoint))
  unfolding then_pool try_preferred preferred_of
  try_candidates fuel model [] w ctx = some (passes, w, ctx)
  try_candidates fuel model (ch ∷ channels) w ctx =
      then_pool fuel model (ch ∷ channels)
        (try_preferred fuel model (preferred_of model (ch ∷ channels) w ctx) w ctx)

  unfoldable pub try_entry :
      ℕ → ModelGroupEntry → World E → Context → Answer (EntryEnd (A × Endpoint))
  unfolding try_bound try_candidates binding_of channels_for_model
  try_entry fuel entry w ctx =
      let channels = channels_for_model entry.model (request.catalog_of w) in
      elim (is_model_blocked_by_schedule (request.minute_of w) entry.schedules) [
        | true ↦ some (passes, w, ctx)
        | false ↦ elim (binding_of entry) [
          | some id ↦
              try_bound fuel entry.model (find_first (λ ch. (ch.id == id) && ch.enabled) channels) w
                ctx
          | none ↦
              try_candidates fuel entry.model
                (filter_channels_by_conversion request.settings channels request.target) w ctx
        ]
      ]

  unfoldable pub upstream_error : Option Failure → Option Failure
  upstream_error none = none
  upstream_error (some exc) = some (to_upstream_http_status_error exc)

  unfoldable pub try_entries :
      ℕ → List ModelGroupEntry → World E → Context → Answer (Dispatched (A × Endpoint))
  unfolding try_entry upstream_error
  try_entries fuel [] w ctx = some (all_exhausted (upstream_error ctx.last_error), w, ctx)
  try_entries fuel (entry ∷ entries) w ctx = elim (try_entry fuel entry w ctx) [
    | none ↦ none
    | some (passes, w', ctx') ↦ try_entries fuel entries w' ctx'
    | some (ends end, w', ctx') ↦ some (end, w', ctx')
  ]

  -- Each dispatch of the request has `fuel` turns.
  unfoldable pub execute_model_group_request : ℕ → World E → Answer (Dispatched (A × Endpoint))
  unfolding try_entries
  execute_model_group_request fuel w =
      try_entries fuel request.group.items w (fresh_context request.settings)
