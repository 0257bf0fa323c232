-- ===== src/Dispatcher.antt =====
-- proxy/dispatcher.py: the loop that selects a channel, attempts it, waits within the budget for
-- rate limits and excludes what failed.
pub mod Termination
pub mod Ends
pub mod Pool
pub mod Pinned
use llm_plug.Common.{
  ℕ, zero, suc, ◌+◌, ◌*◌, String, Bool, true, false, Option, none, some, List, [], ◌∷◌,
  if◌then◌else◌, ◌==◌, string_eq, contains, not,
}
use llm_plug.Channel.{Channel}
use llm_plug.Config.{Settings, or_default}
use llm_plug.Outcomes.State.{Outcomes, OutcomeKind}
use llm_plug.Outcomes.Accounting.{record_outcome, or_text}
use llm_plug.Outcomes.Views.{admits}
use llm_plug.Balancer.State.{LoadBalancer}
use llm_plug.Balancer.Select.{Routing, select_channel}
use llm_plug.RateLimiting.{
  Failure, rate_limit_exceeded, http_status, RateLimitExceeded, HttpStatusError, QuotaLimitInfo,
  is_rate_limit_exception, detect_exception, handle_rate_limit, add_tried, Waited,
}

unfoldable pub to_upstream_http_status_error : Failure → Failure
to_upstream_http_status_error (rate_limit_exceeded e) = elim e.response [
  | some response ↦ http_status response
  | none ↦ rate_limit_exceeded e
]
to_upstream_http_status_error exc = exc

-- DispatchContext
pub record Context : Type 0 where
  pub tried : List String
  pub wait_budget : ℕ
  pub last_error : Option Failure

-- `rate_limit_wait_seconds`, in milliseconds.
unfoldable pub fresh_context : Settings → Context
unfolding or_default
fresh_context settings = record {
  tried = [];
  wait_budget = or_default settings.rate_limit_wait_seconds 0 * 1000;
  last_error = none;
}

-- What the dispatch reads and writes: the routing state, the clock, and what attempts touch.
pub record World (E : Type 0) : Type 0 where
  pub routing : Routing
  pub now : ℕ
  pub external : E

-- An attempt's result; `exhausted` is ChannelAttemptExhausted with its cause.
pub data Attempt (A : Type 0) : Type 0 where
  served : A → Channel → Attempt A
  exhausted : Failure → Attempt A
  raised : Failure → Attempt A

-- A dispatch's end: a result, AllChannelsExhausted, or an exception that is passed on.
pub data Dispatched (A : Type 0) : Type 0 where
  result : A → Channel → Dispatched A
  all_exhausted : Option Failure → Dispatched A
  failed : Failure → Dispatched A

-- Where a turn of the loop leaves it: at an end, or at its top.
pub data Turn (A : Type 0) : Type 0 where
  done : Dispatched A → Turn A
  again : Turn A

-- The quota window ends in an hour if the body does not say when.
unfoldable pub window_end : QuotaLimitInfo → ℕ → ℕ
window_end info now = elim info.reset_at [ some t ↦ t | none ↦ now + 3600000 ]

module _ {E : Type 0} where
  abbrev pub with_outcomes : Outcomes → World E → World E
  with_outcomes s w = record w { routing = record (w.routing) { outcomes = s } }

  unfoldable pub record_window : QuotaLimitInfo → Channel → Option String → World E → World E
  unfolding window_end
  record_window info selected model w =
      with_outcomes
        (record_outcome (or_text model selected.id) selected.id OutcomeKind.quota_window w.now
          (some (window_end info w.now)) info.code w.routing.outcomes)
        w

  -- The sleep of a wait moves the clock.
  unfoldable pub resume : Failure → Waited → World E → Context → World E × Context
  resume exc r w ctx = (
    record (with_outcomes r.outcomes w) { now = w.now + r.slept },
    record {
      tried = r.tried;
      wait_budget = r.wait_budget;
      last_error = if r.did_failover then some exc else ctx.last_error;
    },
  )

  module _ {A : Type 0} where
    -- By what `quota_limits.detect_exception` finds.
    unfoldable pub divert :
        Option QuotaLimitInfo
        → Failure
        → Channel
        → Option String
        → World E
        → Context
        → Turn A × World E × Context
    unfolding record_window resume
    divert (some info) exc selected model w ctx = (
      done (failed (to_upstream_http_status_error exc)),
      record_window info selected model w,
      ctx,
    )
    divert none exc selected model w ctx =
        let waited =
          handle_rate_limit exc selected ctx.wait_budget ctx.tried model w.now w.routing.outcomes in
        let (w', ctx') = resume exc waited w ctx in (again, w', ctx')

    unfoldable pub handle_rate_limit_or_fast_fail :
        Failure → Channel → Option String → World E → Context → Turn A × World E × Context
    unfolding divert
    handle_rate_limit_or_fast_fail exc selected model w ctx =
        divert (detect_exception exc) exc selected model w ctx

    unfoldable pub after_attempt :
        Channel → Option String → Attempt A → World E → Context → Turn A × World E × Context
    unfolding handle_rate_limit_or_fast_fail
    after_attempt selected model (served a ch) w ctx = (done (result a ch), w, ctx)
    after_attempt selected model (exhausted cause) w ctx =
        (again, w, record ctx { tried = add_tried selected.id ctx.tried; last_error = some cause })
    after_attempt selected model (raised exc) w ctx =
        if is_rate_limit_exception exc
        then handle_rate_limit_or_fast_fail exc selected model w ctx
        else (done (failed exc), w, ctx)

    module _ (select_fn : World E → Context → Option Channel × World E)
        (attempt_fn : Channel → ℕ → World E → Attempt A × World E)
        (yield_predicate : Channel → World E → Bool) (model : Option String) where
      unfoldable pub attempt_selected :
          Option Channel → World E → Context → Turn A × World E × Context
      unfolding after_attempt
      attempt_selected none w ctx = (done (all_exhausted ctx.last_error), w, ctx)
      attempt_selected (some selected) w ctx = elim (yield_predicate selected w) [
        | false ↦ (again, w, record ctx { tried = add_tried selected.id ctx.tried })
        | true ↦
            let (attempt, w') = attempt_fn selected ctx.wait_budget w in
            after_attempt selected model attempt w' ctx
      ]

      unfoldable pub turn : World E → Context → Turn A × World E × Context
      unfolding attempt_selected
      turn w ctx = let (selected, w') = select_fn w ctx in attempt_selected selected w' ctx

      -- `none` is a loop that has not come to its end after `fuel` turns.
      unfoldable pub dispatch_loop :
          ℕ → World E → Context → Option (Dispatched A × World E × Context)
      unfolding turn
      dispatch_loop zero w ctx = none
      dispatch_loop (suc fuel) w ctx =
          let (ended, w', ctx') = turn w ctx in
          elim ended [ done end ↦ some (end, w', ctx') | again ↦ dispatch_loop fuel w' ctx' ]

  -- `load_balancer.select_channel(pool, exclude_ids=ctx.tried, ...)`
  unfoldable pub select_from_pool :
      (String → String → ℕ → ℕ)
      → List Channel
      → Option String
      → String
      → World E
      → Context
      → Option Channel × World E
  select_from_pool hrw_score pool model session_key w ctx =
      let (selected, r) =
        select_channel hrw_score pool ctx.tried model session_key w.now w.routing in
      (selected, record w { routing = r })

  -- With `admission` the four gates, else only `enabled`; both keep the excluded channels out.
  unfoldable pub select_pinned :
      Channel → Option String → Bool → World E → Context → Option Channel × World E
  select_pinned channel model admission w ctx =
      if contains channel.id ctx.tried
      then (none, w)
      else if admission
      then (let (ok, s) = admits channel model ctx.tried w.now w.routing.outcomes in
          (if ok then some channel else none, with_outcomes s w))
      else (if channel.enabled then some channel else none, w)

  module _ {A : Type 0} where
    unfoldable pub dispatch :
        (String → String → ℕ → ℕ)
        → List Channel
        → (Channel → ℕ → World E → Attempt A × World E)
        → (Channel → World E → Bool)
        → Option String
        → String
        → ℕ
        → World E
        → Context
        → Option (Dispatched A × World E × Context)
    dispatch hrw_score candidates attempt_fn yield_predicate model session_key fuel w ctx =
        dispatch_loop (select_from_pool hrw_score candidates model session_key) attempt_fn
          yield_predicate model fuel w ctx

    unfoldable pub dispatch_pinned :
        Channel
        → (Channel → ℕ → World E → Attempt A × World E)
        → (Channel → World E → Bool)
        → Option String
        → Bool
        → ℕ
        → World E
        → Context
        → Option (Dispatched A × World E × Context)
    dispatch_pinned channel attempt_fn yield_predicate model admission fuel w ctx =
        dispatch_loop (select_pinned channel model admission) attempt_fn yield_predicate model fuel
          w ctx
