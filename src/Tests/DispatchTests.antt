-- ===== src/Tests/DispatchTests.antt =====
-- proxy/dispatcher.py: the theorems at concrete inputs.
use llm_plug.Common.{
  ℕ, String, Bool, true, false, none, some, [], ◌∷◌, ◌≡◌, ◌≢◌, refl, arith, string_eq, nat_eq, Has,
}
use llm_plug.Channel.{Channel}
use llm_plug.Balancer.State.{round_robin, sticky}
use llm_plug.Outcomes.Admission.{IsAdmissible}
use llm_plug.RateLimiting.{Failure, empty_stream, rate_limit_exceeded}
use llm_plug.Dispatcher.{
  World, Context, Attempt, served, exhausted, raised, Dispatched, result, all_exhausted, dispatch,
  dispatch_pinned, select_from_pool, select_pinned,
}
use llm_plug.Dispatcher.Pool
use llm_plug.Dispatcher.Pool.{IsBest}
use llm_plug.Dispatcher.Pinned
use llm_plug.Dispatcher.Pinned.{IsPinned}
use llm_plug.Dispatcher.Ends.{IsServed}
use llm_plug.Dispatcher.Termination.{untried}
use llm_plug.Tests.BalancerTests.{heavy, light, routing}

abbrev pub world : World Unit
world = record { routing = routing; now = 1000; external = tt }

abbrev context : Context
context = record { tried = []; wait_budget = 2000; last_error = none }

abbrev no_score : String → String → ℕ → ℕ
no_score _ _ _ = 0

abbrev never_yields : Channel → World Unit → Bool
never_yields _ _ = true

abbrev answers : Channel → ℕ → World Unit → Attempt ℕ × World Unit
answers ch budget w = (served 7 ch, w)

abbrev fails : Channel → ℕ → World Unit → Attempt ℕ × World Unit
fails ch budget w = (exhausted empty_stream, w)

-- A channel that is limited for ever, and says to come back at once.
abbrev limited : Channel → ℕ → World Unit → Attempt ℕ × World Unit
limited ch budget w = (
  raised (
      rate_limit_exceeded (record {
        retry_after = some 0;
        waited = 0;
        queue_timeout = false;
        error_body = none;
        response = none;
      })),
  w,
)

dispatch-ends_example :
    (end : Dispatched ℕ × World Unit × Context) × (dispatch no_score
        (heavy ∷ light ∷ [])
        limited
        never_yields
        (some "gpt")
        "client"
        30
        world
        context
      ≡ some end)
unfolding untried
dispatch-ends_example =
    Pool.dispatch-ends limited never_yields (some "gpt") no_score (heavy ∷ light ∷ []) "client"
      (refl, (refl, tt)) 30 world context (omega arith)

gave_up :
    dispatch no_score (heavy ∷ []) fails never_yields (some "gpt") "client" 30 world context
    ≡ some (
      all_exhausted (some empty_stream),
      world,
      record { tried = "ch_a" ∷ []; wait_budget = 2000; last_error = some empty_stream },
    )
unfolding dispatch select_from_pool llm_plug.Dispatcher.dispatch_loop
    llm_plug.Balancer.Select.select_channel llm_plug.Balancer.Select.get_top_priority_group
    llm_plug.Outcomes.Views.admits llm_plug.Outcomes.Views.is_blocked llm_plug.Dict.get
    llm_plug.RateLimiting.add_tried
gave_up = refl

dispatch-exhausted_example :
    (v : World Unit) × ((c : Channel)
      → Has c (heavy ∷ [])
      → ¬ IsAdmissible c (some "gpt") ("ch_a" ∷ []) v.now v.routing.outcomes)
    × ((select_from_pool no_score
          (heavy ∷ [])
          (some "gpt")
          "client"
          v
          (record { tried = "ch_a" ∷ []; wait_budget = 2000; last_error = some empty_stream })).1
        ≡ world)
    × (some empty_stream ≡ some empty_stream)
dispatch-exhausted_example =
    Pool.dispatch-exhausted fails never_yields (some "gpt") no_score (heavy ∷ []) "client"
      (refl, tt) 30 world context gave_up

answered :
    dispatch no_score (heavy ∷ []) answers never_yields (some "gpt") "client" 30 world context
    ≡ some (result 7 heavy, world, context)
unfolding dispatch select_from_pool llm_plug.Dispatcher.dispatch_loop
    llm_plug.Balancer.Select.select_channel llm_plug.Balancer.Select.get_top_priority_group
    llm_plug.Outcomes.Views.admits llm_plug.Outcomes.Views.is_blocked llm_plug.Dict.get
answered = refl

dispatch-result_example :
    (v : World Unit) × (c : Context) × (ch : Channel) × IsBest answers never_yields
      (some "gpt")
      no_score
      (heavy ∷ [])
      "client"
      (refl, tt)
      ch
      v
      c
    × IsServed answers never_yields
        (some "gpt")
        7
        heavy
        world
        ch
        (select_from_pool no_score (heavy ∷ []) (some "gpt") "client" v c).1
        c
dispatch-result_example =
    Pool.dispatch-result answers never_yields (some "gpt") no_score (heavy ∷ []) "client" (refl, tt)
      30 world context answered

dispatch_pinned-ends_example :
    (end : Dispatched ℕ × World Unit × Context) × (dispatch_pinned heavy limited never_yields none
        false 30 world context
      ≡ some end)
dispatch_pinned-ends_example =
    Pinned.dispatch_pinned-ends heavy none limited never_yields false 30 world context (omega arith)

pinned_answered :
    dispatch_pinned heavy answers never_yields (some "gpt") true 30 world context
    ≡ some (result 7 heavy, world, context)
unfolding dispatch_pinned select_pinned llm_plug.Dispatcher.dispatch_loop
    llm_plug.Balancer.Select.select_channel llm_plug.Balancer.Select.get_top_priority_group
    llm_plug.Outcomes.Views.admits llm_plug.Outcomes.Views.is_blocked llm_plug.Dict.get
pinned_answered = refl

dispatch_pinned-result_example :
    (v : World Unit) × (c : Context) × IsPinned heavy (some "gpt") true v c
    × IsServed answers never_yields
        (some "gpt")
        7
        heavy
        world
        heavy
        (select_pinned heavy (some "gpt") true v c).1
        c
dispatch_pinned-result_example =
    Pinned.dispatch_pinned-result heavy (some "gpt") answers never_yields true 30 world context
      pinned_answered

not_sticky : round_robin ≢ sticky
not_sticky e = cc
