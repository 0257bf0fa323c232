-- ===== src/Dispatcher/Pool.antt =====
-- proxy/dispatcher.py: `dispatch` and `dispatch_pinned` as wholes: each ends, gives up only when no
-- candidate is admissible, and serves only through an admissible candidate.
use llm_plug.Common.{
  ℕ, ◌*◌, ◌≤◌, ◌<◌, String, Bool, true, Option, some, List, [], ◌∷◌, string_eq, ◌≡◌, arith,
  contains, inl, inr, eq_self, Has, Distinct,
}
use llm_plug.Channel.{Channel}
use llm_plug.Balancer.Weights.{ids}
use llm_plug.Balancer.Choice.{select_channel-best, select_channel_some}
use llm_plug.Outcomes.Admission.{IsAdmissible}
use llm_plug.RateLimiting.{Failure}
use llm_plug.Dispatcher.{
  Context, World, Attempt, Dispatched, result, all_exhausted, select_from_pool, dispatch,
}
use llm_plug.Dispatcher.Termination.{reserve, dispatch_loop-ends}
use llm_plug.Dispatcher.Ends.{IsServed, loop-exhausted, loop-result}

Has-contains : (ch : Channel) (pool : List Channel) → Has ch pool → contains ch.id (ids pool) ≡ true
Has-contains ch [] m = absurd m
Has-contains ch (c ∷ pool) (inl e) = rw e (ground (arith, eq_self c.id))
Has-contains ch (c ∷ pool) (inr m) = ground (arith, Has-contains ch pool m)

module _ {E A : Type 0} (attempt_fn : Channel → ℕ → World E → Attempt A × World E)
    (yield_predicate : Channel → World E → Bool) (model : Option String) where
  module _ (hrw_score : String → String → ℕ → ℕ) (pool : List Channel) (key : String)
      (distinct : Distinct (ids pool)) where
    -- What the pool's selection gives is the best of the admissible candidates.
    pub record IsBest (ch : Channel) (w : World E) (ctx : Context) : Type 0 where
      pub member : Has ch pool
      pub admissible : IsAdmissible ch model ctx.tried w.now w.routing.outcomes
      pub best :
          (c : Channel)
          → Has c pool
          → IsAdmissible c model ctx.tried w.now w.routing.outcomes
          → ch.priority ≤ c.priority

    selected-IsBest :
        (w : World E) (ctx : Context) (ch : Channel)
        → (select_from_pool hrw_score pool model key w ctx).0 ≡ some ch
        → IsBest ch w ctx
    unfolding select_from_pool
    selected-IsBest w ctx ch e =
        let (member, admissible, best) =
          select_channel-best hrw_score pool ctx.tried model key w.now w.routing distinct e in
        record { member = member; admissible = admissible; best = best }

    -- Where ids are distinct, and whatever the attempts do, a dispatch ends within one turn more
    -- than the candidates that are not excluded and the tenths of a second of waiting budget.
    pub dispatch-ends :
        (fuel : ℕ) (w : World E) (ctx : Context)
        → reserve (ids pool) ctx < 100 * fuel
        → (end : Dispatched A × World E × Context) × (dispatch hrw_score pool attempt_fn
              yield_predicate model key fuel w ctx
            ≡ some end)
    unfolding dispatch
    dispatch-ends fuel w ctx enough =
        dispatch_loop-ends (ids pool) (select_from_pool hrw_score pool model key) attempt_fn
          yield_predicate model fuel w ctx
          (λ v c ch e.
            let b = selected-IsBest v c ch e in
            (Has-contains ch pool b.member, b.admissible.not_excluded))
          enough

    -- Where ids are distinct, a dispatch that ends with AllChannelsExhausted has looked, in the end
    -- and with the final exclusions, at a state in which no candidate is admissible; its error is
    -- the last one of the context.
    pub dispatch-exhausted :
        (fuel : ℕ) (w : World E) (ctx : Context) {error : Option Failure} {w' : World E}
        {ctx' : Context}
        → dispatch hrw_score pool attempt_fn yield_predicate model key fuel w ctx
          ≡ some (all_exhausted error, w', ctx')
        → (v : World E) × ((c : Channel)
            → Has c pool
            → ¬ IsAdmissible c model ctx'.tried v.now v.routing.outcomes)
          × ((select_from_pool hrw_score pool model key v ctx').1 ≡ w')
          × (error ≡ ctx'.last_error)
    unfolding dispatch select_from_pool
    dispatch-exhausted fuel w ctx {error} {w'} {ctx'} e =
        let (v, nothing, left, reason) =
          loop-exhausted attempt_fn yield_predicate model
            (select_from_pool hrw_score pool model key) fuel w ctx e in
        (
          v,
          λ c m a.
              let (ch, chosen) =
                select_channel_some hrw_score pool ctx'.tried model key v.now v.routing c distinct m
                  a in
              cc,
          left,
          reason,
        )

    -- Where ids are distinct, the result of a dispatch is that of an attempt on a candidate that
    -- was admissible, not excluded and of the best priority when it was selected, and that the
    -- predicate did not make yield.
    pub dispatch-result :
        (fuel : ℕ) (w : World E) (ctx : Context) {a : A} {by : Channel} {w' : World E}
        {ctx' : Context}
        → dispatch hrw_score pool attempt_fn yield_predicate model key fuel w ctx
          ≡ some (result a by, w', ctx')
        → (v : World E) × (c : Context) × (ch : Channel) × IsBest ch v c
          × IsServed attempt_fn yield_predicate model a by w' ch
              (select_from_pool hrw_score pool model key v c).1
              c
    unfolding dispatch
    dispatch-result fuel w ctx e =
        let (v, c, ch, chosen, attempted) =
          loop-result attempt_fn yield_predicate model (select_from_pool hrw_score pool model key)
            fuel w ctx e in
        (v, c, ch, selected-IsBest v c ch chosen, attempted)
