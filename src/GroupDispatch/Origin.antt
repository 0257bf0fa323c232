-- ===== src/GroupDispatch/Origin.antt =====
-- proxy/model_group_dispatch.py: where the answer of a group's request comes from.
use llm_plug.Common.{
  ℕ, String, Bool, true, false, ◌||◌, Option, none, some, List, [], ◌∷◌, ◌==◌, string_eq, ◌≡◌, refl,
  sym, ap, ◌∙◌, subst, contains, Distinct, Has, find_first-Has, Bool-cases, Option-cases, inl, inr,
}
use llm_plug.Channel.{Endpoint, Channel}
use llm_plug.Balancer.Weights.{ids}
use llm_plug.Outcomes.Sticky.{sticky_preferred}
use llm_plug.Conversion.{resolve_endpoint_attempts}
use llm_plug.Dispatcher.{
  World, Context, served, Dispatched, result, all_exhausted, failed, dispatch_pinned,
}
use llm_plug.Dispatcher.Pool.{dispatch-result}
use llm_plug.Dispatcher.Pinned.{dispatch_pinned-result}
use llm_plug.ChannelAttempt.Fallback.{attempt_channel-served}
use llm_plug.GroupDispatch.{
  Request, EntryEnd, passes, ends, Answer, attempt_for, input_of, not_degraded, entry_end,
  try_bound, try_pool, preferred_of, find_channel, then_pool, try_preferred, try_candidates,
}

module _ {E A : Type 0} (request : Request E A) where
  -- The answer is by a channel of the list, from an endpoint that it may use for the target format.
  pub record IsFrom (channels : List Channel) (ch : Channel) (ep : Endpoint) : Type 0 where
    pub channel : Has ch channels
    pub endpoint : Has ep (resolve_endpoint_attempts request.settings ch request.target)

  attempt-IsFrom :
      (model : String) (channels : List Channel) (c ch : Channel) (budget : ℕ) (v w' : World E)
      (a : A) (ep : Endpoint)
      → Has c channels
      → attempt_for request model c budget v ≡ (served (a, ep) ch, w')
      → (ch ≡ c) × IsFrom channels ch ep
  unfolding attempt_for
  attempt-IsFrom model channels c ch budget v w' a ep m e =
      let (has, (u, s)) =
        attempt_channel-served (request.execute (input_of request model)) c (input_of request model)
          budget request.settings v a ep ch w' e in
      (
        s.by_channel,
        record {
          channel = subst (λ x. Has x channels) (sym s.by_channel) m;
          endpoint =
              subst (λ x. Has ep (resolve_endpoint_attempts request.settings x request.target))
                (sym s.by_channel) has;
        },
      )

  same_answer :
      (end end' : Dispatched (A × Endpoint)) (w : World E) (ctx ctx' : Context)
      → end ≡ end'
      → ctx ≡ ctx'
      → ◌≡◌ {A = Answer request (Dispatched (A × Endpoint))}
          (some (end, w, ctx))
          (some (end', w, ctx'))
  same_answer end end' w ctx ctx' e f = rw (e, f) refl

  entry_end-result :
      (lazy : Bool) (model : String) (answer : Answer request (Dispatched (A × Endpoint))) (a : A)
      (ep : Endpoint) (ch : Channel) (w' : World E) (ctx' : Context)
      → entry_end request lazy model answer ≡ some (ends (result (a, ep) ch), w', ctx')
      → (w₁ : World E) × (answer ≡ some (result (a, ep) ch, w₁, ctx'))
  unfolding entry_end
  entry_end-result lazy model none a ep ch w' ctx' e = cc
  entry_end-result lazy model (some (result (b, ep₁) ch₁, w, ctx)) a ep ch w' ctx' e =
      let same : result (b, ep₁) ch₁ ≡ result (a, ep) ch = cc in
      let same_ctx : ctx ≡ ctx' = cc in (w, same_answer _ _ w ctx ctx' same same_ctx)
  entry_end-result lazy model (some (all_exhausted error, w, ctx)) a ep ch w' ctx' e = cc
  entry_end-result lazy model (some (failed exc, w, ctx)) a ep ch w' ctx' e = cc

  pinned-IsFrom :
      (fuel : ℕ) (lazy admission : Bool) (model : String) (channels : List Channel) (c : Channel)
      (w : World E) (ctx : Context) (a : A) (ep : Endpoint) (ch : Channel) (w' : World E)
      (ctx' : Context)
      → Has c channels
      → entry_end request lazy model (
          dispatch_pinned c
            (attempt_for request model)
            (not_degraded request lazy model)
            (some model)
            admission
            fuel
            w
            ctx)
        ≡ some (ends (result (a, ep) ch), w', ctx')
      → (ch ≡ c) × IsFrom channels ch ep
  pinned-IsFrom fuel lazy admission model channels c w ctx a ep ch w' ctx' m e =
      let (w₁, d) = entry_end-result lazy model _ a ep ch w' ctx' e in
      let (v, c₀, p, s) =
        dispatch_pinned-result c (some model) (attempt_for request model)
          (not_degraded request lazy model) admission fuel w ctx d in
      attempt-IsFrom model channels c ch _ _ w₁ a ep m s.attempt

  pool-IsFrom :
      (fuel : ℕ) (model : String) (channels : List Channel) (w : World E) (ctx : Context) (a : A)
      (ep : Endpoint) (ch : Channel) (w' : World E) (ctx' : Context)
      → Distinct (ids channels)
      → try_pool request fuel model channels w ctx ≡ some (ends (result (a, ep) ch), w', ctx')
      → IsFrom channels ch ep
  unfolding try_pool
  pool-IsFrom fuel model channels w ctx a ep ch w' ctx' distinct e =
      let lazy = request.group.lazy_sticky in
      let (w₁, d) = entry_end-result lazy model _ a ep ch w' ctx' e in
      let (v, c₀, c, best, s) =
        dispatch-result (attempt_for request model) (not_degraded request lazy model) (some model)
          request.hrw_score channels request.session_key distinct fuel w ctx d in
      (attempt-IsFrom model channels c ch _ _ w₁ a ep best.member s.attempt).1

  preferred-Has :
      (model : String) (channels : List Channel) (w : World E) (ctx : Context) {c : Channel}
      → preferred_of request model channels w ctx ≡ some c
      → Has c channels
  unfolding preferred_of find_channel
  preferred-Has model channels w ctx e = elim (Bool-cases request.group.lazy_sticky) [
    | inr b ↦ let nothing = rw (b, preferred_of) at e in cc
    | inl b ↦ elim (Option-cases (sticky_preferred request.group.id model w.routing.outcomes)) [
      | inl n ↦ let nothing = rw (b, n, preferred_of) at e in cc
      | inr (id, n) ↦ elim (Bool-cases ((id == "") || contains id ctx.tried)) [
        | inl t ↦ let nothing = rw (b, n, t, preferred_of) at e in cc
        | inr t ↦ (find_first-Has (λ ch. ch.id == id) channels (rw (b, n, t, preferred_of) at e)).0
      ]
    ]
  ]

  preferred-IsFrom :
      (fuel : ℕ) (model : String) (channels : List Channel) (preferred : Option Channel)
      (w : World E) (ctx : Context) (a : A) (ep : Endpoint) (ch : Channel) (w' : World E)
      (ctx' : Context)
      → ((c : Channel) → preferred ≡ some c → Has c channels)
      → try_preferred request fuel model preferred w ctx ≡ some (ends (result (a, ep) ch), w', ctx')
      → IsFrom channels ch ep
  unfolding try_preferred
  preferred-IsFrom fuel model channels none w ctx a ep ch w' ctx' m e = cc
  preferred-IsFrom fuel model channels (some c) w ctx a ep ch w' ctx' m e =
      (pinned-IsFrom fuel true true model channels c w ctx a ep ch w' ctx' (m c refl) e).1

  then_pool-IsFrom :
      (fuel : ℕ) (model : String) (channels : List Channel)
      (answer : Answer request (EntryEnd (A × Endpoint))) (a : A) (ep : Endpoint) (ch : Channel)
      (w' : World E) (ctx' : Context)
      → Distinct (ids channels)
      → (answer ≡ some (ends (result (a, ep) ch), w', ctx') → IsFrom channels ch ep)
      → then_pool request fuel model channels answer ≡ some (ends (result (a, ep) ch), w', ctx')
      → IsFrom channels ch ep
  unfolding then_pool
  then_pool-IsFrom fuel model channels none a ep ch w' ctx' distinct h e = cc
  then_pool-IsFrom fuel model channels (some (passes, w, ctx)) a ep ch w' ctx' distinct h e =
      pool-IsFrom fuel model channels w ctx a ep ch w' ctx' distinct e
  then_pool-IsFrom fuel model channels (some (ends end, w, ctx)) a ep ch w' ctx' distinct h e = h e

  pub candidates-IsFrom :
      (fuel : ℕ) (model : String) (channels : List Channel) (w : World E) (ctx : Context) (a : A)
      (ep : Endpoint) (ch : Channel) (w' : World E) (ctx' : Context)
      → Distinct (ids channels)
      → try_candidates request fuel model channels w ctx ≡ some (ends (result (a, ep) ch), w', ctx')
      → IsFrom channels ch ep
  unfolding try_candidates
  candidates-IsFrom fuel model [] w ctx a ep ch w' ctx' distinct e = cc
  candidates-IsFrom fuel model (x ∷ xs) w ctx a ep ch w' ctx' distinct e =
      let pref = preferred_of request model (x ∷ xs) w ctx in
      then_pool-IsFrom fuel model (x ∷ xs) (try_preferred request fuel model pref w ctx) a ep ch w'
        ctx' distinct
        (preferred-IsFrom fuel model (x ∷ xs) pref w ctx a ep ch w' ctx'
          (λ c p. preferred-Has model (x ∷ xs) w ctx p))
        e

  pub try_bound-IsFrom :
      (fuel : ℕ) (model id : String) (channels : List Channel) (found : Option Channel)
      (w : World E) (ctx : Context) (a : A) (ep : Endpoint) (ch : Channel) (w' : World E)
      (ctx' : Context)
      → ((c : Channel) → found ≡ some c → Has c channels × (c.id ≡ id))
      → try_bound request fuel model found w ctx ≡ some (ends (result (a, ep) ch), w', ctx')
      → IsFrom channels ch ep × (ch.id ≡ id)
  unfolding try_bound
  try_bound-IsFrom fuel model id channels none w ctx a ep ch w' ctx' m e = cc
  try_bound-IsFrom fuel model id channels (some c) w ctx a ep ch w' ctx' m e =
      let (member, own) = m c refl in
      let (same, from) =
        pinned-IsFrom fuel false false model channels c w ctx a ep ch w' ctx' member e in
      (from, ap (λ x. x.id) same ∙ own)
