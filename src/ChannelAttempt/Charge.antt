-- ===== src/ChannelAttempt/Charge.antt =====
-- proxy/channel_attempt.py: an attempt charges its channel with at most one failure.
use llm_plug.Common.{
  ℕ, Bool, true, false, Option, none, some, List, [], ◌∷◌, ◌++◌, ◌≡◌, ◌≢◌, refl, sym, ap, ◌∙◌, inl,
  inr, ◌⊎◌,
}
use llm_plug.Channel.{Endpoint, Channel}
use llm_plug.Config.{Settings}
use llm_plug.Outcomes.Accounting.{record_outcome, effective_model}
use llm_plug.RateLimiting.{Failure}
use llm_plug.Errors.{classify_failure}
use llm_plug.Conversion.{resolve_endpoint_attempts}
use llm_plug.Dispatcher.{World, with_outcomes, Attempt}
use llm_plug.ChannelAttempt.{
  ChannelAttemptInput, Execution, output, error, counts, reaction, charge_failure,
  record_failure_once, try_endpoints, try_attempts, attempt_channel,
}
use llm_plug.ChannelAttempt.Fallback.{
  Execution-cases, Reaction-cases, loop-output, loop-skips, loop-counts, loop-raises,
}

module _ {E A : Type 0} (execute : Channel → Endpoint → ℕ → World E → Execution A × World E)
    (channel : Channel) (input : ChannelAttemptInput) (wait_budget : ℕ) where
  abbrev after : Endpoint → World E → World E
  after ep w = (execute channel ep wait_budget w).1

  -- The endpoints are executed, one after the other, and nothing else is done.
  abbrev pub ran : List Endpoint → World E → World E
  ran [] w = w
  ran (ep ∷ eps) w = ran eps (after ep w)

  -- The failure is recorded for the effective model, as the kind that it is classified as.
  abbrev pub charged : Failure → World E → World E
  charged exc w =
      with_outcomes
        (record_outcome
          (effective_model (some input.serving_model) input.payload_model
            (some input.requested_model) channel.id)
          channel.id (classify_failure (some exc) none) w.now none "" w.routing.outcomes)
        w

  abbrev pub FailsWith : Endpoint → World E → Failure → Type 0
  FailsWith ep w exc = (execute channel ep wait_budget w).0 ≡ error exc

  -- No execution of these endpoints, one after the other, fails with an error that counts.
  abbrev pub Uncounted : List Endpoint → World E → Type 0
  Uncounted [] w = Unit
  Uncounted (ep ∷ eps) w =
      ((exc : Failure) → FailsWith ep w exc → reaction exc ≢ counts) × Uncounted eps (after ep w)

  -- Some first endpoints were executed, none of them with an error that counts.
  pub record Uncharged (eps : List Endpoint) (w w' : World E) : Type 0 where
    pub done : List Endpoint
    pub rest : List Endpoint
    pub split : eps ≡ done ++ rest
    pub uncounted : Uncounted done w
    pub effect : w' ≡ ran done w

  -- Some first endpoints were executed, and the first error that counts was charged where it
  -- happened.
  pub record Charged (eps : List Endpoint) (w w' : World E) : Type 0 where
    pub before : List Endpoint
    pub failing : Endpoint
    pub later : List Endpoint
    pub rest : List Endpoint
    pub failure : Failure
    pub split : eps ≡ before ++ failing ∷ (later ++ rest)
    pub uncounted : Uncounted before w
    pub fails : FailsWith failing (ran before w) failure
    pub counted : reaction failure ≡ counts
    pub effect : w' ≡ ran later (charged failure (after failing (ran before w)))

  abbrev pub ChargedOnce : List Endpoint → World E → World E → Type 0
  ChargedOnce eps w w' = Uncharged eps w w' ⊎ Charged eps w w'

  abbrev loop : Bool → Option Failure → List Endpoint → World E → Attempt (A × Endpoint) × World E
  loop = try_endpoints execute channel input wait_budget

  -- What the loop does once a failure is recorded.
  record Ran (eps : List Endpoint) (w w' : World E) : Type 0 where
    done : List Endpoint
    rest : List Endpoint
    split : eps ≡ done ++ rest
    effect : w' ≡ ran done w

  Ran-one :
      (x : Endpoint) (eps : List Endpoint) (w w' : World E) → w' ≡ after x w → Ran (x ∷ eps) w w'
  Ran-one x eps w w' e = record { done = x ∷ []; rest = eps; split = refl; effect = e }

  Ran-later :
      (x : Endpoint) (eps : List Endpoint) (w w' w'' : World E)
      → w'' ≡ w'
      → Ran eps (after x w) w'
      → Ran (x ∷ eps) w w''
  Ran-later x eps w w' w'' e r = record {
    done = x ∷ r.done;
    rest = r.rest;
    split = ap (λ l. x ∷ l) r.split;
    effect = e ∙ r.effect;
  }

  loop-Ran :
      (last : Option Failure) (eps : List Endpoint) (w : World E)
      → Ran eps w (loop true last eps w).1
  unfolding try_endpoints
  loop-Ran none [] w = record { done = []; rest = []; split = refl; effect = refl }
  loop-Ran (some l) [] w = record { done = []; rest = []; split = refl; effect = refl }
  loop-Ran last (x ∷ eps) w = elim (Execution-cases (execute channel x wait_budget w).0) [
    | inl (a, e) ↦
        Ran-one x eps w _
          (ap (λ r. r.1) (loop-output execute channel input wait_budget true last x eps w a e))
    | inr (exc, e) ↦ elim (Reaction-cases (reaction exc)) [
      | inl r ↦
          Ran-later x eps w _ _
            (ap (λ r. r.1) (loop-skips execute channel input wait_budget true last x eps w exc e r))
            (loop-Ran (some exc) eps (after x w))
      | inr (inl r) ↦
          Ran-later x eps w _ _
            (ap (λ r. r.1)
              (loop-counts execute channel input wait_budget true last x eps w exc e r))
            (loop-Ran (some exc) eps (after x w))
      | inr (inr r) ↦
          Ran-one x eps w _ (
            ap (λ r. r.1) (loop-raises execute channel input wait_budget true last x eps w exc e r))
    ]
  ]

  Uncharged-one :
      (x : Endpoint) (eps : List Endpoint) (w w' : World E)
      → ((exc : Failure) → FailsWith x w exc → reaction exc ≢ counts)
      → w' ≡ after x w
      → ChargedOnce (x ∷ eps) w w'
  Uncharged-one x eps w w' other e =
      inl (record { done = x ∷ []; rest = eps; split = refl; uncounted = (other, tt); effect = e })

  ChargedOnce-later :
      (x : Endpoint) (eps : List Endpoint) (w w' w'' : World E)
      → ((exc : Failure) → FailsWith x w exc → reaction exc ≢ counts)
      → w'' ≡ w'
      → ChargedOnce eps (after x w) w'
      → ChargedOnce (x ∷ eps) w w''
  ChargedOnce-later x eps w w' w'' other e (inl u) = inl (record {
    done = x ∷ u.done;
    rest = u.rest;
    split = ap (λ l. x ∷ l) u.split;
    uncounted = (other, u.uncounted);
    effect = e ∙ u.effect;
  })
  ChargedOnce-later x eps w w' w'' other e (inr c) = inr (record {
    before = x ∷ c.before;
    failing = c.failing;
    later = c.later;
    rest = c.rest;
    failure = c.failure;
    split = ap (λ l. x ∷ l) c.split;
    uncounted = (other, c.uncounted);
    fails = c.fails;
    counted = c.counted;
    effect = e ∙ c.effect;
  })

  -- An execution that ends in one way does not fail in another.
  not_counted :
      (x : Endpoint) (w : World E) (exc : Failure)
      → FailsWith x w exc
      → reaction exc ≢ counts
      → (exc' : Failure) → FailsWith x w exc'
      → reaction exc' ≢ counts
  not_counted x w exc e n exc' e' r = let same : exc' ≡ exc = cc in n (sym (ap reaction same) ∙ r)

  loop-ChargedOnce :
      (last : Option Failure) (eps : List Endpoint) (w : World E)
      → ChargedOnce eps w (loop false last eps w).1
  unfolding try_endpoints record_failure_once charge_failure
  loop-ChargedOnce none [] w =
      inl (record { done = []; rest = []; split = refl; uncounted = tt; effect = refl })
  loop-ChargedOnce (some l) [] w =
      inl (record { done = []; rest = []; split = refl; uncounted = tt; effect = refl })
  loop-ChargedOnce last (x ∷ eps) w = elim (Execution-cases (execute channel x wait_budget w).0) [
    | inl (a, e) ↦
        Uncharged-one x eps w _
          (λ exc e' r. let impossible : output a ≡ error exc = sym e ∙ e' in cc)
          (ap (λ r. r.1) (loop-output execute channel input wait_budget false last x eps w a e))
    | inr (exc, e) ↦ elim (Reaction-cases (reaction exc)) [
      | inl r ↦
          ChargedOnce-later x eps w _ _ (not_counted x w exc e (λ s. cc))
            (ap (λ r. r.1)
              (loop-skips execute channel input wait_budget false last x eps w exc e r))
            (loop-ChargedOnce (some exc) eps (after x w))
      | inr (inl r) ↦
          let later = loop-Ran (some exc) eps (charged exc (after x w)) in
          inr (record {
            before = [];
            failing = x;
            later = later.done;
            rest = later.rest;
            failure = exc;
            split = ap (λ l. x ∷ l) later.split;
            uncounted = tt;
            fails = e;
            counted = r;
            effect =
                ap (λ r. r.1)
                  (loop-counts execute channel input wait_budget false last x eps w exc e r)
                ∙ later.effect;
          })
      | inr (inr r) ↦
          Uncharged-one x eps w _ (not_counted x w exc e (λ s. cc)) (
            ap (λ r. r.1)
              (loop-raises execute channel input wait_budget false last x eps w exc e r))
    ]
  ]

  attempts-ChargedOnce :
      (eps : List Endpoint) (w : World E)
      → ChargedOnce eps w (try_attempts execute channel input wait_budget eps w).1
  unfolding try_attempts
  attempts-ChargedOnce [] w =
      inl (record { done = []; rest = []; split = refl; uncounted = tt; effect = refl })
  attempts-ChargedOnce (x ∷ eps) w = loop-ChargedOnce none (x ∷ eps) w

  -- Whatever the executions themselves do and record, an attempt adds at most one failure to it. It
  -- executes some first ones of the resolved endpoints, in order. If none of them fails with an error
  -- that counts, it does nothing else; otherwise it charges the first such error, right after it
  -- happened, for the effective model and as the kind that it is classified as.
  pub attempt_channel-ChargedOnce :
      (settings : Settings) (w : World E)
      → ChargedOnce
          (resolve_endpoint_attempts settings channel input.inbound_api_type)
          w
          (attempt_channel execute channel input wait_budget settings w).1
  unfolding attempt_channel
  attempt_channel-ChargedOnce settings w =
      attempts-ChargedOnce (resolve_endpoint_attempts settings channel input.inbound_api_type) w
