-- ===== src/ChannelAttempt/Fallback.antt =====
-- proxy/channel_attempt.py: what an attempt that serves, and one that is exhausted, has done.
use llm_plug.Common.{
  ℕ, Bool, true, false, Option, none, some, List, [], ◌∷◌, ◌≡◌, ◌≢◌, refl, sym, ap, ◌∙◌, subst, Has,
  All, inl, inr, ◌⊎◌,
}
use llm_plug.Channel.{Endpoint, Channel}
use llm_plug.Config.{Settings}
use llm_plug.RateLimiting.{Failure}
use llm_plug.Conversion.{resolve_endpoint_attempts}
use llm_plug.Dispatcher.{World, Attempt, served, exhausted, raised}
use llm_plug.ChannelAttempt.{
  ChannelAttemptInput, Execution, output, error, Reaction, skips, counts, raises, reaction,
  record_failure_once, try_endpoints, try_attempts, attempt_channel,
}

pub Execution-cases :
    {A : Type 0} (x : Execution A)
    → ((a : A) × (x ≡ output a)) ⊎ ((exc : Failure) × (x ≡ error exc))
Execution-cases (output a) = inl (a, refl)
Execution-cases (error exc) = inr (exc, refl)

pub Reaction-cases : (r : Reaction) → (r ≡ skips) ⊎ (r ≡ counts) ⊎ (r ≡ raises)
Reaction-cases skips = inl refl
Reaction-cases counts = inr (inl refl)
Reaction-cases raises = inr (inr refl)

module _ {E A : Type 0} (execute : Channel → Endpoint → ℕ → World E → Execution A × World E)
    (channel : Channel) (input : ChannelAttemptInput) (wait_budget : ℕ) where
  abbrev loop : Bool → Option Failure → List Endpoint → World E → Attempt (A × Endpoint) × World E
  loop = try_endpoints execute channel input wait_budget

  abbrev executed : Endpoint → World E → Execution A × World E
  executed ep w = execute channel ep wait_budget w

  -- The turns of the loop, one for each way that an execution may end.
  pub loop-output :
      (recorded : Bool) (last : Option Failure) (ep : Endpoint) (eps : List Endpoint) (w : World E)
      (a : A)
      → (executed ep w).0 ≡ output a
      → loop recorded last (ep ∷ eps) w ≡ (served (a, ep) channel, (executed ep w).1)
  unfolding try_endpoints
  loop-output recorded none ep eps w a e = rw (e, try_endpoints) refl
  loop-output recorded (some l) ep eps w a e = rw (e, try_endpoints) refl

  pub loop-skips :
      (recorded : Bool) (last : Option Failure) (ep : Endpoint) (eps : List Endpoint) (w : World E)
      (exc : Failure)
      → (executed ep w).0 ≡ error exc
      → reaction exc ≡ skips
      → loop recorded last (ep ∷ eps) w ≡ loop recorded (some exc) eps (executed ep w).1
  unfolding try_endpoints
  loop-skips recorded none ep eps w exc e r = rw (e, try_endpoints) (rw (r, try_endpoints) refl)
  loop-skips recorded (some l) ep eps w exc e r = rw (e, try_endpoints) (rw (r, try_endpoints) refl)

  pub loop-counts :
      (recorded : Bool) (last : Option Failure) (ep : Endpoint) (eps : List Endpoint) (w : World E)
      (exc : Failure)
      → (executed ep w).0 ≡ error exc
      → reaction exc ≡ counts
      → loop recorded last (ep ∷ eps) w
        ≡ loop true
            (some exc)
            eps
            (record_failure_once execute channel input wait_budget recorded exc (executed ep w).1)
  unfolding try_endpoints
  loop-counts recorded none ep eps w exc e r = rw (e, try_endpoints) (rw (r, try_endpoints) refl)
  loop-counts recorded (some l) ep eps w exc e r =
      rw (e, try_endpoints) (rw (r, try_endpoints) refl)

  pub loop-raises :
      (recorded : Bool) (last : Option Failure) (ep : Endpoint) (eps : List Endpoint) (w : World E)
      (exc : Failure)
      → (executed ep w).0 ≡ error exc
      → reaction exc ≡ raises
      → loop recorded last (ep ∷ eps) w ≡ (raised exc, (executed ep w).1)
  unfolding try_endpoints
  loop-raises recorded none ep eps w exc e r = rw (e, try_endpoints) (rw (r, try_endpoints) refl)
  loop-raises recorded (some l) ep eps w exc e r =
      rw (e, try_endpoints) (rw (r, try_endpoints) refl)

  -- How a turn may go on: it ends the loop, or the loop goes on after an error that is not raised.
  pub record IsPassed (ep : Endpoint) (w : World E) (exc : Failure) : Type 0 where
    pub failed : (executed ep w).0 ≡ error exc
    pub not_raised : reaction exc ≢ raises

  Turned : Bool → Option Failure → Endpoint → List Endpoint → World E → Type 0
  Turned recorded last ep eps w =
      ((a : A) × ((executed ep w).0 ≡ output a)
        × (loop recorded last (ep ∷ eps) w ≡ (served (a, ep) channel, (executed ep w).1)))
      ⊎ ((exc : Failure) × (loop recorded last (ep ∷ eps) w ≡ (raised exc, (executed ep w).1)))
      ⊎ ((exc : Failure) × IsPassed ep w exc
          × (flag : Bool) × (w' : World E) × (loop recorded last (ep ∷ eps) w
              ≡ loop flag (some exc) eps w'))

  turned :
      (recorded : Bool) (last : Option Failure) (ep : Endpoint) (eps : List Endpoint) (w : World E)
      → Turned recorded last ep eps w
  unfolding Turned
  turned recorded last ep eps w = elim (Execution-cases (executed ep w).0) [
    | inl (a, e) ↦ inl (a, e, loop-output recorded last ep eps w a e)
    | inr (exc, e) ↦ elim (Reaction-cases (reaction exc)) [
      | inl r ↦ inr (
          inr (
            exc,
            record { failed = e; not_raised = λ h. cc },
            recorded,
            (executed ep w).1,
            loop-skips recorded last ep eps w exc e r,
          ))
      | inr (inl r) ↦ inr (
          inr (
            exc,
            record { failed = e; not_raised = λ h. cc },
            true,
            record_failure_once execute channel input wait_budget recorded exc (executed ep w).1,
            loop-counts recorded last ep eps w exc e r,
          ))
      | inr (inr r) ↦ inr (inl (exc, loop-raises recorded last ep eps w exc e r))
    ]
  ]

  -- The execution that a result came from.
  pub record IsServedBy (a : A) (ep : Endpoint) (ch : Channel) (w' w : World E) : Type 0 where
    pub by_channel : ch ≡ channel
    pub execution : executed ep w ≡ (output a, w')

  loop-served :
      (recorded : Bool) (last : Option Failure) (eps : List Endpoint) (w : World E) (a : A)
      (ep : Endpoint) (ch : Channel) (w' : World E)
      → loop recorded last eps w ≡ (served (a, ep) ch, w')
      → Has ep eps × ((v : World E) × IsServedBy a ep ch w' v)
  unfolding try_endpoints Turned
  loop-served recorded none [] w a ep ch w' e = cc
  loop-served recorded (some l) [] w a ep ch w' e = cc
  loop-served recorded last (x ∷ eps) w a ep ch w' e = elim (turned recorded last x eps w) [
    | inl (b, f, g) ↦
        let eq : (served (b, x) channel, (executed x w).1) ≡ (served (a, ep) ch, w') = sym g ∙ e in
        let same : x ≡ ep = cc in
        let same_output : b ≡ a = cc in
        let left : (executed x w).1 ≡ w' = cc in
        let whole =
          subst (λ o. executed x w ≡ (o, w')) (f ∙ ap output same_output)
            (subst (λ y. executed x w ≡ ((executed x w).0, y)) left refl) in
        (
          inl (sym same),
          (
            w,
            record {
              by_channel = cc;
              execution = subst (λ y. executed y w ≡ (output a, w')) same whole;
            },
          ),
        )
    | inr (inl (exc, g)) ↦ let never = sym g ∙ e in cc
    | inr (inr (exc, passed, flag, v, g)) ↦
        let (m, found) = loop-served flag (some exc) eps v a ep ch w' (sym g ∙ e) in (inr m, found)
  ]

  -- Every endpoint was executed in some state, and failed with an error that is not raised.
  abbrev pub AllPassed : List Endpoint → Type 0
  AllPassed eps = All (λ ep. (v : World E) × (exc : Failure) × IsPassed ep v exc) eps

  loop-exhausted :
      (recorded : Bool) (last : Option Failure) (eps : List Endpoint) (w : World E)
      (cause : Failure) (w' : World E)
      → loop recorded last eps w ≡ (exhausted cause, w')
      → AllPassed eps
  unfolding Turned
  loop-exhausted recorded last [] w cause w' e = tt
  loop-exhausted recorded last (x ∷ eps) w cause w' e = elim (turned recorded last x eps w) [
    | inl (b, f, g) ↦ let never = sym g ∙ e in cc
    | inr (inl (exc, g)) ↦ let never = sym g ∙ e in cc
    | inr (inr (exc, passed, flag, v, g)) ↦
        ((w, exc, passed), loop-exhausted flag (some exc) eps v cause w' (sym g ∙ e))
  ]

  attempts-served :
      (eps : List Endpoint) (w : World E) (a : A) (ep : Endpoint) (ch : Channel) (w' : World E)
      → try_attempts execute channel input wait_budget eps w ≡ (served (a, ep) ch, w')
      → Has ep eps × ((v : World E) × IsServedBy a ep ch w' v)
  unfolding try_attempts
  attempts-served [] w a ep ch w' e = cc
  attempts-served (x ∷ eps) w a ep ch w' e = loop-served false none (x ∷ eps) w a ep ch w' e

  attempts-exhausted :
      (eps : List Endpoint) (w : World E) (cause : Failure) (w' : World E)
      → try_attempts execute channel input wait_budget eps w ≡ (exhausted cause, w')
      → AllPassed eps
  unfolding try_attempts
  attempts-exhausted [] w cause w' e = tt
  attempts-exhausted (x ∷ eps) w cause w' e = loop-exhausted false none (x ∷ eps) w cause w' e

  -- The result of an attempt is that of an execution of one of the endpoints that the channel may
  -- use for the inbound format, and names this channel.
  pub attempt_channel-served :
      (settings : Settings) (w : World E) (a : A) (ep : Endpoint) (ch : Channel) (w' : World E)
      → attempt_channel execute channel input wait_budget settings w ≡ (served (a, ep) ch, w')
      → Has ep (resolve_endpoint_attempts settings channel input.inbound_api_type)
        × ((v : World E) × IsServedBy a ep ch w' v)
  unfolding attempt_channel
  attempt_channel-served settings w a ep ch w' e =
      attempts-served (resolve_endpoint_attempts settings channel input.inbound_api_type) w a ep ch
        w' e

  -- A channel counts as exhausted only when every endpoint that it may use for the inbound format
  -- was executed and failed with an error that is not raised.
  pub attempt_channel-exhausted :
      (settings : Settings) (w : World E) (cause : Failure) (w' : World E)
      → attempt_channel execute channel input wait_budget settings w ≡ (exhausted cause, w')
      → AllPassed (resolve_endpoint_attempts settings channel input.inbound_api_type)
  unfolding attempt_channel
  attempt_channel-exhausted settings w cause w' e =
      attempts-exhausted (resolve_endpoint_attempts settings channel input.inbound_api_type) w cause
        w' e
