-- ===== src/Dispatcher/Ends.antt =====
-- proxy/dispatcher.py: the loop's last turn, which every end comes from.
use llm_plug.Common.{
  ℕ, zero, suc, String, Bool, true, false, Option, none, some, string_eq, ◌≡◌, refl, sym, ap, ◌∙◌,
  subst, Bool-cases, Option-cases, inl, inr, ◌⊎◌,
}
use llm_plug.Channel.{Channel}
use llm_plug.RateLimiting.{Failure, detect_exception, is_rate_limit_exception}
use llm_plug.Dispatcher.{
  Context, World, Attempt, served, exhausted, raised, Dispatched, result, all_exhausted, failed,
  Turn, done, again, divert, handle_rate_limit_or_fast_fail, after_attempt, attempt_selected, turn,
  dispatch_loop,
}
use llm_plug.Dispatcher.Termination.{Turn-cases}

-- The turn neither has a result nor gives up.
abbrev goes_on : {A : Type 0} → Turn A → Bool
goes_on (done (result a ch)) = false
goes_on (done (all_exhausted error)) = false
goes_on (done (failed exc)) = true
goes_on again = true

after_raised :
    {E : Type 0} (A : Type 0) (exc : Failure) (selected : Channel) (model : Option String)
    (w : World E) (ctx : Context)
    → goes_on {A = A} (after_attempt selected model (raised exc) w ctx).0 ≡ true
unfolding after_attempt handle_rate_limit_or_fast_fail
after_raised A exc selected model w ctx = elim (Bool-cases (is_rate_limit_exception exc)) [
  | inl b ↦ rw b (elim (Option-cases (detect_exception exc)) [
    | inl e ↦ rw (e, divert) refl
    | inr (info, e) ↦ rw (e, divert) refl
  ])
  | inr b ↦ rw b refl
]

module _ {E A : Type 0} (attempt_fn : Channel → ℕ → World E → Attempt A × World E)
    (yield_predicate : Channel → World E → Bool) (model : Option String) where
  -- The attempt that a result came from.
  pub record IsServed (a : A) (ch : Channel) (w' : World E) (selected : Channel) (w : World E)
      (ctx : Context) : Type 0 where
    pub not_yielded : yield_predicate selected w ≡ true
    pub attempt : attempt_fn selected ctx.wait_budget w ≡ (served a ch, w')

  module _ (select_fn : World E → Context → Option Channel × World E) where
    loop-done :
        (fuel : ℕ) (w : World E) (ctx : Context) {end : Dispatched A}
        → let t = turn select_fn attempt_fn yield_predicate model w ctx in
          t.0 ≡ done end
          → dispatch_loop select_fn attempt_fn yield_predicate model (suc fuel) w ctx
            ≡ some (end, t.1, t.2)
    unfolding dispatch_loop
    loop-done fuel w ctx e = rw (e, dispatch_loop) refl

    loop-again :
        (fuel : ℕ) (w : World E) (ctx : Context)
        → let t = turn select_fn attempt_fn yield_predicate model w ctx in
          t.0 ≡ again
          → dispatch_loop select_fn attempt_fn yield_predicate model (suc fuel) w ctx
            ≡ dispatch_loop select_fn attempt_fn yield_predicate model fuel t.1 t.2
    unfolding dispatch_loop
    loop-again fuel w ctx e = rw (e, dispatch_loop) refl

    -- An end is the end of a last turn.
    last_turn :
        (fuel : ℕ) (w : World E) (ctx : Context) (end : Dispatched A) (w' : World E)
        (ctx' : Context)
        → dispatch_loop select_fn attempt_fn yield_predicate model fuel w ctx ≡ some (end, w', ctx')
        → (w₀ : World E) × (ctx₀ : Context) × (turn select_fn attempt_fn yield_predicate model w₀
              ctx₀
            ≡ (done end, w', ctx'))
    unfolding dispatch_loop
    last_turn zero w ctx end w' ctx' e = cc
    last_turn (suc fuel) w ctx end w' ctx' e =
        let t = turn select_fn attempt_fn yield_predicate model w ctx in
        elim (Turn-cases t.0) [
          | inl (end₀, f) ↦
              let same : some (end₀, t.1, t.2) ≡ some (end, w', ctx') =
                sym (loop-done fuel w ctx f) ∙ e in
              (w, ctx, cc)
          | inr f ↦ last_turn fuel t.1 t.2 end w' ctx' (sym (loop-again fuel w ctx f) ∙ e)
        ]

    attempt_some-result :
        (selected : Channel) (attempt : Attempt A) (w : World E) (ctx : Context)
        (end : Dispatched A) (w' : World E) (ctx' : Context)
        → after_attempt selected model attempt w ctx ≡ (done end, w', ctx')
        → goes_on (done end) ≡ false
        → (a : A) × (ch : Channel) × (end ≡ result a ch) × (attempt ≡ served a ch) × (w ≡ w')
    unfolding after_attempt
    attempt_some-result selected (served a ch) w ctx end w' ctx' e g = (a, ch, cc, refl, cc)
    attempt_some-result selected (exhausted cause) w ctx end w' ctx' e g = cc
    attempt_some-result selected (raised exc) w ctx end w' ctx' e g =
        let flag : true ≡ false =
          sym (after_raised A exc selected model w ctx) ∙ ap (λ t. goes_on t.0) e ∙ g in
        cc

    -- The two ends of a turn that raises nothing: nothing was selected, or an attempt served.
    abbrev Ended : Option Channel → World E → Context → Dispatched A → World E → Context → Type 0
    Ended selected w ctx end w' ctx' =
        ((selected ≡ none) × (end ≡ all_exhausted ctx.last_error) × (w ≡ w') × (ctx ≡ ctx'))
        ⊎ ((ch : Channel) × (a : A) × (by : Channel) × (selected ≡ some ch)
            × (end ≡ result a by)
            × IsServed a by w' ch w ctx)

    attempt_selected-Ended :
        (selected : Option Channel) (w : World E) (ctx : Context) (end : Dispatched A)
        (w' : World E) (ctx' : Context)
        → attempt_selected select_fn attempt_fn yield_predicate model selected w ctx
          ≡ (done end, w', ctx')
        → goes_on (done end) ≡ false
        → Ended selected w ctx end w' ctx'
    unfolding attempt_selected
    attempt_selected-Ended none w ctx end w' ctx' e g = inl (refl, cc, cc, cc)
    attempt_selected-Ended (some ch) w ctx end w' ctx' e g =
        elim (Bool-cases (yield_predicate ch w)) [
          | inl b ↦
              let attempt = attempt_fn ch ctx.wait_budget w in
              let (a, by, f, h, i) =
                attempt_some-result ch attempt.0 attempt.1 ctx end w' ctx'
                  (rw (b, attempt_selected) at e) g in
              inr (
                ch,
                a,
                by,
                refl,
                f,
                record {
                  not_yielded = b;
                  attempt =
                      subst (λ x. attempt ≡ (x, w')) h
                        (subst (λ y. attempt ≡ (attempt.0, y)) i refl);
                },
              )
          | inr b ↦
              let flag : again ≡ done end = ap (λ t. t.0) (rw (b, attempt_selected) at e) in cc
        ]

    Ended-last :
        (fuel : ℕ) (w : World E) (ctx : Context) (end : Dispatched A) (w' : World E)
        (ctx' : Context)
        → dispatch_loop select_fn attempt_fn yield_predicate model fuel w ctx ≡ some (end, w', ctx')
        → goes_on (done end) ≡ false
        → (w₀ : World E) × (ctx₀ : Context) × Ended
            (select_fn w₀ ctx₀).0
            (select_fn w₀ ctx₀).1
            ctx₀
            end
            w'
            ctx'
    unfolding turn
    Ended-last fuel w ctx end w' ctx' e g =
        let (w₀, ctx₀, last) = last_turn fuel w ctx end w' ctx' e in
        (
          w₀,
          ctx₀,
          attempt_selected-Ended (select_fn w₀ ctx₀).0 (select_fn w₀ ctx₀).1 ctx₀ end w' ctx' last
              g,
        )

    pub loop-exhausted :
        (fuel : ℕ) (w : World E) (ctx : Context) {error : Option Failure} {w' : World E}
        {ctx' : Context}
        → dispatch_loop select_fn attempt_fn yield_predicate model fuel w ctx
          ≡ some (all_exhausted error, w', ctx')
        → (w₀ : World E) × ((select_fn w₀ ctx').0 ≡ none)
          × ((select_fn w₀ ctx').1 ≡ w')
          × (error ≡ ctx'.last_error)
    loop-exhausted fuel w ctx {error} {w'} {ctx'} e =
        let (w₀, ctx₀, ended) = Ended-last fuel w ctx (all_exhausted error) w' ctx' e refl in
        elim ended [
          | inl (nothing, f, same, same_ctx) ↦
              let reason : error ≡ ctx₀.last_error = cc in
              subst
                (λ c.
                  (v : World E) × ((select_fn v c).0 ≡ none)
                  × ((select_fn v c).1 ≡ w')
                  × (error ≡ c.last_error))
                same_ctx (w₀, nothing, same, reason)
          | inr (ch, a, by, h, f, attempted) ↦ cc
        ]

    pub loop-result :
        (fuel : ℕ) (w : World E) (ctx : Context) {a : A} {by : Channel} {w' : World E}
        {ctx' : Context}
        → dispatch_loop select_fn attempt_fn yield_predicate model fuel w ctx
          ≡ some (result a by, w', ctx')
        → (w₀ : World E) × (ctx₀ : Context) × (ch : Channel) × ((select_fn w₀ ctx₀).0 ≡ some ch)
          × IsServed a by w' ch (select_fn w₀ ctx₀).1 ctx₀
    loop-result fuel w ctx {a} {by} {w'} {ctx'} e =
        let (w₀, ctx₀, ended) = Ended-last fuel w ctx (result a by) w' ctx' e refl in
        elim ended [
          | inl (nothing, f, same, same_ctx) ↦ cc
          | inr (ch, a', by', h, f, attempted) ↦
              let same_end : served a' by' ≡ served a by = cc in
              (
                w₀,
                ctx₀,
                ch,
                h,
                record {
                  not_yielded = attempted.not_yielded;
                  attempt =
                      subst (λ x. attempt_fn ch ctx₀.wait_budget (select_fn w₀ ctx₀).1 ≡ (x, w'))
                        same_end attempted.attempt;
                },
              )
        ]
