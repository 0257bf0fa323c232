-- ===== src/RateLimiting/Budget.antt =====
-- rate_limiting.py: a rate-limit error either costs waiting budget or gives the channel up.
use llm_plug.Common.{
  ℕ, ◌+◌, ◌-◌, ◌≤◌, String, true, false, Option, none, some, List, ◌≡◌, refl, arith, leb,
  Bool-cases, Option-cases, inl, inr, ◌⊎◌,
}
use llm_plug.Channel.{Channel}
use llm_plug.Outcomes.State.{Outcomes}
use llm_plug.RateLimiting.{
  Failure, queue_wait, rate_limit_retry_after, delay_of, Waited, add_tried, give_up,
  wait_or_give_up, handle_rate_limit, record_rate_limit_exhausted,
}

-- The channel is given up, joins the tried ones, and is charged a failure; nothing is slept.
pub record IsGivenUp (selected : Channel) (model : Option String) (budget : ℕ) (tried : List String)
    (now : ℕ) (s : Outcomes) (r : Waited) : Type 0 where
  pub did_failover : r.did_failover ≡ true
  pub tried_added : r.tried ≡ add_tried selected.id tried
  pub slept : r.slept ≡ 0
  pub within : r.wait_budget ≤ budget
  pub charged : r.outcomes ≡ record_rate_limit_exhausted selected model now s

-- The channel stays: the time slept, a tenth of a second at least, is taken from the budget.
pub record IsRetried (budget : ℕ) (tried : List String) (s : Outcomes) (r : Waited) : Type 0 where
  pub did_failover : r.did_failover ≡ false
  pub same_tried : r.tried ≡ tried
  pub slept : 100 ≤ r.slept
  pub paid : r.wait_budget + r.slept ≡ budget
  pub same_outcomes : r.outcomes ≡ s

module _ (exc : Failure) (selected : Channel) (budget : ℕ) (tried : List String)
    (model : Option String) (now : ℕ) (s : Outcomes) where
  give_up-IsGivenUp :
      (left : ℕ)
      → left ≤ budget
      → IsGivenUp selected model budget tried now s (give_up selected model now left tried s)
  unfolding give_up
  give_up-IsGivenUp left h = record {
    did_failover = refl;
    tried_added = refl;
    slept = refl;
    within = h;
    charged = refl;
  }

  delay_of-le : (suggested : Option ℕ) → 100 ≤ delay_of suggested
  unfolding delay_of
  delay_of-le none = omega arith
  delay_of-le (some t) = omega arith

  pub handle_rate_limit-IsGivenUp :
      let r = handle_rate_limit exc selected budget tried model now s in
      IsGivenUp selected model budget tried now s r ⊎ IsRetried budget tried s r
  unfolding handle_rate_limit wait_or_give_up
  handle_rate_limit-IsGivenUp =
      let delay = delay_of (rate_limit_retry_after exc) in
      elim (Option-cases (queue_wait exc)) [
        | inr (waited, e) ↦
            rw (e, handle_rate_limit) (inl (give_up-IsGivenUp (budget - waited) (omega arith)))
        | inl e ↦ elim (Bool-cases (leb delay budget)) [
          | inl b ↦
              rw (e, handle_rate_limit)
                (rw (b, wait_or_give_up)
                  (inr (record {
                    did_failover = refl;
                    same_tried = refl;
                    slept = delay_of-le (rate_limit_retry_after exc);
                    paid = ground arith;
                    same_outcomes = refl;
                  })))
          | inr b ↦
              rw (e, handle_rate_limit)
                (rw (b, wait_or_give_up) (inl (give_up-IsGivenUp budget (omega arith))))
        ]
      ]
