-- ===== src/Dispatcher/Pinned.antt =====
-- proxy/dispatcher.py: `dispatch_pinned`, and its selection against that of a pool of one.
use llm_plug.Common.{
  ℕ, ◌+◌, ◌*◌, ◌<◌, String, Bool, true, false, Option, none, some, [], ◌∷◌, if◌then◌else◌,
  string_eq, ◌≡◌, ◌≢◌, refl, sym, ap, ◌∙◌, subst, arith, contains, Bool-cases, inl, inr, eq_self,
  if_both, nat_eq,
}
use llm_plug.Channel.{Channel}
use llm_plug.Balancer.State.{
  Strategy, round_robin, backup, sticky, backup_select, least_from, Weights,
}
use llm_plug.Balancer.Select.{
  Routing, select_channel, select_in, get_top_priority_group, admitted, top_of, min_priority,
}
use llm_plug.Outcomes.State.{Outcomes}
use llm_plug.Outcomes.Views.{admits}
use llm_plug.Outcomes.Admission.{IsAdmissible, admits_iff}
use llm_plug.Dispatcher.{
  Context, World, Attempt, Dispatched, result, select_from_pool, select_pinned, dispatch_pinned,
  with_outcomes,
}
use llm_plug.Dispatcher.Termination.{untried, dispatch_loop-ends}
use llm_plug.Dispatcher.Ends.{IsServed, loop-result}

-- In a group of one every strategy but the sticky one takes that channel, and writes nothing.
select_in_one :
    (channel : Channel) (model : Option String) (hrw_score : String → String → ℕ → ℕ) (key : String)
    (now : ℕ) (s : Outcomes) (weights : Weights) (strategy : Strategy) (ttl : ℕ)
    → strategy ≢ sticky
    → let r : Routing = record {
      outcomes = s;
      balancer = record { current_weights = weights; strategy = strategy; sticky_ttl = ttl };
    } in
      select_in hrw_score (channel ∷ []) model key now r ≡ (some channel, r)
unfolding select_in backup_select least_from
select_in_one channel model hrw_score key now s weights round_robin ttl h = refl
select_in_one channel model hrw_score key now s weights backup ttl h = refl
select_in_one channel model hrw_score key now s weights sticky ttl h = absurd (h refl)

module _ {E : Type 0} (channel : Channel) (model : Option String) where
  -- What a pinned selection promises of its channel, by the tier of admission.
  pub record IsPinned (admission : Bool) (w : World E) (ctx : Context) : Type 0 where
    pub not_tried : contains channel.id ctx.tried ≡ false
    pub enabled : channel.enabled ≡ true
    pub admissible :
        admission ≡ true → IsAdmissible channel model ctx.tried w.now w.routing.outcomes

  selected-IsPinned :
      (admission : Bool) (w : World E) (ctx : Context) (ch : Channel)
      → (select_pinned channel model admission w ctx).0 ≡ some ch
      → (ch ≡ channel) × IsPinned admission w ctx
  unfolding select_pinned
  selected-IsPinned true w ctx ch e =
      let ok = (admits channel model ctx.tried w.now w.routing.outcomes).0 in
      elim (Bool-cases (contains channel.id ctx.tried)) [
        | inl b ↦ let nothing = rw b at e in cc
        | inr b ↦ elim (Bool-cases ok) [
          | inl c ↦
              let a = (admits_iff channel model ctx.tried w.now w.routing.outcomes).0 c in
              let same = rw (b, c) at e in
              (cc, record { not_tried = b; enabled = a.enabled; admissible = λ _. a })
          | inr c ↦ let nothing = rw (b, c) at e in cc
        ]
      ]
  selected-IsPinned false w ctx ch e = elim (Bool-cases (contains channel.id ctx.tried)) [
    | inl b ↦ let nothing = rw b at e in cc
    | inr b ↦ elim (Bool-cases channel.enabled) [
      | inl c ↦
          let same = rw (b, c) at e in
          (cc, record { not_tried = b; enabled = c; admissible = λ t. cc })
      | inr c ↦ let nothing = rw (b, c) at e in cc
    ]
  ]

  -- What the balancer selects from the pool of one, after its check.
  abbrev of_one :
      (String → String → ℕ → ℕ) → String → World E → Bool × Outcomes → Option Channel × World E
  of_one hrw_score key w checked =
      let (selected, r) =
        select_in hrw_score (top_of (if checked.0 then channel ∷ [] else [])) model key w.now
          (record (w.routing) { outcomes = checked.1 }) in
      (selected, record w { routing = r })

  of_one_lem :
      (hrw_score : String → String → ℕ → ℕ) (key : String) (w : World E) (ok : Bool) (s : Outcomes)
      → w.routing.balancer.strategy ≢ sticky
      → of_one hrw_score key w (ok, s) ≡ (if ok then some channel else none, with_outcomes s w)
  unfolding top_of
  of_one_lem hrw_score key w false s h = unfold select_in in refl
  of_one_lem hrw_score key w true s h =
      let r = record (w.routing) { outcomes = s } in
      let one : top_of (channel ∷ []) ≡ channel ∷ [] = unfold min_priority in ground arith in
      rw one (
        ap (λ p. (p.0, record w { routing = p.1 }))
          (select_in_one channel model hrw_score key w.now s w.routing.balancer.current_weights
            w.routing.balancer.strategy w.routing.balancer.sticky_ttl h))

  admits_excluded :
      (w : World E) (ctx : Context)
      → contains channel.id ctx.tried ≡ true
      → admits channel model ctx.tried w.now w.routing.outcomes ≡ (false, w.routing.outcomes)
  unfolding admits
  admits_excluded w ctx h = ground arith

  abbrev checked : World E → Context → Bool × Outcomes
  checked w ctx = admits channel model ctx.tried w.now w.routing.outcomes

  pooled :
      (hrw_score : String → String → ℕ → ℕ) (key : String) (w : World E) (ctx : Context)
      → select_from_pool hrw_score (channel ∷ []) model key w ctx
        ≡ of_one hrw_score key w (checked w ctx)
  unfolding select_from_pool select_channel get_top_priority_group admitted
  pooled hrw_score key w ctx = refl

  pinned :
      (w : World E) (ctx : Context)
      → select_pinned channel model true w ctx ≡ (
          if contains channel.id ctx.tried then (none, w) else (
            if (checked w ctx).0 then some channel else none,
            with_outcomes (checked w ctx).1 w,
          ))
  unfolding select_pinned
  pinned w ctx = refl

  -- In the standard tier the pinned selection is the balancer's on a pool of that one channel,
  -- with the same effect on the state, under every strategy but the sticky one.
  pub select_pinned-select_from_pool :
      (hrw_score : String → String → ℕ → ℕ) (key : String) (w : World E) (ctx : Context)
      → w.routing.balancer.strategy ≢ sticky
      → select_pinned channel model true w ctx
        ≡ select_from_pool hrw_score (channel ∷ []) model key w ctx
  select_pinned-select_from_pool hrw_score key w ctx h =
      let all = pooled hrw_score key w ctx in
      elim (Bool-cases (contains channel.id ctx.tried)) [
        | inl b ↦
            let none_left =
              all
              ∙ ap (of_one hrw_score key w) (admits_excluded w ctx b)
              ∙ of_one_lem hrw_score key w false w.routing.outcomes h in
            pinned w ctx ∙ rw b (sym none_left)
        | inr b ↦
            let same = all ∙ of_one_lem hrw_score key w (checked w ctx).0 (checked w ctx).1 h in
            pinned w ctx ∙ rw b (sym same)
      ]

  module _ {A : Type 0} (attempt_fn : Channel → ℕ → World E → Attempt A × World E)
      (yield_predicate : Channel → World E → Bool) (admission : Bool) where
    -- In either tier, and whatever the attempts do, a pinned dispatch ends within two turns more
    -- than the tenths of a second of waiting budget.
    pub dispatch_pinned-ends :
        (fuel : ℕ) (w : World E) (ctx : Context)
        → ctx.wait_budget + 100 < 100 * fuel
        → (end : Dispatched A × World E × Context) × (dispatch_pinned channel attempt_fn
              yield_predicate model admission fuel w ctx
            ≡ some end)
    unfolding dispatch_pinned untried
    dispatch_pinned-ends fuel w ctx enough =
        dispatch_loop-ends (channel.id ∷ []) (select_pinned channel model admission) attempt_fn
          yield_predicate model fuel w ctx
          (λ v c ch e.
            let (same, p) = selected-IsPinned admission v c ch e in
            rw same (ground (arith, eq_self channel.id), p.not_tried))
          (if_both (λ n. ctx.wait_budget + 100 * n < 100 * fuel) (contains channel.id ctx.tried)
            (omega arith) (omega arith))

    -- A pinned dispatch serves only by an attempt on its channel, which was enabled and not
    -- excluded then, in the standard tier also admissible, and did not yield.
    pub dispatch_pinned-result :
        (fuel : ℕ) (w : World E) (ctx : Context) {a : A} {by : Channel} {w' : World E}
        {ctx' : Context}
        → dispatch_pinned channel attempt_fn yield_predicate model admission fuel w ctx
          ≡ some (result a by, w', ctx')
        → (v : World E) × (c : Context) × IsPinned admission v c
          × IsServed attempt_fn yield_predicate model a by w' channel
              (select_pinned channel model admission v c).1
              c
    unfolding dispatch_pinned
    dispatch_pinned-result fuel w ctx {a} {by} {w'} e =
        let (v, c, ch, chosen, attempted) =
          loop-result attempt_fn yield_predicate model (select_pinned channel model admission) fuel
            w ctx e in
        let (same, p) = selected-IsPinned admission v c ch chosen in
        (
          v,
          c,
          p,
          subst
              (λ x.
                IsServed attempt_fn yield_predicate model a by w' x
                  (select_pinned channel model admission v c).1 c)
              same attempted,
        )
