-- ===== src/Tests/BalancerTests.antt =====
-- balancer/load_balancer.py: the theorems at concrete inputs.
use llm_plug.Common.{
  ℕ, ◌+◌, ◌*◌, ◌≤◌, ◌<◌, String, true, string_eq, nat_eq, pair_eq, none, some, [], ◌∷◌, ◌≡◌, refl,
  arith, Has, inl, inr,
}
use llm_plug.Channel.{Channel}
use llm_plug.Outcomes.State.{initial}
use llm_plug.Outcomes.Admission.{IsAdmissible, admits_iff}
use llm_plug.Balancer.State.{round_robin, total_weight}
use llm_plug.Balancer.Fairness
use llm_plug.Balancer.Fairness.{rounds, picks}
use llm_plug.Balancer.Select.{Routing, select_channel, select_in, get_top_priority_group}
use llm_plug.Outcomes.Views.{admits}
use llm_plug.Balancer.Choice
use llm_plug.Tests.OutcomesTests.{settings}

abbrev with_weight : String → ℕ → ℕ → Channel
with_weight id weight priority = record {
  id = id;
  models = "gpt" ∷ [];
  enabled = true;
  weight = weight;
  priority = priority;
  rate_limit_rpm = none;
  allow_format_conversion = none;
  endpoints = [];
}

abbrev pub heavy : Channel
heavy = with_weight "ch_a" 5 1

abbrev pub light : Channel
light = with_weight "ch_b" 2 1

abbrev spare : Channel
spare = with_weight "ch_c" 9 2

picks_proportional_example :
    (7 * picks "ch_a" (rounds 70 (heavy ∷ light ∷ []) (some "gpt") []).0 < 350 + 7)
    × (350 ≤ 7 * picks "ch_a" (rounds 70 (heavy ∷ light ∷ []) (some "gpt") []).0 + 1 * 7)
unfolding total_weight llm_plug.Balancer.Weights.current llm_plug.Dict.get_or llm_plug.Dict.get
picks_proportional_example =
    Fairness.picks_proportional (some "gpt") heavy (light ∷ []) [] (refl, (refl, tt)) (omega arith)
      (refl, (refl, tt)) 70 heavy (inl refl)

abbrev pub routing : Routing
routing = record {
  outcomes = initial settings;
  balancer = record { current_weights = []; strategy = round_robin; sticky_ttl = 1800 };
}

spare_admitted : (admits spare (some "gpt") ("ch_a" ∷ []) 1000 (initial settings)).0 ≡ true
unfolding admits llm_plug.Outcomes.Views.is_blocked llm_plug.Dict.get
spare_admitted = refl

spare-IsAdmissible : IsAdmissible spare (some "gpt") ("ch_a" ∷ []) 1000 (initial settings)
spare-IsAdmissible =
    (admits_iff spare (some "gpt") ("ch_a" ∷ []) 1000 (initial settings)).0 spare_admitted

select_channel_some_example :
    (ch : Channel) × ((select_channel
        (λ _ _ _. 0)
        (heavy ∷ spare ∷ [])
        ("ch_a" ∷ [])
        (some "gpt")
        "client"
        1000
        routing).0
      ≡ some ch)
select_channel_some_example =
    Choice.select_channel_some (λ _ _ _. 0) (heavy ∷ spare ∷ []) ("ch_a" ∷ []) (some "gpt") "client"
      1000 routing spare (refl, (refl, tt)) (inr (inl refl)) spare-IsAdmissible

selected :
    (select_channel
      (λ _ _ _. 0)
      (heavy ∷ spare ∷ [])
      ("ch_a" ∷ [])
      (some "gpt")
      "client"
      1000
      routing).0
    ≡ some spare
unfolding select_channel select_in get_top_priority_group admits llm_plug.Outcomes.Views.is_blocked
    llm_plug.Dict.get
selected = refl

select_channel-best_example :
    Has spare (heavy ∷ spare ∷ [])
    × IsAdmissible spare (some "gpt") ("ch_a" ∷ []) 1000 (initial settings)
    × ((c : Channel)
        → Has c (heavy ∷ spare ∷ [])
        → IsAdmissible c (some "gpt") ("ch_a" ∷ []) 1000 (initial settings)
        → 2 ≤ c.priority)
select_channel-best_example =
    Choice.select_channel-best (λ _ _ _. 0) (heavy ∷ spare ∷ []) ("ch_a" ∷ []) (some "gpt") "client"
      1000 routing (refl, (refl, tt)) selected
