-- ===== src/Balancer/Select.antt =====
-- balancer/load_balancer.py: `select_channel`, `update_config` and `remove_channel`. The balancer's
-- lock makes each of them one step of both states. `session_key` is the fingerprint of the client,
-- a SHA-256 that `hrw_score` and the sticky cache take as a name.
use llm_plug.Common.{
  ℕ, String, Bool, true, false, ◌||◌, Option, none, some, List, [], ◌∷◌, if◌then◌else◌, ◌==◌,
  string_eq, nat_eq, pair_eq, not, keep, find_first, min,
}
use llm_plug.Channel.{Channel}
use llm_plug.Dict.{restrict}
use llm_plug.Outcomes.State.{Outcomes}
use llm_plug.Outcomes.Views.{admits}
use llm_plug.Outcomes.Sticky.{
  session_sticky_get, remember_session_sticky, configure_session_sticky, clear_session_sticky,
  trim_session_sticky,
}
use llm_plug.Outcomes.Maintenance.{remove_channel as forget_channel}
use llm_plug.Balancer.State.{
  LoadBalancer, Strategy, round_robin, backup, sticky, weighted_round_robin, backup_select,
  sticky_select_by_hrw,
}

-- The two modules' states, which every routing decision reads and writes together.
pub record Routing : Type 0 where
  pub outcomes : Outcomes
  pub balancer : LoadBalancer

-- `[ch for ch in channels if outcomes.admits(ch, model, exclude_ids=exclude_ids)]`
unfoldable pub admitted :
    Option String → List String → ℕ → List Channel → Outcomes → List Channel × Outcomes
admitted model exclude_ids now [] s = ([], s)
admitted model exclude_ids now (ch ∷ chs) s =
    let (ok, s') = admits ch model exclude_ids now s in
    let (rest, s'') = admitted model exclude_ids now chs s' in (if ok then ch ∷ rest else rest, s'')

unfoldable pub min_priority : Channel → List Channel → ℕ
min_priority ch [] = ch.priority
min_priority ch (ch' ∷ chs) = min ch.priority (min_priority ch' chs)

unfoldable pub top_of : List Channel → List Channel
unfolding min_priority
top_of [] = []
top_of (ch ∷ chs) = keep (λ c. c.priority == min_priority ch chs) (ch ∷ chs)

unfoldable pub get_top_priority_group :
    List Channel → List String → Option String → ℕ → Outcomes → List Channel × Outcomes
unfolding admitted top_of
get_top_priority_group channels exclude_ids model now s =
    let (available, s') = admitted model exclude_ids now channels s in (top_of available, s')

module _ (hrw_score : String → String → ℕ → ℕ) where
  -- The cached channel, if it is cached and still a candidate.
  unfoldable pub cached_candidate : Option String → List Channel → Option Channel
  cached_candidate none candidates = none
  cached_candidate (some id) candidates =
      if id == "" then none else find_first (λ ch. ch.id == id) candidates

  unfoldable pub remember_selected :
      String → ℕ → Option Channel → Outcomes → Option Channel × Outcomes
  remember_selected session_key now none s = (none, s)
  remember_selected session_key now (some ch) s =
      (some ch, remember_session_sticky session_key ch.id now s)

  unfoldable pub sticky_select_cached :
      String → List Channel → ℕ → Outcomes → Option Channel × Outcomes
  unfolding cached_candidate remember_selected
  sticky_select_cached session_key candidates now s =
      let (cached, s') = session_sticky_get session_key now s in
      elim (cached_candidate cached candidates) [
        | some ch ↦ (some ch, s')
        | none ↦
            remember_selected session_key now
              (sticky_select_by_hrw hrw_score session_key candidates) s'
      ]

  unfoldable pub select_in :
      List Channel → Option String → String → ℕ → Routing → Option Channel × Routing
  select_in [] model session_key now r = (none, r)
  select_in (ch ∷ chs) model session_key now r = elim r.balancer.strategy [
    | backup ↦ (backup_select (ch ∷ chs), r)
    | sticky ↦
        let (selected, s) = sticky_select_cached session_key (ch ∷ chs) now r.outcomes in
        (selected, record r { outcomes = s })
    | round_robin ↦ elim chs [
      | [] ↦ (some ch, r)
      | ch' ∷ rest ↦
          let (selected, weights) =
            weighted_round_robin (ch ∷ ch' ∷ rest) model r.balancer.current_weights in
          (selected, record r { balancer = record (r.balancer) { current_weights = weights } })
    ]
  ]

  unfoldable pub select_channel :
      List Channel → List String → Option String → String → ℕ → Routing → Option Channel × Routing
  unfolding select_in
  select_channel channels exclude_ids model session_key now r =
      let (group, s) = get_top_priority_group channels exclude_ids model now r.outcomes in
      select_in group model session_key now (record r { outcomes = s })

-- The text of the strategy is in lower case; another one is the `ValueError`.
unfoldable pub strategy_of : String → Option Strategy
strategy_of name =
    if name == "round_robin"
    then some round_robin
    else if name == "backup"
    then some backup
    else if name == "sticky"
    then some sticky
    else none

same_strategy : Strategy → Strategy → Bool
same_strategy round_robin round_robin = true
same_strategy backup backup = true
same_strategy sticky sticky = true
same_strategy _ _ = false

reconfigure : Strategy → ℕ → ℕ → ℕ → Routing → Routing
unfolding same_strategy
reconfigure strategy ttl max_entries now r =
    let clear =
      not (same_strategy strategy r.balancer.strategy) || not (ttl == r.balancer.sticky_ttl) in
    let s = configure_session_sticky ttl max_entries r.outcomes in
    record {
      outcomes = if clear then clear_session_sticky s else trim_session_sticky now s;
      balancer = record (r.balancer) { strategy = strategy; sticky_ttl = ttl };
    }

unfoldable pub update_config : String → ℕ → ℕ → ℕ → Routing → Option Routing
unfolding strategy_of reconfigure
update_config strategy ttl max_entries now r = elim (strategy_of strategy) [
  | none ↦ none
  | some strategy ↦ some (reconfigure strategy ttl max_entries now r)
]

unfoldable pub remove_channel : String → Routing → Routing
remove_channel channel_id r = record {
  outcomes = forget_channel channel_id r.outcomes;
  balancer = record (r.balancer) {
    current_weights = restrict (λ key _. not (key.1 == channel_id)) r.balancer.current_weights;
  };
}
