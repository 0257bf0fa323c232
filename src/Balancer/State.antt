-- ===== src/Balancer/State.antt =====
-- balancer/load_balancer.py: the balancer's state, and the three ways to choose in a group of
-- channels of one priority. A weight that the round robin accumulates may be negative.
use Prim.Native.Nat.{Ordering}
use Prim.Native.String.{compare}
use llm_plug.Common.{
  ℕ, ◌+◌, String, Bool, true, false, Option, none, some, List, [], ◌∷◌, if◌then◌else◌, ◌==◌,
  string_eq, nat_eq, pair_eq, ltb, max,
}
use llm_plug.Common.Int.{ℤ, pos, ◌+ℤ◌, ◌-ℤ◌, ltb_ℤ}
use llm_plug.Channel.{Channel}
use llm_plug.Dict.{Dict, get_or, put}

-- VALID_STRATEGIES
pub data Strategy : Type 0 where
  round_robin backup sticky : Strategy

pub record LoadBalancer : Type 0 where
  pub current_weights : Dict (String × String) ℤ
  pub strategy : Strategy
  pub sticky_ttl : ℕ

abbrev pub Weights : Type 0
Weights = Dict (String × String) ℤ

-- `sum(ch.weight for ch in channels)`
unfoldable pub total_weight : List Channel → ℕ
total_weight [] = 0
total_weight (ch ∷ chs) = ch.weight + total_weight chs

-- The best channel so far, with its weight after the addition.
abbrev pub Best : Type 0
Best = Option (Channel × ℤ)

unfoldable pub better : Best → Channel → ℤ → Best
better none ch current = some (ch, current)
better (some (best, best_weight)) ch current =
    if ltb_ℤ best_weight current then some (ch, current) else some (best, best_weight)

-- The `for` loop of `_weighted_round_robin`.
unfoldable pub add_weights : String → List Channel → Weights → Best → Weights × Best
unfolding better
add_weights key_model [] weights best = (weights, best)
add_weights key_model (ch ∷ chs) weights best =
    let current = get_or (pos 0) (key_model, ch.id) weights +ℤ pos ch.weight in
    add_weights key_model chs (put (key_model, ch.id) current weights) (better best ch current)

-- The assertion that a channel was chosen fails on an empty group, which gives `none`.
unfoldable pub charge : String → ℕ → Weights × Best → Option Channel × Weights
charge key_model total (weights, none) = (none, weights)
charge key_model total (weights, some (best, best_weight)) =
    (some best, put (key_model, best.id) (best_weight -ℤ pos total) weights)

-- `model or ""`
unfoldable pub key_of : Option String → String
key_of none = ""
key_of (some model) = model

unfoldable pub weighted_round_robin :
    List Channel → Option String → Weights → Option Channel × Weights
unfolding charge key_of add_weights total_weight
weighted_round_robin channels model weights =
    charge (key_of model) (total_weight channels) (add_weights (key_of model) channels weights none)

-- `(-a.weight, a.id) < (-b.weight, b.id)`
unfoldable pub precedes : Channel → Channel → Bool
precedes a b =
    if a.weight == b.weight
    then elim (compare a.id b.id) [ Ordering.lt ↦ true | _ ↦ false ]
    else ltb b.weight a.weight

unfoldable pub least_from : Channel → List Channel → Channel
least_from best [] = best
least_from best (ch ∷ chs) = least_from (if precedes ch best then ch else best) chs

-- `sorted(channels, key=...)[0]`: the first of the least elements.
unfoldable pub backup_select : List Channel → Option Channel
unfolding precedes least_from
backup_select [] = none
backup_select (ch ∷ chs) = some (least_from ch chs)

-- The rendezvous score `-log(sha256(session, id)) / weight`: a float that is not negative, of
-- which the code uses the order alone.
module _ (hrw_score : String → String → ℕ → ℕ) where
  unfoldable pub lowest_from : String → Channel → ℕ → List Channel → Channel
  lowest_from key best best_score [] = best
  lowest_from key best best_score (ch ∷ chs) =
      let score = hrw_score key ch.id (max ch.weight 1) in
      let lower = ltb score best_score in
      lowest_from key (if lower then ch else best) (if lower then score else best_score) chs

  -- An empty group is the `ValueError`.
  unfoldable pub sticky_select_by_hrw : String → List Channel → Option Channel
  unfolding lowest_from
  sticky_select_by_hrw key [] = none
  sticky_select_by_hrw key (ch ∷ chs) =
      some (lowest_from key ch (hrw_score key ch.id (max ch.weight 1)) chs)
