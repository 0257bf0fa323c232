-- ===== src/Balancer/Choice.antt =====
-- balancer/load_balancer.py: whatever the strategy, the channel that is selected is an admissible
-- one of the best priority, and one is selected if there is one.
use llm_plug.Common.{
  ℕ, ◌≤◌, String, Option, some, List, [], ◌∷◌, string_eq, nat_eq, ◌≡◌, refl, ap, sym, ◌∙◌, subst,
  arith, Distinct, Has, keep, Has-keep, keep-Has,
}
use llm_plug.Channel.{Channel}
use llm_plug.Outcomes.Views.{admits}
use llm_plug.Outcomes.Admission.{IsAdmissible, admits_iff}
use llm_plug.Balancer.Weights.{ids}
use llm_plug.Balancer.Select.{Routing, top_of, get_top_priority_group, select_in, select_channel}
use llm_plug.Balancer.Picks.{
  admitted-eq-keep, top_of-best, top_of_some, by_strategy, keep-Distinct, top_of-Distinct, Picks,
}

module _ (hrw_score : String → String → ℕ → ℕ) where
  module _ (channels : List Channel) (ex : List String) (model : Option String) (key : String)
      (now : ℕ) (r : Routing) where
    abbrev Admissible : Channel → Type 0
    Admissible c = IsAdmissible c model ex now r.outcomes

    abbrev selected : Option Channel
    selected = (select_channel hrw_score channels ex model key now r).0

    group : List Channel
    group = top_of (keep (λ ch. (admits ch model ex now r.outcomes).0) channels)

    group_lem : (get_top_priority_group channels ex model now r.outcomes).0 ≡ group
    unfolding get_top_priority_group group
    group_lem = ap top_of (admitted-eq-keep model ex now channels r.outcomes)

    abbrev checked : Routing
    checked = record r { outcomes = (get_top_priority_group channels ex model now r.outcomes).1 }

    selected-group : selected ≡ (select_in hrw_score group model key now checked).0
    unfolding select_channel
    selected-group = ap (λ g. (select_in hrw_score g model key now checked).0) group_lem

    pick_some :
        (g : List Channel) (c : Channel)
        → Distinct (ids g)
        → Has c g
        → Picks hrw_score g (select_in hrw_score g model key now checked).0
    pick_some [] c h m = absurd m
    pick_some (ch ∷ chs) c h m =
        by_strategy hrw_score checked.balancer.strategy ch chs model key now checked refl h

    pick_only :
        (g : List Channel) {ch : Channel}
        → Distinct (ids g)
        → (select_in hrw_score g model key now checked).0 ≡ some ch
        → Has ch g
    pick_only [] h e = unfold select_in in cc
    pick_only (c ∷ cs) h e =
        let (t, e', m) =
          by_strategy hrw_score checked.balancer.strategy c cs model key now checked refl h in
        let same : some t ≡ some _ = sym e' ∙ e in subst (λ x. Has x (c ∷ cs)) (ground arith) m

    -- Where ids are distinct, a channel that is selected under any strategy is one of the
    -- candidates and admissible, and no admissible candidate has a better (smaller) priority.
    pub select_channel-best :
        {ch : Channel}
        → Distinct (ids channels)
        → selected ≡ some ch
        → Has ch channels
          × Admissible ch
          × ((c : Channel) → Has c channels → Admissible c → ch.priority ≤ c.priority)
    unfolding group
    select_channel-best {ch} h e =
        let pass = λ (c : Channel). (admits c model ex now r.outcomes).0 in
        let available = keep pass channels in
        let m =
          pick_only (top_of available) (top_of-Distinct available (keep-Distinct pass channels h))
            (sym selected-group ∙ e) in
        let (m', best) = top_of-best ch available m in
        let (member, ok) = Has-keep ch pass channels m' in
        (
          member,
          (admits_iff ch model ex now r.outcomes).0 ok,
          λ c mc a.
              best c (keep-Has c pass channels mc ((admits_iff c model ex now r.outcomes).1 a)),
        )

    -- Where ids are distinct, a channel is selected whenever a candidate is admissible.
    pub select_channel_some :
        (c : Channel)
        → Distinct (ids channels)
        → Has c channels
        → Admissible c
        → (ch : Channel) × (selected ≡ some ch)
    unfolding group
    select_channel_some c h mc a =
        let pass = λ (c : Channel). (admits c model ex now r.outcomes).0 in
        let available = keep pass channels in
        let (t, mt) =
          top_of_some c available
            (keep-Has c pass channels mc ((admits_iff c model ex now r.outcomes).1 a)) in
        let (ch, e, m) =
          pick_some (top_of available) t (top_of-Distinct available (keep-Distinct pass channels h))
            mt in
        (ch, selected-group ∙ e)
