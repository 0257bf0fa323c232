-- ===== src/Balancer/Picks.antt =====
-- balancer/load_balancer.py: the filter, the top group and each strategy's choice within it.
use llm_plug.Common.{
  ℕ, ◌≤◌, String, Bool, true, false, Option, none, some, List, [], ◌∷◌, if◌then◌else◌, ◌==◌,
  string_eq, nat_eq, ◌≡◌, refl, ◌∙◌, arith, ltb, leb, contains, Distinct, Has, inl, inr, Bool-cases,
  Option-cases, if_both, keep, Has-keep, keep-Has, keep_same, find_first-Has, max,
}
use llm_plug.Channel.{Channel}
use llm_plug.Outcomes.State.{Outcomes}
use llm_plug.Outcomes.Views.{admits}
use llm_plug.Outcomes.Sticky.{session_sticky_get}
use llm_plug.Outcomes.Reads.{admits-admits}
use llm_plug.Balancer.State.{
  Weights, Strategy, round_robin, backup, sticky, weighted_round_robin, backup_select, precedes,
  least_from, sticky_select_by_hrw, lowest_from,
}
use llm_plug.Balancer.Weights.{ids}
use llm_plug.Balancer.Round.{weighted_round_robin-IsRound}
use llm_plug.Balancer.Select.{
  Routing, admitted, min_priority, top_of, cached_candidate, remember_selected,
  sticky_select_cached, select_in,
}

-- The reads that the filter makes on the way change no verdict of it.
pub admitted-eq-keep :
    (model : Option String) (ex : List String) (now : ℕ) (chs : List Channel) (s : Outcomes)
    → (admitted model ex now chs s).0 ≡ keep (λ ch. (admits ch model ex now s).0) chs
unfolding admitted
admitted-eq-keep model ex now [] s = refl
admitted-eq-keep model ex now (ch ∷ chs) s =
    let s' = (admits ch model ex now s).1 in
    let rest =
      admitted-eq-keep model ex now chs s'
      ∙ keep_same _ (λ c. (admits c model ex now s).0) chs
          (λ c. admits-admits ch c model model ex ex now now s (omega arith)) in
    rw rest

min_priority-le :
    (c ch : Channel) (chs : List Channel) → Has c (ch ∷ chs) → min_priority ch chs ≤ c.priority
unfolding min_priority
min_priority-le c ch [] (inl e) = rw e (omega arith)
min_priority-le c ch [] (inr m) = absurd m
min_priority-le c ch (ch' ∷ chs) (inl e) = rw e (omega arith)
min_priority-le c ch (ch' ∷ chs) (inr m) = omega (arith, min_priority-le c ch' chs m)

min_priority_reached :
    (ch : Channel) (chs : List Channel)
    → (c : Channel) × Has c (ch ∷ chs) × (c.priority ≡ min_priority ch chs)
unfolding min_priority
min_priority_reached ch [] = (ch, inl refl, refl)
min_priority_reached ch (ch' ∷ chs) =
    let (c, m, e) = min_priority_reached ch' chs in
    elim (Bool-cases (leb ch.priority (min_priority ch' chs))) [
      | inl b ↦ (ch, inl refl, ground arith)
      | inr b ↦ (c, inr m, ground arith)
    ]

-- Every member of the top group is a candidate, and none has a better priority.
pub top_of-best :
    (ch : Channel) (chs : List Channel)
    → Has ch (top_of chs)
    → Has ch chs × ((c : Channel) → Has c chs → ch.priority ≤ c.priority)
unfolding top_of
top_of-best ch [] m = absurd m
top_of-best ch (c ∷ cs) m =
    let (m', e) = Has-keep ch (λ x. x.priority == min_priority c cs) (c ∷ cs) m in
    (m', λ x mx. ground (arith, min_priority-le x c cs mx))

pub top_of_some :
    (c : Channel) (chs : List Channel) → Has c chs → (t : Channel) × Has t (top_of chs)
unfolding top_of
top_of_some c [] m = absurd m
top_of_some c (ch ∷ chs) m =
    let (t, mt, e) = min_priority_reached ch chs in
    (t, keep-Has t (λ x. x.priority == min_priority ch chs) (ch ∷ chs) mt (ground arith))

least_from-Has : (best : Channel) (chs : List Channel) → Has (least_from best chs) (best ∷ chs)
unfolding least_from
least_from-Has best [] = inl refl
least_from-Has best (ch ∷ chs) =
    if_both (λ x. Has (least_from x chs) (best ∷ ch ∷ chs)) (precedes ch best)
      (inr (least_from-Has ch chs))
      (elim (least_from-Has best chs) [ inl e ↦ inl e | inr m ↦ inr (inr m) ])

both :
    (P : Channel → ℕ → Type 0) (b : Bool) {x y : Channel} {m n : ℕ}
    → P x m
    → P y n
    → P (if b then x else y) (if b then m else n)
both P true p q = p
both P false p q = q

lowest_from-Has :
    (hrw_score : String → String → ℕ → ℕ) (key : String) (best : Channel) (score : ℕ)
    (chs : List Channel)
    → Has (lowest_from hrw_score key best score chs) (best ∷ chs)
unfolding lowest_from
lowest_from-Has hrw_score key best score [] = inl refl
lowest_from-Has hrw_score key best score (ch ∷ chs) =
    let score' = hrw_score key ch.id (max ch.weight 1) in
    both (λ x n. Has (lowest_from hrw_score key x n chs) (best ∷ ch ∷ chs)) (ltb score' score)
      (inr (lowest_from-Has hrw_score key ch score' chs))
      (elim (lowest_from-Has hrw_score key best score chs) [ inl e ↦ inl e | inr m ↦ inr (inr m) ])

module _ (hrw_score : String → String → ℕ → ℕ) where
  -- The strategy gives a member of the group, if there is one.
  abbrev pub Picks : List Channel → Option Channel → Type 0
  Picks group selected = (ch : Channel) × (selected ≡ some ch) × Has ch group

  backup-Picks : (ch : Channel) (chs : List Channel) → Picks (ch ∷ chs) (backup_select (ch ∷ chs))
  unfolding backup_select
  backup-Picks ch chs = (least_from ch chs, refl, least_from-Has ch chs)

  hrw-Picks :
      (key : String) (ch : Channel) (chs : List Channel)
      → Picks (ch ∷ chs) (sticky_select_by_hrw hrw_score key (ch ∷ chs))
  unfolding sticky_select_by_hrw
  hrw-Picks key ch chs =
      let score = hrw_score key ch.id (max ch.weight 1) in
      (lowest_from hrw_score key ch score chs, refl, lowest_from-Has hrw_score key ch score chs)

  cached_candidate-Has :
      (cached : Option String) (group : List Channel) {ch : Channel}
      → cached_candidate hrw_score cached group ≡ some ch
      → Has ch group
  unfolding cached_candidate
  cached_candidate-Has none group e = cc
  cached_candidate-Has (some id) group e = (find_first-Has (λ c. c.id == id) group (ground arith)).0

  sticky-Picks :
      (key : String) (ch : Channel) (chs : List Channel) (now : ℕ) (s : Outcomes)
      → Picks (ch ∷ chs) (sticky_select_cached hrw_score key (ch ∷ chs) now s).0
  unfolding sticky_select_cached
  sticky-Picks key ch chs now s =
      let group = ch ∷ chs in
      let (cached, s') = session_sticky_get key now s in
      elim (Option-cases (cached_candidate hrw_score cached group)) [
        | inl e ↦
            let (c, e', m) = hrw-Picks key ch chs in
            rw (e, sticky_select_cached) (rw (e', remember_selected) (c, refl, m))
        | inr (c, e) ↦ rw (e, sticky_select_cached) (c, refl, cached_candidate-Has cached group e)
      ]

  -- The round robin needs distinct ids for its table of weights.
  robin-Picks :
      (model : Option String) (ch : Channel) (chs : List Channel) (d : Weights)
      → Distinct (ids (ch ∷ chs))
      → Picks (ch ∷ chs) (weighted_round_robin (ch ∷ chs) model d).0
  robin-Picks model ch chs d h =
      let (top, e, r) = weighted_round_robin-IsRound model ch chs d h in (top, e, r.chosen)

  pub by_strategy :
      (strategy : Strategy) (ch : Channel) (chs : List Channel) (model : Option String)
      (key : String) (now : ℕ) (r : Routing)
      → r.balancer.strategy ≡ strategy
      → Distinct (ids (ch ∷ chs))
      → Picks (ch ∷ chs) (select_in hrw_score (ch ∷ chs) model key now r).0
  unfolding select_in
  by_strategy backup ch chs model key now r e h = rw e (backup-Picks ch chs)
  by_strategy sticky ch chs model key now r e h = rw e (sticky-Picks key ch chs now r.outcomes)
  by_strategy round_robin ch [] model key now r e h = rw e (ch, refl, inl refl)
  by_strategy round_robin ch (c ∷ cs) model key now r e h =
      rw e (robin-Picks model ch (c ∷ cs) r.balancer.current_weights h)

contains-keep :
    (id : String) (p : Channel → Bool) (chs : List Channel)
    → contains id (ids chs) ≡ false
    → contains id (ids (keep p chs)) ≡ false
contains-keep id p [] h = refl
contains-keep id p (ch ∷ chs) h = ground (arith, contains-keep id p chs)

pub keep-Distinct :
    (p : Channel → Bool) (chs : List Channel) → Distinct (ids chs) → Distinct (ids (keep p chs))
keep-Distinct p [] h = tt
keep-Distinct p (ch ∷ chs) h =
    ground (arith, keep-Distinct p chs h.1, contains-keep ch.id p chs h.0)

pub top_of-Distinct : (chs : List Channel) → Distinct (ids chs) → Distinct (ids (top_of chs))
unfolding top_of
top_of-Distinct [] h = tt
top_of-Distinct (ch ∷ chs) h = keep-Distinct (λ c. c.priority == min_priority ch chs) (ch ∷ chs) h
