-- ===== src/Balancer/Fairness.antt =====
-- balancer/load_balancer.py: over any number of rounds each channel is chosen in proportion to its
-- weight.
use llm_plug.Common.{
  ℕ, zero, suc, ◌+◌, ◌*◌, ◌≤◌, ◌<◌, String, Bool, false, Option, none, some, List, [], ◌∷◌,
  if◌then◌else◌, ◌==◌, string_eq, ◌≡◌, refl, sym, subst, arith, Distinct, Has, All, All-Has,
  All-weaken, inl, inr, length, Bool-cases,
}
use llm_plug.Common.Int.{pos, pos_part, neg_part, ◌-ℤ◌, int_laws}
use llm_plug.Channel.{Channel}
use llm_plug.Balancer.State.{Weights, total_weight, weighted_round_robin, key_of}
use llm_plug.Balancer.Weights.{ids, current}
use llm_plug.Balancer.Round.{raised, weighted_round_robin-IsRound}
use llm_plug.Balancer.Balance.{sum_current, Moved, AboveMinus, IsBalanced, round-IsBalanced}

-- Balanced weights are below the group's size less one times the total.
upper_sum :
    (k : String) (d : Weights) (total : ℕ) (chs : List Channel)
    → All (AboveMinus k d total) chs
    → neg_part (sum_current k d chs) ≤ pos_part (sum_current k d chs) + length chs * total
unfolding sum_current
upper_sum k d total [] h = omega arith
upper_sum k d total (ch ∷ chs) h =
    let ih = upper_sum k d total chs h.1 in let here = h.0 in omega int_laws

upper :
    (k : String) (d : Weights) (total : ℕ) (top : Channel) (chs : List Channel)
    → All (AboveMinus k d total) chs
    → Has top chs
    → pos_part (current k d top.id) + neg_part (sum_current k d chs) + total
      ≤ neg_part (current k d top.id) + pos_part (sum_current k d chs) + length chs * total
unfolding sum_current
upper k d total top [] h m = absurd m
upper k d total top (ch ∷ chs) h (inl e) =
    let rest = upper_sum k d total chs h.1 in rw e (omega int_laws)
upper k d total top (ch ∷ chs) h (inr m) =
    let ih = upper k d total top chs h.1 m in let here = h.0 in omega int_laws

-- Any number of rounds, newest choice first.
unfoldable pub rounds : ℕ → List Channel → Option String → Weights → List (Option Channel) × Weights
rounds zero chs model d = ([], d)
rounds (suc n) chs model d =
    let before = rounds n chs model d in
    let round = weighted_round_robin chs model before.1 in (round.0 ∷ before.0, round.1)

unfoldable pub is_pick : String → Option Channel → Bool
is_pick id none = false
is_pick id (some ch) = ch.id == id

-- How often a channel was chosen.
unfoldable pub picks : String → List (Option Channel) → ℕ
picks id [] = 0
picks id (choice ∷ choices) =
    let rest = picks id choices in if is_pick id choice then suc rest else rest

-- A weight is what the rounds gave the channel less what its choices took.
abbrev IsAccounted : String → ℕ → ℕ → Weights → List (Option Channel) → Channel → Type 0
IsAccounted k total n d choices ch =
    pos_part (current k d ch.id) + total * picks ch.id choices
    ≡ neg_part (current k d ch.id) + n * ch.weight

IsAccounted-round :
    (k : String) (total n : ℕ) (d d' : Weights) (choices : List (Option Channel)) (top : Channel)
    (chs : List Channel)
    → All (Moved k d d' top total) chs
    → All (IsAccounted k total n d choices) chs
    → All (IsAccounted k total (suc n) d' (some top ∷ choices)) chs
unfolding picks is_pick
IsAccounted-round k total n d d' choices top [] a h = tt
IsAccounted-round k total n d d' choices top (ch ∷ chs) a h = (
  elim (Bool-cases (top.id == ch.id)) [
    | inl b ↦
        let before = h.0 in
        let here : current k d' ch.id ≡ raised k d ch -ℤ pos total = ground (arith, a.0) in
        rw (here, b) (omega int_laws)
    | inr b ↦
        let before = h.0 in
        let here : current k d' ch.id ≡ raised k d ch = ground (arith, a.0) in
        rw (here, b) (omega int_laws)
  ],
  IsAccounted-round k total n d d' choices top chs a.1 h.1,
)

sum_fresh :
    (k : String) (d : Weights) (chs : List Channel)
    → All (λ c. current k d c.id ≡ pos 0) chs
    → sum_current k d chs ≡ pos 0
unfolding sum_current
sum_fresh k d [] h = refl
sum_fresh k d (ch ∷ chs) h = rw (h.0, sum_fresh k d chs h.1) (omega int_laws)

fresh-IsBalanced :
    (k : String) (d : Weights) (chs : List Channel)
    → 0 < total_weight chs
    → All (λ c. current k d c.id ≡ pos 0) chs
    → IsBalanced k chs d
fresh-IsBalanced k d chs positive h = record {
  sum = sum_fresh k d chs h;
  above = All-weaken _ (AboveMinus k d (total_weight chs)) chs (λ c e. rw e (omega arith)) h;
}

module _ (model : Option String) (first : Channel) (others : List Channel) (d : Weights) where
  abbrev pub group : List Channel
  group = first ∷ others

  abbrev pub after : ℕ → List (Option Channel) × Weights
  after n = rounds n group model d

  record IsFair (n : ℕ) : Type 0 where
    balanced : IsBalanced (key_of model) group (after n).1
    accounted :
        All (IsAccounted (key_of model) (total_weight group) n (after n).1 (after n).0) group

  module _ (distinct : Distinct (ids group)) (positive : 0 < total_weight group)
      (fresh : All (λ c. current (key_of model) d c.id ≡ pos 0) group) where
    rounds-IsFair : (n : ℕ) → IsFair n
    unfolding rounds picks
    rounds-IsFair zero = record {
      balanced = fresh-IsBalanced (key_of model) d group positive fresh;
      accounted =
          All-weaken _ (IsAccounted (key_of model) (total_weight group) 0 d []) group
            (λ c e. rw e (omega arith)) fresh;
    }
    rounds-IsFair (suc n) =
        let k = key_of model in
        let total = total_weight group in
        let d' = (weighted_round_robin group model (after n).1).1 in
        let before = rounds-IsFair n in
        let (top, e, r) = weighted_round_robin-IsRound model first others (after n).1 distinct in
        record {
          balanced =
              round-IsBalanced k group (after n).1 d' top distinct positive r before.balanced;
          accounted =
              subst (λ o. All (IsAccounted k total (suc n) d' (o ∷ (after n).0)) group) (sym e)
                (IsAccounted-round k total n (after n).1 d' (after n).0 top group r.moved
                  before.accounted);
        }

    -- Over `n` rounds, from weights that are all zero, a channel is chosen `n * weight / total`
    -- times up to less than one choice more and at most one choice for each other channel less.
    pub picks_proportional :
        (n : ℕ) (ch : Channel)
        → Has ch group
        → (total_weight group * picks ch.id (after n).0 < n * ch.weight + total_weight group)
          × (n * ch.weight
              ≤ total_weight group * picks ch.id (after n).0 + length others * total_weight group)
    picks_proportional n ch m =
        let k = key_of model in
        let total = total_weight group in
        let d' = (after n).1 in
        let fair = rounds-IsFair n in
        let own = All-Has (IsAccounted k total n d' (after n).0) ch group fair.accounted m in
        let low = All-Has (AboveMinus k d' total) ch group fair.balanced.above m in
        let high = rw fair.balanced.sum at (upper k d' total ch group fair.balanced.above m) in
        (omega arith, omega arith)
