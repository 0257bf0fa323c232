-- ===== src/Balancer/Round.antt =====
-- balancer/load_balancer.py: one round of `_weighted_round_robin` as a whole.
use text.Mathlib.TextEquality.{eq_iff}
use llm_plug.Common.{
  ℕ, String, Option, none, some, List, [], ◌∷◌, if◌then◌else◌, ◌==◌, string_eq, pair_eq, ◌≡◌, refl,
  ap, sym, ◌∙◌, subst, arith, Distinct, Has, All, All-Has, inl, inr,
}
use llm_plug.Common.Int.{ℤ, pos, ◌+ℤ◌, ◌-ℤ◌, ◌≤ℤ◌}
use llm_plug.Channel.{Channel}
use llm_plug.Dict.{put}
use llm_plug.Balancer.State.{
  Weights, Best, better, total_weight, add_weights, charge, weighted_round_robin, key_of,
}
use llm_plug.Balancer.Weights.{
  ids, current, current-put, current-add_weights, Adds, add_weights-Adds, add_weights-IsTop,
}

-- The weight of a channel in the comparison of a round.
abbrev pub raised : String → Weights → Channel → ℤ
raised k d ch = current k d ch.id +ℤ pos ch.weight

-- What a round that chose `top` does: `top` is a channel of the group whose raised weight is
-- greatest; every weight is raised, and that of `top` is lowered by `total`.
pub record IsRound (k : String) (chs : List Channel) (total : ℕ) (d d' : Weights) (top : Channel)
    : Type 0 where
  pub chosen : Has top chs
  pub greatest : All (λ ch. raised k d ch ≤ℤ raised k d top) chs
  pub moved :
      All
        (λ ch.
          current k d' ch.id
          ≡ (if top.id == ch.id then raised k d ch -ℤ pos total else raised k d ch))
        chs

add_weights-start :
    (k : String) (ch : Channel) (chs : List Channel) (d : Weights)
    → add_weights k (ch ∷ chs) d none
      ≡ add_weights k chs (put (k, ch.id) (raised k d ch) d) (some (ch, raised k d ch))
unfolding add_weights current better
add_weights-start k ch chs d = refl

abbrev StartTop : String → Channel → List Channel → Weights × Best → Type 0
StartTop k ch chs pass =
    (top : Channel) × (w : ℤ) × (pass.1 ≡ some (top, w))
    × Has top (ch ∷ chs)
    × (current k pass.0 top.id ≡ w)
    × All (λ c. current k pass.0 c.id ≤ℤ w) (ch ∷ chs)

Topped-start :
    (k : String) (ch : Channel) (chs : List Channel) (d : Weights)
    → Distinct (ids (ch ∷ chs))
    → StartTop k ch chs (add_weights k (ch ∷ chs) d none)
Topped-start k ch chs d h =
    let u = raised k d ch in
    let (top, w, e, t) = add_weights-IsTop k chs (put (k, ch.id) u d) ch u h.1 in
    let own = current-add_weights k ch chs d (some (ch, u)) h.0 in
    let after = (add_weights k chs (put (k, ch.id) u d) (some (ch, u))).0 in
    subst (StartTop k ch chs) (sym (add_weights-start k ch chs d)) (
      top,
      w,
      e,
      elim t.source [ inl (p, q) ↦ inl p | inr (m, q) ↦ inr m ],
      elim t.source [
        | inl (p, q) ↦ ap (λ c. current k after c.id) p ∙ own ∙ sym q
        | inr (m, q) ↦ q
      ],
      (rw own t.above, t.greatest),
    )

charge-some :
    (k : String) (total : ℕ) (pass : Weights × Best) (top : Channel) (w : ℤ)
    → pass.1 ≡ some (top, w)
    → charge k total pass ≡ (some top, put (k, top.id) (w -ℤ pos total) pass.0)
unfolding charge
charge-some k total (d, none) top w e = cc
charge-some k total (d, some (c, v)) top w e = ground arith

All-raised :
    (k : String) (d d₁ : Weights) (w : ℤ) (chs : List Channel)
    → All (Adds k d d₁) chs
    → All (λ c. current k d₁ c.id ≤ℤ w) chs
    → All (λ c. raised k d c ≤ℤ w) chs
All-raised k d d₁ w [] a g = tt
All-raised k d d₁ w (ch ∷ chs) a g = (subst (λ x. x ≤ℤ w) a.0 g.0, All-raised k d d₁ w chs a.1 g.1)

All-charged :
    (k : String) (d d₁ : Weights) (w : ℤ) (top : Channel) (total : ℕ) (chs : List Channel)
    → All (Adds k d d₁) chs
    → current k d₁ top.id ≡ w
    → All
        (λ ch.
          current k (put (k, top.id) (w -ℤ pos total) d₁) ch.id
          ≡ (if top.id == ch.id then raised k d ch -ℤ pos total else raised k d ch))
        chs
All-charged k d d₁ w top total [] a e = tt
All-charged k d d₁ w top total (ch ∷ chs) a e = (
  ground (arith, current-put k ch.id top.id (w -ℤ pos total) d₁, eq_iff top.id ch.id, a.0),
  All-charged k d d₁ w top total chs a.1 e,
)

-- The raised weight of a channel of the group is its weight after the pass.
raised_top :
    (k : String) (d d₁ : Weights) (top : Channel) (chs : List Channel)
    → All (Adds k d d₁) chs
    → Has top chs
    → current k d₁ top.id ≡ raised k d top
raised_top k d d₁ top chs a m = All-Has (Adds k d d₁) top chs a m

abbrev Rounded : String → List Channel → ℕ → Weights → Option Channel × Weights → Type 0
Rounded k chs total d round =
    (top : Channel) × (round.0 ≡ some top) × IsRound k chs total d round.1 top

-- A round over a group that is not empty, with distinct ids, chooses a channel of the group with
-- the greatest raised weight, and lowers that one by the group's total weight.
pub weighted_round_robin-IsRound :
    (model : Option String) (ch : Channel) (chs : List Channel) (d : Weights)
    → Distinct (ids (ch ∷ chs))
    → let round = weighted_round_robin (ch ∷ chs) model d in
      (top : Channel) × (round.0 ≡ some top)
      × IsRound (key_of model) (ch ∷ chs) (total_weight (ch ∷ chs)) d round.1 top
unfolding weighted_round_robin
weighted_round_robin-IsRound model ch chs d h =
    let k = key_of model in
    let group = ch ∷ chs in
    let total = total_weight group in
    let pass = add_weights k group d none in
    let (top, w, e, m, own, g) = Topped-start k ch chs d h in
    let a = add_weights-Adds k group d none h in
    let w_eq : w ≡ raised k d top = sym own ∙ raised_top k d pass.0 top group a m in
    subst (Rounded k group total d) (sym (charge-some k total pass top w e)) (
      top,
      refl,
      record {
        chosen = m;
        greatest =
            subst (λ x. All (λ c. raised k d c ≤ℤ x) group) w_eq
              (All-raised k d pass.0 w group a g);
        moved = All-charged k d pass.0 w top total group a own;
      },
    )
