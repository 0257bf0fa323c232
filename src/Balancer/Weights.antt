-- ===== src/Balancer/Weights.antt =====
-- balancer/load_balancer.py: what one pass of `_weighted_round_robin` does to the weights.
use text.Mathlib.TextEquality.{eq_iff}
use llm_plug.Common.{
  String, true, false, some, List, [], ◌∷◌, if◌then◌else◌, ◌==◌, string_eq, pair_eq, ◌≡◌, refl, ap,
  sym, ◌∙◌, arith, contains, Distinct, Has, All, inl, inr, ◌⊎◌, Bool-cases,
}
use llm_plug.Common.Int.{ℤ, pos, ◌+ℤ◌, ◌≤ℤ◌, ltb_ℤ}
use llm_plug.Channel.{Channel}
use llm_plug.Dict.{get_or, put}
use llm_plug.Dict.Laws.{get-put}
use llm_plug.Balancer.State.{Weights, Best, better, add_weights}

abbrev pub ids : List Channel → List String
ids [] = []
ids (ch ∷ chs) = ch.id ∷ ids chs

-- `self._current_weights.get((key_model, ch.id), 0)`
unfoldable pub current : String → Weights → String → ℤ
current k d id = get_or (pos 0) (k, id) d

pub current-put :
    (k id id' : String) (v : ℤ) (d : Weights)
    → current k (put (k, id') v d) id ≡ (if id' == id then v else current k d id)
unfolding current get_or
current-put k id id' v d = ground (arith, get-put (k, id) (k, id') v d, eq_iff k k, eq_iff id' id)

-- A pass changes no weight of a channel outside the group.
add_weights_frame :
    (k id : String) (chs : List Channel) (d : Weights) (best : Best)
    → contains id (ids chs) ≡ false
    → current k (add_weights k chs d best).0 id ≡ current k d id
unfolding add_weights current
add_weights_frame k id [] d best h = refl
add_weights_frame k id (ch ∷ chs) d best h =
    let v = current k d ch.id +ℤ pos ch.weight in
    add_weights_frame k id chs (put (k, ch.id) v d) (better best ch v) (ground arith)
    ∙ current-put k id ch.id v d
    ∙ ground arith

-- It adds to each channel its weight.
abbrev pub Adds : String → Weights → Weights → Channel → Type 0
Adds k d d' ch = current k d' ch.id ≡ current k d ch.id +ℤ pos ch.weight

Adds-put :
    (k id : String) (v : ℤ) (d d' : Weights) (chs : List Channel)
    → contains id (ids chs) ≡ false
    → All (Adds k (put (k, id) v d) d') chs
    → All (Adds k d d') chs
Adds-put k id v d d' [] h a = tt
Adds-put k id v d d' (ch ∷ chs) h a = (
  ground (arith, a.0, current-put k ch.id id v d, eq_iff id ch.id, eq_iff ch.id id),
  Adds-put k id v d d' chs (ground arith) a.1,
)

pub add_weights-Adds :
    (k : String) (chs : List Channel) (d : Weights) (best : Best)
    → Distinct (ids chs)
    → All (Adds k d (add_weights k chs d best).0) chs
unfolding add_weights current
add_weights-Adds k [] d best h = tt
add_weights-Adds k (ch ∷ chs) d best h =
    let v = current k d ch.id +ℤ pos ch.weight in
    let d₁ = put (k, ch.id) v d in
    (
      add_weights_frame k ch.id chs d₁ (better best ch v) h.0
          ∙ current-put k ch.id ch.id v d
          ∙ ground (arith, eq_iff ch.id ch.id),
      Adds-put k ch.id v d _ chs h.0 (add_weights-Adds k chs d₁ (better best ch v) h.1),
    )

-- The current weight of a channel right after its own addition, at the end of the pass.
pub current-add_weights :
    (k : String) (ch : Channel) (chs : List Channel) (d : Weights) (best : Best)
    → contains ch.id (ids chs) ≡ false
    → let v = current k d ch.id +ℤ pos ch.weight in
      current k (add_weights k chs (put (k, ch.id) v d) best).0 ch.id ≡ v
current-add_weights k ch chs d best h =
    let v = current k d ch.id +ℤ pos ch.weight in
    add_weights_frame k ch.id chs (put (k, ch.id) v d) best h
    ∙ current-put k ch.id ch.id v d
    ∙ ground (arith, eq_iff ch.id ch.id)

-- The best channel of a pass from the best so far, `c` with weight `v`: not below `v` nor any
-- channel of the pass, and either `c` or a channel of the pass with its new weight.
pub record IsTop (k : String) (d' : Weights) (chs : List Channel) (c : Channel) (v : ℤ)
    (top : Channel) (w : ℤ) : Type 0 where
  pub above : v ≤ℤ w
  pub greatest : All (λ ch. current k d' ch.id ≤ℤ w) chs
  pub source : ((top ≡ c) × (w ≡ v)) ⊎ (Has top chs × (current k d' top.id ≡ w))

take_new :
    {k : String} {d' : Weights} {chs : List Channel} {c ch top : Channel} {v u w : ℤ}
    → current k d' ch.id ≡ u
    → ltb_ℤ v u ≡ true
    → IsTop k d' chs ch u top w
    → IsTop k d' (ch ∷ chs) c v top w
take_new {k} {d'} e b t = record {
  above = ground (arith, t.above);
  greatest = (rw e t.above, t.greatest);
  source = elim t.source [
    | inl (p, q) ↦ inr (inl p, ap (λ x. current k d' x.id) p ∙ e ∙ sym q)
    | inr (m, q) ↦ inr (inr m, q)
  ];
}

keep_old :
    {k : String} {d' : Weights} {chs : List Channel} {c ch top : Channel} {v u w : ℤ}
    → current k d' ch.id ≡ u
    → ltb_ℤ v u ≡ false
    → IsTop k d' chs c v top w
    → IsTop k d' (ch ∷ chs) c v top w
keep_old e b t = record {
  above = t.above;
  greatest = (rw e (ground (arith, t.above)), t.greatest);
  source = elim t.source [ inl same ↦ inl same | inr (m, q) ↦ inr (inr m, q) ];
}

abbrev pub Topped : String → List Channel → Weights → Channel → ℤ → Weights × Best → Type 0
Topped k chs d c v pass =
    (top : Channel) × (w : ℤ) × (pass.1 ≡ some (top, w)) × IsTop k pass.0 chs c v top w

add_weights-cons :
    (k : String) (ch : Channel) (chs : List Channel) (d : Weights) (c : Channel) (v : ℤ)
    → let u = current k d ch.id +ℤ pos ch.weight in
      add_weights k (ch ∷ chs) d (some (c, v))
      ≡ add_weights k chs (put (k, ch.id) u d) (if ltb_ℤ v u then some (ch, u) else some (c, v))
unfolding add_weights current better
add_weights-cons k ch chs d c v = refl

pub add_weights-IsTop :
    (k : String) (chs : List Channel) (d : Weights) (c : Channel) (v : ℤ)
    → Distinct (ids chs)
    → Topped k chs d c v (add_weights k chs d (some (c, v)))
add_weights-IsTop k [] d c v h =
    unfold add_weights in
    (c, v, refl, record { above = omega arith; greatest = tt; source = inl (refl, refl) })
add_weights-IsTop k (ch ∷ chs) d c v h =
    let u = current k d ch.id +ℤ pos ch.weight in
    let d₁ = put (k, ch.id) u d in
    elim (Bool-cases (ltb_ℤ v u)) [
      | inl b ↦
          let (top, w, e, t) = add_weights-IsTop k chs d₁ ch u h.1 in
          rw (add_weights-cons, b)
            (top, w, e, take_new (current-add_weights k ch chs d (some (ch, u)) h.0) b t)
      | inr b ↦
          let (top, w, e, t) = add_weights-IsTop k chs d₁ c v h.1 in
          rw (add_weights-cons, b)
            (top, w, e, keep_old (current-add_weights k ch chs d (some (c, v)) h.0) b t)
    ]
