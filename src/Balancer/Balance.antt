-- ===== src/Balancer/Balance.antt =====
-- balancer/load_balancer.py: the weights of a group stay balanced from round to round.
use text.Mathlib.TextEquality.{eq_iff}
use llm_plug.Common.{
  ℕ, ◌+◌, ◌<◌, String, false, List, [], ◌∷◌, if◌then◌else◌, ◌==◌, string_eq, ◌≡◌, ◌≢◌, refl, ap,
  sym, subst, arith, ltb, contains, Distinct, Has, All, All-weaken, inl, inr, Bool-cases,
}
use llm_plug.Common.Int.{ℤ, pos, pos_part, neg_part, ◌+ℤ◌, ◌-ℤ◌, ◌≤ℤ◌, int_laws}
use llm_plug.Channel.{Channel}
use llm_plug.Balancer.State.{Weights, total_weight}
use llm_plug.Balancer.Weights.{ids, current}
use llm_plug.Balancer.Round.{raised, IsRound}

-- The sum of the current weights of a group.
unfoldable pub sum_current : String → Weights → List Channel → ℤ
sum_current k d [] = pos 0
sum_current k d (ch ∷ chs) = current k d ch.id +ℤ sum_current k d chs

-- What a round does to one weight.
abbrev pub Moved : String → Weights → Weights → Channel → ℕ → Channel → Type 0
Moved k d d' top total ch =
    current k d' ch.id ≡ (if top.id == ch.id then raised k d ch -ℤ pos total else raised k d ch)

sum_others :
    (k : String) (d d' : Weights) (top : Channel) (total : ℕ) (chs : List Channel)
    → contains top.id (ids chs) ≡ false
    → All (Moved k d d' top total) chs
    → sum_current k d' chs ≡ sum_current k d chs +ℤ pos (total_weight chs)
unfolding sum_current total_weight
sum_others k d d' top total [] h a = unfold ◌+ℤ◌ in refl
sum_others k d d' top total (ch ∷ chs) h a =
    let rest = sum_others k d d' top total chs (ground arith) a.1 in
    let here : current k d' ch.id ≡ raised k d ch =
      ground (arith, a.0, eq_iff top.id ch.id, eq_iff ch.id top.id) in
    rw (here, rest) (omega int_laws)

other_id :
    (top : Channel) (id : String) (chs : List Channel)
    → Has top chs
    → contains id (ids chs) ≡ false
    → (top.id == id) ≡ false
other_id top id [] m h = absurd m
other_id top id (ch ∷ chs) (inl e) h = rw e (ground arith)
other_id top id (ch ∷ chs) (inr m) h = other_id top id chs m (ground arith)

sum_round :
    (k : String) (d d' : Weights) (top : Channel) (total : ℕ) (chs : List Channel)
    → Distinct (ids chs)
    → Has top chs
    → All (Moved k d d' top total) chs
    → sum_current k d' chs ≡ sum_current k d chs +ℤ pos (total_weight chs) -ℤ pos total
unfolding sum_current total_weight
sum_round k d d' top total [] h m a = absurd m
sum_round k d d' top total (ch ∷ chs) h (inl e) a =
    let same : top.id ≡ ch.id = ap (λ c. c.id) e in
    let rest =
      sum_others k d d' top total chs (subst (λ i. contains i (ids chs) ≡ false) (sym same) h.0)
        a.1 in
    let here : current k d' ch.id ≡ raised k d ch -ℤ pos total =
      ground (arith, a.0, eq_iff top.id ch.id) in
    rw (here, rest) (omega int_laws)
sum_round k d d' top total (ch ∷ chs) h (inr m) a =
    let rest = sum_round k d d' top total chs h.1 m a.1 in
    let here : current k d' ch.id ≡ raised k d ch =
      ground (arith, a.0, eq_iff top.id ch.id, other_id top ch.id chs m h.0) in
    rw (here, rest) (omega int_laws)

-- Between rounds the weights of a group sum to zero and each is above minus the total.
abbrev pub AboveMinus : String → Weights → ℕ → Channel → Type 0
AboveMinus k d total ch = neg_part (current k d ch.id) < pos_part (current k d ch.id) + total

pub record IsBalanced (k : String) (chs : List Channel) (d : Weights) : Type 0 where
  pub sum : sum_current k d chs ≡ pos 0
  pub above : All (AboveMinus k d (total_weight chs)) chs

-- If no raised weight were positive, neither would be their sum.
sum_raised_le :
    (k : String) (d : Weights) (w : ℤ) (chs : List Channel)
    → w ≤ℤ pos 0
    → All (λ c. raised k d c ≤ℤ w) chs
    → sum_current k d chs +ℤ pos (total_weight chs) ≤ℤ pos 0
unfolding sum_current total_weight
sum_raised_le k d w [] h g = unfold ◌+ℤ◌ in omega arith
sum_raised_le k d w (ch ∷ chs) h g =
    let ih = sum_raised_le k d w chs h g.1 in let here = g.0 in omega int_laws

absent_id :
    (id : String) (chs : List Channel) → contains id (ids chs) ≡ false → All (λ c. id ≢ c.id) chs
absent_id id [] h = tt
absent_id id (ch ∷ chs) h = (λ e. ground (arith, eq_iff ch.id id), absent_id id chs (ground arith))

-- Ids tell the channels of a group apart.
same_id :
    (top : Channel) (chs : List Channel)
    → Distinct (ids chs)
    → Has top chs
    → All (λ c. top.id ≡ c.id → c ≡ top) chs
same_id top [] h m = tt
same_id top (ch ∷ chs) h (inl e) =
    let absent = absent_id top.id chs (subst (λ c. contains c.id (ids chs) ≡ false) (sym e) h.0) in
    (λ _. sym e, All-weaken _ _ chs (λ c n p. absurd (n p)) absent)
same_id top (ch ∷ chs) h (inr m) =
    (λ p. ground (arith, eq_iff top.id ch.id, other_id top ch.id chs m h.0), same_id top chs h.1 m)

above_round :
    (k : String) (d d' : Weights) (top : Channel) (total : ℕ) (chs : List Channel)
    → neg_part (raised k d top) < pos_part (raised k d top)
    → All (λ c. top.id ≡ c.id → c ≡ top) chs
    → All (Moved k d d' top total) chs
    → All (AboveMinus k d total) chs
    → All (AboveMinus k d' total) chs
above_round k d d' top total [] p s a h = tt
above_round k d d' top total (ch ∷ chs) p s a h = (
  elim (Bool-cases (top.id == ch.id)) [
    | inl b ↦
        let same = s.0 ((eq_iff top.id ch.id).0 b) in
        let p' : neg_part (raised k d ch) < pos_part (raised k d ch) = rw same p in
        let here : current k d' ch.id ≡ raised k d ch -ℤ pos total = ground (arith, a.0) in
        rw here (omega int_laws)
    | inr b ↦
        let before = h.0 in
        let here : current k d' ch.id ≡ raised k d ch = ground (arith, a.0) in
        rw here (omega int_laws)
  ],
  above_round k d d' top total chs p s.1 a.1 h.1,
)

lifted_top :
    (k : String) (d : Weights) (top : Channel) (chs : List Channel)
    → 0 < total_weight chs
    → All (λ c. raised k d c ≤ℤ raised k d top) chs
    → sum_current k d chs ≡ pos 0
    → neg_part (raised k d top) < pos_part (raised k d top)
lifted_top k d top chs positive g zero_sum =
    let w = raised k d top in
    elim (Bool-cases (ltb (neg_part w) (pos_part w))) [
      | inl b ↦ ground arith
      | inr b ↦
          let low : w ≤ℤ pos 0 = ground arith in
          let below =
            subst (λ x. x +ℤ pos (total_weight chs) ≤ℤ pos 0) zero_sum
              (sum_raised_le k d w chs low g) in
          absurd (omega int_laws)
    ]

pub round-IsBalanced :
    (k : String) (chs : List Channel) (d d' : Weights) (top : Channel)
    → Distinct (ids chs)
    → 0 < total_weight chs
    → IsRound k chs (total_weight chs) d d' top
    → IsBalanced k chs d
    → IsBalanced k chs d'
round-IsBalanced k chs d d' top distinct positive r b =
    let total = total_weight chs in
    let moved = sum_round k d d' top total chs distinct r.chosen r.moved in
    let lifted : neg_part (raised k d top) < pos_part (raised k d top) =
      lifted_top k d top chs positive r.greatest b.sum in
    record {
      sum = rw (moved, b.sum) (omega int_laws);
      above =
          above_round k d d' top total chs lifted (same_id top chs distinct r.chosen) r.moved
            b.above;
    }
