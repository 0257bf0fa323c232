-- ===== src/Dispatcher/Termination.antt =====
-- proxy/dispatcher.py: the loop ends. A turn that comes back to the top has excluded a candidate or
-- has paid for its wait.
use text.Mathlib.TextEquality.{eq_iff}
use llm_plug.Common.{
  ℕ, zero, suc, ◌+◌, ◌*◌, ◌≤◌, ◌<◌, String, Bool, true, false, Option, none, some, List, [], ◌∷◌,
  if◌then◌else◌, ◌==◌, string_eq, ◌≡◌, refl, arith, contains, Bool-cases, Option-cases, inl, inr,
  ◌⊎◌, eq_self,
}
use llm_plug.Channel.{Channel}
use llm_plug.RateLimiting.{
  Failure, detect_exception, is_rate_limit_exception, handle_rate_limit, add_tried,
}
use llm_plug.RateLimiting.Budget.{handle_rate_limit-IsGivenUp}
use llm_plug.Dispatcher.{
  Context, World, Attempt, served, exhausted, raised, Dispatched, Turn, done, again, divert, resume,
  handle_rate_limit_or_fast_fail, after_attempt, attempt_selected, turn, dispatch_loop,
}

-- The candidates that are not excluded.
unfoldable pub untried : List String → List String → ℕ
untried [] tried = 0
untried (id ∷ pool) tried =
    let rest = untried pool tried in if contains id tried then rest else suc rest

contains-add :
    (id k : String) (tried : List String)
    → contains id tried ≡ true
    → contains id (add_tried k tried) ≡ true
unfolding add_tried
contains-add id k tried h = ground arith

contains-add_self : (k : String) (tried : List String) → contains k (add_tried k tried) ≡ true
unfolding add_tried
contains-add_self k tried = ground (arith, eq_self k)

untried-add :
    (k : String) (pool tried : List String) → untried pool (add_tried k tried) ≤ untried pool tried
unfolding untried
untried-add k [] tried = omega arith
untried-add k (id ∷ pool) tried =
    let rest = untried-add k pool tried in
    elim (Bool-cases (contains id tried)) [
      | inl b ↦ rw (b, contains-add id k tried b) rest
      | inr b ↦ ground arith
    ]

untried-add_new :
    (k : String) (pool tried : List String)
    → contains k pool ≡ true
    → contains k tried ≡ false
    → untried pool (add_tried k tried) < untried pool tried
unfolding untried
untried-add_new k [] tried h n = cc
untried-add_new k (id ∷ pool) tried h n = elim (Bool-cases (id == k)) [
  | inl b ↦
      let e : id ≡ k = (eq_iff id k).0 b in
      let rest = untried-add k pool tried in
      let self = contains-add_self k tried in rw e (rw (n, self) (omega arith))
  | inr b ↦
      let rest = untried-add_new k pool tried (ground arith) n in
      elim (Bool-cases (contains id tried)) [
        | inl c ↦ rw (c, contains-add id k tried c) rest
        | inr c ↦ ground arith
      ]
]

-- What the turns that are left may use up.
abbrev pub reserve : List String → Context → ℕ
reserve pool ctx = ctx.wait_budget + 100 * untried pool ctx.tried

abbrev pub IsCandidate : List String → Channel → Context → Type 0
IsCandidate pool ch ctx = (contains ch.id pool ≡ true) × (contains ch.id ctx.tried ≡ false)

resume-lowers :
    {E : Type 0} (pool : List String) (exc : Failure) (selected : Channel) (model : Option String)
    (w : World E) (ctx : Context)
    → IsCandidate pool selected ctx
    → let r =
        handle_rate_limit exc selected ctx.wait_budget ctx.tried model w.now w.routing.outcomes in
      reserve pool (resume exc r w ctx).1 + 100 ≤ reserve pool ctx
unfolding resume
resume-lowers pool exc selected model w ctx c =
    let fewer = untried-add_new selected.id pool ctx.tried c.0 c.1 in
    elim (handle_rate_limit-IsGivenUp exc selected ctx.wait_budget ctx.tried model w.now
      w.routing.outcomes) [
        | inl g ↦ let within = g.within in rw g.tried_added (omega arith)
        | inr k ↦ let paid = k.paid in let slept = k.slept in rw k.same_tried (omega arith)
      ]

pub Turn-cases : {A : Type 0} (t : Turn A) → ((end : Dispatched A) × (t ≡ done end)) ⊎ (t ≡ again)
Turn-cases (done end) = inl (end, refl)
Turn-cases again = inr refl

module _ {E A : Type 0} (pool : List String) where
  abbrev Lowers : Context → Turn A × World E × Context → Type 0
  Lowers ctx t = t.0 ≡ again → reserve pool t.2 + 100 ≤ reserve pool ctx

  divert-Lowers :
      (exc : Failure) (selected : Channel) (model : Option String) (w : World E) (ctx : Context)
      → IsCandidate pool selected ctx
      → Lowers ctx (handle_rate_limit_or_fast_fail exc selected model w ctx)
  unfolding handle_rate_limit_or_fast_fail
  divert-Lowers exc selected model w ctx c = elim (Option-cases (detect_exception exc)) [
    | inl e ↦ rw (e, divert) (λ _. resume-lowers pool exc selected model w ctx c)
    | inr (info, e) ↦ rw (e, divert) (λ h. cc)
  ]

  after_attempt-Lowers :
      (selected : Channel) (model : Option String) (attempt : Attempt A) (w : World E)
      (ctx : Context)
      → IsCandidate pool selected ctx
      → Lowers ctx (after_attempt selected model attempt w ctx)
  unfolding after_attempt
  after_attempt-Lowers selected model (served a ch) w ctx c = λ h. cc
  after_attempt-Lowers selected model (exhausted cause) w ctx c =
      let fewer = untried-add_new selected.id pool ctx.tried c.0 c.1 in λ h. omega arith
  after_attempt-Lowers selected model (raised exc) w ctx c =
      elim (Bool-cases (is_rate_limit_exception exc)) [
        | inl b ↦ rw b (divert-Lowers exc selected model w ctx c)
        | inr b ↦ rw b (λ h. cc)
      ]

  module _ (select_fn : World E → Context → Option Channel × World E)
      (attempt_fn : Channel → ℕ → World E → Attempt A × World E)
      (yield_predicate : Channel → World E → Bool) (model : Option String) where
    -- What the loop needs of a selection: a candidate that is not excluded, or none.
    abbrev pub SelectsCandidates : Type 0
    SelectsCandidates =
        (w : World E) (ctx : Context) (ch : Channel)
        → (select_fn w ctx).0 ≡ some ch
        → IsCandidate pool ch ctx

    attempt_selected-Lowers :
        (selected : Option Channel) (w : World E) (ctx : Context)
        → ((ch : Channel) → selected ≡ some ch → IsCandidate pool ch ctx)
        → Lowers ctx (attempt_selected select_fn attempt_fn yield_predicate model selected w ctx)
    unfolding attempt_selected
    attempt_selected-Lowers none w ctx c = λ h. cc
    attempt_selected-Lowers (some ch) w ctx c =
        let (member, fresh) = c ch refl in
        elim (Bool-cases (yield_predicate ch w)) [
          | inl b ↦
              rw (b, attempt_selected)
                (after_attempt-Lowers ch model (attempt_fn ch ctx.wait_budget w).0
                  (attempt_fn ch ctx.wait_budget w).1 ctx (member, fresh))
          | inr b ↦
              let fewer = untried-add_new ch.id pool ctx.tried member fresh in
              rw (b, attempt_selected) (λ h. omega arith)
        ]

    turn-Lowers :
        (w : World E) (ctx : Context)
        → SelectsCandidates
        → Lowers ctx (turn select_fn attempt_fn yield_predicate model w ctx)
    unfolding turn
    turn-Lowers w ctx c =
        attempt_selected-Lowers (select_fn w ctx).0 (select_fn w ctx).1 ctx (c w ctx)

    -- If the selection gives only candidates that are not excluded, the loop ends within one turn
    -- more than the excludable candidates and the tenths of a second of waiting budget.
    pub dispatch_loop-ends :
        (fuel : ℕ) (w : World E) (ctx : Context)
        → SelectsCandidates
        → reserve pool ctx < 100 * fuel
        → (end : Dispatched A × World E × Context) × (dispatch_loop select_fn attempt_fn
              yield_predicate model fuel w ctx
            ≡ some end)
    unfolding dispatch_loop
    dispatch_loop-ends zero w ctx c enough = absurd (omega arith)
    dispatch_loop-ends (suc fuel) w ctx c enough =
        let t = turn select_fn attempt_fn yield_predicate model w ctx in
        let lowers = turn-Lowers w ctx c in
        elim (Turn-cases t.0) [
          | inl (end, e) ↦ ((end, t.1, t.2), rw (e, dispatch_loop) refl)
          | inr e ↦
              let less = lowers e in
              let (end, rest) = dispatch_loop-ends fuel t.1 t.2 c (omega arith) in
              (end, rw (e, dispatch_loop) rest)
        ]
