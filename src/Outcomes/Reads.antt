-- ===== src/Outcomes/Reads.antt =====
-- proxy/outcomes.py: reads repair what has expired, and this changes no later answer.
use llm_plug.Common.{
  ℕ, ◌≤◌, String, Bool, false, Option, none, some, List, string_eq, pair_eq, pair_beq_iff, ◌≡◌,
  refl, arith, not, if_both, Option-cases, inl, inr, contains, ap, ◌∙◌,
}
use llm_plug.Channel.{Channel}
use llm_plug.Dict.{get}
use llm_plug.Dict.Laws.{get-put, get-remove}
use llm_plug.Outcomes.State.{Outcomes, HealthEntry, max_fail_count, cooldown}
use llm_plug.Outcomes.Views.{is_healthy, is_blocked, admits, check_entry, healthy_for}
use llm_plug.Outcomes.Admission.{is_open, is_free, is_open_for, admits-eq}

healed-open :
    (m c m' c' : String) (earlier now : ℕ) (s : Outcomes)
    → earlier ≤ now
    → is_open s now (get (m, c) (is_healthy m' c' earlier s).1.health)
      ≡ is_open s now (get (m, c) s.health)
unfolding is_healthy is_open
healed-open m c m' c' earlier now s h = elim (Option-cases (get (m', c') s.health)) [
  | inl e ↦ rw (e, check_entry) refl
  | inr (entry, e) ↦
      rw (e, check_entry)
        (ground (
          arith,
          get-put (m, c) (m', c') (record entry { fail_count = 0; last_fail_time = 0 }) s.health,
          pair_beq_iff (m', c') (m, c),
        ))
]

-- Two states that answer every admission check at `now` alike.
record SameAnswers (now : ℕ) (s s' : Outcomes) : Type 0 where
  free : (c : String) → is_free now (get c s'.blocked) ≡ is_free now (get c s.blocked)
  open_pair :
      (m c : String) → is_open s' now (get (m, c) s'.health) ≡ is_open s now (get (m, c) s.health)

SameAnswers-refl : (now : ℕ) (s : Outcomes) → SameAnswers now s s
SameAnswers-refl now s = record { free = λ c. refl; open_pair = λ m c. refl }

SameAnswers-trans :
    {now : ℕ} {s t u : Outcomes} → SameAnswers now s t → SameAnswers now t u → SameAnswers now s u
SameAnswers-trans p q = record {
  free = λ c. q.free c ∙ p.free c;
  open_pair = λ m c. q.open_pair m c ∙ p.open_pair m c;
}

is_healthy_keeps :
    (m c : String) (now : ℕ) (s : Outcomes)
    → (max_fail_count (is_healthy m c now s).1 ≡ max_fail_count s)
      × (cooldown (is_healthy m c now s).1 ≡ cooldown s)
      × ((is_healthy m c now s).1.blocked ≡ s.blocked)
unfolding is_healthy max_fail_count cooldown
is_healthy_keeps m c now s = ground arith

same_thresholds :
    (s s' : Outcomes) (now : ℕ) (o : Option HealthEntry)
    → max_fail_count s' ≡ max_fail_count s
    → cooldown s' ≡ cooldown s
    → is_open s' now o ≡ is_open s now o
unfolding is_open
same_thresholds s s' now none p q = refl
same_thresholds s s' now (some entry) p q = ground arith

SameAnswers-is_healthy :
    (m c : String) (earlier now : ℕ) (s : Outcomes)
    → earlier ≤ now
    → SameAnswers now s (is_healthy m c earlier s).1
SameAnswers-is_healthy m c earlier now s h =
    let keeps = is_healthy_keeps m c earlier s in
    record {
      free = λ c'. ap (λ d. is_free now (get c' d)) (keeps.2);
      open_pair = λ m' c'.
          same_thresholds s _ now _ keeps.0 keeps.1 ∙ healed-open m' c' m c earlier now s h;
    }

SameAnswers-is_blocked :
    (c : String) (earlier now : ℕ) (s : Outcomes)
    → earlier ≤ now
    → SameAnswers now s (is_blocked c earlier s).1
unfolding is_blocked is_free is_open max_fail_count cooldown
SameAnswers-is_blocked c earlier now s h = record {
  free = λ c'. ground (arith, get-remove c' c s.blocked, string_eq.beq_iff c c');
  open_pair = λ m' c'. ground arith;
}

SameAnswers-healthy_for :
    (model : Option String) (c : String) (earlier now : ℕ) (s : Outcomes)
    → earlier ≤ now
    → SameAnswers now s (healthy_for model c earlier s).1
unfolding healthy_for
SameAnswers-healthy_for none c earlier now s h = SameAnswers-refl now s
SameAnswers-healthy_for (some m) c earlier now s h = SameAnswers-is_healthy m c earlier now s h

SameAnswers-admits :
    (ch : Channel) (model : Option String) (ex : List String) (earlier now : ℕ) (s : Outcomes)
    → earlier ≤ now
    → SameAnswers now s (admits ch model ex earlier s).1
unfolding admits
SameAnswers-admits ch model ex earlier now s h =
    let read = is_blocked ch.id earlier s in
    let free = SameAnswers-is_blocked ch.id earlier now s h in
    let healthy = SameAnswers-healthy_for model ch.id earlier now read.1 h in
    let after = healthy_for model ch.id earlier read.1 in
    let same = SameAnswers-refl now s in
    let Same : Bool × Outcomes → Type 0 = λ x. SameAnswers now s x.1 in
    if_both Same (not ch.enabled) {x = (false, s)} same (
      if_both Same (contains ch.id ex) {x = (false, s)} same (
        if_both Same read.0 {x = (false, read.1)} {y = after} free
          (SameAnswers-trans free healthy)))

-- What an admission check repairs on the way (an expired block, a fail count whose cooldown is
-- over) changes no later check: whatever was checked at `earlier`, at `now` a channel is admitted
-- or not as if that check had not been made.
pub admits-admits :
    (ch ch' : Channel) (model model' : Option String) (ex ex' : List String) (earlier now : ℕ)
    (s : Outcomes)
    → earlier ≤ now
    → (admits ch' model' ex' now (admits ch model ex earlier s).1).0
      ≡ (admits ch' model' ex' now s).0
unfolding is_open_for
admits-admits ch ch' model none ex ex' earlier now s h =
    let same = SameAnswers-admits ch model ex earlier now s h in
    rw (admits-eq, admits-eq, same.free)
admits-admits ch ch' model (some m) ex ex' earlier now s h =
    let same = SameAnswers-admits ch model ex earlier now s h in
    rw (admits-eq, admits-eq, same.free, same.open_pair)
