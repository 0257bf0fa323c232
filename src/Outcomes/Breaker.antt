-- ===== src/Outcomes/Breaker.antt =====
-- proxy/outcomes.py: the circuit breaker over a run of failures.
use llm_plug.Common.{
  ℕ, ◌+◌, String, true, ◌||◌, Option, none, some, List, [], ◌∷◌, string_eq, pair_eq, length, ◌≡◌,
  refl, arith, ltb, All, ◌∙◌, eq_self,
}
use llm_plug.Dict.{get, get_or}
use llm_plug.Dict.Laws.{get-put}
use llm_plug.Outcomes.State.{
  Outcomes, OutcomeKind, is_failure, fresh_entry, max_fail_count, cooldown,
}
use llm_plug.Outcomes.Accounting.{record_outcome, update_entry, after_failure}
use llm_plug.Outcomes.Views.{is_healthy}
use llm_plug.Outcomes.Admission.{is_open, healthy-eq-open}

-- The failures of one pair in a row, newest first, with no other call between.
abbrev pub Failures : Type 0
Failures = List (OutcomeKind × ℕ)

abbrev pub fail_all : String → String → Failures → Outcomes → Outcomes
fail_all m c [] s = s
fail_all m c ((kind, t) ∷ earlier) s = record_outcome m c kind t none "" (fail_all m c earlier s)

abbrev pub last_time : Failures → ℕ → ℕ
last_time [] t₀ = t₀
last_time ((kind, t) ∷ earlier) t₀ = t

tripping :
    (m c : String) (kind : OutcomeKind) (t : ℕ) (s : Outcomes)
    → is_failure kind ≡ true
    → get (m, c) (record_outcome m c kind t none "" s).health
      ≡ some (after_failure kind t (get_or fresh_entry (m, c) s.health))
unfolding record_outcome update_entry is_failure
tripping m c OutcomeKind.success t s h = cc
tripping m c OutcomeKind.quota_window t s h = cc
tripping m c OutcomeKind.cancelled t s h = cc
tripping m c _ t s h = rw (get-put, eq_self ⦃e = pair_eq⦄ (m, c)) refl

pub fail_count_of : String → String → Outcomes → ℕ
fail_count_of m c s = (get_or fresh_entry (m, c) s.health).fail_count

thresholds-record :
    (m c : String) (kind : OutcomeKind) (t : ℕ) (r : Option ℕ) (code : String) (s : Outcomes)
    → (max_fail_count (record_outcome m c kind t r code s) ≡ max_fail_count s)
      × (cooldown (record_outcome m c kind t r code s) ≡ cooldown s)
unfolding record_outcome update_entry max_fail_count cooldown
thresholds-record m c OutcomeKind.success t r code s = (refl, refl)
thresholds-record m c _ t r code s = (refl, refl)

thresholds-fail_all :
    (m c : String) (fs : Failures) (s : Outcomes)
    → (max_fail_count (fail_all m c fs s) ≡ max_fail_count s)
      × (cooldown (fail_all m c fs s) ≡ cooldown s)
thresholds-fail_all m c [] s = (refl, refl)
thresholds-fail_all m c ((kind, t) ∷ fs) s =
    let e = thresholds-record m c kind t none "" (fail_all m c fs s) in
    let ih = thresholds-fail_all m c fs s in (e.0 ∙ ih.0, e.1 ∙ ih.1)

abbrev pub AreFailures : Failures → Type 0
AreFailures = All (λ f. is_failure f.0 ≡ true)

fail_count-record :
    (m c : String) (kind : OutcomeKind) (now : ℕ) (s : Outcomes)
    → is_failure kind ≡ true
    → fail_count_of m c (record_outcome m c kind now none "" s) ≡ fail_count_of m c s + 1
unfolding fail_count_of get_or after_failure
fail_count-record m c kind now s h = ground (arith, tripping m c kind now s h)

fail_count-fail_all :
    (m c : String) (fs : Failures) (s : Outcomes)
    → AreFailures fs
    → fail_count_of m c (fail_all m c fs s) ≡ fail_count_of m c s + length fs
fail_count-fail_all m c [] s h = omega arith
fail_count-fail_all m c ((kind, t) ∷ fs) s h =
    omega (
      arith,
      fail_count-record m c kind t (fail_all m c fs s) h.0,
      fail_count-fail_all m c fs s h.1,
    )

-- After failures in a row, at least one, the pair is healthy exactly if the fail count is still
-- under the threshold or the cooldown after the newest failure is over.
pub is_healthy-fail_all :
    (m c : String) (kind : OutcomeKind) (t : ℕ) (fs : Failures) (now : ℕ) (s : Outcomes)
    → AreFailures ((kind, t) ∷ fs)
    → (is_healthy m c now (fail_all m c ((kind, t) ∷ fs) s)).0
      ≡ (ltb (fail_count_of m c s + length fs + 1) (max_fail_count s) || ltb (t + cooldown s) now)
unfolding is_open
is_healthy-fail_all m c kind t fs now s h =
    let s' = fail_all m c fs s in
    let count = fail_count-fail_all m c ((kind, t) ∷ fs) s h in
    rw healthy-eq-open (
      rw (tripping m c kind t s' h.0) (
        unfold after_failure fail_count_of get_or in
        ground
          (arith, count, tripping m c kind t s' h.0, thresholds-fail_all m c ((kind, t) ∷ fs) s)))
