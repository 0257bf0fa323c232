-- ===== src/Outcomes/Admission.antt =====
-- proxy/outcomes.py: what `admits` decides, the circuit breaker, and that reads do not disturb
-- one another.
use llm_plug.Common.{
  ℕ, ◌+◌, ◌≤◌, String, Bool, true, false, ◌||◌, ◌&&◌, Option, none, some, List, string_eq, pair_eq,
  pair_beq, ◌≡◌, refl, arith, not, contains, ltb, leb, ◌↔◌,
}
use llm_plug.Channel.{Channel}
use llm_plug.Dict.{get}
use llm_plug.Dict.Laws.{get-put}
use llm_plug.Outcomes.State.{Outcomes, OutcomeKind, HealthEntry, max_fail_count, cooldown}
use llm_plug.Outcomes.Accounting.{record_outcome, update_entry}
use llm_plug.Outcomes.Views.{is_healthy, is_blocked, admits}

-- Rests until the cooldown is over once the failures have reached the threshold.
abbrev pub IsTripped : Outcomes → ℕ → HealthEntry → Type 0
IsTripped s now entry =
    (max_fail_count s ≤ entry.fail_count) × (now ≤ entry.last_fail_time + cooldown s)

unfoldable pub is_open : Outcomes → ℕ → Option HealthEntry → Bool
is_open s now none = true
is_open s now (some entry) =
    ltb entry.fail_count (max_fail_count s) || ltb (entry.last_fail_time + cooldown s) now

unfoldable pub is_free : ℕ → Option (ℕ × String) → Bool
is_free now none = true
is_free now (some (reset_at, code)) = leb reset_at now

unfoldable pub is_open_for : Outcomes → ℕ → String → Option String → Bool
is_open_for s now ch none = true
is_open_for s now ch (some m) = is_open s now (get (m, ch) s.health)

pub healthy-eq-open :
    (m c : String) (now : ℕ) (s : Outcomes)
    → (is_healthy m c now s).0 ≡ is_open s now (get (m, c) s.health)
unfolding is_healthy is_open
healthy-eq-open m c now s = ground arith

pub blocked-eq-free :
    (c : String) (now : ℕ) (s : Outcomes)
    → (is_blocked c now s).0 ≡ not (is_free now (get c s.blocked))
unfolding is_blocked is_free
blocked-eq-free c now s = ground arith

pub health-blocked :
    (c : String) (now : ℕ) (s : Outcomes) → (is_blocked c now s).1.health ≡ s.health
unfolding is_blocked
health-blocked c now s = ground arith

pub admits-eq :
    (ch : Channel) (model : Option String) (ex : List String) (now : ℕ) (s : Outcomes)
    → (admits ch model ex now s).0 ≡ (
        ch.enabled
        && not (contains ch.id ex)
        && is_free now (get ch.id s.blocked)
        && is_open_for s now ch.id model)
unfolding admits is_open_for is_free is_open is_blocked is_healthy max_fail_count cooldown
admits-eq ch none ex now s = ground arith
admits-eq ch (some m) ex now s = ground arith

is_free_iff :
    (now : ℕ) (o : Option (ℕ × String))
    → (is_free now o ≡ true) ↔ ((r : ℕ) (code : String) → o ≡ some (r, code) → r ≤ now)
unfolding is_free
is_free_iff now none = (λ _ r code e. cc, λ _. refl)
is_free_iff now (some (r, code)) =
    (λ h r' code' e. ground arith, λ h. ground (arith, h r code refl))

is_open_iff :
    (s : Outcomes) (now : ℕ) (o : Option HealthEntry)
    → (is_open s now o ≡ true) ↔ ((entry : HealthEntry) → o ≡ some entry → ¬ IsTripped s now entry)
unfolding is_open
is_open_iff s now none = (λ _ entry e. cc, λ _. refl)
is_open_iff s now (some entry) = (λ h entry' e t. ground arith, λ h. ground (arith, h entry refl))

-- The four gates of admission, as statements about the state.
pub record IsAdmissible (ch : Channel) (model : Option String) (ex : List String) (now : ℕ)
    (s : Outcomes) : Type 0 where
  pub enabled : ch.enabled ≡ true
  pub not_excluded : contains ch.id ex ≡ false
  pub not_blocked : (r : ℕ) (code : String) → get ch.id s.blocked ≡ some (r, code) → r ≤ now
  pub not_tripped :
      (m : String) (entry : HealthEntry)
      → model ≡ some m
      → get (m, ch.id) s.health ≡ some entry
      → ¬ IsTripped s now entry

open_for_iff :
    (s : Outcomes) (now : ℕ) (c : String) (model : Option String)
    → (is_open_for s now c model ≡ true) ↔ (
        (m : String) (entry : HealthEntry)
        → model ≡ some m
        → get (m, c) s.health ≡ some entry
        → ¬ IsTripped s now entry)
unfolding is_open_for
open_for_iff s now c none = (λ _ m entry e. cc, λ _. refl)
open_for_iff s now c (some m) = (
  λ h m' entry e f. (is_open_iff s now (get (m', c) s.health)).0 (ground arith) entry f,
  λ h. (is_open_iff s now (get (m, c) s.health)).1 (λ entry f. h m entry refl f),
)

-- A channel is admitted exactly if it is enabled, is not excluded, has no quota window that is
-- still running, and, where a model is given, the pair has not reached the failure threshold
-- within the cooldown.
pub admits_iff :
    (ch : Channel) (model : Option String) (ex : List String) (now : ℕ) (s : Outcomes)
    → ((admits ch model ex now s).0 ≡ true) ↔ IsAdmissible ch model ex now s
admits_iff ch model ex now s = (
  λ h.
      let e = admits-eq ch model ex now s in
      record {
        enabled = ground arith;
        not_excluded = ground arith;
        not_blocked = (is_free_iff now (get ch.id s.blocked)).0 (ground arith);
        not_tripped = (open_for_iff s now ch.id model).0 (ground arith);
      },
  λ a. ground (
    arith,
    admits-eq ch model ex now s,
    a.enabled,
    a.not_excluded,
    (is_free_iff now (get ch.id s.blocked)).1 a.not_blocked,
    (open_for_iff s now ch.id model).1 a.not_tripped,
  ),
)

-- A failure, success or quota window that is recorded for one pair leaves the health of every
-- other pair as it was: model A's failures do not trip model B on the same channel.
pub is_healthy-record_other :
    (m c m' c' : String) (kind : OutcomeKind) (t : ℕ) (r : Option ℕ) (code : String) (now : ℕ)
    (s : Outcomes)
    → pair_beq (m', c') (m, c) ≡ false
    → (is_healthy m c now (record_outcome m' c' kind t r code s)).0 ≡ (is_healthy m c now s).0
unfolding record_outcome update_entry max_fail_count cooldown is_open
is_healthy-record_other m c m' c' OutcomeKind.success t r code now s h =
    rw (healthy-eq-open, healthy-eq-open, get-put, h)
is_healthy-record_other m c m' c' OutcomeKind.cancelled t r code now s h = refl
is_healthy-record_other m c m' c' OutcomeKind.quota_window t r code now s h =
    rw (healthy-eq-open, healthy-eq-open)
is_healthy-record_other m c m' c' _ t r code now s h =
    rw (healthy-eq-open, healthy-eq-open, get-put, h)
