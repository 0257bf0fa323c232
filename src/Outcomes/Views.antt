-- ===== src/Outcomes/Views.antt =====
-- proxy/outcomes.py: the views of health, degradation and blocking, admission, and the probe list.
-- A view that repairs what it reads (`is_healthy`, `is_blocked`) returns the state after the call.
use llm_plug.Common.{
  ℕ, ◌+◌, String, Bool, true, false, ◌&&◌, Option, none, some, List, [], ◌∷◌, if◌then◌else◌, ◌==◌,
  string_eq, pair_eq, ltb, leb, not, contains,
}
use llm_plug.Channel.{Channel}
use llm_plug.Dict.{Dict, get, put, remove}
use llm_plug.Outcomes.State.{Outcomes, HealthEntry, max_fail_count, cooldown}

unfoldable pub check_entry : Option HealthEntry → String → String → ℕ → Outcomes → Bool × Outcomes
check_entry none model channel_id now s = (true, s)
check_entry (some entry) model channel_id now s =
    if ltb entry.fail_count (max_fail_count s)
    then (true, s)
    else if leb now (entry.last_fail_time + cooldown s)
    then (false, s)
    else (
      true,
      record s {
        health =
            put (model, channel_id) (record entry { fail_count = 0; last_fail_time = 0 }) s.health;
      },
    )

unfoldable pub is_healthy : String → String → ℕ → Outcomes → Bool × Outcomes
unfolding check_entry
is_healthy model channel_id now s =
    check_entry (get (model, channel_id) s.health) model channel_id now s

unfoldable pub is_degraded : String → String → Outcomes → Bool
is_degraded model channel_id s = elim (get (model, channel_id) s.health) [
  | none ↦ false
  | some entry ↦ entry.degraded
]

unfoldable pub is_blocked : String → ℕ → Outcomes → Bool × Outcomes
is_blocked channel_id now s = elim (get channel_id s.blocked) [
  | none ↦ (false, s)
  | some (reset_at, code) ↦
      if leb reset_at now
      then (false, record s { blocked = remove channel_id s.blocked })
      else (true, s)
]

unfoldable pub healthy_for : Option String → String → ℕ → Outcomes → Bool × Outcomes
unfolding is_healthy
healthy_for none channel_id now s = (true, s)
healthy_for (some model) channel_id now s = is_healthy model channel_id now s

unfoldable pub admits : Channel → Option String → List String → ℕ → Outcomes → Bool × Outcomes
unfolding healthy_for
admits channel model exclude_ids now s =
    if not channel.enabled
    then (false, s)
    else if contains channel.id exclude_ids
    then (false, s)
    else (let (blocked, s') = is_blocked channel.id now s in
        if blocked then (false, s') else healthy_for model channel.id now s')

pub record ProbeTarget : Type 0 where
  pub model : String
  pub channel_id : String
  pub first_failed_at : ℕ
  pub consecutive_failures : ℕ
  pub permanent : Bool

abbrev pub is_probed : String → String → HealthEntry → Bool
is_probed model channel_id entry =
    entry.degraded && not entry.permanent && not (model == "") && not (model == channel_id)

unfoldable pub probe_rows : Dict (String × String) HealthEntry → List ProbeTarget
probe_rows [] = []
probe_rows (((m, ch), entry) ∷ d) =
    let rest = probe_rows d in
    if is_probed m ch entry
    then record {
      model = m;
      channel_id = ch;
      first_failed_at = entry.first_failed_at;
      consecutive_failures = entry.consecutive_failures;
      permanent = entry.permanent;
    }
      ∷ rest
    else rest

unfoldable pub probe_targets : Outcomes → List ProbeTarget
unfolding probe_rows
probe_targets s = probe_rows s.health
