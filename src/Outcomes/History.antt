-- ===== src/Outcomes/History.antt =====
-- proxy/outcomes.py: the module driven by a history of calls, and what the history says of one
-- `(model, channel)` pair. The newest call stands first.
use llm_plug.Common.{
  ℕ, String, Bool, true, false, Option, none, some, List, [], ◌∷◌, if◌then◌else◌, ◌==◌, string_eq,
  pair_eq, pair_beq, length,
}
use llm_plug.Channel.{Channel}
use llm_plug.Dict.{get}
use llm_plug.Outcomes.State.{
  configure, set_quota_adapter, reset, Outcomes, OutcomeKind, HealthEntry,
}
use llm_plug.Outcomes.Accounting.{record_outcome}
use llm_plug.Outcomes.Views.{is_healthy, is_blocked, admits}
use llm_plug.Outcomes.Maintenance.{
  clear_permanent_for_channel, clear_all_permanent, remove_channel, load_quota_limits,
}
use llm_plug.Outcomes.Sticky.{
  configure_session_sticky, clear_session_sticky, trim_session_sticky, session_sticky_get,
  remember_session_sticky, remember_preferred,
}

pub data Event : Type 0 where
  recorded : String → String → OutcomeKind → ℕ → Option ℕ → String → Event
  health_read : String → String → ℕ → Event
  block_read : String → ℕ → Event
  admission : Channel → Option String → List String → ℕ → Event
  channel_changed : String → Event
  channel_deleted : String → Event
  permanents_cleared : Event
  was_reset : Event
  configured : Option ℕ → Option ℕ → Event
  adapter_set : Bool → Event
  quotas_loaded : ℕ → List (String × Option ℕ × String) → Event
  sticky_configured : ℕ → ℕ → Event
  sticky_cleared : Event
  sticky_trimmed : ℕ → Event
  sticky_read : String → ℕ → Event
  sticky_written : String → String → ℕ → Event
  preferred_written : String → String → String → Event

unfoldable pub apply : Event → Outcomes → Outcomes
apply (recorded m ch kind now reset_at code) s = record_outcome m ch kind now reset_at code s
apply (health_read m ch now) s = (is_healthy m ch now s).1
apply (block_read ch now) s = (is_blocked ch now s).1
apply (admission channel model exclude_ids now) s = (admits channel model exclude_ids now s).1
apply (channel_changed ch) s = clear_permanent_for_channel ch s
apply (channel_deleted ch) s = remove_channel ch s
apply permanents_cleared s = clear_all_permanent s
apply was_reset s = reset s
apply (configured max_fail_count cooldown) s = configure max_fail_count cooldown s
apply (adapter_set registered) s = set_quota_adapter registered s
apply (quotas_loaded now rows) s = load_quota_limits now rows s
apply (sticky_configured ttl max_entries) s = configure_session_sticky ttl max_entries s
apply sticky_cleared s = clear_session_sticky s
apply (sticky_trimmed now) s = trim_session_sticky now s
apply (sticky_read key now) s = (session_sticky_get key now s).1
apply (sticky_written key ch now) s = remember_session_sticky key ch now s
apply (preferred_written group_id m ch) s = remember_preferred group_id m ch s

unfoldable pub replay : List Event → Outcomes → Outcomes
replay [] s = s
replay (event ∷ earlier) s = apply event (replay earlier s)

-- What the routing layers and the probe read of a pair.
pub record Standing : Type 0 where
  pub degraded : Bool
  pub first_failed_at : ℕ
  pub consecutive_failures : ℕ
  pub permanent : Bool

unfoldable pub standing_of : Option HealthEntry → Standing
standing_of none = record {
  degraded = false;
  first_failed_at = 0;
  consecutive_failures = 0;
  permanent = false;
}
standing_of (some entry) = record {
  degraded = entry.degraded;
  first_failed_at = entry.first_failed_at;
  consecutive_failures = entry.consecutive_failures;
  permanent = entry.permanent;
}

unfoldable pub standing : String → String → Outcomes → Standing
unfolding standing_of
standing model channel_id s = standing_of (get (model, channel_id) s.health)

module _ (model channel_id : String) where
  -- The times of the failures since the pair last succeeded or its channel was deleted.
  unfoldable pub failures : List Event → List ℕ
  failures [] = []
  failures (recorded m ch kind now _ _ ∷ earlier) =
      let rest = failures earlier in
      if pair_beq (m, ch) (model, channel_id)
      then elim kind [
        | OutcomeKind.success ↦ []
        | OutcomeKind.quota_window ↦ rest
        | OutcomeKind.cancelled ↦ rest
        | _ ↦ now ∷ rest
      ]
      else rest
  failures (channel_deleted ch ∷ earlier) =
      let rest = failures earlier in if ch == channel_id then [] else rest
  failures (was_reset ∷ earlier) = []
  failures (_ ∷ earlier) = failures earlier

  -- A 401, 403 or 404 since the pair last succeeded and its channel was last saved or deleted.
  unfoldable pub misconfigured : List Event → Bool
  misconfigured [] = false
  misconfigured (recorded m ch kind now _ _ ∷ earlier) =
      let rest = misconfigured earlier in
      if pair_beq (m, ch) (model, channel_id)
      then elim kind [ OutcomeKind.success ↦ false | OutcomeKind.http_4xx_config ↦ true | _ ↦ rest ]
      else rest
  misconfigured (channel_changed ch ∷ earlier) =
      let rest = misconfigured earlier in if ch == channel_id then false else rest
  misconfigured (channel_deleted ch ∷ earlier) =
      let rest = misconfigured earlier in if ch == channel_id then false else rest
  misconfigured (permanents_cleared ∷ earlier) = false
  misconfigured (was_reset ∷ earlier) = false
  misconfigured (_ ∷ earlier) = misconfigured earlier

unfoldable pub oldest : List ℕ → ℕ
oldest [] = 0
oldest (t ∷ []) = t
oldest (t ∷ u ∷ ts) = oldest (u ∷ ts)

unfoldable pub is_nonempty : List ℕ → Bool
is_nonempty [] = false
is_nonempty (t ∷ ts) = true

unfoldable pub told : String → String → List Event → Standing
unfolding failures misconfigured oldest is_nonempty
told model channel_id history = record {
  degraded = is_nonempty (failures model channel_id history);
  first_failed_at = oldest (failures model channel_id history);
  consecutive_failures = length (failures model channel_id history);
  permanent = misconfigured model channel_id history;
}
