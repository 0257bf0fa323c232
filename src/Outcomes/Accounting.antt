-- ===== src/Outcomes/Accounting.antt =====
-- proxy/outcomes.py: `effective_model` and `record`, the only writer of health and blocking.
-- `kind` is a member of the enumeration, `now` the event's time (`t`, or the clock).
use llm_plug.Common.{
  ℕ, ◌+◌, String, Bool, true, false, ◌||◌, Option, none, some, [], ◌∷◌, ◌++◌, if◌then◌else◌, ◌==◌,
  string_eq, nat_eq, pair_eq,
}
use llm_plug.Dict.{put, get_or}
use llm_plug.Outcomes.State.{
  Outcomes, OutcomeKind, success, http_4xx_config, quota_window, cancelled, HealthEntry,
  fresh_entry,
}

-- `a or b` on an optional text: an absent or empty text is false.
unfoldable pub or_text : Option String → String → String
or_text none fallback = fallback
or_text (some a) fallback = if a == "" then fallback else a

unfoldable pub effective_model : Option String → Option String → Option String → String → String
unfolding or_text
effective_model model body_model requested_model channel_id =
    or_text model (or_text body_model (or_text requested_model channel_id))

unfoldable pub is_config_error : OutcomeKind → Bool
is_config_error http_4xx_config = true
is_config_error _ = false

unfoldable pub after_success : HealthEntry → HealthEntry
after_success entry = record entry {
  fail_count = 0;
  degraded = false;
  consecutive_failures = 0;
  first_failed_at = 0;
  permanent = false;
}

unfoldable pub after_failure : OutcomeKind → ℕ → HealthEntry → HealthEntry
unfolding is_config_error
after_failure kind now entry = record entry {
  fail_count = entry.fail_count + 1;
  last_fail_time = now;
  degraded = true;
  first_failed_at = if entry.consecutive_failures == 0 then now else entry.first_failed_at;
  consecutive_failures = entry.consecutive_failures + 1;
  permanent = entry.permanent || is_config_error kind;
}

unfoldable pub record_quota_window : String → ℕ → String → Outcomes → Outcomes
record_quota_window channel_id reset_at code s = record s {
  blocked = put channel_id (reset_at, code) s.blocked;
  quota_writes =
      if s.quota_adapter
      then s.quota_writes ++ (channel_id, reset_at, code) ∷ []
      else s.quota_writes;
}

unfoldable pub update_entry : (HealthEntry → HealthEntry) → String → String → Outcomes → Outcomes
update_entry f model channel_id s = record s {
  health = put (model, channel_id) (f (get_or fresh_entry (model, channel_id) s.health)) s.health;
}

unfoldable pub record_outcome :
    String → String → OutcomeKind → ℕ → Option ℕ → String → Outcomes → Outcomes
unfolding update_entry after_success after_failure record_quota_window
record_outcome model channel_id success now reset_at code s =
    update_entry after_success model channel_id s
record_outcome model channel_id quota_window now reset_at code s =
    record_quota_window channel_id (elim reset_at [ some t ↦ t | none ↦ now ]) code s
record_outcome model channel_id cancelled now reset_at code s = s
record_outcome model channel_id kind now reset_at code s =
    update_entry (after_failure kind now) model channel_id s
