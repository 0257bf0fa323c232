-- ===== src/Tests/OutcomesTests.antt =====
-- proxy/outcomes.py: the theorems at concrete inputs.
use llm_plug.Common.{
  ℕ, ◌+◌, String, true, false, ◌||◌, none, some, List, [], ◌∷◌, string_eq, pair_eq, ◌≡◌, refl,
  arith, ltb, ◌↔◌,
}
use llm_plug.Config.{Settings}
use llm_plug.Channel.{Channel}
use llm_plug.Dict.{Dict, get}
use llm_plug.Outcomes.State.{
  is_failure, Outcomes, OutcomeKind, initial, SessionStickyEntry, max_fail_count, cooldown,
}
use llm_plug.Outcomes.Accounting.{record_outcome}
use llm_plug.Outcomes.Views.{is_healthy, admits, ProbeTarget, probe_targets}
use llm_plug.Outcomes.Sticky.{session_sticky_get, remember_session_sticky, trim_entries}
use llm_plug.Outcomes.Maintenance.{remove_channel}
use llm_plug.Outcomes.History.{
  Event, recorded, health_read, channel_changed, replay, standing, told,
}
use llm_plug.Outcomes.Standing
use llm_plug.Outcomes.Admission
use llm_plug.Outcomes.Admission.{IsAdmissible}
use llm_plug.Outcomes.Breaker
use llm_plug.Outcomes.Breaker.{fail_all, fail_count_of}
use llm_plug.Outcomes.Reads
use llm_plug.Outcomes.Invariant
use llm_plug.Outcomes.Invariant.{IsWellFormed}
use llm_plug.Outcomes.Sessions
use llm_plug.Outcomes.Deletion
use llm_plug.Outcomes.Deletion.{IsForgotten, find_row, Gives}

abbrev pub settings : Settings
settings = record {
  max_fail_count = some 3;
  cooldown_seconds = some 120;
  rate_limit_wait_seconds = some 60;
  allow_format_conversion = some true;
  group_probe_interval_seconds = some 60;
}

abbrev channel : Channel
channel = record {
  id = "ch_a";
  models = "gpt" ∷ [];
  enabled = true;
  weight = 1;
  priority = 1;
  rate_limit_rpm = none;
  allow_format_conversion = none;
  endpoints = [];
}

abbrev failed : ℕ → Event
failed t = recorded "gpt" "ch_a" OutcomeKind.http_5xx t none ""

-- Two failures, a read, a success, two more failures, a 401 and a save of the channel.
abbrev history : List Event
history =
    channel_changed "ch_a"
    ∷ recorded "gpt" "ch_a" OutcomeKind.http_4xx_config 900 none ""
    ∷ failed 800
    ∷ health_read "gpt" "ch_a" 700
    ∷ recorded "gpt" "ch_a" OutcomeKind.success 600 none ""
    ∷ failed 500
    ∷ []

abbrev state : Outcomes
state = replay history (initial settings)

history_told :
    standing "gpt" "ch_a" state
    ≡ record { degraded = true; first_failed_at = 800; consecutive_failures = 2; permanent = false }
unfolding standing told
history_told = Standing.replay-told settings "gpt" "ch_a" history

replay-told_example : standing "gpt" "ch_a" state ≡ told "gpt" "ch_a" history
replay-told_example = Standing.replay-told settings "gpt" "ch_a" history

state-IsWellFormed : IsWellFormed state
state-IsWellFormed =
    Invariant.replay-IsWellFormed history (initial settings)
      (Invariant.initial-IsWellFormed settings)

admits_iff_example :
    ((admits channel (some "gpt") [] 1000 state).0 ≡ true)
    ↔ IsAdmissible channel (some "gpt") [] 1000 state
admits_iff_example = Admission.admits_iff channel (some "gpt") [] 1000 state

is_healthy-record_other_example :
    (is_healthy "claude" "ch_a" 1000
      (record_outcome "gpt" "ch_a" OutcomeKind.http_5xx 990 none "" state)).0
    ≡ (is_healthy "claude" "ch_a" 1000 state).0
is_healthy-record_other_example =
    Admission.is_healthy-record_other "claude" "ch_a" "gpt" "ch_a" OutcomeKind.http_5xx 990 none ""
      1000 state refl

abbrev three : List (OutcomeKind × ℕ)
three =
    (OutcomeKind.http_5xx, 30)
    ∷ (OutcomeKind.transport_failure, 20)
    ∷ (OutcomeKind.http_429, 10)
    ∷ []

is_healthy-fail_all_example :
    (is_healthy "gpt" "ch_a" 120030 (fail_all "gpt" "ch_a" three (initial settings))).0 ≡ (
      ltb
        (fail_count_of "gpt" "ch_a" (initial settings) + 2 + 1)
        (max_fail_count (initial settings))
      || ltb (30 + cooldown (initial settings)) 120030)
unfolding is_failure
is_healthy-fail_all_example =
    Breaker.is_healthy-fail_all "gpt" "ch_a" OutcomeKind.http_5xx 30
      ((OutcomeKind.transport_failure, 20) ∷ (OutcomeKind.http_429, 10) ∷ []) 120030
      (initial settings) (refl, (refl, (refl, tt)))

admits-admits_example :
    (admits channel (some "gpt") [] 200000 (admits channel (some "claude") [] 1000 state).1).0
    ≡ (admits channel (some "gpt") [] 200000 state).0
admits-admits_example =
    Reads.admits-admits channel channel (some "claude") (some "gpt") [] [] 1000 200000 state
      (omega arith)

remove_channel-IsForgotten_example : IsForgotten "ch_a" state (remove_channel "ch_a" state)
remove_channel-IsForgotten_example =
    Deletion.remove_channel-IsForgotten "ch_a" state state-IsWellFormed

abbrev gpt_row : ProbeTarget
gpt_row = record {
  model = "gpt";
  channel_id = "ch_a";
  first_failed_at = 800;
  consecutive_failures = 2;
  permanent = false;
}

probe_targets_iff_example :
    (find_row "gpt" "ch_a" (probe_targets state) ≡ some gpt_row)
    ↔ Gives "gpt" "ch_a" gpt_row (get ("gpt", "ch_a") state.health)
probe_targets_iff_example = Deletion.probe_targets_iff "gpt" "ch_a" state gpt_row state-IsWellFormed

session_sticky_get-remember_example :
    ((session_sticky_get "s1" 2000 (remember_session_sticky "s1" "ch_a" 1000 (initial settings))).0
      ≡ some "ch_a")
    × (get "s1"
          (session_sticky_get "s1" 2000
            (remember_session_sticky "s1" "ch_a" 1000 (initial settings))).1.session_sticky
        ≡ some (record { channel_id = "ch_a"; last_active_at = 2000 }))
session_sticky_get-remember_example =
    Sessions.session_sticky_get-remember "s1" "ch_a" 1000 2000 (initial settings) (omega arith)
      (omega arith) (omega arith)

abbrev cache : Dict String SessionStickyEntry
cache =
    ("a", record { channel_id = "x"; last_active_at = 10 })
    ∷ ("b", record { channel_id = "y"; last_active_at = 900 })
    ∷ ("c", record { channel_id = "z"; last_active_at = 950 })
    ∷ []

trim_cache :
    trim_entries 500 1 1000 cache ≡ ("c", record { channel_id = "z"; last_active_at = 950 }) ∷ []
unfolding trim_entries llm_plug.Dict.remove llm_plug.Dict.restrict
trim_cache = refl
