-- ===== src/Outcomes/State.antt =====
-- proxy/outcomes.py: the outcome kinds and the module's state. Times and durations are counted in
-- milliseconds. A comparison such as `now - t >= ttl` is written `t + ttl <= now`, which holds of
-- the same values whichever of `now` and `t` is later.
use llm_plug.Common.{ℕ, ◌*◌, String, Bool, true, false, Option, none, some, List, []}
use llm_plug.Config.{Settings, or_default}
use llm_plug.Dict.{Dict}

pub data OutcomeKind : Type 0 where
  success transport_failure http_5xx http_429 http_4xx_config : OutcomeKind
  rate_limit_exhausted quota_window cancelled : OutcomeKind

-- `kind in _FAILURE_KINDS`
unfoldable pub is_failure : OutcomeKind → Bool
is_failure success = false
is_failure quota_window = false
is_failure cancelled = false
is_failure _ = true

pub record HealthEntry : Type 0 where
  pub fail_count : ℕ
  pub last_fail_time : ℕ
  pub degraded : Bool
  pub current_weight : ℕ
  pub first_failed_at : ℕ
  pub consecutive_failures : ℕ
  pub permanent : Bool

abbrev pub fresh_entry : HealthEntry
fresh_entry = record {
  fail_count = 0;
  last_fail_time = 0;
  degraded = false;
  current_weight = 0;
  first_failed_at = 0;
  consecutive_failures = 0;
  permanent = false;
}

pub record SessionStickyEntry : Type 0 where
  pub channel_id : String
  pub last_active_at : ℕ

-- The module's globals. `quota_writes` records the calls of the write-through adapter, which are
-- made only while an adapter is registered.
pub record Outcomes : Type 0 where
  pub health : Dict (String × String) HealthEntry
  pub blocked : Dict String (ℕ × String)
  pub preferred : Dict (String × String) String
  pub session_sticky : Dict String SessionStickyEntry
  pub session_sticky_ttl : ℕ
  pub session_sticky_max_entries : ℕ
  pub configured_max_fail_count : Option ℕ
  pub configured_cooldown : Option ℕ
  pub quota_adapter : Bool
  pub quota_writes : List (String × ℕ × String)
  pub settings : Settings

abbrev pub initial : Settings → Outcomes
initial settings = record {
  health = [];
  blocked = [];
  preferred = [];
  session_sticky = [];
  session_sticky_ttl = 1800 * 1000;
  session_sticky_max_entries = 10000;
  configured_max_fail_count = none;
  configured_cooldown = none;
  quota_adapter = false;
  quota_writes = [];
  settings = settings;
}

unfoldable pub configure : Option ℕ → Option ℕ → Outcomes → Outcomes
configure max_fail_count cooldown s = record s {
  configured_max_fail_count = max_fail_count;
  configured_cooldown = cooldown;
}

unfoldable pub max_fail_count : Outcomes → ℕ
max_fail_count s = elim s.configured_max_fail_count [
  | some n ↦ n
  | none ↦ or_default s.settings.max_fail_count 3
]

-- `int(None or 3)`, `float(0 or 120)`: a missing or zero setting gives the default.
unfoldable pub cooldown : Outcomes → ℕ
cooldown s = elim s.configured_cooldown [
  | some d ↦ d
  | none ↦ or_default s.settings.cooldown_seconds 120 * 1000
]

unfoldable pub set_quota_adapter : Bool → Outcomes → Outcomes
set_quota_adapter registered s = record s { quota_adapter = registered }

-- The adapter, the sticky limits and the settings outlive a reset.
unfoldable pub reset : Outcomes → Outcomes
reset s = record s {
  health = [];
  blocked = [];
  preferred = [];
  session_sticky = [];
  configured_max_fail_count = none;
  configured_cooldown = none;
}
