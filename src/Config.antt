-- ===== src/Config.antt =====
-- config.py: the settings that the modelled code reads through `get_setting`.
use llm_plug.Common.{ℕ, zero, suc, Bool, Option, none, some}

-- `none` is a key that neither settings.json nor the defaults give.
pub record Settings : Type 0 where
  pub max_fail_count : Option ℕ
  pub cooldown_seconds : Option ℕ
  pub rate_limit_wait_seconds : Option ℕ
  pub allow_format_conversion : Option Bool
  pub group_probe_interval_seconds : Option ℕ

-- `get_setting(key) or default` on a number: a missing or zero setting gives the default.
unfoldable pub or_default : Option ℕ → ℕ → ℕ
or_default none default = default
or_default (some zero) default = default
or_default (some (suc n)) default = suc n
