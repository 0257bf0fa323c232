-- ===== src/ModelGroup.antt =====
-- models/model_group.py, and the time windows of proxy/model_group_dispatch.py.
pub mod Window
use llm_plug.Common.{
  ℕ, ◌+◌, ◌*◌, ◌<◌, String, Bool, true, false, ◌&&◌, ◌||◌, Option, List, [], ◌∷◌, if◌then◌else◌,
  ltb, leb,
}

-- A time of day "HH:MM", which the validator keeps below 24:00.
pub record TimeOfDay : Type 0 where
  pub hour : ℕ
  pub minute : ℕ
  pub hour_bound : hour < 24
  pub minute_bound : minute < 60

unfoldable pub minutes : TimeOfDay → ℕ
minutes t = t.hour * 60 + t.minute

pub record TimeWindow : Type 0 where
  pub start : TimeOfDay
  pub end : TimeOfDay
  pub enabled : Bool

pub record ModelGroupEntry : Type 0 where
  pub model : String
  pub channel_id : Option String
  pub schedules : List TimeWindow

pub record ModelGroup : Type 0 where
  pub id : String
  pub name : String
  pub items : List ModelGroupEntry
  pub enabled : Bool
  pub lazy_sticky : Bool

-- A window that ends before it starts goes over midnight.
unfoldable pub is_between : ℕ → ℕ → ℕ → Bool
is_between start_min end_min current =
    if leb start_min end_min
    then leb start_min current && ltb current end_min
    else leb start_min current || ltb current end_min

-- By the minute of the day on the schedule's clock.
unfoldable pub is_model_blocked_by_schedule : ℕ → List TimeWindow → Bool
unfolding is_between minutes
is_model_blocked_by_schedule current [] = false
is_model_blocked_by_schedule current (window ∷ windows) =
    (window.enabled && is_between (minutes window.start) (minutes window.end) current)
    || is_model_blocked_by_schedule current windows
