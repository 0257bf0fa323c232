-- ===== src/Tests/GroupTests.antt =====
-- proxy/model_group_dispatch.py: the theorems at concrete inputs.
use llm_plug.Common.{
  ℕ, ◌<◌, true, false, none, some, [], ◌∷◌, ◌≡◌, arith, Has, ◌↔◌, string_eq, nat_eq,
}
use llm_plug.Channel.{openai_chat}
use llm_plug.Dispatcher.{World, Context}
use llm_plug.ModelGroup.{
  ModelGroup, TimeOfDay, TimeWindow, ModelGroupEntry, minutes, is_model_blocked_by_schedule,
}
use llm_plug.ModelGroup.Window
use llm_plug.ModelGroup.Window.{since}
use llm_plug.GroupDispatch.{Request, execute_model_group_request}
use llm_plug.GroupDispatch.Answer
use llm_plug.Outcomes.State.{Outcomes, OutcomeKind, initial}
use llm_plug.Outcomes.Accounting.{record_outcome}
use llm_plug.GroupProbe.Due
use llm_plug.Tests.OutcomesTests.{settings}
use llm_plug.Tests.DispatchTests.{world}
use llm_plug.Tests.AttemptTests.{channel, answer}

abbrev at_ten : TimeOfDay
at_ten = record { hour = 22; minute = 0; hour_bound = omega arith; minute_bound = omega arith }

abbrev at_six : TimeOfDay
at_six = record { hour = 6; minute = 30; hour_bound = omega arith; minute_bound = omega arith }

abbrev night : TimeWindow
night = record { start = at_ten; end = at_six; enabled = true }

is_model_blocked_by_schedule_iff_example :
    (is_model_blocked_by_schedule 1439 (night ∷ []) ≡ true) ↔ (
      (w : TimeWindow) × Has w (night ∷ [])
      × (w.enabled ≡ true)
      × (since (minutes w.start) 1439 < since (minutes w.start) (minutes w.end)))
is_model_blocked_by_schedule_iff_example =
    Window.is_model_blocked_by_schedule_iff 1439 (night ∷ []) (omega arith)

-- The first entry is blocked at night, the second one is bound.
abbrev blocked_entry : ModelGroupEntry
blocked_entry = record { model = "gpt"; channel_id = none; schedules = night ∷ [] }

abbrev bound_entry : ModelGroupEntry
bound_entry = record { model = "gpt"; channel_id = some "ch_a"; schedules = [] }

abbrev request : Request Unit ℕ
request = record {
  group = record {
    id = "grp_1";
    name = "any";
    items = blocked_entry ∷ bound_entry ∷ [];
    enabled = true;
    lazy_sticky = false;
  };
  target = openai_chat;
  settings = settings;
  hrw_score = λ _ _ _. 0;
  session_key = "client";
  catalog_of = λ _. channel ∷ [];
  minute_of = λ _. 1439;
  execute = λ _ _ ep _ w. (answer ep.api_type, w);
}

abbrev served_world : World Unit
served_world = elim (execute_model_group_request request 5 world) [
  | some (end, w, ctx) ↦ w
  | none ↦ world
]

-- A pair that failed once, in a lazy group.
abbrev degraded : Outcomes
degraded = record_outcome "gpt" "ch_a" OutcomeKind.http_5xx 1000 none "" (initial settings)

abbrev lazy_group : ModelGroup
lazy_group = record {
  id = "grp_2";
  name = "lazy";
  items = record { model = "gpt"; channel_id = none; schedules = [] } ∷ [];
  enabled = true;
  lazy_sticky = true;
}
