-- ===== src/Outcomes/Maintenance.antt =====
-- proxy/outcomes.py: what a change of the channel catalog does to the module's state, and the
-- reload of blocked channels at start.
use llm_plug.Common.{
  ℕ, String, Bool, false, Option, none, some, List, [], ◌∷◌, if◌then◌else◌, ◌==◌, string_eq,
  pair_eq, not, leb,
}
use llm_plug.Dict.{Dict, put, remove, restrict}
use llm_plug.Outcomes.State.{Outcomes, HealthEntry}

unfoldable pub clear_rows :
    (String → Bool) → Dict (String × String) HealthEntry → Dict (String × String) HealthEntry
clear_rows chosen [] = []
clear_rows chosen (((m, ch), entry) ∷ d) =
    ((m, ch), (if chosen ch then record entry { permanent = false } else entry))
    ∷ clear_rows chosen d

unfoldable pub clear_all_permanent : Outcomes → Outcomes
unfolding clear_rows
clear_all_permanent s = record s { health = clear_rows (λ _. Bool.true) s.health }

unfoldable pub clear_permanent_for_channel : String → Outcomes → Outcomes
unfolding clear_rows
clear_permanent_for_channel channel_id s = record s {
  health = clear_rows (λ ch. ch == channel_id) s.health;
}

unfoldable pub remove_channel : String → Outcomes → Outcomes
remove_channel channel_id s = record s {
  health = restrict (λ key _. not (key.1 == channel_id)) s.health;
  blocked = remove channel_id s.blocked;
  preferred = restrict (λ _ preferred. not (preferred == channel_id)) s.preferred;
  session_sticky = restrict (λ _ entry. not (entry.channel_id == channel_id)) s.session_sticky;
}

-- A row of channel_quota_limits.json whose `reset_at` parsed; the code is text.
unfoldable pub loaded :
    ℕ → List (String × Option ℕ × String) → Dict String (ℕ × String) → Dict String (ℕ × String)
loaded now [] acc = acc
loaded now ((ch, none, code) ∷ rows) acc = loaded now rows acc
loaded now ((ch, some reset_at, code) ∷ rows) acc =
    loaded now rows (if leb reset_at now then acc else put ch (reset_at, code) acc)

-- The rows are those of the file, in order: none if it is missing or is no JSON object.
unfoldable pub load_quota_limits : ℕ → List (String × Option ℕ × String) → Outcomes → Outcomes
unfolding loaded
load_quota_limits now rows s = record s { blocked = loaded now rows [] }
