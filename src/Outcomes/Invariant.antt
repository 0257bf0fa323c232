-- ===== src/Outcomes/Invariant.antt =====
-- proxy/outcomes.py: the invariant of the module's state, kept by every call.
use llm_plug.Common.{
  ℕ, String, Bool, true, false, Option, none, some, List, [], ◌∷◌, if◌then◌else◌, ◌==◌, string_eq,
  pair_eq, ◌≡◌, refl, arith, not, if_both, contains, Distinct, leb,
}
use llm_plug.Channel.{Channel}
use llm_plug.Config.{Settings}
use llm_plug.Dict.{Dict, keys, get, put, remove}
use llm_plug.Dict.Laws.{put-Distinct, put_last-Distinct, restrict-Distinct}
use llm_plug.Outcomes.State.{
  Outcomes, OutcomeKind, initial, HealthEntry, SessionStickyEntry, configure, set_quota_adapter,
  reset,
}
use llm_plug.Outcomes.Accounting.{record_outcome, record_quota_window, update_entry}
use llm_plug.Outcomes.Views.{is_healthy, is_blocked, admits, healthy_for, check_entry}
use llm_plug.Outcomes.Sticky.{
  configure_session_sticky, clear_session_sticky, trim_session_sticky, session_sticky_get,
  remember_session_sticky, remember_preferred, expired_keys, remove_keys, drop_oldest, trim_entries,
  read_entry,
}
use llm_plug.Outcomes.Maintenance.{
  clear_permanent_for_channel, clear_all_permanent, remove_channel, load_quota_limits, clear_rows,
  loaded,
}
use llm_plug.Outcomes.History.{
  Event, recorded, health_read, block_read, admission, channel_changed, channel_deleted,
  permanents_cleared, was_reset, configured, adapter_set, quotas_loaded, sticky_configured,
  sticky_cleared, sticky_trimmed, sticky_read, sticky_written, preferred_written, apply, replay,
}

-- No dictionary holds a key twice.
pub record IsWellFormed (s : Outcomes) : Type 0 where
  pub health_keys : Distinct (keys s.health)
  pub blocked_keys : Distinct (keys s.blocked)
  pub preferred_keys : Distinct (keys s.preferred)
  pub sticky_keys : Distinct (keys s.session_sticky)

abbrev StickyDict : Type 0
StickyDict = Dict String SessionStickyEntry

remove-Distinct :
    {V : Type 0} (k : String) (d : Dict String V) → Distinct (keys d) → Distinct (keys (remove k d))
unfolding remove
remove-Distinct k d h = restrict-Distinct (λ j _. not (j == k)) d h

remove_keys-Distinct :
    (ks : List String) (d : StickyDict) → Distinct (keys d) → Distinct (keys (remove_keys ks d))
unfolding remove_keys
remove_keys-Distinct [] d h = h
remove_keys-Distinct (k ∷ ks) d h = remove_keys-Distinct ks (remove k d) (remove-Distinct k d h)

contains-drop_oldest :
    (j : String) (n : ℕ) (d : StickyDict)
    → contains j (keys d) ≡ false
    → contains j (keys (drop_oldest n d)) ≡ false
unfolding drop_oldest
contains-drop_oldest j n [] h = refl
contains-drop_oldest j n ((k, v) ∷ d) h = ground (arith, contains-drop_oldest j n d)

drop_oldest-Distinct :
    (n : ℕ) (d : StickyDict) → Distinct (keys d) → Distinct (keys (drop_oldest n d))
unfolding drop_oldest
drop_oldest-Distinct n [] h = tt
drop_oldest-Distinct n ((k, v) ∷ d) h =
    ground (arith, drop_oldest-Distinct n d h.1, contains-drop_oldest k n d h.0)

trim_entries-Distinct :
    (ttl n now : ℕ) (d : StickyDict)
    → Distinct (keys d)
    → Distinct (keys (trim_entries ttl n now d))
unfolding trim_entries
trim_entries-Distinct ttl n now d h =
    drop_oldest-Distinct n _ (remove_keys-Distinct (expired_keys 100 ttl now d) d h)

contains-clear_rows :
    (j : String × String) (chosen : String → Bool) (d : Dict (String × String) HealthEntry)
    → contains j (keys (clear_rows chosen d)) ≡ contains j (keys d)
unfolding clear_rows
contains-clear_rows j chosen [] = refl
contains-clear_rows j chosen (((m, c), e) ∷ d) = ground (arith, contains-clear_rows j chosen d)

clear_rows-Distinct :
    (chosen : String → Bool) (d : Dict (String × String) HealthEntry)
    → Distinct (keys d)
    → Distinct (keys (clear_rows chosen d))
unfolding clear_rows
clear_rows-Distinct chosen [] h = tt
clear_rows-Distinct chosen (((m, c), e) ∷ d) h =
    ground (arith, clear_rows-Distinct chosen d h.1, contains-clear_rows (m, c) chosen d)

loaded-Distinct :
    (now : ℕ) (rows : List (String × Option ℕ × String)) (acc : Dict String (ℕ × String))
    → Distinct (keys acc)
    → Distinct (keys (loaded now rows acc))
unfolding loaded
loaded-Distinct now [] acc h = h
loaded-Distinct now ((ch, none, code) ∷ rows) acc h = loaded-Distinct now rows acc h
loaded-Distinct now ((ch, some r, code) ∷ rows) acc h =
    loaded-Distinct now rows (if leb r now then acc else put ch (r, code) acc)
      (ground (arith, put-Distinct ch (r, code) acc h))

record-IsWellFormed :
    (m c : String) (kind : OutcomeKind) (now : ℕ) (r : Option ℕ) (code : String) (s : Outcomes)
    → IsWellFormed s
    → IsWellFormed (record_outcome m c kind now r code s)
unfolding record_outcome record_quota_window update_entry
record-IsWellFormed m c OutcomeKind.quota_window now r code s w = record {
  health_keys = w.health_keys;
  blocked_keys = put-Distinct c _ s.blocked w.blocked_keys;
  preferred_keys = w.preferred_keys;
  sticky_keys = w.sticky_keys;
}
record-IsWellFormed m c OutcomeKind.cancelled now r code s w = w
record-IsWellFormed m c _ now r code s w = record {
  health_keys = put-Distinct (m, c) _ s.health w.health_keys;
  blocked_keys = w.blocked_keys;
  preferred_keys = w.preferred_keys;
  sticky_keys = w.sticky_keys;
}

check_entry-IsWellFormed :
    (o : Option HealthEntry) (m c : String) (now : ℕ) (s : Outcomes)
    → IsWellFormed s
    → IsWellFormed (check_entry o m c now s).1
unfolding check_entry
check_entry-IsWellFormed none m c now s w = w
check_entry-IsWellFormed (some entry) m c now s w = ground (
  arith,
  put-Distinct (m, c) (record entry { fail_count = 0; last_fail_time = 0 }) s.health w.health_keys,
)

is_healthy-IsWellFormed :
    (m c : String) (now : ℕ) (s : Outcomes) → IsWellFormed s → IsWellFormed (is_healthy m c now s).1
unfolding is_healthy
is_healthy-IsWellFormed m c now s w = check_entry-IsWellFormed (get (m, c) s.health) m c now s w

healthy_for-IsWellFormed :
    (model : Option String) (c : String) (now : ℕ) (s : Outcomes)
    → IsWellFormed s
    → IsWellFormed (healthy_for model c now s).1
unfolding healthy_for
healthy_for-IsWellFormed none c now s w = w
healthy_for-IsWellFormed (some m) c now s w = is_healthy-IsWellFormed m c now s w

is_blocked-IsWellFormed :
    (c : String) (now : ℕ) (s : Outcomes) → IsWellFormed s → IsWellFormed (is_blocked c now s).1
unfolding is_blocked
is_blocked-IsWellFormed c now s w = ground (arith, remove-Distinct c s.blocked w.blocked_keys)

admits-IsWellFormed :
    (ch : Channel) (model : Option String) (ex : List String) (now : ℕ) (s : Outcomes)
    → IsWellFormed s
    → IsWellFormed (admits ch model ex now s).1
unfolding admits
admits-IsWellFormed ch model ex now s w =
    let read = is_blocked ch.id now s in
    let free = is_blocked-IsWellFormed ch.id now s w in
    let Keeps : Bool × Outcomes → Type 0 = λ x. IsWellFormed x.1 in
    if_both Keeps (not ch.enabled) {x = (false, s)} w (
      if_both Keeps (contains ch.id ex) {x = (false, s)} w (
        if_both Keeps read.0 {x = (false, read.1)} {y = healthy_for model ch.id now read.1} free
          (healthy_for-IsWellFormed model ch.id now read.1 free)))

read_entry-IsWellFormed :
    (o : Option SessionStickyEntry) (key : String) (now : ℕ) (s : Outcomes)
    → IsWellFormed s
    → IsWellFormed (read_entry o key now s).1
unfolding read_entry
read_entry-IsWellFormed none key now s w = w
read_entry-IsWellFormed (some e) key now s w = ground (
  arith,
  remove-Distinct key s.session_sticky w.sticky_keys,
  put_last-Distinct key (record e { last_active_at = now }) s.session_sticky w.sticky_keys,
)

-- Every call of the module keeps the invariant.
apply-IsWellFormed : (event : Event) (s : Outcomes) → IsWellFormed s → IsWellFormed (apply event s)
unfolding apply configure set_quota_adapter reset clear_permanent_for_channel clear_all_permanent
    remove_channel load_quota_limits configure_session_sticky clear_session_sticky
    trim_session_sticky session_sticky_get remember_session_sticky remember_preferred
apply-IsWellFormed (recorded m c kind now r code) s w = record-IsWellFormed m c kind now r code s w
apply-IsWellFormed (health_read m c now) s w = is_healthy-IsWellFormed m c now s w
apply-IsWellFormed (block_read c now) s w = is_blocked-IsWellFormed c now s w
apply-IsWellFormed (admission ch model ex now) s w = admits-IsWellFormed ch model ex now s w
apply-IsWellFormed (channel_changed c) s w =
    assumption (w.blocked_keys, clear_rows-Distinct (λ ch. ch == c) s.health w.health_keys)
apply-IsWellFormed (channel_deleted c) s w = record {
  health_keys = restrict-Distinct (λ key _. not (key.1 == c)) s.health w.health_keys;
  blocked_keys = remove-Distinct c s.blocked w.blocked_keys;
  preferred_keys =
      restrict-Distinct (λ _ preferred. not (preferred == c)) s.preferred w.preferred_keys;
  sticky_keys =
      restrict-Distinct (λ _ entry. not (entry.channel_id == c)) s.session_sticky w.sticky_keys;
}
apply-IsWellFormed permanents_cleared s w =
    assumption (clear_rows-Distinct (λ _. true) s.health w.health_keys)
apply-IsWellFormed was_reset s w = assumption tt
apply-IsWellFormed (configured mf cd) s w = assumption w
apply-IsWellFormed (adapter_set b) s w = assumption w
apply-IsWellFormed (quotas_loaded now rows) s w = assumption (loaded-Distinct now rows [] tt)
apply-IsWellFormed (sticky_configured ttl mx) s w = assumption w
apply-IsWellFormed sticky_cleared s w = assumption tt
apply-IsWellFormed (sticky_trimmed now) s w = assumption (
    trim_entries-Distinct s.session_sticky_ttl s.session_sticky_max_entries now s.session_sticky
      w.sticky_keys)
apply-IsWellFormed (sticky_read key now) s w =
    read_entry-IsWellFormed (get key s.session_sticky) key now s w
apply-IsWellFormed (sticky_written key ch now) s w = assumption (
    trim_entries-Distinct s.session_sticky_ttl s.session_sticky_max_entries now _ (
      put_last-Distinct key (record { channel_id = ch; last_active_at = now }) s.session_sticky
        w.sticky_keys))
apply-IsWellFormed (preferred_written g m ch) s w =
    assumption (put-Distinct (g, m) ch s.preferred w.preferred_keys)

-- If no dictionary of the module holds a key twice, then none does after any history of calls.
pub replay-IsWellFormed :
    (history : List Event) (s : Outcomes) → IsWellFormed s → IsWellFormed (replay history s)
unfolding replay
replay-IsWellFormed [] s w = w
replay-IsWellFormed (event ∷ h) s w =
    apply-IsWellFormed event (replay h s) (replay-IsWellFormed h s w)

pub initial-IsWellFormed : (settings : Settings) → IsWellFormed (initial settings)
initial-IsWellFormed settings = assumption tt
