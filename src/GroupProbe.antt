-- ===== src/GroupProbe.antt =====
-- proxy/group_probe.py: which degraded pairs the background probe attempts in a round, and when.
pub mod Due
use llm_plug.Common.{
  ℕ, zero, suc, ◌+◌, ◌-◌, ◌*◌, ◌^◌, String, Bool, true, false, ◌&&◌, Option, none, some, List, [],
  ◌∷◌, ◌++◌, if◌then◌else◌, ◌==◌, string_eq, pair_eq, ltb, min,
}
use llm_plug.Channel.{ApiType, openai_chat, Channel}
use llm_plug.Config.{Settings}
use llm_plug.Dict.{Dict, get, put}
use llm_plug.Outcomes.State.{Outcomes}
use llm_plug.Outcomes.Views.{ProbeTarget, probe_targets, is_blocked}
use llm_plug.Conversion.{filter_channels_by_conversion}
use llm_plug.ModelGroup.{ModelGroup, ModelGroupEntry}
use llm_plug.GroupDispatch.{channels_for_model}

pub record ProbeCandidate : Type 0 where
  pub model : String
  pub channel_id : String
  pub first_failed_at : ℕ
  pub consecutive_failures : ℕ
  pub permanent : Bool
  pub groups : List ModelGroup
  pub requested_model : String
  pub next_due_at : ℕ

-- `first_failed_at + min(interval * 2**k, 600)` with `k = max(0, consecutive_failures - 1)`.
unfoldable pub due_at : ℕ → ℕ → ℕ → ℕ
due_at first_failed_at consecutive_failures interval =
    first_failed_at + min (interval * 2 ^ (consecutive_failures - 1)) 600000

abbrev pub Targets : Type 0
Targets = Dict (String × String) ProbeTarget

-- `{(t.model, t.channel_id): t for t in outcomes.probe_targets()}`
unfoldable pub by_key : List ProbeTarget → Targets → Targets
by_key [] d = d
by_key (t ∷ ts) d = by_key ts (put (t.model, t.channel_id) t d)

abbrev pub Owners : Type 0
Owners = Dict (String × String) (List ModelGroup)

unfoldable pub is_last : String → List ModelGroup → Bool
is_last id [] = false
is_last id (group ∷ []) = group.id == id
is_last id (group ∷ next ∷ groups) = is_last id (next ∷ groups)

unfoldable pub add_owner : ModelGroup → String × String → Option (List ModelGroup) → Owners → Owners
unfolding is_last
add_owner group key none owners = put key (group ∷ []) owners
add_owner group key (some owning) owners =
    if is_last group.id owning then owners else put key (owning ++ group ∷ []) owners

-- A channel of an entry, by the row of its pair; a block that is over is dropped by the check.
unfoldable pub own_channel :
    ModelGroup
    → String × String
    → String
    → Option ProbeTarget
    → ℕ
    → Owners × Outcomes
    → Owners × Outcomes
unfolding add_owner
own_channel group key channel_id none now acc = acc
own_channel group key channel_id (some row) now (owners, s) =
    let (blocked, s') = is_blocked channel_id now s in
    (if blocked then owners else add_owner group key (get key owners) owners, s')

unfoldable pub own_channels :
    ModelGroup → String → Targets → ℕ → List Channel → Owners × Outcomes → Owners × Outcomes
unfolding own_channel
own_channels group model degraded now [] acc = acc
own_channels group model degraded now (ch ∷ chs) acc =
    own_channels group model degraded now chs
      (own_channel group (model, ch.id) ch.id (get (model, ch.id) degraded) now acc)

unfoldable pub own_entries :
    Settings
    → List Channel
    → ModelGroup
    → Targets
    → ℕ
    → List ModelGroupEntry
    → Owners × Outcomes
    → Owners × Outcomes
unfolding own_channels
own_entries settings catalog group degraded now [] acc = acc
own_entries settings catalog group degraded now (entry ∷ entries) acc =
    own_entries settings catalog group degraded now entries (elim entry.channel_id [
      | some id ↦ acc
      | none ↦
          own_channels group entry.model degraded now
            (filter_channels_by_conversion settings (channels_for_model entry.model catalog)
              openai_chat)
            acc
    ])

unfoldable pub own_groups :
    Settings → List Channel → Targets → ℕ → List ModelGroup → Owners × Outcomes → Owners × Outcomes
unfolding own_entries
own_groups settings catalog degraded now [] acc = acc
own_groups settings catalog degraded now (group ∷ groups) acc =
    own_groups settings catalog degraded now groups (
      if group.enabled && group.lazy_sticky
      then own_entries settings catalog group degraded now group.items acc
      else acc)

unfoldable pub first_name : List ModelGroup → String
first_name [] = ""
first_name (group ∷ groups) = group.name

unfoldable pub candidate_of : String → String → ProbeTarget → List ModelGroup → ℕ → ProbeCandidate
unfolding first_name
candidate_of model channel_id row owning due = record {
  model = model;
  channel_id = channel_id;
  first_failed_at = row.first_failed_at;
  consecutive_failures = row.consecutive_failures;
  permanent = row.permanent;
  groups = owning;
  requested_model = first_name owning;
  next_due_at = due;
}

-- The pairs whose time has come; every key of the owners is one of the degraded pairs.
unfoldable pub due_candidates : Targets → ℕ → ℕ → Owners → List ProbeCandidate
unfolding candidate_of due_at
due_candidates degraded interval now [] = []
due_candidates degraded interval now (((model, channel_id), owning) ∷ owners) =
    let rest = due_candidates degraded interval now owners in
    elim (get (model, channel_id) degraded) [
      | none ↦ rest
      | some row ↦
          let due = due_at row.first_failed_at row.consecutive_failures interval in
          if ltb now due then rest else candidate_of model channel_id row owning due ∷ rest
    ]

unfoldable pub take_probe_candidates :
    Settings → List Channel → List ModelGroup → ℕ → ℕ → Outcomes → List ProbeCandidate × Outcomes
unfolding by_key own_groups due_candidates
take_probe_candidates settings catalog groups interval now s =
    let degraded = by_key (probe_targets s) [] in
    let (owners, s') = own_groups settings catalog degraded now groups ([], s) in
    (due_candidates degraded interval now owners, s')
