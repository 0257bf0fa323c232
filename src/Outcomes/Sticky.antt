-- ===== src/Outcomes/Sticky.antt =====
-- proxy/outcomes.py: the cache of sticky sessions (a TTL and an LRU bound) and the preferred
-- channel of a model in a group.
use llm_plug.Common.{
  ℕ, zero, suc, ◌+◌, String, Bool, true, false, Option, none, some, List, [], ◌∷◌, if◌then◌else◌,
  ltb, leb, length, string_eq, pair_eq,
}
use llm_plug.Dict.{Dict, get, put, put_last, remove}
use llm_plug.Outcomes.State.{Outcomes, SessionStickyEntry}

abbrev pub is_expired : ℕ → ℕ → SessionStickyEntry → Bool
is_expired ttl now entry = leb (entry.last_active_at + ttl) now

-- The scan stops when it has `room` keys.
unfoldable pub expired_keys : ℕ → ℕ → ℕ → Dict String SessionStickyEntry → List String
expired_keys zero ttl now d = []
expired_keys (suc room) ttl now [] = []
expired_keys (suc room) ttl now ((key, entry) ∷ d) = elim (is_expired ttl now entry) [
  | true ↦ key ∷ expired_keys room ttl now d
  | false ↦ expired_keys (suc room) ttl now d
]

unfoldable pub remove_keys :
    List String → Dict String SessionStickyEntry → Dict String SessionStickyEntry
remove_keys [] d = d
remove_keys (key ∷ ks) d = remove_keys ks (remove key d)

-- `while len(d) > max_entries: d.popitem(last=False)`
unfoldable pub drop_oldest : ℕ → Dict String SessionStickyEntry → Dict String SessionStickyEntry
drop_oldest max_entries [] = []
drop_oldest max_entries (row ∷ d) =
    let rest = drop_oldest max_entries d in
    if ltb max_entries (suc (length d)) then rest else row ∷ d

unfoldable pub trim_entries :
    ℕ → ℕ → ℕ → Dict String SessionStickyEntry → Dict String SessionStickyEntry
unfolding expired_keys remove_keys drop_oldest
trim_entries ttl max_entries now d =
    drop_oldest max_entries (remove_keys (expired_keys 100 ttl now d) d)

unfoldable pub configure_session_sticky : ℕ → ℕ → Outcomes → Outcomes
configure_session_sticky ttl max_entries s = record s {
  session_sticky_ttl = ttl;
  session_sticky_max_entries = max_entries;
}

unfoldable pub clear_session_sticky : Outcomes → Outcomes
clear_session_sticky s = record s { session_sticky = [] }

unfoldable pub trim_session_sticky : ℕ → Outcomes → Outcomes
unfolding trim_entries
trim_session_sticky now s = record s {
  session_sticky =
      trim_entries s.session_sticky_ttl s.session_sticky_max_entries now s.session_sticky;
}

unfoldable pub read_entry :
    Option SessionStickyEntry → String → ℕ → Outcomes → Option String × Outcomes
read_entry none key now s = (none, s)
read_entry (some entry) key now s =
    if is_expired s.session_sticky_ttl now entry
    then (none, record s { session_sticky = remove key s.session_sticky })
    else (
      some entry.channel_id,
      record s {
        session_sticky = put_last key (record entry { last_active_at = now }) s.session_sticky;
      },
    )

unfoldable pub session_sticky_get : String → ℕ → Outcomes → Option String × Outcomes
unfolding read_entry
session_sticky_get key now s = read_entry (get key s.session_sticky) key now s

unfoldable pub remember_session_sticky : String → String → ℕ → Outcomes → Outcomes
unfolding trim_session_sticky
remember_session_sticky key channel_id now s = trim_session_sticky now (record s {
  session_sticky =
      put_last key (record { channel_id = channel_id; last_active_at = now }) s.session_sticky;
})

unfoldable pub sticky_preferred : String → String → Outcomes → Option String
sticky_preferred group_id model s = get (group_id, model) s.preferred

unfoldable pub remember_preferred : String → String → String → Outcomes → Outcomes
remember_preferred group_id model channel_id s = record s {
  preferred = put (group_id, model) channel_id s.preferred;
}
