-- ===== src/Outcomes/Sessions.antt =====
-- proxy/outcomes.py: sticky sessions are remembered, and the cache is bounded by dropping the
-- least recently used.
use llm_plug.Common.{
  ℕ, zero, suc, ◌+◌, ◌≤◌, ◌<◌, String, false, some, List, [], ◌∷◌, ◌++◌, if◌then◌else◌, ◌==◌,
  string_eq, length, length-append, ◌≡◌, refl, arith, not, contains, ltb, min, eq_self,
}
use llm_plug.Dict.{Dict, keys, get, put_last, remove, restrict}
use llm_plug.Dict.Laws.{get-put_last, contains-remove, contains-restrict}
use llm_plug.Outcomes.State.{Outcomes, SessionStickyEntry}
use llm_plug.Outcomes.Sticky.{
  session_sticky_get, remember_session_sticky, expired_keys, remove_keys, drop_oldest, trim_entries,
  is_expired, read_entry,
}

abbrev StickyDict : Type 0
StickyDict = Dict String SessionStickyEntry

length-drop_oldest : (n : ℕ) (d : StickyDict) → length (drop_oldest n d) ≡ min n (length d)
unfolding drop_oldest
length-drop_oldest n [] = omega arith
length-drop_oldest n (row ∷ d) = ground (arith, length-drop_oldest n d)

-- The rows that `drop_oldest` drops.
oldest_rows : ℕ → StickyDict → StickyDict
oldest_rows n [] = []
oldest_rows n (row ∷ d) =
    let rest = oldest_rows n d in if ltb n (suc (length d)) then row ∷ rest else []

append-drop_oldest : (n : ℕ) (d : StickyDict) → oldest_rows n d ++ drop_oldest n d ≡ d
unfolding drop_oldest oldest_rows
append-drop_oldest n [] = refl
append-drop_oldest n (row ∷ d) = ground (arith, append-drop_oldest n d)

-- Trimming drops the expired entries that the scan found and then, only as many as there are too
-- many, the least recently used: what stays is the most recent part, in order.
pub trim_entries_suffix :
    (ttl n now : ℕ) (d : StickyDict)
    → let fresh = remove_keys (expired_keys 100 ttl now d) d in
      (dropped : StickyDict) × (dropped ++ trim_entries ttl n now d ≡ fresh)
      × (length (trim_entries ttl n now d) ≡ min n (length fresh))
unfolding trim_entries
trim_entries_suffix ttl n now d =
    let fresh = remove_keys (expired_keys 100 ttl now d) d in
    (oldest_rows n fresh, append-drop_oldest n fresh, length-drop_oldest n fresh)

drop_oldest-append_one :
    (n : ℕ) (d : StickyDict) (row : String × SessionStickyEntry)
    → drop_oldest (suc n) (d ++ row ∷ []) ≡ drop_oldest n d ++ row ∷ []
unfolding drop_oldest
drop_oldest-append_one n [] row = ground arith
drop_oldest-append_one n (r ∷ d) row =
    ground (arith, drop_oldest-append_one n d row, length-append d (row ∷ []))

remove-append_one :
    (k j : String) (v : SessionStickyEntry) (d : StickyDict)
    → (j == k) ≡ false
    → remove k (d ++ (j, v) ∷ []) ≡ remove k d ++ (j, v) ∷ []
unfolding remove restrict
remove-append_one k j v [] h = ground arith
remove-append_one k j v ((i, w) ∷ d) h = ground (arith, remove-append_one k j v d h)

remove_keys-append_one :
    (ks : List String) (j : String) (v : SessionStickyEntry) (d : StickyDict)
    → contains j ks ≡ false
    → remove_keys ks (d ++ (j, v) ∷ []) ≡ remove_keys ks d ++ (j, v) ∷ []
unfolding remove_keys
remove_keys-append_one [] j v d h = refl
remove_keys-append_one (k ∷ ks) j v d h =
    rw (remove-append_one k j v d (ground (arith, string_eq.beq_iff k j, string_eq.beq_iff j k)))
      (remove_keys-append_one ks j v (remove k d) (ground arith))

expired_keys-append_one :
    (room ttl now : ℕ) (j : String) (v : SessionStickyEntry) (d : StickyDict)
    → is_expired ttl now v ≡ false
    → contains j (keys d) ≡ false
    → contains j (expired_keys room ttl now (d ++ (j, v) ∷ [])) ≡ false
unfolding expired_keys
expired_keys-append_one zero ttl now j v d h n = refl
expired_keys-append_one (suc room) ttl now j v [] h n = ground arith
expired_keys-append_one (suc room) ttl now j v ((i, w) ∷ d) h n = ground (
  arith,
  expired_keys-append_one room ttl now j v d h,
  expired_keys-append_one (suc room) ttl now j v d h,
)

contains-remove_keys :
    (j : String) (ks : List String) (d : StickyDict)
    → contains j (keys d) ≡ false
    → contains j (keys (remove_keys ks d)) ≡ false
unfolding remove_keys remove
contains-remove_keys j [] d h = h
contains-remove_keys j (k ∷ ks) d h =
    contains-remove_keys j ks (remove k d) (contains-restrict j (λ i _. not (i == k)) d h)

contains-drop_oldest :
    (j : String) (n : ℕ) (d : StickyDict)
    → contains j (keys d) ≡ false
    → contains j (keys (drop_oldest n d)) ≡ false
unfolding drop_oldest
contains-drop_oldest j n [] h = refl
contains-drop_oldest j n ((k, v) ∷ d) h = ground (arith, contains-drop_oldest j n d)

get-append_one :
    (j : String) (v : SessionStickyEntry) (d : StickyDict)
    → contains j (keys d) ≡ false
    → get j (d ++ (j, v) ∷ []) ≡ some v
unfolding get
get-append_one j v [] h = rw (eq_self ⦃e = string_eq⦄ j)
get-append_one j v ((i, w) ∷ d) h = ground (arith, get-append_one j v d)

-- The newest entry survives the trimming that follows it.
get-trim_entries :
    (ttl n now : ℕ) (j : String) (v : SessionStickyEntry) (d : StickyDict)
    → 0 < n
    → is_expired ttl now v ≡ false
    → get j (trim_entries ttl n now (put_last j v d)) ≡ some v
unfolding trim_entries put_last
get-trim_entries ttl zero now j v d pos h = absurd (omega arith)
get-trim_entries ttl (suc n) now j v d pos h =
    let old = remove j d in
    let absent = contains-remove j d in
    let ks = expired_keys 100 ttl now (old ++ (j, v) ∷ []) in
    rw (remove_keys-append_one ks j v old (expired_keys-append_one 100 ttl now j v old h absent)) (
      rw drop_oldest-append_one
        (get-append_one j v _ (contains-drop_oldest j n _ (contains-remove_keys j ks old absent))))

session_read :
    (key : String) (now : ℕ) (e : SessionStickyEntry) (s : Outcomes)
    → get key s.session_sticky ≡ some e
    → now < e.last_active_at + s.session_sticky_ttl
    → ((session_sticky_get key now s).0 ≡ some e.channel_id)
      × (get key (session_sticky_get key now s).1.session_sticky
          ≡ some (record e { last_active_at = now }))
unfolding session_sticky_get
session_read key now e s found live =
    rw (found, read_entry)
      (ground (
        arith,
        get-put_last key key (record e { last_active_at = now }) s.session_sticky,
        string_eq.beq_iff key key,
      ))

-- A session is routed to the channel that was remembered for it while its TTL lasts, given a cache
-- that may hold an entry and a positive TTL; the read leaves the session remembered at `now`.
pub session_sticky_get-remember :
    (key ch : String) (t now : ℕ) (s : Outcomes)
    → 0 < s.session_sticky_max_entries
    → t ≤ now
    → now < t + s.session_sticky_ttl
    → let read = session_sticky_get key now (remember_session_sticky key ch t s) in
      (read.0 ≡ some ch)
      × (get key read.1.session_sticky ≡ some (record { channel_id = ch; last_active_at = now }))
unfolding remember_session_sticky
session_sticky_get-remember key ch t now s room h h' =
    let entry : SessionStickyEntry = record { channel_id = ch; last_active_at = t } in
    let kept =
      get-trim_entries s.session_sticky_ttl s.session_sticky_max_entries t key entry
        s.session_sticky room (ground arith) in
    session_read key now entry (remember_session_sticky key ch t s) kept h'

-- The cache never holds more than its bound after a write, whatever it held before.
pub length-remember_session_sticky :
    (key ch : String) (now : ℕ) (s : Outcomes)
    → length (remember_session_sticky key ch now s).session_sticky ≤ s.session_sticky_max_entries
unfolding remember_session_sticky trim_entries
length-remember_session_sticky key ch now s =
    let entry : SessionStickyEntry = record { channel_id = ch; last_active_at = now } in
    let d = put_last key entry s.session_sticky in
    let fresh = remove_keys (expired_keys 100 s.session_sticky_ttl now d) d in
    omega (arith, length-drop_oldest s.session_sticky_max_entries fresh)
