-- ===== src/QuotaLimits.antt =====
-- quota_limits/store.py: the limits of channels that outlast a restart. The file and what is read
-- from it are values; instants are numbers of microseconds, in UTC. The JSON and date libraries are
-- parameters: an entry of the file has an instant if one can be read from it.
pub mod Loading
pub mod Restart
use llm_plug.Common.{
  ℕ, String, Bool, true, false, ◌||◌, ◌&&◌, not, Option, none, some, List, [], ◌∷◌, string_eq,
  if◌then◌else◌, leb, contains,
}
use llm_plug.Dict.{Dict, get, put, remove, restrict}

pub record Limit : Type 0 where
  pub reset_at : ℕ
  pub code : String

-- An entry of the file: what `datetime.fromisoformat` reads from it, and its code.
pub record RawEntry : Type 0 where
  pub reset_at : Option ℕ
  pub code : Option String

pub data StoredFile : Type 0 where
  missing unreadable not_object : StoredFile
  entries : Dict String RawEntry → StoredFile

pub record QuotaLimitStore : Type 0 where
  pub limits : Dict String Limit
  pub file : StoredFile

-- entry.get("code", "")
unfoldable pub code_of : Option String → String
code_of none = ""
code_of (some code) = code

-- The entry, unless its instant cannot be read.
unfoldable pub parsed : Option ℕ → Option String → Option Limit
unfolding code_of
parsed none code = none
parsed (some reset_at) code = some (record { reset_at = reset_at; code = code_of code })

unfoldable pub parse : RawEntry → Option Limit
unfolding parsed
parse raw = parsed raw.reset_at raw.code

unfoldable pub add_limit : ℕ → String → Option Limit → Dict String Limit → Dict String Limit
add_limit now id none limits = limits
add_limit now id (some l) limits = if leb l.reset_at now then limits else put id l limits

unfoldable pub load_from : ℕ → Dict String RawEntry → Dict String Limit → Dict String Limit
unfolding add_limit parse
load_from now [] limits = limits
load_from now ((id, raw) ∷ rest) limits = load_from now rest (add_limit now id (parse raw) limits)

-- The entries of the file; none if it is missing, cannot be read or is no object.
unfoldable pub raw_entries : StoredFile → Dict String RawEntry
raw_entries missing = []
raw_entries unreadable = []
raw_entries not_object = []
raw_entries (entries raw) = raw

unfoldable pub load : ℕ → QuotaLimitStore → QuotaLimitStore
unfolding load_from raw_entries
load now self = record self { limits = load_from now (raw_entries self.file) [] }

unfoldable pub serialize : Dict String Limit → Dict String RawEntry
serialize [] = []
serialize ((id, l) ∷ limits) =
    (id, record { reset_at = some l.reset_at; code = some l.code }) ∷ serialize limits

-- _mutate: the change in memory, and the write of the file, which can fail.
unfoldable pub mutate : Bool → Dict String Limit → QuotaLimitStore → QuotaLimitStore
unfolding serialize
mutate is_saved limits self = record self {
  limits = limits;
  file = if is_saved then StoredFile.entries (serialize limits) else self.file;
}

unfoldable pub mark_blocked : Bool → String → ℕ → String → QuotaLimitStore → QuotaLimitStore
unfolding mutate
mark_blocked is_saved id reset_at code self =
    mutate is_saved (put id (record { reset_at = reset_at; code = code }) self.limits) self

unfoldable pub unblock : Bool → String → QuotaLimitStore → QuotaLimitStore
unfolding mutate
unblock is_saved id self = mutate is_saved (remove id self.limits) self

-- An entry that is over is forgotten, though not in the file.
unfoldable pub window : ℕ → String → Option Limit → QuotaLimitStore → Bool × QuotaLimitStore
window now id none self = (false, self)
window now id (some l) self =
    if leb l.reset_at now
    then (false, record self { limits = remove id self.limits })
    else (true, self)

unfoldable pub has_active_window : ℕ → String → QuotaLimitStore → Bool × QuotaLimitStore
unfolding window
has_active_window now id self = window now id (get id self.limits) self

unfoldable pub is_kept : ℕ → List String → String → Limit → Bool
is_kept now active id l = contains id active && not (leb l.reset_at now)

unfoldable pub is_removed : ℕ → List String → Dict String Limit → Bool
unfolding is_kept
is_removed now active [] = false
is_removed now active ((id, l) ∷ limits) =
    not (is_kept now active id l) || is_removed now active limits

unfoldable pub cleanup : Bool → ℕ → List String → QuotaLimitStore → QuotaLimitStore
unfolding is_kept is_removed mutate
cleanup is_saved now active self =
    if is_removed now active self.limits
    then mutate is_saved (restrict (is_kept now active) self.limits) self
    else self

-- What happens to the store between two restarts, at an instant each.
pub data Operation : Type 0 where
  marked : String → ℕ → String → Operation
  asked unblocked : String → Operation
  cleaned : List String → Operation

unfoldable pub operate : Operation → ℕ → QuotaLimitStore → QuotaLimitStore
unfolding mark_blocked has_active_window unblock cleanup
operate (marked id reset_at code) now self = mark_blocked true id reset_at code self
operate (asked id) now self = (has_active_window now id self).1
operate (unblocked id) now self = unblock true id self
operate (cleaned active) now self = cleanup true now active self

unfoldable pub operate_all : List (Operation × ℕ) → QuotaLimitStore → QuotaLimitStore
unfolding operate
operate_all [] self = self
operate_all ((o, now) ∷ rest) self = operate_all rest (operate o now self)
