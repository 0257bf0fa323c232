-- ===== src/ResponseStore.antt =====
-- state_store.py: responses with their conversations in a directory of files, with a time to live and
-- a bound on their number. The directory is a dictionary from the identifier that a file is named
-- by; a file that is no JSON has no entry. Instants are milliseconds, in the files too, and whether
-- a file can be written or unlinked is an outcome that the operations are given.
pub mod Lru
pub mod Lookup
pub mod Use
use llm_plug.Common.{
  ℕ, zero, suc, ◌+◌, ◌-◌, ◌*◌, ◌/◌, Bool, true, false, ◌&&◌, ◌||◌, not, Option, none, some, List,
  [], ◌∷◌, ◌++◌, nat_eq, ◌==◌, if◌then◌else◌, ltb, leb, contains, length, keep,
}
use llm_plug.Dict.{Dict, get, put, remove, restrict}
use llm_plug.Text.{Text, text_eq}

pub record Entry (P : Type 0) : Type 0 where
  pub conversation : P
  pub response : P
  pub created_at : ℕ
  pub expires_at : ℕ
  pub last_access_at : ℕ

pub record File (P : Type 0) : Type 0 where
  pub entry : Option (Entry P)
  pub mtime : ℕ

pub record FileStore (P : Type 0) : Type 0 where
  pub files : Dict Text (File P)
  pub max_entries : ℕ
  pub ttl : ℕ

-- int(time.time()), in milliseconds
unfoldable pub whole_seconds : ℕ → ℕ
whole_seconds now = now / 1000 * 1000

-- Neither empty nor with a slash or a backslash: the path stays in the directory.
unfoldable pub is_safe : Text → Bool
is_safe [] = false
is_safe (c ∷ t) = not (contains 47 (c ∷ t)) && not (contains 92 (c ∷ t))

-- x <= y, for keys
unfoldable pub key_le : Option ℕ × ℕ → Option ℕ × ℕ → Bool
key_le (none, m) (none, n) = leb m n
key_le (none, m) (some b, n) = true
key_le (some a, m) (none, n) = false
key_le (some a, m) (some b, n) = ltb a b || ((a == b) && leb m n)

module _ {P : Type 0} where
  -- data.get("expires_at", 0) < time.time()
  unfoldable pub unexpired : ℕ → Option (Entry P) → Option (Entry P)
  unexpired now none = none
  unexpired now (some e) = if ltb e.expires_at now then none else some e

  unfoldable pub entry_of : Option (File P) → Option (Entry P)
  entry_of none = none
  entry_of (some f) = f.entry

  unfoldable pub read_file : ℕ → Text → FileStore P → Option (Entry P)
  unfolding unexpired entry_of get
  read_file now id self = unexpired now (entry_of (get id self.files))

  unfoldable pub write_file : Bool → ℕ → Text → Entry P → FileStore P → FileStore P
  unfolding put
  write_file is_written now id e self =
      if is_written
      then record self { files = put id (record { entry = some e; mtime = now }) self.files }
      else self

  -- The access time of what was read, if the file can be written.
  unfoldable pub touch_access : Bool → ℕ → Text → Option (Entry P) → FileStore P → FileStore P
  unfolding write_file
  touch_access is_written now id none self = self
  touch_access is_written now id (some e) self =
      write_file is_written now id (record e { last_access_at = now }) self

  unfoldable pub get_entry : Bool → ℕ → Text → FileStore P → Option (Entry P) × FileStore P
  unfolding is_safe read_file touch_access
  get_entry is_written now id self =
      let found = if is_safe id then read_file now id self else none in
      (found, touch_access is_written now id found self)

  unfoldable pub response_in : Option (Entry P) → Option P
  response_in none = none
  response_in (some e) = some e.response

  unfoldable pub conversation_in : Option (Entry P) → Option P
  conversation_in none = none
  conversation_in (some e) = some e.conversation

  unfoldable pub get_response : Bool → ℕ → Text → FileStore P → Option P × FileStore P
  unfolding get_entry response_in
  get_response is_written now id self =
      (response_in (get_entry is_written now id self).0, (get_entry is_written now id self).1)

  unfoldable pub get_conversation : Bool → ℕ → Text → FileStore P → Option P × FileStore P
  unfolding get_entry conversation_in
  get_conversation is_written now id self =
      (conversation_in (get_entry is_written now id self).0, (get_entry is_written now id self).1)

  unfoldable pub new_entry : ℕ → ℕ → (conversation response : P) → Entry P
  unfolding whole_seconds
  new_entry now ttl conversation response = record {
    conversation = conversation;
    response = response;
    created_at = whole_seconds now;
    expires_at = whole_seconds now + ttl;
    last_access_at = whole_seconds now;
  }

  -- None where the identifier is refused or the file cannot be written.
  unfoldable pub put_entry :
      Bool → ℕ → Text → (conversation response : P) → FileStore P → Option (FileStore P)
  unfolding is_safe write_file new_entry
  put_entry is_written now id conversation response self =
      if is_safe id && is_written
      then some (write_file true now id (new_entry now self.ttl conversation response) self)
      else none

  unfoldable pub is_there : Option (File P) → Bool
  is_there none = false
  is_there (some f) = true

  unfoldable pub delete : Bool → Text → FileStore P → Bool × FileStore P
  unfolding is_safe is_there get remove
  delete can_unlink id self =
      if is_safe id && (is_there (get id self.files) && can_unlink)
      then (true, record self { files = remove id self.files })
      else (false, self)

  -- An entry that is not over; a file that is no JSON is removed with those that are.
  unfoldable pub is_live : ℕ → Option (Entry P) → Bool
  unfolding whole_seconds
  is_live now none = false
  is_live now (some e) = not (ltb e.expires_at (whole_seconds now))

  unfoldable pub cleanup_expired : ℕ → FileStore P → FileStore P
  unfolding is_live restrict
  cleanup_expired now self = record self {
    files = restrict (λ id f. is_live now f.entry) self.files;
  }

  -- last_access_at or created_at or the file's mtime
  unfoldable pub access_time : Entry P → ℕ → ℕ
  access_time e mtime =
      if not (e.last_access_at == 0)
      then e.last_access_at
      else if not (e.created_at == 0)
      then e.created_at
      else mtime

  -- The key of the sort: none, minus infinity, comes first.
  unfoldable pub key_of : Option (Entry P) → ℕ → Option ℕ × ℕ
  unfolding access_time
  key_of none mtime = (none, 0)
  key_of (some e) mtime = (some (access_time e mtime), mtime)

  unfoldable pub sort_key : File P → Option ℕ × ℕ
  unfolding key_of
  sort_key f = key_of f.entry f.mtime

  abbrev pub before : Text × File P → Text × File P → Bool
  before x y = key_le (sort_key x.1) (sort_key y.1)

  -- files.sort, which is stable
  unfoldable pub insert : Text × File P → Dict Text (File P) → Dict Text (File P)
  unfolding sort_key key_le
  insert x [] = x ∷ []
  insert x (y ∷ ys) = if before x y then x ∷ y ∷ ys else y ∷ insert x ys

  unfoldable pub sort : Dict Text (File P) → Dict Text (File P)
  unfolding insert
  sort [] = []
  sort (x ∷ xs) = insert x (sort xs)

  unfoldable pub first : ℕ → Dict Text (File P) → Dict Text (File P)
  first zero xs = []
  first (suc n) [] = []
  first (suc n) (x ∷ xs) = x ∷ first n xs

  unfoldable pub after : ℕ → Dict Text (File P) → Dict Text (File P)
  after zero xs = xs
  after (suc n) [] = []
  after (suc n) (x ∷ xs) = after n xs

  -- files[: len(files) - max_entries]
  unfoldable pub victims : FileStore P → Dict Text (File P)
  unfolding sort first
  victims self = first (length self.files - self.max_entries) (sort self.files)

  -- The directory has its files in no particular order: those that remain are given as they were
  -- sorted, those that cannot be unlinked first.
  unfoldable pub evict_lru : (can_unlink : Text → Bool) → FileStore P → FileStore P
  unfolding victims sort after
  evict_lru can_unlink self =
      let n = length self.files - self.max_entries in
      if leb (length self.files) self.max_entries then self else record self {
        files = keep (λ x. not (can_unlink x.0)) (victims self) ++ after n (sort self.files);
      }

  unfoldable pub cleanup_if_needed : (can_unlink : Text → Bool) → ℕ → FileStore P → FileStore P
  unfolding cleanup_expired evict_lru
  cleanup_if_needed can_unlink now self = evict_lru can_unlink (cleanup_expired now self)
