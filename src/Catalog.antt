-- ===== src/Catalog.antt =====
-- channel_catalog.py: the catalog of channels and model groups, with its file as a value. Whether
-- the cached snapshot is still that of the file, whether the file can be written and whether the
-- running state follows a change, are outcomes that an operation is given.
pub mod Groups
pub mod Operations
pub mod Sound
pub mod SoundChannels
pub mod SoundGroups
pub mod Effects
pub mod Unique
use llm_plug.Common.{
  ℕ, String, Bool, true, false, ◌&&◌, ◌||◌, not, Option, none, some, List, [], ◌∷◌, ◌++◌, string_eq,
  ◌==◌, if◌then◌else◌, keep, find_first,
}
use llm_plug.Channel.{Channel}
use llm_plug.ModelGroup.{ModelGroup}

pub data ChangeKind : Type 0 where
  created updated toggled deleted : ChangeKind

pub record CatalogSnapshot : Type 0 where
  pub channels : List Channel
  pub model_groups : List ModelGroup

pub record ChannelChange : Type 0 where
  pub kind : ChangeKind
  pub channel_id : String
  pub before : Option Channel
  pub after : Option Channel

pub record ModelGroupChange : Type 0 where
  pub kind : ChangeKind
  pub model_group_id : String
  pub before : Option ModelGroup
  pub after : Option ModelGroup

pub data Change : Type 0 where
  of_channel : ChannelChange → Change
  of_group : ModelGroupChange → Change

-- `cached` is `_snapshot`, and `stored` what the file holds.
pub record ChannelCatalog : Type 0 where
  pub cached : Option CatalogSnapshot
  pub stored : CatalogSnapshot

pub record Circumstances : Type 0 where
  pub is_fresh : Bool
  pub is_written : Bool
  pub is_synchronized : Bool

-- What an operation returns or raises: the committed change; None; CatalogConflictError; the error
-- of a validation; the error of a write; CatalogSynchronizationError.
pub data Answer : Type 0 where
  done : Change → Answer
  absent conflict invalid not_written : Answer
  not_synchronized : Change → Answer

-- A payload of updates: whether it has an `id`, and what it makes of an item, if that is valid.
pub record Updates (A : Type 0) : Type 0 where
  pub names_id : Bool
  pub apply : A → Option A

unfoldable pub snapshot_of : Bool → Option CatalogSnapshot → CatalogSnapshot → CatalogSnapshot
snapshot_of is_fresh none stored = stored
snapshot_of is_fresh (some s) stored = if is_fresh then s else stored

unfoldable pub load_locked : Circumstances → ChannelCatalog → CatalogSnapshot
unfolding snapshot_of
load_locked o self = snapshot_of o.is_fresh self.cached self.stored

abbrev pub caching : CatalogSnapshot → ChannelCatalog → ChannelCatalog
caching s self = record self { cached = some s }

unfoldable pub commit_locked :
    Circumstances → CatalogSnapshot → Change → ChannelCatalog → ChannelCatalog × Answer
commit_locked o next change self =
    if o.is_written
    then (
      record { cached = some next; stored = next },
      if o.is_synchronized then done change else not_synchronized change,
    )
    else (self, not_written)

-- Items with a text that identifies them.
module _ {A : Type 0} (id_of : A → String) where
  unfoldable pub has_id : String → List A → Bool
  has_id id [] = false
  has_id id (x ∷ xs) = (id_of x == id) || has_id id xs

  unfoldable pub replace_first : String → A → List A → List A
  replace_first id new [] = []
  replace_first id new (x ∷ xs) = if id_of x == id then new ∷ xs else x ∷ replace_first id new xs

abbrev pub channel_id : Channel → String
channel_id channel = channel.id

abbrev pub group_id : ModelGroup → String
group_id group = group.id

abbrev pub group_name : ModelGroup → String
group_name group = group.name

abbrev pub channel_with : String → List Channel → Option Channel
channel_with id channels = find_first (λ channel. channel.id == id) channels

abbrev pub group_with : String → List ModelGroup → Option ModelGroup
group_with id groups = find_first (λ group. group.id == id) groups

unfoldable pub add_channel : Circumstances → Channel → ChannelCatalog → ChannelCatalog × Answer
unfolding load_locked commit_locked has_id
add_channel o channel self =
    let s = load_locked o self in
    if has_id channel_id channel.id s.channels
    then (caching s self, conflict)
    else commit_locked o (record s { channels = s.channels ++ channel ∷ [] })
        (of_channel
          (record { kind = created; channel_id = channel.id; before = none; after = some channel }))
        (caching s self)

-- The channel in its place, changed as `new` says, which is none where validation fails.
unfoldable pub put_channel :
    Circumstances
    → ChangeKind
    → CatalogSnapshot
    → Channel
    → Option Channel
    → ChannelCatalog
    → ChannelCatalog × Answer
unfolding commit_locked replace_first
put_channel o kind s old none self = (caching s self, invalid)
put_channel o kind s old (some new) self =
    let kept = record new { id = old.id } in
    commit_locked o (record s { channels = replace_first channel_id old.id kept s.channels })
      (of_channel
        (record { kind = kind; channel_id = old.id; before = some old; after = some kept }))
      (caching s self)

-- The update of a channel that is there or not.
unfoldable pub change_channel :
    Circumstances
    → ChangeKind
    → (Channel → Option Channel)
    → CatalogSnapshot
    → Option Channel
    → ChannelCatalog
    → ChannelCatalog × Answer
unfolding put_channel
change_channel o kind apply s none self = (caching s self, absent)
change_channel o kind apply s (some old) self = put_channel o kind s old (apply old) self

unfoldable pub update_channel :
    Circumstances → String → Updates Channel → ChannelCatalog → ChannelCatalog × Answer
unfolding load_locked change_channel
update_channel o id updates self =
    let s = load_locked o self in
    if updates.names_id
    then (self, conflict)
    else change_channel o updated updates.apply s (channel_with id s.channels) self

unfoldable pub toggle_channel : Circumstances → String → ChannelCatalog → ChannelCatalog × Answer
unfolding load_locked change_channel
toggle_channel o id self =
    let s = load_locked o self in
    change_channel o toggled (λ channel. some (record channel { enabled = not channel.enabled })) s
      (channel_with id s.channels) self

unfoldable pub remove_found :
    Circumstances → CatalogSnapshot → Option Channel → ChannelCatalog → ChannelCatalog × Answer
unfolding commit_locked
remove_found o s none self = (caching s self, absent)
remove_found o s (some old) self =
    commit_locked o
      (record s { channels = keep (λ channel. not (channel.id == old.id)) s.channels })
      (of_channel (record { kind = deleted; channel_id = old.id; before = some old; after = none }))
      (caching s self)

unfoldable pub delete_channel : Circumstances → String → ChannelCatalog → ChannelCatalog × Answer
unfolding load_locked remove_found
delete_channel o id self =
    let s = load_locked o self in remove_found o s (channel_with id s.channels) self
