-- ===== src/Catalog/SoundChannels.antt =====
-- channel_catalog.py: the operations on channels keep ids and names unique.
use llm_plug.Common.{
  String, Bool, not, Option, none, some, [], ◌∷◌, ◌++◌, string_eq, ◌==◌, keep, refl, Bool-cases,
  inl, inr, if_both,
}
use llm_plug.Channel.{Channel}
use llm_plug.Catalog.{
  ChangeKind, CatalogSnapshot, Change, ChannelCatalog, Circumstances, Updates, snapshot_of,
  load_locked, caching, commit_locked, has_id, replace_first, channel_id, channel_with, add_channel,
  put_channel, change_channel, update_channel, remove_found,
}
use llm_plug.Catalog.Unique.{IsUnique, append-Distinct, keep-Distinct, replace_first-Distinct}

abbrev pub IsCached : Option CatalogSnapshot → Type 0
IsCached none = Unit
IsCached (some s) = IsUnique s

-- The file's snapshot and the cached one have unique ids and names.
pub record IsSound (self : ChannelCatalog) : Type 0 where
  pub cached : IsCached self.cached
  pub stored : IsUnique self.stored

pub snapshot_of-IsUnique :
    (b : Bool) (c : Option CatalogSnapshot) (s : CatalogSnapshot)
    → IsCached c
    → IsUnique s
    → IsUnique (snapshot_of b c s)
unfolding snapshot_of
snapshot_of-IsUnique b none s c h = h
snapshot_of-IsUnique b (some t) s c h = if_both IsUnique b {x = t} {y = s} c h

pub load_locked-IsUnique :
    (o : Circumstances) (self : ChannelCatalog) → IsSound self → IsUnique (load_locked o self)
unfolding load_locked
load_locked-IsUnique o self h =
    snapshot_of-IsUnique o.is_fresh self.cached self.stored h.cached h.stored

pub caching-IsSound :
    (s : CatalogSnapshot) (self : ChannelCatalog)
    → IsUnique s
    → IsSound self
    → IsSound (caching s self)
caching-IsSound s self u h = record { cached = u; stored = h.stored }

pub commit_locked-IsSound :
    (o : Circumstances) (next : CatalogSnapshot) (change : Change) (self : ChannelCatalog)
    → IsUnique next
    → IsSound self
    → IsSound (commit_locked o next change self).0
unfolding commit_locked
commit_locked-IsSound o next change self u h = elim (Bool-cases o.is_written) [
  | inl b ↦ rw b (record { cached = u; stored = u })
  | inr b ↦ rw b h
]

pub add_channel-IsSound :
    (o : Circumstances) (channel : Channel) (self : ChannelCatalog)
    → IsSound self
    → IsSound (add_channel o channel self).0
unfolding add_channel
add_channel-IsSound o channel self h =
    let s = load_locked o self in
    let u = load_locked-IsUnique o self h in
    let c = caching-IsSound s self u h in
    elim (Bool-cases (has_id channel_id channel.id s.channels)) [
      | inl b ↦ rw b c
      | inr b ↦ rw b (
          commit_locked-IsSound o (record s { channels = s.channels ++ channel ∷ [] }) _
            (caching s self) (append-Distinct channel_id s.channels channel u.0 b, u.1, u.2) c)
    ]

pub put_channel-IsSound :
    (o : Circumstances) (kind : ChangeKind) (s : CatalogSnapshot) (old : Channel)
    (new : Option Channel) (self : ChannelCatalog)
    → IsUnique s
    → IsSound self
    → IsSound (put_channel o kind s old new self).0
unfolding put_channel
put_channel-IsSound o kind s old none self u h = caching-IsSound s self u h
put_channel-IsSound o kind s old (some new) self u h =
    let kept = record new { id = old.id } in
    commit_locked-IsSound o
      (record s { channels = replace_first channel_id old.id kept s.channels }) _ (caching s self)
      (replace_first-Distinct channel_id old.id kept s.channels refl u.0, u.1, u.2)
      (caching-IsSound s self u h)

pub change_channel-IsSound :
    (o : Circumstances) (kind : ChangeKind) (apply : Channel → Option Channel) (s : CatalogSnapshot)
    (found : Option Channel) (self : ChannelCatalog)
    → IsUnique s
    → IsSound self
    → IsSound (change_channel o kind apply s found self).0
unfolding change_channel
change_channel-IsSound o kind apply s none self u h = caching-IsSound s self u h
change_channel-IsSound o kind apply s (some old) self u h =
    put_channel-IsSound o kind s old (apply old) self u h

pub remove_found-IsSound :
    (o : Circumstances) (s : CatalogSnapshot) (found : Option Channel) (self : ChannelCatalog)
    → IsUnique s
    → IsSound self
    → IsSound (remove_found o s found self).0
unfolding remove_found
remove_found-IsSound o s none self u h = caching-IsSound s self u h
remove_found-IsSound o s (some old) self u h =
    let p : Channel → Bool = λ channel. not (channel.id == old.id) in
    commit_locked-IsSound o (record s { channels = keep p s.channels }) _ (caching s self)
      (keep-Distinct channel_id p s.channels u.0, u.1, u.2) (caching-IsSound s self u h)

pub update_channel-IsSound :
    (o : Circumstances) (id : String) (updates : Updates Channel) (self : ChannelCatalog)
    → IsSound self
    → IsSound (update_channel o id updates self).0
unfolding update_channel
update_channel-IsSound o id updates self h =
    let s = load_locked o self in
    let u = load_locked-IsUnique o self h in
    elim (Bool-cases updates.names_id) [
      | inl b ↦ rw b h
      | inr b ↦ rw b (
          change_channel-IsSound o ChangeKind.updated updates.apply s (channel_with id s.channels)
            self u h)
    ]
