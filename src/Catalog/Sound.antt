-- ===== src/Catalog/Sound.antt =====
-- channel_catalog.py: unique ids and names through all operations.
use llm_plug.Common.{not, some, List, [], ◌∷◌, string_eq, refl}
use llm_plug.Catalog.{
  ChangeKind, ChannelCatalog, Circumstances, load_locked, channel_with, group_with, toggle_channel,
  delete_channel,
}
use llm_plug.Catalog.Groups.{toggle_model_group, delete_model_group}
use llm_plug.Catalog.Operations.{Operation, invalidate, operate, operate_all}
use llm_plug.Catalog.SoundChannels.{
  IsSound, load_locked-IsUnique, add_channel-IsSound, change_channel-IsSound, remove_found-IsSound,
  update_channel-IsSound,
}
use llm_plug.Catalog.SoundGroups.{
  add_model_group-IsSound, toggle_found-IsSound, remove_group-IsSound, update_model_group-IsSound,
}

pub operate-IsSound :
    (o : Circumstances) (operation : Operation) (self : ChannelCatalog)
    → IsSound self
    → IsSound (operate o operation self)
unfolding operate toggle_channel delete_channel toggle_model_group delete_model_group invalidate
operate-IsSound o (Operation.adding channel) self h = add_channel-IsSound o channel self h
operate-IsSound o (Operation.updating id updates) self h =
    update_channel-IsSound o id updates self h
operate-IsSound o (Operation.toggling id) self h =
    let s = load_locked o self in
    change_channel-IsSound o ChangeKind.toggled
      (λ channel. some (record channel { enabled = not channel.enabled })) s
      (channel_with id s.channels) self (load_locked-IsUnique o self h) h
operate-IsSound o (Operation.deleting id) self h =
    let s = load_locked o self in
    remove_found-IsSound o s (channel_with id s.channels) self (load_locked-IsUnique o self h) h
operate-IsSound o (Operation.adding_group group) self h = add_model_group-IsSound o group self h
operate-IsSound o (Operation.updating_group id updates) self h =
    update_model_group-IsSound o id updates self h
operate-IsSound o (Operation.toggling_group id) self h =
    let s = load_locked o self in
    toggle_found-IsSound o id s (group_with id s.model_groups) self refl
      (load_locked-IsUnique o self h) h
operate-IsSound o (Operation.deleting_group id) self h =
    let s = load_locked o self in
    remove_group-IsSound o s (group_with id s.model_groups) self (load_locked-IsUnique o self h) h
operate-IsSound o Operation.invalidating self h = record { cached = tt; stored = h.stored }

-- Where the ids of channels, the ids of groups and the names of groups are unique in the file and
-- in the cache, they are so after any operations, whatever fails.
pub operate_all-IsSound :
    (operations : List (Circumstances × Operation)) (self : ChannelCatalog)
    → IsSound self
    → IsSound (operate_all operations self)
unfolding operate_all
operate_all-IsSound [] self h = h
operate_all-IsSound ((o, operation) ∷ rest) self h =
    operate_all-IsSound rest (operate o operation self) (operate-IsSound o operation self h)
