-- ===== src/Catalog/Groups.antt =====
-- channel_catalog.py: the operations on model groups, whose names are unique too.
use llm_plug.Common.{
  String, Bool, false, ◌&&◌, ◌||◌, not, Option, none, some, List, [], ◌∷◌, ◌++◌, string_eq, ◌==◌,
  if◌then◌else◌, keep,
}
use llm_plug.ModelGroup.{ModelGroup}
use llm_plug.Catalog.{
  ChangeKind, CatalogSnapshot, ChannelCatalog, Circumstances, Answer, Updates, load_locked, caching,
  commit_locked, has_id, replace_first, group_id, group_name, group_with, created, updated, toggled,
  deleted, of_group, absent, conflict, invalid,
}

unfoldable pub add_model_group :
    Circumstances → ModelGroup → ChannelCatalog → ChannelCatalog × Answer
unfolding load_locked commit_locked has_id
add_model_group o group self =
    let s = load_locked o self in
    if has_id group_id group.id s.model_groups || has_id group_name group.name s.model_groups
    then (caching s self, conflict)
    else commit_locked o (record s { model_groups = s.model_groups ++ group ∷ [] })
        (of_group
          (record { kind = created; model_group_id = group.id; before = none; after = some group }))
        (caching s self)

-- any(existing.id != group_id and existing.name == updated.name for existing in groups)
unfoldable pub name_taken : String → String → List ModelGroup → Bool
name_taken id name [] = false
name_taken id name (group ∷ groups) =
    (not (group.id == id) && (group.name == name)) || name_taken id name groups

unfoldable pub put_group :
    Circumstances
    → ChangeKind
    → CatalogSnapshot
    → ModelGroup
    → Option ModelGroup
    → ChannelCatalog
    → ChannelCatalog × Answer
unfolding commit_locked replace_first name_taken
put_group o kind s old none self = (caching s self, invalid)
put_group o kind s old (some new) self =
    let kept = record new { id = old.id } in
    if name_taken old.id kept.name s.model_groups
    then (caching s self, conflict)
    else commit_locked o
        (record s { model_groups = replace_first group_id old.id kept s.model_groups })
        (of_group
          (record { kind = kind; model_group_id = old.id; before = some old; after = some kept }))
        (caching s self)

unfoldable pub change_group :
    Circumstances
    → (ModelGroup → Option ModelGroup)
    → CatalogSnapshot
    → Option ModelGroup
    → ChannelCatalog
    → ChannelCatalog × Answer
unfolding put_group
change_group o apply s none self = (caching s self, absent)
change_group o apply s (some old) self = put_group o updated s old (apply old) self

unfoldable pub update_model_group :
    Circumstances → String → Updates ModelGroup → ChannelCatalog → ChannelCatalog × Answer
unfolding load_locked change_group
update_model_group o id updates self =
    let s = load_locked o self in
    if updates.names_id
    then (self, conflict)
    else change_group o updates.apply s (group_with id s.model_groups) self

unfoldable pub toggle_found :
    Circumstances → CatalogSnapshot → Option ModelGroup → ChannelCatalog → ChannelCatalog × Answer
unfolding commit_locked replace_first
toggle_found o s none self = (caching s self, absent)
toggle_found o s (some old) self =
    let kept = record old { enabled = not old.enabled } in
    commit_locked o (record s { model_groups = replace_first group_id old.id kept s.model_groups })
      (of_group
        (record { kind = toggled; model_group_id = old.id; before = some old; after = some kept }))
      (caching s self)

unfoldable pub toggle_model_group :
    Circumstances → String → ChannelCatalog → ChannelCatalog × Answer
unfolding load_locked toggle_found
toggle_model_group o id self =
    let s = load_locked o self in toggle_found o s (group_with id s.model_groups) self

unfoldable pub remove_group :
    Circumstances → CatalogSnapshot → Option ModelGroup → ChannelCatalog → ChannelCatalog × Answer
unfolding commit_locked
remove_group o s none self = (caching s self, absent)
remove_group o s (some old) self =
    commit_locked o
      (record s { model_groups = keep (λ group. not (group.id == old.id)) s.model_groups })
      (of_group
        (record { kind = deleted; model_group_id = old.id; before = some old; after = none }))
      (caching s self)

unfoldable pub delete_model_group :
    Circumstances → String → ChannelCatalog → ChannelCatalog × Answer
unfolding load_locked remove_group
delete_model_group o id self =
    let s = load_locked o self in remove_group o s (group_with id s.model_groups) self
