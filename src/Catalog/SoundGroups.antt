-- ===== src/Catalog/SoundGroups.antt =====
-- channel_catalog.py: the operations on groups keep ids and names unique.
use llm_plug.Common.{
  find_first-Has, subst, sym, ap, ◌∙◌, String, Bool, false, ◌||◌, not, Option, none, some, List, [],
  ◌∷◌, ◌++◌, string_eq, ◌==◌, keep, map, Distinct, ◌≡◌, refl, arith, Bool-cases, inl, inr,
}
use llm_plug.ModelGroup.{ModelGroup}
use llm_plug.Catalog.{
  ChangeKind, CatalogSnapshot, ChannelCatalog, Circumstances, Updates, load_locked, caching, has_id,
  replace_first, group_id, group_name, group_with,
}
use llm_plug.Catalog.Groups.{
  add_model_group, name_taken, put_group, change_group, update_model_group, toggle_found,
  remove_group,
}
use llm_plug.Catalog.Unique.{
  IsUnique, append-Distinct, keep-Distinct, replace_first-Distinct, names-Distinct,
}
use llm_plug.Catalog.SoundChannels.{
  IsSound, load_locked-IsUnique, caching-IsSound, commit_locked-IsSound,
}

pub add_model_group-IsSound :
    (o : Circumstances) (group : ModelGroup) (self : ChannelCatalog)
    → IsSound self
    → IsSound (add_model_group o group self).0
unfolding add_model_group
add_model_group-IsSound o group self h =
    let s = load_locked o self in
    let u = load_locked-IsUnique o self h in
    let c = caching-IsSound s self u h in
    let same_id = has_id group_id group.id s.model_groups in
    let same_name = has_id group_name group.name s.model_groups in
    elim (Bool-cases (same_id || same_name)) [
      | inl b ↦ rw b c
      | inr b ↦
          let new_id : same_id ≡ false = ground arith in
          let new_name : same_name ≡ false = ground arith in
          rw b (
            commit_locked-IsSound o (record s { model_groups = s.model_groups ++ group ∷ [] }) _
              (caching s self)
              (
                u.0,
                append-Distinct group_id s.model_groups group u.1 new_id,
                append-Distinct group_name s.model_groups group u.2 new_name,
              )
              c)
    ]

pub put_group-IsSound :
    (o : Circumstances) (kind : ChangeKind) (s : CatalogSnapshot) (old : ModelGroup)
    (new : Option ModelGroup) (self : ChannelCatalog)
    → IsUnique s
    → IsSound self
    → IsSound (put_group o kind s old new self).0
unfolding put_group
put_group-IsSound o kind s old none self u h = caching-IsSound s self u h
put_group-IsSound o kind s old (some new) self u h =
    let kept = record new { id = old.id } in
    elim (Bool-cases (name_taken old.id new.name s.model_groups)) [
      | inl b ↦ rw b (caching-IsSound s self u h)
      | inr b ↦ rw b (
          commit_locked-IsSound o
            (record s { model_groups = replace_first group_id old.id kept s.model_groups }) _
            (caching s self)
            (
              u.0,
              replace_first-Distinct group_id old.id kept s.model_groups refl u.1,
              names-Distinct old.id kept s.model_groups u.1 u.2 b,
            )
            (caching-IsSound s self u h))
    ]

pub change_group-IsSound :
    (o : Circumstances) (apply : ModelGroup → Option ModelGroup) (s : CatalogSnapshot)
    (found : Option ModelGroup) (self : ChannelCatalog)
    → IsUnique s
    → IsSound self
    → IsSound (change_group o apply s found self).0
unfolding change_group
change_group-IsSound o apply s none self u h = caching-IsSound s self u h
change_group-IsSound o apply s (some old) self u h =
    put_group-IsSound o ChangeKind.updated s old (apply old) self u h

-- The group that a toggle replaces is the one that was found, with its name.
map-replace_found :
    (id : String) (old new : ModelGroup) (groups : List ModelGroup)
    → group_with id groups ≡ some old
    → old.name ≡ new.name
    → map group_name (replace_first group_id id new groups) ≡ map group_name groups
unfolding replace_first
map-replace_found id old new [] f e = refl
map-replace_found id old new (g ∷ groups) f e = elim (Bool-cases (g.id == id)) [
  | inl b ↦
      let found : some g ≡ some old = rw b at f in
      let same : g ≡ old = cc in
      rw b (ap (λ n. n ∷ map group_name groups) (sym (ap group_name same ∙ e)))
  | inr b ↦ rw b (ap (λ u. g.name ∷ u) (map-replace_found id old new groups (rw b at f) e))
]

pub toggle_found-IsSound :
    (o : Circumstances) (id : String) (s : CatalogSnapshot) (found : Option ModelGroup)
    (self : ChannelCatalog)
    → group_with id s.model_groups ≡ found
    → IsUnique s
    → IsSound self
    → IsSound (toggle_found o s found self).0
unfolding toggle_found
toggle_found-IsSound o id s none self f u h = caching-IsSound s self u h
toggle_found-IsSound o id s (some old) self f u h =
    let kept = record old { enabled = not old.enabled } in
    let (member, test) = find_first-Has (λ g. g.id == id) s.model_groups f in
    let same = (string_eq.beq_iff old.id id).0 test in
    let found : group_with old.id s.model_groups ≡ some old =
      subst (λ j. group_with j s.model_groups ≡ some old) (sym same) f in
    let names = map-replace_found old.id old kept s.model_groups found refl in
    commit_locked-IsSound o
      (record s { model_groups = replace_first group_id old.id kept s.model_groups }) _
      (caching s self)
      (
        u.0,
        replace_first-Distinct group_id old.id kept s.model_groups refl u.1,
        subst Distinct (sym names) u.2,
      )
      (caching-IsSound s self u h)

pub remove_group-IsSound :
    (o : Circumstances) (s : CatalogSnapshot) (found : Option ModelGroup) (self : ChannelCatalog)
    → IsUnique s
    → IsSound self
    → IsSound (remove_group o s found self).0
unfolding remove_group
remove_group-IsSound o s none self u h = caching-IsSound s self u h
remove_group-IsSound o s (some old) self u h =
    let p : ModelGroup → Bool = λ group. not (group.id == old.id) in
    commit_locked-IsSound o (record s { model_groups = keep p s.model_groups }) _ (caching s self)
      (
        u.0,
        keep-Distinct group_id p s.model_groups u.1,
        keep-Distinct group_name p s.model_groups u.2,
      )
      (caching-IsSound s self u h)

pub update_model_group-IsSound :
    (o : Circumstances) (id : String) (updates : Updates ModelGroup) (self : ChannelCatalog)
    → IsSound self
    → IsSound (update_model_group o id updates self).0
unfolding update_model_group
update_model_group-IsSound o id updates self h =
    let s = load_locked o self in
    let u = load_locked-IsUnique o self h in
    elim (Bool-cases updates.names_id) [
      | inl b ↦ rw b h
      | inr b ↦
          rw b (change_group-IsSound o updates.apply s (group_with id s.model_groups) self u h)
    ]
