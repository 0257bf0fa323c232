-- ===== src/Catalog/Unique.antt =====
-- channel_catalog.py: ids and names stay unique.
use llm_plug.Common.{
  String, Bool, false, ◌||◌, List, [], ◌∷◌, ◌++◌, string_eq, ◌==◌, keep, map, contains, Distinct,
  Has, ◌≡◌, refl, sym, ◌∙◌, ap, subst, arith, Bool-cases, inl, inr,
}
use llm_plug.ModelGroup.{ModelGroup}
use llm_plug.Catalog.{CatalogSnapshot, has_id, replace_first, channel_id, group_id, group_name}
use llm_plug.Catalog.Groups.{name_taken}

module _ {A : Type 0} (id_of : A → String) where
  has_id-contains : (id : String) (xs : List A) → has_id id_of id xs ≡ contains id (map id_of xs)
  unfolding has_id
  has_id-contains id [] = refl
  has_id-contains id (x ∷ xs) = cc (has_id-contains id xs)

  contains-append :
      (id : String) (xs : List A) (x : A)
      → contains id (map id_of (xs ++ x ∷ [])) ≡ (contains id (map id_of xs) || (id_of x == id))
  contains-append id [] x = ground arith
  contains-append id (y ∷ xs) x = ground (arith, contains-append id xs x)

  pub append-Distinct :
      (xs : List A) (x : A)
      → Distinct (map id_of xs)
      → has_id id_of (id_of x) xs ≡ false
      → Distinct (map id_of (xs ++ x ∷ []))
  unfolding has_id
  append-Distinct [] x h f = (refl, tt)
  append-Distinct (y ∷ xs) x h f = ground (
    arith,
    contains-append (id_of y) xs x,
    append-Distinct xs x h.1,
    string_eq.beq_iff (id_of x) (id_of y),
    string_eq.beq_iff (id_of y) (id_of x),
  )

  contains-keep :
      (id : String) (p : A → Bool) (xs : List A)
      → contains id (map id_of xs) ≡ false
      → contains id (map id_of (keep p xs)) ≡ false
  contains-keep id p [] h = refl
  contains-keep id p (x ∷ xs) h = ground (arith, contains-keep id p xs)

  pub keep-Distinct :
      (p : A → Bool) (xs : List A) → Distinct (map id_of xs) → Distinct (map id_of (keep p xs))
  keep-Distinct p [] h = tt
  keep-Distinct p (x ∷ xs) h =
      ground (arith, keep-Distinct p xs h.1, contains-keep (id_of x) p xs h.0)

  -- A replacement keeps a text that it shares with what it replaces.
  pub map-replace_first :
      (key_of : A → String) (id : String) (new : A) (xs : List A)
      → ((x : A) → Has x xs → id_of x ≡ id → key_of x ≡ key_of new)
      → map key_of (replace_first id_of id new xs) ≡ map key_of xs
  unfolding replace_first
  map-replace_first key_of id new [] h = refl
  map-replace_first key_of id new (x ∷ xs) h = elim (Bool-cases (id_of x == id)) [
    | inl b ↦ let same = h x (inl refl) ((string_eq.beq_iff (id_of x) id).0 b) in rw (b, same) refl
    | inr b ↦
        rw b (ap (λ u. key_of x ∷ u) (map-replace_first key_of id new xs (λ y m. h y (inr m))))
  ]

abbrev pub IsUnique : CatalogSnapshot → Type 0
IsUnique s =
    Distinct (map channel_id s.channels)
    × Distinct (map group_id s.model_groups)
    × Distinct (map group_name s.model_groups)

pub replace_first-Distinct :
    {A : Type 0} (id_of : A → String) (id : String) (new : A) (xs : List A)
    → id ≡ id_of new
    → Distinct (map id_of xs)
    → Distinct (map id_of (replace_first id_of id new xs))
replace_first-Distinct id_of id new xs e h =
    subst Distinct (sym (map-replace_first id_of id_of id new xs (λ x m same. same ∙ e))) h

-- A name that no other group has.
not_taken-contains :
    (id name : String) (groups : List ModelGroup)
    → contains id (map group_id groups) ≡ false
    → name_taken id name groups ≡ false
    → contains name (map group_name groups) ≡ false
unfolding name_taken
not_taken-contains id name [] h f = refl
not_taken-contains id name (g ∷ groups) h f = ground (arith, not_taken-contains id name groups)

contains-replace_first :
    (id name : String) (new : ModelGroup) (groups : List ModelGroup)
    → contains name (map group_name groups) ≡ false
    → (new.name == name) ≡ false
    → contains name (map group_name (replace_first group_id id new groups)) ≡ false
unfolding replace_first
contains-replace_first id name new [] h f = refl
contains-replace_first id name new (g ∷ groups) h f =
    ground (arith, contains-replace_first id name new groups)

pub names-Distinct :
    (id : String) (new : ModelGroup) (groups : List ModelGroup)
    → Distinct (map group_id groups)
    → Distinct (map group_name groups)
    → name_taken id new.name groups ≡ false
    → Distinct (map group_name (replace_first group_id id new groups))
unfolding replace_first name_taken
names-Distinct id new [] i n f = tt
names-Distinct id new (g ∷ groups) i n f = elim (Bool-cases (g.id == id)) [
  | inl b ↦
      let same = (string_eq.beq_iff g.id id).0 b in
      let other : name_taken id new.name groups ≡ false = ground arith in
      let absent = subst (λ j. contains j (map group_id groups) ≡ false) same i.0 in
      rw b (not_taken-contains id new.name groups absent other, n.1)
  | inr b ↦
      let other : name_taken id new.name groups ≡ false = ground arith in
      let unlike : (new.name == g.name) ≡ false =
        ground (arith, string_eq.beq_iff new.name g.name, string_eq.beq_iff g.name new.name) in
      rw b (
        contains-replace_first id g.name new groups n.0 unlike,
        names-Distinct id new groups i.1 n.1 other,
      )
]
