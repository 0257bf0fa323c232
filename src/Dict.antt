-- ===== src/Dict.antt =====
-- Python's `dict`: an association list in insertion order. Writing to a key that is there keeps
-- its place, a new key comes last; `OrderedDict.move_to_end` is a removal and a write.
pub mod Laws
use llm_plug.Common.{
  ℕ, String, Bool, Option, none, some, List, [], ◌∷◌, ◌++◌, Eq, ◌==◌, if◌then◌else◌, not, map,
}

abbrev pub Dict {ℓ κ} : Type ℓ → Type κ → Type (ℓ ⊔ κ)
Dict K V = List (K × V)

module _ {ℓ κ} {K : Type ℓ} {V : Type κ} where
  -- The keys in insertion order.
  abbrev pub keys : Dict K V → List K
  keys [] = []
  keys ((j, v) ∷ d) = j ∷ keys d

  -- {j: v for j, v in d.items() if p(j, v)}
  unfoldable pub restrict : (K → V → Bool) → Dict K V → Dict K V
  restrict p [] = []
  restrict p ((j, v) ∷ d) = let rest = restrict p d in if p j v then (j, v) ∷ rest else rest

  module _ ⦃e : Eq K⦄ where
    -- d.get(k)
    unfoldable pub get : K → Dict K V → Option V
    get k [] = none
    get k ((j, v) ∷ d) = if j == k then some v else get k d

    -- d[k] = v
    unfoldable pub put : K → V → Dict K V → Dict K V
    put k v [] = (k, v) ∷ []
    put k v ((j, w) ∷ d) = if j == k then (j, v) ∷ d else (j, w) ∷ put k v d

    -- d.pop(k, None)
    unfoldable pub remove : K → Dict K V → Dict K V
    remove k d = restrict (λ j _. not (j == k)) d

    -- d.get(k, default)
    unfoldable pub get_or : V → K → Dict K V → V
    unfolding get
    get_or default k d = elim (get k d) [ none ↦ default | some v ↦ v ]

    -- d[k] = v; d.move_to_end(k)
    unfoldable pub put_last : K → V → Dict K V → Dict K V
    put_last k v d = remove k d ++ (k, v) ∷ []
