-- ===== src/Admission/Whitelist/Judged.antt =====
-- whitelist.py: what an answer of the whitelist says of the rules.
use llm_plug.Common.{
  Bool, true, false, Option, none, some, List, [], ◌∷◌, ◌≡◌, refl, sym, subst, ◌⊎◌, inl, inr,
  nat_eq, All, Has, keep, keep-Has, contains, Bool-cases,
}
use llm_plug.Text.{Text, text_eq}
use llm_plug.Admission.Whitelist.{
  WhitelistRule, Libraries, Denial, unknown_address, outside_networks, method_refused,
  allows_method, upper, check_methods,
}

pub All-of_Has : {A : Type 0} (P : A → Type 0) (xs : List A) → ((x : A) → Has x xs → P x) → All P xs
All-of_Has P [] f = tt
All-of_Has P (x ∷ xs) f = (f x (inl refl), All-of_Has P xs (λ y m. f y (inr m)))

-- What a filter that keeps nothing says of a member.
pub none_kept :
    {A : Type 0} (p : A → Bool) (xs : List A) (x : A) → [] ≡ keep p xs → Has x xs → ¬ (p x ≡ true)
none_kept p xs x e m t = subst (Has x) (sym e) (keep-Has x p xs m t)

abbrev pub Permits : Text → List Text → Type 0
Permits method_upper methods = (methods ≡ []) ⊎ (contains method_upper methods ≡ true)

allows_method-true : (m : Text) (ms : List Text) → allows_method m ms ≡ true → Permits m ms
unfolding allows_method
allows_method-true m [] e = inl refl
allows_method-true m (n ∷ ms) e = inr e

allows_method-false : (m : Text) (ms : List Text) → allows_method m ms ≡ false → ¬ Permits m ms
unfolding allows_method
allows_method-false m [] e (inl _) = cc
allows_method-false m [] e (inr t) = cc
allows_method-false m (n ∷ ms) e (inl h) = cc
allows_method-false m (n ∷ ms) e (inr t) = cc

module _ {N : Type 0} (method : Text) where
  abbrev pub Methods : List (WhitelistRule N) → Option Denial → Type 0
  Methods rules none = (r : WhitelistRule N) × Has r rules × Permits (upper method) r.methods
  Methods rules (some unknown_address) = ⊥
  Methods rules (some outside_networks) = ⊥
  Methods rules (some method_refused) = All (λ r. ¬ Permits (upper method) r.methods) rules

  Methods-later :
      (r : WhitelistRule N) (rules : List (WhitelistRule N)) (o : Option Denial)
      → ¬ Permits (upper method) r.methods
      → Methods rules o
      → Methods (r ∷ rules) o
  Methods-later r rules none refused (s, m, t) = (s, inr m, t)
  Methods-later r rules (some unknown_address) refused h = h
  Methods-later r rules (some outside_networks) refused h = h
  Methods-later r rules (some method_refused) refused h = (refused, h)

  pub check_methods-Methods :
      (rules : List (WhitelistRule N)) → Methods rules (check_methods (upper method) rules)
  unfolding check_methods
  check_methods-Methods [] = tt
  check_methods-Methods (r ∷ rules) = elim (Bool-cases (allows_method (upper method) r.methods)) [
    | inl b ↦ rw b (r, inl refl, allows_method-true (upper method) r.methods b)
    | inr b ↦ rw b (
        Methods-later r rules (check_methods (upper method) rules)
          (allows_method-false (upper method) r.methods b) (check_methods-Methods rules))
  ]

module _ {N A : Type 0} (libraries : Libraries N A) (path : Text) where
  abbrev pub Applies : WhitelistRule N → Type 0
  Applies r = libraries.fnmatchcase path r.path_pattern ≡ true

  abbrev pub Within : A → WhitelistRule N → Type 0
  Within addr r = libraries.in_network addr r.network ≡ true

  -- The reason for each answer, in terms of the rules that apply to the path.
  abbrev pub Judged : Text → List (WhitelistRule N) → Option A → Option Denial → Type 0
  Judged method rules address none =
      All (λ r. ¬ Applies r) rules
      ⊎ (addr : A) × (address ≡ some addr)
        × ((r : WhitelistRule N) × Has r rules
            × Applies r
            × Within addr r
            × Permits (upper method) r.methods)
  Judged method rules address (some unknown_address) =
      (address ≡ none) × ((r : WhitelistRule N) × Has r rules × Applies r)
  Judged method rules address (some outside_networks) =
      (addr : A) × (address ≡ some addr)
      × ((r : WhitelistRule N) × Has r rules × Applies r)
      × All (λ r. Applies r → ¬ Within addr r) rules
  Judged method rules address (some method_refused) =
      (addr : A) × (address ≡ some addr)
      × ((r : WhitelistRule N) × Has r rules × Applies r × Within addr r)
      × All (λ r. Applies r → Within addr r → ¬ Permits (upper method) r.methods) rules
