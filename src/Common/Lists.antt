-- ===== src/Common/Lists.antt =====
-- Lists measured by native numbers, predicates on their members, and Python's `in` and `next`.
use Prim.Native.Nat.{ℕ, suc, ◌+◌, ◌≤◌}
use mathlib.Core.Logic.{◌⊎◌, inl, inr}
use mathlib.Core.Path.{◌≡◌, refl, subst, sym}
use mathlib.Core.Bool.{Bool, true, false, ◌||◌}
use mathlib.Core.List.{List, [], ◌∷◌, ◌++◌}
use mathlib.Core.Option.{Option, none, some}
use native.Mathlib.Omega.{arith}
use llm_plug.Common.Tests.{Bool-cases, Eq, ◌==◌, if◌then◌else◌}

module _ {ℓ} {A : Type ℓ} where
  abbrev pub length : List A → ℕ
  length [] = 0
  length (x ∷ xs) = suc (length xs)

  pub length-append : (xs ys : List A) → length (xs ++ ys) ≡ length xs + length ys
  length-append [] ys = omega arith
  length-append (x ∷ xs) ys = omega (arith, length-append xs ys)

  -- A predicate of every member.
  abbrev pub All {κ} : (A → Type κ) → List A → Type κ
  All P [] = Unit
  All P (x ∷ xs) = P x × All P xs

  pub All-weaken {κ κ'} :
      (P : A → Type κ) (Q : A → Type κ') (xs : List A) → ((x : A) → P x → Q x) → All P xs → All Q xs
  All-weaken P Q [] f h = tt
  All-weaken P Q (x ∷ xs) f h = (f x h.0, All-weaken P Q xs f h.1)

  -- [x for x in xs if p(x)]
  abbrev pub keep : (A → Bool) → List A → List A
  keep p [] = []
  keep p (x ∷ xs) = let rest = keep p xs in if p x then x ∷ rest else rest

  -- next((x for x in xs if p(x)), None)
  abbrev pub find_first : (A → Bool) → List A → Option A
  find_first p [] = none
  find_first p (x ∷ xs) = if p x then some x else find_first p xs

  pub All-keep {κ} : (P : A → Type κ) (p : A → Bool) (xs : List A) → All P xs → All P (keep p xs)
  All-keep P p [] h = tt
  All-keep P p (x ∷ xs) h = ground (arith, All-keep P p xs h.1)

  pub length-keep-le : (p : A → Bool) (xs : List A) → length (keep p xs) ≤ length xs
  length-keep-le p [] = omega arith
  length-keep-le p (x ∷ xs) = ground (arith, length-keep-le p xs)

-- `x in xs`, as a statement.
module _ {A : Type 0} where
  abbrev pub Has : A → List A → Type 0
  Has x [] = ⊥
  Has x (y ∷ ys) = (x ≡ y) ⊎ Has x ys

  Has-if :
      (x y : A) (r : List A) (b : Bool)
      → Has x (if b then y ∷ r else r)
      → ((x ≡ y) × (b ≡ true)) ⊎ Has x r
  Has-if x y r true (inl e) = inl (e, refl)
  Has-if x y r true (inr m) = inr m
  Has-if x y r false m = inr m

  pub Has-keep : (x : A) (p : A → Bool) (xs : List A) → Has x (keep p xs) → Has x xs × (p x ≡ true)
  Has-keep x p [] h = absurd h
  Has-keep x p (y ∷ ys) h = elim (Has-if x y (keep p ys) (p y) h) [
    | inl (e, t) ↦ (inl e, subst (λ z. p z ≡ true) (sym e) t)
    | inr m ↦ let (before, t) = Has-keep x p ys m in (inr before, t)
  ]

  Has-if_self :
      (x y : A) (r : List A) (b : Bool) → x ≡ y → b ≡ true → Has x (if b then y ∷ r else r)
  Has-if_self x y r true e t = inl e
  Has-if_self x y r false e t = cc

  Has-if_rest : (x y : A) (r : List A) (b : Bool) → Has x r → Has x (if b then y ∷ r else r)
  Has-if_rest x y r true m = inr m
  Has-if_rest x y r false m = m

  pub keep-Has : (x : A) (p : A → Bool) (xs : List A) → Has x xs → p x ≡ true → Has x (keep p xs)
  keep-Has x p [] h t = absurd h
  keep-Has x p (y ∷ ys) (inl e) t =
      Has-if_self x y (keep p ys) (p y) e (subst (λ z. p z ≡ true) e t)
  keep-Has x p (y ∷ ys) (inr m) t = Has-if_rest x y (keep p ys) (p y) (keep-Has x p ys m t)

  pub find_first-Has :
      (p : A → Bool) (xs : List A) {x : A} → find_first p xs ≡ some x → Has x xs × (p x ≡ true)
  find_first-Has p [] e = cc
  find_first-Has p (y ∷ ys) {x} e = elim (Bool-cases (p y)) [
    | inl t ↦ let same : y ≡ x = ground arith in (inl (sym same), subst (λ z. p z ≡ true) same t)
    | inr f ↦ let (m, t) = find_first-Has p ys (rw f at e) in (inr m, t)
  ]

  pub keep_same : (p q : A → Bool) (xs : List A) → ((x : A) → p x ≡ q x) → keep p xs ≡ keep q xs
  keep_same p q [] h = refl
  keep_same p q (x ∷ xs) h = ground (arith, h x, keep_same p q xs h)

  pub All-Has {κ} : (P : A → Type κ) (x : A) (xs : List A) → All P xs → Has x xs → P x
  All-Has P x [] h m = absurd m
  All-Has P x (y ∷ ys) h (inl e) = subst P (sym e) h.0
  All-Has P x (y ∷ ys) h (inr m) = All-Has P x ys h.1 m

module _ {ℓ} {A : Type ℓ} ⦃e : Eq A⦄ where
  -- a in xs
  abbrev pub contains : A → List A → Bool
  contains a [] = false
  contains a (x ∷ xs) = (x == a) || contains a xs

  abbrev pub Distinct : List A → Type 0
  Distinct [] = Unit
  Distinct (x ∷ xs) = (contains x xs ≡ false) × Distinct xs
