-- ===== src/ThinkFilter/Find.antt =====
-- think_filter.py: what a search that finds nothing says of the parts of a text.
use llm_plug.Text.{Text, drop, find, put_before, starts_with, starts_with-append}
use llm_plug.Common.{
  false, ℕ, Option, none, some, [], ◌∷◌, ◌++◌, nat_eq, ◌≡◌, refl, arith, length, Bool-cases, inl,
  inr,
}
use llm_plug.ThinkFilter.{nearer, find_start_tag, HasNoTag, think_start, thought}

pub drop-length : (s t : Text) → drop (length s) (s ++ t) ≡ t
unfolding drop
drop-length [] t = refl
drop-length (c ∷ s) t = drop-length s t

put_before-none : (c : ℕ) (o : Option (Text × Text)) → put_before c o ≡ none → o ≡ none
unfolding put_before
put_before-none c none e = refl
put_before-none c (some p) e = cc

find-tail : (tag : Text) (c : ℕ) (t : Text) → find tag (c ∷ t) ≡ none → find tag t ≡ none
unfolding find
find-tail tag c t e = elim (Bool-cases (starts_with tag (c ∷ t))) [
  | inl b ↦ cc
  | inr b ↦ put_before-none c (find tag t) (rw b at e)
]

find-after : (tag s t : Text) → find tag (s ++ t) ≡ none → find tag t ≡ none
find-after tag [] t e = e
find-after tag (c ∷ s) t e = find-after tag s t (find-tail tag c (s ++ t) e)

find-before : (tag s t : Text) → find tag (s ++ t) ≡ none → find tag s ≡ none
unfolding find put_before
find-before tag [] t e = refl
find-before tag (c ∷ s) t e = elim (Bool-cases (starts_with tag (c ∷ s))) [
  | inl b ↦ cc (starts_with-append tag (c ∷ s) t b)
  | inr b ↦ let rest = find-before tag s t (find-tail tag c (s ++ t) e) in rw (b, rest) refl
]

nearer-none : (p q : Option (Text × Text)) → nearer p q ≡ none → (p ≡ none) × (q ≡ none)
unfolding nearer
nearer-none none q e = (refl, e)
nearer-none (some p) none e = cc
nearer-none (some p) (some q) e = ground arith

both-none : {p q : Option (Text × Text)} → p ≡ none → q ≡ none → nearer p q ≡ none
unfolding nearer
both-none e f = rw (e, f) refl

pub HasNoTag-after : (s t : Text) → HasNoTag (s ++ t) → HasNoTag t
unfolding find_start_tag
HasNoTag-after s t h =
    let (a, b) = nearer-none (find think_start (s ++ t)) (find thought (s ++ t)) h in
    both-none (find-after think_start s t a) (find-after thought s t b)

pub HasNoTag-before : (s t : Text) → HasNoTag (s ++ t) → HasNoTag s
unfolding find_start_tag
HasNoTag-before s t h =
    let (a, b) = nearer-none (find think_start (s ++ t)) (find thought (s ++ t)) h in
    both-none (find-before think_start s t a) (find-before thought s t b)

find-starts_with-none :
    (tag : Text) (c : ℕ) (t : Text) → find tag (c ∷ t) ≡ none → starts_with tag (c ∷ t) ≡ false
unfolding find
find-starts_with-none tag c t e = elim (Bool-cases (starts_with tag (c ∷ t))) [
  | inl b ↦ cc
  | inr b ↦ b
]

pub HasNoTag-starts_with :
    (c : ℕ) (t : Text)
    → HasNoTag (c ∷ t)
    → (starts_with think_start (c ∷ t) ≡ false) × (starts_with thought (c ∷ t) ≡ false)
unfolding find_start_tag
HasNoTag-starts_with c t h =
    let (a, b) = nearer-none (find think_start (c ∷ t)) (find thought (c ∷ t)) h in
    (find-starts_with-none think_start c t a, find-starts_with-none thought c t b)
