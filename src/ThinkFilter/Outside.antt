-- ===== src/ThinkFilter/Outside.antt =====
-- think_filter.py: the search for the start of a block, against the reference.
use llm_plug.Common.{
  ℕ, zero, suc, ◌<◌, true, false, Option, none, some, [], ◌∷◌, ◌++◌, nat_eq, if◌then◌else◌, ◌≡◌,
  refl, sym, ◌∙◌, ap, subst, arith, length, Bool-cases, inl, inr,
}
use llm_plug.Text.{Text, take, drop, starts_with, put_before, find, starts_with-append}
use llm_plug.ThinkFilter.{think_start, thought, nearer, find_start_tag, get_start_tag}
use llm_plug.ThinkFilter.Visible.{
  Block, Mode, start_of, visible_from, visible_from-drop, starts_with-prefix, starts_with-drop,
}

-- The first place where either tag starts.
first_tag : Text → Option (Text × Text)
first_tag [] = none
first_tag (c ∷ t) =
    let later = put_before c (first_tag t) in
    if starts_with think_start (c ∷ t)
    then some ([], c ∷ t)
    else if starts_with thought (c ∷ t)
    then some ([], c ∷ t)
    else later

nearer-here : (t : Text) (q : Option (Text × Text)) → nearer (some ([], t)) q ≡ some ([], t)
unfolding nearer
nearer-here t none = refl
nearer-here t (some q) = ground arith

nearer-there :
    (c : ℕ) (t : Text) (p : Option (Text × Text))
    → nearer (put_before c p) (some ([], t)) ≡ some ([], t)
unfolding nearer put_before
nearer-there c t none = refl
nearer-there c t (some p) = ground arith

nearer-put_before :
    (c : ℕ) (p q : Option (Text × Text))
    → nearer (put_before c p) (put_before c q) ≡ put_before c (nearer p q)
unfolding nearer put_before
nearer-put_before c none q = refl
nearer-put_before c (some p) none = refl
nearer-put_before c (some p) (some q) = ground arith

find_start_tag-first : (t : Text) → find_start_tag t ≡ first_tag t
unfolding find_start_tag find first_tag nearer
find_start_tag-first [] = refl
find_start_tag-first (c ∷ t) = elim (Bool-cases (starts_with think_start (c ∷ t))) [
  | inl a ↦ rw a (
      nearer-here (c ∷ t)
        (if starts_with thought (c ∷ t) then some ([], c ∷ t) else put_before c (find thought t)))
  | inr a ↦ elim (Bool-cases (starts_with thought (c ∷ t))) [
    | inl b ↦ rw (a, b) (nearer-there c (c ∷ t) (find think_start t))
    | inr b ↦
        rw (a, b)
          (nearer-put_before c (find think_start t) (find thought t)
            ∙ ap (put_before c) (find_start_tag-first t))
  ]
]

prefix-has_no_tag : (k : ℕ) → k < length think_start → first_tag (take k think_start) ≡ none
unfolding first_tag take starts_with put_before
prefix-has_no_tag zero h = refl
prefix-has_no_tag (suc zero) h = refl
prefix-has_no_tag (suc (suc zero)) h = refl
prefix-has_no_tag (suc (suc (suc zero))) h = refl
prefix-has_no_tag (suc (suc (suc (suc zero)))) h = refl
prefix-has_no_tag (suc (suc (suc (suc (suc zero))))) h = refl
prefix-has_no_tag (suc (suc (suc (suc (suc (suc zero)))))) h = refl
prefix-has_no_tag (suc (suc (suc (suc (suc (suc (suc k))))))) h = absurd (omega arith)

-- What precedes the tag is seen, and a block starts behind it.
pub record Opened (t : Text) (p : Text × Text) : Type 0 where
  pub block : Block
  pub start_tag : get_start_tag p.1 ≡ start_of block
  pub whole : p.0 ++ p.1 ≡ t
  pub seen :
      (rest : Text)
      → visible_from Mode.outside 0 (t ++ rest)
        ≡ p.0 ++ visible_from (Mode.inside block) 0 (drop (length (start_of block)) p.1 ++ rest)

OpenedIf : Text → Option (Text × Text) → Type 0
OpenedIf t none = Unit
OpenedIf t (some p) = Opened t p

think-Opened :
    (c : ℕ) (t : Text) → starts_with think_start (c ∷ t) ≡ true → Opened (c ∷ t) ([], c ∷ t)
unfolding visible_from get_start_tag drop
think-Opened c t a = record {
  block = Block.think;
  start_tag = rw a refl;
  whole = refl;
  seen = λ rest. rw (starts_with-append think_start (c ∷ t) rest a) (
      visible_from-drop (Mode.inside Block.think) 6 (t ++ rest)
      ∙ ap (visible_from (Mode.inside Block.think) 0)
          (starts_with-drop think_start (c ∷ t) rest a));
}

not_think :
    (c : ℕ) (t : Text)
    → starts_with thought (c ∷ t) ≡ true
    → starts_with think_start (c ∷ t) ≡ false
unfolding starts_with
not_think c t b = ground arith

emoji-Opened :
    (c : ℕ) (t : Text)
    → starts_with think_start (c ∷ t) ≡ false
    → starts_with thought (c ∷ t) ≡ true
    → Opened (c ∷ t) ([], c ∷ t)
unfolding visible_from get_start_tag drop
emoji-Opened c t a b = record {
  block = Block.emoji;
  start_tag = rw (a, b) refl;
  whole = refl;
  seen = λ rest.
      let unlike : starts_with think_start (c ∷ t ++ rest) ≡ false = not_think c (t ++ rest) b in
      rw (unlike, b) refl;
}

-- Where a tag starts later, none starts here, however the text goes on.
before_tag :
    (c : ℕ) (t rest : Text) (p : Text × Text)
    → starts_with think_start (c ∷ t) ≡ false
    → first_tag (c ∷ t) ≡ put_before c (some p)
    → starts_with think_start (c ∷ t ++ rest) ≡ false
unfolding put_before
before_tag c t rest p a e = elim (Bool-cases (starts_with think_start (c ∷ t ++ rest))) [
  | inr unlike ↦ unlike
  | inl starts ↦
      let (same, short) = starts_with-prefix think_start (c ∷ t) rest a starts in
      let absent = prefix-has_no_tag (length (c ∷ t)) short in cc
]

put_before-Opened :
    (c : ℕ) (t : Text) (o : Option (Text × Text))
    → starts_with think_start (c ∷ t) ≡ false
    → starts_with thought (c ∷ t) ≡ false
    → first_tag (c ∷ t) ≡ put_before c o
    → OpenedIf t o
    → OpenedIf (c ∷ t) (put_before c o)
unfolding OpenedIf put_before visible_from
put_before-Opened c t none a b e h = tt
put_before-Opened c t (some p) a b e o = record {
  block = o.block;
  start_tag = o.start_tag;
  whole = ap (λ u. c ∷ u) o.whole;
  seen = λ rest.
      let unlike = before_tag c t rest p a e in rw (unlike, b) (ap (λ u. c ∷ u) (o.seen rest));
}

first_tag-Opened : (t : Text) → OpenedIf t (first_tag t)
unfolding first_tag OpenedIf
first_tag-Opened [] = tt
first_tag-Opened (c ∷ t) = elim (Bool-cases (starts_with think_start (c ∷ t))) [
  | inl a ↦ rw a (think-Opened c t a)
  | inr a ↦ elim (Bool-cases (starts_with thought (c ∷ t))) [
    | inl b ↦ rw (a, b) (emoji-Opened c t a b)
    | inr b ↦
        rw (a, b) (put_before-Opened c t (first_tag t) a b (rw (a, b) refl) (first_tag-Opened t))
  ]
]

pub find_start_tag-Opened : (t : Text) {p : Text × Text} → find_start_tag t ≡ some p → Opened t p
unfolding OpenedIf
find_start_tag-Opened t e =
    subst (OpenedIf t) (sym (find_start_tag-first t) ∙ e) (first_tag-Opened t)
