-- ===== src/Admission/Paths/Normal.antt =====
-- middleware/common.py: a path has one normal form.
use llm_plug.Common.{
  ℕ, true, false, ◌&&◌, Option, none, some, [], ◌∷◌, ◌++◌, nat_eq, ◌==◌, ◌≡◌, refl, sym, arith,
  Bool-cases, inl, inr,
}
use llm_plug.Text.{Text, starts_with, same_text}
use llm_plug.Admission.Paths.{
  v1, slash, newline, bare_prefixes, before_newline, or_else, after_v1, is_bare, normalized,
  normalize_path, HasNoNewline,
}

HasNoNewline-tail : (c : ℕ) (t : Text) → HasNoNewline (c ∷ t) → HasNoNewline t
unfolding before_newline
HasNoNewline-tail c t h = elim (Bool-cases (c == newline)) [
  | inl b ↦ cc
  | inr b ↦ let e : c ∷ before_newline t ≡ c ∷ t = rw b at h in cc
]

-- What follows the leading `/v1` starts with a slash, and no further `/v1` can be taken from it.
IsNormal : Option Text → Type 0
IsNormal none = Unit
IsNormal (some g) = (after_v1 g ≡ none) × (starts_with slash g ≡ true) × HasNoNewline g

or_else-IsNormal :
    (o : Option Text) (t : Text)
    → o ≡ after_v1 t
    → starts_with slash t ≡ true
    → HasNoNewline t
    → IsNormal o
    → IsNormal (some (or_else o t))
unfolding or_else IsNormal
or_else-IsNormal none t e s n h = (sym e, s, n)
or_else-IsNormal (some g) t e s n h = h

after_v1-IsNormal : (t : Text) → HasNoNewline t → IsNormal (after_v1 t)
unfolding after_v1 IsNormal
after_v1-IsNormal [] n = tt
after_v1-IsNormal (a ∷ []) n = tt
after_v1-IsNormal (a ∷ b ∷ []) n = tt
after_v1-IsNormal (a ∷ b ∷ c ∷ rest) n =
    let n' : HasNoNewline rest =
      HasNoNewline-tail c rest
        (HasNoNewline-tail b (c ∷ rest) (HasNoNewline-tail a (b ∷ c ∷ rest) n)) in
    elim (Bool-cases (same_text (a ∷ b ∷ c ∷ []) v1 && starts_with slash rest)) [
      | inl b ↦
          let s : starts_with slash rest ≡ true = ground arith in
          rw (b, n') (or_else-IsNormal (after_v1 rest) rest refl s n' (after_v1-IsNormal rest n'))
      | inr b ↦ rw b tt
    ]

-- A bare endpoint starts with a slash.
is_bare-slash : (t : Text) → is_bare bare_prefixes t ≡ true → starts_with slash t ≡ true
unfolding is_bare same_text starts_with
is_bare-slash [] h = cc
is_bare-slash (c ∷ t) h = elim (Bool-cases (c == 47)) [
  | inl b ↦ ground arith
  | inr b ↦ ground arith
]

-- Once it is written with one `/v1`, a path keeps its form.
normalized-once :
    (t : Text)
    → after_v1 t ≡ none
    → starts_with slash t ≡ true
    → HasNoNewline t
    → normalize_path (v1 ++ t) ≡ v1 ++ t
unfolding normalize_path normalized after_v1 same_text or_else
normalized-once t e s n = rw (s, e, n) refl

normalized-kept :
    (t : Text) → after_v1 t ≡ none → is_bare bare_prefixes t ≡ false → normalize_path t ≡ t
unfolding normalize_path normalized
normalized-kept t e b = rw (e, normalized, b) refl

normalized_idem :
    (o : Option Text) (t : Text)
    → after_v1 t ≡ o
    → IsNormal o
    → HasNoNewline t
    → normalize_path (normalized o t) ≡ normalized o t
unfolding normalized IsNormal
normalized_idem (some g) t e h n = normalized-once g h.0 h.1 h.2
normalized_idem none t e h n = elim (Bool-cases (is_bare bare_prefixes t)) [
  | inl b ↦ rw b (normalized-once t e (is_bare-slash t b) n)
  | inr b ↦ rw b (normalized-kept t e b)
]

-- A path without a line break is normalized once and for all: normalizing what the first middleware
-- has normalized changes nothing.
pub normalize_path_idem :
    (path : Text) → HasNoNewline path → normalize_path (normalize_path path) ≡ normalize_path path
unfolding normalize_path
normalize_path_idem path n = normalized_idem (after_v1 path) path refl (after_v1-IsNormal path n) n
