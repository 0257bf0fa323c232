-- ===== src/ThinkFilter/Partial.antt =====
-- think_filter.py: how much of a text may become a start tag.
use llm_plug.Common.{
  ℕ, zero, suc, ◌+◌, ◌-◌, ◌≤◌, ◌<◌, true, false, [], ◌∷◌, ◌++◌, nat_eq, ltb, ◌≡◌, refl, sym, ap,
  ◌∙◌, max, subst, arith, length, length-append, contains, Bool-cases, inl, inr,
}
use llm_plug.Text.{Text, codes, take, drop, same_text, same_text_iff, ends_with}
use llm_plug.ThinkFilter.{think_start, thought, partial_tag_len, partial_start_tag_len}

drop-append : (n : ℕ) (s t : Text) → n ≤ length s → drop n (s ++ t) ≡ drop n s ++ t
unfolding drop
drop-append zero s t h = refl
drop-append (suc n) [] t h = absurd (omega arith)
drop-append (suc n) (c ∷ s) t h = drop-append n s t (omega arith)

pub drop-past : (s t : Text) (n : ℕ) → drop (length s + n) (s ++ t) ≡ drop n t
unfolding drop
drop-past [] t n = ap (λ m. drop m t) (omega arith)
drop-past (c ∷ s) t n =
    let next : length (c ∷ s) + n ≡ suc (length s + n) = omega arith in rw (next) (drop-past s t n)

-- A text that ends another one, past a code point, does so after it if it does not contain it.
same_text-contains : (x : ℕ) (d u e : Text) → same_text e (d ++ x ∷ u) ≡ true → contains x e ≡ true
unfolding same_text
same_text-contains x [] u [] h = cc
same_text-contains x [] u (c ∷ e) h = ground arith
same_text-contains x (y ∷ d) u [] h = cc
same_text-contains x (y ∷ d) u (c ∷ e) h =
    let later = same_text-contains x d u e (ground arith) in ground arith

ends_with-after :
    (x : ℕ) (s u e : Text)
    → contains x e ≡ false
    → ends_with e (s ++ x ∷ u) ≡ true
    → length e ≤ length u
unfolding ends_with
ends_with-after x s u e absent h = elim (Bool-cases (ltb (length u) (length e))) [
  | inr b ↦ ground arith
  | inl b ↦
      let n = length (s ++ x ∷ u) - length e in
      let short : n ≤ length s = ground (arith, length-append s (x ∷ u)) in
      let same = subst (λ t. same_text e t ≡ true) (drop-append n s (x ∷ u) short) h in
      let present = same_text-contains x (drop n s) u e same in cc
]

-- The longest prefix of the tag that ends the text, of `n` code points at most.
partial_tag_len-le :
    (tag t : Text) (n b : ℕ)
    → ((k : ℕ) → k < n → ends_with (take (suc k) tag) t ≡ true → suc k ≤ b)
    → partial_tag_len tag t n ≤ b
unfolding partial_tag_len
partial_tag_len-le tag t zero b h = omega arith
partial_tag_len-le tag t (suc n) b h =
    let rest = partial_tag_len-le tag t n b (λ k l e. h k (omega arith) e) in
    elim (Bool-cases (ends_with (take (suc n) tag) t)) [
      | inl e ↦ let here = h n (omega arith) e in rw e (omega arith)
      | inr e ↦ rw e rest
    ]

partial_tag_len-ge :
    (tag t : Text) (n k : ℕ)
    → k < n
    → ends_with (take (suc k) tag) t ≡ true
    → suc k ≤ partial_tag_len tag t n
unfolding partial_tag_len
partial_tag_len-ge tag t zero k l e = absurd (omega arith)
partial_tag_len-ge tag t (suc n) k l e = elim (Bool-cases (ltb k n)) [
  | inl b ↦
      let later = partial_tag_len-ge tag t n k (ground arith) e in
      elim (Bool-cases (ends_with (take (suc n) tag) t)) [
        | inl f ↦ rw f (omega arith)
        | inr f ↦ rw f later
      ]
  | inr b ↦
      let same : k ≡ n = ground arith in
      let here = subst (λ m. ends_with (take (suc m) tag) t ≡ true) same e in rw here (omega arith)
]

take-contains : (x n : ℕ) (t : Text) → contains x t ≡ false → contains x (take n t) ≡ false
unfolding take
take-contains x zero t h = refl
take-contains x (suc n) [] h = refl
take-contains x (suc n) (c ∷ t) h = ground (arith, take-contains x n t)

pub length-take : (n : ℕ) (t : Text) → n ≤ length t → length (take n t) ≡ n
unfolding take
length-take zero t h = refl
length-take (suc n) [] h = absurd (omega arith)
length-take (suc n) (c ∷ t) h = omega (arith, length-take n t)

-- A code point that the start tag does not contain: one that ends a tag, `>` left aside.
abbrev pub NotInTag : ℕ → Type 0
NotInTag x = contains x (codes "<think") ≡ false

take-think : (k : ℕ) → k < 6 → take (suc k) think_start ≡ take (suc k) (codes "<think")
unfolding take
take-think zero h = refl
take-think (suc zero) h = refl
take-think (suc (suc zero)) h = refl
take-think (suc (suc (suc zero))) h = refl
take-think (suc (suc (suc (suc zero)))) h = refl
take-think (suc (suc (suc (suc (suc zero))))) h = refl
take-think (suc (suc (suc (suc (suc (suc k)))))) h = absurd (omega arith)

pub partial_start_tag_len-le :
    (x : ℕ) (s u : Text) → NotInTag x → partial_start_tag_len (s ++ x ∷ u) ≤ length u
unfolding partial_start_tag_len
partial_start_tag_len-le x s u absent =
    let bound = partial_tag_len-le think_start (s ++ x ∷ u) 6 (length u) (λ k l e.
      let short = length-take (suc k) think_start (omega arith) in
      let without =
        subst (λ t. contains x t ≡ false) (sym (take-think k l))
          (take-contains x (suc k) (codes "<think") absent) in
      let fits = ends_with-after x s u (take (suc k) think_start) without e in omega arith) in
    let no_more = partial_tag_len-le thought (s ++ x ∷ u) 0 0 (λ k l e. absurd (omega arith)) in
    omega arith

pub partial_start_tag_len-ge :
    (t : Text) (k : ℕ)
    → k < 6
    → ends_with (take (suc k) think_start) t ≡ true
    → suc k ≤ partial_start_tag_len t
unfolding partial_start_tag_len
partial_start_tag_len-ge t k l e =
    let bound = partial_tag_len-ge think_start t 6 k l e in omega arith

partial_tag_len-ends :
    (tag t : Text) (n k : ℕ)
    → partial_tag_len tag t n ≡ suc k
    → (k < n) × (ends_with (take (suc k) tag) t ≡ true)
unfolding partial_tag_len
partial_tag_len-ends tag t zero k e = absurd (omega (arith, e))
partial_tag_len-ends tag t (suc n) k e =
    let fewer = partial_tag_len-le tag t n n (λ j l f. omega arith) in
    elim (Bool-cases (ends_with (take (suc n) tag) t)) [
      | inl b ↦
          let longest : max (partial_tag_len tag t n) (suc n) ≡ suc k = rw b at e in
          let same : n ≡ k = omega arith in
          (omega arith, subst (λ j. ends_with (take (suc j) tag) t ≡ true) same b)
      | inr b ↦ let (l, ends) = partial_tag_len-ends tag t n k (rw b at e) in (omega arith, ends)
    ]

-- The end of a text that may become a start tag is the start of `<think>`.
pub partial_start_tag_len-ends :
    (t : Text) (k : ℕ)
    → partial_start_tag_len t ≡ suc k
    → (k < 6) × (ends_with (take (suc k) think_start) t ≡ true)
unfolding partial_start_tag_len
partial_start_tag_len-ends t k e =
    let no_more = partial_tag_len-le thought t 0 0 (λ k l e. absurd (omega arith)) in
    partial_tag_len-ends think_start t 6 k (omega (arith, e, no_more))

-- A text of the right length that ends another one is its end.
pub ends_with-same : (e s t : Text) → length e ≡ length t → ends_with e (s ++ t) ≡ true → e ≡ t
unfolding ends_with drop
ends_with-same e s t l h =
    let start : length (s ++ t) - length e ≡ length s + 0 = omega (arith, length-append s t) in
    (same_text_iff e (drop (length (s ++ t) - length e) (s ++ t))).0 h
    ∙ ap (λ n. drop n (s ++ t)) start
    ∙ drop-past s t 0
