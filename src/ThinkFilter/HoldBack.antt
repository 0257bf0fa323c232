-- ===== src/ThinkFilter/HoldBack.antt =====
-- think_filter.py: what is held back at the end of a chunk, because it may become a start tag.
use llm_plug.Common.{
  suc, ◌≤◌, ltb→lt, ℕ, ◌+◌, ◌-◌, ◌<◌, true, false, [], ◌∷◌, ◌++◌, ltb, ◌≡◌, refl, sym, ◌∙◌, ap,
  subst, arith, length, length-append, Bool-cases, inl, inr, ◌⊎◌,
}
use mathlib.Core.List.{append_assoc}
use llm_plug.Text.{Text, take, drop, starts_with, same_text_iff, ends_with, take-drop}
use llm_plug.ThinkFilter.{ThinkFilter, think_start, partial_start_tag_len, HasNoTag, hold_back}
use llm_plug.ThinkFilter.Bounds.{length-drop}
use llm_plug.ThinkFilter.Find.{HasNoTag-after, HasNoTag-starts_with}
use llm_plug.ThinkFilter.Partial.{
  ends_with-same, length-take, partial_start_tag_len-ends, NotInTag, drop-past,
  partial_start_tag_len-le, partial_start_tag_len-ge,
}
use llm_plug.ThinkFilter.Inside.{last_of, init_of, end_of-last}
use llm_plug.ThinkFilter.Visible.{Block, end_of, Mode, visible_from, starts_with-prefix}

pub ends_with_self : (s t : Text) → ends_with t (s ++ t) ≡ true
unfolding ends_with drop
ends_with_self s t =
    let start : length (s ++ t) - length t ≡ length s + 0 = omega (arith, length-append s t) in
    (same_text_iff t (drop (length (s ++ t) - length t) (s ++ t))).1
      (sym (ap (λ n. drop n (s ++ t)) start ∙ drop-past s t 0))

-- No tag starts before what is held back, however the text goes on.
before_held :
    (s : Text) (c : ℕ) (t rest : Text)
    → HasNoTag (c ∷ t)
    → partial_start_tag_len (s ++ c ∷ t) < length (c ∷ t)
    → starts_with think_start (c ∷ t ++ rest) ≡ false
before_held s c t rest h l = elim (Bool-cases (starts_with think_start (c ∷ t ++ rest))) [
  | inr b ↦ b
  | inl b ↦
      let (same, short) =
        starts_with-prefix think_start (c ∷ t) rest (HasNoTag-starts_with c t h).0 b in
      let held =
        partial_start_tag_len-ge (s ++ c ∷ t) (length t) (omega arith)
          (subst (λ u. ends_with u (s ++ c ∷ t) ≡ true) same (ends_with_self s (c ∷ t))) in
      absurd (omega arith)
]

visible_from-held :
    (s out held rest : Text)
    → HasNoTag (out ++ held)
    → partial_start_tag_len (s ++ (out ++ held)) ≡ length held
    → visible_from Mode.outside 0 ((out ++ held) ++ rest)
      ≡ out ++ visible_from Mode.outside 0 (held ++ rest)
unfolding visible_from
visible_from-held s [] held rest h e = refl
visible_from-held s (c ∷ out) held rest h e =
    let later : partial_start_tag_len ((s ++ c ∷ []) ++ (out ++ held)) ≡ length held =
      ap partial_start_tag_len (append_assoc s (c ∷ []) (out ++ held)) ∙ e in
    let longer = length-append out held in
    let unlike = before_held s c (out ++ held) rest h (omega arith) in
    let other = (HasNoTag-starts_with c (out ++ held) h).1 in
    rw (unlike, other)
      (ap (λ u. c ∷ u)
        (visible_from-held (s ++ c ∷ []) out held rest (HasNoTag-after (c ∷ []) (out ++ held) h)
          later))

abbrev pub outside_of : Text → ThinkFilter
outside_of buffer = record { buffer = buffer; in_think = false; think_start_tag = [] }

-- The text ends in the end tag of a block, directly followed by a part of a start tag.
pub record IsTrapped (t : Text) : Type 0 where
  pub before : Text
  pub block : Block
  pub count : ℕ
  pub is_part : count < 6
  pub whole : t ≡ before ++ (end_of block ++ take (suc count) think_start)

-- What has been scanned of the buffer is nothing, or ends in an end tag.
abbrev pub IsScanned : Text → Type 0
IsScanned s = (s ≡ []) ⊎ ((u : Text) × (k : Block) × (s ≡ u ++ end_of k))

last_of-NotInTag : (k : Block) → NotInTag (last_of k)
last_of-NotInTag Block.think = refl
last_of-NotInTag Block.emoji = refl

pub record Held (t : Text) (r : ThinkFilter × Text) : Type 0 where
  pub retained : Text
  pub state : r.0 ≡ outside_of retained
  pub settled : HasNoTag retained
  pub before : Text
  pub whole : before ++ retained ≡ t
  pub seen :
      (rest : Text)
      → visible_from Mode.outside 0 (t ++ rest)
        ≡ r.1 ++ visible_from Mode.outside 0 (retained ++ rest)

-- Behind an end tag, a text that could all become a start tag is a part of one.
behind_end_tag :
    (u : Text) (k : Block) (d : ℕ) (t : Text)
    → length (d ∷ t) ≤ partial_start_tag_len ((u ++ end_of k) ++ d ∷ t)
    → IsTrapped ((u ++ end_of k) ++ d ∷ t)
behind_end_tag u k d t l =
    let last : (u ++ end_of k) ++ d ∷ t ≡ (u ++ init_of k) ++ last_of k ∷ d ∷ t =
      ap (λ v. v ++ d ∷ t)
        (ap (λ v. u ++ v) (end_of-last k) ∙ sym (append_assoc u (init_of k) (last_of k ∷ [])))
      ∙ append_assoc (u ++ init_of k) (last_of k ∷ []) (d ∷ t) in
    let few = partial_start_tag_len-le (last_of k) (u ++ init_of k) (d ∷ t) (last_of-NotInTag k) in
    let all : partial_start_tag_len ((u ++ end_of k) ++ d ∷ t) ≡ suc (length t) =
      omega (arith, l, few, ap partial_start_tag_len last) in
    let (short, ends) = partial_start_tag_len-ends ((u ++ end_of k) ++ d ∷ t) (length t) all in
    let part = take (suc (length t)) think_start in
    let same : part ≡ d ∷ t =
      ends_with-same part (u ++ end_of k) (d ∷ t)
        (length-take (suc (length t)) think_start (omega arith)) ends in
    record {
      before = u;
      block = k;
      count = length t;
      is_part = short;
      whole = append_assoc u (end_of k) (d ∷ t) ∙ ap (λ v. u ++ (end_of k ++ v)) (sym same);
    }

kept-Held :
    (s : Text) (d : ℕ) (t : Text)
    → IsScanned s
    → HasNoTag (d ∷ t)
    → length (d ∷ t) ≤ partial_start_tag_len (s ++ d ∷ t)
    → ¬ IsTrapped (s ++ d ∷ t)
    → Held (d ∷ t) (outside_of (s ++ d ∷ t), [])
kept-Held s d t (inl e) h l c = record {
  retained = d ∷ t;
  state = ap (λ u. outside_of (u ++ d ∷ t)) e;
  settled = h;
  before = [];
  whole = refl;
  seen = λ rest. refl;
}
kept-Held s d t (inr (u, k, e)) h l c = absurd (
    c (
      subst (λ v. IsTrapped (v ++ d ∷ t)) (sym e)
        (behind_end_tag u k d t
          (subst (λ v. length (d ∷ t) ≤ partial_start_tag_len (v ++ d ∷ t)) e l))))

-- The part of the text that is emitted, and the rest.
cut-Held :
    (s t : Text) (n : ℕ)
    → HasNoTag t
    → partial_start_tag_len (s ++ t) ≡ length t - n
    → Held t (outside_of (drop n t), take n t)
cut-Held s t n h e =
    let whole = take-drop n t in
    record {
      retained = drop n t;
      state = refl;
      settled = HasNoTag-after (take n t) (drop n t) (subst HasNoTag (sym whole) h);
      before = take n t;
      whole = whole;
      seen = λ rest.
          ap (λ u. visible_from Mode.outside 0 (u ++ rest)) (sym whole)
          ∙ visible_from-held s (take n t) (drop n t) rest (subst HasNoTag (sym whole) h)
              (ap (λ u. partial_start_tag_len (s ++ u)) whole ∙ e ∙ sym (length-drop n t));
    }

pub hold_back-Held :
    (s : Text) (d : ℕ) (u : Text)
    → IsScanned s
    → HasNoTag (d ∷ u)
    → ¬ IsTrapped (s ++ d ∷ u)
    → Held (d ∷ u) (hold_back (outside_of (s ++ d ∷ u)) (d ∷ u))
unfolding hold_back
hold_back-Held s d u a h c =
    let t = d ∷ u in
    let safe_len = length (s ++ t) - partial_start_tag_len (s ++ t) in
    let i = length (s ++ t) - length t in
    let whole = length-append s t in
    elim (Bool-cases (ltb i safe_len)) [
      | inl b ↦
          let n = safe_len - i in
          let less = ltb→lt i safe_len b in
          let far : safe_len ≡ length s + n = omega arith in
          let same : drop safe_len (s ++ t) ≡ drop n t =
            ap (λ m. drop m (s ++ t)) far ∙ drop-past s t n in
          let left : partial_start_tag_len (s ++ t) ≡ length t - n = omega arith in
          rw b (subst (λ u. Held t (outside_of u, take n t)) (sym same) (cut-Held s t n h left))
      | inr b ↦
          let few : length t ≤ partial_start_tag_len (s ++ t) = ground arith in
          rw b (kept-Held s d u a h few c)
    ]
