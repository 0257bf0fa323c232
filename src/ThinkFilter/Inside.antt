-- ===== src/ThinkFilter/Inside.antt =====
-- think_filter.py: the search for the end of a block, against the reference.
use llm_plug.Common.{
  ℕ, true, false, Option, none, some, [], ◌∷◌, ◌++◌, ◌≡◌, refl, sym, ◌∙◌, ap, arith, length,
  Bool-cases, inl, inr,
}
use mathlib.Core.List.{append_assoc}
use llm_plug.Text.{codes, Text, drop, starts_with, same_text, put_before, find, starts_with-append}
use llm_plug.ThinkFilter.{think_end, thought, after_tag, find_end_tag}
use llm_plug.ThinkFilter.Visible.{
  think, emoji, Block, Mode, start_of, end_of, tail_length, visible_from, visible_from-drop,
  starts_with-drop, find-starts_with, end_of-IsSolid,
}

-- Nothing is seen of a block without an end; behind its end the text is seen again.
Ended : Block → Text → Option (Text × Text) → Type 0
Ended k t none = visible_from (Mode.inside k) 0 t ≡ []
Ended k t (some p) =
    (rest : Text)
    → visible_from (Mode.inside k) 0 (t ++ rest)
      ≡ visible_from Mode.outside 0 (drop (length (end_of k)) p.1 ++ rest)

put_before-Ended :
    (k : Block) (c : ℕ) (t : Text) (o : Option (Text × Text))
    → starts_with (end_of k) (c ∷ t) ≡ false
    → find (end_of k) (c ∷ t) ≡ put_before c o
    → Ended k t o
    → Ended k (c ∷ t) (put_before c o)
unfolding Ended put_before visible_from
put_before-Ended k c t none f e h = rw f h
put_before-Ended k c t (some p) f e h =
    λ rest. rw (find-starts_with (end_of k) (c ∷ t) rest (end_of-IsSolid k) f e) (h rest)

drop-end_of :
    (k : Block) (c : ℕ) (t : Text)
    → drop (tail_length (end_of k)) t ≡ drop (length (end_of k)) (c ∷ t)
unfolding drop
drop-end_of Block.think c t = refl
drop-end_of Block.emoji c t = refl

visible_from-end :
    (k : Block) (c : ℕ) (t rest : Text)
    → starts_with (end_of k) (c ∷ t) ≡ true
    → visible_from (Mode.inside k) 0 (c ∷ t ++ rest)
      ≡ visible_from Mode.outside 0 (drop (length (end_of k)) (c ∷ t) ++ rest)
unfolding visible_from
visible_from-end k c t rest b = rw (starts_with-append (end_of k) (c ∷ t) rest b) (
    visible_from-drop Mode.outside (tail_length (end_of k)) (t ++ rest)
    ∙ ap (visible_from Mode.outside 0)
        (drop-end_of k c (t ++ rest) ∙ starts_with-drop (end_of k) (c ∷ t) rest b))

find-Ended : (k : Block) (t : Text) → Ended k t (find (end_of k) t)
unfolding find Ended visible_from
find-Ended k [] = refl
find-Ended k (c ∷ t) = elim (Bool-cases (starts_with (end_of k) (c ∷ t))) [
  | inl b ↦ rw b (λ rest. visible_from-end k c t rest b)
  | inr b ↦ rw b (put_before-Ended k c t (find (end_of k) t) b (rw b refl) (find-Ended k t))
]

-- A found tag starts the text behind what precedes it.
FoundIn : Text → Text → Option (Text × Text) → Type 0
FoundIn tag t none = Unit
FoundIn tag t (some p) = (starts_with tag p.1 ≡ true) × (p.0 ++ p.1 ≡ t)

put_before-FoundIn :
    (tag t : Text) (c : ℕ) (o : Option (Text × Text))
    → FoundIn tag t o
    → FoundIn tag (c ∷ t) (put_before c o)
unfolding FoundIn put_before
put_before-FoundIn tag t c none h = tt
put_before-FoundIn tag t c (some p) h = (h.0, ap (λ u. c ∷ u) h.1)

find-FoundIn : (tag t : Text) → FoundIn tag t (find tag t)
unfolding find FoundIn
find-FoundIn tag [] = tt
find-FoundIn tag (c ∷ t) = elim (Bool-cases (starts_with tag (c ∷ t))) [
  | inl b ↦ rw b (b, refl)
  | inr b ↦ rw b (put_before-FoundIn tag t c (find tag t) (find-FoundIn tag t))
]

append-drop : (tag t : Text) → starts_with tag t ≡ true → t ≡ tag ++ drop (length tag) t
unfolding starts_with drop
append-drop [] t h = refl
append-drop (c ∷ tag) [] h = cc
append-drop (c ∷ tag) (d ∷ t) h =
    let same : c ≡ d = ground arith in let later = append-drop tag t (ground arith) in cc

-- The last code point of an end tag, and what precedes it.
abbrev pub last_of : Block → ℕ
last_of think = 62
last_of emoji = 128173

abbrev pub init_of : Block → Text
init_of think = codes "</think"
init_of emoji = []

pub end_of-last : (k : Block) → end_of k ≡ init_of k ++ last_of k ∷ []
end_of-last Block.think = refl
end_of-last Block.emoji = refl

-- The same of the code's search: the text that follows the end tag.
pub record ClosedBy (k : Block) (t after : Text) : Type 0 where
  pub scanned : Text
  pub whole : t ≡ (scanned ++ end_of k) ++ after
  pub seen :
      (rest : Text)
      → visible_from (Mode.inside k) 0 (t ++ rest) ≡ visible_from Mode.outside 0 (after ++ rest)

abbrev pub Closed : Block → Text → Option Text → Type 0
Closed k t none = visible_from (Mode.inside k) 0 t ≡ []
Closed k t (some after) = ClosedBy k t after

closed_whole :
    (k : Block) (t : Text) (p : Text × Text)
    → starts_with (end_of k) p.1 ≡ true
    → p.0 ++ p.1 ≡ t
    → t ≡ (p.0 ++ end_of k) ++ drop (length (end_of k)) p.1
closed_whole k t p b e =
    sym e
    ∙ ap (λ u. p.0 ++ u) (append-drop (end_of k) p.1 b)
    ∙ sym (append_assoc p.0 (end_of k) (drop (length (end_of k)) p.1))

after_tag-Closed :
    (k : Block) (t : Text) (o : Option (Text × Text))
    → FoundIn (end_of k) t o
    → Ended k t o
    → Closed k t (after_tag (length (end_of k)) o)
unfolding Ended after_tag FoundIn
after_tag-Closed k t none w h = h
after_tag-Closed k t (some p) w h = record {
  scanned = p.0;
  whole = closed_whole k t p w.0 w.1;
  seen = h;
}

pub find_end_tag-Closed : (k : Block) (t : Text) → Closed k t (find_end_tag (start_of k) t)
unfolding find_end_tag same_text
find_end_tag-Closed Block.think t =
    after_tag-Closed Block.think t (find think_end t) (find-FoundIn think_end t)
      (find-Ended Block.think t)
find_end_tag-Closed Block.emoji t =
    after_tag-Closed Block.emoji t (find thought t) (find-FoundIn thought t)
      (find-Ended Block.emoji t)
