-- ===== src/ThinkFilter/Visible.antt =====
-- think_filter.py: a reference definition of the filter on a whole text, character by character.
use llm_plug.Common.{
  ℕ, zero, suc, ◌<◌, true, false, none, some, [], ◌∷◌, ◌++◌, nat_eq, if◌then◌else◌, ◌≡◌, refl,
  arith, length, Bool-cases, inl, inr,
}
use llm_plug.Text.{Text, take, drop, starts_with, find}
use llm_plug.ThinkFilter.{think_start, think_end, thought}

pub data Block : Type 0 where
  think emoji : Block

abbrev pub start_of : Block → Text
start_of think = think_start
start_of emoji = thought

abbrev pub end_of : Block → Text
end_of think = think_end
end_of emoji = thought

pub data Mode : Type 0 where
  outside : Mode
  inside : Block → Mode

-- The number of code points after the first one.
abbrev pub tail_length : Text → ℕ
tail_length [] = 0
tail_length (c ∷ t) = length t

-- What is to be seen of a text, after `skip` code points that belong to a tag. A block without an
-- end reaches to the end of the text.
unfoldable pub visible_from : Mode → (skip : ℕ) → Text → Text
unfolding starts_with
visible_from m skip [] = []
visible_from m (suc skip) (c ∷ t) = visible_from m skip t
visible_from outside zero (c ∷ t) =
    if starts_with think_start (c ∷ t)
    then visible_from (inside think) (tail_length think_start) t
    else if starts_with thought (c ∷ t)
    then visible_from (inside emoji) (tail_length thought) t
    else c ∷ visible_from outside 0 t
visible_from (inside k) zero (c ∷ t) =
    if starts_with (end_of k) (c ∷ t)
    then visible_from outside (tail_length (end_of k)) t
    else visible_from (inside k) 0 t

unfoldable pub visible : Text → Text
unfolding visible_from
visible t = visible_from outside 0 t

pub visible_from-drop :
    (m : Mode) (skip : ℕ) (t : Text) → visible_from m skip t ≡ visible_from m 0 (drop skip t)
unfolding visible_from drop
visible_from-drop m zero t = refl
visible_from-drop m (suc skip) [] = refl
visible_from-drop m (suc skip) (c ∷ t) = visible_from-drop m skip t

-- A text that a tag starts with only once the text goes on is a proper prefix of the tag.
pub starts_with-prefix :
    (tag t rest : Text)
    → starts_with tag t ≡ false
    → starts_with tag (t ++ rest) ≡ true
    → (t ≡ take (length t) tag) × (length t < length tag)
unfolding starts_with take
starts_with-prefix [] t rest f h = cc
starts_with-prefix (c ∷ tag) [] rest f h = (refl, omega arith)
starts_with-prefix (c ∷ tag) (d ∷ t) rest f h =
    let same : c ≡ d = ground arith in
    let (e, l) = starts_with-prefix tag t rest (ground arith) (ground arith) in (cc, omega arith)

pub starts_with-drop :
    (tag t rest : Text)
    → starts_with tag t ≡ true
    → drop (length tag) (t ++ rest) ≡ drop (length tag) t ++ rest
unfolding starts_with drop
starts_with-drop [] t rest h = refl
starts_with-drop (c ∷ tag) [] rest h = cc
starts_with-drop (c ∷ tag) (d ∷ t) rest h = starts_with-drop tag t rest (ground arith)

-- A tag that does not occur in its proper prefixes.
abbrev pub IsSolid : Text → Type 0
IsSolid tag = (k : ℕ) → k < length tag → find tag (take k tag) ≡ none

pub think_start-IsSolid : IsSolid think_start
unfolding find take
think_start-IsSolid zero h = refl
think_start-IsSolid (suc zero) h = refl
think_start-IsSolid (suc (suc zero)) h = refl
think_start-IsSolid (suc (suc (suc zero))) h = refl
think_start-IsSolid (suc (suc (suc (suc zero)))) h = refl
think_start-IsSolid (suc (suc (suc (suc (suc zero))))) h = refl
think_start-IsSolid (suc (suc (suc (suc (suc (suc zero)))))) h = refl
think_start-IsSolid (suc (suc (suc (suc (suc (suc (suc k))))))) h = absurd (omega arith)

pub think_end-IsSolid : IsSolid think_end
unfolding find take
think_end-IsSolid zero h = refl
think_end-IsSolid (suc zero) h = refl
think_end-IsSolid (suc (suc zero)) h = refl
think_end-IsSolid (suc (suc (suc zero))) h = refl
think_end-IsSolid (suc (suc (suc (suc zero)))) h = refl
think_end-IsSolid (suc (suc (suc (suc (suc zero))))) h = refl
think_end-IsSolid (suc (suc (suc (suc (suc (suc zero)))))) h = refl
think_end-IsSolid (suc (suc (suc (suc (suc (suc (suc zero))))))) h = refl
think_end-IsSolid (suc (suc (suc (suc (suc (suc (suc (suc k)))))))) h = absurd (omega arith)

pub thought-IsSolid : IsSolid thought
unfolding find take
thought-IsSolid zero h = refl
thought-IsSolid (suc k) h = absurd (omega arith)

-- Where a solid tag occurs later, it does not start here, however the text goes on.
pub find-starts_with :
    (tag t rest : Text) {p : Text × Text}
    → IsSolid tag
    → starts_with tag t ≡ false
    → find tag t ≡ some p
    → starts_with tag (t ++ rest) ≡ false
find-starts_with tag t rest s f e = elim (Bool-cases (starts_with tag (t ++ rest))) [
  | inr b ↦ b
  | inl b ↦
      let (same, short) = starts_with-prefix tag t rest f b in let absent = s (length t) short in cc
]

pub end_of-IsSolid : (k : Block) → IsSolid (end_of k)
end_of-IsSolid think = think_end-IsSolid
end_of-IsSolid emoji = thought-IsSolid
