-- ===== src/ThinkFilter/Cuts.antt =====
-- think_filter.py: a test for the ends of chunks that the streaming filter cannot take.
use llm_plug.Common.{
  ℕ, zero, suc, ◌<◌, Bool, true, false, ◌||◌, ◌++◌, ◌≡◌, sym, subst, arith, ltb, Bool-cases, inl,
  inr,
}
use llm_plug.Text.{Text, take, ends_with}
use llm_plug.ThinkFilter.{think_start}
use llm_plug.ThinkFilter.HoldBack.{IsTrapped, ends_with_self}
use llm_plug.ThinkFilter.Visible.{Block, end_of}

abbrev trap : Block → ℕ → Text
trap k n = end_of k ++ take (suc n) think_start

-- The text ends in an end tag and `n` code points of a start tag, or fewer.
unfoldable pub is_trapped : ℕ → Text → Bool
unfolding ends_with take
is_trapped zero t = false
is_trapped (suc n) t =
    ends_with (trap Block.think n) t || ends_with (trap Block.emoji n) t || is_trapped n t

is_trapped_here :
    (n : ℕ) (k : Block) (t : Text) → ends_with (trap k n) t ≡ true → is_trapped (suc n) t ≡ true
unfolding is_trapped
is_trapped_here n Block.think t e = ground arith
is_trapped_here n Block.emoji t e = ground arith

is_trapped_later : (n : ℕ) (t : Text) → is_trapped n t ≡ true → is_trapped (suc n) t ≡ true
unfolding is_trapped
is_trapped_later n t e = ground arith

ends-is_trapped :
    (n count : ℕ) (k : Block) (t : Text)
    → count < n
    → ends_with (trap k count) t ≡ true
    → is_trapped n t ≡ true
ends-is_trapped zero count k t l e = absurd (omega arith)
ends-is_trapped (suc n) count k t l e = elim (Bool-cases (ltb count n)) [
  | inl b ↦ is_trapped_later n t (ends-is_trapped n count k t (ground arith) e)
  | inr b ↦
      let same : count ≡ n = ground arith in
      is_trapped_here n k t (subst (λ m. ends_with (trap k m) t ≡ true) same e)
]

pub is_trapped-IsTrapped : (t : Text) → is_trapped 6 t ≡ false → ¬ IsTrapped t
is_trapped-IsTrapped t f h =
    let ends : ends_with (trap h.block h.count) t ≡ true =
      subst (λ u. ends_with (trap h.block h.count) u ≡ true) (sym h.whole)
        (ends_with_self h.before (trap h.block h.count)) in
    let yes = ends-is_trapped 6 h.count h.block t h.is_part ends in cc
