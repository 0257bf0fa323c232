-- ===== src/ThinkFilter/Pass.antt =====
-- think_filter.py: a text without a start tag, however it is cut into chunks.
use llm_plug.Text.{Text, append_nil, drop, take-drop}
use llm_plug.Common.{
  ℕ, suc, ◌-◌, false, List, [], ◌∷◌, ◌++◌, nat_eq, ◌≡◌, refl, sym, subst, ap, ◌∙◌, arith, length,
  ltb, Bool-cases, inl, inr,
}
use llm_plug.ThinkFilter.{
  ThinkFilter, HasNoTag, partial_start_tag_len, hold_back, scan, feed, flush, filter_stream,
}
use mathlib.Core.List.{append_assoc}
use llm_plug.ThinkFilter.Find.{HasNoTag-after, HasNoTag-before}

-- The filter outside a block.
abbrev pub outside : Text → Text → ThinkFilter
outside tag buffer = record { buffer = buffer; in_think = false; think_start_tag = tag }

-- What is emitted and what is retained are together the text.
record Parts (tag t : Text) (r : ThinkFilter × Text) : Type 0 where
  retained : Text
  state : r.0 ≡ outside tag retained
  joined : r.1 ++ retained ≡ t

hold_back-Parts : (tag t : Text) → Parts tag t (hold_back (outside tag t) t)
unfolding hold_back
hold_back-Parts tag t =
    let safe_len = length t - partial_start_tag_len t in
    let nothing : length t - length t ≡ 0 = omega arith in
    let all : safe_len - 0 ≡ safe_len = omega arith in
    elim (Bool-cases (ltb 0 safe_len)) [
      | inl b ↦
          rw (nothing, b, all)
            (record { retained = drop safe_len t; state = refl; joined = take-drop safe_len t })
      | inr b ↦ rw (nothing, b) (record { retained = t; state = refl; joined = refl })
    ]

scan-Parts :
    (fuel : ℕ) (tag t : Text) → HasNoTag t → Parts tag t (scan (suc fuel) (outside tag t) t)
unfolding scan
scan-Parts fuel tag [] h = record { retained = []; state = refl; joined = refl }
scan-Parts fuel tag (c ∷ t) h = rw (h, scan) (hold_back-Parts tag (c ∷ t))

feed-Parts :
    (tag t chunk : Text)
    → HasNoTag (t ++ chunk)
    → Parts tag (t ++ chunk) (feed (outside tag t) chunk)
unfolding feed
feed-Parts tag t [] h = record { retained = t; state = refl; joined = sym (append_nil t) }
feed-Parts tag t (c ∷ chunk) h = scan-Parts (length (t ++ c ∷ chunk)) tag (t ++ c ∷ chunk) h

abbrev pub concat : List Text → Text
concat [] = []
concat (chunk ∷ chunks) = chunk ++ concat chunks

-- A stream whose text, together with what the filter retains, has no start tag passes unchanged
-- and whole, however it is cut into chunks.
pub filter_stream-passes :
    (tag t : Text) (chunks : List Text)
    → HasNoTag (t ++ concat chunks)
    → filter_stream (outside tag t) chunks ≡ t ++ concat chunks
unfolding filter_stream flush
filter_stream-passes tag t [] h = sym (append_nil t)
filter_stream-passes tag t (chunk ∷ chunks) h =
    let whole = append_assoc t chunk (concat chunks) in
    let none_before = HasNoTag-before (t ++ chunk) (concat chunks) (subst HasNoTag (sym whole) h) in
    let parts = feed-Parts tag t chunk none_before in
    let out = (feed (outside tag t) chunk).1 in
    let split : out ++ (parts.retained ++ concat chunks) ≡ t ++ (chunk ++ concat chunks) =
      sym (append_assoc out parts.retained (concat chunks))
      ∙ ap (λ u. u ++ concat chunks) parts.joined
      ∙ whole in
    let rest =
      filter_stream-passes tag parts.retained chunks
        (HasNoTag-after out (parts.retained ++ concat chunks) (subst HasNoTag (sym split) h)) in
    rw (parts.state, rest) split
