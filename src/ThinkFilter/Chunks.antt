-- ===== src/ThinkFilter/Chunks.antt =====
-- think_filter.py: a filtered stream shows what the reference shows of the whole text.
use llm_plug.Common.{
  suc, ◌≤◌, List, [], ◌∷◌, ◌++◌, ◌≡◌, refl, sym, ◌∙◌, ap, subst, arith, length, length-append, inl,
}
use mathlib.Core.List.{append_assoc}
use llm_plug.Text.{Text, take, append_nil}
use llm_plug.ThinkFilter.Find.{HasNoTag-after, HasNoTag-starts_with}
use llm_plug.ThinkFilter.{
  think_start, new_filter, HasNoTag, feed, flush, filter_stream, find_start_tag,
  max_unclosed_think_buffer,
}
use llm_plug.ThinkFilter.HoldBack.{IsTrapped}
use llm_plug.ThinkFilter.Pass.{concat}
use llm_plug.ThinkFilter.Visible.{end_of, Mode, visible, visible_from}
use llm_plug.ThinkFilter.Scan.{state_of, Settled, Shows, scan-Shows}

feed-Shows :
    (m : Mode) (t chunk : Text)
    → Settled m t
    → length (t ++ chunk) ≤ max_unclosed_think_buffer
    → ¬ IsTrapped (t ++ chunk)
    → Shows m (t ++ chunk) (feed (state_of m t) chunk)
unfolding feed
feed-Shows m t [] h l c = record {
  mode = m;
  retained = t;
  state = refl;
  settled = h;
  before = [];
  whole = sym (append_nil t);
  seen = λ rest. ap (λ u. visible_from m 0 (u ++ rest)) (append_nil t);
}
feed-Shows Mode.outside t (d ∷ chunk) h l c =
    scan-Shows (suc (length (t ++ d ∷ chunk))) Mode.outside (t ++ d ∷ chunk) [] (t ++ d ∷ chunk)
      (omega arith) l refl (inl refl) c
feed-Shows (Mode.inside k) t (d ∷ chunk) h l c =
    scan-Shows (suc (length (t ++ d ∷ chunk))) (Mode.inside k) (t ++ d ∷ chunk) [] (t ++ d ∷ chunk)
      (omega arith) l refl tt c

-- No chunk ends between an end tag and the rest of a start tag that follows it directly; `seen` is
-- what precedes the chunks.
abbrev pub CutsWell : (seen : Text) → List Text → Type 0
CutsWell seen [] = Unit
CutsWell seen (chunk ∷ chunks) = (¬ IsTrapped (seen ++ chunk)) × CutsWell (seen ++ chunk) chunks

IsTrapped-after : (s t : Text) → IsTrapped t → IsTrapped (s ++ t)
IsTrapped-after s t h = record {
  before = s ++ h.before;
  block = h.block;
  count = h.count;
  is_part = h.is_part;
  whole =
      ap (λ u. s ++ u) h.whole
      ∙ sym (append_assoc s h.before (end_of h.block ++ take (suc h.count) think_start));
}

HasNoTag-visible : (t : Text) → HasNoTag t → visible_from Mode.outside 0 t ≡ t
unfolding visible_from
HasNoTag-visible [] h = refl
HasNoTag-visible (c ∷ t) h =
    let (a, b) = HasNoTag-starts_with c t h in
    rw (a, b) (ap (λ u. c ∷ u) (HasNoTag-visible t (HasNoTag-after (c ∷ []) t h)))

flush-visible : (m : Mode) (t : Text) → Settled m t → (flush (state_of m t)).1 ≡ visible_from m 0 t
unfolding flush
flush-visible Mode.outside t h = sym (HasNoTag-visible t h)
flush-visible (Mode.inside k) t h = sym h

-- The buffer `t` is the end of what has come.
filter_stream-visible_from :
    (m : Mode) (t q : Text) (chunks : List Text)
    → Settled m t
    → length ((q ++ t) ++ concat chunks) ≤ max_unclosed_think_buffer
    → CutsWell (q ++ t) chunks
    → filter_stream (state_of m t) chunks ≡ visible_from m 0 (t ++ concat chunks)
unfolding filter_stream
filter_stream-visible_from m t q [] h l c =
    flush-visible m t h ∙ ap (visible_from m 0) (sym (append_nil t))
filter_stream-visible_from m t q (chunk ∷ chunks) h l c =
    let within : length (t ++ chunk) ≤ max_unclosed_think_buffer = omega (
      arith,
      l,
      length-append (q ++ t) (chunk ++ concat chunks),
      length-append q t,
      length-append chunk (concat chunks),
      length-append t chunk,
    ) in
    let whole : (q ++ t) ++ chunk ≡ q ++ (t ++ chunk) = append_assoc q t chunk in
    let s =
      feed-Shows m t chunk h within
        (λ trapped. c.0 (subst IsTrapped (sym whole) (IsTrapped-after q (t ++ chunk) trapped))) in
    let r = feed (state_of m t) chunk in
    let come : (q ++ t) ++ chunk ≡ (q ++ s.before) ++ s.retained =
      whole ∙ ap (λ u. q ++ u) (sym s.whole) ∙ sym (append_assoc q s.before s.retained) in
    let later =
      filter_stream-visible_from s.mode s.retained (q ++ s.before) chunks s.settled
        (subst (λ u. length (u ++ concat chunks) ≤ max_unclosed_think_buffer) come
          (subst (λ u. length u ≤ max_unclosed_think_buffer)
            (sym (append_assoc (q ++ t) chunk (concat chunks))) l))
        (subst (λ u. CutsWell u chunks) come c.1) in
    ap (λ self. r.1 ++ filter_stream self chunks) s.state
    ∙ ap (λ u. r.1 ++ u) later
    ∙ sym (s.seen (concat chunks))
    ∙ ap (visible_from m 0) (append_assoc t chunk (concat chunks))

-- Where the chunks have at most 1024 * 1024 code points together and none of them ends in an end tag
-- that is directly followed by a part of `<think>`, a filtered stream is its whole text less the
-- blocks: what the reference shows of the chunks joined.
pub filter_stream-visible :
    (chunks : List Text)
    → length (concat chunks) ≤ max_unclosed_think_buffer
    → CutsWell [] chunks
    → filter_stream new_filter chunks ≡ visible (concat chunks)
unfolding visible find_start_tag
filter_stream-visible chunks l c = filter_stream-visible_from Mode.outside [] [] chunks refl l c
