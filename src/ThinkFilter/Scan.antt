-- ===== src/ThinkFilter/Scan.antt =====
-- think_filter.py: one scan of the buffer shows what the reference shows.
use llm_plug.Common.{
  ℕ, zero, suc, ◌≤◌, ◌<◌, true, false, [], ◌∷◌, ◌++◌, ltb, ◌≡◌, refl, sym, ◌∙◌, ap, subst, arith,
  length, Option-cases, inl, inr,
}
use mathlib.Core.List.{append_assoc}
use llm_plug.Text.{Text, take, drop, take-drop}
use llm_plug.ThinkFilter.{
  hold_back, ThinkFilter, HasNoTag, emit, pending, scan, find_start_tag, find_end_tag,
  max_unclosed_think_buffer,
}
use llm_plug.ThinkFilter.Bounds.{
  find_end_tag-IsShorter, find_start_tag-IsWithin, drop-get_start_tag,
}
use llm_plug.ThinkFilter.HoldBack.{outside_of, IsTrapped, IsScanned, Held, hold_back-Held}
use llm_plug.ThinkFilter.Inside.{ClosedBy, find_end_tag-Closed}
use llm_plug.ThinkFilter.Outside.{find_start_tag-Opened}
use llm_plug.ThinkFilter.Visible.{Block, Mode, start_of, end_of, visible_from}

abbrev pub state_of : Mode → Text → ThinkFilter
state_of Mode.outside buffer = outside_of buffer
state_of (Mode.inside k) buffer = record {
  buffer = buffer;
  in_think = true;
  think_start_tag = start_of k;
}

-- What is retained would be seen as it stands, if the stream ended here.
abbrev pub Settled : Mode → Text → Type 0
Settled Mode.outside t = HasNoTag t
Settled (Mode.inside k) t = visible_from (Mode.inside k) 0 t ≡ []

-- The filter shows what the reference shows, however the text goes on.
pub record Shows (m : Mode) (t : Text) (r : ThinkFilter × Text) : Type 0 where
  pub mode : Mode
  pub retained : Text
  pub state : r.0 ≡ state_of mode retained
  pub settled : Settled mode retained
  pub before : Text
  pub whole : before ++ retained ≡ t
  pub seen :
      (rest : Text) → visible_from m 0 (t ++ rest) ≡ r.1 ++ visible_from mode 0 (retained ++ rest)

nothing-Shows : (m : Mode) (b : Text) → Shows m [] (record (state_of m b) { buffer = [] }, [])
unfolding visible_from find_start_tag
nothing-Shows Mode.outside b = record {
  mode = Mode.outside;
  retained = [];
  state = refl;
  settled = refl;
  before = [];
  whole = refl;
  seen = λ rest. refl;
}
nothing-Shows (Mode.inside k) b = record {
  mode = Mode.inside k;
  retained = [];
  state = refl;
  settled = refl;
  before = [];
  whole = refl;
  seen = λ rest. refl;
}

Held-Shows : (t : Text) (r : ThinkFilter × Text) → Held t r → Shows Mode.outside t r
Held-Shows t r h = record {
  mode = Mode.outside;
  retained = h.retained;
  state = h.state;
  settled = h.settled;
  before = h.before;
  whole = h.whole;
  seen = h.seen;
}

emit-Shows :
    (t u q : Text) (k : Block) (part : Text) (r : ThinkFilter × Text)
    → t ≡ q ++ u
    → ((rest : Text)
        → visible_from Mode.outside 0 (t ++ rest)
          ≡ part ++ visible_from (Mode.inside k) 0 (u ++ rest))
    → Shows (Mode.inside k) u r
    → Shows Mode.outside t (emit part r)
emit-Shows t u q k part (self, out) e opened s = record {
  mode = s.mode;
  retained = s.retained;
  state = s.state;
  settled = s.settled;
  before = q ++ s.before;
  whole = append_assoc q s.before s.retained ∙ ap (λ v. q ++ v) s.whole ∙ sym e;
  seen = λ rest.
      opened rest
      ∙ ap (λ v. part ++ v) (s.seen rest)
      ∙ sym (append_assoc part out (visible_from s.mode 0 (s.retained ++ rest)));
}

-- The end of a block that is within the cap.
open-Shows :
    (k : Block) (b t : Text)
    → visible_from (Mode.inside k) 0 t ≡ []
    → length t ≤ max_unclosed_think_buffer
    → Shows
        (Mode.inside k)
        t
        (record (state_of (Mode.inside k) b) { buffer = pending (start_of k) t }, [])
unfolding pending
open-Shows k b t e l =
    let within : ltb max_unclosed_think_buffer (length t) ≡ false = ground arith in
    rw within (record {
      mode = Mode.inside k;
      retained = t;
      state = refl;
      settled = e;
      before = [];
      whole = refl;
      seen = λ rest. refl;
    })

abbrev ScannedIn : Mode → Text → Type 0
ScannedIn Mode.outside s = IsScanned s
ScannedIn (Mode.inside k) s = Unit

-- Behind a block, what has been scanned ends in its end tag.
closed-buffer :
    (k : Block) (s t after b : Text) (c : ClosedBy k t after)
    → b ≡ s ++ t
    → b ≡ ((s ++ c.scanned) ++ end_of k) ++ after
closed-buffer k s t after b c e =
    e
    ∙ ap (λ u. s ++ u) c.whole
    ∙ sym (append_assoc s (c.scanned ++ end_of k) after)
    ∙ ap (λ u. u ++ after) (sym (append_assoc s c.scanned (end_of k)))

opened-buffer :
    (n : ℕ) (s t b : Text) (p : Text × Text)
    → p.0 ++ p.1 ≡ t
    → b ≡ s ++ t
    → b ≡ (s ++ (p.0 ++ take n p.1)) ++ drop n p.1
opened-buffer n s t b p e f =
    f
    ∙ ap (λ u. s ++ u)
        (sym e
          ∙ ap (λ u. p.0 ++ u) (sym (take-drop n p.1))
          ∙ sym (append_assoc p.0 (take n p.1) (drop n p.1)))
    ∙ sym (append_assoc s (p.0 ++ take n p.1) (drop n p.1))

in_block : ℕ → Text → Text × Text → Text → ThinkFilter × Text
in_block fuel b p g =
    scan fuel (record { buffer = b; in_think = true; think_start_tag = g }) (drop (length g) p.1)

pub scan-Shows :
    (fuel : ℕ) (m : Mode) (b s t : Text)
    → length t < fuel
    → length t ≤ max_unclosed_think_buffer
    → b ≡ s ++ t
    → ScannedIn m s
    → ¬ IsTrapped b
    → Shows m t (scan fuel (state_of m b) t)
unfolding scan in_block
scan-Shows zero m b s t l x e i c = absurd (omega arith)
scan-Shows (suc fuel) m b s [] l x e i c = nothing-Shows m b
scan-Shows (suc fuel) (Mode.inside k) b s (d ∷ t) l x e i c =
    let closed = find_end_tag-Closed k (d ∷ t) in
    elim (Option-cases (find_end_tag (start_of k) (d ∷ t))) [
      | inl absent ↦ rw (absent, scan) (open-Shows k b (d ∷ t) (rw absent at closed) x)
      | inr (after, found) ↦
          let by : ClosedBy k (d ∷ t) after = rw found at closed in
          let shorter = rw found at (find_end_tag-IsShorter (start_of k) d t) in
          let later =
            scan-Shows fuel Mode.outside b ((s ++ by.scanned) ++ end_of k) after (omega arith)
              (omega arith) (closed-buffer k s (d ∷ t) after b by e)
              (inr (s ++ by.scanned, k, refl)) c in
          rw (found, scan)
            (record {
              mode = later.mode;
              retained = later.retained;
              state = later.state;
              settled = later.settled;
              before = (by.scanned ++ end_of k) ++ later.before;
              whole =
                  append_assoc (by.scanned ++ end_of k) later.before later.retained
                  ∙ ap (λ v. (by.scanned ++ end_of k) ++ v) later.whole
                  ∙ sym by.whole;
              seen = λ rest. by.seen rest ∙ later.seen rest;
            })
    ]
scan-Shows (suc fuel) Mode.outside b s (d ∷ t) l x e i c =
    elim (Option-cases (find_start_tag (d ∷ t))) [
      | inl absent ↦
          let held = hold_back-Held s d t i absent (subst (λ u. ¬ IsTrapped u) e c) in
          rw (absent, scan)
            (subst (λ u. Shows Mode.outside (d ∷ t) (hold_back (outside_of u) (d ∷ t))) (sym e)
              (Held-Shows (d ∷ t) (hold_back (outside_of (s ++ d ∷ t)) (d ∷ t)) held))
      | inr (p, found) ↦
          let o = find_start_tag-Opened (d ∷ t) found in
          let n = length (start_of o.block) in
          let within = rw found at (find_start_tag-IsWithin (d ∷ t)) in
          let shorter =
            subst (λ g. length (drop (length g) p.1) ≤ length t) o.start_tag
              (drop-get_start_tag (length t) p.1 within) in
          let later =
            scan-Shows fuel (Mode.inside o.block) b (s ++ (p.0 ++ take n p.1)) (drop n p.1)
              (omega arith) (omega arith) (opened-buffer n s (d ∷ t) b p o.whole e) tt c in
          rw (found, scan)
            (subst (λ g. Shows Mode.outside (d ∷ t) (emit p.0 (in_block fuel b p g)))
              (sym o.start_tag)
              (emit-Shows (d ∷ t) (drop n p.1) (p.0 ++ take n p.1) o.block p.0
                (in_block fuel b p (start_of o.block))
                (opened-buffer n [] (d ∷ t) (d ∷ t) p o.whole refl) o.seen later))
    ]
