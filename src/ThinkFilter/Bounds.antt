-- ===== src/ThinkFilter/Bounds.antt =====
-- think_filter.py: how much of a block without an end is retained, and that the loop ends.
use llm_plug.Text.{Text, drop, find, put_before, same_text, starts_with, take}
use llm_plug.Common.{
  ℕ, zero, suc, ◌-◌, ◌≤◌, ◌<◌, true, false, Option, none, some, [], ◌∷◌, ◌++◌, nat_eq, ◌≡◌, arith,
  length, ltb, Bool-cases, Option-cases, inl, inr, if_both,
}
use llm_plug.ThinkFilter.{
  ThinkFilter, nearer, find_start_tag, find_end_tag, after_tag, get_start_tag, think_start,
  think_end, thought, pending, hold_back, scan, feed, emit, max_unclosed_think_buffer,
}

pub length-drop : (n : ℕ) (t : Text) → length (drop n t) ≡ length t - n
unfolding drop
length-drop zero t = omega arith
length-drop (suc n) [] = omega arith
length-drop (suc n) (c ∷ t) = omega (arith, length-drop n t)

-- A found text is no longer than the text it was found in.
abbrev pub IsWithin : ℕ → Option (Text × Text) → Type 0
IsWithin n none = Unit
IsWithin n (some p) = length p.1 ≤ n

put_before-IsWithin :
    (n c : ℕ) (o : Option (Text × Text)) → IsWithin n o → IsWithin (suc n) (put_before c o)
unfolding put_before
put_before-IsWithin n c none h = tt
put_before-IsWithin n c (some p) h = omega arith

find-IsWithin : (tag t : Text) → IsWithin (length t) (find tag t)
unfolding find
find-IsWithin tag [] = tt
find-IsWithin tag (c ∷ t) =
    if_both (IsWithin (suc (length t))) (starts_with tag (c ∷ t)) {x = some ([], c ∷ t)}
      {y = put_before c (find tag t)} (omega arith)
      (put_before-IsWithin (length t) c (find tag t) (find-IsWithin tag t))

nearer-IsWithin :
    (n : ℕ) (p q : Option (Text × Text)) → IsWithin n p → IsWithin n q → IsWithin n (nearer p q)
unfolding nearer
nearer-IsWithin n none q a b = b
nearer-IsWithin n (some p) none a b = a
nearer-IsWithin n (some p) (some q) a b =
    if_both (IsWithin n) (ltb (length q.0) (length p.0)) {x = some q} {y = some p} b a

pub find_start_tag-IsWithin : (t : Text) → IsWithin (length t) (find_start_tag t)
unfolding find_start_tag
find_start_tag-IsWithin t =
    nearer-IsWithin (length t) (find think_start t) (find thought t) (find-IsWithin think_start t)
      (find-IsWithin thought t)

-- What follows an end tag is shorter than the text.
abbrev pub IsShorter : ℕ → Option Text → Type 0
IsShorter n none = Unit
IsShorter n (some t) = length t ≤ n

after_tag-IsShorter :
    (k n : ℕ) (o : Option (Text × Text)) → IsWithin (suc n) o → IsShorter n (after_tag (suc k) o)
unfolding after_tag
after_tag-IsShorter k n none h = tt
after_tag-IsShorter k n (some p) h = omega (arith, length-drop (suc k) p.1)

pub find_end_tag-IsShorter :
    (tag : Text) (c : ℕ) (t : Text) → IsShorter (length t) (find_end_tag tag (c ∷ t))
unfolding find_end_tag
find_end_tag-IsShorter tag c t =
    if_both (IsShorter (length t)) (same_text tag think_start)
      {x = after_tag 8 (find think_end (c ∷ t))}
      (after_tag-IsShorter 7 (length t) (find think_end (c ∷ t)) (find-IsWithin think_end (c ∷ t)))
      (if_both (IsShorter (length t)) (same_text tag thought)
        {x = after_tag 1 (find thought (c ∷ t))} {y = none}
        (after_tag-IsShorter 0 (length t) (find thought (c ∷ t)) (find-IsWithin thought (c ∷ t)))
        tt)

-- What follows a start tag is shorter than what starts with it.
pub drop-get_start_tag :
    (n : ℕ) (t : Text) → length t ≤ suc n → length (drop (length (get_start_tag t)) t) ≤ n
unfolding get_start_tag take
drop-get_start_tag n [] h = omega (arith, length-drop (length (get_start_tag [])) [])
drop-get_start_tag n (c ∷ t) h =
    if_both (λ tag. length (drop (length tag) (c ∷ t)) ≤ n) (starts_with think_start (c ∷ t))
      {x = think_start} (omega (arith, length-drop 7 (c ∷ t)))
      (if_both (λ tag. length (drop (length tag) (c ∷ t)) ≤ n) (starts_with thought (c ∷ t))
        {x = thought} {y = c ∷ []} (omega (arith, length-drop 1 (c ∷ t)))
        (omega (arith, length-drop 1 (c ∷ t))))

pending-bounds : (tag t : Text) → length (pending tag t) ≤ max_unclosed_think_buffer
unfolding pending
pending-bounds tag t = elim (Bool-cases (ltb max_unclosed_think_buffer (length t))) [
  | inl b ↦ rw b (
      if_both (λ u. length u ≤ max_unclosed_think_buffer) (same_text tag think_start)
        {x = drop (length t - 7) t} {y = []} (omega (arith, length-drop (length t - 7) t))
        (omega arith))
  | inr b ↦ rw b (ground arith)
]

-- A filter inside a block retains no more than the cap.
abbrev pub IsBounded : ThinkFilter → Type 0
IsBounded self = self.in_think ≡ true → length self.buffer ≤ max_unclosed_think_buffer

hold_back-IsBounded :
    (self : ThinkFilter) (t : Text) → self.in_think ≡ false → IsBounded (hold_back self t).0
unfolding hold_back
hold_back-IsBounded self t e i = ground arith

emit-IsBounded : (part : Text) (r : ThinkFilter × Text) → IsBounded r.0 → IsBounded (emit part r).0
emit-IsBounded part (self, out) h = h

-- A scan with enough fuel leaves the filter bounded, whatever it held before.
scan-IsBounded :
    (fuel : ℕ) (self : ThinkFilter) (t : Text) → length t < fuel → IsBounded (scan fuel self t).0
unfolding scan
scan-IsBounded zero self t h = omega arith
scan-IsBounded (suc fuel) self [] h = λ i. omega arith
scan-IsBounded (suc fuel) self (c ∷ t) h = elim (Bool-cases self.in_think) [
  | inl e ↦ elim (Option-cases (find_end_tag self.think_start_tag (c ∷ t))) [
    | inl absent ↦ rw (e, absent, scan) (λ i. pending-bounds self.think_start_tag (c ∷ t))
    | inr (after, found) ↦
        let shorter = rw found at (find_end_tag-IsShorter self.think_start_tag c t) in
        rw (e, found, scan)
          (scan-IsBounded fuel (record self { in_think = false; think_start_tag = [] }) after
            (omega arith))
  ]
  | inr e ↦ elim (Option-cases (find_start_tag (c ∷ t))) [
    | inl absent ↦ rw (e, absent, scan) (hold_back-IsBounded self (c ∷ t) e)
    | inr (found, at) ↦
        let within = rw at at (find_start_tag-IsWithin (c ∷ t)) in
        let start_tag = get_start_tag found.1 in
        rw (e, at, scan)
          (emit-IsBounded found.0
            (scan fuel (record self { in_think = true; think_start_tag = start_tag })
              (drop (length start_tag) found.1))
            (scan-IsBounded fuel (record self { in_think = true; think_start_tag = start_tag })
              (drop (length start_tag) found.1)
              (omega (arith, drop-get_start_tag (length t) found.1 within))))
  ]
]

-- A filter that retains at most 1024 * 1024 code points of a block without an end still does so
-- after any chunk.
pub feed-IsBounded :
    (self : ThinkFilter) (chunk : Text) → IsBounded self → IsBounded (feed self chunk).0
unfolding feed
feed-IsBounded self [] h = h
feed-IsBounded self (c ∷ chunk) h =
    let buffer = self.buffer ++ c ∷ chunk in
    scan-IsBounded (suc (length buffer)) (record self { buffer = buffer }) buffer (omega arith)
