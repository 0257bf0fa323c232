-- ===== src/RateLimiter/Permits.antt =====
-- rate_limiter.py: the permits that polls get, against the rule and the limit.
use text.Mathlib.TextEquality.{eq_iff}
use llm_plug.Common.{
  ℕ, ◌≤◌, ◌<◌, String, List, [], ◌∷◌, if◌then◌else◌, ◌==◌, string_eq, ◌≡◌, refl, arith, ltb, leb,
  ◌&&◌, length, Bool-cases, inl, inr, sym, ap, ◌∙◌, subst,
}
use llm_plug.Dict.{get_or}
use llm_plug.RateLimiter.{drop_expired, take_permit, poll}
use llm_plug.RateLimiter.Window.{
  Event, polled, removed, recent, within, is_granted, replay, issued, latest, IsOrdered, AtMost,
  replay-Tracks, queue, length-drop_expired,
}

module _ (window : ℕ) where
  permit-granted :
      (limit now : ℕ) (q : List ℕ)
      → is_granted (take_permit limit window now q).0 ≡ ltb (length q) limit
  unfolding take_permit
  permit-granted limit now q = ground arith

  -- Given a clock that does not run backwards, after any turns for any channels and any removals a
  -- turn gets a permit exactly if fewer than the limit were issued window for its channel in the window
  -- that ends at it.
  pub poll-issued :
      (k : String) (limit now : ℕ) (h : List Event)
      → IsOrdered window h
      → latest window h ≤ now
      → is_granted (poll k limit window now (replay window h)).0
        ≡ ltb (recent window now (issued window k h)) limit
  unfolding poll get_or queue
  poll-issued k limit now h o g =
      let t = replay-Tracks window k h o in
      permit-granted limit now (drop_expired window now (queue window k (replay window h)))
      ∙ ap (λ n. ltb n limit)
          (length-drop_expired window now (queue window k (replay window h)) t.sorted
            ∙ t.same now g)

  within-recent :
      (later now : ℕ) (ts : List ℕ) → now ≤ later → within window later ts ≤ recent window now ts
  unfolding within recent
  within-recent later now [] g = omega arith
  within-recent later now (t ∷ ts) g = ground (arith, within-recent later now ts g)

  within_cons :
      (now t n limit : ℕ) (ts : List ℕ)
      → within window t ts ≤ n
      → recent window now ts < limit
      → limit ≤ n
      → within window t (now ∷ ts) ≤ n
  unfolding within
  within_cons now t n limit ts before room bound = elim (Bool-cases (leb now t)) [
    | inl b ↦ let most = within-recent t now ts (ground arith) in ground arith
    | inr b ↦ ground arith
  ]

  within-issued :
      (k : String) (n : ℕ) (h : List Event)
      → IsOrdered window h
      → AtMost window k n h
      → (t : ℕ) → within window t (issued window k h) ≤ n
  unfolding issued within
  within-issued k n [] o a t = omega arith
  within-issued k n (removed key ∷ h) o a t = ground (arith, within-issued k n h o a t)
  within-issued k n (polled key limit now ∷ h) o a t =
      let before = within-issued k n h o.1 a.1 t in
      elim (Bool-cases (key == k)) [
        | inl b ↦ elim (Bool-cases (ltb (recent window now (issued window k h)) limit)) [
          | inl c ↦
              rw (b, c)
                (within_cons now t n limit (issued window k h) before (ground arith) (a.0 b))
          | inr c ↦ rw (b, c) before
        ]
        | inr b ↦ rw b before
      ]

  -- The times at which the polls of a channel were granted, since it was last removed.
  unfoldable pub given : String → List Event → List ℕ
  unfolding replay
  given k [] = []
  given k (polled key limit now ∷ h) =
      let before = given k h in
      if (key == k) && is_granted (poll key limit window now (replay window h)).0
      then now ∷ before
      else before
  given k (removed key ∷ h) = let before = given k h in if key == k then [] else before

  given-issued : (k : String) (h : List Event) → IsOrdered window h → given k h ≡ issued window k h
  unfolding given issued
  given-issued k [] o = refl
  given-issued k (removed key ∷ h) o = ap (λ ts. if key == k then [] else ts) (given-issued k h o)
  given-issued k (polled key limit now ∷ h) o =
      let before = given-issued k h o.1 in
      elim (Bool-cases (key == k)) [
        | inl b ↦
            let answer = poll-issued key limit now h o.1 o.0 in
            rw (b, answer, before) (rw ((eq_iff key k).0 b) refl)
        | inr b ↦ rw b before
      ]

  -- Given a clock that does not run backwards and limits of at most `n` for the channel, no window,
  -- wherever it ends, holds more than `n` of the times at which the channel's polls were granted
  -- since it was last removed.
  pub within-given :
      (k : String) (n : ℕ) (h : List Event)
      → IsOrdered window h
      → AtMost window k n h
      → (t : ℕ) → within window t (given k h) ≤ n
  within-given k n h o a t =
      subst (λ ts. within window t ts ≤ n) (sym (given-issued k h o)) (within-issued k n h o a t)
