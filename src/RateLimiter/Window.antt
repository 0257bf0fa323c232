-- ===== src/RateLimiter/Window.antt =====
-- rate_limiter.py: over any calls for any keys, a poll is granted exactly if the permits of the
-- last window leave room, and no window holds more permits than the limit.
use text.Mathlib.TextEquality.{eq_iff}
use llm_plug.Common.{
  ℕ, suc, ◌+◌, ◌≤◌, ◌<◌, String, Bool, true, false, List, [], ◌∷◌, ◌++◌, if◌then◌else◌, ◌==◌,
  string_eq, ◌≡◌, refl, arith, ltb, leb, ◌&&◌, length, All, All-weaken, Bool-cases, inl, inr, ◌∙◌,
}
use llm_plug.Dict.{get, get_or, put, remove}
use llm_plug.Dict.Laws.{get-put, get-remove}
use llm_plug.RateLimiter.{
  Windows, drop_expired, Poll, granted, waits, take_permit, poll, remove_key,
}

-- A turn of some call, or the removal of a channel; the newest stands first.
pub data Event : Type 0 where
  polled : String → ℕ → ℕ → Event
  removed : String → Event

-- How many of the permits lie in the window that ends at `now`.
unfoldable pub recent : ℕ → ℕ → List ℕ → ℕ
recent window now [] = 0
recent window now (t ∷ ts) =
    let rest = recent window now ts in if ltb now (t + window) then suc rest else rest

-- The same, without those later than `now`.
unfoldable pub within : ℕ → ℕ → List ℕ → ℕ
within window now [] = 0
within window now (t ∷ ts) =
    let rest = within window now ts in if ltb now (t + window) && leb t now then suc rest else rest

abbrev pub is_granted : Poll → Bool
is_granted granted = true
is_granted (waits needed) = false

module _ (window : ℕ) where
  unfoldable pub replay : List Event → Windows
  replay [] = []
  replay (polled key limit now ∷ h) = (poll key limit window now (replay h)).1
  replay (removed key ∷ h) = remove_key key (replay h)

  -- The permits of a channel by the rule alone: a poll gets one if fewer than the limit lie in the
  -- window that ends at it.
  unfoldable pub issued : String → List Event → List ℕ
  issued k [] = []
  issued k (polled key limit now ∷ h) =
      let before = issued k h in
      if (key == k) && ltb (recent window now before) limit then now ∷ before else before
  issued k (removed key ∷ h) = let before = issued k h in if key == k then [] else before

  -- The time of the newest poll.
  unfoldable pub latest : List Event → ℕ
  latest [] = 0
  latest (polled key limit now ∷ h) = now
  latest (removed key ∷ h) = latest h

  -- The clock does not run backwards.
  abbrev pub IsOrdered : List Event → Type 0
  IsOrdered [] = Unit
  IsOrdered (polled key limit now ∷ h) = (latest h ≤ now) × IsOrdered h
  IsOrdered (removed key ∷ h) = IsOrdered h

  -- Every poll of the channel is for a limit of at most `n`.
  abbrev pub AtMost : String → ℕ → List Event → Type 0
  AtMost k n [] = Unit
  AtMost k n (polled key limit now ∷ h) = ((key == k) ≡ true → limit ≤ n) × AtMost k n h
  AtMost k n (removed key ∷ h) = AtMost k n h

  abbrev IsSorted : List ℕ → Type 0
  IsSorted [] = Unit
  IsSorted (t ∷ ts) = All (λ u. t ≤ u) ts × IsSorted ts

  -- The queue against the permits that were issued up to `last`.
  pub record Tracks (last : ℕ) (q ts : List ℕ) : Type 0 where
    pub sorted : IsSorted q
    past : All (λ t. t ≤ last) q
    pub same : (now : ℕ) → last ≤ now → recent window now q ≡ recent window now ts

  recent-All :
      (now t : ℕ) (q : List ℕ)
      → now < t + window
      → All (λ u. t ≤ u) q
      → recent window now q ≡ length q
  unfolding recent
  recent-All now t [] h a = refl
  recent-All now t (u ∷ q) h a = let ih = recent-All now t q h a.1 in let here = a.0 in ground arith

  pub length-drop_expired :
      (now : ℕ) (q : List ℕ) → IsSorted q → length (drop_expired window now q) ≡ recent window now q
  unfolding drop_expired recent
  length-drop_expired now [] h = refl
  length-drop_expired now (t ∷ q) h = elim (Bool-cases (leb (t + window) now)) [
    | inl b ↦ ground (arith, length-drop_expired now q h.1)
    | inr b ↦ ground (arith, recent-All now t q (ground arith) h.0)
  ]

  recent-drop_expired :
      (now later : ℕ) (q : List ℕ)
      → now ≤ later
      → recent window later (drop_expired window now q) ≡ recent window later q
  unfolding drop_expired recent
  recent-drop_expired now later [] h = refl
  recent-drop_expired now later (t ∷ q) h = ground (arith, recent-drop_expired now later q h)

  All-drop_expired :
      (P : ℕ → Type 0) (now : ℕ) (q : List ℕ) → All P q → All P (drop_expired window now q)
  unfolding drop_expired
  All-drop_expired P now [] h = tt
  All-drop_expired P now (t ∷ q) h = ground (arith, All-drop_expired P now q h.1)

  drop_expired-IsSorted : (now : ℕ) (q : List ℕ) → IsSorted q → IsSorted (drop_expired window now q)
  unfolding drop_expired
  drop_expired-IsSorted now [] h = tt
  drop_expired-IsSorted now (t ∷ q) h = ground (arith, drop_expired-IsSorted now q h.1)

  recent-append_one :
      (now t : ℕ) (q : List ℕ) → recent window now (q ++ t ∷ []) ≡ recent window now (t ∷ q)
  unfolding recent
  recent-append_one now t [] = refl
  recent-append_one now t (u ∷ q) = let ih = recent-append_one now t q in ground arith

  append_one-All : (P : ℕ → Type 0) (t : ℕ) (q : List ℕ) → All P q → P t → All P (q ++ t ∷ [])
  append_one-All P t [] h p = (p, tt)
  append_one-All P t (u ∷ q) h p = (h.0, append_one-All P t q h.1 p)

  append_one-IsSorted :
      (t : ℕ) (q : List ℕ) → IsSorted q → All (λ u. u ≤ t) q → IsSorted (q ++ t ∷ [])
  append_one-IsSorted t [] h p = (tt, tt)
  append_one-IsSorted t (u ∷ q) h p =
      (append_one-All _ t q h.0 p.0, append_one-IsSorted t q h.1 p.1)

  recent_cons :
      (now t : ℕ) (q ts : List ℕ)
      → recent window now q ≡ recent window now ts
      → recent window now (t ∷ q) ≡ recent window now (t ∷ ts)
  unfolding recent
  recent_cons now t q ts h = rw h refl

  take_permit-Tracks :
      (limit last now : ℕ) (q ts : List ℕ)
      → last ≤ now
      → Tracks last q ts
      → Tracks now
          (take_permit limit window now (drop_expired window now q)).1
          (if ltb (recent window now ts) limit then now ∷ ts else ts)
  unfolding take_permit
  take_permit-Tracks limit last now q ts h t =
      let q' = drop_expired window now q in
      let sorted' : IsSorted q' = drop_expired-IsSorted now q t.sorted in
      let past' : All (λ u. u ≤ now) q' =
        All-drop_expired _ now q (All-weaken (λ u. u ≤ last) _ q (λ u e. omega arith) t.past) in
      let counted : length q' ≡ recent window now ts =
        length-drop_expired now q t.sorted ∙ t.same now h in
      elim (Bool-cases (ltb (recent window now ts) limit)) [
        | inl b ↦
            rw (counted, b)
              (record {
                sorted = append_one-IsSorted now q' sorted' past';
                past = append_one-All (λ u. u ≤ now) now q' past' (omega arith);
                same = λ later g.
                    let before = recent-drop_expired now later q g ∙ t.same later (omega arith) in
                    recent-append_one later now q' ∙ recent_cons later now q' ts before;
              })
        | inr b ↦
            rw (counted, b)
              (record {
                sorted = sorted';
                past = past';
                same = λ later g. recent-drop_expired now later q g ∙ t.same later (omega arith);
              })
      ]

  unfoldable pub queue : String → Windows → List ℕ
  unfolding get_or
  queue k windows = get_or [] k windows

  queue-put :
      (k key : String) (q : List ℕ) (windows : Windows)
      → queue k (put key q windows) ≡ (if key == k then q else queue k windows)
  unfolding queue get_or
  queue-put k key q windows = ground (arith, get-put k key q windows)

  queue-remove :
      (k key : String) (windows : Windows)
      → queue k (remove key windows) ≡ (if key == k then [] else queue k windows)
  unfolding queue get_or
  queue-remove k key windows = ground (arith, get-remove k key windows)

  later-Tracks : (last now : ℕ) (q ts : List ℕ) → last ≤ now → Tracks last q ts → Tracks now q ts
  later-Tracks last now q ts h t = record {
    sorted = t.sorted;
    past = All-weaken (λ u. u ≤ last) _ q (λ u e. omega arith) t.past;
    same = λ later g. t.same later (omega arith);
  }

  queue-poll :
      (k key : String) (limit now : ℕ) (windows : Windows)
      → queue k (poll key limit window now windows).1 ≡ (
          if key == k
          then (take_permit limit window now (drop_expired window now (queue key windows))).1
          else queue k windows)
  unfolding poll queue
  queue-poll k key limit now windows =
      queue-put k key (take_permit limit window now (drop_expired window now (queue key windows))).1
        windows

  empty-Tracks : (last : ℕ) → Tracks last [] []
  empty-Tracks last = record { sorted = tt; past = tt; same = λ now g. refl }

  pub replay-Tracks :
      (k : String) (h : List Event)
      → IsOrdered h
      → Tracks (latest h) (queue k (replay h)) (issued k h)
  unfolding replay issued latest queue get_or get remove_key
  replay-Tracks k [] o = empty-Tracks 0
  replay-Tracks k (polled key limit now ∷ h) o =
      let before = replay-Tracks k h o.1 in
      elim (Bool-cases (key == k)) [
        | inl b ↦
            rw (queue-poll, b)
              (rw ((eq_iff key k).0 b) (
                take_permit-Tracks limit (latest h) now (queue k (replay h)) (issued k h) o.0
                  before))
        | inr b ↦ rw (queue-poll, b) (later-Tracks (latest h) now _ _ o.0 before)
      ]
  replay-Tracks k (removed key ∷ h) o = elim (Bool-cases (key == k)) [
    | inl b ↦ rw (queue-remove, b) (empty-Tracks (latest h))
    | inr b ↦ rw (queue-remove, b) (replay-Tracks k h o)
  ]
