-- ===== src/ResponseStore/Lru.antt =====
-- state_store.py: what `evict_lru` removes and what it leaves.
use llm_plug.Common.{
  ℕ, zero, suc, ◌+◌, ◌-◌, ◌≤◌, Bool, true, false, not, Option, none, some, [], ◌∷◌, leb, leb→le,
  ◌≡◌, refl, sym, ◌∙◌, ap, arith, length, All, All-weaken, keep, Bool-cases, inl, inr,
}
use llm_plug.Dict.{Dict}
use llm_plug.Text.{Text}
use llm_plug.ResponseStore.{
  File, FileStore, key_le, before, insert, sort, first, after, victims, evict_lru, sort_key,
}
use llm_plug.ResponseStore.Use.{IsEarlier, before-IsEarlier}

key_le_total : (p q : Option ℕ × ℕ) → key_le p q ≡ false → key_le q p ≡ true
unfolding key_le
key_le_total (none, m) (none, n) h = ground arith
key_le_total (none, m) (some b, n) h = cc
key_le_total (some a, m) (none, n) h = refl
key_le_total (some a, m) (some b, n) h = ground arith

key_le_trans : (p q r : Option ℕ × ℕ) → key_le p q ≡ true → key_le q r ≡ true → key_le p r ≡ true
unfolding key_le
key_le_trans (none, l) (none, m) (none, n) h i = ground arith
key_le_trans (none, l) (none, m) (some c, n) h i = refl
key_le_trans (none, l) (some b, m) (none, n) h i = cc
key_le_trans (none, l) (some b, m) (some c, n) h i = refl
key_le_trans (some a, l) (none, m) r h i = cc
key_le_trans (some a, l) (some b, m) (none, n) h i = cc
key_le_trans (some a, l) (some b, m) (some c, n) h i = ground arith

module _ {P : Type 0} where
  -- No file of the list has been used earlier.
  abbrev pub Precedes : Text × File P → Dict Text (File P) → Type 0
  Precedes x ys = All (λ y. before x y ≡ true) ys

  abbrev pub IsSorted : Dict Text (File P) → Type 0
  IsSorted [] = Unit
  IsSorted (x ∷ xs) = Precedes x xs × IsSorted xs

  insert-Precedes :
      (z x : Text × File P) (ys : Dict Text (File P))
      → before z x ≡ true
      → Precedes z ys
      → Precedes z (insert x ys)
  unfolding insert
  insert-Precedes z x [] h p = (h, tt)
  insert-Precedes z x (y ∷ ys) h p = elim (Bool-cases (before x y)) [
    | inl b ↦ rw b (h, (p.0, p.1))
    | inr b ↦ rw b (p.0, insert-Precedes z x ys h p.1)
  ]

  insert-IsSorted :
      (x : Text × File P) (ys : Dict Text (File P)) → IsSorted ys → IsSorted (insert x ys)
  unfolding insert
  insert-IsSorted x [] s = (tt, tt)
  insert-IsSorted x (y ∷ ys) s = elim (Bool-cases (before x y)) [
    | inl b ↦ rw b (
      (
        b,
        All-weaken _ _ ys (λ z h. key_le_trans (sort_key x.1) (sort_key y.1) (sort_key z.1) b h)
            s.0,
      ),
      s,
    )
    | inr b ↦ rw b (
      insert-Precedes y x ys (key_le_total (sort_key x.1) (sort_key y.1) b) s.0,
      insert-IsSorted x ys s.1,
    )
  ]

  sort-IsSorted : (xs : Dict Text (File P)) → IsSorted (sort xs)
  unfolding sort
  sort-IsSorted [] = tt
  sort-IsSorted (x ∷ xs) = insert-IsSorted x (sort xs) (sort-IsSorted xs)

  -- A number for each file, summed over a list.
  abbrev pub weight : (Text × File P → ℕ) → Dict Text (File P) → ℕ
  weight f [] = 0
  weight f (x ∷ xs) = f x + weight f xs

  weight-insert :
      (f : Text × File P → ℕ) (x : Text × File P) (ys : Dict Text (File P))
      → weight f (insert x ys) ≡ f x + weight f ys
  unfolding insert
  weight-insert f x [] = refl
  weight-insert f x (y ∷ ys) = elim (Bool-cases (before x y)) [
    | inl b ↦ rw b refl
    | inr b ↦ rw b (omega (arith, weight-insert f x ys))
  ]

  weight-sort : (f : Text × File P → ℕ) (xs : Dict Text (File P)) → weight f (sort xs) ≡ weight f xs
  unfolding sort
  weight-sort f [] = refl
  weight-sort f (x ∷ xs) = omega (arith, weight-insert f x (sort xs), weight-sort f xs)

  weight-length : (xs : Dict Text (File P)) → weight (λ x. 1) xs ≡ length xs
  weight-length [] = refl
  weight-length (x ∷ xs) = omega (arith, weight-length xs)

  weight-first :
      (f : Text × File P → ℕ) (n : ℕ) (xs : Dict Text (File P))
      → weight f (first n xs) + weight f (after n xs) ≡ weight f xs
  unfolding first after
  weight-first f zero xs = omega arith
  weight-first f (suc n) [] = omega arith
  weight-first f (suc n) (x ∷ xs) = omega (arith, weight-first f n xs)

  length-after : (n : ℕ) (xs : Dict Text (File P)) → length (after n xs) ≡ length xs - n
  unfolding after
  length-after zero xs = omega arith
  length-after (suc n) [] = omega arith
  length-after (suc n) (x ∷ xs) = omega (arith, length-after n xs)

  Precedes-after :
      (x : Text × File P) (n : ℕ) (xs : Dict Text (File P))
      → Precedes x xs
      → Precedes x (after n xs)
  unfolding after
  Precedes-after x zero xs h = h
  Precedes-after x (suc n) [] h = tt
  Precedes-after x (suc n) (y ∷ xs) h = Precedes-after x n xs h.1

  first-after_sorted :
      (n : ℕ) (xs : Dict Text (File P))
      → IsSorted xs
      → All (λ x. Precedes x (after n xs)) (first n xs)
  unfolding first after
  first-after_sorted zero xs s = tt
  first-after_sorted (suc n) [] s = tt
  first-after_sorted (suc n) (x ∷ xs) s = (Precedes-after x n xs s.0, first-after_sorted n xs s.1)

  keep_none :
      (p : Text × File P → Bool) (xs : Dict Text (File P))
      → ((x : Text × File P) → p x ≡ false)
      → keep p xs ≡ []
  keep_none p [] h = refl
  keep_none p (x ∷ xs) h = rw (h x) (keep_none p xs h)

  -- The files before and after an eviction.
  pub record IsLru (before_ after_ removed : Dict Text (File P)) (max_entries : ℕ) : Type 0 where
    pub bound : length after_ ≤ max_entries
    pub conserved : (f : Text × File P → ℕ) → weight f removed + weight f after_ ≡ weight f before_
    pub oldest :
        All (λ x. All (λ y. IsEarlier x.1.entry x.1.mtime y.1.entry y.1.mtime) after_) removed
    pub needed : length removed ≡ length before_ - max_entries

  nothing-IsLru :
      (xs : Dict Text (File P)) (n : ℕ)
      → length xs ≤ n
      → IsLru xs xs (first (length xs - n) (sort xs)) n
  unfolding first
  nothing-IsLru xs n h =
      let none_over : length xs - n ≡ 0 = omega arith in
      rw none_over
        (record { bound = h; conserved = λ f. omega arith; oldest = tt; needed = omega arith })

  cut-IsLru :
      (xs : Dict Text (File P)) (n : ℕ)
      → IsLru xs (after (length xs - n) (sort xs)) (first (length xs - n) (sort xs)) n
  cut-IsLru xs n =
      let k = length xs - n in
      let same : length (sort xs) ≡ length xs =
        sym (weight-length (sort xs)) ∙ weight-sort (λ x. 1) xs ∙ weight-length xs in
      let split = weight-first (λ x. 1) k (sort xs) in
      record {
        bound = omega (arith, length-after k (sort xs));
        conserved = λ f. weight-first f k (sort xs) ∙ weight-sort f xs;
        oldest =
            All-weaken (λ x. Precedes x (after k (sort xs))) _ (first k (sort xs))
              (λ x h.
                All-weaken (λ y. before x y ≡ true) _ (after k (sort xs))
                  (λ y t.
                    before-IsEarlier x.1.entry x.1.mtime y.1.entry y.1.mtime (unfold sort_key in t))
                  h)
              (first-after_sorted k (sort xs) (sort-IsSorted xs));
        needed = omega (
          arith,
          split,
          weight-length (first k (sort xs)),
          weight-length (after k (sort xs)),
          weight-length (sort xs),
          length-after k (sort xs),
        );
      }

  -- Where files can be unlinked, an eviction leaves no more files than the bound and removes no more
  -- than it must; each file is either left or removed; and no removed file was used later than one
  -- that is left. A file was used at its last access, or at its creation, or at its last change,
  -- whichever is the first that is not zero; a file that is no JSON comes first.
  pub evict_lru-IsLru :
      (can_unlink : Text → Bool) (self : FileStore P)
      → ((id : Text) → can_unlink id ≡ true)
      → IsLru self.files (evict_lru can_unlink self).files (victims self) self.max_entries
  unfolding evict_lru victims
  evict_lru-IsLru can_unlink self all =
      elim (Bool-cases (leb (length self.files) self.max_entries)) [
        | inl b ↦ rw b (
            nothing-IsLru self.files self.max_entries
              (leb→le (length self.files) self.max_entries b))
        | inr b ↦
            let removed = first (length self.files - self.max_entries) (sort self.files) in
            let gone : keep (λ x. not (can_unlink x.0)) removed ≡ [] =
              keep_none (λ x. not (can_unlink x.0)) removed (λ x. ap not (all x.0)) in
            rw b (rw gone (cut-IsLru self.files self.max_entries))
      ]
