-- ===== src/Dict/Laws.antt =====
-- What `get` returns after each operation of a dictionary, and that keys stay distinct.
use llm_plug.Common.{
  ◌≡◌, refl, Bool, true, false, ◌||◌, none, some, [], ◌∷◌, ◌++◌, Eq, ◌==◌, if◌then◌else◌, not,
  arith, contains, Distinct,
}
use llm_plug.Dict.{Dict, keys, restrict, get, put, put_last, remove}

module _ {ℓ κ} {K : Type ℓ} {V : Type κ} ⦃e : Eq K⦄ where
  pub get-put :
      (j k : K) (v : V) (d : Dict K V) → get j (put k v d) ≡ (if k == j then some v else get j d)
  unfolding get put
  get-put j k v [] = refl
  get-put j k v ((i, w) ∷ d) =
      ground (arith, e.beq_iff i k, e.beq_iff i j, e.beq_iff k j, get-put j k v d)

  pub get-remove :
      (j k : K) (d : Dict K V) → get j (remove k d) ≡ (if k == j then none else get j d)
  unfolding get remove restrict
  get-remove j k [] = ground arith
  get-remove j k ((i, w) ∷ d) =
      ground (arith, e.beq_iff i k, e.beq_iff i j, e.beq_iff k j, get-remove j k d)

  pub contains-restrict :
      (j : K) (p : K → V → Bool) (d : Dict K V)
      → contains j (keys d) ≡ false
      → contains j (keys (restrict p d)) ≡ false
  unfolding restrict
  contains-restrict j p [] h = refl
  contains-restrict j p ((i, w) ∷ d) h = ground (arith, contains-restrict j p d)

  pub restrict-Distinct :
      (p : K → V → Bool) (d : Dict K V) → Distinct (keys d) → Distinct (keys (restrict p d))
  unfolding restrict
  restrict-Distinct p [] h = tt
  restrict-Distinct p ((i, w) ∷ d) h =
      ground (arith, restrict-Distinct p d h.1, contains-restrict i p d h.0)

  contains-put :
      (j k : K) (v : V) (d : Dict K V)
      → contains j (keys (put k v d)) ≡ ((k == j) || contains j (keys d))
  unfolding put
  contains-put j k v [] = ground arith
  contains-put j k v ((i, w) ∷ d) =
      ground (arith, e.beq_iff i k, e.beq_iff k j, e.beq_iff i j, contains-put j k v d)

  pub put-Distinct :
      (k : K) (v : V) (d : Dict K V) → Distinct (keys d) → Distinct (keys (put k v d))
  unfolding put
  put-Distinct k v [] h = (refl, tt)
  put-Distinct k v ((i, w) ∷ d) h =
      ground (arith, put-Distinct k v d h.1, contains-put i k v d, e.beq_iff i k, e.beq_iff k i)

  -- Removing by a predicate that spares `j` leaves the value at `j`.
  pub get-restrict_spared :
      (j : K) (p : K → V → Bool) (d : Dict K V)
      → ((v : V) → p j v ≡ true)
      → get j (restrict p d) ≡ get j d
  unfolding get restrict
  get-restrict_spared j p [] h = refl
  get-restrict_spared j p ((i, w) ∷ d) h =
      ground (arith, e.beq_iff i j, h w, get-restrict_spared j p d h)

  -- Removing by a predicate that drops `j` leaves no value at `j`.
  pub get-restrict_dropped :
      (j : K) (p : K → V → Bool) (d : Dict K V)
      → ((v : V) → p j v ≡ false)
      → get j (restrict p d) ≡ none
  unfolding get restrict
  get-restrict_dropped j p [] h = refl
  get-restrict_dropped j p ((i, w) ∷ d) h =
      ground (arith, e.beq_iff i j, h w, get-restrict_dropped j p d h)

  -- Where keys are distinct, a restriction filters the value at each key.
  pub get_of_absent : (j : K) (d : Dict K V) → contains j (keys d) ≡ false → get j d ≡ none
  unfolding get
  get_of_absent j [] h = refl
  get_of_absent j ((i, w) ∷ d) h = ground (arith, get_of_absent j d)

  pub get-restrict :
      (j : K) (p : K → V → Bool) (d : Dict K V)
      → Distinct (keys d)
      → get j (restrict p d)
        ≡ elim (get j d) [ none ↦ none | some v ↦ (if p j v then some v else none) ]
  unfolding get restrict
  get-restrict j p [] h = refl
  get-restrict j p ((i, w) ∷ d) h = ground (
    arith,
    e.beq_iff i j,
    get-restrict j p d h.1,
    get_of_absent j (restrict p d),
    contains-restrict j p d,
  )

  pub get-append :
      (j : K) (c d : Dict K V)
      → get j (c ++ d) ≡ elim (get j c) [ none ↦ get j d | some v ↦ some v ]
  unfolding get
  get-append j [] d = refl
  get-append j ((i, w) ∷ c) d = ground (arith, get-append j c d)

  pub get-put_last :
      (j k : K) (v : V) (d : Dict K V)
      → get j (put_last k v d) ≡ (if k == j then some v else get j d)
  unfolding put_last
  get-put_last j k v d =
      ground (arith, get-append j (remove k d) ((k, v) ∷ []), get-remove j k d, get_one)
    where
      get_one : get j ((k, v) ∷ []) ≡ (if k == j then some v else none)
      get_one = unfold get in refl

  contains-append_one :
      (j k : K) (v : V) (d : Dict K V)
      → contains j (keys (d ++ (k, v) ∷ [])) ≡ (contains j (keys d) || (k == j))
  contains-append_one j k v [] = ground arith
  contains-append_one j k v ((i, w) ∷ d) = ground (arith, contains-append_one j k v d)

  append_one-Distinct :
      (k : K) (v : V) (d : Dict K V)
      → Distinct (keys d)
      → contains k (keys d) ≡ false
      → Distinct (keys (d ++ (k, v) ∷ []))
  append_one-Distinct k v [] h n = (refl, tt)
  append_one-Distinct k v ((i, w) ∷ d) h n = ground (
    arith,
    append_one-Distinct k v d h.1,
    contains-append_one i k v d,
    e.beq_iff i k,
    e.beq_iff k i,
  )

  pub contains-remove : (k : K) (d : Dict K V) → contains k (keys (remove k d)) ≡ false
  unfolding remove restrict
  contains-remove k [] = refl
  contains-remove k ((i, w) ∷ d) = ground (arith, contains-remove k d)

  pub put_last-Distinct :
      (k : K) (v : V) (d : Dict K V) → Distinct (keys d) → Distinct (keys (put_last k v d))
  unfolding put_last remove
  put_last-Distinct k v d h =
      append_one-Distinct k v (remove k d) (restrict-Distinct (λ j _. not (j == k)) d h)
        (contains-remove k d)
