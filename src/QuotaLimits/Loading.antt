-- ===== src/QuotaLimits/Loading.antt =====
-- quota_limits/store.py: what is loaded from the file, and what is written to it.
use llm_plug.Common.{
  ℕ, ◌≤◌, String, false, Option, none, some, [], ◌∷◌, string_eq, ◌==◌, if◌then◌else◌, leb, contains,
  Distinct, ◌≡◌, refl, ◌∙◌, ap, subst, arith, Bool-cases, inl, inr,
}
use llm_plug.Dict.{Dict, keys, get}
use llm_plug.Dict.Laws.{get-put, get_of_absent, put-Distinct}
use llm_plug.QuotaLimits.{
  Limit, RawEntry, QuotaLimitStore, code_of, parsed, parse, add_limit, load_from, raw_entries, load,
  serialize,
}

-- A limit that is in force.
abbrev pub live : ℕ → Option Limit → Option Limit
live now none = none
live now (some l) = if leb l.reset_at now then none else some l

abbrev pub parse_found : Option RawEntry → Option Limit
unfolding parse
parse_found none = none
parse_found (some raw) = parse raw

abbrev pub or_limit : Option Limit → Option Limit → Option Limit
or_limit none o = o
or_limit (some l) o = some l

pub live_later : (t u : ℕ) (o : Option Limit) → t ≤ u → live u (live t o) ≡ live u o
live_later t u none h = refl
live_later t u (some l) h = ground arith

get-add_limit :
    (now : ℕ) (j id : String) (o : Option Limit) (limits : Dict String Limit)
    → get j (add_limit now id o limits)
      ≡ (if id == j then or_limit (live now o) (get j limits) else get j limits)
unfolding add_limit
get-add_limit now j id none limits = ground arith
get-add_limit now j id (some l) limits = ground (arith, get-put j id l limits)

get-load_from :
    (now : ℕ) (j : String) (raws : Dict String RawEntry) (limits : Dict String Limit)
    → Distinct (keys raws)
    → get j (load_from now raws limits)
      ≡ or_limit (live now (parse_found (get j raws))) (get j limits)
unfolding load_from get
get-load_from now j [] limits d = refl
get-load_from now j ((id, raw) ∷ rest) limits d =
    let later = get-load_from now j rest (add_limit now id (parse raw) limits) d.1 in
    let here = get-add_limit now j id (parse raw) limits in
    elim (Bool-cases (id == j)) [
      | inl b ↦
          let same : id ≡ j = (string_eq.beq_iff id j).0 b in
          let absent =
            get_of_absent j rest (subst (λ k. contains k (keys rest) ≡ false) same d.0) in
          rw b (later ∙ rw absent (rw b at here))
      | inr b ↦ rw b (later ∙ ap (or_limit (live now (parse_found (get j rest)))) (rw b at here))
    ]

add_limit-Distinct :
    (now : ℕ) (id : String) (o : Option Limit) (limits : Dict String Limit)
    → Distinct (keys limits)
    → Distinct (keys (add_limit now id o limits))
unfolding add_limit
add_limit-Distinct now id none limits d = d
add_limit-Distinct now id (some l) limits d = elim (Bool-cases (leb l.reset_at now)) [
  | inl b ↦ rw b d
  | inr b ↦ rw b (put-Distinct id l limits d)
]

pub load_from-Distinct :
    (now : ℕ) (raws : Dict String RawEntry) (limits : Dict String Limit)
    → Distinct (keys limits)
    → Distinct (keys (load_from now raws limits))
unfolding load_from
load_from-Distinct now [] limits d = d
load_from-Distinct now ((id, raw) ∷ rest) limits d =
    load_from-Distinct now rest (add_limit now id (parse raw) limits)
      (add_limit-Distinct now id (parse raw) limits d)

pub get-serialize :
    (j : String) (limits : Dict String Limit)
    → parse_found (get j (serialize limits)) ≡ get j limits
unfolding get serialize parse parsed code_of
get-serialize j [] = refl
get-serialize j ((id, l) ∷ limits) = ground (arith, get-serialize j limits)

pub keys-serialize : (limits : Dict String Limit) → keys (serialize limits) ≡ keys limits
unfolding serialize
keys-serialize [] = refl
keys-serialize ((id, l) ∷ limits) = cc (keys-serialize limits)

pub or_limit-none : (o : Option Limit) → or_limit o none ≡ o
or_limit-none none = refl
or_limit-none (some l) = refl

pub get-load :
    (now : ℕ) (j : String) (self : QuotaLimitStore)
    → Distinct (keys (raw_entries self.file))
    → get j (load now self).limits ≡ live now (parse_found (get j (raw_entries self.file)))
unfolding load get
get-load now j self d =
    get-load_from now j (raw_entries self.file) [] d
    ∙ or_limit-none (live now (parse_found (get j (raw_entries self.file))))
