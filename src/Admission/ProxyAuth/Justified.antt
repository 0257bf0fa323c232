-- ===== src/Admission/ProxyAuth/Justified.antt =====
-- middleware/proxy_auth_middleware.py: why a request is let through or refused.
use llm_plug.Common.{
  true, false, Option, none, some, List, [], ◌∷◌, ◌≡◌, refl, sym, subst, ◌∙◌, ◌⊎◌, inl, inr, All,
  Has, Bool-cases, contains,
}
use llm_plug.Dict.{Dict, get}
use llm_plug.Dict.Laws.{get-put}
use llm_plug.Text.{Text, text_eq, same_text, same_text_iff}
use llm_plug.Admission.ProxyAuth.{
  ApiKey, HttpRequest, Refusal, Result, ok, refused, some_or, ◌>>=◌, ◌>>◌, configured_key, add_key,
  index_from, token_of, is_empty, is_lifecycle, check_models,
}

-- The key has this text, which is not empty.
abbrev pub Opens : Text → ApiKey → Type 0
Opens t k = configured_key k.key ≡ some t

-- What the index holds under a text is a key of that text, or was there before.
abbrev pub Found : Text → List ApiKey → Dict Text ApiKey → Option ApiKey → Type 0
Found t keys index none = All (λ k. ¬ Opens t k) keys × (get t index ≡ none)
Found t keys index (some k) = (Has k keys × Opens t k) ⊎ (get t index ≡ some k)

add_key-Found :
    (k : ApiKey) (o : Option Text) (t : Text) (keys : List ApiKey) (index : Dict Text ApiKey)
    (r : Option ApiKey)
    → configured_key k.key ≡ o
    → Found t keys (add_key k o index) r
    → Found t (k ∷ keys) index r
unfolding add_key
add_key-Found k none t keys index none e h = (((λ opens. cc), h.0), h.1)
add_key-Found k none t keys index (some found) e (inl h) = inl (inr h.0, h.1)
add_key-Found k none t keys index (some found) e (inr h) = inr h
add_key-Found k (some u) t keys index none e h =
    let law = get-put t u k index in
    elim (Bool-cases (same_text u t)) [
      | inl b ↦ let impossible : some k ≡ none = sym (rw b at law) ∙ h.1 in cc
      | inr b ↦
          let opens_not : ¬ Opens t k =
            λ opens. let same : u ≡ t = cc in let yes = (same_text_iff u t).1 same in cc in
          ((opens_not, h.0), sym (rw b at law) ∙ h.1)
    ]
add_key-Found k (some u) t keys index (some found) e (inl h) = inl (inr h.0, h.1)
add_key-Found k (some u) t keys index (some found) e (inr h) =
    let law = get-put t u k index in
    elim (Bool-cases (same_text u t)) [
      | inl b ↦
          let same_option : some k ≡ some found = sym (rw b at law) ∙ h in
          let same_key : found ≡ k = cc in
          let same : u ≡ t = (same_text_iff u t).0 b in
          inl (
            inl same_key,
            subst (Opens t) (sym same_key) (subst (λ v. configured_key k.key ≡ some v) same e),
          )
      | inr b ↦ inr (sym (rw b at law) ∙ h)
    ]

Found-self :
    (t : Text) (index : Dict Text ApiKey) (r : Option ApiKey) → get t index ≡ r → Found t [] index r
Found-self t index none e = (tt, e)
Found-self t index (some k) e = inr e

pub index_from-Found :
    (t : Text) (keys : List ApiKey) (index : Dict Text ApiKey)
    → Found t keys index (get t (index_from keys index))
unfolding index_from
index_from-Found t [] index = Found-self t index (get t index) refl
index_from-Found t (k ∷ keys) index =
    add_key-Found k (configured_key k.key) t keys index (get t (index_from (k ∷ keys) index)) refl
      (index_from-Found t keys (add_key k (configured_key k.key) index))

-- What a key says of the model of a request.
unfoldable pub Verdict : ApiKey → HttpRequest → Text → Result (Unit {0}) → Type 0
Verdict k r model (ok u) =
    (is_empty k.allowed_models ≡ true)
    ⊎ ((contains model k.allowed_models ≡ true)
        ⊎ ((is_empty model ≡ true) × (is_lifecycle r ≡ false)))
Verdict k r model (refused Refusal.lifecycle_restricted) =
    (is_empty k.allowed_models ≡ false) × (is_empty model ≡ true) × (is_lifecycle r ≡ true)
Verdict k r model (refused (Refusal.model_not_allowed m)) =
    (m ≡ model) × (is_empty k.allowed_models ≡ false) × (contains model k.allowed_models ≡ false)
Verdict k r model (refused Refusal.too_large) = ⊥
Verdict k r model (refused Refusal.missing_header) = ⊥
Verdict k r model (refused Refusal.invalid_key) = ⊥

check_models-Verdict :
    (k : ApiKey) (r : HttpRequest) (model : Text) → Verdict k r model (check_models k r model)
unfolding check_models Verdict
check_models-Verdict k r model = elim (Bool-cases (is_empty k.allowed_models)) [
  | inl a ↦ rw a (inl a)
  | inr a ↦ elim (Bool-cases (is_empty model)) [
    | inl e ↦ elim (Bool-cases (is_lifecycle r)) [
      | inl l ↦ rw (a, e, l) (a, e, l)
      | inr l ↦ rw (a, e, l) (inr (inr (e, l)))
    ]
    | inr e ↦ elim (Bool-cases (contains model k.allowed_models)) [
      | inl c ↦ rw (a, e, c) (inr (inl c))
      | inr c ↦ rw (a, e, c) (refl, a, c)
    ]
  ]
]

-- The token of the request is the text of one of the keys.
pub record Presents (keys : List ApiKey) (r : HttpRequest) (k : ApiKey) : Type 0 where
  pub token : Text
  pub presented : token_of r ≡ some token
  pub member : Has k keys
  pub opens : Opens token k

abbrev pub AnyKey : List ApiKey → Type 0
AnyKey keys = (k : ApiKey) × (t : Text) × (Has k keys × Opens t k)

-- Why a request passes with a key, with none, or is refused for its token or its model.
unfoldable pub Authorized : List ApiKey → HttpRequest → Text → Result (Option ApiKey) → Type 0
unfolding Verdict
Authorized keys r model (ok none) = (t : Text) → All (λ k. ¬ Opens t k) keys
Authorized keys r model (ok (some k)) = Presents keys r k × Verdict k r model (ok tt)
Authorized keys r model (refused Refusal.missing_header) = AnyKey keys × (token_of r ≡ none)
Authorized keys r model (refused Refusal.invalid_key) =
    AnyKey keys × ((t : Text) × ((token_of r ≡ some t) × All (λ k. ¬ Opens t k) keys))
Authorized keys r model (refused Refusal.lifecycle_restricted) =
    (k : ApiKey) × (Presents keys r k × Verdict k r model (refused Refusal.lifecycle_restricted))
Authorized keys r model (refused (Refusal.model_not_allowed m)) =
    (k : ApiKey) × (Presents keys r k × Verdict k r model (refused (Refusal.model_not_allowed m)))
Authorized keys r model (refused Refusal.too_large) = ⊥

checked-Authorized :
    (keys : List ApiKey) (k : ApiKey) (r : HttpRequest) (model : Text) (v : Result (Unit {0}))
    → Presents keys r k
    → Verdict k r model v
    → Authorized keys r model (v >> ok (some k))
unfolding Authorized Verdict
checked-Authorized keys k r model (ok u) p v = (p, v)
checked-Authorized keys k r model (refused Refusal.lifecycle_restricted) p v = (k, (p, v))
checked-Authorized keys k r model (refused (Refusal.model_not_allowed m)) p v = (k, (p, v))
checked-Authorized keys k r model (refused Refusal.too_large) p v = absurd v
checked-Authorized keys k r model (refused Refusal.missing_header) p v = absurd v
checked-Authorized keys k r model (refused Refusal.invalid_key) p v = absurd v

-- With the token at hand.
pub token-Authorized :
    (keys : List ApiKey) (r : HttpRequest) (model token : Text) (found : Option ApiKey)
    → AnyKey keys
    → token_of r ≡ some token
    → Found token keys [] found
    → Authorized keys r model
        (some_or Refusal.invalid_key found >>= λ k. check_models k r model >> ok (some k))
unfolding Authorized get
token-Authorized keys r model token none any e h = (any, (token, (e, h.0)))
token-Authorized keys r model token (some k) any e (inl h) =
    checked-Authorized keys k r model (check_models k r model)
      (record { token = token; presented = e; member = h.0; opens = h.1 })
      (check_models-Verdict k r model)
token-Authorized keys r model token (some k) any e (inr h) = cc
