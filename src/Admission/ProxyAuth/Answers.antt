-- ===== src/Admission/ProxyAuth/Answers.antt =====
-- middleware/proxy_auth_middleware.py: every answer of the middleware has its reason.
use llm_plug.Common.{
  ℕ, ◌≤◌, ◌<◌, true, Option, none, some, List, [], ◌∷◌, ◌≡◌, refl, sym, subst, ◌⊎◌, inl, inr,
  Option-cases, length, eq_self,
}
use llm_plug.Dict.{Dict, get}
use llm_plug.Text.{Text, text_eq}
use llm_plug.Admission.Body.{
  join, declared, IsRead, read_and_buffer_body, read_and_buffer_body-IsRead,
}
use llm_plug.Admission.Paths.{is_protected_proxy_path}
use llm_plug.Admission.ProxyAuth.{
  ApiKey, HttpRequest, Refusal, Result, ok, refused, ◌>>=◌, index_from, api_key_index, token_of,
  authorize, Passed, check_request, proxy_auth,
}
use llm_plug.Admission.ProxyAuth.Justified.{
  Found, AnyKey, Authorized, index_from-Found, token-Authorized,
}

authorize-Authorized :
    (keys : List ApiKey) (r : HttpRequest) (model : Text) (index : Dict Text ApiKey)
    → ((t : Text) → Found t keys [] (get t index))
    → Authorized keys r model (authorize index r model)
unfolding authorize Authorized get
authorize-Authorized keys r model [] h = λ t. (h t).0
authorize-Authorized keys r model ((text, k) ∷ index) h =
    let found : Found text keys [] (some k) = rw (eq_self text) at (h text) in
    let any : AnyKey keys = elim found [ inl m ↦ (k, text, m) | inr e ↦ cc ] in
    elim (Option-cases (token_of r)) [
      | inl e ↦ rw e (any, e)
      | inr (t, e) ↦ rw e (token-Authorized keys r model t (get t ((text, k) ∷ index)) any e (h t))
    ]

-- Why a request to a protected path is answered as it is, with its body read.
pub Answered : ℕ → List ApiKey → HttpRequest → Result Passed → Type 0
unfolding Authorized
Answered max_size keys r (ok p) =
    (p.body ≡ some (join r.incoming.chunks))
    × (length (join r.incoming.chunks) ≤ max_size)
    × Authorized keys r (r.model_of (join r.incoming.chunks)) (ok p.key)
Answered max_size keys r (refused Refusal.too_large) =
    (max_size < declared r.incoming.content_length) ⊎ (max_size < length (join r.incoming.chunks))
Answered max_size keys r (refused Refusal.missing_header) =
    Authorized keys r (r.model_of (join r.incoming.chunks)) (refused Refusal.missing_header)
Answered max_size keys r (refused Refusal.invalid_key) =
    Authorized keys r (r.model_of (join r.incoming.chunks)) (refused Refusal.invalid_key)
Answered max_size keys r (refused Refusal.lifecycle_restricted) =
    Authorized keys r (r.model_of (join r.incoming.chunks)) (refused Refusal.lifecycle_restricted)
Answered max_size keys r (refused (Refusal.model_not_allowed m)) =
    Authorized keys r (r.model_of (join r.incoming.chunks)) (refused (Refusal.model_not_allowed m))

Authorized-Answered :
    (max_size : ℕ) (keys : List ApiKey) (r : HttpRequest) (v : Result (Option ApiKey))
    → length (join r.incoming.chunks) ≤ max_size
    → Authorized keys r (r.model_of (join r.incoming.chunks)) v
    → Answered max_size keys r
        (v >>= λ k. ok (record { body = some (join r.incoming.chunks); key = k }))
unfolding Answered Authorized
Authorized-Answered max_size keys r (ok k) l h = (refl, l, h)
Authorized-Answered max_size keys r (refused Refusal.too_large) l h = absurd h
Authorized-Answered max_size keys r (refused Refusal.missing_header) l h = h
Authorized-Answered max_size keys r (refused Refusal.invalid_key) l h = h
Authorized-Answered max_size keys r (refused Refusal.lifecycle_restricted) l h = h
Authorized-Answered max_size keys r (refused (Refusal.model_not_allowed m)) l h = h

check_request-Answered :
    (max_size : ℕ) (keys : List ApiKey) (r : HttpRequest) (index : Dict Text ApiKey)
    (read : Option Text)
    → ((t : Text) → Found t keys [] (get t index))
    → IsRead max_size r.incoming read
    → Answered max_size keys r (check_request read index r)
unfolding check_request Answered
check_request-Answered max_size keys r index none h i = i
check_request-Answered max_size keys r index (some body) h (same, l) =
    subst (λ b. Answered max_size keys r (check_request (some b) index r)) (sym same)
      (Authorized-Answered max_size keys r (authorize index r (r.model_of (join r.incoming.chunks)))
        (subst (λ b. length b ≤ max_size) same l)
        (authorize-Authorized keys r (r.model_of (join r.incoming.chunks)) index h))

-- The index that is kept is the one of the keys.
abbrev pub IsCurrent : List ApiKey → Option (Dict Text ApiKey) → Type 0
IsCurrent keys none = Unit
IsCurrent keys (some index) = index ≡ index_from keys []

current-Found :
    (keys : List ApiKey) (cached : Option (Dict Text ApiKey)) (t : Text)
    → IsCurrent keys cached
    → Found t keys [] (get t (api_key_index cached keys))
unfolding api_key_index
current-Found keys none t c = index_from-Found t keys []
current-Found keys (some index) t c =
    subst (λ i. Found t keys [] (get t i)) (sym c) (index_from-Found t keys [])

-- Where the kept index, if any, is that of the keys, an answer to a request for a protected path
-- has its reason. A request that passes has a body within the bound, which it can read again, and
-- either no key has a text, or its token is the text of a key that allows any model, or the model
-- it names, or it names none and its path is not that of a stored response. A request that is
-- refused is too large, or some key has a text and: it has no token; or its token is the text of no
-- key; or its key is restricted and the path is that of a stored response; or its key is restricted
-- to models that do not include the one it names.
pub proxy_auth-Answered :
    (max_size : ℕ) (cached : Option (Dict Text ApiKey)) (keys : List ApiKey) (r : HttpRequest)
    → IsCurrent keys cached
    → is_protected_proxy_path r.method r.path ≡ true
    → Answered max_size keys r (proxy_auth max_size cached keys r)
unfolding proxy_auth
proxy_auth-Answered max_size cached keys r c p = rw p (
    check_request-Answered max_size keys r (api_key_index cached keys)
      (read_and_buffer_body max_size r.incoming) (λ t. current-Found keys cached t c)
      (read_and_buffer_body-IsRead max_size r.incoming))
