-- ===== src/Admission/ProxyAuth.antt =====
-- middleware/proxy_auth_middleware.py: API keys and the models that they allow. The keys are those
-- that storage.py loads; what the request's JSON names as its model is a parameter of the request.
pub mod Answers
pub mod Justified
use llm_plug.Common.{
  ℕ, ◌+◌, String, Bool, true, false, ◌&&◌, ◌||◌, not, Option, none, some, List, [], ◌∷◌, ◌++◌,
  nat_eq, string_eq, ◌==◌, if◌then◌else◌, contains,
}
use llm_plug.Dict.{Dict, get, put}
use llm_plug.Text.{Text, codes, drop, starts_with, text_eq}
use llm_plug.Admission.Body.{Incoming, read_and_buffer_body}
use llm_plug.Admission.Paths.{is_protected_proxy_path}

pub record ApiKey : Type 0 where
  pub key : Option Text
  pub name : Text
  pub allowed_models : List Text

pub record HttpRequest : Type 0 where
  pub method : String
  pub path : Text
  pub authorization : Text
  pub x_api_key : Text
  pub incoming : Incoming
  pub model_of : Text → Text

pub data Refusal : Type 0 where
  too_large missing_header invalid_key lifecycle_restricted : Refusal
  model_not_allowed : Text → Refusal

unfoldable pub status : Refusal → ℕ
status too_large = 413
status missing_header = 401
status invalid_key = 401
status lifecycle_restricted = 403
status (model_not_allowed model) = 403

pub data Result (A : Type 0) : Type 0 where
  ok : A → Result A
  refused : Refusal → Result A

infixl 5 ◌>>=◌ ◌>>◌
abbrev pub ◌>>=◌ : {A B : Type 0} → Result A → (A → Result B) → Result B
ok a >>= f = f a
refused e >>= f = refused e

abbrev pub ◌>>◌ : {B : Type 0} → Result (Unit {0}) → Result B → Result B
m >> k = m >>= λ _. k

abbrev pub refuse_if : Bool → Refusal → Result (Unit {0})
refuse_if true e = refused e
refuse_if false e = ok tt

abbrev pub some_or : {A : Type 0} → Refusal → Option A → Result A
some_or e none = refused e
some_or e (some a) = ok a

-- {key.get("key"): key for key in api_keys if key.get("key")}
unfoldable pub configured_key : Option Text → Option Text
configured_key none = none
configured_key (some []) = none
configured_key (some (c ∷ t)) = some (c ∷ t)

unfoldable pub add_key : ApiKey → Option Text → Dict Text ApiKey → Dict Text ApiKey
add_key k none index = index
add_key k (some t) index = put t k index

unfoldable pub index_from : List ApiKey → Dict Text ApiKey → Dict Text ApiKey
unfolding add_key configured_key
index_from [] index = index
index_from (k ∷ keys) index = index_from keys (add_key k (configured_key k.key) index)

-- _get_api_key_index, with the index that it keeps until the keys are saved
unfoldable pub api_key_index : Option (Dict Text ApiKey) → List ApiKey → Dict Text ApiKey
unfolding index_from
api_key_index (some index) keys = index
api_key_index none keys = index_from keys []

abbrev pub bearer : Text
bearer = codes "Bearer "

unfoldable pub other_token : Text → Option Text
other_token [] = none
other_token (c ∷ t) = some (c ∷ t)

unfoldable pub token_of : HttpRequest → Option Text
unfolding other_token starts_with drop
token_of r =
    if starts_with bearer r.authorization
    then some (drop 7 r.authorization)
    else other_token r.x_api_key

unfoldable pub is_empty : {A : Type 0} → List A → Bool
is_empty [] = true
is_empty (a ∷ rest) = false

unfoldable pub is_lifecycle : HttpRequest → Bool
unfolding starts_with
is_lifecycle r =
    starts_with (codes "/v1/responses/") r.path
    && (r.method == "GET" || r.method == "DELETE" || r.method == "POST")

unfoldable pub check_models : ApiKey → HttpRequest → Text → Result (Unit {0})
unfolding is_empty is_lifecycle
check_models k r model = do
  refuse_if (not (is_empty k.allowed_models) && (is_empty model && is_lifecycle r))
      Refusal.lifecycle_restricted
  refuse_if
      (not (is_empty k.allowed_models)
        && (not (is_empty model) && not (contains model k.allowed_models)))
      (Refusal.model_not_allowed model)

-- The key that the request is let through with; none if no keys are configured.
unfoldable pub authorize : Dict Text ApiKey → HttpRequest → Text → Result (Option ApiKey)
unfolding token_of check_models
authorize [] r model = ok none
authorize (entry ∷ index) r model = do
  let configured = entry ∷ index
  token ← some_or Refusal.missing_header (token_of r)
  k ← some_or Refusal.invalid_key (get token configured)
  check_models k r model
  ok (some k)

-- What goes on to the application: the body that it can read again, and the key.
pub record Passed : Type 0 where
  pub body : Option Text
  pub key : Option ApiKey

unfoldable pub check_request : Option Text → Dict Text ApiKey → HttpRequest → Result Passed
unfolding authorize
check_request read index r = do
  body ← some_or Refusal.too_large read
  k ← authorize index r (r.model_of body)
  ok (record { body = some body; key = k })

unfoldable pub proxy_auth :
    ℕ → Option (Dict Text ApiKey) → List ApiKey → HttpRequest → Result Passed
unfolding is_protected_proxy_path read_and_buffer_body api_key_index check_request
proxy_auth max_body_size cached keys r =
    if is_protected_proxy_path r.method r.path
    then check_request (read_and_buffer_body max_body_size r.incoming) (api_key_index cached keys) r
    else ok (record { body = none; key = none })
