-- ===== src/Admission/Paths.antt =====
-- middleware/common.py: the normalization of paths, and the paths that ask for a key.
pub mod Normal
use llm_plug.Common.{
  ℕ, zero, suc, ◌+◌, String, Bool, true, false, ◌&&◌, ◌||◌, not, Option, none, some, List, [], ◌∷◌,
  ◌++◌, nat_eq, string_eq, ◌==◌, if◌then◌else◌, ◌≡◌, refl, contains,
}
use llm_plug.Text.{Text, codes, starts_with, same_text, text_eq}

abbrev pub v1 : Text
v1 = codes "/v1"

abbrev pub slash : Text
slash = codes "/"

abbrev pub newline : ℕ
newline = 10

abbrev pub bare_prefixes : List Text
bare_prefixes =
    codes "/chat/completions"
    ∷ codes "/anthropic/models"
    ∷ codes "/responses"
    ∷ codes "/messages"
    ∷ codes "/models"
    ∷ []

abbrev pub proxy_paths : List Text
proxy_paths = codes "/v1/chat/completions" ∷ codes "/v1/responses" ∷ codes "/v1/messages" ∷ []

abbrev pub model_list_paths : List Text
model_list_paths = codes "/v1/models" ∷ codes "/v1/anthropic/models" ∷ []

-- What `.*` matches.
unfoldable pub before_newline : Text → Text
before_newline [] = []
before_newline (c ∷ t) = let rest = before_newline t in if c == newline then [] else c ∷ rest

unfoldable pub or_else : Option Text → Text → Text
or_else none t = t
or_else (some g) t = g

-- The second group of `^(/v1)+(/.*)`, which takes as many `/v1` as it can.
unfoldable pub after_v1 : Text → Option Text
unfolding same_text starts_with before_newline or_else
after_v1 (a ∷ b ∷ c ∷ rest) =
    let inner = after_v1 rest in
    if same_text (a ∷ b ∷ c ∷ []) v1 && starts_with slash rest
    then some (or_else inner (before_newline rest))
    else none
after_v1 (a ∷ b ∷ []) = none
after_v1 (a ∷ []) = none
after_v1 [] = none

unfoldable pub is_bare : List Text → Text → Bool
unfolding same_text starts_with
is_bare [] path = false
is_bare (prefix ∷ prefixes) path =
    same_text path prefix || starts_with (prefix ++ slash) path || is_bare prefixes path

unfoldable pub normalized : Option Text → Text → Text
unfolding is_bare
normalized (some g) path = v1 ++ g
normalized none path = if is_bare bare_prefixes path then v1 ++ path else path

unfoldable pub normalize_path : Text → Text
unfolding after_v1 normalized
normalize_path path = normalized (after_v1 path) path

unfoldable pub is_protected_proxy_path : String → Text → Bool
unfolding starts_with same_text
is_protected_proxy_path method path =
    if method == "POST" && contains path proxy_paths
    then true
    else if method == "GET" && contains path model_list_paths
    then true
    else starts_with (codes "/v1/responses/") path
      && (method == "GET" || method == "POST" || method == "DELETE")

abbrev pub HasNoNewline : Text → Type 0
HasNoNewline t = before_newline t ≡ t
