-- ===== src/Tests/WhitelistTests.antt =====
-- whitelist.py: the theorem at a concrete input, and runs of the middleware.
use llm_plug.Common.{ℕ, Option, none, some, List, [], ◌∷◌, ◌≡◌, refl, nat_eq, arith}
use llm_plug.Text.{Text, codes, same_text}
use llm_plug.Admission.Paths.{normalize_path}
use llm_plug.Admission.Whitelist.{
  Libraries, CsvFile, Denial, method_refused, outside_networks, unknown_address, whitelist,
}
use llm_plug.Admission.Whitelist.Judged.{Judged}
use llm_plug.Admission.Whitelist.Answers
use llm_plug.Admission.Whitelist.Answers.{Agrees, rules_in, cache_after}

-- An address, and the one address of a network.
abbrev address_of : Text → Option Text
address_of [] = none
address_of (c ∷ t) = some (c ∷ t)

abbrev libraries : Libraries Text Text
libraries = record {
  fnmatchcase = same_text;
  ip_network = address_of;
  ip_address = address_of;
  in_network = same_text;
}

abbrev row : Text → Text → Text → List Text
row path methods network = path ∷ methods ∷ network ∷ codes "office" ∷ []

abbrev older : CsvFile
older = record { mtime = 5; rows = row (codes "/v1/models") (codes "*") (codes "::1") ∷ [] }

abbrev newer : CsvFile
newer = record {
  mtime = 6;
  rows =
      row (codes "path_pattern") (codes "methods") (codes "ip_cidr")
      ∷ row (codes " /v1/models") (codes "get | post") (codes "::2")
      ∷ (codes "/v1/models" ∷ [])
      ∷ [];
}

abbrev earlier : List (Option CsvFile)
earlier = some older ∷ none ∷ some older ∷ []

abbrev answer : Text → Text → Text → Option Denial
answer path method client_ip =
    (whitelist libraries (cache_after libraries earlier) (some newer) path method client_ip).2

no_time : (n m : ℕ) → n ≡ 5 → m ≡ 6 → ¬ (n ≡ m)
no_time n m a b same = omega (arith, same, a, b)

whitelist-Judged_example :
    Judged libraries
      (normalize_path (codes "/models"))
      (codes "POST")
      (rules_in libraries (some newer))
      (libraries.ip_address (codes "::2"))
      (answer (codes "/models") (codes "POST") (codes "::2"))
whitelist-Judged_example =
    Answers.whitelist-Judged libraries earlier (some newer) (codes "/models") (codes "POST")
      (codes "::2")
      (
        (λ same. absurd (no_time 5 6 refl refl same)),
        (tt, ((λ same. absurd (no_time 5 6 refl refl same)), tt)),
      )

whitelist_allowed : answer (codes "/models") (codes "POST") (codes "::2") ≡ none
unfolding whitelist cache_after
whitelist_allowed = refl

whitelist_outside : answer (codes "/v1/models") (codes "POST") (codes "::1") ≡ some outside_networks
unfolding whitelist cache_after
whitelist_outside = refl

whitelist_method : answer (codes "/v1/models") (codes "PUT") (codes "::2") ≡ some method_refused
unfolding whitelist cache_after
whitelist_method = refl

whitelist_unknown : answer (codes "/v1/models") (codes "PUT") [] ≡ some unknown_address
unfolding whitelist cache_after
whitelist_unknown = refl

whitelist_free : answer (codes "/status") (codes "PUT") [] ≡ none
unfolding whitelist cache_after
whitelist_free = refl
