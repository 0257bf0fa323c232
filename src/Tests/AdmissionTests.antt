-- ===== src/Tests/AdmissionTests.antt =====
-- middleware/ and quota_limits/: the theorems at concrete inputs.
use llm_plug.Common.{
  false, ◌==◌, ◌&&◌, nat_eq, if◌then◌else◌, Bool, Bool-cases, inl, inr, Option, String, true, ℕ,
  none, some, List, [], ◌∷◌, ◌≡◌, refl, arith, string_eq,
}
use llm_plug.Dict.{get, put, restrict}
use llm_plug.Text.{codes}
use llm_plug.Admission.Paths.{before_newline, normalize_path, is_protected_proxy_path}
use llm_plug.Admission.Paths.Normal
use llm_plug.Admission.ProxyAuth.{ApiKey, HttpRequest, Refusal, refused, proxy_auth}
use llm_plug.Admission.ProxyAuth.Answers
use llm_plug.Admission.ProxyAuth.Answers.{Answered}
use llm_plug.Admission.Sessions.{
  Session, AuthData, Crypto, Password, validate_admin_session, clear_admin_session,
}
use llm_plug.Admission.Sessions.Cleared
use llm_plug.Admission.Sessions as SessionStore
use llm_plug.QuotaLimits.{
  StoredFile, QuotaLimitStore, Operation, raw_entries, load, has_active_window, operate_all,
}
use llm_plug.QuotaLimits.Restart

normalize_path_idem_example :
    normalize_path (normalize_path (codes "/v1/v1/models")) ≡ normalize_path (codes "/v1/v1/models")
unfolding before_newline
normalize_path_idem_example = Normal.normalize_path_idem (codes "/v1/v1/models") refl

normalize_path_run : normalize_path (codes "/v1/v1/models") ≡ codes "/v1/models"
unfolding normalize_path
normalize_path_run = refl

abbrev restricted : ApiKey
restricted = record {
  key = some (codes "sk-1");
  name = codes "team";
  allowed_models = codes "gpt" ∷ [];
}

abbrev request : HttpRequest
request = record {
  method = "POST";
  path = codes "/v1/messages";
  authorization = codes "Bearer sk-1";
  x_api_key = [];
  incoming = record { content_length = some 3; chunks = codes "a" ∷ codes "bc" ∷ [] };
  model_of = λ body. codes "claude";
}

refused_model :
    proxy_auth 10 none (restricted ∷ []) request
    ≡ refused (Refusal.model_not_allowed (codes "claude"))
unfolding proxy_auth put get
refused_model = refl

proxy_auth-Answered_example :
    Answered 10 (restricted ∷ []) request (proxy_auth 10 none (restricted ∷ []) request)
unfolding is_protected_proxy_path
proxy_auth-Answered_example = Answers.proxy_auth-Answered 10 none (restricted ∷ []) request tt refl

abbrev stored : QuotaLimitStore
stored = record {
  limits = [];
  file = StoredFile.entries (
      ("ch_a", record { reset_at = some 50; code = none })
      ∷ ("ch_b", record { reset_at = none; code = none })
      ∷ []);
}

abbrev operations : List (Operation × ℕ)
operations = (Operation.marked "ch_b" 80 "quota", 20) ∷ (Operation.asked "ch_a", 60) ∷ []

has_active_window-load_example :
    (has_active_window 70 "ch_b" (load 70 (operate_all operations (load 10 stored)))).0
    ≡ (has_active_window 70 "ch_b" (operate_all operations (load 10 stored))).0
unfolding raw_entries
has_active_window-load_example =
    Restart.has_active_window-load 10 70 operations stored "ch_b" (refl, (refl, tt))
      (omega arith, (omega arith, omega arith))

abbrev token : Session
token = record { expiry = 90000; nonce = "n1"; sig = "secret" }

-- A digest that tells the token from any other.
abbrev is_token : Session → Bool
is_token t = (t.expiry == 90000) && ((t.nonce == "n1") && (t.sig == "secret"))

abbrev crypto : Crypto
crypto = record {
  sign = λ hash expiry nonce. hash;
  digest = λ t. if is_token t then "a" else "b";
  hash_password = λ password salt. password;
  verify_password = λ password hash. password == hash;
}

no_false : ¬ (false ≡ true)
no_false e = cc

digest_of_token : (t : Session) → crypto.digest t ≡ crypto.digest token → t ≡ token
digest_of_token t e = elim (Bool-cases (is_token t)) [
  | inl b ↦
      let expiry : t.expiry ≡ 90000 = (nat_eq.beq_iff t.expiry 90000).0 (ground arith) in
      let nonce : t.nonce ≡ "n1" = (string_eq.beq_iff t.nonce "n1").0 (ground arith) in
      let sig : t.sig ≡ "secret" = (string_eq.beq_iff t.sig "secret").0 (ground arith) in cc
  | inr b ↦
      let differ : "b" ≡ "a" = rw b at e in
      let impossible : false ≡ true = (string_eq.beq_iff "b" "a").1 differ in
      absurd (no_false impossible)
]

abbrev admin_file : Option AuthData
admin_file = some (record { password_hash = "secret"; updated_at = 5; revoked_sessions = [] })

abbrev password_of : String → Password
password_of text = record { text = text; is_blank = false; is_short = false }

accepted_before : (validate_admin_session crypto 100 (some token) admin_file).1 ≡ true
unfolding validate_admin_session get restrict
accepted_before = refl

abbrev admin_operations : List (SessionStore.Operation × ℕ)
admin_operations =
    (SessionStore.clearing none, 150)
    ∷ (
      SessionStore.changing (password_of "secret") (password_of "better") (password_of "better") 7,
      200,
    )
    ∷ []

validate_admin_session-cleared_example :
    (validate_admin_session crypto 300 (some token) (
      SessionStore.operate_all crypto admin_operations
        (clear_admin_session crypto 100 (some token) admin_file))).1
    ≡ false
unfolding SessionStore.is_signed
validate_admin_session-cleared_example =
    Cleared.validate_admin_session-cleared crypto token digest_of_token admin_operations 100 300
      admin_file (omega arith, tt, (omega arith, refl, omega arith))
