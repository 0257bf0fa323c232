-- ===== src/Admission/Sessions.antt =====
-- admin_auth.py: the password of the administrator, and sessions that are signed with its hash. The
-- file is a value, read and written under the module's lock. The hash functions are parameters: the
-- hash of a password under a salt with its verification, the HMAC of a session's payload, and the
-- digest under which a token is revoked. Instants are seconds.
pub mod Cleared
pub mod Revoked
use llm_plug.Common.{
  ℕ, ◌+◌, String, Bool, true, false, ◌&&◌, ◌||◌, not, Option, none, some, List, [], ◌∷◌, string_eq,
  ◌==◌, if◌then◌else◌, ltb, leb,
}
use llm_plug.Dict.{Dict, get, put, restrict}

-- A token `expiry.nonce.sig`, split and with its expiry read.
pub record Session : Type 0 where
  pub expiry : ℕ
  pub nonce : String
  pub sig : String

-- The content of the file; an empty hash stands for no password.
pub record AuthData : Type 0 where
  pub password_hash : String
  pub updated_at : ℕ
  pub revoked_sessions : Dict String ℕ

abbrev pub session_ttl_seconds : ℕ
session_ttl_seconds = 86400

abbrev pub no_data : AuthData
no_data = record { password_hash = ""; updated_at = 0; revoked_sessions = [] }

unfoldable pub clean_revoked_sessions : ℕ → Dict String ℕ → Dict String ℕ
clean_revoked_sessions now revoked = restrict (λ _ expiry. leb now expiry) revoked

unfoldable pub normalize_auth_data : ℕ → AuthData → AuthData
unfolding clean_revoked_sessions
normalize_auth_data now data_ = record data_ {
  revoked_sessions = clean_revoked_sessions now data_.revoked_sessions;
}

-- What the file holds, if it is there and can be read.
unfoldable pub read_auth_file : ℕ → Option AuthData → AuthData
unfolding normalize_auth_data
read_auth_file now none = no_data
read_auth_file now (some data_) = normalize_auth_data now data_

-- get_admin_auth_state, which writes back what it has cleaned
unfoldable pub get_admin_auth_state : ℕ → Option AuthData → Option AuthData
unfolding normalize_auth_data
get_admin_auth_state now none = none
get_admin_auth_state now (some data_) = some (normalize_auth_data now data_)

pub data AuthError : Type 0 where
  empty_password different_passwords short_password no_password wrong_password : AuthError

-- A password as the checks see it.
pub record Password : Type 0 where
  pub text : String
  pub is_blank : Bool
  pub is_short : Bool

pub data Result (A : Type 0) : Type 0 where
  ok : A → Result A
  raised : AuthError → Result A

-- The functions of the hash libraries.
pub record Crypto : Type 0 where
  pub sign : String → ℕ → String → String
  pub digest : Session → String
  pub hash_password : String → ℕ → String
  pub verify_password : String → String → Bool

unfoldable pub session_of : Crypto → String → ℕ → String → Session
session_of crypto password_hash now nonce =
    let expiry = now + session_ttl_seconds in
    record { expiry = expiry; nonce = nonce; sig = crypto.sign password_hash expiry nonce }

abbrev pub new_data : Crypto → String → ℕ → ℕ → AuthData
new_data crypto password salt now = record {
  password_hash = crypto.hash_password password salt;
  updated_at = now;
  revoked_sessions = [];
}

unfoldable pub setup_admin_password :
    Crypto → ℕ → Password → (salt : ℕ) → Option AuthData → Option AuthData × Result (Unit {0})
setup_admin_password crypto now password salt file =
    if password.is_blank
    then (file, raised empty_password)
    else (some (new_data crypto password.text salt now), ok tt)

-- The password that counts, set if there was none.
unfoldable pub ensure_password :
    Crypto → ℕ → Password → (salt : ℕ) → Option AuthData → Option AuthData
unfolding read_auth_file
ensure_password crypto now password salt file =
    if (read_auth_file now file).password_hash == ""
    then some (new_data crypto password.text salt now)
    else file

abbrev pub hash_of : Option AuthData → String
hash_of none = ""
hash_of (some data_) = data_.password_hash

unfoldable pub setup_and_login :
    Crypto
    → ℕ
    → Password
    → (salt : ℕ) → (nonce : String) → Option AuthData
    → Option AuthData × Result (Option Session)
unfolding ensure_password session_of
setup_and_login crypto now password salt nonce file =
    let next = ensure_password crypto now password salt file in
    if password.is_blank
    then (file, raised empty_password)
    else if crypto.verify_password password.text (hash_of next)
    then (next, ok (some (session_of crypto (hash_of next) now nonce)))
    else (next, ok none)

unfoldable pub create_admin_session :
    Crypto → ℕ → (nonce : String) → Option AuthData → Option AuthData × Result Session
unfolding get_admin_auth_state session_of
create_admin_session crypto now nonce file =
    let next = get_admin_auth_state now file in
    if hash_of next == ""
    then (next, raised no_password)
    else (next, ok (session_of crypto (hash_of next) now nonce))

-- A token that does not split, or whose expiry is no number, changes nothing.
unfoldable pub clear_admin_session : Crypto → ℕ → Option Session → Option AuthData → Option AuthData
unfolding read_auth_file clean_revoked_sessions
clear_admin_session crypto now none file = file
clear_admin_session crypto now (some token) file =
    let read = read_auth_file now file in
    some (record read {
      revoked_sessions =
          clean_revoked_sessions now (put (crypto.digest token) token.expiry read.revoked_sessions);
    })

unfoldable pub is_revoked : String → Dict String ℕ → Bool
unfolding get
is_revoked digest revoked = elim (get digest revoked) [ none ↦ false | some expiry ↦ true ]

abbrev pub revoked_of : Option AuthData → Dict String ℕ
revoked_of none = []
revoked_of (some data_) = data_.revoked_sessions

unfoldable pub is_signed : Crypto → String → Session → Bool
is_signed crypto password_hash token =
    crypto.sign password_hash token.expiry token.nonce == token.sig

unfoldable pub validate_admin_session :
    Crypto → ℕ → Option Session → Option AuthData → Option AuthData × Bool
unfolding get_admin_auth_state is_revoked is_signed
validate_admin_session crypto now none file = (file, false)
validate_admin_session crypto now (some token) file =
    let next = get_admin_auth_state now file in
    if ltb token.expiry now
    then (file, false)
    else if hash_of next == ""
    then (next, false)
    else if is_revoked (crypto.digest token) (revoked_of next)
    then (next, false)
    else (next, is_signed crypto (hash_of next) token)

unfoldable pub check_change : (old new confirmed : Password) → Result (Unit {0})
check_change old new confirmed =
    if old.is_blank || new.is_blank
    then raised empty_password
    else if not (new.text == confirmed.text)
    then raised different_passwords
    else if new.is_short
    then raised short_password
    else ok tt

unfoldable pub change_checked :
    Crypto
    → ℕ
    → (old new : Password) → (salt : ℕ) → Option AuthData
    → Result (Unit {0})
    → Option AuthData × Result (Unit {0})
unfolding read_auth_file
change_checked crypto now old new salt file (raised e) = (file, raised e)
change_checked crypto now old new salt file (ok u) =
    let read = read_auth_file now file in
    if read.password_hash == ""
    then (file, raised no_password)
    else if crypto.verify_password old.text read.password_hash
    then (some (new_data crypto new.text salt now), ok tt)
    else (file, raised wrong_password)

unfoldable pub change_admin_password :
    Crypto
    → ℕ
    → (old new confirmed : Password) → (salt : ℕ) → Option AuthData
    → Option AuthData × Result (Unit {0})
unfolding check_change change_checked
change_admin_password crypto now old new confirmed salt file =
    change_checked crypto now old new salt file (check_change old new confirmed)

-- Whatever changes the file, at an instant each.
pub data Operation : Type 0 where
  setting : Password → (salt : ℕ) → Operation
  logging_in : Password → (salt : ℕ) → (nonce : String) → Operation
  creating : (nonce : String) → Operation
  clearing validating : Option Session → Operation
  changing : (old new confirmed : Password) → (salt : ℕ) → Operation

unfoldable pub operate : Crypto → Operation → ℕ → Option AuthData → Option AuthData
unfolding setup_admin_password setup_and_login create_admin_session clear_admin_session
    validate_admin_session change_admin_password
operate crypto (setting password salt) now file =
    (setup_admin_password crypto now password salt file).0
operate crypto (logging_in password salt nonce) now file =
    (setup_and_login crypto now password salt nonce file).0
operate crypto (creating nonce) now file = (create_admin_session crypto now nonce file).0
operate crypto (clearing token) now file = clear_admin_session crypto now token file
operate crypto (validating token) now file = (validate_admin_session crypto now token file).0
operate crypto (changing old new confirmed salt) now file =
    (change_admin_password crypto now old new confirmed salt file).0

unfoldable pub operate_all : Crypto → List (Operation × ℕ) → Option AuthData → Option AuthData
unfolding operate
operate_all crypto [] file = file
operate_all crypto ((o, now) ∷ rest) file = operate_all crypto rest (operate crypto o now file)
