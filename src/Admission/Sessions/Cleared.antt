-- ===== src/Admission/Sessions/Cleared.antt =====
-- admin_auth.py: once cleared, a session is refused for good.
use llm_plug.Common.{
  ℕ, ◌≤◌, String, false, Option, none, some, List, [], ◌∷◌, string_eq, ◌==◌, eq_self, ◌≡◌,
  Bool-cases, inl, inr,
}
use llm_plug.Dict.{put}
use llm_plug.Dict.Laws.{get-put}
use llm_plug.Admission.Sessions.{
  Session, AuthData, normalize_auth_data, read_auth_file, get_admin_auth_state, Password, Crypto,
  setup_admin_password, ensure_password, hash_of, setup_and_login, create_admin_session,
  clear_admin_session, is_signed, validate_admin_session, check_change, change_admin_password,
  Operation, operate, operate_all,
}
use llm_plug.Admission.Sessions.Revoked.{
  IsRefused, clean-IsRefused, IsRefused-later, state-IsRefused, read-IsRefused, refused-validate,
  IsFresh, new_data-IsRefused, ensure_password-IsRefused, validating-IsRefused, changing-IsRefused,
  put-IsRefused,
}

module _ (crypto : Crypto) (token : Session) where
  -- Clearing the token itself.
  clear-IsRefused :
      (now : ℕ) (file : Option AuthData)
      → IsRefused crypto token now (clear_admin_session crypto now (some token) file)
  unfolding clear_admin_session normalize_auth_data IsRefused
  clear-IsRefused now file =
      let read = read_auth_file now file in
      let d = crypto.digest token in
      let law = get-put d d token.expiry read.revoked_sessions in
      clean-IsRefused crypto token now
        (record read { revoked_sessions = put d token.expiry read.revoked_sessions })
        (inr (inr (rw (eq_self d) at law)))

  module _ (injective : (t : Session) → crypto.digest t ≡ crypto.digest token → t ≡ token) where
    clearing-IsRefused :
        (now : ℕ) (other : Option Session) (file : Option AuthData)
        → IsRefused crypto token now file
        → IsRefused crypto token now (clear_admin_session crypto now other file)
    unfolding clear_admin_session normalize_auth_data
    clearing-IsRefused now none file h = h
    clearing-IsRefused now (some t) file h =
        let read = read_auth_file now file in
        clean-IsRefused crypto token now
          (record read { revoked_sessions = put (crypto.digest t) t.expiry read.revoked_sessions })
          (put-IsRefused crypto token injective now t read (read-IsRefused crypto token now file h))

    logging_in-IsRefused :
        (now : ℕ) (password : Password) (salt : ℕ) (nonce : String) (file : Option AuthData)
        → is_signed crypto (crypto.hash_password password.text salt) token ≡ false
        → IsRefused crypto token now file
        → IsRefused crypto token now (setup_and_login crypto now password salt nonce file).0
    unfolding setup_and_login
    logging_in-IsRefused now password salt nonce file f h =
        let next = ensure_password crypto now password salt file in
        let n = ensure_password-IsRefused crypto token now password salt file f h in
        elim (Bool-cases password.is_blank) [
          | inl b ↦ rw b h
          | inr b ↦ elim (Bool-cases (crypto.verify_password password.text (hash_of next))) [
            | inl c ↦ rw (b, c) n
            | inr c ↦ rw (b, c) n
          ]
        ]

    creating-IsRefused :
        (now : ℕ) (nonce : String) (file : Option AuthData)
        → IsRefused crypto token now file
        → IsRefused crypto token now (create_admin_session crypto now nonce file).0
    unfolding create_admin_session
    creating-IsRefused now nonce file h =
        let n = state-IsRefused crypto token now file h in
        elim (Bool-cases (hash_of (get_admin_auth_state now file) == "")) [
          | inl b ↦ rw b n
          | inr b ↦ rw b n
        ]

    setting-IsRefused :
        (now : ℕ) (password : Password) (salt : ℕ) (file : Option AuthData)
        → is_signed crypto (crypto.hash_password password.text salt) token ≡ false
        → IsRefused crypto token now file
        → IsRefused crypto token now (setup_admin_password crypto now password salt file).0
    unfolding setup_admin_password
    setting-IsRefused now password salt file f h = elim (Bool-cases password.is_blank) [
      | inl b ↦ rw b h
      | inr b ↦ rw b (new_data-IsRefused crypto token now salt password.text f)
    ]

    operate-IsRefused :
        (o : Operation) (now : ℕ) (file : Option AuthData)
        → IsFresh crypto token o
        → IsRefused crypto token now file
        → IsRefused crypto token now (operate crypto o now file)
    unfolding operate change_admin_password
    operate-IsRefused (Operation.setting password salt) now file f h =
        setting-IsRefused now password salt file f h
    operate-IsRefused (Operation.logging_in password salt nonce) now file f h =
        logging_in-IsRefused now password salt nonce file f h
    operate-IsRefused (Operation.creating nonce) now file f h = creating-IsRefused now nonce file h
    operate-IsRefused (Operation.clearing other) now file f h = clearing-IsRefused now other file h
    operate-IsRefused (Operation.validating other) now file f h =
        validating-IsRefused crypto token now other file h
    operate-IsRefused (Operation.changing old new confirmed salt) now file f h =
        changing-IsRefused crypto token now old new salt file (check_change old new confirmed) f h

    -- The operations between `start` and `now`: the clock does not go back, and no new password has
    -- a hash that the token is signed with.
    abbrev pub Follows : ℕ → List (Operation × ℕ) → ℕ → Type 0
    Follows start [] now = start ≤ now
    Follows start ((o, u) ∷ rest) now = (start ≤ u) × IsFresh crypto token o × Follows u rest now

    operate_all-IsRefused :
        (operations : List (Operation × ℕ)) (start now : ℕ) (file : Option AuthData)
        → Follows start operations now
        → IsRefused crypto token start file
        → IsRefused crypto token now (operate_all crypto operations file)
    unfolding operate_all
    operate_all-IsRefused [] start now file f h = IsRefused-later crypto token start now file f h
    operate_all-IsRefused ((o, u) ∷ rest) start now file f h =
        operate_all-IsRefused rest u now (operate crypto o u file) f.2
          (operate-IsRefused o u file f.1 (IsRefused-later crypto token start u file f.0 h))

    -- Where no other token has its digest, and no new password gets a hash that it is signed with, a
    -- token that was cleared is never accepted again, whatever is done while the clock does not go
    -- back.
    pub validate_admin_session-cleared :
        (operations : List (Operation × ℕ)) (start now : ℕ) (file : Option AuthData)
        → Follows start operations now
        → (validate_admin_session crypto now
            (some token)
            (operate_all crypto operations (clear_admin_session crypto start (some token) file))).1
          ≡ false
    validate_admin_session-cleared operations start now file f =
        let cleared = clear_admin_session crypto start (some token) file in
        refused-validate crypto token now (operate_all crypto operations cleared)
          (operate_all-IsRefused operations start now cleared f (clear-IsRefused start file))
