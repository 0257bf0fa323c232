-- ===== src/Admission/Sessions/Revoked.antt =====
-- admin_auth.py: a session that is cleared is not accepted again.
use llm_plug.Common.{
  ℕ, ◌≤◌, ◌<◌, String, Bool, true, false, Option, none, some, [], ◌∷◌, string_eq, ◌==◌, ltb, leb,
  ◌≡◌, refl, sym, ◌∙◌, ap, subst, arith, Bool-cases, ◌⊎◌, inl, inr,
}
use llm_plug.Dict.{Dict, get, put, restrict}
use llm_plug.Dict.Laws.{get-put}
use llm_plug.Admission.Sessions.{
  Session, AuthData, clean_revoked_sessions, normalize_auth_data, read_auth_file,
  get_admin_auth_state, Password, Result, ok, raised, Crypto, ensure_password, hash_of, is_revoked,
  revoked_of, is_signed, validate_admin_session, change_checked, Operation, new_data,
}

get-restrict_kept :
    {V : Type 0} (j : String) (p : String → V → Bool) (v : V) (d : Dict String V)
    → get j d ≡ some v
    → p j v ≡ true
    → get j (restrict p d) ≡ some v
unfolding get restrict
get-restrict_kept j p v [] e h = cc
get-restrict_kept j p v ((i, w) ∷ d) e h = elim (Bool-cases (i == j)) [
  | inl b ↦
      let same : i ≡ j = (string_eq.beq_iff i j).0 b in
      let found : some w ≡ some v = rw b at e in
      let value : w ≡ v = cc in
      let kept : p i w ≡ true =
        subst (λ k. p k w ≡ true) (sym same) (subst (λ x. p j x ≡ true) (sym value) h) in
      rw (kept, get) (rw b found)
  | inr b ↦
      let later = get-restrict_kept j p v d (rw b at e) h in
      elim (Bool-cases (p i w)) [ inl k ↦ rw (k, get) (rw b later) | inr k ↦ rw k later ]
]

module _ (crypto : Crypto) (token : Session) where
  -- The token is over, or not signed with the hash of the file, or in its list of revoked sessions.
  unfoldable pub IsRefused : ℕ → Option AuthData → Type 0
  IsRefused now file =
      (token.expiry < now)
      ⊎ ((is_signed crypto (hash_of file) token ≡ false)
          ⊎ (get (crypto.digest token) (revoked_of file) ≡ some token.expiry))

  pub clean-IsRefused :
      (now : ℕ) (file : AuthData)
      → IsRefused now (some file)
      → IsRefused now (some (normalize_auth_data now file))
  unfolding IsRefused normalize_auth_data clean_revoked_sessions
  clean-IsRefused now file (inl h) = inl h
  clean-IsRefused now file (inr (inl h)) = inr (inl h)
  clean-IsRefused now file (inr (inr h)) = elim (Bool-cases (leb now token.expiry)) [
    | inr b ↦ inl (ground arith)
    | inl b ↦ inr (
        inr (
          get-restrict_kept (crypto.digest token) (λ _ expiry. leb now expiry) token.expiry
            file.revoked_sessions h b))
  ]

  pub IsRefused-later :
      (now u : ℕ) (file : Option AuthData) → now ≤ u → IsRefused now file → IsRefused u file
  unfolding IsRefused
  IsRefused-later now u file l (inl h) = inl (omega arith)
  IsRefused-later now u file l (inr h) = inr h

  pub state-IsRefused :
      (now : ℕ) (file : Option AuthData)
      → IsRefused now file
      → IsRefused now (get_admin_auth_state now file)
  unfolding get_admin_auth_state
  state-IsRefused now none h = h
  state-IsRefused now (some file) h = clean-IsRefused now file h

  pub read-IsRefused :
      (now : ℕ) (file : Option AuthData)
      → IsRefused now file
      → IsRefused now (some (read_auth_file now file))
  unfolding read_auth_file IsRefused
  read-IsRefused now none h = h
  read-IsRefused now (some file) h = clean-IsRefused now file h

  is_revoked_found :
      (d : String) (revoked : Dict String ℕ) {e : ℕ}
      → get d revoked ≡ some e
      → is_revoked d revoked ≡ true
  unfolding is_revoked
  is_revoked_found d revoked e = rw (e, is_revoked) refl

  -- What a validation says at the end.
  verdict-false :
      (now : ℕ) (next : Option AuthData)
      → ltb token.expiry now ≡ false
      → IsRefused now next
      → is_revoked (crypto.digest token) (revoked_of next) ≡ false
      → is_signed crypto (hash_of next) token ≡ false
  unfolding IsRefused
  verdict-false now next b (inl h) r = absurd (ground arith)
  verdict-false now next b (inr (inl h)) r = h
  verdict-false now next b (inr (inr h)) r =
      let yes = is_revoked_found (crypto.digest token) (revoked_of next) h in cc

  pub refused-validate :
      (now : ℕ) (file : Option AuthData)
      → IsRefused now file
      → (validate_admin_session crypto now (some token) file).1 ≡ false
  unfolding validate_admin_session
  refused-validate now file h =
      let next = get_admin_auth_state now file in
      elim (Bool-cases (ltb token.expiry now)) [
        | inl a ↦ rw a refl
        | inr a ↦ elim (Bool-cases (hash_of next == "")) [
          | inl b ↦ rw (a, b) refl
          | inr b ↦ elim (Bool-cases (is_revoked (crypto.digest token) (revoked_of next))) [
            | inl c ↦ rw (a, b, c) refl
            | inr c ↦ rw (a, b, c) (verdict-false now next a (state-IsRefused now file h) c)
          ]
        ]
      ]

  -- A hash that the token is not signed with.
  abbrev pub IsFresh : Operation → Type 0
  IsFresh (Operation.setting password salt) =
      is_signed crypto (crypto.hash_password password.text salt) token ≡ false
  IsFresh (Operation.logging_in password salt nonce) =
      is_signed crypto (crypto.hash_password password.text salt) token ≡ false
  IsFresh (Operation.creating nonce) = Unit
  IsFresh (Operation.clearing other) = Unit
  IsFresh (Operation.validating other) = Unit
  IsFresh (Operation.changing old new confirmed salt) =
      is_signed crypto (crypto.hash_password new.text salt) token ≡ false

  pub new_data-IsRefused :
      (now salt : ℕ) (password : String)
      → is_signed crypto (crypto.hash_password password salt) token ≡ false
      → IsRefused now (some (new_data crypto password salt now))
  unfolding IsRefused
  new_data-IsRefused now salt password f = inr (inl f)

  pub ensure_password-IsRefused :
      (now : ℕ) (password : Password) (salt : ℕ) (file : Option AuthData)
      → is_signed crypto (crypto.hash_password password.text salt) token ≡ false
      → IsRefused now file
      → IsRefused now (ensure_password crypto now password salt file)
  unfolding ensure_password
  ensure_password-IsRefused now password salt file f h =
      elim (Bool-cases ((read_auth_file now file).password_hash == "")) [
        | inl b ↦ rw b (new_data-IsRefused now salt password.text f)
        | inr b ↦ rw b h
      ]

  pub validating-IsRefused :
      (now : ℕ) (other : Option Session) (file : Option AuthData)
      → IsRefused now file
      → IsRefused now (validate_admin_session crypto now other file).0
  unfolding validate_admin_session
  validating-IsRefused now none file h = h
  validating-IsRefused now (some t) file h =
      let next = get_admin_auth_state now file in
      let n = state-IsRefused now file h in
      elim (Bool-cases (ltb t.expiry now)) [
        | inl a ↦ rw a h
        | inr a ↦ elim (Bool-cases (hash_of next == "")) [
          | inl b ↦ rw (a, b) n
          | inr b ↦ elim (Bool-cases (is_revoked (crypto.digest t) (revoked_of next))) [
            | inl c ↦ rw (a, b, c) n
            | inr c ↦ rw (a, b, c) n
          ]
        ]
      ]

  pub changing-IsRefused :
      (now : ℕ) (old new : Password) (salt : ℕ) (file : Option AuthData) (r : Result (Unit {0}))
      → is_signed crypto (crypto.hash_password new.text salt) token ≡ false
      → IsRefused now file
      → IsRefused now (change_checked crypto now old new salt file r).0
  unfolding change_checked
  changing-IsRefused now old new salt file (raised e) f h = h
  changing-IsRefused now old new salt file (ok u) f h =
      let hash = (read_auth_file now file).password_hash in
      elim (Bool-cases (hash == "")) [
        | inl b ↦ rw b h
        | inr b ↦ elim (Bool-cases (crypto.verify_password old.text hash)) [
          | inl c ↦ rw (b, c) (new_data-IsRefused now salt new.text f)
          | inr c ↦ rw (b, c) h
        ]
      ]

  module _ (injective : (t : Session) → crypto.digest t ≡ crypto.digest token → t ≡ token) where
    pub put-IsRefused :
        (now : ℕ) (t : Session) (file : AuthData)
        → IsRefused now (some file)
        → IsRefused now (
            some (record file {
              revoked_sessions = put (crypto.digest t) t.expiry file.revoked_sessions;
            }))
    unfolding IsRefused
    put-IsRefused now t file (inl h) = inl h
    put-IsRefused now t file (inr (inl h)) = inr (inl h)
    put-IsRefused now t file (inr (inr h)) =
        let law = get-put (crypto.digest token) (crypto.digest t) t.expiry file.revoked_sessions in
        elim (Bool-cases (crypto.digest t == crypto.digest token)) [
          | inl b ↦
              let same =
                injective t ((string_eq.beq_iff (crypto.digest t) (crypto.digest token)).0 b) in
              inr (inr (rw b at law ∙ ap (λ s. some s.expiry) same))
          | inr b ↦ inr (inr (rw b at law ∙ h))
        ]
