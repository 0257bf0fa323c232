-- ===== src/ResponseStore/Lookup.antt =====
-- state_store.py: what is found of a stored response.
use llm_plug.Common.{
  ℕ, ◌+◌, Bool, true, none, some, if◌then◌else◌, ltb, ◌≡◌, ◌∙◌, ap, subst, arith, Bool-cases, inl,
  inr, eq_self,
}
use llm_plug.Dict.Laws.{get-put}
use llm_plug.Text.{Text, text_eq}
use llm_plug.ResponseStore.{
  Entry, FileStore, is_safe, unexpired, entry_of, read_file, write_file, get_entry, response_in,
  get_response, new_entry, put_entry, whole_seconds,
}

module _ {P : Type 0} where
  written-read :
      (now u : ℕ) (id : Text) (e : Entry P) (self : FileStore P)
      → read_file u id (write_file true now id e self) ≡ unexpired u (some e)
  unfolding read_file write_file
  written-read now u id e self =
      let law = get-put id id (record { entry = some e; mtime = now }) self.files in
      let found = rw (eq_self id) at law in ap (λ f. unexpired u (entry_of f)) found

  response-unexpired :
      (u : ℕ) (e : Entry P)
      → response_in (unexpired u (some e)) ≡ (if ltb e.expires_at u then none else some e.response)
  unfolding response_in unexpired
  response-unexpired u e = ground arith

  safe-response :
      (is_written : Bool) (now u : ℕ) (id : Text) (conversation response : P) (self : FileStore P)
      → is_safe id ≡ true
      → (get_response is_written u id
          (write_file true now id (new_entry now self.ttl conversation response) self)).0
        ≡ (if ltb (whole_seconds now + self.ttl) u then none else some response)
  unfolding get_response get_entry new_entry
  safe-response is_written now u id conversation response self s =
      let e = new_entry now self.ttl conversation response in
      rw s (ap response_in (written-read now u id e self) ∙ response-unexpired u e)

  -- A response that was stored is found as it was until its time to live is over, counted from the
  -- whole second in which it was stored, and never after.
  pub get_response-put_entry :
      (is_written : Bool) (now u : ℕ) (id : Text) (conversation response : P)
      (self next : FileStore P)
      → put_entry true now id conversation response self ≡ some next
      → (get_response is_written u id next).0
        ≡ (if ltb (whole_seconds now + self.ttl) u then none else some response)
  unfolding put_entry
  get_response-put_entry is_written now u id conversation response self next e =
      elim (Bool-cases (is_safe id)) [
        | inr b ↦ let impossible : none ≡ some next = rw b at e in cc
        | inl b ↦
            let stored : some
                  (write_file true now id (new_entry now self.ttl conversation response) self)
                ≡ some next =
              rw b at e in
            let same : write_file true now id (new_entry now self.ttl conversation response) self
                ≡ next =
              cc in
            subst
              (λ s.
                (get_response is_written u id s).0
                ≡ (if ltb (whole_seconds now + self.ttl) u then none else some response))
              same (safe-response is_written now u id conversation response self b)
      ]
