-- ===== src/Admission/Whitelist/Answers.antt =====
-- whitelist.py and middleware/whitelist_middleware.py: the answers to requests, over the life of the
-- cache.
use llm_plug.Common.{
  ℕ, true, Option, none, some, List, [], ◌∷◌, ◌≡◌, refl, subst, ◌∙◌, ◌⊎◌, inl, inr, nat_eq, All,
  Has, All-Has, ap, keep, keep-Has, Has-keep, Bool-cases,
}
use llm_plug.Text.{Text, text_eq}
use llm_plug.Admission.Paths.{normalize_path}
use llm_plug.Admission.Whitelist.{
  WhitelistRule, Libraries, CsvFile, WhitelistCache, Denial, unknown_address, outside_networks,
  method_refused, new_cache, is_cached, load_rules, get_rules, upper, check_methods, check_networks,
  check_address, check_path, check_request, whitelist,
}
use llm_plug.Admission.Whitelist.Judged.{
  All-of_Has, none_kept, Permits, Applies, Within, Methods, Judged, check_methods-Methods,
}

module _ {N A : Type 0} (libraries : Libraries N A) (path : Text) (method : Text)
    (rules : List (WhitelistRule N)) where
  abbrev applying : List (WhitelistRule N)
  applying = keep (λ r. libraries.fnmatchcase path r.path_pattern) rules

  abbrev inside : A → List (WhitelistRule N)
  inside addr = keep (λ r. libraries.in_network addr r.network) applying

  abbrev IsJudged : Option A → Option Denial → Type 0
  IsJudged = Judged libraries path method rules

  Methods-Judged :
      (addr : A) (r : WhitelistRule N) (o : Option Denial)
      → Has r (inside addr)
      → Methods method (inside addr) o
      → IsJudged (some addr) o
  Methods-Judged addr r none h (s, m, t) =
      let (kept, within) = Has-keep s (λ r. libraries.in_network addr r.network) applying m in
      let (member, applies) =
        Has-keep s (λ r. libraries.fnmatchcase path r.path_pattern) rules kept in
      inr (addr, refl, (s, member, applies, within, t))
  Methods-Judged addr r (some unknown_address) h m = absurd m
  Methods-Judged addr r (some outside_networks) h m = absurd m
  Methods-Judged addr r (some method_refused) h m =
      let (kept, within) = Has-keep r (λ r. libraries.in_network addr r.network) applying h in
      let (member, applies) =
        Has-keep r (λ r. libraries.fnmatchcase path r.path_pattern) rules kept in
      (
        addr,
        refl,
        (r, member, applies, within),
        All-of_Has
            (λ t.
              Applies libraries path t
              → Within libraries path addr t
              → ¬ Permits (upper method) t.methods)
            rules
            (λ t there applies' within'.
              All-Has (λ u. ¬ Permits (upper method) u.methods) t (inside addr) m
                (keep-Has t (λ u. libraries.in_network addr u.network) applying
                  (keep-Has t (λ u. libraries.fnmatchcase path u.path_pattern) rules there applies')
                  within')),
      )

  networks-Judged :
      (addr : A) (first : WhitelistRule N) (kept : List (WhitelistRule N))
      → Has first applying
      → kept ≡ inside addr
      → IsJudged (some addr) (check_networks (upper method) kept)
  unfolding check_networks
  networks-Judged addr first [] h e =
      let (member, applies) =
        Has-keep first (λ r. libraries.fnmatchcase path r.path_pattern) rules h in
      (
        addr,
        refl,
        (first, member, applies),
        All-of_Has (λ t. Applies libraries path t → ¬ Within libraries path addr t) rules
            (λ t there applies' within'.
              none_kept (λ r. libraries.in_network addr r.network) applying t e
                (keep-Has t (λ u. libraries.fnmatchcase path u.path_pattern) rules there applies')
                within'),
      )
  networks-Judged addr first (r ∷ kept) h e =
      Methods-Judged addr r (check_methods (upper method) (r ∷ kept)) (subst (Has r) e (inl refl)) (
        subst (λ l. Methods method l (check_methods (upper method) (r ∷ kept))) e
          (check_methods-Methods method (r ∷ kept)))

  address-Judged :
      (address : Option A) (first : WhitelistRule N) (l : List (WhitelistRule N))
      → Has first applying
      → l ≡ applying
      → IsJudged address (check_address libraries method address l)
  unfolding check_address
  address-Judged none first l h e =
      let (member, applies) =
        Has-keep first (λ r. libraries.fnmatchcase path r.path_pattern) rules h in
      (refl, (first, member, applies))
  address-Judged (some addr) first l h e =
      networks-Judged addr first (keep (λ r. libraries.in_network addr r.network) l) h
        (ap (keep (λ r. libraries.in_network addr r.network)) e)

  path-Judged :
      (address : Option A) (l : List (WhitelistRule N))
      → l ≡ applying
      → IsJudged address (check_path libraries method address l)
  unfolding check_path
  path-Judged address [] e = inl (
      All-of_Has (λ r. ¬ Applies libraries path r) rules
        (λ r m. none_kept (λ r. libraries.fnmatchcase path r.path_pattern) rules r e m))
  path-Judged address (r ∷ l) e = address-Judged address r (r ∷ l) (subst (Has r) e (inl refl)) e

  check_request-Judged :
      (client_ip : Text)
      → IsJudged
          (libraries.ip_address client_ip)
          (check_request libraries rules path method client_ip)
  unfolding check_request
  check_request-Judged client_ip = path-Judged (libraries.ip_address client_ip) applying refl

-- Two files with one time have the same records.
abbrev pub Agrees : Option CsvFile → Option CsvFile → Type 0
Agrees none other = Unit
Agrees (some file) none = Unit
Agrees (some file) (some other) = other.mtime ≡ file.mtime → other.rows ≡ file.rows

is_cached-true : (m : Option ℕ) (n : ℕ) → is_cached m n ≡ true → m ≡ some n
unfolding is_cached
is_cached-true none n e = cc
is_cached-true (some m) n e = ap some ((nat_eq.beq_iff m n).0 e)

-- The cache over a sequence of requests, each of which finds a file or none.
module _ {N A : Type 0} (libraries : Libraries N A) where
  unfoldable pub cache_after : List (Option CsvFile) → WhitelistCache N
  unfolding get_rules
  cache_after [] = new_cache
  cache_after (file ∷ earlier) = get_rules libraries (cache_after earlier) file

  abbrev pub rules_in : Option CsvFile → List (WhitelistRule N)
  rules_in none = []
  rules_in (some file) = load_rules libraries file.rows

  -- The rules are those of some file that was found with the cached time.
  IsOf : List (Option CsvFile) → WhitelistCache N → Type 0
  IsOf files cache =
      (cache.mtime ≡ none)
      ⊎ (file : CsvFile) × Has (some file) files
        × (cache.mtime ≡ some file.mtime)
        × (cache.rules ≡ load_rules libraries file.rows)

  IsOf-later :
      (file : Option CsvFile) (files : List (Option CsvFile)) (cache : WhitelistCache N)
      → IsOf files cache
      → IsOf (file ∷ files) cache
  unfolding IsOf
  IsOf-later file files cache (inl e) = inl e
  IsOf-later file files cache (inr (found, m, t, r)) = inr (found, inr m, t, r)

  cache_after-IsOf : (files : List (Option CsvFile)) → IsOf files (cache_after files)
  unfolding cache_after get_rules IsOf
  cache_after-IsOf [] = inl refl
  cache_after-IsOf (none ∷ files) = inl refl
  cache_after-IsOf (some file ∷ files) =
      elim (Bool-cases (is_cached (cache_after files).mtime file.mtime)) [
        | inl b ↦ rw b (IsOf-later (some file) files (cache_after files) (cache_after-IsOf files))
        | inr b ↦ rw b (inr (file, inl refl, refl, refl))
      ]

  IsOf-current :
      (file : CsvFile) (files : List (Option CsvFile)) (cache : WhitelistCache N)
      → All (Agrees (some file)) files
      → IsOf files cache
      → cache.mtime ≡ some file.mtime
      → cache.rules ≡ load_rules libraries file.rows
  unfolding IsOf
  IsOf-current file files cache agree (inl e) t = cc
  IsOf-current file files cache agree (inr (found, m, t', r)) t =
      let same_time : found.mtime ≡ file.mtime = cc in
      r
      ∙ ap (load_rules libraries)
          (All-Has (Agrees (some file)) (some found) files agree m same_time)

  get_rules-current :
      (file : Option CsvFile) (files : List (Option CsvFile))
      → All (Agrees file) files
      → (get_rules libraries (cache_after files) file).rules ≡ rules_in file
  unfolding get_rules
  get_rules-current none files agree = refl
  get_rules-current (some file) files agree =
      elim (Bool-cases (is_cached (cache_after files).mtime file.mtime)) [
        | inl b ↦ rw b (
            IsOf-current file files (cache_after files) agree (cache_after-IsOf files)
              (is_cached-true (cache_after files).mtime file.mtime b))
        | inr b ↦ rw b refl
      ]

  -- Where the file that a request finds has the records of each earlier file with its time, the
  -- request is answered by these records. It is let through if no rule applies to its normalized path,
  -- or if one that applies has the client in its network and permits the method. It is refused for its
  -- address, its network or its method if a rule applies and, in this order, the address cannot be
  -- read; no applying rule has the client in its network; or some do and none of them permits the
  -- method.
  pub whitelist-Judged :
      (files : List (Option CsvFile)) (file : Option CsvFile) (path method client_ip : Text)
      → All (Agrees file) files
      → Judged libraries
          (normalize_path path)
          method
          (rules_in file)
          (libraries.ip_address client_ip)
          (whitelist libraries (cache_after files) file path method client_ip).2
  unfolding whitelist
  whitelist-Judged files file path method client_ip agree =
      rw (get_rules-current file files agree)
        (check_request-Judged libraries (normalize_path path) method (rules_in file) client_ip)
