-- ===== src/Admission/Whitelist.antt =====
-- whitelist.py and middleware/whitelist_middleware.py: the rules on networks, their cache, and the
-- check of a request. The libraries for globs, networks and addresses are parameters. The file is its
-- records, as the CSV library reads the lines that are neither blank nor comments.
pub mod Answers
pub mod Judged
use llm_plug.Common.{
  ℕ, zero, suc, ◌+◌, ◌-◌, Bool, true, false, ◌&&◌, ◌||◌, Option, none, some, List, [], ◌∷◌, map,
  nat_eq, ◌==◌, if◌then◌else◌, leb, keep, contains,
}
use llm_plug.Text.{Text, codes, same_text, text_eq}
use llm_plug.Admission.Paths.{normalize_path}

-- No methods stand for all methods.
pub record WhitelistRule (Network : Type 0) : Type 0 where
  pub path_pattern : Text
  pub methods : List Text
  pub network : Network
  pub description : Text

pub record Libraries (Network Address : Type 0) : Type 0 where
  pub fnmatchcase : Text → Text → Bool
  pub ip_network : Text → Option Network
  pub ip_address : Text → Option Address
  pub in_network : Address → Network → Bool

pub record CsvFile : Type 0 where
  pub mtime : ℕ
  pub rows : List (List Text)

-- No time stands for -1.0.
pub record WhitelistCache (Network : Type 0) : Type 0 where
  pub mtime : Option ℕ
  pub rules : List (WhitelistRule Network)

pub data Denial : Type 0 where
  unknown_address outside_networks method_refused : Denial

-- The white space of `str.strip`.
unfoldable pub is_space : ℕ → Bool
is_space c =
    leb 9 c && leb c 13
    || leb 28 c && leb c 32
    || leb 8192 c && leb c 8202
    || contains c (133 ∷ 160 ∷ 5760 ∷ 8232 ∷ 8233 ∷ 8239 ∷ 8287 ∷ 12288 ∷ [])

unfoldable pub lstrip : Text → Text
unfolding is_space
lstrip [] = []
lstrip (c ∷ t) = let rest = lstrip t in if is_space c then rest else c ∷ t

unfoldable pub is_blank : Text → Bool
is_blank [] = true
is_blank (c ∷ t) = false

unfoldable pub rstrip : Text → Text
unfolding is_space is_blank
rstrip [] = []
rstrip (c ∷ t) = let rest = rstrip t in if is_space c && is_blank rest then [] else c ∷ rest

unfoldable pub strip : Text → Text
unfolding lstrip rstrip
strip t = lstrip (rstrip t)

-- An HTTP method has letters of ASCII only.
unfoldable pub upper : Text → Text
upper t = map (λ c. if leb 97 c && leb c 122 then c - 32 else c) t

unfoldable pub in_first : ℕ → List Text → List Text
in_first c [] = []
in_first c (t ∷ ts) = (c ∷ t) ∷ ts

-- methods_str.split("|")
unfoldable pub split_bar : Text → List Text
unfolding in_first
split_bar [] = [] ∷ []
split_bar (c ∷ t) = let rest = split_bar t in if c == 124 then [] ∷ rest else in_first c rest

unfoldable pub methods_of : Text → List Text
unfolding is_blank same_text upper strip split_bar
methods_of methods_str =
    if is_blank methods_str || same_text methods_str (codes "*")
    then []
    else map (λ m. upper (strip m)) (split_bar methods_str)

unfoldable pub is_cached : Option ℕ → ℕ → Bool
is_cached none n = false
is_cached (some m) n = m == n

-- not r.methods or method_upper in r.methods
unfoldable pub allows_method : Text → List Text → Bool
allows_method method_upper [] = true
allows_method method_upper (m ∷ methods) = contains method_upper (m ∷ methods)

module _ {N : Type 0} where
  abbrev pub new_cache : WhitelistCache N
  new_cache = record { mtime = none; rules = [] }

  unfoldable pub with_network :
      Text → List Text → Text → Option N → List (WhitelistRule N) → List (WhitelistRule N)
  with_network path_pat methods description none rules = rules
  with_network path_pat methods description (some network) rules =
      record {
        path_pattern = path_pat;
        methods = methods;
        network = network;
        description = description;
      }
      ∷ rules

  unfoldable pub check_methods : Text → List (WhitelistRule N) → Option Denial
  unfolding allows_method
  check_methods method_upper [] = some method_refused
  check_methods method_upper (r ∷ rules) =
      if allows_method method_upper r.methods then none else check_methods method_upper rules

  unfoldable pub check_networks : Text → List (WhitelistRule N) → Option Denial
  unfolding check_methods
  check_networks method_upper [] = some outside_networks
  check_networks method_upper (r ∷ ip_rules) = check_methods method_upper (r ∷ ip_rules)

module _ {N A : Type 0} (libraries : Libraries N A) where
  -- One record, in front of the rules of those that follow.
  unfoldable pub load_row : List Text → List (WhitelistRule N) → List (WhitelistRule N)
  unfolding strip same_text is_blank methods_of with_network
  load_row (a ∷ b ∷ c ∷ d ∷ columns) rules =
      let path_pat = strip a in
      let ip_cidr = strip c in
      if same_text path_pat (codes "path_pattern")
      then rules
      else if is_blank path_pat || is_blank ip_cidr
      then rules
      else with_network path_pat (methods_of (strip b)) (strip d) (libraries.ip_network ip_cidr)
          rules
  load_row (a ∷ b ∷ c ∷ []) rules = rules
  load_row (a ∷ b ∷ []) rules = rules
  load_row (a ∷ []) rules = rules
  load_row [] rules = rules

  unfoldable pub load_rules : List (List Text) → List (WhitelistRule N)
  unfolding load_row
  load_rules [] = []
  load_rules (row ∷ rows) = load_row row (load_rules rows)

  -- No file stands for an OSError.
  unfoldable pub get_rules : WhitelistCache N → Option CsvFile → WhitelistCache N
  unfolding is_cached load_rules
  get_rules self none = new_cache
  get_rules self (some file) =
      if is_cached self.mtime file.mtime
      then self
      else record { mtime = some file.mtime; rules = load_rules file.rows }

  unfoldable pub check_address : Text → Option A → List (WhitelistRule N) → Option Denial
  unfolding check_networks upper
  check_address method none path_rules = some unknown_address
  check_address method (some addr) path_rules =
      check_networks (upper method) (keep (λ r. libraries.in_network addr r.network) path_rules)

  unfoldable pub check_path : Text → Option A → List (WhitelistRule N) → Option Denial
  unfolding check_address
  check_path method addr [] = none
  check_path method addr (r ∷ path_rules) = check_address method addr (r ∷ path_rules)

  -- No refusal stands for `True, ""`.
  unfoldable pub check_request : List (WhitelistRule N) → Text → Text → Text → Option Denial
  unfolding check_path
  check_request rules path method client_ip =
      check_path method (libraries.ip_address client_ip)
        (keep (λ r. libraries.fnmatchcase path r.path_pattern) rules)

  -- WhitelistMiddleware.__call__: the cache, the path that the application sees, and the refusal.
  unfoldable pub whitelist :
      WhitelistCache N
      → Option CsvFile
      → Text
      → Text
      → Text
      → WhitelistCache N × Text × Option Denial
  unfolding get_rules normalize_path check_request
  whitelist cache file original_path method client_ip =
      let path = normalize_path original_path in
      let found = get_rules cache file in
      (found, path, check_request found.rules path method client_ip)
