-- ===== src/Outcomes/Deletion.antt =====
-- proxy/outcomes.py: deleting a channel deletes its state and no other, and the list of pairs to
-- probe.
use text.Mathlib.TextEquality.{eq_iff}
use llm_plug.Common.{
  String, Bool, true, false, ◌≢◌, ◌↔◌, Option, none, some, List, [], ◌∷◌, if◌then◌else◌, ◌==◌,
  string_eq, pair_eq, pair_beq, ◌≡◌, refl, sym, ◌∙◌, arith, not, contains, Distinct, subst, if_both,
  eq_self, Bool-cases, inl, inr, pair_beq_iff,
}
use llm_plug.Dict.{Dict, keys, get}
use llm_plug.Dict.Laws.{get-remove, get-restrict}
use llm_plug.Outcomes.State.{Outcomes, HealthEntry}
use llm_plug.Outcomes.Views.{ProbeTarget, is_probed, probe_rows, probe_targets}
use llm_plug.Outcomes.Maintenance.{remove_channel}
use llm_plug.Outcomes.Invariant.{IsWellFormed}

-- `x` if it is there and belongs to another channel.
abbrev pub unless_of {ℓ} : {A : Type ℓ} → String → (A → String) → Option A → Option A
unless_of c owner none = none
unless_of c owner (some a) = if owner a == c then none else some a

-- Deleting a channel removes exactly its entries: of every table, what is found under a key
-- afterwards is what was found there, unless it belonged to the channel.
pub record IsForgotten (c : String) (s s' : Outcomes) : Type 0 where
  pub health :
      (m c' : String) → get (m, c') s'.health ≡ (if c == c' then none else get (m, c') s.health)
  pub blocked : (c' : String) → get c' s'.blocked ≡ (if c == c' then none else get c' s.blocked)
  pub preferred :
      (g m : String) → get (g, m) s'.preferred ≡ unless_of c (λ p. p) (get (g, m) s.preferred)
  pub sticky :
      (key : String)
      → get key s'.session_sticky ≡ unless_of c (λ e. e.channel_id) (get key s.session_sticky)

module _ (c : String) (s : Outcomes) (w : IsWellFormed s) where
  -- In a state without duplicate keys, deleting a channel removes exactly its own entries of the
  -- health table, the blocks, the preferred channels and the sticky sessions.
  pub remove_channel-IsForgotten : IsForgotten c s (remove_channel c s)
  unfolding remove_channel
  remove_channel-IsForgotten = record {
    health = λ m c'. ground (
      arith,
      get-restrict (m, c') (λ key _. not (key.1 == c)) s.health w.health_keys,
      eq_iff c c',
      eq_iff c' c,
    );
    blocked = λ c'. get-remove c' c s.blocked;
    preferred = λ g m. ground (
      arith,
      get-restrict (g, m) (λ _ preferred. not (preferred == c)) s.preferred w.preferred_keys,
    );
    sticky = λ key. ground (
      arith,
      get-restrict key (λ _ entry. not (entry.channel_id == c)) s.session_sticky w.sticky_keys,
    );
  }

-- The row of a pair in the probe list.
abbrev pub row_of : String → String → HealthEntry → ProbeTarget
row_of m c entry = record {
  model = m;
  channel_id = c;
  first_failed_at = entry.first_failed_at;
  consecutive_failures = entry.consecutive_failures;
  permanent = entry.permanent;
}

-- The row with a pair's key, if the list has one.
pub find_row : String → String → List ProbeTarget → Option ProbeTarget
find_row m c [] = none
find_row m c (row ∷ rows) =
    if pair_beq (row.model, row.channel_id) (m, c) then some row else find_row m c rows

find_row_absent :
    (m c : String) (d : Dict (String × String) HealthEntry)
    → contains (m, c) (keys d) ≡ false
    → find_row m c (probe_rows d) ≡ none
unfolding find_row probe_rows
find_row_absent m c [] h = refl
find_row_absent m c (((m', c'), e) ∷ d) h = ground (arith, find_row_absent m c d)

-- The row that an entry gives, if it is one to probe.
abbrev pub probed : String → String → Option HealthEntry → Option ProbeTarget
probed m c none = none
probed m c (some e) = if is_probed m c e then some (row_of m c e) else none

other_pair :
    (m c m' c' : String) (e : HealthEntry) (rows : List ProbeTarget)
    → pair_beq (m', c') (m, c) ≡ false
    → find_row m c (row_of m' c' e ∷ rows) ≡ find_row m c rows
unfolding find_row
other_pair m c m' c' e rows b = rw b

same_pair :
    (m c : String) (k : String × String) (e : HealthEntry) (rows : List ProbeTarget)
    → k ≡ (m, c)
    → find_row m c rows ≡ none
    → find_row m c (if is_probed k.0 k.1 e then row_of k.0 k.1 e ∷ rows else rows)
      ≡ probed m c (some e)
unfolding find_row
same_pair m c k e rows p absent =
    subst
      (λ k.
        find_row m c (if is_probed k.0 k.1 e then row_of k.0 k.1 e ∷ rows else rows)
        ≡ probed m c (some e))
      (sym p)
      (elim (Bool-cases (is_probed m c e)) [
        | inl b ↦ rw (b, eq_self ⦃e = pair_eq⦄ (m, c))
        | inr b ↦ rw b absent
      ])

find_row-probe_rows :
    (m c : String) (d : Dict (String × String) HealthEntry)
    → Distinct (keys d)
    → find_row m c (probe_rows d) ≡ probed m c (get (m, c) d)
unfolding probe_rows get
find_row-probe_rows m c [] h = unfold find_row in refl
find_row-probe_rows m c (((m', c'), e) ∷ d) h =
    let rest = find_row-probe_rows m c d h.1 in
    elim (Bool-cases (pair_beq (m', c') (m, c))) [
      | inl b ↦
          let p = (pair_beq_iff (m', c') (m, c)).0 b in
          rw b (
            same_pair m c (m', c') e (probe_rows d) p
              (find_row_absent m c d (subst (λ k. contains k (keys d) ≡ false) p h.0)))
      | inr b ↦ rw b (
          if_both (λ rows. find_row m c rows ≡ probed m c (get (m, c) d)) (is_probed m' c' e)
            (other_pair m c m' c' e (probe_rows d) b ∙ rest) rest)
    ]

-- The pair of an entry is degraded, not permanently, under a model name that is not empty and not
-- the channel's id.
abbrev pub IsDegraded : String → String → HealthEntry → Type 0
IsDegraded m c e = (e.degraded ≡ true) × (e.permanent ≡ false) × (m ≢ "") × (m ≢ c)

is_probed-IsDegraded :
    (m c : String) (e : HealthEntry) → (is_probed m c e ≡ true) ↔ IsDegraded m c e
is_probed-IsDegraded m c e = ground (arith, eq_iff m "", eq_iff m c)

probed-IsDegraded :
    (m c : String) (e : HealthEntry) (row : ProbeTarget) (b : Bool)
    → (b ≡ true) ↔ IsDegraded m c e
    → ((if b then some (row_of m c e) else none) ≡ some row)
      ↔ (IsDegraded m c e × (row ≡ row_of m c e))
probed-IsDegraded m c e row true h = (λ t. (h.0 refl, cc), λ (d, r). cc)
probed-IsDegraded m c e row false h = (λ t. cc, λ (d, r). let t = h.1 d in cc)

-- An entry of a pair that is degraded gives the row.
abbrev pub Gives : String → String → ProbeTarget → Option HealthEntry → Type 0
Gives m c row none = ⊥
Gives m c row (some e) = IsDegraded m c e × (row ≡ row_of m c e)

probed_iff :
    (m c : String) (o : Option HealthEntry) (row : ProbeTarget)
    → (probed m c o ≡ some row) ↔ Gives m c row o
probed_iff m c none row = (λ h. cc, λ d. absurd d)
probed_iff m c (some e) row =
    probed-IsDegraded m c e row (is_probed m c e) (is_probed-IsDegraded m c e)

-- In a state without duplicate keys, the probe list has a row for a pair exactly if the pair is
-- degraded, not permanently, under a model name that is not empty and not the channel's id; the
-- row carries the entry's data.
pub probe_targets_iff :
    (m c : String) (s : Outcomes) (row : ProbeTarget)
    → IsWellFormed s
    → (find_row m c (probe_targets s) ≡ some row) ↔ Gives m c row (get (m, c) s.health)
unfolding probe_targets
probe_targets_iff m c s row w =
    subst (λ o. (o ≡ some row) ↔ Gives m c row (get (m, c) s.health))
      (sym (find_row-probe_rows m c s.health w.health_keys))
      (probed_iff m c (get (m, c) s.health) row)
