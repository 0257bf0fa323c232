-- ===== src/QuotaLimits/Restart.antt =====
-- quota_limits/store.py: a restart forgets no limit that is still in force, and revives none.
use llm_plug.Common.{
  ℕ, ◌≤◌, String, Bool, true, false, not, Option, none, some, List, [], ◌∷◌, string_eq, ◌==◌, leb,
  Distinct, ◌≡◌, refl, sym, ◌∙◌, ap, subst, arith, Bool-cases, inl, inr,
}
use llm_plug.Dict.{Dict, keys, get, put, remove, restrict}
use llm_plug.Dict.Laws.{get-remove, put-Distinct, restrict-Distinct}
use llm_plug.QuotaLimits.{
  Limit, QuotaLimitStore, raw_entries, load, mutate, mark_blocked, unblock, window,
  has_active_window, is_kept, is_removed, cleanup, Operation, operate, operate_all,
}
use llm_plug.QuotaLimits.Loading.{
  live, parse_found, live_later, load_from-Distinct, get-serialize, keys-serialize, get-load,
}

-- From the instant `t` on, memory and file agree on what is in force.
record InSync (t : ℕ) (self : QuotaLimitStore) : Type 0 where
  distinct : Distinct (keys self.limits)
  file_distinct : Distinct (keys (raw_entries self.file))
  agree :
      (j : String) (u : ℕ)
      → t ≤ u
      → live u (get j self.limits) ≡ live u (parse_found (get j (raw_entries self.file)))

load-InSync :
    (now : ℕ) (self : QuotaLimitStore)
    → Distinct (keys (raw_entries self.file))
    → InSync now (load now self)
unfolding load
load-InSync now self d = record {
  distinct = load_from-Distinct now (raw_entries self.file) [] tt;
  file_distinct = d;
  agree = λ j u h.
      ap (live u) (get-load now j self d)
      ∙ live_later now u (parse_found (get j (raw_entries self.file))) h;
}

mutate-InSync :
    (t : ℕ) (limits : Dict String Limit) (self : QuotaLimitStore)
    → Distinct (keys limits)
    → InSync t (mutate true limits self)
unfolding mutate raw_entries
mutate-InSync t limits self d = record {
  distinct = d;
  file_distinct = subst Distinct (sym (keys-serialize limits)) d;
  agree = λ j u h. ap (live u) (sym (get-serialize j limits));
}

InSync-later : {t u : ℕ} {self : QuotaLimitStore} → t ≤ u → InSync t self → InSync u self
InSync-later h s = record {
  distinct = s.distinct;
  file_distinct = s.file_distinct;
  agree = λ j v i. s.agree j v (omega arith);
}

-- What is forgotten in memory is no longer in force in the file.
forgotten-agrees :
    (now u : ℕ) (id j : String) (l : Limit) (self : QuotaLimitStore)
    → get id self.limits ≡ some l
    → leb l.reset_at now ≡ true
    → now ≤ u
    → live u (get j self.limits) ≡ live u (parse_found (get j (raw_entries self.file)))
    → live u (get j (remove id self.limits)) ≡ live u (parse_found (get j (raw_entries self.file)))
forgotten-agrees now u id j l self e b i same =
    let law = get-remove j id self.limits in
    elim (Bool-cases (id == j)) [
      | inl k ↦
          let same_id : id ≡ j = (string_eq.beq_iff id j).0 k in
          let found : get j self.limits ≡ some l =
            subst (λ m. get m self.limits ≡ some l) same_id e in
          let over : live u (some l) ≡ none = ground arith in
          ap (live u) (rw k at law) ∙ sym over ∙ ap (live u) (sym found) ∙ same
      | inr k ↦ ap (live u) (rw k at law) ∙ same
    ]

window-InSync :
    (t now : ℕ) (id : String) (o : Option Limit) (self : QuotaLimitStore)
    → get id self.limits ≡ o
    → t ≤ now
    → InSync t self
    → InSync now (window now id o self).1
unfolding window remove
window-InSync t now id none self e h s = InSync-later h s
window-InSync t now id (some l) self e h s = elim (Bool-cases (leb l.reset_at now)) [
  | inr b ↦ rw b (InSync-later h s)
  | inl b ↦ rw b (record {
    distinct = restrict-Distinct (λ j _. not (j == id)) self.limits s.distinct;
    file_distinct = s.file_distinct;
    agree = λ j u i. forgotten-agrees now u id j l self e b i (s.agree j u (omega arith));
  })
]

cleanup-InSync :
    (t now : ℕ) (active : List String) (self : QuotaLimitStore)
    → t ≤ now
    → InSync t self
    → InSync now (cleanup true now active self)
unfolding cleanup
cleanup-InSync t now active self h s = elim (Bool-cases (is_removed now active self.limits)) [
  | inl b ↦ rw b (
      mutate-InSync now (restrict (is_kept now active) self.limits) self
        (restrict-Distinct (is_kept now active) self.limits s.distinct))
  | inr b ↦ rw b (InSync-later h s)
]

operate-InSync :
    (t now : ℕ) (o : Operation) (self : QuotaLimitStore)
    → t ≤ now
    → InSync t self
    → InSync now (operate o now self)
unfolding operate mark_blocked unblock has_active_window remove
operate-InSync t now (Operation.marked id reset_at code) self h s =
    mutate-InSync now (put id (record { reset_at = reset_at; code = code }) self.limits) self
      (put-Distinct id (record { reset_at = reset_at; code = code }) self.limits s.distinct)
operate-InSync t now (Operation.asked id) self h s =
    window-InSync t now id (get id self.limits) self refl h s
operate-InSync t now (Operation.unblocked id) self h s =
    mutate-InSync now (remove id self.limits) self
      (restrict-Distinct (λ j _. not (j == id)) self.limits s.distinct)
operate-InSync t now (Operation.cleaned active) self h s = cleanup-InSync t now active self h s

-- The instants of the operations never go back, from `t` to `now`.
abbrev pub Ordered : ℕ → List (Operation × ℕ) → ℕ → Type 0
Ordered t [] now = t ≤ now
Ordered t ((o, u) ∷ rest) now = (t ≤ u) × Ordered u rest now

operate_all-InSync :
    (t now : ℕ) (operations : List (Operation × ℕ)) (self : QuotaLimitStore)
    → Ordered t operations now
    → InSync t self
    → InSync now (operate_all operations self)
unfolding operate_all
operate_all-InSync t now [] self h s = InSync-later h s
operate_all-InSync t now ((o, u) ∷ rest) self h s =
    operate_all-InSync u now rest (operate o u self) h.1 (operate-InSync t u o self h.0 s)

abbrev is_some : Option Limit → Bool
is_some none = false
is_some (some l) = true

window-live :
    (now : ℕ) (id : String) (o : Option Limit) (self : QuotaLimitStore)
    → (window now id o self).0 ≡ is_some (live now o)
unfolding window
window-live now id none self = refl
window-live now id (some l) self = ground arith

-- A store that is loaded from a file without repeated keys, and operated on while the clock does not
-- go back and the file can be written, says of each channel what the store says that is loaded anew
-- from the file at that instant.
pub has_active_window-load :
    (start now : ℕ) (operations : List (Operation × ℕ)) (self : QuotaLimitStore) (id : String)
    → Distinct (keys (raw_entries self.file))
    → Ordered start operations now
    → (has_active_window now id (load now (operate_all operations (load start self)))).0
      ≡ (has_active_window now id (operate_all operations (load start self))).0
unfolding has_active_window
has_active_window-load start now operations self id d h =
    let running = operate_all operations (load start self) in
    let s =
      operate_all-InSync start now operations (load start self) h (load-InSync start self d) in
    let stored = parse_found (get id (raw_entries running.file)) in
    window-live now id (get id (load now running).limits) (load now running)
    ∙ ap (λ o. is_some (live now o)) (get-load now id running s.file_distinct)
    ∙ ap is_some (live_later now now stored (omega arith) ∙ sym (s.agree id now (omega arith)))
    ∙ sym (window-live now id (get id running.limits) running)
