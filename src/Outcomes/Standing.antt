-- ===== src/Outcomes/Standing.antt =====
-- proxy/outcomes.py: the state of a pair after any history is what the history says.
use text.Mathlib.TextEquality.{eq_iff}
use llm_plug.Common.{
  ℕ, ◌+◌, String, Bool, true, false, ◌||◌, Option, none, some, List, [], ◌∷◌, if◌then◌else◌, ◌==◌,
  string_eq, nat_eq, ap, ◌∙◌, pair_eq, pair_beq, pair_beq_iff, length, ◌≡◌, refl, arith, not,
  Option-cases, inl, inr, Bool-cases,
}
use llm_plug.Channel.{Channel}
use llm_plug.Config.{Settings}
use llm_plug.Dict.{Dict, get, get_or}
use llm_plug.Dict.Laws.{get-put, get-restrict_spared, get-restrict_dropped}
use llm_plug.Outcomes.State.{
  configure, set_quota_adapter, reset, Outcomes, OutcomeKind, success, quota_window, cancelled,
  initial, HealthEntry, fresh_entry,
}
use llm_plug.Outcomes.Accounting.{
  record_outcome, update_entry, after_success, after_failure, is_config_error,
}
use llm_plug.Outcomes.Views.{is_healthy, is_blocked, admits, check_entry}
use llm_plug.Outcomes.Sticky.{
  configure_session_sticky, clear_session_sticky, trim_session_sticky, session_sticky_get,
  remember_session_sticky, remember_preferred,
}
use llm_plug.Outcomes.Maintenance.{
  clear_all_permanent, load_quota_limits, clear_permanent_for_channel, remove_channel, clear_rows,
}
use llm_plug.Outcomes.History.{
  Event, recorded, health_read, block_read, admission, channel_changed, channel_deleted,
  permanents_cleared, was_reset, configured, adapter_set, quotas_loaded, sticky_configured,
  sticky_cleared, sticky_trimmed, sticky_read, sticky_written, preferred_written, apply, replay,
  Standing, standing, standing_of, failures, misconfigured, oldest, is_nonempty, told,
}

-- What a failure and a saved channel do to the standing of a pair.
fails : OutcomeKind → ℕ → Standing → Standing
fails kind now x = record {
  degraded = true;
  first_failed_at = if x.consecutive_failures == 0 then now else x.first_failed_at;
  consecutive_failures = x.consecutive_failures + 1;
  permanent = x.permanent || is_config_error kind;
}

cleared : Standing → Standing
cleared x = record x { permanent = false }

module _ (m c m' c' : String) where
  get-update :
      (f : HealthEntry → HealthEntry) (s : Outcomes)
      → get (m, c) (update_entry f m' c' s).health ≡ (
          if pair_beq (m', c') (m, c)
          then some (f (get_or fresh_entry (m, c) s.health))
          else get (m, c) s.health)
  unfolding update_entry
  get-update f s = rw get-put (elim (Bool-cases (pair_beq (m', c') (m, c))) [
    | inl e ↦ rw e (ap (λ k. some (f (get_or fresh_entry k s.health))) ((pair_beq_iff _ _).0 e))
    | inr e ↦ rw e
  ])

  standing-success :
      (s : Outcomes)
      → standing m c (update_entry after_success m' c' s)
        ≡ (if pair_beq (m', c') (m, c) then standing_of none else standing m c s)
  unfolding standing standing_of after_success get_or
  standing-success s = rw get-update (ground arith)

  standing-failure :
      (kind : OutcomeKind) (now : ℕ) (s : Outcomes)
      → standing m c (update_entry (after_failure kind now) m' c' s)
        ≡ (if pair_beq (m', c') (m, c) then fails kind now (standing m c s) else standing m c s)
  unfolding standing standing_of after_failure get_or fails
  standing-failure kind now s = rw get-update (ground arith)

  standing-health_read :
      (now : ℕ) (s : Outcomes) → standing m c (is_healthy m' c' now s).1 ≡ standing m c s
  unfolding standing is_healthy standing_of
  standing-health_read now s = elim (Option-cases (get (m', c') s.health)) [
    | inl e ↦ rw (e, check_entry) refl
    | inr (entry, e) ↦
        rw (e, check_entry)
          (ground (
            arith,
            get-put (m, c) (m', c') (record entry { fail_count = 0; last_fail_time = 0 }) s.health,
            pair_beq_iff (m', c') (m, c),
          ))
  ]

standing-block_read :
    (m c ch : String) (now : ℕ) (s : Outcomes)
    → standing m c (is_blocked ch now s).1 ≡ standing m c s
unfolding standing is_blocked
standing-block_read m c ch now s = ground arith

standing-admission :
    (m c : String) (channel : Channel) (model : Option String) (ex : List String) (now : ℕ)
    (s : Outcomes)
    → standing m c (admits channel model ex now s).1 ≡ standing m c s
unfolding admits
standing-admission m c channel none ex now s =
    ground (arith, standing-block_read m c channel.id now s)
standing-admission m c channel (some model) ex now s = ground (
  arith,
  standing-block_read m c channel.id now s,
  standing-health_read m c model channel.id now (is_blocked channel.id now s).1,
)

get-clear_rows :
    (m c : String) (chosen : String → Bool) (d : Dict (String × String) HealthEntry)
    → get (m, c) (clear_rows chosen d) ≡ elim (get (m, c) d) [
      | none ↦ none
      | some entry ↦ some (if chosen c then record entry { permanent = false } else entry)
    ]
unfolding get clear_rows
get-clear_rows m c chosen [] = refl
get-clear_rows m c chosen (((m', c'), entry) ∷ d) =
    ground (arith, get-clear_rows m c chosen d, eq_iff m' m, eq_iff c' c)

standing-changed :
    (m c ch : String) (s : Outcomes)
    → standing m c (clear_permanent_for_channel ch s)
      ≡ (if ch == c then cleared (standing m c s) else standing m c s)
unfolding standing clear_permanent_for_channel standing_of cleared
standing-changed m c ch s =
    ground (arith, get-clear_rows m c (λ x. x == ch) s.health, eq_iff c ch, eq_iff ch c)

standing-permanents_cleared :
    (m c : String) (s : Outcomes) → standing m c (clear_all_permanent s) ≡ cleared (standing m c s)
unfolding standing clear_all_permanent standing_of cleared
standing-permanents_cleared m c s = ground (arith, get-clear_rows m c (λ _. true) s.health)

standing-deleted :
    (m c ch : String) (s : Outcomes)
    → standing m c (remove_channel ch s) ≡ (if ch == c then standing_of none else standing m c s)
unfolding standing remove_channel
standing-deleted m c ch s = elim (Bool-cases (c == ch)) [
  | inl e ↦
      rw (get-restrict_dropped (m, c) (λ key _. not (key.1 == ch)) s.health (λ _. rw e))
        (ground (arith, eq_iff c ch, eq_iff ch c))
  | inr e ↦
      rw (get-restrict_spared (m, c) (λ key _. not (key.1 == ch)) s.health (λ _. rw e))
        (ground (arith, eq_iff c ch, eq_iff ch c))
]

health-sticky_read :
    (key : String) (now : ℕ) (s : Outcomes) → (session_sticky_get key now s).1.health ≡ s.health
unfolding session_sticky_get
health-sticky_read key now s = ground arith

oldest-cons : (t : ℕ) (ts : List ℕ) → oldest (t ∷ ts) ≡ (if length ts == 0 then t else oldest ts)
unfolding oldest
oldest-cons t [] = refl
oldest-cons t (u ∷ ts) = ground arith

standing-recorded :
    (m c m' c' : String) (kind : OutcomeKind) (now : ℕ) (r : Option ℕ) (code : String)
    (s : Outcomes) (h : List Event)
    → standing m c s ≡ told m c h
    → standing m c (record_outcome m' c' kind now r code s)
      ≡ told m c (recorded m' c' kind now r code ∷ h)
unfolding record_outcome told standing_of fails failures misconfigured is_nonempty is_config_error
standing-recorded m c m' c' success now r code s h e =
    rw standing-success (unfold oldest in ground arith)
standing-recorded m c m' c' quota_window now r code s h e = unfold standing in ground arith
standing-recorded m c m' c' cancelled now r code s h e = ground arith
standing-recorded m c m' c' _ now r code s h e =
    rw standing-failure (ground (arith, oldest-cons now (failures m c h)))

-- After any history of calls a pair is degraded exactly if it failed since its last success or
-- its channel's deletion; its probe data are the first and the number of those failures; it is
-- permanently degraded exactly if one was a 401, 403 or 404 since its channel was last saved.
-- Reads, which reset the fail count after the cooldown, change none of this.
pub replay-told :
    (settings : Settings) (m c : String) (history : List Event)
    → standing m c (replay history (initial settings)) ≡ told m c history
unfolding replay apply told standing standing_of get fails cleared is_config_error reset configure
    set_quota_adapter load_quota_limits configure_session_sticky clear_session_sticky
    trim_session_sticky remember_session_sticky remember_preferred
replay-told settings m c [] = refl
replay-told settings m c (recorded m' c' kind now r code ∷ h) =
    standing-recorded m c m' c' kind now r code (replay h (initial settings)) h
      (replay-told settings m c h)
replay-told settings m c (health_read m' c' now ∷ h) =
    standing-health_read m c m' c' now (replay h (initial settings)) ∙ replay-told settings m c h
replay-told settings m c (block_read c' now ∷ h) =
    standing-block_read m c c' now (replay h (initial settings)) ∙ replay-told settings m c h
replay-told settings m c (admission ch model ex now ∷ h) =
    standing-admission m c ch model ex now (replay h (initial settings))
    ∙ replay-told settings m c h
replay-told settings m c (channel_changed ch ∷ h) =
    rw standing-changed (ground (arith, replay-told settings m c h))
replay-told settings m c (channel_deleted ch ∷ h) =
    rw standing-deleted (ground (arith, replay-told settings m c h))
replay-told settings m c (permanents_cleared ∷ h) =
    rw standing-permanents_cleared (ground (arith, replay-told settings m c h))
replay-told settings m c (was_reset ∷ h) = refl
replay-told settings m c (configured mf cd ∷ h) = replay-told settings m c h
replay-told settings m c (adapter_set b ∷ h) = replay-told settings m c h
replay-told settings m c (quotas_loaded now rows ∷ h) = replay-told settings m c h
replay-told settings m c (sticky_configured ttl mx ∷ h) = replay-told settings m c h
replay-told settings m c (sticky_cleared ∷ h) = replay-told settings m c h
replay-told settings m c (sticky_trimmed now ∷ h) = replay-told settings m c h
replay-told settings m c (sticky_read key now ∷ h) =
    ap standing_of (ap (get (m, c)) (health-sticky_read key now (replay h (initial settings))))
    ∙ replay-told settings m c h
replay-told settings m c (sticky_written key ch now ∷ h) = replay-told settings m c h
replay-told settings m c (preferred_written g m' ch ∷ h) = replay-told settings m c h
