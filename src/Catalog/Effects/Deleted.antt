-- ===== src/Catalog/Effects/Deleted.antt =====
-- channel_catalog.py: what a deleted channel leaves in the catalog and in the running state.
use text.Mathlib.TextEquality.{eq_iff}
use llm_plug.Common.{
  ◌≢◌, ℕ, String, Bool, false, not, Option, none, some, List, [], ◌∷◌, string_eq, pair_eq, ◌==◌,
  eq_self, keep, ◌≡◌, refl, ap, subst, arith, Bool-cases, inl, inr, find_first-Has,
}
use llm_plug.Dict.{Dict, get, remove}
use llm_plug.Dict.Laws.{get-remove, get-restrict_dropped}
use llm_plug.Channel.{Channel}
use llm_plug.Balancer.Select.{remove_channel}
use llm_plug.Outcomes.Deletion.{IsForgotten, remove_channel-IsForgotten}
use llm_plug.Outcomes.Invariant.{IsWellFormed}
use llm_plug.RateLimiter.{remove_key}
use llm_plug.QuotaLimits.{unblock, mutate, window, has_active_window}
use llm_plug.Catalog.{
  CatalogSnapshot, Change, ChannelCatalog, Circumstances, load_locked, commit_locked, has_id,
  channel_id, channel_with, remove_found, delete_channel, deleted, of_channel, done, absent,
  not_written, not_synchronized,
}
use llm_plug.Catalog.Effects.{Runtime, forget, apply_kind, apply_change, follow}

-- Nothing in the running state names the channel, and the rest of the outcomes is as it was.
pub record IsGone (id : String) (before after : Runtime) : Type 0 where
  pub outcomes : IsForgotten id before.routing.outcomes after.routing.outcomes
  pub weights : (model : String) → get (model, id) after.routing.balancer.current_weights ≡ none
  pub window : get id after.windows ≡ none
  pub quota : (now : ℕ) → (has_active_window now id after.quota).0 ≡ false

get-remove_self : {V : Type 0} (id : String) (d : Dict String V) → get id (remove id d) ≡ none
get-remove_self id d = let law = get-remove id id d in rw (eq_self id) at law

forget-IsGone :
    (is_saved : Bool) (id : String) (runtime : Runtime)
    → IsWellFormed runtime.routing.outcomes
    → IsGone id runtime (forget is_saved id runtime)
unfolding forget remove_channel remove_key unblock mutate has_active_window window
forget-IsGone is_saved id runtime w = record {
  outcomes = remove_channel-IsForgotten id runtime.routing.outcomes w;
  weights = λ model.
      get-restrict_dropped (model, id) (λ key _. not (key.1 == id))
        runtime.routing.balancer.current_weights (λ v. ap not (eq_self id));
  window = get-remove_self id runtime.windows;
  quota = λ now. rw (get-remove_self id runtime.quota.limits) refl;
}

has_id-keep :
    (id : String) (channels : List Channel)
    → has_id channel_id id (keep (λ channel. not (channel.id == id)) channels) ≡ false
unfolding has_id
has_id-keep id [] = refl
has_id-keep id (channel ∷ channels) = ground (arith, has_id-keep id channels)

-- Of a deletion that is done: the channel is not among the channels of the file and of the cache,
-- which keep every other one and all groups, with their entries for the channel; and the running
-- state has nothing of it.
pub record IsDeleted (id : String) (s : CatalogSnapshot) (before after : Runtime)
    (self : ChannelCatalog) : Type 0 where
  pub stored : has_id channel_id id self.stored.channels ≡ false
  pub others :
      (j : String) → id ≢ j → channel_with j self.stored.channels ≡ channel_with j s.channels
  pub groups : self.stored.model_groups ≡ s.model_groups
  pub cached : self.cached ≡ some self.stored
  pub gone : IsGone id before after

channel_with-keep :
    (id j : String) (channels : List Channel)
    → id ≢ j
    → channel_with j (keep (λ channel. not (channel.id == id)) channels) ≡ channel_with j channels
channel_with-keep id j [] h = refl
channel_with-keep id j (channel ∷ channels) h =
    ground (arith, channel_with-keep id j channels h, eq_iff channel.id id, eq_iff channel.id j)

committed-IsDeleted :
    (o : Circumstances) (is_saved : Bool) (old : Channel) (s : CatalogSnapshot)
    (self : ChannelCatalog) (runtime : Runtime) (change : Change)
    → IsWellFormed runtime.routing.outcomes
    → (remove_found o s (some old) self).1 ≡ done change
    → IsDeleted old.id s runtime
        (follow is_saved (remove_found o s (some old) self).1 runtime)
        (remove_found o s (some old) self).0
unfolding remove_found commit_locked follow apply_change apply_kind
committed-IsDeleted o is_saved old s self runtime change w e = elim (Bool-cases o.is_written) [
  | inr b ↦ let impossible : not_written ≡ done change = rw b at e in cc
  | inl b ↦ elim (Bool-cases o.is_synchronized) [
    | inr c ↦
        let impossible : not_synchronized (
              of_channel
                (record { kind = deleted; channel_id = old.id; before = some old; after = none }))
            ≡ done change =
          rw (b, c) at e in
        cc
    | inl c ↦
        rw (b, c)
          (record {
            stored = has_id-keep old.id s.channels;
            others = λ j other. channel_with-keep old.id j s.channels other;
            groups = refl;
            cached = refl;
            gone = forget-IsGone is_saved old.id runtime w;
          })
  ]
]

found-IsDeleted :
    (o : Circumstances) (is_saved : Bool) (id : String) (s : CatalogSnapshot)
    (found : Option Channel) (self : ChannelCatalog) (runtime : Runtime) (change : Change)
    → channel_with id s.channels ≡ found
    → IsWellFormed runtime.routing.outcomes
    → (remove_found o s found self).1 ≡ done change
    → IsDeleted id s runtime
        (follow is_saved (remove_found o s found self).1 runtime)
        (remove_found o s found self).0
unfolding remove_found
found-IsDeleted o is_saved id s none self runtime change f w e =
    let impossible : absent ≡ done change = e in cc
found-IsDeleted o is_saved id s (some old) self runtime change f w e =
    let (member, test) = find_first-Has (λ channel. channel.id == id) s.channels f in
    subst
      (λ j.
        IsDeleted j s runtime (follow is_saved (remove_found o s (some old) self).1 runtime)
          (remove_found o s (some old) self).0)
      ((string_eq.beq_iff old.id id).0 test)
      (committed-IsDeleted o is_saved old s self runtime change w e)

-- Where a deletion is done and the tables of the outcomes are well formed, the channel is not among
-- the channels of the file and of the cached catalog, which keep every other channel and all groups,
-- their entries for the channel included. The running state has no weight, no window of permits and no
-- quota limit of it, at any instant; and the outcomes have lost exactly its entries.
pub delete_channel-IsDeleted :
    (o : Circumstances) (is_saved : Bool) (id : String) (self : ChannelCatalog) (runtime : Runtime)
    (change : Change)
    → IsWellFormed runtime.routing.outcomes
    → (delete_channel o id self).1 ≡ done change
    → IsDeleted id
        (load_locked o self)
        runtime
        (follow is_saved (delete_channel o id self).1 runtime)
        (delete_channel o id self).0
unfolding delete_channel
delete_channel-IsDeleted o is_saved id self runtime change w e =
    let s = load_locked o self in
    found-IsDeleted o is_saved id s (channel_with id s.channels) self runtime change refl w e
