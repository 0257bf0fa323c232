-- ===== src/Catalog/Effects.antt =====
-- channel_catalog.py: `RuntimeCatalogEffects`, which lets the running state follow a change. The
-- channel's HTTP client, which it closes, is no part of the model.
pub mod Deleted
use llm_plug.Common.{String, Bool, List, [], ◌∷◌}
use llm_plug.Balancer.Select.{Routing, remove_channel}
use llm_plug.Outcomes.Maintenance.{clear_permanent_for_channel}
use llm_plug.RateLimiter.{Windows, remove_key}
use llm_plug.QuotaLimits.{QuotaLimitStore, unblock}
use llm_plug.Catalog.{
  ChangeKind, ChannelChange, Change, ChannelCatalog, Circumstances, Answer, created, updated,
  toggled, deleted, of_channel, of_group, done, absent, conflict, invalid, not_written,
  not_synchronized, delete_channel,
}

-- The running state that a change concerns.
pub record Runtime : Type 0 where
  pub routing : Routing
  pub windows : Windows
  pub quota : QuotaLimitStore

unfoldable pub forget : Bool → String → Runtime → Runtime
unfolding remove_channel remove_key unblock
forget is_saved id runtime = record {
  routing = remove_channel id runtime.routing;
  windows = remove_key id runtime.windows;
  quota = unblock is_saved id runtime.quota;
}

unfoldable pub clear_permanent : String → Runtime → Runtime
unfolding clear_permanent_for_channel
clear_permanent id runtime = record runtime {
  routing = record (runtime.routing) {
    outcomes = clear_permanent_for_channel id runtime.routing.outcomes;
  };
}

unfoldable pub apply_kind : Bool → ChangeKind → String → Runtime → Runtime
unfolding forget clear_permanent
apply_kind is_saved created id runtime = runtime
apply_kind is_saved updated id runtime = clear_permanent id runtime
apply_kind is_saved toggled id runtime = clear_permanent id runtime
apply_kind is_saved deleted id runtime = forget is_saved id runtime

unfoldable pub apply_change : Bool → Change → Runtime → Runtime
unfolding apply_kind
apply_change is_saved (of_channel change) runtime =
    apply_kind is_saved change.kind change.channel_id runtime
apply_change is_saved (of_group change) runtime = runtime

-- The effects of an operation's answer: they have run through where it is done.
unfoldable pub follow : Bool → Answer → Runtime → Runtime
unfolding apply_change
follow is_saved (done change) runtime = apply_change is_saved change runtime
follow is_saved (not_synchronized change) runtime = runtime
follow is_saved absent runtime = runtime
follow is_saved conflict runtime = runtime
follow is_saved invalid runtime = runtime
follow is_saved not_written runtime = runtime
