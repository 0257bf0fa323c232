-- ===== src/GroupDispatch/Answer.antt =====
-- proxy/model_group_dispatch.py: an answer is by an open entry, and by a channel that serves it.
use llm_plug.Common.{String, false, some, string_eq, ◌≡◌}
use llm_plug.Channel.{Endpoint, Channel}
use llm_plug.Dispatcher.{World, Context, Dispatched}
use llm_plug.ModelGroup.{ModelGroupEntry, is_model_blocked_by_schedule}
use llm_plug.GroupDispatch.{Request, EntryEnd, ends, Answer, channels_for_model, binding_of}
use llm_plug.GroupDispatch.Origin.{IsFrom}

module _ {E A : Type 0} (request : Request E A) where
  -- The answer of an entry, looked up in the state `v`.
  pub record IsByEntry (entry : ModelGroupEntry) (ch : Channel) (ep : Endpoint) (v : World E)
      : Type 0 where
    pub not_blocked : is_model_blocked_by_schedule (request.minute_of v) entry.schedules ≡ false
    pub origin : IsFrom request (channels_for_model entry.model (request.catalog_of v)) ch ep
    pub bound : (id : String) → binding_of entry ≡ some id → ch.id ≡ id

  abbrev Ended :
      Dispatched (A × Endpoint) → World E → Context → Answer request (EntryEnd (A × Endpoint))
  Ended end w ctx = some (ends end, w, ctx)
