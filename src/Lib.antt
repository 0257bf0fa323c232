-- ===== src/Lib.antt =====
-- LLM-Plug, a proxy that routes model requests to upstream channels: a model of its routing core
-- and of the parts around it.
--
-- A request names a model or a group of models. A group (ModelGroup, GroupDispatch) tries its
-- entries in order. Each entry is a dispatch (Dispatcher): the balancer (Balancer) picks a channel
-- of the best priority among those that the health views (Outcomes) admit, an attempt
-- (ChannelAttempt) tries the channel's endpoints in the order of Conversion, and errors (Errors,
-- RateLimiting) either exclude the channel, cost waiting budget or end the request. Every attempt
-- is reported to Outcomes, which derives the health, the degraded state, the quota blocks, the
-- sticky sessions and the list for the background probe from these reports. Before a request is
-- sent it waits for a permit (RateLimiter). The request comes in through Admission, its answer's
-- text goes out through ThinkFilter, its records go to the database through WriteBehind, and
-- QuotaLimits keeps the blocked channels over a restart. The Catalog holds the channels and the
-- groups, and lets the running state follow their changes.
--
-- Files and code:
--   Config          config.py: `get_setting` for the settings that the models read.
--   Channel         models/channel.py and models/api_types.py: the fields that routing reads.
--   Dict            Python's dictionaries in insertion order, `OrderedDict.move_to_end` included.
--   Outcomes        proxy/outcomes.py. State: the module's globals as one record. Accounting:
--                   `record` and `effective_model`. Views: `is_healthy`, `is_degraded`,
--                   `is_blocked`, `admits`, `probe_targets`. Sticky: the session cache and the
--                   preferred channels. Maintenance: the functions that the channel catalog and
--                   the start call. History: every call of the module as an event, and what a
--                   history says of a pair. The other children hold the proofs.
--   Balancer        balancer/load_balancer.py. State: the weights, and the choice by smooth
--                   weighted round robin, by backup order and by rendezvous hashing. Select: the
--                   filter, the top priority group, `select_channel`, `update_config`,
--                   `remove_channel`. Weights, Round, Balance, Fairness, Picks and Choice hold the
--                   proofs.
--   RateLimiter     rate_limiter.py: `acquire` and `remove_key`. A call is a sequence of turns of
--                   its loop; Window has the turns of all calls, and removals, as events.
--   RateLimiting    rate_limiting.py: `handle_rate_limit`, and `acquire_send_budget` in Send;
--                   quota_limits: `detect_exception` with the adapter of vendors/ark.py.
--   Errors          proxy/errors.py: `classify_failure` and the two predicates on exceptions.
--   Conversion      proxy/conversion.py: `resolve_endpoint_attempts`, the filter and the choice of
--                   converters.
--   Dispatcher      proxy/dispatcher.py: `_dispatch_loop`, `dispatch`, `dispatch_pinned`.
--   ChannelAttempt  proxy/channel_attempt.py: `attempt_channel` and its accounting.
--   ModelGroup      models/model_group.py and the time windows of proxy/model_group_dispatch.py.
--   GroupDispatch   proxy/model_group_dispatch.py: `execute_model_group_request`;
--                   channel_catalog.py: `channels_for_model`.
--   GroupProbe      proxy/group_probe.py: `_next_due_at` and `take_probe_candidates`.
--   ThinkFilter     think_filter.py: the streaming filter, `feed` and `flush`. Visible: a reference
--                   definition on whole texts. Cuts: a test for the cuts of a stream that the filter
--                   cannot take. The other children hold the proofs.
--   WriteBehind     db_write_behind.py: `WriteBehindQueue`. The steps of callers, workers and the
--                   replay; a write that times out may still reach the database. Stop: `stop` and
--                   `drain`. Conservation, Runs, Replayed and Settled hold the proofs.
--   Admission       middleware/. Paths: `normalize_path` and the protected paths. Whitelist:
--                   whitelist.py and its middleware. Body: the buffering of a body. ProxyAuth: the
--                   check of API keys. Sessions: admin_auth.py. Other children hold the proofs.
--   Catalog         channel_catalog.py: the operations on channels, on groups in Groups, and the
--                   effects on the running state in Effects. Unique and Sound hold the proofs.
--   QuotaLimits     quota_limits/store.py: the limits that outlast a restart, with their file.
--   ResponseStore   state_store.py: `FileStore`, with its directory as a dictionary. Use: when a
--                   file was last used. Lru and Lookup hold the proofs.
--   Text            Python's texts as lists of code points.
--   Common          lists, Boolean tests, integers. Tests: the theorems at concrete inputs.
--
-- Time is a natural number of milliseconds, and each operation gets one reading `now` where the
-- code reads the clock during the call. Each function runs under its module's lock in the code and
-- is one step here. `none` stands for Python's `None` and for a raised error where a comment says
-- so. Exceptions are values; a mutable context is passed along and returned.
--
-- Loops over lists are structural recursion. The loop of the dispatcher has no bound in the code
-- and takes fuel here, one turn each: a turn that comes back to the top excludes a candidate or
-- pays at least 0.1 seconds of budget, so that the candidates and the tenths of a second bound the
-- turns. The waiting loop of the limiter takes the clock readings of its turns.
--
-- Parameters: the rendezvous score (a logarithm of a SHA-256 as a float) and the session's
-- fingerprint; the execution of an endpoint, which is HTTP, with the wait for a stream's first
-- event; the catalog's snapshot and the minute of the day, as functions of the state. The text of a
-- Retry-After header and of an error message's time stands as the number that is read from it.
-- Logging, the texts of errors, the quota file's reading and writing (the rows that the file held
-- and the calls of the registered writer are values here), and the string form of an outcome kind
-- are not modelled. An exception of the quota writer, which `record` swallows, changes no state and
-- has no place here. The JSON, CSV, glob, IP address, date and SQLite libraries and the file system
-- are parameters, or values and outcomes that the operations are given. The converters, the stream
-- executor, the probe's requests, the CSRF tokens, the statistics and the routers are not modelled.
pub mod Admission
pub mod Balancer
pub mod Catalog
pub mod Channel
pub mod ChannelAttempt
pub mod Common
pub mod Config
pub mod Conversion
pub mod Dict
pub mod Dispatcher
pub mod Errors
pub mod GroupDispatch
pub mod GroupProbe
pub mod ModelGroup
pub mod Outcomes
pub mod QuotaLimits
pub mod RateLimiter
pub mod RateLimiting
pub mod ResponseStore
pub mod Tests
pub mod Text
pub mod ThinkFilter
pub mod WriteBehind
