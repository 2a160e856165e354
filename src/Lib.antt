-- ===== src/Lib.antt =====
-- A model of the core of CCX, a proxy for AI APIs in Go: which upstream channel and which of its
-- URLs a request goes to, how failures open and probes close the circuit of an API key, what is
-- recorded about requests, how the configuration of the channels and their keys changes, and which
-- conversation a request continues.
--
-- The parts, and the files that model them:
-- - Breaker (backend-go/internal/metrics/channel_metrics.go): the circuit breaker of one API key.
--   `KeyMetrics` is the state, `Key` adds what was written to the store; the operations keep their
--   Go names in snake case (`handle_breaker_failure` is handleBreakerFailure). Breaker/Ops makes
--   the operations data, for the theorems on runs in Breaker/Invariant, Moves, Trip, Probe,
--   Backoff and Persist.
-- - Requests (the same file): connecting, finalizing and cancelling a request, with the counters,
--   the 24-hour history and the index of pending requests that must follow the history.
--   Requests/History has the data and the history, Requests/Index the invariant of that index,
--   Requests/Pending and Counts what it is for.
-- - Metrics (the same file): all keys of an API type as a map, and the health, the failure rate
--   and the circuit state of a channel. Each of these calls writes: it turns due open keys
--   half-open.
-- - LogStore (backend-go/internal/metrics/channel_log.go): the last fifty requests of each
--   channel.
-- - UrlManager (backend-go/internal/warmup/url_manager.go): the order of the URLs of a channel by
--   their failures.
-- - Affinity (backend-go/internal/session/trace_affinity.go): the channel that a user stays on.
-- - Config (backend-go/internal/config): the channels and their keys. Config/Types has the data,
--   Config/Keys what the operations do to the keys of one channel, Config/Manager how a change is
--   stored and saved, Config/Failures the cooling down and the choice of a key, Config/Update and
--   Config/Channels the operations on the channels of one kind, with one child module for each of
--   config_messages.go, config_responses.go, config_gemini.go, config_chat.go and config_images.go,
--   Config/Blacklist the blacklist, Config/Load the loading and its migrations, Config/Urls
--   (with backend-go/internal/utils/url_utils.go) and Config/Models the base URLs, the model
--   mapping and the model rules. Config/Ops makes the operations data, and Config/Ops/Runs takes runs
--   of them.
-- - Session (backend-go/internal/session/manager.go): the conversations of the Responses API.
-- - Scheduler (backend-go/internal/scheduler/channel_scheduler.go): selection by name, route
--   prefix, promotion, affinity, priority and fallback (Scheduler, Scheduler/Select), the instants
--   of the scheduled recovery (Scheduler/Recovery), and the keys of the URL manager and of the
--   affinity (Scheduler/ChannelKeys and AffinityKeys). The scheduler reads the metrics through the
--   record `Reads`, which Scheduler/MetricsReads fills from Metrics.
-- - Failover (backend-go/internal/handlers/common/multi_channel_failover.go): the loop that
--   selects a channel, tries it and marks it as failed, over the scheduler's own selection.
-- - Attempts (backend-go/internal/handlers/common/upstream_failover.go): TryUpstreamWithAllKeys, the
--   loops over the URLs and the keys of one channel. Its calls are events of a trace; what it asks
--   of the metrics, of the configuration and of the network are the ports. Attempts has the data,
--   Attempts/Answers what follows a response, Attempts/Trace the loops, Attempts/Ends a rule for
--   what they keep, Attempts/Settled the requests, Attempts/Held and Probes the half-open probes.
-- - Retry (backend-go/internal/handlers/common/failover.go): which errors are tried again, in both
--   modes.
-- - Transitions (backend-go/internal/transitions): restoring disabled keys and half-opening them.
-- - Base: lists over native numbers, Go maps as association lists, the stable sort, Boolean tests.
-- - Tests: the same definitions run at concrete inputs.
--
-- Conventions: an instant is a number (a Go time that may be nil is an option), a duration a
-- number of the same unit, and an operation takes the clock reading as an argument, once per held
-- lock. A Go map is an association list on which no theorem depends on the order; a set of channel
-- indices is a list. A failure rate is an exact fraction, where Go divides floating-point numbers.
-- Indices, priorities and token counts are not negative. Counters do not wrap: their type in Go
-- has 64 bits. Logging has no model.
--
-- Every loop is structural recursion on the list it runs over, with two exceptions that count
-- their rounds as the source does: the failover makes as many rounds as there are active channels
-- at its start, an attempt as many for each URL as the channel has keys. Running out of rounds is
-- one of their endings.
--
-- Not modelled: the link of Failover, where the attempt on a selected channel is a parameter, to
-- Attempts, and of the ports of Attempts to the models of the metrics and the keys; the hash
-- that makes a key's name of URL and API key, and the variants of a URL, which are the parameter
-- `Names` of Metrics; the scheduler takes the base URLs of a channel and the model rules as
-- parameters, which `get_all_base_urls` and `supports_model` of Config can fill; the JSON body of
-- an error, of which Retry takes the verdicts; the JSON of the configuration, the file system and
-- the watcher of the configuration file; the SQLite store, the protocol converters, HTTP and the
-- web console.
pub mod Base
pub mod Breaker
pub mod Requests
pub mod LogStore
pub mod UrlManager
pub mod Affinity
pub mod Metrics
pub mod Config
pub mod Scheduler
pub mod Failover
pub mod Attempts
pub mod Retry
pub mod Transitions
pub mod Session
pub mod Tests
