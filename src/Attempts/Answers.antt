-- ===== src/Attempts/Answers.antt =====
-- What follows a response in an attempt on a channel:
-- `TryUpstreamWithAllKeys` of backend-go/internal/handlers/common/upstream_failover.go.
use ccx.Base.{
  ℕ, true, false, not, ◌||◌, Option, none, some, List, [], ◌∷◌, ◌++◌, String, str_eq, if◌then◌else◌,
  filter,
}
use Prim.Native.String.{◌++◌ as append}
use ccx.Breaker.{FailureClass, retryable, non_retryable, quota}
use ccx.Config.Types.{UpstreamConfig, is_auto_blacklist_balance_enabled}
use ccx.Config.Keys.{has}
use ccx.Retry.{should_retry_with_next_key}
use ccx.Attempts.{
  Event, probe_released, finalize_success, finalize_failure, finalize_cancel, request_end,
  log_completed, mark_key_failed, blacklisted, deprioritized, url_failed, url_succeeded, answered,
  Handled, finished, canceled, invalid_response, key_blacklisted, broken, BadResponse, Response,
  send_canceled, send_failed, bad_status, good_status, AttemptError, client_canceled,
  connection_failed, upstream_error, response_failed, State, Flow, returned, next_key, answer,
  Round,
}

-- A key is blacklisted for its balance only where the channel allows it.
unfoldable pub blacklisting : UpstreamConfig → String → Option String → List Event
unfolding is_auto_blacklist_balance_enabled
blacklisting u key none = []
blacklisting u key (some reason) =
    if not (str_eq reason "insufficient_balance") || is_auto_blacklist_balance_enabled u
    then blacklisted key reason ∷ []
    else []

-- The calls of a failure that goes on with the next key, the last one first.
abbrev pub failure_events : Round → String → FailureClass → ℕ → List Event
failure_events r key class status =
    log_completed status false r.is_retry
    ∷ url_failed r.url.url
    ∷ request_end r.url.url key
    ∷ finalize_failure r.url.url key class
    ∷ mark_key_failed key
    ∷ []

-- `currentBaseURL + "|" + apiKey`
abbrev pub probe_key : String → String → String
probe_key url key = append url (append "|" key)

-- `names[name] = true`, for the candidates and for the probes.
abbrev pub add_name : String → List String → List String
add_name name names = if has names name then names else name ∷ names

abbrev pub deprioritize_all : List String → List Event
deprioritize_all [] = []
deprioritize_all (key ∷ keys) = deprioritized key ∷ deprioritize_all keys

module _ {W : Type 0} where
  abbrev pub emit : List Event → State W → State W
  emit es s = record s { trace = es ++ s.trace }

  -- The key is tried no more on this URL.
  abbrev pub give_up : String → AttemptError → State W → State W
  give_up key e s = record s { failed_keys = key ∷ s.failed_keys; last_error = some e }

  -- A response with a status that is not 2xx.
  unfoldable pub on_bad_status : Round → String → BadResponse → State W → Flow W
  unfolding should_retry_with_next_key blacklisting
  on_bad_status r key b s =
      let d = should_retry_with_next_key r.is_fuzzy b.status b.body in
      let listed = emit (blacklisting r.upstream key b.blacklist) s in
      if d.should_failover
      then next_key (
          give_up key (upstream_error b.status) (
            emit (failure_events r key (if d.is_quota_related then quota else retryable) b.status)
              (record listed {
                last_failover = some b.status;
                candidates = if d.is_quota_related then add_name key s.candidates else s.candidates;
              })))
      else returned (answer true none) (
          emit
            (answered b.client_status
              ∷ log_completed b.client_status false r.is_retry
              ∷ request_end r.url.url key
              ∷ finalize_failure r.url.url key non_retryable
              ∷ [])
            listed)

  -- The probe of a request that succeeded is released at once.
  abbrev pub release_own : String → String → State W → State W
  release_own url key s =
      if has s.probes (probe_key url key)
      then emit (probe_released url key ∷ [])
          (record s { probes = filter (λ p. not (str_eq (probe_key url key) p)) s.probes })
      else s

  -- A response with a status of 2xx.
  unfoldable pub on_good_status : Round → String → Handled → State W → Flow W
  unfolding blacklisting
  on_good_status r key h s =
      let url = r.url.url in
      let good = emit (url_succeeded url ∷ deprioritize_all s.candidates) s in
      elim h [
        | finished ↦
            returned
              (record {
                handled = true;
                success_key = key;
                success_base_url_idx = r.url.original_idx;
                failover_error = none;
                last_error = none;
              })
              (emit (log_completed 200 true r.is_retry ∷ []) (
                release_own url key
                  (emit (request_end url key ∷ finalize_success url key ∷ []) good)))
        | canceled ↦ returned (answer true (some (response_failed canceled))) (
            emit
              (log_completed 200 false r.is_retry
                ∷ request_end url key
                ∷ finalize_cancel url key
                ∷ [])
              good)
        | invalid_response ↦ next_key (
            give_up key (response_failed invalid_response)
              (emit (failure_events r key retryable 200) good))
        | key_blacklisted reason ↦ next_key (
            give_up key (response_failed (key_blacklisted reason)) (
              emit (failure_events r key retryable 200)
                (emit (blacklisting r.upstream key (some reason)) good)))
        | broken ↦ returned (answer true (some (response_failed broken))) (
            emit
              (log_completed 200 false r.is_retry
                ∷ request_end url key
                ∷ finalize_failure url key retryable
                ∷ mark_key_failed key
                ∷ [])
              good)
      ]

  unfoldable pub on_response : Round → String → Response → State W → Flow W
  unfolding on_bad_status on_good_status
  on_response r key send_canceled s = returned (answer true (some client_canceled)) (
      emit
        (log_completed 0 false r.is_retry
          ∷ request_end r.url.url key
          ∷ finalize_cancel r.url.url key
          ∷ [])
        s)
  on_response r key send_failed s =
      next_key (give_up key connection_failed (emit (failure_events r key retryable 0) s))
  on_response r key (bad_status b) s = on_bad_status r key b s
  on_response r key (good_status h) s = on_good_status r key h s
