-- ===== src/Attempts.antt =====
-- The attempts on one channel, over its base URLs and its keys:
-- `TryUpstreamWithAllKeys` of backend-go/internal/handlers/common/upstream_failover.go.
-- The calls whose answer the function uses (the next key, the state of a key, the probe, the request built, the response)
-- are the ports, functions on a world `W` that is not described further; the callbacks that may be nil
-- are there. Every other call is an event of the trace, the newest first. A URL and a key stand for the key of the
-- metrics; the logging, the usage of a response and the tracing of the connection are not modelled.
use ccx.Base.{
  ℕ, zero, suc, ◌≡◌, Bool, true, false, not, ◌&&◌, ◌||◌, Option, none, some, List, [], ◌∷◌, ◌++◌,
  String, ltb, leb, nat_eq, str_eq, if◌then◌else◌, any, filter, length,
}
use Prim.Native.String.{◌++◌ as append}
use Prim.Native.Char.{code}
use ccx.Breaker.{
  CircuitState, state_closed, state_open, state_half_open, FailureClass, retryable, non_retryable,
  quota,
}
use ccx.Config.Types.{UpstreamConfig, is_auto_blacklist_balance_enabled}
use ccx.Config.Keys.{has}
use ccx.Retry.{Body, Decision, should_retry_with_next_key}
use ccx.UrlManager.{UrlLatencyResult}
pub mod Answers
pub mod Trace
pub mod Ends
pub mod Settled
pub mod Held
pub mod Probes

pub data Event : Type 0 where
  probe_acquired : String → String → Event
  probe_released : String → String → Event
  request_start : String → String → Event
  log_created : String → String → Event
  connected : String → String → Event
  finalize_success : String → String → Event
  finalize_failure : String → String → FailureClass → Event
  finalize_cancel : String → String → Event
  request_end : String → String → Event
  log_completed : ℕ → Bool → Bool → Event
  mark_key_failed : String → Event
  blacklisted : String → String → Event
  deprioritized : String → Event
  url_failed : String → Event
  url_succeeded : String → Event
  answered : ℕ → Event

-- What became of a response with a status of 2xx: the error of `handleSuccess`.
pub data Handled : Type 0 where
  finished : Handled
  canceled : Handled
  invalid_response : Handled
  key_blacklisted : String → Handled
  broken : Handled

-- A response with another status; `blacklist` is the reason of `ShouldBlacklistKey`, `client_status` what
-- `normalizeUpstreamErrorStatus` gives.
pub record BadResponse : Type 0 where
  pub status : ℕ
  pub body : Body
  pub blacklist : Option String
  pub client_status : ℕ

pub data Response : Type 0 where
  send_canceled : Response
  send_failed : Response
  bad_status : BadResponse → Response
  good_status : Handled → Response

pub record Ports (W : Type 0) : Type 0 where
  pub next_api_key : List String → W → W × Option String
  pub get_key_circuit_state : String → String → W → W × CircuitState
  pub try_acquire_probe : String → String → W → W × Bool
  pub build_request : String → String → W → W × Bool
  pub send_request : String → String → W → W × Response

-- `lastError`
pub data AttemptError : Type 0 where
  no_next_key : AttemptError
  request_build_failed : AttemptError
  client_canceled : AttemptError
  connection_failed : AttemptError
  upstream_error : ℕ → AttemptError
  response_failed : Handled → AttemptError

pub record Answer : Type 0 where
  pub handled : Bool
  pub success_key : String
  pub success_base_url_idx : ℕ
  pub failover_error : Option ℕ
  pub last_error : Option AttemptError

-- The variables of the function. `failed_keys` are those of the base URL, `probes` the probes to release.
pub record State (W : Type 0) : Type 0 where
  pub world : W
  pub trace : List Event
  pub failed_keys : List String
  pub probes : List String
  pub candidates : List String
  pub last_failover : Option ℕ
  pub last_error : Option AttemptError

-- How one round of the loop over the keys ends.
pub data Flow (W : Type 0) : Type 0 where
  returned : Answer → State W → Flow W
  next_url : State W → Flow W
  next_key : State W → Flow W

abbrev pub answer : Bool → Option AttemptError → Answer
answer b e = record {
  handled = b;
  success_key = "";
  success_base_url_idx = 0;
  failover_error = none;
  last_error = e;
}

-- What stays the same in one round: the channel, the mode, the URL with its index, and whether this is a retry.
pub record Round : Type 0 where
  pub upstream : UpstreamConfig
  pub is_fuzzy : Bool
  pub url : UrlLatencyResult
  pub is_retry : Bool
