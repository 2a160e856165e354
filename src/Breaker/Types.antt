-- ===== src/Breaker/Types.antt =====
-- The data of the circuit breaker: backend-go/internal/metrics/channel_metrics.go.
use ccx.Base.{ℕ, Bool, true, false, Option, none, List, [], String, str_eq, if◌then◌else◌}
use ccx.Base.Dict.{Dict}

pub data CircuitState : Type 0 where
  state_closed state_open state_half_open : CircuitState

pub CircuitState-discrete : Discrete CircuitState
CircuitState-discrete = hlevel

-- A `FailureClass` is a string: its five constants, and any other text.
pub data FailureClass : Type 0 where
  class_none retryable non_retryable quota client_cancel : FailureClass
  other_class : String → FailureClass

abbrev pub is_open : CircuitState → Bool
is_open state_open = true
is_open _ = false

abbrev pub is_half_open : CircuitState → Bool
is_half_open state_half_open = true
is_half_open _ = false

abbrev pub is_closed : CircuitState → Bool
is_closed state_closed = true
is_closed _ = false

unfoldable pub is_breaker_relevant : FailureClass → Bool
is_breaker_relevant retryable = true
is_breaker_relevant _ = false

unfoldable pub circuit_state_string : CircuitState → String
circuit_state_string state_open = "open"
circuit_state_string state_half_open = "half_open"
circuit_state_string state_closed = "closed"

unfoldable pub parse_circuit_state : String → CircuitState
parse_circuit_state text =
    if str_eq text "open"
    then state_open
    else if str_eq text "half_open"
    then state_half_open
    else state_closed

unfoldable pub normalize_failure_class : Bool → FailureClass → FailureClass
normalize_failure_class true c = class_none
normalize_failure_class false class_none = retryable
normalize_failure_class false c = c

unfoldable pub is_breaker_relevant_failure : Bool → FailureClass → Bool
unfolding normalize_failure_class is_breaker_relevant
is_breaker_relevant_failure success c =
    if success then true else is_breaker_relevant (normalize_failure_class success c)

pub record RequestRecord : Type 0 where
  pub model : String
  pub timestamp : ℕ
  pub success : Bool
  pub failure_class : FailureClass
  pub input_tokens : ℕ
  pub output_tokens : ℕ
  pub cache_creation_input_tokens : ℕ
  pub cache_read_input_tokens : ℕ

pub record KeyMetrics : Type 0 where
  pub metrics_key : String
  pub base_url : String
  pub key_mask : String
  pub request_count : ℕ
  pub success_count : ℕ
  pub failure_count : ℕ
  pub consecutive_failures : ℕ
  pub active_requests : ℕ
  pub last_success_at : Option ℕ
  pub last_failure_at : Option ℕ
  pub circuit_broken_at : Option ℕ
  pub circuit_state : CircuitState
  pub half_open_at : Option ℕ
  pub next_retry_at : Option ℕ
  pub backoff_level : ℕ
  pub half_open_successes : ℕ
  pub probe_in_flight : Bool
  pub recent_results : List Bool
  pub breaker_results : List Bool
  pub request_history : List RequestRecord
  pub pending_history_idx : Dict ℕ ℕ

-- The configuration fields of `MetricsManager`; `has_store` says that `m.store` is not nil.
pub record Config : Type 0 where
  pub window_size : ℕ
  pub threshold_num : ℕ
  pub threshold_den : ℕ
  pub backoff_base : ℕ
  pub backoff_max : ℕ
  pub half_open_target : ℕ
  pub has_store : Bool

-- The row that `UpsertCircuitState` writes (its `APIType` is the manager's).
pub record PersistentCircuitState : Type 0 where
  pub metrics_key : String
  pub base_url : String
  pub key_mask : String
  pub circuit_state : String
  pub circuit_opened_at : Option ℕ
  pub half_open_at : Option ℕ
  pub next_retry_at : Option ℕ
  pub backoff_level : ℕ
  pub half_open_successes : ℕ
  pub consecutive_failures : ℕ

-- The record that `AddRecord` writes (its `APIType` is the manager's).
pub record PersistentRecord : Type 0 where
  pub metrics_key : String
  pub base_url : String
  pub key_mask : String
  pub timestamp : ℕ
  pub success : Bool
  pub failure_class : FailureClass
  pub input_tokens : ℕ
  pub output_tokens : ℕ
  pub cache_creation_tokens : ℕ
  pub cache_read_tokens : ℕ
  pub model : String

pub record Key : Type 0 where
  pub metrics : KeyMetrics
  pub upserts : List PersistentCircuitState
  pub records : List PersistentRecord

abbrev pub consecutive_threshold : ℕ
consecutive_threshold = 3

-- `getOrCreateKey` on a new key, and the start of `getOrCreateKeyLocked`.
unfoldable pub new_key_metrics : String → String → String → KeyMetrics
new_key_metrics key url mask = record {
  metrics_key = key;
  base_url = url;
  key_mask = mask;
  request_count = 0;
  success_count = 0;
  failure_count = 0;
  consecutive_failures = 0;
  active_requests = 0;
  last_success_at = none;
  last_failure_at = none;
  circuit_broken_at = none;
  circuit_state = state_closed;
  half_open_at = none;
  next_retry_at = none;
  backoff_level = 0;
  half_open_successes = 0;
  probe_in_flight = false;
  recent_results = [];
  breaker_results = [];
  request_history = [];
  pending_history_idx = [];
}
