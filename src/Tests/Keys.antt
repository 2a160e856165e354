-- ===== src/Tests/Keys.antt =====
-- Runs of the circuit breaker and of the requests of one key:
-- backend-go/internal/metrics/channel_metrics.go.
use ccx.Base.{
  ℕ, ℕ_eq, ◌+◌, ◌*◌, ◌^◌, ◌≡◌, refl, true, none, some, List, [], ◌∷◌, ◌++◌, arith, leb, min, any,
}
use ccx.Base.Dict.{lookup}
use ccx.Breaker.{
  Config, Key, state_closed, state_open, state_half_open, new_key_metrics, class_none, retryable,
  RequestRecord, PersistentCircuitState, try_acquire_probe, next_backoff_duration, backoff_loop,
  is_breaker_relevant_failure, circuit_state_string, handle_breaker_failure, handle_breaker_success,
  advance_circuit_state_if_due, is_key_healthy,
}
use ccx.Breaker.Ops.{Op, succeed, fail, advance, acquire, check_health, apply, run}
use ccx.Breaker.Invariant.{IsValid, run-IsValid, new_key_metrics-IsValid}
use ccx.Breaker.Moves.{may_move, apply-may_move}
use ccx.Breaker.Probe.{ends_probe, probe_exclusive, probe_granted_iff_due}
use ccx.Breaker.Trip.{three_failures_open}
use ccx.Breaker.Persist.{Agrees, last_row, run-Synced}
use ccx.Requests.{finalize, cancel, cleanup_history, pending_index}
use ccx.Requests.Index.{IsIndexed}
use ccx.Requests.Pending.{
  record_of, cancel_keeps_others, cleanup_keeps_recent, finalize_keeps_others,
}

-- A window of 10 results, half of which must fail, 30 to 600 seconds of delay, two successes to close.
abbrev config : Config
config = record {
  window_size = 10;
  threshold_num = 1;
  threshold_den = 2;
  backoff_base = 30;
  backoff_max = 600;
  half_open_target = 2;
  has_store = true;
}

abbrev fresh : Key
unfolding new_key_metrics
fresh = record { metrics = new_key_metrics "k" "https://a" "k***"; upserts = []; records = [] }

abbrev opened : Key
opened = record fresh {
  metrics = record (fresh.metrics) {
    consecutive_failures = 3;
    circuit_state = state_open;
    circuit_broken_at = some 100;
    next_retry_at = some 130;
  };
}

abbrev ops : List Op
ops = fail retryable 1 ∷ fail retryable 2 ∷ fail retryable 3 ∷ acquire 40 ∷ succeed 41 ∷ []

abbrev half_opened : Key
half_opened = record opened {
  metrics = record (opened.metrics) {
    circuit_state = state_half_open;
    next_retry_at = none;
    half_open_at = some 140;
  };
}

abbrev request : ℕ → RequestRecord
request t = record {
  model = "m";
  timestamp = t;
  success = true;
  failure_class = class_none;
  input_tokens = 0;
  output_tokens = 0;
  cache_creation_input_tokens = 0;
  cache_read_input_tokens = 0;
}

-- The requests 7 and 8 are pending.
abbrev pending : Key
pending = record fresh {
  metrics = record (fresh.metrics) {
    request_history = request 5 ∷ request 6 ∷ [];
    pending_history_idx = (7, 0) ∷ (8, 1) ∷ [];
  };
}

fresh-IsValid : IsValid config fresh.metrics
unfolding fresh new_key_metrics
fresh-IsValid = new_key_metrics-IsValid config (omega arith) "k" "https://a" "k***"

opened-IsValid : IsValid config opened.metrics
unfolding next_backoff_duration backoff_loop fresh new_key_metrics
opened-IsValid = ground arith

pending-IsIndexed : IsIndexed pending.metrics
unfolding lookup fresh new_key_metrics
pending-IsIndexed = record {
  distinct = (refl, (refl, tt));
  in_range = λ id i e. ground arith;
  injective = λ id id' i e e'. ground arith;
}

run-IsValid_example : IsValid config (run config ops fresh).metrics
unfolding fresh new_key_metrics
run-IsValid_example = run-IsValid config (omega arith) ops fresh fresh-IsValid

apply-may_move_example :
    may_move opened.metrics.next_retry_at
      (advance 130)
      state_open
      (apply config (advance 130) opened).metrics.circuit_state
    ≡ true
unfolding fresh new_key_metrics
apply-may_move_example = apply-may_move config (advance 130) opened

probe_exclusive_example :
    any ends_probe (acquire 141 ∷ fail retryable 142 ∷ check_health 143 ∷ []) ≡ true
unfolding try_acquire_probe fresh new_key_metrics run apply handle_breaker_failure
    advance_circuit_state_if_due is_key_healthy next_backoff_duration
probe_exclusive_example =
    probe_exclusive config 140 900 (acquire 141 ∷ fail retryable 142 ∷ check_health 143 ∷ []) opened
      refl refl

probe_granted_iff_due_example :
    (try_acquire_probe config 129 opened).1 ≡ leb (100 + min (30 * 2 ^ 0) 600) 129
unfolding fresh new_key_metrics
probe_granted_iff_due_example = probe_granted_iff_due config 129 100 opened opened-IsValid refl refl

three_failures_open_example :
    (run config
      (fail retryable 1 ∷ fail retryable 500 ∷ fail retryable 900 ∷ [])
      fresh).metrics.circuit_state
    ≡ state_open
unfolding is_breaker_relevant_failure new_key_metrics fresh
three_failures_open_example =
    three_failures_open config retryable retryable retryable 1 500 900 fresh refl refl refl refl

abbrev no_row : PersistentCircuitState
no_row = record {
  metrics_key = "k";
  base_url = "https://a";
  key_mask = "k***";
  circuit_state = "closed";
  circuit_opened_at = none;
  half_open_at = none;
  next_retry_at = none;
  backoff_level = 0;
  half_open_successes = 0;
  consecutive_failures = 0;
}

run-Synced_example :
    Agrees (run config ops fresh).metrics (last_row (run config ops fresh).upserts no_row)
unfolding circuit_state_string fresh new_key_metrics
run-Synced_example = run-Synced config refl no_row ops fresh (record {
  state = refl;
  opened = refl;
  half = refl;
  retry = refl;
  level = refl;
  successes = refl;
})

cancel_keeps_others_example : record_of 8 (cancel 7 pending).metrics ≡ record_of 8 pending.metrics
unfolding fresh new_key_metrics
cancel_keeps_others_example = cancel_keeps_others 7 8 pending pending-IsIndexed (ground arith)

cleanup_keeps_recent_example :
    record_of 7 (cleanup_history 86400000000003 pending.metrics) ≡ some (request 5)
unfolding record_of lookup fresh new_key_metrics
cleanup_keeps_recent_example =
    cleanup_keeps_recent 86400000000003 7 pending.metrics (request 5) pending-IsIndexed refl refl

finalize_keeps_others_example :
    record_of 8 (finalize config 7 true class_none none 9 pending).metrics
    ≡ record_of 8 pending.metrics
unfolding pending_index lookup fresh new_key_metrics
finalize_keeps_others_example =
    finalize_keeps_others config 7 0 8 true class_none none 9 pending pending-IsIndexed refl
      (ground arith)

-- Three failures open the circuit, the probe at its retry instant is granted once, and two
-- successes close it.
cycle :
    ((run config
        (fail retryable 1 ∷ fail retryable 2 ∷ fail retryable 3 ∷ [])
        fresh).metrics.next_retry_at
      ≡ some 33)
    × ((run config ops fresh).metrics.circuit_state ≡ state_half_open)
    × ((run config (ops ++ succeed 42 ∷ []) fresh).metrics.circuit_state ≡ state_closed)
unfolding run apply handle_breaker_failure handle_breaker_success try_acquire_probe new_key_metrics
    fresh next_backoff_duration
cycle = (refl, refl, refl)
