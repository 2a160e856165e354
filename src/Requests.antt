-- ===== src/Requests.antt =====
-- The requests of one API key, from the connection to the outcome: counters, result windows, the
-- 24-hour history and the index of the pending requests in backend-go/internal/metrics/channel_metrics.go.
-- The instants that one call reads from the clock are one instant, `now`. Token counts are not
-- negative.
use ccx.Base.{
  ℕ, ℕ_eq, zero, suc, ◌+◌, ◌-◌, ◌≡◌, Bool, true, false, ◌&&◌, Option, none, some, List, [], ◌∷◌,
  ◌++◌, String, ltb, leb, if◌then◌else◌, length, drop, remove_at, modify, get_elem?,
}
use ccx.Base.Dict.{Dict, lookup, insert, delete, update_all}
use ccx.Breaker.{
  Config, Key, KeyMetrics, FailureClass, class_none, RequestRecord, PersistentRecord,
  append_to_window, normalize_failure_class, handle_breaker_success, handle_breaker_failure,
  advance_circuit_state_if_due, reset_circuit_state,
}
mod History
pub mod Index
pub mod Pending
pub mod Counts
pub use History.*
unfoldable pub use History.{
  extract_usage_tokens, first_recent, cut_history, cleanup_history, append_to_history, add_record,
}

-- The counters, the instant of the last outcome and the result window.
unfoldable pub count_success : Config → ℕ → Key → Key
count_success c now k =
    let m = k.metrics in
    record k {
      metrics = record m {
        request_count = m.request_count + 1;
        success_count = m.success_count + 1;
        last_success_at = some now;
        recent_results = append_to_window c.window_size m.recent_results true;
      };
    }

unfoldable pub count_failure : Config → ℕ → Key → Key
count_failure c now k =
    let m = k.metrics in
    record k {
      metrics = record m {
        request_count = m.request_count + 1;
        failure_count = m.failure_count + 1;
        last_failure_at = some now;
        recent_results = append_to_window c.window_size m.recent_results false;
      };
    }

abbrev pub update_metrics : (KeyMetrics → KeyMetrics) → Key → Key
update_metrics f k = record k { metrics = f k.metrics }

-- `recordSuccessWithUsageLocked`, once the key is found.
unfoldable pub record_success : Config → Option Usage → ℕ → Key → Key
record_success c usage now k =
    let t = extract_usage_tokens usage in
    let a = handle_breaker_success c now (count_success c now k) in
    add_record c now true class_none t ""
      (update_metrics (append_to_history now true class_none t) a)

-- `recordFailureLocked`, once the key is found.
unfoldable pub record_failure : Config → FailureClass → ℕ → Key → Key
record_failure c class now k =
    let class' = normalize_failure_class false class in
    let a = handle_breaker_failure c class now (count_failure c now k) in
    add_record c now false class' no_tokens ""
      (update_metrics (append_to_history now false class' no_tokens) a)

-- The part of `RecordRequestConnectedAt` after the key is found, with the id that it was given.
unfoldable pub connect : Config → ℕ → String → ℕ → ℕ → Key → Key
connect c id model timestamp now k =
    let a = advance_circuit_state_if_due c timestamp k in
    let m = a.metrics in
    record a {
      metrics = cleanup_history now (record m {
        request_history =
            m.request_history
            ++ (record {
              model = model;
              timestamp = timestamp;
              success = true;
              failure_class = class_none;
              input_tokens = 0;
              output_tokens = 0;
              cache_creation_input_tokens = 0;
              cache_read_input_tokens = 0;
            })
              ∷ [];
        pending_history_idx = insert id (length m.request_history) m.pending_history_idx;
      });
    }

-- `pendingHistoryIdx[requestID]`, and the bounds of the history.
unfoldable pub pending_index : ℕ → KeyMetrics → Option ℕ
pending_index id m = elim (lookup id m.pending_history_idx) [
  | none ↦ none
  | some i ↦ if ltb i (length m.request_history) then some i else none
]

abbrev pub write_outcome : Bool → FailureClass → Tokens → RequestRecord → RequestRecord
write_outcome success class t r = record r {
  success = success;
  failure_class = class;
  input_tokens = t.input;
  output_tokens = t.output;
  cache_creation_input_tokens = t.cache_creation;
  cache_read_input_tokens = t.cache_read;
}

-- `delete(pendingHistoryIdx, requestID)`, and the outcome written to the record.
unfoldable pub settle_pending : ℕ → ℕ → Bool → FailureClass → Tokens → KeyMetrics → KeyMetrics
settle_pending id i success class t m = record m {
  pending_history_idx = delete id m.pending_history_idx;
  request_history = modify (write_outcome success class t) m.request_history i;
}

abbrev pub record_timestamp : List RequestRecord → ℕ → ℕ
record_timestamp rs i = elim (get_elem? rs i) [ none ↦ 0 | some r ↦ r.timestamp ]

abbrev pub record_model : List RequestRecord → ℕ → String
record_model rs i = elim (get_elem? rs i) [ none ↦ "" | some r ↦ r.model ]

-- The part of `RecordRequestFinalizeOutcome` for a pending request at index `i`.
unfoldable pub finalize_at : Config → ℕ → ℕ → Bool → FailureClass → Option Usage → ℕ → Key → Key
finalize_at c id i true class usage now k =
    let t = extract_usage_tokens usage in
    let history = k.metrics.request_history in
    add_record c (record_timestamp history i) true class_none t (record_model history i) (
      handle_breaker_success c now
        (count_success c now (update_metrics (settle_pending id i true class_none t) k)))
finalize_at c id i false class usage now k =
    let class' = normalize_failure_class false class in
    let history = k.metrics.request_history in
    add_record c (record_timestamp history i) false class' no_tokens (record_model history i) (
      handle_breaker_failure c class' now
        (count_failure c now (update_metrics (settle_pending id i false class' no_tokens) k)))

-- `RecordRequestFinalizeOutcome`, once the key is found.
unfoldable pub finalize : Config → ℕ → Bool → FailureClass → Option Usage → ℕ → Key → Key
finalize c id success class usage now k = elim (pending_index id k.metrics) [
  | some i ↦ finalize_at c id i success class usage now k
  | none ↦
      if success
      then record_success c usage now k
      else record_failure c (normalize_failure_class false class) now k
]

-- An index after the record at `i` is removed.
abbrev pub close_gap : ℕ → ℕ → ℕ → Option ℕ
close_gap i id idx = some (if ltb i idx then idx - 1 else idx)

unfoldable pub cancel_at : ℕ → ℕ → KeyMetrics → KeyMetrics
cancel_at id i m = record m {
  request_count = m.request_count + 1;
  request_history = remove_at m.request_history i;
  pending_history_idx = update_all (close_gap i) (delete id m.pending_history_idx);
}

-- `RecordRequestFinalizeClientCancel`, once the key is found.
unfoldable pub cancel : ℕ → Key → Key
cancel id k = elim (pending_index id k.metrics) [
  | some i ↦ update_metrics (cancel_at id i) k
  | none ↦ k
]

-- `RecordRequestStart` and `RecordRequestEnd`, once the key is found.
unfoldable pub request_start : Key → Key
request_start = update_metrics (λ m. record m { active_requests = m.active_requests + 1 })

unfoldable pub request_end : Key → Key
request_end k =
    if ltb 0 k.metrics.active_requests
    then update_metrics (λ m. record m { active_requests = m.active_requests - 1 }) k
    else k

-- `ResetKey`, once the key is found.
unfoldable pub reset_key : Config → Key → Key
reset_key c k =
    let a = reset_circuit_state c true (
      update_metrics
        (λ m. record m {
          request_count = 0;
          success_count = 0;
          failure_count = 0;
          active_requests = 0;
          last_success_at = none;
          last_failure_at = none;
          recent_results = [];
          breaker_results = [];
          request_history = [];
        })
        k) in
    update_metrics (λ m. record m { pending_history_idx = [] }) a
