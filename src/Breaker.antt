-- ===== src/Breaker.antt =====
-- The circuit breaker of one API key: backend-go/internal/metrics/channel_metrics.go.
-- `Key` is `KeyMetrics` with the calls of the store's `UpsertCircuitState` and `AddRecord` that were
-- made for it, oldest first. Instants and durations are numbers of one unit; `now` is an argument.
-- `failureThreshold` is the fraction threshold_num / threshold_den, compared exactly.
use ccx.Base.{
  ℕ, zero, suc, ◌+◌, ◌*◌, ◌/◌, ◌≡◌, refl, Bool, true, false, not, ◌&&◌, ◌||◌, Option, none, some,
  List, [], ◌∷◌, ◌++◌, String, max, arith, ltb, leb, nat_eq, str_eq, if◌then◌else◌, length, drop,
  count,
}
use ccx.Base.Dict.{Dict}
mod Types
pub mod Backoff
pub mod Window
pub mod Ops
pub mod Invariant
pub mod Moves
pub mod Trip
pub mod Probe
pub mod Persist
pub use Types.*
unfoldable pub use Types.{
  is_breaker_relevant, circuit_state_string, parse_circuit_state, normalize_failure_class,
  is_breaker_relevant_failure, new_key_metrics,
}

-- `append`, then the oldest result is dropped when the window is exceeded.
unfoldable pub append_to_window : ℕ → List Bool → Bool → List Bool
append_to_window size results success =
    let grown = results ++ success ∷ [] in if ltb size (length grown) then drop 1 grown else grown

abbrev pub failures : List Bool → ℕ
failures = count not

-- `failures / len >= failureThreshold`; an empty window has the rate 0, and the threshold is positive.
unfoldable pub reaches_threshold : Config → List Bool → Bool
reaches_threshold c results =
    ltb 0 (length results)
    && leb (c.threshold_num * length results) (failures results * c.threshold_den)

abbrev pub min_requests : Config → ℕ
min_requests c = max 3 (c.window_size / 2)

unfoldable pub is_key_circuit_broken : Config → KeyMetrics → Bool
unfolding reaches_threshold
is_key_circuit_broken c m =
    if leb consecutive_threshold m.consecutive_failures
    then true
    else if ltb (length m.breaker_results) (min_requests c)
    then false
    else reaches_threshold c m.breaker_results

-- The loop of `nextBackoffDuration` with `level` rounds left.
unfoldable pub backoff_loop : Config → ℕ → ℕ → ℕ
backoff_loop c zero delay = if ltb c.backoff_max delay then c.backoff_max else delay
backoff_loop c (suc level) delay =
    let rest = backoff_loop c level (delay * 2) in
    if leb c.backoff_max (delay * 2) then c.backoff_max else rest

unfoldable pub next_backoff_duration : Config → ℕ → ℕ
unfolding backoff_loop
next_backoff_duration c level = backoff_loop c level c.backoff_base

unfoldable pub circuit_row : KeyMetrics → PersistentCircuitState
unfolding circuit_state_string
circuit_row m = record {
  metrics_key = m.metrics_key;
  base_url = m.base_url;
  key_mask = m.key_mask;
  circuit_state = circuit_state_string m.circuit_state;
  circuit_opened_at = m.circuit_broken_at;
  half_open_at = m.half_open_at;
  next_retry_at = m.next_retry_at;
  backoff_level = m.backoff_level;
  half_open_successes = m.half_open_successes;
  consecutive_failures = m.consecutive_failures;
}

unfoldable pub persist_circuit_state : Config → Key → Key
persist_circuit_state c k =
    if c.has_store then record k { upserts = k.upserts ++ circuit_row k.metrics ∷ [] } else k

unfoldable pub reset_circuit_state : Config → Bool → Key → Key
unfolding persist_circuit_state
reset_circuit_state c clear_breaker_window k =
    let m = k.metrics in
    persist_circuit_state c (record k {
      metrics = record m {
        circuit_state = state_closed;
        circuit_broken_at = none;
        half_open_at = none;
        next_retry_at = none;
        backoff_level = 0;
        half_open_successes = 0;
        probe_in_flight = false;
        consecutive_failures = 0;
        breaker_results = if clear_breaker_window then [] else m.breaker_results;
      };
    })

unfoldable pub move_circuit_to_open : Config → ℕ → Bool → Key → Key
unfolding persist_circuit_state
move_circuit_to_open c now escalate k =
    let m = k.metrics in
    let level = if escalate then m.backoff_level + 1 else m.backoff_level in
    persist_circuit_state c (record k {
      metrics = record m {
        backoff_level = level;
        circuit_state = state_open;
        circuit_broken_at = some now;
        half_open_at = none;
        next_retry_at = some (now + next_backoff_duration c level);
        half_open_successes = 0;
        probe_in_flight = false;
      };
    })

unfoldable pub move_circuit_to_half_open : Config → ℕ → Key → Key
unfolding persist_circuit_state
move_circuit_to_half_open c now k =
    let m = k.metrics in
    persist_circuit_state c (record k {
      metrics = record m {
        circuit_state = state_half_open;
        half_open_at = some now;
        next_retry_at = none;
        half_open_successes = 0;
        probe_in_flight = false;
      };
    })

-- `NextRetryAt != nil && !now.Before(*NextRetryAt)`
abbrev pub is_due : ℕ → Option ℕ → Bool
is_due now none = false
is_due now (some t) = leb t now

unfoldable pub advance_circuit_state_if_due : Config → ℕ → Key → Key
unfolding move_circuit_to_half_open
advance_circuit_state_if_due c now k =
    if is_open k.metrics.circuit_state && is_due now k.metrics.next_retry_at
    then move_circuit_to_half_open c now k
    else k

-- The `switch` of `handleBreakerSuccessLocked`.
unfoldable pub settle_success : Config → CircuitState → Key → Key
unfolding reset_circuit_state persist_circuit_state
settle_success c state_half_open k =
    let m = k.metrics in
    let k' = record k { metrics = record m { half_open_successes = m.half_open_successes + 1 } } in
    if leb c.half_open_target (m.half_open_successes + 1)
    then reset_circuit_state c true k'
    else persist_circuit_state c k'
settle_success c state_open k = reset_circuit_state c true k
settle_success c state_closed k = k

-- The window and the failures in a row, before the `switch` of each handler.
unfoldable pub note_success : Config → Key → Key
unfolding append_to_window
note_success c k =
    let m = k.metrics in
    record k {
      metrics = record m {
        breaker_results = append_to_window c.window_size m.breaker_results true;
        consecutive_failures = 0;
      };
    }

unfoldable pub note_failure : Config → Key → Key
unfolding append_to_window
note_failure c k =
    let m = k.metrics in
    record k {
      metrics = record m {
        consecutive_failures = m.consecutive_failures + 1;
        breaker_results = append_to_window c.window_size m.breaker_results false;
      };
    }

unfoldable pub handle_breaker_success : Config → ℕ → Key → Key
unfolding advance_circuit_state_if_due note_success settle_success
handle_breaker_success c now k =
    let a = note_success c (advance_circuit_state_if_due c now k) in
    settle_success c a.metrics.circuit_state a

-- The `switch` of `handleBreakerFailureLocked`.
unfoldable pub settle_failure : Config → CircuitState → ℕ → Key → Key
unfolding move_circuit_to_open is_key_circuit_broken
settle_failure c state_half_open now k = move_circuit_to_open c now true k
settle_failure c state_closed now k =
    if is_key_circuit_broken c k.metrics then move_circuit_to_open c now false k else k
settle_failure c state_open now k = k

unfoldable pub handle_breaker_failure : Config → FailureClass → ℕ → Key → Key
unfolding normalize_failure_class is_breaker_relevant advance_circuit_state_if_due note_failure
    settle_failure
handle_breaker_failure c failure_class now k =
    let a = advance_circuit_state_if_due c now k in
    let b = note_failure c a in
    if is_breaker_relevant (normalize_failure_class false failure_class)
    then settle_failure c b.metrics.circuit_state now b
    else a

-- `MoveKeyToHalfOpen`, once the key is found.
unfoldable pub move_key_to_half_open : Config → ℕ → Key → Key
unfolding move_circuit_to_half_open
move_key_to_half_open c now k = move_circuit_to_half_open c now k

-- `ResetKeyFailureState`, once the key is found.
unfoldable pub reset_key_failure_state : Config → Key → Key
unfolding reset_circuit_state
reset_key_failure_state c k =
    let m = k.metrics in
    reset_circuit_state c true (record k { metrics = record m { recent_results = [] } })

-- `TryAcquireProbe`, once the key is found.
unfoldable pub try_acquire_probe : Config → ℕ → Key → Key × Bool
unfolding advance_circuit_state_if_due
try_acquire_probe c now k =
    let a = advance_circuit_state_if_due c now k in
    let m = a.metrics in
    if not (is_half_open m.circuit_state) || m.probe_in_flight
    then (a, false)
    else (record a { metrics = record m { probe_in_flight = true } }, true)

-- `ReleaseProbe`, once the key is found.
unfoldable pub release_probe : Key → Key
release_probe k = let m = k.metrics in record k { metrics = record m { probe_in_flight = false } }

-- `IsKeyHealthy`, once the key is found.
unfoldable pub is_key_healthy : Config → ℕ → Key → Key × Bool
unfolding advance_circuit_state_if_due reaches_threshold
is_key_healthy c now k =
    let a = advance_circuit_state_if_due c now k in
    (
      a,
      if is_open a.metrics.circuit_state
          then false
          else not (reaches_threshold c a.metrics.breaker_results),
    )
