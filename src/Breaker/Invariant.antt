-- ===== src/Breaker/Invariant.antt =====
-- What holds of a key between two operations, and how its circuit state may move.
use ccx.Base.{
  ℕ, String, ◌+◌, ◌≤◌, ◌<◌, ◌≡◌, ◌≢◌, true, false, Option, none, some, List, [], ◌∷◌, arith, length,
}
use ccx.Breaker.{
  Config, Key, KeyMetrics, FailureClass, state_closed, state_open, state_half_open,
  handle_breaker_success, handle_breaker_failure, advance_circuit_state_if_due, try_acquire_probe,
  release_probe, move_key_to_half_open, reset_key_failure_state, is_key_healthy, new_key_metrics,
  next_backoff_duration,
}
use ccx.Breaker.Ops.{
  Op, succeed, fail, advance, acquire, release, half_open, reset, check_health, apply, run,
}
use ccx.Breaker.Window.{length-append_to_window-le}

abbrev pub add_delay : Option ℕ → ℕ → Option ℕ
add_delay none d = none
add_delay (some t) d = some (t + d)

pub record IsValid (c : Config) (m : KeyMetrics) : Type 0 where
  pub open_since : m.circuit_state ≡ state_open → m.circuit_broken_at ≢ none
  pub open_until :
      m.circuit_state ≡ state_open
      → m.next_retry_at ≡ add_delay m.circuit_broken_at (next_backoff_duration c m.backoff_level)
  pub retry_open : m.circuit_state ≢ state_open → m.next_retry_at ≡ none
  pub closed_broken : m.circuit_state ≡ state_closed → m.circuit_broken_at ≡ none
  pub closed_half_open : m.circuit_state ≡ state_closed → m.half_open_at ≡ none
  pub closed_level : m.circuit_state ≡ state_closed → m.backoff_level ≡ 0
  pub half_open_since : m.circuit_state ≡ state_half_open → m.half_open_at ≢ none
  pub half_open_pending : m.half_open_successes < c.half_open_target
  pub probe_half_open : m.probe_in_flight ≡ true → m.circuit_state ≡ state_half_open
  pub breaker_window : length m.breaker_results ≤ c.window_size
  pub recent_window : length m.recent_results ≤ c.window_size

module _ (c : Config) (positive : 0 < c.half_open_target) where
  pub advance-IsValid :
      (now : ℕ) (k : Key)
      → IsValid c k.metrics
      → IsValid c (advance_circuit_state_if_due c now k).metrics
  unfolding advance_circuit_state_if_due
  advance-IsValid now k v = ground arith

  pub success-IsValid :
      (now : ℕ) (k : Key) → IsValid c k.metrics → IsValid c (handle_breaker_success c now k).metrics
  unfolding handle_breaker_success
  success-IsValid now k v = ground (
    arith,
    length-append_to_window-le c.window_size k.metrics.breaker_results true v.breaker_window,
  )

  pub failure-IsValid :
      (class : FailureClass) (now : ℕ) (k : Key)
      → IsValid c k.metrics
      → IsValid c (handle_breaker_failure c class now k).metrics
  unfolding handle_breaker_failure
  failure-IsValid class now k v = ground (
    arith,
    length-append_to_window-le c.window_size k.metrics.breaker_results false v.breaker_window,
  )

  apply-IsValid : (op : Op) (k : Key) → IsValid c k.metrics → IsValid c (apply c op k).metrics
  unfolding apply
  apply-IsValid (succeed now) k v = success-IsValid now k v
  apply-IsValid (fail class now) k v = failure-IsValid class now k v
  apply-IsValid (advance now) k v = advance-IsValid now k v
  apply-IsValid (acquire now) k v = unfold try_acquire_probe in ground arith
  apply-IsValid release k v = unfold release_probe in ground arith
  apply-IsValid (half_open now) k v = unfold move_key_to_half_open in ground arith
  apply-IsValid reset k v = unfold reset_key_failure_state in ground arith
  apply-IsValid (check_health now) k v = unfold is_key_healthy in ground arith

  -- With a positive half-open target, a run of any operations on a key for which the invariant `IsValid`
  -- holds ends in a key for which it holds.
  pub run-IsValid :
      (ops : List Op) (k : Key) → IsValid c k.metrics → IsValid c (run c ops k).metrics
  unfolding run
  run-IsValid [] k v = v
  run-IsValid (op ∷ ops) k v = run-IsValid ops (apply c op k) (apply-IsValid op k v)

  pub new_key_metrics-IsValid : (key url mask : String) → IsValid c (new_key_metrics key url mask)
  unfolding new_key_metrics
  new_key_metrics-IsValid key url mask = ground arith
