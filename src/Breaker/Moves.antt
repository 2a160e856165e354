-- ===== src/Breaker/Moves.antt =====
-- How the circuit state of a key may move.
use ccx.Base.{ℕ, ◌≡◌, Bool, true, false, ◌||◌, Option, arith}
use ccx.Breaker.{
  Config, Key, CircuitState, state_closed, state_open, state_half_open, is_breaker_relevant_failure,
  is_due, advance_circuit_state_if_due, handle_breaker_success, handle_breaker_failure,
  try_acquire_probe, release_probe, move_key_to_half_open, reset_key_failure_state, is_key_healthy,
}
use ccx.Breaker.Ops.{
  Op, succeed, fail, advance, acquire, release, half_open, reset, check_health, apply,
}

abbrev pub is_success : Op → Bool
is_success (succeed now) = true
is_success _ = false

abbrev pub is_relevant_failure : Op → Bool
is_relevant_failure (fail class now) = is_breaker_relevant_failure false class
is_relevant_failure _ = false

abbrev pub is_forced : Op → Bool
is_forced (half_open now) = true
is_forced _ = false

abbrev pub is_reset : Op → Bool
is_reset reset = true
is_reset _ = false

-- The retry instant has come when the operation runs.
abbrev pub retries : Option ℕ → Op → Bool
retries at (succeed now) = is_due now at
retries at (fail class now) = is_due now at
retries at (advance now) = is_due now at
retries at (acquire now) = is_due now at
retries at (check_health now) = is_due now at
retries at _ = false

-- The state diagram: what each change of state needs of the operation and of the retry instant.
abbrev pub may_move : Option ℕ → Op → CircuitState → CircuitState → Bool
may_move at op state_closed state_open = is_relevant_failure op
may_move at op state_closed state_half_open = is_forced op
may_move at op state_open state_half_open = is_forced op || retries at op
may_move at op state_open state_closed = is_success op || is_reset op
may_move at op state_half_open state_open = is_relevant_failure op
may_move at op state_half_open state_closed = is_success op || is_reset op
may_move at op s s' = true

-- Every operation moves the circuit state along the diagram: a closed or half-open key opens only on
-- a breaker-relevant failure, an open key turns half-open only by force or once its retry instant has
-- come, and a key closes only on a success or a reset.
pub apply-may_move :
    (c : Config) (op : Op) (k : Key)
    → may_move k.metrics.next_retry_at op k.metrics.circuit_state
        (apply c op k).metrics.circuit_state
      ≡ true
unfolding apply is_breaker_relevant_failure
apply-may_move c (succeed now) k = unfold handle_breaker_success in ground arith
apply-may_move c (fail class now) k = unfold handle_breaker_failure in ground arith
apply-may_move c (advance now) k = unfold advance_circuit_state_if_due in ground arith
apply-may_move c (acquire now) k = unfold try_acquire_probe in ground arith
apply-may_move c release k = unfold release_probe in ground arith
apply-may_move c (half_open now) k = unfold move_key_to_half_open in ground arith
apply-may_move c reset k = unfold reset_key_failure_state in ground arith
apply-may_move c (check_health now) k = unfold is_key_healthy in ground arith
