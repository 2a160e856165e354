-- ===== src/Breaker/Ops.antt =====
-- The operations on one key as data, and runs of them.
use ccx.Base.{ℕ, List, [], ◌∷◌}
use ccx.Breaker.{
  Config, Key, FailureClass, handle_breaker_success, handle_breaker_failure,
  advance_circuit_state_if_due, try_acquire_probe, release_probe, move_key_to_half_open,
  reset_key_failure_state, is_key_healthy,
}

-- Each with the instant at which the lock is held.
pub data Op : Type 0 where
  succeed : ℕ → Op
  fail : FailureClass → ℕ → Op
  advance : ℕ → Op
  acquire : ℕ → Op
  release : Op
  half_open : ℕ → Op
  reset : Op
  check_health : ℕ → Op

unfoldable pub apply : Config → Op → Key → Key
apply c (succeed now) k = handle_breaker_success c now k
apply c (fail class now) k = handle_breaker_failure c class now k
apply c (advance now) k = advance_circuit_state_if_due c now k
apply c (acquire now) k = (try_acquire_probe c now k).0
apply c release k = release_probe k
apply c (half_open now) k = move_key_to_half_open c now k
apply c reset k = reset_key_failure_state c k
apply c (check_health now) k = (is_key_healthy c now k).0

unfoldable pub run : Config → List Op → Key → Key
run c [] k = k
run c (op ∷ ops) k = run c ops (apply c op k)
