-- ===== src/Breaker/Persist.antt =====
-- The rows that a key writes to the persistence store.
use ccx.Base.{
  ℕ, ◌+◌, ◌≡◌, refl, true, false, ◌&&◌, List, [], ◌∷◌, ◌++◌, arith, Bool-cases, inl, inr, leb,
}
use ccx.Breaker.{
  Config, Key, KeyMetrics, CircuitState, state_closed, state_open, state_half_open,
  PersistentCircuitState, circuit_state_string, parse_circuit_state, advance_circuit_state_if_due,
  handle_breaker_success, handle_breaker_failure, try_acquire_probe, release_probe,
  move_key_to_half_open, reset_key_failure_state, is_key_healthy, circuit_row,
  persist_circuit_state, is_open, is_due, note_success, note_failure, settle_success,
  settle_failure, is_key_circuit_broken, FailureClass, is_breaker_relevant, normalize_failure_class,
}
use ccx.Breaker.Ops.{
  Op, succeed, fail, advance, acquire, release, half_open, reset, check_health, apply, run,
}

-- A stored state reads back as the state that was written.
pub parse-circuit_state_string :
    (s : CircuitState) → parse_circuit_state (circuit_state_string s) ≡ s
unfolding parse_circuit_state circuit_state_string
parse-circuit_state_string state_closed = refl
parse-circuit_state_string state_open = refl
parse-circuit_state_string state_half_open = refl

-- The row in the store, after the upserts; `d` before the first.
abbrev pub last_row : List PersistentCircuitState → PersistentCircuitState → PersistentCircuitState
last_row [] d = d
last_row (r ∷ rs) d = last_row rs r

last_row-append :
    (rs : List PersistentCircuitState) (r d : PersistentCircuitState)
    → last_row (rs ++ r ∷ []) d ≡ r
last_row-append [] r d = refl
last_row-append (x ∷ rs) r d = last_row-append rs r x

-- The stored row agrees with the key, but for the failures in a row.
pub record Agrees (m : KeyMetrics) (r : PersistentCircuitState) : Type 0 where
  pub state : r.circuit_state ≡ circuit_state_string m.circuit_state
  pub opened : r.circuit_opened_at ≡ m.circuit_broken_at
  pub half : r.half_open_at ≡ m.half_open_at
  pub retry : r.next_retry_at ≡ m.next_retry_at
  pub level : r.backoff_level ≡ m.backoff_level
  pub successes : r.half_open_successes ≡ m.half_open_successes

module _ (c : Config) (stored : c.has_store ≡ true) (d : PersistentCircuitState) where
  abbrev Synced : Key → Type 0
  Synced k = Agrees k.metrics (last_row k.upserts d)

  persist-Synced : (k : Key) → Synced (persist_circuit_state c k)
  unfolding persist_circuit_state circuit_row
  persist-Synced k = rw stored (
      rw last_row-append (record {
        state = refl;
        opened = refl;
        half = refl;
        retry = refl;
        level = refl;
        successes = refl;
      }))

  advance-Synced : (now : ℕ) (k : Key) → Synced k → Synced (advance_circuit_state_if_due c now k)
  unfolding advance_circuit_state_if_due
  advance-Synced now k h =
      elim (Bool-cases (is_open k.metrics.circuit_state && is_due now k.metrics.next_retry_at)) [
        | inl e ↦ rw e (persist-Synced _)
        | inr e ↦ rw e h
      ]

  note_success-Synced : (k : Key) → Synced k → Synced (note_success c k)
  unfolding note_success
  note_success-Synced k h = record {
    state = h.state;
    opened = h.opened;
    half = h.half;
    retry = h.retry;
    level = h.level;
    successes = h.successes;
  }

  note_failure-Synced : (k : Key) → Synced k → Synced (note_failure c k)
  unfolding note_failure
  note_failure-Synced k h = record {
    state = h.state;
    opened = h.opened;
    half = h.half;
    retry = h.retry;
    level = h.level;
    successes = h.successes;
  }

  settle_success-Synced : (s : CircuitState) (k : Key) → Synced k → Synced (settle_success c s k)
  unfolding settle_success
  settle_success-Synced state_half_open k h =
      elim (Bool-cases (leb c.half_open_target (k.metrics.half_open_successes + 1))) [
        | inl e ↦ rw e (persist-Synced _)
        | inr e ↦ rw e (persist-Synced _)
      ]
  settle_success-Synced state_open k h = persist-Synced _
  settle_success-Synced state_closed k h = h

  settle_failure-Synced :
      (s : CircuitState) (now : ℕ) (k : Key) → Synced k → Synced (settle_failure c s now k)
  unfolding settle_failure
  settle_failure-Synced state_half_open now k h = persist-Synced _
  settle_failure-Synced state_open now k h = h
  settle_failure-Synced state_closed now k h =
      elim (Bool-cases (is_key_circuit_broken c k.metrics)) [
        | inl e ↦ rw e (persist-Synced _)
        | inr e ↦ rw e h
      ]

  fail-Synced :
      (class : FailureClass) (now : ℕ) (k : Key)
      → Synced k
      → Synced (handle_breaker_failure c class now k)
  unfolding handle_breaker_failure
  fail-Synced class now k h =
      let a = advance_circuit_state_if_due c now k in
      let synced = advance-Synced now k h in
      let b = note_failure c a in
      elim (Bool-cases (is_breaker_relevant (normalize_failure_class false class))) [
        | inl e ↦
            rw e
              (settle_failure-Synced b.metrics.circuit_state now b (note_failure-Synced a synced))
        | inr e ↦ rw e synced
      ]

  apply-Synced : (op : Op) (k : Key) → Synced k → Synced (apply c op k)
  unfolding apply circuit_row
  apply-Synced (succeed now) k h =
      let a = note_success c (advance_circuit_state_if_due c now k) in
      unfold handle_breaker_success in
      settle_success-Synced a.metrics.circuit_state a
        (note_success-Synced (advance_circuit_state_if_due c now k) (advance-Synced now k h))
  apply-Synced (fail class now) k h = fail-Synced class now k h
  apply-Synced (advance now) k h = advance-Synced now k h
  apply-Synced (acquire now) k h = unfold try_acquire_probe in grind (arith, last_row-append)
  apply-Synced release k h = unfold release_probe in grind (arith, last_row-append)
  apply-Synced (half_open now) k h = unfold move_key_to_half_open in grind (arith, last_row-append)
  apply-Synced reset k h = unfold reset_key_failure_state in grind (arith, last_row-append)
  apply-Synced (check_health now) k h = unfold is_key_healthy in grind (arith, last_row-append)

  -- With a store, the stored row agrees with the key after every run of operations, if it did
  -- before: the state, its instants, the backoff level and the half-open successes.
  pub run-Synced : (ops : List Op) (k : Key) → Synced k → Synced (run c ops k)
  unfolding run
  run-Synced [] k h = h
  run-Synced (op ∷ ops) k h = run-Synced ops (apply c op k) (apply-Synced op k h)
