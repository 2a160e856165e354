-- ===== src/Breaker/Probe.antt =====
-- The half-open probe: backend-go/internal/metrics/channel_metrics.go.
use ccx.Base.{
  ℕ, ◌+◌, ◌*◌, ◌≡◌, refl, Bool, true, false, some, List, [], ◌∷◌, arith, ◌^◌, min, leb, any,
  Bool-cases, inl, inr,
}
use ccx.Breaker.{
  Config, Key, state_open, state_half_open, advance_circuit_state_if_due, try_acquire_probe,
  is_key_healthy, is_breaker_relevant_failure, handle_breaker_failure,
}
use ccx.Breaker.Ops.{
  Op, succeed, fail, advance, acquire, release, half_open, reset, check_health, apply, run,
}
use ccx.Breaker.Invariant.{IsValid}
use ccx.Breaker.Backoff.{next_backoff_duration-min}

-- Whether the operation can end a probe: a release, a success or a failure that counts, of any request, a forced
-- move to half-open, or a reset.
unfoldable pub ends_probe : Op → Bool
unfolding is_breaker_relevant_failure
ends_probe (succeed now) = true
ends_probe (fail class now) = is_breaker_relevant_failure false class
ends_probe (advance now) = false
ends_probe (acquire now) = false
ends_probe release = true
ends_probe (half_open now) = true
ends_probe reset = true
ends_probe (check_health now) = false

module _ (c : Config) where
  abbrev Held : Key → Type 0
  Held k = (k.metrics.circuit_state ≡ state_half_open) × (k.metrics.probe_in_flight ≡ true)

  apply-Held : (op : Op) (k : Key) → ends_probe op ≡ false → Held k → Held (apply c op k)
  unfolding apply ends_probe
  apply-Held (succeed now) k q h = absurd (ground (arith, q))
  apply-Held (fail class now) k q h = unfold handle_breaker_failure in ground (arith, q, h)
  apply-Held (advance now) k q h = unfold advance_circuit_state_if_due in ground arith
  apply-Held (acquire now) k q h = unfold try_acquire_probe in ground arith
  apply-Held release k q h = absurd (ground (arith, q))
  apply-Held (half_open now) k q h = absurd (ground (arith, q))
  apply-Held reset k q h = absurd (ground (arith, q))
  apply-Held (check_health now) k q h = unfold is_key_healthy in ground arith

  try_acquire_probe-Held : (later : ℕ) (k : Key) → Held k → (try_acquire_probe c later k).1 ≡ false
  unfolding try_acquire_probe
  try_acquire_probe-Held later k h = ground arith

  run-Held :
      (later : ℕ) (ops : List Op) (k : Key)
      → Held k
      → (try_acquire_probe c later (run c ops k)).1 ≡ true
      → any ends_probe ops ≡ true
  unfolding run
  run-Held later [] k h g = absurd (ground (arith, try_acquire_probe-Held later k h, g))
  run-Held later (op ∷ ops) k h g = elim (Bool-cases (ends_probe op)) [
    | inl e ↦ rw e refl
    | inr e ↦ rw e (run-Held later ops (apply c op k) (apply-Held op k e h) g)
  ]

  acquire-Held :
      (now : ℕ) (k : Key)
      → (try_acquire_probe c now k).1 ≡ true
      → Held (try_acquire_probe c now k).0
  unfolding try_acquire_probe
  acquire-Held now k h = ground arith

  -- If a key grants a probe, and after any operations on it grants another one, then one of those operations was a
  -- release, the record of a success or of a failure that counts for the breaker (of any request), a forced move
  -- to half-open, or a reset.
  pub probe_exclusive :
      (now later : ℕ) (ops : List Op) (k : Key)
      → (try_acquire_probe c now k).1 ≡ true
      → (try_acquire_probe c later (run c ops (try_acquire_probe c now k).0)).1 ≡ true
      → any ends_probe ops ≡ true
  probe_exclusive now later ops k h g =
      run-Held later ops (try_acquire_probe c now k).0 (acquire-Held now k h) g

  -- A key that satisfies the invariant and opened at `t` grants a probe exactly from the end of its doubled and capped delay on.
  pub probe_granted_iff_due :
      (now t : ℕ) (k : Key)
      → IsValid c k.metrics
      → k.metrics.circuit_state ≡ state_open
      → k.metrics.circuit_broken_at ≡ some t
      → (try_acquire_probe c now k).1
        ≡ leb (t + min (c.backoff_base * 2 ^ k.metrics.backoff_level) c.backoff_max) now
  unfolding try_acquire_probe
  probe_granted_iff_due now t k v o b =
      ground (arith, v.open_until o, next_backoff_duration-min c k.metrics.backoff_level)
