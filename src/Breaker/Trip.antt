-- ===== src/Breaker/Trip.antt =====
-- When a key opens: backend-go/internal/metrics/channel_metrics.go.
use ccx.Base.{ℕ, suc, ◌+◌, ◌*◌, ◌≤◌, ◌≡◌, ◌⊎◌, inr, true, false, [], ◌∷◌, arith, ◌^◌, min, List}
use ccx.Breaker.{
  Config, Key, KeyMetrics, FailureClass, retryable, state_closed, state_open,
  is_breaker_relevant_failure, handle_breaker_failure, try_acquire_probe,
}
use ccx.Breaker.Ops.{fail, apply, run}

-- Open, or closed with at least `n` failures in a row.
abbrev Failing : ℕ → KeyMetrics → Type 0
Failing n m =
    (m.circuit_state ≡ state_open)
    ⊎ ((m.circuit_state ≡ state_closed) × (n ≤ m.consecutive_failures))

module _ (c : Config) where
  failure-Failing :
      (n : ℕ) (class : FailureClass) (now : ℕ) (k : Key)
      → is_breaker_relevant_failure false class ≡ true
      → Failing n k.metrics
      → Failing (n + 1) (handle_breaker_failure c class now k).metrics
  unfolding handle_breaker_failure is_breaker_relevant_failure
  failure-Failing n class now k relevant h = ground arith

  failure_opens :
      (class : FailureClass) (now : ℕ) (k : Key)
      → is_breaker_relevant_failure false class ≡ true
      → Failing 2 k.metrics
      → (handle_breaker_failure c class now k).metrics.circuit_state ≡ state_open
  unfolding handle_breaker_failure is_breaker_relevant_failure
  failure_opens class now k relevant h = ground arith

  -- Three breaker-relevant failures in a row leave a closed key open, whatever its window holds and
  -- however far apart they are.
  pub three_failures_open :
      (a b d : FailureClass) (s t u : ℕ) (k : Key)
      → is_breaker_relevant_failure false a ≡ true
      → is_breaker_relevant_failure false b ≡ true
      → is_breaker_relevant_failure false d ≡ true
      → k.metrics.circuit_state ≡ state_closed
      → (run c (fail a s ∷ fail b t ∷ fail d u ∷ []) k).metrics.circuit_state ≡ state_open
  unfolding run apply
  three_failures_open a b d s t u k ra rb rd closed =
      let k₁ = handle_breaker_failure c a s k in
      let k₂ = handle_breaker_failure c b t k₁ in
      failure_opens d u k₂ rd
        (failure-Failing 1 b t k₁ rb (failure-Failing 0 a s k ra (inr (closed, omega arith))))

  -- The rounds of probes that fail: the instants at which each is asked for and fails. The first component is the
  -- number of probes that were granted.
  unfoldable pub failed_probes : List (ℕ × ℕ) → Key → ℕ × Key
  unfolding try_acquire_probe
  failed_probes [] k = (0, k)
  failed_probes ((asked, failed) ∷ rounds) k =
      let probe = try_acquire_probe c asked k in
      let rest = failed_probes rounds (handle_breaker_failure c retryable failed probe.0) in
      elim probe.1 [ true ↦ (suc rest.0, rest.1) | false ↦ rest ]

  -- The delay at a level: doubled by each level, and capped.
  abbrev pub delay : ℕ → ℕ
  delay level = min (c.backoff_base * 2 ^ level) c.backoff_max

  -- Each probe is asked for at the instant of the retry or later.
  abbrev pub IsPatient : ℕ → ℕ → List (ℕ × ℕ) → Type 0
  IsPatient level t [] = Unit
  IsPatient level t ((asked, failed) ∷ rounds) =
      (t ≤ asked) × IsPatient (level + 1) (failed + delay (level + 1)) rounds

  -- The retry instant after the rounds: that of a delay after the last failure.
  abbrev pub retry_after : ℕ → ℕ → List (ℕ × ℕ) → ℕ
  retry_after level t [] = t
  retry_after level t ((asked, failed) ∷ rounds) =
      retry_after (level + 1) (failed + delay (level + 1)) rounds
