-- ===== src/Requests/Counts.antt =====
-- The counters of a key: backend-go/internal/metrics/channel_metrics.go.
use ccx.Base.{
  ℕ, ◌+◌, ◌≡◌, Bool, true, false, not, Option, String, arith, if◌then◌else◌, Option-cases, inl, inr,
}
use ccx.Breaker.{
  class_none, normalize_failure_class, Config, Key, KeyMetrics, FailureClass,
  handle_breaker_success, handle_breaker_failure,
}
use ccx.Requests.{
  Usage, Tokens, no_tokens, extract_usage_tokens, update_metrics, finalize, finalize_at,
  pending_index, record_success, record_failure, count_success, count_failure, settle_pending,
  append_to_history, cleanup_history, cut_history, first_recent, add_record,
}

-- The three counters move by the given numbers.
pub record Counted (m m' : KeyMetrics) (requests successes failures : ℕ) : Type 0 where
  pub requests_by : m'.request_count ≡ m.request_count + requests
  pub successes_by : m'.success_count ≡ m.success_count + successes
  pub failures_by : m'.failure_count ≡ m.failure_count + failures

abbrev pub bit : Bool → ℕ
bit true = 1
bit false = 0

breaker_success-Counted :
    (c : Config) (now : ℕ) (k : Key)
    → Counted k.metrics (handle_breaker_success c now k).metrics 0 0 0
unfolding handle_breaker_success
breaker_success-Counted c now k = ground arith

breaker_failure-Counted :
    (c : Config) (class : FailureClass) (now : ℕ) (k : Key)
    → Counted k.metrics (handle_breaker_failure c class now k).metrics 0 0 0
unfolding handle_breaker_failure
breaker_failure-Counted c class now k = ground arith

cut_history-Counted : (o : Option ℕ) (m : KeyMetrics) → Counted m (cut_history o m) 0 0 0
unfolding cut_history
cut_history-Counted o m = ground arith

cleanup-Counted : (now : ℕ) (m : KeyMetrics) → Counted m (cleanup_history now m) 0 0 0
unfolding cleanup_history
cleanup-Counted now m = ground (arith, cut_history-Counted (first_recent now 0 m.request_history) m)

append_to_history-Counted :
    (now : ℕ) (success : Bool) (class : FailureClass) (t : Tokens) (m : KeyMetrics)
    → Counted m (append_to_history now success class t m) 0 0 0
unfolding append_to_history
append_to_history-Counted now success class t m =
    let h = cleanup-Counted now _ in
    record {
      requests_by = h.requests_by;
      successes_by = h.successes_by;
      failures_by = h.failures_by;
    }

pub add_record-metrics :
    (c : Config) (at : ℕ) (success : Bool) (class : FailureClass) (t : Tokens) (model : String)
    (k : Key)
    → (add_record c at success class t model k).metrics ≡ k.metrics
unfolding add_record
add_record-metrics c at success class t model k = ground arith

-- A step that moves no counter may follow one that does.
Counted-then :
    {m m' m'' : KeyMetrics} {r s f : ℕ}
    → Counted m m' r s f
    → Counted m' m'' 0 0 0
    → Counted m m'' r s f
Counted-then h g = omega arith

Counted-after :
    {m m' m'' : KeyMetrics} {r s f : ℕ}
    → Counted m m' 0 0 0
    → Counted m' m'' r s f
    → Counted m m'' r s f
Counted-after h g = omega arith

settle-Counted :
    (id i : ℕ) (success : Bool) (class : FailureClass) (t : Tokens) (m : KeyMetrics)
    → Counted m (settle_pending id i success class t m) 0 0 0
unfolding settle_pending
settle-Counted id i success class t m = omega arith

count_success-Counted :
    (c : Config) (now : ℕ) (k : Key) → Counted k.metrics (count_success c now k).metrics 1 1 0
unfolding count_success
count_success-Counted c now k = ground arith

count_failure-Counted :
    (c : Config) (now : ℕ) (k : Key) → Counted k.metrics (count_failure c now k).metrics 1 0 1
unfolding count_failure
count_failure-Counted c now k = ground arith

module _ (c : Config) (now : ℕ) where
  record_success-Counted :
      (usage : Option Usage) (k : Key)
      → Counted k.metrics (record_success c usage now k).metrics 1 1 0
  unfolding record_success
  record_success-Counted usage k = rw add_record-metrics (
      Counted-then (Counted-then (count_success-Counted c now k) (breaker_success-Counted c now _))
        (append_to_history-Counted now true _ _ _))

  record_failure-Counted :
      (class : FailureClass) (k : Key)
      → Counted k.metrics (record_failure c class now k).metrics 1 0 1
  unfolding record_failure
  record_failure-Counted class k = rw add_record-metrics (
      Counted-then
        (Counted-then (count_failure-Counted c now k) (breaker_failure-Counted c class now _))
        (append_to_history-Counted now false _ _ _))

  finalize_at-Counted :
      (id i : ℕ) (success : Bool) (class : FailureClass) (usage : Option Usage) (k : Key)
      → Counted k.metrics
          (finalize_at c id i success class usage now k).metrics
          1
          (bit success)
          (bit (not success))
  unfolding finalize_at
  finalize_at-Counted id i true class usage k =
      let t = extract_usage_tokens usage in
      let settled = update_metrics (settle_pending id i true class_none t) k in
      rw add_record-metrics (
        Counted-then
          (Counted-after (settle-Counted id i true _ _ k.metrics)
            (count_success-Counted c now settled))
          (breaker_success-Counted c now (count_success c now settled)))
  finalize_at-Counted id i false class usage k =
      let class' = normalize_failure_class false class in
      let settled = update_metrics (settle_pending id i false class' no_tokens) k in
      rw add_record-metrics (
        Counted-then
          (Counted-after (settle-Counted id i false _ _ k.metrics)
            (count_failure-Counted c now settled))
          (breaker_failure-Counted c class' now (count_failure c now settled)))

  -- Every outcome is counted once, whether or not its request is still in the history: one request
  -- more, and one success or one failure more.
  pub finalize-Counted :
      (id : ℕ) (success : Bool) (class : FailureClass) (usage : Option Usage) (k : Key)
      → Counted k.metrics
          (finalize c id success class usage now k).metrics
          1
          (bit success)
          (bit (not success))
  unfolding finalize
  finalize-Counted id success class usage k = elim (Option-cases (pending_index id k.metrics)) [
    | inl e ↦ rw (e, finalize) (fallback success)
    | inr (i, e) ↦ rw (e, finalize) (finalize_at-Counted id i success class usage k)
  ]
    where
      fallback :
          (success : Bool)
          → Counted k.metrics
              (if success
                then record_success c usage now k
                else record_failure c (normalize_failure_class false class) now k).metrics
              1
              (bit success)
              (bit (not success))
      fallback true = record_success-Counted usage k
      fallback false = record_failure-Counted _ k
