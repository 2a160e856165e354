-- ===== src/Requests/Pending.antt =====
-- Which record a pending request stands for, whatever happens to the other requests.
use ccx.Base.{
  ℕ, ℕ_eq, zero, suc, ◌+◌, ◌-◌, ◌≤◌, ◌≡◌, ◌≢◌, refl, sym, ◌∙◌, ap, Bool, true, false, Option, none,
  some, List, [], ◌∷◌, arith, ltb, get_elem?, get_elem?-drop, get_elem?-remove_at_lt,
  get_elem?-remove_at_ge, get_elem?-modify_ne, Option-cases, Bool-cases, inl, inr, remove_at,
  ltb→lt, ltb-false→le,
}
use ccx.Base.Dict.{lookup, delete, bind, lookup-delete, lookup-update_all, delete-IsDistinct}
use ccx.Breaker.{
  normalize_failure_class, class_none, Config, Key, KeyMetrics, FailureClass, RequestRecord,
  handle_breaker_success, handle_breaker_failure,
}
use ccx.Requests.{
  extract_usage_tokens, no_tokens, update_metrics, Tokens, Usage, is_recent, is_empty, first_recent,
  cut_history, cleanup_history, cancel_at, cancel, pending_index, settle_pending, close_gap,
  finalize, finalize_at, count_success, count_failure, write_outcome,
}
use ccx.Requests.Index.{IsIndexed}
use ccx.Requests.Counts.{add_record-metrics}

-- The record of a pending request.
unfoldable pub record_of : ℕ → KeyMetrics → Option RequestRecord
record_of id m = bind (lookup id m.pending_history_idx) (get_elem? m.request_history)

gap_keeps :
    (rs : List RequestRecord) (i id : ℕ) (o : Option ℕ)
    → o ≢ some i
    → bind (bind o (close_gap i id)) (get_elem? (remove_at rs i)) ≡ bind o (get_elem? rs)
gap_keeps rs i id none ne = refl
gap_keeps rs i id (some x) ne = elim (Bool-cases (ltb i x)) [
  | inl e ↦ rw e (
      let p : x ≡ suc (x - 1) = omega (arith, ltb→lt i x e) in
      get_elem?-remove_at_ge rs i (x - 1) (omega (arith, ltb→lt i x e)) ∙ ap (get_elem? rs) (sym p))
  | inr e ↦ rw e (
      let differ : x ≢ i = λ q. ne (ap some q) in
      get_elem?-remove_at_lt rs i x (omega (arith, ltb-false→le i x e)))
]

cancel_at_keeps :
    (id i id' : ℕ) (m : KeyMetrics)
    → IsIndexed m
    → lookup id m.pending_history_idx ≡ some i
    → id' ≢ id
    → record_of id' (cancel_at id i m) ≡ record_of id' m
unfolding record_of cancel_at
cancel_at_keeps id i id' m h e ne =
    let rest = delete id m.pending_history_idx in
    let same : lookup id' rest ≡ lookup id' m.pending_history_idx =
      ground (arith, lookup-delete id id' m.pending_history_idx) in
    rw (lookup-update_all, delete-IsDistinct id m.pending_history_idx h.distinct, same)
      (gap_keeps m.request_history i id' (lookup id' m.pending_history_idx)
        (λ clash. ne (h.injective id' id i clash e)))

pending_index-eq-some :
    (id i : ℕ) (m : KeyMetrics)
    → pending_index id m ≡ some i
    → lookup id m.pending_history_idx ≡ some i
unfolding pending_index
pending_index-eq-some id i m h = ground arith

-- Where the index of the pending requests is well formed, a cancellation leaves every other pending request its own record, although the records after the
-- cancelled one move up.
pub cancel_keeps_others :
    (id id' : ℕ) (k : Key)
    → IsIndexed k.metrics
    → id' ≢ id
    → record_of id' (cancel id k).metrics ≡ record_of id' k.metrics
unfolding cancel
cancel_keeps_others id id' k h ne = elim (Option-cases (pending_index id k.metrics)) [
  | inl e ↦ rw (e, cancel)
  | inr (i, e) ↦
      rw (e, cancel)
        (cancel_at_keeps id i id' k.metrics h (pending_index-eq-some id i k.metrics e) ne)
]

first_recent-le :
    (now i n : ℕ) (rs : List RequestRecord) (r : RequestRecord)
    → get_elem? rs n ≡ some r
    → is_recent now r ≡ true
    → (j : ℕ) × (first_recent now i rs ≡ some (i + j)) × (j ≤ n)
unfolding first_recent
first_recent-le now i n [] r e recent = absurd (cc)
first_recent-le now i zero (x ∷ rs) r e recent = (0, ground arith, omega arith)
first_recent-le now i (suc n) (x ∷ rs) r e recent = elim (Bool-cases (is_recent now x)) [
  | inl y ↦ (0, rw y (ground arith), omega arith)
  | inr y ↦
      let (j, found, le) = first_recent-le now (suc i) n rs r e recent in
      (j + 1, rw y (found ∙ ap some (omega arith)), omega arith)
]

record_of-eq-some :
    (id : ℕ) (m : KeyMetrics) (r : RequestRecord)
    → record_of id m ≡ some r
    → (i : ℕ) × (lookup id m.pending_history_idx ≡ some i)
      × (get_elem? m.request_history i ≡ some r)
unfolding record_of
record_of-eq-some id m r h = elim (Option-cases (lookup id m.pending_history_idx)) [
  | inl e ↦ absurd (ground arith)
  | inr (i, e) ↦ (i, e, ground arith)
]

cut_keeps :
    (j i id : ℕ) (m : KeyMetrics) (r : RequestRecord)
    → IsIndexed m
    → j ≤ i
    → lookup id m.pending_history_idx ≡ some i
    → get_elem? m.request_history i ≡ some r
    → record_of id (cut_history (some j) m) ≡ some r
unfolding record_of cut_history
cut_keeps zero i id m r h le e at_i = rw e at_i
cut_keeps (suc j) i id m r h le e at_i =
    let inside : ltb i (suc j) ≡ false = ground arith in
    let back : suc j + (i - suc j) ≡ i = omega arith in
    rw (lookup-update_all, h.distinct, e, inside)
      (get_elem?-drop (suc j) m.request_history (i - suc j)
        ∙ ap (get_elem? m.request_history) back
        ∙ at_i)

-- Where the index of the pending requests is well formed, the clean-up of the history keeps the record of every pending request of the last 24 hours.
pub cleanup_keeps_recent :
    (now id : ℕ) (m : KeyMetrics) (r : RequestRecord)
    → IsIndexed m
    → record_of id m ≡ some r
    → is_recent now r ≡ true
    → record_of id (cleanup_history now m) ≡ some r
unfolding cleanup_history
cleanup_keeps_recent now id m r h e recent =
    let (i, found, at_i) = record_of-eq-some id m r e in
    let (j, start, le) = first_recent-le now 0 i m.request_history r at_i recent in
    let at_j : first_recent now 0 m.request_history ≡ some j = start ∙ ap some (omega arith) in
    elim (Bool-cases (is_empty m.request_history)) [
      | inl y ↦ rw (y, cleanup_history) e
      | inr y ↦ rw (y, at_j, cleanup_history) (cut_keeps j i id m r h le found at_i)
    ]

-- Neither handler of the breaker looks at the history.
record SameRequests (m m' : KeyMetrics) : Type 0 where
  pending : m'.pending_history_idx ≡ m.pending_history_idx
  history : m'.request_history ≡ m.request_history

breaker_success-SameRequests :
    (c : Config) (now : ℕ) (k : Key)
    → SameRequests k.metrics (handle_breaker_success c now k).metrics
unfolding handle_breaker_success
breaker_success-SameRequests c now k = ground arith

breaker_failure-SameRequests :
    (c : Config) (class : FailureClass) (now : ℕ) (k : Key)
    → SameRequests k.metrics (handle_breaker_failure c class now k).metrics
unfolding handle_breaker_failure
breaker_failure-SameRequests c class now k = ground arith

record_of-SameRequests :
    (id : ℕ) (m m' : KeyMetrics) → SameRequests m m' → record_of id m' ≡ record_of id m
unfolding record_of
record_of-SameRequests id m m' h = rw (h.pending, h.history)

settle_pending_keeps :
    (id i id' : ℕ) (success : Bool) (class : FailureClass) (t : Tokens) (m : KeyMetrics)
    → IsIndexed m
    → lookup id m.pending_history_idx ≡ some i
    → id' ≢ id
    → record_of id' (settle_pending id i success class t m) ≡ record_of id' m
unfolding record_of settle_pending
settle_pending_keeps id i id' success class t m h e ne =
    let same : lookup id' (delete id m.pending_history_idx) ≡ lookup id' m.pending_history_idx =
      ground (arith, lookup-delete id id' m.pending_history_idx) in
    elim (Option-cases (lookup id' m.pending_history_idx)) [
      | inl y ↦ rw (same, y)
      | inr (j, y) ↦
          rw (same, y)
            (get_elem?-modify_ne (write_outcome success class t) m.request_history i j
              (λ clash. ne (h.injective id' id i (y ∙ ap some (sym clash)) e)))
    ]

SameRequests-trans :
    {m m' m'' : KeyMetrics} → SameRequests m m' → SameRequests m' m'' → SameRequests m m''
SameRequests-trans h g = record { pending = g.pending ∙ h.pending; history = g.history ∙ h.history }

count_success-SameRequests :
    (c : Config) (now : ℕ) (k : Key) → SameRequests k.metrics (count_success c now k).metrics
unfolding count_success
count_success-SameRequests c now k = record { pending = refl; history = refl }

count_failure-SameRequests :
    (c : Config) (now : ℕ) (k : Key) → SameRequests k.metrics (count_failure c now k).metrics
unfolding count_failure
count_failure-SameRequests c now k = record { pending = refl; history = refl }

abbrev outcome_tokens : Bool → Option Usage → Tokens
outcome_tokens true usage = extract_usage_tokens usage
outcome_tokens false usage = no_tokens

-- But for the pending index and the record at `i`, an outcome does not touch the requests.
finalize_at-SameRequests :
    (c : Config) (id i : ℕ) (success : Bool) (class : FailureClass) (usage : Option Usage) (now : ℕ)
    (k : Key)
    → SameRequests
        (settle_pending id i success
          (normalize_failure_class success class)
          (outcome_tokens success usage)
          k.metrics)
        (finalize_at c id i success class usage now k).metrics
unfolding finalize_at
finalize_at-SameRequests c id i true class usage now k =
    let t = extract_usage_tokens usage in
    let settled = update_metrics (settle_pending id i true class_none t) k in
    unfold normalize_failure_class in
    rw add_record-metrics (
      SameRequests-trans {m' = (count_success c now settled).metrics}
        (count_success-SameRequests c now settled)
        (breaker_success-SameRequests c now (count_success c now settled)))
finalize_at-SameRequests c id i false class usage now k =
    let class' = normalize_failure_class false class in
    let settled = update_metrics (settle_pending id i false class' no_tokens) k in
    rw add_record-metrics (
      SameRequests-trans {m' = (count_failure c now settled).metrics}
        (count_failure-SameRequests c now settled)
        (breaker_failure-SameRequests c class' now (count_failure c now settled)))

-- Where the index of the pending requests is well formed, the outcome of a pending request leaves every other pending request its own record.
pub finalize_keeps_others :
    (c : Config) (id i id' : ℕ) (success : Bool) (class : FailureClass) (usage : Option Usage)
    (now : ℕ) (k : Key)
    → IsIndexed k.metrics
    → pending_index id k.metrics ≡ some i
    → id' ≢ id
    → record_of id' (finalize c id success class usage now k).metrics ≡ record_of id' k.metrics
unfolding finalize
finalize_keeps_others c id i id' success class usage now k h e ne =
    let class' = normalize_failure_class success class in
    let t = outcome_tokens success usage in
    rw (e, finalize)
      (record_of-SameRequests id' (settle_pending id i success class' t k.metrics)
          (finalize_at c id i success class usage now k).metrics
          (finalize_at-SameRequests c id i success class usage now k)
        ∙ settle_pending_keeps id i id' success class' t k.metrics h
            (pending_index-eq-some id i k.metrics e) ne)
